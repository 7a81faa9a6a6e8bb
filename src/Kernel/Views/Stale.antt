-- ===== src/Kernel/Views/Stale.antt =====
-- crates/rg-kernel/src/lib.rs: which summaries `mark_summaries_stale` marks.
use hotgraph.Prelude.{
  String, List, [], ◌∷◌, Option, none, some, ◌≡◌, ◌∙◌, ap, Bool, true, ◌||◌, arith, string_ord,
  ◌==◌, eq_iff, Option-cases, inl, inr,
}
use hotgraph.Prelude.Lists.{contains, any}
use hotgraph.Prelude.Map.{
  BTreeMap, get, get_or, insert, keys, contains_key, contains_key-insert, contains-keys, get-insert,
}
use hotgraph.Kernel.Atom.{AtomId}
use hotgraph.Kernel.Views.{
  BTreeSet, MaintainedViews, MaintainedSummaryStatus, IncrementalSequence, extend,
  dependent_summaries, stale_status, mark_each, mark_summaries_stale, summary_status,
}

pub contains_key-extend :
    (set : BTreeSet AtomId) (ids : List AtomId) (id : AtomId)
    → contains_key (extend set ids) id ≡ (contains_key set id || contains ids id)
unfolding extend contains
contains_key-extend set [] id = ground arith
contains_key-extend set (i ∷ ids) id =
    contains_key-extend (insert set i tt) ids id ∙ ground (arith, contains_key-insert set i tt id)

-- the summaries that depend on an atom
abbrev pub dependents_of : MaintainedViews → AtomId → List AtomId
dependents_of v root = keys (get_or (get v.summary_dependents root) [])

contains_key-dependent_summaries :
    (v : MaintainedViews) (stale : BTreeSet AtomId) (roots : List AtomId) (id : AtomId)
    → contains_key (dependent_summaries v.summary_dependents stale roots) id
      ≡ (contains_key stale id || any (λ root. contains (dependents_of v root) id) roots)
unfolding dependent_summaries any
contains_key-dependent_summaries v stale [] id = ground arith
contains_key-dependent_summaries v stale (root ∷ roots) id =
    contains_key-dependent_summaries v (extend stale (dependents_of v root)) roots id
    ∙ ground (arith, contains_key-extend stale (dependents_of v root) id)

-- A status that is marked or not.
abbrev pub marked_status :
    Bool
    → IncrementalSequence
    → String
    → Option MaintainedSummaryStatus
    → Option MaintainedSummaryStatus
marked_status true sequence reason (some s) =
    some
      (record s { is_stale = true; stale_since = some sequence; invalidation_reason = some reason })
marked_status _ sequence reason s = s

module _ (sequence : IncrementalSequence) (reason : String) where
  marked_status-twice :
      (b c : Bool) (s : Option MaintainedSummaryStatus)
      → marked_status b sequence reason (marked_status c sequence reason s)
        ≡ marked_status (c || b) sequence reason s
  marked_status-twice b c none = ground arith
  marked_status-twice b c (some s) = ground arith

  abbrev mark_one :
      BTreeMap AtomId MaintainedSummaryStatus → AtomId → BTreeMap AtomId MaintainedSummaryStatus
  mark_one m i = elim (get m i) as (λ _. BTreeMap AtomId MaintainedSummaryStatus) [
    | none ↦ m
    | some status ↦ insert m i (stale_status status sequence reason)
  ]

  get-mark_one :
      (m : BTreeMap AtomId MaintainedSummaryStatus) (i id : AtomId)
      → get (mark_one m i) id ≡ marked_status (i == id) sequence reason (get m id)
  get-mark_one m i id = elim (Option-cases (get m i)) [
    | inl missing ↦ ground (arith, eq_iff i id)
    | inr (s, known) ↦
        ground (arith, get-insert m i (stale_status s sequence reason) id, eq_iff i id)
  ]

  get-mark_each :
      (m : BTreeMap AtomId MaintainedSummaryStatus) (ids : List AtomId) (id : AtomId)
      → get (mark_each m ids sequence reason) id
        ≡ marked_status (contains ids id) sequence reason (get m id)
  unfolding mark_each contains
  get-mark_each m [] id = ground arith
  get-mark_each m (i ∷ ids) id =
      get-mark_each (mark_one m i) ids id
      ∙ ap (marked_status (contains ids id) sequence reason) (get-mark_one m i id)
      ∙ marked_status-twice (contains ids id) (i == id) (get m id)

  -- A summary is among those returned exactly when it depends on one of the roots. Its status, if it
  -- has one, then becomes stale since this sequence number and for this reason; the status of every
  -- other summary stays.
  pub mark_summaries_stale_lem :
      (v : MaintainedViews) (roots : List AtomId) (id : AtomId)
      → let affected = any (λ root. contains (dependents_of v root) id) roots in
        let (after, stale) = mark_summaries_stale v roots sequence reason in
        (contains stale id ≡ affected)
        × (summary_status after id ≡ marked_status affected sequence reason (summary_status v id))
  unfolding mark_summaries_stale summary_status any contains_key get
  mark_summaries_stale_lem v roots id =
      let found = dependent_summaries v.summary_dependents [] roots in
      let e = contains-keys found id ∙ contains_key-dependent_summaries v [] roots id in
      (
        e,
        get-mark_each v.summaries (keys found) id
            ∙ ap (λ b. marked_status b sequence reason (get v.summaries id)) e,
      )
