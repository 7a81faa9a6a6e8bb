-- ===== src/Kernel/Views.antt =====
-- crates/rg-kernel/src/lib.rs: `MaintainedViews`, what the incremental computation keeps up.
pub mod Stale
use hotgraph.Prelude.{
  ℕ, String, List, [], ◌∷◌, ◌++◌, Option, none, some, Ord, ◌==◌, cmp, Ordering, nat_ord, string_ord,
  Bool, true, false, if◌then◌else◌, ◌≡◌, refl, arith, lt, ◌∙◌, sym, ap,
}
use hotgraph.Prelude.Order.{flip}
use hotgraph.Prelude.Lists.{sort_dedup}
use hotgraph.Prelude.Map.{BTreeMap, get, get_or, insert, keys, contains_key}
use hotgraph.Core.Types.{AgentId, SourceId}
use hotgraph.Kernel.Atom.{AtomId, EntityRef, BeliefState, RealityAtom, ClaimType, SourceRef}
use hotgraph.Kernel.Belief.{ConflictSet}
use hotgraph.Kernel.Dependencies.{one}
use hotgraph.Kernel.Store.Permissions.{is_summary}

-- Rust's `BTreeSet`
abbrev pub BTreeSet {ℓ} : Type ℓ → Type ℓ
BTreeSet A = BTreeMap A (Unit {0})

-- `entry(key).or_default().insert(item)`
abbrev pub put {ℓ κ} :
    {K : Type ℓ} {A : Type κ} ⦃o : Ord K⦄ ⦃p : Ord A⦄
    → BTreeMap K (BTreeSet A)
    → K
    → A
    → BTreeMap K (BTreeSet A)
put m key item = insert m key (insert (get_or (get m key) []) item tt)

-- `extend` of a set by the items of another
unfoldable pub extend {ℓ} : {A : Type ℓ} ⦃o : Ord A⦄ → BTreeSet A → List A → BTreeSet A
extend set [] = set
extend set (x ∷ xs) = extend (insert set x tt) xs

-- A sequence number is a `u64`.
abbrev pub IncrementalSequence : Type 0
IncrementalSequence = ℕ

pub data MaintainedViewName : Type 0 where
  graph contradictions summaries source_trust agent_memory beliefs dependencies : MaintainedViewName
  causality : MaintainedViewName

-- The derived order is that of the constructors.
abbrev pub rank : MaintainedViewName → ℕ
rank graph = 0
rank contradictions = 1
rank summaries = 2
rank source_trust = 3
rank agent_memory = 4
rank beliefs = 5
rank dependencies = 6
rank causality = 7

abbrev pub compare_views : MaintainedViewName → MaintainedViewName → Ordering
compare_views a b = cmp (rank a) (rank b)

abbrev of_rank : ℕ → MaintainedViewName
of_rank n =
    if n == 0
    then graph
    else if n == 1
    then contradictions
    else if n == 2
    then summaries
    else if n == 3
    then source_trust
    else if n == 4
    then agent_memory
    else if n == 5
    then beliefs
    else if n == 6
    then dependencies
    else causality

of_rank-rank : (a : MaintainedViewName) → of_rank (rank a) ≡ a
of_rank-rank graph = refl
of_rank-rank _ = refl

pub view-eq_of_compare : (a b : MaintainedViewName) → compare_views a b ≡ Ordering.eq → a ≡ b
view-eq_of_compare a b h =
    let e : rank a ≡ rank b = nat_ord.eq_of_compare (rank a) (rank b) h in
    sym (of_rank-rank a) ∙ ap of_rank e ∙ of_rank-rank b

pub view-compare_self : (a : MaintainedViewName) → compare_views a a ≡ Ordering.eq
view-compare_self a = nat_ord.compare_self (rank a)

pub view-compare_flip : (a b : MaintainedViewName) → compare_views b a ≡ flip (compare_views a b)
view-compare_flip a b = nat_ord.compare_flip (rank a) (rank b)

pub view-compare_trans :
    (a b c : MaintainedViewName)
    → compare_views a b ≡ Ordering.lt
    → compare_views b c ≡ Ordering.lt
    → compare_views a c ≡ Ordering.lt
view-compare_trans a b c p q = nat_ord.compare_trans (rank a) (rank b) (rank c) p q

instance abbrev pub view_ord : Ord MaintainedViewName
view_ord = record {
  compare_by = compare_views;
  eq_of_compare = view-eq_of_compare;
  compare_self = view-compare_self;
  compare_flip = view-compare_flip;
  compare_trans = view-compare_trans;
}

pub record MaintainedViewVersions : Type 0 where
  pub graph : Option IncrementalSequence
  pub contradictions : Option IncrementalSequence
  pub summaries : Option IncrementalSequence
  pub source_trust : Option IncrementalSequence
  pub agent_memory : Option IncrementalSequence
  pub beliefs : Option IncrementalSequence
  pub dependencies : Option IncrementalSequence
  pub causality : Option IncrementalSequence

pub record MaintainedSummaryStatus : Type 0 where
  pub atom_id : AtomId
  pub dependencies : List AtomId
  pub is_stale : Bool
  pub last_valid_sequence : IncrementalSequence
  pub stale_since : Option IncrementalSequence
  pub invalidation_reason : Option String

-- The trust of a source is the bits of an `f32`.
pub record MaintainedViews : Type 0 where
  pub atoms_by_subject : BTreeMap EntityRef (BTreeSet AtomId)
  pub atoms_by_source : BTreeMap SourceId (BTreeSet AtomId)
  pub atoms_by_agent : BTreeMap AgentId (BTreeSet AtomId)
  pub conflicts_by_atom : BTreeMap AtomId (BTreeSet String)
  pub current_beliefs : BTreeMap AtomId BeliefState
  pub source_trust : BTreeMap SourceId ℕ
  pub summaries : BTreeMap AtomId MaintainedSummaryStatus
  pub summary_dependents : BTreeMap AtomId (BTreeSet AtomId)
  pub versions : MaintainedViewVersions

abbrev pub empty_views : MaintainedViews
empty_views = record {
  atoms_by_subject = [];
  atoms_by_source = [];
  atoms_by_agent = [];
  conflicts_by_atom = [];
  current_beliefs = [];
  source_trust = [];
  summaries = [];
  summary_dependents = [];
  versions = record {
    graph = none;
    contradictions = none;
    summaries = none;
    source_trust = none;
    agent_memory = none;
    beliefs = none;
    dependencies = none;
    causality = none;
  };
}

unfoldable pub atoms_for_subject : MaintainedViews → EntityRef → List AtomId
atoms_for_subject v subject = keys (get_or (get v.atoms_by_subject subject) [])

unfoldable pub view_for_source : MaintainedViews → SourceId → List AtomId
view_for_source v source = keys (get_or (get v.atoms_by_source source) [])

unfoldable pub atoms_for_agent : MaintainedViews → AgentId → List AtomId
atoms_for_agent v agent = keys (get_or (get v.atoms_by_agent agent) [])

unfoldable pub conflicts_for_atom : MaintainedViews → AtomId → List String
conflicts_for_atom v id = keys (get_or (get v.conflicts_by_atom id) [])

unfoldable pub view_belief : MaintainedViews → AtomId → Option BeliefState
view_belief v id = get v.current_beliefs id

unfoldable pub summary_status : MaintainedViews → AtomId → Option MaintainedSummaryStatus
summary_status v id = get v.summaries id

abbrev touched :
    MaintainedViewVersions → MaintainedViewName → IncrementalSequence → MaintainedViewVersions
touched s graph n = record s { graph = some n }
touched s contradictions n = record s { contradictions = some n }
touched s summaries n = record s { summaries = some n }
touched s source_trust n = record s { source_trust = some n }
touched s agent_memory n = record s { agent_memory = some n }
touched s beliefs n = record s { beliefs = some n }
touched s dependencies n = record s { dependencies = some n }
touched s causality n = record s { causality = some n }

-- `MaintainedViews::touch`
unfoldable pub touch : MaintainedViews → MaintainedViewName → IncrementalSequence → MaintainedViews
touch v name n = record v { versions = touched v.versions name n }

-- `entry(source).or_insert(1.0)`
abbrev trusted : BTreeMap SourceId ℕ → SourceId → BTreeMap SourceId ℕ
trusted trust source = if contains_key trust source then trust else insert trust source one

-- the loop over the sources of an atom
abbrev pub index_source : MaintainedViews → AtomId → SourceRef → MaintainedViews
index_source v id r = record v {
  atoms_by_source = put v.atoms_by_source r.source_id id;
  source_trust = trusted v.source_trust r.source_id;
}

unfoldable pub index_sources : MaintainedViews → AtomId → List SourceRef → MaintainedViews
index_sources v id [] = v
index_sources v id (r ∷ refs) = index_sources (index_source v id r) id refs

abbrev pub index_agent : MaintainedViews → AtomId → Option AgentId → MaintainedViews
index_agent v id none = v
index_agent v id (some agent) = record v { atoms_by_agent = put v.atoms_by_agent agent id }

-- the loop over the dependencies of a summary
unfoldable pub put_dependents :
    BTreeMap AtomId (BTreeSet AtomId) → AtomId → List AtomId → BTreeMap AtomId (BTreeSet AtomId)
put_dependents m id [] = m
put_dependents m id (d ∷ ds) = put_dependents (put m d id) id ds

abbrev pub index_summary : MaintainedViews → RealityAtom → IncrementalSequence → MaintainedViews
index_summary v a sequence =
    let dependencies = sort_dedup a.dependencies in
    record v {
      summary_dependents = put_dependents v.summary_dependents a.id dependencies;
      summaries = insert v.summaries a.id (record {
        atom_id = a.id;
        dependencies = dependencies;
        is_stale = false;
        last_valid_sequence = sequence;
        stale_since = none;
        invalidation_reason = none;
      });
    }

unfoldable pub index_atom : MaintainedViews → RealityAtom → IncrementalSequence → MaintainedViews
index_atom v a sequence =
    let believed = record v {
      atoms_by_subject = put v.atoms_by_subject a.subject a.id;
      current_beliefs = insert v.current_beliefs a.id a.belief_state;
    } in
    let indexed = index_agent (index_sources believed a.id a.source_refs) a.id a.agent_scope in
    if is_summary a.claim_type then index_summary indexed a sequence else indexed

-- the loop of `index_conflict`
unfoldable pub put_conflict :
    BTreeMap AtomId (BTreeSet String) → String → List AtomId → BTreeMap AtomId (BTreeSet String)
put_conflict m conflict [] = m
put_conflict m conflict (id ∷ ids) = put_conflict (put m id conflict) conflict ids

unfoldable pub index_conflict : MaintainedViews → ConflictSet → MaintainedViews
index_conflict v c = record v {
  conflicts_by_atom = put_conflict v.conflicts_by_atom c.id c.atom_ids;
}

-- the first loop of `mark_summaries_stale`, which gathers the summaries of the roots
unfoldable pub dependent_summaries :
    BTreeMap AtomId (BTreeSet AtomId) → BTreeSet AtomId → List AtomId → BTreeSet AtomId
unfolding extend
dependent_summaries m stale [] = stale
dependent_summaries m stale (root ∷ roots) =
    dependent_summaries m (extend stale (keys (get_or (get m root) []))) roots

abbrev pub stale_status :
    MaintainedSummaryStatus → IncrementalSequence → String → MaintainedSummaryStatus
stale_status s sequence reason = record s {
  is_stale = true;
  stale_since = some sequence;
  invalidation_reason = some reason;
}

-- the second loop of `mark_summaries_stale`
unfoldable pub mark_each :
    BTreeMap AtomId MaintainedSummaryStatus
    → List AtomId
    → IncrementalSequence
    → String
    → BTreeMap AtomId MaintainedSummaryStatus
mark_each m [] sequence reason = m
mark_each m (id ∷ ids) sequence reason =
    let marked = elim (get m id) as (λ _. BTreeMap AtomId MaintainedSummaryStatus) [
      | none ↦ m
      | some status ↦ insert m id (stale_status status sequence reason)
    ] in
    mark_each marked ids sequence reason

unfoldable pub mark_summaries_stale :
    MaintainedViews → List AtomId → IncrementalSequence → String → MaintainedViews × List AtomId
mark_summaries_stale v roots sequence reason =
    let stale = keys (dependent_summaries v.summary_dependents [] roots) in
    (record v { summaries = mark_each v.summaries stale sequence reason }, stale)
