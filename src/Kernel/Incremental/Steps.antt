-- ===== src/Kernel/Incremental/Steps.antt =====
-- crates/rg-kernel/src/lib.rs: what an event does to the log, the store and the beliefs kept for it.
use hotgraph.Prelude.{
  List, [], ◌∷◌, Option, none, some, ◌≡◌, refl, ◌∙◌, ap, sym, Bool, true, false, if◌then◌else◌,
  arith, string_ord, Result, ok, err, not, ◌>>=◌, Result-cases, inl, inr,
}
use hotgraph.Prelude.Lists.{is_empty}
use hotgraph.Prelude.Map.{BTreeMap, insert, is_some}
use hotgraph.Core.Types.{AgentId}
use hotgraph.Kernel.Atom.{AtomId, KernelError, BeliefState, RealityAtom, SourceRef}
use hotgraph.Kernel.Belief.{ConflictSet}
use hotgraph.Kernel.Store.{RealityKernel, insert_atom, add_conflict, revise_belief}
use hotgraph.Kernel.Store.Causal.{insert_causal_atom}
use hotgraph.Kernel.Dependencies.{add_dependency_edge}
use hotgraph.Kernel.Store.Permissions.{is_summary}
use hotgraph.Kernel.Views.{
  IncrementalSequence, MaintainedViewName, source_trust, agent_memory, summaries, MaintainedViews,
  put, touch, index_source, index_sources, index_agent, index_summary, index_atom, index_conflict,
  mark_summaries_stale,
}
use hotgraph.Kernel.Incremental.{
  SequencedKernelEvent, KernelEvent, apply_kernel_event, apply_belief_revised,
  apply_dependency_added, apply_causal_atom_inserted, apply_source_trust_updated, IncrementalDelta,
  IncrementalComputation, IncrementalEventKind, Step, touch_view_if, indexed, sources_of,
  touch_views, note_atom, apply_atom_inserted, apply_superseded, apply_conflict_added,
  apply_revised, RevisedBelief, refresh_beliefs,
}

-- The part of a step that no view but the beliefs is in.
pub record Core : Type 0 where
  pub log : List SequencedKernelEvent
  pub next_sequence : IncrementalSequence
  pub kernel : RealityKernel
  pub current_beliefs : BTreeMap AtomId BeliefState
  pub sequence : IncrementalSequence
  pub event_kind : IncrementalEventKind

abbrev pub core : Step → Core
core (c, d) = record {
  log = c.event_log;
  next_sequence = c.next_sequence;
  kernel = c.kernel;
  current_beliefs = c.views.current_beliefs;
  sequence = d.sequence;
  event_kind = d.event_kind;
}

pub core-touch_view_if :
    (b : Bool) (name : MaintainedViewName) (s : Step) → core (touch_view_if b name s) ≡ core s
unfolding touch
core-touch_view_if true name s = refl
core-touch_view_if false name s = refl

index_sources-keeps :
    (v : MaintainedViews) (id : AtomId) (refs : List SourceRef)
    → (index_sources v id refs).current_beliefs ≡ v.current_beliefs
unfolding index_sources
index_sources-keeps v id [] = refl
index_sources-keeps v id (r ∷ refs) = index_sources-keeps (index_source v id r) id refs

index_agent-keeps :
    (v : MaintainedViews) (id : AtomId) (agent : Option AgentId)
    → (index_agent v id agent).current_beliefs ≡ v.current_beliefs
index_agent-keeps v id none = refl
index_agent-keeps v id (some agent) = refl

index_summary-keeps :
    (b : Bool) (v : MaintainedViews) (a : RealityAtom) (n : IncrementalSequence)
    → (if b then index_summary v a n else v).current_beliefs ≡ v.current_beliefs
index_summary-keeps true v a n = refl
index_summary-keeps false v a n = refl

abbrev believed : MaintainedViews → RealityAtom → MaintainedViews
believed v a = record v {
  atoms_by_subject = put v.atoms_by_subject a.subject a.id;
  current_beliefs = insert v.current_beliefs a.id a.belief_state;
}

pub index_atom-beliefs :
    (v : MaintainedViews) (a : RealityAtom) (n : IncrementalSequence)
    → (index_atom v a n).current_beliefs ≡ insert v.current_beliefs a.id a.belief_state
unfolding index_atom
index_atom-beliefs v a n =
    let sources = index_sources (believed v a) a.id a.source_refs in
    index_summary-keeps (is_summary a.claim_type) (index_agent sources a.id a.agent_scope) a n
    ∙ index_agent-keeps sources a.id a.agent_scope
    ∙ index_sources-keeps (believed v a) a.id a.source_refs

-- What a step leaves, when the store and the beliefs are the given ones.
abbrev pub core_with : Step → RealityKernel → BTreeMap AtomId BeliefState → Core
core_with s k m = record (core s) { kernel = k; current_beliefs = m }

-- the beliefs copied from the store when there are atoms to copy them from
copied : Core → List AtomId → Core
copied x ids = record x { current_beliefs = refresh_beliefs x.kernel x.current_beliefs ids }

core-apply_superseded :
    (a : RealityAtom) (s : Step) → core (apply_superseded a s) ≡ copied (core s) a.supersedes
unfolding mark_summaries_stale copied
core-apply_superseded a s = core-touch_view_if _ summaries _

core-touch_views : (a : RealityAtom) (s : Step) → core (note_atom a (touch_views a s)) ≡ core s
unfolding touch
core-touch_views a s =
    core-touch_view_if (is_summary a.claim_type) summaries _
    ∙ core-touch_view_if (is_some a.agent_scope) agent_memory _
    ∙ core-touch_view_if (not (is_empty (sources_of a))) source_trust _

core-if_superseded :
    (a : RealityAtom) (s t : Step) (ids : List AtomId)
    → core t ≡ copied (core s) ids
    → core (if is_empty ids then s else t) ≡ copied (core s) ids
unfolding refresh_beliefs copied
core-if_superseded a s t [] h = refl
core-if_superseded a s t (_ ∷ _) h = h

pub core-apply_atom_inserted :
    (c : IncrementalComputation) (d : IncrementalDelta) (a : RealityAtom)
    → core (apply_atom_inserted c d a)
      ≡ core_with
          (c, d)
          (insert_atom c.kernel a)
          (refresh_beliefs
            (insert_atom c.kernel a)
            (insert c.views.current_beliefs a.id a.belief_state)
            a.supersedes)
unfolding apply_atom_inserted copied
core-apply_atom_inserted c d a =
    let noted = note_atom a (touch_views a (indexed c d a)) in
    core-if_superseded a noted (apply_superseded a noted) a.supersedes
      (core-apply_superseded a noted)
    ∙ ap (λ x. copied x a.supersedes)
        (core-touch_views a (indexed c d a)
          ∙ ap (core_with (c, d) (insert_atom c.kernel a))
              (index_atom-beliefs c.views a d.sequence))

pub core-apply_conflict_added :
    (c : IncrementalComputation) (d : IncrementalDelta) (x : ConflictSet)
    → core (apply_conflict_added c d x)
      ≡ core_with
          (c, d)
          (add_conflict c.kernel x)
          (refresh_beliefs (add_conflict c.kernel x) c.views.current_beliefs x.atom_ids)
unfolding apply_conflict_added mark_summaries_stale touch index_conflict
core-apply_conflict_added c d x = core-touch_view_if _ summaries _

pub core-apply_revised :
    (c : IncrementalComputation) (d : IncrementalDelta) (r : RevisedBelief) (k : RealityKernel)
    → core (apply_revised c d r k)
      ≡ core_with (c, d) k (insert c.views.current_beliefs r.atom_id r.next)
unfolding mark_summaries_stale touch
core-apply_revised c d r k = core-touch_view_if _ summaries _

-- The store and the beliefs after an event, the log and the other views left out.
abbrev pub Believed : Type 0
Believed = RealityKernel × BTreeMap AtomId BeliefState

unfoldable pub next :
    RealityKernel → BTreeMap AtomId BeliefState → KernelEvent → Result Believed KernelError
unfolding refresh_beliefs
next k m (KernelEvent.atom_inserted a) =
    let after = insert_atom k a in
    ok (after, refresh_beliefs after (insert m a.id a.belief_state) a.supersedes)
next k m (KernelEvent.belief_revised r) = do
  after ← revise_belief k r.atom_id r.next r.known_at r.reason
  ok (after, insert m r.atom_id r.next)
next k m (KernelEvent.conflict_added x) =
    let after = add_conflict k x in ok (after, refresh_beliefs after m x.atom_ids)
next k m (KernelEvent.dependency_added e) = do
  g ← add_dependency_edge k.dependencies e
  ok (record k { dependencies = g }, m)
next k m (KernelEvent.causal_atom_inserted x) = do after ← insert_causal_atom k x; ok (after, m)
next k m (KernelEvent.source_trust_updated source trust) = ok (k, m)

abbrev pub core_of : Result Step KernelError → Result Core KernelError
core_of (ok s) = ok (core s)
core_of (err e) = err e

abbrev pub core_after : Step → Result Believed KernelError → Result Core KernelError
core_after s (ok (k, m)) = ok (core_with s k m)
core_after s (err e) = err e

pub core-apply_kernel_event :
    (c : IncrementalComputation) (d : IncrementalDelta) (event : KernelEvent)
    → core_of (apply_kernel_event c d event)
      ≡ core_after (c, d) (next c.kernel c.views.current_beliefs event)
unfolding apply_kernel_event next apply_belief_revised apply_dependency_added
    apply_causal_atom_inserted apply_source_trust_updated touch
core-apply_kernel_event c d (KernelEvent.atom_inserted a) = ap ok (core-apply_atom_inserted c d a)
core-apply_kernel_event c d (KernelEvent.belief_revised r) =
    elim (Result-cases (revise_belief c.kernel r.atom_id r.next r.known_at r.reason)) [
      | inl (k, h) ↦ ground (arith, h, core-apply_revised c d r k)
      | inr (e, h) ↦ ground (arith, h)
    ]
core-apply_kernel_event c d (KernelEvent.conflict_added x) = ap ok (core-apply_conflict_added c d x)
core-apply_kernel_event c d (KernelEvent.dependency_added e) =
    elim (Result-cases (add_dependency_edge c.kernel.dependencies e)) [
      | inl (g, h) ↦ ground (arith, h)
      | inr (e, h) ↦ ground (arith, h)
    ]
core-apply_kernel_event c d (KernelEvent.causal_atom_inserted x) =
    elim (Result-cases (insert_causal_atom c.kernel x)) [
      | inl (k, h) ↦ ground (arith, h)
      | inr (e, h) ↦ ground (arith, h)
    ]
core-apply_kernel_event c d (KernelEvent.source_trust_updated source trust) = refl

core_after_cases :
    (s t : Step) (x : Result Believed KernelError)
    → ok (core t) ≡ core_after s x
    → (y : Believed) × (x ≡ ok y) × (core t ≡ core_with s y.0 y.1)
core_after_cases s t (ok y) e = (y, refl, ground (arith, e))
core_after_cases s t (err failure) e = ground (arith, e)

pub apply_kernel_event-ok :
    (c : IncrementalComputation) (d : IncrementalDelta) (event : KernelEvent) (s : Step)
    → apply_kernel_event c d event ≡ ok s
    → (y : Believed) × (next c.kernel c.views.current_beliefs event ≡ ok y)
      × (core s ≡ core_with (c, d) y.0 y.1)
apply_kernel_event-ok c d event s p =
    core_after_cases (c, d) s (next c.kernel c.views.current_beliefs event)
      (ap core_of (sym p) ∙ core-apply_kernel_event c d event)

core_after_err :
    (s : Step) (failure : KernelError) (x : Result Believed KernelError)
    → err failure ≡ core_after s x
    → x ≡ err failure
core_after_err s failure (ok y) e = ground (arith, e)
core_after_err s failure (err other) e = ground (arith, e)

pub apply_kernel_event-err :
    (c : IncrementalComputation) (d : IncrementalDelta) (event : KernelEvent)
    (failure : KernelError)
    → apply_kernel_event c d event ≡ err failure
    → next c.kernel c.views.current_beliefs event ≡ err failure
apply_kernel_event-err c d event failure p =
    core_after_err (c, d) failure (next c.kernel c.views.current_beliefs event)
      (ap core_of (sym p) ∙ core-apply_kernel_event c d event)
