-- ===== src/Kernel/Incremental.antt =====
-- crates/rg-kernel/src/lib.rs: `IncrementalComputation`, which applies kernel events to the store
-- and to the maintained views.
pub mod Event
pub mod Beliefs
pub mod Outcomes
pub mod Sequences
pub mod Steps
pub use hotgraph.Kernel.Incremental.Event.{
  IncrementalEventKind, RevisedBelief, KernelEvent, SequencedKernelEvent, IncrementalDelta,
  new_delta,
}
unfoldable pub use hotgraph.Kernel.Incremental.Event.{kind, finalize}
use Prim.Native.String.{◌++◌ as append}
use hotgraph.Prelude.{
  ℕ, String, List, [], ◌∷◌, ◌++◌, map, Option, none, some, Bool, true, false, if◌then◌else◌,
  string_ord, Result, ok, err, not,
}
use hotgraph.Prelude.Int.{u64_next}
use hotgraph.Prelude.Text.{text_contains}
use hotgraph.Prelude.Lists.{is_empty, sort, sort_dedup}
use hotgraph.Prelude.Map.{BTreeMap, get, get_or, insert, is_some}
use hotgraph.Core.Types.{AgentId, SourceId, TxTime}
use hotgraph.Kernel.Atom.{
  AtomId, EntityRef, BeliefState, RealityAtom, SourceRef, KernelError, unknown_atom,
}
use hotgraph.Kernel.Belief.{ConflictSet}
use hotgraph.Kernel.Node.{DependencyNode, atom, answer, simulation, DependencyEdge, node_ord}
use hotgraph.Kernel.Node as Node
use hotgraph.Kernel.Dependencies.{DependencyGraph, transitive_dependents}
use hotgraph.Kernel.Dependencies as Dependencies
use hotgraph.Kernel.Store.{
  RealityKernel, CausalAtom, empty_kernel, insert_atom, add_conflict, revise_belief,
}
use hotgraph.Kernel.Store.Collapse.{is_plan_atom}
use hotgraph.Kernel.Store.Causal.{insert_causal_atom, validate_causal}
use hotgraph.Kernel.Store.Permissions.{is_summary}
use hotgraph.Kernel.Views.{
  BTreeSet, IncrementalSequence, MaintainedViewName, graph, contradictions, summaries, source_trust,
  agent_memory, beliefs, dependencies, causality, view_ord, MaintainedViews, empty_views, touch,
  index_atom, index_conflict, mark_summaries_stale,
}

pub record IncrementalComputation : Type 0 where
  pub kernel : RealityKernel
  pub event_log : List SequencedKernelEvent
  pub views : MaintainedViews
  pub next_sequence : IncrementalSequence

-- `IncrementalComputation::new`
abbrev pub new : IncrementalComputation
new = record { kernel = empty_kernel; event_log = []; views = empty_views; next_sequence = 0 }

-- What an event changes: the computation and the delta.
abbrev pub Step : Type 0
Step = IncrementalComputation × IncrementalDelta

-- `touch_view`
abbrev pub touch_view : MaintainedViewName → Step → Step
touch_view name (c, d) = (
  record c { views = touch c.views name d.sequence },
  record d { touched_views = insert d.touched_views name tt },
)

abbrev pub touch_view_if : Bool → MaintainedViewName → Step → Step
touch_view_if true name step = touch_view name step
touch_view_if false name step = step

-- The beliefs of the atoms that the store knows are copied to the view.
unfoldable pub refresh_beliefs :
    RealityKernel → BTreeMap AtomId BeliefState → List AtomId → BTreeMap AtomId BeliefState
refresh_beliefs k m [] = m
refresh_beliefs k m (id ∷ ids) =
    let copied = elim (get k.atoms id) as (λ _. BTreeMap AtomId BeliefState) [
      | none ↦ m
      | some a ↦ insert m id a.belief_state
    ] in
    refresh_beliefs k copied ids

abbrev pub refresh : IncrementalComputation → List AtomId → IncrementalComputation
refresh c ids = record c {
  views = record c.views { current_beliefs = refresh_beliefs c.kernel c.views.current_beliefs ids };
}

-- `mark_summaries_stale`, its result put in the delta and returned
abbrev pub mark_stale : List AtomId → String → Step → Step × List AtomId
mark_stale roots reason (c, d) =
    let (views, stale) = mark_summaries_stale c.views roots d.sequence reason in
    ((record c { views = views }, record d { stale_summaries = d.stale_summaries ++ stale }), stale)

-- the branch for an atom that supersedes others
abbrev pub apply_superseded : RealityAtom → Step → Step
apply_superseded a (c, d) =
    let (step, stale) =
      mark_stale a.supersedes (append "superseded by " a.id)
        (refresh c a.supersedes, record d { touched_atoms = d.touched_atoms ++ a.supersedes }) in
    touch_view_if (not (is_empty stale)) summaries step

-- the store and the views with the atom in them
abbrev pub indexed : IncrementalComputation → IncrementalDelta → RealityAtom → Step
indexed c d a =
    (record c { kernel = insert_atom c.kernel a; views = index_atom c.views a d.sequence }, d)

abbrev pub sources_of : RealityAtom → List SourceId
sources_of a = map (λ (r : SourceRef). r.source_id) a.source_refs

-- the views that the atom touches
abbrev pub touch_views : RealityAtom → Step → Step
touch_views a step = touch_view_if (is_summary a.claim_type) summaries (
    touch_view_if (is_some a.agent_scope) agent_memory (
      touch_view_if (not (is_empty (sources_of a))) source_trust
        (touch_view beliefs (touch_view graph step))))

abbrev pub note_atom : RealityAtom → Step → Step
note_atom a (e, f) = (
  e,
  record f {
    touched_atoms = f.touched_atoms ++ a.id ∷ [];
    touched_entities = f.touched_entities ++ a.subject ∷ [];
    touched_sources = f.touched_sources ++ sources_of a;
  },
)

unfoldable pub apply_atom_inserted : IncrementalComputation → IncrementalDelta → RealityAtom → Step
unfolding refresh_beliefs
apply_atom_inserted c d a =
    let noted = note_atom a (touch_views a (indexed c d a)) in
    if is_empty a.supersedes then noted else apply_superseded a noted

-- The result of `transitive_dependents`, for which its fuel is enough.
abbrev pub dependents : DependencyGraph → DependencyNode → List DependencyNode
dependents g root = get_or (transitive_dependents g root) []

-- the atoms among the impacted nodes
unfoldable pub atoms_of : List DependencyNode → List AtomId
atoms_of [] = []
atoms_of (atom id ∷ nodes) = id ∷ atoms_of nodes
atoms_of (answer _ ∷ nodes) = atoms_of nodes
atoms_of (simulation _ ∷ nodes) = atoms_of nodes

-- the plans among them
unfoldable pub plans_of : RealityKernel → List AtomId → List AtomId
unfolding is_plan_atom
plans_of k [] = []
plans_of k (id ∷ ids) =
    let rest = plans_of k ids in
    elim (get k.atoms id) [ none ↦ rest | some a ↦ if is_plan_atom a then id ∷ rest else rest ]

-- `apply_belief_revised`, once the store has revised the belief
abbrev pub apply_revised :
    IncrementalComputation → IncrementalDelta → RevisedBelief → RealityKernel → Step
apply_revised c d r kernel =
    let (e, f) = touch_view beliefs (
      record c {
        kernel = kernel;
        views = record c.views {
          current_beliefs = insert c.views.current_beliefs r.atom_id r.next;
        };
      },
      d,
    ) in
    let impacted = dependents kernel.dependencies (atom r.atom_id) in
    let plans = plans_of kernel (atoms_of impacted) in
    let (step, stale) = mark_stale (r.atom_id ∷ atoms_of impacted) r.reason (
      e,
      record f {
        touched_atoms = f.touched_atoms ++ r.atom_id ∷ [];
        impacted_nodes = f.impacted_nodes ++ impacted;
        risky_plans = f.risky_plans ++ plans;
      },
    ) in
    touch_view_if (if is_empty stale then not (is_empty step.1.risky_plans) else true) summaries
      step

unfoldable pub apply_belief_revised :
    IncrementalComputation → IncrementalDelta → RevisedBelief → Result Step KernelError
unfolding plans_of atoms_of
apply_belief_revised c d r = elim (revise_belief c.kernel r.atom_id r.next r.known_at r.reason) [
  | err e ↦ err e
  | ok kernel ↦ ok (apply_revised c d r kernel)
]

unfoldable pub apply_conflict_added : IncrementalComputation → IncrementalDelta → ConflictSet → Step
unfolding refresh_beliefs
apply_conflict_added c d conflict =
    let added = record c {
      kernel = add_conflict c.kernel conflict;
      views = index_conflict c.views conflict;
    } in
    let ((e, f), _) =
      mark_stale conflict.atom_ids
        (append "conflict " (append conflict.id " changed source-backed truth"))
        (refresh added conflict.atom_ids, d) in
    let step = touch_view beliefs (
      touch_view contradictions
        (e, record f { touched_atoms = f.touched_atoms ++ conflict.atom_ids })) in
    touch_view_if (not (is_empty step.1.stale_summaries)) summaries step

unfoldable pub apply_dependency_added :
    IncrementalComputation → IncrementalDelta → DependencyEdge → Result Step KernelError
apply_dependency_added c d edge =
    elim (Dependencies.add_dependency_edge c.kernel.dependencies edge) [
      | err e ↦ err e
      | ok g ↦ ok (
          touch_view dependencies (
            record c { kernel = record c.kernel { dependencies = g } },
            record d { touched_atoms = d.touched_atoms ++ edge.from ∷ edge.to ∷ [] },
          ))
    ]

unfoldable pub apply_causal_atom_inserted :
    IncrementalComputation → IncrementalDelta → CausalAtom → Result Step KernelError
apply_causal_atom_inserted c d x = elim (insert_causal_atom c.kernel x) [
  | err e ↦ err e
  | ok kernel ↦ ok (touch_view causality (record c { kernel = kernel }, d))
]

unfoldable pub apply_source_trust_updated :
    IncrementalComputation → IncrementalDelta → SourceId → ℕ → Step
apply_source_trust_updated c d source trust = touch_view source_trust (
  record c { views = record c.views { source_trust = insert c.views.source_trust source trust } },
  record d { touched_sources = d.touched_sources ++ source ∷ [] },
)

-- the `match` of `apply_event`
unfoldable pub apply_kernel_event :
    IncrementalComputation → IncrementalDelta → KernelEvent → Result Step KernelError
apply_kernel_event c d (KernelEvent.atom_inserted a) = ok (apply_atom_inserted c d a)
apply_kernel_event c d (KernelEvent.belief_revised r) = apply_belief_revised c d r
apply_kernel_event c d (KernelEvent.conflict_added x) = ok (apply_conflict_added c d x)
apply_kernel_event c d (KernelEvent.dependency_added e) = apply_dependency_added c d e
apply_kernel_event c d (KernelEvent.causal_atom_inserted x) = apply_causal_atom_inserted c d x
apply_kernel_event c d (KernelEvent.source_trust_updated source trust) =
    ok (apply_source_trust_updated c d source trust)

unfoldable pub validate_event : RealityKernel → KernelEvent → Result (Unit {0}) KernelError
validate_event k (KernelEvent.belief_revised r) =
    if is_some (get k.atoms r.atom_id) then ok tt else err (unknown_atom r.atom_id)
validate_event k (KernelEvent.dependency_added edge) = Node.validate edge
validate_event k (KernelEvent.causal_atom_inserted x) = validate_causal x
validate_event k _ = ok tt

-- `apply_event` once the event is valid: the event is in the log before it is applied.
abbrev pub logged_event : IncrementalComputation → KernelEvent → SequencedKernelEvent
logged_event c event = record { sequence = u64_next c.next_sequence; event = event }

abbrev pub logged : IncrementalComputation → KernelEvent → IncrementalComputation
logged c event = record c {
  next_sequence = u64_next c.next_sequence;
  event_log = c.event_log ++ logged_event c event ∷ [];
}

abbrev pub finished :
    IncrementalComputation
    → Result Step KernelError
    → IncrementalComputation × Result IncrementalDelta KernelError
finished c (ok (after, d)) = (after, ok (finalize d))
finished c (err e) = (c, err e)

unfoldable pub apply_event :
    IncrementalComputation
    → KernelEvent
    → IncrementalComputation × Result IncrementalDelta KernelError
apply_event c event = elim (validate_event c.kernel event) [
  | err e ↦ (c, err e)
  | ok _ ↦
      let begun = logged c event in
      finished begun (apply_kernel_event begun (new_delta begun.next_sequence (kind event)) event)
]
