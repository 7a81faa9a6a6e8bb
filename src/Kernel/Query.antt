-- ===== src/Kernel/Query.antt =====
-- crates/rg-kernel/src/lib.rs: `RealityQueryVm::execute`, the questions on two times, on what rests on
-- a source, and on causes.
pub mod Laws
use hotgraph.Prelude.{
  ℕ, List, [], ◌∷◌, ◌++◌, map, Option, none, some, Bool, true, false, ◌&&◌, ◌||◌, not,
  if◌then◌else◌, ◌==◌, string_ord,
}
use hotgraph.Prelude.Lists.{filter, sort_by}
use hotgraph.Prelude.Map.{get_or, values}
use hotgraph.Core.Types.{EventId, ValidTime, TxTime}
use hotgraph.Kernel.Atom.{
  AtomId, EntityRef, EvidenceSpan, RealityAtom, is_visible_at, is_supported_for_ai,
}
use hotgraph.Kernel.Belief.{ConflictSet, BeliefRevision}
use hotgraph.Kernel.Physical.Push.{sort_atoms}
use hotgraph.Kernel.Store.{
  RealityKernel, with_belief, compare_revisions, belief_revisions, belief_at,
}
use hotgraph.Kernel.Store.Collapse.{TruthCollapseReport, collapse_if_source_false}
use hotgraph.Kernel.Store.Entity as Entity
use hotgraph.Kernel.Store.Paths.{CausalPath, CausalImpactReport}
use hotgraph.Kernel.Store.Paths as Paths

pub record BitemporalTruth : Type 0 where
  pub valid_at : ValidTime
  pub known_at : TxTime

pub data BitemporalQuestion : Type 0 where
  entity_state what_is_true_now what_was_true_at what_did_we_believe_at : BitemporalQuestion
  when_did_belief_change if_source_false_what_collapses what_caused : BitemporalQuestion
  what_might_happen_next what_breaks_if_event_does_not_occur : BitemporalQuestion

-- The flag of the first four says if the question is asked for an AI.
pub data RealityQuery : Type 0 where
  entity_state : EntityRef → ValidTime → TxTime → Bool → RealityQuery
  what_is_true_now : EntityRef → BitemporalTruth → Bool → RealityQuery
  what_was_true_at : EntityRef → ValidTime → TxTime → Bool → RealityQuery
  what_did_we_believe_at : EntityRef → ValidTime → TxTime → Bool → RealityQuery
  when_did_belief_change : AtomId → RealityQuery
  if_source_false_what_collapses : AtomId → RealityQuery
  what_caused : EventId → ℕ → RealityQuery
  what_might_happen_next : EventId → ℕ → RealityQuery
  what_breaks_if_event_does_not_occur : EventId → ℕ → RealityQuery

pub record RealityQueryResult : Type 0 where
  pub question : BitemporalQuestion
  pub truth : Option BitemporalTruth
  pub atoms : List RealityAtom
  pub conflicts : List ConflictSet
  pub evidence : List EvidenceSpan
  pub unsupported_conclusions : List RealityAtom
  pub belief_changes : List BeliefRevision
  pub collapse_report : Option TruthCollapseReport
  pub causal_paths : List CausalPath
  pub causal_impact : Option CausalImpactReport

abbrev empty_result : BitemporalQuestion → RealityQueryResult
empty_result question = record {
  question = question;
  truth = none;
  atoms = [];
  conflicts = [];
  evidence = [];
  unsupported_conclusions = [];
  belief_changes = [];
  collapse_report = none;
  causal_paths = [];
  causal_impact = none;
}

unfoldable pub with_historical_belief : RealityKernel → TxTime → RealityAtom → RealityAtom
with_historical_belief k known_at a =
    with_belief a (get_or (belief_at k a.id known_at) a.belief_state)

-- the atoms of the entity that are visible, with the belief of the time
unfoldable pub visible_atoms : RealityKernel → EntityRef → BitemporalTruth → List RealityAtom
unfolding with_historical_belief
visible_atoms k entity truth = map (with_historical_belief k truth.known_at) (
    filter (λ a. a.subject == entity && is_visible_at a truth.valid_at truth.known_at)
      (values k.atoms))

-- the loop that parts the atoms: those that are shown, and those that an AI is not to rest on
unfoldable pub part_atoms :
    Bool
    → List RealityAtom
    → List RealityAtom × List RealityAtom
    → List RealityAtom × List RealityAtom
part_atoms ai_facing [] parts = parts
part_atoms ai_facing (a ∷ atoms) (shown, unsupported) = part_atoms ai_facing atoms (
    if ai_facing && not (is_supported_for_ai a)
    then (shown, unsupported ++ a ∷ [])
    else if not ai_facing || is_supported_for_ai a
    then (shown ++ a ∷ [], unsupported)
    else (shown, unsupported))

unfoldable pub evidence_of : List RealityAtom → List EvidenceSpan
evidence_of [] = []
evidence_of (a ∷ atoms) = a.evidence_spans ++ evidence_of atoms

unfoldable pub execute_entity_state :
    RealityKernel → EntityRef → BitemporalTruth → Bool → BitemporalQuestion → RealityQueryResult
unfolding visible_atoms part_atoms evidence_of
execute_entity_state k entity truth ai_facing question =
    let (shown, unsupported) = part_atoms ai_facing (visible_atoms k entity truth) ([], []) in
    let atoms = sort_atoms shown in
    record (empty_result question) {
      truth = some truth;
      atoms = atoms;
      conflicts = (Entity.entity_state k entity truth.valid_at truth.known_at).conflicts;
      evidence = evidence_of atoms;
      unsupported_conclusions = sort_atoms unsupported;
    }

unfoldable pub execute_belief_changes : RealityKernel → AtomId → RealityQueryResult
execute_belief_changes k id = record (empty_result BitemporalQuestion.when_did_belief_change) {
  belief_changes = sort_by compare_revisions (belief_revisions k id);
}

-- `none` stands for fuel that ran out, and for a panic of a causal path.
unfoldable pub execute_source_false_collapse : RealityKernel → AtomId → Option RealityQueryResult
execute_source_false_collapse k id = elim (collapse_if_source_false k id) [
  | none ↦ none
  | some report ↦ some (record (empty_result BitemporalQuestion.if_source_false_what_collapses) {
    collapse_report = report;
  })
]

abbrev with_paths : BitemporalQuestion → Option (List CausalPath) → Option RealityQueryResult
with_paths question none = none
with_paths question (some paths) = some (record (empty_result question) { causal_paths = paths })

abbrev with_impact : Option CausalImpactReport → Option RealityQueryResult
with_impact none = none
with_impact (some report) =
    some (record (empty_result BitemporalQuestion.what_breaks_if_event_does_not_occur) {
      causal_impact = some report;
    })

abbrev pub truth_at : ValidTime → TxTime → BitemporalTruth
truth_at valid_at known_at = record { valid_at = valid_at; known_at = known_at }

-- `f32_mul` and `f32_clamp` are those of the causal paths.
module _ (f32_mul : ℕ → ℕ → ℕ) (f32_clamp : ℕ → ℕ) where
  unfoldable pub execute : RealityKernel → RealityQuery → Option RealityQueryResult
  unfolding execute_entity_state execute_belief_changes execute_source_false_collapse
  execute k (RealityQuery.entity_state entity valid_at known_at ai_facing) = some (
      execute_entity_state k entity (truth_at valid_at known_at) ai_facing
        BitemporalQuestion.entity_state)
  execute k (RealityQuery.what_is_true_now entity now ai_facing) =
      some (execute_entity_state k entity now ai_facing BitemporalQuestion.what_is_true_now)
  execute k (RealityQuery.what_was_true_at entity valid_at known_at ai_facing) = some (
      execute_entity_state k entity (truth_at valid_at known_at) ai_facing
        BitemporalQuestion.what_was_true_at)
  execute k (RealityQuery.what_did_we_believe_at entity valid_at believed_at ai_facing) = some (
      execute_entity_state k entity (truth_at valid_at believed_at) ai_facing
        BitemporalQuestion.what_did_we_believe_at)
  execute k (RealityQuery.when_did_belief_change id) = some (execute_belief_changes k id)
  execute k (RealityQuery.if_source_false_what_collapses id) = execute_source_false_collapse k id
  execute k (RealityQuery.what_caused e max_depth) =
      with_paths BitemporalQuestion.what_caused (Paths.what_caused f32_mul f32_clamp k e max_depth)
  execute k (RealityQuery.what_might_happen_next e max_depth) =
      with_paths BitemporalQuestion.what_might_happen_next
        (Paths.what_might_happen_next f32_mul f32_clamp k e max_depth)
  execute k (RealityQuery.what_breaks_if_event_does_not_occur e max_depth) =
      with_impact (Paths.what_breaks_if_event_does_not_occur f32_mul f32_clamp k e max_depth)
