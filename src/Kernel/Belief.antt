-- ===== src/Kernel/Belief.antt =====
-- crates/rg-kernel/src/lib.rs: conflicts, belief revisions, and `current_belief`.
pub mod Laws
use Prim.Native.String.{◌++◌ as append}
use hotgraph.Prelude.{String, List, [], ◌∷◌, ◌++◌, string_ord, Bool, true, false, if◌then◌else◌}
use hotgraph.Prelude.Lists.{sort_dedup, filter}
use hotgraph.Core.Types.{ValidTime, TxTime}
use hotgraph.Kernel.Atom.{
  AtomId, TransactionTime, BeliefState, accepted, disputed, superseded, retracted, refuted,
  RealityAtom, is_visible_at,
}

pub data ConflictType : Type 0 where
  exact_predicate_conflict valid_time_overlap mutually_exclusive_claim : ConflictType
  source_disagreement : ConflictType

pub data ConflictStatus : Type 0 where
  unresolved : ConflictStatus
  preferred : AtomId → ConflictStatus
  resolved : ConflictStatus

pub record ConflictSet : Type 0 where
  pub id : String
  pub atom_ids : List AtomId
  pub conflict_type : ConflictType
  pub status : ConflictStatus
  pub explanation : String

-- `ConflictSet::new`
unfoldable pub new_conflict :
    String → List AtomId → ConflictType → ConflictStatus → String → ConflictSet
new_conflict id atom_ids conflict_type status explanation = record {
  id = id;
  atom_ids = sort_dedup atom_ids;
  conflict_type = conflict_type;
  status = status;
  explanation = explanation;
}

pub record BeliefRevision : Type 0 where
  pub atom_id : AtomId
  pub known_at : TxTime
  pub previous : BeliefState
  pub next : BeliefState
  pub reason : String

pub record RevisionReason : Type 0 where
  pub known_at : TransactionTime
  pub description : String

abbrev revision : AtomId → RevisionReason → BeliefState → String → BeliefRevision
revision atom_id reason next text = record {
  atom_id = atom_id;
  known_at = reason.known_at;
  previous = accepted;
  next = next;
  reason = text;
}

unfoldable pub supersede_atom : AtomId → AtomId → RevisionReason → BeliefRevision
supersede_atom old_atom new_atom reason =
    revision old_atom reason superseded
      (append reason.description (append "; superseded by " new_atom))

unfoldable pub dispute_atom : AtomId → RevisionReason → BeliefRevision
dispute_atom atom_id reason = revision atom_id reason disputed reason.description

unfoldable pub retract_atom : AtomId → RevisionReason → BeliefRevision
retract_atom atom_id reason = revision atom_id reason retracted reason.description

pub data BeliefPolicy : Type 0 where
  accepted_only include_disputed include_superseded : BeliefPolicy

pub record BeliefView : Type 0 where
  pub valid_at : ValidTime
  pub known_at : TransactionTime
  pub accepted_atoms : List AtomId
  pub disputed_atoms : List AtomId
  pub superseded_atoms : List AtomId
  pub rejected_atoms : List AtomId
  pub visible_atoms : List AtomId

abbrev pub shows_disputed : BeliefPolicy → Bool
shows_disputed include_disputed = true
shows_disputed include_superseded = true
shows_disputed accepted_only = false

abbrev pub shows_superseded : BeliefPolicy → Bool
shows_superseded include_superseded = true
shows_superseded _ = false

abbrev push_if : Bool → List AtomId → AtomId → List AtomId
push_if true ids id = ids ++ id ∷ []
push_if false ids id = ids

-- the body of the loop: the `match` on the belief state
unfoldable pub classify : BeliefPolicy → BeliefView → AtomId → BeliefState → BeliefView
classify policy v id accepted = record v {
  accepted_atoms = v.accepted_atoms ++ id ∷ [];
  visible_atoms = v.visible_atoms ++ id ∷ [];
}
classify policy v id disputed = record v {
  disputed_atoms = v.disputed_atoms ++ id ∷ [];
  visible_atoms = push_if (shows_disputed policy) v.visible_atoms id;
}
classify policy v id superseded = record v {
  superseded_atoms = v.superseded_atoms ++ id ∷ [];
  visible_atoms = push_if (shows_superseded policy) v.visible_atoms id;
}
classify policy v id retracted = record v { rejected_atoms = v.rejected_atoms ++ id ∷ [] }
classify policy v id refuted = record v { rejected_atoms = v.rejected_atoms ++ id ∷ [] }
classify policy v id _ = v

unfoldable pub classify_all : BeliefPolicy → BeliefView → List RealityAtom → BeliefView
classify_all policy v [] = v
classify_all policy v (a ∷ atoms) =
    classify_all policy (classify policy v a.id a.belief_state) atoms

abbrev sorted : BeliefView → BeliefView
sorted v = record v {
  accepted_atoms = sort_dedup v.accepted_atoms;
  disputed_atoms = sort_dedup v.disputed_atoms;
  superseded_atoms = sort_dedup v.superseded_atoms;
  rejected_atoms = sort_dedup v.rejected_atoms;
  visible_atoms = sort_dedup v.visible_atoms;
}

abbrev pub empty_view : ValidTime → TransactionTime → BeliefView
empty_view valid_at known_at = record {
  valid_at = valid_at;
  known_at = known_at;
  accepted_atoms = [];
  disputed_atoms = [];
  superseded_atoms = [];
  rejected_atoms = [];
  visible_atoms = [];
}

unfoldable pub current_belief :
    List RealityAtom → ValidTime → TransactionTime → BeliefPolicy → BeliefView
current_belief atoms valid_at known_at policy = sorted (
    classify_all policy (empty_view valid_at known_at)
      (filter (λ a. is_visible_at a valid_at known_at) atoms))
