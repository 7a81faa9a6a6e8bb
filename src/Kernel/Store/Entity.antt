-- ===== src/Kernel/Store/Entity.antt =====
-- crates/rg-kernel/src/lib.rs: `entity_state`, the atoms of an entity at two times.
pub mod Laws
use hotgraph.Prelude.{
  List, [], ◌∷◌, ◌++◌, map, Option, none, some, Bool, true, false, ◌&&◌, if◌then◌else◌, string_ord,
  ◌==◌,
}
use hotgraph.Prelude.Lists.{any, filter}
use hotgraph.Prelude.Map.{values, contains_key}
use hotgraph.Core.Types.{ValidTime, TxTime}
use hotgraph.Kernel.Atom.{
  AtomId, EntityRef, BeliefState, accepted, disputed, superseded, RealityAtom, is_visible_at,
}
use hotgraph.Kernel.Belief.{ConflictSet}
use hotgraph.Kernel.Physical.Push.{sort_atoms}
use hotgraph.Kernel.Store.{RealityKernel, belief_at}
use hotgraph.Kernel.Views.{BTreeSet, extend}

pub record EntityState : Type 0 where
  pub entity : EntityRef
  pub valid_at : ValidTime
  pub known_at : TxTime
  pub accepted_atoms : List RealityAtom
  pub disputed_atoms : List RealityAtom
  pub superseded_atoms : List RealityAtom
  pub conflicts : List ConflictSet

abbrev pub empty_state : EntityRef → ValidTime → TxTime → EntityState
empty_state entity valid_at known_at = record {
  entity = entity;
  valid_at = valid_at;
  known_at = known_at;
  accepted_atoms = [];
  disputed_atoms = [];
  superseded_atoms = [];
  conflicts = [];
}

-- the `match` on the belief at the time
abbrev pub place : EntityState → RealityAtom → Option BeliefState → EntityState
place s a (some accepted) = record s { accepted_atoms = s.accepted_atoms ++ a ∷ [] }
place s a (some disputed) = record s { disputed_atoms = s.disputed_atoms ++ a ∷ [] }
place s a (some superseded) = record s { superseded_atoms = s.superseded_atoms ++ a ∷ [] }
place s a _ = s

abbrev pub is_about : EntityState → RealityAtom → Bool
is_about s a = a.subject == s.entity && is_visible_at a s.valid_at s.known_at

-- the loop over the atoms
unfoldable pub place_all : RealityKernel → EntityState → List RealityAtom → EntityState
place_all k s [] = s
place_all k s (a ∷ atoms) =
    place_all k (if is_about s a then place s a (belief_at k a.id s.known_at) else s) atoms

abbrev pub ids_of : List RealityAtom → List AtomId
ids_of atoms = map (λ (a : RealityAtom). a.id) atoms

-- the identifiers of the atoms that are shown
abbrev pub shown_ids : EntityState → List AtomId
shown_ids s = ids_of (s.accepted_atoms ++ (s.disputed_atoms ++ s.superseded_atoms))

abbrev pub sorted_state : EntityState → EntityState
sorted_state s = record s {
  accepted_atoms = sort_atoms s.accepted_atoms;
  disputed_atoms = sort_atoms s.disputed_atoms;
  superseded_atoms = sort_atoms s.superseded_atoms;
}

abbrev pub with_conflicts : RealityKernel → EntityState → EntityState
with_conflicts k s =
    let visible : BTreeSet AtomId = extend [] (shown_ids s) in
    record s {
      conflicts =
          filter (λ (c : ConflictSet). any (λ id. contains_key visible id) c.atom_ids) k.conflicts;
    }

unfoldable pub entity_state : RealityKernel → EntityRef → ValidTime → TxTime → EntityState
unfolding place_all
entity_state k entity valid_at known_at =
    with_conflicts k
      (sorted_state (place_all k (empty_state entity valid_at known_at) (values k.atoms)))
