-- ===== src/Kernel/Store.antt =====
-- crates/rg-kernel/src/lib.rs: `RealityKernel`, its atoms, conflicts, belief history, permissions.
pub mod Causal
pub mod Collapse
pub mod Conflicts
pub mod Entity
pub mod Explain
pub mod History
pub mod Impact
pub mod Insertion
pub mod Paths
pub mod Permissions
pub mod Walk
use Prim.Native.String.{◌++◌ as append}
use hotgraph.Prelude.{
  ℕ, String, List, [], ◌∷◌, ◌++◌, Option, none, some, Ordering, cmp, lt, ◌==◌, if◌then◌else◌, Bool,
  true, false, not, ◌&&◌, ◌||◌, string_ord, Result, ok, err,
}
use hotgraph.Prelude.Int.{ℤ_ord}
use hotgraph.Prelude.Lists.{contains, any, filter, is_empty, sort_by, sort_dedup}
use hotgraph.Prelude.Map.{BTreeMap, get, get_or, insert}
use hotgraph.Core.Confidence.{Confidence}
use hotgraph.Core.Types.{EventId, SourceId, TxTime}
use hotgraph.Kernel.Atom.{
  AtomId, BeliefState, accepted, disputed, superseded, RealityAtom, ClaimType, PermissionLabel,
  KernelError, unknown_atom,
}
use hotgraph.Kernel.Node.{DependencyType, derived_from, superseded_by, contradicted_by, atom}
use hotgraph.Kernel.Dependencies.{DependencyGraph, one, insert_dependency}
use hotgraph.Kernel.Dependencies
use hotgraph.Kernel.Belief.{ConflictSet, BeliefRevision}

-- The lag is a `Duration`, as its nanoseconds.
pub record CausalAtom : Type 0 where
  pub cause : EventId
  pub effect : EventId
  pub mechanism : Option String
  pub lag : Option ℕ
  pub confidence : Confidence
  pub evidence : List SourceId
  pub counterfactual_notes : List String

pub record RealityKernel : Type 0 where
  pub atoms : BTreeMap AtomId RealityAtom
  pub revisions : BTreeMap AtomId (List BeliefRevision)
  pub conflicts : List ConflictSet
  pub dependencies : DependencyGraph
  pub causal_outgoing : BTreeMap EventId (List CausalAtom)
  pub causal_incoming : BTreeMap EventId (List CausalAtom)

-- `RealityKernel::new`
abbrev pub empty_kernel : RealityKernel
empty_kernel = record {
  atoms = [];
  revisions = [];
  conflicts = [];
  dependencies = Dependencies.new;
  causal_outgoing = [];
  causal_incoming = [];
}

-- `add_typed_dependency` between two atoms at the strength 1.0, which it accepts, so that the
-- `expect` on its result never panics.
abbrev pub link_atoms : RealityKernel → AtomId → AtomId → DependencyType → String → RealityKernel
link_atoms k from to dependency_type explanation = record k {
  dependencies =
      insert_dependency k.dependencies (atom from) (atom to)
        (record { dependency_type = dependency_type; strength = one; explanation = explanation });
}

abbrev pub with_belief : RealityAtom → BeliefState → RealityAtom
with_belief a state = record a { belief_state = state }

-- the revisions of an atom with one more at the end: `entry(id).or_default().push(..)`
abbrev pub pushed : RealityKernel → AtomId → BeliefRevision → List BeliefRevision
pushed k id r = get_or (get k.revisions id) [] ++ r ∷ []

-- the first loop of `insert_atom`
unfoldable pub link_dependencies : RealityKernel → AtomId → List AtomId → RealityKernel
link_dependencies k id [] = k
link_dependencies k id (d ∷ ds) =
    link_dependencies (link_atoms k d id derived_from "atom depends on upstream atom") id ds

abbrev pub superseded_in : RealityKernel → RealityAtom → AtomId → RealityKernel
superseded_in k new_atom id = elim (get k.atoms id) [
  | none ↦ k
  | some existing ↦ record k {
    atoms = insert k.atoms id (with_belief existing superseded);
    revisions = insert k.revisions id (
        pushed k id (record {
          atom_id = id;
          known_at = new_atom.transaction_time.start;
          previous = existing.belief_state;
          next = superseded;
          reason = append "superseded by " new_atom.id;
        }));
  }
]

-- the second loop of `insert_atom`
unfoldable pub supersede_atoms : RealityKernel → RealityAtom → List AtomId → RealityKernel
supersede_atoms k new_atom [] = k
supersede_atoms k new_atom (id ∷ ids) =
    supersede_atoms
      (link_atoms (superseded_in k new_atom id) id new_atom.id superseded_by
        "supersession depends on prior atom history")
      new_atom ids

unfoldable pub insert_atom : RealityKernel → RealityAtom → RealityKernel
insert_atom k a =
    let linked = supersede_atoms (link_dependencies k a.id a.dependencies) a a.supersedes in
    record linked { atoms = insert linked.atoms a.id a }

abbrev pub disputed_if_accepted : BeliefState → BeliefState
disputed_if_accepted accepted = disputed
disputed_if_accepted state = state

-- an atom that is a member of a conflict
unfoldable pub in_conflict : List AtomId → AtomId → RealityAtom → RealityAtom
in_conflict members id a = record a {
  contradicts =
      if any (contains members) a.contradicts
      then a.contradicts
      else a.contradicts ++ filter (λ other. not (other == id)) members;
  belief_state = disputed_if_accepted a.belief_state;
}

abbrev pub disputed_in : RealityKernel → List AtomId → AtomId → RealityKernel
disputed_in k members id = elim (get k.atoms id) [
  | none ↦ k
  | some a ↦ record k { atoms = insert k.atoms id (in_conflict members id a) }
]

-- the first loop of `add_conflict`
unfoldable pub dispute_members : RealityKernel → List AtomId → List AtomId → RealityKernel
dispute_members k members [] = k
dispute_members k members (id ∷ ids) = dispute_members (disputed_in k members id) members ids

unfoldable pub link_conflicts_from : RealityKernel → AtomId → List AtomId → RealityKernel
link_conflicts_from k from [] = k
link_conflicts_from k from (to ∷ ids) =
    link_conflicts_from
      (link_atoms k from to contradicted_by (append from (append " conflicts with " to))) from ids

-- the second loop of `add_conflict`
unfoldable pub link_conflicts : RealityKernel → List AtomId → List AtomId → RealityKernel
link_conflicts k members [] = k
link_conflicts k members (from ∷ ids) =
    link_conflicts (link_conflicts_from k from (filter (λ to. not (to == from)) members)) members
      ids

unfoldable pub add_conflict : RealityKernel → ConflictSet → RealityKernel
add_conflict k c =
    let linked = link_conflicts (dispute_members k c.atom_ids c.atom_ids) c.atom_ids c.atom_ids in
    record linked { conflicts = linked.conflicts ++ c ∷ [] }

-- `sort_by_key` on the time of the revision
abbrev pub compare_revisions : BeliefRevision → BeliefRevision → Ordering
compare_revisions a b = cmp a.known_at b.known_at

unfoldable pub revise_belief :
    RealityKernel → AtomId → BeliefState → TxTime → String → Result RealityKernel KernelError
revise_belief k id next known_at reason = elim (get k.atoms id) [
  | none ↦ err (unknown_atom id)
  | some a ↦ ok (record k {
    atoms = insert k.atoms id (with_belief a next);
    revisions = insert k.revisions id (
        sort_by compare_revisions (
          pushed k id (record {
            atom_id = id;
            known_at = known_at;
            previous = a.belief_state;
            next = next;
            reason = reason;
          })));
  })
]

unfoldable pub belief_revisions : RealityKernel → AtomId → List BeliefRevision
belief_revisions k id = get_or (get k.revisions id) []

-- The loop of `belief_at`, which runs from the last revision to the first.
unfoldable pub roll_back : TxTime → List BeliefRevision → BeliefState → BeliefState
roll_back t [] state = state
roll_back t (r ∷ rs) state =
    let later = roll_back t rs state in if lt t r.known_at then r.previous else later

unfoldable pub belief_at : RealityKernel → AtomId → TxTime → Option BeliefState
belief_at k id t = elim (get k.atoms id) [
  | none ↦ none
  | some a ↦ some (roll_back t (get_or (get k.revisions id) []) a.belief_state)
]
