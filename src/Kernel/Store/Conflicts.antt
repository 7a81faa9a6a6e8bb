-- ===== src/Kernel/Store/Conflicts.antt =====
-- crates/rg-kernel/src/lib.rs: `add_conflict` and the belief states of the atoms.
pub mod Marks
use Prim.Native.String.{◌++◌ as append}
use mathlib.Core.List.{Memᴰ, append-nil}
use hotgraph.Prelude.{
  ◌≡◌, refl, ◌∙◌, ap, List, [], ◌∷◌, ◌++◌, Option, none, some, ◌==◌, eq_iff, Bool, true, false,
  ◌||◌, ◌&&◌, not, if◌then◌else◌, string_ord, arith, Option-cases, Bool-cases, inl, inr,
}
use hotgraph.Prelude.Lists.{contains, contains-append, any, filter}
use hotgraph.Prelude.Sorted.{contains-filter}
use hotgraph.Prelude.Members.{Memᴰ-right, Memᴰ-filter, Memᴰ-contains, witness-any}
use hotgraph.Prelude.Map.{get, get-insert}
use hotgraph.Kernel.Atom.{AtomId, BeliefState, accepted, disputed, RealityAtom}
use hotgraph.Kernel.Belief.{ConflictSet}
use hotgraph.Kernel.Node.{contradicted_by}
use hotgraph.Kernel.Store.{
  link_atoms, RealityKernel, disputed_if_accepted, in_conflict, disputed_in, dispute_members,
  link_conflicts_from, link_conflicts, add_conflict,
}
use hotgraph.Kernel.Store.Explain.{conflicts-add_conflict}

-- The belief in an atom, as a member of a conflict or not.
abbrev pub state_in_conflict : Bool → BeliefState → BeliefState
state_in_conflict true state = disputed_if_accepted state
state_in_conflict false state = state

-- The belief state of an atom of the store now.
abbrev pub state_of : RealityKernel → AtomId → Option BeliefState
state_of k id = elim (get k.atoms id) [ none ↦ none | some a ↦ some a.belief_state ]

abbrev pub disputed_state : Bool → Option BeliefState → Option BeliefState
disputed_state member none = none
disputed_state member (some state) = some (state_in_conflict member state)

disputed_state-twice :
    (b c : Bool) (o : Option BeliefState)
    → disputed_state b (disputed_state c o) ≡ disputed_state (c || b) o
disputed_state-twice b c none = refl
disputed_state-twice true true (some accepted) = refl
disputed_state-twice true true (some s) = ground arith
disputed_state-twice true false (some s) = refl
disputed_state-twice false true (some s) = refl
disputed_state-twice false false (some s) = refl

state-disputed_in :
    (k : RealityKernel) (members : List AtomId) (i id : AtomId)
    → state_of (disputed_in k members i) id ≡ disputed_state (i == id) (state_of k id)
unfolding in_conflict
state-disputed_in k members i id = elim (Option-cases (get k.atoms i)) [
  | inl missing ↦ ground (arith, eq_iff i id)
  | inr (a, known) ↦ ground (arith, get-insert k.atoms i (in_conflict members i a) id, eq_iff i id)
]

state-dispute_members :
    (k : RealityKernel) (members ids : List AtomId) (id : AtomId)
    → state_of (dispute_members k members ids) id ≡ disputed_state (contains ids id) (state_of k id)
unfolding dispute_members contains
state-dispute_members k members [] id = ground arith
state-dispute_members k members (i ∷ ids) id =
    state-dispute_members (disputed_in k members i) members ids id
    ∙ ap (disputed_state (contains ids id)) (state-disputed_in k members i id)
    ∙ disputed_state-twice (contains ids id) (i == id) (state_of k id)

link_conflicts_from-keeps :
    (k : RealityKernel) (from : AtomId) (ids : List AtomId)
    → let linked = link_conflicts_from k from ids in
      (linked.atoms ≡ k.atoms) × (linked.revisions ≡ k.revisions)
unfolding link_conflicts_from
link_conflicts_from-keeps k from [] = (refl, refl)
link_conflicts_from-keeps k from (to ∷ ids) =
    link_conflicts_from-keeps
      (link_atoms k from to contradicted_by (append from (append " conflicts with " to))) from ids

pub link_conflicts-keeps :
    (k : RealityKernel) (members ids : List AtomId)
    → let linked = link_conflicts k members ids in
      (linked.atoms ≡ k.atoms) × (linked.revisions ≡ k.revisions)
unfolding link_conflicts
link_conflicts-keeps k members [] = (refl, refl)
link_conflicts-keeps k members (from ∷ ids) =
    let (p, q) = link_conflicts-keeps (link_conflicts_from k from _) members ids in
    let (r, s) = link_conflicts_from-keeps k from _ in (p ∙ r, q ∙ s)

-- The belief in an atom after a conflict.
pub state-add_conflict :
    (k : RealityKernel) (c : ConflictSet) (id : AtomId)
    → state_of (add_conflict k c) id ≡ disputed_state (contains c.atom_ids id) (state_of k id)
unfolding add_conflict
state-add_conflict k c id =
    let (p, q) =
      link_conflicts-keeps (dispute_members k c.atom_ids c.atom_ids) c.atom_ids c.atom_ids in
    ground (arith, p, state-dispute_members k c.atom_ids c.atom_ids id)
