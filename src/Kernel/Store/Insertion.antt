-- ===== src/Kernel/Store/Insertion.antt =====
-- crates/rg-kernel/src/lib.rs: `insert_atom` and the beliefs of the store.
use hotgraph.Prelude.{
  ◌≡◌, refl, ◌∙◌, ap, List, [], ◌∷◌, Option, none, some, ◌==◌, eq_iff, eq_self, Bool, true, false,
  ◌||◌, lt, string_ord, arith, Option-cases, inl, inr, if◌then◌else◌,
}
use Prim.Native.String.{◌++◌ as append}
use hotgraph.Prelude.Int.{ℤ_ord}
use hotgraph.Prelude.Lists.{contains}
use hotgraph.Prelude.Map.{get, get_or, get-insert}
use hotgraph.Core.Types.{TxTime}
use hotgraph.Kernel.Atom.{AtomId, BeliefState, superseded, RealityAtom}
use hotgraph.Kernel.Belief.{BeliefRevision}
use hotgraph.Kernel.Node.{superseded_by, derived_from}
use hotgraph.Kernel.Store.{
  RealityKernel, with_belief, pushed, link_atoms, link_dependencies, superseded_in, supersede_atoms,
  insert_atom, roll_back, belief_at,
}
use hotgraph.Kernel.Store.Conflicts.{state_of}
use hotgraph.Kernel.Store.History.{roll_back-append}

-- The belief state of an atom that is superseded or not.
abbrev pub superseded_state : Bool → Option BeliefState → Option BeliefState
superseded_state true (some state) = some superseded
superseded_state _ state = state

superseded_state-twice :
    (b c : Bool) (o : Option BeliefState)
    → superseded_state b (superseded_state c o) ≡ superseded_state (c || b) o
superseded_state-twice b c none = ground arith
superseded_state-twice b c (some s) = ground arith

module _ (a : RealityAtom) where
  state-superseded_in :
      (k : RealityKernel) (i id : AtomId)
      → state_of (superseded_in k a i) id ≡ superseded_state (i == id) (state_of k id)
  state-superseded_in k i id = elim (Option-cases (get k.atoms i)) [
    | inl missing ↦ ground (arith, eq_iff i id)
    | inr (b, known) ↦
        ground (arith, get-insert k.atoms i (with_belief b superseded) id, eq_iff i id)
  ]

  state-supersede_atoms :
      (k : RealityKernel) (ids : List AtomId) (id : AtomId)
      → state_of (supersede_atoms k a ids) id ≡ superseded_state (contains ids id) (state_of k id)
  unfolding supersede_atoms contains
  state-supersede_atoms k [] id = ground arith
  state-supersede_atoms k (i ∷ ids) id =
      state-supersede_atoms
        (link_atoms (superseded_in k a i) i a.id superseded_by
          "supersession depends on prior atom history")
        ids id
      ∙ ap (superseded_state (contains ids id)) (state-superseded_in k i id)
      ∙ superseded_state-twice (contains ids id) (i == id) (state_of k id)

  module _ (id : AtomId) (t : TxTime) (early : lt t a.transaction_time.start ≡ true) where
    belief-superseded_in :
        (k : RealityKernel) (i : AtomId) → belief_at (superseded_in k a i) id t ≡ belief_at k id t
    unfolding belief_at roll_back
    belief-superseded_in k i = elim (Option-cases (get k.atoms i)) [
      | inl missing ↦ ground arith
      | inr (b, known) ↦
          let r : BeliefRevision = record {
            atom_id = i;
            known_at = a.transaction_time.start;
            previous = b.belief_state;
            next = superseded;
            reason = append "superseded by " a.id;
          } in
          ground (
            arith,
            get-insert k.atoms i (with_belief b superseded) id,
            get-insert k.revisions i (pushed k i r) id,
            roll_back-append t (get_or (get k.revisions i) []) (r ∷ []) superseded,
            eq_iff i id,
          )
    ]

    belief-supersede_atoms :
        (k : RealityKernel) (ids : List AtomId)
        → belief_at (supersede_atoms k a ids) id t ≡ belief_at k id t
    unfolding supersede_atoms belief_at
    belief-supersede_atoms k [] = refl
    belief-supersede_atoms k (i ∷ ids) =
        belief-supersede_atoms
          (link_atoms (superseded_in k a i) i a.id superseded_by
            "supersession depends on prior atom history")
          ids
        ∙ belief-superseded_in k i

link_dependencies-keeps :
    (k : RealityKernel) (id : AtomId) (ids : List AtomId)
    → let linked = link_dependencies k id ids in
      (linked.atoms ≡ k.atoms) × (linked.revisions ≡ k.revisions)
unfolding link_dependencies
link_dependencies-keeps k id [] = (refl, refl)
link_dependencies-keeps k id (d ∷ ids) =
    link_dependencies-keeps (link_atoms k d id derived_from "atom depends on upstream atom") id ids

-- The belief in an atom after the insertion of an atom.
pub state-insert_atom :
    (k : RealityKernel) (a : RealityAtom) (id : AtomId)
    → state_of (insert_atom k a) id ≡ (
        if a.id == id
        then some a.belief_state
        else superseded_state (contains a.supersedes id) (state_of k id))
unfolding insert_atom
state-insert_atom k a id =
    let linked = link_dependencies k a.id a.dependencies in
    let (p, q) = link_dependencies-keeps k a.id a.dependencies in
    let done = supersede_atoms linked a a.supersedes in
    ground
      (arith, get-insert done.atoms a.id a id, state-supersede_atoms a linked a.supersedes id, p)

-- Inserting an atom puts it under its identifier. Any other atom is superseded now if the new one
-- supersedes it, and else believed as it was; and at every time before the new atom's transaction
-- time the belief in the other atom is the one that it was.
pub insert_atom_lem :
    (k : RealityKernel) (a : RealityAtom) (id : AtomId) (t : TxTime)
    → a.id == id ≡ false
    → lt t a.transaction_time.start ≡ true
    → (get (insert_atom k a).atoms a.id ≡ some a)
      × (state_of (insert_atom k a) id
          ≡ superseded_state (contains a.supersedes id) (state_of k id))
      × (belief_at (insert_atom k a) id t ≡ belief_at k id t)
unfolding insert_atom belief_at
insert_atom_lem k a id t other early =
    let linked = link_dependencies k a.id a.dependencies in
    let (p, q) = link_dependencies-keeps k a.id a.dependencies in
    let done = supersede_atoms linked a a.supersedes in
    (
      ground (arith, get-insert done.atoms a.id a a.id, eq_self a.id),
      ground (arith, state-insert_atom k a id),
      ground (
        arith,
        get-insert done.atoms a.id a id,
        belief-supersede_atoms a id t early linked a.supersedes,
        p,
        q,
      ),
    )
