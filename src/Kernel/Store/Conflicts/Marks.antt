-- ===== src/Kernel/Store/Conflicts/Marks.antt =====
-- crates/rg-kernel/src/lib.rs: what `add_conflict` makes of the atoms of the store.
use mathlib.Core.List.{Memᴰ, append-nil}
use hotgraph.Prelude.{
  ◌≡◌, refl, ◌∙◌, ap, List, [], ◌∷◌, ◌++◌, Option, none, some, ◌==◌, eq_iff, Bool, true, false,
  ◌||◌, ◌&&◌, not, if◌then◌else◌, string_ord, arith, Option-cases, Bool-cases, inl, inr,
}
use hotgraph.Prelude.Lists.{contains, any, filter}
use hotgraph.Prelude.Members.{Memᴰ-right, Memᴰ-filter, Memᴰ-contains, witness-any}
use hotgraph.Prelude.Map.{get, get-insert}
use hotgraph.Kernel.Atom.{AtomId, BeliefState, accepted, disputed, RealityAtom}
use hotgraph.Kernel.Belief.{ConflictSet}
use hotgraph.Kernel.Store.{
  RealityKernel, disputed_if_accepted, in_conflict, disputed_in, dispute_members, add_conflict,
}
use hotgraph.Kernel.Store.Explain.{conflicts-add_conflict}
use hotgraph.Kernel.Store.Conflicts.{link_conflicts-keeps}

-- What the belief in an atom is after a conflict that names it or not.
abbrev pub after_conflict : Bool → BeliefState → BeliefState
after_conflict true accepted = disputed
after_conflict _ state = state

others : List AtomId → AtomId → List AtomId
others members id = filter (λ other. not (other == id)) members

-- The contradictions of a member after the conflict.
contradicting : List AtomId → AtomId → List AtomId → List AtomId
contradicting members id ids = if any (contains members) ids then ids else ids ++ others members id

none_left :
    (members ids xs : List AtomId)
    → ((x : AtomId) → Memᴰ x xs → contains members x ≡ true)
    → any (contains members) (ids ++ xs) ≡ false
    → xs ≡ []
none_left members ids [] h e = refl
none_left members ids (x ∷ xs) h e =
    let found =
      witness-any (contains members) (ids ++ x ∷ xs) x (Memᴰ-right ids (x ∷ xs) (Memᴰ.head refl))
        (h x (Memᴰ.head refl)) in
    ground (arith, found, e)

contradicting-twice :
    (members : List AtomId) (id : AtomId) (ids : List AtomId)
    → contradicting members id (contradicting members id ids) ≡ contradicting members id ids
unfolding contradicting others
contradicting-twice members id ids =
    let more = filter (λ other. not (other == id)) members in
    elim (Bool-cases (any (contains members) ids)) [
      | inl some_in ↦ ground (arith, some_in)
      | inr none_in ↦ elim (Bool-cases (any (contains members) (ids ++ more))) [
        | inl now_in ↦ ground (arith, none_in, now_in)
        | inr still ↦
            let e : more ≡ [] =
              none_left members ids more
                (λ x m.
                  Memᴰ-contains members x (Memᴰ-filter (λ other. not (other == id)) members x m).0)
                still in
            ground (arith, none_in, still, e, append-nil ids)
      ]
    ]

disputed_if_accepted-twice :
    (state : BeliefState)
    → disputed_if_accepted (disputed_if_accepted state) ≡ disputed_if_accepted state
disputed_if_accepted-twice accepted = refl
disputed_if_accepted-twice state = ground arith

-- An atom that is a member or not.
marked : Bool → List AtomId → AtomId → Option RealityAtom → Option RealityAtom
marked true members id (some a) = some (in_conflict members id a)
marked _ members id known = known

in_conflict-twice :
    (members : List AtomId) (id : AtomId) (a : RealityAtom)
    → in_conflict members id (in_conflict members id a) ≡ in_conflict members id a
unfolding in_conflict contradicting others
in_conflict-twice members id a =
    ap
      (λ (x : List AtomId). record a {
        contradicts = x;
        belief_state = disputed_if_accepted (disputed_if_accepted a.belief_state);
      })
      (contradicting-twice members id a.contradicts)
    ∙ ap
        (λ (x : BeliefState). record a {
          contradicts = contradicting members id a.contradicts;
          belief_state = x;
        })
        (disputed_if_accepted-twice a.belief_state)

marked-twice :
    (b c : Bool) (members : List AtomId) (id : AtomId) (known : Option RealityAtom)
    → marked b members id (marked c members id known) ≡ marked (c || b) members id known
unfolding marked
marked-twice true true members id (some a) = ap some (in_conflict-twice members id a)
marked-twice true false members id (some a) = refl
marked-twice false true members id (some a) = refl
marked-twice false false members id (some a) = refl
marked-twice b c members id none = ground arith

get-disputed_in :
    (k : RealityKernel) (members : List AtomId) (i id : AtomId)
    → get (disputed_in k members i).atoms id ≡ marked (i == id) members id (get k.atoms id)
unfolding marked
get-disputed_in k members i id = elim (Option-cases (get k.atoms i)) [
  | inl missing ↦ ground (arith, eq_iff i id)
  | inr (a, known) ↦ ground (arith, get-insert k.atoms i (in_conflict members i a) id, eq_iff i id)
]

get-dispute_members :
    (k : RealityKernel) (members ids : List AtomId) (id : AtomId)
    → get (dispute_members k members ids).atoms id
      ≡ marked (contains ids id) members id (get k.atoms id)
unfolding dispute_members contains marked
get-dispute_members k members [] id = ground arith
get-dispute_members k members (i ∷ ids) id =
    get-dispute_members (disputed_in k members i) members ids id
    ∙ ap (marked (contains ids id) members id) (get-disputed_in k members i id)
    ∙ marked-twice (contains ids id) (i == id) members id (get k.atoms id)

-- What a conflict makes of an atom under an identifier. A member that was accepted is disputed,
-- and the others are put behind its contradictions unless one of the members is there already.
-- Everything else of a member, and every other atom, stays.
abbrev pub IsMarked : ConflictSet → AtomId → RealityAtom → RealityAtom → Type 0
IsMarked c id a b =
    (b ≡ record a { belief_state = b.belief_state; contradicts = b.contradicts })
    × (b.belief_state ≡ after_conflict (contains c.atom_ids id) a.belief_state)
    × (b.contradicts ≡ (
        if contains c.atom_ids id && not (any (contains c.atom_ids) a.contradicts)
        then a.contradicts ++ filter (λ other. not (other == id)) c.atom_ids
        else a.contradicts))

after_conflict-disputed :
    (state : BeliefState) → disputed_if_accepted state ≡ after_conflict true state
after_conflict-disputed accepted = refl
after_conflict-disputed state = ground arith

marked-IsMarked :
    (c : ConflictSet) (id : AtomId) (a : RealityAtom) (member : Bool)
    → contains c.atom_ids id ≡ member
    → (b : RealityAtom) × (marked member c.atom_ids id (some a) ≡ some b) × IsMarked c id a b
unfolding marked in_conflict contradicting others
marked-IsMarked c id a true e = (
  in_conflict c.atom_ids id a,
  refl,
  (refl, ground (arith, e, after_conflict-disputed a.belief_state), ground (arith, e)),
)
marked-IsMarked c id a false e = (a, refl, (refl, ground (arith, e), ground (arith, e)))

-- A conflict drops no side: it is appended to the conflicts of the store, and every atom of the
-- store is still there. A member that was accepted becomes disputed and names the other
-- members as contradictions, unless it names a member already; nothing else of an atom changes, and
-- an atom that is no member stays whole.
pub add_conflict_lem :
    (k : RealityKernel) (c : ConflictSet) (id : AtomId) (a : RealityAtom)
    → get k.atoms id ≡ some a
    → ((add_conflict k c).conflicts ≡ k.conflicts ++ c ∷ [])
      × (b : RealityAtom) × (get (add_conflict k c).atoms id ≡ some b)
      × IsMarked c id a b
unfolding add_conflict
add_conflict_lem k c id a known =
    let members = dispute_members k c.atom_ids c.atom_ids in
    let (p, q) = link_conflicts-keeps members c.atom_ids c.atom_ids in
    let (b, e, m) = marked-IsMarked c id a (contains c.atom_ids id) refl in
    (
      conflicts-add_conflict k c,
      b,
      ap (λ atoms. get atoms id) p
          ∙ get-dispute_members k c.atom_ids c.atom_ids id
          ∙ ap (marked (contains c.atom_ids id) c.atom_ids id) known
          ∙ e,
      m,
    )
