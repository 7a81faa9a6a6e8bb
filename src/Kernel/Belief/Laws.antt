-- ===== src/Kernel/Belief/Laws.antt =====
-- crates/rg-kernel/src/lib.rs: the atoms that a belief view lists.
use hotgraph.Prelude.{
  ◌≡◌, refl, ◌∙◌, List, [], ◌∷◌, ◌++◌, string_ord, Bool, true, false, ◌&&◌, ◌||◌, ◌==◌, arith,
}
use hotgraph.Prelude.Lists.{contains, contains-append, any, filter, contains-sort_dedup}
use hotgraph.Core.Types.{ValidTime}
use hotgraph.Kernel.Atom.{
  AtomId, TransactionTime, BeliefState, accepted, disputed, superseded, retracted, refuted,
  RealityAtom, is_visible_at,
}
use hotgraph.Kernel.Belief.{
  BeliefPolicy, BeliefView, shows_disputed, shows_superseded, classify, classify_all, empty_view,
  current_belief,
}

-- The belief states that a policy shows.
abbrev pub shows : BeliefPolicy → BeliefState → Bool
shows policy accepted = true
shows policy disputed = shows_disputed policy
shows policy superseded = shows_superseded policy
shows policy _ = false

abbrev pub is_accepted : BeliefState → Bool
is_accepted accepted = true
is_accepted _ = false

abbrev pub is_rejected : BeliefState → Bool
is_rejected retracted = true
is_rejected refuted = true
is_rejected _ = false

contains-snoc :
    (ids : List AtomId) (i id : AtomId) → contains (ids ++ i ∷ []) id ≡ (contains ids id || i == id)
unfolding contains
contains-snoc ids i id = ground (arith, contains-append ids (i ∷ []) id)

-- Some atom of the list has the identifier and a belief state that passes.
abbrev pub held : (BeliefState → Bool) → AtomId → RealityAtom → Bool
held p id a = a.id == id && p a.belief_state

visible-classify :
    (policy : BeliefPolicy) (v : BeliefView) (i : AtomId) (b : BeliefState) (id : AtomId)
    → contains (classify policy v i b).visible_atoms id
      ≡ (contains v.visible_atoms id || (i == id && shows policy b))
unfolding classify
visible-classify policy v i accepted id = ground (arith, contains-snoc v.visible_atoms i id)
visible-classify policy v i b id = ground (arith, contains-snoc v.visible_atoms i id)

accepted-classify :
    (policy : BeliefPolicy) (v : BeliefView) (i : AtomId) (b : BeliefState) (id : AtomId)
    → contains (classify policy v i b).accepted_atoms id
      ≡ (contains v.accepted_atoms id || (i == id && is_accepted b))
unfolding classify
accepted-classify policy v i accepted id = ground (arith, contains-snoc v.accepted_atoms i id)
accepted-classify policy v i b id = ground arith

rejected-classify :
    (policy : BeliefPolicy) (v : BeliefView) (i : AtomId) (b : BeliefState) (id : AtomId)
    → contains (classify policy v i b).rejected_atoms id
      ≡ (contains v.rejected_atoms id || (i == id && is_rejected b))
unfolding classify
rejected-classify policy v i accepted id = ground arith
rejected-classify policy v i b id = ground (arith, contains-snoc v.rejected_atoms i id)

visible-classify_all :
    (policy : BeliefPolicy) (v : BeliefView) (atoms : List RealityAtom) (id : AtomId)
    → contains (classify_all policy v atoms).visible_atoms id
      ≡ (contains v.visible_atoms id || any (held (shows policy) id) atoms)
unfolding classify_all any
visible-classify_all policy v [] id = ground arith
visible-classify_all policy v (a ∷ atoms) id = ground (
  arith,
  visible-classify_all policy (classify policy v a.id a.belief_state) atoms id,
  visible-classify policy v a.id a.belief_state id,
)

accepted-classify_all :
    (policy : BeliefPolicy) (v : BeliefView) (atoms : List RealityAtom) (id : AtomId)
    → contains (classify_all policy v atoms).accepted_atoms id
      ≡ (contains v.accepted_atoms id || any (held is_accepted id) atoms)
unfolding classify_all any
accepted-classify_all policy v [] id = ground arith
accepted-classify_all policy v (a ∷ atoms) id = ground (
  arith,
  accepted-classify_all policy (classify policy v a.id a.belief_state) atoms id,
  accepted-classify policy v a.id a.belief_state id,
)

rejected-classify_all :
    (policy : BeliefPolicy) (v : BeliefView) (atoms : List RealityAtom) (id : AtomId)
    → contains (classify_all policy v atoms).rejected_atoms id
      ≡ (contains v.rejected_atoms id || any (held is_rejected id) atoms)
unfolding classify_all any
rejected-classify_all policy v [] id = ground arith
rejected-classify_all policy v (a ∷ atoms) id = ground (
  arith,
  rejected-classify_all policy (classify policy v a.id a.belief_state) atoms id,
  rejected-classify policy v a.id a.belief_state id,
)

any-filter :
    (p q : RealityAtom → Bool) (atoms : List RealityAtom)
    → any q (filter p atoms) ≡ any (λ a. p a && q a) atoms
unfolding any filter
any-filter p q [] = refl
any-filter p q (a ∷ atoms) = ground (arith, any-filter p q atoms)

-- An atom of the list with this identifier is visible at the two times, with such a belief state.
abbrev pub some_visible :
    List RealityAtom → ValidTime → TransactionTime → (BeliefState → Bool) → AtomId → Bool
some_visible atoms valid_at known_at p id =
    any (λ a. is_visible_at a valid_at known_at && held p id a) atoms

-- A view shows exactly the identifiers of the atoms that are visible at the two times in a belief
-- state that the policy shows; among these the accepted and the rejected are listed exactly.
pub current_belief_lem :
    (atoms : List RealityAtom) (valid_at : ValidTime) (known_at : TransactionTime)
    (policy : BeliefPolicy) (id : AtomId)
    → let v = current_belief atoms valid_at known_at policy in
      (contains v.visible_atoms id ≡ some_visible atoms valid_at known_at (shows policy) id)
      × (contains v.accepted_atoms id ≡ some_visible atoms valid_at known_at is_accepted id)
      × (contains v.rejected_atoms id ≡ some_visible atoms valid_at known_at is_rejected id)
unfolding current_belief any contains
current_belief_lem atoms valid_at known_at policy id =
    let seen = filter (λ a. is_visible_at a valid_at known_at) atoms in
    let v = classify_all policy (empty_view valid_at known_at) seen in
    (
      contains-sort_dedup v.visible_atoms id
          ∙ visible-classify_all policy (empty_view valid_at known_at) seen id
          ∙ any-filter _ (held (shows policy) id) atoms,
      contains-sort_dedup v.accepted_atoms id
          ∙ accepted-classify_all policy (empty_view valid_at known_at) seen id
          ∙ any-filter _ (held is_accepted id) atoms,
      contains-sort_dedup v.rejected_atoms id
          ∙ rejected-classify_all policy (empty_view valid_at known_at) seen id
          ∙ any-filter _ (held is_rejected id) atoms,
    )
