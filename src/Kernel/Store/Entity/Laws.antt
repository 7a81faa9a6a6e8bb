-- ===== src/Kernel/Store/Entity/Laws.antt =====
-- crates/rg-kernel/src/lib.rs: what `entity_state` shows.
use mathlib.Core.List.{Memᴰ, append-nil, append_assoc}
use hotgraph.Prelude.{
  List, [], ◌∷◌, ◌++◌, Option, none, some, Bool, true, false, ◌&&◌, if◌then◌else◌, string_ord, ◌==◌,
  ◌≡◌, refl, ◌∙◌, sym, ap, subst, arith, ◌↔◌, cmp, inl, inr,
}
use hotgraph.Prelude.Lists.{any, filter, contains}
use hotgraph.Prelude.Map.{get, values, contains_key}
use hotgraph.Prelude.Members.{
  Memᴰ-left, Memᴰ-right, Memᴰ-append_cases, Memᴰ-map, map-Memᴰ, any-witness, witness-any,
  contains-Memᴰ, Memᴰ-contains, Memᴰ-sort_by, Memᴰ-filter, filter-Memᴰ,
}
use hotgraph.Core.Types.{ValidTime, TxTime}
use hotgraph.Kernel.Atom.{
  AtomId, EntityRef, BeliefState, accepted, disputed, superseded, RealityAtom, is_visible_at,
}
use hotgraph.Kernel.Belief.{ConflictSet}
use hotgraph.Kernel.Physical.Push.{sort_atoms}
use hotgraph.Kernel.Store.{RealityKernel, belief_at}
use hotgraph.Kernel.Views.{BTreeSet, extend}
use hotgraph.Kernel.Views.Stale.{contains_key-extend}
use hotgraph.Kernel.Store.Entity.{
  EntityState, empty_state, place, is_about, place_all, shown_ids, sorted_state, with_conflicts,
  entity_state,
}

-- The three lists of atoms.
pub data Shown : Type 0 where
  as_accepted as_disputed as_superseded : Shown

abbrev pub shown : EntityState → Shown → List RealityAtom
shown s as_accepted = s.accepted_atoms
shown s as_disputed = s.disputed_atoms
shown s as_superseded = s.superseded_atoms

abbrev pub is_believed : Shown → Option BeliefState → Bool
is_believed as_accepted (some accepted) = true
is_believed as_disputed (some disputed) = true
is_believed as_superseded (some superseded) = true
is_believed _ _ = false

-- The conflict names an atom that one of the lists shows.
abbrev pub Names : EntityState → ConflictSet → Type 0
Names s c = (x : Shown) × (a : RealityAtom) × Memᴰ a (shown s x) × (contains c.atom_ids a.id ≡ true)

all_shown : EntityState → List RealityAtom
all_shown s = s.accepted_atoms ++ (s.disputed_atoms ++ s.superseded_atoms)

shown-all_shown :
    (s : EntityState) (x : Shown) (a : RealityAtom) → Memᴰ a (shown s x) → Memᴰ a (all_shown s)
unfolding all_shown
shown-all_shown s as_accepted a m = Memᴰ-left s.accepted_atoms _ m
shown-all_shown s as_disputed a m = Memᴰ-right s.accepted_atoms _ (Memᴰ-left s.disputed_atoms _ m)
shown-all_shown s as_superseded a m =
    Memᴰ-right s.accepted_atoms _ (Memᴰ-right s.disputed_atoms _ m)

all_shown-cases :
    (s : EntityState) (a : RealityAtom) → Memᴰ a (all_shown s) → (x : Shown) × Memᴰ a (shown s x)
unfolding all_shown
all_shown-cases s a m = elim (Memᴰ-append_cases s.accepted_atoms _ m) [
  | inl here ↦ (as_accepted, here)
  | inr later ↦ elim (Memᴰ-append_cases s.disputed_atoms _ later) [
    | inl here ↦ (as_disputed, here)
    | inr last ↦ (as_superseded, last)
  ]
]

abbrev id_of : RealityAtom → AtomId
id_of a = a.id

Names-iff :
    (s : EntityState) (c : ConflictSet)
    → (any (λ id. contains (shown_ids s) id) c.atom_ids ≡ true) ↔ Names s c
unfolding all_shown
Names-iff s c = (
  λ h.
      let (id, i, p) = any-witness (λ id. contains (shown_ids s) id) c.atom_ids h in
      let (a, j, e) = Memᴰ-map id_of (all_shown s) id (contains-Memᴰ (shown_ids s) id p) in
      let (x, m) = all_shown-cases s a j in
      (x, a, m, Memᴰ-contains c.atom_ids a.id (subst (λ t. Memᴰ t c.atom_ids) e i)),
  λ (x, a, m, h).
      witness-any (λ id. contains (shown_ids s) id) c.atom_ids a.id
        (contains-Memᴰ c.atom_ids a.id h)
        (Memᴰ-contains (shown_ids s) a.id
          (map-Memᴰ id_of (all_shown s) a (shown-all_shown s x a m))),
)

-- an entity and the two times
abbrev pub Question : Type 0
Question = EntityRef × ValidTime × TxTime

abbrev question : EntityState → Question
question s = (s.entity, s.valid_at, s.known_at)

abbrev the_set : List AtomId → BTreeSet AtomId
the_set ids = extend [] ids

module _ (k : RealityKernel) where
  -- The atom belongs in this list of a state for the question.
  abbrev pub belongs : Question → Shown → RealityAtom → Bool
  belongs (entity, valid_at, known_at) x a =
      (a.subject == entity && is_visible_at a valid_at known_at)
      && is_believed x (belief_at k a.id known_at)

  abbrev push_shown : Bool → List RealityAtom → RealityAtom → List RealityAtom
  push_shown b atoms a = if b then atoms ++ a ∷ [] else atoms

  shown-place :
      (s : EntityState) (a : RealityAtom) (o : Option BeliefState) (x : Shown)
      → shown (place s a o) x ≡ push_shown (is_believed x o) (shown s x) a
  shown-place s a none as_accepted = refl
  shown-place s a none as_disputed = refl
  shown-place s a none as_superseded = refl
  shown-place s a (some b) as_accepted = ground arith
  shown-place s a (some b) as_disputed = ground arith
  shown-place s a (some b) as_superseded = ground arith

  question-place :
      (s : EntityState) (a : RealityAtom) (o : Option BeliefState)
      → question (place s a o) ≡ question s
  question-place s a none = refl
  question-place s a (some b) = ground arith

  step : EntityState → RealityAtom → EntityState
  step s a = if is_about s a then place s a (belief_at k a.id s.known_at) else s

  question-step : (s : EntityState) (a : RealityAtom) → question (step s a) ≡ question s
  unfolding step
  question-step s a = ground (arith, question-place s a (belief_at k a.id s.known_at))

  shown-step :
      (s : EntityState) (a : RealityAtom) (x : Shown)
      → shown (step s a) x ≡ push_shown (belongs (question s) x a) (shown s x) a
  unfolding step
  shown-step s a x = ground (arith, shown-place s a (belief_at k a.id s.known_at) x)

  shown-place_all :
      (s : EntityState) (atoms : List RealityAtom) (x : Shown)
      → shown (place_all k s atoms) x ≡ shown s x ++ filter (belongs (question s) x) atoms
  unfolding place_all filter step
  shown-place_all s [] x = sym (append-nil (shown s x))
  shown-place_all s (a ∷ atoms) x =
      shown-place_all (step s a) atoms x
      ∙ ap (λ q. shown (step s a) x ++ filter (belongs q x) atoms) (question-step s a)
      ∙ ground (
        arith,
        shown-step s a x,
        append_assoc (shown s x) (a ∷ []) (filter (belongs (question s) x) atoms),
      )

  sorted_shown : (s : EntityState) (x : Shown) → shown (sorted_state s) x ≡ sort_atoms (shown s x)
  sorted_shown s as_accepted = refl
  sorted_shown s _ = refl

  shown-with_conflicts : (s : EntityState) (x : Shown) → shown (with_conflicts k s) x ≡ shown s x
  shown-with_conflicts s as_accepted = refl
  shown-with_conflicts s _ = refl

  shown-empty_state :
      (entity : EntityRef) (v : ValidTime) (t : TxTime) (x : Shown)
      → shown (empty_state entity v t) x ≡ []
  shown-empty_state entity v t as_accepted = refl
  shown-empty_state entity v t _ = refl

  shown-entity_state :
      (entity : EntityRef) (v : ValidTime) (t : TxTime) (x : Shown)
      → shown (entity_state k entity v t) x
        ≡ sort_atoms (filter (belongs (entity, v, t) x) (values k.atoms))
  unfolding entity_state
  shown-entity_state entity v t x =
      let start = empty_state entity v t in
      let s = place_all k start (values k.atoms) in
      shown-with_conflicts (sorted_state s) x
      ∙ sorted_shown s x
      ∙ ap sort_atoms (
          shown-place_all start (values k.atoms) x
          ∙ ap (λ xs. xs ++ filter (belongs (entity, v, t) x) (values k.atoms))
              (shown-empty_state entity v t x))

  visible_names :
      (shown ids : List AtomId)
      → any (λ id. contains_key (the_set shown) id) ids ≡ any (λ id. contains shown id) ids
  unfolding any contains_key get
  visible_names shown [] = refl
  visible_names shown (i ∷ ids) =
      ground (arith, visible_names shown ids, contains_key-extend [] shown i)

  conflicts_iff :
      (s : EntityState) (c : ConflictSet)
      → Memᴰ c (with_conflicts k s).conflicts
        ↔ (Memᴰ c k.conflicts × (any (λ id. contains (shown_ids s) id) c.atom_ids ≡ true))
  conflicts_iff s c =
      let names : ConflictSet → Bool =
        λ d. any (λ id. contains_key (the_set (shown_ids s)) id) d.atom_ids in
      let e = visible_names (shown_ids s) c.atom_ids in
      (
        λ m. let (i, h) = Memᴰ-filter names k.conflicts c m in (i, sym e ∙ h),
        λ (m, h). filter-Memᴰ names k.conflicts c m (e ∙ h),
      )

  -- The answer shows as accepted, disputed or superseded exactly those atoms of the store that are
  -- about the entity, visible at the two times, and believed so at the transaction time; and it
  -- lists exactly the conflicts of the store that name an atom that it shows.
  pub entity_state_lem :
      (entity : EntityRef) (v : ValidTime) (t : TxTime)
      → let s = entity_state k entity v t in
        ((x : Shown) (a : RealityAtom)
          → Memᴰ a (shown s x) ↔ (Memᴰ a (values k.atoms) × (belongs (entity, v, t) x a ≡ true)))
        × ((c : ConflictSet) → Memᴰ c s.conflicts ↔ (Memᴰ c k.conflicts × Names s c))
  unfolding entity_state sort_atoms
  entity_state_lem entity v t =
      let p : Shown → RealityAtom → Bool = belongs (entity, v, t) in
      let s = sorted_state (place_all k (empty_state entity v t) (values k.atoms)) in
      let listed = conflicts_iff s in
      (
        λ x a.
            let sorted =
              Memᴰ-sort_by (λ (b c : RealityAtom). cmp b.id c.id) (filter (p x) (values k.atoms))
                a in
            let e = shown-entity_state entity v t x in
            (
              λ m. Memᴰ-filter (p x) (values k.atoms) a (sorted.0 (subst (Memᴰ a) e m)),
              λ (m, h).
                  subst (Memᴰ a) (sym e) (sorted.1 (filter-Memᴰ (p x) (values k.atoms) a m h)),
            ),
        λ c. (
          λ m. let (i, h) = (listed c).0 m in (i, (Names-iff s c).0 h),
          λ (i, h). (listed c).1 (i, (Names-iff s c).1 h),
        ),
      )
