-- ===== src/Events/Log/Grounded.antt =====
-- crates/rg-events/src/lib.rs: what grounds an assertion in a state, and under which changes.
use hotgraph.Prelude.{
  ◌≡◌, refl, sym, subst, String, List, [], ◌∷◌, Bool, true, false, ◌==◌, eq_iff, eq_self, some,
  none, string_ord, arith, ok, err, inl, inr, Bool-cases, Option-cases,
}
use mathlib.Core.Path.{subst₂}
use hotgraph.Prelude.Lists.{all, contains, is_empty}
use hotgraph.Prelude.Map.{BTreeMap, get, contains_key, insert, update, get-insert, get-update}
use hotgraph.Core.Types.{AssertionId, SourceId, EntityId, Entity, Assertion, GraphValue}
use hotgraph.Events.State.{GraphState}
use hotgraph.Events.Apply.{Checked, write_if}
use hotgraph.Events.Apply.Keeps.{Kept}

abbrev pub ObjectKnown : BTreeMap EntityId Entity → GraphValue → Type 0
ObjectKnown entities (GraphValue.entity id) = contains_key entities id ≡ true
ObjectKnown entities _ = Unit

-- The assertion under a key has that key for its identifier, at least one source, and names only
-- sources and entities of the state.
pub record IsGrounded (s : GraphState) (k : AssertionId) (a : Assertion) : Type 0 where
  pub keyed : a.id ≡ k
  pub sourced : (src : SourceId) × (contains a.source_ids src ≡ true)
  pub sources :
      (src : SourceId) → contains a.source_ids src ≡ true → contains_key s.sources src ≡ true
  pub subject : contains_key s.entities a.subject ≡ true
  pub object : ObjectKnown s.entities a.object

pub record HasProvenance (s : GraphState) : Type 0 where
  pub at_key : (k : AssertionId) (a : Assertion) → get s.assertions k ≡ some a → IsGrounded s k a

ObjectKnown-Kept :
    (m n : BTreeMap EntityId Entity) (v : GraphValue) → Kept m n → ObjectKnown m v → ObjectKnown n v
ObjectKnown-Kept m n (GraphValue.entity id) h k = h id k
ObjectKnown-Kept m n _ h k = tt

-- A state with all that another has grounds what the other grounds.
IsGrounded-Kept :
    (s t : GraphState) (k : AssertionId) (a : Assertion)
    → Kept s.entities t.entities
    → Kept s.sources t.sources
    → IsGrounded s k a
    → IsGrounded t k a
IsGrounded-Kept s t k a e f g = record {
  keyed = g.keyed;
  sourced = g.sourced;
  sources = λ src h. f src (g.sources src h);
  subject = e a.subject g.subject;
  object = ObjectKnown-Kept s.entities t.entities a.object e g.object;
}

pub known_of_all :
    (known : String → Bool) (ids : List String) (a : String)
    → all known ids ≡ true
    → contains ids a ≡ true
    → known a ≡ true
unfolding all contains
known_of_all known [] a h c = cc
known_of_all known (id ∷ ids) a h c = ground (arith, eq_iff id a, known_of_all known ids a)

pub first-contains :
    (ids : List String) → is_empty ids ≡ false → (a : String) × (contains ids a ≡ true)
unfolding contains
first-contains [] h = cc
first-contains (id ∷ ids) h = (id, ground (arith, eq_self id))

pub HasProvenance-write :
    (guard : Checked) (s t : GraphState)
    → HasProvenance s
    → (guard ≡ ok tt → HasProvenance t)
    → HasProvenance (write_if guard s t).0
HasProvenance-write (ok _) s t h k = k refl
HasProvenance-write (err e) s t h k = h

-- Where the assertions are the same, only more entities and sources are known.
pub HasProvenance-Kept :
    (s t : GraphState)
    → t.assertions ≡ s.assertions
    → Kept s.entities t.entities
    → Kept s.sources t.sources
    → HasProvenance s
    → HasProvenance t
HasProvenance-Kept s t e p q h = record {
  at_key = λ k a g. IsGrounded-Kept s t k a p q (h.at_key k a (ground arith));
}

-- A new assertion that is grounded, or an old one that is changed into a grounded one.
pub HasProvenance-insert :
    (s : GraphState) (id : AssertionId) (v : Assertion)
    (outgoing : BTreeMap EntityId (List AssertionId))
    → HasProvenance s
    → IsGrounded s id v
    → HasProvenance (record s { assertions = insert s.assertions id v; outgoing = outgoing })
HasProvenance-insert s id v outgoing h g = record { at_key = at }
  where
    t : GraphState
    t = record s { assertions = insert s.assertions id v; outgoing = outgoing }

    at : (k : AssertionId) (a : Assertion) → get t.assertions k ≡ some a → IsGrounded t k a
    at k a e = elim (Bool-cases (id == k)) [
      | inl same ↦
          let p : id ≡ k = (eq_iff id k).0 same in
          let q : v ≡ a = ground (arith, get-insert s.assertions id v k) in
          subst₂ (λ i b. IsGrounded t i b) p q (IsGrounded-Kept s t id v (λ _ m. m) (λ _ m. m) g)
      | inr other ↦
          IsGrounded-Kept s t k a (λ _ m. m) (λ _ m. m)
            (h.at_key k a (ground (arith, get-insert s.assertions id v k)))
    ]

pub HasProvenance-update :
    (s : GraphState) (id : AssertionId) (f : Assertion → Assertion)
    → HasProvenance s
    → ((a : Assertion) → IsGrounded s id a → IsGrounded s id (f a))
    → HasProvenance (record s { assertions = update s.assertions id f })
HasProvenance-update s id f h g = record { at_key = at }
  where
    t : GraphState
    t = record s { assertions = update s.assertions id f }

    at : (k : AssertionId) (a : Assertion) → get t.assertions k ≡ some a → IsGrounded t k a
    at k a e = elim (Option-cases (get s.assertions k)) [
      | inl missing ↦ absurd (none_updated missing)
      | inr (b, found) ↦ elim (Bool-cases (id == k)) [
        | inl same ↦
            let p : id ≡ k = (eq_iff id k).0 same in
            let q : f b ≡ a = ground (arith, get-update s.assertions id f k) in
            subst₂ (λ i c. IsGrounded t i c) p q
              (IsGrounded-Kept s t id (f b) (λ _ m. m) (λ _ m. m)
                (g b (h.at_key id b (subst (λ i. get s.assertions i ≡ some b) (sym p) found))))
        | inr other ↦
            IsGrounded-Kept s t k a (λ _ m. m) (λ _ m. m)
              (h.at_key k a (ground (arith, get-update s.assertions id f k)))
      ]
    ]
      where
        none_updated : get s.assertions k ≡ none → ⊥
        none_updated missing = ground (arith, get-update s.assertions id f k)
