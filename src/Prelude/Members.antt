-- ===== src/Prelude/Members.antt =====
-- Membership in appended, filtered and sorted lists, with the place of the member.
use Prim.Native.Nat.{Ordering}
use mathlib.Core.Logic.{◌⊎◌, inl, inr, ◌↔◌}
use mathlib.Core.List.{List, [], ◌∷◌, ◌++◌, map, Memᴰ}
use mathlib.Core.Bool.{Bool, true}
use mathlib.Core.Path.{◌≡◌, refl, ◌∙◌, ap, sym, subst}
use native.Mathlib.Omega.{arith}
use hotgraph.Prelude.Tests.{Bool-cases, if◌then◌else◌}
use hotgraph.Prelude.Order.{Ord, ◌==◌, eq_iff}
use hotgraph.Prelude.Lists.{filter, any, contains, insert_by, sort_by}

module _ {ℓ} {A : Type ℓ} where
  pub Memᴰ-left : (xs ys : List A) {a : A} → Memᴰ a xs → Memᴰ a (xs ++ ys)
  Memᴰ-left [] ys m = elim m [ ]
  Memᴰ-left (x ∷ xs) ys (Memᴰ.head e) = Memᴰ.head e
  Memᴰ-left (x ∷ xs) ys (Memᴰ.tail m) = Memᴰ.tail (Memᴰ-left xs ys m)

  pub Memᴰ-right : (xs ys : List A) {a : A} → Memᴰ a ys → Memᴰ a (xs ++ ys)
  Memᴰ-right [] ys m = m
  Memᴰ-right (x ∷ xs) ys m = Memᴰ.tail (Memᴰ-right xs ys m)

  pub Memᴰ-append_cases : (xs ys : List A) {a : A} → Memᴰ a (xs ++ ys) → Memᴰ a xs ⊎ Memᴰ a ys
  Memᴰ-append_cases [] ys m = inr m
  Memᴰ-append_cases (x ∷ xs) ys (Memᴰ.head e) = inl (Memᴰ.head e)
  Memᴰ-append_cases (x ∷ xs) ys (Memᴰ.tail m) = elim (Memᴰ-append_cases xs ys m) [
    | inl l ↦ inl (Memᴰ.tail l)
    | inr r ↦ inr r
  ]

  module _ (c : A → A → Ordering) where
    -- where an item goes: in front, or behind the first
    abbrev place : Ordering → A → A → List A → List A → List A
    place o x y ys later = elim o [ Ordering.gt ↦ y ∷ later | _ ↦ x ∷ y ∷ ys ]

    Memᴰ-place :
        (o : Ordering) (x y a : A) (ys later : List A)
        → (Memᴰ a later ↔ Memᴰ a (x ∷ ys))
        → Memᴰ a (place o x y ys later) ↔ Memᴰ a (x ∷ y ∷ ys)
    Memᴰ-place Ordering.lt x y a ys later h = (λ m. m, λ m. m)
    Memᴰ-place Ordering.eq x y a ys later h = (λ m. m, λ m. m)
    Memᴰ-place Ordering.gt x y a ys later h = (to, from)
      where
        past : Memᴰ a (x ∷ ys) → Memᴰ a (x ∷ y ∷ ys)
        past (Memᴰ.head e) = Memᴰ.head e
        past (Memᴰ.tail m) = Memᴰ.tail (Memᴰ.tail m)

        to : Memᴰ a (y ∷ later) → Memᴰ a (x ∷ y ∷ ys)
        to (Memᴰ.head e) = Memᴰ.tail (Memᴰ.head e)
        to (Memᴰ.tail m) = past (h.0 m)

        from : Memᴰ a (x ∷ y ∷ ys) → Memᴰ a (y ∷ later)
        from (Memᴰ.head e) = Memᴰ.tail (h.1 (Memᴰ.head e))
        from (Memᴰ.tail (Memᴰ.head e)) = Memᴰ.head e
        from (Memᴰ.tail (Memᴰ.tail m)) = Memᴰ.tail (h.1 (Memᴰ.tail m))

    Memᴰ-insert_by : (x : A) (ys : List A) (a : A) → Memᴰ a (insert_by c x ys) ↔ Memᴰ a (x ∷ ys)
    unfolding insert_by
    Memᴰ-insert_by x [] a = (λ m. m, λ m. m)
    Memᴰ-insert_by x (y ∷ ys) a =
        Memᴰ-place (c x y) x y a ys (insert_by c x ys) (Memᴰ-insert_by x ys a)

    Memᴰ-cons :
        (x a : A) (xs ys : List A) → (Memᴰ a xs → Memᴰ a ys) → Memᴰ a (x ∷ xs) → Memᴰ a (x ∷ ys)
    Memᴰ-cons x a xs ys h (Memᴰ.head e) = Memᴰ.head e
    Memᴰ-cons x a xs ys h (Memᴰ.tail m) = Memᴰ.tail (h m)

    -- Sorting keeps the members.
    pub Memᴰ-sort_by : (xs : List A) (a : A) → Memᴰ a (sort_by c xs) ↔ Memᴰ a xs
    unfolding sort_by
    Memᴰ-sort_by [] a = (λ m. m, λ m. m)
    Memᴰ-sort_by (x ∷ xs) a =
        let ih = Memᴰ-sort_by xs a in
        let ins = Memᴰ-insert_by x (sort_by c xs) a in
        (
          λ m. Memᴰ-cons x a (sort_by c xs) xs ih.0 (ins.0 m),
          λ m. ins.1 (Memᴰ-cons x a xs (sort_by c xs) ih.1 m),
        )

module _ {ℓ} {A : Type ℓ} where
  -- What `filter` makes of an item and the rest.
  abbrev keep_if : Bool → A → List A → List A
  keep_if b x xs = if b then x ∷ xs else xs

  pub Memᴰ-filter :
      (p : A → Bool) (cs : List A) (x : A) → Memᴰ x (filter p cs) → Memᴰ x cs × (p x ≡ true)
  unfolding filter
  Memᴰ-filter p [] x m = elim m [ ]
  Memᴰ-filter p (c ∷ cs) x m = elim (Bool-cases (p c)) [
    | inl kept ↦ elim (subst (λ b. Memᴰ x (keep_if b c (filter p cs))) kept m) [
      | Memᴰ.head e ↦ (Memᴰ.head e, ap p e ∙ kept)
      | Memᴰ.tail t ↦ let (i, h) = Memᴰ-filter p cs x t in (Memᴰ.tail i, h)
    ]
    | inr dropped ↦
        let (i, h) =
          Memᴰ-filter p cs x (subst (λ b. Memᴰ x (keep_if b c (filter p cs))) dropped m) in
        (Memᴰ.tail i, h)
  ]

  pub filter-Memᴰ :
      (p : A → Bool) (cs : List A) (x : A) → Memᴰ x cs → p x ≡ true → Memᴰ x (filter p cs)
  unfolding filter
  filter-Memᴰ p [] x m h = elim m [ ]
  filter-Memᴰ p (c ∷ cs) x (Memᴰ.head e) h =
      subst (λ b. Memᴰ x (keep_if b c (filter p cs))) (sym (ap p (sym e) ∙ h)) (Memᴰ.head e)
  filter-Memᴰ p (c ∷ cs) x (Memᴰ.tail m) h = elim (Bool-cases (p c)) [
    | inl kept ↦
        subst (λ b. Memᴰ x (keep_if b c (filter p cs))) (sym kept)
          (Memᴰ.tail (filter-Memᴰ p cs x m h))
    | inr dropped ↦
        subst (λ b. Memᴰ x (keep_if b c (filter p cs))) (sym dropped) (filter-Memᴰ p cs x m h)
  ]

module _ {ℓ κ} {A : Type ℓ} {B : Type κ} (f : A → B) where
  pub Memᴰ-map : (xs : List A) (y : B) → Memᴰ y (map f xs) → (x : A) × Memᴰ x xs × (y ≡ f x)
  Memᴰ-map [] y m = elim m [ ]
  Memᴰ-map (x ∷ xs) y (Memᴰ.head e) = (x, Memᴰ.head refl, e)
  Memᴰ-map (x ∷ xs) y (Memᴰ.tail m) = let (z, i, e) = Memᴰ-map xs y m in (z, Memᴰ.tail i, e)

  pub map-Memᴰ : (xs : List A) (x : A) → Memᴰ x xs → Memᴰ (f x) (map f xs)
  map-Memᴰ [] x m = elim m [ ]
  map-Memᴰ (z ∷ xs) x (Memᴰ.head e) = Memᴰ.head (ap f e)
  map-Memᴰ (z ∷ xs) x (Memᴰ.tail m) = Memᴰ.tail (map-Memᴰ xs x m)

module _ {ℓ} {A : Type ℓ} (p : A → Bool) where
  pub any-witness : (xs : List A) → any p xs ≡ true → (x : A) × Memᴰ x xs × (p x ≡ true)
  unfolding any
  any-witness [] h = ground (arith, h)
  any-witness (x ∷ xs) h = elim (Bool-cases (p x)) [
    | inl passes ↦ (x, Memᴰ.head refl, passes)
    | inr other ↦ let (y, m, q) = any-witness xs (ground (arith, h, other)) in (y, Memᴰ.tail m, q)
  ]

  pub witness-any : (xs : List A) (x : A) → Memᴰ x xs → p x ≡ true → any p xs ≡ true
  unfolding any
  witness-any [] x m h = elim m [ ]
  witness-any (y ∷ xs) x (Memᴰ.head e) h = ground (arith, sym (ap p e) ∙ h)
  witness-any (y ∷ xs) x (Memᴰ.tail m) h = ground (arith, witness-any xs x m h)

module _ {ℓ} {A : Type ℓ} ⦃o : Ord A⦄ where
  pub contains-Memᴰ : (xs : List A) (x : A) → contains xs x ≡ true → Memᴰ x xs
  unfolding contains
  contains-Memᴰ [] x h = cc
  contains-Memᴰ (y ∷ xs) x h = elim (Bool-cases (y == x)) [
    | inl same ↦ Memᴰ.head (sym ((eq_iff y x).0 same))
    | inr other ↦ Memᴰ.tail (contains-Memᴰ xs x (ground (arith, h, other)))
  ]

  pub Memᴰ-contains : (xs : List A) (x : A) → Memᴰ x xs → contains xs x ≡ true
  unfolding contains
  Memᴰ-contains [] x m = elim m [ ]
  Memᴰ-contains (y ∷ xs) x (Memᴰ.head e) = ground (arith, eq_iff y x)
  Memᴰ-contains (y ∷ xs) x (Memᴰ.tail m) = ground (arith, Memᴰ-contains xs x m)
