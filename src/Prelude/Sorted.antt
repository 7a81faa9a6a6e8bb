-- ===== src/Prelude/Sorted.antt =====
-- Ascending and sorted lists.
use mathlib.Core.Path.{◌≡◌, refl}
use mathlib.Core.Bool.{Bool, true, false, ◌&&◌}
use mathlib.Core.List.{List, [], ◌∷◌}
use native.Mathlib.Omega.{arith}
use Prim.Native.Nat.{Ordering}
use mathlib.Core.Logic.{inl, inr}
use hotgraph.Prelude.Tests.{Bool-cases}
use hotgraph.Prelude.Order.{Ord, cmp, lt, le, ◌==◌, eq_iff}
use hotgraph.Prelude.Lists.{
  insert_by, sort_by, sort, dedup_after, dedup, sort_dedup, contains, filter,
}

module _ {ℓ} {A : Type ℓ} ⦃o : Ord A⦄ where
  -- Every item is above `x`.
  abbrev pub Above : A → List A → Type 0
  Above x [] = Unit
  Above x (y ∷ ys) = (lt x y ≡ true) × Above x ys

  abbrev pub IsAscending : List A → Type 0
  IsAscending [] = Unit
  IsAscending (x ∷ xs) = Above x xs × IsAscending xs

  -- Every item is at least `x`.
  abbrev pub AtLeast : A → List A → Type 0
  AtLeast x [] = Unit
  AtLeast x (y ∷ ys) = (le x y ≡ true) × AtLeast x ys

  abbrev pub IsSorted : List A → Type 0
  IsSorted [] = Unit
  IsSorted (x ∷ xs) = AtLeast x xs × IsSorted xs

  le_trans : (a b c : A) → le a b ≡ true → le b c ≡ true → le a c ≡ true
  le_trans a b c p q =
      ground (arith, o.eq_of_compare a b, o.eq_of_compare b c, o.compare_trans a b c)

  le_of_gt : (a b : A) → cmp a b ≡ Ordering.gt → le b a ≡ true
  le_of_gt a b h = ground (arith, o.compare_flip a b)

  AtLeast-trans : (x y : A) (ys : List A) → le x y ≡ true → AtLeast y ys → AtLeast x ys
  AtLeast-trans x y [] p h = tt
  AtLeast-trans x y (z ∷ zs) p h = (le_trans x y z p h.0, AtLeast-trans x y zs p h.1)

  AtLeast-insert_by :
      (w x : A) (ys : List A) → le w x ≡ true → AtLeast w ys → AtLeast w (insert_by cmp x ys)
  unfolding insert_by
  AtLeast-insert_by w x [] p h = (p, tt)
  AtLeast-insert_by w x (y ∷ ys) p h = ground (arith, AtLeast-insert_by w x ys p h.1)

  insert_by-IsSorted : (x : A) (ys : List A) → IsSorted ys → IsSorted (insert_by cmp x ys)
  unfolding insert_by
  insert_by-IsSorted x [] h = (tt, tt)
  insert_by-IsSorted x (y ∷ ys) h = ground (
    arith,
    insert_by-IsSorted x ys h.1,
    AtLeast-insert_by y x ys,
    le_of_gt x y,
    AtLeast-trans x y ys,
  )

  pub sort-IsSorted : (xs : List A) → IsSorted (sort xs)
  unfolding sort sort_by
  sort-IsSorted [] = tt
  sort-IsSorted (x ∷ xs) = insert_by-IsSorted x (sort_by cmp xs) (sort-IsSorted xs)

  lt_of_le_ne : (x y : A) → le x y ≡ true → y == x ≡ false → lt x y ≡ true
  lt_of_le_ne x y p q = ground (arith, o.compare_flip x y)

  lt_of_lt-le : (x y z : A) → lt x y ≡ true → le y z ≡ true → lt x z ≡ true
  lt_of_lt-le x y z p q = ground (arith, o.eq_of_compare y z, o.compare_trans x y z)

  pub lt_trans : (x y z : A) → lt x y ≡ true → lt y z ≡ true → lt x z ≡ true
  lt_trans x y z p q = ground (arith, o.compare_trans x y z)

  pub Above-trans : (x y : A) (ys : List A) → lt x y ≡ true → Above y ys → Above x ys
  Above-trans x y [] p h = tt
  Above-trans x y (z ∷ zs) p h = (lt_trans x y z p h.0, Above-trans x y zs p h.1)

  Above-dedup_after :
      (x : A) (ys : List A) → AtLeast x ys → IsSorted ys → Above x (dedup_after x ys)
  unfolding dedup_after
  Above-dedup_after x [] h s = tt
  Above-dedup_after x (y ∷ ys) h s = elim (Bool-cases (y == x)) [
    | inl same ↦ rw (same, dedup_after) (Above-dedup_after x ys h.1 s.1)
    | inr other ↦
        let up = lt_of_le_ne x y h.0 other in
        rw (other, dedup_after)
          ((up, Above-trans x y (dedup_after y ys) up (Above-dedup_after y ys s.0 s.1)))
  ]

  dedup_after-IsAscending :
      (x : A) (ys : List A) → AtLeast x ys → IsSorted ys → IsAscending (dedup_after x ys)
  unfolding dedup_after
  dedup_after-IsAscending x [] h s = tt
  dedup_after-IsAscending x (y ∷ ys) h s = elim (Bool-cases (y == x)) [
    | inl same ↦ rw (same, dedup_after) (dedup_after-IsAscending x ys h.1 s.1)
    | inr other ↦
        rw (other, dedup_after)
          ((Above-dedup_after y ys s.0 s.1, dedup_after-IsAscending y ys s.0 s.1))
  ]

  dedup-IsAscending : (xs : List A) → IsSorted xs → IsAscending (dedup xs)
  unfolding dedup
  dedup-IsAscending [] s = tt
  dedup-IsAscending (x ∷ xs) s =
      (Above-dedup_after x xs s.0 s.1, dedup_after-IsAscending x xs s.0 s.1)

  pub sort_dedup-IsAscending : (xs : List A) → IsAscending (sort_dedup xs)
  unfolding sort_dedup
  sort_dedup-IsAscending xs = dedup-IsAscending (sort xs) (sort-IsSorted xs)

  pub not-contains-Above : (x : A) (ys : List A) → Above x ys → contains ys x ≡ false
  unfolding contains
  not-contains-Above x [] h = refl
  not-contains-Above x (y ∷ ys) h = ground (arith, not-contains-Above x ys h.1, o.compare_flip x y)

  Above-filter : (p : A → Bool) (x : A) (ys : List A) → Above x ys → Above x (filter p ys)
  unfolding filter
  Above-filter p x [] h = tt
  Above-filter p x (y ∷ ys) h = ground (arith, Above-filter p x ys h.1)

  pub filter-IsAscending : (p : A → Bool) (xs : List A) → IsAscending xs → IsAscending (filter p xs)
  unfolding filter
  filter-IsAscending p [] h = tt
  filter-IsAscending p (x ∷ xs) h =
      ground (arith, filter-IsAscending p xs h.1, Above-filter p x xs h.0)

  pub contains-filter :
      (p : A → Bool) (xs : List A) (a : A) → contains (filter p xs) a ≡ (contains xs a && p a)
  unfolding contains filter
  contains-filter p [] a = refl
  contains-filter p (x ∷ xs) a = ground (arith, contains-filter p xs a, eq_iff x a)
