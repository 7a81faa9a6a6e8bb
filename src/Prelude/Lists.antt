-- ===== src/Prelude/Lists.antt =====
-- Rust's vectors as lists: `contains`, the stable sort, and `dedup`.
use Prim.Native.Nat.{ℕ, suc, ◌+◌, Ordering}
use mathlib.Core.Path.{◌≡◌, refl, ◌∙◌}
use mathlib.Core.Bool.{Bool, true, false, ◌&&◌, ◌||◌}
use mathlib.Core.List.{List, [], ◌∷◌, ◌++◌}
use native.Mathlib.Omega.{arith}
use hotgraph.Prelude.Tests.{if◌then◌else◌}
use hotgraph.Prelude.Order.{Ord, cmp, ◌==◌, eq_iff}

module _ {ℓ} {A : Type ℓ} where
  abbrev pub length : List A → ℕ
  length [] = 0
  length (x ∷ xs) = suc (length xs)

  abbrev pub is_empty : List A → Bool
  is_empty [] = true
  is_empty (x ∷ xs) = false

  pub length-append : (xs ys : List A) → length (xs ++ ys) ≡ length xs + length ys
  length-append [] ys = omega arith
  length-append (x ∷ xs) ys = omega (arith, length-append xs ys)

  -- Every item passes the test, and some item does.
  unfoldable pub all : (A → Bool) → List A → Bool
  all p [] = true
  all p (x ∷ xs) = p x && all p xs

  unfoldable pub any : (A → Bool) → List A → Bool
  any p [] = false
  any p (x ∷ xs) = p x || any p xs

  unfoldable pub filter : (A → Bool) → List A → List A
  filter p [] = []
  filter p (x ∷ xs) = let rest = filter p xs in if p x then x ∷ rest else rest

  pub filter-append :
      (p : A → Bool) (xs ys : List A) → filter p (xs ++ ys) ≡ filter p xs ++ filter p ys
  unfolding filter
  filter-append p [] ys = refl
  filter-append p (x ∷ xs) ys = ground (arith, filter-append p xs ys)

  pub filter-cons :
      (p : A → Bool) (x : A) (xs : List A) → p x ≡ true → filter p (x ∷ xs) ≡ x ∷ filter p xs
  unfolding filter
  filter-cons p x xs h = ground arith

  abbrev pub All {κ} : (A → Type κ) → List A → Type κ
  All P [] = Unit
  All P (x ∷ xs) = P x × All P xs

  -- `sort_by`: an item goes before the first that it does not exceed, so equal items keep their order.
  unfoldable pub insert_by : (A → A → Ordering) → A → List A → List A
  insert_by c x [] = x ∷ []
  insert_by c x (y ∷ ys) =
      let later = insert_by c x ys in elim (c x y) [ Ordering.gt ↦ y ∷ later | _ ↦ x ∷ y ∷ ys ]

  unfoldable pub sort_by : (A → A → Ordering) → List A → List A
  sort_by c [] = []
  sort_by c (x ∷ xs) = insert_by c x (sort_by c xs)

  length-insert_by :
      (c : A → A → Ordering) (x : A) (xs : List A) → length (insert_by c x xs) ≡ suc (length xs)
  unfolding insert_by
  length-insert_by c x [] = refl
  length-insert_by c x (y ∷ xs) = ground (arith, length-insert_by c x xs)

  pub length-sort_by : (c : A → A → Ordering) (xs : List A) → length (sort_by c xs) ≡ length xs
  unfolding sort_by
  length-sort_by c [] = refl
  length-sort_by c (x ∷ xs) =
      omega (arith, length-insert_by c x (sort_by c xs), length-sort_by c xs)

module _ {ℓ} {A : Type ℓ} ⦃o : Ord A⦄ where
  unfoldable pub contains : List A → A → Bool
  contains [] a = false
  contains (x ∷ xs) a = x == a || contains xs a

  unfoldable pub sort : List A → List A
  sort = sort_by cmp

  -- `dedup`: of a run of equal items the first stays.
  unfoldable pub dedup_after : A → List A → List A
  dedup_after x [] = []
  dedup_after x (y ∷ ys) = elim (y == x) [ true ↦ dedup_after x ys | false ↦ y ∷ dedup_after y ys ]

  unfoldable pub dedup : List A → List A
  unfolding dedup_after
  dedup [] = []
  dedup (x ∷ xs) = x ∷ dedup_after x xs

  -- `v.sort(); v.dedup()`
  unfoldable pub sort_dedup : List A → List A
  sort_dedup xs = dedup (sort xs)

  pub contains-append :
      (xs ys : List A) (a : A) → contains (xs ++ ys) a ≡ (contains xs a || contains ys a)
  unfolding contains
  contains-append [] ys a = refl
  contains-append (x ∷ xs) ys a = ground (arith, contains-append xs ys a)

  contains-insert_by :
      (x : A) (ys : List A) (a : A) → contains (insert_by cmp x ys) a ≡ (x == a || contains ys a)
  unfolding contains insert_by
  contains-insert_by x [] a = ground arith
  contains-insert_by x (y ∷ ys) a = ground (arith, contains-insert_by x ys a)

  pub contains-sort : (xs : List A) (a : A) → contains (sort xs) a ≡ contains xs a
  unfolding contains sort sort_by
  contains-sort [] a = refl
  contains-sort (x ∷ xs) a =
      ground (arith, contains-insert_by x (sort_by cmp xs) a, contains-sort xs a)

  contains-dedup_after :
      (x : A) (ys : List A) (a : A)
      → (x == a || contains (dedup_after x ys) a) ≡ (x == a || contains ys a)
  unfolding contains dedup_after
  contains-dedup_after x [] a = refl
  contains-dedup_after x (y ∷ ys) a =
      ground (arith, contains-dedup_after x ys a, contains-dedup_after y ys a, eq_iff y x)

  contains-dedup : (ys : List A) (a : A) → contains (dedup ys) a ≡ contains ys a
  unfolding contains dedup
  contains-dedup [] a = refl
  contains-dedup (y ∷ ys) a = contains-dedup_after y ys a

  -- Sorting and dropping repeats keeps the members.
  pub contains-sort_dedup : (xs : List A) (a : A) → contains (sort_dedup xs) a ≡ contains xs a
  unfolding sort_dedup
  contains-sort_dedup xs a = contains-dedup (sort xs) a ∙ contains-sort xs a

  is_empty-insert_by : (x : A) (ys : List A) → is_empty (insert_by cmp x ys) ≡ false
  unfolding insert_by
  is_empty-insert_by x [] = refl
  is_empty-insert_by x (y ∷ ys) = ground arith

  is_empty-dedup : (xs : List A) → is_empty (dedup xs) ≡ is_empty xs
  unfolding dedup
  is_empty-dedup [] = refl
  is_empty-dedup (x ∷ xs) = refl

  pub is_empty-sort_dedup : (xs : List A) → is_empty (sort_dedup xs) ≡ is_empty xs
  unfolding sort_dedup sort sort_by
  is_empty-sort_dedup [] = is_empty-dedup []
  is_empty-sort_dedup (x ∷ xs) =
      is_empty-dedup (sort (x ∷ xs)) ∙ is_empty-insert_by x (sort_by cmp xs)
