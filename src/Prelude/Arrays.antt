-- ===== src/Prelude/Arrays.antt =====
-- Rust's vectors by position.
use Prim.Native.Nat.{ℕ, zero, suc, ◌<◌, ◌≤◌}
use mathlib.Core.Path.{◌≡◌, refl, ap}
use mathlib.Core.Bool.{Bool}
use mathlib.Core.Option.{Option, none, some}
use mathlib.Core.List.{List, [], ◌∷◌, ◌++◌, map}
use native.Mathlib.Omega.{arith}
use hotgraph.Prelude.Tests.{if◌then◌else◌}
use hotgraph.Prelude.Order.{◌==◌, nat_ord}
use hotgraph.Prelude.Lists.{length}

module _ {ℓ} {A : Type ℓ} where
  abbrev pub get_elem? : List A → ℕ → Option A
  get_elem? [] i = none
  get_elem? (x ∷ xs) zero = some x
  get_elem? (x ∷ xs) (suc i) = get_elem? xs i

  pub get_elem?-snoc :
      (xs : List A) (x : A) (i : ℕ)
      → get_elem? (xs ++ x ∷ []) i ≡ (if i == length xs then some x else get_elem? xs i)
  get_elem?-snoc [] x zero = refl
  get_elem?-snoc [] x (suc i) = ground arith
  get_elem?-snoc (y ∷ xs) x zero = ground arith
  get_elem?-snoc (y ∷ xs) x (suc i) = ground (arith, get_elem?-snoc xs x i)

  pub get_elem?-none : (xs : List A) (i : ℕ) → length xs ≤ i → get_elem? xs i ≡ none
  get_elem?-none [] i h = refl
  get_elem?-none (x ∷ xs) zero h = absurd (omega arith)
  get_elem?-none (x ∷ xs) (suc i) h = get_elem?-none xs i (omega arith)

  pub get_elem?-some : (xs : List A) (i : ℕ) → i < length xs → (x : A) × (get_elem? xs i ≡ some x)
  get_elem?-some [] i h = absurd (omega arith)
  get_elem?-some (x ∷ xs) zero h = (x, refl)
  get_elem?-some (x ∷ xs) (suc i) h = get_elem?-some xs i (omega arith)

  -- `iter().position(p)`, counted from `n`
  unfoldable pub position_from : ℕ → (A → Bool) → List A → Option ℕ
  position_from n p [] = none
  position_from n p (x ∷ xs) = if p x then some n else position_from (suc n) p xs

module _ {ℓ κ} {A : Type ℓ} {B : Type κ} (f : A → B) where
  pub length-map : (xs : List A) → length (map f xs) ≡ length xs
  length-map [] = refl
  length-map (x ∷ xs) = ap suc (length-map xs)

  pub map-snoc : (xs : List A) (x : A) → map f xs ++ f x ∷ [] ≡ map f (xs ++ x ∷ [])
  map-snoc [] x = refl
  map-snoc (y ∷ xs) x = ap (◌∷◌ (f y)) (map-snoc xs x)

  pub get_elem?-map :
      (xs : List A) (i : ℕ)
      → get_elem? (map f xs) i ≡ elim (get_elem? xs i) [ none ↦ none | some x ↦ some (f x) ]
  get_elem?-map [] i = refl
  get_elem?-map (x ∷ xs) zero = refl
  get_elem?-map (x ∷ xs) (suc i) = get_elem?-map xs i
