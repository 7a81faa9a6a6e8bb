-- ===== src/Prelude/Order.antt =====
-- Rust's `Ord`: a total order by a comparison function, with the instances for numbers and texts.
use Prim.Native.Nat.{ℕ, compare as compare_ℕ, Ordering}
use Prim.Native.String.compare.{cons-nil, nil-cons, cons-cons}
use Prim.Native.String.{String, [], ◌∷◌, compare}
use mathlib.Core.Path.{◌≡◌, refl}
use mathlib.Core.Logic.{◌↔◌}
use mathlib.Core.Bool.{Bool, true, false}
use native.Mathlib.Omega.{arith}
use text.Mathlib.TextEquality.{path_by_compare}
use text.Mathlib.TextPositions.{compare_refl}

abbrev pub flip : Ordering → Ordering
flip Ordering.lt = Ordering.gt
flip Ordering.eq = Ordering.eq
flip Ordering.gt = Ordering.lt

pub record Ord {ℓ} (A : Type ℓ) : Type ℓ where
  pub compare_by : A → A → Ordering
  pub eq_of_compare : (a b : A) → compare_by a b ≡ Ordering.eq → a ≡ b
  pub compare_self : (a : A) → compare_by a a ≡ Ordering.eq
  pub compare_flip : (a b : A) → compare_by b a ≡ flip (compare_by a b)
  pub compare_trans :
      (a b c : A)
      → compare_by a b ≡ Ordering.lt
      → compare_by b c ≡ Ordering.lt
      → compare_by a c ≡ Ordering.lt

module _ {ℓ} {A : Type ℓ} ⦃o : Ord A⦄ where
  abbrev pub cmp : A → A → Ordering
  cmp a b = o.compare_by a b

  abbrev pub lt : A → A → Bool
  lt a b = elim (cmp a b) [ Ordering.lt ↦ true | _ ↦ false ]

  abbrev pub le : A → A → Bool
  le a b = elim (cmp a b) [ Ordering.gt ↦ false | _ ↦ true ]

  infix 50 ◌==◌
  abbrev pub ◌==◌ : A → A → Bool
  a == b = elim (cmp a b) [ Ordering.eq ↦ true | _ ↦ false ]

  pub eq_iff : (a b : A) → (a == b ≡ true) ↔ (a ≡ b)
  eq_iff a b = (λ h. o.eq_of_compare a b (ground arith), λ e. ground (arith, o.compare_self a))

  pub eq_self : (a : A) → a == a ≡ true
  eq_self a = ground (arith, o.compare_self a)

pub nat-eq_of_compare : (a b : ℕ) → compare_ℕ a b ≡ Ordering.eq → a ≡ b
nat-eq_of_compare a b h = ground arith

pub nat-compare_self : (a : ℕ) → compare_ℕ a a ≡ Ordering.eq
nat-compare_self a = ground arith

pub nat-compare_flip : (a b : ℕ) → compare_ℕ b a ≡ flip (compare_ℕ a b)
nat-compare_flip a b = ground arith

pub nat-compare_trans :
    (a b c : ℕ)
    → compare_ℕ a b ≡ Ordering.lt
    → compare_ℕ b c ≡ Ordering.lt
    → compare_ℕ a c ≡ Ordering.lt
nat-compare_trans a b c p q = ground arith

instance abbrev pub nat_ord : Ord ℕ
nat_ord = record {
  compare_by = compare_ℕ;
  eq_of_compare = nat-eq_of_compare;
  compare_self = nat-compare_self;
  compare_flip = nat-compare_flip;
  compare_trans = nat-compare_trans;
}

pub string-compare-flip : (s t : String) → compare t s ≡ flip (compare s t)
string-compare-flip [] [] = refl
string-compare-flip [] (d ∷ t) = rw (cons-nil, nil-cons)
string-compare-flip (c ∷ s) [] = rw (cons-nil, nil-cons)
string-compare-flip (c ∷ s) (d ∷ t) =
    ground (arith, string-compare-flip s t, cons-cons c d s t, cons-cons d c t s)

pub string-compare_trans :
    (s t u : String)
    → compare s t ≡ Ordering.lt
    → compare t u ≡ Ordering.lt
    → compare s u ≡ Ordering.lt
string-compare_trans [] [] u p q = q
string-compare_trans [] (d ∷ t) [] p q = ground (arith, cons-nil d t)
string-compare_trans [] (d ∷ t) (e ∷ u) p q = nil-cons e u
string-compare_trans (c ∷ s) [] u p q = ground (arith, cons-nil c s)
string-compare_trans (c ∷ s) (d ∷ t) [] p q = ground (arith, cons-nil d t)
string-compare_trans (c ∷ s) (d ∷ t) (e ∷ u) p q = ground (
  arith,
  string-compare_trans s t u,
  cons-cons c d s t,
  cons-cons d e t u,
  cons-cons c e s u,
  path_by_compare s t,
)

instance abbrev pub string_ord : Ord String
string_ord = record {
  compare_by = compare;
  eq_of_compare = path_by_compare;
  compare_self = compare_refl;
  compare_flip = string-compare-flip;
  compare_trans = string-compare_trans;
}
