-- ===== src/Prelude/Int.antt =====
-- Rust's machine numbers: `i64` as the integer it stands for, `u64` counters as numbers, and
-- `f32` and `f64` as their IEEE 754 bit patterns.
use Prim.Native.Nat.{ℕ, zero, suc, ◌+◌, ◌%◌, compare, Ordering}
use mathlib.Core.Path.{◌≡◌, refl}
use mathlib.Core.Bool.{Bool, true, not, ◌&&◌, ◌||◌}
use native.Mathlib.Omega.{arith}
use hotgraph.Prelude.Tests.{ltb, leb, if◌then◌else◌}
use hotgraph.Prelude.Order.{Ord, flip, lt, ◌==◌, nat_ord}

-- `negsuc n` is -(n + 1).
pub data ℤ : Type 0 where
  pos : ℕ → ℤ
  negsuc : ℕ → ℤ

abbrev pub compare_ℤ : ℤ → ℤ → Ordering
compare_ℤ (pos a) (pos b) = compare a b
compare_ℤ (pos a) (negsuc b) = Ordering.gt
compare_ℤ (negsuc a) (pos b) = Ordering.lt
compare_ℤ (negsuc a) (negsuc b) = compare b a

pub ℤ-eq_of_compare : (a b : ℤ) → compare_ℤ a b ≡ Ordering.eq → a ≡ b
ℤ-eq_of_compare a b h = ground arith

pub ℤ-compare_self : (a : ℤ) → compare_ℤ a a ≡ Ordering.eq
ℤ-compare_self a = ground arith

pub ℤ-compare_flip : (a b : ℤ) → compare_ℤ b a ≡ flip (compare_ℤ a b)
ℤ-compare_flip a b = ground arith

pub ℤ-compare_trans :
    (a b c : ℤ)
    → compare_ℤ a b ≡ Ordering.lt
    → compare_ℤ b c ≡ Ordering.lt
    → compare_ℤ a c ≡ Ordering.lt
ℤ-compare_trans a b c p q = ground arith

instance abbrev pub ℤ_ord : Ord ℤ
ℤ_ord = record {
  compare_by = compare_ℤ;
  eq_of_compare = ℤ-eq_of_compare;
  compare_self = ℤ-compare_self;
  compare_flip = ℤ-compare_flip;
  compare_trans = ℤ-compare_trans;
}

abbrev pub i64_max : ℕ
i64_max = 9223372036854775807

-- `value + 1` on an `i64`, wrapping as the release profile does.
unfoldable pub i64_next : ℤ → ℤ
i64_next (pos n) = if n == i64_max then negsuc i64_max else pos (suc n)
i64_next (negsuc zero) = pos 0
i64_next (negsuc (suc n)) = negsuc n

-- Below the largest `i64` the next value is greater.
pub lt-i64_next : (t : ℤ) → lt t (pos i64_max) ≡ true → lt t (i64_next t) ≡ true
unfolding i64_next
lt-i64_next (pos n) h = ground arith
lt-i64_next (negsuc zero) h = refl
lt-i64_next (negsuc (suc n)) h = ground arith

-- `value + 1` on a `u64`.
unfoldable pub u64_next : ℕ → ℕ
u64_next n = (n + 1) % 18446744073709551616

-- `(0.0..=1.0).contains(&x)` on the bits of an `f32`: the pattern of 1.0 is 0x3f800000, those of
-- the positive numbers rise with them, and 0x80000000 is -0.0.
unfoldable pub unit_contains : ℕ → Bool
unit_contains bits = leb bits 0x3f800000 || bits == 0x80000000

-- `==` on the bits of two `f64`s: no NaN equals anything, and the two zeros are equal.
f64_is_nan : ℕ → Bool
f64_is_nan bits = ltb 0x7ff0000000000000 (bits % 0x8000000000000000)

f64_is_zero : ℕ → Bool
f64_is_zero bits = bits % 0x8000000000000000 == 0

unfoldable pub f64_eq : ℕ → ℕ → Bool
unfolding f64_is_nan f64_is_zero
f64_eq a b = not (f64_is_nan a) && not (f64_is_nan b) && (a == b || f64_is_zero a && f64_is_zero b)
