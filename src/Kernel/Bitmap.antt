-- ===== src/Kernel/Bitmap.antt =====
-- crates/rg-kernel/src/lib.rs: `CandidateBitmap`, a set of atom ordinals as a sorted vector.
pub mod Laws
use hotgraph.Prelude.{
  ℕ, zero, suc, ◌+◌, ◌%◌, List, [], ◌∷◌, ◌++◌, Option, none, some, Ordering, cmp, nat_ord, lt, ◌==◌,
  if◌then◌else◌, Bool,
}
use hotgraph.Prelude.Lists.{length, is_empty as list_is_empty, sort_dedup}

-- `AtomOrdinal`, a `u32`
abbrev pub AtomOrdinal : Type 0
AtomOrdinal = ℕ

pub record CandidateBitmap : Type 0 where
  pub ordinals : List AtomOrdinal

abbrev pub empty : CandidateBitmap
empty = record { ordinals = [] }

unfoldable pub from_unsorted : List AtomOrdinal → CandidateBitmap
from_unsorted ordinals = record { ordinals = sort_dedup ordinals }

-- `(0..count)`, of which each number becomes a `u32`
unfoldable pub ordinals_from : ℕ → ℕ → List AtomOrdinal
ordinals_from start zero = []
ordinals_from start (suc n) = start % 4294967296 ∷ ordinals_from (suc start) n

unfoldable pub all : ℕ → CandidateBitmap
unfolding ordinals_from
all count = from_unsorted (ordinals_from 0 count)

unfoldable pub len : CandidateBitmap → ℕ
len b = length b.ordinals

unfoldable pub is_empty : CandidateBitmap → Bool
is_empty b = list_is_empty b.ordinals

-- The loop of `intersect`: two indices walk along the vectors, here as what is left of each; `fuel`
-- bounds the rounds.
unfoldable pub intersect_loop :
    ℕ → List AtomOrdinal → List AtomOrdinal → List AtomOrdinal → List AtomOrdinal
intersect_loop fuel [] right found = found
intersect_loop fuel left [] found = found
intersect_loop zero left right found = found
intersect_loop (suc fuel) (l ∷ left) (r ∷ right) found = elim (cmp l r) [
  | Ordering.eq ↦ intersect_loop fuel left right (found ++ l ∷ [])
  | Ordering.lt ↦ intersect_loop fuel left (r ∷ right) found
  | Ordering.gt ↦ intersect_loop fuel (l ∷ left) right found
]

-- A round shortens one vector at least.
unfoldable pub intersect : CandidateBitmap → CandidateBitmap → CandidateBitmap
intersect a b = record {
  ordinals = intersect_loop (length a.ordinals + length b.ordinals) a.ordinals b.ordinals [];
}

unfoldable pub union : CandidateBitmap → CandidateBitmap → CandidateBitmap
union a b = from_unsorted (a.ordinals ++ b.ordinals)
