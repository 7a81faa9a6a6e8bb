-- ===== src/Kernel/Bitmap/Laws.antt =====
-- crates/rg-kernel/src/lib.rs: bitmaps as sets of ordinals.
use mathlib.Core.List.{append-nil, append_assoc}
use hotgraph.Prelude.{
  ℕ, zero, suc, ◌+◌, ◌≤◌, ◌≡◌, refl, sym, ◌∙◌, ap, List, [], ◌∷◌, ◌++◌, ◌&&◌, ◌||◌, Ordering, cmp,
  nat_ord, arith, inl, inr, Ordering-cases,
}
use hotgraph.Prelude.Lists.{length, contains, contains-append, filter, contains-sort_dedup}
use hotgraph.Prelude.Sorted.{
  Above, IsAscending, Above-trans, not-contains-Above, filter-IsAscending, contains-filter,
  sort_dedup-IsAscending,
}
use hotgraph.Kernel.Bitmap.{
  AtomOrdinal, CandidateBitmap, from_unsorted, intersect_loop, intersect, union,
}

filter_none : (xs : List AtomOrdinal) → filter (contains []) xs ≡ []
unfolding filter contains
filter_none [] = refl
filter_none (x ∷ xs) = filter_none xs

-- An ordinal below those of `xs` makes no difference to what is kept of them.
filter-Above :
    (r : AtomOrdinal) (rs xs : List AtomOrdinal)
    → Above r xs
    → filter (contains (r ∷ rs)) xs ≡ filter (contains rs) xs
unfolding filter contains
filter-Above r rs [] h = refl
filter-Above r rs (x ∷ xs) h = ground (arith, filter-Above r rs xs h.1)

filter-eq :
    (l r : AtomOrdinal) (left right : List AtomOrdinal)
    → cmp l r ≡ Ordering.eq
    → Above l left
    → filter (contains (r ∷ right)) (l ∷ left) ≡ l ∷ filter (contains right) left
unfolding filter contains
filter-eq l r left right e h =
    ground (arith, filter-Above l right left h, nat_ord.eq_of_compare l r e)

filter-lt :
    (l r : AtomOrdinal) (left right : List AtomOrdinal)
    → cmp l r ≡ Ordering.lt
    → Above r right
    → filter (contains (r ∷ right)) (l ∷ left) ≡ filter (contains (r ∷ right)) left
unfolding filter
filter-lt l r left right e h =
    ground (
      arith,
      not-contains-Above l (r ∷ right) (ground arith, Above-trans l r right (ground arith) h),
    )

filter-gt :
    (l r : AtomOrdinal) (left right : List AtomOrdinal)
    → cmp l r ≡ Ordering.gt
    → Above l left
    → filter (contains (r ∷ right)) (l ∷ left) ≡ filter (contains right) (l ∷ left)
filter-gt l r left right e h =
    filter-Above r right (l ∷ left) (ground arith, Above-trans r l left (ground arith) h)

intersect_loop-filter :
    (fuel : ℕ) (left right found : List AtomOrdinal)
    → length left + length right ≤ fuel
    → IsAscending left
    → IsAscending right
    → intersect_loop fuel left right found ≡ found ++ filter (contains right) left
unfolding intersect_loop filter
intersect_loop-filter fuel [] right found n p q = sym (append-nil found)
intersect_loop-filter fuel (l ∷ left) [] found n p q =
    sym (ap (◌++◌ found) (filter_none (l ∷ left)) ∙ append-nil found)
intersect_loop-filter zero (l ∷ left) (r ∷ right) found n p q = absurd (omega arith)
intersect_loop-filter (suc fuel) (l ∷ left) (r ∷ right) found n p q =
    elim (Ordering-cases (cmp l r)) [
      | inl e ↦
          rw (e, intersect_loop)
            (intersect_loop-filter fuel left (r ∷ right) found (omega arith) p.1 q
              ∙ ap (◌++◌ found) (sym (filter-lt l r left right e q.0)))
      | inr (inl e) ↦
          rw (e, intersect_loop)
            (intersect_loop-filter fuel left right (found ++ l ∷ []) (omega arith) p.1 q.1
              ∙ append_assoc found (l ∷ []) _
              ∙ ap (◌++◌ found) (sym (filter-eq l r left right e p.0)))
      | inr (inr e) ↦
          rw (e, intersect_loop)
            (intersect_loop-filter fuel (l ∷ left) right found (omega arith) p q.1
              ∙ ap (◌++◌ found) (sym (filter-gt l r left right e p.0)))
    ]

-- A bitmap holds its ordinals in ascending order, each once.
abbrev pub IsOrdinalSet : CandidateBitmap → Type 0
IsOrdinalSet b = IsAscending b.ordinals

-- `intersect` on ascending vectors is the filter of one by the other: the walk of the two indices
-- ends, misses nothing, and keeps the order.
pub intersect_lem :
    (a b : CandidateBitmap)
    → IsOrdinalSet a
    → IsOrdinalSet b
    → (intersect a b).ordinals ≡ filter (contains b.ordinals) a.ordinals
unfolding intersect
intersect_lem a b p q =
    intersect_loop-filter (length a.ordinals + length b.ordinals) a.ordinals b.ordinals []
      (omega arith) p q

-- The intersection and the union of two bitmaps are again ascending, and hold exactly the ordinals
-- that both hold, and that either holds.
pub set_operations :
    (a b : CandidateBitmap)
    → IsOrdinalSet a
    → IsOrdinalSet b
    → IsOrdinalSet (intersect a b)
      × IsOrdinalSet (union a b)
      × ((x : AtomOrdinal)
          → (contains (intersect a b).ordinals x ≡ (contains a.ordinals x && contains b.ordinals x))
            × (contains (union a b).ordinals x ≡ (contains a.ordinals x || contains b.ordinals x)))
unfolding union from_unsorted
set_operations a b p q = (
  rw (intersect_lem a b p q) (filter-IsAscending (contains b.ordinals) a.ordinals p),
  sort_dedup-IsAscending (a.ordinals ++ b.ordinals),
  λ x. (
    rw (intersect_lem a b p q) (contains-filter (contains b.ordinals) a.ordinals x),
    contains-sort_dedup (a.ordinals ++ b.ordinals) x ∙ contains-append a.ordinals b.ordinals x,
  ),
)
