-- ===== src/Core/Interval/Laws.antt =====
-- crates/rg-core/src/lib.rs: `TimeInterval` and the instants of an interval.
use hotgraph.Prelude.{
  Ord, Ordering, cmp, lt, le, true, Option, none, some, ◌≡◌, ◌↔◌, refl, arith, ok, err,
}
use hotgraph.Core.Interval.{TimeInterval, end_before_start, new, contains, overlaps, before_end}

module _ {ℓ} {T : Type ℓ} ⦃o : Ord T⦄ where
  -- An interval with room for its own start, which `new` does not ask for.
  abbrev pub IsNonempty : TimeInterval T → Type 0
  IsNonempty i = before_end i.start i.end ≡ true

  -- The later of two starts.
  pub latest : T → T → T
  latest a b = elim (cmp a b) [ Ordering.lt ↦ b | _ ↦ a ]

  latest_bounds : (a b : T) → (le a (latest a b) ≡ true) × (le b (latest a b) ≡ true)
  unfolding latest
  latest_bounds a b =
      ground (arith, o.compare_flip a b, o.compare_self a, o.compare_self b, o.eq_of_compare a b)

  latest-before_end :
      (a b : T) (e : Option T)
      → before_end a e ≡ true
      → before_end b e ≡ true
      → before_end (latest a b) e ≡ true
  unfolding latest
  latest-before_end a b e p q = ground arith

  -- The start of the overlap lies in both intervals.
  overlap_start :
      (i j : TimeInterval T)
      → IsNonempty i
      → IsNonempty j
      → overlaps i j ≡ true
      → (contains i (latest i.start j.start) ≡ true) × (contains j (latest i.start j.start) ≡ true)
  unfolding overlaps contains
  overlap_start i j p q h = ground (
    arith,
    latest_bounds i.start j.start,
    latest-before_end i.start j.start i.end,
    latest-before_end i.start j.start j.end,
  )

  lt_of_le-lt : (a b c : T) → le a b ≡ true → lt b c ≡ true → lt a c ≡ true
  lt_of_le-lt a b c p q = ground (arith, o.eq_of_compare a b, o.compare_trans a b c)

  shared-before_end :
      (a t : T) (e : Option T) → le a t ≡ true → before_end t e ≡ true → before_end a e ≡ true
  shared-before_end a t none p q = refl
  shared-before_end a t (some e) p q = lt_of_le-lt a t e p q

  -- Intervals that share an instant overlap.
  pub shares_instant-overlaps :
      (i j : TimeInterval T) (t : T)
      → contains i t ≡ true
      → contains j t ≡ true
      → overlaps i j ≡ true
  unfolding overlaps contains
  shares_instant-overlaps i j t p q =
      ground (arith, shared-before_end i.start t j.end, shared-before_end j.start t i.end)

  -- Two nonempty intervals overlap exactly when some instant lies in both.
  pub overlaps_iff :
      (i j : TimeInterval T)
      → IsNonempty i
      → IsNonempty j
      → (overlaps i j ≡ true) ↔ ((t : T) × (contains i t ≡ true) × (contains j t ≡ true))
  overlaps_iff i j p q = (
    λ h. (latest i.start j.start, (overlap_start i j p q h).0, (overlap_start i j p q h).1),
    λ h. shares_instant-overlaps i j h.0 h.1 h.2,
  )

  -- Overlap does not depend on the order of the two intervals.
  pub overlaps_comm : (i j : TimeInterval T) → overlaps i j ≡ overlaps j i
  unfolding overlaps
  overlaps_comm i j = ground arith

  -- `new` succeeds with the given start and end exactly if the end, if there is one, is not before
  -- the start, and is refused for the order of its ends exactly if there is an end before the start.
  pub new_cases :
      (start : T) (end : Option T)
      → ((new start end ≡ ok (record { start = start; end = end }))
          ↔ ((e : T) → end ≡ some e → le start e ≡ true))
        × ((new start end ≡ err end_before_start)
            ↔ ((e : T) × (end ≡ some e) × (lt e start ≡ true)))
  unfolding new
  new_cases start none = ((λ _ e h. cc, λ _. refl), (λ h. ground arith, λ (e, p, q). ground arith))
  new_cases start (some end) = (
    (
      λ h e p. ground (arith, o.compare_flip start end),
      λ h. ground (arith, o.compare_flip start end, h end refl),
    ),
    (λ h. (end, refl, ground arith), λ (e, p, q). ground arith),
  )
