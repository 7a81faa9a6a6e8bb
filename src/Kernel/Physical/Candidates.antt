-- ===== src/Kernel/Physical/Candidates.antt =====
-- crates/rg-kernel/src/lib.rs: an index of ordinals, its pushes and its compaction.
use hotgraph.Prelude.{
  ◌≡◌, ◌≢◌, refl, [], ◌∷◌, ◌++◌, none, some, Ord, ◌==◌, eq_iff, eq_self, nat_ord, ◌||◌, inl, inr,
  arith, Option-cases,
}
use hotgraph.Prelude.Lists.{contains, contains-append, contains-sort_dedup}
use hotgraph.Prelude.Sorted.{sort_dedup-IsAscending}
use hotgraph.Prelude.Map.{BTreeMap, get, get_or, get-insert}
use hotgraph.Kernel.Bitmap.{AtomOrdinal, CandidateBitmap, empty, from_unsorted}
use hotgraph.Kernel.Bitmap.Laws.{IsOrdinalSet}
use hotgraph.Kernel.Physical.Push.{push_candidate_index, compact_candidate_map}

module _ {ℓ} {K : Type ℓ} ⦃o : Ord K⦄ where
  pub contains-push_self :
      (postings : BTreeMap K CandidateBitmap) (s : K) (n m : AtomOrdinal)
      → contains (get_or (get (push_candidate_index postings s n) s) empty).ordinals m
        ≡ (contains (get_or (get postings s) empty).ordinals m || n == m)
  unfolding push_candidate_index contains
  contains-push_self postings s n m =
      let old = (get_or (get postings s) empty).ordinals in
      ground (
        arith,
        get-insert postings s (record { ordinals = old ++ n ∷ [] }) s,
        eq_self s,
        contains-append old (n ∷ []) m,
      )

  pub get-push_other :
      (postings : BTreeMap K CandidateBitmap) (s t : K) (n : AtomOrdinal)
      → t ≢ s
      → get (push_candidate_index postings s n) t ≡ get postings t
  unfolding push_candidate_index
  get-push_other postings s t n h = ground (
    arith,
    get-insert postings s (record { ordinals = (get_or (get postings s) empty).ordinals ++ n ∷ [] })
        t,
    eq_iff s t,
  )

  -- Compacting the bitmaps changes no pair.
  pub get-compact :
      (postings : BTreeMap K CandidateBitmap) (s : K)
      → get (compact_candidate_map postings) s
        ≡ elim (get postings s) [ none ↦ none | some c ↦ some (from_unsorted c.ordinals) ]
  unfolding get compact_candidate_map
  get-compact [] s = refl
  get-compact ((t, c) ∷ postings) s = ground (arith, get-compact postings s)

  pub contains-compact :
      (postings : BTreeMap K CandidateBitmap) (s : K) (n : AtomOrdinal)
      → contains (get_or (get (compact_candidate_map postings) s) empty).ordinals n
        ≡ contains (get_or (get postings s) empty).ordinals n
  unfolding from_unsorted contains
  contains-compact postings s n = elim (Option-cases (get postings s)) [
    | inl missing ↦ ground (arith, get-compact postings s)
    | inr (c, there) ↦ ground (arith, get-compact postings s, contains-sort_dedup c.ordinals n)
  ]

  pub compact-IsOrdinalSet :
      (postings : BTreeMap K CandidateBitmap) (s : K)
      → IsOrdinalSet (get_or (get (compact_candidate_map postings) s) empty)
  unfolding from_unsorted
  compact-IsOrdinalSet postings s = elim (Option-cases (get postings s)) [
    | inl missing ↦ rw (get-compact postings s, missing) tt
    | inr (c, there) ↦ rw (get-compact postings s, there) (sort_dedup-IsAscending c.ordinals)
  ]
