-- ===== src/Kernel/Physical/Posting.antt =====
-- crates/rg-kernel/src/lib.rs: `intern_symbol`, and an index of ordinals by symbol, as a set of pairs.
use hotgraph.Prelude.{
  suc, ◌<◌, ◌≤◌, ◌≡◌, refl, ◌∙◌, none, some, Ord, ◌==◌, eq_iff, eq_self, nat_ord, Bool, false, ◌&&◌,
  ◌||◌, if◌then◌else◌, ◌⊎◌, inl, inr, arith, Option-cases, Bool-cases, ◌≢◌, subst,
}
use hotgraph.Prelude.Lists.{length, contains}
use hotgraph.Prelude.Map.{BTreeMap, get, insert, get-insert, length-insert}
use hotgraph.Kernel.Bitmap.{AtomOrdinal, CandidateBitmap}
use hotgraph.Kernel.Physical.{Symbol}
use hotgraph.Kernel.Physical.Push.{u32, intern_symbol, push_candidate_index, SymbolIndex}
use hotgraph.Kernel.Physical.Lookup.{postings_of}
use hotgraph.Kernel.Physical.Candidates.{contains-push_self, get-push_other}

module _ {ℓ} {K : Type ℓ} ⦃o : Ord K⦄ where
  -- Symbols are below the number of the keys, and tell the keys apart.
  pub record IsSymbols (symbols : BTreeMap K Symbol) : Type ℓ where
    pub below : (k : K) (s : Symbol) → get symbols k ≡ some s → s < length symbols
    pub apart : (j k : K) (s : Symbol) → get symbols j ≡ some s → get symbols k ≡ some s → j ≡ k

  -- What interning `k` makes of the symbols: `k` has `s`, which no other key has.
  pub record IsInterned (symbols : BTreeMap K Symbol) (k : K) (after : BTreeMap K Symbol)
      (s : Symbol) : Type ℓ where
    pub looked_up : (j : K) → get after j ≡ (if k == j then some s else get symbols j)
    pub own : (j : K) → get symbols j ≡ some s → j ≡ k
    pub origin : (get symbols k ≡ some s) ⊎ ((get symbols k ≡ none) × (s ≡ length symbols))
    pub kept : IsSymbols after
    pub longer : length symbols ≤ length after
    pub inside : s < length after
    pub by_one : length after ≤ suc (length symbols)

  IsInterned-known :
      (symbols : BTreeMap K Symbol) (k : K) (s : Symbol)
      → IsSymbols symbols
      → get symbols k ≡ some s
      → IsInterned symbols k symbols s
  IsInterned-known symbols k s h known = record {
    looked_up = λ j. ground (arith, eq_iff k j);
    own = λ j e. h.apart j k s e known;
    origin = inl known;
    kept = h;
    longer = omega arith;
    inside = h.below k s known;
    by_one = omega arith;
  }

  IsInterned-new :
      (symbols : BTreeMap K Symbol) (k : K)
      → IsSymbols symbols
      → get symbols k ≡ none
      → IsInterned symbols k (insert symbols k (length symbols)) (length symbols)
  IsInterned-new symbols k h unknown = record {
    looked_up = λ j. get-insert symbols k (length symbols) j;
    own = λ j e. absurd (omega (arith, h.below j (length symbols) e));
    origin = inr (unknown, refl);
    kept = record {
      below = λ j s e. ground (
        arith,
        get-insert symbols k (length symbols) j,
        length-insert symbols k (length symbols) unknown,
        h.below j s,
      );
      apart = λ i j s p q. ground (
        arith,
        get-insert symbols k (length symbols) i,
        get-insert symbols k (length symbols) j,
        h.apart i j s,
        h.below i s,
        h.below j s,
        eq_iff k i,
        eq_iff k j,
      );
    };
    longer = omega (arith, length-insert symbols k (length symbols) unknown);
    inside = omega (arith, length-insert symbols k (length symbols) unknown);
    by_one = omega (arith, length-insert symbols k (length symbols) unknown);
  }

  pub intern_symbol_lem :
      (symbols : BTreeMap K Symbol) (k : K)
      → IsSymbols symbols
      → length symbols < 4294967296
      → IsInterned symbols k (intern_symbol symbols k).0 (intern_symbol symbols k).1
  unfolding intern_symbol
  intern_symbol_lem symbols k h room = elim (Option-cases (get symbols k)) [
    | inr (s, known) ↦ rw (known, intern_symbol) (IsInterned-known symbols k s h known)
    | inl unknown ↦
        let small : u32 (length symbols) ≡ length symbols = omega arith in
        rw (unknown, intern_symbol, small) (IsInterned-new symbols k h unknown)
  ]

  -- The index holds the pairs of a key and an ordinal that `has` says.
  pub record IsPosting (index : SymbolIndex K) (has : K → AtomOrdinal → Bool) : Type ℓ where
    pub symbols : IsSymbols index.0
    pub fresh : (s : Symbol) → length index.0 ≤ s → get index.1 s ≡ none
    pub exact : (k : K) (n : AtomOrdinal) → contains (postings_of index k).ordinals n ≡ has k n

  module _ (before after : BTreeMap K Symbol) (postings : BTreeMap Symbol CandidateBitmap) (k : K)
      (s : Symbol) (n : AtomOrdinal) (has : K → AtomOrdinal → Bool)
      (h : IsPosting (before, postings) has) (i : IsInterned before k after s) where
    exact_at_key :
        (m : AtomOrdinal)
        → contains (postings_of (after, push_candidate_index postings s n) k).ordinals m
          ≡ (has k m || n == m)
    unfolding postings_of contains
    exact_at_key m = elim i.origin [
      | inl known ↦
          ground (arith, contains-push_self postings s n m, i.looked_up k, eq_self k, h.exact k m)
      | inr (unknown, e) ↦ ground (
        arith,
        contains-push_self postings s n m,
        i.looked_up k,
        eq_self k,
        h.exact k m,
        h.fresh s (omega arith),
      )
    ]

    exact_elsewhere :
        (j : K) (m : AtomOrdinal)
        → k == j ≡ false
        → contains (postings_of (after, push_candidate_index postings s n) j).ordinals m ≡ has j m
    unfolding postings_of contains
    exact_elsewhere j m other = elim (Option-cases (get before j)) [
      | inl none_there ↦ ground (arith, i.looked_up j, h.exact j m)
      | inr (t, there) ↦
          let apart : t ≢ s = λ e. ground (arith, i.own j, eq_iff k j, eq_self k) in
          ground (arith, i.looked_up j, h.exact j m, get-push_other postings s t n apart)
    ]

    fresh_after : (t : Symbol) → length after ≤ t → get (push_candidate_index postings s n) t ≡ none
    fresh_after t e =
        get-push_other postings s t n (λ q. omega (arith, i.inside))
        ∙ h.fresh t (omega (arith, i.longer))

    pub IsPosting-push :
        IsPosting (after, push_candidate_index postings s n) (λ j m. has j m || (k == j && n == m))
    IsPosting-push = record {
      symbols = i.kept;
      fresh = fresh_after;
      exact = λ j m. elim (Bool-cases (k == j)) [
        | inl same ↦
            let e : k ≡ j = (eq_iff k j).0 same in
            rw same (
              subst
                (λ l.
                  contains (postings_of (after, push_candidate_index postings s n) l).ordinals m
                  ≡ (has l m || n == m))
                e (exact_at_key m))
        | inr other ↦ exact_elsewhere j m other ∙ ground arith
      ];
    }
