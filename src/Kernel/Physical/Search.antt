-- ===== src/Kernel/Physical/Search.antt =====
-- crates/rg-kernel/src/lib.rs: the trie and the search by time against a scan of the atoms.
use hotgraph.Prelude.{
  ℕ, ◌<◌, ◌≡◌, refl, sym, ◌∙◌, ap, subst, String, List, Option, none, some, nat_ord, string_ord,
  arith,
}
use hotgraph.Prelude.Int.{ℤ_ord}
use hotgraph.Prelude.Lists.{length, contains, contains-sort_dedup}
use hotgraph.Prelude.Map.{BTreeMap, get}
use hotgraph.Core.Types.{PredicateId, ValidTime, TxTime}
use hotgraph.Kernel.Atom.{EntityRef, RealityAtom, ValueOrEntity}
use hotgraph.Kernel.Bitmap.{AtomOrdinal, CandidateBitmap, from_unsorted}
use hotgraph.Kernel.Physical.{Symbol, TrieKey, key_ord}
use hotgraph.Kernel.Physical.Push.{
  object_symbol_key, compact_candidate_map, finalize_indexes, sort_atoms, from_atoms,
}
use hotgraph.Kernel.Physical.Lookup.{
  ClaimPattern, atom_count, candidates_for_claim_pattern, trie_at, trie_for,
  trie_candidates_for_claim, point_in_time_candidates,
}
use hotgraph.Kernel.Physical.Candidates.{contains-compact}
use hotgraph.Kernel.Physical.Columns.{at_row, IsColumns, is_visible_in_columns, rows_in_force_lem}
use hotgraph.Kernel.Physical.Exact.{is_triple}
use hotgraph.Kernel.Physical.Laws.{
  length-sort_atoms, pushed, pushed-IsExact, row_count, candidates_for_claim_pattern_lem,
}

contains-trie_at_compact :
    (trie : BTreeMap TrieKey CandidateBitmap) (a b c : Option Symbol) (n : AtomOrdinal)
    → contains (trie_at (compact_candidate_map trie) a b c).ordinals n
      ≡ contains (trie_at trie a b c).ordinals n
contains-trie_at_compact trie none b c n = refl
contains-trie_at_compact trie (some a) none c n = refl
contains-trie_at_compact trie (some a) (some b) none n = refl
contains-trie_at_compact trie (some a) (some b) (some c) n =
    contains-compact trie (record { subject = a; predicate = b; object = c }) n

module _ (decimal_text : ℕ → String) (atoms : List RealityAtom)
    (room : length atoms < 4294967296) where
  trie_at_lem :
      (e : EntityRef) (p : PredicateId) (t : String) (n : AtomOrdinal)
      → let s = from_atoms decimal_text atoms in
        contains
          (trie_at s.trie_spo
            (get s.entity_symbols e)
            (get s.predicate_symbols p)
            (get s.object_symbols t)).ordinals
          n
        ≡ at_row (is_triple decimal_text e p t) (sort_atoms atoms) n
  unfolding from_atoms finalize_indexes
  trie_at_lem e p t n =
      let (h, same) = pushed-IsExact decimal_text atoms room in
      let s = pushed decimal_text atoms in
      contains-trie_at_compact s.trie_spo (get s.entity_symbols e) (get s.predicate_symbols p)
        (get s.object_symbols t) n
      ∙ h.trie.exact e p t n
      ∙ ap (λ (xs : List RealityAtom). at_row (is_triple decimal_text e p t) xs n) same

  trie_for_lem :
      (pattern : ClaimPattern) (a : Option EntityRef) (b : Option PredicateId)
      (c : Option ValueOrEntity)
      → pattern.subject ≡ a
      → pattern.predicate ≡ b
      → pattern.object ≡ c
      → (n : AtomOrdinal)
      → let s = from_atoms decimal_text atoms in
        contains (trie_for decimal_text s pattern a b c).ordinals n
        ≡ contains (candidates_for_claim_pattern decimal_text s pattern).ordinals n
  trie_for_lem pattern none b c x y z n = refl
  trie_for_lem pattern (some a) none c x y z n = refl
  trie_for_lem pattern (some a) (some b) none x y z n = refl
  trie_for_lem pattern (some a) (some b) (some c) x y z n =
      trie_at_lem a b (object_symbol_key decimal_text c) n
      ∙ ground (arith, x, y, z)
      ∙ sym (candidates_for_claim_pattern_lem decimal_text atoms room pattern n)

  -- In a store that is made of fewer than 2^32 atoms the trie gives, for every pattern, the same
  -- candidates as the intersection of the indexes.
  pub trie_candidates_for_claim_lem :
      (pattern : ClaimPattern) (n : AtomOrdinal)
      → let s = from_atoms decimal_text atoms in
        contains (trie_candidates_for_claim decimal_text s pattern).ordinals n
        ≡ contains (candidates_for_claim_pattern decimal_text s pattern).ordinals n
  unfolding trie_candidates_for_claim
  trie_candidates_for_claim_lem pattern n =
      trie_for_lem pattern pattern.subject pattern.predicate pattern.object refl refl refl n

  -- In a store that is made of fewer than 2^32 atoms the search by time reads, at any two times, no
  -- row that is not there. It returns exactly the rows of the atoms that are visible then, except
  -- that it leaves out an atom with an open interval at the largest `i64`.
  pub point_in_time_candidates_lem :
      (valid_at : ValidTime) (known_at : TxTime)
      → (found : CandidateBitmap) × (point_in_time_candidates
            (from_atoms decimal_text atoms)
            valid_at
            known_at
          ≡ some found)
        × ((n : AtomOrdinal)
            → contains found.ordinals n
              ≡ at_row (is_visible_in_columns valid_at known_at) (sort_atoms atoms) n)
  unfolding point_in_time_candidates atom_count from_atoms finalize_indexes from_unsorted
  point_in_time_candidates_lem valid_at known_at =
      let (h, same) = pushed-IsExact decimal_text atoms room in
      let s = pushed decimal_text atoms in
      let count = row_count decimal_text atoms room in
      let (rows, found, exact) =
        rows_in_force_lem valid_at known_at s.columnar (sort_atoms atoms)
          (subst (IsColumns s.columnar) same h.columns) 0 (length s.columnar.atom_ids)
          (omega (arith, count)) (omega (arith, length-sort_atoms atoms)) in
      (from_unsorted rows, ground arith, λ n. contains-sort_dedup rows n ∙ exact n ∙ ground arith)
