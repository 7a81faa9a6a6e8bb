-- ===== src/Kernel/Physical/Laws.antt =====
-- crates/rg-kernel/src/lib.rs: the look-ups of `PhysicalGraphStore` against a scan of its atoms.
use mathlib.Core.List.{append-nil, append_assoc}
use hotgraph.Prelude.{
  ℕ, zero, suc, ◌+◌, ◌<◌, ◌≡◌, refl, sym, ◌∙◌, ap, subst, String, List, [], ◌∷◌, ◌++◌, Option, none,
  some, Ord, ◌==◌, nat_ord, string_ord, cmp, Bool, true, ◌&&◌, arith, ltb, Option-cases, inl, inr,
}
use hotgraph.Prelude.Int.{ℤ_ord}
use hotgraph.Prelude.Arrays.{length-map}
use hotgraph.Prelude.Lists.{length, length-append, length-sort_by, contains}
use hotgraph.Prelude.Sorted.{sort_dedup-IsAscending}
use hotgraph.Prelude.Map.{get}
use hotgraph.Core.Types.{PredicateId}
use hotgraph.Kernel.Atom.{EntityRef, RealityAtom, ValueOrEntity}
use hotgraph.Kernel.Bitmap.{
  AtomOrdinal, CandidateBitmap, empty, from_unsorted, ordinals_from, intersect,
}
use hotgraph.Kernel.Bitmap as Bitmap
use hotgraph.Kernel.Bitmap.Laws.{IsOrdinalSet, set_operations}
use hotgraph.Kernel.Physical.{PhysicalGraphStore, key_ord, empty_store, is_dense}
use hotgraph.Kernel.Physical.Push.{
  SymbolIndex, object_symbol_key, compact_candidate_map, push_atom, push_atoms, finalize_indexes,
  sort_atoms, from_atoms,
}
use hotgraph.Kernel.Physical.Lookup.{
  ClaimPattern, atom_count, postings_of, outgoing_for_subject, atoms_for_predicate,
  atoms_for_object, narrow, candidates_for_claim_pattern,
}
use hotgraph.Kernel.Physical.Candidates.{contains-compact, compact-IsOrdinalSet}
use hotgraph.Kernel.Physical.Posting.{IsSymbols}
use hotgraph.Kernel.Physical.Columns.{at_row, contains-all}
use hotgraph.Kernel.Physical.Exact.{
  IsIndexOf, IsExact, push_atom-IsExact, subject_of, predicate_of, object_key_of,
}

no-IsSymbols {ℓ} : {K : Type ℓ} ⦃o : Ord K⦄ → IsSymbols {K = K} []
unfolding get
no-IsSymbols = record { below = λ k s e. cc; apart = λ j k s p q. cc }

-- A bitmap is ascending and holds exactly these ordinals.
abbrev Holds : CandidateBitmap → (AtomOrdinal → Bool) → Type 0
Holds c has = IsOrdinalSet c × ((n : AtomOrdinal) → contains c.ordinals n ≡ has n)

-- Of an index of a key, once it is compacted.
Holds-postings {ℓ} :
    {K : Type ℓ} ⦃o : Ord K⦄ (key : RealityAtom → K) (index : SymbolIndex K)
    (atoms : List RealityAtom)
    → IsIndexOf key index atoms
    → (k : K)
    → Holds
        (postings_of (index.0, compact_candidate_map index.1) k)
        (λ n. at_row (λ a. key a == k) atoms n)
unfolding postings_of contains
Holds-postings key index atoms h k = elim (Option-cases (get index.0 k)) [
  | inl missing ↦
      (rw (missing, postings_of) tt, λ n. rw (missing, postings_of) (ground (arith, h.exact k n)))
  | inr (s, there) ↦ (
    rw (there, postings_of) (compact-IsOrdinalSet index.1 s),
    λ n. rw (there, postings_of) (contains-compact index.1 s n ∙ ground (arith, h.exact k n)),
  )
]

abbrev pub asked {ℓ} : {K : Type ℓ} → Option K → (K → Bool) → Bool
asked none p = true
asked (some k) p = p k

Holds-narrow {ℓ} :
    {K : Type ℓ} (k : Option K) (postings : K → CandidateBitmap) (c : CandidateBitmap)
    (p : RealityAtom → Bool) (q : K → RealityAtom → Bool) (atoms : List RealityAtom)
    → Holds c (λ n. at_row p atoms n)
    → ((k : K) → Holds (postings k) (λ n. at_row (q k) atoms n))
    → Holds (narrow k postings c) (λ n. at_row (λ a. asked k (λ j. q j a) && p a) atoms n)
Holds-narrow none postings c p q atoms h i = h
Holds-narrow (some k) postings c p q atoms h i =
    let both = set_operations c (postings k) h.0 (i k).0 in
    (both.0, λ n. (both.2 n).0 ∙ ground (arith, h.1 n, (i k).1 n))

at_true : (xs : List RealityAtom) (n : ℕ) → ltb n (length xs) ≡ at_row (λ a. true) xs n
at_true [] n = ground arith
at_true (x ∷ xs) zero = ground arith
at_true (x ∷ xs) (suc n) = ground (arith, at_true xs n)

pub length-sort_atoms : (atoms : List RealityAtom) → length (sort_atoms atoms) ≡ length atoms
unfolding sort_atoms
length-sort_atoms atoms = length-sort_by (λ (a b : RealityAtom). cmp a.id b.id) atoms

module _ (decimal_text : ℕ → String) where
  push_atoms-IsExact :
      (s : PhysicalGraphStore) (atoms : List RealityAtom)
      → IsExact decimal_text s
      → length s.atoms + length atoms < 4294967296
      → IsExact decimal_text (push_atoms decimal_text s atoms)
        × ((push_atoms decimal_text s atoms).atoms ≡ s.atoms ++ atoms)
  unfolding push_atoms push_atom
  push_atoms-IsExact s [] h room = (h, sym (append-nil s.atoms))
  push_atoms-IsExact s (a ∷ atoms) h room =
      let rest =
        push_atoms-IsExact (push_atom decimal_text s a) atoms
          (push_atom-IsExact decimal_text s a h (omega arith))
          (omega (arith, length-append {0} s.atoms (a ∷ []))) in
      (rest.0, rest.1 ∙ append_assoc s.atoms (a ∷ []) atoms)

  -- The store of some atoms before it is finalized.
  abbrev pub pushed : List RealityAtom → PhysicalGraphStore
  pushed atoms =
      push_atoms decimal_text
        (record empty_store {
          snapshot = record {
            format = "rg-kernel-columnar-v1";
            atom_count = length (sort_atoms atoms);
          };
          sidecar = record { source_sets = 0; external_vectors = true };
        })
        (sort_atoms atoms)

  pub pushed-IsExact :
      (atoms : List RealityAtom)
      → length atoms < 4294967296
      → IsExact decimal_text (pushed atoms) × ((pushed atoms).atoms ≡ sort_atoms atoms)
  unfolding postings_of get contains is_dense
  pushed-IsExact atoms room =
      push_atoms-IsExact _ (sort_atoms atoms)
        (record {
          columns = record {
            ids = refl;
            valid_from = refl;
            valid_to = refl;
            tx_from = refl;
            tx_to = refl;
            dense = refl;
          };
          subjects = record { symbols = no-IsSymbols; fresh = λ s e. refl; exact = λ k n. refl };
          predicates = record { symbols = no-IsSymbols; fresh = λ s e. refl; exact = λ k n. refl };
          objects = record { symbols = no-IsSymbols; fresh = λ s e. refl; exact = λ k n. refl };
          trie = record {
            no_subject = λ k e. refl;
            no_predicate = λ k e. refl;
            no_object = λ k e. refl;
            exact = λ e p t n. refl;
          };
          subject_room = omega arith;
          predicate_room = omega arith;
          object_room = omega arith;
        })
        (omega (arith, length-sort_atoms atoms))

  -- The atom has what the pattern asks for; of an object only its key counts.
  abbrev pub matches : ClaimPattern → RealityAtom → Bool
  matches pattern a =
      asked pattern.object (λ o. object_key_of decimal_text a == object_symbol_key decimal_text o)
      && (asked pattern.predicate (λ p. a.predicate == p)
          && (asked pattern.subject (λ e. a.subject == e) && true))

  module _ (atoms : List RealityAtom) (room : length atoms < 4294967296) where
    pub row_count : length (pushed atoms).columnar.atom_ids ≡ length (sort_atoms atoms)
    row_count =
        let (h, e) = pushed-IsExact atoms room in
        ap length h.columns.ids
        ∙ length-map (λ (a : RealityAtom). a.id) (pushed atoms).atoms
        ∙ ap length e

    Holds-all :
        Holds
          (Bitmap.all (length (pushed atoms).columnar.atom_ids))
          (λ n. at_row (λ a. true) (sort_atoms atoms) n)
    unfolding Bitmap.all from_unsorted
    Holds-all = (
      sort_dedup-IsAscending (ordinals_from 0 (length (pushed atoms).columnar.atom_ids)),
      λ n.
          contains-all (length (pushed atoms).columnar.atom_ids) n
            (omega (arith, row_count, length-sort_atoms atoms))
          ∙ (ap (ltb n) row_count ∙ at_true (sort_atoms atoms) n),
    )

    Holds-candidates :
        (pattern : ClaimPattern)
        → Holds
            (candidates_for_claim_pattern decimal_text (from_atoms decimal_text atoms) pattern)
            (λ n. at_row (matches pattern) (sort_atoms atoms) n)
    unfolding candidates_for_claim_pattern atom_count from_atoms finalize_indexes
        outgoing_for_subject atoms_for_predicate atoms_for_object
    Holds-candidates pattern =
        let (h, e) = pushed-IsExact atoms room in
        let s = pushed atoms in
        let all = Holds-all in
        let subjects = λ (k : EntityRef).
          Holds-postings subject_of (s.entity_symbols, s.outgoing_by_subject) (sort_atoms atoms)
            (subst (IsIndexOf subject_of (s.entity_symbols, s.outgoing_by_subject)) e h.subjects)
            k in
        let predicates = λ (k : PredicateId).
          Holds-postings predicate_of (s.predicate_symbols, s.atoms_by_predicate) (sort_atoms atoms)
            (subst (IsIndexOf predicate_of (s.predicate_symbols, s.atoms_by_predicate)) e
              h.predicates)
            k in
        let objects = λ (o : ValueOrEntity).
          Holds-postings (object_key_of decimal_text) (s.object_symbols, s.incoming_by_object)
            (sort_atoms atoms)
            (subst (IsIndexOf (object_key_of decimal_text) (s.object_symbols, s.incoming_by_object))
              e h.objects)
            (object_symbol_key decimal_text o) in
        Holds-narrow pattern.object _ _ _
          (λ o a. object_key_of decimal_text a == object_symbol_key decimal_text o)
          (sort_atoms atoms)
          (Holds-narrow pattern.predicate _ _ _ (λ p a. a.predicate == p) (sort_atoms atoms)
            (Holds-narrow pattern.subject _ _ _ (λ e a. a.subject == e) (sort_atoms atoms) all
              subjects)
            predicates)
          objects

    -- The candidates for a pattern in a store that is made of fewer than 2^32 atoms are exactly the
    -- rows, in the order of the identifiers, of the atoms that match the pattern: those with its
    -- subject, its predicate and an object with the key of its object, where it names these.
    pub candidates_for_claim_pattern_lem :
        (pattern : ClaimPattern) (n : AtomOrdinal)
        → contains
            (candidates_for_claim_pattern decimal_text
              (from_atoms decimal_text atoms)
              pattern).ordinals
            n
          ≡ at_row (matches pattern) (sort_atoms atoms) n
    candidates_for_claim_pattern_lem pattern n = (Holds-candidates pattern).1 n
