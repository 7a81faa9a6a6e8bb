-- ===== src/Kernel/Physical/Lookup.antt =====
-- crates/rg-kernel/src/lib.rs: `ClaimPattern`, and the candidates that the store finds.
use hotgraph.Prelude.{
  ℕ, zero, suc, ◌%◌, String, List, [], ◌∷◌, Option, none, some, le, lt, Ord, nat_ord, string_ord,
  Bool, true, false, if◌then◌else◌,
}
use hotgraph.Prelude.Int.{ℤ, ℤ_ord}
use hotgraph.Prelude.Arrays.{get_elem?}
use hotgraph.Prelude.Lists.{length}
use hotgraph.Prelude.Map.{BTreeMap, get, get_or}
use hotgraph.Core.Types.{PredicateId, SourceId, ValidTime, TxTime}
use hotgraph.Kernel.Atom.{AtomId, EntityRef, RealityAtom, ValueOrEntity}
use hotgraph.Kernel.Bitmap.{
  AtomOrdinal, CandidateBitmap, empty, from_unsorted, ordinals_from, intersect,
}
use hotgraph.Kernel.Bitmap as Bitmap
use hotgraph.Kernel.Physical.{Symbol, ColumnarAtomStore, PhysicalGraphStore, TrieKey, key_ord}
use hotgraph.Kernel.Physical.Push.{SymbolIndex, object_symbol_key}

pub record ClaimPattern : Type 0 where
  pub subject : Option EntityRef
  pub predicate : Option PredicateId
  pub object : Option ValueOrEntity

unfoldable pub atom_count : PhysicalGraphStore → ℕ
atom_count s = length s.columnar.atom_ids

-- What stands under a key: `get`, `and_then`, `cloned` and `unwrap_or_default`.
unfoldable pub postings_of {ℓ} : {K : Type ℓ} ⦃o : Ord K⦄ → SymbolIndex K → K → CandidateBitmap
postings_of (symbols, postings) key = elim (get symbols key) [
  | none ↦ empty
  | some symbol ↦ get_or (get postings symbol) empty
]

unfoldable pub outgoing_for_subject : PhysicalGraphStore → EntityRef → CandidateBitmap
unfolding postings_of
outgoing_for_subject s subject = postings_of (s.entity_symbols, s.outgoing_by_subject) subject

unfoldable pub atoms_for_predicate : PhysicalGraphStore → PredicateId → CandidateBitmap
unfolding postings_of
atoms_for_predicate s predicate = postings_of (s.predicate_symbols, s.atoms_by_predicate) predicate

unfoldable pub atoms_for_source : PhysicalGraphStore → SourceId → CandidateBitmap
unfolding postings_of
atoms_for_source s source = postings_of (s.source_symbols, s.atoms_by_source) source

-- A test of a column at a row, after which `rest` is tested; `none` is the panic of a row that the
-- column does not have.
abbrev pub test_at : List ℤ → ℕ → (ℤ → Bool) → Option Bool → Option Bool
test_at column row p rest = elim (get_elem? column row) [
  | none ↦ none
  | some t ↦ if p t then rest else some false
]

unfoldable pub row_in_force : ColumnarAtomStore → ValidTime → TxTime → ℕ → Option Bool
row_in_force c valid_at known_at row =
    test_at c.valid_from row (λ t. le t valid_at)
      (test_at c.valid_to row (λ t. lt valid_at t)
        (test_at c.tx_from row (λ t. le t known_at)
          (test_at c.tx_to row (λ t. lt known_at t) (some true))))

abbrev pub keep_row : Option Bool → ℕ → Option (List AtomOrdinal) → Option (List AtomOrdinal)
keep_row (some true) row (some rows) = some (row % 4294967296 ∷ rows)
keep_row (some false) row (some rows) = some rows
keep_row _ row _ = none

-- the filter over the rows from `row` on, of which there are `n`
unfoldable pub rows_in_force :
    ColumnarAtomStore → ValidTime → TxTime → ℕ → ℕ → Option (List AtomOrdinal)
rows_in_force c valid_at known_at row zero = some []
rows_in_force c valid_at known_at row (suc n) =
    keep_row (row_in_force c valid_at known_at row) row
      (rows_in_force c valid_at known_at (suc row) n)

unfoldable pub point_in_time_candidates :
    PhysicalGraphStore → ValidTime → TxTime → Option CandidateBitmap
unfolding atom_count
point_in_time_candidates s valid_at known_at =
    elim (rows_in_force s.columnar valid_at known_at 0 (atom_count s)) [
      | none ↦ none
      | some rows ↦ some (from_unsorted rows)
    ]

unfoldable pub atom_ids_at : List AtomId → List AtomOrdinal → List AtomId
atom_ids_at ids [] = []
atom_ids_at ids (n ∷ ordinals) = elim (get_elem? ids n) [
  | none ↦ atom_ids_at ids ordinals
  | some id ↦ id ∷ atom_ids_at ids ordinals
]

unfoldable pub atom_ids_for_candidates : PhysicalGraphStore → CandidateBitmap → List AtomId
unfolding atom_ids_at
atom_ids_for_candidates s candidates = atom_ids_at s.columnar.atom_ids candidates.ordinals

unfoldable pub atoms_at : List RealityAtom → List AtomOrdinal → List RealityAtom
atoms_at atoms [] = []
atoms_at atoms (n ∷ ordinals) = elim (get_elem? atoms n) [
  | none ↦ atoms_at atoms ordinals
  | some a ↦ a ∷ atoms_at atoms ordinals
]

unfoldable pub atoms_for_candidates : PhysicalGraphStore → CandidateBitmap → List RealityAtom
unfolding atoms_at
atoms_for_candidates s candidates = atoms_at s.atoms candidates.ordinals

-- `if let Some(key) = key { candidates = candidates.intersect(&postings(key)) }`
abbrev pub narrow {ℓ} :
    {K : Type ℓ} → Option K → (K → CandidateBitmap) → CandidateBitmap → CandidateBitmap
narrow none postings candidates = candidates
narrow (some key) postings candidates = intersect candidates (postings key)

-- the look-up of a triple in the trie, where each part has a symbol
abbrev pub trie_at :
    BTreeMap TrieKey CandidateBitmap
    → Option Symbol
    → Option Symbol
    → Option Symbol
    → CandidateBitmap
trie_at trie none predicate object = empty
trie_at trie (some subject) none object = empty
trie_at trie (some subject) (some predicate) none = empty
trie_at trie (some subject) (some predicate) (some object) =
    get_or (get trie (record { subject = subject; predicate = predicate; object = object })) empty

-- `decimal_text` is the print of an `f64`, of its bits.
module _ (decimal_text : ℕ → String) where
  -- the ordinals of the atoms with an object
  unfoldable pub atoms_for_object : PhysicalGraphStore → ValueOrEntity → CandidateBitmap
  unfolding postings_of
  atoms_for_object s object =
      postings_of (s.object_symbols, s.incoming_by_object) (object_symbol_key decimal_text object)

  unfoldable pub incoming_for_object_entity : PhysicalGraphStore → EntityRef → CandidateBitmap
  incoming_for_object_entity s e = atoms_for_object s (ValueOrEntity.entity e)

  unfoldable pub candidates_for_claim_pattern : PhysicalGraphStore → ClaimPattern → CandidateBitmap
  unfolding atom_count
  candidates_for_claim_pattern s pattern = narrow pattern.object (atoms_for_object s) (
      narrow pattern.predicate (atoms_for_predicate s)
        (narrow pattern.subject (outgoing_for_subject s) (Bitmap.all (atom_count s))))

  abbrev pub trie_for :
      PhysicalGraphStore
      → ClaimPattern
      → Option EntityRef
      → Option PredicateId
      → Option ValueOrEntity
      → CandidateBitmap
  trie_for s pattern (some subject) (some predicate) (some object) =
      trie_at s.trie_spo (get s.entity_symbols subject) (get s.predicate_symbols predicate)
        (get s.object_symbols (object_symbol_key decimal_text object))
  trie_for s pattern _ _ _ = candidates_for_claim_pattern s pattern

  unfoldable pub trie_candidates_for_claim : PhysicalGraphStore → ClaimPattern → CandidateBitmap
  trie_candidates_for_claim s pattern =
      trie_for s pattern pattern.subject pattern.predicate pattern.object
