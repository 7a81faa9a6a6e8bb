-- ===== src/Kernel/Physical.antt =====
-- crates/rg-kernel/src/lib.rs: `PhysicalGraphStore`, the columns and the indexes of its atoms.
pub mod Push
pub mod Lookup
pub mod Candidates
pub mod Posting
pub mod Columns
pub mod Trie
pub mod Exact
pub mod Laws
pub mod Search
use hotgraph.Prelude.{
  ℕ, String, List, [], Ordering, cmp, Ord, ◌≡◌, refl, arith, nat_ord, Bool, false, ◌==◌, ◌&&◌,
}
use hotgraph.Prelude.Int.{ℤ}
use hotgraph.Prelude.Lists.{length}
use hotgraph.Prelude.Map.{BTreeMap}
use hotgraph.Prelude.Order.{flip}
use hotgraph.Core.Types.{PredicateId, SourceId}
use hotgraph.Kernel.Atom.{AtomId, EntityRef, BeliefState, RealityAtom}
use hotgraph.Kernel.Bitmap.{AtomOrdinal, CandidateBitmap, empty}

-- A `u32` that stands for a text.
abbrev pub Symbol : Type 0
Symbol = ℕ

-- The confidence is the bits of an `f32`.
pub record ColumnarAtomStore : Type 0 where
  pub atom_ids : List AtomId
  pub subject_ids : List Symbol
  pub predicate_ids : List Symbol
  pub object_ids : List Symbol
  pub valid_from : List ℤ
  pub valid_to : List ℤ
  pub tx_from : List ℤ
  pub tx_to : List ℤ
  pub confidence : List ℕ
  pub belief_state : List BeliefState
  pub context_ids : List Symbol
  pub source_set_ids : List Symbol

unfoldable pub is_dense : ColumnarAtomStore → Bool
is_dense c =
    let len = length c.atom_ids in
    length c.subject_ids == len
    && (length c.predicate_ids == len
        && (length c.object_ids == len
            && (length c.valid_from == len
                && (length c.valid_to == len
                    && (length c.tx_from == len
                        && (length c.tx_to == len
                            && (length c.confidence == len
                                && (length c.belief_state == len
                                    && (length c.context_ids == len
                                        && length c.source_set_ids == len)))))))))

pub record ColdHistoricalSegmentDescriptor : Type 0 where
  pub segment_id : String
  pub min_tx : ℤ
  pub max_tx : ℤ

pub record MemoryMappedSnapshotDescriptor : Type 0 where
  pub format : String
  pub atom_count : ℕ

pub record VectorSourceSidecarDescriptor : Type 0 where
  pub source_sets : ℕ
  pub external_vectors : Bool

-- A key of the trie: a triple of `u32`s.
pub record TrieKey : Type 0 where
  pub subject : Symbol
  pub predicate : Symbol
  pub object : Symbol

abbrev pub compare_keys : TrieKey → TrieKey → Ordering
compare_keys a b = elim (cmp a.subject b.subject) [
  | Ordering.lt ↦ Ordering.lt
  | Ordering.gt ↦ Ordering.gt
  | Ordering.eq ↦ elim (cmp a.predicate b.predicate) [
    | Ordering.lt ↦ Ordering.lt
    | Ordering.gt ↦ Ordering.gt
    | Ordering.eq ↦ cmp a.object b.object
  ]
]

pub key-eq_of_compare : (a b : TrieKey) → compare_keys a b ≡ Ordering.eq → a ≡ b
key-eq_of_compare a b h = ground arith

pub key-compare_self : (a : TrieKey) → compare_keys a a ≡ Ordering.eq
key-compare_self a = ground arith

pub key-compare_flip : (a b : TrieKey) → compare_keys b a ≡ flip (compare_keys a b)
key-compare_flip a b = ground arith

pub key-compare_trans :
    (a b c : TrieKey)
    → compare_keys a b ≡ Ordering.lt
    → compare_keys b c ≡ Ordering.lt
    → compare_keys a c ≡ Ordering.lt
key-compare_trans a b c p q = ground arith

instance abbrev pub key_ord : Ord TrieKey
key_ord = record {
  compare_by = compare_keys;
  eq_of_compare = key-eq_of_compare;
  compare_self = key-compare_self;
  compare_flip = key-compare_flip;
  compare_trans = key-compare_trans;
}

pub record PhysicalGraphStore : Type 0 where
  pub atoms : List RealityAtom
  pub columnar : ColumnarAtomStore
  pub entity_symbols : BTreeMap EntityRef Symbol
  pub predicate_symbols : BTreeMap PredicateId Symbol
  pub object_symbols : BTreeMap String Symbol
  pub source_symbols : BTreeMap SourceId Symbol
  pub context_symbols : BTreeMap String Symbol
  pub source_sets : List (List SourceId)
  pub outgoing_by_subject : BTreeMap Symbol CandidateBitmap
  pub incoming_by_object : BTreeMap Symbol CandidateBitmap
  pub atoms_by_predicate : BTreeMap Symbol CandidateBitmap
  pub atoms_by_source : BTreeMap Symbol CandidateBitmap
  pub valid_start_index : BTreeMap ℤ CandidateBitmap
  pub tx_start_index : BTreeMap ℤ CandidateBitmap
  pub trie_spo : BTreeMap TrieKey CandidateBitmap
  pub contradiction_clusters : BTreeMap String CandidateBitmap
  pub dependency_atoms : BTreeMap AtomOrdinal CandidateBitmap
  pub hot_working_set : CandidateBitmap
  pub cold_segments : List ColdHistoricalSegmentDescriptor
  pub snapshot : MemoryMappedSnapshotDescriptor
  pub sidecar : VectorSourceSidecarDescriptor

-- the derived `default` of the columns and of the store
abbrev pub empty_columns : ColumnarAtomStore
empty_columns = record {
  atom_ids = [];
  subject_ids = [];
  predicate_ids = [];
  object_ids = [];
  valid_from = [];
  valid_to = [];
  tx_from = [];
  tx_to = [];
  confidence = [];
  belief_state = [];
  context_ids = [];
  source_set_ids = [];
}

abbrev pub empty_store : PhysicalGraphStore
empty_store = record {
  atoms = [];
  columnar = empty_columns;
  entity_symbols = [];
  predicate_symbols = [];
  object_symbols = [];
  source_symbols = [];
  context_symbols = [];
  source_sets = [];
  outgoing_by_subject = [];
  incoming_by_object = [];
  atoms_by_predicate = [];
  atoms_by_source = [];
  valid_start_index = [];
  tx_start_index = [];
  trie_spo = [];
  contradiction_clusters = [];
  dependency_atoms = [];
  hot_working_set = empty;
  cold_segments = [];
  snapshot = record { format = ""; atom_count = 0 };
  sidecar = record { source_sets = 0; external_vectors = false };
}
