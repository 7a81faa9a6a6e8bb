-- ===== src/Kernel/Physical/Push.antt =====
-- crates/rg-kernel/src/lib.rs: `push_atom`, `finalize_indexes` and `from_atoms`.
use Prim.Native.String.{◌++◌ as append}
use hotgraph.Prelude.{
  ℕ, suc, ◌%◌, ◌-◌, String, List, [], ◌∷◌, ◌++◌, map, Option, none, some, cmp, lt, Ord, ◌==◌,
  nat_ord, string_ord, Bool, true, false, if◌then◌else◌,
}
use hotgraph.Prelude.Int.{ℤ, pos, negsuc, ℤ_ord, i64_max}
use hotgraph.Prelude.Arrays.{position_from}
use hotgraph.Prelude.Lists.{length, is_empty, sort_by, sort_dedup}
use hotgraph.Prelude.Map.{BTreeMap, get, get_or, insert}
use hotgraph.Core.Types.{SourceId, GraphValue}
use hotgraph.Events.EventId.{digits, print_digits}
use hotgraph.Kernel.Atom.{AtomId, KernelContextScope, RealityAtom, SourceRef, ValueOrEntity}
use hotgraph.Kernel.Bitmap.{AtomOrdinal, CandidateBitmap, empty, from_unsorted}
use hotgraph.Kernel.Physical.{
  Symbol, ColumnarAtomStore, ColdHistoricalSegmentDescriptor, PhysicalGraphStore, key_ord,
  empty_store,
}

-- `as u32`
abbrev pub u32 : ℕ → ℕ
u32 n = n % 4294967296

-- The symbol of a value, which is a new one for a new value.
unfoldable pub intern_symbol {ℓ} :
    {K : Type ℓ} ⦃o : Ord K⦄ → BTreeMap K Symbol → K → BTreeMap K Symbol × Symbol
intern_symbol symbols value = elim (get symbols value) [
  | some symbol ↦ (symbols, symbol)
  | none ↦ (insert symbols value (u32 (length symbols)), u32 (length symbols))
]

unfoldable pub push_candidate_index {ℓ} :
    {K : Type ℓ} ⦃o : Ord K⦄
    → BTreeMap K CandidateBitmap
    → K
    → AtomOrdinal
    → BTreeMap K CandidateBitmap
push_candidate_index index key ordinal =
    insert index key (record { ordinals = (get_or (get index key) empty).ordinals ++ ordinal ∷ [] })

unfoldable pub compact_candidate_map {ℓ} :
    {K : Type ℓ} → BTreeMap K CandidateBitmap → BTreeMap K CandidateBitmap
compact_candidate_map [] = []
compact_candidate_map ((k, c) ∷ index) = (k, from_unsorted c.ordinals) ∷ compact_candidate_map index

-- the decimal print of an integer
unfoldable pub i64_text : ℤ → String
unfolding digits print_digits
i64_text (pos n) = print_digits (digits 20 n) ""
i64_text (negsuc n) = append "-" (print_digits (digits 20 (suc n)) "")

abbrev pub bool_text : Bool → String
bool_text true = "true"
bool_text false = "false"

-- `decimal_text` is the print of an `f64`, of its bits.
unfoldable pub object_symbol_key : (ℕ → String) → ValueOrEntity → String
unfolding i64_text
object_symbol_key decimal_text (ValueOrEntity.entity e) = append "entity:" e
object_symbol_key decimal_text (ValueOrEntity.value (GraphValue.entity e)) = append "entity:" e
object_symbol_key decimal_text (ValueOrEntity.value (GraphValue.text t)) = append "text:" t
object_symbol_key decimal_text (ValueOrEntity.value (GraphValue.integer i)) =
    append "int:" (i64_text i)
object_symbol_key decimal_text (ValueOrEntity.value (GraphValue.decimal d)) =
    append "decimal:" (decimal_text d)
object_symbol_key decimal_text (ValueOrEntity.value (GraphValue.boolean b)) =
    append "bool:" (bool_text b)
object_symbol_key decimal_text (ValueOrEntity.value (GraphValue.time t)) =
    append "time:" (i64_text t)
object_symbol_key decimal_text (ValueOrEntity.value GraphValue.null) = "null"

unfoldable pub context_key : KernelContextScope → String
context_key KernelContextScope.global = "global"
context_key (KernelContextScope.named name) = append "named:" name

-- the end of an interval as a column holds it: `OPEN_INTERVAL_END` for none
abbrev pub column_end : Option ℤ → ℤ
column_end none = pos i64_max
column_end (some t) = t

abbrev same_ids : List SourceId → List SourceId → Bool
same_ids [] [] = true
same_ids (x ∷ xs) (y ∷ ys) = if x == y then same_ids xs ys else false
same_ids _ _ = false

abbrev source_ids : List SourceRef → List SourceId
source_ids refs = map (λ (r : SourceRef). r.source_id) refs

-- `intern_source_set`
unfoldable pub intern_source_set : PhysicalGraphStore → List SourceRef → PhysicalGraphStore × Symbol
unfolding position_from
intern_source_set s refs =
    let ids = sort_dedup (source_ids refs) in
    elim (position_from 0 (same_ids ids) s.source_sets) [
      | some index ↦ (s, u32 index)
      | none ↦
          let sets = s.source_sets ++ ids ∷ [] in
          (
            record s {
              source_sets = sets;
              sidecar = record s.sidecar { source_sets = length sets };
            },
            u32 (length sets - 1),
          )
    ]

-- what an atom puts at the end of the columns
unfoldable pub push_columns :
    ColumnarAtomStore → RealityAtom → Symbol → Symbol → Symbol → Symbol → Symbol → ColumnarAtomStore
push_columns c a subject predicate object context sources = record {
  atom_ids = c.atom_ids ++ a.id ∷ [];
  subject_ids = c.subject_ids ++ subject ∷ [];
  predicate_ids = c.predicate_ids ++ predicate ∷ [];
  object_ids = c.object_ids ++ object ∷ [];
  valid_from = c.valid_from ++ a.valid_time.start ∷ [];
  valid_to = c.valid_to ++ column_end a.valid_time.end ∷ [];
  tx_from = c.tx_from ++ a.transaction_time.start ∷ [];
  tx_to = c.tx_to ++ column_end a.transaction_time.end ∷ [];
  confidence = c.confidence ++ a.confidence.bits ∷ [];
  belief_state = c.belief_state ++ a.belief_state ∷ [];
  context_ids = c.context_ids ++ context ∷ [];
  source_set_ids = c.source_set_ids ++ sources ∷ [];
}

-- An index by symbol: the symbols of the keys, and the ordinals under each symbol.
abbrev pub SymbolIndex {ℓ} : Type ℓ → Type ℓ
SymbolIndex K = BTreeMap K Symbol × BTreeMap Symbol CandidateBitmap

-- the loop over the sources of an atom
unfoldable pub push_sources :
    SymbolIndex SourceId → List SourceRef → AtomOrdinal → SymbolIndex SourceId
push_sources index [] ordinal = index
push_sources (symbols, postings) (r ∷ refs) ordinal =
    let (symbols', symbol) = intern_symbol symbols r.source_id in
    push_sources (symbols', push_candidate_index postings symbol ordinal) refs ordinal

-- the loop over the contradictions of an atom
unfoldable pub push_contradictions :
    BTreeMap String CandidateBitmap → List AtomId → AtomOrdinal → BTreeMap String CandidateBitmap
push_contradictions clusters [] ordinal = clusters
push_contradictions clusters (id ∷ ids) ordinal =
    push_contradictions (push_candidate_index clusters id ordinal) ids ordinal

-- the ordinals of the dependencies that are in the store
unfoldable pub known_ordinals : List AtomId → List AtomId → List AtomOrdinal
unfolding position_from
known_ordinals stored [] = []
known_ordinals stored (id ∷ ids) = elim (position_from 0 (λ i. i == id) stored) [
  | none ↦ known_ordinals stored ids
  | some index ↦ u32 index ∷ known_ordinals stored ids
]

abbrev push_dependencies :
    BTreeMap AtomOrdinal CandidateBitmap
    → AtomOrdinal
    → List AtomId
    → List AtomId
    → BTreeMap AtomOrdinal CandidateBitmap
push_dependencies index ordinal stored dependencies =
    if is_empty dependencies
    then index
    else insert index ordinal (record {
      ordinals = (get_or (get index ordinal) empty).ordinals ++ known_ordinals stored dependencies;
    })

unfoldable pub push_atom : (ℕ → String) → PhysicalGraphStore → RealityAtom → PhysicalGraphStore
push_atom decimal_text s a =
    let ordinal = u32 (length s.columnar.atom_ids) in
    let (entities, subject) = intern_symbol s.entity_symbols a.subject in
    let (predicates, predicate) = intern_symbol s.predicate_symbols a.predicate in
    let (objects, object) =
      intern_symbol s.object_symbols (object_symbol_key decimal_text a.object) in
    let (contexts, context) = intern_symbol s.context_symbols (context_key a.context) in
    let (interned, sources) = intern_source_set s a.source_refs in
    let columns = push_columns s.columnar a subject predicate object context sources in
    let (source_symbols, by_source) =
      push_sources (s.source_symbols, s.atoms_by_source) a.source_refs ordinal in
    record interned {
      atoms = s.atoms ++ a ∷ [];
      columnar = columns;
      entity_symbols = entities;
      predicate_symbols = predicates;
      object_symbols = objects;
      source_symbols = source_symbols;
      context_symbols = contexts;
      outgoing_by_subject = push_candidate_index s.outgoing_by_subject subject ordinal;
      incoming_by_object = push_candidate_index s.incoming_by_object object ordinal;
      atoms_by_predicate = push_candidate_index s.atoms_by_predicate predicate ordinal;
      atoms_by_source = by_source;
      valid_start_index = push_candidate_index s.valid_start_index a.valid_time.start ordinal;
      tx_start_index = push_candidate_index s.tx_start_index a.transaction_time.start ordinal;
      trie_spo =
          push_candidate_index s.trie_spo
            (record { subject = subject; predicate = predicate; object = object }) ordinal;
      contradiction_clusters = push_contradictions s.contradiction_clusters a.contradicts ordinal;
      dependency_atoms =
          push_dependencies s.dependency_atoms ordinal columns.atom_ids a.dependencies;
      hot_working_set = record { ordinals = s.hot_working_set.ordinals ++ ordinal ∷ [] };
    }

-- `iter().min()` and `iter().max()`: of equal items the first and the last
unfoldable pub minimum : List ℤ → Option ℤ
minimum [] = none
minimum (t ∷ ts) = elim (minimum ts) [ none ↦ some t | some u ↦ if lt u t then some u else some t ]

unfoldable pub maximum : List ℤ → Option ℤ
maximum [] = none
maximum (t ∷ ts) = elim (maximum ts) [ none ↦ some t | some u ↦ if lt u t then some t else some u ]

abbrev pub segment_of : Option ℤ → Option ℤ → List ColdHistoricalSegmentDescriptor
segment_of (some first) (some last) =
    record { segment_id = "segment-0000"; min_tx = first; max_tx = last } ∷ []
segment_of _ _ = []

unfoldable pub finalize_indexes : PhysicalGraphStore → PhysicalGraphStore
finalize_indexes s = record s {
  outgoing_by_subject = compact_candidate_map s.outgoing_by_subject;
  incoming_by_object = compact_candidate_map s.incoming_by_object;
  atoms_by_predicate = compact_candidate_map s.atoms_by_predicate;
  atoms_by_source = compact_candidate_map s.atoms_by_source;
  valid_start_index = compact_candidate_map s.valid_start_index;
  tx_start_index = compact_candidate_map s.tx_start_index;
  trie_spo = compact_candidate_map s.trie_spo;
  contradiction_clusters = compact_candidate_map s.contradiction_clusters;
  dependency_atoms = compact_candidate_map s.dependency_atoms;
  hot_working_set = from_unsorted s.hot_working_set.ordinals;
  cold_segments =
      s.cold_segments ++ segment_of (minimum s.columnar.tx_from) (maximum s.columnar.tx_from);
}

unfoldable pub push_atoms :
    (ℕ → String) → PhysicalGraphStore → List RealityAtom → PhysicalGraphStore
push_atoms decimal_text s [] = s
push_atoms decimal_text s (a ∷ atoms) = push_atoms decimal_text (push_atom decimal_text s a) atoms

-- `sort_atoms`
unfoldable pub sort_atoms : List RealityAtom → List RealityAtom
sort_atoms atoms = sort_by (λ (a b : RealityAtom). cmp a.id b.id) atoms

unfoldable pub from_atoms : (ℕ → String) → List RealityAtom → PhysicalGraphStore
from_atoms decimal_text atoms =
    let sorted = sort_atoms atoms in
    finalize_indexes (
      push_atoms decimal_text
        (record empty_store {
          snapshot = record { format = "rg-kernel-columnar-v1"; atom_count = length sorted };
          sidecar = record { source_sets = 0; external_vectors = true };
        })
        sorted)
