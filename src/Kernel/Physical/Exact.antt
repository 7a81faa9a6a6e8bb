-- ===== src/Kernel/Physical/Exact.antt =====
-- crates/rg-kernel/src/lib.rs: the indexes of the store against its atoms, over `push_atom`.
use hotgraph.Prelude.{
  ℕ, ◌<◌, ◌≤◌, ◌≡◌, sym, ◌∙◌, ap, String, List, [], ◌∷◌, ◌++◌, Ord, ◌==◌, nat_ord, string_ord, Bool,
  ◌&&◌, ◌||◌, arith,
}
use hotgraph.Prelude.Arrays.{length-map}
use hotgraph.Prelude.Lists.{length, length-append}
use hotgraph.Prelude.Map.{BTreeMap}
use hotgraph.Core.Types.{PredicateId}
use hotgraph.Kernel.Atom.{RealityAtom, EntityRef}
use hotgraph.Kernel.Bitmap.{AtomOrdinal, CandidateBitmap}
use hotgraph.Kernel.Physical.{Symbol, PhysicalGraphStore, key_ord}
use hotgraph.Kernel.Physical.Push.{
  u32, intern_symbol, push_candidate_index, SymbolIndex, object_symbol_key, push_atom,
}
use hotgraph.Kernel.Physical.Posting.{intern_symbol_lem, IsPosting, IsPosting-push}
use hotgraph.Kernel.Physical.Trie.{IsTrie, IsTrie-push, IsTrie-same}
use hotgraph.Kernel.Physical.Columns.{at_row, at_row-snoc, IsColumns, push_columns-IsColumns}

IsPosting-same {ℓ} :
    {K : Type ℓ} ⦃o : Ord K⦄ (index : SymbolIndex K) (has other : K → AtomOrdinal → Bool)
    → ((k : K) (n : AtomOrdinal) → has k n ≡ other k n)
    → IsPosting index has
    → IsPosting index other
IsPosting-same index has other e h = record {
  symbols = h.symbols;
  fresh = h.fresh;
  exact = λ k n. h.exact k n ∙ e k n;
}

-- The index of a key of the atoms holds the rows of each key.
abbrev pub IsIndexOf {ℓ} :
    {K : Type ℓ} ⦃o : Ord K⦄ → (RealityAtom → K) → SymbolIndex K → List RealityAtom → Type ℓ
IsIndexOf key index atoms = IsPosting index (λ k n. at_row (λ a. key a == k) atoms n)

-- What `push_atom` does to the index of a key.
IsIndexOf-push {ℓ} :
    {K : Type ℓ} ⦃o : Ord K⦄ (key : RealityAtom → K) (symbols : BTreeMap K Symbol)
    (postings : BTreeMap Symbol CandidateBitmap) (atoms : List RealityAtom) (a : RealityAtom)
    → IsIndexOf key (symbols, postings) atoms
    → length symbols < 4294967296
    → let (after, s) = intern_symbol symbols (key a) in
      IsIndexOf key (after, push_candidate_index postings s (length atoms)) (atoms ++ a ∷ [])
IsIndexOf-push key symbols postings atoms a h room =
    let (after, s) = intern_symbol symbols (key a) in
    IsPosting-same (after, push_candidate_index postings s (length atoms))
      (λ k n. at_row (λ b. key b == k) atoms n || (key a == k && length atoms == n))
      (λ k n. at_row (λ b. key b == k) (atoms ++ a ∷ []) n)
      (λ k n. sym (at_row-snoc (λ b. key b == k) atoms a n))
      (IsPosting-push symbols after postings (key a) s (length atoms)
        (λ k n. at_row (λ b. key b == k) atoms n) h
        (intern_symbol_lem symbols (key a) h.symbols room))

abbrev pub subject_of : RealityAtom → EntityRef
subject_of a = a.subject

abbrev pub predicate_of : RealityAtom → PredicateId
predicate_of a = a.predicate

module _ (decimal_text : ℕ → String) where
  abbrev pub object_key_of : RealityAtom → String
  object_key_of a = object_symbol_key decimal_text a.object

  -- The atom has the subject, the predicate and the key of its object.
  abbrev pub is_triple : EntityRef → PredicateId → String → RealityAtom → Bool
  is_triple e p t a = a.subject == e && (a.predicate == p && object_key_of a == t)

  -- The columns and the indexes of the store are those of its atoms.
  pub record IsExact (s : PhysicalGraphStore) : Type 0 where
    pub columns : IsColumns s.columnar s.atoms
    pub subjects : IsIndexOf subject_of (s.entity_symbols, s.outgoing_by_subject) s.atoms
    pub predicates : IsIndexOf predicate_of (s.predicate_symbols, s.atoms_by_predicate) s.atoms
    pub objects : IsIndexOf object_key_of (s.object_symbols, s.incoming_by_object) s.atoms
    pub trie :
        IsTrie s.trie_spo s.entity_symbols s.predicate_symbols s.object_symbols
          (λ e p t n. at_row (is_triple e p t) s.atoms n)
    pub subject_room : length s.entity_symbols ≤ length s.atoms
    pub predicate_room : length s.predicate_symbols ≤ length s.atoms
    pub object_room : length s.object_symbols ≤ length s.atoms

  ordinal_lem :
      (s : PhysicalGraphStore)
      → IsExact s
      → length s.atoms < 4294967296
      → u32 (length s.columnar.atom_ids) ≡ length s.atoms
  ordinal_lem s h room =
      let e : length s.columnar.atom_ids ≡ length s.atoms =
        ap length h.columns.ids ∙ length-map (λ (a : RealityAtom). a.id) s.atoms in
      omega arith

  pub push_atom-IsExact :
      (s : PhysicalGraphStore) (a : RealityAtom)
      → IsExact s
      → length s.atoms < 4294967296
      → IsExact (push_atom decimal_text s a)
  unfolding push_atom
  push_atom-IsExact s a h room =
      let e = ordinal_lem s h room in
      let subject =
        intern_symbol_lem s.entity_symbols a.subject h.subjects.symbols
          (omega (arith, h.subject_room)) in
      let predicate =
        intern_symbol_lem s.predicate_symbols a.predicate h.predicates.symbols
          (omega (arith, h.predicate_room)) in
      let object =
        intern_symbol_lem s.object_symbols (object_key_of a) h.objects.symbols
          (omega (arith, h.object_room)) in
      let grown = length-append {0} s.atoms (a ∷ []) in
      rw e (record {
        columns = push_columns-IsColumns s.columnar s.atoms a _ _ _ _ _ h.columns;
        subjects =
            IsIndexOf-push subject_of s.entity_symbols s.outgoing_by_subject s.atoms a h.subjects
              (omega (arith, h.subject_room));
        predicates =
            IsIndexOf-push predicate_of s.predicate_symbols s.atoms_by_predicate s.atoms a
              h.predicates (omega (arith, h.predicate_room));
        objects =
            IsIndexOf-push object_key_of s.object_symbols s.incoming_by_object s.atoms a h.objects
              (omega (arith, h.object_room));
        trie =
            IsTrie-same _ _ _ _
              (λ f g u m.
                at_row (is_triple f g u) s.atoms m
                || (a.subject == f
                    && (a.predicate == g && object_key_of a == u)
                    && length s.atoms == m))
              (λ f g u m. at_row (is_triple f g u) (s.atoms ++ a ∷ []) m)
              (λ f g u m. sym (at_row-snoc (is_triple f g u) s.atoms a m))
              (IsTrie-push s.trie_spo s.entity_symbols _ s.predicate_symbols _ s.object_symbols _
                a.subject a.predicate (object_key_of a) _ _ _ (length s.atoms)
                (λ f g u m. at_row (is_triple f g u) s.atoms m) h.trie subject predicate object);
        subject_room = omega (arith, grown, subject.by_one, h.subject_room);
        predicate_room = omega (arith, grown, predicate.by_one, h.predicate_room);
        object_room = omega (arith, grown, object.by_one, h.object_room);
      })
