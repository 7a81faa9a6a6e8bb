-- ===== src/Kernel/Physical/Columns.antt =====
-- crates/rg-kernel/src/lib.rs: the columns of the store, row by row, and the search by time.
use hotgraph.Prelude.{
  ℕ, zero, suc, ◌+◌, ◌<◌, ◌≤◌, ◌≡◌, refl, ◌∙◌, ap, List, [], ◌∷◌, ◌++◌, map, Option, none, some,
  Bool, true, false, ◌&&◌, ◌||◌, lt, ◌==◌, nat_ord, arith, Bool-cases, inl, inr, ltb, leb, ◌%◌,
}
use hotgraph.Prelude.Int.{ℤ, pos, ℤ_ord, i64_max}
use hotgraph.Prelude.Map.{is_some}
use hotgraph.Prelude.Arrays.{
  get_elem?, get_elem?-snoc, get_elem?-none, get_elem?-some, get_elem?-map, map-snoc,
}
use hotgraph.Prelude.Lists.{length, length-append, contains, contains-sort_dedup}
use hotgraph.Core.Interval
use hotgraph.Core.Types.{ValidTime, TxTime}
use hotgraph.Kernel.Atom.{AtomId, RealityAtom, is_visible_at}
use hotgraph.Kernel.Bitmap.{AtomOrdinal, from_unsorted, ordinals_from}
use hotgraph.Kernel.Bitmap as Bitmap
use hotgraph.Kernel.Physical.{Symbol, ColumnarAtomStore, is_dense}
use hotgraph.Kernel.Physical.Push.{column_end, push_columns}
use hotgraph.Kernel.Physical.Lookup.{row_in_force, rows_in_force}

-- The test holds of the atom in a row; of a row that is not there it does not.
abbrev pub at_row : (RealityAtom → Bool) → List RealityAtom → AtomOrdinal → Bool
at_row p atoms n = elim (get_elem? atoms n) [ none ↦ false | some a ↦ p a ]

pub at_row-snoc :
    (p : RealityAtom → Bool) (atoms : List RealityAtom) (a : RealityAtom) (n : AtomOrdinal)
    → at_row p (atoms ++ a ∷ []) n ≡ (at_row p atoms n || (p a && length atoms == n))
at_row-snoc p atoms a n = ground (arith, get_elem?-snoc atoms a n, get_elem?-none atoms n)

abbrev id_of : RealityAtom → AtomId
id_of a = a.id

abbrev valid_start : RealityAtom → ℤ
valid_start a = a.valid_time.start

abbrev valid_end : RealityAtom → ℤ
valid_end a = column_end a.valid_time.end

abbrev tx_start : RealityAtom → ℤ
tx_start a = a.transaction_time.start

abbrev tx_end : RealityAtom → ℤ
tx_end a = column_end a.transaction_time.end

-- The columns that are read back hold a part of each atom in its row, and all are as long.
pub record IsColumns (c : ColumnarAtomStore) (atoms : List RealityAtom) : Type 0 where
  pub ids : c.atom_ids ≡ map id_of atoms
  pub valid_from : c.valid_from ≡ map valid_start atoms
  pub valid_to : c.valid_to ≡ map valid_end atoms
  pub tx_from : c.tx_from ≡ map tx_start atoms
  pub tx_to : c.tx_to ≡ map tx_end atoms
  pub dense : is_dense c ≡ true

column-snoc {ℓ} :
    {B : Type ℓ} (f : RealityAtom → B) (column : List B) (atoms : List RealityAtom)
    (a : RealityAtom)
    → column ≡ map f atoms
    → column ++ f a ∷ [] ≡ map f (atoms ++ a ∷ [])
column-snoc f column atoms a h = ap (λ c. c ++ f a ∷ []) h ∙ map-snoc f atoms a

length-snoc {ℓ} : {B : Type ℓ} (xs : List B) (x : B) → length (xs ++ x ∷ []) ≡ suc (length xs)
length-snoc xs x = omega (arith, length-append {ℓ} xs (x ∷ []))

pub push_columns-IsColumns :
    (c : ColumnarAtomStore) (atoms : List RealityAtom) (a : RealityAtom)
    (subject predicate object context sources : Symbol)
    → IsColumns c atoms
    → IsColumns (push_columns c a subject predicate object context sources) (atoms ++ a ∷ [])
unfolding push_columns is_dense
push_columns-IsColumns c atoms a subject predicate object context sources h = record {
  ids = column-snoc id_of c.atom_ids atoms a h.ids;
  valid_from = column-snoc valid_start c.valid_from atoms a h.valid_from;
  valid_to = column-snoc valid_end c.valid_to atoms a h.valid_to;
  tx_from = column-snoc tx_start c.tx_from atoms a h.tx_from;
  tx_to = column-snoc tx_end c.tx_to atoms a h.tx_to;
  dense = ground (
    arith,
    h.dense,
    length-snoc c.atom_ids a.id,
    length-snoc c.subject_ids subject,
    length-snoc c.predicate_ids predicate,
    length-snoc c.object_ids object,
    length-snoc c.valid_from a.valid_time.start,
    length-snoc c.valid_to (column_end a.valid_time.end),
    length-snoc c.tx_from a.transaction_time.start,
    length-snoc c.tx_to (column_end a.transaction_time.end),
    length-snoc c.confidence a.confidence.bits,
    length-snoc c.belief_state a.belief_state,
    length-snoc c.context_ids context,
    length-snoc c.source_set_ids sources,
  );
}

-- The interval has an end, or the time is below the one that stands for no end.
abbrev pub is_below_open_end {ℓ} : {T : Type ℓ} → Option T → ℤ → Bool
is_below_open_end end t = is_some end || lt t (pos i64_max)

-- The atom is visible, and neither time is the largest `i64` while that interval is open.
abbrev pub is_visible_in_columns : ValidTime → TxTime → RealityAtom → Bool
is_visible_in_columns valid_at known_at a =
    is_visible_at a valid_at known_at
    && (is_below_open_end a.valid_time.end valid_at
        && is_below_open_end a.transaction_time.end known_at)

module _ (valid_at : ValidTime) (known_at : TxTime) where
  module _ (c : ColumnarAtomStore) (atoms : List RealityAtom) (h : IsColumns c atoms) where
    row_in_force_lem :
        (n : ℕ) (a : RealityAtom)
        → get_elem? atoms n ≡ some a
        → row_in_force c valid_at known_at n ≡ some (is_visible_in_columns valid_at known_at a)
    unfolding row_in_force is_visible_at Interval.contains
    row_in_force_lem n a there = ground (
      arith,
      h.valid_from,
      h.valid_to,
      h.tx_from,
      h.tx_to,
      get_elem?-map valid_start atoms n,
      get_elem?-map valid_end atoms n,
      get_elem?-map tx_start atoms n,
      get_elem?-map tx_end atoms n,
    )

    pub rows_in_force_lem :
        (row n : ℕ)
        → row + n ≡ length atoms
        → length atoms < 4294967296
        → (rows : List AtomOrdinal) × (rows_in_force c valid_at known_at row n ≡ some rows)
          × ((m : AtomOrdinal)
              → contains rows m
                ≡ (leb row m && at_row (is_visible_in_columns valid_at known_at) atoms m))
    unfolding rows_in_force contains
    rows_in_force_lem row zero e room = ([], refl, λ m. ground (arith, get_elem?-none atoms m))
    rows_in_force_lem row (suc n) e room =
        let (rows, found, exact) = rows_in_force_lem (suc row) n (omega arith) room in
        let (a, there) = get_elem?-some atoms row (omega arith) in
        let here = row_in_force_lem row a there in
        elim (Bool-cases (is_visible_in_columns valid_at known_at a)) [
          | inl seen ↦ (row % 4294967296 ∷ rows, ground arith, λ m. ground (arith, exact m))
          | inr hidden ↦ (rows, ground arith, λ m. ground (arith, exact m))
        ]

-- All the ordinals below the count.
contains-ordinals_from :
    (start n m : ℕ)
    → start + n ≤ 4294967296
    → contains (ordinals_from start n) m ≡ (leb start m && ltb m (start + n))
unfolding ordinals_from contains
contains-ordinals_from start zero m room = ground arith
contains-ordinals_from start (suc n) m room =
    ground (arith, contains-ordinals_from (suc start) n m (omega arith))

pub contains-all :
    (count m : ℕ) → count ≤ 4294967296 → contains (Bitmap.all count).ordinals m ≡ ltb m count
unfolding Bitmap.all from_unsorted
contains-all count m room =
    contains-sort_dedup (ordinals_from 0 count) m ∙ ground (arith, contains-ordinals_from 0 count m)
