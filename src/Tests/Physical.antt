-- ===== src/Tests/Physical.antt =====
-- The physical store of two atoms.
use hotgraph.Prelude.{ℕ, String, List, [], ◌∷◌, some, ◌≡◌, refl, arith, string_ord, nat_ord}
use hotgraph.Prelude.Int.{pos}
use hotgraph.Prelude.Lists.{contains, sort_dedup, sort, sort_by, insert_by, dedup, dedup_after}
use hotgraph.Prelude.Map.{get, insert}
use hotgraph.Core.Types.{text}
use hotgraph.Kernel.Atom.{RealityAtom, ValueOrEntity}
use hotgraph.Kernel.Bitmap.{
  AtomOrdinal, CandidateBitmap, from_unsorted, ordinals_from, intersect, intersect_loop,
}
use hotgraph.Kernel.Bitmap as Bitmap
use hotgraph.Kernel.Physical.Push.{
  intern_symbol, push_candidate_index, compact_candidate_map, object_symbol_key, context_key,
  intern_source_set, push_columns, push_sources, push_contradictions, known_ordinals, push_atom,
  minimum, maximum, finalize_indexes, push_atoms, sort_atoms, from_atoms,
}
use hotgraph.Kernel.Physical.Lookup.{
  ClaimPattern, outgoing_for_subject, atoms_for_predicate, atoms_for_object,
  candidates_for_claim_pattern, trie_candidates_for_claim, row_in_force, rows_in_force,
  point_in_time_candidates,
}
use hotgraph.Kernel.Physical.Columns.{is_visible_in_columns, at_row}
use hotgraph.Kernel.Physical.Laws.{matches, candidates_for_claim_pattern_lem}
use hotgraph.Kernel.Physical.Search.{trie_candidates_for_claim_lem, point_in_time_candidates_lem}
use hotgraph.Tests.Kernel.{built}

-- a print of decimals
abbrev bits_text : ℕ → String
bits_text n = "0"

abbrev two_atoms : List RealityAtom
two_atoms = built "b" ∷ record (built "a") { subject = "f" } ∷ []

abbrev pattern : ClaimPattern
pattern = record {
  subject = some "e";
  predicate = some "p";
  object = some (ValueOrEntity.value (text "v"));
}

candidates_for_claim_pattern_example :
    contains
      (candidates_for_claim_pattern bits_text (from_atoms bits_text two_atoms) pattern).ordinals
      1
    ≡ at_row (matches bits_text pattern) (sort_atoms two_atoms) 1
candidates_for_claim_pattern_example =
    candidates_for_claim_pattern_lem bits_text two_atoms (omega arith) pattern 1

candidates_run :
    candidates_for_claim_pattern bits_text (from_atoms bits_text two_atoms) pattern
    ≡ record { ordinals = 1 ∷ [] }
unfolding candidates_for_claim_pattern from_atoms finalize_indexes push_atoms push_atom sort_atoms
    intern_symbol push_candidate_index compact_candidate_map object_symbol_key context_key
    intern_source_set push_columns push_sources push_contradictions minimum maximum get insert sort
    sort_by insert_by sort_dedup dedup dedup_after outgoing_for_subject atoms_for_predicate
    atoms_for_object Bitmap.all from_unsorted ordinals_from intersect intersect_loop known_ordinals
candidates_run = refl

trie_candidates_for_claim_example :
    contains
      (trie_candidates_for_claim bits_text (from_atoms bits_text two_atoms) pattern).ordinals
      1
    ≡ contains
        (candidates_for_claim_pattern bits_text (from_atoms bits_text two_atoms) pattern).ordinals
        1
trie_candidates_for_claim_example =
    trie_candidates_for_claim_lem bits_text two_atoms (omega arith) pattern 1

point_in_time_candidates_example :
    (found : CandidateBitmap) × (point_in_time_candidates
        (from_atoms bits_text two_atoms)
        (pos 2)
        (pos 2)
      ≡ some found)
    × ((n : AtomOrdinal)
        → contains found.ordinals n
          ≡ at_row (is_visible_in_columns (pos 2) (pos 2)) (sort_atoms two_atoms) n)
point_in_time_candidates_example =
    point_in_time_candidates_lem bits_text two_atoms (omega arith) (pos 2) (pos 2)

point_in_time_run :
    point_in_time_candidates (from_atoms bits_text two_atoms) (pos 2) (pos 2)
    ≡ some (record { ordinals = 0 ∷ 1 ∷ [] })
unfolding point_in_time_candidates rows_in_force row_in_force from_atoms finalize_indexes push_atoms
    push_atom sort_atoms intern_source_set push_columns sort_by insert_by sort_dedup sort dedup
    dedup_after from_unsorted
point_in_time_run = refl
