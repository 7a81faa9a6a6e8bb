-- ===== src/Tests/Kernel.antt =====
-- The kernel at concrete atoms and links.
use mathlib.Core.List.{Memᴰ}
use hotgraph.Prelude.{
  List, [], ◌∷◌, none, some, ◌≡◌, ◌↔◌, refl, true, not, lt, string_ord, ok, err, ◌&&◌, ◌||◌,
  if◌then◌else◌, ◌==◌, subst, sym, nat_ord,
}
use hotgraph.Prelude.Int.{pos, ℤ_ord}
use hotgraph.Prelude.Lists.{
  sort_dedup, sort, sort_by, insert_by, dedup, dedup_after, contains, filter, any, All,
}
use hotgraph.Prelude.Sorted.{IsSorted}
use hotgraph.Prelude.Map.{get, insert, contains_key, keys}
use hotgraph.Core.Interval
use hotgraph.Core.Types.{TxTime, text}
use hotgraph.Kernel.Bitmap.{
  AtomOrdinal, CandidateBitmap, from_unsorted, ordinals_from, intersect_loop, intersect, union,
}
use hotgraph.Kernel.Bitmap as Bitmap
use hotgraph.Kernel.Bitmap.Laws.{IsOrdinalSet, set_operations}
use hotgraph.Kernel.Atom.{
  AtomId, accepted, disputed, superseded, ClaimType, ValueOrEntity, RealityAtom, PermissionLabel,
  restricted, missing_provenance, is_visible_at,
}
use hotgraph.Kernel.Atom.Builder.{RealityAtomBuilder, build, IsSound, IsComplete, build_iff}
use hotgraph.Kernel.Atom.Builder
use hotgraph.Kernel.Node.{DependencyNode, atom, answer, node_ord}
use hotgraph.Kernel.Dependencies.{
  DependencyGraph, DependencyStep, InvalidationReport, insert_dependency, add_dependency, visit,
  link_count, transitive_dependents, steps_from, trace, trace_from, invalidate,
}
use hotgraph.Kernel.Dependencies
use hotgraph.Kernel.Dependencies.Visit.{Reach}
use hotgraph.Kernel.Dependencies.Laws.{DependsOn, transitive_dependents_lem}
use hotgraph.Kernel.Dependencies.Report.{IsLinkStep, invalidate_lem}
use hotgraph.Kernel.Belief.{
  ConflictSet, include_disputed, classify, classify_all, current_belief, source_disagreement,
  unresolved,
}
use hotgraph.Kernel.Belief.Laws.{shows, is_accepted, is_rejected, some_visible, current_belief_lem}
use hotgraph.Kernel.Store.{
  RealityKernel, empty_kernel, insert_atom, link_dependencies, supersede_atoms, add_conflict,
  dispute_members, in_conflict, link_conflicts, link_conflicts_from, revise_belief,
  belief_revisions, roll_back, belief_at,
}
use hotgraph.Kernel.Store.Conflicts.Marks.{IsMarked, add_conflict_lem}
use hotgraph.Kernel.Store.Conflicts.{state_of}
use hotgraph.Kernel.Store.Insertion.{superseded_state, insert_atom_lem}
use hotgraph.Kernel.Atom.{self_causation}
use hotgraph.Prelude.{◌⊎◌, ◌++◌}
use hotgraph.Kernel.Store.Explain.{explain_conflict, names_atom, explain-add_conflict}
use hotgraph.Kernel.Store.{CausalAtom}
use hotgraph.Prelude.{arith, eq_iff}
use hotgraph.Kernel.Store.Impact.{
  AtomImpactReport, impact_if_retracted, lists, impact_if_retracted_lem,
}
use hotgraph.Kernel.Store.Causal.{
  IsCausal, IsCausalIndex, validate_causal, insert_causal_atom, insert_causal_atoms,
  causal_atoms_from, insert_causal_atoms-IsCausalIndex, causal_atoms_from_complete,
}
use hotgraph.Kernel.Store.History.{IsChronological, IsBefore, revise_belief_lem}
use hotgraph.Kernel.Store.Permissions.{
  permission_scope_allows, is_summary, leaked, summary_permission_leaks, summary_is_permission_safe,
  atom_visible_with_permissions,
}
use hotgraph.Kernel.Store.Permissions.Laws.{
  IsFlat, IsReached, IsAllowed, is_readable, atom_visible_with_permissions_lem,
}

-- Bitmaps.

abbrev evens : CandidateBitmap
evens = record { ordinals = 0 ∷ 2 ∷ 4 ∷ [] }

abbrev small : CandidateBitmap
small = record { ordinals = 0 ∷ 1 ∷ 2 ∷ [] }

set_operations_example :
    IsOrdinalSet (intersect evens small)
    × IsOrdinalSet (union evens small)
    × ((x : AtomOrdinal)
        → (contains (intersect evens small).ordinals x
            ≡ (contains evens.ordinals x && contains small.ordinals x))
          × (contains (union evens small).ordinals x
              ≡ (contains evens.ordinals x || contains small.ordinals x)))
set_operations_example =
    set_operations evens small ((refl, (refl, tt)), ((refl, tt), (tt, tt)))
      ((refl, (refl, tt)), ((refl, tt), (tt, tt)))

intersect_run : intersect evens small ≡ record { ordinals = 0 ∷ 2 ∷ [] }
unfolding intersect intersect_loop
intersect_run = refl

all_run : Bitmap.all 3 ≡ small
unfolding Bitmap.all from_unsorted ordinals_from sort_dedup sort sort_by insert_by dedup dedup_after
all_run = refl

-- Dependencies: a chain from "a" over "b" to an answer, with a link back.

abbrev pub chain : DependencyGraph
chain =
    add_dependency
      (add_dependency (add_dependency Dependencies.new (atom "a") (atom "b") "ab") (atom "b")
        (answer "q") "bq")
      (atom "b") (atom "a") "ba"

transitive_dependents_example :
    (nodes : List DependencyNode) × (transitive_dependents chain (atom "a") ≡ some nodes)
    × IsSorted nodes
    × ((v : DependencyNode) → (contains nodes v ≡ true) ↔ DependsOn chain (atom "a") v)
transitive_dependents_example = transitive_dependents_lem chain (atom "a")

transitive_dependents_run :
    transitive_dependents chain (atom "a") ≡ some (atom "a" ∷ atom "b" ∷ answer "q" ∷ [])
unfolding transitive_dependents visit link_count add_dependency insert_dependency get insert
    contains_key keys sort sort_by insert_by
transitive_dependents_run = refl

invalidate_example :
    (r : InvalidationReport) × (invalidate chain (atom "a") "gone" ≡ some r)
    × (r.root ≡ atom "a")
    × (r.reason ≡ "gone")
    × ((v : DependencyNode)
        → (contains r.invalidated_nodes v ≡ true) ↔ DependsOn chain (atom "a") v)
    × ((s : DependencyStep)
        → Memᴰ s r.steps ↔ (Reach chain (atom "a" ∷ []) s.from × IsLinkStep chain s))
invalidate_example = invalidate_lem chain (atom "a") "gone"

-- Atoms.

abbrev pub builder : AtomId → RealityAtomBuilder
builder id = record (Builder.new id "e" "p" (ValueOrEntity.value (text "v"))) {
  valid_time = some (record { start = pos 0; end = none });
  transaction_time = some (record { start = pos 1; end = none });
  confidence = some (record { bits = 0x3f800000 });
  belief_state = accepted;
  source_refs = record { source_id = "s"; uri = none; content_hash = none } ∷ [];
  evidence_spans = record { source_id = "s"; start = 0; end = 1; quote = "v" } ∷ [];
}

abbrev pub built : AtomId → RealityAtom
built id =
    Builder.with_times (builder id) (record { start = pos 0; end = none })
      (record { start = pos 1; end = none }) (record { bits = 0x3f800000 })

build_iff_example :
    (build (builder "a") ≡ ok (built "a"))
    ↔ (IsSound (built "a") × IsComplete (builder "a") (built "a"))
build_iff_example = build_iff (builder "a") (built "a")

build_run : build (builder "a") ≡ ok (built "a")
unfolding build
build_run = refl

build_refused : build (record (builder "a") { evidence_spans = [] }) ≡ err missing_provenance
unfolding build
build_refused = refl

abbrev atoms : List RealityAtom
atoms = built "b" ∷ record (built "a") { belief_state = disputed } ∷ []

current_belief_example :
    let v = current_belief atoms (pos 2) (pos 2) include_disputed in
    (contains v.visible_atoms "a" ≡ some_visible atoms (pos 2) (pos 2) (shows include_disputed) "a")
    × (contains v.accepted_atoms "a" ≡ some_visible atoms (pos 2) (pos 2) is_accepted "a")
    × (contains v.rejected_atoms "a" ≡ some_visible atoms (pos 2) (pos 2) is_rejected "a")
current_belief_example = current_belief_lem atoms (pos 2) (pos 2) include_disputed "a"

current_belief_run :
    (current_belief atoms (pos 2) (pos 2) include_disputed).visible_atoms ≡ "a" ∷ "b" ∷ []
unfolding current_belief classify classify_all filter is_visible_at Interval.contains sort_dedup
    sort sort_by insert_by dedup dedup_after
current_belief_run = refl

-- The store.

abbrev pub store : RealityKernel
store = record empty_kernel { atoms = ("a", built "a") ∷ ("b", built "b") ∷ [] }

pub get-store : get store.atoms "a" ≡ some (built "a")
unfolding get
get-store = refl

unrevised : belief_revisions store "a" ≡ []
unfolding belief_revisions get
unrevised = refl

revise_belief_example :
    (after : RealityKernel) × (revise_belief store "a" superseded (pos 5) "newer" ≡ ok after)
    × IsChronological (belief_revisions after "a")
    × ((t : TxTime)
        → belief_at after "a" t ≡ (if lt t (pos 5) then belief_at store "a" t else some superseded))
    × ((j : AtomId) (t : TxTime)
        → belief_at after j t ≡ (if "a" == j then belief_at after "a" t else belief_at store j t))
revise_belief_example =
    revise_belief_lem store "a" (built "a") superseded (pos 5) "newer" get-store
      (subst IsChronological (sym unrevised) tt) (subst (All (IsBefore (pos 5))) (sym unrevised) tt)

abbrev pub clash : ConflictSet
clash = record {
  id = "c";
  atom_ids = "a" ∷ "b" ∷ [];
  conflict_type = source_disagreement;
  status = unresolved;
  explanation = "two sources";
}

add_conflict_example :
    ((add_conflict store clash).conflicts ≡ store.conflicts ++ clash ∷ [])
    × (b : RealityAtom) × (get (add_conflict store clash).atoms "a" ≡ some b)
    × IsMarked clash "a" (built "a") b
add_conflict_example = add_conflict_lem store clash "a" (built "a") get-store

-- The conflict reaches the times before it.
disputed_before : belief_at (add_conflict store clash) "a" (pos 2) ≡ some disputed
unfolding add_conflict dispute_members in_conflict link_conflicts link_conflicts_from belief_at
    roll_back get insert filter any contains insert_dependency
disputed_before = refl

abbrev pub summary : RealityAtom
summary = record (built "z") { claim_type = ClaimType.summary; dependencies = "r" ∷ [] }

abbrev secrets : RealityKernel
secrets = record empty_kernel {
  atoms = ("r", record (built "r") { permissions = restricted }) ∷ ("z", summary) ∷ [];
}

get-secrets : get secrets.atoms "z" ≡ some summary
unfolding get
get-secrets = refl

abbrev readers : List PermissionLabel
readers = PermissionLabel.public ∷ PermissionLabel.internal ∷ []

secrets-IsFlat : IsFlat secrets
unfolding get contains
secrets-IsFlat i d s upstream held p c there = ground (arith, held, p, c, there)

atom_visible_with_permissions_example :
    ((atom_visible_with_permissions secrets summary readers ≡ true) ↔ (
      (id : AtomId) (b : RealityAtom)
      → IsReached secrets "z" id
      → get secrets.atoms id ≡ some b
      → IsAllowed readers b.permissions))
    × ((id : AtomId)
        → contains (summary_permission_leaks secrets "z" readers) id ≡ (
            is_summary summary.claim_type
            && contains summary.dependencies id
            && not (is_readable secrets readers id)))
atom_visible_with_permissions_example =
    atom_visible_with_permissions_lem secrets readers summary get-secrets secrets-IsFlat

-- The check of a summary of the summary does not look as far as "r".
abbrev digest : RealityAtom
digest = record summary { id = "y"; dependencies = "z" ∷ [] }

digest_visible :
    atom_visible_with_permissions
      (record secrets { atoms = ("y", digest) ∷ secrets.atoms })
      digest
      readers
    ≡ true
unfolding atom_visible_with_permissions summary_is_permission_safe summary_permission_leaks leaked
    permission_scope_allows any get sort_dedup sort sort_by insert_by dedup dedup_after
digest_visible = refl

summary_leak : summary_permission_leaks secrets "z" readers ≡ "r" ∷ []
unfolding summary_permission_leaks leaked permission_scope_allows any get sort_dedup sort sort_by
    insert_by dedup dedup_after
summary_leak = refl

-- An atom that supersedes "a" from time 1 on.
abbrev pub newer : RealityAtom
newer = record (built "n") { supersedes = "a" ∷ [] }

insert_atom_example :
    (get (insert_atom store newer).atoms "n" ≡ some newer)
    × (state_of (insert_atom store newer) "a"
        ≡ superseded_state (contains newer.supersedes "a") (state_of store "a"))
    × (belief_at (insert_atom store newer) "a" (pos 0) ≡ belief_at store "a" (pos 0))
insert_atom_example = insert_atom_lem store newer "a" (pos 0) refl refl

superseded_later : belief_at (insert_atom store newer) "a" (pos 1) ≡ some superseded
unfolding insert_atom link_dependencies supersede_atoms belief_at roll_back get insert
    insert_dependency
superseded_later = refl

-- A report on the chain of links above.
impact_if_retracted_example :
    (r : AtomImpactReport) × (impact_if_retracted (record empty_kernel { dependencies = chain }) "a"
      ≡ some r)
    × (r.root ≡ "a")
    × ((v : DependencyNode) → (lists r v ≡ true) ↔ DependsOn chain (atom "a") v)
impact_if_retracted_example =
    impact_if_retracted_lem (record empty_kernel { dependencies = chain }) "a"

-- Causal links.

abbrev pub rain_flood : CausalAtom
rain_flood = record {
  cause = "rain";
  effect = "flood";
  mechanism = none;
  lag = none;
  confidence = record { bits = 0x3f800000 };
  evidence = "s" ∷ [];
  counterfactual_notes = [];
}

abbrev inserted : List CausalAtom
inserted = record rain_flood { effect = "rain" } ∷ rain_flood ∷ []

no_links : IsCausalIndex empty_kernel
unfolding get
no_links = record { from_cause = λ e y m. elim m [ ]; from_effect = λ e y m. elim m [ ] }

insert_causal_atoms-IsCausalIndex_example :
    IsCausalIndex (insert_causal_atoms empty_kernel inserted)
insert_causal_atoms-IsCausalIndex_example =
    insert_causal_atoms-IsCausalIndex empty_kernel inserted no_links

rain_flood-IsCausal : IsCausal rain_flood
rain_flood-IsCausal =
    (λ e. ground (arith, (eq_iff rain_flood.cause rain_flood.effect).1 e), λ e. ground arith)

causal_atoms_from_complete_example :
    Memᴰ rain_flood (causal_atoms_from (insert_causal_atoms empty_kernel inserted) "rain")
causal_atoms_from_complete_example =
    causal_atoms_from_complete empty_kernel inserted rain_flood rain_flood-IsCausal
      (Memᴰ.tail (Memᴰ.head refl))

self_causation_refused :
    insert_causal_atom empty_kernel (record rain_flood { effect = "rain" }) ≡ err self_causation
unfolding insert_causal_atom validate_causal
self_causation_refused = refl

explain-add_conflict_example :
    Memᴰ clash (explain_conflict (add_conflict store clash) "b")
    ↔ (Memᴰ clash (explain_conflict store "b") ⊎ ((clash ≡ clash) × (names_atom "b" clash ≡ true)))
explain-add_conflict_example = explain-add_conflict store clash clash "b"

conflict_explained : explain_conflict (add_conflict store clash) "b" ≡ clash ∷ []
unfolding explain_conflict add_conflict dispute_members in_conflict link_conflicts
    link_conflicts_from get insert filter any contains insert_dependency sort_by insert_by
conflict_explained = refl
