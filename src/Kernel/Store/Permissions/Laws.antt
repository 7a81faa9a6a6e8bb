-- ===== src/Kernel/Store/Permissions/Laws.antt =====
-- crates/rg-kernel/src/lib.rs: who sees an atom, and what its summaries leak.
use mathlib.Core.List.{Memᴰ}
use hotgraph.Prelude.{
  ◌≢◌, ◌≡◌, refl, sym, subst, ◌∙◌, ◌↔◌, ◌⊎◌, inl, inr, ◌==◌, Bool-cases, Option-cases, List, [],
  ◌∷◌, none, some, eq_iff, Bool, true, not, ◌&&◌, ◌||◌, string_ord, arith,
}
use hotgraph.Prelude.Lists.{all, contains, is_empty, contains-sort_dedup, is_empty-sort_dedup}
use hotgraph.Prelude.Map.{get}
use hotgraph.Kernel.Atom.{
  AtomId, RealityAtom, ClaimType, PermissionLabel, public, internal, restricted,
}
use hotgraph.Kernel.Store.{RealityKernel}
use hotgraph.Prelude.Members.{any-witness, witness-any}
use hotgraph.Kernel.Store.Permissions.{
  same_label, permission_scope_allows, is_summary, leaked, summary_permission_leaks,
  summary_is_permission_safe, atom_visible_with_permissions,
}

summary_of : (c : ClaimType) → is_summary c ≡ true → c ≡ ClaimType.summary
summary_of ClaimType.summary h = refl
summary_of _ h = ground (arith, h)

-- The empty scope allows every label, another scope those that it lists.
abbrev pub IsAllowed : List PermissionLabel → PermissionLabel → Type 0
IsAllowed scope label = (scope ≡ []) ⊎ Memᴰ label scope

same_label_iff : (a b : PermissionLabel) → (same_label a b ≡ true) ↔ (b ≡ a)
same_label_iff public public = (λ h. refl, λ h. refl)
same_label_iff public internal = (λ h. cc, λ h. cc)
same_label_iff public restricted = (λ h. cc, λ h. cc)
same_label_iff internal public = (λ h. cc, λ h. cc)
same_label_iff internal internal = (λ h. refl, λ h. refl)
same_label_iff internal restricted = (λ h. cc, λ h. cc)
same_label_iff restricted public = (λ h. cc, λ h. cc)
same_label_iff restricted internal = (λ h. cc, λ h. cc)
same_label_iff restricted restricted = (λ h. refl, λ h. refl)

allows_iff :
    (label : PermissionLabel) (scope : List PermissionLabel)
    → (permission_scope_allows label scope ≡ true) ↔ IsAllowed scope label
unfolding permission_scope_allows
allows_iff label [] = (λ h. inl refl, λ h. refl)
allows_iff label (l ∷ scope) = (
  λ h.
      let (x, m, e) = any-witness (same_label label) (l ∷ scope) h in
      inr (subst (λ y. Memᴰ y (l ∷ scope)) ((same_label_iff label x).0 e) m),
  λ h. elim h [
    | inl e ↦ cc
    | inr m ↦
        witness-any (same_label label) (l ∷ scope) label m ((same_label_iff label label).1 refl)
  ],
)

-- The identifier is of no atom of the store, or of one that the scope allows.
abbrev pub is_readable : RealityKernel → List PermissionLabel → AtomId → Bool
is_readable k scope id = elim (get k.atoms id) [
  | none ↦ true
  | some upstream ↦ permission_scope_allows upstream.permissions scope
]

contains-leaked :
    (k : RealityKernel) (scope : List PermissionLabel) (ids : List AtomId) (id : AtomId)
    → contains (leaked k scope ids) id ≡ (contains ids id && not (is_readable k scope id))
unfolding contains leaked
contains-leaked k scope [] id = refl
contains-leaked k scope (i ∷ ids) id = ground (arith, contains-leaked k scope ids id, eq_iff i id)

is_empty-leaked :
    (k : RealityKernel) (scope : List PermissionLabel) (ids : List AtomId)
    → is_empty (leaked k scope ids) ≡ all (is_readable k scope) ids
unfolding all leaked
is_empty-leaked k scope [] = refl
is_empty-leaked k scope (i ∷ ids) = ground (arith, is_empty-leaked k scope ids)

atom_visible_direct :
    (k : RealityKernel) (a : RealityAtom) (scope : List PermissionLabel)
    → get k.atoms a.id ≡ some a
    → atom_visible_with_permissions k a scope ≡ (
        permission_scope_allows a.permissions scope
        && (not (is_summary a.claim_type) || all (is_readable k scope) a.dependencies))
unfolding atom_visible_with_permissions summary_is_permission_safe summary_permission_leaks
atom_visible_direct k a scope h = ground (
  arith,
  is_empty-sort_dedup (leaked k scope a.dependencies),
  is_empty-leaked k scope a.dependencies,
)

contains-summary_permission_leaks :
    (k : RealityKernel) (a : RealityAtom) (scope : List PermissionLabel) (id : AtomId)
    → get k.atoms a.id ≡ some a
    → contains (summary_permission_leaks k a.id scope) id
      ≡ (is_summary a.claim_type && contains a.dependencies id && not (is_readable k scope id))
unfolding summary_permission_leaks contains
contains-summary_permission_leaks k a scope id h = ground (
  arith,
  contains-sort_dedup (leaked k scope a.dependencies) id,
  contains-leaked k scope a.dependencies id,
)

module _ (k : RealityKernel) where
  -- What an atom shows: itself, and through every summary that it shows the dependencies of that.
  pub data IsReached (root : AtomId) : AtomId → Type 0 where
    here : IsReached root root
    through :
        {i d : AtomId} (s : RealityAtom)
        → IsReached root i
        → get k.atoms i ≡ some s
        → s.claim_type ≡ ClaimType.summary
        → contains s.dependencies d ≡ true
        → IsReached root d

  -- No summary of the store is a dependency of a summary.
  abbrev pub IsFlat : Type 0
  IsFlat =
      (i d : AtomId) (s upstream : RealityAtom)
      → get k.atoms i ≡ some s
      → s.claim_type ≡ ClaimType.summary
      → contains s.dependencies d ≡ true
      → get k.atoms d ≡ some upstream
      → upstream.claim_type ≢ ClaimType.summary

  module _ (scope : List PermissionLabel) where
    all_readable :
        (ids : List AtomId)
        → ((d : AtomId) → contains ids d ≡ true → is_readable k scope d ≡ true)
        → all (is_readable k scope) ids ≡ true
    unfolding all contains
    all_readable [] h = refl
    all_readable (i ∷ ids) h =
        ground (
          arith,
          h i (ground (arith, eq_iff i i)),
          all_readable ids (λ d c. h d (ground (arith, c))),
        )

    readable_of_all :
        (ids : List AtomId) (d : AtomId)
        → all (is_readable k scope) ids ≡ true
        → contains ids d ≡ true
        → is_readable k scope d ≡ true
    unfolding all contains
    readable_of_all [] d h c = cc
    readable_of_all (i ∷ ids) d h c = elim (Bool-cases (i == d)) [
      | inl same ↦ ground (arith, h, eq_iff i d)
      | inr other ↦ readable_of_all ids d (ground (arith, h)) (ground (arith, c, other))
    ]

    module _ (a : RealityAtom) (known : get k.atoms a.id ≡ some a) where
      reached_cases :
          (flat : IsFlat) (id : AtomId)
          → IsReached a.id id
          → (id ≡ a.id) ⊎ ((a.claim_type ≡ ClaimType.summary) × (contains a.dependencies id ≡ true))
      reached_cases flat id here = inl refl
      reached_cases flat id (through {i} s r held summary c) = elim (reached_cases flat i r) [
        | inl root ↦
            let e : s ≡ a = ground (arith, held, root, known) in
            inr (
              subst (λ (x : RealityAtom). x.claim_type ≡ ClaimType.summary) e summary,
              subst (λ (x : RealityAtom). contains x.dependencies id ≡ true) e c,
            )
        | inr (p, q) ↦ ground (arith, flat a.id i a s known p q held summary)
      ]

      visible_iff :
          IsFlat
          → (atom_visible_with_permissions k a scope ≡ true) ↔ (
              (id : AtomId) (b : RealityAtom)
              → IsReached a.id id
              → get k.atoms id ≡ some b
              → permission_scope_allows b.permissions scope ≡ true)
      visible_iff flat = (
        λ seen id b r held. elim (reached_cases flat id r) [
          | inl root ↦
              let e : b ≡ a = ground (arith, held, root, known) in
              subst (λ (x : RealityAtom). permission_scope_allows x.permissions scope ≡ true)
                (sym e) (ground (arith, seen, atom_visible_direct k a scope known))
          | inr (p, q) ↦
              let all_of : all (is_readable k scope) a.dependencies ≡ true =
                ground (arith, seen, p, atom_visible_direct k a scope known) in
              ground (arith, readable_of_all a.dependencies id all_of q, held)
        ],
        λ h. atom_visible_direct k a scope known ∙ (elim (Bool-cases (is_summary a.claim_type)) [
          | inl p ↦
              let rest = all_readable a.dependencies (λ d c. elim (Option-cases (get k.atoms d)) [
                | inl missing ↦ ground (arith, missing)
                | inr (b, held) ↦
                    ground
                      (arith, held, h d b (through a here known (summary_of a.claim_type p) c) held)
              ]) in
              ground (arith, p, rest, h a.id a here known)
          | inr p ↦ ground (arith, p, h a.id a here known)
        ]),
      )

      -- In a store in which no summary depends on a summary, a reader with a scope sees an atom
      -- exactly if the scope is empty or has the labels of all that the atom shows: its own and,
      -- through summaries, that of every dependency which the store holds. The leaks of a summary
      -- are exactly its dependencies in the store whose label the scope does not allow.
      pub atom_visible_with_permissions_lem :
          IsFlat
          → ((atom_visible_with_permissions k a scope ≡ true) ↔ (
              (id : AtomId) (b : RealityAtom)
              → IsReached a.id id
              → get k.atoms id ≡ some b
              → IsAllowed scope b.permissions))
            × ((id : AtomId)
                → contains (summary_permission_leaks k a.id scope) id ≡ (
                    is_summary a.claim_type
                    && contains a.dependencies id
                    && not (is_readable k scope id)))
      atom_visible_with_permissions_lem flat =
          let visible = visible_iff flat in
          (
            (
              λ seen id b r held. (allows_iff b.permissions scope).0 (visible.0 seen id b r held),
              λ h. visible.1 (λ id b r held. (allows_iff b.permissions scope).1 (h id b r held)),
            ),
            λ id. contains-summary_permission_leaks k a scope id known,
          )
