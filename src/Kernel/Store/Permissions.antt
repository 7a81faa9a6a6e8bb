-- ===== src/Kernel/Store/Permissions.antt =====
-- crates/rg-kernel/src/lib.rs: permission labels, and the summaries that leak what they hide.
pub mod Laws
use hotgraph.Prelude.{
  ◌≡◌, refl, sym, subst, ◌∙◌, ◌↔◌, ◌⊎◌, inl, inr, ◌==◌, Bool-cases, Option-cases, List, [], ◌∷◌,
  none, some, eq_iff, if◌then◌else◌, Bool, true, false, not, ◌&&◌, ◌||◌, string_ord, arith,
}
use hotgraph.Prelude.Lists.{
  all, any, contains, is_empty, sort_dedup, contains-sort_dedup, is_empty-sort_dedup,
}
use hotgraph.Prelude.Map.{get}
use hotgraph.Kernel.Atom.{
  AtomId, RealityAtom, ClaimType, PermissionLabel, public, internal, restricted,
}
use hotgraph.Kernel.Store.{RealityKernel}

-- the derived equality of `PermissionLabel`
abbrev pub same_label : PermissionLabel → PermissionLabel → Bool
same_label public public = true
same_label internal internal = true
same_label restricted restricted = true
same_label _ _ = false

unfoldable pub permission_scope_allows : PermissionLabel → List PermissionLabel → Bool
unfolding any
permission_scope_allows label scope = is_empty scope || any (same_label label) scope

abbrev pub is_summary : ClaimType → Bool
is_summary ClaimType.summary = true
is_summary _ = false

-- the `filter_map` over the dependencies of a summary
unfoldable pub leaked : RealityKernel → List PermissionLabel → List AtomId → List AtomId
leaked k scope [] = []
leaked k scope (id ∷ ids) =
    let rest = leaked k scope ids in
    elim (get k.atoms id) [
      | none ↦ rest
      | some upstream ↦
          if permission_scope_allows upstream.permissions scope then rest else id ∷ rest
    ]

unfoldable pub summary_permission_leaks :
    RealityKernel → AtomId → List PermissionLabel → List AtomId
summary_permission_leaks k id scope = elim (get k.atoms id) [
  | none ↦ []
  | some summary ↦
      if is_summary summary.claim_type then sort_dedup (leaked k scope summary.dependencies) else []
]

unfoldable pub summary_is_permission_safe : RealityKernel → AtomId → List PermissionLabel → Bool
summary_is_permission_safe k id scope = is_empty (summary_permission_leaks k id scope)

unfoldable pub atom_visible_with_permissions :
    RealityKernel → RealityAtom → List PermissionLabel → Bool
atom_visible_with_permissions k a scope =
    permission_scope_allows a.permissions scope
    && (not (is_summary a.claim_type) || summary_is_permission_safe k a.id scope)
