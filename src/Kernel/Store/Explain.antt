-- ===== src/Kernel/Store/Explain.antt =====
-- crates/rg-kernel/src/lib.rs: `explain_conflict`, the conflicts of the store that name an atom.
use mathlib.Core.List.{Memᴰ}
use Prim.Native.String.{◌++◌ as append}
use hotgraph.Prelude.{
  ◌≡◌, refl, sym, ◌∙◌, ap, subst, ◌↔◌, ◌⊎◌, inl, inr, List, [], ◌∷◌, ◌++◌, Ordering, cmp, Bool,
  true, string_ord, arith,
}
use hotgraph.Prelude.Lists.{contains, filter, sort_by}
use hotgraph.Prelude.Members.{
  Memᴰ-left, Memᴰ-right, Memᴰ-append_cases, Memᴰ-sort_by, Memᴰ-filter, filter-Memᴰ,
}
use hotgraph.Kernel.Atom.{AtomId}
use hotgraph.Kernel.Belief.{ConflictSet}
use hotgraph.Kernel.Node.{contradicted_by}
use hotgraph.Kernel.Store.{
  RealityKernel, link_atoms, disputed_in, dispute_members, link_conflicts_from, link_conflicts,
  add_conflict,
}

abbrev pub names_atom : AtomId → ConflictSet → Bool
names_atom id c = contains c.atom_ids id

abbrev pub compare_conflicts : ConflictSet → ConflictSet → Ordering
compare_conflicts a b = cmp a.id b.id

unfoldable pub explain_conflict : RealityKernel → AtomId → List ConflictSet
explain_conflict k id = sort_by compare_conflicts (filter (names_atom id) k.conflicts)

-- The explained conflicts of a store are those that name the atom.
explain_conflict_iff :
    (k : RealityKernel) (id : AtomId) (x : ConflictSet)
    → Memᴰ x (explain_conflict k id) ↔ (Memᴰ x k.conflicts × (names_atom id x ≡ true))
unfolding explain_conflict
explain_conflict_iff k id x =
    let s = Memᴰ-sort_by compare_conflicts (filter (names_atom id) k.conflicts) x in
    (
      λ m. Memᴰ-filter (names_atom id) k.conflicts x (s.0 m),
      λ (m, h). s.1 (filter-Memᴰ (names_atom id) k.conflicts x m h),
    )

conflicts-dispute_members :
    (k : RealityKernel) (members ids : List AtomId)
    → (dispute_members k members ids).conflicts ≡ k.conflicts
unfolding dispute_members
conflicts-dispute_members k members [] = refl
conflicts-dispute_members k members (i ∷ ids) =
    conflicts-dispute_members (disputed_in k members i) members ids ∙ ground arith

conflicts-link_conflicts_from :
    (k : RealityKernel) (from : AtomId) (ids : List AtomId)
    → (link_conflicts_from k from ids).conflicts ≡ k.conflicts
unfolding link_conflicts_from
conflicts-link_conflicts_from k from [] = refl
conflicts-link_conflicts_from k from (to ∷ ids) =
    conflicts-link_conflicts_from
      (link_atoms k from to contradicted_by (append from (append " conflicts with " to))) from ids

conflicts-link_conflicts :
    (k : RealityKernel) (members ids : List AtomId)
    → (link_conflicts k members ids).conflicts ≡ k.conflicts
unfolding link_conflicts
conflicts-link_conflicts k members [] = refl
conflicts-link_conflicts k members (from ∷ ids) =
    conflicts-link_conflicts (link_conflicts_from k from _) members ids
    ∙ conflicts-link_conflicts_from k from _

pub conflicts-add_conflict :
    (k : RealityKernel) (c : ConflictSet) → (add_conflict k c).conflicts ≡ k.conflicts ++ c ∷ []
unfolding add_conflict
conflicts-add_conflict k c =
    ap (λ cs. cs ++ c ∷ [])
      (conflicts-link_conflicts (dispute_members k c.atom_ids c.atom_ids) c.atom_ids c.atom_ids
        ∙ conflicts-dispute_members k c.atom_ids c.atom_ids)

only_conflict : (c x : ConflictSet) → Memᴰ x (c ∷ []) → x ≡ c
only_conflict c x (Memᴰ.head e) = e
only_conflict c x (Memᴰ.tail m) = elim m [ ]

-- Once a conflict is added, `explain_conflict` of an atom gives exactly what it gave before and, if
-- it names the atom, the new conflict.
pub explain-add_conflict :
    (k : RealityKernel) (c x : ConflictSet) (id : AtomId)
    → Memᴰ x (explain_conflict (add_conflict k c) id)
      ↔ (Memᴰ x (explain_conflict k id) ⊎ ((x ≡ c) × (names_atom id c ≡ true)))
explain-add_conflict k c x id = (before, after)
  where
    before :
        Memᴰ x (explain_conflict (add_conflict k c) id)
        → Memᴰ x (explain_conflict k id) ⊎ ((x ≡ c) × (names_atom id c ≡ true))
    before m =
        let (i, h) = (explain_conflict_iff (add_conflict k c) id x).0 m in
        elim (Memᴰ-append_cases k.conflicts (c ∷ [])
          (subst (λ cs. Memᴰ x cs) (conflicts-add_conflict k c) i)) [
            | inl old ↦ inl ((explain_conflict_iff k id x).1 (old, h))
            | inr added ↦
                let e = only_conflict c x added in inr (e, subst (λ y. names_atom id y ≡ true) e h)
          ]

    after :
        Memᴰ x (explain_conflict k id) ⊎ ((x ≡ c) × (names_atom id c ≡ true))
        → Memᴰ x (explain_conflict (add_conflict k c) id)
    after (inl m) =
        let (i, h) = (explain_conflict_iff k id x).0 m in
        (explain_conflict_iff (add_conflict k c) id x).1 (
          subst (λ cs. Memᴰ x cs) (sym (conflicts-add_conflict k c))
              (Memᴰ-left k.conflicts (c ∷ []) i),
          h,
        )
    after (inr (e, h)) = (explain_conflict_iff (add_conflict k c) id x).1 (
      subst (λ cs. Memᴰ x cs) (sym (conflicts-add_conflict k c))
          (Memᴰ-right k.conflicts (c ∷ []) (Memᴰ.head e)),
      subst (λ y. names_atom id y ≡ true) (sym e) h,
    )
