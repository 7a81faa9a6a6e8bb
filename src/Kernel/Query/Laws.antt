-- ===== src/Kernel/Query/Laws.antt =====
-- crates/rg-kernel/src/lib.rs: which atoms a question on two times shows.
use mathlib.Core.List.{Memᴰ, append-nil, append_assoc}
use hotgraph.Prelude.{
  ℕ, List, [], ◌∷◌, ◌++◌, map, some, Bool, true, ◌&&◌, ◌||◌, not, ◌==◌, string_ord, ◌≡◌, refl, ◌∙◌,
  sym, ap, subst, arith, ◌↔◌, cmp,
}
use hotgraph.Prelude.Lists.{filter}
use hotgraph.Prelude.Map.{values, get_or}
use hotgraph.Prelude.Members.{Memᴰ-map, map-Memᴰ, Memᴰ-sort_by, Memᴰ-filter, filter-Memᴰ}
use hotgraph.Core.Types.{ValidTime, TxTime}
use hotgraph.Kernel.Atom.{EntityRef, RealityAtom, is_visible_at, is_supported_for_ai}
use hotgraph.Kernel.Physical.Push.{sort_atoms}
use hotgraph.Kernel.Store.{RealityKernel, belief_at}
use hotgraph.Kernel.Query.{
  BitemporalTruth, BitemporalQuestion, RealityQuery, RealityQueryResult, truth_at,
  with_historical_belief, visible_atoms, part_atoms, execute_entity_state, execute,
}

abbrev pub is_shown : Bool → RealityAtom → Bool
is_shown ai_facing a = not ai_facing || is_supported_for_ai a

abbrev pub is_withheld : Bool → RealityAtom → Bool
is_withheld ai_facing a = ai_facing && not (is_supported_for_ai a)

part_atoms_lem :
    (ai_facing : Bool) (atoms shown unsupported : List RealityAtom)
    → part_atoms ai_facing atoms (shown, unsupported) ≡ (
      shown ++ filter (is_shown ai_facing) atoms,
      unsupported ++ filter (is_withheld ai_facing) atoms,
    )
unfolding part_atoms filter
part_atoms_lem ai_facing [] shown unsupported =
    ap (λ s. (s, unsupported)) (sym (append-nil shown))
    ∙ ap (λ u. (shown ++ [], u)) (sym (append-nil unsupported))
part_atoms_lem ai_facing (a ∷ atoms) shown unsupported = ground (
  arith,
  part_atoms_lem ai_facing atoms shown unsupported,
  part_atoms_lem ai_facing atoms (shown ++ a ∷ []) unsupported,
  part_atoms_lem ai_facing atoms shown (unsupported ++ a ∷ []),
  append_assoc shown (a ∷ []) (filter (is_shown ai_facing) atoms),
  append_assoc unsupported (a ∷ []) (filter (is_withheld ai_facing) atoms),
)

sorted_filter_iff :
    (p : RealityAtom → Bool) (atoms : List RealityAtom) (a : RealityAtom)
    → Memᴰ a (sort_atoms (filter p atoms)) ↔ (Memᴰ a atoms × (p a ≡ true))
unfolding sort_atoms
sorted_filter_iff p atoms a =
    let sorted = Memᴰ-sort_by (λ (b c : RealityAtom). cmp b.id c.id) (filter p atoms) a in
    (λ m. Memᴰ-filter p atoms a (sorted.0 m), λ (m, h). sorted.1 (filter-Memᴰ p atoms a m h))

module _ (k : RealityKernel) (entity : EntityRef) (truth : BitemporalTruth) where
  -- The atom is one of the store about the entity and visible at the two times, with the belief
  -- that the store had in it at the transaction time.
  abbrev pub IsHistorical : RealityAtom → Type 0
  IsHistorical a =
      (b : RealityAtom) × Memᴰ b (values k.atoms)
      × ((b.subject == entity && is_visible_at b truth.valid_at truth.known_at) ≡ true)
      × (a ≡ record b { belief_state = get_or (belief_at k b.id truth.known_at) b.belief_state })

  visible_atoms_iff : (a : RealityAtom) → Memᴰ a (visible_atoms k entity truth) ↔ IsHistorical a
  unfolding visible_atoms with_historical_belief
  visible_atoms_iff a =
      let about : RealityAtom → Bool =
        λ b. b.subject == entity && is_visible_at b truth.valid_at truth.known_at in
      let seen = filter about (values k.atoms) in
      (
        λ m.
            let (b, i, e) = Memᴰ-map (with_historical_belief k truth.known_at) seen a m in
            let (j, h) = Memᴰ-filter about (values k.atoms) b i in (b, j, h, e),
        λ (b, j, h, e).
            subst (λ c. Memᴰ c (map (with_historical_belief k truth.known_at) seen)) (sym e)
              (map-Memᴰ (with_historical_belief k truth.known_at) seen b
                (filter-Memᴰ about (values k.atoms) b j h)),
      )

  listed_iff :
      (p : RealityAtom → Bool) (a : RealityAtom)
      → Memᴰ a (sort_atoms (filter p (visible_atoms k entity truth)))
        ↔ (IsHistorical a × (p a ≡ true))
  listed_iff p a =
      let listed = sorted_filter_iff p (visible_atoms k entity truth) a in
      let seen = visible_atoms_iff a in
      (λ m. let (i, h) = listed.0 m in (seen.0 i, h), λ (i, h). listed.1 (seen.1 i, h))

  execute_entity_state_lem :
      (ai_facing : Bool) (question : BitemporalQuestion) (a : RealityAtom)
      → let r = execute_entity_state k entity truth ai_facing question in
        (Memᴰ a r.atoms ↔ (IsHistorical a × (is_shown ai_facing a ≡ true)))
        × (Memᴰ a r.unsupported_conclusions ↔ (IsHistorical a × (is_withheld ai_facing a ≡ true)))
  unfolding execute_entity_state
  execute_entity_state_lem ai_facing question a =
      subst
        (λ (parts : List RealityAtom × List RealityAtom).
          (Memᴰ a (sort_atoms parts.0) ↔ (IsHistorical a × (is_shown ai_facing a ≡ true)))
          × (Memᴰ a (sort_atoms parts.1) ↔ (IsHistorical a × (is_withheld ai_facing a ≡ true))))
        (sym (part_atoms_lem ai_facing (visible_atoms k entity truth) [] []))
        (listed_iff (is_shown ai_facing) a, listed_iff (is_withheld ai_facing) a)

-- A question on what was believed at two times is answered. An atom of the store about the entity
-- that is visible then, with the belief of the transaction time, is among the atoms of the answer
-- unless the question is asked for an AI that the atom, so believed, does not support; then it is
-- among the unsupported conclusions. Nothing else is in either list.
pub execute_lem :
    (f32_mul : ℕ → ℕ → ℕ) (f32_clamp : ℕ → ℕ) (k : RealityKernel) (entity : EntityRef)
    (valid_at : ValidTime) (believed_at : TxTime) (ai_facing : Bool)
    → (r : RealityQueryResult) × (execute f32_mul f32_clamp k
          (RealityQuery.what_did_we_believe_at entity valid_at believed_at ai_facing)
        ≡ some r)
      × ((a : RealityAtom)
          → (Memᴰ a r.atoms ↔ (
              IsHistorical k entity (record { valid_at = valid_at; known_at = believed_at }) a
              × (is_shown ai_facing a ≡ true)))
            × (Memᴰ a r.unsupported_conclusions ↔ (
                IsHistorical k entity (record { valid_at = valid_at; known_at = believed_at }) a
                × (is_withheld ai_facing a ≡ true))))
unfolding execute
execute_lem f32_mul f32_clamp k entity valid_at believed_at ai_facing =
    let question = BitemporalQuestion.what_did_we_believe_at in
    let truth = truth_at valid_at believed_at in
    (
      execute_entity_state k entity truth ai_facing question,
      refl,
      execute_entity_state_lem k entity truth ai_facing question,
    )
