-- ===== src/Kernel/Store/Paths/Laws.antt =====
-- crates/rg-kernel/src/lib.rs: the paths that `what_might_happen_next` answers.
use mathlib.Core.List.{Memᴰ}
use hotgraph.Prelude.{
  ℕ, ◌≤◌, List, [], ◌∷◌, some, true, string_ord, ◌≡◌, ◌≢◌, refl, ◌⊎◌, inl, inr, ◌∙◌, sym, ap, subst,
  arith, ◌↔◌,
}
use hotgraph.Prelude.Int.{unit_contains}
use hotgraph.Prelude.Lists.{length, sort_by}
use hotgraph.Prelude.Map.{insert}
use hotgraph.Prelude.Members.{Memᴰ-sort_by}
use hotgraph.Core.Confidence as Confidence
use hotgraph.Core.Types.{EventId}
use hotgraph.Kernel.Dependencies.{one}
use hotgraph.Kernel.Store.{RealityKernel, CausalAtom}
use hotgraph.Kernel.Store.Causal.{at_event}
use hotgraph.Kernel.Views.{BTreeSet}
use hotgraph.Kernel.Store.Walk.{walk_downstream}
use hotgraph.Kernel.Store.Walk.Downstream.{IsTrail, walk_downstream_iff}
use hotgraph.Kernel.Store.Paths.{
  CausalPath, path_with, product, causal_path_from_atoms, causal_paths, compare_shortest_first,
  what_might_happen_next,
}

List-cases :
    (q : List CausalAtom) → (q ≡ []) ⊎ ((x : CausalAtom) × (r : List CausalAtom) × (q ≡ x ∷ r))
List-cases [] = inl refl
List-cases (x ∷ r) = inr (x, r, refl)

-- The confidence of the link is in the unit interval.
abbrev pub IsSure : CausalAtom → Type 0
IsSure x = unit_contains x.confidence.bits ≡ true

abbrev AllSure : List CausalAtom → Type 0
AllSure [] = Unit
AllSure (x ∷ xs) = IsSure x × AllSure xs

one_unit : unit_contains one ≡ true
unfolding unit_contains
one_unit = refl

-- A product of numbers of the unit interval is in it, and clamping keeps it there.
module _ (f32_mul : ℕ → ℕ → ℕ) (f32_clamp : ℕ → ℕ)
    (mul_unit : (x y : ℕ)
      → unit_contains x ≡ true
      → unit_contains y ≡ true
      → unit_contains (f32_mul x y) ≡ true)
    (clamp_unit : (x : ℕ) → unit_contains x ≡ true → unit_contains (f32_clamp x) ≡ true) where
  product_unit :
      (accumulator : ℕ) (xs : List CausalAtom)
      → unit_contains accumulator ≡ true
      → AllSure xs
      → unit_contains (product f32_mul f32_clamp accumulator xs) ≡ true
  unfolding product
  product_unit accumulator [] h _ = h
  product_unit accumulator (x ∷ xs) h (s, all) =
      product_unit (f32_mul accumulator x.confidence.bits) xs
        (mul_unit accumulator x.confidence.bits h s) all

  -- A path of links is made of these links.
  path_made :
      (x : CausalAtom) (xs : List CausalAtom)
      → AllSure (x ∷ xs)
      → (p : CausalPath) × (causal_path_from_atoms f32_mul f32_clamp (x ∷ xs) ≡ some p)
        × (p.atoms ≡ x ∷ xs)
  unfolding causal_path_from_atoms Confidence.new
  path_made x xs all =
      let total = product f32_mul f32_clamp one (x ∷ xs) in
      let fine : unit_contains (f32_clamp total) ≡ true =
        clamp_unit total (product_unit one (x ∷ xs) one_unit all) in
      (path_with x xs (record { bits = f32_clamp total }), ground (arith, fine), refl)

  causal_paths_made :
      (qs : List (List CausalAtom))
      → ((q : List CausalAtom)
          → Memᴰ q qs
          → (p : CausalPath) × (causal_path_from_atoms f32_mul f32_clamp q ≡ some p)
            × (p.atoms ≡ q))
      → (paths : List CausalPath) × (causal_paths f32_mul f32_clamp qs ≡ some paths)
        × ((q : List CausalAtom) → ((p : CausalPath) × Memᴰ p paths × (p.atoms ≡ q)) ↔ Memᴰ q qs)
  unfolding causal_paths
  causal_paths_made [] made = ([], refl, λ q. (λ (p, m, e). elim m [ ], λ m. elim m [ ]))
  causal_paths_made (r ∷ qs) made =
      let (p, e, same) = made r (Memᴰ.head refl) in
      let (paths, f, exact) = causal_paths_made qs (λ q m. made q (Memᴰ.tail m)) in
      (
        p ∷ paths,
        ground (arith, e, f),
        λ q. (
          λ (t, m, h). elim m [
            | Memᴰ.head g ↦ Memᴰ.head (sym h ∙ ap (λ (u : CausalPath). u.atoms) g ∙ same)
            | Memᴰ.tail i ↦ Memᴰ.tail ((exact q).0 (t, i, h))
          ],
          λ m. elim m [
            | Memᴰ.head g ↦ (p, Memᴰ.head refl, same ∙ sym g)
            | Memᴰ.tail i ↦ let (t, j, h) = (exact q).1 i in (t, Memᴰ.tail j, h)
          ],
        ),
      )

  trail-AllSure :
      (k : RealityKernel) (visited : BTreeSet EventId) (e : EventId) (q : List CausalAtom)
      → ((i : EventId) (x : CausalAtom) → Memᴰ x (at_event k.causal_outgoing i) → IsSure x)
      → IsTrail k visited e q
      → AllSure q
  trail-AllSure k visited e [] sure t = tt
  trail-AllSure k visited e (x ∷ q) sure (fresh, m, t) =
      (sure e x m, trail-AllSure k (insert visited e tt) x.effect q sure t)

  -- When the confidences of the links of the store are in the unit interval, the question is
  -- answered without a panic, and the answer holds exactly the chains of at least one and at most
  -- `max_depth` links from the event that leave no event twice.
  pub what_might_happen_next_lem :
      (k : RealityKernel) (e : EventId) (max_depth : ℕ)
      → ((i : EventId) (x : CausalAtom) → Memᴰ x (at_event k.causal_outgoing i) → IsSure x)
      → (paths : List CausalPath) × (what_might_happen_next f32_mul f32_clamp k e max_depth
          ≡ some paths)
        × ((q : List CausalAtom)
            → ((p : CausalPath) × Memᴰ p paths × (p.atoms ≡ q))
              ↔ ((q ≢ []) × (length q ≤ max_depth) × IsTrail k [] e q))
  unfolding what_might_happen_next
  what_might_happen_next_lem k e max_depth sure =
      let walk = walk_downstream_iff k max_depth e in
      let (paths, f, exact) = causal_paths_made (walk_downstream k max_depth e [] []) λ q m.
        let (x, p, h, small, t) = (walk q).0 m in
        let (made, g, same) =
          path_made x p (trail-AllSure k [] e (x ∷ p) sure (subst (IsTrail k [] e) h t)) in
        (
          made,
          subst (λ r. causal_path_from_atoms f32_mul f32_clamp r ≡ some made) (sym h) g,
          same ∙ sym h,
        ) in
      let sorted = Memᴰ-sort_by compare_shortest_first paths in
      (
        sort_by compare_shortest_first paths,
        ground (arith, f),
        λ q. (
          λ (p, m, h).
              let (x, r, g, small, t) = (walk q).0 ((exact q).0 (p, (sorted p).0 m, h)) in
              (λ empty. ground (arith, empty, g), small, t),
          λ (filled, small, t). elim (List-cases q) [
            | inl empty ↦ ground (arith, filled empty)
            | inr (x, r, g) ↦
                let (p, m, h) = (exact q).1 ((walk q).1 (x, r, g, small, t)) in
                (p, (sorted p).1 m, h)
          ],
        ),
      )
