-- ===== src/Kernel/Store/Walk/Downstream.antt =====
-- crates/rg-kernel/src/lib.rs: the paths that `walk_downstream` finds.
use mathlib.Core.List.{Memᴰ, append_assoc}
use hotgraph.Prelude.{
  ℕ, zero, suc, ◌≤◌, List, [], ◌∷◌, ◌++◌, Bool, true, false, if◌then◌else◌, string_ord, ◌≡◌, refl,
  ◌∙◌, sym, subst, arith, inl, inr, ◌↔◌,
}
use hotgraph.Prelude.Lists.{length}
use hotgraph.Prelude.Map.{insert, contains_key}
use hotgraph.Prelude.Members.{Memᴰ-left, Memᴰ-right, Memᴰ-append_cases}
use hotgraph.Core.Types.{EventId}
use hotgraph.Kernel.Store.{RealityKernel, CausalAtom}
use hotgraph.Kernel.Store.Causal.{at_event}
use hotgraph.Kernel.Views.{BTreeSet}
use hotgraph.Kernel.Store.Walk.{push_each, walk_downstream}

module _ {ℓ κ} {A : Type ℓ} {B : Type κ} (f : A → List B) where
  push_each-complete :
      (xs : List A) (x : A) (y : B) → Memᴰ x xs → Memᴰ y (f x) → Memᴰ y (push_each f xs)
  unfolding push_each
  push_each-complete [] x y m i = elim m [ ]
  push_each-complete (z ∷ xs) x y (Memᴰ.head e) i =
      Memᴰ-left (f z) (push_each f xs) (subst (λ w. Memᴰ y (f w)) e i)
  push_each-complete (z ∷ xs) x y (Memᴰ.tail m) i =
      Memᴰ-right (f z) (push_each f xs) (push_each-complete xs x y m i)

  push_each-sound :
      (xs : List A) (y : B) → Memᴰ y (push_each f xs) → (x : A) × Memᴰ x xs × Memᴰ y (f x)
  unfolding push_each
  push_each-sound [] y m = elim m [ ]
  push_each-sound (z ∷ xs) y m = elim (Memᴰ-append_cases (f z) (push_each f xs) m) [
    | inl here ↦ (z, Memᴰ.head refl, here)
    | inr later ↦ let (x, i, j) = push_each-sound xs y later in (x, Memᴰ.tail i, j)
  ]

if_true-empty :
    (b : Bool) (xs : List (List CausalAtom)) (q : List CausalAtom)
    → Memᴰ q (if b then [] else xs)
    → (b ≡ false) × Memᴰ q xs
if_true-empty true xs q m = elim m [ ]
if_true-empty false xs q m = (refl, m)

module _ (k : RealityKernel) where
  -- Links of the store, each from where the one before it ends, that leave no event twice and none
  -- of those that are visited.
  abbrev pub IsTrail : BTreeSet EventId → EventId → List CausalAtom → Type 0
  IsTrail visited e [] = Unit
  IsTrail visited e (x ∷ p) =
      (contains_key visited e ≡ false)
      × Memᴰ x (at_event k.causal_outgoing e)
      × IsTrail (insert visited e tt) x.effect p

  -- A path of at least one link and at most this many.
  abbrev pub IsWalk : ℕ → BTreeSet EventId → EventId → List CausalAtom → List CausalAtom → Type 0
  IsWalk depth visited e prefix q =
      (x : CausalAtom) × (p : List CausalAtom) × (q ≡ prefix ++ x ∷ p)
      × (suc (length p) ≤ depth)
      × IsTrail visited e (x ∷ p)

  -- what the loop of a walk pushes for a link
  abbrev entered :
      ℕ → EventId → List CausalAtom → BTreeSet EventId → CausalAtom → List (List CausalAtom)
  entered depth e prefix visited x =
      (prefix ++ x ∷ []) ∷ walk_downstream k depth x.effect (prefix ++ x ∷ []) (insert visited e tt)

  walk_downstream_sound :
      (depth : ℕ) (e : EventId) (prefix : List CausalAtom) (visited : BTreeSet EventId)
      (q : List CausalAtom)
      → Memᴰ q (walk_downstream k depth e prefix visited)
      → IsWalk depth visited e prefix q
  unfolding walk_downstream
  walk_downstream_sound zero e prefix visited q m = elim m [ ]
  walk_downstream_sound (suc depth) e prefix visited q m =
      let links = at_event k.causal_outgoing e in
      let (fresh, i) =
        if_true-empty (contains_key visited e) (push_each (entered depth e prefix visited) links) q
          m in
      let (x, l, j) = push_each-sound (entered depth e prefix visited) links q i in
      elim j [
        | Memᴰ.head h ↦ (x, [], h, omega arith, (fresh, l, tt))
        | Memᴰ.tail t ↦
            let (y, p, h, small, trail) =
              walk_downstream_sound depth x.effect (prefix ++ x ∷ []) (insert visited e tt) q t in
            (
              x,
              y ∷ p,
              h ∙ append_assoc prefix (x ∷ []) (y ∷ p),
              omega (arith, small),
              (fresh, l, trail),
            )
      ]

  walk_downstream-complete :
      (depth : ℕ) (e : EventId) (prefix : List CausalAtom) (visited : BTreeSet EventId)
      (x : CausalAtom) (p : List CausalAtom)
      → suc (length p) ≤ depth
      → IsTrail visited e (x ∷ p)
      → Memᴰ (prefix ++ x ∷ p) (walk_downstream k depth e prefix visited)
  unfolding walk_downstream
  walk_downstream-complete zero e prefix visited x p small t = ground (arith, small)
  walk_downstream-complete (suc depth) e prefix visited x [] small (fresh, l, t) =
      let links = at_event k.causal_outgoing e in
      subst
        (λ b.
          Memᴰ (prefix ++ x ∷ [])
            (if b then [] else push_each (entered depth e prefix visited) links))
        (sym fresh)
        (push_each-complete (entered depth e prefix visited) links x (prefix ++ x ∷ []) l
          (Memᴰ.head refl))
  walk_downstream-complete (suc depth) e prefix visited x (y ∷ p) small (fresh, l, t) =
      let links = at_event k.causal_outgoing e in
      let later =
        walk_downstream-complete depth x.effect (prefix ++ x ∷ []) (insert visited e tt) y p
          (omega (arith, small)) t in
      let here =
        subst
          (λ q. Memᴰ q (walk_downstream k depth x.effect (prefix ++ x ∷ []) (insert visited e tt)))
          (append_assoc prefix (x ∷ []) (y ∷ p)) later in
      subst
        (λ b.
          Memᴰ (prefix ++ x ∷ y ∷ p)
            (if b then [] else push_each (entered depth e prefix visited) links))
        (sym fresh)
        (push_each-complete (entered depth e prefix visited) links x (prefix ++ x ∷ y ∷ p) l
          (Memᴰ.tail here))

  -- The paths that a walk from an event finds are exactly the chains of one to `depth` links of the
  -- store, each of which starts where the one before it ends, that leave no event twice.
  pub walk_downstream_iff :
      (depth : ℕ) (e : EventId) (q : List CausalAtom)
      → Memᴰ q (walk_downstream k depth e [] []) ↔ (
          (x : CausalAtom) × (p : List CausalAtom) × (q ≡ x ∷ p)
          × (length q ≤ depth)
          × IsTrail [] e q)
  walk_downstream_iff depth e q = (
    λ m.
        let (x, p, h, small, t) = walk_downstream_sound depth e [] [] q m in
        (x, p, h, subst (λ r. length r ≤ depth) (sym h) small, subst (IsTrail [] e) (sym h) t),
    λ (x, p, h, small, t).
        subst (λ r. Memᴰ r (walk_downstream k depth e [] [])) (sym h)
          (walk_downstream-complete depth e [] [] x p (subst (λ r. length r ≤ depth) h small)
            (subst (IsTrail [] e) h t)),
  )
