-- ===== src/Kernel/Store/Walk.antt =====
-- crates/rg-kernel/src/lib.rs: the walks along causal links, as the links of each path in order.
pub mod Downstream
use hotgraph.Prelude.{
  ℕ, zero, suc, List, [], ◌∷◌, ◌++◌, Bool, true, false, if◌then◌else◌, string_ord,
}
use hotgraph.Prelude.Map.{BTreeMap, insert, contains_key}
use hotgraph.Core.Types.{EventId}
use hotgraph.Kernel.Store.{RealityKernel, CausalAtom}
use hotgraph.Kernel.Store.Causal.{at_event}
use hotgraph.Kernel.Views.{BTreeSet}

-- what a loop pushes, item by item
unfoldable pub push_each {ℓ κ} : {A : Type ℓ} {B : Type κ} → (A → List B) → List A → List B
push_each f [] = []
push_each f (x ∷ xs) = f x ++ push_each f xs

-- `walk_downstream`: the event that a walk enters is visited until the walk leaves it, so that the
-- callers have the set as it was.
unfoldable pub walk_downstream :
    RealityKernel → ℕ → EventId → List CausalAtom → BTreeSet EventId → List (List CausalAtom)
unfolding push_each
walk_downstream k zero current prefix visited = []
walk_downstream k (suc depth) current prefix visited =
    let entered =
      push_each
        (λ (x : CausalAtom).
          (prefix ++ x ∷ [])
          ∷ walk_downstream k depth x.effect (prefix ++ x ∷ []) (insert visited current tt))
        (at_event k.causal_outgoing current) in
    if contains_key visited current then [] else entered

-- `walk_upstream`
unfoldable pub walk_upstream :
    RealityKernel → ℕ → EventId → List CausalAtom → BTreeSet EventId → List (List CausalAtom)
unfolding push_each
walk_upstream k zero current suffix visited = []
walk_upstream k (suc depth) current suffix visited =
    let entered =
      push_each
        (λ (x : CausalAtom).
          (x ∷ suffix) ∷ walk_upstream k depth x.cause (x ∷ suffix) (insert visited current tt))
        (at_event k.causal_incoming current) in
    if contains_key visited current then [] else entered
