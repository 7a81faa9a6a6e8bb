-- ===== src/Kernel/Dependencies/Trace.antt =====
-- crates/rg-kernel/src/lib.rs: the steps of `trace_from` and the nodes that it visits.
use mathlib.Core.List.{append-nil, append_assoc}
use hotgraph.Prelude.{
  ℕ, zero, suc, ◌+◌, ◌≡◌, refl, sym, ◌∙◌, ap, List, [], ◌∷◌, ◌++◌, Option, none, some, arith,
  Bool-cases, inl, inr,
}
use hotgraph.Prelude.Lists.{sort_by}
use hotgraph.Prelude.Map.{insert, contains_key}
use hotgraph.Kernel.Node.{DependencyNode, node_ord}
use hotgraph.Kernel.Dependencies.{
  DependencyGraph, DependencyStep, NodeSet, links, targets, visit, link_count, steps_from, trace,
  compare_steps, trace_from,
}
use hotgraph.Kernel.Dependencies.Visit.{visit_returns}

module _ (g : DependencyGraph) where
  -- The steps for some nodes, one after the other.
  unfoldable pub steps_of : List DependencyNode → List DependencyStep
  steps_of [] = []
  steps_of (node ∷ nodes) = steps_from node (links g node) ++ steps_of nodes

  steps_of-append :
      (xs : List DependencyNode) (node : DependencyNode)
      → steps_of (xs ++ node ∷ []) ≡ steps_of xs ++ steps_from node (links g node)
  unfolding steps_of
  steps_of-append [] node = append-nil _
  steps_of-append (x ∷ xs) node =
      ap (◌++◌ (steps_from x (links g x))) (steps_of-append xs node)
      ∙ sym (append_assoc (steps_from x (links g x)) (steps_of xs) _)

  abbrev mapped : Option (List DependencyNode) → Option (List DependencyStep)
  mapped none = none
  mapped (some nodes) = some (steps_of nodes)

  trace-visit :
      (fuel : ℕ) (seen : NodeSet) (queue dependents : List DependencyNode)
      → trace g fuel seen queue (steps_of dependents) ≡ mapped (visit g fuel seen queue dependents)
  unfolding trace visit
  trace-visit fuel seen [] dependents = refl
  trace-visit zero seen (node ∷ queue) dependents = refl
  trace-visit (suc fuel) seen (node ∷ queue) dependents =
      elim (Bool-cases (contains_key seen node)) [
        | inl old ↦ rw (old, trace, visit) (trace-visit fuel seen queue dependents)
        | inr new ↦
            rw (new, trace, visit)
              (rw (← steps_of-append dependents node) (
                trace-visit fuel (insert seen node tt) (queue ++ targets g node)
                  (dependents ++ node ∷ [])))
      ]

  -- `trace_from` ends, and its steps are, sorted, those of the links out of the nodes that the loop
  -- visits from the root.
  pub trace_from-visit :
      (root : DependencyNode)
      → (nodes : List DependencyNode) × (visit g (1 + link_count g.edges) [] (root ∷ []) []
          ≡ some nodes)
        × (trace_from g root ≡ some (sort_by compare_steps (steps_of nodes)))
  unfolding trace_from steps_of
  trace_from-visit root =
      let (nodes, e) = visit_returns g (root ∷ []) in
      (nodes, e, ground (arith, trace-visit (1 + link_count g.edges) [] (root ∷ []) [], e))
