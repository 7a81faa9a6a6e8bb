-- ===== src/Kernel/Dependencies/Laws.antt =====
-- crates/rg-kernel/src/lib.rs: `transitive_dependents` and the walks along the links.
use hotgraph.Prelude.{◌+◌, ◌≡◌, sym, subst, ◌↔◌, List, some, true, arith}
use hotgraph.Prelude.Lists.{length, contains, sort, contains-sort}
use hotgraph.Prelude.Sorted.{IsSorted, sort-IsSorted}
use hotgraph.Kernel.Node.{DependencyNode, node_ord}
use hotgraph.Kernel.Dependencies.{DependencyGraph, targets, link_count, transitive_dependents}
use hotgraph.Kernel.Dependencies.Visit.{Reach, visit_returns, visit_iff}

-- A node depends on the root through one link or more.
abbrev pub DependsOn : DependencyGraph → DependencyNode → DependencyNode → Type 0
DependsOn g root v = Reach g (targets g root) v

-- `transitive_dependents` returns, in ascending order, exactly the nodes that a walk of one link or
-- more leads to from the root.
pub transitive_dependents_lem :
    (g : DependencyGraph) (root : DependencyNode)
    → (nodes : List DependencyNode) × (transitive_dependents g root ≡ some nodes)
      × IsSorted nodes
      × ((v : DependencyNode) → (contains nodes v ≡ true) ↔ DependsOn g root v)
unfolding transitive_dependents
transitive_dependents_lem g root =
    let (nodes, e) = visit_returns g (targets g root) in
    (
      sort nodes,
      ground arith,
      sort-IsSorted nodes,
      λ v.
          subst (λ b. (b ≡ true) ↔ DependsOn g root v) (sym (contains-sort nodes v))
            (visit_iff g (length (targets g root) + link_count g.edges) (targets g root) nodes e v),
    )
