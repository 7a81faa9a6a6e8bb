-- ===== src/Kernel/Dependencies/Report.antt =====
-- crates/rg-kernel/src/lib.rs: the report of `TruthMaintenance::invalidate`.
use mathlib.Core.List.{Memᴰ}
use hotgraph.Prelude.{
  ◌∙◌, ◌+◌, ◌≡◌, refl, sym, subst, ◌↔◌, String, List, [], ◌∷◌, some, true, arith, inl, inr, eq_iff,
  Bool-cases, ◌==◌, ap,
}
use hotgraph.Prelude.Lists.{contains, sort_by}
use hotgraph.Prelude.Members.{Memᴰ-left, Memᴰ-right, Memᴰ-append_cases, Memᴰ-sort_by}
use hotgraph.Kernel.Node.{DependencyNode, node_ord}
use hotgraph.Kernel.Dependencies.{
  trace_from, DependencyGraph, DependencyStep, DependencyLink, Links, links, link_count, steps_from,
  compare_steps, InvalidationReport, invalidate,
}
use hotgraph.Kernel.Dependencies.Visit.{Reach, visit_iff}
use hotgraph.Kernel.Dependencies.Laws.{DependsOn, transitive_dependents_lem}
use hotgraph.Kernel.Dependencies.Trace.{steps_of, trace_from-visit}

-- The other node of a step, and the link with its type, strength and explanation.
abbrev to_link : DependencyStep → DependencyNode × DependencyLink
to_link s = (
  s.to,
  record {
    dependency_type = s.dependency_type;
    strength = s.strength;
    explanation = s.explanation;
  },
)

-- The links out of a node hold that of the step.
abbrev IsLinkOf : Links → DependencyStep → Type 0
IsLinkOf out s = Memᴰ (to_link s) out

abbrev to_step : DependencyNode → DependencyNode × DependencyLink → DependencyStep
to_step node (to, link) = record {
  from = node;
  to = to;
  dependency_type = link.dependency_type;
  strength = link.strength;
  explanation = link.explanation;
}

steps_from_sound :
    (node : DependencyNode) (out : Links) (s : DependencyStep)
    → Memᴰ s (steps_from node out)
    → (s.from ≡ node) × IsLinkOf out s
unfolding steps_from
steps_from_sound node [] s m = elim m [ ]
steps_from_sound node ((to, link) ∷ out) s (Memᴰ.head e) =
    (ap (λ (t : DependencyStep). t.from) e, Memᴰ.head (ap to_link e))
steps_from_sound node ((to, link) ∷ out) s (Memᴰ.tail m) =
    let (e, l) = steps_from_sound node out s m in (e, Memᴰ.tail l)

steps_from-complete :
    (node : DependencyNode) (out : Links) (s : DependencyStep)
    → s.from ≡ node
    → IsLinkOf out s
    → Memᴰ s (steps_from node out)
unfolding steps_from
steps_from-complete node [] s e l = elim l [ ]
steps_from-complete node ((to, link) ∷ out) s e (Memᴰ.head p) =
    Memᴰ.head (ap (λ n. to_step n (to_link s)) e ∙ ap (to_step node) p)
steps_from-complete node ((to, link) ∷ out) s e (Memᴰ.tail l) =
    Memᴰ.tail (steps_from-complete node out s e l)

module _ (g : DependencyGraph) where
  -- The graph has the link of the step from its node to its other node.
  abbrev pub IsLinkStep : DependencyStep → Type 0
  IsLinkStep s = IsLinkOf (links g s.from) s

  steps_of_sound :
      (nodes : List DependencyNode) (s : DependencyStep)
      → Memᴰ s (steps_of g nodes)
      → (contains nodes s.from ≡ true) × IsLinkStep s
  unfolding steps_of contains
  steps_of_sound [] s m = elim m [ ]
  steps_of_sound (n ∷ nodes) s m =
      elim (Memᴰ-append_cases (steps_from n (links g n)) (steps_of g nodes) m) [
        | inl here ↦
            let (e, l) = steps_from_sound n (links g n) s here in
            (ground (arith, eq_iff n s.from), subst (λ k. IsLinkOf (links g k) s) (sym e) l)
        | inr later ↦ let (c, l) = steps_of_sound nodes s later in (ground arith, l)
      ]

  steps_of-complete :
      (nodes : List DependencyNode) (s : DependencyStep)
      → contains nodes s.from ≡ true
      → IsLinkStep s
      → Memᴰ s (steps_of g nodes)
  unfolding steps_of contains
  steps_of-complete [] s c l = cc
  steps_of-complete (n ∷ nodes) s c l = elim (Bool-cases (n == s.from)) [
    | inl same ↦
        let e : n ≡ s.from = (eq_iff n s.from).0 same in
        Memᴰ-left (steps_from n (links g n)) (steps_of g nodes) (
          steps_from-complete n (links g n) s (sym e)
            (subst (λ k. IsLinkOf (links g k) s) (sym e) l))
    | inr other ↦
        Memᴰ-right (steps_from n (links g n)) (steps_of g nodes)
          (steps_of-complete nodes s (ground arith) l)
  ]

  -- The walk that traces the links ends, with exactly the steps of those links whose source is the
  -- root or can be reached from it.
  pub trace_from_lem :
      (root : DependencyNode)
      → (steps : List DependencyStep) × (trace_from g root ≡ some steps)
        × ((s : DependencyStep) → Memᴰ s steps ↔ (Reach g (root ∷ []) s.from × IsLinkStep s))
  trace_from_lem root =
      let (visited, f, t) = trace_from-visit g root in
      let reached = visit_iff g (1 + link_count g.edges) (root ∷ []) visited f in
      let sorted = Memᴰ-sort_by compare_steps (steps_of g visited) in
      (
        sort_by compare_steps (steps_of g visited),
        t,
        λ s. (
          λ m. let (c, l) = steps_of_sound visited s ((sorted s).0 m) in ((reached s.from).0 c, l),
          λ (r, l). (sorted s).1 (steps_of-complete visited s ((reached s.from).1 r) l),
        ),
      )

  -- `invalidate` returns a report for the root with the reason. Its nodes are exactly the
  -- transitive dependents of the root, and its steps exactly those of the links whose source is the
  -- root or can be reached from it.
  pub invalidate_lem :
      (root : DependencyNode) (reason : String)
      → (r : InvalidationReport) × (invalidate g root reason ≡ some r)
        × (r.root ≡ root)
        × (r.reason ≡ reason)
        × ((v : DependencyNode) → (contains r.invalidated_nodes v ≡ true) ↔ DependsOn g root v)
        × ((s : DependencyStep) → Memᴰ s r.steps ↔ (Reach g (root ∷ []) s.from × IsLinkStep s))
  unfolding invalidate
  invalidate_lem root reason =
      let (nodes, e, order, exact) = transitive_dependents_lem g root in
      let (steps, f, traced) = trace_from_lem root in
      (
        record { root = root; reason = reason; invalidated_nodes = nodes; steps = steps },
        ground arith,
        refl,
        refl,
        exact,
        traced,
      )
