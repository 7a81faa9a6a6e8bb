-- ===== src/Kernel/Store/Collapse/Laws.antt =====
-- crates/rg-kernel/src/lib.rs: what the report of `collapse_if_source_false` lists.
use hotgraph.Prelude.{
  String, List, [], ◌∷◌, ◌++◌, none, some, ◌≡◌, Bool, true, false, ◌||◌, ◌&&◌, not, string_ord,
  ◌==◌, eq_iff, refl, ◌∙◌, sym, ap, subst, arith, ◌↔◌, Option-cases, inl, inr,
}
use hotgraph.Prelude.Lists.{contains, contains-append, contains-sort_dedup}
use hotgraph.Prelude.Map.{get}
use hotgraph.Kernel.Atom.{AtomId, RealityAtom}
use hotgraph.Kernel.Node.{DependencyNode, atom, answer, simulation, node_ord}
use hotgraph.Kernel.Dependencies.{DependencyStep}
use mathlib.Core.List.{Memᴰ}
use hotgraph.Kernel.Dependencies.Visit.{Reach}
use hotgraph.Kernel.Dependencies.Report.{IsLinkStep, trace_from_lem}
use hotgraph.Kernel.Dependencies.Laws.{DependsOn, transitive_dependents_lem}
use hotgraph.Kernel.Store.{RealityKernel}
use hotgraph.Kernel.Store.Collapse.{
  TruthCollapseReport, is_memory, is_belief_atom, is_plan_atom, add_kind, collapse_node,
  collapse_nodes, empty_collapse, sorted_collapse, collapse_if_source_false,
}

-- The report lists the node, in the list of its kind.
abbrev pub collapsed : TruthCollapseReport → DependencyNode → Bool
collapsed r (atom id) = contains r.collapsed_atoms id
collapsed r (answer id) = contains r.collapsed_answers id
collapsed r (simulation id) = contains r.collapsed_simulations id

-- The lists that hold the collapsed atoms of one kind.
pub data AtomKind : Type 0 where
  belief memory plan : AtomKind

abbrev pub of_kind : TruthCollapseReport → AtomKind → List AtomId
of_kind r belief = r.collapsed_beliefs
of_kind r memory = r.collapsed_memories
of_kind r plan = r.collapsed_plans

-- A belief is no plan and no memory, and a plan no memory.
abbrev pub has_kind : AtomKind → RealityAtom → Bool
has_kind belief a = is_belief_atom a
has_kind plan a = not (is_belief_atom a) && is_plan_atom a
has_kind memory a = not (is_belief_atom a) && (not (is_plan_atom a) && is_memory a.claim_type)

module _ (k : RealityKernel) where
  abbrev pub known_as : AtomKind → AtomId → Bool
  known_as kind id = elim (get k.atoms id) [ none ↦ false | some a ↦ has_kind kind a ]

  contains-snoc :
      (ids : List String) (i id : String)
      → contains (ids ++ i ∷ []) id ≡ (contains ids id || i == id)
  unfolding contains
  contains-snoc ids i id = ground (arith, contains-append ids (i ∷ []) id)

  abbrev noted : TruthCollapseReport → AtomId → TruthCollapseReport
  noted r i = record r { collapsed_atoms = r.collapsed_atoms ++ i ∷ [] }

  collapsed-noted :
      (r : TruthCollapseReport) (i : AtomId) (v : DependencyNode)
      → collapsed (noted r i) v ≡ (collapsed r v || atom i == v)
  collapsed-noted r i (atom v) = ground (arith, contains-snoc r.collapsed_atoms i v)
  collapsed-noted r i (answer v) = ground arith
  collapsed-noted r i (simulation v) = ground arith

  collapsed-add_kind :
      (r : TruthCollapseReport) (a : RealityAtom) (i : AtomId) (v : DependencyNode)
      → collapsed (add_kind r a i) v ≡ collapsed r v
  collapsed-add_kind r a i (atom v) = ground arith
  collapsed-add_kind r a i (answer v) = ground arith
  collapsed-add_kind r a i (simulation v) = ground arith

  collapsed-collapse_node :
      (r : TruthCollapseReport) (n v : DependencyNode)
      → collapsed (collapse_node k r n) v ≡ (collapsed r v || n == v)
  collapsed-collapse_node r (atom i) v = elim (Option-cases (get k.atoms i)) [
    | inl missing ↦ ground (arith, missing, collapsed-noted r i v)
    | inr (a, known) ↦
        ground (arith, known, collapsed-add_kind (noted r i) a i v, collapsed-noted r i v)
  ]
  collapsed-collapse_node r (answer i) (answer v) =
      ground (arith, contains-snoc r.collapsed_answers i v)
  collapsed-collapse_node r (simulation i) (simulation v) =
      ground (arith, contains-snoc r.collapsed_simulations i v)
  collapsed-collapse_node r n v = ground arith

  of_kind-add_kind :
      (r : TruthCollapseReport) (a : RealityAtom) (i v : AtomId) (kind : AtomKind)
      → contains (of_kind (add_kind r a i) kind) v
        ≡ (contains (of_kind r kind) v || (i == v && has_kind kind a))
  of_kind-add_kind r a i v belief = ground (arith, contains-snoc r.collapsed_beliefs i v)
  of_kind-add_kind r a i v memory = ground (arith, contains-snoc r.collapsed_memories i v)
  of_kind-add_kind r a i v plan = ground (arith, contains-snoc r.collapsed_plans i v)

  of_kind-noted :
      (r : TruthCollapseReport) (i : AtomId) (kind : AtomKind)
      → of_kind (noted r i) kind ≡ of_kind r kind
  of_kind-noted r i belief = refl
  of_kind-noted r i _ = refl

  of_kind-collapse_node :
      (r : TruthCollapseReport) (n : DependencyNode) (v : AtomId) (kind : AtomKind)
      → contains (of_kind (collapse_node k r n) kind) v
        ≡ (contains (of_kind r kind) v || (n == atom v && known_as kind v))
  of_kind-collapse_node r (atom i) v kind = elim (Option-cases (get k.atoms i)) [
    | inl missing ↦ ground (arith, missing, of_kind-noted r i kind, eq_iff i v)
    | inr (a, known) ↦
        ground (
          arith,
          known,
          of_kind-add_kind (noted r i) a i v kind,
          of_kind-noted r i kind,
          eq_iff i v,
        )
  ]
  of_kind-collapse_node r (answer i) v belief = ground arith
  of_kind-collapse_node r (answer i) v memory = ground arith
  of_kind-collapse_node r (answer i) v plan = ground arith
  of_kind-collapse_node r (simulation i) v belief = ground arith
  of_kind-collapse_node r (simulation i) v memory = ground arith
  of_kind-collapse_node r (simulation i) v plan = ground arith

  collapsed-collapse_nodes :
      (r : TruthCollapseReport) (nodes : List DependencyNode) (v : DependencyNode)
      → collapsed (collapse_nodes k r nodes) v ≡ (collapsed r v || contains nodes v)
  unfolding collapse_nodes contains
  collapsed-collapse_nodes r [] v = ground arith
  collapsed-collapse_nodes r (n ∷ nodes) v =
      collapsed-collapse_nodes (collapse_node k r n) nodes v
      ∙ ground (arith, collapsed-collapse_node r n v)

  of_kind-collapse_nodes :
      (r : TruthCollapseReport) (nodes : List DependencyNode) (v : AtomId) (kind : AtomKind)
      → contains (of_kind (collapse_nodes k r nodes) kind) v
        ≡ (contains (of_kind r kind) v || (contains nodes (atom v) && known_as kind v))
  unfolding collapse_nodes contains
  of_kind-collapse_nodes r [] v kind = ground arith
  of_kind-collapse_nodes r (n ∷ nodes) v kind =
      of_kind-collapse_nodes (collapse_node k r n) nodes v kind
      ∙ ground (arith, of_kind-collapse_node r n v kind)

  -- What the report keeps of the root.
  kept : TruthCollapseReport → AtomId × List DependencyStep
  kept r = (r.root_source, r.dependency_steps)

  kept-add_kind :
      (r : TruthCollapseReport) (a : RealityAtom) (i : AtomId) → kept (add_kind r a i) ≡ kept r
  unfolding kept
  kept-add_kind r a i = ground arith

  kept-collapse_nodes :
      (r : TruthCollapseReport) (nodes : List DependencyNode)
      → kept (collapse_nodes k r nodes) ≡ kept r
  unfolding collapse_nodes kept
  kept-collapse_nodes r [] = refl
  kept-collapse_nodes r (atom i ∷ nodes) =
      kept-collapse_nodes (collapse_node k r (atom i)) nodes
      ∙ (elim (Option-cases (get k.atoms i)) [
        | inl missing ↦ ground (arith, missing)
        | inr (a, known) ↦ ground (arith, known, kept-add_kind (noted r i) a i)
      ])
  kept-collapse_nodes r (answer i ∷ nodes) =
      kept-collapse_nodes (collapse_node k r (answer i)) nodes
  kept-collapse_nodes r (simulation i ∷ nodes) =
      kept-collapse_nodes (collapse_node k r (simulation i)) nodes

  collapsed-sorted_collapse :
      (r : TruthCollapseReport) (v : DependencyNode)
      → collapsed (sorted_collapse r) v ≡ collapsed r v
  collapsed-sorted_collapse r (atom v) = contains-sort_dedup r.collapsed_atoms v
  collapsed-sorted_collapse r (answer v) = contains-sort_dedup r.collapsed_answers v
  collapsed-sorted_collapse r (simulation v) = contains-sort_dedup r.collapsed_simulations v

  of_kind-sorted_collapse :
      (r : TruthCollapseReport) (kind : AtomKind) (v : AtomId)
      → contains (of_kind (sorted_collapse r) kind) v ≡ contains (of_kind r kind) v
  of_kind-sorted_collapse r belief v = contains-sort_dedup r.collapsed_beliefs v
  of_kind-sorted_collapse r memory v = contains-sort_dedup r.collapsed_memories v
  of_kind-sorted_collapse r plan v = contains-sort_dedup r.collapsed_plans v

  collapsed-empty_collapse :
      (id : AtomId) (steps : List DependencyStep) (v : DependencyNode)
      → collapsed (empty_collapse id steps) v ≡ false
  unfolding contains
  collapsed-empty_collapse id steps (atom _) = refl
  collapsed-empty_collapse id steps (answer _) = refl
  collapsed-empty_collapse id steps (simulation _) = refl

  of_kind-empty_collapse :
      (id : AtomId) (steps : List DependencyStep) (kind : AtomKind) (v : AtomId)
      → contains (of_kind (empty_collapse id steps) kind) v ≡ false
  unfolding contains
  of_kind-empty_collapse id steps belief v = refl
  of_kind-empty_collapse id steps memory v = refl
  of_kind-empty_collapse id steps plan v = refl

  -- For an atom of the store the analysis always returns a report, which bears the atom as its root.
  -- It lists exactly the atoms, the answers and the simulations that depend on the atom through one
  -- link or more; an atom among them is listed as a belief, a plan or a memory exactly if the store
  -- knows it as one; and the steps are those of the links out of the atom and of what depends on it.
  pub collapse_if_source_false_lem :
      (id : AtomId) (a : RealityAtom)
      → get k.atoms id ≡ some a
      → (r : TruthCollapseReport) × (collapse_if_source_false k id ≡ some (some r))
        × (r.root_source ≡ id)
        × ((v : DependencyNode) → (collapsed r v ≡ true) ↔ DependsOn k.dependencies (atom id) v)
        × ((v : AtomId) (kind : AtomKind)
            → contains (of_kind r kind) v ≡ (collapsed r (atom v) && known_as kind v))
        × ((s : DependencyStep)
            → Memᴰ s r.dependency_steps
              ↔ (Reach k.dependencies (atom id ∷ []) s.from × IsLinkStep k.dependencies s))
  unfolding collapse_if_source_false kept
  collapse_if_source_false_lem id a known =
      let (nodes, e, order, exact) = transitive_dependents_lem k.dependencies (atom id) in
      let (steps, f, traced) = trace_from_lem k.dependencies (atom id) in
      let start = empty_collapse id steps in
      let r = collapse_nodes k start nodes in
      let same = kept-collapse_nodes start nodes in
      let listed : (v : DependencyNode) → collapsed (sorted_collapse r) v ≡ contains nodes v = λ v.
        ground (
          arith,
          collapsed-sorted_collapse r v,
          collapsed-collapse_nodes start nodes v,
          collapsed-empty_collapse id steps v,
        ) in
      (
        sorted_collapse r,
        ground (arith, known, e, f),
        ap (λ (x : AtomId × List DependencyStep). x.0) same,
        λ v.
            subst (λ b. (b ≡ true) ↔ DependsOn k.dependencies (atom id) v) (sym (listed v))
              (exact v),
        λ v kind. ground (
          arith,
          listed (atom v),
          of_kind-sorted_collapse r kind v,
          of_kind-collapse_nodes start nodes v kind,
          of_kind-empty_collapse id steps kind v,
        ),
        λ s.
            subst
              (λ xs.
                Memᴰ s xs
                ↔ (Reach k.dependencies (atom id ∷ []) s.from × IsLinkStep k.dependencies s))
              (sym (ap (λ (x : AtomId × List DependencyStep). x.1) same)) (traced s),
      )
