-- ===== src/Kernel/Store/Impact.antt =====
-- crates/rg-kernel/src/lib.rs: `impact_if_retracted`, what retracting an atom would impact.
use hotgraph.Prelude.{
  ◌≡◌, refl, sym, ◌∙◌, subst, ◌↔◌, String, List, [], ◌∷◌, ◌++◌, Option, none, some, ◌==◌, Bool,
  true, false, ◌||◌, string_ord, arith,
}
use hotgraph.Prelude.Lists.{contains, sort, contains-sort, contains-append}
use hotgraph.Kernel.Atom.{AtomId}
use hotgraph.Kernel.Node.{DependencyNode, atom, answer, simulation, node_ord}
use hotgraph.Kernel.Dependencies.{transitive_dependents}
use hotgraph.Kernel.Dependencies.Laws.{DependsOn, transitive_dependents_lem}
use hotgraph.Kernel.Store.{RealityKernel}

pub record AtomImpactReport : Type 0 where
  pub root : AtomId
  pub impacted_atoms : List AtomId
  pub impacted_answers : List String
  pub impacted_simulations : List String
  pub warning : String

abbrev pub empty_report : AtomId → AtomImpactReport
empty_report id = record {
  root = id;
  impacted_atoms = [];
  impacted_answers = [];
  impacted_simulations = [];
  warning = "impact analysis is dependency reasoning, not fact or simulation truth";
}

-- the body of the loop over the dependents
abbrev pub add_node : AtomImpactReport → DependencyNode → AtomImpactReport
add_node r (atom id) = record r { impacted_atoms = r.impacted_atoms ++ id ∷ [] }
add_node r (answer id) = record r { impacted_answers = r.impacted_answers ++ id ∷ [] }
add_node r (simulation id) = record r { impacted_simulations = r.impacted_simulations ++ id ∷ [] }

unfoldable pub add_nodes : AtomImpactReport → List DependencyNode → AtomImpactReport
add_nodes r [] = r
add_nodes r (node ∷ nodes) = add_nodes (add_node r node) nodes

abbrev pub sorted_report : AtomImpactReport → AtomImpactReport
sorted_report r = record r {
  impacted_atoms = sort r.impacted_atoms;
  impacted_answers = sort r.impacted_answers;
  impacted_simulations = sort r.impacted_simulations;
}

abbrev pub report_nodes : AtomId → Option (List DependencyNode) → Option AtomImpactReport
report_nodes id none = none
report_nodes id (some nodes) = some (sorted_report (add_nodes (empty_report id) nodes))

-- `none` stands for fuel that ran out in `transitive_dependents`.
unfoldable pub impact_if_retracted : RealityKernel → AtomId → Option AtomImpactReport
impact_if_retracted k id = report_nodes id (transitive_dependents k.dependencies (atom id))

-- The report lists the node, in the list of its kind.
abbrev pub lists : AtomImpactReport → DependencyNode → Bool
lists r (atom id) = contains r.impacted_atoms id
lists r (answer id) = contains r.impacted_answers id
lists r (simulation id) = contains r.impacted_simulations id

lists-add_node :
    (r : AtomImpactReport) (n v : DependencyNode) → lists (add_node r n) v ≡ (lists r v || n == v)
unfolding contains
lists-add_node r (atom i) (atom j) = ground (arith, contains-append r.impacted_atoms (i ∷ []) j)
lists-add_node r (answer i) (answer j) =
    ground (arith, contains-append r.impacted_answers (i ∷ []) j)
lists-add_node r (simulation i) (simulation j) =
    ground (arith, contains-append r.impacted_simulations (i ∷ []) j)
lists-add_node r n v = ground arith

lists-add_nodes :
    (r : AtomImpactReport) (nodes : List DependencyNode) (v : DependencyNode)
    → lists (add_nodes r nodes) v ≡ (lists r v || contains nodes v)
unfolding add_nodes contains
lists-add_nodes r [] v = ground arith
lists-add_nodes r (n ∷ nodes) v =
    ground (arith, lists-add_nodes (add_node r n) nodes v, lists-add_node r n v)

lists-sorted_report :
    (r : AtomImpactReport) (v : DependencyNode) → lists (sorted_report r) v ≡ lists r v
lists-sorted_report r (atom id) = contains-sort r.impacted_atoms id
lists-sorted_report r (answer id) = contains-sort r.impacted_answers id
lists-sorted_report r (simulation id) = contains-sort r.impacted_simulations id

lists-empty_report : (id : AtomId) (v : DependencyNode) → lists (empty_report id) v ≡ false
unfolding contains
lists-empty_report id (atom _) = refl
lists-empty_report id (answer _) = refl
lists-empty_report id (simulation _) = refl

root-add_node : (r : AtomImpactReport) (n : DependencyNode) → (add_node r n).root ≡ r.root
root-add_node r (atom _) = refl
root-add_node r (answer _) = refl
root-add_node r (simulation _) = refl

root-add_nodes :
    (r : AtomImpactReport) (nodes : List DependencyNode) → (add_nodes r nodes).root ≡ r.root
unfolding add_nodes
root-add_nodes r [] = refl
root-add_nodes r (n ∷ nodes) = root-add_nodes (add_node r n) nodes ∙ root-add_node r n

-- `impact_if_retracted` always returns a report for the atom, which lists exactly the atoms, the
-- answers and the simulations that depend on the atom through one link or more.
pub impact_if_retracted_lem :
    (k : RealityKernel) (id : AtomId)
    → (r : AtomImpactReport) × (impact_if_retracted k id ≡ some r)
      × (r.root ≡ id)
      × ((v : DependencyNode) → (lists r v ≡ true) ↔ DependsOn k.dependencies (atom id) v)
unfolding impact_if_retracted
impact_if_retracted_lem k id =
    let (nodes, e, order, exact) = transitive_dependents_lem k.dependencies (atom id) in
    let r = add_nodes (empty_report id) nodes in
    (
      sorted_report r,
      ground arith,
      root-add_nodes (empty_report id) nodes,
      λ v.
          subst (λ b. (b ≡ true) ↔ DependsOn k.dependencies (atom id) v)
            (sym (lists-sorted_report r v ∙ listed nodes v)) (exact v),
    )
  where
    listed :
        (nodes : List DependencyNode) (v : DependencyNode)
        → lists (add_nodes (empty_report id) nodes) v ≡ contains nodes v
    listed nodes v =
        ground (arith, lists-add_nodes (empty_report id) nodes v, lists-empty_report id v)
