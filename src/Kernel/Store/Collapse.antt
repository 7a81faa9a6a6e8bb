-- ===== src/Kernel/Store/Collapse.antt =====
-- crates/rg-kernel/src/lib.rs: `collapse_if_source_false`, what rests on a source that is false.
pub mod Laws
use hotgraph.Prelude.{
  String, List, [], ◌∷◌, ◌++◌, Option, none, some, ◌≡◌, Bool, true, false, ◌||◌, ◌&&◌, not,
  if◌then◌else◌, string_ord, ◌==◌, eq_iff, refl, ◌∙◌, sym, ap, subst, arith, ◌↔◌, Option-cases, inl,
  inr,
}
use hotgraph.Prelude.Text.{text_contains}
use hotgraph.Prelude.Lists.{contains, contains-append, contains-sort_dedup, sort_dedup}
use hotgraph.Prelude.Map.{get}
use hotgraph.Kernel.Atom.{AtomId, RealityAtom, ClaimType}
use hotgraph.Kernel.Node.{DependencyNode, atom, answer, simulation, node_ord}
use hotgraph.Kernel.Dependencies.{DependencyStep, transitive_dependents, trace_from}
use hotgraph.Kernel.Store.{RealityKernel}

pub record TruthCollapseReport : Type 0 where
  pub root_source : AtomId
  pub collapsed_atoms : List AtomId
  pub collapsed_beliefs : List AtomId
  pub collapsed_memories : List AtomId
  pub collapsed_plans : List AtomId
  pub collapsed_answers : List String
  pub collapsed_simulations : List String
  pub dependency_steps : List DependencyStep
  pub warning : String

abbrev is_derived : ClaimType → Bool
is_derived ClaimType.derived = true
is_derived _ = false

abbrev pub is_memory : ClaimType → Bool
is_memory ClaimType.agent_memory = true
is_memory _ = false

unfoldable pub is_belief_atom : RealityAtom → Bool
unfolding text_contains
is_belief_atom a = is_derived a.claim_type || text_contains "BELIEF" a.predicate

unfoldable pub is_plan_atom : RealityAtom → Bool
unfolding text_contains
is_plan_atom a = text_contains "PLAN" a.predicate

-- the list that a collapsed atom goes to as well
abbrev pub add_kind : TruthCollapseReport → RealityAtom → AtomId → TruthCollapseReport
add_kind r a id =
    if is_belief_atom a
    then record r { collapsed_beliefs = r.collapsed_beliefs ++ id ∷ [] }
    else if is_plan_atom a
    then record r { collapsed_plans = r.collapsed_plans ++ id ∷ [] }
    else if is_memory a.claim_type
    then record r { collapsed_memories = r.collapsed_memories ++ id ∷ [] }
    else r

-- the body of the loop over the dependents
abbrev pub collapse_node :
    RealityKernel → TruthCollapseReport → DependencyNode → TruthCollapseReport
collapse_node k r (atom id) =
    let noted = record r { collapsed_atoms = r.collapsed_atoms ++ id ∷ [] } in
    elim (get k.atoms id) [ none ↦ noted | some a ↦ add_kind noted a id ]
collapse_node k r (answer id) = record r { collapsed_answers = r.collapsed_answers ++ id ∷ [] }
collapse_node k r (simulation id) = record r {
  collapsed_simulations = r.collapsed_simulations ++ id ∷ [];
}

unfoldable pub collapse_nodes :
    RealityKernel → TruthCollapseReport → List DependencyNode → TruthCollapseReport
unfolding is_belief_atom is_plan_atom
collapse_nodes k r [] = r
collapse_nodes k r (node ∷ nodes) = collapse_nodes k (collapse_node k r node) nodes

abbrev pub empty_collapse : AtomId → List DependencyStep → TruthCollapseReport
empty_collapse id steps = record {
  root_source = id;
  collapsed_atoms = [];
  collapsed_beliefs = [];
  collapsed_memories = [];
  collapsed_plans = [];
  collapsed_answers = [];
  collapsed_simulations = [];
  dependency_steps = steps;
  warning = "source-false collapse analysis is dependency reasoning, not a factual conclusion";
}

abbrev pub sorted_collapse : TruthCollapseReport → TruthCollapseReport
sorted_collapse r = record r {
  collapsed_atoms = sort_dedup r.collapsed_atoms;
  collapsed_beliefs = sort_dedup r.collapsed_beliefs;
  collapsed_memories = sort_dedup r.collapsed_memories;
  collapsed_plans = sort_dedup r.collapsed_plans;
  collapsed_answers = sort_dedup r.collapsed_answers;
  collapsed_simulations = sort_dedup r.collapsed_simulations;
}

abbrev pub report_collapse :
    RealityKernel
    → AtomId
    → Option (List DependencyNode)
    → Option (List DependencyStep)
    → Option TruthCollapseReport
report_collapse k id (some nodes) (some steps) =
    some (sorted_collapse (collapse_nodes k (empty_collapse id steps) nodes))
report_collapse k id _ _ = none

-- The outer `none` stands for fuel that ran out in a walk of the graph.
unfoldable pub collapse_if_source_false :
    RealityKernel → AtomId → Option (Option TruthCollapseReport)
unfolding collapse_nodes
collapse_if_source_false k id =
    elim (get k.atoms id) as (λ _. Option (Option TruthCollapseReport)) [
      | none ↦ some none
      | some _ ↦
          elim (report_collapse k id (transitive_dependents k.dependencies (atom id))
              (trace_from k.dependencies (atom id)))
            as (λ _. Option (Option TruthCollapseReport)) [ none ↦ none | some r ↦ some (some r) ]
    ]
