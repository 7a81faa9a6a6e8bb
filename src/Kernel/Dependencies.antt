-- ===== src/Kernel/Dependencies.antt =====
-- crates/rg-kernel/src/lib.rs: `DependencyGraph`, the traversals, and `TruthMaintenance`.
pub mod Visit
pub mod Laws
pub mod Trace
pub mod Report
use hotgraph.Prelude.{
  ℕ, zero, suc, ◌+◌, String, List, [], ◌∷◌, ◌++◌, Option, none, some, Ordering, cmp, ◌==◌,
  if◌then◌else◌, Result, ok, err, Bool, ◌>>=◌, ◌>>◌, string_ord,
}
use Prim.Native.String.{◌++◌ as append}
use hotgraph.Prelude.Int.{unit_contains}
use hotgraph.Prelude.Lists.{length, sort, sort_by}
use hotgraph.Prelude.Map.{BTreeMap, get, get_or, insert, contains_key, keys}
use hotgraph.Kernel.Atom.{KernelError, invalid_dependency_strength}
use hotgraph.Kernel.Node.{
  DependencyNode, atom, DependencyType, derived_from, label, DependencyEdge, validate, node_ord,
}

-- The strength is the bits of an `f32`.
pub record DependencyStep : Type 0 where
  pub from : DependencyNode
  pub to : DependencyNode
  pub dependency_type : DependencyType
  pub strength : ℕ
  pub explanation : String

pub record DependencyLink : Type 0 where
  pub dependency_type : DependencyType
  pub strength : ℕ
  pub explanation : String

abbrev pub Links : Type 0
Links = BTreeMap DependencyNode DependencyLink

pub record DependencyGraph : Type 0 where
  pub edges : BTreeMap DependencyNode Links

-- `DependencyGraph::new`
abbrev pub new : DependencyGraph
new = record { edges = [] }

unfoldable pub insert_dependency :
    DependencyGraph → DependencyNode → DependencyNode → DependencyLink → DependencyGraph
insert_dependency g from to link = record {
  edges = insert g.edges from (insert (get_or (get g.edges from) []) to link);
}

-- 1.0 as an `f32`
abbrev pub one : ℕ
one = 0x3f800000

unfoldable pub add_dependency :
    DependencyGraph → DependencyNode → DependencyNode → String → DependencyGraph
add_dependency g from to explanation =
    insert_dependency g from to
      (record { dependency_type = derived_from; strength = one; explanation = explanation })

unfoldable pub add_dependency_edge :
    DependencyGraph → DependencyEdge → Result DependencyGraph KernelError
add_dependency_edge g e = do
  validate e
  ok (
      insert_dependency g (atom e.from) (atom e.to) (record {
        dependency_type = e.dependency_type;
        strength = e.strength;
        explanation =
            append e.from (append " " (append (label e.dependency_type) (append " " e.to)));
      }))

unfoldable pub add_typed_dependency :
    DependencyGraph
    → DependencyNode
    → DependencyNode
    → DependencyType
    → ℕ
    → String
    → Result DependencyGraph KernelError
add_typed_dependency g from to dependency_type strength explanation =
    if unit_contains strength
    then ok (
        insert_dependency g from to (record {
          dependency_type = dependency_type;
          strength = strength;
          explanation = explanation;
        }))
    else err invalid_dependency_strength

-- the links out of a node, and the nodes that they lead to
abbrev pub links : DependencyGraph → DependencyNode → Links
links g node = get_or (get g.edges node) []

abbrev pub targets : DependencyGraph → DependencyNode → List DependencyNode
targets g node = keys (links g node)

-- A `BTreeSet` of nodes.
abbrev pub NodeSet : Type 0
NodeSet = BTreeMap DependencyNode (Unit {0})

-- The `while` loop of `transitive_dependents`; `none` means that the fuel ran out.
unfoldable pub visit :
    DependencyGraph
    → ℕ
    → NodeSet
    → List DependencyNode
    → List DependencyNode
    → Option (List DependencyNode)
visit g fuel seen [] dependents = some dependents
visit g zero seen (node ∷ queue) dependents = none
visit g (suc fuel) seen (node ∷ queue) dependents = elim (contains_key seen node) [
  | Bool.true ↦ visit g fuel seen queue dependents
  | Bool.false ↦
      visit g fuel (insert seen node tt) (queue ++ targets g node) (dependents ++ node ∷ [])
]

-- the number of links, which bounds the rounds beyond those for the first queue
unfoldable pub link_count : BTreeMap DependencyNode Links → ℕ
link_count [] = 0
link_count ((_, out) ∷ edges) = length (keys out) + link_count edges

abbrev pub sorted : Option (List DependencyNode) → Option (List DependencyNode)
sorted none = none
sorted (some nodes) = some (sort nodes)

unfoldable pub transitive_dependents :
    DependencyGraph → DependencyNode → Option (List DependencyNode)
transitive_dependents g root =
    let queue = targets g root in sorted (visit g (length queue + link_count g.edges) [] queue [])

-- the steps for the links of one node
unfoldable pub steps_from : DependencyNode → Links → List DependencyStep
steps_from from [] = []
steps_from from ((to, link) ∷ more) =
    record {
      from = from;
      to = to;
      dependency_type = link.dependency_type;
      strength = link.strength;
      explanation = link.explanation;
    }
    ∷ steps_from from more

-- The `while` loop of `trace_from`.
unfoldable pub trace :
    DependencyGraph
    → ℕ
    → NodeSet
    → List DependencyNode
    → List DependencyStep
    → Option (List DependencyStep)
trace g fuel seen [] steps = some steps
trace g zero seen (node ∷ queue) steps = none
trace g (suc fuel) seen (node ∷ queue) steps = elim (contains_key seen node) [
  | Bool.true ↦ trace g fuel seen queue steps
  | Bool.false ↦
      trace g fuel (insert seen node tt) (queue ++ targets g node)
        (steps ++ steps_from node (links g node))
]

-- the order of the steps: by `from`, then by `to`
abbrev pub compare_steps : DependencyStep → DependencyStep → Ordering
compare_steps left right = elim (cmp left.from right.from) [
  | Ordering.lt ↦ Ordering.lt
  | Ordering.eq ↦ cmp left.to right.to
  | Ordering.gt ↦ Ordering.gt
]

abbrev pub sorted_steps : Option (List DependencyStep) → Option (List DependencyStep)
sorted_steps none = none
sorted_steps (some steps) = some (sort_by compare_steps steps)

unfoldable pub trace_from : DependencyGraph → DependencyNode → Option (List DependencyStep)
trace_from g root = sorted_steps (trace g (1 + link_count g.edges) [] (root ∷ []) [])

pub record InvalidationReport : Type 0 where
  pub root : DependencyNode
  pub reason : String
  pub invalidated_nodes : List DependencyNode
  pub steps : List DependencyStep

abbrev report :
    DependencyNode
    → String
    → Option (List DependencyNode)
    → Option (List DependencyStep)
    → Option InvalidationReport
report root reason (some nodes) (some steps) =
    some (record { root = root; reason = reason; invalidated_nodes = nodes; steps = steps })
report root reason _ _ = none

-- `TruthMaintenance::invalidate`, on its graph
unfoldable pub invalidate : DependencyGraph → DependencyNode → String → Option InvalidationReport
invalidate g root reason = report root reason (transitive_dependents g root) (trace_from g root)
