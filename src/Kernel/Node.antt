-- ===== src/Kernel/Node.antt =====
-- crates/rg-kernel/src/lib.rs: `DependencyNode` with its derived order, and the edge types.
use Prim.Native.String.{compare}
use text.Mathlib.TextEquality.{path_by_compare}
use text.Mathlib.TextPositions.{compare_refl}
use hotgraph.Prelude.{ℕ, String, ◌≡◌, ap, Ord, Ordering, arith, if◌then◌else◌, Result, ok, err}
use hotgraph.Prelude.Int.{unit_contains}
use hotgraph.Prelude.Order.{flip, string-compare-flip, string-compare_trans}
use hotgraph.Kernel.Atom.{AtomId, KernelError, invalid_dependency_strength}

pub data DependencyType : Type 0 where
  derived_from supported_by contradicted_by superseded_by assumes causes enables : DependencyType
  invalidates : DependencyType

unfoldable pub label : DependencyType → String
label derived_from = "derives"
label supported_by = "supports"
label contradicted_by = "contradicts"
label superseded_by = "supersedes"
label assumes = "assumes"
label causes = "causes"
label enables = "enables"
label invalidates = "invalidates"

-- The strength is the bits of an `f32`.
pub record DependencyEdge : Type 0 where
  pub from : AtomId
  pub to : AtomId
  pub dependency_type : DependencyType
  pub strength : ℕ

-- `DependencyEdge::validate`
unfoldable pub validate : DependencyEdge → Result (Unit {0}) KernelError
validate e = if unit_contains e.strength then ok tt else err invalid_dependency_strength

pub data DependencyNode : Type 0 where
  atom : AtomId → DependencyNode
  answer simulation : String → DependencyNode

-- The derived order: by constructor, then by text.
abbrev pub compare_nodes : DependencyNode → DependencyNode → Ordering
compare_nodes (atom a) (atom b) = compare a b
compare_nodes (atom a) _ = Ordering.lt
compare_nodes (answer a) (atom b) = Ordering.gt
compare_nodes (answer a) (answer b) = compare a b
compare_nodes (answer a) (simulation b) = Ordering.lt
compare_nodes (simulation a) (simulation b) = compare a b
compare_nodes (simulation a) _ = Ordering.gt

pub node-eq_of_compare : (a b : DependencyNode) → compare_nodes a b ≡ Ordering.eq → a ≡ b
node-eq_of_compare (atom a) (atom b) h = ap atom (path_by_compare a b h)
node-eq_of_compare (answer a) (answer b) h = ap answer (path_by_compare a b h)
node-eq_of_compare (simulation a) (simulation b) h = ap simulation (path_by_compare a b h)
node-eq_of_compare a b h = ground arith

pub node-compare_self : (a : DependencyNode) → compare_nodes a a ≡ Ordering.eq
node-compare_self (atom a) = compare_refl a
node-compare_self (answer a) = compare_refl a
node-compare_self (simulation a) = compare_refl a

pub node-compare_flip : (a b : DependencyNode) → compare_nodes b a ≡ flip (compare_nodes a b)
node-compare_flip (atom a) (atom b) = string-compare-flip a b
node-compare_flip (answer a) (answer b) = string-compare-flip a b
node-compare_flip (simulation a) (simulation b) = string-compare-flip a b
node-compare_flip a b = ground arith

pub node-compare_trans :
    (a b c : DependencyNode)
    → compare_nodes a b ≡ Ordering.lt
    → compare_nodes b c ≡ Ordering.lt
    → compare_nodes a c ≡ Ordering.lt
node-compare_trans (atom a) (atom b) (atom c) p q = string-compare_trans a b c p q
node-compare_trans (answer a) (answer b) (answer c) p q = string-compare_trans a b c p q
node-compare_trans (simulation a) (simulation b) (simulation c) p q = string-compare_trans a b c p q
node-compare_trans a b c p q = ground arith

instance abbrev pub node_ord : Ord DependencyNode
node_ord = record {
  compare_by = compare_nodes;
  eq_of_compare = node-eq_of_compare;
  compare_self = node-compare_self;
  compare_flip = node-compare_flip;
  compare_trans = node-compare_trans;
}
