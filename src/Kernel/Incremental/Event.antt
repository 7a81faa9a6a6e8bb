-- ===== src/Kernel/Incremental/Event.antt =====
-- crates/rg-kernel/src/lib.rs: `KernelEvent` and `IncrementalDelta`.
use hotgraph.Prelude.{ℕ, String, List, [], string_ord}
use hotgraph.Prelude.Lists.{sort_dedup}
use hotgraph.Core.Types.{SourceId, TxTime}
use hotgraph.Kernel.Atom.{AtomId, EntityRef, BeliefState, RealityAtom}
use hotgraph.Kernel.Belief.{ConflictSet}
use hotgraph.Kernel.Node.{DependencyNode, DependencyEdge, node_ord}
use hotgraph.Kernel.Store.{CausalAtom}
use hotgraph.Kernel.Views.{BTreeSet, IncrementalSequence, MaintainedViewName, view_ord}

pub data IncrementalEventKind : Type 0 where
  atom_inserted belief_revised conflict_added dependency_added : IncrementalEventKind
  causal_atom_inserted source_trust_updated : IncrementalEventKind

pub record RevisedBelief : Type 0 where
  pub atom_id : AtomId
  pub next : BeliefState
  pub known_at : TxTime
  pub reason : String

pub data KernelEvent : Type 0 where
  atom_inserted : RealityAtom → KernelEvent
  belief_revised : RevisedBelief → KernelEvent
  conflict_added : ConflictSet → KernelEvent
  dependency_added : DependencyEdge → KernelEvent
  causal_atom_inserted : CausalAtom → KernelEvent
  source_trust_updated : SourceId → ℕ → KernelEvent

-- `KernelEvent::kind`
unfoldable pub kind : KernelEvent → IncrementalEventKind
kind (KernelEvent.atom_inserted _) = IncrementalEventKind.atom_inserted
kind (KernelEvent.belief_revised _) = IncrementalEventKind.belief_revised
kind (KernelEvent.conflict_added _) = IncrementalEventKind.conflict_added
kind (KernelEvent.dependency_added _) = IncrementalEventKind.dependency_added
kind (KernelEvent.causal_atom_inserted _) = IncrementalEventKind.causal_atom_inserted
kind (KernelEvent.source_trust_updated _ _) = IncrementalEventKind.source_trust_updated

pub record SequencedKernelEvent : Type 0 where
  pub sequence : IncrementalSequence
  pub event : KernelEvent

pub record IncrementalDelta : Type 0 where
  pub sequence : IncrementalSequence
  pub event_kind : IncrementalEventKind
  pub touched_views : BTreeSet MaintainedViewName
  pub touched_atoms : List AtomId
  pub touched_entities : List EntityRef
  pub touched_sources : List SourceId
  pub stale_summaries : List AtomId
  pub risky_plans : List AtomId
  pub impacted_nodes : List DependencyNode

-- `IncrementalDelta::new`
abbrev pub new_delta : IncrementalSequence → IncrementalEventKind → IncrementalDelta
new_delta sequence event_kind = record {
  sequence = sequence;
  event_kind = event_kind;
  touched_views = [];
  touched_atoms = [];
  touched_entities = [];
  touched_sources = [];
  stale_summaries = [];
  risky_plans = [];
  impacted_nodes = [];
}

-- `IncrementalDelta::finalize`
unfoldable pub finalize : IncrementalDelta → IncrementalDelta
finalize d = record d {
  touched_atoms = sort_dedup d.touched_atoms;
  touched_entities = sort_dedup d.touched_entities;
  touched_sources = sort_dedup d.touched_sources;
  stale_summaries = sort_dedup d.stale_summaries;
  risky_plans = sort_dedup d.risky_plans;
  impacted_nodes = sort_dedup d.impacted_nodes;
}
