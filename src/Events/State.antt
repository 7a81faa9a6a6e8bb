-- ===== src/Events/State.antt =====
-- crates/rg-events/src/lib.rs: `GraphState`, the state that a log of events builds.
use hotgraph.Prelude.{List, [], ◌∷◌, none, some, string_ord}
use hotgraph.Prelude.Map.{BTreeMap, get, get_or}
use hotgraph.Core.Types.{
  EntityId, AssertionId, SourceId, CausalLinkId, MemoryId, Entity, Assertion, Source, CausalLink,
  AgentMemory,
}

pub record GraphState : Type 0 where
  pub entities : BTreeMap EntityId Entity
  pub assertions : BTreeMap AssertionId Assertion
  pub sources : BTreeMap SourceId Source
  pub evidence_links : BTreeMap AssertionId (List SourceId)
  pub merged_entities : BTreeMap EntityId EntityId
  pub causal_links : BTreeMap CausalLinkId CausalLink
  pub agent_memories : BTreeMap MemoryId AgentMemory
  pub outgoing : BTreeMap EntityId (List AssertionId)

-- `GraphState::new`
abbrev pub new : GraphState
new = record {
  entities = [];
  assertions = [];
  sources = [];
  evidence_links = [];
  merged_entities = [];
  causal_links = [];
  agent_memories = [];
  outgoing = [];
}

-- the assertions of some identifiers; an unknown one is left out
unfoldable pub found : BTreeMap AssertionId Assertion → List AssertionId → List Assertion
found assertions [] = []
found assertions (id ∷ ids) =
    let rest = found assertions ids in elim (get assertions id) [ none ↦ rest | some a ↦ a ∷ rest ]

unfoldable pub outgoing_assertions : GraphState → EntityId → List Assertion
unfolding found
outgoing_assertions s entity = found s.assertions (get_or (get s.outgoing entity) [])
