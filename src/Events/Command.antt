-- ===== src/Events/Command.antt =====
-- crates/rg-events/src/lib.rs: the commands that clients send, and the errors they get.
use hotgraph.Prelude.{ℕ, String, List, Option}
use hotgraph.Core.Interval.{TimeInterval}
use hotgraph.Core.Confidence.{Confidence}
use hotgraph.Core.Types.{
  EntityId, AssertionId, PredicateId, SourceId, EventId, CausalLinkId, MemoryId, ContentHash,
  ValidTime, EntityType, GraphValue, PropertyMap, ContextScope, SourceType, AgentMemory,
}
use hotgraph.Core.Ontology.Schema.{OntologyValidationError}

pub record CreateEntity : Type 0 where
  pub id : EntityId
  pub entity_type : EntityType
  pub canonical_name : Option String
  pub properties : PropertyMap

pub record AddAssertion : Type 0 where
  pub id : AssertionId
  pub subject : EntityId
  pub predicate : PredicateId
  pub object : GraphValue
  pub valid_time : TimeInterval ValidTime
  pub confidence : Confidence
  pub source_ids : List SourceId
  pub context : ContextScope

pub record RetractAssertion : Type 0 where
  pub id : AssertionId

-- The trust score is the bits of an `f32`.
pub record AddSource : Type 0 where
  pub id : SourceId
  pub source_type : SourceType
  pub uri : Option String
  pub content_hash : ContentHash
  pub trust_score : Option ℕ

pub record LinkEvidence : Type 0 where
  pub assertion_id : AssertionId
  pub source_id : SourceId

pub record MergeEntities : Type 0 where
  pub from : EntityId
  pub into : EntityId

pub record UpdateConfidence : Type 0 where
  pub assertion_id : AssertionId
  pub confidence : Confidence
  pub source_ids : List SourceId

pub record AddCausalLink : Type 0 where
  pub id : CausalLinkId
  pub cause_event : EventId
  pub effect_event : EventId
  pub confidence : Confidence
  pub mechanism : Option String
  pub source_ids : List SourceId

pub record RecordAgentMemory : Type 0 where
  pub memory : AgentMemory

pub data GraphCommand : Type 0 where
  create_entity : CreateEntity → GraphCommand
  add_assertion : AddAssertion → GraphCommand
  retract_assertion : RetractAssertion → GraphCommand
  add_source : AddSource → GraphCommand
  link_evidence : LinkEvidence → GraphCommand
  merge_entities : MergeEntities → GraphCommand
  update_confidence : UpdateConfidence → GraphCommand
  add_causal_link : AddCausalLink → GraphCommand
  record_agent_memory : RecordAgentMemory → GraphCommand

pub data GraphReplayError : Type 0 where
  unknown_entity : EntityId → GraphReplayError
  unknown_assertion : AssertionId → GraphReplayError
  unknown_source : SourceId → GraphReplayError
  unknown_memory : MemoryId → GraphReplayError

pub data GraphCommandError : Type 0 where
  duplicate_entity : EntityId → GraphCommandError
  duplicate_assertion : AssertionId → GraphCommandError
  duplicate_source : SourceId → GraphCommandError
  duplicate_causal_link : CausalLinkId → GraphCommandError
  duplicate_memory : MemoryId → GraphCommandError
  unknown_entity : EntityId → GraphCommandError
  unknown_assertion : AssertionId → GraphCommandError
  unknown_source : SourceId → GraphCommandError
  unknown_memory : MemoryId → GraphCommandError
  empty_source_list invalid_entity_merge invalid_trust_score : GraphCommandError
  ontology : OntologyValidationError → GraphCommandError
  replay : GraphReplayError → GraphCommandError
