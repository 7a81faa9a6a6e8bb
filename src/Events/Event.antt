-- ===== src/Events/Event.antt =====
-- crates/rg-events/src/lib.rs: the events, and the parts that all of them have.
use hotgraph.Prelude.{String, List}
use hotgraph.Core.Confidence.{Confidence}
use hotgraph.Core.Types.{
  EntityId, AssertionId, SourceId, EventId, TxTime, Entity, Assertion, Source, CausalLink,
  AgentMemory,
}

pub record EntityCreated : Type 0 where
  pub event_id : EventId
  pub transaction_time : TxTime
  pub entity : Entity

pub record AssertionAdded : Type 0 where
  pub event_id : EventId
  pub transaction_time : TxTime
  pub assertion : Assertion

pub record AssertionRetracted : Type 0 where
  pub event_id : EventId
  pub transaction_time : TxTime
  pub assertion_id : AssertionId

pub record SourceAdded : Type 0 where
  pub event_id : EventId
  pub transaction_time : TxTime
  pub source : Source

pub record EvidenceLinked : Type 0 where
  pub event_id : EventId
  pub transaction_time : TxTime
  pub assertion_id : AssertionId
  pub source_id : SourceId

pub record EntityMerged : Type 0 where
  pub event_id : EventId
  pub transaction_time : TxTime
  pub from : EntityId
  pub into : EntityId

pub record ConfidenceUpdated : Type 0 where
  pub event_id : EventId
  pub transaction_time : TxTime
  pub assertion_id : AssertionId
  pub confidence : Confidence
  pub source_ids : List SourceId

pub record CausalLinkAdded : Type 0 where
  pub event_id : EventId
  pub transaction_time : TxTime
  pub causal_link : CausalLink

pub record AgentMemoryRecorded : Type 0 where
  pub event_id : EventId
  pub transaction_time : TxTime
  pub memory : AgentMemory

pub data GraphEvent : Type 0 where
  entity_created : EntityCreated → GraphEvent
  assertion_added : AssertionAdded → GraphEvent
  assertion_retracted : AssertionRetracted → GraphEvent
  source_added : SourceAdded → GraphEvent
  evidence_linked : EvidenceLinked → GraphEvent
  entity_merged : EntityMerged → GraphEvent
  confidence_updated : ConfidenceUpdated → GraphEvent
  causal_link_added : CausalLinkAdded → GraphEvent
  agent_memory_recorded : AgentMemoryRecorded → GraphEvent

unfoldable pub event_id : GraphEvent → EventId
event_id (entity_created e) = e.event_id
event_id (assertion_added e) = e.event_id
event_id (assertion_retracted e) = e.event_id
event_id (source_added e) = e.event_id
event_id (evidence_linked e) = e.event_id
event_id (entity_merged e) = e.event_id
event_id (confidence_updated e) = e.event_id
event_id (causal_link_added e) = e.event_id
event_id (agent_memory_recorded e) = e.event_id

unfoldable pub transaction_time : GraphEvent → TxTime
transaction_time (entity_created e) = e.transaction_time
transaction_time (assertion_added e) = e.transaction_time
transaction_time (assertion_retracted e) = e.transaction_time
transaction_time (source_added e) = e.transaction_time
transaction_time (evidence_linked e) = e.transaction_time
transaction_time (entity_merged e) = e.transaction_time
transaction_time (confidence_updated e) = e.transaction_time
transaction_time (causal_link_added e) = e.transaction_time
transaction_time (agent_memory_recorded e) = e.transaction_time

unfoldable pub kind_slug : GraphEvent → String
kind_slug (entity_created _) = "entity-created"
kind_slug (assertion_added _) = "assertion-added"
kind_slug (assertion_retracted _) = "assertion-retracted"
kind_slug (source_added _) = "source-added"
kind_slug (evidence_linked _) = "evidence-linked"
kind_slug (entity_merged _) = "entity-merged"
kind_slug (confidence_updated _) = "confidence-updated"
kind_slug (causal_link_added _) = "causal-link-added"
kind_slug (agent_memory_recorded _) = "agent-memory-recorded"

unfoldable pub set_event_id : GraphEvent → EventId → GraphEvent
set_event_id (entity_created e) id = entity_created (record e { event_id = id })
set_event_id (assertion_added e) id = assertion_added (record e { event_id = id })
set_event_id (assertion_retracted e) id = assertion_retracted (record e { event_id = id })
set_event_id (source_added e) id = source_added (record e { event_id = id })
set_event_id (evidence_linked e) id = evidence_linked (record e { event_id = id })
set_event_id (entity_merged e) id = entity_merged (record e { event_id = id })
set_event_id (confidence_updated e) id = confidence_updated (record e { event_id = id })
set_event_id (causal_link_added e) id = causal_link_added (record e { event_id = id })
set_event_id (agent_memory_recorded e) id = agent_memory_recorded (record e { event_id = id })
