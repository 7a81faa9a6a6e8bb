-- ===== src/Events/Log/Total.antt =====
-- crates/rg-events/src/lib.rs: the checks of `validate` against those of `apply_event`.
use hotgraph.Prelude.{◌≡◌, refl, String, List, [], ◌∷◌, Bool, true, string_ord, arith, ok}
use hotgraph.Prelude.Lists.{all}
use hotgraph.Prelude.Map.{BTreeMap, contains_key, contains_key-update, update}
use hotgraph.Core.Types.{MemoryId, SourceId, AgentMemory}
use hotgraph.Events.Event.{AssertionAdded, AgentMemoryRecorded}
use hotgraph.Events.Command.{
  AddAssertion, RecordAgentMemory, GraphCommandError, GraphReplayError, GraphCommand, create_entity,
  add_assertion, retract_assertion, add_source, link_evidence, merge_entities, update_confidence,
  add_causal_link, record_agent_memory,
}
use hotgraph.Events.State.{GraphState}
use hotgraph.Events.Event.{set_event_id}
use hotgraph.Events.Apply.{
  require_all, require_sources, supersede, supersede_all, apply_event, apply_entity_created,
  apply_assertion_added, apply_assertion_retracted, apply_source_added, apply_evidence_linked,
  apply_entity_merged, apply_confidence_updated, apply_causal_link_added,
  apply_agent_memory_recorded,
}
use hotgraph.Events.Validate.{
  EventLog, validate, validate_assertion_refs, validate_add_assertion, validate_sources,
  validate_merge_entities, validate_record_agent_memory,
}
use hotgraph.Events.Log.{event_from_command, event_of}

module _ {κ} {E : Type κ} (known : String → Bool) (error : String → E) where
  pub all-known : (ids : List String) → require_all known error ids ≡ ok tt → all known ids ≡ true
  unfolding require_all all
  all-known [] h = refl
  all-known (id ∷ ids) h = ground (arith, all-known ids)

  pub require_all-ok :
      (ids : List String) → all known ids ≡ true → require_all known error ids ≡ ok tt
  unfolding require_all all
  require_all-ok [] h = refl
  require_all-ok (id ∷ ids) h = ground (arith, require_all-ok ids)

-- The same identifiers pass where only the errors differ.
pub require_all-transfer {κ ι} :
    {E : Type κ} {F : Type ι} (known : String → Bool) (error : String → E) (other : String → F)
    (ids : List String)
    → require_all known error ids ≡ ok tt
    → require_all known other ids ≡ ok tt
require_all-transfer known error other ids h =
    require_all-ok known other ids (all-known known error ids h)

all-update :
    (m : BTreeMap MemoryId AgentMemory) (id : MemoryId) (ids : List MemoryId)
    → all (contains_key m) ids ≡ true
    → all (contains_key (update m id supersede)) ids ≡ true
unfolding all
all-update m id [] h = refl
all-update m id (j ∷ ids) h =
    ground (arith, contains_key-update m id supersede j, all-update m id ids)

pub supersede_all-ok :
    (m : BTreeMap MemoryId AgentMemory) (ids : List MemoryId)
    → all (contains_key m) ids ≡ true
    → (supersede_all m ids).1 ≡ ok tt
unfolding supersede_all all
supersede_all-ok m [] h = refl
supersede_all-ok m (id ∷ ids) h =
    ground (arith, supersede_all-ok (update m id supersede) ids, all-update m id ids)

sources_known :
    (s : GraphState) (ids : List SourceId)
    → validate_sources s ids ≡ ok tt
    → require_sources s ids ≡ ok tt
sources_known s = require_all-transfer (contains_key s.sources) _ _

assertion_applies :
    (log : EventLog) (c : AddAssertion) (e : AssertionAdded)
    → e.assertion.subject ≡ c.subject
    → e.assertion.object ≡ c.object
    → e.assertion.source_ids ≡ c.source_ids
    → validate_add_assertion log c ≡ ok tt
    → (apply_assertion_added log.state e).1 ≡ ok tt
unfolding validate_add_assertion validate_assertion_refs apply_assertion_added
assertion_applies log c e p q r h = ground (arith, sources_known log.state c.source_ids)

memory_applies :
    (s : GraphState) (c : RecordAgentMemory) (e : AgentMemoryRecorded)
    → e.memory ≡ c.memory
    → validate_record_agent_memory s c ≡ ok tt
    → (apply_agent_memory_recorded s e).1 ≡ ok tt
unfolding validate_record_agent_memory apply_agent_memory_recorded
memory_applies s c e p h = ground (
  arith,
  sources_known s c.memory.source_ids,
  require_all-transfer (contains_key s.entities) GraphCommandError.unknown_entity
      GraphReplayError.unknown_entity c.memory.related_entities,
  all-known (contains_key s.agent_memories) GraphCommandError.unknown_memory c.memory.supersedes,
  supersede_all-ok s.agent_memories c.memory.supersedes,
)

-- An event made from a valid command is applied without an error.
pub apply-event_of :
    (log : EventLog) (c : GraphCommand)
    → validate log c ≡ ok tt
    → (apply_event log.state (event_of log c)).1 ≡ ok tt
unfolding validate event_of event_from_command set_event_id apply_event
apply-event_of log (create_entity c) h = unfold apply_entity_created in refl
apply-event_of log (add_assertion c) h = assertion_applies log c _ refl refl refl h
apply-event_of log (retract_assertion c) h = unfold apply_assertion_retracted in ground arith
apply-event_of log (add_source c) h = unfold apply_source_added in refl
apply-event_of log (link_evidence c) h = unfold apply_evidence_linked in ground arith
apply-event_of log (merge_entities c) h =
    unfold apply_entity_merged validate_merge_entities in ground arith
apply-event_of log (update_confidence c) h =
    unfold apply_confidence_updated in ground (arith, sources_known log.state c.source_ids)
apply-event_of log (add_causal_link c) h =
    unfold apply_causal_link_added in ground (arith, sources_known log.state c.source_ids)
apply-event_of log (record_agent_memory c) h = memory_applies log.state c _ refl h
