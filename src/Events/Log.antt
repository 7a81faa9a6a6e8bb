-- ===== src/Events/Log.antt =====
-- crates/rg-events/src/lib.rs: `EventLog`, the only writer: the event of a command, `execute`, and
-- the ways to open a log.
pub mod Total
pub mod History
pub mod Times
pub mod Reopen
pub mod Claims
pub mod Grounded
pub mod Provenance
pub mod Indexed
pub mod Index
use hotgraph.Prelude.{
  ℕ, ◌+◌, List, [], ◌∷◌, ◌++◌, Option, none, some, string_ord, Bool, true, not, ◌==◌, Result, ok,
  err, ensure, ◌>>=◌, ◌>>◌,
}
use hotgraph.Prelude.Int.{pos, i64_next, u64_next, unit_contains}
use hotgraph.Prelude.Lists.{length, is_empty}
use hotgraph.Prelude.Map.{contains_key, values}
use hotgraph.Core.Interval.{TimeInterval}
use hotgraph.Core.Types.{SourceId, TxTime, Entity, GraphValue, Assertion, AssertionStatus}
use hotgraph.Core.Ontology.{Checked, validate_entity, validate_assertions}
use hotgraph.Core.Ontology.Schema.{GraphOntology}
use hotgraph.Events.Command.{
  GraphCommand, CreateEntity, AddAssertion, AddSource, RecordAgentMemory, MergeEntities,
  create_entity, add_assertion, retract_assertion, add_source, link_evidence, merge_entities,
  update_confidence, add_causal_link, record_agent_memory, GraphReplayError, GraphCommandError,
  duplicate_entity, duplicate_assertion, duplicate_source, duplicate_causal_link, duplicate_memory,
  empty_source_list, invalid_entity_merge, invalid_trust_score, ontology, replay,
}
use hotgraph.Events.Event.{
  GraphEvent, entity_created, assertion_added, assertion_retracted, source_added, evidence_linked,
  entity_merged, confidence_updated, causal_link_added, agent_memory_recorded, kind_slug,
  set_event_id, transaction_time,
}
use hotgraph.Events.EventId.{deterministic_event_id}
use hotgraph.Events.State.{GraphState, new as new_state}
use hotgraph.Events.Validate.{EventLog, validate, assertion_from_command, entity_from_command}
use hotgraph.Events.Apply.{Applied, require_all, apply_event, replay as replay_events}

-- `EventLog::new`
abbrev pub new : TxTime → EventLog
new start_tx = record {
  events = [];
  state = new_state;
  last_tx = start_tx;
  next_sequence = 1;
  ontology = none;
}

abbrev pub with_ontology : TxTime → GraphOntology → EventLog
with_ontology start_tx o = record (new start_tx) { ontology = some o }

abbrev pub last_transaction_time : List GraphEvent → TxTime
last_transaction_time [] = pos 0
last_transaction_time (e ∷ []) = transaction_time e
last_transaction_time (_ ∷ e ∷ events) = last_transaction_time (e ∷ events)

unfoldable pub from_events : List GraphEvent → Result EventLog GraphReplayError
from_events events = do
  state ← replay_events events
  ok (record {
    events = events;
    state = state;
    last_tx = last_transaction_time events;
    next_sequence = length events + 1;
    ontology = none;
  })

-- `EventLog::event_from_command`; the identifier is set afterwards
unfoldable pub event_from_command : GraphCommand → TxTime → GraphEvent
unfolding assertion_from_command
event_from_command (create_entity c) now =
    entity_created
      (record { event_id = ""; transaction_time = now; entity = entity_from_command c now })
event_from_command (add_assertion c) now =
    assertion_added
      (record { event_id = ""; transaction_time = now; assertion = assertion_from_command c now })
event_from_command (retract_assertion c) now =
    assertion_retracted (record { event_id = ""; transaction_time = now; assertion_id = c.id })
event_from_command (add_source c) now = source_added (record {
  event_id = "";
  transaction_time = now;
  source = record {
    id = c.id;
    source_type = c.source_type;
    uri = c.uri;
    content_hash = c.content_hash;
    observed_at = now;
    trust_score = c.trust_score;
  };
})
event_from_command (link_evidence c) now = evidence_linked (record {
  event_id = "";
  transaction_time = now;
  assertion_id = c.assertion_id;
  source_id = c.source_id;
})
event_from_command (merge_entities c) now =
    entity_merged (record { event_id = ""; transaction_time = now; from = c.from; into = c.into })
event_from_command (update_confidence c) now = confidence_updated (record {
  event_id = "";
  transaction_time = now;
  assertion_id = c.assertion_id;
  confidence = c.confidence;
  source_ids = c.source_ids;
})
event_from_command (add_causal_link c) now = causal_link_added (record {
  event_id = "";
  transaction_time = now;
  causal_link = record {
    id = c.id;
    cause_event = c.cause_event;
    effect_event = c.effect_event;
    confidence = c.confidence;
    mechanism = c.mechanism;
    source_ids = c.source_ids;
  };
})
event_from_command (record_agent_memory c) now =
    agent_memory_recorded (record { event_id = ""; transaction_time = now; memory = c.memory })

-- the event that a valid command becomes
unfoldable pub event_of : EventLog → GraphCommand → GraphEvent
event_of log command =
    let event = event_from_command command (i64_next log.last_tx) in
    set_event_id event (deterministic_event_id log.next_sequence (kind_slug event))

-- the end of `execute`: the event is in the log before it is applied
abbrev pub commit : EventLog → GraphEvent → Applied → EventLog × Result GraphEvent GraphCommandError
commit log event (state, ok _) = (
  record log {
    events = log.events ++ event ∷ [];
    state = state;
    last_tx = i64_next log.last_tx;
    next_sequence = u64_next log.next_sequence;
  },
  ok event,
)
commit log event (state, err e) =
    (record log { events = log.events ++ event ∷ []; state = state }, err (replay e))

-- `EventLog::execute`
unfoldable pub execute : EventLog → GraphCommand → EventLog × Result GraphEvent GraphCommandError
execute log command = elim (validate log command) [
  | err e ↦ (log, err e)
  | ok _ ↦ let event = event_of log command in commit log event (apply_event log.state event)
]

abbrev rebuilt :
    EventLog → Result GraphState GraphReplayError → EventLog × Result (Unit {0}) GraphReplayError
rebuilt log (ok state) = (record log { state = state }, ok tt)
rebuilt log (err e) = (log, err e)

-- `EventLog::rebuild_indexes`
unfoldable pub rebuild_indexes : EventLog → EventLog × Result (Unit {0}) GraphReplayError
rebuild_indexes log = rebuilt log (replay_events log.events)
