-- ===== src/Tests/Events.antt =====
-- A log of events at concrete commands.
use mathlib.Core.List.{Memᴰ}
use hotgraph.Prelude.{
  String, List, [], ◌∷◌, none, some, ◌≡◌, ◌↔◌, ◌⊎◌, refl, true, le, string_ord, ok,
}
use hotgraph.Prelude.Int.{pos, ℤ_ord, i64_next, u64_next, unit_contains}
use hotgraph.Prelude.Lists.{length, sort_dedup, sort, sort_by, insert_by, dedup, dedup_after}
use hotgraph.Prelude.{arith, map, ◌≢◌, ◌<◌}
use hotgraph.Prelude.Sorted.{IsAscending}
use hotgraph.Prelude.Map.{get, insert, update, contains_key, values}
use hotgraph.Core.Types.{EntityType, GraphValue, SourceType, global, Assertion, AssertionStatus}
use hotgraph.Events.Command.{
  GraphCommand, create_entity, add_assertion, retract_assertion, add_source, link_evidence,
}
use hotgraph.Events.Event.{GraphEvent, set_event_id, kind_slug, source_added}
use hotgraph.Events.EventId.{deterministic_event_id}
use hotgraph.Events.State.{found, new as new_state, outgoing_assertions}
use hotgraph.Events.Apply.{
  push_sorted, apply_event, require_all, apply_entity_created, apply_assertion_added,
  apply_assertion_retracted, apply_source_added, apply_evidence_linked,
}
use hotgraph.Events.Apply.Keeps.{Kept, apply_event-Kept}
use hotgraph.Events.Validate.{
  EventLog, validate, validate_create_entity, validate_add_assertion, validate_add_source,
  validate_assertion_refs, assertion_from_command,
}
use hotgraph.Events.Log.{new, from_events, event_of, event_from_command, execute, rebuild_indexes}
use hotgraph.Events.Log.History.{Refused, Accepted, execute_cases, run, rebuild_after_run}
use hotgraph.Events.Log.Reopen.{from_events_after_run}
use hotgraph.Events.Log.Times.{IsTimed, execute-IsTimed}
use hotgraph.Events.Log.Claims.{Continues, run-Continues}
use hotgraph.Events.Log.Grounded.{HasProvenance}
use hotgraph.Events.Log.Provenance.{HasProvenance-new, run-HasProvenance}
use hotgraph.Events.Log.Index.{assertion_id, outgoing_after_run}

abbrev source_command : GraphCommand
source_command = add_source (record {
  id = "s";
  source_type = SourceType.document;
  uri = none;
  content_hash = "sha256:source";
  trust_score = some 0x3f400000;
})

abbrev entity_command : String → GraphCommand
entity_command id =
    create_entity (record {
      id = id;
      entity_type = EntityType.person;
      canonical_name = some id;
      properties = [];
    })

abbrev assertion_command : List String → GraphCommand
assertion_command sources = add_assertion (record {
  id = "a";
  subject = "ann";
  predicate = "works_at";
  object = GraphValue.entity "acme";
  valid_time = record { start = pos 10; end = some (pos 20) };
  confidence = record { bits = 0x3f400000 };
  source_ids = sources;
  context = global;
})

-- Two of the commands are refused.
abbrev commands : List GraphCommand
commands =
    source_command
    ∷ entity_command "ann"
    ∷ entity_command "ann"
    ∷ entity_command "acme"
    ∷ assertion_command []
    ∷ assertion_command ("s" ∷ [])
    ∷ link_evidence (record { assertion_id = "a"; source_id = "s" })
    ∷ retract_assertion (record { id = "a" })
    ∷ []

abbrev log : EventLog
log = run (new (pos 100)) commands

run_counts : (log.next_sequence ≡ 7) × (log.last_tx ≡ pos 106)
unfolding run execute validate validate_create_entity validate_add_assertion validate_add_source
    validate_assertion_refs assertion_from_command event_of event_from_command set_event_id
    kind_slug apply_event require_all apply_entity_created apply_assertion_added
    apply_assertion_retracted apply_source_added apply_evidence_linked insert update get
    contains_key values sort_dedup sort sort_by insert_by dedup dedup_after i64_next u64_next
    unit_contains deterministic_event_id
run_counts = (refl, refl)

-- A log whose state was lost.
rebuild_after_run_example : rebuild_indexes (record log { state = new_state }) ≡ (log, ok tt)
rebuild_after_run_example = rebuild_after_run (pos 100) none commands new_state

execute_cases_example : Refused log (entity_command "ann") ⊎ Accepted log (entity_command "ann")
execute_cases_example = execute_cases log (entity_command "ann")

run-Continues_example : Continues log.state.assertions (run log commands).state.assertions
run-Continues_example = run-Continues log commands

run-HasProvenance_example : HasProvenance log.state
run-HasProvenance_example = run-HasProvenance (new (pos 100)) commands HasProvenance-new

abbrev claim : Assertion
claim = record {
  id = "a";
  subject = "ann";
  predicate = "works_at";
  object = GraphValue.entity "acme";
  valid_time = record { start = pos 10; end = some (pos 20) };
  transaction_time = record { start = pos 104; end = some (pos 106) };
  confidence = record { bits = 0x3f400000 };
  source_ids = "s" ∷ [];
  context = global;
  status = AssertionStatus.retracted;
}

outgoing_after_run_example :
    IsAscending (map assertion_id (outgoing_assertions log.state "ann"))
    × ((a : Assertion)
        → Memᴰ a (outgoing_assertions log.state "ann")
          ↔ ((get log.state.assertions a.id ≡ some a) × (a.subject ≡ "ann")))
outgoing_after_run_example = outgoing_after_run (pos 100) none commands "ann"

outgoing_run : outgoing_assertions log.state "ann" ≡ claim ∷ []
unfolding outgoing_assertions found push_sorted run execute validate validate_create_entity
    validate_add_assertion validate_add_source validate_assertion_refs assertion_from_command
    event_of event_from_command set_event_id kind_slug apply_event require_all apply_entity_created
    apply_assertion_added apply_assertion_retracted apply_source_added apply_evidence_linked insert
    update get contains_key values sort_dedup sort sort_by insert_by dedup dedup_after i64_next
    u64_next unit_contains deterministic_event_id
outgoing_run = refl

execute-IsTimed_example :
    IsTimed (execute (new (pos 100)) source_command).0
    × (le (pos 100) (execute (new (pos 100)) source_command).0.last_tx ≡ true)
execute-IsTimed_example =
    execute-IsTimed (new (pos 100)) source_command refl (record { rising = tt; bounded = tt })

abbrev source_event : GraphEvent
source_event = source_added (record {
  event_id = "e";
  transaction_time = pos 1;
  source = record {
    id = "s";
    source_type = SourceType.document;
    uri = none;
    content_hash = "sha256:source";
    observed_at = pos 1;
    trust_score = none;
  };
})

apply_event-Kept_example :
    let t = (apply_event new_state source_event).0 in
    Kept new_state.entities t.entities
    × Kept new_state.assertions t.assertions
    × Kept new_state.sources t.sources
    × Kept new_state.causal_links t.causal_links
    × Kept new_state.agent_memories t.agent_memories
apply_event-Kept_example = apply_event-Kept new_state source_event

log-HasRoom : (length log.events < 18446744073709551615) × (log.events ≢ [])
unfolding run execute validate validate_create_entity validate_add_assertion validate_add_source
    validate_assertion_refs assertion_from_command event_of event_from_command set_event_id
    kind_slug apply_event require_all apply_entity_created apply_assertion_added
    apply_assertion_retracted apply_source_added apply_evidence_linked insert update get
    contains_key values sort_dedup sort sort_by insert_by dedup dedup_after i64_next u64_next
    unit_contains deterministic_event_id
log-HasRoom = (omega arith, λ e. cc)

from_events_after_run_example : from_events log.events ≡ ok (record log { ontology = none })
from_events_after_run_example =
    from_events_after_run (pos 100) none commands log-HasRoom.0 log-HasRoom.1
