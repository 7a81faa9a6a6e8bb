-- ===== src/Events/Validate.antt =====
-- crates/rg-events/src/lib.rs: the state of `EventLog`, and `EventLog::validate`.
use hotgraph.Prelude.{
  ℕ, List, [], ◌∷◌, ◌++◌, Option, none, some, string_ord, Bool, true, not, ◌==◌, Result, ok, err,
  ensure, ◌>>◌,
}
use hotgraph.Prelude.Int.{unit_contains}
use hotgraph.Prelude.Lists.{is_empty}
use hotgraph.Prelude.Map.{contains_key, values}
use hotgraph.Core.Interval.{TimeInterval}
use hotgraph.Core.Types.{SourceId, TxTime, Entity, GraphValue, Assertion, AssertionStatus}
use hotgraph.Core.Ontology.{Checked, validate_entity, validate_assertions}
use hotgraph.Core.Ontology.Schema.{GraphOntology}
use hotgraph.Events.Command.{
  GraphCommand, CreateEntity, AddAssertion, AddSource, RecordAgentMemory, MergeEntities,
  create_entity, add_assertion, retract_assertion, add_source, link_evidence, merge_entities,
  update_confidence, add_causal_link, record_agent_memory, GraphCommandError, duplicate_entity,
  duplicate_assertion, duplicate_source, duplicate_causal_link, duplicate_memory, empty_source_list,
  invalid_entity_merge, invalid_trust_score, ontology,
}
use hotgraph.Events.Event.{GraphEvent, transaction_time}
use hotgraph.Events.State.{GraphState}
use hotgraph.Events.Apply.{require_all}

pub record EventLog : Type 0 where
  pub events : List GraphEvent
  pub state : GraphState
  pub last_tx : TxTime
  pub next_sequence : ℕ
  pub ontology : Option GraphOntology

abbrev pub Validated : Type 0
Validated = Result (Unit {0}) GraphCommandError

-- `TimeInterval::new(transaction_time, None)`, which always succeeds
abbrev pub open_interval : TxTime → TimeInterval TxTime
open_interval start = record { start = start; end = none }

unfoldable pub assertion_from_command : AddAssertion → TxTime → Assertion
assertion_from_command c transaction_time = record {
  id = c.id;
  subject = c.subject;
  predicate = c.predicate;
  object = c.object;
  valid_time = c.valid_time;
  transaction_time = open_interval transaction_time;
  confidence = c.confidence;
  source_ids = c.source_ids;
  context = c.context;
  status = AssertionStatus.active;
}

abbrev pub entity_from_command : CreateEntity → TxTime → Entity
entity_from_command c created_tx = record {
  id = c.id;
  entity_type = c.entity_type;
  canonical_name = c.canonical_name;
  properties = c.properties;
  created_tx = created_tx;
}

abbrev pub validate_sources : GraphState → List SourceId → Validated
validate_sources s = require_all (contains_key s.sources) GraphCommandError.unknown_source

abbrev pub validate_object : GraphState → GraphValue → Validated
validate_object s (GraphValue.entity id) =
    ensure (contains_key s.entities id) (GraphCommandError.unknown_entity id)
validate_object s _ = ok tt

unfoldable pub validate_assertion_refs : GraphState → AddAssertion → Validated
validate_assertion_refs s c = do
  ensure (contains_key s.entities c.subject) (GraphCommandError.unknown_entity c.subject)
  validate_object s c.object
  validate_sources s c.source_ids

-- `.map_err(GraphCommandError::Ontology)`
abbrev ontology_error : Checked → Validated
ontology_error (ok _) = ok tt
ontology_error (err e) = err (ontology e)

abbrev validate_with : Option GraphOntology → (GraphOntology → Checked) → Validated
validate_with none check = ok tt
validate_with (some o) check = ontology_error (check o)

unfoldable pub validate_create_entity : EventLog → CreateEntity → Validated
validate_create_entity log c = do
  ensure (not (contains_key log.state.entities c.id)) (duplicate_entity c.id)
  validate_with log.ontology λ o. validate_entity o (entity_from_command c log.last_tx)

unfoldable pub validate_add_assertion : EventLog → AddAssertion → Validated
validate_add_assertion log c = do
  validate_assertion_refs log.state c
  ensure (not (contains_key log.state.assertions c.id)) (duplicate_assertion c.id)
  ensure (not (is_empty c.source_ids)) empty_source_list
  validate_with log.ontology λ o.
      validate_assertions o
        (values log.state.assertions ++ assertion_from_command c log.last_tx ∷ [])
        log.state.entities

abbrev trust_score_valid : Option ℕ → Bool
trust_score_valid none = true
trust_score_valid (some score) = unit_contains score

unfoldable pub validate_add_source : GraphState → AddSource → Validated
validate_add_source s c = do
  ensure (not (contains_key s.sources c.id)) (duplicate_source c.id)
  ensure (trust_score_valid c.trust_score) invalid_trust_score

unfoldable pub validate_merge_entities : GraphState → MergeEntities → Validated
validate_merge_entities s c = do
  ensure (not (c.from == c.into)) invalid_entity_merge
  ensure (contains_key s.entities c.from) (GraphCommandError.unknown_entity c.from)
  ensure (contains_key s.entities c.into) (GraphCommandError.unknown_entity c.into)

unfoldable pub validate_record_agent_memory : GraphState → RecordAgentMemory → Validated
validate_record_agent_memory s c = do
  ensure (not (contains_key s.agent_memories c.memory.id)) (duplicate_memory c.memory.id)
  ensure (not (is_empty c.memory.source_ids)) empty_source_list
  validate_sources s c.memory.source_ids
  require_all (contains_key s.entities) GraphCommandError.unknown_entity c.memory.related_entities
  require_all (contains_key s.agent_memories) GraphCommandError.unknown_memory c.memory.supersedes

-- `EventLog::validate`
unfoldable pub validate : EventLog → GraphCommand → Validated
validate log (create_entity c) = validate_create_entity log c
validate log (add_assertion c) = validate_add_assertion log c
validate log (retract_assertion c) =
    ensure (contains_key log.state.assertions c.id) (GraphCommandError.unknown_assertion c.id)
validate log (add_source c) = validate_add_source log.state c
validate log (link_evidence c) = do
  ensure (contains_key log.state.assertions c.assertion_id)
      (GraphCommandError.unknown_assertion c.assertion_id)
  ensure (contains_key log.state.sources c.source_id) (GraphCommandError.unknown_source c.source_id)
validate log (merge_entities c) = validate_merge_entities log.state c
validate log (update_confidence c) = do
  ensure (contains_key log.state.assertions c.assertion_id)
      (GraphCommandError.unknown_assertion c.assertion_id)
  validate_sources log.state c.source_ids
validate log (add_causal_link c) = do
  ensure (not (contains_key log.state.causal_links c.id)) (duplicate_causal_link c.id)
  validate_sources log.state c.source_ids
validate log (record_agent_memory c) = validate_record_agent_memory log.state c
