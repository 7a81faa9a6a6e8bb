-- ===== src/Events/Apply.antt =====
-- crates/rg-events/src/lib.rs: `GraphState::apply_event` and `GraphState::replay`. Each event has
-- a function; what was written before an error stays written, so the state comes back beside it.
pub mod Keeps
use hotgraph.Prelude.{
  String, List, [], ◌∷◌, ◌++◌, some, string_ord, if◌then◌else◌, Bool, Result, ok, err, ensure,
  ◌>>=◌, ◌>>◌,
}
use hotgraph.Prelude.Lists.{contains, sort_dedup}
use hotgraph.Prelude.Map.{BTreeMap, get, get_or, insert, update, contains_key}
use hotgraph.Core.Types.{
  EntityId, SourceId, MemoryId, TxTime, GraphValue, Assertion, AssertionStatus, MemoryStatus,
  AgentMemory,
}
use hotgraph.Events.Command.{
  GraphReplayError, unknown_entity, unknown_assertion, unknown_source, unknown_memory,
}
use hotgraph.Events.Event.{
  GraphEvent, EntityCreated, AssertionAdded, AssertionRetracted, SourceAdded, EvidenceLinked,
  EntityMerged, ConfidenceUpdated, CausalLinkAdded, AgentMemoryRecorded, entity_created,
  assertion_added, assertion_retracted, source_added, evidence_linked, entity_merged,
  confidence_updated, causal_link_added, agent_memory_recorded,
}
use hotgraph.Events.State.{GraphState, new}

abbrev pub Checked : Type 0
Checked = Result (Unit {0}) GraphReplayError

abbrev pub Applied : Type 0
Applied = GraphState × Checked

-- a branch of `apply_event` that writes only behind its checks
abbrev pub write_if : Checked → GraphState → GraphState → Applied
write_if (ok _) before after = (after, ok tt)
write_if (err e) before after = (before, err e)

-- `for id in ids { if !known { return Err(..) } }`
unfoldable pub require_all {κ} :
    {E : Type κ} → (String → Bool) → (String → E) → List String → Result (Unit {0}) E
require_all known error [] = ok tt
require_all known error (id ∷ ids) = do ensure (known id) (error id); require_all known error ids

abbrev pub require_sources : GraphState → List SourceId → Checked
require_sources s = require_all (contains_key s.sources) unknown_source

abbrev pub require_entities : GraphState → List EntityId → Checked
require_entities s = require_all (contains_key s.entities) unknown_entity

abbrev pub require_object : GraphState → GraphValue → Checked
require_object s (GraphValue.entity id) = ensure (contains_key s.entities id) (unknown_entity id)
require_object s _ = ok tt

unfoldable pub apply_entity_created : GraphState → EntityCreated → Applied
apply_entity_created s e = (record s { entities = insert s.entities e.entity.id e.entity }, ok tt)

-- `entry(key).or_default().push(item)`, then `sort` and `dedup`
unfoldable pub push_sorted :
    BTreeMap String (List String) → String → String → BTreeMap String (List String)
push_sorted m key item = insert m key (sort_dedup (get_or (get m key) [] ++ item ∷ []))

unfoldable pub apply_assertion_added : GraphState → AssertionAdded → Applied
unfolding push_sorted
apply_assertion_added s e =
    write_if
      (do
        ensure (contains_key s.entities e.assertion.subject) (unknown_entity e.assertion.subject)
        require_object s e.assertion.object
        require_sources s e.assertion.source_ids)
      s
      (record s {
        outgoing = push_sorted s.outgoing e.assertion.subject e.assertion.id;
        assertions = insert s.assertions e.assertion.id e.assertion;
      })

abbrev pub retract_at : TxTime → Assertion → Assertion
retract_at now a = record a {
  status = AssertionStatus.retracted;
  transaction_time = record a.transaction_time { end = some now };
}

unfoldable pub apply_assertion_retracted : GraphState → AssertionRetracted → Applied
apply_assertion_retracted s e =
    write_if (ensure (contains_key s.assertions e.assertion_id) (unknown_assertion e.assertion_id))
      s
      (record s { assertions = update s.assertions e.assertion_id (retract_at e.transaction_time) })

unfoldable pub apply_source_added : GraphState → SourceAdded → Applied
apply_source_added s e = (record s { sources = insert s.sources e.source.id e.source }, ok tt)

unfoldable pub apply_evidence_linked : GraphState → EvidenceLinked → Applied
unfolding push_sorted
apply_evidence_linked s e =
    write_if
      (do
        ensure (contains_key s.assertions e.assertion_id) (unknown_assertion e.assertion_id)
        ensure (contains_key s.sources e.source_id) (unknown_source e.source_id))
      s (record s { evidence_links = push_sorted s.evidence_links e.assertion_id e.source_id })

unfoldable pub apply_entity_merged : GraphState → EntityMerged → Applied
apply_entity_merged s e =
    write_if
      (do
        ensure (contains_key s.entities e.from) (unknown_entity e.from)
        ensure (contains_key s.entities e.into) (unknown_entity e.into))
      s (record s { merged_entities = insert s.merged_entities e.from e.into })

-- the sources that are new to the assertion are pushed
unfoldable pub push_new : List SourceId → List SourceId → List SourceId
push_new ids [] = ids
push_new ids (id ∷ more) = push_new (if contains ids id then ids else ids ++ id ∷ []) more

abbrev pub with_confidence : ConfidenceUpdated → Assertion → Assertion
with_confidence e a = record a {
  confidence = e.confidence;
  source_ids = sort_dedup (push_new a.source_ids e.source_ids);
}

unfoldable pub apply_confidence_updated : GraphState → ConfidenceUpdated → Applied
apply_confidence_updated s e =
    write_if
      (do
        require_sources s e.source_ids
        ensure (contains_key s.assertions e.assertion_id) (unknown_assertion e.assertion_id))
      s (record s { assertions = update s.assertions e.assertion_id (with_confidence e) })

unfoldable pub apply_causal_link_added : GraphState → CausalLinkAdded → Applied
apply_causal_link_added s e =
    write_if (require_sources s e.causal_link.source_ids) s
      (record s { causal_links = insert s.causal_links e.causal_link.id e.causal_link })

abbrev pub supersede : AgentMemory → AgentMemory
supersede m = record m { status = MemoryStatus.superseded }

-- Memories are marked one by one; an unknown one ends the loop.
unfoldable pub supersede_all :
    BTreeMap MemoryId AgentMemory → List MemoryId → BTreeMap MemoryId AgentMemory × Checked
supersede_all memories [] = (memories, ok tt)
supersede_all memories (id ∷ ids) =
    let rest = supersede_all (update memories id supersede) ids in
    if contains_key memories id then rest else (memories, err (unknown_memory id))

abbrev pub record_memory :
    GraphState → AgentMemory → BTreeMap MemoryId AgentMemory × Checked → Applied
record_memory s memory (memories, ok _) =
    (record s { agent_memories = insert memories memory.id memory }, ok tt)
record_memory s memory (memories, err e) = (record s { agent_memories = memories }, err e)

unfoldable pub apply_agent_memory_recorded : GraphState → AgentMemoryRecorded → Applied
apply_agent_memory_recorded s e =
    elim (require_sources s e.memory.source_ids >> require_entities s e.memory.related_entities) [
      | err error ↦ (s, err error)
      | ok _ ↦ record_memory s e.memory (supersede_all s.agent_memories e.memory.supersedes)
    ]

unfoldable pub apply_event : GraphState → GraphEvent → Applied
apply_event s (entity_created e) = apply_entity_created s e
apply_event s (assertion_added e) = apply_assertion_added s e
apply_event s (assertion_retracted e) = apply_assertion_retracted s e
apply_event s (source_added e) = apply_source_added s e
apply_event s (evidence_linked e) = apply_evidence_linked s e
apply_event s (entity_merged e) = apply_entity_merged s e
apply_event s (confidence_updated e) = apply_confidence_updated s e
apply_event s (causal_link_added e) = apply_causal_link_added s e
apply_event s (agent_memory_recorded e) = apply_agent_memory_recorded s e

abbrev pub outcome : Applied → Result GraphState GraphReplayError
outcome (s, ok _) = ok s
outcome (s, err e) = err e

unfoldable pub replay_from : GraphState → List GraphEvent → Result GraphState GraphReplayError
replay_from s [] = ok s
replay_from s (e ∷ events) = outcome (apply_event s e) >>= λ next. replay_from next events

-- `GraphState::replay`
unfoldable pub replay : List GraphEvent → Result GraphState GraphReplayError
unfolding replay_from
replay = replay_from new
