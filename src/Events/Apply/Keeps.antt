-- ===== src/Events/Apply/Keeps.antt =====
-- crates/rg-events/src/lib.rs: the keys of the state before and after an event.
use hotgraph.Prelude.{◌≡◌, refl, String, List, [], ◌∷◌, true, string_ord, arith}
use hotgraph.Prelude.Map.{BTreeMap, contains_key, update, contains_key-insert, contains_key-update}
use hotgraph.Core.Types.{MemoryId, AgentMemory}
use hotgraph.Events.Event.{
  GraphEvent, entity_created, assertion_added, assertion_retracted, source_added,
  confidence_updated, causal_link_added, agent_memory_recorded,
}
use hotgraph.Events.State.{GraphState}
use hotgraph.Events.Apply.{
  supersede, supersede_all, apply_event, apply_entity_created, apply_assertion_added,
  apply_assertion_retracted, apply_source_added, apply_evidence_linked, apply_entity_merged,
  apply_confidence_updated, apply_causal_link_added, apply_agent_memory_recorded, retract_at,
  with_confidence,
}

-- Every key of the first map is one of the second.
abbrev pub Kept {ℓ} : {V : Type ℓ} → BTreeMap String V → BTreeMap String V → Type 0
Kept m n = (k : String) → contains_key m k ≡ true → contains_key n k ≡ true

supersede_all-Kept :
    (m : BTreeMap MemoryId AgentMemory) (ids : List MemoryId) (k : MemoryId)
    → contains_key (supersede_all m ids).0 k ≡ contains_key m k
unfolding supersede_all
supersede_all-Kept m [] k = refl
supersede_all-Kept m (id ∷ ids) k =
    ground (
      arith,
      supersede_all-Kept (update m id supersede) ids k,
      contains_key-update m id supersede k,
    )

module _ (s : GraphState) where
  entities-Kept : (e : GraphEvent) → Kept s.entities (apply_event s e).0.entities
  unfolding apply_event apply_entity_created apply_assertion_added apply_assertion_retracted
      apply_source_added apply_evidence_linked apply_entity_merged apply_confidence_updated
      apply_causal_link_added apply_agent_memory_recorded
  entities-Kept (entity_created e) k h =
      ground (arith, contains_key-insert s.entities e.entity.id e.entity k)
  entities-Kept _ k h = ground arith

  assertions-Kept : (e : GraphEvent) → Kept s.assertions (apply_event s e).0.assertions
  unfolding apply_event apply_entity_created apply_assertion_added apply_assertion_retracted
      apply_source_added apply_evidence_linked apply_entity_merged apply_confidence_updated
      apply_causal_link_added apply_agent_memory_recorded
  assertions-Kept (assertion_added e) k h =
      ground (arith, contains_key-insert s.assertions e.assertion.id e.assertion k)
  assertions-Kept (assertion_retracted e) k h =
      ground
        (arith, contains_key-update s.assertions e.assertion_id (retract_at e.transaction_time) k)
  assertions-Kept (confidence_updated e) k h =
      ground (arith, contains_key-update s.assertions e.assertion_id (with_confidence e) k)
  assertions-Kept _ k h = ground arith

  sources-Kept : (e : GraphEvent) → Kept s.sources (apply_event s e).0.sources
  unfolding apply_event apply_entity_created apply_assertion_added apply_assertion_retracted
      apply_source_added apply_evidence_linked apply_entity_merged apply_confidence_updated
      apply_causal_link_added apply_agent_memory_recorded
  sources-Kept (source_added e) k h =
      ground (arith, contains_key-insert s.sources e.source.id e.source k)
  sources-Kept _ k h = ground arith

  causal_links-Kept : (e : GraphEvent) → Kept s.causal_links (apply_event s e).0.causal_links
  unfolding apply_event apply_entity_created apply_assertion_added apply_assertion_retracted
      apply_source_added apply_evidence_linked apply_entity_merged apply_confidence_updated
      apply_causal_link_added apply_agent_memory_recorded
  causal_links-Kept (causal_link_added e) k h =
      ground (arith, contains_key-insert s.causal_links e.causal_link.id e.causal_link k)
  causal_links-Kept _ k h = ground arith

  agent_memories-Kept : (e : GraphEvent) → Kept s.agent_memories (apply_event s e).0.agent_memories
  unfolding apply_event apply_entity_created apply_assertion_added apply_assertion_retracted
      apply_source_added apply_evidence_linked apply_entity_merged apply_confidence_updated
      apply_causal_link_added apply_agent_memory_recorded
  agent_memories-Kept (agent_memory_recorded e) k h = ground (
    arith,
    supersede_all-Kept s.agent_memories e.memory.supersedes k,
    contains_key-insert (supersede_all s.agent_memories e.memory.supersedes).0 e.memory.id e.memory
        k,
  )
  agent_memories-Kept _ k h = ground arith

  -- Whatever the event, and also where it is refused half-way, no entity, assertion, source, causal
  -- link or memory disappears from the state.
  pub apply_event-Kept :
      (e : GraphEvent)
      → let t = (apply_event s e).0 in
        Kept s.entities t.entities
        × Kept s.assertions t.assertions
        × Kept s.sources t.sources
        × Kept s.causal_links t.causal_links
        × Kept s.agent_memories t.agent_memories
  apply_event-Kept e = (
    entities-Kept e,
    assertions-Kept e,
    sources-Kept e,
    causal_links-Kept e,
    agent_memories-Kept e,
  )
