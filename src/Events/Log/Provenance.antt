-- ===== src/Events/Log/Provenance.antt =====
-- crates/rg-events/src/lib.rs: the sources and entities that assertions refer to.
use hotgraph.Prelude.{
  ◌≡◌, refl, sym, ◌∙◌, subst, List, [], ◌∷◌, true, ◌||◌, string_ord, arith, ok, inl, inr,
}
use hotgraph.Prelude.Int.{i64_next}
use hotgraph.Prelude.Lists.{all, contains, sort_dedup, contains-sort_dedup}
use hotgraph.Prelude.Map.{get, contains_key, insert}
use hotgraph.Core.Types.{AssertionId, SourceId, Assertion, GraphValue, TxTime}
use hotgraph.Events.Command.{
  GraphCommand, add_assertion, retract_assertion, update_confidence, AddAssertion,
  GraphCommandError,
}
use hotgraph.Events.Event.{AssertionAdded, ConfidenceUpdated, set_event_id}
use hotgraph.Events.State.{GraphState, new as new_state}
use hotgraph.Events.Apply.{
  Applied, push_new, push_sorted, apply_event, apply_entity_created, apply_assertion_added,
  apply_assertion_retracted, apply_source_added, apply_evidence_linked, apply_entity_merged,
  apply_confidence_updated, apply_causal_link_added, apply_agent_memory_recorded, retract_at,
  with_confidence,
}
use hotgraph.Events.Apply.Keeps.{apply_event-Kept}
use hotgraph.Events.Validate.{
  EventLog, validate, validate_add_assertion, validate_assertion_refs, validate_object,
  assertion_from_command,
}
use hotgraph.Events.Log.{event_of, event_from_command, execute}
use hotgraph.Events.Log.Total.{all-known, apply-event_of}
use hotgraph.Events.Log.Claims.{contains-push_new}
use hotgraph.Events.Log.History.{execute_cases, run}
use hotgraph.Events.Log.Grounded.{
  ObjectKnown, IsGrounded, HasProvenance, known_of_all, first-contains, HasProvenance-write,
  HasProvenance-Kept, HasProvenance-insert, HasProvenance-update,
}

IsGrounded-with_confidence :
    (s : GraphState) (k : AssertionId) (e : ConfidenceUpdated) (a : Assertion)
    → all (contains_key s.sources) e.source_ids ≡ true
    → IsGrounded s k a
    → IsGrounded s k (with_confidence e a)
IsGrounded-with_confidence s k e a known g = record {
  keyed = g.keyed;
  sourced = (g.sourced.0, ground (arith, members g.sourced.0, g.sourced.1));
  sources = λ src m. ground (
    arith,
    members src,
    g.sources src,
    known_of_all (contains_key s.sources) e.source_ids src known,
  );
  subject = g.subject;
  object = g.object;
}
  where
    members :
        (src : SourceId)
        → contains (sort_dedup (push_new a.source_ids e.source_ids)) src
          ≡ (contains a.source_ids src || contains e.source_ids src)
    members src =
        contains-sort_dedup (push_new a.source_ids e.source_ids) src
        ∙ contains-push_new a.source_ids e.source_ids src

-- What the guard of `apply_assertion_added` and the non-empty source list of the command give.
command-IsGrounded :
    (log : EventLog) (c : AddAssertion) (now : TxTime)
    → validate_add_assertion log c ≡ ok tt
    → IsGrounded log.state c.id (assertion_from_command c now)
unfolding validate_add_assertion validate_assertion_refs assertion_from_command
command-IsGrounded log c now h = record {
  keyed = refl;
  sourced = first-contains c.source_ids (ground arith);
  sources = λ src m.
      known_of_all (contains_key log.state.sources) c.source_ids src
        (all-known (contains_key log.state.sources) GraphCommandError.unknown_source c.source_ids
          (ground arith))
        m;
  subject = ground arith;
  object = object_known c.object (ground arith);
}
  where
    object_known :
        (v : GraphValue) → validate_object log.state v ≡ ok tt → ObjectKnown log.state.entities v
    object_known (GraphValue.entity id) e = ground arith
    object_known _ e = tt

pub added_state :
    (s : GraphState) (e : AssertionAdded)
    → (apply_assertion_added s e).1 ≡ ok tt
    → (apply_assertion_added s e).0 ≡ record s {
      outgoing = push_sorted s.outgoing e.assertion.subject e.assertion.id;
      assertions = insert s.assertions e.assertion.id e.assertion;
    }
unfolding apply_assertion_added
added_state s e h = ground arith

event_of-HasProvenance :
    (log : EventLog) (c : GraphCommand)
    → validate log c ≡ ok tt
    → HasProvenance log.state
    → HasProvenance (apply_event log.state (event_of log c)).0
unfolding validate event_of event_from_command assertion_from_command set_event_id apply_event
    apply_assertion_retracted apply_confidence_updated
event_of-HasProvenance log (add_assertion c) v h =
    let a = assertion_from_command c (i64_next log.last_tx) in
    let outgoing = push_sorted log.state.outgoing a.subject a.id in
    subst HasProvenance (sym (added_state log.state _ (apply-event_of log (add_assertion c) v))) (
      HasProvenance-insert log.state c.id a outgoing h
        (command-IsGrounded log c (i64_next log.last_tx) v))
event_of-HasProvenance log (retract_assertion c) v h = HasProvenance-write _ _ _ h λ _.
    HasProvenance-update log.state c.id (retract_at (i64_next log.last_tx)) h λ a g. record {
      keyed = g.keyed;
      sourced = g.sourced;
      sources = g.sources;
      subject = g.subject;
      object = g.object;
    }
event_of-HasProvenance log (update_confidence c) v h = HasProvenance-write _ _ _ h λ _.
    HasProvenance-update log.state c.assertion_id _ h (λ a.
      IsGrounded-with_confidence log.state c.assertion_id
        (record {
          event_id = "";
          transaction_time = i64_next log.last_tx;
          assertion_id = c.assertion_id;
          confidence = c.confidence;
          source_ids = c.source_ids;
        })
        a
        (all-known (contains_key log.state.sources) GraphCommandError.unknown_source c.source_ids
          (ground arith)))
event_of-HasProvenance log c v h =
    let kept = apply_event-Kept log.state (event_of log c) in
    HasProvenance-Kept log.state _
      (unfold apply_entity_created apply_source_added apply_evidence_linked apply_entity_merged
          apply_causal_link_added apply_agent_memory_recorded in
        ground arith)
      kept.0 kept.2 h

-- Whatever the command and its outcome, every assertion stays grounded.
pub execute-HasProvenance :
    (log : EventLog) (c : GraphCommand)
    → HasProvenance log.state
    → HasProvenance (execute log c).0.state
execute-HasProvenance log c h = elim (execute_cases log c) [
  | inl (e, v, x) ↦ rw x h
  | inr (s, v, a, x) ↦
      rw x (subst (λ (r : Applied). HasProvenance r.0) a (event_of-HasProvenance log c v h))
]

-- After any commands on a log whose assertions are grounded, every assertion is under its
-- identifier and has a source, and the sources and entities that it names are in the state.
pub run-HasProvenance :
    (log : EventLog) (cs : List GraphCommand)
    → HasProvenance log.state
    → HasProvenance (run log cs).state
unfolding run
run-HasProvenance log [] h = h
run-HasProvenance log (c ∷ cs) h =
    run-HasProvenance (execute log c).0 cs (execute-HasProvenance log c h)

pub HasProvenance-new : HasProvenance new_state
HasProvenance-new = record { at_key = λ k a e. unfold get in cc }
