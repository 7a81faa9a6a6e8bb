-- ===== src/Events/Log/Reopen.antt =====
-- crates/rg-events/src/lib.rs: `EventLog::from_events` on the events of a log.
use hotgraph.Prelude.{
  ◌≢◌, ◌≡◌, refl, ◌∙◌, List, [], ◌∷◌, ◌++◌, Option, none, ◌+◌, ◌<◌, ◌%◌, ◌⊎◌, inl, inr, arith, ok,
}
use hotgraph.Prelude.Int.{u64_next}
use hotgraph.Prelude.Lists.{length, length-append}
use hotgraph.Core.Types.{TxTime}
use hotgraph.Core.Ontology.Schema.{GraphOntology}
use hotgraph.Events.Command.{GraphCommand}
use hotgraph.Events.Event.{GraphEvent, transaction_time}
use hotgraph.Events.Apply.{replay, replay_from}
use hotgraph.Events.Validate.{EventLog}
use hotgraph.Events.Log.{new, from_events, event_of, execute, last_transaction_time}
use hotgraph.Events.Log.History.{execute_cases, run, run-IsReplayed}
use hotgraph.Events.Log.Times.{transaction_time-event_of}

last_transaction_time-snoc :
    (es : List GraphEvent) (e : GraphEvent)
    → last_transaction_time (es ++ e ∷ []) ≡ transaction_time e
last_transaction_time-snoc [] e = refl
last_transaction_time-snoc (d ∷ []) e = refl
last_transaction_time-snoc (d ∷ f ∷ es) e = last_transaction_time-snoc (f ∷ es) e

not-snoc : (es : List GraphEvent) (e : GraphEvent) → (es ++ e ∷ []) ≢ []
not-snoc [] e h = cc
not-snoc (d ∷ es) e h = cc

-- The clock is the time of the last event, and the next number follows from how many there are.
record IsClocked (log : EventLog) : Type 0 where
  pub last : (log.events ≡ []) ⊎ (last_transaction_time log.events ≡ log.last_tx)
  pub sequence : log.next_sequence ≡ (length log.events + 1) % 18446744073709551616

execute-IsClocked :
    (log : EventLog) (c : GraphCommand) → IsClocked log → IsClocked (execute log c).0
unfolding u64_next
execute-IsClocked log c h = elim (execute_cases log c) [
  | inl (e, v, x) ↦ rw x h
  | inr (s, v, a, x) ↦ rw x (record {
    last =
        inr (
          last_transaction_time-snoc log.events (event_of log c) ∙ transaction_time-event_of log c);
    sequence = omega (arith, h.sequence, length-append log.events (event_of log c ∷ []));
  })
]

run-IsClocked : (log : EventLog) (cs : List GraphCommand) → IsClocked log → IsClocked (run log cs)
unfolding run
run-IsClocked log [] h = h
run-IsClocked log (c ∷ cs) h = run-IsClocked (execute log c).0 cs (execute-IsClocked log c h)

-- Take a log after any commands on a new one, with some events but fewer than 2^64 - 1. To store its
-- events and to open a log from them gives it back: the events, the state, the clock and the next
-- sequence number are as they were, and only the ontology is gone.
pub from_events_after_run :
    (start : TxTime) (o : Option GraphOntology) (cs : List GraphCommand)
    → let log = run (record (new start) { ontology = o }) cs in
      length log.events < 18446744073709551615
      → log.events ≢ []
      → from_events log.events ≡ ok (record log { ontology = none })
unfolding from_events
from_events_after_run start o cs room some_event =
    let empty = record (new start) { ontology = o } in
    let log = run empty cs in
    let replayed = run-IsReplayed empty cs (unfold replay replay_from in refl) in
    let h = run-IsClocked empty cs (record { last = inl refl; sequence = refl }) in
    let sequence : log.next_sequence ≡ length log.events + 1 = omega (arith, h.sequence, room) in
    elim h.last [
      | inl none_yet ↦ ground (arith, some_event none_yet)
      | inr last ↦ ground (arith, replayed, last, sequence)
    ]
