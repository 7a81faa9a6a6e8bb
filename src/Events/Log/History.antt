-- ===== src/Events/Log/History.antt =====
-- crates/rg-events/src/lib.rs: `execute` and `replay`, the log against the state.
use hotgraph.Prelude.{
  ◌≡◌, refl, ◌∙◌, ap, ◌⊎◌, inl, inr, List, [], ◌∷◌, Option, ◌++◌, string_ord, arith, Result, ok,
  err, ◌>>=◌, Result-cases,
}
use hotgraph.Prelude.Int.{i64_next, u64_next}
use hotgraph.Core.Types.{TxTime}
use hotgraph.Core.Ontology.Schema.{GraphOntology}
use hotgraph.Events.Command.{GraphCommand, GraphCommandError, GraphReplayError}
use hotgraph.Events.Event.{GraphEvent}
use hotgraph.Events.State.{GraphState, new as new_state}
use hotgraph.Events.Apply.{apply_event, outcome, replay_from, replay}
use hotgraph.Events.Validate.{EventLog, validate}
use hotgraph.Events.Log.{new, event_of, execute, rebuild_indexes}
use hotgraph.Events.Log.Total.{apply-event_of}

-- The log after the event of a valid command.
abbrev pub extended : EventLog → GraphEvent → GraphState → EventLog
extended log event state = record log {
  events = log.events ++ event ∷ [];
  state = state;
  last_tx = i64_next log.last_tx;
  next_sequence = u64_next log.next_sequence;
}

-- A command is refused by `validate` and changes nothing, or it is valid.
abbrev pub Refused : EventLog → GraphCommand → Type 0
Refused log c = (e : GraphCommandError) × (validate log c ≡ err e) × (execute log c ≡ (log, err e))

abbrev pub Accepted : EventLog → GraphCommand → Type 0
Accepted log c =
    (state : GraphState) × (validate log c ≡ ok tt)
    × (apply_event log.state (event_of log c) ≡ (state, ok tt))
    × (execute log c ≡ (extended log (event_of log c) state, ok (event_of log c)))

-- Every command is refused by its validation and then changes nothing, or it is valid, and then
-- its event is applied without an error, appended to the log, and returned.
pub execute_cases : (log : EventLog) (c : GraphCommand) → Refused log c ⊎ Accepted log c
unfolding execute
execute_cases log c = elim (Result-cases (validate log c)) [
  | inr (e, h) ↦ inl (e, h, rw (h, execute))
  | inl (u, h) ↦
      let done = apply-event_of log c h in
      inr ((apply_event log.state (event_of log c)).0, h, ground arith, ground arith)
]

-- A command that fails leaves the whole log as it was.
pub execute_failure_unchanged :
    (log : EventLog) (c : GraphCommand) (e : GraphCommandError)
    → (execute log c).1 ≡ err e
    → ((execute log c).0 ≡ log) × (validate log c ≡ err e)
execute_failure_unchanged log c e h = elim (execute_cases log c) [
  | inl (f, v, x) ↦ ground arith
  | inr (s, v, a, x) ↦ ground arith
]

replay_step :
    (r : Result GraphState GraphReplayError) (xs : List GraphEvent) (e : GraphEvent)
    (t : GraphState)
    → (r >>= λ n. replay_from n xs) ≡ ok t
    → ((n : GraphState)
        → replay_from n xs ≡ ok t
        → replay_from n (xs ++ e ∷ []) ≡ outcome (apply_event t e))
    → (r >>= λ n. replay_from n (xs ++ e ∷ [])) ≡ outcome (apply_event t e)
replay_step (ok n) xs e t h ih = ih n h
replay_step (err f) xs e t h ih = cc

outcome->>= : (r : Result GraphState GraphReplayError) → (r >>= λ n. replay_from n []) ≡ r
unfolding replay_from
outcome->>= (ok n) = refl
outcome->>= (err f) = refl

-- Replay is incremental: one more event is applied to the state that the others gave.
pub replay_from-append :
    (xs : List GraphEvent) (e : GraphEvent) (s t : GraphState)
    → replay_from s xs ≡ ok t
    → replay_from s (xs ++ e ∷ []) ≡ outcome (apply_event t e)
unfolding replay_from
replay_from-append [] e s t h = ground (arith, outcome->>= (outcome (apply_event t e)), h)
replay_from-append (x ∷ xs) e s t h =
    replay_step (outcome (apply_event s x)) xs e t h (λ n. replay_from-append xs e n t)

-- Replaying the events gives the state.
abbrev pub IsReplayed : EventLog → Type 0
IsReplayed log = replay log.events ≡ ok log.state

accepted-IsReplayed :
    (log : EventLog) (e : GraphEvent) (s : GraphState)
    → IsReplayed log
    → apply_event log.state e ≡ (s, ok tt)
    → IsReplayed (extended log e s)
unfolding replay
accepted-IsReplayed log e s h a =
    replay_from-append log.events e new_state log.state h ∙ ap outcome a

-- Whatever the command and its outcome, the log still replays to the state.
pub execute-IsReplayed :
    (log : EventLog) (c : GraphCommand) → IsReplayed log → IsReplayed (execute log c).0
execute-IsReplayed log c h = elim (execute_cases log c) [
  | inl (e, v, x) ↦ rw x h
  | inr (s, v, a, x) ↦ rw x (accepted-IsReplayed log (event_of log c) s h a)
]

-- The log after some commands, each with its own success or failure.
unfoldable pub run : EventLog → List GraphCommand → EventLog
run log [] = log
run log (c ∷ cs) = run (execute log c).0 cs

pub run-IsReplayed :
    (log : EventLog) (cs : List GraphCommand) → IsReplayed log → IsReplayed (run log cs)
unfolding run
run-IsReplayed log [] h = h
run-IsReplayed log (c ∷ cs) h = run-IsReplayed (execute log c).0 cs (execute-IsReplayed log c h)

-- After any commands on a new log, with an ontology or without, the state is the replay of the
-- events: whatever state is put in its place, rebuilding succeeds and gives the log back as it was.
pub rebuild_after_run :
    (start : TxTime) (o : Option GraphOntology) (cs : List GraphCommand) (damaged : GraphState)
    → let log = run (record (new start) { ontology = o }) cs in
      rebuild_indexes (record log { state = damaged }) ≡ (log, ok tt)
unfolding rebuild_indexes
rebuild_after_run start o cs damaged = ground (
  arith,
  run-IsReplayed (record (new start) { ontology = o }) cs (unfold replay replay_from in refl),
)
