-- ===== src/Events/Log/Times.antt =====
-- crates/rg-events/src/lib.rs: the transaction times along the log.
use hotgraph.Prelude.{
  ◌≡◌, refl, subst, List, [], ◌∷◌, ◌++◌, true, lt, le, arith, inl, inr, string_ord,
}
use hotgraph.Prelude.Int.{ℤ_ord, pos, i64_max, i64_next, lt-i64_next}
use hotgraph.Prelude.Lists.{All}
use hotgraph.Core.Types.{TxTime}
use hotgraph.Events.Command.{GraphCommand, create_entity}
use hotgraph.Events.Event.{GraphEvent, transaction_time, set_event_id}
use hotgraph.Events.State.{GraphState}
use hotgraph.Events.Validate.{EventLog}
use hotgraph.Events.Log.{event_of, event_from_command, execute}
use hotgraph.Events.Log.History.{execute_cases, extended}

-- Each event is later than those before it.
abbrev pub Rising : List GraphEvent → Type 0
Rising [] = Unit
Rising (e ∷ es) = All (λ f. lt (transaction_time e) (transaction_time f) ≡ true) es × Rising es

pub record IsTimed (log : EventLog) : Type 0 where
  pub rising : Rising log.events
  pub bounded : All (λ e. le (transaction_time e) log.last_tx ≡ true) log.events

pub transaction_time-event_of :
    (log : EventLog) (c : GraphCommand) → transaction_time (event_of log c) ≡ i64_next log.last_tx
unfolding transaction_time event_of event_from_command set_event_id
transaction_time-event_of log (create_entity c) = refl
transaction_time-event_of log _ = refl

All-snoc :
    (t : TxTime) (es : List GraphEvent) (f : GraphEvent)
    → All (λ e. le (transaction_time e) t ≡ true) es
    → lt t (transaction_time f) ≡ true
    → All (λ e. lt (transaction_time e) (transaction_time f) ≡ true) es
All-snoc t [] f h p = tt
All-snoc t (e ∷ es) f h p = (ground arith, All-snoc t es f h.1 p)

All-lt-snoc :
    (e : GraphEvent) (es : List GraphEvent) (f : GraphEvent)
    → All (λ g. lt (transaction_time e) (transaction_time g) ≡ true) es
    → lt (transaction_time e) (transaction_time f) ≡ true
    → All (λ g. lt (transaction_time e) (transaction_time g) ≡ true) (es ++ f ∷ [])
All-lt-snoc e [] f h p = (p, tt)
All-lt-snoc e (g ∷ es) f h p = (h.0, All-lt-snoc e es f h.1 p)

Rising-snoc :
    (es : List GraphEvent) (f : GraphEvent)
    → Rising es
    → All (λ e. lt (transaction_time e) (transaction_time f) ≡ true) es
    → Rising (es ++ f ∷ [])
Rising-snoc [] f r h = (tt, tt)
Rising-snoc (e ∷ es) f r h = (All-lt-snoc e es f r.0 h.0, Rising-snoc es f r.1 h.1)

bounded-snoc :
    (t : TxTime) (es : List GraphEvent) (f : GraphEvent)
    → All (λ e. le (transaction_time e) t ≡ true) es
    → lt t (transaction_time f) ≡ true
    → All (λ e. le (transaction_time e) (transaction_time f) ≡ true) (es ++ f ∷ [])
bounded-snoc t [] f h p = (ground arith, tt)
bounded-snoc t (e ∷ es) f h p = (ground arith, bounded-snoc t es f h.1 p)

module _ (log : EventLog) (c : GraphCommand) (room : lt log.last_tx (pos i64_max) ≡ true) where
  later : lt log.last_tx (transaction_time (event_of log c)) ≡ true
  later = rw (transaction_time-event_of log c) (lt-i64_next log.last_tx room)

  -- While the clock has not reached the largest `i64`, every command keeps the transaction times
  -- strictly rising along the log and bounded by the clock, which never goes back.
  pub execute-IsTimed :
      IsTimed log → IsTimed (execute log c).0 × (le log.last_tx (execute log c).0.last_tx ≡ true)
  execute-IsTimed h = elim (execute_cases log c) [
    | inl (e, v, x) ↦ rw x (h, ground arith)
    | inr (s, v, a, x) ↦ rw x (accepted s, ground (arith, lt-i64_next log.last_tx room))
  ]
    where
      accepted : (s : GraphState) → IsTimed (extended log (event_of log c) s)
      accepted s = record {
        rising =
            Rising-snoc log.events (event_of log c) h.rising
              (All-snoc log.last_tx log.events (event_of log c) h.bounded later);
        bounded =
            subst
              (λ t. All (λ e. le (transaction_time e) t ≡ true) (log.events ++ event_of log c ∷ []))
              (transaction_time-event_of log c)
              (bounded-snoc log.last_tx log.events (event_of log c) h.bounded later);
      }
