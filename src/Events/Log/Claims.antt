-- ===== src/Events/Log/Claims.antt =====
-- crates/rg-events/src/lib.rs: what commands do to the assertions that are there.
use hotgraph.Prelude.{
  Bool-cases, ◌≡◌, ◌∙◌, refl, subst, List, [], ◌∷◌, ◌++◌, true, ◌||◌, ◌==◌, eq_iff, some, none,
  string_ord, arith, ok, err, inl, inr,
}
use hotgraph.Prelude.Lists.{contains, contains-append, contains-sort_dedup}
use hotgraph.Prelude.Map.{BTreeMap, get, contains_key, update, get-insert, get-update, insert}
use hotgraph.Prelude.Int.{i64_next}
use hotgraph.Core.Types.{AssertionId, SourceId, Assertion, TxTime}
use hotgraph.Events.Command.{GraphCommand, add_assertion, retract_assertion, update_confidence}
use hotgraph.Events.Event.{ConfidenceUpdated, set_event_id}
use hotgraph.Events.State.{GraphState}
use hotgraph.Events.Apply.{
  Applied, Checked, write_if, push_new, apply_event, apply_entity_created, apply_assertion_added,
  apply_assertion_retracted, apply_source_added, apply_evidence_linked, apply_entity_merged,
  apply_confidence_updated, apply_causal_link_added, apply_agent_memory_recorded, retract_at,
  with_confidence,
}
use hotgraph.Events.Validate.{EventLog, validate, validate_add_assertion, assertion_from_command}
use hotgraph.Events.Log.{event_of, event_from_command, execute}
use hotgraph.Events.Log.History.{execute_cases, run}

pub contains-push_new :
    (ids more : List SourceId) (a : SourceId)
    → contains (push_new ids more) a ≡ (contains ids a || contains more a)
unfolding contains push_new
contains-push_new ids [] a = ground arith
contains-push_new ids (id ∷ more) a = ground (
  arith,
  contains-push_new ids more a,
  contains-push_new (ids ++ id ∷ []) more a,
  contains-append ids (id ∷ []) a,
  eq_iff id a,
)

-- `b` makes the claim of `a`, on its sources at least, from the same transaction time on.
pub record SameClaim (a b : Assertion) : Type 0 where
  pub id : b.id ≡ a.id
  pub subject : b.subject ≡ a.subject
  pub predicate : b.predicate ≡ a.predicate
  pub object : b.object ≡ a.object
  pub valid_time : b.valid_time ≡ a.valid_time
  pub context : b.context ≡ a.context
  pub recorded : b.transaction_time.start ≡ a.transaction_time.start
  pub sources : (s : SourceId) → contains a.source_ids s ≡ true → contains b.source_ids s ≡ true

SameClaim-refl : (a : Assertion) → SameClaim a a
SameClaim-refl a = record {
  id = refl;
  subject = refl;
  predicate = refl;
  object = refl;
  valid_time = refl;
  context = refl;
  recorded = refl;
  sources = λ s h. h;
}

SameClaim-trans : (a b c : Assertion) → SameClaim a b → SameClaim b c → SameClaim a c
SameClaim-trans a b c p q = record {
  id = q.id ∙ p.id;
  subject = q.subject ∙ p.subject;
  predicate = q.predicate ∙ p.predicate;
  object = q.object ∙ p.object;
  valid_time = q.valid_time ∙ p.valid_time;
  context = q.context ∙ p.context;
  recorded = q.recorded ∙ p.recorded;
  sources = λ s h. q.sources s (p.sources s h);
}

SameClaim-retract_at : (now : TxTime) (a : Assertion) → SameClaim a (retract_at now a)
SameClaim-retract_at now a = record {
  id = refl;
  subject = refl;
  predicate = refl;
  object = refl;
  valid_time = refl;
  context = refl;
  recorded = refl;
  sources = λ s h. h;
}

SameClaim-with_confidence :
    (e : ConfidenceUpdated) (a : Assertion) → SameClaim a (with_confidence e a)
SameClaim-with_confidence e a = record {
  id = refl;
  subject = refl;
  predicate = refl;
  object = refl;
  valid_time = refl;
  context = refl;
  recorded = refl;
  sources = λ s h. ground (
    arith,
    contains-sort_dedup (push_new a.source_ids e.source_ids) s,
    contains-push_new a.source_ids e.source_ids s,
  );
}

-- Every assertion of the first map is in the second, with its claim.
abbrev pub Continues : BTreeMap AssertionId Assertion → BTreeMap AssertionId Assertion → Type 0
Continues m n =
    (k : AssertionId) (a : Assertion)
    → get m k ≡ some a
    → (b : Assertion) × (get n k ≡ some b) × SameClaim a b

Continues-refl : (m : BTreeMap AssertionId Assertion) → Continues m m
Continues-refl m k a h = (a, h, SameClaim-refl a)

same-Continues : {m n : BTreeMap AssertionId Assertion} → n ≡ m → Continues m n
same-Continues {m} e = rw e (Continues-refl m)

-- A guarded write continues the assertions if the write does.
Continues-write :
    (guard : Checked) (s t : GraphState)
    → Continues s.assertions t.assertions
    → Continues s.assertions (write_if guard s t).0.assertions
Continues-write (ok _) s t h = h
Continues-write (err e) s t h = Continues-refl s.assertions

Continues-update :
    (m : BTreeMap AssertionId Assertion) (id : AssertionId) (f : Assertion → Assertion)
    → ((a : Assertion) → SameClaim a (f a))
    → Continues m (update m id f)
Continues-update m id f same k a h = elim (Bool-cases (id == k)) [
  | inl e ↦ (f a, ground (arith, get-update m id f k), same a)
  | inr e ↦ (a, ground (arith, get-update m id f k), SameClaim-refl a)
]

Continues-insert :
    (m : BTreeMap AssertionId Assertion) (id : AssertionId) (v : Assertion)
    → get m id ≡ none
    → Continues m (insert m id v)
Continues-insert m id v fresh k a h =
    (a, ground (arith, get-insert m id v k, eq_iff id k), SameClaim-refl a)

Continues-trans :
    (l m n : BTreeMap AssertionId Assertion) → Continues l m → Continues m n → Continues l n
Continues-trans l m n p q k a h =
    let (b, g, f) = p k a h in let (c, g', f') = q k b g in (c, g', SameClaim-trans a b c f f')

-- The event of a valid command leaves every claim in place.
event_of-Continues :
    (log : EventLog) (c : GraphCommand)
    → validate log c ≡ ok tt
    → Continues log.state.assertions (apply_event log.state (event_of log c)).0.assertions
unfolding validate event_of event_from_command set_event_id apply_event apply_entity_created
    apply_source_added apply_evidence_linked apply_entity_merged apply_causal_link_added
    apply_assertion_added apply_assertion_retracted apply_confidence_updated
    apply_agent_memory_recorded
event_of-Continues log (add_assertion c) h = Continues-write _ _ _ (
    Continues-insert log.state.assertions c.id (assertion_from_command c (i64_next log.last_tx))
      (unfold validate_add_assertion contains_key in ground arith))
event_of-Continues log (retract_assertion c) h = Continues-write _ _ _ (
    Continues-update log.state.assertions c.id (retract_at (i64_next log.last_tx))
      (SameClaim-retract_at (i64_next log.last_tx)))
event_of-Continues log (update_confidence c) h = Continues-write _ _ _ (
    Continues-update log.state.assertions c.assertion_id _ (
      SameClaim-with_confidence (record {
        event_id = "";
        transaction_time = i64_next log.last_tx;
        assertion_id = c.assertion_id;
        confidence = c.confidence;
        source_ids = c.source_ids;
      })))
event_of-Continues log _ h = same-Continues (ground arith)

-- Whatever the command and its outcome, every assertion stays, with its claim.
pub execute-Continues :
    (log : EventLog) (c : GraphCommand)
    → Continues log.state.assertions (execute log c).0.state.assertions
execute-Continues log c = elim (execute_cases log c) [
  | inl (e, v, x) ↦ rw x (Continues-refl log.state.assertions)
  | inr (s, v, a, x) ↦ rw x (
      subst (λ (r : Applied). Continues log.state.assertions r.0.assertions) a
        (event_of-Continues log c v))
]

-- After any commands every assertion that was there is there, with the same identifier, subject,
-- predicate, object, valid time, context and time of recording, and with all its sources.
pub run-Continues :
    (log : EventLog) (cs : List GraphCommand)
    → Continues log.state.assertions (run log cs).state.assertions
unfolding run
run-Continues log [] = Continues-refl log.state.assertions
run-Continues log (c ∷ cs) =
    Continues-trans log.state.assertions (execute log c).0.state.assertions
      (run (execute log c).0 cs).state.assertions (execute-Continues log c)
      (run-Continues (execute log c).0 cs)
