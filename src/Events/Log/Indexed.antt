-- ===== src/Events/Log/Indexed.antt =====
-- crates/rg-events/src/lib.rs: the adjacency index `outgoing` along the log.
use hotgraph.Prelude.{
  ◌≡◌, refl, sym, subst, Bool-cases, String, List, [], ◌∷◌, ◌++◌, Bool, false, ◌&&◌, ◌||◌, ◌==◌,
  eq_iff, some, none, string_ord, arith, ok, err, inl, inr, Option, Option-cases,
}
use hotgraph.Prelude.Int.{i64_next}
use hotgraph.Prelude.Lists.{contains, contains-append, sort_dedup, contains-sort_dedup}
use hotgraph.Prelude.Sorted.{IsAscending, sort_dedup-IsAscending}
use hotgraph.Prelude.Map.{
  BTreeMap, get, get_or, contains_key, insert, update, get-insert, get-update,
}
use hotgraph.Core.Types.{AssertionId, EntityId, Assertion}
use hotgraph.Events.Command.{GraphCommand, add_assertion, retract_assertion, update_confidence}
use hotgraph.Events.Event.{set_event_id}
use hotgraph.Events.State.{GraphState, new as new_state}
use hotgraph.Events.Apply.{
  Applied, Checked, write_if, push_sorted, apply_event, apply_entity_created,
  apply_assertion_retracted, apply_source_added, apply_evidence_linked, apply_entity_merged,
  apply_confidence_updated, apply_causal_link_added, apply_agent_memory_recorded,
}
use hotgraph.Events.Validate.{EventLog, validate, validate_add_assertion, assertion_from_command}
use hotgraph.Events.Log.{event_of, event_from_command, execute}
use hotgraph.Events.Log.Total.{apply-event_of}
use hotgraph.Events.Log.Provenance.{added_state}
use hotgraph.Events.Log.History.{execute_cases, run}

abbrev pub has_subject : EntityId → Option Assertion → Bool
has_subject entity none = false
has_subject entity (some a) = a.subject == entity

abbrev pub indexed : GraphState → EntityId → List AssertionId
indexed s entity = get_or (get s.outgoing entity) []

-- The index lists under an entity exactly the assertions with that subject, each once, in order.
pub record IsIndexed (s : GraphState) : Type 0 where
  pub exact :
      (entity : EntityId) (id : AssertionId)
      → contains (indexed s entity) id ≡ has_subject entity (get s.assertions id)
  pub ascending : (entity : EntityId) → IsAscending (indexed s entity)

contains-singleton : (item i : String) → contains (item ∷ []) i ≡ (item == i)
unfolding contains
contains-singleton item i = ground arith

contains-push_sorted :
    (m : BTreeMap String (List String)) (key item k i : String)
    → contains (get_or (get (push_sorted m key item) k) []) i
      ≡ (contains (get_or (get m k) []) i || (key == k && item == i))
unfolding push_sorted
contains-push_sorted m key item k i =
    let ids = get_or (get m key) [] in
    ground (
      arith,
      get-insert m key (sort_dedup (ids ++ item ∷ [])) k,
      eq_iff key k,
      contains-sort_dedup (ids ++ item ∷ []) i,
      contains-append ids (item ∷ []) i,
      contains-singleton item i,
    )

push_sorted-IsAscending :
    (m : BTreeMap String (List String)) (key item k : String)
    → IsAscending (get_or (get m k) [])
    → IsAscending (get_or (get (push_sorted m key item) k) [])
unfolding push_sorted
push_sorted-IsAscending m key item k h =
    let ids = sort_dedup (get_or (get m key) [] ++ item ∷ []) in
    let e = get-insert m key ids k in
    elim (Bool-cases (key == k)) [
      | inl same ↦
          let p : get (push_sorted m key item) k ≡ some ids = ground (arith, e, same) in
          subst (λ o. IsAscending (get_or o [])) (sym p)
            (sort_dedup-IsAscending (get_or (get m key) [] ++ item ∷ []))
      | inr other ↦
          let p : get (push_sorted m key item) k ≡ get m k = ground (arith, e, other) in
          subst (λ o. IsAscending (get_or o [])) (sym p) h
    ]

IsIndexed-insert :
    (s : GraphState) (id : AssertionId) (a : Assertion)
    → get s.assertions id ≡ none
    → IsIndexed s
    → IsIndexed (record s {
      outgoing = push_sorted s.outgoing a.subject id;
      assertions = insert s.assertions id a;
    })
IsIndexed-insert s id a fresh h = record {
  exact = λ entity i. ground (
    arith,
    contains-push_sorted s.outgoing a.subject id entity i,
    get-insert s.assertions id a i,
    h.exact entity i,
    eq_iff id i,
  );
  ascending = λ entity. push_sorted-IsAscending s.outgoing a.subject id entity (h.ascending entity);
}

IsIndexed-update :
    (s : GraphState) (id : AssertionId) (f : Assertion → Assertion)
    → ((a : Assertion) → (f a).subject ≡ a.subject)
    → IsIndexed s
    → IsIndexed (record s { assertions = update s.assertions id f })
IsIndexed-update s id f same h = record { exact = at; ascending = h.ascending }
  where
    at :
        (entity : EntityId) (i : AssertionId)
        → contains (indexed s entity) i ≡ has_subject entity (get (update s.assertions id f) i)
    at entity i = elim (Option-cases (get s.assertions i)) [
      | inl missing ↦ ground (arith, h.exact entity i, get-update s.assertions id f i)
      | inr (a, held) ↦ ground (arith, h.exact entity i, get-update s.assertions id f i, same a)
    ]

IsIndexed-write :
    (guard : Checked) (s t : GraphState)
    → IsIndexed s
    → IsIndexed t
    → IsIndexed (write_if guard s t).0
IsIndexed-write (ok _) s t h k = k
IsIndexed-write (err e) s t h k = h

IsIndexed-same :
    (s t : GraphState)
    → t.assertions ≡ s.assertions
    → t.outgoing ≡ s.outgoing
    → IsIndexed s
    → IsIndexed t
IsIndexed-same s t p q h = record {
  exact = λ entity i. ground (arith, h.exact entity i);
  ascending =
      λ entity. subst (λ m. IsAscending (get_or (get m entity) [])) (sym q) (h.ascending entity);
}

event_of-IsIndexed :
    (log : EventLog) (c : GraphCommand)
    → validate log c ≡ ok tt
    → IsIndexed log.state
    → IsIndexed (apply_event log.state (event_of log c)).0
unfolding validate event_of event_from_command assertion_from_command set_event_id apply_event
    apply_entity_created apply_assertion_retracted apply_source_added apply_evidence_linked
    apply_entity_merged apply_confidence_updated apply_causal_link_added apply_agent_memory_recorded
event_of-IsIndexed log (add_assertion c) v h =
    let a = assertion_from_command c (i64_next log.last_tx) in
    subst IsIndexed (sym (added_state log.state _ (apply-event_of log (add_assertion c) v))) (
      IsIndexed-insert log.state c.id a (unfold validate_add_assertion contains_key in ground arith)
        h)
event_of-IsIndexed log (retract_assertion c) v h =
    IsIndexed-write _ _ _ h (IsIndexed-update log.state c.id _ (λ a. refl) h)
event_of-IsIndexed log (update_confidence c) v h =
    IsIndexed-write _ _ _ h (IsIndexed-update log.state c.assertion_id _ (λ a. refl) h)
event_of-IsIndexed log c v h = IsIndexed-same log.state _ (ground arith) (ground arith) h

pub execute-IsIndexed :
    (log : EventLog) (c : GraphCommand) → IsIndexed log.state → IsIndexed (execute log c).0.state
execute-IsIndexed log c h = elim (execute_cases log c) [
  | inl (e, v, x) ↦ rw x h
  | inr (s, v, a, x) ↦
      rw x (subst (λ (r : Applied). IsIndexed r.0) a (event_of-IsIndexed log c v h))
]

pub run-IsIndexed :
    (log : EventLog) (cs : List GraphCommand) → IsIndexed log.state → IsIndexed (run log cs).state
unfolding run
run-IsIndexed log [] h = h
run-IsIndexed log (c ∷ cs) h = run-IsIndexed (execute log c).0 cs (execute-IsIndexed log c h)

pub IsIndexed-new : IsIndexed new_state
IsIndexed-new = record {
  exact = λ entity i. unfold get contains in refl;
  ascending = λ entity. unfold get in tt;
}
