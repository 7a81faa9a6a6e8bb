-- ===== src/Events/Log/Index.antt =====
-- crates/rg-events/src/lib.rs: what `outgoing_assertions` reads from the adjacency index.
use mathlib.Core.List.{Memᴰ}
use hotgraph.Prelude.{
  map, ◌≡◌, refl, ap, sym, subst, ◌⊎◌, eq_self, Bool-cases, ◌↔◌, List, [], ◌∷◌, true, ◌==◌, eq_iff,
  some, none, string_ord, arith, inl, inr, Option, Option-cases,
}
use hotgraph.Prelude.Lists.{filter, contains}
use hotgraph.Prelude.Sorted.{IsAscending, filter-IsAscending}
use hotgraph.Prelude.Map.{BTreeMap, get, contains_key}
use hotgraph.Core.Types.{AssertionId, EntityId, Assertion, TxTime}
use hotgraph.Core.Ontology.Schema.{GraphOntology}
use hotgraph.Events.Command.{GraphCommand}
use hotgraph.Events.State.{GraphState, found, outgoing_assertions}
use hotgraph.Events.Log.{new}
use hotgraph.Events.Log.Provenance.{HasProvenance-new, run-HasProvenance}
use hotgraph.Events.Log.Grounded.{HasProvenance}
use hotgraph.Events.Log.History.{run}
use hotgraph.Events.Log.Indexed.{indexed, IsIndexed, IsIndexed-new, run-IsIndexed}

abbrev keep_found : Option Assertion → List Assertion → List Assertion
keep_found o rest = elim o [ none ↦ rest | some a ↦ a ∷ rest ]

Memᴰ-keep_found :
    (o : Option Assertion) (rest : List Assertion) (a : Assertion)
    → (o ≡ some a) ⊎ Memᴰ a rest
    → Memᴰ a (keep_found o rest)
Memᴰ-keep_found none rest a (inl e) = cc
Memᴰ-keep_found (some b) rest a (inl e) = Memᴰ.head (ground arith)
Memᴰ-keep_found none rest a (inr m) = m
Memᴰ-keep_found (some b) rest a (inr m) = Memᴰ.tail m

keep_found-cases :
    (o : Option Assertion) (rest : List Assertion) (a : Assertion)
    → Memᴰ a (keep_found o rest)
    → (o ≡ some a) ⊎ Memᴰ a rest
keep_found-cases none rest a m = inr m
keep_found-cases (some b) rest a (Memᴰ.head e) = inl (ap some (sym e))
keep_found-cases (some b) rest a (Memᴰ.tail m) = inr m

found-complete :
    (m : BTreeMap AssertionId Assertion) (ids : List AssertionId) (id : AssertionId) (a : Assertion)
    → get m id ≡ some a
    → contains ids id ≡ true
    → Memᴰ a (found m ids)
unfolding found contains
found-complete m [] id a h c = cc
found-complete m (i ∷ ids) id a h c = elim (Bool-cases (i == id)) [
  | inl same ↦
      Memᴰ-keep_found (get m i) (found m ids) a
        (inl (subst (λ k. get m k ≡ some a) (sym ((eq_iff i id).0 same)) h))
  | inr other ↦
      Memᴰ-keep_found (get m i) (found m ids) a (inr (found-complete m ids id a h (ground arith)))
]

found_sound :
    (m : BTreeMap AssertionId Assertion) (ids : List AssertionId) (a : Assertion)
    → Memᴰ a (found m ids)
    → (id : AssertionId) × (get m id ≡ some a) × (contains ids id ≡ true)
unfolding found contains
found_sound m [] a h = elim h [ ]
found_sound m (i ∷ ids) a h = elim (keep_found-cases (get m i) (found m ids) a h) [
  | inl e ↦ (i, e, ground (arith, eq_self i))
  | inr rest ↦ let (id, e, c) = found_sound m ids a rest in (id, e, ground arith)
]

-- `outgoing_assertions` returns exactly the assertions of the state with that subject: in a state
-- whose index is exact and whose assertions are keyed, an assertion is returned exactly if it is
-- the one under its identifier and has the entity for its subject.
pub outgoing_assertions_iff :
    (s : GraphState) (entity : EntityId) (a : Assertion)
    → IsIndexed s
    → HasProvenance s
    → Memᴰ a (outgoing_assertions s entity)
      ↔ ((get s.assertions a.id ≡ some a) × (a.subject ≡ entity))
unfolding outgoing_assertions
outgoing_assertions_iff s entity a h p = (sound, complete)
  where
    sound :
        Memᴰ a (found s.assertions (indexed s entity))
        → (get s.assertions a.id ≡ some a) × (a.subject ≡ entity)
    sound m =
        let (id, e, c) = found_sound s.assertions (indexed s entity) a m in
        let k : a.id ≡ id = (p.at_key id a e).keyed in
        (
          subst (λ i. get s.assertions i ≡ some a) (sym k) e,
          ground (arith, h.exact entity id, eq_iff a.subject entity),
        )

    complete :
        (get s.assertions a.id ≡ some a) × (a.subject ≡ entity)
        → Memᴰ a (found s.assertions (indexed s entity))
    complete (e, q) =
        found-complete s.assertions (indexed s entity) a.id a e
          (ground (arith, h.exact entity a.id, eq_iff a.subject entity))

abbrev pub assertion_id : Assertion → AssertionId
assertion_id a = a.id

ids-found :
    (m : BTreeMap AssertionId Assertion) (ids : List AssertionId)
    → ((id : AssertionId) (a : Assertion) → get m id ≡ some a → a.id ≡ id)
    → map assertion_id (found m ids) ≡ filter (λ id. contains_key m id) ids
unfolding found filter contains_key
ids-found m [] keyed = refl
ids-found m (i ∷ ids) keyed = elim (Option-cases (get m i)) [
  | inl missing ↦ ground (arith, missing, ids-found m ids keyed)
  | inr (a, held) ↦ ground (arith, held, keyed i a held, ids-found m ids keyed)
]

-- After any commands on a new log, `outgoing_assertions` returns exactly the assertions of the
-- state with that subject, each once, in ascending order of their identifiers.
pub outgoing_after_run :
    (start : TxTime) (o : Option GraphOntology) (cs : List GraphCommand) (entity : EntityId)
    → let s = (run (record (new start) { ontology = o }) cs).state in
      IsAscending (map assertion_id (outgoing_assertions s entity))
      × ((a : Assertion)
          → Memᴰ a (outgoing_assertions s entity)
            ↔ ((get s.assertions a.id ≡ some a) × (a.subject ≡ entity)))
unfolding outgoing_assertions
outgoing_after_run start o cs entity =
    let log = record (new start) { ontology = o } in
    let s = (run log cs).state in
    let h = run-IsIndexed log cs IsIndexed-new in
    let p = run-HasProvenance log cs HasProvenance-new in
    (
      subst IsAscending
          (sym (ids-found s.assertions (indexed s entity) (λ id a e. (p.at_key id a e).keyed)))
          (filter-IsAscending (λ id. contains_key s.assertions id) (indexed s entity)
            (h.ascending entity)),
      λ a. outgoing_assertions_iff s entity a h p,
    )
