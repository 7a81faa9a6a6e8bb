-- ===== src/Kernel/Incremental/Beliefs.antt =====
-- crates/rg-kernel/src/lib.rs: the beliefs that the maintained views keep, and those of the store.
use hotgraph.Prelude.{
  List, [], ◌∷◌, Option, none, some, ◌≡◌, refl, ◌∙◌, sym, ap, Bool, true, if◌then◌else◌, arith,
  string_ord, ok, ◌==◌, eq_iff, ◌||◌, Result-cases, inl, inr, Option-cases,
}
use hotgraph.Prelude.Lists.{contains}
use hotgraph.Prelude.Map.{BTreeMap, get, insert, get-insert}
use hotgraph.Kernel.Atom.{AtomId, BeliefState, RealityAtom}
use hotgraph.Kernel.Belief.{ConflictSet}
use hotgraph.Kernel.Dependencies.{add_dependency_edge}
use hotgraph.Kernel.Store.{RealityKernel, with_belief, revise_belief, insert_atom, add_conflict}
use hotgraph.Kernel.Store.Causal.{insert_causal_atom, validate_causal}
use hotgraph.Kernel.Store.Conflicts.{state_of, disputed_state, state-add_conflict}
use hotgraph.Kernel.Store.Insertion.{superseded_state, state-insert_atom}
use hotgraph.Kernel.Views.{view_belief}
use hotgraph.Kernel.Incremental.{
  KernelEvent, IncrementalComputation, IncrementalDelta, new, finished, new_delta, logged, kind,
  validate_event, apply_kernel_event, refresh_beliefs, apply_event, RevisedBelief,
}
use hotgraph.Kernel.Incremental.Steps.{Core, apply_kernel_event-ok, next, Believed}

-- A belief that is copied from the store, where the store has one.
abbrev refreshed : Bool → Option BeliefState → Option BeliefState → Option BeliefState
refreshed true (some state) old = some state
refreshed _ _ old = old

refreshed-twice :
    (b c : Bool) (now old : Option BeliefState)
    → refreshed b now (refreshed c now old) ≡ refreshed (c || b) now old
refreshed-twice b c none old = ground arith
refreshed-twice b c (some s) old = ground arith

abbrev copy_one : RealityKernel → BTreeMap AtomId BeliefState → AtomId → BTreeMap AtomId BeliefState
copy_one k m i = elim (get k.atoms i) as (λ _. BTreeMap AtomId BeliefState) [
  | none ↦ m
  | some a ↦ insert m i a.belief_state
]

get-copy_one :
    (k : RealityKernel) (m : BTreeMap AtomId BeliefState) (i id : AtomId)
    → get (copy_one k m i) id ≡ refreshed (i == id) (state_of k id) (get m id)
get-copy_one k m i id = elim (Option-cases (get k.atoms i)) [
  | inl missing ↦ ground (arith, eq_iff i id)
  | inr (a, known) ↦ ground (arith, get-insert m i a.belief_state id, eq_iff i id)
]

get-refresh_beliefs :
    (k : RealityKernel) (m : BTreeMap AtomId BeliefState) (ids : List AtomId) (id : AtomId)
    → get (refresh_beliefs k m ids) id ≡ refreshed (contains ids id) (state_of k id) (get m id)
unfolding refresh_beliefs contains
get-refresh_beliefs k m [] id = ground arith
get-refresh_beliefs k m (i ∷ ids) id =
    get-refresh_beliefs k (copy_one k m i) ids id
    ∙ ap (refreshed (contains ids id) (state_of k id)) (get-copy_one k m i id)
    ∙ refreshed-twice (contains ids id) (i == id) (state_of k id) (get m id)

-- The beliefs are those of the store.
abbrev IsCopy : RealityKernel → BTreeMap AtomId BeliefState → Type 0
IsCopy k m = (id : AtomId) → get m id ≡ state_of k id

refreshed-inserted :
    (same member : Bool) (old new now before : Option BeliefState)
    → now ≡ (if same then new else superseded_state member before)
    → old ≡ before
    → refreshed member now (if same then new else old) ≡ now
refreshed-inserted same member old new now none p q = ground arith
refreshed-inserted same member old new now (some s) p q = ground arith

refreshed-disputed :
    (member : Bool) (old now before : Option BeliefState)
    → now ≡ disputed_state member before
    → old ≡ before
    → refreshed member now old ≡ now
refreshed-disputed member old now none p q = ground arith
refreshed-disputed member old now (some s) p q = ground arith

module _ (k : RealityKernel) (m : BTreeMap AtomId BeliefState) (h : IsCopy k m) where
  insert_atom-IsCopy :
      (a : RealityAtom)
      → IsCopy
          (insert_atom k a)
          (refresh_beliefs (insert_atom k a) (insert m a.id a.belief_state) a.supersedes)
  insert_atom-IsCopy a id =
      let after = insert_atom k a in
      get-refresh_beliefs after (insert m a.id a.belief_state) a.supersedes id
      ∙ ap (refreshed (contains a.supersedes id) (state_of after id))
          (get-insert m a.id a.belief_state id)
      ∙ refreshed-inserted (a.id == id) (contains a.supersedes id) (get m id) (some a.belief_state)
          (state_of after id) (state_of k id) (state-insert_atom k a id) (h id)

  add_conflict-IsCopy :
      (x : ConflictSet)
      → IsCopy (add_conflict k x) (refresh_beliefs (add_conflict k x) m x.atom_ids)
  add_conflict-IsCopy x id =
      let after = add_conflict k x in
      get-refresh_beliefs after m x.atom_ids id
      ∙ refreshed-disputed (contains x.atom_ids id) (get m id) (state_of after id) (state_of k id)
          (state-add_conflict k x id) (h id)

  revise_belief-IsCopy :
      (r : RevisedBelief) (after : RealityKernel)
      → revise_belief k r.atom_id r.next r.known_at r.reason ≡ ok after
      → IsCopy after (insert m r.atom_id r.next)
  unfolding revise_belief
  revise_belief-IsCopy r after e id = elim (Option-cases (get k.atoms r.atom_id)) [
    | inl missing ↦ ground (arith, missing)
    | inr (a, known) ↦ ground (
      arith,
      h id,
      get-insert m r.atom_id r.next id,
      get-insert k.atoms r.atom_id (with_belief a r.next) id,
    )
  ]

  next-IsCopy : (event : KernelEvent) (x : Believed) → next k m event ≡ ok x → IsCopy x.0 x.1
  unfolding next insert_causal_atom
  next-IsCopy (KernelEvent.atom_inserted a) x e = ground (arith, e, insert_atom-IsCopy a)
  next-IsCopy (KernelEvent.belief_revised r) x e =
      elim (Result-cases (revise_belief k r.atom_id r.next r.known_at r.reason)) [
        | inl (after, p) ↦ ground (arith, e, p, revise_belief-IsCopy r after p)
        | inr (failure, p) ↦ ground (arith, e, p)
      ]
  next-IsCopy (KernelEvent.conflict_added c) x e = ground (arith, e, add_conflict-IsCopy c)
  next-IsCopy (KernelEvent.dependency_added edge) x e =
      elim (Result-cases (add_dependency_edge k.dependencies edge)) [
        | inl (g, p) ↦ ground (arith, e, p, h)
        | inr (failure, p) ↦ ground (arith, e, p)
      ]
  next-IsCopy (KernelEvent.causal_atom_inserted c) x e = elim (Result-cases (validate_causal c)) [
    | inl (u, p) ↦ ground (arith, e, p, h)
    | inr (failure, p) ↦ ground (arith, e, p)
  ]
  next-IsCopy (KernelEvent.source_trust_updated source trust) x e = ground (arith, e, h)

-- The view of the beliefs shows what the store believes.
abbrev pub IsCurrent : IncrementalComputation → Type 0
IsCurrent c = (id : AtomId) → view_belief c.views id ≡ state_of c.kernel id

finished-IsCurrent :
    (c : IncrementalComputation) (d : IncrementalDelta) (event : KernelEvent)
    → IsCurrent c
    → IsCurrent (finished c (apply_kernel_event c d event)).0
unfolding view_belief
finished-IsCurrent c d event h id = elim (Result-cases (apply_kernel_event c d event)) [
  | inl (s, p) ↦
      let (y, q, e) = apply_kernel_event-ok c d event s p in
      let copied = next-IsCopy c.kernel c.views.current_beliefs h event y q in
      ground (
        arith,
        p,
        ap (λ (x : Core). get x.current_beliefs id) e
            ∙ copied id
            ∙ ap (λ (x : Core). state_of x.kernel id) (sym e),
      )
  | inr (failure, p) ↦ ground (arith, h id, p)
]

-- A valid or an invalid event keeps the view of the beliefs what the store believes: for every
-- atom, the state that the view shows is the one of the atom in the store, or both have none.
pub apply_event-IsCurrent :
    (c : IncrementalComputation) (event : KernelEvent)
    → IsCurrent c
    → IsCurrent (apply_event c event).0
unfolding apply_event
apply_event-IsCurrent c event h id = elim (Result-cases (validate_event c.kernel event)) [
  | inl (u, p) ↦
      let begun = logged c event in
      ground
        (arith, p, finished-IsCurrent begun (new_delta begun.next_sequence (kind event)) event h id)
  | inr (failure, p) ↦ ground (arith, h id, p)
]

-- Events applied one after the other.
unfoldable pub apply_events : IncrementalComputation → List KernelEvent → IncrementalComputation
apply_events c [] = c
apply_events c (event ∷ events) = apply_events (apply_event c event).0 events

apply_events-keeps :
    (c : IncrementalComputation) (events : List KernelEvent)
    → IsCurrent c
    → IsCurrent (apply_events c events)
unfolding apply_events
apply_events-keeps c [] h = h
apply_events-keeps c (event ∷ events) h =
    apply_events-keeps (apply_event c event).0 events (apply_event-IsCurrent c event h)

-- After any events, from the empty computation, those refused included, the view of the beliefs
-- shows for every atom the state that the store has for it, and nothing for an atom that the store
-- does not know.
pub apply_events-IsCurrent :
    (events : List KernelEvent) (id : AtomId)
    → let c = apply_events new events in view_belief c.views id ≡ state_of c.kernel id
unfolding view_belief get
apply_events-IsCurrent events = apply_events-keeps new events (λ id. refl)
