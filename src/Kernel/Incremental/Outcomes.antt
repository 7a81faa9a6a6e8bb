-- ===== src/Kernel/Incremental/Outcomes.antt =====
-- crates/rg-kernel/src/lib.rs: what `apply_event` returns and writes to the log.
use hotgraph.Prelude.{
  [], ◌∷◌, ◌++◌, ◌≢◌, ◌≡◌, refl, ◌∙◌, ap, arith, string_ord, ok, err, Result-cases, ◌⊎◌, inl, inr,
  Option-cases,
}
use hotgraph.Prelude.Int.{u64_next}
use hotgraph.Prelude.Map.{BTreeMap, get}
use hotgraph.Kernel.Atom.{AtomId, BeliefState, KernelError}
use hotgraph.Kernel.Dependencies.{add_dependency_edge}
use hotgraph.Kernel.Store.{RealityKernel, revise_belief}
use hotgraph.Kernel.Store.Causal.{insert_causal_atom}
use hotgraph.Kernel.Incremental.{
  KernelEvent, IncrementalComputation, IncrementalDelta, finished, new_delta, logged, kind,
  validate_event, apply_kernel_event, apply_event, finalize,
}
use hotgraph.Kernel.Incremental.Steps.{Core, apply_kernel_event-ok, apply_kernel_event-err, next}

-- No valid event fails when it is applied.
next-valid :
    (k : RealityKernel) (m : BTreeMap AtomId BeliefState) (event : KernelEvent)
    (failure : KernelError)
    → validate_event k event ≡ ok tt
    → next k m event ≢ err failure
unfolding next validate_event revise_belief add_dependency_edge insert_causal_atom
next-valid k m (KernelEvent.atom_inserted a) failure e p = ground (arith, p)
next-valid k m (KernelEvent.belief_revised r) failure e p =
    elim (Option-cases (get k.atoms r.atom_id)) [
      | inl missing ↦ ground (arith, e, p, missing)
      | inr (a, known) ↦ ground (arith, e, p, known)
    ]
next-valid k m (KernelEvent.conflict_added c) failure e p = ground (arith, p)
next-valid k m (KernelEvent.dependency_added edge) failure e p = ground (arith, e, p)
next-valid k m (KernelEvent.causal_atom_inserted x) failure e p = ground (arith, e, p)
next-valid k m (KernelEvent.source_trust_updated source trust) failure e p = ground (arith, p)

module _ (c : IncrementalComputation) (event : KernelEvent) where
  abbrev pub IsLogged : IncrementalComputation → IncrementalDelta → Type 0
  IsLogged after d =
      (after.event_log
        ≡ c.event_log ++ record { sequence = u64_next c.next_sequence; event = event } ∷ [])
      × (after.next_sequence ≡ u64_next c.next_sequence)
      × (d.sequence ≡ u64_next c.next_sequence)
      × (d.event_kind ≡ kind event)

  applied :
      (d : IncrementalDelta)
      → d.sequence ≡ u64_next c.next_sequence
      → d.event_kind ≡ kind event
      → validate_event c.kernel event ≡ ok tt
      → (after : IncrementalComputation) × (e : IncrementalDelta) × (finished
            (logged c event)
            (apply_kernel_event (logged c event) d event)
          ≡ (after, ok e))
        × IsLogged after e
  unfolding finalize
  applied d q r v = elim (Result-cases (apply_kernel_event (logged c event) d event)) [
    | inl (s, p) ↦
        let (y, n, e) = apply_kernel_event-ok (logged c event) d event s p in
        (
          s.0,
          finalize s.1,
          ap (finished (logged c event)) p,
          (
            ap (λ (x : Core). x.log) e,
            ap (λ (x : Core). x.next_sequence) e,
            ap (λ (x : Core). x.sequence) e ∙ q,
            ap (λ (x : Core). x.event_kind) e ∙ r,
          ),
        )
    | inr (failure, p) ↦ ground (
      arith,
      next-valid c.kernel c.views.current_beliefs event failure v
          (apply_kernel_event-err (logged c event) d event failure p),
    )
  ]

  -- An event that is not valid is refused with the error of its validation, and changes nothing. A
  -- valid event never fails: the log grows by the event, under the next sequence number, which the
  -- delta bears with the kind of the event.
  pub apply_event_cases :
      ((failure : KernelError) × (validate_event c.kernel event ≡ err failure)
        × (apply_event c event ≡ (c, err failure)))
      ⊎ ((validate_event c.kernel event ≡ ok tt)
          × (after : IncrementalComputation) × (d : IncrementalDelta) × (apply_event c event
              ≡ (after, ok d))
          × IsLogged after d)
  unfolding apply_event
  apply_event_cases = elim (Result-cases (validate_event c.kernel event)) [
    | inl (tt, v) ↦
        let (after, d, p, l) =
          applied (new_delta (u64_next c.next_sequence) (kind event)) refl refl v in
        inr (v, after, d, ground (arith, v, p), l)
    | inr (failure, v) ↦ inl (failure, v, ground (arith, v))
  ]
