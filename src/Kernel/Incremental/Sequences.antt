-- ===== src/Kernel/Incremental/Sequences.antt =====
-- crates/rg-kernel/src/lib.rs: the sequence numbers of the event log.
use hotgraph.Prelude.{
  ℕ, suc, List, [], ◌∷◌, ◌++◌, map, ◌≡◌, refl, ◌∙◌, sym, ap, arith, inl, inr, Result, ◌%◌, ◌<◌, ◌≤◌,
  ◌+◌, zero,
}
use hotgraph.Prelude.Lists.{length}
use hotgraph.Prelude.Arrays.{map-snoc}
use hotgraph.Prelude.Int.{u64_next}
use hotgraph.Kernel.Atom.{KernelError}
use hotgraph.Kernel.Incremental.{
  IncrementalDelta, logged_event, KernelEvent, SequencedKernelEvent, IncrementalComputation,
  IncrementalSequence, new, apply_event,
}
use hotgraph.Kernel.Incremental.Beliefs.{apply_events}
use hotgraph.Kernel.Incremental.Outcomes.{apply_event_cases}

-- the numbers from 1 up
unfoldable pub numbers : ℕ → List ℕ
numbers zero = []
numbers (suc n) = numbers n ++ suc n ∷ []

abbrev sequences : List SequencedKernelEvent → List IncrementalSequence
sequences = map (λ (e : SequencedKernelEvent). e.sequence)

abbrev IsNumbered : IncrementalComputation → ℕ → Type 0
IsNumbered c n = (c.next_sequence ≡ n) × (sequences c.event_log ≡ numbers n)

IsNumbered-apply_event :
    (c : IncrementalComputation) (event : KernelEvent) (n : ℕ)
    → suc n < 18446744073709551616
    → IsNumbered c n
    → (m : ℕ) × IsNumbered (apply_event c event).0 m × (m ≤ suc n)
unfolding u64_next numbers
IsNumbered-apply_event c event n small (p, q) =
    let fits : (n + 1) % 18446744073709551616 ≡ suc n = omega (arith, small) in
    let numbered : u64_next c.next_sequence ≡ suc n = ap u64_next p ∙ fits in
    elim (apply_event_cases c event) [
      | inl (failure, v, e) ↦ (n, ground (arith, e, p, q), omega arith)
      | inr (v, after, d, e, (log, next, _, _)) ↦ (
        suc n,
        (
          ap
                (λ (x : IncrementalComputation × Result IncrementalDelta KernelError).
                  x.0.next_sequence)
                e
              ∙ next
              ∙ numbered,
          ap
                (λ (x : IncrementalComputation × Result IncrementalDelta KernelError).
                  sequences x.0.event_log)
                e
              ∙ ap sequences log
              ∙ sym (
                  map-snoc (λ (x : SequencedKernelEvent). x.sequence) c.event_log
                    (logged_event c event))
              ∙ ap (λ xs. xs ++ u64_next c.next_sequence ∷ []) q
              ∙ ap (λ i. numbers n ++ i ∷ []) numbered,
        ),
        omega arith,
      )
    ]

apply_events-IsNumbered :
    (c : IncrementalComputation) (events : List KernelEvent) (n : ℕ)
    → n + length events < 18446744073709551616
    → IsNumbered c n
    → (m : ℕ) × IsNumbered (apply_events c events) m × (m ≤ n + length events)
unfolding apply_events
apply_events-IsNumbered c [] n small h = (n, h, omega arith)
apply_events-IsNumbered c (event ∷ events) n small h =
    let (m, i, p) = IsNumbered-apply_event c event n (omega (arith, small)) h in
    let (l, j, q) =
      apply_events-IsNumbered (apply_event c event).0 events m (omega (arith, small, p)) i in
    (l, j, omega (arith, p, q))

-- After fewer than 2 ^ 64 events from the empty computation, those refused included, the log holds
-- at most as many entries as there were events, numbered 1, 2, 3 and so on with no gap, and the
-- next sequence number is the one of the last of them: none has wrapped around.
pub apply_events-numbers :
    (events : List KernelEvent)
    → length events < 18446744073709551616
    → let c = apply_events new events in
      (c.next_sequence ≤ length events)
      × (map (λ (e : SequencedKernelEvent). e.sequence) c.event_log ≡ numbers c.next_sequence)
unfolding numbers
apply_events-numbers events small =
    let (m, (p, q), b) = apply_events-IsNumbered new events 0 (omega (arith, small)) (refl, refl) in
    (omega (arith, p, b), q ∙ ap numbers (sym p))
