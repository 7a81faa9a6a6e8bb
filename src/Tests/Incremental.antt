-- ===== src/Tests/Incremental.antt =====
-- The incremental computation on a few events.
use hotgraph.Prelude.{List, [], ◌∷◌, ◌≡◌, refl, arith, map, ◌≤◌, ◌⊎◌, ok, err, string_ord}
use hotgraph.Prelude.Int.{pos, u64_next}
use hotgraph.Prelude.Map.{get, insert, keys}
use hotgraph.Prelude.Lists.{contains, any}
use hotgraph.Kernel.Atom.{superseded, KernelError}
use hotgraph.Kernel.Store.Conflicts.{state_of}
use hotgraph.Kernel.Views.{
  view_belief, summary_status, empty_views, touch, dependent_summaries, extend,
  mark_summaries_stale,
}
use hotgraph.Kernel.Views.Stale.{dependents_of, marked_status, mark_summaries_stale_lem}
use hotgraph.Kernel.Incremental.{
  KernelEvent, SequencedKernelEvent, IncrementalComputation, IncrementalDelta, new, apply_event,
  validate_event, apply_kernel_event, apply_source_trust_updated, kind, finalize,
}
use hotgraph.Kernel.Incremental.Beliefs.{apply_events, apply_events-IsCurrent}
use hotgraph.Kernel.Incremental.Outcomes.{IsLogged, apply_event_cases}
use hotgraph.Kernel.Incremental.Sequences.{numbers, apply_events-numbers}
use hotgraph.Tests.Kernel.{built, summary, clash}

-- an atom, a revision of it, a revision of an atom that is not known, a summary and a conflict
abbrev events : List KernelEvent
events =
    KernelEvent.atom_inserted (built "a")
    ∷ KernelEvent.belief_revised
        (record { atom_id = "a"; next = superseded; known_at = pos 3; reason = "newer" })
    ∷ KernelEvent.belief_revised
        (record { atom_id = "q"; next = superseded; known_at = pos 3; reason = "newer" })
    ∷ KernelEvent.atom_inserted summary
    ∷ KernelEvent.conflict_added clash
    ∷ []

apply_events-IsCurrent_example :
    view_belief (apply_events new events).views "a" ≡ state_of (apply_events new events).kernel "a"
apply_events-IsCurrent_example = apply_events-IsCurrent events "a"

apply_events-numbers_example :
    ((apply_events new events).next_sequence ≤ 5)
    × (map (λ (e : SequencedKernelEvent). e.sequence) (apply_events new events).event_log
        ≡ numbers (apply_events new events).next_sequence)
apply_events-numbers_example = apply_events-numbers events (omega arith)

abbrev unknown : KernelEvent
unknown =
    KernelEvent.belief_revised
      (record { atom_id = "q"; next = superseded; known_at = pos 3; reason = "newer" })

apply_event_cases_example :
    ((failure : KernelError) × (validate_event new.kernel unknown ≡ err failure)
      × (apply_event new unknown ≡ (new, err failure)))
    ⊎ ((validate_event new.kernel unknown ≡ ok tt)
        × (after : IncrementalComputation) × (d : IncrementalDelta) × (apply_event new unknown
            ≡ (after, ok d))
        × IsLogged new unknown after d)
apply_event_cases_example = apply_event_cases new unknown

mark_summaries_stale_example :
    let v = (apply_events new events).views in
    let affected = any (λ root. contains (dependents_of v root) "z") ("r" ∷ []) in
    let (after, stale) = mark_summaries_stale v ("r" ∷ []) 9 "why" in
    (contains stale "z" ≡ affected)
    × (summary_status after "z" ≡ marked_status affected 9 "why" (summary_status v "z"))
mark_summaries_stale_example =
    mark_summaries_stale_lem 9 "why" (apply_events new events).views ("r" ∷ []) "z"

-- An event that is refused leaves no entry, and a summary of "r" is stale when "r" changes.
log_run :
    (apply_events new (unknown ∷ KernelEvent.source_trust_updated "s" 5 ∷ [])).next_sequence ≡ 1
unfolding apply_events apply_event validate_event apply_kernel_event apply_source_trust_updated
    touch get insert u64_next kind finalize
log_run = refl

stale_run :
    (mark_summaries_stale
      (record empty_views { summary_dependents = ("r", ("z", tt) ∷ []) ∷ [] })
      ("r" ∷ [])
      9
      "why").1
    ≡ "z" ∷ []
unfolding mark_summaries_stale dependent_summaries extend keys get insert
stale_run = refl
