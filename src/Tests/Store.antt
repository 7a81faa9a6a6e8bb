-- ===== src/Tests/Store.antt =====
-- The questions that the kernel's store answers.
use mathlib.Core.List.{Memᴰ}
use hotgraph.Prelude.{
  ℕ, ◌≤◌, List, [], ◌∷◌, none, some, ◌≡◌, ◌≢◌, ◌↔◌, refl, ap, Bool, true, false, ◌&&◌, arith,
  string_ord, if◌then◌else◌, ◌==◌, nat_ord, ◌∙◌,
}
use hotgraph.Prelude.Int.{pos, unit_contains}
use hotgraph.Prelude.Lists.{contains, length}
use hotgraph.Prelude.Map.{get, get_or, values}
use hotgraph.Core.Types.{EventId}
use hotgraph.Kernel.Atom.{AtomId, RealityAtom}
use hotgraph.Kernel.Belief.{ConflictSet}
use hotgraph.Kernel.Node.{DependencyNode, atom}
use hotgraph.Kernel.Dependencies.{DependencyStep, one}
use hotgraph.Kernel.Dependencies.Laws.{DependsOn}
use hotgraph.Kernel.Dependencies.Report.{IsLinkStep}
use hotgraph.Kernel.Dependencies.Visit.{Reach}
use hotgraph.Kernel.Query.{RealityQuery, RealityQueryResult, execute}
use hotgraph.Kernel.Query.Laws.{IsHistorical, is_shown, is_withheld, execute_lem}
use hotgraph.Kernel.Store.{RealityKernel, CausalAtom, empty_kernel, add_conflict}
use hotgraph.Kernel.Store.Causal.{at_event}
use hotgraph.Kernel.Store.Collapse.{TruthCollapseReport, collapse_if_source_false}
use hotgraph.Kernel.Store.Collapse.Laws.{
  collapsed, AtomKind, of_kind, known_as, collapse_if_source_false_lem,
}
use hotgraph.Kernel.Store.Entity.{entity_state}
use hotgraph.Kernel.Store.Entity.Laws.{Shown, Names, shown, belongs, entity_state_lem}
use hotgraph.Kernel.Store.Paths.{CausalPath, what_might_happen_next}
use hotgraph.Kernel.Store.Paths.Laws.{IsSure, what_might_happen_next_lem}
use hotgraph.Kernel.Store.Walk.Downstream.{IsTrail}
use hotgraph.Tests.Kernel.{built, store, get-store, clash, chain, rain_flood}

-- the store of two atoms with the links of a chain from "a"
abbrev linked : RealityKernel
linked = record store { dependencies = chain }

collapse_if_source_false_example :
    (r : TruthCollapseReport) × (collapse_if_source_false linked "a" ≡ some (some r))
    × (r.root_source ≡ "a")
    × ((v : DependencyNode) → (collapsed r v ≡ true) ↔ DependsOn linked.dependencies (atom "a") v)
    × ((v : AtomId) (kind : AtomKind)
        → contains (of_kind r kind) v ≡ (collapsed r (atom v) && known_as linked kind v))
    × ((s : DependencyStep)
        → Memᴰ s r.dependency_steps
          ↔ (Reach linked.dependencies (atom "a" ∷ []) s.from × IsLinkStep linked.dependencies s))
collapse_if_source_false_example = collapse_if_source_false_lem linked "a" (built "a") get-store

abbrev clashing : RealityKernel
clashing = add_conflict store clash

entity_state_example :
    let s = entity_state clashing "e" (pos 2) (pos 2) in
    ((x : Shown) (a : RealityAtom)
      → Memᴰ a (shown s x)
        ↔ (Memᴰ a (values clashing.atoms) × (belongs clashing ("e", pos 2, pos 2) x a ≡ true)))
    × ((c : ConflictSet) → Memᴰ c s.conflicts ↔ (Memᴰ c clashing.conflicts × Names s c))
entity_state_example = entity_state_lem clashing "e" (pos 2) (pos 2)

-- a store with one causal link
abbrev causal : RealityKernel
causal = record empty_kernel { causal_outgoing = ("rain", rain_flood ∷ []) ∷ [] }

rain_flood-IsSure : IsSure rain_flood
unfolding unit_contains
rain_flood-IsSure = refl

link-IsSure :
    (b : Bool) (x : CausalAtom)
    → Memᴰ x (get_or (if b then some (rain_flood ∷ []) else none) [])
    → IsSure x
link-IsSure true x (Memᴰ.head e) =
    ap (λ (y : CausalAtom). unit_contains y.confidence.bits) e ∙ rain_flood-IsSure
link-IsSure true x (Memᴰ.tail m) = elim m [ ]
link-IsSure false x m = elim m [ ]

links-IsSure :
    (i : EventId) (x : CausalAtom) → Memᴰ x (at_event causal.causal_outgoing i) → IsSure x
unfolding get
links-IsSure i x m = link-IsSure ("rain" == i) x m

-- products with 1.0
abbrev times : ℕ → ℕ → ℕ
times x y = if y == one then x else 0

times_unit :
    (x y : ℕ) → unit_contains x ≡ true → unit_contains y ≡ true → unit_contains (times x y) ≡ true
unfolding unit_contains
times_unit x y p q = ground (arith, p)

what_might_happen_next_example :
    (paths : List CausalPath) × (what_might_happen_next times (λ x. x) causal "rain" 3 ≡ some paths)
    × ((q : List CausalAtom)
        → ((p : CausalPath) × Memᴰ p paths × (p.atoms ≡ q))
          ↔ ((q ≢ []) × (length q ≤ 3) × IsTrail causal [] "rain" q))
what_might_happen_next_example =
    what_might_happen_next_lem times (λ x. x) times_unit (λ x h. h) causal "rain" 3 links-IsSure

execute_example :
    (r : RealityQueryResult) × (execute times
        (λ x. x)
        clashing
        (RealityQuery.what_did_we_believe_at "e" (pos 2) (pos 2) true)
      ≡ some r)
    × ((a : RealityAtom)
        → (Memᴰ a r.atoms ↔ (
            IsHistorical clashing "e" (record { valid_at = pos 2; known_at = pos 2 }) a
            × (is_shown true a ≡ true)))
          × (Memᴰ a r.unsupported_conclusions ↔ (
              IsHistorical clashing "e" (record { valid_at = pos 2; known_at = pos 2 }) a
              × (is_withheld true a ≡ true))))
execute_example = execute_lem times (λ x. x) clashing "e" (pos 2) (pos 2) true
