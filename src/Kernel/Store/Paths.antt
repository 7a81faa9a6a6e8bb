-- ===== src/Kernel/Store/Paths.antt =====
-- crates/rg-kernel/src/lib.rs: `CausalPath`, and the questions that walk along causal links.
pub mod Laws
use hotgraph.Prelude.{
  ℕ, suc, String, List, [], ◌∷◌, ◌++◌, map, Option, none, some, Ordering, cmp, Bool, if◌then◌else◌,
  string_ord, nat_ord, Result, ok, err, ◌>>=◌,
}
use hotgraph.Prelude.Lists.{length, contains, sort_by}
use hotgraph.Core.Confidence.{Confidence}
use hotgraph.Core.Confidence as Confidence
use hotgraph.Core.Types.{EventId, SourceId}
use hotgraph.Kernel.Dependencies.{one}
use hotgraph.Kernel.Store.{RealityKernel, CausalAtom}
use hotgraph.Kernel.Store.Causal.{then_with}
use hotgraph.Kernel.Store.Walk.{walk_downstream, walk_upstream}

pub record CausalPath : Type 0 where
  pub start : EventId
  pub end : EventId
  pub atoms : List CausalAtom
  pub confidence : Confidence
  pub mechanisms : List String
  pub evidence : List SourceId
  pub counterfactual_notes : List String

-- `CausalPath::event_ids`
unfoldable pub event_ids : CausalPath → List EventId
event_ids p = p.start ∷ map (λ (x : CausalAtom). x.effect) p.atoms

-- `push_unique_event`, `push_unique_source` and `push_unique_string`
unfoldable pub push_unique : List String → String → List String
push_unique values value = if contains values value then values else values ++ value ∷ []

unfoldable pub push_all : List String → List String → List String
unfolding push_unique
push_all values [] = values
push_all values (v ∷ more) = push_all (push_unique values v) more

abbrev mechanism_of : CausalAtom → List String
mechanism_of x = elim x.mechanism as (λ _. List String) [ none ↦ [] | some m ↦ m ∷ [] ]

-- what the loop over the links gathers
unfoldable pub gather : (CausalAtom → List String) → List String → List CausalAtom → List String
unfolding push_all
gather f values [] = values
gather f values (x ∷ xs) = gather f (push_all values (f x)) xs

unfoldable pub last_effect : CausalAtom → List CausalAtom → EventId
last_effect x [] = x.effect
last_effect x (y ∷ ys) = last_effect y ys

-- the path of these links, the first one apart
abbrev pub path_with : CausalAtom → List CausalAtom → Confidence → CausalPath
path_with x xs confidence = record {
  start = x.cause;
  end = last_effect x xs;
  atoms = x ∷ xs;
  confidence = confidence;
  mechanisms = gather mechanism_of [] (x ∷ xs);
  evidence = gather (λ (y : CausalAtom). y.evidence) [] (x ∷ xs);
  counterfactual_notes = gather (λ (y : CausalAtom). y.counterfactual_notes) [] (x ∷ xs);
}

-- the order of two `Vec<EventId>`s
unfoldable pub compare_ids : List EventId → List EventId → Ordering
compare_ids [] [] = Ordering.eq
compare_ids [] (_ ∷ _) = Ordering.lt
compare_ids (_ ∷ _) [] = Ordering.gt
compare_ids (a ∷ ids) (b ∷ others) = then_with (cmp a b) (compare_ids ids others)

-- `sort_causal_paths_longest_first`
abbrev pub compare_longest_first : CausalPath → CausalPath → Ordering
compare_longest_first p q =
    then_with (cmp (length q.atoms) (length p.atoms)) (compare_ids (event_ids p) (event_ids q))

-- `sort_causal_paths_shortest_first`
abbrev pub compare_shortest_first : CausalPath → CausalPath → Ordering
compare_shortest_first p q =
    then_with (cmp (length p.atoms) (length q.atoms)) (compare_ids (event_ids p) (event_ids q))

pub record CausalImpactReport : Type 0 where
  pub intervention : EventId
  pub affected_events : List EventId
  pub affected_paths : List CausalPath
  pub downstream_risks : List String
  pub counterfactual_notes : List String
  pub warning : String

-- the events of a path after its first: `event_ids().skip(1)`
abbrev pub effects : CausalPath → List EventId
effects p = map (λ (x : CausalAtom). x.effect) p.atoms

-- the loop over the affected paths
unfoldable pub affect_all : CausalImpactReport → List CausalPath → CausalImpactReport
unfolding push_all
affect_all r [] = r
affect_all r (p ∷ paths) =
    affect_all
      (record r {
        affected_events = push_all r.affected_events (effects p);
        downstream_risks = push_all r.downstream_risks (effects p);
        counterfactual_notes = push_all r.counterfactual_notes p.counterfactual_notes;
      })
      paths

-- `f32_mul` is the product of two `f32`s and `f32_clamp` the nearest in the unit interval, on the
-- bits.
module _ (f32_mul : ℕ → ℕ → ℕ) (f32_clamp : ℕ → ℕ) where
  unfoldable pub product : ℕ → List CausalAtom → ℕ
  product accumulator [] = accumulator
  product accumulator (x ∷ xs) = product (f32_mul accumulator x.confidence.bits) xs

  -- `none` is the panic of a path of no links, or of a confidence that is out of range.
  unfoldable pub causal_path_from_atoms : List CausalAtom → Option CausalPath
  unfolding product gather last_effect
  causal_path_from_atoms [] = none
  causal_path_from_atoms (x ∷ xs) = elim (Confidence.new (f32_clamp (product one (x ∷ xs)))) [
    | err _ ↦ none
    | ok confidence ↦ some (path_with x xs confidence)
  ]

  abbrev pub push_path : Option CausalPath → Option (List CausalPath) → Option (List CausalPath)
  push_path (some p) (some paths) = some (p ∷ paths)
  push_path _ _ = none

  -- the paths that a walk pushes, in its order
  unfoldable pub causal_paths : List (List CausalAtom) → Option (List CausalPath)
  unfolding causal_path_from_atoms
  causal_paths [] = some []
  causal_paths (q ∷ qs) = push_path (causal_path_from_atoms q) (causal_paths qs)

  abbrev pub sorted_paths :
      (CausalPath → CausalPath → Ordering) → Option (List CausalPath) → Option (List CausalPath)
  sorted_paths c none = none
  sorted_paths c (some paths) = some (sort_by c paths)

  unfoldable pub what_might_happen_next : RealityKernel → EventId → ℕ → Option (List CausalPath)
  unfolding causal_paths
  what_might_happen_next k e max_depth =
      sorted_paths compare_shortest_first (causal_paths (walk_downstream k max_depth e [] []))

  unfoldable pub what_caused : RealityKernel → EventId → ℕ → Option (List CausalPath)
  unfolding causal_paths
  what_caused k e max_depth =
      sorted_paths compare_longest_first (causal_paths (walk_upstream k max_depth e [] []))

  unfoldable pub what_breaks_if_event_does_not_occur :
      RealityKernel → EventId → ℕ → Option CausalImpactReport
  unfolding what_might_happen_next affect_all
  what_breaks_if_event_does_not_occur k e max_depth =
      elim (what_might_happen_next k e max_depth) as (λ _. Option CausalImpactReport) [
        | none ↦ none
        | some paths ↦ some (
            affect_all
              (record {
                intervention = e;
                affected_events = [];
                affected_paths = paths;
                downstream_risks = [];
                counterfactual_notes = [];
                warning =
                    "counterfactual causal impact is simulation and strategy support, not fact";
              })
              paths)
      ]
