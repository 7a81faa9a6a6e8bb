-- ===== src/Kernel/Dependencies/Visit.antt =====
-- crates/rg-kernel/src/lib.rs: the loop of `transitive_dependents`, its fuel and its reach.
use hotgraph.Prelude.{
  ℕ, zero, suc, ◌+◌, ◌≤◌, ◌≡◌, refl, ap, subst, ◌↔◌, inl, inr, List, [], ◌∷◌, ◌++◌, some, true,
  false, ◌||◌, ◌==◌, arith, eq_iff, eq_self, Bool-cases, if◌then◌else◌,
}
use hotgraph.Prelude.Lists.{length, length-append, contains, contains-append}
use hotgraph.Prelude.Map.{BTreeMap, get, get_or, insert, contains_key, contains_key-insert, keys}
use hotgraph.Kernel.Node.{DependencyNode, node_ord}
use hotgraph.Kernel.Dependencies.{DependencyGraph, Links, NodeSet, targets, visit, link_count}

-- The links out of the nodes that are not seen yet.
unseen : BTreeMap DependencyNode Links → NodeSet → ℕ
unseen [] seen = 0
unseen ((node, out) ∷ edges) seen =
    (if contains_key seen node then 0 else length (keys out)) + unseen edges seen

unseen_mono :
    (edges : BTreeMap DependencyNode Links) (seen : NodeSet) (node : DependencyNode)
    → unseen edges (insert seen node tt) ≤ unseen edges seen
unfolding unseen
unseen_mono [] seen node = omega arith
unseen_mono ((n, out) ∷ edges) seen node =
    ground (arith, unseen_mono edges seen node, contains_key-insert seen node tt n)

unseen-insert :
    (edges : BTreeMap DependencyNode Links) (seen : NodeSet) (node : DependencyNode)
    → contains_key seen node ≡ false
    → unseen edges (insert seen node tt) + length (keys (get_or (get edges node) []))
      ≤ unseen edges seen
unfolding unseen get
unseen-insert [] seen node h = unfold keys in omega arith
unseen-insert ((n, out) ∷ edges) seen node h = ground (
  arith,
  unseen-insert edges seen node h,
  unseen_mono edges seen node,
  contains_key-insert seen node tt n,
  eq_iff n node,
  eq_iff node n,
)

unseen-start : (edges : BTreeMap DependencyNode Links) → unseen edges [] ≡ link_count edges
unfolding unseen link_count contains_key get
unseen-start [] = refl
unseen-start ((n, out) ∷ edges) = ap (◌+◌ (length (keys out))) (unseen-start edges)

module _ (g : DependencyGraph) where
  visit_ends :
      (fuel : ℕ) (seen : NodeSet) (queue dependents : List DependencyNode)
      → length queue + unseen g.edges seen ≤ fuel
      → (nodes : List DependencyNode) × (visit g fuel seen queue dependents ≡ some nodes)
  unfolding visit
  visit_ends fuel seen [] dependents h = (dependents, refl)
  visit_ends zero seen (node ∷ queue) dependents h = absurd (omega arith)
  visit_ends (suc fuel) seen (node ∷ queue) dependents h =
      elim (Bool-cases (contains_key seen node)) [
        | inl old ↦
            let (nodes, e) = visit_ends fuel seen queue dependents (omega arith) in
            (nodes, rw (old, visit) e)
        | inr new ↦
            let (nodes, e) =
              visit_ends fuel (insert seen node tt) (queue ++ targets g node)
                (dependents ++ node ∷ [])
                (omega (
                  arith,
                  length-append queue (targets g node),
                  unseen-insert g.edges seen node new,
                )) in
            (nodes, rw (new, visit) e)
      ]

  -- With fuel for the first queue and for every link, the loop ends by its queue.
  pub visit_returns :
      (queue : List DependencyNode)
      → (nodes : List DependencyNode) × (visit g (length queue + link_count g.edges) [] queue []
          ≡ some nodes)
  visit_returns queue =
      visit_ends (length queue + link_count g.edges) [] queue []
        (omega (arith, unseen-start g.edges))

  -- What a walk along the links reaches from a list of nodes.
  pub data Reach (queue : List DependencyNode) : DependencyNode → Type 0 where
    start : {v : DependencyNode} → contains queue v ≡ true → Reach queue v
    step : {u v : DependencyNode} → Reach queue u → contains (targets g u) v ≡ true → Reach queue v

  -- The state of the loop, on the walk from `from`.
  record Inv (from : List DependencyNode) (seen : NodeSet) (queue dependents : List DependencyNode)
      : Type 0 where
    same : (v : DependencyNode) → contains_key seen v ≡ contains dependents v
    queued : (v : DependencyNode) → contains queue v ≡ true → Reach from v
    sound : (v : DependencyNode) → contains dependents v ≡ true → Reach from v
    started :
        (v : DependencyNode)
        → contains from v ≡ true
        → (contains dependents v || contains queue v) ≡ true
    closed :
        (u v : DependencyNode)
        → contains dependents u ≡ true
        → contains (targets g u) v ≡ true
        → (contains dependents v || contains queue v) ≡ true

  Inv-start : (from : List DependencyNode) → Inv from [] from []
  unfolding contains_key get contains
  Inv-start from = record {
    same = λ v. refl;
    queued = λ v h. start h;
    sound = λ v h. cc;
    started = λ v h. h;
    closed = λ u v h k. cc;
  }

  module _ (from : List DependencyNode) (seen : NodeSet) (node : DependencyNode)
      (queue dependents : List DependencyNode) (h : Inv from seen (node ∷ queue) dependents) where
    -- a node that was seen leaves the queue
    Inv-skip : contains_key seen node ≡ true → Inv from seen queue dependents
    unfolding contains
    Inv-skip old = record {
      same = h.same;
      queued = λ v q. h.queued v (ground arith);
      sound = h.sound;
      started = λ v s. ground (arith, h.started v s, h.same node, eq_iff node v);
      closed = λ u v d t. ground (arith, h.closed u v d t, h.same node, eq_iff node v);
    }

    single : (v : DependencyNode) → contains (node ∷ []) v ≡ (node == v)
    unfolding contains
    single v = ground arith

    node_reached : Reach from node
    unfolding contains
    node_reached = h.queued node (ground (arith, eq_self node))

    queued_reached :
        (v : DependencyNode) → contains (queue ++ targets g node) v ≡ true → Reach from v
    unfolding contains
    queued_reached v q = elim (Bool-cases (contains queue v)) [
      | inl waiting ↦ h.queued v (ground arith)
      | inr other ↦ step node_reached (ground (arith, contains-append queue (targets g node) v))
    ]

    visited_reached :
        (v : DependencyNode) → contains (dependents ++ node ∷ []) v ≡ true → Reach from v
    visited_reached v d = elim (Bool-cases (contains dependents v)) [
      | inl old ↦ h.sound v old
      | inr other ↦
          subst (Reach from)
            ((eq_iff node v).0 (ground (arith, contains-append dependents (node ∷ []) v, single v)))
            node_reached
    ]

    -- a new one is visited, and its targets are queued
    Inv-visit : Inv from (insert seen node tt) (queue ++ targets g node) (dependents ++ node ∷ [])
    unfolding contains
    Inv-visit = record {
      same = λ v. ground (
        arith,
        contains_key-insert seen node tt v,
        contains-append dependents (node ∷ []) v,
        single v,
        h.same v,
      );
      queued = queued_reached;
      sound = visited_reached;
      started = λ v s. ground (
        arith,
        contains-append dependents (node ∷ []) v,
        contains-append queue (targets g node) v,
        single v,
        h.started v s,
      );
      closed = λ u v d t. ground (
        arith,
        contains-append dependents (node ∷ []) u,
        contains-append dependents (node ∷ []) v,
        contains-append queue (targets g node) v,
        single u,
        single v,
        eq_iff node u,
        h.closed u v,
      );
    }

  Inv-end :
      (from : List DependencyNode) (fuel : ℕ) (seen : NodeSet)
      (queue dependents nodes : List DependencyNode)
      → Inv from seen queue dependents
      → visit g fuel seen queue dependents ≡ some nodes
      → (last : NodeSet) × Inv from last [] nodes
  unfolding visit
  Inv-end from fuel seen [] dependents nodes h e =
      let same : dependents ≡ nodes = cc in (seen, subst (Inv from seen []) same h)
  Inv-end from zero seen (node ∷ queue) dependents nodes h e = cc
  Inv-end from (suc fuel) seen (node ∷ queue) dependents nodes h e =
      elim (Bool-cases (contains_key seen node)) [
        | inl old ↦
            Inv-end from fuel seen queue dependents nodes
              (Inv-skip from seen node queue dependents h old) (rw (old, visit) at e)
        | inr new ↦
            Inv-end from fuel (insert seen node tt) (queue ++ targets g node)
              (dependents ++ node ∷ []) nodes (Inv-visit from seen node queue dependents h)
              (rw (new, visit) at e)
      ]

  Reach-visited :
      (from nodes : List DependencyNode) (last : NodeSet) (v : DependencyNode)
      → Inv from last [] nodes
      → Reach from v
      → contains nodes v ≡ true
  unfolding contains
  Reach-visited from nodes last v h (start s) = ground (arith, h.started v s)
  Reach-visited from nodes last v h (step {u} r t) =
      ground (arith, h.closed u v (Reach-visited from nodes last u h r) t)

  -- When the loop ends, it has visited exactly what can be reached from the first queue.
  pub visit_iff :
      (fuel : ℕ) (from nodes : List DependencyNode)
      → visit g fuel [] from [] ≡ some nodes
      → (v : DependencyNode) → (contains nodes v ≡ true) ↔ Reach from v
  visit_iff fuel from nodes e v =
      let (last, h) = Inv-end from fuel [] from [] nodes (Inv-start from) e in
      (h.sound v, Reach-visited from nodes last v h)
