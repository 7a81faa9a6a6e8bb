-- ===== src/Core/Ontology/Laws.antt =====
-- crates/rg-core/src/ontology.rs: validation against what conforming means.
use hotgraph.Prelude.{
  ℕ, ◌≡◌, refl, ap, ◌∙◌, String, List, [], ◌∷◌, ◌++◌, some, true, false, eq_iff, string_ord, arith,
  ok, subst,
}
use hotgraph.Prelude.Int.{ℤ_ord}
use hotgraph.Prelude.Lists.{All, filter, filter-append, filter-cons}
use hotgraph.Prelude.Map.{BTreeMap, get}
use hotgraph.Core.Interval
use hotgraph.Core.Types.{
  EntityId, Entity, PredicateId, GraphValue, Assertion, active, value_eq, context_eq, ValidTime,
}
use hotgraph.Core.Interval.Laws.{shares_instant-overlaps}
use hotgraph.Core.Ontology.Schema.{
  PropertyType, EntityTypeSchema, PredicateSchema, GraphOntology, matches,
}
use hotgraph.Core.Ontology.{
  entity_schema_for, clashes, check_against, check_pairs, constrained, check_predicate,
  validate_max_active_object_constraints, validate_assertions,
}

-- The entity has the property, with a value of its type.
abbrev pub HasProperty : Entity → String × PropertyType → Type 0
HasProperty e (property, expected) =
    (value : GraphValue) × (get e.properties property ≡ some value)
    × (matches expected value ≡ true)

-- The ontology has a schema for the entity's type, and the entity has all its properties.
abbrev pub Conforms : GraphOntology → Entity → Type 0
Conforms ontology e =
    (s : String × EntityTypeSchema) × (entity_schema_for ontology.entity_types e ≡ some s)
    × All (HasProperty e) s.1.properties

module _ (predicate : PredicateId) (max : ℕ) where
  against-later :
      (left : Assertion) (vs : List Assertion) (right : Assertion) (ws : List Assertion)
      → check_against predicate max left (vs ++ right ∷ ws) ≡ ok tt
      → clashes left right ≡ false
  unfolding check_against
  against-later left [] right ws h = ground arith
  against-later left (v ∷ vs) right ws h = ground (arith, against-later left vs right ws)

  pairs-clashes :
      (us : List Assertion) (left : Assertion) (vs : List Assertion) (right : Assertion)
      (ws : List Assertion)
      → check_pairs predicate max (us ++ left ∷ (vs ++ right ∷ ws)) ≡ ok tt
      → clashes left right ≡ false
  unfolding check_pairs
  pairs-clashes [] left vs right ws h = ground (arith, against-later left vs right ws)
  pairs-clashes (u ∷ us) left vs right ws h = ground (arith, pairs-clashes us left vs right ws)

checked_at :
    (predicates : BTreeMap PredicateId PredicateSchema) (assertions : List Assertion)
    (predicate : PredicateId) (schema : PredicateSchema)
    → validate_max_active_object_constraints predicates assertions ≡ ok tt
    → get predicates predicate ≡ some schema
    → check_predicate predicate schema.constraints.max_active_objects_per_subject assertions ≡ ok tt
unfolding validate_max_active_object_constraints get
checked_at [] assertions predicate schema h g = cc
checked_at ((p, s) ∷ rest) assertions predicate schema h g =
    ground (arith, eq_iff p predicate, checked_at rest assertions predicate schema)

constrained_at :
    (predicate : PredicateId) (xs : List Assertion) (a : Assertion) (rest : List Assertion)
    → a.status ≡ active
    → a.predicate ≡ predicate
    → constrained predicate (xs ++ a ∷ rest)
      ≡ constrained predicate xs ++ a ∷ constrained predicate rest
unfolding constrained
constrained_at predicate xs a rest p q =
    filter-append _ xs (a ∷ rest)
    ∙ ap (◌++◌ (filter _ xs)) (filter-cons _ a rest (ground (arith, eq_iff a.predicate predicate)))

same_facts :
    (a b : Assertion) (t : ValidTime)
    → a.subject ≡ b.subject
    → context_eq a.context b.context ≡ true
    → Interval.contains a.valid_time t ≡ true
    → Interval.contains b.valid_time t ≡ true
    → clashes a b ≡ false
    → value_eq a.object b.object ≡ true
unfolding clashes
same_facts a b t s c p q h =
    ground
      (arith, eq_iff a.subject b.subject, shares_instant-overlaps a.valid_time b.valid_time t p q)

module _ (ontology : GraphOntology) (xs ys zs : List Assertion) (a b : Assertion) where
  no_clash :
      (entities : BTreeMap EntityId Entity) (schema : PredicateSchema)
      → validate_assertions ontology (xs ++ a ∷ (ys ++ b ∷ zs)) entities ≡ ok tt
      → get ontology.predicates a.predicate ≡ some schema
      → schema.constraints.max_active_objects_per_subject ≡ some 1
      → a.status ≡ active
      → b.status ≡ active
      → b.predicate ≡ a.predicate
      → clashes a b ≡ false
  unfolding validate_assertions check_predicate
  no_clash entities schema h g m p q e =
      pairs-clashes a.predicate 1 (constrained a.predicate xs) a (constrained a.predicate ys) b
        (constrained a.predicate zs)
        (subst (λ l. check_pairs a.predicate 1 l ≡ ok tt) split (ground (arith, checked, m)))
    where
      split :
          constrained a.predicate (xs ++ a ∷ (ys ++ b ∷ zs))
          ≡ constrained a.predicate xs
            ++ a ∷ (constrained a.predicate ys ++ b ∷ constrained a.predicate zs)
      split =
          constrained_at a.predicate xs a (ys ++ b ∷ zs) p refl
          ∙ ap (λ l. constrained a.predicate xs ++ a ∷ l) (constrained_at a.predicate ys b zs q e)

      checked :
          check_predicate a.predicate schema.constraints.max_active_objects_per_subject
            (xs ++ a ∷ (ys ++ b ∷ zs))
          ≡ ok tt
      checked =
          checked_at ontology.predicates (xs ++ a ∷ (ys ++ b ∷ zs)) a.predicate schema
            (ground arith) g

  -- In accepted assertions, a predicate limited to one active object has one object at a time: two
  -- of them, at different places, that are active, on that predicate, of one subject and one
  -- context, and valid at a common instant, have equal objects.
  pub one_object_at_a_time :
      (entities : BTreeMap EntityId Entity) (schema : PredicateSchema) (t : ValidTime)
      → validate_assertions ontology (xs ++ a ∷ (ys ++ b ∷ zs)) entities ≡ ok tt
      → get ontology.predicates a.predicate ≡ some schema
      → schema.constraints.max_active_objects_per_subject ≡ some 1
      → a.status ≡ active
      → b.status ≡ active
      → b.predicate ≡ a.predicate
      → a.subject ≡ b.subject
      → context_eq a.context b.context ≡ true
      → Interval.contains a.valid_time t ≡ true
      → Interval.contains b.valid_time t ≡ true
      → value_eq a.object b.object ≡ true
  one_object_at_a_time entities schema t h g m p q e s c u v =
      same_facts a b t s c u v (no_clash entities schema h g m p q e)
