-- ===== src/Core/Ontology.antt =====
-- crates/rg-core/src/ontology.rs: the schemas and the validation of entities and assertions. An
-- ontology is read from YAML by serde; the model starts from the ontology that was read.
pub mod Schema
pub mod Laws
use hotgraph.Prelude.{
  ℕ, String, List, [], ◌∷◌, Option, none, some, Bool, not, ◌&&◌, ◌==◌, string_ord, nat_ord,
  if◌then◌else◌, Result, ok, err, ok_or, ensure, ◌>>=◌, ◌>>◌,
}
use hotgraph.Prelude.Int.{ℤ_ord}
use hotgraph.Prelude.Lists.{filter, sort}
use hotgraph.Prelude.Map.{BTreeMap, get, contains_key, keys}
use hotgraph.Core.Interval
use hotgraph.Core.Types.{
  EntityId, Entity, PredicateId, GraphValue, Assertion, is_active, value_eq, context_eq,
}
use Schema.{
  PropertyType, EntityTypeSchema, PredicateSchema, GraphOntology, GraphValueKind,
  OntologyValidationError, unknown_entity_type, unknown_predicate, unknown_subject, unknown_object,
  missing_property, property_type_mismatch, subject_type_mismatch, object_type_mismatch,
  max_active_objects_per_subject, entity_type_matches_name, matches_entity_type, matches,
  kind_from_value,
}

abbrev pub Checked : Type 0
Checked = Result (Unit {0}) OntologyValidationError

-- the first schema, in the order of names, that the entity's type goes by
unfoldable pub entity_schema_for :
    BTreeMap String EntityTypeSchema → Entity → Option (String × EntityTypeSchema)
entity_schema_for [] e = none
entity_schema_for ((name, schema) ∷ rest) e =
    if entity_type_matches_name name e.entity_type
    then some (name, schema)
    else entity_schema_for rest e

-- the first loop of `validate_entity`: the properties that are there have their types
unfoldable pub check_property_types : Entity → BTreeMap String PropertyType → Checked
check_property_types e [] = ok tt
check_property_types e ((property, expected) ∷ rest) =
    let later = check_property_types e rest in
    elim (get e.properties property) [
      | none ↦ later
      | some value ↦
          if matches expected value
          then later
          else err (property_type_mismatch e.id property expected (kind_from_value value none))
    ]

-- its second loop: every property is there
unfoldable pub check_properties_present : Entity → List String → Checked
check_properties_present e [] = ok tt
check_properties_present e (property ∷ rest) =
    let later = check_properties_present e rest in
    if contains_key e.properties property then later else err (missing_property e.id property)

unfoldable pub validate_entity : GraphOntology → Entity → Checked
validate_entity ontology e = do
  (name, schema) ←
      ok_or (entity_schema_for ontology.entity_types e) (unknown_entity_type e.id e.entity_type)
  check_property_types e schema.properties
  check_properties_present e (keys schema.properties)
  ensure (entity_type_matches_name name e.entity_type) (unknown_entity_type e.id e.entity_type)

unfoldable pub validate_assertion_object :
    Assertion → PredicateSchema → BTreeMap EntityId Entity → GraphValue → Checked
validate_assertion_object a schema entities (GraphValue.entity id) = do
  entity ← ok_or (get entities id) (unknown_object id)
  ensure (matches_entity_type schema.object entity.entity_type) (
      object_type_mismatch a.predicate a.id schema.object
        (GraphValueKind.entity entity.entity_type))
validate_assertion_object a schema entities value =
    err (object_type_mismatch a.predicate a.id schema.object (kind_from_value value none))

unfoldable pub validate_assertion : GraphOntology → Assertion → BTreeMap EntityId Entity → Checked
validate_assertion ontology a entities = do
  schema ← ok_or (get ontology.predicates a.predicate) (unknown_predicate a.predicate)
  subject ← ok_or (get entities a.subject) (unknown_subject a.subject)
  ensure (matches_entity_type schema.subject subject.entity_type)
      (subject_type_mismatch a.predicate a.subject schema.subject subject.entity_type)
  validate_assertion_object a schema entities a.object

-- the test of two assertions in `validate_max_active_object_constraints`
unfoldable pub clashes : Assertion → Assertion → Bool
clashes left right =
    left.subject == right.subject
    && (context_eq left.context right.context
        && (not (value_eq left.object right.object)
            && Interval.overlaps left.valid_time right.valid_time))

unfoldable pub check_against : PredicateId → ℕ → Assertion → List Assertion → Checked
check_against predicate max left [] = ok tt
check_against predicate max left (right ∷ rest) =
    let later = check_against predicate max left rest in
    if clashes left right
    then err
        (max_active_objects_per_subject predicate left.subject max (sort (left.id ∷ right.id ∷ [])))
    else later

unfoldable pub check_pairs : PredicateId → ℕ → List Assertion → Checked
check_pairs predicate max [] = ok tt
check_pairs predicate max (left ∷ rest) = do
  check_against predicate max left rest
  check_pairs predicate max rest

unfoldable pub constrained : PredicateId → List Assertion → List Assertion
constrained predicate = filter λ a. is_active a.status && a.predicate == predicate

-- one round of the loop over the predicates
unfoldable pub check_predicate : PredicateId → Option ℕ → List Assertion → Checked
check_predicate predicate none assertions = ok tt
check_predicate predicate (some max) assertions =
    if max == 1 then check_pairs predicate max (constrained predicate assertions) else ok tt

unfoldable pub validate_max_active_object_constraints :
    BTreeMap PredicateId PredicateSchema → List Assertion → Checked
validate_max_active_object_constraints [] assertions = ok tt
validate_max_active_object_constraints ((predicate, schema) ∷ rest) assertions = do
  check_predicate predicate schema.constraints.max_active_objects_per_subject assertions
  validate_max_active_object_constraints rest assertions

unfoldable pub validate_each : GraphOntology → List Assertion → BTreeMap EntityId Entity → Checked
validate_each ontology [] entities = ok tt
validate_each ontology (a ∷ rest) entities = do
  validate_assertion ontology a entities
  validate_each ontology rest entities

unfoldable pub validate_assertions :
    GraphOntology → List Assertion → BTreeMap EntityId Entity → Checked
validate_assertions ontology assertions entities = do
  validate_each ontology assertions entities
  validate_max_active_object_constraints ontology.predicates assertions
