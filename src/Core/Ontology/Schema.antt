-- ===== src/Core/Ontology/Schema.antt =====
-- crates/rg-core/src/ontology.rs: the types of an ontology, its errors, and the type tests.
use hotgraph.Prelude.{
  ℕ, String, List, Option, none, some, Bool, true, false, ◌||◌, ◌==◌, string_ord,
}
use hotgraph.Prelude.Map.{BTreeMap}
use hotgraph.Core.Types.{EntityId, AssertionId, PredicateId, PropertyKey, EntityType, GraphValue}

pub data OntologyTypeRef : Type 0 where
  entity : OntologyTypeRef
  named : String → OntologyTypeRef

pub data PropertyType : Type 0 where
  string date float integer boolean : PropertyType

pub data GraphValueKind : Type 0 where
  entity : EntityType → GraphValueKind
  text integer decimal boolean time null : GraphValueKind

pub record EntityTypeSchema : Type 0 where
  pub properties : BTreeMap String PropertyType

pub record PredicateConstraints : Type 0 where
  pub max_active_objects_per_subject : Option ℕ

pub record PredicateSchema : Type 0 where
  pub subject : OntologyTypeRef
  pub object : OntologyTypeRef
  pub temporal : Bool
  pub mutually_exclusive_with : List PredicateId
  pub constraints : PredicateConstraints
  pub properties : BTreeMap String PropertyType

pub record GraphOntology : Type 0 where
  pub entity_types : BTreeMap String EntityTypeSchema
  pub predicates : BTreeMap PredicateId PredicateSchema

pub data OntologyValidationError : Type 0 where
  unknown_entity_type : EntityId → EntityType → OntologyValidationError
  unknown_predicate : PredicateId → OntologyValidationError
  unknown_subject unknown_object : EntityId → OntologyValidationError
  missing_property : EntityId → PropertyKey → OntologyValidationError
  property_type_mismatch :
      EntityId → PropertyKey → PropertyType → GraphValueKind → OntologyValidationError
  subject_type_mismatch :
      PredicateId → EntityId → OntologyTypeRef → EntityType → OntologyValidationError
  object_type_mismatch :
      PredicateId → AssertionId → OntologyTypeRef → GraphValueKind → OntologyValidationError
  max_active_objects_per_subject :
      PredicateId → EntityId → ℕ → List AssertionId → OntologyValidationError

unfoldable pub entity_type_matches_name : String → EntityType → Bool
entity_type_matches_name name EntityType.person = name == "Person"
entity_type_matches_name name EntityType.organization = name == "Company" || name == "Organization"
entity_type_matches_name name EntityType.place = name == "Place"
entity_type_matches_name name EntityType.event = name == "Event"
entity_type_matches_name name EntityType.document = name == "Document"
entity_type_matches_name name EntityType.concept = name == "Concept"
entity_type_matches_name name (EntityType.custom value) = value == name

-- `OntologyTypeRef::matches_entity_type`
unfoldable pub matches_entity_type : OntologyTypeRef → EntityType → Bool
matches_entity_type OntologyTypeRef.entity t = true
matches_entity_type (OntologyTypeRef.named name) t = entity_type_matches_name name t

-- `PropertyType::matches`
unfoldable pub matches : PropertyType → GraphValue → Bool
matches PropertyType.string (GraphValue.text _) = true
matches PropertyType.date (GraphValue.time _) = true
matches PropertyType.float (GraphValue.decimal _) = true
matches PropertyType.integer (GraphValue.integer _) = true
matches PropertyType.boolean (GraphValue.boolean _) = true
matches _ _ = false

abbrev entity_kind : Option EntityType → EntityType
entity_kind none = EntityType.custom "UnknownEntity"
entity_kind (some t) = t

-- `GraphValueKind::from_value`
unfoldable pub kind_from_value : GraphValue → Option EntityType → GraphValueKind
kind_from_value (GraphValue.entity _) t = GraphValueKind.entity (entity_kind t)
kind_from_value (GraphValue.text _) t = GraphValueKind.text
kind_from_value (GraphValue.integer _) t = GraphValueKind.integer
kind_from_value (GraphValue.decimal _) t = GraphValueKind.decimal
kind_from_value (GraphValue.boolean _) t = GraphValueKind.boolean
kind_from_value (GraphValue.time _) t = GraphValueKind.time
kind_from_value GraphValue.null t = GraphValueKind.null
