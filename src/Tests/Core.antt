-- ===== src/Tests/Core.antt =====
-- Intervals and ontology validation at concrete inputs.
use hotgraph.Prelude.{
  String, List, [], ◌∷◌, none, some, ◌≡◌, ◌↔◌, refl, true, le, string_ord, ok, err,
}
use hotgraph.Prelude.{lt}
use hotgraph.Prelude.Int.{ℤ, pos, ℤ_ord, unit_contains}
use hotgraph.Prelude.Lists.{filter, sort, sort_by, insert_by}
use hotgraph.Prelude.Map.{get, contains_key, keys}
use hotgraph.Core.Interval.{TimeInterval, end_before_start, overlaps, contains, new}
use hotgraph.Core.Interval.Laws.{overlaps_iff, new_cases}
use hotgraph.Core.Confidence
use hotgraph.Core.Confidence.{out_of_range}
use hotgraph.Core.Types.{
  Entity, EntityType, GraphValue, Assertion, active, global, value_eq, context_eq,
}
use hotgraph.Core.Ontology.Schema.{
  OntologyTypeRef, PropertyType, PredicateSchema, GraphOntology, entity_type_matches_name, matches,
  matches_entity_type, missing_property, max_active_objects_per_subject,
}
use hotgraph.Core.Ontology.{
  entity_schema_for, check_property_types, check_properties_present, validate_entity,
  validate_assertion, validate_assertion_object, clashes, check_against, check_pairs, constrained,
  check_predicate, validate_max_active_object_constraints, validate_each, validate_assertions,
}
use hotgraph.Core.Ontology.Laws.{one_object_at_a_time}

abbrev decade : TimeInterval ℤ
decade = record { start = pos 10; end = some (pos 20) }

abbrev later : TimeInterval ℤ
later = record { start = pos 15; end = none }

overlaps_iff_example :
    (overlaps decade later ≡ true)
    ↔ ((t : ℤ) × (contains decade t ≡ true) × (contains later t ≡ true))
overlaps_iff_example = overlaps_iff decade later refl refl

new_cases_example :
    ((new (pos 20) (some (pos 10)) ≡ ok (record { start = pos 20; end = some (pos 10) }))
      ↔ ((e : ℤ) → some (pos 10) ≡ some e → le (pos 20) e ≡ true))
    × ((new (pos 20) (some (pos 10)) ≡ err end_before_start)
        ↔ ((e : ℤ) × (some (pos 10) ≡ some e) × (lt e (pos 20) ≡ true)))
new_cases_example = new_cases (pos 20) (some (pos 10))

-- 0.75 and -0.1
confidence_range :
    (Confidence.new 0x3f400000 ≡ ok (record { bits = 0x3f400000 }))
    × (Confidence.new 0xbdcccccd ≡ err out_of_range)
unfolding Confidence.new unit_contains
confidence_range = (refl, refl)

abbrev works_at : PredicateSchema
works_at = record {
  subject = OntologyTypeRef.named "Person";
  object = OntologyTypeRef.named "Company";
  temporal = true;
  mutually_exclusive_with = [];
  constraints = record { max_active_objects_per_subject = some 1 };
  properties = [];
}

abbrev people : GraphOntology
people = record {
  entity_types =
      ("Company", record { properties = ("name", PropertyType.string) ∷ [] })
      ∷ ("Person", record { properties = ("name", PropertyType.string) ∷ [] })
      ∷ [];
  predicates = ("works_at", works_at) ∷ [];
}

abbrev person : String → Entity
person id = record {
  id = id;
  entity_type = EntityType.person;
  canonical_name = none;
  properties = ("name", GraphValue.text id) ∷ [];
  created_tx = pos 1;
}

abbrev company : String → Entity
company id = record (person id) { entity_type = EntityType.organization }

entity_tests :
    (validate_entity people (person "ann") ≡ ok tt)
    × (validate_entity people (record (person "ann") { properties = [] })
        ≡ err (missing_property "ann" "name"))
unfolding validate_entity entity_schema_for check_property_types check_properties_present get
    contains_key keys entity_type_matches_name matches
entity_tests = (refl, refl)

abbrev employment : String → String → ℤ → Assertion
employment id employer end = record {
  id = id;
  subject = "ann";
  predicate = "works_at";
  object = GraphValue.entity employer;
  valid_time = record { start = pos 10; end = some end };
  transaction_time = record { start = pos 1; end = none };
  confidence = record { bits = 0x3f400000 };
  source_ids = "s" ∷ [];
  context = global;
  status = active;
}

abbrev staff : List (String × Entity)
staff = ("acme", company "acme") ∷ ("ann", person "ann") ∷ ("bolt", company "bolt") ∷ []

one_job :
    validate_assertions people
      (employment "a1" "acme" (pos 20) ∷ employment "a2" "acme" (pos 30) ∷ [])
      staff
    ≡ ok tt
unfolding validate_assertions validate_each validate_assertion validate_assertion_object
    validate_max_active_object_constraints check_predicate check_pairs check_against clashes
    constrained filter get entity_type_matches_name matches_entity_type value_eq context_eq overlaps
one_job = refl

two_jobs :
    validate_assertions people
      (employment "a2" "acme" (pos 20) ∷ employment "a1" "bolt" (pos 30) ∷ [])
      staff
    ≡ err (max_active_objects_per_subject "works_at" "ann" 1 ("a1" ∷ "a2" ∷ []))
unfolding validate_assertions validate_each validate_assertion validate_assertion_object
    validate_max_active_object_constraints check_predicate check_pairs check_against clashes
    constrained filter get entity_type_matches_name matches_entity_type value_eq context_eq overlaps
    sort sort_by insert_by
two_jobs = refl

one_object_at_a_time_example : value_eq (GraphValue.entity "acme") (GraphValue.entity "acme") ≡ true
unfolding get context_eq contains
one_object_at_a_time_example =
    one_object_at_a_time people [] [] [] (employment "a1" "acme" (pos 20))
      (employment "a2" "acme" (pos 30)) staff works_at (pos 12) one_job refl refl refl refl refl
      refl refl refl refl
