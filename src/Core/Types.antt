-- ===== src/Core/Types.antt =====
-- crates/rg-core/src/lib.rs: identifiers, values, entities, assertions, sources, causal links and
-- agent memories.
use hotgraph.Prelude.{ℕ, String, List, Option, Bool, true, false, ◌&&◌, ◌==◌, string_ord}
use hotgraph.Prelude.Int.{ℤ, ℤ_ord, f64_eq}
use hotgraph.Prelude.Map.{BTreeMap}
use hotgraph.Core.Interval
use hotgraph.Core.Interval.{TimeInterval}
use hotgraph.Core.Confidence.{Confidence}

-- `string_newtype!`
abbrev pub EntityId : Type 0
EntityId = String

abbrev pub AssertionId : Type 0
AssertionId = String

abbrev pub AgentId : Type 0
AgentId = String

abbrev pub MemoryId : Type 0
MemoryId = String

abbrev pub TenantId : Type 0
TenantId = String

abbrev pub PredicateId : Type 0
PredicateId = String

abbrev pub SourceId : Type 0
SourceId = String

abbrev pub EventId : Type 0
EventId = String

abbrev pub CausalLinkId : Type 0
CausalLinkId = String

abbrev pub ContentHash : Type 0
ContentHash = String

abbrev pub PropertyKey : Type 0
PropertyKey = String

-- `timestamp_newtype!`, an `i64`
abbrev pub ValidTime : Type 0
ValidTime = ℤ

abbrev pub TxTime : Type 0
TxTime = ℤ

pub data EntityType : Type 0 where
  person organization place event document concept : EntityType
  custom : String → EntityType

-- A decimal is the bits of an `f64`.
pub data GraphValue : Type 0 where
  entity : EntityId → GraphValue
  text : String → GraphValue
  integer : ℤ → GraphValue
  decimal : ℕ → GraphValue
  boolean : Bool → GraphValue
  time : ValidTime → GraphValue
  null : GraphValue

abbrev pub bool_eq : Bool → Bool → Bool
bool_eq true b = b
bool_eq false true = false
bool_eq false false = true

-- The derived `==` of `GraphValue`.
unfoldable pub value_eq : GraphValue → GraphValue → Bool
value_eq (entity a) (entity b) = a == b
value_eq (text a) (text b) = a == b
value_eq (integer a) (integer b) = a == b
value_eq (decimal a) (decimal b) = f64_eq a b
value_eq (boolean a) (boolean b) = bool_eq a b
value_eq (time a) (time b) = a == b
value_eq null null = true
value_eq _ _ = false

abbrev pub PropertyMap : Type 0
PropertyMap = BTreeMap PropertyKey GraphValue

pub record Entity : Type 0 where
  pub id : EntityId
  pub entity_type : EntityType
  pub canonical_name : Option String
  pub properties : PropertyMap
  pub created_tx : TxTime

pub data AssertionStatus : Type 0 where
  active retracted superseded disputed : AssertionStatus

abbrev pub is_active : AssertionStatus → Bool
is_active active = true
is_active _ = false

pub data ContextScope : Type 0 where
  global : ContextScope
  named : String → ContextScope

-- The derived `==` of `ContextScope`.
unfoldable pub context_eq : ContextScope → ContextScope → Bool
context_eq global global = true
context_eq (named a) (named b) = a == b
context_eq _ _ = false

pub record Assertion : Type 0 where
  pub id : AssertionId
  pub subject : EntityId
  pub predicate : PredicateId
  pub object : GraphValue
  pub valid_time : TimeInterval ValidTime
  pub transaction_time : TimeInterval TxTime
  pub confidence : Confidence
  pub source_ids : List SourceId
  pub context : ContextScope
  pub status : AssertionStatus

-- `Assertion::is_visible_at`
unfoldable pub is_visible_at : Assertion → ValidTime → TxTime → Bool
is_visible_at a valid_time transaction_time =
    is_active a.status
    && (Interval.contains a.valid_time valid_time
        && Interval.contains a.transaction_time transaction_time)

pub data SourceType : Type 0 where
  document web_page database_record api_response human_report sensor_reading : SourceType
  custom : String → SourceType

-- The trust score is the bits of an `f32`.
pub record Source : Type 0 where
  pub id : SourceId
  pub source_type : SourceType
  pub uri : Option String
  pub content_hash : ContentHash
  pub observed_at : TxTime
  pub trust_score : Option ℕ

pub record CausalLink : Type 0 where
  pub id : CausalLinkId
  pub cause_event : EventId
  pub effect_event : EventId
  pub confidence : Confidence
  pub mechanism : Option String
  pub source_ids : List SourceId

pub data MemoryType : Type 0 where
  episodic semantic procedural observation decision action tool_call outcome : MemoryType
  preference goal plan reflection correction relationship world_state : MemoryType

pub data MemoryStatus : Type 0 where
  candidate active reinforced superseded contradicted archived : MemoryStatus

pub record AgentMemory : Type 0 where
  pub id : MemoryId
  pub agent_id : AgentId
  pub memory_type : MemoryType
  pub content : String
  pub valid_time : TimeInterval ValidTime
  pub confidence : Confidence
  pub source_ids : List SourceId
  pub related_entities : List EntityId
  pub supersedes : List MemoryId
  pub status : MemoryStatus

abbrev pub is_usable : MemoryStatus → Bool
is_usable MemoryStatus.active = true
is_usable MemoryStatus.reinforced = true
is_usable _ = false

-- `AgentMemory::is_visible_at`
unfoldable pub memory_visible_at : AgentMemory → ValidTime → Bool
memory_visible_at m valid_time = is_usable m.status && Interval.contains m.valid_time valid_time
