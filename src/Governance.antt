-- ===== src/Governance.antt =====
-- crates/rg-governance/src/lib.rs: the access policy, with the evidence packs of
-- crates/rg-ai/src/lib.rs that it is enforced on.
pub mod Engine
pub mod Pack
pub mod Decisions
pub mod Safety
use hotgraph.Prelude.{
  ℕ, String, List, Option, none, some, Ord, ◌==◌, string_ord, Bool, true, false, ◌||◌, ◌&&◌,
  Ordering, cmp, ◌≡◌, ap, arith,
}
use hotgraph.Prelude.Order.{flip}
use hotgraph.Prelude.Map.{BTreeMap, get, insert, contains_key}
use hotgraph.Core.Confidence.{Confidence}
use hotgraph.Core.Types.{
  AgentId, Assertion, AssertionId, ContentHash, ContextScope, Entity, EntityId, GraphValue,
  MemoryId, PredicateId, SourceId, SourceType, TenantId, TxTime, ValidTime,
}
use hotgraph.Kernel.Views.{BTreeSet}

abbrev pub PrincipalId : Type 0
PrincipalId = String

pub record Principal : Type 0 where
  pub id : PrincipalId
  pub tenant_id : TenantId
  pub agent_id : Option AgentId

pub record SourceAccessPolicy : Type 0 where
  pub source_id : SourceId
  pub allowed_principals : BTreeSet PrincipalId

-- `SourceAccessPolicy::can_read`
unfoldable pub source_can_read : SourceAccessPolicy → Principal → Bool
source_can_read p principal = contains_key p.allowed_principals principal.id

pub record MemoryAccessPolicy : Type 0 where
  pub memory_id : MemoryId
  pub owner_agent_id : AgentId
  pub reader_agent_ids : BTreeSet AgentId
  pub public_read : Bool

-- `MemoryAccessPolicy::can_read`
unfoldable pub memory_can_read : MemoryAccessPolicy → Option AgentId → Bool
memory_can_read p none = p.public_read
memory_can_read p (some agent) =
    p.public_read || (p.owner_agent_id == agent || contains_key p.reader_agent_ids agent)

pub data RedactionTarget : Type 0 where
  source : SourceId → RedactionTarget
  source_field : SourceId → String → RedactionTarget

pub data RedactionKind : Type 0 where
  full_deletion : RedactionKind
  field_redaction pii_detected : String → RedactionKind

pub record RedactionEvent : Type 0 where
  pub target : RedactionTarget
  pub kind : RedactionKind
  pub redacted_by : PrincipalId
  pub reason : String
  pub transaction_time : TxTime

-- `full_source_id`
abbrev pub full_source_id : RedactionEvent → Option SourceId
full_source_id r = elim r.target [
  | RedactionTarget.source id ↦ some id
  | RedactionTarget.source_field id field ↦ none
]

pub data PermissionScope : Type 0 where
  tenant : TenantId → PermissionScope
  source : SourceId → PermissionScope
  memory : MemoryId → PermissionScope

-- The derived order: by constructor, then by text.
abbrev pub compare_scopes : PermissionScope → PermissionScope → Ordering
compare_scopes (PermissionScope.tenant a) (PermissionScope.tenant b) = cmp a b
compare_scopes (PermissionScope.tenant a) _ = Ordering.lt
compare_scopes (PermissionScope.source a) (PermissionScope.tenant b) = Ordering.gt
compare_scopes (PermissionScope.source a) (PermissionScope.source b) = cmp a b
compare_scopes (PermissionScope.source a) (PermissionScope.memory b) = Ordering.lt
compare_scopes (PermissionScope.memory a) (PermissionScope.memory b) = cmp a b
compare_scopes (PermissionScope.memory a) _ = Ordering.gt

pub scope-eq_of_compare : (a b : PermissionScope) → compare_scopes a b ≡ Ordering.eq → a ≡ b
scope-eq_of_compare (PermissionScope.tenant a) (PermissionScope.tenant b) h =
    ap PermissionScope.tenant (string_ord.eq_of_compare a b h)
scope-eq_of_compare (PermissionScope.source a) (PermissionScope.source b) h =
    ap PermissionScope.source (string_ord.eq_of_compare a b h)
scope-eq_of_compare (PermissionScope.memory a) (PermissionScope.memory b) h =
    ap PermissionScope.memory (string_ord.eq_of_compare a b h)
scope-eq_of_compare a b h = ground (arith, h)

pub scope-compare_self : (a : PermissionScope) → compare_scopes a a ≡ Ordering.eq
scope-compare_self (PermissionScope.tenant a) = string_ord.compare_self a
scope-compare_self (PermissionScope.source a) = string_ord.compare_self a
scope-compare_self (PermissionScope.memory a) = string_ord.compare_self a

pub scope-compare_flip : (a b : PermissionScope) → compare_scopes b a ≡ flip (compare_scopes a b)
scope-compare_flip (PermissionScope.tenant a) (PermissionScope.tenant b) =
    string_ord.compare_flip a b
scope-compare_flip (PermissionScope.source a) (PermissionScope.source b) =
    string_ord.compare_flip a b
scope-compare_flip (PermissionScope.memory a) (PermissionScope.memory b) =
    string_ord.compare_flip a b
scope-compare_flip a b = ground arith

pub scope-compare_trans :
    (a b c : PermissionScope)
    → compare_scopes a b ≡ Ordering.lt
    → compare_scopes b c ≡ Ordering.lt
    → compare_scopes a c ≡ Ordering.lt
scope-compare_trans (PermissionScope.tenant a) (PermissionScope.tenant b) (PermissionScope.tenant c)
      p q =
    string_ord.compare_trans a b c p q
scope-compare_trans (PermissionScope.source a) (PermissionScope.source b) (PermissionScope.source c)
      p q =
    string_ord.compare_trans a b c p q
scope-compare_trans (PermissionScope.memory a) (PermissionScope.memory b) (PermissionScope.memory c)
      p q =
    string_ord.compare_trans a b c p q
scope-compare_trans a b c p q = ground (arith, p, q)

instance abbrev pub scope_ord : Ord PermissionScope
scope_ord = record {
  compare_by = compare_scopes;
  eq_of_compare = scope-eq_of_compare;
  compare_self = scope-compare_self;
  compare_flip = scope-compare_flip;
  compare_trans = scope-compare_trans;
}

pub record PermissionPolicy : Type 0 where
  pub tenant_id : TenantId
  pub read_scopes : BTreeSet PermissionScope
  pub source_policies : BTreeMap SourceId SourceAccessPolicy
  pub memory_policies : BTreeMap MemoryId MemoryAccessPolicy
  pub redactions : List RedactionEvent

unfoldable pub can_read_tenant : PermissionPolicy → Principal → Bool
can_read_tenant p principal =
    principal.tenant_id == p.tenant_id
    && contains_key p.read_scopes (PermissionScope.tenant principal.tenant_id)
