-- ===== src/Governance/Engine.antt =====
-- crates/rg-governance/src/lib.rs: `GovernanceEngine`, which enforces a policy on an evidence pack.
use Prim.Native.String.{◌++◌ as append}
use hotgraph.Prelude.{
  String, List, [], ◌∷◌, ◌++◌, map, Option, none, some, Bool, true, false, not, ◌&&◌, if◌then◌else◌,
  ◌==◌, string_ord,
}
use hotgraph.Prelude.Lists.{any, all, filter}
use hotgraph.Prelude.Map.{get, contains_key}
use hotgraph.Core.Types.{
  AgentId, Assertion, AssertionId, ContextScope, context_eq, Entity, EntityId, GraphValue, MemoryId,
  SourceId, TenantId,
}
use hotgraph.Kernel.Views.{BTreeSet, extend}
use hotgraph.Governance.{
  PrincipalId, Principal, RedactionTarget, RedactionEvent, full_source_id, PermissionPolicy,
  can_read_tenant, source_can_read, memory_can_read,
}
use hotgraph.Governance.Pack.{QueryResult, GraphPath, Contradiction, SourceExcerpt, EvidencePack}

pub data AccessMode : Type 0 where
  read write delete redact : AccessMode

pub data AuditReason : Type 0 where
  ai_context_pack user_question legal_review maintenance : AuditReason
  other : String → AuditReason

pub record AuditEvent : Type 0 where
  pub principal_id : PrincipalId
  pub tenant_id : TenantId
  pub access_mode : AccessMode
  pub resource_type : String
  pub resource_id : String
  pub reason : AuditReason
  pub allowed : Bool
  pub decision_reason : String

pub record AccessDenial : Type 0 where
  pub resource_type : String
  pub resource_id : String
  pub reason : String

pub record GovernedEvidencePack : Type 0 where
  pub pack : EvidencePack
  pub audit_events : List AuditEvent
  pub denials : List AccessDenial

pub record AssertionDecision : Type 0 where
  pub allowed : Bool
  pub reason : String

pub record GovernanceEngine : Type 0 where
  pub policy : PermissionPolicy
  pub audit_log : List AuditEvent

abbrev refused : String → AssertionDecision
refused reason = record { allowed = false; reason = reason }

abbrev granted : String → AssertionDecision
granted reason = record { allowed = true; reason = reason }

abbrev names_source : Option SourceId → SourceId → Bool
names_source none id = false
names_source (some source) id = source == id

abbrev pub tenant_context : TenantId → ContextScope
tenant_context tenant = ContextScope.named (append "tenant:" tenant)

-- the value of a field after the redactions of a source
abbrev pub redact_field : String → String → SourceExcerpt → SourceExcerpt
redact_field field reason s =
    if field == "snippet"
    then record s { snippet = append "[redacted: " (append reason "]") }
    else if field == "uri"
    then record s { uri = none }
    else s

-- `field_for_source`, and what its field is redacted to
abbrev pub redact_target : RedactionTarget → String → SourceExcerpt → SourceExcerpt
redact_target (RedactionTarget.source _) reason s = s
redact_target (RedactionTarget.source_field id field) reason s =
    if id == s.source_id then redact_field field reason s else s

unfoldable pub redact_all : List RedactionEvent → SourceExcerpt → SourceExcerpt
redact_all [] s = s
redact_all (r ∷ redactions) s = redact_all redactions (redact_target r.target r.reason s)

abbrev pub assertion_entity_ids : Assertion → List EntityId
assertion_entity_ids a = elim a.object as (λ _. List EntityId) [
  | GraphValue.entity e ↦ a.subject ∷ e ∷ []
  | _ ↦ a.subject ∷ []
]

-- `flat_map` into a set
unfoldable pub collect_ids :
    (Assertion → List String) → BTreeSet String → List Assertion → BTreeSet String
unfolding extend
collect_ids f ids [] = ids
collect_ids f ids (a ∷ assertions) = collect_ids f (extend ids (f a)) assertions

module _ (engine : GovernanceEngine) where
  unfoldable pub is_source_deleted : SourceId → Bool
  is_source_deleted id = any (λ r. names_source (full_source_id r) id) engine.policy.redactions

  -- the policy of the source, if it has one, lets the principal read it
  unfoldable pub source_policy_allows : Principal → SourceId → Bool
  source_policy_allows principal id = elim (get engine.policy.source_policies id) [
    | none ↦ true
    | some policy ↦ source_can_read policy principal
  ]

  unfoldable pub can_read_source : Principal → SourceId → AssertionDecision
  unfolding is_source_deleted source_policy_allows
  can_read_source principal id =
      if is_source_deleted id
      then refused "source is deleted or redacted"
      else if source_policy_allows principal id
      then granted "source is readable"
      else refused "source policy denies this principal"

  -- the loop over the sources of an assertion, which stops at the first that is refused
  unfoldable pub check_sources : Principal → List SourceId → AssertionDecision
  unfolding can_read_source
  check_sources principal [] = granted "allowed by tenant and source policies"
  check_sources principal (id ∷ ids) =
      let rest = check_sources principal ids in
      let decision = can_read_source principal id in if decision.allowed then rest else decision

  unfoldable pub can_read_assertion : Principal → Assertion → AssertionDecision
  unfolding check_sources
  can_read_assertion principal a =
      if not (can_read_tenant engine.policy principal)
      then refused "principal is outside policy tenant or lacks tenant read scope"
      else if not (context_eq a.context (tenant_context principal.tenant_id))
      then refused "assertion belongs to a different tenant"
      else check_sources principal a.source_ids

  unfoldable pub can_read_memory : Principal → MemoryId → Option AgentId → Bool
  can_read_memory principal memory agent = elim (get engine.policy.memory_policies memory) [
    | none ↦ true
    | some policy ↦ memory_can_read policy agent
  ]

  unfoldable pub check_source_access : Principal → SourceId → Option AccessDenial
  unfolding can_read_source
  check_source_access principal id =
      let decision = can_read_source principal id in
      if decision.allowed
      then none
      else some (record { resource_type = "source"; resource_id = id; reason = decision.reason })

  -- the identifiers of the assertions that the principal can read
  unfoldable pub allowed_ids :
      Principal → BTreeSet AssertionId → List Assertion → BTreeSet AssertionId
  unfolding can_read_assertion
  allowed_ids principal ids [] = ids
  allowed_ids principal ids (a ∷ assertions) =
      allowed_ids principal
        (if (can_read_assertion principal a).allowed then extend ids (a.id ∷ []) else ids)
        assertions

  abbrev pub denial_of : Principal → Assertion → AccessDenial
  denial_of principal a = record {
    resource_type = "assertion";
    resource_id = a.id;
    reason = (can_read_assertion principal a).reason;
  }

  abbrev pub audit_of : Principal → AuditReason → Assertion → AuditEvent
  audit_of principal reason a = record {
    principal_id = principal.id;
    tenant_id = principal.tenant_id;
    access_mode = AccessMode.read;
    resource_type = "assertion";
    resource_id = a.id;
    reason = reason;
    allowed = (can_read_assertion principal a).allowed;
    decision_reason = (can_read_assertion principal a).reason;
  }

  unfoldable pub redact_source_excerpts : List SourceExcerpt → List SourceExcerpt
  unfolding is_source_deleted redact_all
  redact_source_excerpts [] = []
  redact_source_excerpts (s ∷ sources) =
      let rest = redact_source_excerpts sources in
      if is_source_deleted s.source_id then rest else redact_all engine.policy.redactions s ∷ rest

  -- the denials of the sources that no allowed assertion has and that the principal cannot read
  unfoldable pub source_denials :
      Principal → BTreeSet SourceId → List SourceExcerpt → List AccessDenial
  unfolding can_read_source
  source_denials principal allowed [] = []
  source_denials principal allowed (s ∷ sources) =
      let rest = source_denials principal allowed sources in
      let decision = can_read_source principal s.source_id in
      if contains_key allowed s.source_id
      then rest
      else if decision.allowed
      then rest
      else record { resource_type = "source"; resource_id = s.source_id; reason = decision.reason }
        ∷ rest

  abbrev pub is_denied : Principal → Assertion → Bool
  is_denied principal a = not (can_read_assertion principal a).allowed

  abbrev pub allowed_in : Principal → EvidencePack → BTreeSet AssertionId
  allowed_in principal pack = allowed_ids principal [] pack.assertions

  abbrev pub assertions_in : Principal → EvidencePack → List Assertion
  assertions_in principal pack =
      filter (λ (a : Assertion). contains_key (allowed_in principal pack) a.id) pack.assertions

  abbrev pub sources_in : Principal → EvidencePack → BTreeSet SourceId
  sources_in principal pack =
      collect_ids (λ (a : Assertion). a.source_ids) [] (assertions_in principal pack)

  unfoldable pub enforce_evidence_pack :
      Principal → EvidencePack → AuditReason → GovernedEvidencePack
  unfolding allowed_ids collect_ids source_denials redact_source_excerpts
  enforce_evidence_pack principal pack reason =
      let allowed = allowed_in principal pack in
      let assertions = assertions_in principal pack in
      let entity_ids = collect_ids assertion_entity_ids [] assertions in
      record {
        pack = record pack {
          entities = filter (λ (e : Entity). contains_key entity_ids e.id) pack.entities;
          assertions = assertions;
          sources = redact_source_excerpts (
              filter (λ (s : SourceExcerpt). contains_key (sources_in principal pack) s.source_id)
                pack.sources);
          paths =
              filter
                (λ (p : GraphPath).
                  all (λ (hop : QueryResult). contains_key allowed hop.assertion_id) p.hops)
                pack.paths;
          contradictions =
              filter
                (λ (c : Contradiction).
                  contains_key allowed c.assertion_a && contains_key allowed c.assertion_b)
                pack.contradictions;
        };
        audit_events = map (audit_of principal reason) pack.assertions;
        denials =
            map (denial_of principal) (filter (is_denied principal) pack.assertions)
            ++ source_denials principal (sources_in principal pack) pack.sources;
      }

  unfoldable pub enforce_evidence_pack_mut :
      Principal → EvidencePack → AuditReason → GovernanceEngine × GovernedEvidencePack
  unfolding enforce_evidence_pack
  enforce_evidence_pack_mut principal pack reason =
      let governed = enforce_evidence_pack principal pack reason in
      (record engine { audit_log = engine.audit_log ++ governed.audit_events }, governed)
