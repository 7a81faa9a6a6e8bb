-- ===== src/Kernel/Atom.antt =====
-- crates/rg-kernel/src/lib.rs: `RealityAtom`, its parts, its builder, and its errors.
pub mod Builder
use hotgraph.Prelude.{
  ℕ, String, List, [], Option, none, some, Bool, true, false, not, ◌&&◌, if◌then◌else◌, Result, ok,
  err,
}
use hotgraph.Prelude.Int.{ℤ_ord}
use hotgraph.Prelude.Lists.{is_empty}
use hotgraph.Core.Interval
use hotgraph.Core.Interval.{TimeInterval}
use hotgraph.Core.Confidence.{Confidence}
use hotgraph.Core.Types.{AgentId, PredicateId, SourceId, TenantId, ValidTime, TxTime, GraphValue}

-- `string_newtype!`
abbrev pub AtomId : Type 0
AtomId = String

abbrev pub EntityRef : Type 0
EntityRef = String

-- `TransactionTime`, a wrapper of `TxTime`
abbrev pub TransactionTime : Type 0
TransactionTime = TxTime

pub data ValueOrEntity : Type 0 where
  entity : EntityRef → ValueOrEntity
  value : GraphValue → ValueOrEntity

pub data ClaimType : Type 0 where
  observation assertion agent_memory event summary simulation hypothesis derived : ClaimType

pub data BeliefState : Type 0 where
  candidate accepted disputed superseded retracted refuted simulated unknown : BeliefState

-- `BeliefState::ai_supported`
unfoldable pub belief_ai_supported : BeliefState → Bool
belief_ai_supported accepted = true
belief_ai_supported disputed = true
belief_ai_supported _ = false

unfoldable pub is_rejected_or_retired : BeliefState → Bool
is_rejected_or_retired superseded = true
is_rejected_or_retired retracted = true
is_rejected_or_retired refuted = true
is_rejected_or_retired _ = false

unfoldable pub is_simulation : BeliefState → Bool
is_simulation simulated = true
is_simulation _ = false

unfoldable pub is_uncertain : BeliefState → Bool
is_uncertain candidate = true
is_uncertain disputed = true
is_uncertain unknown = true
is_uncertain _ = false

pub record SourceRef : Type 0 where
  pub source_id : SourceId
  pub uri : Option String
  pub content_hash : Option String

pub record EvidenceSpan : Type 0 where
  pub source_id : SourceId
  pub start : ℕ
  pub end : ℕ
  pub quote : String

pub record ExtractionTrace : Type 0 where
  pub extractor : String
  pub rule_or_model : String

pub data PermissionLabel : Type 0 where
  public internal restricted : PermissionLabel

pub data TaintLabel : Type 0 where
  trusted untrusted prompt_injection_risk poisoned : TaintLabel

pub data AiUsage : Type 0 where
  safe_for_planning : Option String → AiUsage
  use_with_caution unsafe_for_planning simulation_only : String → AiUsage

-- `AiUsage::ai_supported`
unfoldable pub usage_ai_supported : AiUsage → Bool
usage_ai_supported (safe_for_planning _) = true
usage_ai_supported (use_with_caution _) = true
usage_ai_supported _ = false

pub data KernelContextScope : Type 0 where
  global : KernelContextScope
  named : String → KernelContextScope

pub record RealityAtom : Type 0 where
  pub id : AtomId
  pub subject : EntityRef
  pub predicate : PredicateId
  pub object : ValueOrEntity
  pub valid_time : TimeInterval ValidTime
  pub transaction_time : TimeInterval TxTime
  pub observed_time : Option ValidTime
  pub claim_type : ClaimType
  pub belief_state : BeliefState
  pub confidence : Confidence
  pub source_refs : List SourceRef
  pub evidence_spans : List EvidenceSpan
  pub extraction_trace : Option ExtractionTrace
  pub context : KernelContextScope
  pub tenant_id : TenantId
  pub agent_scope : Option AgentId
  pub dependencies : List AtomId
  pub contradicts : List AtomId
  pub supersedes : List AtomId
  pub permissions : PermissionLabel
  pub taint : TaintLabel
  pub ai_usage : AiUsage

-- `RealityAtom::is_visible_at`, and the function `visible_at`
unfoldable pub is_visible_at : RealityAtom → ValidTime → TxTime → Bool
is_visible_at a valid_at known_at =
    Interval.contains a.valid_time valid_at && Interval.contains a.transaction_time known_at

unfoldable pub known_at : RealityAtom → TransactionTime → Bool
known_at a now = Interval.contains a.transaction_time now

unfoldable pub active_during : RealityAtom → TimeInterval ValidTime → Bool
active_during a interval = Interval.overlaps a.valid_time interval

abbrev pub is_hypothetical : ClaimType → Bool
is_hypothetical ClaimType.simulation = true
is_hypothetical ClaimType.hypothesis = true
is_hypothetical _ = false

abbrev pub is_harmful : TaintLabel → Bool
is_harmful TaintLabel.prompt_injection_risk = true
is_harmful TaintLabel.poisoned = true
is_harmful _ = false

unfoldable pub is_supported_for_ai : RealityAtom → Bool
is_supported_for_ai a =
    belief_ai_supported a.belief_state
    && (not (is_empty a.source_refs)
        && (not (is_empty a.evidence_spans)
            && (usage_ai_supported a.ai_usage
                && (not (is_hypothetical a.claim_type) && not (is_harmful a.taint)))))

pub data KernelError : Type 0 where
  missing_valid_time missing_transaction_time missing_provenance missing_confidence : KernelError
  missing_dependencies missing_memory_trace simulation_labeled_as_fact : KernelError
  invalid_dependency_strength : KernelError
  unknown_atom : AtomId → KernelError
  missing_causal_evidence self_causation : KernelError
