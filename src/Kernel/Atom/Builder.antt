-- ===== src/Kernel/Atom/Builder.antt =====
-- crates/rg-kernel/src/lib.rs: `RealityAtomBuilder`, the only way to a new atom.
use hotgraph.Prelude.{
  ◌≡◌, sym, subst, ◌∙◌, ◌↔◌, ap, List, [], Option, none, some, Bool, true, false, not, ◌&&◌, ◌||◌,
  arith, Result, ok, ok_or, ensure, ◌>>=◌, ◌>>◌, ◌≢◌,
}
use hotgraph.Prelude.Lists.{is_empty}
use hotgraph.Prelude.Map.{is_some}
use hotgraph.Core.Interval.{TimeInterval}
use hotgraph.Core.Confidence.{Confidence}
use hotgraph.Core.Types.{AgentId, PredicateId, TenantId, ValidTime, TxTime}
use hotgraph.Kernel.Atom.{
  AtomId, EntityRef, ValueOrEntity, ClaimType, BeliefState, SourceRef, EvidenceSpan,
  ExtractionTrace, PermissionLabel, TaintLabel, AiUsage, KernelContextScope, RealityAtom,
  KernelError, simulated, missing_valid_time, missing_transaction_time, missing_confidence,
  missing_provenance, missing_dependencies, missing_memory_trace, simulation_labeled_as_fact,
  is_simulation,
}

pub record RealityAtomBuilder : Type 0 where
  pub id : AtomId
  pub subject : EntityRef
  pub predicate : PredicateId
  pub object : ValueOrEntity
  pub valid_time : Option (TimeInterval ValidTime)
  pub transaction_time : Option (TimeInterval TxTime)
  pub observed_time : Option ValidTime
  pub claim_type : ClaimType
  pub belief_state : BeliefState
  pub confidence : Option Confidence
  pub source_refs : List SourceRef
  pub evidence_spans : List EvidenceSpan
  pub extraction_trace : Option ExtractionTrace
  pub context : KernelContextScope
  pub tenant_id : TenantId
  pub agent_scope : Option AgentId
  pub dependencies : List AtomId
  pub contradicts : List AtomId
  pub supersedes : List AtomId
  pub permissions : PermissionLabel
  pub taint : TaintLabel
  pub ai_usage : AiUsage

-- `RealityAtomBuilder::new`
abbrev pub new : AtomId → EntityRef → PredicateId → ValueOrEntity → RealityAtomBuilder
new id subject predicate object = record {
  id = id;
  subject = subject;
  predicate = predicate;
  object = object;
  valid_time = none;
  transaction_time = none;
  observed_time = none;
  claim_type = ClaimType.assertion;
  belief_state = BeliefState.candidate;
  confidence = none;
  source_refs = [];
  evidence_spans = [];
  extraction_trace = none;
  context = KernelContextScope.global;
  tenant_id = "default";
  agent_scope = none;
  dependencies = [];
  contradicts = [];
  supersedes = [];
  permissions = PermissionLabel.internal;
  taint = TaintLabel.untrusted;
  ai_usage = AiUsage.use_with_caution "no explicit AI usage policy";
}

abbrev is_derived : ClaimType → Bool
is_derived ClaimType.derived = true
is_derived _ = false

abbrev is_agent_memory : ClaimType → Bool
is_agent_memory ClaimType.agent_memory = true
is_agent_memory _ = false

abbrev is_simulation_claim : ClaimType → Bool
is_simulation_claim ClaimType.simulation = true
is_simulation_claim _ = false

abbrev pub with_times :
    RealityAtomBuilder → TimeInterval ValidTime → TimeInterval TxTime → Confidence → RealityAtom
with_times b valid_time transaction_time confidence = record {
  id = b.id;
  subject = b.subject;
  predicate = b.predicate;
  object = b.object;
  valid_time = valid_time;
  transaction_time = transaction_time;
  observed_time = b.observed_time;
  claim_type = b.claim_type;
  belief_state = b.belief_state;
  confidence = confidence;
  source_refs = b.source_refs;
  evidence_spans = b.evidence_spans;
  extraction_trace = b.extraction_trace;
  context = b.context;
  tenant_id = b.tenant_id;
  agent_scope = b.agent_scope;
  dependencies = b.dependencies;
  contradicts = b.contradicts;
  supersedes = b.supersedes;
  permissions = b.permissions;
  taint = b.taint;
  ai_usage = b.ai_usage;
}

-- `RealityAtomBuilder::build`
unfoldable pub build : RealityAtomBuilder → Result RealityAtom KernelError
unfolding is_simulation
build b = do
  valid_time ← ok_or b.valid_time missing_valid_time
  transaction_time ← ok_or b.transaction_time missing_transaction_time
  confidence ← ok_or b.confidence missing_confidence
  ensure (not (is_empty b.source_refs || is_empty b.evidence_spans)) missing_provenance
  ensure (not (is_derived b.claim_type && is_empty b.dependencies)) missing_dependencies
  ensure (not (is_agent_memory b.claim_type && not (is_some b.extraction_trace)))
      missing_memory_trace
  ensure (not (is_simulation_claim b.claim_type && not (is_simulation b.belief_state)))
      simulation_labeled_as_fact
  ok (with_times b valid_time transaction_time confidence)

-- What every atom must carry.
pub record IsSound (a : RealityAtom) : Type 0 where
  pub sourced : a.source_refs ≢ []
  pub evidenced : a.evidence_spans ≢ []
  pub derived : a.claim_type ≡ ClaimType.derived → a.dependencies ≢ []
  pub remembered : a.claim_type ≡ ClaimType.agent_memory → a.extraction_trace ≢ none
  pub simulation : a.claim_type ≡ ClaimType.simulation → a.belief_state ≡ simulated

-- The builder has all that an atom carries besides.
abbrev pub IsComplete : RealityAtomBuilder → RealityAtom → Type 0
IsComplete b a =
    (b.valid_time ≡ some a.valid_time)
    × (b.transaction_time ≡ some a.transaction_time)
    × (b.confidence ≡ some a.confidence)
    × (a ≡ record {
      id = b.id;
      subject = b.subject;
      predicate = b.predicate;
      object = b.object;
      valid_time = a.valid_time;
      transaction_time = a.transaction_time;
      observed_time = b.observed_time;
      claim_type = b.claim_type;
      belief_state = b.belief_state;
      confidence = a.confidence;
      source_refs = b.source_refs;
      evidence_spans = b.evidence_spans;
      extraction_trace = b.extraction_trace;
      context = b.context;
      tenant_id = b.tenant_id;
      agent_scope = b.agent_scope;
      dependencies = b.dependencies;
      contradicts = b.contradicts;
      supersedes = b.supersedes;
      permissions = b.permissions;
      taint = b.taint;
      ai_usage = b.ai_usage;
    })

built-IsSound : (b : RealityAtomBuilder) (a : RealityAtom) → build b ≡ ok a → IsSound a
unfolding build
built-IsSound b a h = record {
  sourced = λ e. ground arith;
  evidenced = λ e. ground arith;
  derived = λ d e. ground arith;
  remembered = λ d e. ground arith;
  simulation = λ d. ground arith;
}

sound-builds :
    (b : RealityAtomBuilder) (v : TimeInterval ValidTime) (t : TimeInterval TxTime) (c : Confidence)
    → b.valid_time ≡ some v
    → b.transaction_time ≡ some t
    → b.confidence ≡ some c
    → IsSound (with_times b v t c)
    → build b ≡ ok (with_times b v t c)
unfolding build
sound-builds b v t c p q r s =
    ground (arith, s.sourced, s.evidenced, s.derived, s.remembered, s.simulation)

-- `build` succeeds with an atom exactly if the atom is sound (it has source references and evidence
-- spans, a derived claim has dependencies, an agent memory has an extraction trace, a simulation is
-- believed as a simulation) and is what the builder holds, with its three times and confidence.
pub build_iff :
    (b : RealityAtomBuilder) (a : RealityAtom) → (build b ≡ ok a) ↔ (IsSound a × IsComplete b a)
build_iff b a = (built, builds)
  where
    built : build b ≡ ok a → IsSound a × IsComplete b a
    built h = (
      built-IsSound b a h,
      unfold build in (ground arith, ground arith, ground arith, ground arith),
    )

    builds : IsSound a × IsComplete b a → build b ≡ ok a
    builds (s, (v, t, c, e)) =
        sound-builds b a.valid_time a.transaction_time a.confidence v t c (subst IsSound e s)
        ∙ ap ok (sym e)
