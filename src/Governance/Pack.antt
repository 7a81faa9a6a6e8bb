-- ===== src/Governance/Pack.antt =====
-- crates/rg-ai/src/lib.rs: `EvidencePack`, with the path hops of crates/rg-query/src/lib.rs and the
-- contradictions of crates/rg-index/src/lib.rs.
use hotgraph.Prelude.{ℕ, String, List, Option}
use hotgraph.Core.Confidence.{Confidence}
use hotgraph.Core.Types.{
  Assertion, AssertionId, ContentHash, ContextScope, Entity, EntityId, GraphValue, PredicateId,
  SourceId, SourceType, TxTime, ValidTime,
}

pub record QueryResult : Type 0 where
  pub assertion_id : AssertionId
  pub subject : EntityId
  pub predicate : PredicateId
  pub object : GraphValue
  pub valid_from : ValidTime
  pub valid_to : Option ValidTime
  pub tx_from : TxTime
  pub tx_to : Option TxTime
  pub confidence : Confidence
  pub source_ids : List SourceId
  pub context : ContextScope

pub record GraphPath : Type 0 where
  pub start : EntityId
  pub end : EntityId
  pub hops : List QueryResult

pub data ContradictionType : Type 0 where
  exact_predicate_conflict mutually_exclusive_predicates : ContradictionType
  incompatible_scalar_values lower_confidence_replacement : ContradictionType

pub data Severity : Type 0 where
  low medium high critical : Severity

pub record Contradiction : Type 0 where
  pub id : String
  pub assertion_a : AssertionId
  pub assertion_b : AssertionId
  pub contradiction_type : ContradictionType
  pub severity : Severity
  pub explanation : String

-- The trust score is the bits of an `f32`.
pub record SourceExcerpt : Type 0 where
  pub source_id : SourceId
  pub source_type : SourceType
  pub uri : Option String
  pub content_hash : ContentHash
  pub snippet : String
  pub trust_score : Option ℕ

pub record EvidencePack : Type 0 where
  pub query : String
  pub entities : List Entity
  pub assertions : List Assertion
  pub sources : List SourceExcerpt
  pub paths : List GraphPath
  pub contradictions : List Contradiction
  pub generated_at : TxTime
