-- ===== src/Governance/Decisions.antt =====
-- crates/rg-governance/src/lib.rs: which assertions a principal can read.
use hotgraph.Prelude.{List, [], ◌∷◌, Bool, ◌&&◌, ◌||◌, not, ◌≡◌, refl, ◌==◌, arith, string_ord}
use hotgraph.Prelude.Lists.{all, any, contains}
use hotgraph.Prelude.Map.{contains_key}
use hotgraph.Core.Types.{Assertion, AssertionId, SourceId, context_eq}
use hotgraph.Kernel.Views.{BTreeSet, extend}
use hotgraph.Kernel.Views.Stale.{contains_key-extend}
use hotgraph.Governance.{Principal, can_read_tenant}
use hotgraph.Governance.Engine.{
  GovernanceEngine, is_source_deleted, source_policy_allows, can_read_source, check_sources,
  tenant_context, can_read_assertion, allowed_ids,
}

module _ (engine : GovernanceEngine) (principal : Principal) where
  -- The source is not deleted, and its policy, if it has one, lets the principal read it.
  abbrev pub is_readable : SourceId → Bool
  is_readable id = not (is_source_deleted engine id) && source_policy_allows engine principal id

  can_read_source_lem :
      (id : SourceId) → (can_read_source engine principal id).allowed ≡ is_readable id
  unfolding can_read_source
  can_read_source_lem id = ground arith

  check_sources_lem :
      (ids : List SourceId) → (check_sources engine principal ids).allowed ≡ all is_readable ids
  unfolding check_sources all
  check_sources_lem [] = refl
  check_sources_lem (id ∷ ids) = ground (arith, check_sources_lem ids, can_read_source_lem id)

  -- The policy is of the principal's tenant and grants it, the assertion is of this tenant, and all
  -- its sources are readable.
  abbrev pub is_permitted : Assertion → Bool
  is_permitted a =
      can_read_tenant engine.policy principal
      && (context_eq a.context (tenant_context principal.tenant_id) && all is_readable a.source_ids)

  pub can_read_assertion_lem :
      (a : Assertion) → (can_read_assertion engine principal a).allowed ≡ is_permitted a
  unfolding can_read_assertion
  can_read_assertion_lem a = ground (arith, check_sources_lem a.source_ids)

  -- Some assertion of the list with this identifier can be read.
  abbrev pub some_permitted : AssertionId → List Assertion → Bool
  some_permitted id assertions = any (λ (a : Assertion). a.id == id && is_permitted a) assertions

  pub contains_key-allowed_ids :
      (ids : BTreeSet AssertionId) (assertions : List Assertion) (id : AssertionId)
      → contains_key (allowed_ids engine principal ids assertions) id
        ≡ (contains_key ids id || some_permitted id assertions)
  unfolding allowed_ids any contains
  contains_key-allowed_ids ids [] id = ground arith
  contains_key-allowed_ids ids (a ∷ assertions) id = ground (
    arith,
    can_read_assertion_lem a,
    contains_key-allowed_ids ids assertions id,
    contains_key-allowed_ids (extend ids (a.id ∷ [])) assertions id,
    contains_key-extend ids (a.id ∷ []) id,
  )
