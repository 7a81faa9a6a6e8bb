-- ===== src/Tests/Governance.antt =====
-- A pack of two assertions, of which the principal is barred from the source of one.
use mathlib.Core.List.{Memᴰ}
use hotgraph.Prelude.{
  [], ◌∷◌, none, true, false, ◌≡◌, refl, ◌∙◌, sym, ap, arith, string_ord, ◌↔◌, eq_iff,
}
use hotgraph.Prelude.Int.{pos}
use hotgraph.Prelude.Lists.{any, filter}
use hotgraph.Prelude.Map.{get, insert, contains_key}
use hotgraph.Core.Types.{Assertion, ContextScope, context_eq, text, active}
use hotgraph.Governance.{Principal, PermissionScope, scope_ord, source_can_read, can_read_tenant}
use hotgraph.Governance.Pack.{SourceExcerpt, EvidencePack}
use hotgraph.Governance.Engine.{
  GovernanceEngine, AuditReason, enforce_evidence_pack, is_source_deleted, source_policy_allows,
  can_read_source, check_sources, can_read_assertion, allowed_ids,
}
use hotgraph.Governance.Decisions.{is_permitted}
use hotgraph.Governance.Safety.{IsDistinct, enforce_evidence_pack_lem}
use hotgraph.Kernel.Views.{extend}

abbrev principal : Principal
principal = record { id = "bob"; tenant_id = "t"; agent_id = none }

abbrev engine : GovernanceEngine
engine = record {
  policy = record {
    tenant_id = "t";
    read_scopes = (PermissionScope.tenant "t", tt) ∷ [];
    source_policies =
        ("s", record { source_id = "s"; allowed_principals = ("alice", tt) ∷ [] }) ∷ [];
    memory_policies = [];
    redactions = [];
  };
  audit_log = [];
}

abbrev open_assertion : Assertion
open_assertion = record {
  id = "x";
  subject = "e";
  predicate = "p";
  object = text "v";
  valid_time = record { start = pos 0; end = none };
  transaction_time = record { start = pos 1; end = none };
  confidence = record { bits = 0x3f800000 };
  source_ids = "r" ∷ [];
  context = ContextScope.named "tenant:t";
  status = active;
}

abbrev barred : Assertion
barred = record open_assertion { id = "y"; source_ids = "s" ∷ [] }

abbrev pack : EvidencePack
pack = record {
  query = "q";
  entities = [];
  assertions = open_assertion ∷ barred ∷ [];
  sources = [];
  paths = [];
  contradictions = [];
  generated_at = pos 2;
}

other_ids : open_assertion.id ≡ barred.id → open_assertion ≡ barred
other_ids h = ground (arith, (eq_iff open_assertion.id barred.id).1 h)

pack-IsDistinct : IsDistinct pack.assertions
pack-IsDistinct a b (Memᴰ.head e) (Memᴰ.head f) h = e ∙ sym f
pack-IsDistinct a b (Memᴰ.head e) (Memᴰ.tail (Memᴰ.head f)) h =
    e
    ∙ other_ids (sym (ap (λ (c : Assertion). c.id) e) ∙ h ∙ ap (λ (c : Assertion). c.id) f)
    ∙ sym f
pack-IsDistinct a b (Memᴰ.tail (Memᴰ.head e)) (Memᴰ.head f) h =
    e
    ∙ sym
        (other_ids (sym (ap (λ (c : Assertion). c.id) f) ∙ sym h ∙ ap (λ (c : Assertion). c.id) e))
    ∙ sym f
pack-IsDistinct a b (Memᴰ.tail (Memᴰ.head e)) (Memᴰ.tail (Memᴰ.head f)) h = e ∙ sym f
pack-IsDistinct a b (Memᴰ.head e) (Memᴰ.tail (Memᴰ.tail m)) h = elim m [ ]
pack-IsDistinct a b (Memᴰ.tail (Memᴰ.head e)) (Memᴰ.tail (Memᴰ.tail m)) h = elim m [ ]
pack-IsDistinct a b (Memᴰ.tail (Memᴰ.tail m)) _ h = elim m [ ]

enforce_evidence_pack_example :
    let governed = enforce_evidence_pack engine principal pack AuditReason.ai_context_pack in
    ((a : Assertion)
      → Memᴰ a governed.pack.assertions
        ↔ (Memᴰ a pack.assertions × (is_permitted engine principal a ≡ true)))
    × ((s : SourceExcerpt)
        → Memᴰ s governed.pack.sources
        → is_source_deleted engine s.source_id ≡ false)
enforce_evidence_pack_example =
    enforce_evidence_pack_lem engine principal pack AuditReason.ai_context_pack pack-IsDistinct

-- Only the assertion from the open source is left.
barred_run :
    (enforce_evidence_pack engine principal pack AuditReason.ai_context_pack).pack.assertions
    ≡ open_assertion ∷ []
unfolding enforce_evidence_pack allowed_ids can_read_assertion check_sources can_read_source
    source_policy_allows is_source_deleted source_can_read can_read_tenant context_eq any filter get
    insert contains_key extend
barred_run = refl
