-- ===== src/Governance/Safety.antt =====
-- crates/rg-governance/src/lib.rs: what a governed evidence pack holds.
use mathlib.Core.List.{Memᴰ}
use hotgraph.Prelude.{
  String, List, [], ◌∷◌, Bool, true, false, ◌&&◌, if◌then◌else◌, ◌==◌, eq_iff, eq_self, ◌≡◌, refl,
  ◌∙◌, sym, ap, subst, arith, string_ord, Bool-cases, inl, inr, ◌↔◌,
}
use hotgraph.Prelude.Lists.{any, filter}
use hotgraph.Prelude.Members.{any-witness, witness-any}
use hotgraph.Prelude.Map.{get, contains_key}
use hotgraph.Prelude.Members.{Memᴰ-filter, filter-Memᴰ}
use hotgraph.Core.Types.{Assertion, AssertionId}
use hotgraph.Governance.{Principal, RedactionEvent, RedactionTarget}
use hotgraph.Governance.Pack.{SourceExcerpt, EvidencePack}
use hotgraph.Governance.Engine.{
  GovernanceEngine, AuditReason, is_source_deleted, redact_field, redact_target, redact_all,
  redact_source_excerpts, allowed_in, sources_in, enforce_evidence_pack,
}
use hotgraph.Governance.Decisions.{is_permitted, some_permitted, contains_key-allowed_ids}

-- No two assertions of the pack have the same identifier.
abbrev pub IsDistinct : List Assertion → Type 0
IsDistinct assertions =
    (a b : Assertion) → Memᴰ a assertions → Memᴰ b assertions → a.id ≡ b.id → a ≡ b

module _ (engine : GovernanceEngine) where
  source-redact_field :
      (field reason : String) (s : SourceExcerpt)
      → (redact_field field reason s).source_id ≡ s.source_id
  source-redact_field field reason s = ground arith

  source-redact_target :
      (target : RedactionTarget) (reason : String) (s : SourceExcerpt)
      → (redact_target target reason s).source_id ≡ s.source_id
  source-redact_target (RedactionTarget.source _) reason s = refl
  source-redact_target (RedactionTarget.source_field id field) reason s =
      ground (arith, source-redact_field field reason s)

  source-redact_all :
      (rs : List RedactionEvent) (s : SourceExcerpt) → (redact_all rs s).source_id ≡ s.source_id
  unfolding redact_all
  source-redact_all [] s = refl
  source-redact_all (r ∷ rs) s =
      source-redact_all rs (redact_target r.target r.reason s)
      ∙ source-redact_target r.target r.reason s

  abbrev kept : Bool → SourceExcerpt → List SourceExcerpt → List SourceExcerpt
  kept b t sources =
      let rest = redact_source_excerpts engine sources in
      if b then rest else redact_all engine.policy.redactions t ∷ rest

  no_deleted_excerpt :
      (sources : List SourceExcerpt) (s : SourceExcerpt)
      → Memᴰ s (redact_source_excerpts engine sources)
      → is_source_deleted engine s.source_id ≡ false
  unfolding redact_source_excerpts
  no_deleted_excerpt [] s m = elim m [ ]
  no_deleted_excerpt (t ∷ sources) s m = elim (Bool-cases (is_source_deleted engine t.source_id)) [
    | inl deleted ↦ no_deleted_excerpt sources s (subst (λ b. Memᴰ s (kept b t sources)) deleted m)
    | inr other ↦ elim (subst (λ b. Memᴰ s (kept b t sources)) other m) [
      | Memᴰ.head e ↦
          ap (λ (u : SourceExcerpt). is_source_deleted engine u.source_id) e
          ∙ ap (is_source_deleted engine) (source-redact_all engine.policy.redactions t)
          ∙ other
      | Memᴰ.tail i ↦ no_deleted_excerpt sources s i
    ]
  ]

  allowed_in_lem :
      (principal : Principal) (pack : EvidencePack) (id : AssertionId)
      → contains_key (allowed_in engine principal pack) id
        ≡ some_permitted engine principal id pack.assertions
  unfolding contains_key get any
  allowed_in_lem principal pack id = contains_key-allowed_ids engine principal [] pack.assertions id

  allowed-permitted :
      (principal : Principal) (pack : EvidencePack) (a : Assertion)
      → IsDistinct pack.assertions
      → Memᴰ a pack.assertions
      → contains_key (allowed_in engine principal pack) a.id ≡ true
      → is_permitted engine principal a ≡ true
  allowed-permitted principal pack a distinct m h =
      let p : Assertion → Bool = λ b. b.id == a.id && is_permitted engine principal b in
      let (b, i, q) =
        any-witness p pack.assertions (sym (allowed_in_lem principal pack a.id) ∙ h) in
      let e : b ≡ a = distinct b a i m (ground (arith, q, eq_iff b.id a.id)) in
      sym (ap (is_permitted engine principal) e) ∙ ground (arith, q)

  permitted-allowed :
      (principal : Principal) (pack : EvidencePack) (a : Assertion)
      → Memᴰ a pack.assertions
      → is_permitted engine principal a ≡ true
      → contains_key (allowed_in engine principal pack) a.id ≡ true
  permitted-allowed principal pack a m h =
      allowed_in_lem principal pack a.id
      ∙ witness-any (λ b. b.id == a.id && is_permitted engine principal b) pack.assertions a m
          (ground (arith, h, eq_self a.id))

  -- When no two assertions of a pack have the same identifier, the governed pack holds exactly the
  -- assertions of the pack that the principal is permitted to read: the policy grants the tenant,
  -- the assertion is of that tenant, and every source of it is neither deleted nor barred to the
  -- principal. And no excerpt in it is of a source that is deleted.
  pub enforce_evidence_pack_lem :
      (principal : Principal) (pack : EvidencePack) (reason : AuditReason)
      → IsDistinct pack.assertions
      → let governed = enforce_evidence_pack engine principal pack reason in
        ((a : Assertion)
          → Memᴰ a governed.pack.assertions
            ↔ (Memᴰ a pack.assertions × (is_permitted engine principal a ≡ true)))
        × ((s : SourceExcerpt)
            → Memᴰ s governed.pack.sources
            → is_source_deleted engine s.source_id ≡ false)
  unfolding enforce_evidence_pack
  enforce_evidence_pack_lem principal pack reason distinct =
      let seen : Assertion → Bool = λ a. contains_key (allowed_in engine principal pack) a.id in
      (
        λ a. (
          λ m.
              let (i, h) = Memᴰ-filter seen pack.assertions a m in
              (i, allowed-permitted principal pack a distinct i h),
          λ (m, h). filter-Memᴰ seen pack.assertions a m (permitted-allowed principal pack a m h),
        ),
        no_deleted_excerpt (
            filter
              (λ (s : SourceExcerpt). contains_key (sources_in engine principal pack) s.source_id)
              pack.sources),
      )
