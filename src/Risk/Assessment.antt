-- ===== src/Risk/Assessment.antt =====
-- core/risk/assessment.py: the assessment of a session, human overrides and edits of the factors.
-- The parameters are what the code takes from Python's library: `re_search` is `re.search`, and `hash`
-- is SHA-256 over the JSON of a payload. The explanatory `reasons` are left out.
use ai_workflow_premortem_pu.Prelude.{
  ℕ, String, Bool, not, ◌&&◌, Option, none, some, [], ◌∷◌, ◌++◌, last, ltb, non_empty, strip,
  lower_eq, Outcome, ok, raised, raise_if, ◌>>=◌, ◌>>◌, ◌!=◌, string_eq, if◌then◌else◌,
}
use ai_workflow_premortem_pu.Dict.{Dict}
use ai_workflow_premortem_pu.Model.Enums.{
  Tier, low, medium, high, critical, DataClassification, human, scenario, tier_order, max_tier,
}
use ai_workflow_premortem_pu.Model.Records.{RiskFactorScores, RiskOverrideRecord}
use ai_workflow_premortem_pu.Model.Context.{ProjectContext, append_audit_event}
use ai_workflow_premortem_pu.Risk.Rules.{as_dict, evaluate_risk}
use ai_workflow_premortem_pu.Risk.Inference.{infer_legacy_factors}

-- What `_digest_payload` hashes.
pub data DigestPayload : Type 0 where
  factor_payload : Dict String ℕ → DataClassification → Tier → Tier → DigestPayload
  assessment_payload : String → Tier → Option String → DigestPayload

pub data RiskError : Type 0 where
  unknown_tier missing_reason downgrade_requires_admin : RiskError

-- `_tier(value)`
unfoldable pub tier_of_text : String → Outcome RiskError Tier
tier_of_text value =
    if lower_eq value "low"
    then ok low
    else if lower_eq value "medium"
    then ok medium
    else if lower_eq value "high"
    then ok high
    else if lower_eq value "critical"
    then ok critical
    else raised unknown_tier

pub record RiskAssessment : Type 0 where
  pub factors : RiskFactorScores
  pub structural_tier : Tier
  pub floor_tier : Tier
  pub effective_tier : Tier
  pub override_id : Option String

abbrev pub latest_override : ProjectContext → Option RiskOverrideRecord
latest_override ctx = last ctx.risk_overrides

-- `_assert_tier_downgrade_allowed`
unfoldable pub assert_tier_downgrade_allowed : String → Tier → Tier → Outcome RiskError (Unit {0})
assert_tier_downgrade_allowed actor_role before after =
    raise_if (ltb (tier_order after) (tier_order before) && actor_role != "admin")
      downgrade_requires_admin

-- The override that still counts: one bound to another digest than the current one does not.
unfoldable pub bound_override : Option RiskOverrideRecord → String → Option RiskOverrideRecord
bound_override none digest = none
bound_override (some r) digest =
    if non_empty r.factors_digest && r.factors_digest != digest then none else some r

abbrev pub overridden_tier : Option RiskOverrideRecord → Tier → Tier → Tier
overridden_tier none floor effective = effective
overridden_tier (some r) floor effective = max_tier r.requested_tier floor

abbrev pub override_id_of : Option RiskOverrideRecord → Option String
override_id_of none = none
override_id_of (some r) = some r.override_id

module _ (re_search : String → String → Bool) (hash : DigestPayload → String) where
  unfoldable pub resolve_factors : ProjectContext → RiskFactorScores
  resolve_factors ctx = elim ctx.risk_profile [
    | some profile ↦ profile
    | none ↦ elim ctx.scenario_profile [
      | some (some profile) ↦ record profile { source = scenario }
      | some none ↦ infer_legacy_factors re_search ctx
      | none ↦ infer_legacy_factors re_search ctx
    ]
  ]

  unfoldable pub risk_factor_digest_for : RiskFactorScores → DataClassification → String
  risk_factor_digest_for f classification =
      let e = evaluate_risk f classification in
      hash (factor_payload (as_dict f) classification e.structural_tier e.floor_tier)

  unfoldable pub risk_factor_digest : ProjectContext → String
  risk_factor_digest ctx = risk_factor_digest_for (resolve_factors ctx) ctx.data_classification

  unfoldable pub build_assessment : ProjectContext → RiskFactorScores → RiskAssessment
  build_assessment ctx f =
      let e = evaluate_risk f ctx.data_classification in
      let override =
        bound_override (latest_override ctx) (risk_factor_digest_for f ctx.data_classification) in
      record {
        factors = f;
        structural_tier = e.structural_tier;
        floor_tier = e.floor_tier;
        effective_tier = overridden_tier override e.floor_tier e.effective_tier;
        override_id = override_id_of override;
      }

  unfoldable pub assess_project_risk : ProjectContext → RiskAssessment
  assess_project_risk ctx = build_assessment ctx (resolve_factors ctx)

  unfoldable pub risk_assessment_digest : ProjectContext → String
  risk_assessment_digest ctx =
      let a = assess_project_risk ctx in
      hash (
        assessment_payload (risk_factor_digest_for a.factors ctx.data_classification)
          a.effective_tier a.override_id)

  unfoldable pub set_risk_profile :
      ProjectContext
      → RiskFactorScores
      → String
      → Outcome RiskError (RiskAssessment × ProjectContext)
  set_risk_profile ctx factors actor_role =
      let before = assess_project_risk ctx in
      let updated = record factors { source = human } in
      let after = build_assessment ctx updated in
      do
        assert_tier_downgrade_allowed actor_role before.effective_tier after.effective_tier
        let ctx' =
            append_audit_event (record ctx { risk_profile = some updated }) "user"
              "risk_profile_updated" "session" ctx.session_id
        ok (assess_project_risk ctx', ctx')

  -- `override_id` is the new record's generated identifier.
  unfoldable pub apply_risk_override :
      ProjectContext
      → String
      → String
      → String
      → String
      → String
      → Outcome RiskError (RiskOverrideRecord × ProjectContext)
  apply_risk_override ctx requested_tier reason actor actor_role override_id =
      let current = assess_project_risk ctx in
      do
        requested ← tier_of_text requested_tier
        raise_if (not (non_empty (strip reason))) missing_reason
        assert_tier_downgrade_allowed actor_role current.effective_tier requested
        let r : RiskOverrideRecord = record {
          override_id = override_id;
          actor = actor;
          actor_role = actor_role;
          original_tier = current.effective_tier;
          requested_tier = requested;
          effective_tier = max_tier requested current.floor_tier;
          floor_tier = current.floor_tier;
          reason = strip reason;
          factors_digest = risk_factor_digest ctx;
        }
        ok (
          r,
          append_audit_event (record ctx { risk_overrides = ctx.risk_overrides ++ r ∷ [] }) "user"
              "risk_tier_overridden" "session" ctx.session_id,
        )
