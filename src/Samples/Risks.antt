-- ===== src/Samples/Risks.antt =====
-- Tests of the risk model.
use ai_workflow_premortem_pu.Risk.Rules.{
  collect_floor, critical_floor, high_floor, raise_when, score_factors, tier_from_score,
}
use ai_workflow_premortem_pu.Risk.Assessment.{
  assert_tier_downgrade_allowed, bound_override, build_assessment, resolve_factors,
}
use ai_workflow_premortem_pu.Prelude.{lower_eq, strip}
use ai_workflow_premortem_pu.Risk.Inference.{matching_reasons}
use ai_workflow_premortem_pu.Prelude.{
  ◌≤◌, String, ◌≡◌, ◌≢◌, refl, arith, Bool, true, some, ok, value_of, string_eq,
}
use ai_workflow_premortem_pu.Samples.{base, factors, no_match, constant}
use ai_workflow_premortem_pu.Model.Enums.{
  low, critical, business_internal, sensitive_personal, tier_order, max_tier,
}
use ai_workflow_premortem_pu.Model.Records.{RiskOverrideRecord}
use ai_workflow_premortem_pu.Model.Context.{ProjectContext}
use ai_workflow_premortem_pu.Risk.Rules.{evaluate_risk}
use ai_workflow_premortem_pu.Risk.Inference.{hits, critical_keywords, infer_legacy_factors}
use ai_workflow_premortem_pu.Risk.Assessment.{
  DigestPayload, RiskAssessment, apply_risk_override, set_risk_profile, assess_project_risk,
  tier_of_text,
}
use ai_workflow_premortem_pu.Risk.Bounds.{InRange}
use ai_workflow_premortem_pu.Risk.Monotone.{evaluate_risk_mono}
use ai_workflow_premortem_pu.Risk.Overrides.{tier_of, apply_risk_override-assess}
use ai_workflow_premortem_pu.Risk.Signals.{infer_legacy_factors-InRange, critical_keywords_critical}
use ai_workflow_premortem_pu.Risk.Authority.{RiskRun, here, then_step, edited, RiskRun-no_downgrade}

abbrev digest : DigestPayload → String
digest = constant "d"

evaluate_risk_mono_example :
    (tier_order (evaluate_risk (factors 1) business_internal).structural_tier
      ≤ tier_order (evaluate_risk (factors 2) sensitive_personal).structural_tier)
    × (tier_order (evaluate_risk (factors 1) business_internal).floor_tier
        ≤ tier_order (evaluate_risk (factors 2) sensitive_personal).floor_tier)
    × (tier_order (evaluate_risk (factors 1) business_internal).effective_tier
        ≤ tier_order (evaluate_risk (factors 2) sensitive_personal).effective_tier)
evaluate_risk_mono_example =
    evaluate_risk_mono (factors 1) (factors 2)
      (record {
        impact_le = omega arith;
        autonomy_le = omega arith;
        data_sensitivity_le = omega arith;
        reversibility_le = omega arith;
        scale_le = omega arith;
        external_exposure_le = omega arith;
      })
      (record {
        impact_le = omega arith;
        autonomy_le = omega arith;
        data_sensitivity_le = omega arith;
        reversibility_le = omega arith;
        scale_le = omega arith;
        external_exposure_le = omega arith;
      })
      business_internal sensitive_personal (λ _. refl)

infer_legacy_factors-InRange_example : InRange (infer_legacy_factors no_match base)
infer_legacy_factors-InRange_example = infer_legacy_factors-InRange no_match base

abbrev every_match : String → String → Bool
every_match pattern text = true

critical_keywords_critical_example :
    (evaluate_risk (infer_legacy_factors every_match base) business_internal).effective_tier
    ≡ critical
unfolding hits critical_keywords matching_reasons
critical_keywords_critical_example =
    critical_keywords_critical every_match base business_internal refl

abbrev no_record : RiskOverrideRecord
no_record = record {
  override_id = "";
  actor = "";
  actor_role = "";
  original_tier = low;
  requested_tier = low;
  effective_tier = low;
  floor_tier = low;
  reason = "";
  factors_digest = "";
}

abbrev raised_base : RiskOverrideRecord × ProjectContext
raised_base =
    value_of (apply_risk_override no_match digest base "high" "pilot" "bob" "editor" "o1")
      (no_record, base)

raised_ok :
    apply_risk_override no_match digest base "high" "pilot" "bob" "editor" "o1"
    ≡ ok (raised_base.0, raised_base.1)
unfolding apply_risk_override tier_of_text lower_eq strip assert_tier_downgrade_allowed
    assess_project_risk build_assessment bound_override evaluate_risk tier_from_score score_factors
    resolve_factors collect_floor high_floor raise_when critical_floor
raised_ok = refl

apply_risk_override-assess_example :
    (tier_of_text "high" ≡ ok raised_base.0.requested_tier)
    × (tier_of no_match digest raised_base.1
        ≡ max_tier raised_base.0.requested_tier
            (assess_project_risk no_match digest base).floor_tier)
    × (tier_of no_match digest raised_base.1 ≡ raised_base.0.effective_tier)
    × ((assess_project_risk no_match digest raised_base.1).override_id
        ≡ some raised_base.0.override_id)
    × ((assess_project_risk no_match digest raised_base.1).floor_tier
        ≡ (assess_project_risk no_match digest base).floor_tier)
    × ((assess_project_risk no_match digest raised_base.1).factors
        ≡ (assess_project_risk no_match digest base).factors)
apply_risk_override-assess_example =
    apply_risk_override-assess no_match digest base "high" "pilot" "bob" "editor" "o1" raised_base.0
      raised_base.1 raised_ok

abbrev edited_base : RiskAssessment × ProjectContext
edited_base =
    value_of (set_risk_profile no_match digest base (factors 2) "editor")
      (assess_project_risk no_match digest base, base)

edited_ok :
    set_risk_profile no_match digest base (factors 2) "editor" ≡ ok (edited_base.0, edited_base.1)
unfolding set_risk_profile assert_tier_downgrade_allowed build_assessment bound_override
    evaluate_risk tier_from_score score_factors collect_floor high_floor raise_when critical_floor
    assess_project_risk resolve_factors
edited_ok = refl

not_admin : ◌≢◌ {A = String} "editor" "admin"
not_admin = λ h. let same = (string_eq.beq_iff "editor" "admin").1 h in ground arith

two_steps : RiskRun no_match digest "editor" base edited_base.1
two_steps = then_step here (edited base edited_base.1 (factors 2) edited_base.0 edited_ok)

RiskRun-no_downgrade_example :
    tier_order (tier_of no_match digest base) ≤ tier_order (tier_of no_match digest edited_base.1)
RiskRun-no_downgrade_example = RiskRun-no_downgrade no_match digest "editor" not_admin two_steps
