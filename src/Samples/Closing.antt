-- ===== src/Samples/Closing.antt =====
-- Tests of treatments, of the transition policy and of expert review.
use ai_workflow_premortem_pu.Gates.Engine.{GateRule}
use ai_workflow_premortem_pu.Dict.{get}
use ai_workflow_premortem_pu.Risk.Rules.{
  collect_floor, critical_floor, evaluate_risk, high_floor, raise_when, score_factors,
  tier_from_score,
}
use ai_workflow_premortem_pu.Risk.Assessment.{
  assess_project_risk, bound_override, build_assessment, resolve_factors,
}
use ai_workflow_premortem_pu.Risk.Profile.{profile_of_tier}
use ai_workflow_premortem_pu.Prelude.{List, latest}
use ai_workflow_premortem_pu.Release.Treatment.{
  reviewed_treatment, updated_treatment, write_treatment,
}
use ai_workflow_premortem_pu.Model.Context.{append_audit_event}
use ai_workflow_premortem_pu.Release.Treatment.{
  find_requirement, high_risk_treatment_requirements, in_seen, mode_requirements,
}
use ai_workflow_premortem_pu.Prelude.{
  String, ◌≡◌, ◌≢◌, refl, ◌↔◌, ◌⊎◌, arith, Bool, true, false, none, some, [], ◌∷◌, ◌++◌, ok,
  value_of, All, any, non_empty, strip, string_eq, nat_eq,
}
use ai_workflow_premortem_pu.Samples.{
  base, edit_action, no_match, constant, factors, treatment, treated,
}
use ai_workflow_premortem_pu.Model.Enums.{critical, is_high_or_critical, is_open}
use ai_workflow_premortem_pu.Model.Records.{
  FailureMode, SafetyFinding, RiskTreatment, PendingHumanAction, failure_mode, safety_finding,
}
use ai_workflow_premortem_pu.Model.Context.{ProjectContext, current_version}
use ai_workflow_premortem_pu.Risk.Assessment.{DigestPayload, risk_assessment_digest}
use ai_workflow_premortem_pu.Risk.Profile.{build_stage3_gate_profile}
use ai_workflow_premortem_pu.Gates.Engine.{StageGateResult}
use ai_workflow_premortem_pu.Gates.Basic.{action_blockers}
use ai_workflow_premortem_pu.Gates.Policy.{
  ResolutionEffect, assert_action_resolution_allowed, closes,
}
use ai_workflow_premortem_pu.Gates.Resolution.{
  resolved_with, assert_action_resolution_allowed-Settled,
}
use ai_workflow_premortem_pu.Gates.Expert.{
  expert_review_rule, is_existing, is_approved_now, review_action, review_blocker,
  expert_review_evaluate,
}
use ai_workflow_premortem_pu.Gates.Expert.Verdicts.{
  Approves, expert_review_evaluate-nil, expert_review_evaluate-rerun,
}
use ai_workflow_premortem_pu.Release.Treatment.{
  treatment_blockers, is_business_session, failure_modes, write_role, review_risk_treatment,
  upsert_risk_treatment, parse_status, latest_treatment,
}
use ai_workflow_premortem_pu.Release.Treatment.Cover.{Closed, Treated, treatment_blockers-nil}
use ai_workflow_premortem_pu.Release.Treatment.Review.{
  review_risk_treatment-Closed, upsert_risk_treatment-keeps_review,
}

abbrev reviewed : RiskTreatment × ProjectContext
reviewed =
    value_of (review_risk_treatment treated "v" 9 "T2" "T1" true "fine" "carol" "editor")
      (treatment, base)

reviewed_ok :
    review_risk_treatment treated "v" 9 "T2" "T1" true "fine" "carol" "editor"
    ≡ ok (reviewed.0, reviewed.1)
unfolding review_risk_treatment strip
reviewed_ok = refl

review_risk_treatment-Closed_example :
    (write_role "editor" ≡ true)
    × (non_empty (strip "carol") ≡ true)
    × (strip "carol" ≢ strip reviewed.0.updated_by)
    × (◌≡◌ {A = Bool} true true
        → (reviewed.0.reviewed_by ≡ strip "carol")
          × (Closed reviewed.0 "v" ↔ (
              (non_empty (strip reviewed.0.owner) ≡ true)
              × (non_empty (strip reviewed.0.mitigation_plan) ≡ true))))
    × (◌≡◌ {A = Bool} true false → (d : String) → Closed reviewed.0 d → ⊥)
review_risk_treatment-Closed_example =
    review_risk_treatment-Closed treated "v" 9 "T2" "T1" true "fine" "carol" "editor" reviewed.0
      reviewed.1 reviewed_ok

-- The same plan, written again after its review.
abbrev rewritten : RiskTreatment × ProjectContext
rewritten =
    value_of
      (upsert_risk_treatment reviewed.1 "v" 11 "T3" "failure_mode" "FM-1" "bob" "review every draft"
        "completed" "bob" "editor" "again")
      (treatment, base)

rewritten_ok :
    upsert_risk_treatment reviewed.1 "v" 11 "T3" "failure_mode" "FM-1" "bob" "review every draft"
      "completed" "bob" "editor" "again"
    ≡ ok (rewritten.0, rewritten.1)
unfolding upsert_risk_treatment parse_status find_requirement high_risk_treatment_requirements
    mode_requirements review_risk_treatment strip append_audit_event in_seen
rewritten_ok = refl

rewritten-Closed : Closed rewritten.0 "v"
unfolding upsert_risk_treatment strip parse_status find_requirement high_risk_treatment_requirements
    mode_requirements review_risk_treatment append_audit_event in_seen latest_treatment latest
    write_treatment reviewed_treatment updated_treatment
rewritten-Closed = record {
  owned = refl;
  planned_out = refl;
  bound = refl;
  final = refl;
  reviewed = refl;
}

upsert_risk_treatment-keeps_review_example :
    (u : RiskTreatment) × (latest_treatment reviewed.1 "failure_mode" "FM-1" ≡ some u)
    × (u.reviewed_by ≡ rewritten.0.reviewed_by)
    × (u.owner ≡ strip "bob")
    × (u.mitigation_plan ≡ strip "review every draft")
    × (parse_status "completed" ≡ some u.status)
    × (u.evaluation_version_digest ≡ "v")
upsert_risk_treatment-keeps_review_example =
    upsert_risk_treatment-keeps_review reviewed.1 "v" 11 "T3" "failure_mode" "FM-1" "bob"
      "review every draft" "completed" "bob" "editor" "again" rewritten.0 rewritten.1 rewritten_ok
      rewritten-Closed

treatment_blockers-nil_example : (treatment_blockers treated "v" ≡ []) ↔ (
    (is_business_session treated ≡ false)
    ⊎ (All
          (λ (m : FailureMode).
            is_high_or_critical m.severity ≡ true → Treated treated "v" failure_mode m.id)
          (failure_modes treated.stage_1_output)
        × All
            (λ (f : SafetyFinding).
              is_open f.status ≡ true
              → is_high_or_critical f.severity ≡ true
              → Treated treated "v" safety_finding f.finding_id)
            treated.safety_findings))
treatment_blockers-nil_example = treatment_blockers-nil treated "v"

abbrev lenient : ProjectContext → Bool
lenient ctx = false

abbrev stage_4_clear : StageGateResult
stage_4_clear = record {
  stage_id = 4;
  stage_output_version = 1;
  can_continue = true;
  blockers = [];
}

-- The rule before it in the order of registration, which is for stage 3.
abbrev expert_rule : List GateRule
expert_rule = expert_review_rule no_match (constant "d") "A9" ∷ []

trimmed : strip "reject" ≡ "reject"
unfolding strip
trimmed = refl

abbrev rejection : ResolutionEffect
rejection = value_of (assert_action_resolution_allowed edit_action "reject" none) closes

rejection_ok : assert_action_resolution_allowed edit_action "reject" none ≡ ok rejection
unfolding assert_action_resolution_allowed strip
rejection_ok = refl

assert_action_resolution_allowed-Settled_example :
    ((action_blockers base 2 (resolved_with edit_action "reject") ≡ [])
      ↔ (rejection.allow_continue ≡ true))
    × (rejection.allow_continue ≡ true
        → (rejection.require_revision ≡ false) × (rejection.require_escalation ≡ false))
assert_action_resolution_allowed-Settled_example =
    assert_action_resolution_allowed-Settled edit_action "reject" none base 2 rejection trimmed
      rejection_ok

abbrev digest : DigestPayload → String
digest = constant "d"

approving : strip "approve" ≡ "approve"
unfolding strip
approving = refl

abbrev review_of_base : PendingHumanAction
review_of_base = record edit_action { source_type = "expert_review"; payload_digest = some "d" }

-- A critical session whose stage 3 was run twice.
abbrev rerun : ProjectContext
rerun = record base { risk_profile = some (factors 3); stage_output_versions = (3, 2) ∷ [] }

rerun_critical : (build_stage3_gate_profile no_match digest rerun).require_expert_review ≡ true
unfolding build_stage3_gate_profile profile_of_tier assess_project_risk build_assessment
    bound_override evaluate_risk tier_from_score score_factors resolve_factors collect_floor
    high_floor raise_when critical_floor
rerun_critical = refl

rerun_version : current_version rerun 3 ≡ 2
unfolding current_version get
rerun_version = refl

rerun_later : current_version rerun 3 ≢ 1
rerun_later = λ h. let two = rerun_version in omega arith

expert_review_evaluate-nil_example :
    ((expert_review_evaluate no_match digest "e1" rerun 3).0 ≡ []) ↔ (
      ((assess_project_risk no_match digest rerun).effective_tier ≢ critical)
      ⊎ ((a : PendingHumanAction) × Approves no_match digest "e1" rerun a))
expert_review_evaluate-nil_example = expert_review_evaluate-nil no_match digest "e1" rerun

abbrev rerun_after : ProjectContext
rerun_after = (expert_review_evaluate no_match digest "e1" rerun 3).1

expert_review_evaluate-rerun_example :
    ((expert_review_evaluate no_match digest "e1" rerun 3).0 ≡ review_blocker rerun "e1" ∷ [])
    × (rerun_after.pending_actions
        ≡ rerun.pending_actions
          ++ review_action "e1" (risk_assessment_digest no_match digest rerun) ∷ [])
    × (any (is_existing (current_version rerun_after 3)) rerun_after.pending_actions ≡ false)
    × ((a : PendingHumanAction)
        → a.stage_output_version ≡ 1
        → is_approved_now
            (current_version rerun_after 3)
            (risk_assessment_digest no_match digest rerun)
            a
          ≡ false)
expert_review_evaluate-rerun_example =
    expert_review_evaluate-rerun no_match digest "e1" rerun rerun_critical rerun_later refl
