-- ===== src/Release/Snapshot.antt =====
-- `release_evidence_snapshot` of core/release_evidence.py: the evidence that must not change while an
-- approval lasts. A time stamp stands for its text.
use ai_workflow_premortem_pu.Prelude.{
  ℕ, suc, String, Bool, Option, none, some, List, map, keep_if, mem, sorted, string_leb, string_eq,
}
use ai_workflow_premortem_pu.Model.Enums.{Tier, ActionStatus, FindingStatus, is_high_or_critical}
use ai_workflow_premortem_pu.Model.Records.{
  PendingHumanAction, SafetyFinding, TreatmentStatus, TreatmentSource,
}
use ai_workflow_premortem_pu.Model.Evaluation.{
  EvalRun, HumanCalibration, RunStatus, ExecutionOutcome, JudgeLabel, JudgeMode,
}
use ai_workflow_premortem_pu.Model.Context.{ProjectContext, or_default}
use ai_workflow_premortem_pu.Release.Version.{VersionPayload, text_payload}
use ai_workflow_premortem_pu.Release.Coverage.{distinct}
use ai_workflow_premortem_pu.Release.Treatment.{
  TreatmentRequirement, source_value, latest_treatment, high_risk_treatment_requirements,
}

pub record RunSnapshot : Type 0 where
  pub run_id : String
  pub eval_id : String
  pub status : RunStatus
  pub execution_outcome : Option ExecutionOutcome
  pub judge_result : Option JudgeLabel
  pub judge_mode : JudgeMode
  pub judge_reason_sha256 : String
  pub actual_output_sha256 : String
  pub actual_output_length : ℕ
  pub evaluation_version_digest : String
  pub case_version_digest : String
  pub target_endpoint : String
  pub target_deployment_version : String
  pub completed_at : Option ℕ

pub record CalibrationSnapshot : Type 0 where
  pub calibration_id : String
  pub eval_run_id : String
  pub human_label : JudgeLabel
  pub reviewer_id : String
  pub human_comment_sha256 : String
  pub disagreement_reason_sha256 : String
  pub created_at : ℕ

-- `none` where the item has no treatment; its fields are then empty texts.
pub record TreatmentSnapshot : Type 0 where
  pub source_type : TreatmentSource
  pub source_id : String
  pub treatment :
      Option (String × String × String × TreatmentStatus × String × Option ℕ × String × String)

pub record EvidenceSnapshot : Type 0 where
  pub evaluation_digest : String
  pub required_eval_ids : List String
  pub release_batch_run_ids : List String
  pub batch_runs : List RunSnapshot
  pub calibrations : List CalibrationSnapshot
  pub treatments : List TreatmentSnapshot
  pub safety_findings : List (String × Tier × FindingStatus)
  pub blocking_actions : List (String × ActionStatus × Bool × ℕ × ℕ)

-- `len(text)`
unfoldable pub text_length : String → ℕ
text_length String.[] = 0
text_length (String.◌∷◌ c s) = suc (text_length s)

unfoldable pub treatment_snapshot : ProjectContext → TreatmentRequirement → TreatmentSnapshot
treatment_snapshot ctx r = record {
  source_type = r.source_type;
  source_id = r.source_id;
  treatment = elim (latest_treatment ctx (source_value r.source_type) r.source_id) [
    | none ↦ none
    | some t ↦ some (
      t.treatment_id, t.owner, t.mitigation_plan, t.status, t.reviewed_by, t.reviewed_at,
      t.review_note, t.evaluation_version_digest,
    )
  ];
}

module _ (sha256 : VersionPayload → String) where
  abbrev text_sha256 : String → String
  text_sha256 s = sha256 (text_payload s)

  unfoldable pub run_snapshot : EvalRun → RunSnapshot
  run_snapshot r = record {
    run_id = r.run_id;
    eval_id = r.eval_id;
    status = r.status;
    execution_outcome = r.execution_outcome;
    judge_result = r.judge_result;
    judge_mode = r.judge_mode;
    judge_reason_sha256 = text_sha256 r.judge_reason;
    actual_output_sha256 = text_sha256 (or_default r.actual_output "");
    actual_output_length = text_length (or_default r.actual_output "");
    evaluation_version_digest = r.evaluation_version_digest;
    case_version_digest = r.case_version_digest;
    target_endpoint = r.target_endpoint;
    target_deployment_version = r.target_deployment_version;
    completed_at = r.completed_at;
  }

  unfoldable pub calibration_snapshot : HumanCalibration → CalibrationSnapshot
  calibration_snapshot c = record {
    calibration_id = c.calibration_id;
    eval_run_id = c.eval_run_id;
    human_label = c.human_label;
    reviewer_id = c.reviewer_id;
    human_comment_sha256 = text_sha256 c.human_comment;
    disagreement_reason_sha256 = text_sha256 c.disagreement_reason;
    created_at = c.created_at;
  }

  unfoldable pub release_evidence_snapshot :
      ProjectContext → List String → List String → String → EvidenceSnapshot
  release_evidence_snapshot ctx batch_run_ids required_eval_ids digest =
      let run_ids = sorted string_leb (distinct batch_run_ids) in
      record {
        evaluation_digest = digest;
        required_eval_ids = sorted string_leb required_eval_ids;
        release_batch_run_ids = run_ids;
        batch_runs = map run_snapshot (
            sorted (λ (r s : EvalRun). string_leb r.run_id s.run_id)
              (keep_if (λ (r : EvalRun). mem r.run_id run_ids) ctx.eval_runs));
        calibrations = map calibration_snapshot (
            keep_if (λ (c : HumanCalibration). mem c.eval_run_id run_ids)
              (sorted (λ (c d : HumanCalibration). string_leb c.calibration_id d.calibration_id)
                ctx.human_calibrations));
        treatments = map (treatment_snapshot ctx) (high_risk_treatment_requirements ctx);
        safety_findings =
            map (λ (f : SafetyFinding). (f.finding_id, f.severity, f.status))
              (keep_if (λ (f : SafetyFinding). is_high_or_critical f.severity)
                (sorted (λ (f g : SafetyFinding). string_leb f.finding_id g.finding_id)
                  ctx.safety_findings));
        blocking_actions =
            map
              (λ (a : PendingHumanAction).
                (a.action_id, a.status, a.blocking, a.stage_id, a.stage_output_version))
              (keep_if (λ (a : PendingHumanAction). a.blocking)
                (sorted (λ (a b : PendingHumanAction). string_leb a.action_id b.action_id)
                  ctx.pending_actions));
      }
