-- ===== src/Samples/Launches.antt =====
-- A test of the release gate after an approval.
use ai_workflow_premortem_pu.Prelude.{
  true, ◌&&◌, All, In, ◌≡◌, refl, insert_sorted, sorted, latest, strip,
}
use ai_workflow_premortem_pu.Samples.{no_match}
use ai_workflow_premortem_pu.Samples.Releases.{launched, sha256, digest, snapshot_digest}
use ai_workflow_premortem_pu.Model.Enums.{is_high_or_critical, is_open}
use ai_workflow_premortem_pu.Model.Records.{
  FailureMode, SafetyFinding, failure_mode, safety_finding,
}
use ai_workflow_premortem_pu.Model.Evaluation.{EvalCase, EvalRun, EvalExperiment}
use ai_workflow_premortem_pu.Model.Context.{append_audit_event}
use ai_workflow_premortem_pu.Workflow.State.{state_value}
use ai_workflow_premortem_pu.Release.Version.{current_evaluation_digest, eval_case_digest}
use ai_workflow_premortem_pu.Release.Coverage.{
  required_high_risk_node_ids, node_ids_addressing, high_risk_failure_mode_ids, distinct,
}
use ai_workflow_premortem_pu.Release.Evidence.{
  latest_human_calibration, required_release_cases, deployment_declared, review_reasons,
  judge_reasons, deployment_reasons, case_reasons, release_run_reasons,
}
use ai_workflow_premortem_pu.Release.Treatment.{
  failure_modes, is_business, is_business_session, treatment_blockers, blockers_of,
  high_risk_treatment_requirements, mode_requirements, finding_requirements,
}
use ai_workflow_premortem_pu.Release.Treatment.Cover.{Treated}
use ai_workflow_premortem_pu.Release.Batch.{
  ReleaseBatch, later_first, case_by_eval_id, runs_for_experiment, relevant_runs, missing_ids,
  is_valid_run, invalid_runs, select_loop, select_release_batch, build_release_evidence,
}
use ai_workflow_premortem_pu.Release.Batch.Sound.{Tests}
use ai_workflow_premortem_pu.Release.Readiness.{
  build_release_readiness, is_session_complete, stage_outputs_present, stale_stage_keys,
  parser_error_keys, pending_blocking_actions, open_high_critical_safety, evidence_blockers,
  mode_blockers, session_blockers, release_checks,
}
use ai_workflow_premortem_pu.Release.Approval.{evidence_digest_for, latest_approval, status_of}
use ai_workflow_premortem_pu.Release.Decision.{decide, evaluate_release_gate}
use ai_workflow_premortem_pu.Release.Decision.Tested.{needed_cases, evaluate_release_gate-Tests}

gate_is_open : (evaluate_release_gate sha256 no_match digest snapshot_digest launched).allow ≡ true
unfolding evaluate_release_gate decide status_of evidence_digest_for latest_approval
    build_release_readiness is_session_complete stage_outputs_present stale_stage_keys
    parser_error_keys pending_blocking_actions open_high_critical_safety evidence_blockers
    mode_blockers session_blockers release_checks current_evaluation_digest is_business
    is_business_session treatment_blockers blockers_of high_risk_treatment_requirements
    mode_requirements finding_requirements required_high_risk_node_ids node_ids_addressing
    high_risk_failure_mode_ids distinct latest_human_calibration required_release_cases
    deployment_declared review_reasons judge_reasons deployment_reasons case_reasons
    release_run_reasons later_first case_by_eval_id runs_for_experiment relevant_runs missing_ids
    is_valid_run invalid_runs select_loop select_release_batch build_release_evidence insert_sorted
    sorted latest strip state_value eval_case_digest append_audit_event
gate_is_open = refl

evaluate_release_gate-Tests_example :
    (is_business_session launched ≡ true)
    × ((is_session_complete launched && stage_outputs_present launched) ≡ true)
    × All
        (λ (m : FailureMode).
          is_high_or_critical m.severity ≡ true
          → Treated launched
              (current_evaluation_digest sha256 no_match digest launched)
              failure_mode
              m.id)
        (failure_modes launched.stage_1_output)
    × All
        (λ (f : SafetyFinding).
          is_open f.status ≡ true
          → is_high_or_critical f.severity ≡ true
          → Treated launched
              (current_evaluation_digest sha256 no_match digest launched)
              safety_finding
              f.finding_id)
        launched.safety_findings
    × ((b : ReleaseBatch) × (x : EvalExperiment) × In x launched.eval_experiments
        × ((c : EvalCase)
            → In c (needed_cases sha256 no_match digest launched)
            → (run : EvalRun) × Tests sha256 launched
                (current_evaluation_digest sha256 no_match digest launched)
                b
                x
                c
                run))
evaluate_release_gate-Tests_example =
    evaluate_release_gate-Tests sha256 no_match digest snapshot_digest launched gate_is_open
