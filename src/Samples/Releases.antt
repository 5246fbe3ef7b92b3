-- ===== src/Samples/Releases.antt =====
-- Tests of release evidence, approval and the release gate.
use ai_workflow_premortem_pu.Workflow.State.{state_value}
use ai_workflow_premortem_pu.Prelude.{Bool, insert_sorted, sorted, latest}
use ai_workflow_premortem_pu.Release.Batch.Sound.{Tests, select_release_batch-Tests}
use ai_workflow_premortem_pu.Release.Evidence.{ReleaseBlocker}
use ai_workflow_premortem_pu.Prelude.{List, In}
use ai_workflow_premortem_pu.Release.Batch.{
  ReleaseBatch, later_first, case_by_eval_id, runs_for_experiment, relevant_runs, missing_ids,
  is_valid_run, invalid_runs, select_loop, select_release_batch, build_release_evidence,
}
use ai_workflow_premortem_pu.Release.Evidence.{
  latest_human_calibration, required_release_cases, deployment_declared, review_reasons,
  judge_reasons, deployment_reasons, case_reasons,
}
use ai_workflow_premortem_pu.Release.Coverage.{
  required_high_risk_node_ids, node_ids_addressing, high_risk_failure_mode_ids, distinct,
}
use ai_workflow_premortem_pu.Release.Treatment.{
  is_business, treatment_blockers, blockers_of, high_risk_treatment_requirements, mode_requirements,
  finding_requirements,
}
use ai_workflow_premortem_pu.Release.Version.{eval_case_digest}
use ai_workflow_premortem_pu.Release.Readiness.{
  is_session_complete, stage_outputs_present, stale_stage_keys, parser_error_keys,
  pending_blocking_actions, open_high_critical_safety, evidence_blockers, mode_blockers,
  session_blockers, release_checks,
}
use ai_workflow_premortem_pu.Release.Approval.{assert_approval_authorized}
use ai_workflow_premortem_pu.Prelude.{
  String, ◌≡◌, ◌≢◌, refl, ◌↔◌, ◌⊎◌, true, false, none, some, [], ◌∷◌, ok, non_empty, strip,
}
use ai_workflow_premortem_pu.Samples.{base, no_match, constant}
use ai_workflow_premortem_pu.Model.Enums.{known, complete}
use ai_workflow_premortem_pu.Model.Records.{ProjectApproval, approved}
use ai_workflow_premortem_pu.Model.Evaluation.{
  EvalCase, EvalRun, EvalExperiment, HumanCalibration, target_http, real_target_execution, success,
  completed_run, passed, human_judge, is_completed, is_target_http,
}
use ai_workflow_premortem_pu.Model.Context.{ProjectContext}
use ai_workflow_premortem_pu.Release.Version.{VersionPayload, current_evaluation_digest}
use ai_workflow_premortem_pu.Release.Treatment.{is_business_session}
use ai_workflow_premortem_pu.Release.Snapshot.{EvidenceSnapshot}
use ai_workflow_premortem_pu.Release.Evidence.{release_run_reasons}
use ai_workflow_premortem_pu.Release.Valid.{ValidRun, release_run_reasons-ValidRun}
use ai_workflow_premortem_pu.Release.Readiness.{build_release_readiness}
use ai_workflow_premortem_pu.Release.Approval.{
  request_release_approval, latest_approval, evidence_digest_for, decision_record, appended,
}
use ai_workflow_premortem_pu.Release.Approval.Granting.{Binds, request_release_approval-grants}
use ai_workflow_premortem_pu.Release.Decision.{evaluate_release_gate}
use ai_workflow_premortem_pu.Release.Decision.Allow.{Covers, evaluate_release_gate-allow}
use ai_workflow_premortem_pu.Risk.Assessment.{DigestPayload}

abbrev pub test_case : EvalCase
test_case = record {
  eval_id = "E1";
  stage_id = 3;
  target_node_id = none;
  scenario_type = "normal";
  input_payload = "draft";
  expected_behavior = "cites";
  pass_criteria = [];
  covered_failure_mode_ids = [];
  standard_version = 1;
}

abbrev test_run : EvalRun
test_run = record {
  run_id = "R1";
  eval_id = "E1";
  target_node_id = none;
  run_mode = target_http;
  execution_kind = real_target_execution;
  execution_outcome = some success;
  evaluation_version_digest = "v";
  target_endpoint = "https://target";
  target_deployment_version = "7";
  case_version_digest = "v";
  actual_output = some "a draft";
  judge_result = some passed;
  judge_reason = "";
  judge_mode = human_judge;
  completed_at = some 4;
  status = completed_run;
}

abbrev calibration : HumanCalibration
calibration = record {
  calibration_id = "C1";
  eval_run_id = "R1";
  human_label = passed;
  human_comment = "cites its sources";
  disagreement_reason = "";
  reviewer_id = "carol";
  created_at = 5;
}

abbrev experiment : EvalExperiment
experiment = record {
  experiment_id = "X1";
  status = completed_run;
  run_mode = target_http;
  run_ids = "R1" ∷ [];
  completed_at = some 4;
  created_at = 1;
}

-- A finished session whose declared deployment passed its test.
abbrev launch : ProjectContext
launch = record base {
  current_state = known complete;
  target_deployment = some (record { endpoint = "https://target"; version = "7" });
  eval_cases = test_case ∷ [];
  eval_runs = test_run ∷ [];
  human_calibrations = calibration ∷ [];
  eval_experiments = experiment ∷ [];
}

abbrev pub sha256 : VersionPayload → String
sha256 = constant "v"

abbrev pub digest : DigestPayload → String
digest = constant "d"

abbrev pub snapshot_digest : EvidenceSnapshot → String
snapshot_digest = constant "e"

run_is_clean : release_run_reasons sha256 launch test_run (some test_case) "v" ≡ []
unfolding release_run_reasons judge_reasons strip latest_human_calibration latest case_reasons
    eval_case_digest deployment_reasons
run_is_clean = refl

release_run_reasons-ValidRun_example : ValidRun sha256 launch test_run (some test_case) "v"
release_run_reasons-ValidRun_example =
    release_run_reasons-ValidRun sha256 launch test_run (some test_case) "v" run_is_clean

abbrev the_batch : ReleaseBatch
the_batch = record { experiment_id = "X1"; run_ids = "R1" ∷ []; eval_ids = "E1" ∷ [] }

batch_is_found : select_release_batch sha256 launch "v" (test_case ∷ []) ≡ (some the_batch, [])
unfolding select_release_batch select_loop relevant_runs runs_for_experiment missing_ids
    invalid_runs is_valid_run case_by_eval_id sorted insert_sorted distinct release_run_reasons
    judge_reasons review_reasons strip latest_human_calibration latest case_reasons eval_case_digest
    deployment_reasons
batch_is_found = refl

select_release_batch-Tests_example :
    (◌≡◌ {A = List ReleaseBlocker} [] [])
    × ((x : EvalExperiment) × In x launch.eval_experiments
        × (is_completed x.status ≡ true)
        × (is_target_http x.run_mode ≡ true)
        × ("X1" ≡ x.experiment_id)
        × ((c : EvalCase)
            → In c (test_case ∷ [])
            → (run : EvalRun) × Tests sha256 launch "v" the_batch x c run))
select_release_batch-Tests_example =
    select_release_batch-Tests sha256 launch "v" (test_case ∷ []) the_batch [] batch_is_found

evaluate_release_gate-allow_example :
    ((evaluate_release_gate sha256 no_match digest snapshot_digest launch).allow ≡ true) ↔ (
      ((build_release_readiness sha256 no_match digest launch).applicable ≡ true)
      × ((build_release_readiness sha256 no_match digest launch).can_approve ≡ true)
      × ((a : ProjectApproval) × (latest_approval launch ≡ some a)
          × Covers a (current_evaluation_digest sha256 no_match digest launch) (
              evidence_digest_for sha256 no_match digest snapshot_digest launch
                (build_release_readiness sha256 no_match digest launch)
                (current_evaluation_digest sha256 no_match digest launch))))
evaluate_release_gate-allow_example =
    evaluate_release_gate-allow sha256 no_match digest snapshot_digest launch

abbrev grant : ProjectApproval
grant = decision_record approved "v" "e" "carol" "admin" "go" "A1" 9

abbrev pub launched : ProjectContext
launched = appended launch grant "release_approval_granted"

grant_ok :
    request_release_approval sha256 no_match digest snapshot_digest launch "approve" "go" "carol"
      "admin" "A1" 9
    ≡ ok (grant, launched, false)
unfolding request_release_approval assert_approval_authorized evidence_digest_for latest_approval
    build_release_readiness is_session_complete stage_outputs_present stale_stage_keys
    parser_error_keys pending_blocking_actions open_high_critical_safety evidence_blockers
    mode_blockers session_blockers release_checks current_evaluation_digest is_business
    is_business_session treatment_blockers blockers_of high_risk_treatment_requirements
    mode_requirements finding_requirements required_high_risk_node_ids node_ids_addressing
    high_risk_failure_mode_ids distinct latest_human_calibration required_release_cases
    deployment_declared review_reasons judge_reasons deployment_reasons case_reasons
    release_run_reasons later_first case_by_eval_id runs_for_experiment relevant_runs missing_ids
    is_valid_run invalid_runs select_loop select_release_batch build_release_evidence insert_sorted
    sorted latest strip state_value eval_case_digest
grant_ok = refl

abbrev launch_digest : String
launch_digest = current_evaluation_digest sha256 no_match digest launch

abbrev launch_evidence : String
launch_evidence =
    evidence_digest_for sha256 no_match digest snapshot_digest launch
      (build_release_readiness sha256 no_match digest launch) launch_digest

request_release_approval-grants_example :
    (is_business_session launch ≡ true)
    × ((build_release_readiness sha256 no_match digest launch).can_approve ≡ true)
    × (◌≡◌ {A = String} "admin" "admin")
    × (non_empty (strip "carol") ≡ true)
    × (non_empty (strip launch.created_by) ≡ true)
    × (strip "carol" ≢ strip launch.created_by)
    × Binds grant launch_digest launch_evidence
    × (((latest_approval launch ≡ some grant) × (launched ≡ launch) × (◌≡◌ {A = Bool} false true))
        ⊎ (((b : ProjectApproval)
              → latest_approval launch ≡ some b
              → Binds b launch_digest launch_evidence
              → ⊥)
            × (grant.approval_id ≡ "A1")
            × (grant.decided_by ≡ strip "carol")
            × (grant.created_at ≡ 9)
            × (launched ≡ appended launch grant "release_approval_granted")
            × (◌≡◌ {A = Bool} false false)))
request_release_approval-grants_example =
    request_release_approval-grants sha256 no_match digest snapshot_digest launch launched "go"
      "carol" "admin" "A1" 9 grant false grant_ok
