-- ===== src/Release/Evidence.antt =====
-- core/release_evidence.py, first part: required cases and the reasons why a run is no evidence.
-- Messages are left out. `sha256` is the digest of core/evaluation_version.py.
use ai_workflow_premortem_pu.Prelude.{
  String, Bool, false, not, ◌&&◌, ◌||◌, Option, none, some, List, [], ◌∷◌, ◌++◌, keep_if, mem,
  latest, leb, is_empty, non_empty, strip, sorted, string_leb, string_eq, nat_eq, option_string_eq,
  ◌==◌, ◌!=◌, if◌then◌else◌,
}
use ai_workflow_premortem_pu.Model.Enums.{Tier, high}
use ai_workflow_premortem_pu.Model.Evaluation.{
  TargetDeployment, EvalCase, EvalRun, HumanCalibration, is_target_http, is_real_target, is_success,
  is_completed, is_passed, is_human, JudgeLabel,
}
use ai_workflow_premortem_pu.Model.Context.{ProjectContext, or_default}
use ai_workflow_premortem_pu.Release.Version.{VersionPayload, eval_case_digest}
use ai_workflow_premortem_pu.Release.Coverage.{distinct}

pub record ReleaseBlocker : Type 0 where
  pub code : String
  pub severity : Tier
  pub source_type : Option String
  pub source_id : Option String
  pub required_resolution : String

abbrev pub blocker : String → Option String → Option String → String → ReleaseBlocker
blocker code source_type source_id resolution = record {
  code = code;
  severity = high;
  source_type = source_type;
  source_id = source_id;
  required_resolution = resolution;
}

pub data RunReason : Type 0 where
  bad_run_mode bad_execution_kind bad_execution_outcome bad_status bad_judge_result
        actual_output_missing human_review_missing human_review_basis_missing
        stale_evaluation_version missing_eval_case stale_case_version target_deployment_missing
        target_endpoint_mismatch target_deployment_version_mismatch :
      RunReason

abbrev pub when : Bool → RunReason → List RunReason
when b r = if b then r ∷ [] else []

-- `_latest_human_calibration`
unfoldable pub latest_human_calibration : ProjectContext → String → Option HumanCalibration
latest_human_calibration ctx run_id =
    latest (λ (c d : HumanCalibration). leb c.created_at d.created_at)
      (keep_if (λ (c : HumanCalibration). c.eval_run_id == run_id) ctx.human_calibrations)

abbrev in_nodes : List String → EvalCase → Bool
in_nodes nodes c = elim c.target_node_id [ none ↦ false | some n ↦ mem n nodes ]

abbrev covers : String → List EvalCase → Bool
covers node [] = false
covers node (c ∷ cs) = c.target_node_id == some node || covers node cs

-- `required_release_cases`, from the required nodes: the cases, and the nodes without one.
unfoldable pub required_release_cases : ProjectContext → List String → List EvalCase × List String
required_release_cases ctx required =
    let nodes = sorted string_leb (distinct required) in
    let cases =
      sorted (λ (c d : EvalCase). string_leb c.eval_id d.eval_id)
        (keep_if (λ (c : EvalCase). c.stage_id == 3 && in_nodes nodes c) ctx.eval_cases) in
    if is_empty nodes then ([], []) else (cases, keep_if (λ n. not (covers n cases)) nodes)

unfoldable pub deployment_declared : Option TargetDeployment → Bool
deployment_declared none = false
deployment_declared (some d) = non_empty d.endpoint && non_empty d.version

-- What a passed real-target run must show for its human review.
unfoldable pub review_reasons : EvalRun → Option HumanCalibration → List RunReason
review_reasons run none = human_review_missing ∷ []
review_reasons run (some c) =
    if not (is_human run.judge_mode) || not (is_passed c.human_label)
    then human_review_missing ∷ []
    else when (not (non_empty (strip c.human_comment)) || not (non_empty (strip c.reviewer_id)))
        human_review_basis_missing

-- `run.judge_result == "passed"`
abbrev pub judge_passed : Option JudgeLabel → Bool
judge_passed none = false
judge_passed (some l) = is_passed l

unfoldable pub judge_reasons : EvalRun → Option HumanCalibration → List RunReason
unfolding review_reasons
judge_reasons run calibration =
    if not (judge_passed run.judge_result)
    then bad_judge_result ∷ []
    else if is_target_http run.run_mode
    then when (not (non_empty (strip (or_default run.actual_output "")))) actual_output_missing
      ++ review_reasons run calibration
    else []

unfoldable pub deployment_reasons : EvalRun → Option TargetDeployment → List RunReason
deployment_reasons run none = target_deployment_missing ∷ []
deployment_reasons run (some d) =
    if not (non_empty d.endpoint) || not (non_empty d.version)
    then target_deployment_missing ∷ []
    else when (run.target_endpoint != d.endpoint) target_endpoint_mismatch
      ++ when (run.target_deployment_version != d.version) target_deployment_version_mismatch

module _ (sha256 : VersionPayload → String) where
  unfoldable pub case_reasons : EvalRun → Option EvalCase → List RunReason
  case_reasons run none = missing_eval_case ∷ []
  case_reasons run (some c) =
      when (run.case_version_digest != eval_case_digest sha256 c) stale_case_version

  unfoldable pub release_run_reasons :
      ProjectContext → EvalRun → Option EvalCase → String → List RunReason
  release_run_reasons ctx run c digest =
      when (not (is_target_http run.run_mode)) bad_run_mode
      ++ when (not (is_real_target run.execution_kind)) bad_execution_kind
      ++ when (not (is_success run.execution_outcome)) bad_execution_outcome
      ++ when (not (is_completed run.status)) bad_status
      ++ judge_reasons run (latest_human_calibration ctx run.run_id)
      ++ when (run.evaluation_version_digest != digest) stale_evaluation_version
      ++ case_reasons run c
      ++ deployment_reasons run ctx.target_deployment
