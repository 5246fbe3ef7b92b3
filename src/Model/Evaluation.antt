-- ===== src/Model/Evaluation.antt =====
-- The evaluation records of core/models.py: target deployment, evidence, cases, runs, experiments and
-- human calibrations.
use ai_workflow_premortem_pu.Prelude.{ℕ, String, Bool, true, false, Option, List}

pub record TargetDeployment : Type 0 where
  pub endpoint : String
  pub version : String

pub record EvidenceSource : Type 0 where
  pub evidence_id : String
  pub verified : Bool

-- `scenario_type` is only copied into digests, so it stays a text.
pub record EvalCase : Type 0 where
  pub eval_id : String
  pub stage_id : ℕ
  pub target_node_id : Option String
  pub scenario_type : String
  pub input_payload : String
  pub expected_behavior : String
  pub pass_criteria : List String
  pub covered_failure_mode_ids : List String
  pub standard_version : ℕ

pub data RunMode : Type 0 where
  manual dry_run llm_node target_http : RunMode

pub data ExecutionKind : Type 0 where
  manual_simulation dry_run_simulation mock_model_execution platform_model_execution
        real_target_execution :
      ExecutionKind

pub data ExecutionOutcome : Type 0 where
  success failed_outcome timeout error_outcome : ExecutionOutcome

pub data RunStatus : Type 0 where
  created running completed_run failed_run cancelled_run : RunStatus

-- Labels of a judge or of a human reviewer.
pub data JudgeLabel : Type 0 where
  passed failed needs_review : JudgeLabel

pub data JudgeMode : Type 0 where
  inherited rule llm human_judge : JudgeMode

pub record EvalRun : Type 0 where
  pub run_id : String
  pub eval_id : String
  pub target_node_id : Option String
  pub run_mode : RunMode
  pub execution_kind : ExecutionKind
  pub execution_outcome : Option ExecutionOutcome
  pub evaluation_version_digest : String
  pub target_endpoint : String
  pub target_deployment_version : String
  pub case_version_digest : String
  pub actual_output : Option String
  pub judge_result : Option JudgeLabel
  pub judge_reason : String
  pub judge_mode : JudgeMode
  pub completed_at : Option ℕ
  pub status : RunStatus

pub record EvalExperiment : Type 0 where
  pub experiment_id : String
  pub status : RunStatus
  pub run_mode : RunMode
  pub run_ids : List String
  pub completed_at : Option ℕ
  pub created_at : ℕ

pub record HumanCalibration : Type 0 where
  pub calibration_id : String
  pub eval_run_id : String
  pub human_label : JudgeLabel
  pub human_comment : String
  pub disagreement_reason : String
  pub reviewer_id : String
  pub created_at : ℕ

abbrev pub is_target_http : RunMode → Bool
is_target_http target_http = true
is_target_http _ = false

abbrev pub is_real_target : ExecutionKind → Bool
is_real_target real_target_execution = true
is_real_target _ = false

abbrev pub is_success : Option ExecutionOutcome → Bool
is_success (Option.some success) = true
is_success _ = false

abbrev pub is_completed : RunStatus → Bool
is_completed completed_run = true
is_completed _ = false

abbrev pub is_passed : JudgeLabel → Bool
is_passed passed = true
is_passed _ = false

abbrev pub is_human : JudgeMode → Bool
is_human human_judge = true
is_human _ = false
