-- ===== src/Advance/Contract.antt =====
-- core/stage_advancement_contract.py: what resolves each type of blocker, and how the interface does
-- it. Hints are left out. A path template has the session, and at most one further place.
use ai_workflow_premortem_pu.Prelude.{
  String, Bool, true, false, Option, none, some, [], ◌∷◌, string_eq,
}
use ai_workflow_premortem_pu.Dict.{Dict, get}
use ai_workflow_premortem_pu.Gates.Blocker.{
  RequiredResolution, run_stage, rerun_stage, resolve_action, verify_evidence, edit_stage_output,
  revise_stage, back_stage, approve_escalation, resolve_safety_finding,
  create_eval_dataset_from_stage3, add_eval_cases_to_dataset, set_eval_baseline,
  create_eval_experiment, run_eval_experiment, compare_eval_experiment, generate_redteam_cases,
  approve_redteam_case, sync_redteam_eval_case, create_redteam_dataset, trace_to_eval_case,
  create_trace_backfill_dataset, approve_expert_review, complete_risk_treatment,
  retry_gate_persistence,
}

abbrev pub resolution_text : RequiredResolution → String
resolution_text run_stage = "run_stage"
resolution_text rerun_stage = "rerun_stage"
resolution_text resolve_action = "resolve_action"
resolution_text verify_evidence = "verify_evidence"
resolution_text edit_stage_output = "edit_stage_output"
resolution_text revise_stage = "revise_stage"
resolution_text back_stage = "back_stage"
resolution_text approve_escalation = "approve_escalation"
resolution_text resolve_safety_finding = "resolve_safety_finding"
resolution_text create_eval_dataset_from_stage3 = "create_eval_dataset_from_stage3"
resolution_text add_eval_cases_to_dataset = "add_eval_cases_to_dataset"
resolution_text set_eval_baseline = "set_eval_baseline"
resolution_text create_eval_experiment = "create_eval_experiment"
resolution_text run_eval_experiment = "run_eval_experiment"
resolution_text compare_eval_experiment = "compare_eval_experiment"
resolution_text generate_redteam_cases = "generate_redteam_cases"
resolution_text approve_redteam_case = "approve_redteam_case"
resolution_text sync_redteam_eval_case = "sync_redteam_eval_case"
resolution_text create_redteam_dataset = "create_redteam_dataset"
resolution_text trace_to_eval_case = "trace_to_eval_case"
resolution_text create_trace_backfill_dataset = "create_trace_backfill_dataset"
resolution_text approve_expert_review = "approve_expert_review"
resolution_text complete_risk_treatment = "complete_risk_treatment"
resolution_text retry_gate_persistence = "retry_gate_persistence"

-- `STAGE_ADVANCEMENT_CONTRACT`
pub record BlockerContract : Type 0 where
  pub required_resolution : String
  pub approval_override_allowed : Bool

abbrev asks : String → String → Bool → String × BlockerContract
asks type resolution override =
    (type, record { required_resolution = resolution; approval_override_allowed = override })

unfoldable pub stage_advancement_contract : Dict String BlockerContract
stage_advancement_contract =
    asks "missing_stage_output" "run_stage" false
    ∷ asks "stale_dependency" "rerun_stage" false
    ∷ asks "pending_action" "resolve_action" false
    ∷ asks "rejected_action" "revise_stage" false
    ∷ asks "unresolved_escalation" "approve_escalation" false
    ∷ asks "parser_error" "edit_stage_output" false
    ∷ asks "safety_finding" "resolve_safety_finding" true
    ∷ asks "evidence_gap" "verify_evidence" false
    ∷ asks "policy_gap" "edit_stage_output" false
    ∷ asks "eval_failure" "resolve_action" true
    ∷ asks "redteam_coverage" "generate_redteam_cases" false
    ∷ asks "eval_regression" "create_eval_experiment" false
    ∷ asks "trace_backfill_gap" "trace_to_eval_case" false
    ∷ asks "final_governance" "resolve_safety_finding" true
    ∷ asks "expert_review" "approve_expert_review" true
    ∷ asks "risk_treatment" "complete_risk_treatment" false
    ∷ asks "gate_rule_error" "rerun_stage" false
    ∷ asks "gate_data_error" "retry_gate_persistence" false
    ∷ []

resolution_of : Option BlockerContract → String
resolution_of none = "resolve_action"
resolution_of (some c) = c.required_resolution

unfoldable pub required_resolution_for : String → String
unfolding resolution_of stage_advancement_contract get
required_resolution_for type = resolution_of (get type stage_advancement_contract)

-- The place in a path template besides the session.
pub data Place : Type 0 where
  the_stage the_action the_evidence the_finding the_experiment the_dataset the_case the_trace :
      Place

-- `"/sessions/{session_id}" + before + "{place}" + after`
pub record Template : Type 0 where
  pub before : String
  pub place : Option Place
  pub after : String

pub record OperationContract : Type 0 where
  pub can_execute_via_api : Bool
  pub api_method : Option String
  pub api_path_template : Option Template

abbrev posts : String → Option Place → String → OperationContract
posts before place after = record {
  can_execute_via_api = true;
  api_method = some "POST";
  api_path_template = some (record { before = before; place = place; after = after });
}

abbrev by_hand : OperationContract
by_hand = record { can_execute_via_api = false; api_method = none; api_path_template = none }

-- POST /sessions/{session_id}/actions/{action_id}/resolve
abbrev pub resolve_endpoint : OperationContract
resolve_endpoint = posts "/actions/" (some the_action) "/resolve"

-- `RESOLUTION_OPERATION_CONTRACT`
unfoldable pub resolution_operation_contract : Dict String OperationContract
resolution_operation_contract =
    ("run_stage", by_hand)
    ∷ ("rerun_stage", posts "/stages/" (some the_stage) "/rerun")
    ∷ ("resolve_action", resolve_endpoint)
    ∷ ("verify_evidence", posts "/evidence/" (some the_evidence) "/verify")
    ∷ ("edit_stage_output", resolve_endpoint)
    ∷ ("revise_stage", posts "/stages/" (some the_stage) "/revise")
    ∷ ("back_stage", posts "/stages/" (some the_stage) "/rollback")
    ∷ ("approve_escalation", resolve_endpoint)
    ∷ ("resolve_safety_finding", posts "/safety-findings/" (some the_finding) "/resolve")
    ∷ ("create_eval_dataset_from_stage3", posts "/eval-datasets/from-stage3" none "")
    ∷ ("add_eval_cases_to_dataset", posts "/eval-datasets/" (some the_dataset) "/cases")
    ∷ ("set_eval_baseline", posts "/eval-datasets/" (some the_dataset) "/baseline")
    ∷ ("create_eval_experiment", posts "/eval-experiments" none "")
    ∷ ("run_eval_experiment", posts "/eval-experiments/" (some the_experiment) "/run")
    ∷ ("compare_eval_experiment", posts "/eval-experiments/" (some the_experiment) "/comparison")
    ∷ ("generate_redteam_cases", posts "/redteam/generate" none "")
    ∷ ("approve_redteam_case", posts "/redteam/cases/" (some the_case) "/approve")
    ∷ ("sync_redteam_eval_case", posts "/redteam/cases/" (some the_case) "/to-eval-case")
    ∷ ("create_redteam_dataset", posts "/redteam/datasets" none "")
    ∷ ("trace_to_eval_case", posts "/traces/" (some the_trace) "/to-eval-case")
    ∷ ("create_trace_backfill_dataset", posts "/traces/to-eval-dataset" none "")
    ∷ ("approve_expert_review", resolve_endpoint)
    ∷ ("complete_risk_treatment", posts "/risk-treatments" none "")
    ∷ ("retry_gate_persistence", by_hand)
    ∷ []

contract_or_resolve : Option OperationContract → OperationContract
contract_or_resolve none = resolve_endpoint
contract_or_resolve (some c) = c

unfoldable pub operation_contract_for : String → OperationContract
unfolding contract_or_resolve resolution_operation_contract get
operation_contract_for resolution =
    contract_or_resolve (get resolution resolution_operation_contract)
