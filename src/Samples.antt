-- ===== src/Samples.antt =====
-- Sessions, actions and records that the tests run on, and stand-ins for Python's `re.search` and
-- SHA-256.
pub mod Workflows
pub mod Risks
pub mod Stages
pub mod Revisions
pub mod Closing
pub mod Releases
pub mod Launches
pub mod Advances
pub mod Resolutions
use ai_workflow_premortem_pu.Prelude.{
  ℕ, String, Bool, true, false, Option, none, some, List, [], ◌∷◌,
}
use ai_workflow_premortem_pu.Model.Enums.{
  known, s3_review, business_internal, human, approve, edit, escalate, pending, high, low, critical,
}
use ai_workflow_premortem_pu.Model.Records.{
  RiskFactorScores, FailureMode, PendingHumanAction, RiskTreatment, failure_mode, completed,
}
use ai_workflow_premortem_pu.Model.Context.{ProjectContext}

abbrev pub factors : ℕ → RiskFactorScores
factors n = record {
  impact = n;
  autonomy = n;
  data_sensitivity = n;
  reversibility = n;
  scale = n;
  external_exposure = n;
  source = human;
}

-- A session of alice with outputs of all four stages and no open item.
abbrev pub base : ProjectContext
base = record {
  session_id = "s1";
  created_by = "alice";
  current_state = known s3_review;
  research_target = "model";
  domain = "law";
  goal = "drafting";
  data_classification = business_internal;
  risk_profile = some (factors 0);
  selected_scenario_id = none;
  user_materials = [];
  input_versions = [];
  target_deployment = none;
  scenario_profile = none;
  risk_overrides = [];
  stage_1_output = some (record { failure_modes = []; direct_conclusion = "" });
  stage_2_output = some (record { workflow_nodes = [] });
  stage_3_output = some (record { test_results = []; overall_passed = true });
  stage_4_output = some (record { trigger_methods = [] });
  review_notes = [];
  pending_actions = [];
  action_resolution_logs = [];
  flagged_items = [];
  audit_events = [];
  parser_errors = [];
  stage_output_versions = (1, 1) ∷ (2, 1) ∷ (3, 1) ∷ [];
  stage_dependency_versions = [];
  stage_staleness = [];
  evidence_sources = [];
  eval_cases = [];
  eval_runs = [];
  human_calibrations = [];
  eval_experiments = [];
  safety_findings = [];
  risk_treatments = [];
  project_approvals = [];
  iteration_count = 0;
  last_error = none;
}

abbrev pub edit_action : PendingHumanAction
edit_action = record {
  action_id = "a1";
  stage_id = 2;
  source_type = "workflow_node";
  source_id = some "N1";
  action_type = edit;
  risk_level = high;
  reviewer_decision = none;
  reviewer_note = none;
  status = pending;
  blocking = true;
  stage_output_version = 1;
  superseded_by = none;
  payload_digest = none;
  payload_evidence_ids = [];
  idempotency_key = none;
  target_object_path = none;
  resolution_attempts = 0;
  last_resolution_error = none;
  resolved_at = none;
}

abbrev pub no_match : String → String → Bool
no_match pattern text = false

abbrev pub constant {ℓ} : {A : Type ℓ} → String → A → String
constant s a = s

-- A high failure mode, and bob's completed treatment of it, not yet reviewed.
abbrev pub mode : FailureMode
mode = record {
  id = "FM-1";
  category = "drift";
  description = "";
  severity = high;
  evidence_ids = [];
}

abbrev pub treatment : RiskTreatment
treatment = record {
  treatment_id = "T1";
  source_type = failure_mode;
  source_id = "FM-1";
  risk_level = high;
  owner = "bob";
  mitigation_plan = "review every draft";
  status = completed;
  evaluation_version_digest = "v";
  created_by = "bob";
  updated_by = "bob";
  reviewed_by = "";
  reviewed_at = none;
  review_note = "";
  updated_at = 5;
}

abbrev pub treated : ProjectContext
treated = record base {
  stage_1_output = some (record { failure_modes = mode ∷ []; direct_conclusion = "" });
  risk_treatments = treatment ∷ [];
}
