-- ===== src/Model/Context.antt =====
-- `ProjectContext` of core/models.py, reduced to the fields that the modelled services use, and
-- `append_audit_event` of core/audit_service.py. A key `f"stage_{n}"` of a dict is its number n.
use ai_workflow_premortem_pu.Prelude.{
  ℕ, ◌+◌, String, Bool, false, Option, none, some, List, [], ◌∷◌, ◌++◌, nat_eq, is_some,
  if◌then◌else◌, ◌==◌,
}
use ai_workflow_premortem_pu.Dict.{Dict, get, put}
use ai_workflow_premortem_pu.Model.Enums.{StateValue, DataClassification}
use ai_workflow_premortem_pu.Model.Records.{
  RiskFactorScores, RiskOverrideRecord, Stage1Output, Stage2Output, Stage3Output, Stage4Output,
  PendingHumanAction, ActionResolutionLog, FlaggedItem, SafetyFinding, AuditEvent, Staleness,
  RiskTreatment, ProjectApproval,
}
use ai_workflow_premortem_pu.Model.Evaluation.{
  TargetDeployment, EvidenceSource, EvalCase, EvalRun, HumanCalibration, EvalExperiment,
}

pub record ProjectContext : Type 0 where
  pub session_id : String
  pub created_by : String
  pub current_state : StateValue
  pub research_target : String
  pub domain : String
  pub goal : String
  pub data_classification : DataClassification
  pub risk_profile : Option RiskFactorScores
  -- `scenario_config["risk_profile"]` if it is a dict: `some none` where it fails validation.
  pub selected_scenario_id : Option String
  pub user_materials : List String
  pub input_versions : Dict String ℕ
  pub target_deployment : Option TargetDeployment
  pub scenario_profile : Option (Option RiskFactorScores)
  pub risk_overrides : List RiskOverrideRecord
  pub stage_1_output : Option Stage1Output
  pub stage_2_output : Option Stage2Output
  pub stage_3_output : Option Stage3Output
  pub stage_4_output : Option Stage4Output
  pub review_notes : Dict ℕ String
  pub pending_actions : List PendingHumanAction
  pub action_resolution_logs : List ActionResolutionLog
  pub flagged_items : List FlaggedItem
  pub audit_events : List AuditEvent
  pub parser_errors : Dict ℕ String
  pub stage_output_versions : Dict ℕ ℕ
  pub stage_dependency_versions : Dict ℕ (Dict ℕ ℕ)
  pub stage_staleness : Dict ℕ Staleness
  pub evidence_sources : List EvidenceSource
  pub eval_cases : List EvalCase
  pub eval_runs : List EvalRun
  pub human_calibrations : List HumanCalibration
  pub eval_experiments : List EvalExperiment
  pub safety_findings : List SafetyFinding
  pub risk_treatments : List RiskTreatment
  pub project_approvals : List ProjectApproval
  pub iteration_count : ℕ
  pub last_error : Option String

-- Hashes, snapshots and metadata of the event are written for auditors and read by no modelled code.
unfoldable pub append_audit_event :
    ProjectContext → String → String → String → String → ProjectContext
append_audit_event ctx actor event_type target_type target_id = record ctx {
  audit_events =
      ctx.audit_events
      ++ record {
        actor = actor;
        event_type = event_type;
        target_type = target_type;
        target_id = target_id;
      }
        ∷ [];
}

-- `dict.get(key, default)`
abbrev pub or_default {ℓ} : {A : Type ℓ} → Option A → A → A
or_default none d = d
or_default (some a) d = a

-- `_current_version`, `current_stage_output_version`: 1 where no version is recorded.
unfoldable pub current_version : ProjectContext → ℕ → ℕ
current_version ctx stage = or_default (get stage ctx.stage_output_versions) 1

-- `getattr(ctx, f"stage_{stage}_output", None) is not None`
unfoldable pub stage_output_exists : ProjectContext → ℕ → Bool
stage_output_exists ctx stage =
    if stage == 1
    then is_some ctx.stage_1_output
    else if stage == 2
    then is_some ctx.stage_2_output
    else if stage == 3
    then is_some ctx.stage_3_output
    else if stage == 4
    then is_some ctx.stage_4_output
    else false

-- `bump_stage_output_version` of core/governance/action_state.py.
unfoldable pub bump_stage_output_version : ProjectContext → ℕ → ProjectContext × ℕ
bump_stage_output_version ctx stage =
    let version : ℕ = or_default (get stage ctx.stage_output_versions) 0 + 1 in
    (record ctx { stage_output_versions = put stage version ctx.stage_output_versions }, version)
