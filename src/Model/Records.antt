-- ===== src/Model/Records.antt =====
-- The records of core/models.py that the modelled services read or write. Fields that are only
-- shown (titles, descriptions, time stamps that no code compares) are left out.
use ai_workflow_premortem_pu.Prelude.{ℕ, String, Bool, Option, List}
use ai_workflow_premortem_pu.Model.Enums.{
  ActionType, ActionStatus, FindingStatus, Tier, RiskFactorSource,
}

pub record RiskFactorScores : Type 0 where
  pub impact : ℕ
  pub autonomy : ℕ
  pub data_sensitivity : ℕ
  pub reversibility : ℕ
  pub scale : ℕ
  pub external_exposure : ℕ
  pub source : RiskFactorSource

pub record RiskOverrideRecord : Type 0 where
  pub override_id : String
  pub actor : String
  pub actor_role : String
  pub original_tier : Tier
  pub requested_tier : Tier
  pub effective_tier : Tier
  pub floor_tier : Tier
  pub reason : String
  pub factors_digest : String

pub record FailureMode : Type 0 where
  pub id : String
  pub category : String
  pub description : String
  pub severity : Tier
  pub evidence_ids : List String

pub record Stage1Output : Type 0 where
  pub failure_modes : List FailureMode
  pub direct_conclusion : String

pub record WorkflowNode : Type 0 where
  pub node_id : String
  pub stage_name : String
  pub model_assigned : String
  pub prompt_template : String
  pub failure_modes_addressed : List String
  -- `oversight_policy is not None`
  pub has_oversight_policy : Bool

pub record Stage2Output : Type 0 where
  pub workflow_nodes : List WorkflowNode

pub record StressTestResult : Type 0 where
  pub tested_node_id : String
  pub scenario_type : String
  pub test_input : String
  pub pass_criteria : List String

pub record Stage3Output : Type 0 where
  pub test_results : List StressTestResult
  pub overall_passed : Bool

pub record TriggerMethod : Type 0 where
  pub node_id : String
  pub model_or_mode : String
  pub trigger_instruction : String
  pub human_review_required : Bool

pub record Stage4Output : Type 0 where
  pub trigger_methods : List TriggerMethod

-- The exceptions of resolving an action, and the reason of a refusal that is answered without one. Where
-- the code keeps the text of an exception, the model keeps the exception.
pub data ResolutionFault : Type 0 where
  action_not_found not_pending stale_action hash_conflict target_missing not_authorised
        stale_approval transition_denied effect_failed :
      ResolutionFault

pub record PendingHumanAction : Type 0 where
  pub action_id : String
  pub stage_id : ℕ
  pub source_type : String
  pub source_id : Option String
  pub action_type : ActionType
  pub risk_level : Tier
  pub reviewer_decision : Option String
  pub reviewer_note : Option String
  pub status : ActionStatus
  pub blocking : Bool
  pub stage_output_version : ℕ
  pub superseded_by : Option String
  -- `payload_before.get("risk_assessment_digest")`, the one entry that the modelled code reads.
  pub payload_digest : Option String
  -- The texts `evidence_id` of the sources in `payload_before["weak_sources"]` and then
  -- `payload_before["unverified_sources"]`.
  pub payload_evidence_ids : List String
  pub idempotency_key : Option String
  pub target_object_path : Option String
  pub resolution_attempts : ℕ
  pub last_resolution_error : Option ResolutionFault
  pub resolved_at : Option ℕ

-- `result_status` of a log and of an answer.
pub data ResultStatus : Type 0 where
  result_resolved idempotent_replay result_stale result_conflict validation_failed
        result_not_pending result_not_found result_forbidden result_error :
      ResultStatus

pub record ActionResolutionLog : Type 0 where
  pub action_id : String
  pub idempotency_key : Option String
  pub requested_status : String
  pub result_status : ResultStatus
  pub before_hash : Option String
  pub after_hash : Option String
  pub error_message : Option ResolutionFault
  pub created_at : ℕ

pub data FlagStatus : Type 0 where
  flag_pending flag_verified flag_dismissed : FlagStatus

pub record FlaggedItem : Type 0 where
  pub item_id : String
  pub flag_status : FlagStatus
  pub note : String

pub record SafetyFinding : Type 0 where
  pub finding_id : String
  pub finding_stage : Option ℕ
  pub severity : Tier
  pub requires_human_review : Bool
  pub status : FindingStatus

pub record AuditEvent : Type 0 where
  pub actor : String
  pub event_type : String
  pub target_type : String
  pub target_id : String

-- The entry of `stage_staleness`; its descriptive fields are left out.
pub record Staleness : Type 0 where
  pub stale : Bool
  pub because_stage : ℕ
  pub reason : String
  pub stale_superseded_by : Option String

pub data TreatmentStatus : Type 0 where
  planned in_progress completed accepted : TreatmentStatus

pub data TreatmentSource : Type 0 where
  failure_mode safety_finding : TreatmentSource

pub record RiskTreatment : Type 0 where
  pub treatment_id : String
  pub source_type : TreatmentSource
  pub source_id : String
  pub risk_level : Tier
  pub owner : String
  pub mitigation_plan : String
  pub status : TreatmentStatus
  pub evaluation_version_digest : String
  pub created_by : String
  pub updated_by : String
  pub reviewed_by : String
  pub reviewed_at : Option ℕ
  pub review_note : String
  pub updated_at : ℕ

pub data ApprovalStatus : Type 0 where
  approved rejected : ApprovalStatus

pub record ProjectApproval : Type 0 where
  pub approval_id : String
  pub status : ApprovalStatus
  pub evaluation_version_digest : String
  pub evidence_digest : String
  pub decided_by : String
  pub decided_role : String
  pub decision_note : String
  pub created_at : ℕ
