-- ===== src/Actions/State.antt =====
-- core/governance/action_state.py: logs of resolutions, the target of an action, and adding an action.
pub mod Adding
use ai_workflow_premortem_pu.Prelude.{
  ℕ, String, Bool, true, false, not, ◌&&◌, ◌||◌, Option, none, some, List, [], ◌∷◌, ◌++◌, any, mem,
  keep_if, latest, leb, is_some, is_blank, concat, nat_eq, string_eq, option_string_eq, ◌==◌, ◌!=◌,
  if◌then◌else◌,
}
use ai_workflow_premortem_pu.Dict.{get}
use ai_workflow_premortem_pu.Model.Enums.{
  ActionType, Tier, approve, edit, reject, verify_evidence, escalate, pending, is_inactive,
}
use ai_workflow_premortem_pu.Model.Records.{
  PendingHumanAction, ActionResolutionLog, ResultStatus, result_resolved, idempotent_replay,
  FlaggedItem, FailureMode, WorkflowNode, TriggerMethod, SafetyFinding, Stage1Output, Stage2Output,
  Stage4Output,
}
use ai_workflow_premortem_pu.Model.Evaluation.{EvalRun}
use ai_workflow_premortem_pu.Model.Context.{
  ProjectContext, append_audit_event, current_version, or_default,
}
use ai_workflow_premortem_pu.Stage.Revision.{stage_key}
use ai_workflow_premortem_pu.Gates.Blocker.{str, text_or_default}

abbrev closing_status : ResultStatus → Bool
closing_status result_resolved = true
closing_status idempotent_replay = true
closing_status _ = false

unfoldable pub is_replay_log : String → String → ActionResolutionLog → Bool
is_replay_log action_id key log =
    log.action_id == action_id
    && log.idempotency_key == some key
    && closing_status log.result_status

-- `_action_resolution_log_exists`: never without a key.
unfoldable pub action_resolution_log_exists : ProjectContext → String → Option String → Bool
action_resolution_log_exists ctx action_id none = false
action_resolution_log_exists ctx action_id (some key) =
    if is_blank key then false else any (is_replay_log action_id key) ctx.action_resolution_logs

unfoldable pub append_action_resolution_log : ProjectContext → ActionResolutionLog → ProjectContext
append_action_resolution_log ctx log = record ctx {
  action_resolution_logs = ctx.action_resolution_logs ++ log ∷ [];
}

-- `_latest_action_resolution_log`: without a key, that of any resolution of the action.
unfoldable pub latest_action_resolution_log :
    ProjectContext → String → Option String → Option ActionResolutionLog
latest_action_resolution_log ctx action_id key =
    latest (λ (l m : ActionResolutionLog). leb l.created_at m.created_at)
      (keep_if
        (λ (l : ActionResolutionLog).
          l.action_id == action_id && (not (is_some key) || l.idempotency_key == key))
        ctx.action_resolution_logs)

-- The object that the action is about, by the type of its source.
target_of_type : ProjectContext → PendingHumanAction → Bool
target_of_type ctx a =
    let source = a.source_type in
    if source == "" || source == "unknown"
    then true
    else if source == "parser"
    then not (is_some a.source_id)
      || a.source_id == some (stage_key a.stage_id)
      || is_some (get a.stage_id ctx.parser_errors)
    else if source == "flag"
    then any (λ (f : FlaggedItem). some f.item_id == a.source_id) ctx.flagged_items
    else if source == "failure_mode"
    then elim ctx.stage_1_output [
      | none ↦ false
      | some o ↦ any (λ (m : FailureMode). some m.id == a.source_id) o.failure_modes
    ]
    else if mem source
        ("evidence_gap" ∷ "evidence_low_credibility" ∷ "evidence_unverified_for_high_risk" ∷ [])
    then true
    else if mem source ("workflow_policy" ∷ "workflow_node" ∷ [])
    then elim ctx.stage_2_output [
      | none ↦ false
      | some o ↦ any (λ (n : WorkflowNode). some n.node_id == a.source_id) o.workflow_nodes
    ]
    else if mem source ("stage3_result" ∷ "stress_test" ∷ [])
    then is_some ctx.stage_3_output
    else if source == "eval_run"
    then any (λ (r : EvalRun). some r.run_id == a.source_id) ctx.eval_runs
    else if source == "trigger_method"
    then elim ctx.stage_4_output [
      | none ↦ false
      | some o ↦ any (λ (t : TriggerMethod). some t.node_id == a.source_id) o.trigger_methods
    ]
    else if source == "safety_finding"
    then any (λ (f : SafetyFinding). some f.finding_id == a.source_id) ctx.safety_findings
    else true

-- `_target_object_exists`: an action without a target path is accepted.
unfoldable pub target_object_exists : ProjectContext → PendingHumanAction → Bool
unfolding target_of_type
target_object_exists ctx a =
    if is_blank (or_default a.target_object_path "") then true else target_of_type ctx a

type_text : ActionType → String
type_text approve = "approve"
type_text edit = "edit"
type_text reject = "reject"
type_text verify_evidence = "verify_evidence"
type_text escalate = "escalate"

-- An action of the same kind, from the same source and for the same output.
unfoldable pub is_same_action :
    ℕ → String → Option String → ActionType → ℕ → PendingHumanAction → Bool
unfolding type_text
is_same_action stage source_type source_id type version a =
    a.stage_id == stage
    && a.source_type == source_type
    && a.source_id == source_id
    && type_text a.action_type == type_text type
    && a.stage_output_version == version

-- `_has_action`
unfoldable pub has_action :
    ProjectContext → ℕ → String → Option String → ActionType → ℕ → Bool → Bool
has_action ctx stage source_type source_id type version include_inactive =
    any
      (λ (a : PendingHumanAction).
        is_same_action stage source_type source_id type version a
        && (include_inactive || not (is_inactive a.status)))
      ctx.pending_actions

-- The arguments of a new action; titles and texts are left out.
pub record NewAction : Type 0 where
  pub stage : ℕ
  pub type : ActionType
  pub risk : Tier
  pub source_type_of : String
  pub source_id_of : Option String
  pub digest_of : Option String
  pub evidence_of : List String
  pub is_blocking : Bool
  pub version_of : Option ℕ

-- `stage_output_version or current_stage_output_version(ctx, stage_id)`
unfoldable pub version_for : ProjectContext → NewAction → ℕ
version_for ctx n =
    let given = or_default n.version_of 0 in
    if given == 0 then current_version ctx n.stage else given

unfoldable pub new_action : String → ℕ → NewAction → PendingHumanAction
new_action fresh version n = record {
  action_id = fresh;
  stage_id = n.stage;
  source_type = n.source_type_of;
  source_id = n.source_id_of;
  action_type = n.type;
  risk_level = n.risk;
  reviewer_decision = none;
  reviewer_note = none;
  status = pending;
  blocking = n.is_blocking;
  stage_output_version = version;
  superseded_by = none;
  payload_digest = n.digest_of;
  payload_evidence_ids = n.evidence_of;
  idempotency_key = none;
  target_object_path = some (
      concat "stage_" (
        concat (str n.stage) (
          concat "." (
            concat (text_or_default n.source_type_of "unknown")
              (concat "." (text_or_default (or_default n.source_id_of "") "stage"))))));
  resolution_attempts = 0;
  last_resolution_error = none;
  resolved_at = none;
}

-- The identifier of the new action is `fresh`. The answer is `none` where there is one already.
unfoldable pub add_action_if_missing :
    ProjectContext → String → NewAction → Option PendingHumanAction × ProjectContext
add_action_if_missing ctx fresh n =
    let version = version_for ctx n in
    let action = new_action fresh version n in
    if has_action ctx n.stage n.source_type_of n.source_id_of n.type version false
    then (none, ctx)
    else (
      some action,
      append_audit_event (record ctx { pending_actions = ctx.pending_actions ++ action ∷ [] })
          "system" "human_action_created" "human_action" fresh,
    )
