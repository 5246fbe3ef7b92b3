-- ===== src/Gates/Basic.antt =====
-- The rules of core/gates/rules that read the session alone: missing_output.py, stale_dependency.py,
-- action_state.py, parser_error.py and safety_finding.py.
use ai_workflow_premortem_pu.Prelude.{
  ℕ, String, Bool, true, false, not, ◌&&◌, none, some, List, [], ◌∷◌, ◌++◌, is_empty, is_blank,
  non_empty, ltb, is_some, ◌==◌, nat_eq, string_eq, option_string_eq, if◌then◌else◌,
}
use ai_workflow_premortem_pu.Dict.{Dict, get}
use ai_workflow_premortem_pu.Model.Enums.{
  medium, high, is_pending, is_resolved, is_inactive, is_escalate, is_open, is_high_or_critical,
}
use ai_workflow_premortem_pu.Model.Records.{PendingHumanAction, SafetyFinding}
use ai_workflow_premortem_pu.Model.Context.{
  ProjectContext, or_default, current_version, stage_output_exists,
}
use ai_workflow_premortem_pu.Stage.Supersede.{is_rejected}
use ai_workflow_premortem_pu.Stage.Revision.{stage_key}
use ai_workflow_premortem_pu.Gates.Blocker.{
  missing_stage_output, stale_dependency, pending_action, rejected_action, unresolved_escalation,
  parser_error, safety_finding, run_stage, rerun_stage, resolve_action, edit_stage_output,
  revise_stage, approve_escalation, resolve_safety_finding, StageBlocker, make_blocker,
  find_pending_action_id,
}

unfoldable pub missing_output_rule : ProjectContext → ℕ → List StageBlocker
missing_output_rule ctx stage =
    if stage_output_exists ctx stage
    then []
    else make_blocker ctx stage missing_stage_output "missing_output" medium "stage"
        (some (stage_key stage)) none run_stage false
      ∷ []

-- `stale_meta.get("stale")`, and false where there is no entry.
unfoldable pub is_stale : ProjectContext → ℕ → Bool
is_stale ctx stage = elim (get stage ctx.stage_staleness) [ none ↦ false | some m ↦ m.stale ]

-- The recorded upstream versions that the current ones have passed.
unfoldable pub stale_dependencies : ProjectContext → Dict ℕ ℕ → Dict ℕ ℕ
stale_dependencies ctx [] = []
stale_dependencies ctx ((upstream, recorded) ∷ deps) =
    let rest = stale_dependencies ctx deps in
    if ltb recorded (current_version ctx upstream) then (upstream, recorded) ∷ rest else rest

unfoldable pub recorded_dependencies : ProjectContext → ℕ → Dict ℕ ℕ
recorded_dependencies ctx stage = or_default (get stage ctx.stage_dependency_versions) []

unfoldable pub stale_dependency_rule : ProjectContext → ℕ → List StageBlocker
stale_dependency_rule ctx stage =
    let marked =
      (if is_stale ctx stage
        then make_blocker ctx stage stale_dependency "stale_dependency" high "stage"
            (some (stage_key stage)) none rerun_stage false
          ∷ []
        else []) in
    let passed =
      (if is_empty (stale_dependencies ctx (recorded_dependencies ctx stage))
        then []
        else make_blocker ctx stage stale_dependency "stale_dependency" high
            "stage_dependency_versions" (some (stage_key stage)) none rerun_stage false
          ∷ []) in
    if stage_output_exists ctx stage then marked ++ passed else []

-- `action.source_type or "human_action"`
source_of : PendingHumanAction → String
source_of a = if is_blank a.source_type then "human_action" else a.source_type

-- `status == "resolved" and reviewer_decision == "approve"`
unfoldable pub is_approved : PendingHumanAction → Bool
is_approved a = is_resolved a.status && a.reviewer_decision == some "approve"

-- The body of the loop for one action of the stage's current version: at most one blocker.
unfoldable pub action_blockers : ProjectContext → ℕ → PendingHumanAction → List StageBlocker
unfolding source_of
action_blockers ctx stage a =
    if is_pending a.status && a.blocking
    then make_blocker ctx stage pending_action "action_state" a.risk_level (source_of a) a.source_id
        (some a.action_id)
        (if is_escalate a.action_type then approve_escalation else resolve_action) false
      ∷ []
    else if is_rejected a
    then make_blocker ctx stage rejected_action "action_state" a.risk_level (source_of a)
        a.source_id (some a.action_id) revise_stage false
      ∷ []
    else if is_escalate a.action_type && not (is_approved a) && not (is_inactive a.status)
    then make_blocker ctx stage unresolved_escalation "action_state" a.risk_level (source_of a)
        a.source_id (some a.action_id) approve_escalation false
      ∷ []
    else []

unfoldable pub is_current : ProjectContext → ℕ → PendingHumanAction → Bool
is_current ctx stage a = a.stage_id == stage && a.stage_output_version == current_version ctx stage

unfoldable pub action_loop : ProjectContext → ℕ → List PendingHumanAction → List StageBlocker
action_loop ctx stage [] = []
action_loop ctx stage (a ∷ actions) =
    (if is_current ctx stage a then action_blockers ctx stage a else [])
    ++ action_loop ctx stage actions

unfoldable pub action_state_rule : ProjectContext → ℕ → List StageBlocker
action_state_rule ctx stage = action_loop ctx stage ctx.pending_actions

unfoldable pub parser_error_rule : ProjectContext → ℕ → List StageBlocker
parser_error_rule ctx stage =
    if non_empty (or_default (get stage ctx.parser_errors) "")
    then make_blocker ctx stage parser_error "parser_error" high "parser" (some (stage_key stage))
        (find_pending_action_id ctx stage "parser" (stage_key stage)) edit_stage_output false
      ∷ []
    else []

-- The tests of the loop of safety_finding.py.
unfoldable pub finding_blocks : ℕ → SafetyFinding → Bool
finding_blocks stage f =
    elim f.finding_stage [ none ↦ false | some s ↦ s == stage ]
    && is_open f.status
    && f.requires_human_review
    && is_high_or_critical f.severity

unfoldable pub safety_loop : ProjectContext → ℕ → List SafetyFinding → List StageBlocker
safety_loop ctx stage [] = []
safety_loop ctx stage (f ∷ findings) =
    let action_id = find_pending_action_id ctx stage "safety_finding" f.finding_id in
    (if finding_blocks stage f
      then make_blocker ctx stage safety_finding "safety_finding" f.severity "safety_finding"
          (some f.finding_id) action_id
          (if is_some action_id then resolve_action else resolve_safety_finding) true
        ∷ []
      else [])
    ++ safety_loop ctx stage findings

unfoldable pub safety_finding_rule : ProjectContext → ℕ → List StageBlocker
safety_finding_rule ctx stage = safety_loop ctx stage ctx.safety_findings
