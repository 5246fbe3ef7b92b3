-- ===== src/Stage/Supersede.antt =====
-- `supersede_actions_for_stage` of core/governance/action_resolution.py.
use ai_workflow_premortem_pu.Prelude.{
  ℕ, String, Bool, ◌&&◌, ◌||◌, Option, some, List, [], ◌∷◌, length, is_some, ◌==◌, nat_eq,
  option_string_eq, if◌then◌else◌,
}
use ai_workflow_premortem_pu.Model.Enums.{superseded, is_pending, is_resolved, is_decisive}
use ai_workflow_premortem_pu.Model.Records.{PendingHumanAction}
use ai_workflow_premortem_pu.Model.Context.{ProjectContext, append_audit_event}

-- A resolved key action that the reviewer rejected.
unfoldable pub is_rejected : PendingHumanAction → Bool
is_rejected a =
    is_resolved a.status && a.reviewer_decision == some "reject" && is_decisive a.action_type

unfoldable pub should_supersede : ℕ → PendingHumanAction → Bool
unfolding is_rejected
should_supersede stage a = a.stage_id == stage && (is_pending a.status || is_rejected a)

unfoldable pub superseded_action :
    String → Option String → ℕ → PendingHumanAction → PendingHumanAction
superseded_action reason superseded_by now a = record a {
  status = superseded;
  reviewer_note = some reason;
  superseded_by = superseded_by;
  resolved_at = if is_some a.resolved_at then a.resolved_at else some now;
}

-- The loop over the actions: the new list, and the identifiers of those that were superseded.
unfoldable pub supersede_loop :
    ℕ → String → Option String → ℕ → List PendingHumanAction → List PendingHumanAction × List String
unfolding should_supersede superseded_action
supersede_loop stage reason by now [] = ([], [])
supersede_loop stage reason by now (a ∷ actions) =
    let (rest, ids) = supersede_loop stage reason by now actions in
    if should_supersede stage a
    then (superseded_action reason by now a ∷ rest, a.action_id ∷ ids)
    else (a ∷ rest, ids)

-- One audit event for each of them, in order.
unfoldable pub superseded_events : List String → ProjectContext → ProjectContext
superseded_events [] ctx = ctx
superseded_events (id ∷ ids) ctx =
    superseded_events ids
      (append_audit_event ctx "system" "human_action_superseded" "human_action" id)

unfoldable pub supersede_actions_for_stage :
    ProjectContext → ℕ → String → Option String → ℕ → ProjectContext × ℕ
supersede_actions_for_stage ctx stage reason by now =
    let (actions, ids) = supersede_loop stage reason by now ctx.pending_actions in
    (superseded_events ids (record ctx { pending_actions = actions }), length ids)
