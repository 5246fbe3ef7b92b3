-- ===== src/Gates/Expert.antt =====
-- core/gates/rules/expert_review.py: stage 3 of a critical session waits for the approval of an
-- expert. `fresh` is the identifier that `new_id` gives. The rule writes to the context.
pub mod Verdicts
use ai_workflow_premortem_pu.Prelude.{
  ℕ, String, Bool, true, false, not, ◌&&◌, ◌||◌, Option, none, some, List, [], ◌∷◌, ◌++◌, any,
  find_first, keep_if, is_some, Outcome, ok, ◌==◌, ◌!=◌, nat_eq, string_eq, option_string_eq,
  if◌then◌else◌,
}
use ai_workflow_premortem_pu.Model.Enums.{
  critical, escalate, pending, superseded, is_pending, is_resolved,
}
use ai_workflow_premortem_pu.Model.Records.{PendingHumanAction}
use ai_workflow_premortem_pu.Model.Context.{ProjectContext, append_audit_event, current_version}
use ai_workflow_premortem_pu.Risk.Assessment.{DigestPayload, risk_assessment_digest}
use ai_workflow_premortem_pu.Risk.Profile.{build_stage3_gate_profile}
use ai_workflow_premortem_pu.Gates.Blocker.{
  StageBlocker, make_blocker, expert_review, approve_expert_review, find_pending_action_id,
}
use ai_workflow_premortem_pu.Gates.Basic.{is_approved}
use ai_workflow_premortem_pu.Gates.Engine.{GateRule}

-- An expert-review action of the stage's current version, a member of `existing`.
unfoldable pub is_existing : ℕ → PendingHumanAction → Bool
is_existing version a =
    a.source_type == "expert_review" && a.stage_id == 3 && a.stage_output_version == version

unfoldable pub is_approved_now : ℕ → String → PendingHumanAction → Bool
is_approved_now version digest a =
    is_existing version a && is_approved a && a.payload_digest == some digest

unfoldable pub is_pending_now : ℕ → String → PendingHumanAction → Bool
is_pending_now version digest a =
    is_existing version a && is_pending a.status && a.payload_digest == some digest

-- The loop that withdraws the pending reviews of an older digest.
unfoldable pub withdraw_loop : ℕ → List PendingHumanAction → List PendingHumanAction × List String
withdraw_loop version [] = ([], [])
withdraw_loop version (a ∷ actions) =
    let (rest, ids) = withdraw_loop version actions in
    if is_existing version a && is_pending a.status
    then (record a { status = superseded } ∷ rest, a.action_id ∷ ids)
    else (a ∷ rest, ids)

unfoldable pub withdrawn_events : List String → ProjectContext → ProjectContext
withdrawn_events [] ctx = ctx
withdrawn_events (id ∷ ids) ctx =
    withdrawn_events ids
      (append_audit_event ctx "system" "human_action_superseded" "human_action" id)

unfoldable pub withdraw_reviews : ProjectContext → ProjectContext
withdraw_reviews ctx =
    let (actions, ids) = withdraw_loop (current_version ctx 3) ctx.pending_actions in
    withdrawn_events ids (record ctx { pending_actions = actions })

-- The new action. Its `stage_output_version` is not set, so it is the default of the record, 1.
unfoldable pub review_action : String → String → PendingHumanAction
review_action fresh digest = record {
  action_id = fresh;
  stage_id = 3;
  source_type = "expert_review";
  source_id = some "critical_tier_review";
  action_type = escalate;
  risk_level = critical;
  reviewer_decision = none;
  reviewer_note = none;
  status = pending;
  blocking = true;
  stage_output_version = 1;
  superseded_by = none;
  payload_digest = some digest;
  payload_evidence_ids = [];
  idempotency_key = none;
  target_object_path = none;
  resolution_attempts = 0;
  last_resolution_error = none;
  resolved_at = none;
}

unfoldable pub review_blocker : ProjectContext → String → StageBlocker
review_blocker ctx action_id =
    make_blocker ctx 3 expert_review "expert_review" critical "expert_review"
      (some "critical_tier_review") (some action_id) approve_expert_review true

-- The blocker that points to a pending review, and the new action where there is none.
unfoldable pub issue_review :
    String → String → ProjectContext → Option String → List StageBlocker × ProjectContext
issue_review fresh digest ctx (some id) = (review_blocker ctx id ∷ [], ctx)
issue_review fresh digest ctx none = (
  review_blocker ctx fresh ∷ [],
  record ctx { pending_actions = ctx.pending_actions ++ review_action fresh digest ∷ [] },
)

-- What the rule does past its early returns.
unfoldable pub ask_for_review :
    String
    → String
    → Option PendingHumanAction
    → ProjectContext
    → List StageBlocker × ProjectContext
ask_for_review fresh digest (some a) ctx = (review_blocker ctx a.action_id ∷ [], ctx)
ask_for_review fresh digest none ctx =
    let withdrawn = withdraw_reviews ctx in
    issue_review fresh digest withdrawn
      (find_pending_action_id withdrawn 3 "expert_review" "critical_tier_review")

module _ (re_search : String → String → Bool) (hash : DigestPayload → String) (fresh : String) where
  unfoldable pub expert_review_evaluate : ProjectContext → ℕ → List StageBlocker × ProjectContext
  expert_review_evaluate ctx stage =
      let version = current_version ctx stage in
      let digest = risk_assessment_digest re_search hash ctx in
      let asked =
        ask_for_review fresh digest (find_first (is_pending_now version digest) ctx.pending_actions)
          ctx in
      if stage != 3
      then ([], ctx)
      else if not (build_stage3_gate_profile re_search hash ctx).require_expert_review
      then ([], ctx)
      else if is_some (find_first (is_approved_now version digest) ctx.pending_actions)
      then ([], ctx)
      else asked

  unfoldable pub expert_review_rule : GateRule
  expert_review_rule = record {
    rule_id = "expert_review";
    applies_to_stages = 3 ∷ [];
    evaluate =
        λ ctx stage. let (blockers, ctx') = expert_review_evaluate ctx stage in (ok blockers, ctx');
  }
