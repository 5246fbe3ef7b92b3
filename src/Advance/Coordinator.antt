-- ===== src/Advance/Coordinator.antt =====
-- core/stage_advancement_coordinator.py with the decision of core/stage_advancement_decision.py and
-- `_stage_lifecycle` of core/stage_readiness_service.py. Traces, the decision's source and its metadata
-- are left out.
pub mod Moves
pub mod Complete
pub mod Progress
use ai_workflow_premortem_pu.Prelude.{
  ℕ, ◌+◌, String, Bool, true, false, not, Option, none, some, List, [], ◌∷◌, length, keep_if, mem,
  find_first, concat, ltb, Outcome, ok, raised, string_eq, nat_eq, ◌==◌, if◌then◌else◌,
}
use ai_workflow_premortem_pu.Dict.{Dict, get, put}
use ai_workflow_premortem_pu.Model.Enums.{
  SessionState, s2_running, s3_running, s4_running, complete, known,
}
use ai_workflow_premortem_pu.Model.Records.{PendingHumanAction, Staleness}
use ai_workflow_premortem_pu.Model.Context.{
  ProjectContext, append_audit_event, current_version, stage_output_exists,
}
use ai_workflow_premortem_pu.Workflow.State.{state_value, is_blocked}
use ai_workflow_premortem_pu.Stage.Revision.{stage_key, out_of_range}
use ai_workflow_premortem_pu.Gates.Basic.{is_stale}
use ai_workflow_premortem_pu.Gates.Blocker.{StageBlocker, str, text_or_default}
use ai_workflow_premortem_pu.Gates.Engine.{StageGateResult, GateError, bad_stage}
use ai_workflow_premortem_pu.Advance.Scope.{current_stage_id}
use ai_workflow_premortem_pu.Advance.Operations.{
  StageResolutionOperation, build_stage_resolution_operations, next_required,
}

pub data StageLifecycle : Type 0 where
  not_started running review blocked ready_to_advance lifecycle_approved lifecycle_stale :
      StageLifecycle

-- One more than the place in the list, and 0 for a text that is not in it.
index_of : String → List String → ℕ → ℕ
index_of text [] place = 0
index_of text (t ∷ ts) place = if text == t then place else index_of text ts (place + 1)

-- `_stage_state_index`, one higher.
unfoldable pub state_index : String → ℕ
unfolding index_of
state_index text =
    index_of text
      ("init" ∷ "s1_running" ∷ "s1_review" ∷ "s2_running" ∷ "s2_review" ∷ "s3_running" ∷ "s3_review"
        ∷ "s4_running" ∷ "s4_review" ∷ "complete" ∷ [])
      1

unfoldable pub stage_lifecycle : ProjectContext → ℕ → StageGateResult → StageLifecycle
stage_lifecycle ctx stage result =
    let state = state_value ctx.current_state in
    let review_state = concat "s" (concat (str stage) "_review") in
    if is_stale ctx stage
    then lifecycle_stale
    else if state == concat "s" (concat (str stage) "_running")
    then running
    else if not (stage_output_exists ctx stage)
    then not_started
    else if state == review_state
    then if result.can_continue then ready_to_advance else blocked
    else if ltb (state_index review_state) (state_index state)
    then if result.can_continue then lifecycle_approved else blocked
    else if result.can_continue
    then review
    else blocked

pub record StageAdvancementDecision : Type 0 where
  pub stage_id : ℕ
  pub stage_output_version : ℕ
  pub current_state : String
  pub lifecycle : StageLifecycle
  pub can_advance : Bool
  pub advanced : Bool
  pub next_state : Option String
  pub gate_result : StageGateResult
  pub required_operations : List StageResolutionOperation
  pub blocking_action_ids : List String
  pub stale_stages : List ℕ
  pub decision_reason : String
  pub hard_blockers_count : ℕ
  pub overridable_blockers_count : ℕ
  pub executable_operations_count : ℕ

-- `_NEXT_STATES`, asked for stages 1 to 4 only.
unfoldable pub next_state_of : ℕ → SessionState
next_state_of stage =
    if stage == 1
    then s2_running
    else if stage == 2
    then s3_running
    else if stage == 3
    then s4_running
    else complete

-- `_stale_stage_keys`
unfoldable pub stale_keys : Dict ℕ Staleness → List ℕ
stale_keys [] = []
stale_keys ((stage, m) ∷ d) = let rest = stale_keys d in if m.stale then stage ∷ rest else rest

-- The identifiers of the actions that block.
unfoldable pub blocking_ids : List StageBlocker → List String
blocking_ids [] = []
blocking_ids (b ∷ bs) =
    let rest = blocking_ids bs in
    elim b.action_id [ none ↦ rest | some id ↦ if id == "" then rest else id ∷ rest ]

abbrev count_of : (StageResolutionOperation → Bool) → List StageResolutionOperation → ℕ
count_of p ops = length (keep_if p ops)

unfoldable pub decision_of :
    ProjectContext
    → ℕ
    → String
    → StageGateResult
    → List StageResolutionOperation
    → StageAdvancementDecision
decision_of ctx stage reason result ops = record {
  stage_id = stage;
  stage_output_version = result.stage_output_version;
  current_state = state_value ctx.current_state;
  lifecycle = stage_lifecycle ctx stage result;
  can_advance = result.can_continue;
  advanced = false;
  next_state =
      if result.can_continue then some (state_value (known (next_state_of stage))) else none;
  gate_result = result;
  required_operations = ops;
  blocking_action_ids = blocking_ids result.blockers;
  stale_stages = stale_keys ctx.stage_staleness;
  decision_reason =
      text_or_default reason
        (if result.can_continue then "gate_clear_ready_to_advance" else "blocked_by_stage_gate");
  hard_blockers_count = count_of (λ (o : StageResolutionOperation). o.hard_blocker) ops;
  overridable_blockers_count =
      count_of (λ (o : StageResolutionOperation). o.can_be_overridden_by_approval) ops;
  executable_operations_count =
      count_of (λ (o : StageResolutionOperation). o.can_execute_via_api) ops;
}

-- The decision for a blocked session. Its version is `getattr(ctx, f"stage_{n}_output_version", 1)`,
-- and the context has no such attribute.
unfoldable pub blocked_decision : ProjectContext → ℕ → StageGateResult → StageAdvancementDecision
blocked_decision ctx stage result = record {
  stage_id = stage;
  stage_output_version = 1;
  current_state = state_value ctx.current_state;
  lifecycle = blocked;
  can_advance = false;
  advanced = false;
  next_state = none;
  gate_result = result;
  required_operations = [];
  blocking_action_ids = [];
  stale_stages = stale_keys ctx.stage_staleness;
  decision_reason = "workflow_state_blocked";
  hard_blockers_count = 0;
  overridable_blockers_count = 0;
  executable_operations_count = 0;
}

-- The change of state, with its note and its event.
unfoldable pub moved : ProjectContext → ℕ → ProjectContext
moved ctx stage =
    append_audit_event
      (record ctx {
        current_state = known (next_state_of stage);
        review_notes = put stage "approved" ctx.review_notes;
      })
      "system" "stage_advanced" "stage" (stage_key stage)

abbrev pub Answer : Type 0
Answer = Outcome GateError StageAdvancementDecision × ProjectContext

-- `gate` evaluates the gate of a stage, as `evaluate_stage_gate` with its rules and settings does.
module _ (gate : ProjectContext → ℕ → Outcome GateError StageGateResult × ProjectContext) where
  unfoldable pub with_operations :
      ℕ
      → String
      → StageGateResult
      → Outcome GateError (List StageResolutionOperation) × ProjectContext
      → Answer
  with_operations stage reason result (raised e, ctx) = (raised e, ctx)
  with_operations stage reason result (ok ops, ctx) =
      (ok (decision_of ctx stage reason result ops), ctx)

  unfoldable pub with_result :
      ℕ → String → Outcome GateError StageGateResult × ProjectContext → Answer
  unfolding with_operations
  with_result stage reason (raised e, ctx) = (raised e, ctx)
  with_result stage reason (ok result, ctx) =
      with_operations stage reason result (build_stage_resolution_operations gate ctx stage)

  unfoldable pub build_stage_advancement_decision : ProjectContext → ℕ → String → Answer
  unfolding with_result
  build_stage_advancement_decision ctx stage reason =
      if out_of_range stage
      then (raised bad_stage, ctx)
      else with_result stage reason (gate ctx stage)

  blocked_answer : ℕ → Outcome GateError StageGateResult × ProjectContext → Answer
  blocked_answer stage (raised e, ctx) = (raised e, ctx)
  blocked_answer stage (ok result, ctx) = (ok (blocked_decision ctx stage result), ctx)

  unfoldable pub move_on : ℕ → String → Answer → Answer
  move_on stage reason (raised e, ctx) = (raised e, ctx)
  move_on stage reason (ok d, ctx) =
      if not d.can_advance
      then (
        ok (record d { decision_reason = text_or_default reason "stage_advance_blocked_by_gate" }),
        ctx,
      )
      else (
        ok (record d {
          advanced = true;
          current_state = state_value (known (next_state_of stage));
          next_state = some (state_value (known (next_state_of stage)));
          decision_reason = text_or_default reason "stage_advanced";
        }),
        moved ctx stage,
      )

  unfoldable pub advance_stage_if_ready : ProjectContext → ℕ → String → Answer
  unfolding blocked_answer move_on
  advance_stage_if_ready ctx stage reason =
      if is_blocked ctx.current_state
      then blocked_answer stage (gate ctx stage)
      else move_on stage reason (build_stage_advancement_decision ctx stage reason)

-- `_safe_stage`: the stage that was asked for, that of the first of the actions, or the session's, and
-- then within 1 to 4.
stage_of_actions : List String → List PendingHumanAction → ℕ
stage_of_actions ids [] = 0
stage_of_actions ids (a ∷ as') =
    if mem a.action_id ids then a.stage_id else stage_of_actions ids as'

unfoldable pub safe_stage : ProjectContext → ℕ → List String → ℕ
unfolding stage_of_actions
safe_stage ctx asked ids =
    let inferred = stage_of_actions ids ctx.pending_actions in
    let candidate =
      (if not (asked == 0)
        then asked
        else if not (inferred == 0)
        then inferred
        else current_stage_id ctx) in
    if candidate == 0 then 1 else if ltb 4 candidate then 4 else candidate
