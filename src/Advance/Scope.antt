-- ===== src/Advance/Scope.antt =====
-- core/stage_scope_service.py: the stages that a session has reached.
use ai_workflow_premortem_pu.Prelude.{
  Option, none, some, ℕ, Bool, not, List, [], ◌∷◌, keep_if, mem, max, nat_eq, if◌then◌else◌,
  string_eq,
}
use ai_workflow_premortem_pu.Model.Enums.{
  SessionState, init, s1_running, s1_review, s2_running, s2_review, s3_running, s3_review,
  s4_running, s4_review, iterating, complete, error, recovery_required,
}
use ai_workflow_premortem_pu.Workflow.State.{state_value, parse_state}
use ai_workflow_premortem_pu.Model.Context.{ProjectContext, stage_output_exists}
use ai_workflow_premortem_pu.Stage.Revision.{range}

-- `_STATE_TO_STAGE.get(value, 0)`; the two blocked states are not in the table.
unfoldable pub stage_of_state : SessionState → ℕ
stage_of_state init = 1
stage_of_state s1_running = 1
stage_of_state s1_review = 1
stage_of_state s2_running = 2
stage_of_state s2_review = 2
stage_of_state s3_running = 3
stage_of_state s3_review = 3
stage_of_state s4_running = 4
stage_of_state s4_review = 4
stage_of_state iterating = 4
stage_of_state complete = 4
stage_of_state error = 0
stage_of_state recovery_required = 0

stage_of_member : Option SessionState → ℕ
unfolding stage_of_state
stage_of_member none = 0
stage_of_member (some s) = stage_of_state s

unfoldable pub current_stage_id : ProjectContext → ℕ
unfolding stage_of_member
current_stage_id ctx = stage_of_member (parse_state (state_value ctx.current_state))

-- The loop of `reached_stage_ids` over the stages.
unfoldable pub max_reached : ProjectContext → ℕ → List ℕ → ℕ
max_reached ctx top [] = top
max_reached ctx top (stage ∷ stages) =
    max_reached ctx (if stage_output_exists ctx stage then max top stage else top) stages

unfoldable pub reached_stage_ids : ProjectContext → List ℕ
unfolding current_stage_id max_reached
reached_stage_ids ctx = range 1 (max_reached ctx (current_stage_id ctx) (1 ∷ 2 ∷ 3 ∷ 4 ∷ []))

unfoldable pub is_stage_actionable : ProjectContext → ℕ → Bool
unfolding reached_stage_ids
is_stage_actionable ctx stage = mem stage (reached_stage_ids ctx)

-- `future_stage_placeholders`: the stages alone, as the rest of an entry is fixed text.
unfoldable pub future_stages : ProjectContext → List ℕ
unfolding is_stage_actionable
future_stages ctx = keep_if (λ stage. not (is_stage_actionable ctx stage)) (1 ∷ 2 ∷ 3 ∷ 4 ∷ [])
