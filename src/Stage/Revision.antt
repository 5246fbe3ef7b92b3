-- ===== src/Stage/Revision.antt =====
-- core/stage_revision_service.py. `now` is the clock. A raised call's context is not saved by the
-- service that made it, so only the error comes back.
use ai_workflow_premortem_pu.Prelude.{
  ℕ, zero, suc, ◌+◌, ◌-◌, String, Bool, true, not, ◌||◌, Option, List, [], ◌∷◌, is_empty, any,
  non_empty, strip, concat, Outcome, ok, raise_if, ◌>>=◌, ◌>>◌, ltb, leb, ◌==◌, nat_eq,
  if◌then◌else◌,
}
use ai_workflow_premortem_pu.Dict.{Dict, get, put, pop}
use ai_workflow_premortem_pu.Model.Enums.{
  SessionState, init, s1_running, s1_review, s2_running, s2_review, s3_running, s3_review,
  s4_running, s4_review, known,
}
use ai_workflow_premortem_pu.Model.Context.{
  ProjectContext, append_audit_event, or_default, current_version, stage_output_exists,
}
use ai_workflow_premortem_pu.Stage.Supersede.{supersede_actions_for_stage}

pub data StageError : Type 0 where
  bad_stage bad_rollback : StageError

-- `range(start, start + count)`
abbrev pub range : ℕ → ℕ → List ℕ
range start zero = []
range start (suc count) = start ∷ range (suc start) count

-- `stage < 1 or stage > 4`
abbrev pub out_of_range : ℕ → Bool
out_of_range stage = ltb stage 1 || ltb 4 stage

-- The name of a stage's key in an audit event, `f"stage_{stage}"`, for the stages that exist.
unfoldable pub stage_key : ℕ → String
stage_key stage =
    if stage == 1
    then "stage_1"
    else if stage == 2
    then "stage_2"
    else if stage == 3
    then "stage_3"
    else "stage_4"

unfoldable pub upstream_versions : ProjectContext → List ℕ → Dict ℕ ℕ
upstream_versions ctx [] = []
upstream_versions ctx (s ∷ ss) = (s, current_version ctx s) ∷ upstream_versions ctx ss

unfoldable pub record_stage_dependency_versions :
    ProjectContext → ℕ → Outcome StageError ProjectContext
record_stage_dependency_versions ctx stage = do
  raise_if (out_of_range stage) bad_stage
  ok (
      append_audit_event
        (record ctx {
          stage_dependency_versions =
              put stage (upstream_versions ctx (range 1 (stage - 1))) ctx.stage_dependency_versions;
          stage_staleness = pop stage ctx.stage_staleness;
        })
        "system" "stage_dependency_versions_recorded" "stage" (stage_key stage))

unfoldable pub downstream_has_state : ProjectContext → ℕ → Bool
downstream_has_state ctx stage =
    stage_output_exists ctx stage
    || not (is_empty (or_default (get stage ctx.stage_dependency_versions) []))
    || non_empty (or_default (get stage ctx.parser_errors) "")
    || any (λ a. a.stage_id == stage) ctx.pending_actions

-- The body of the loop of `invalidate_downstream_stages`, past its `continue`.
unfoldable pub mark_stale : ℕ → String → Option String → ℕ → ℕ → ProjectContext → ProjectContext
mark_stale changed reason by now downstream ctx =
    let ctx1 : ProjectContext = record ctx {
      stage_staleness =
          put downstream
            (record {
              stale = true;
              because_stage = changed;
              reason = reason;
              stale_superseded_by = by;
            })
            ctx.stage_staleness;
      parser_errors = pop downstream ctx.parser_errors;
    } in
    let ctx2 =
      (supersede_actions_for_stage ctx1 downstream (concat "Downstream stage marked stale: " reason)
        by now).0 in
    append_audit_event ctx2 "system" "downstream_stage_marked_stale" "stage" (stage_key downstream)

unfoldable pub invalidate_loop :
    ℕ → String → Option String → ℕ → List ℕ → ProjectContext → ProjectContext × List ℕ
invalidate_loop changed reason by now [] ctx = (ctx, [])
invalidate_loop changed reason by now (d ∷ ds) ctx =
    let marked = downstream_has_state ctx d in
    let (ctx', keys) =
      invalidate_loop changed reason by now ds
        (if marked then mark_stale changed reason by now d ctx else ctx) in
    (ctx', if marked then d ∷ keys else keys)

unfoldable pub invalidate_downstream_stages :
    ProjectContext → ℕ → String → Option String → ℕ → Outcome StageError (ProjectContext × List ℕ)
invalidate_downstream_stages ctx changed reason by now = do
  raise_if (out_of_range changed) bad_stage
  ok (invalidate_loop changed reason by now (range (changed + 1) (4 - changed)) ctx)

-- The dicts `running_states` and its review counterpart, at a stage that `stage_key` accepts.
unfoldable pub running_state : ℕ → SessionState
running_state stage =
    if stage == 1
    then s1_running
    else if stage == 2
    then s2_running
    else if stage == 3
    then s3_running
    else s4_running

unfoldable pub review_state : ℕ → SessionState
review_state stage =
    if stage == 1
    then s1_review
    else if stage == 2
    then s2_review
    else if stage == 3
    then s3_review
    else s4_review

unfoldable pub revise_stage :
    ProjectContext → ℕ → String → String → Option String → ℕ → Outcome StageError ProjectContext
revise_stage ctx stage reason note by now =
    let ctx1 = (supersede_actions_for_stage ctx stage reason by now).0 in
    do
      invalidated ← invalidate_downstream_stages ctx1 stage reason by now
      let ctx2 = invalidated.0
      ok (
          append_audit_event
            (record ctx2 {
              current_state = known (running_state stage);
              review_notes = put stage (strip (concat "revise: " note)) ctx2.review_notes;
              iteration_count = ctx2.iteration_count + 1;
            })
            "user" "stage_revision_requested" "stage" (stage_key stage))

unfoldable pub supersede_stages :
    String → Option String → ℕ → List ℕ → ProjectContext → ProjectContext
supersede_stages reason by now [] ctx = ctx
supersede_stages reason by now (s ∷ ss) ctx =
    supersede_stages reason by now ss (supersede_actions_for_stage ctx s reason by now).0

unfoldable pub rollback_target : ℕ → Bool → SessionState
rollback_target to_stage target_running =
    if to_stage == 0
    then init
    else if target_running
    then running_state to_stage
    else review_state to_stage

-- `to_stage` is a natural number here, so the test `to_stage < 0` has no case.
unfoldable pub rollback_stage :
    ProjectContext → ℕ → ℕ → String → Bool → Option String → ℕ → Outcome StageError ProjectContext
rollback_stage ctx from_stage to_stage reason target_running by now =
    let ctx1 = supersede_stages reason by now (range (to_stage + 1) (from_stage - to_stage)) ctx in
    do
      raise_if (leb from_stage to_stage) bad_rollback
      ctx2 ←
          (if leb 1 to_stage
            then (do
              invalidated ← invalidate_downstream_stages ctx1 to_stage reason by now
              ok invalidated.0)
            else ok ctx1)
      raise_if (out_of_range from_stage) bad_stage
      ok (
          append_audit_event
            (record ctx2 {
              current_state = known (rollback_target to_stage target_running);
              iteration_count = 0;
            })
            "user" "stage_rollback_requested" "stage" (stage_key from_stage))
