-- ===== src/Stage/Invalidation.antt =====
-- What a revision or a rollback (core/stage_revision_service.py) does to the stages after the one it
-- returns to.
use ai_workflow_premortem_pu.Prelude.{
  ℕ, ◌+◌, ◌-◌, ◌≤◌, ◌<◌, String, Bool, true, false, ◌&&◌, ◌||◌, Option, List, [], ◌∷◌, ◌++◌, ◌≡◌,
  refl, ap, ◌∙◌, arith, keep_if, ok, >>=-eq-ok, ltb, leb, concat, strip, nat_eq, if◌then◌else◌, inl,
  inr, Bool-cases, Outcome-cases,
}
use ai_workflow_premortem_pu.Dict.{put}
use ai_workflow_premortem_pu.Model.Enums.{known}
use ai_workflow_premortem_pu.Model.Context.{ProjectContext, append_audit_event, stage_output_exists}
use ai_workflow_premortem_pu.Stage.Supersede.{supersede_actions_for_stage}
use ai_workflow_premortem_pu.Stage.Superseding.{supersede_actions_for_stage-frame}
use ai_workflow_premortem_pu.Stage.Revision.{
  range, out_of_range, stage_key, downstream_has_state, invalidate_loop,
  invalidate_downstream_stages, running_state, review_state, revise_stage, supersede_stages,
  rollback_target, rollback_stage,
}
use ai_workflow_premortem_pu.Stage.Stale.{
  invalidate_loop-is_stale, invalidate_loop-keys, invalidate_loop-output,
}
use ai_workflow_premortem_pu.Gates.Basic.{is_stale}
use ai_workflow_premortem_pu.Gates.Ready.{IsReady}
use ai_workflow_premortem_pu.Gates.Engine.{
  GateRule, basic_rules, StageGateResult, evaluate_stage_gate,
}
use ai_workflow_premortem_pu.Gates.Verdict.{evaluate_stage_gate-IsReady}

invalidate-eq-ok :
    (ctx ctx' : ProjectContext) (changed : ℕ) (reason : String) (by : Option String) (now : ℕ)
    (keys : List ℕ)
    → invalidate_downstream_stages ctx changed reason by now ≡ ok (ctx', keys)
    → (out_of_range changed ≡ false)
      × (ctx' ≡ (invalidate_loop changed reason by now (range (changed + 1) (4 - changed)) ctx).0)
      × (keys ≡ (invalidate_loop changed reason by now (range (changed + 1) (4 - changed)) ctx).1)
unfolding invalidate_downstream_stages
invalidate-eq-ok ctx ctx' changed reason by now keys h = (ground arith, ground arith, ground arith)

-- Invalidating the stages after one returns exactly those that had state, in order, and marks exactly
-- them stale: any other stage is as stale as before. No output is dropped.
pub invalidate_downstream_stages-marks :
    (ctx ctx' : ProjectContext) (changed : ℕ) (reason : String) (by : Option String) (now : ℕ)
    (keys : List ℕ)
    → invalidate_downstream_stages ctx changed reason by now ≡ ok (ctx', keys)
    → (keys ≡ keep_if (downstream_has_state ctx) (range (changed + 1) (4 - changed)))
      × ((j : ℕ)
          → is_stale ctx' j
            ≡ (ltb changed j && leb j 4 && downstream_has_state ctx j || is_stale ctx j))
      × ((j : ℕ) → stage_output_exists ctx' j ≡ stage_output_exists ctx j)
invalidate_downstream_stages-marks ctx ctx' changed reason by now keys h =
    let (inside, e, k) = invalidate-eq-ok ctx ctx' changed reason by now keys h in
    let start = changed + 1 in
    let count = 4 - changed in
    (
      k ∙ invalidate_loop-keys changed reason by now start count ctx,
      λ j.
          rw e (invalidate_loop-is_stale changed reason by now start count ctx j ∙ bounds j inside),
      λ j. rw e (invalidate_loop-output changed reason by now (range start count) ctx j),
    )
  where
    bounds :
        (j : ℕ)
        → out_of_range changed ≡ false
        → (leb (changed + 1) j && ltb j (changed + 1 + (4 - changed)) && downstream_has_state ctx j
            || is_stale ctx j)
          ≡ (ltb changed j && leb j 4 && downstream_has_state ctx j || is_stale ctx j)
    bounds j inside = ground arith

supersede-keeps :
    (ctx : ProjectContext) (stage : ℕ) (reason : String) (by : Option String) (now j : ℕ)
    → let after = (supersede_actions_for_stage ctx stage reason by now).0 in
      (stage_output_exists after j ≡ stage_output_exists ctx j)
      × (is_stale after j ≡ is_stale ctx j)
unfolding stage_output_exists is_stale
supersede-keeps ctx stage reason by now j =
    rw (supersede_actions_for_stage-frame stage reason by now ctx) (refl, refl)

supersede_stages-keeps :
    (ctx : ProjectContext) (stages : List ℕ) (reason : String) (by : Option String) (now j : ℕ)
    → stage_output_exists (supersede_stages reason by now stages ctx) j ≡ stage_output_exists ctx j
unfolding supersede_stages
supersede_stages-keeps ctx [] reason by now j = refl
supersede_stages-keeps ctx (s ∷ ss) reason by now j =
    supersede_stages-keeps (supersede_actions_for_stage ctx s reason by now).0 ss reason by now j
    ∙ (supersede-keeps ctx s reason by now j).0

-- A stage past the changed one that had an output is stale after the invalidation.
invalidated_is_stale :
    (ctx ctx' : ProjectContext) (changed : ℕ) (reason : String) (by : Option String) (now j : ℕ)
    (keys : List ℕ)
    → invalidate_downstream_stages ctx changed reason by now ≡ ok (ctx', keys)
    → changed < j
    → j ≤ 4
    → stage_output_exists ctx j ≡ true
    → is_stale ctx' j ≡ true
unfolding downstream_has_state
invalidated_is_stale ctx ctx' changed reason by now j keys h low high out =
    let stale = (invalidate_downstream_stages-marks ctx ctx' changed reason by now keys h).1 j in
    ground (arith, stale)

not_ready_blocks :
    (more : List GateRule) (disabled : List String) (strict : ProjectContext → Bool)
    (persisted : Bool) (ctx : ProjectContext) (j : ℕ) (result : StageGateResult)
    → is_stale ctx j ≡ true
    → (evaluate_stage_gate (basic_rules ++ more) disabled strict persisted ctx j).0 ≡ ok result
    → result.can_continue ≡ false
not_ready_blocks more disabled strict persisted ctx j result stale answer =
    elim (Bool-cases result.can_continue) [
      | inl t ↦
          let gate =
            (evaluate_stage_gate-IsReady more disabled strict persisted ctx j result answer).0 t in
          let ready : IsReady ctx j = gate.0 in let fresh = ready.not_stale in cc
      | inr f ↦ f
    ]

pub revise-eq-ok :
    (ctx ctx' : ProjectContext) (stage : ℕ) (reason note : String) (by : Option String) (now : ℕ)
    → revise_stage ctx stage reason note by now ≡ ok ctx'
    → (r : ProjectContext × List ℕ) × (invalidate_downstream_stages
          (supersede_actions_for_stage ctx stage reason by now).0
          stage
          reason
          by
          now
        ≡ ok r)
      × (ctx'
          ≡ append_audit_event
              (record r.0 {
                current_state = known (running_state stage);
                review_notes = put stage (strip (concat "revise: " note)) r.0.review_notes;
                iteration_count = r.0.iteration_count + 1;
              })
              "user"
              "stage_revision_requested"
              "stage"
              (stage_key stage))
unfolding revise_stage
revise-eq-ok ctx ctx' stage reason note by now h =
    let (r, found, rest) =
      >>=-eq-ok
        (invalidate_downstream_stages (supersede_actions_for_stage ctx stage reason by now).0 stage
          reason by now)
        _ h in
    (r, found, ground arith)

appended-is_stale :
    (ctx : ProjectContext) (j : ℕ) (event target : String)
    → is_stale (append_audit_event ctx "user" event "stage" target) j ≡ is_stale ctx j
unfolding is_stale append_audit_event
appended-is_stale ctx j event target = refl

-- After a stage is revised, the session runs that stage again, and the gate of every later stage that
-- has an output is closed, whichever rules are registered after the first five or disabled.
pub revise_stage-blocks :
    (ctx ctx' : ProjectContext) (stage : ℕ) (reason note : String) (by : Option String) (now : ℕ)
    (more : List GateRule) (disabled : List String) (strict : ProjectContext → Bool)
    (persisted : Bool) (j : ℕ) (result : StageGateResult)
    → revise_stage ctx stage reason note by now ≡ ok ctx'
    → stage < j
    → j ≤ 4
    → stage_output_exists ctx j ≡ true
    → (evaluate_stage_gate (basic_rules ++ more) disabled strict persisted ctx' j).0 ≡ ok result
    → (ctx'.current_state ≡ known (running_state stage)) × (result.can_continue ≡ false)
unfolding append_audit_event is_stale
revise_stage-blocks ctx ctx' stage reason note by now more disabled strict persisted j result h low
      high out answer =
    let (r, found, e) = revise-eq-ok ctx ctx' stage reason note by now h in
    let before = (supersede_actions_for_stage ctx stage reason by now).0 in
    let stale =
      invalidated_is_stale before r.0 stage reason by now j r.1 found low high
        ((supersede-keeps ctx stage reason by now j).0 ∙ out) in
    (
      ap (λ (c : ProjectContext). c.current_state) e,
      not_ready_blocks more disabled strict persisted ctx' j result
          (ap (λ (c : ProjectContext). is_stale c j) e ∙ stale) answer,
    )

rollback-eq-ok :
    (ctx ctx' : ProjectContext) (from_stage to_stage : ℕ) (reason : String) (running : Bool)
    (by : Option String) (now : ℕ)
    → rollback_stage ctx from_stage to_stage reason running by now ≡ ok ctx'
    → 1 ≤ to_stage
    → (r : ProjectContext × List ℕ) × (invalidate_downstream_stages
          (supersede_stages reason by now (range (to_stage + 1) (from_stage - to_stage)) ctx)
          to_stage
          reason
          by
          now
        ≡ ok r)
      × (to_stage < from_stage)
      × (ctx'
          ≡ append_audit_event
              (record r.0 {
                current_state = known (rollback_target to_stage running);
                iteration_count = 0;
              })
              "user"
              "stage_rollback_requested"
              "stage"
              (stage_key from_stage))
unfolding rollback_stage
rollback-eq-ok ctx ctx' from_stage to_stage reason running by now h low =
    let before =
      supersede_stages reason by now (range (to_stage + 1) (from_stage - to_stage)) ctx in
    elim (Outcome-cases (invalidate_downstream_stages before to_stage reason by now)) [
      | inl (r, found) ↦ (r, found, ground (arith, found), ground (arith, found))
      | inr (e, lost) ↦ absurd (ground (arith, lost))
    ]

-- A rollback to a stage goes strictly back, puts the session in that stage's running or review state
-- and the iteration counter at 0, and closes the gate of every later stage that has an output,
-- whichever rules are registered after the first five or disabled.
pub rollback_stage-blocks :
    (ctx ctx' : ProjectContext) (from_stage to_stage : ℕ) (reason : String) (running : Bool)
    (by : Option String) (now : ℕ) (more : List GateRule) (disabled : List String)
    (strict : ProjectContext → Bool) (persisted : Bool) (j : ℕ) (result : StageGateResult)
    → rollback_stage ctx from_stage to_stage reason running by now ≡ ok ctx'
    → 1 ≤ to_stage
    → to_stage < j
    → j ≤ 4
    → stage_output_exists ctx j ≡ true
    → (evaluate_stage_gate (basic_rules ++ more) disabled strict persisted ctx' j).0 ≡ ok result
    → (to_stage < from_stage)
      × (ctx'.current_state
          ≡ known (if running then running_state to_stage else review_state to_stage))
      × (ctx'.iteration_count ≡ 0)
      × (result.can_continue ≡ false)
unfolding append_audit_event is_stale rollback_target
rollback_stage-blocks ctx ctx' from_stage to_stage reason running by now more disabled strict
      persisted j result h start low high out answer =
    let (r, found, back, e) =
      rollback-eq-ok ctx ctx' from_stage to_stage reason running by now h start in
    let stages = range (to_stage + 1) (from_stage - to_stage) in
    let before = supersede_stages reason by now stages ctx in
    let stale =
      invalidated_is_stale before r.0 to_stage reason by now j r.1 found low high
        (supersede_stages-keeps ctx stages reason by now j ∙ out) in
    (
      back,
      ap (λ (c : ProjectContext). c.current_state) e ∙ ground arith,
      ap (λ (c : ProjectContext). c.iteration_count) e,
      not_ready_blocks more disabled strict persisted ctx' j result
          (ap (λ (c : ProjectContext). is_stale c j) e ∙ stale) answer,
    )
