-- ===== src/Samples/Revisions.antt =====
-- Tests of superseding, lineage, invalidation, revision and rollback.
use ai_workflow_premortem_pu.Prelude.{
  nat_eq, ℕ, ◌+◌, ◌-◌, ◌<◌, ◌≡◌, ◌≢◌, refl, arith, Bool, true, false, none, some, List, [], ◌∷◌,
  ◌++◌, ok, All, value_of, keep_if, ltb, leb, ◌&&◌, ◌||◌, if◌then◌else◌,
}
use ai_workflow_premortem_pu.Samples.{base, edit_action}
use ai_workflow_premortem_pu.Model.Enums.{known, is_pending}
use ai_workflow_premortem_pu.Model.Records.{PendingHumanAction}
use ai_workflow_premortem_pu.Model.Context.{
  ProjectContext, bump_stage_output_version, stage_output_exists,
}
use ai_workflow_premortem_pu.Dict.{get}
use ai_workflow_premortem_pu.Stage.Supersede.{is_rejected, supersede_actions_for_stage}
use ai_workflow_premortem_pu.Stage.Superseding.{
  untouched, Fates, supersede_actions_for_stage-settles,
}
use ai_workflow_premortem_pu.Stage.Revision.{
  range, downstream_has_state, invalidate_downstream_stages, revise_stage, rollback_stage,
  record_stage_dependency_versions, running_state, review_state,
}
use ai_workflow_premortem_pu.Stage.Lineage.{
  record_stage_dependency_versions-fresh, record_stage_dependency_versions-bump,
}
use ai_workflow_premortem_pu.Stage.Invalidation.{
  invalidate_downstream_stages-marks, revise_stage-blocks, rollback_stage-blocks,
}
use ai_workflow_premortem_pu.Gates.Basic.{is_stale, stale_dependency_rule}
use ai_workflow_premortem_pu.Gates.Engine.{
  basic_rules, evaluate_stage_gate, StageGateResult, persistence_fails,
}

abbrev waiting : ProjectContext
waiting = record base { pending_actions = edit_action ∷ [] }

abbrev settled : ProjectContext
settled = (supersede_actions_for_stage waiting 2 "edited" none 7).0

supersede_actions_for_stage-settles_example :
    Fates 2 "edited" none 7 waiting.pending_actions settled.pending_actions
    × All
        (λ (a : PendingHumanAction).
          a.stage_id ≡ 2 → (is_pending a.status ≡ false) × (is_rejected a ≡ false))
        settled.pending_actions
    × (keep_if (untouched 2 "edited" none 7) settled.pending_actions
        ≡ keep_if (untouched 2 "edited" none 7) waiting.pending_actions)
    × (supersede_actions_for_stage settled 2 "edited" none 7 ≡ (settled, 0))
supersede_actions_for_stage-settles_example =
    supersede_actions_for_stage-settles 2 "edited" none 7 waiting

abbrev built : ProjectContext
built = value_of (record_stage_dependency_versions base 3) base

built_ok : record_stage_dependency_versions base 3 ≡ ok built
unfolding record_stage_dependency_versions
built_ok = refl

record_stage_dependency_versions-fresh_example : stale_dependency_rule built 3 ≡ []
record_stage_dependency_versions-fresh_example =
    record_stage_dependency_versions-fresh base built 3 built_ok

base_output : stage_output_exists base 3 ≡ true
unfolding stage_output_exists
base_output = refl

base_version : get 2 base.stage_output_versions ≡ some 1
unfolding get
base_version = refl

record_stage_dependency_versions-bump_example :
    stale_dependency_rule (bump_stage_output_version built 2).0 3 ≢ []
record_stage_dependency_versions-bump_example =
    record_stage_dependency_versions-bump base built 3 2 1 built_ok base_output (omega arith)
      (omega arith) base_version

abbrev invalidated_base : ProjectContext × List ℕ
invalidated_base = value_of (invalidate_downstream_stages base 2 "edited" none 7) (base, [])

invalidated_ok :
    invalidate_downstream_stages base 2 "edited" none 7
    ≡ ok (invalidated_base.0, invalidated_base.1)
unfolding invalidate_downstream_stages
invalidated_ok = refl

invalidate_downstream_stages-marks_example :
    (invalidated_base.1 ≡ keep_if (downstream_has_state base) (range (2 + 1) (4 - 2)))
    × ((j : ℕ)
        → is_stale invalidated_base.0 j
          ≡ (ltb 2 j && leb j 4 && downstream_has_state base j || is_stale base j))
    × ((j : ℕ) → stage_output_exists invalidated_base.0 j ≡ stage_output_exists base j)
invalidate_downstream_stages-marks_example =
    invalidate_downstream_stages-marks base invalidated_base.0 2 "edited" none 7 invalidated_base.1
      invalidated_ok

abbrev lenient : ProjectContext → Bool
lenient ctx = false

abbrev no_answer : StageGateResult
no_answer = record { stage_id = 3; stage_output_version = 0; can_continue = true; blockers = [] }

abbrev revised : ProjectContext
revised = value_of (revise_stage base 2 "wrong" "redo" none 7) base

revised_ok : revise_stage base 2 "wrong" "redo" none 7 ≡ ok revised
unfolding revise_stage invalidate_downstream_stages
revised_ok = refl

abbrev gate_of : ProjectContext → StageGateResult
gate_of ctx = value_of (evaluate_stage_gate basic_rules [] lenient true ctx 3).0 no_answer

gate_answers :
    (ctx : ProjectContext)
    → (evaluate_stage_gate (basic_rules ++ []) [] lenient true ctx 3).0 ≡ ok (gate_of ctx)
unfolding evaluate_stage_gate basic_rules persistence_fails
gate_answers ctx = refl

revise_stage-blocks_example :
    (revised.current_state ≡ known (running_state 2)) × ((gate_of revised).can_continue ≡ false)
revise_stage-blocks_example =
    revise_stage-blocks base revised 2 "wrong" "redo" none 7 [] [] lenient true 3 (gate_of revised)
      revised_ok (omega arith) (omega arith) base_output (gate_answers revised)

abbrev rolled_back : ProjectContext
rolled_back = value_of (rollback_stage base 4 1 "wrong" true none 7) base

rolled_back_ok : rollback_stage base 4 1 "wrong" true none 7 ≡ ok rolled_back
unfolding rollback_stage invalidate_downstream_stages
rolled_back_ok = refl

rollback_stage-blocks_example :
    (1 < 4)
    × (rolled_back.current_state ≡ known (if true then running_state 1 else review_state 1))
    × (rolled_back.iteration_count ≡ 0)
    × ((gate_of rolled_back).can_continue ≡ false)
rollback_stage-blocks_example =
    rollback_stage-blocks base rolled_back 4 1 "wrong" true none 7 [] [] lenient true 3
      (gate_of rolled_back) rolled_back_ok (omega arith) (omega arith) (omega arith) base_output
      (gate_answers rolled_back)
