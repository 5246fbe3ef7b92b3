-- ===== src/Samples/Advances.antt =====
-- Tests of the stage advancement.
use ai_workflow_premortem_pu.Prelude.{
  ℕ, arith, ◌≡◌, ◌≢◌, refl, List, Bool, true, false, [], ◌∷◌, ◌++◌, ok, some, inl, inr, mem,
  All-append, nat_eq, ap,
}
use ai_workflow_premortem_pu.Samples.{base, edit_action, no_match, constant, factors}
use ai_workflow_premortem_pu.Dict.{get}
use ai_workflow_premortem_pu.Model.Enums.{high, known, s4_review, complete}
use ai_workflow_premortem_pu.Model.Context.{
  ProjectContext, append_audit_event, current_version, stage_output_exists,
}
use ai_workflow_premortem_pu.Workflow.State.{is_blocked, state_value}
use ai_workflow_premortem_pu.Gates.Basic.{
  action_blockers, missing_output_rule, stale_dependency_rule, action_state_rule, action_loop,
  parser_error_rule, safety_finding_rule, safety_loop, is_stale, stale_dependencies,
  recorded_dependencies, is_current,
}
use ai_workflow_premortem_pu.Gates.Engine.{
  GateRule, basic_rules, evaluate_stage_gate, StageGateResult, run_rules, run_rule, is_skipped,
  handle_rule, dedup, persistence_fails,
}
use ai_workflow_premortem_pu.Gates.Blocker.{
  make_blocker, pending_action, resolve_action, str, text_or_default,
}
use ai_workflow_premortem_pu.Gates.Manifest.{is_safety_bottom_line, get_rule_meta, rule_manifest}
use ai_workflow_premortem_pu.Gates.Ready.{IsReady}
use ai_workflow_premortem_pu.Gates.Keep.{
  Quiet, RuleKeeps, basic_rules-keep, evaluate_stage_gate-keeps,
}
use ai_workflow_premortem_pu.Advance.Offers.{Offers, build_stage_resolution_operations-Offers}
use ai_workflow_premortem_pu.Advance.Operations.{
  StageResolutionOperation, operation_from_blocker, operations_of, operations_loop,
  build_stage_resolution_operations,
}
use ai_workflow_premortem_pu.Advance.Coordinator.{
  StageAdvancementDecision, ready_to_advance, advance_stage_if_ready,
  build_stage_advancement_decision, with_result, with_operations, move_on, decision_of, moved,
  next_state_of, stage_lifecycle, state_index, stale_keys, blocking_ids,
}
use ai_workflow_premortem_pu.Advance.Coordinator.Moves.{
  Gate, KeepsState, Advances, advance_stage_if_ready-Advances,
}
use ai_workflow_premortem_pu.Advance.Coordinator.Complete.{
  Run, start, then_move, advance, Opens, Run-complete,
}
use ai_workflow_premortem_pu.Advance.Coordinator.Progress.{
  SameWork, Passes, advance_each, advance_each-complete,
}
use ai_workflow_premortem_pu.Gates.Expert.Verdicts.{expert_review_rule-state}
use ai_workflow_premortem_pu.Gates.Expert.{expert_review_rule, expert_review_evaluate}
use ai_workflow_premortem_pu.Stage.Revision.{out_of_range}
use ai_workflow_premortem_pu.Risk.Profile.{build_stage3_gate_profile, profile_of_tier}
use ai_workflow_premortem_pu.Risk.Assessment.{
  assess_project_risk, bound_override, build_assessment, resolve_factors,
}
use ai_workflow_premortem_pu.Risk.Rules.{
  evaluate_risk, tier_from_score, score_factors, collect_floor, high_floor, raise_when,
  critical_floor,
}

abbrev lenient : ProjectContext → Bool
lenient ctx = false

abbrev strict : ProjectContext → Bool
strict ctx = true

abbrev open_gate : Gate
open_gate = evaluate_stage_gate basic_rules [] lenient true

open_gate-KeepsState : KeepsState open_gate
open_gate-KeepsState c s =
    evaluate_stage_gate-keeps (λ (x : ProjectContext). x.current_state) basic_rules [] lenient true
      c s (basic_rules-keep (λ (x : ProjectContext). x.current_state))

abbrev third_gate : StageGateResult
third_gate = record { stage_id = 3; stage_output_version = 1; can_continue = true; blockers = [] }

abbrev third_decision : StageAdvancementDecision
third_decision = record {
  stage_id = 3;
  stage_output_version = 1;
  current_state = "s4_running";
  lifecycle = ready_to_advance;
  can_advance = true;
  advanced = true;
  next_state = some "s4_running";
  gate_result = third_gate;
  required_operations = [];
  blocking_action_ids = [];
  stale_stages = [];
  decision_reason = "approved by alice";
  hard_blockers_count = 0;
  overridable_blockers_count = 0;
  executable_operations_count = 0;
}

third_moves :
    advance_stage_if_ready open_gate base 3 "approved by alice" ≡ (ok third_decision, moved base 3)
unfolding evaluate_stage_gate run_rules run_rule is_skipped handle_rule basic_rules
    is_safety_bottom_line get_rule_meta rule_manifest get dedup persistence_fails
    missing_output_rule stage_output_exists stale_dependency_rule is_stale stale_dependencies
    recorded_dependencies action_state_rule action_loop parser_error_rule safety_finding_rule
    safety_loop current_version advance_stage_if_ready build_stage_advancement_decision
    operations_of operations_loop build_stage_resolution_operations with_result with_operations
    move_on decision_of next_state_of stage_lifecycle state_index stale_keys blocking_ids is_blocked
    state_value str text_or_default
third_moves = refl

advance_stage_if_ready-Advances_example :
    (result : StageGateResult) × ((open_gate base 3).0 ≡ ok result)
    × Advances open_gate 3 "approved by alice" base result third_decision (moved base 3)
advance_stage_if_ready-Advances_example =
    advance_stage_if_ready-Advances open_gate 3 "approved by alice" base (moved base 3)
      third_decision open_gate-KeepsState third_moves

ready : (stage : ℕ) → stage_output_exists base stage ≡ true → IsReady base stage
unfolding is_stale stale_dependencies recorded_dependencies get current_version
ready stage e = record {
  output = e;
  not_stale = refl;
  dependencies = tt;
  actions = tt;
  parsed = refl;
  findings = tt;
}

-- The expert-review rule wants nothing of a session whose tier is low.
abbrev further : List GateRule
further = expert_review_rule no_match (constant "d") "A9" ∷ []

further-Quiet : (d : ProjectContext) → SameWork base d → Quiet [] 3 d further
unfolding expert_review_rule expert_review_evaluate build_stage3_gate_profile profile_of_tier
    assess_project_risk build_assessment bound_override evaluate_risk tier_from_score score_factors
    resolve_factors collect_floor high_floor raise_when critical_floor
further-Quiet d same =
    let profile : d.risk_profile ≡ base.risk_profile =
      ap (λ (x : ProjectContext). x.risk_profile) same in
    let overrides : d.risk_overrides ≡ base.risk_overrides =
      ap (λ (x : ProjectContext). x.risk_overrides) same in
    let classification : d.data_classification ≡ base.data_classification =
      ap (λ (x : ProjectContext). x.data_classification) same in
    (inr (rw (profile, overrides, classification) refl), tt)

expert_is_skipped :
    (stage : ℕ)
    → mem stage (3 ∷ []) ≡ false
    → is_skipped [] stage (expert_review_rule no_match (constant "d") "A9") ≡ true
unfolding is_skipped expert_review_rule
expert_is_skipped stage h = rw h refl

advance_each-complete_example :
    (advance_each
      (evaluate_stage_gate (basic_rules ++ further) [] lenient true)
      ""
      (1 ∷ 2 ∷ 3 ∷ 4 ∷ [])
      base).current_state
    ≡ known complete
unfolding basic_rules stage_output_exists is_blocked
advance_each-complete_example =
    advance_each-complete further [] lenient "" base refl (passes 1 refl refl (skipped 1 refl))
      (passes 2 refl refl (skipped 2 refl)) (passes 3 refl refl further-Quiet)
      (passes 4 refl refl (skipped 4 refl))
  where
    skipped :
        (stage : ℕ)
        → mem stage (3 ∷ []) ≡ false
        → (d : ProjectContext) → SameWork base d
        → Quiet [] stage d further
    skipped stage h d same = (inl (expert_is_skipped stage h), tt)

    passes :
        (stage : ℕ)
        → out_of_range stage ≡ false
        → stage_output_exists base stage ≡ true
        → ((d : ProjectContext) → SameWork base d → Quiet [] stage d further)
        → Passes further [] lenient "" base stage
    passes stage range output quiet = record {
      in_range = range;
      ready = ready stage output;
      quiet = quiet;
    }

abbrev closing : ProjectContext
closing = record base { current_state = known s4_review }

-- A gate whose rules include one that writes to the session.
abbrev writing_rules : List GateRule
writing_rules = basic_rules ++ further

abbrev writing_gate : Gate
writing_gate = evaluate_stage_gate writing_rules [] lenient true

writing_gate-KeepsState : KeepsState writing_gate
writing_gate-KeepsState c s =
    evaluate_stage_gate-keeps (λ (x : ProjectContext). x.current_state) writing_rules [] lenient
      true c s
      (All-append (RuleKeeps (λ (x : ProjectContext). x.current_state)) basic_rules further
        (basic_rules-keep (λ (x : ProjectContext). x.current_state))
        (expert_review_rule-state no_match (constant "d") "A9", tt))

closed_session : (advance_stage_if_ready writing_gate closing 4 "").1.current_state ≡ known complete
unfolding evaluate_stage_gate run_rules run_rule is_skipped handle_rule basic_rules
    is_safety_bottom_line get_rule_meta rule_manifest get dedup persistence_fails
    missing_output_rule stage_output_exists stale_dependency_rule is_stale stale_dependencies
    recorded_dependencies action_state_rule action_loop parser_error_rule safety_finding_rule
    safety_loop current_version advance_stage_if_ready build_stage_advancement_decision
    operations_of operations_loop build_stage_resolution_operations with_result with_operations
    move_on decision_of moved append_audit_event next_state_of is_blocked expert_review_rule
closed_session = refl

is_closing : closing.current_state ≢ known complete
is_closing e = ground arith

Run-complete_example :
    (x : ProjectContext) × Run writing_gate closing x
    × (x.current_state ≢ known complete)
    × Opens writing_gate x
Run-complete_example =
    Run-complete writing_gate writing_gate-KeepsState
      (then_move start
        (advance closing (advance_stage_if_ready writing_gate closing 4 "").1 4 "" refl))
      is_closing closed_session

abbrev waiting : ProjectContext
waiting = record base { pending_actions = edit_action ∷ [] }

abbrev the_operation : StageResolutionOperation
the_operation = operation_from_blocker "s1" (
    make_blocker waiting 2 pending_action "action_state" high "workflow_node" (some "N1")
      (some "a1") resolve_action false)

offered : (build_stage_resolution_operations open_gate waiting 2).0 ≡ ok (the_operation ∷ [])
unfolding evaluate_stage_gate run_rules run_rule is_skipped handle_rule basic_rules
    is_safety_bottom_line get_rule_meta rule_manifest get dedup persistence_fails
    missing_output_rule stage_output_exists stale_dependency_rule is_stale stale_dependencies
    recorded_dependencies action_state_rule action_loop action_blockers parser_error_rule
    safety_finding_rule safety_loop current_version is_current operations_of operations_loop
    build_stage_resolution_operations
offered = refl

build_stage_resolution_operations-Offers_example :
    (result : StageGateResult) × ((open_gate waiting 2).0 ≡ ok result)
    × Offers (open_gate waiting 2).1.session_id result.blockers (the_operation ∷ [])
build_stage_resolution_operations-Offers_example =
    build_stage_resolution_operations-Offers open_gate waiting 2 (the_operation ∷ []) offered

-- The records of the gates cannot be written, and a rule writes to the session.
abbrev lost_gate : Gate
lost_gate = evaluate_stage_gate writing_rules [] strict false

abbrev critical_session : ProjectContext
critical_session = record waiting { risk_profile = some (factors 3) }
