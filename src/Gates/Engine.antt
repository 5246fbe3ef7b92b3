-- ===== src/Gates/Engine.antt =====
-- core/gates/engine.py: the engine that runs the registered rules on a stage. A rule may change the
-- context and may raise; the store that keeps the evaluation records answers with `persisted`.
use ai_workflow_premortem_pu.Prelude.{
  ℕ, String, Bool, true, false, not, ◌&&◌, ◌||◌, List, [], ◌∷◌, ◌++◌, none, some, is_empty,
  is_blank, mem, concat, Outcome, ok, raised, nat_eq, string_eq, if◌then◌else◌,
}
use ai_workflow_premortem_pu.Model.Enums.{critical}
use ai_workflow_premortem_pu.Model.Context.{ProjectContext, current_version}
use ai_workflow_premortem_pu.Stage.Revision.{out_of_range}
use ai_workflow_premortem_pu.Gates.Blocker.{
  gate_rule_error, gate_data_error, rerun_stage, retry_gate_persistence, StageBlocker, str,
}
use ai_workflow_premortem_pu.Gates.Manifest.{is_safety_bottom_line}
use ai_workflow_premortem_pu.Gates.Basic.{
  missing_output_rule, stale_dependency_rule, action_state_rule, parser_error_rule,
  safety_finding_rule,
}

-- `GateDataError`, and any other exception.
pub data RuleFault : Type 0 where
  data_fault any_fault : RuleFault

pub record GateRule : Type 0 where
  pub rule_id : String
  pub applies_to_stages : List ℕ
  pub evaluate : ProjectContext → ℕ → Outcome RuleFault (List StageBlocker) × ProjectContext

-- A rule that reads the context alone and does not raise.
abbrev pub pure_rule : String → List ℕ → (ProjectContext → ℕ → List StageBlocker) → GateRule
pure_rule id stages f = record {
  rule_id = id;
  applies_to_stages = stages;
  evaluate = λ ctx stage. (ok (f ctx stage), ctx);
}

abbrev pub every_stage : List ℕ
every_stage = 1 ∷ 2 ∷ 3 ∷ 4 ∷ []

-- The first five of `registered_rules()`.
unfoldable pub basic_rules : List GateRule
basic_rules =
    pure_rule "missing_output" every_stage missing_output_rule
    ∷ pure_rule "stale_dependency" every_stage stale_dependency_rule
    ∷ pure_rule "action_state" every_stage action_state_rule
    ∷ pure_rule "parser_error" every_stage parser_error_rule
    ∷ pure_rule "safety_finding" every_stage safety_finding_rule
    ∷ []

unfoldable pub rule_error_blocker : ProjectContext → ℕ → String → Bool → StageBlocker
rule_error_blocker ctx stage rule_id data_error =
    if data_error
    then record {
      blocker_id = concat "S" (concat (str stage) (concat "_GATE_DATA_ERROR_" rule_id));
      stage_id = stage;
      stage_output_version = current_version ctx stage;
      blocker_type = gate_data_error;
      rule_id = rule_id;
      severity = critical;
      source_type = some "gate_evaluation_records";
      source_id = some rule_id;
      action_id = none;
      required_resolution = retry_gate_persistence;
      can_be_overridden_by_approval = false;
    }
    else record {
      blocker_id = concat "S" (concat (str stage) (concat "_GATE_RULE_ERROR_" rule_id));
      stage_id = stage;
      stage_output_version = current_version ctx stage;
      blocker_type = gate_rule_error;
      rule_id = rule_id;
      severity = critical;
      source_type = some "gate_rule";
      source_id = some rule_id;
      action_id = none;
      required_resolution = rerun_stage;
      can_be_overridden_by_approval = false;
    }

-- The `try` block: an exception becomes a blocker.
unfoldable pub handle_rule :
    String
    → ℕ
    → Outcome RuleFault (List StageBlocker) × ProjectContext
    → List StageBlocker × ProjectContext
handle_rule rule_id stage (ok blockers, ctx) = (blockers, ctx)
handle_rule rule_id stage (raised data_fault, ctx) =
    (rule_error_blocker ctx stage rule_id true ∷ [], ctx)
handle_rule rule_id stage (raised any_fault, ctx) =
    (rule_error_blocker ctx stage rule_id false ∷ [], ctx)

-- A rule is skipped for a stage it does not apply to, and where it is disabled and no safety
-- bottom line.
unfoldable pub is_skipped : List String → ℕ → GateRule → Bool
is_skipped disabled stage rule =
    not (mem stage rule.applies_to_stages)
    || mem rule.rule_id disabled && not (is_safety_bottom_line rule.rule_id)

unfoldable pub run_rule :
    List String → ℕ → GateRule → ProjectContext → List StageBlocker × ProjectContext
unfolding is_skipped handle_rule
run_rule disabled stage rule ctx =
    if is_skipped disabled stage rule
    then ([], ctx)
    else handle_rule rule.rule_id stage (rule.evaluate ctx stage)

unfoldable pub run_rules :
    List String → ℕ → List GateRule → ProjectContext → List StageBlocker × ProjectContext
run_rules disabled stage [] ctx = ([], ctx)
run_rules disabled stage (rule ∷ rules) ctx =
    let (blockers, ctx1) = run_rule disabled stage rule ctx in
    let (more, ctx2) = run_rules disabled stage rules ctx1 in (blockers ++ more, ctx2)

-- The loop that drops later blockers with a seen identifier.
unfoldable pub dedup : List String → List StageBlocker → List StageBlocker
dedup seen [] = []
dedup seen (b ∷ bs) =
    let fresh = b ∷ dedup (b.blocker_id ∷ seen) bs in
    let rest = dedup seen bs in if mem b.blocker_id seen then rest else fresh

pub record StageGateResult : Type 0 where
  pub stage_id : ℕ
  pub stage_output_version : ℕ
  pub can_continue : Bool
  pub blockers : List StageBlocker

pub data GateError : Type 0 where
  bad_stage gate_data_lost : GateError

-- `_try_persist_gate_evaluation` raises only for strict sessions; a session without an identifier
-- writes nothing.
unfoldable pub persistence_fails : Bool → Bool → ProjectContext → Bool
persistence_fails strict persisted ctx = strict && not (is_blank ctx.session_id) && not persisted

-- `evaluate_stage_gate` over the registered rules. `strict` is `requires_strict_structured_output`.
unfoldable pub evaluate_stage_gate :
    List GateRule
    → List String
    → (ProjectContext → Bool)
    → Bool
    → ProjectContext
    → ℕ
    → Outcome GateError StageGateResult × ProjectContext
evaluate_stage_gate rules disabled strict persisted ctx stage =
    let (found, ctx') = run_rules disabled stage rules ctx in
    let blockers = dedup [] found in
    let result : StageGateResult = record {
      stage_id = stage;
      stage_output_version = current_version ctx' stage;
      can_continue = is_empty blockers;
      blockers = blockers;
    } in
    if out_of_range stage
    then (raised bad_stage, ctx)
    else if persistence_fails (strict ctx') persisted ctx'
    then (raised gate_data_lost, ctx')
    else (ok result, ctx')
