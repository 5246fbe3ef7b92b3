-- ===== src/Samples/Stages.antt =====
-- Tests of the gates and of stage revision.
use ai_workflow_premortem_pu.Gates.BottomLine.{
  others, ProtectedRan, evaluate_stage_gate-bottom_line,
}
use ai_workflow_premortem_pu.Prelude.{
  All, ◌++◌, some, sorted, insert_sorted, ◌≡◌, refl, ◌↔◌, Bool, true, false, [], ◌∷◌, ok,
}
use ai_workflow_premortem_pu.Samples.{base, mode}
use ai_workflow_premortem_pu.Model.Enums.{is_high_or_critical}
use ai_workflow_premortem_pu.Model.Records.{FailureMode, WorkflowNode}
use ai_workflow_premortem_pu.Gates.Claims.{
  first_ids, cited_evidence, stage1_evidence_gap_rule, stage1_evidence_gap_evaluate, high_ids,
  addresses_any, is_covered, uncovered_ids, stage2_policy_gap_rule, stage2_policy_gap_evaluate,
}
use ai_workflow_premortem_pu.Gates.Claims.Evidence.{Supported, evaluate_stage_gate-Supported}
use ai_workflow_premortem_pu.Gates.Claims.Oversight.{Governed, evaluate_stage_gate-Governed}
use ai_workflow_premortem_pu.Model.Context.{ProjectContext, current_version, stage_output_exists}
use ai_workflow_premortem_pu.Dict.{get}
use ai_workflow_premortem_pu.Gates.Engine.{
  basic_rules, evaluate_stage_gate, StageGateResult, run_rules, run_rule, is_skipped, handle_rule,
  dedup, persistence_fails,
}
use ai_workflow_premortem_pu.Gates.Basic.{
  missing_output_rule, stale_dependency_rule, action_state_rule, action_loop, parser_error_rule,
  safety_finding_rule, safety_loop, is_stale, stale_dependencies, recorded_dependencies,
}
use ai_workflow_premortem_pu.Gates.Manifest.{is_safety_bottom_line, get_rule_meta, rule_manifest}
use ai_workflow_premortem_pu.Gates.Ready.{IsReady}
use ai_workflow_premortem_pu.Gates.Fail.{Clear, evaluate_stage_gate-Clear}
use ai_workflow_premortem_pu.Gates.Verdict.{evaluate_stage_gate-IsReady}

abbrev clear_gate : StageGateResult
clear_gate = record { stage_id = 2; stage_output_version = 1; can_continue = true; blockers = [] }

abbrev lenient : ProjectContext → Bool
lenient ctx = false

base_gate : (evaluate_stage_gate basic_rules [] lenient true base 2).0 ≡ ok clear_gate
unfolding evaluate_stage_gate run_rules run_rule is_skipped handle_rule basic_rules
    is_safety_bottom_line get_rule_meta rule_manifest get dedup persistence_fails
    missing_output_rule stage_output_exists stale_dependency_rule is_stale stale_dependencies
    recorded_dependencies action_state_rule action_loop parser_error_rule safety_finding_rule
    safety_loop current_version
base_gate = refl

evaluate_stage_gate-IsReady_example :
    (clear_gate.can_continue ≡ true) ↔ (IsReady base 2 × Clear [] 2 [] base)
unfolding basic_rules
evaluate_stage_gate-IsReady_example =
    evaluate_stage_gate-IsReady [] [] lenient true base 2 clear_gate base_gate

evaluate_stage_gate-Clear_example :
    ((clear_gate.can_continue ≡ true) ↔ Clear [] 2 basic_rules base)
    × ((clear_gate.blockers ≡ []) ↔ Clear [] 2 basic_rules base)
evaluate_stage_gate-Clear_example =
    evaluate_stage_gate-Clear basic_rules [] lenient true base 2 clear_gate base_gate

evaluate_stage_gate-bottom_line_example :
    (evaluate_stage_gate basic_rules ("action_state" ∷ "x" ∷ []) lenient true base 2
      ≡ evaluate_stage_gate basic_rules (others ("action_state" ∷ "x" ∷ [])) lenient true base 2)
    × ((result : StageGateResult)
        → (evaluate_stage_gate basic_rules ("action_state" ∷ "x" ∷ []) lenient true base 2).0
          ≡ ok result
        → result.can_continue ≡ true
        → ProtectedRan ("action_state" ∷ "x" ∷ []) 2 basic_rules base)
evaluate_stage_gate-bottom_line_example =
    evaluate_stage_gate-bottom_line ("action_state" ∷ "x" ∷ []) 2 basic_rules lenient true base

-- A high failure mode with verified evidence, and a node that addresses it under a policy.
abbrev claimed_mode : FailureMode
claimed_mode = record mode { evidence_ids = "E1" ∷ "E1" ∷ [] }

abbrev answering_node : WorkflowNode
answering_node = record {
  node_id = "N1";
  stage_name = "";
  model_assigned = "";
  prompt_template = "";
  failure_modes_addressed = "FM-1" ∷ [];
  has_oversight_policy = true;
}

abbrev claimed : ProjectContext
claimed = record base {
  stage_1_output = some (record { failure_modes = claimed_mode ∷ []; direct_conclusion = "" });
  stage_2_output = some (record { workflow_nodes = answering_node ∷ [] });
  evidence_sources = record { evidence_id = "E1"; verified = true } ∷ [];
}

abbrev first_gate : StageGateResult
first_gate = record { stage_id = 1; stage_output_version = 1; can_continue = true; blockers = [] }

claimed_gate :
    (evaluate_stage_gate
      (basic_rules ++ ([] ++ stage1_evidence_gap_rule ∷ []))
      []
      lenient
      true
      claimed
      1).0
    ≡ ok first_gate
unfolding evaluate_stage_gate run_rules run_rule is_skipped handle_rule basic_rules
    is_safety_bottom_line get_rule_meta rule_manifest get dedup persistence_fails
    missing_output_rule stage_output_exists stale_dependency_rule is_stale stale_dependencies
    recorded_dependencies action_state_rule action_loop parser_error_rule safety_finding_rule
    safety_loop current_version stage1_evidence_gap_rule stage1_evidence_gap_evaluate first_ids
    cited_evidence
claimed_gate = refl

evaluate_stage_gate-Supported_example :
    IsReady claimed 1
    × All
        (λ (m : FailureMode). is_high_or_critical m.severity ≡ true → Supported claimed m)
        (claimed_mode ∷ [])
evaluate_stage_gate-Supported_example =
    evaluate_stage_gate-Supported claimed [] [] [] lenient true first_gate tt refl claimed_gate refl

answered_gate :
    (evaluate_stage_gate
      (basic_rules ++ ([] ++ stage2_policy_gap_rule ∷ []))
      []
      lenient
      true
      claimed
      2).0
    ≡ ok clear_gate
unfolding evaluate_stage_gate run_rules run_rule is_skipped handle_rule basic_rules
    is_safety_bottom_line get_rule_meta rule_manifest get dedup persistence_fails
    missing_output_rule stage_output_exists stale_dependency_rule is_stale stale_dependencies
    recorded_dependencies action_state_rule action_loop parser_error_rule safety_finding_rule
    safety_loop current_version stage2_policy_gap_rule stage2_policy_gap_evaluate first_ids high_ids
    addresses_any is_covered uncovered_ids sorted insert_sorted
answered_gate = refl

evaluate_stage_gate-Governed_example :
    IsReady claimed 2 × Governed (claimed_mode ∷ []) (answering_node ∷ [])
evaluate_stage_gate-Governed_example =
    evaluate_stage_gate-Governed claimed [] [] [] lenient true clear_gate
      (record { failure_modes = claimed_mode ∷ []; direct_conclusion = "" })
      (record { workflow_nodes = answering_node ∷ [] }) tt refl answered_gate refl refl refl
