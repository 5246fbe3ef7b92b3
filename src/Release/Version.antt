-- ===== src/Release/Version.antt =====
-- core/evaluation_version.py. `hash` is SHA-256 over the sorted JSON of a payload; what is hashed is a
-- typed payload here. `re_search` is `re.search`.
use ai_workflow_premortem_pu.Prelude.{
  ℕ, ◌+◌, String, Bool, Option, none, some, List, [], ◌∷◌, map, sorted, string_leb, string_eq,
  nat_eq,
}
use ai_workflow_premortem_pu.Dict.{Dict, get, put}
use ai_workflow_premortem_pu.Model.Enums.{Tier, DataClassification}
use ai_workflow_premortem_pu.Model.Records.{
  FailureMode, Stage1Output, WorkflowNode, Stage2Output, StressTestResult, Stage3Output,
  TriggerMethod, Stage4Output,
}
use ai_workflow_premortem_pu.Model.Evaluation.{EvalCase, TargetDeployment}
use ai_workflow_premortem_pu.Model.Context.{ProjectContext, or_default, current_version}
use ai_workflow_premortem_pu.Risk.Assessment.{DigestPayload, risk_assessment_digest}
use ai_workflow_premortem_pu.Gates.Manifest.{RuleMeta, rule_manifest}

-- `_policy_content`: rule versions by rule name, then the two model versions.
pub record PolicyContent : Type 0 where
  pub rule_versions : Dict String String
  pub risk_model_version : String
  pub coverage_policy_version : String

-- `_critical_content`
pub record CriticalContent : Type 0 where
  pub project : String × String × String × DataClassification × Option String
  pub user_materials : List String
  pub input_versions : Dict String ℕ
  pub target_deployment : Option (String × String)
  pub policy : PolicyContent
  pub risk : String
  pub eval_cases : List (String × String)
  pub stage_1 : List (String × Tier × String × List String)
  pub stage_2 : List (String × String × String × String)
  pub stage_3 : List (String × String × String × List String)
  pub stage_4 : List (String × String × String)

pub data VersionPayload : Type 0 where
  text_payload : String → VersionPayload
  case_payload :
      (eval_id : String) (stage_id : ℕ) (target_node_id : Option String) (scenario_type : String)
      (input_payload : String) (expected_behavior : String) (pass_criteria : List String)
      (covered_failure_mode_ids : List String) (standard_version : ℕ)
      → VersionPayload
  content_payload : CriticalContent → VersionPayload
  version_payload : Dict ℕ ℕ → Dict String ℕ → String → VersionPayload

-- `_stage_versions`
unfoldable pub stage_versions : ProjectContext → Dict ℕ ℕ
stage_versions ctx =
    (1, current_version ctx 1)
    ∷ (2, current_version ctx 2)
    ∷ (3, current_version ctx 3)
    ∷ (4, current_version ctx 4)
    ∷ []

unfoldable pub bump_input_version : ProjectContext → String → ProjectContext × ℕ
bump_input_version ctx key =
    let value : ℕ = or_default (get key ctx.input_versions) 0 + 1 in
    (record ctx { input_versions = put key value ctx.input_versions }, value)

-- The versions of the rules, in the order of their names.
unfoldable pub policy_content : PolicyContent
unfolding rule_manifest
policy_content = record {
  rule_versions =
      map (λ (r : String × RuleMeta). (r.0, r.1.version))
        (sorted (λ (r s : String × RuleMeta). string_leb r.0 s.0) rule_manifest);
  risk_model_version = "1.0";
  coverage_policy_version = "1.0";
}

abbrev failure_modes_of : Option Stage1Output → List FailureMode
failure_modes_of none = []
failure_modes_of (some s) = s.failure_modes

abbrev workflow_nodes_of : Option Stage2Output → List WorkflowNode
workflow_nodes_of none = []
workflow_nodes_of (some s) = s.workflow_nodes

abbrev test_results_of : Option Stage3Output → List StressTestResult
test_results_of none = []
test_results_of (some s) = s.test_results

abbrev trigger_methods_of : Option Stage4Output → List TriggerMethod
trigger_methods_of none = []
trigger_methods_of (some s) = s.trigger_methods

abbrev deployment_content : Option TargetDeployment → Option (String × String)
deployment_content none = none
deployment_content (some d) = some (d.endpoint, d.version)

module _ (sha256 : VersionPayload → String) where
  unfoldable pub eval_case_digest : EvalCase → String
  eval_case_digest c = sha256 (
      case_payload c.eval_id c.stage_id c.target_node_id c.scenario_type
        (sha256 (text_payload c.input_payload)) (sha256 (text_payload c.expected_behavior))
        c.pass_criteria (sorted string_leb c.covered_failure_mode_ids) c.standard_version)

  module _ (re_search : String → String → Bool) (hash : DigestPayload → String) where
    unfoldable pub critical_content : ProjectContext → CriticalContent
    critical_content ctx = record {
      project = (
        ctx.research_target, ctx.domain, ctx.goal, ctx.data_classification,
        ctx.selected_scenario_id,
      );
      user_materials = map (λ m. sha256 (text_payload m)) ctx.user_materials;
      input_versions = ctx.input_versions;
      target_deployment = deployment_content ctx.target_deployment;
      policy = policy_content;
      risk = risk_assessment_digest re_search hash ctx;
      eval_cases =
          map (λ (c : EvalCase). (c.eval_id, eval_case_digest c))
            (sorted (λ (c d : EvalCase). string_leb c.eval_id d.eval_id) ctx.eval_cases);
      stage_1 =
          map
            (λ (m : FailureMode). (m.id, m.severity, m.category, sorted string_leb m.evidence_ids))
            (failure_modes_of ctx.stage_1_output);
      stage_2 =
          map
            (λ (n : WorkflowNode).
              (n.node_id, n.stage_name, n.model_assigned, sha256 (text_payload n.prompt_template)))
            (workflow_nodes_of ctx.stage_2_output);
      stage_3 =
          map
            (λ (r : StressTestResult). (
              r.tested_node_id,
              r.scenario_type,
              sha256 (text_payload r.test_input),
              r.pass_criteria,
            ))
            (test_results_of ctx.stage_3_output);
      stage_4 =
          map (λ (m : TriggerMethod). (m.node_id, m.model_or_mode, m.trigger_instruction))
            (trigger_methods_of ctx.stage_4_output);
    }

    -- The payload of the final digest of `build_evaluation_version`.
    unfoldable pub evaluation_payload : ProjectContext → VersionPayload
    evaluation_payload ctx =
        version_payload (stage_versions ctx) ctx.input_versions
          (sha256 (content_payload (critical_content ctx)))

    unfoldable pub current_evaluation_digest : ProjectContext → String
    current_evaluation_digest ctx = sha256 (evaluation_payload ctx)
