-- ===== src/Release/Coverage.antt =====
-- core/coverage/policy.py: the workflow nodes that must be covered under a risk tier. A Python set is
-- the list of its members; where the code sorts it, `distinct` drops repeated members first.
use ai_workflow_premortem_pu.Prelude.{
  String, Bool, true, false, Option, none, some, List, [], ◌∷◌, map, keep_if, any, mem, string_eq,
  if◌then◌else◌,
}
use ai_workflow_premortem_pu.Model.Enums.{Tier, low, critical, is_high_or_critical}
use ai_workflow_premortem_pu.Model.Records.{FailureMode, WorkflowNode, Stage2Output}
use ai_workflow_premortem_pu.Model.Context.{ProjectContext}
use ai_workflow_premortem_pu.Risk.Assessment.{DigestPayload, assess_project_risk}
use ai_workflow_premortem_pu.Release.Treatment.{failure_modes}

abbrev is_critical : Tier → Bool
is_critical critical = true
is_critical _ = false

-- The severities that count under a tier.
unfoldable pub counts_under : Tier → Tier → Bool
counts_under low severity = is_critical severity
counts_under _ severity = is_high_or_critical severity

abbrev nodes_of : Option Stage2Output → List WorkflowNode
nodes_of none = []
nodes_of (some s) = s.workflow_nodes

unfoldable pub distinct : List String → List String
distinct [] = []
distinct (s ∷ ss) = let rest = distinct ss in if mem s ss then rest else s ∷ rest

unfoldable pub high_risk_failure_mode_ids : ProjectContext → Tier → List String
high_risk_failure_mode_ids ctx tier =
    map (λ (m : FailureMode). m.id)
      (keep_if (λ (m : FailureMode). counts_under tier m.severity)
        (failure_modes ctx.stage_1_output))

unfoldable pub node_ids_addressing : List String → List WorkflowNode → List String
node_ids_addressing ids nodes =
    map (λ (n : WorkflowNode). n.node_id)
      (keep_if (λ (n : WorkflowNode). any (λ i. mem i n.failure_modes_addressed) ids) nodes)

module _ (re_search : String → String → Bool) (hash : DigestPayload → String) where
  -- `required_high_risk_node_ids(ctx)`, under the session's own tier.
  unfoldable pub required_high_risk_node_ids : ProjectContext → List String
  required_high_risk_node_ids ctx =
      node_ids_addressing
        (high_risk_failure_mode_ids ctx (assess_project_risk re_search hash ctx).effective_tier)
        (nodes_of ctx.stage_2_output)
