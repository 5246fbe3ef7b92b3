-- ===== src/Gates/Claims.antt =====
-- The rules on what stage 1 claims and stage 2 answers: core/gates/rules/stage1_evidence_gap.py and
-- core/gates/rules/stage2_policy_gap.py.
pub mod Evidence
pub mod Oversight
use ai_workflow_premortem_pu.Prelude.{
  ℕ, String, Bool, true, false, not, ◌&&◌, Option, none, some, List, [], ◌∷◌, ◌++◌, map, keep_if,
  any, mem, last, is_some, is_empty, sorted, string_leb, nat_eq, string_eq, ◌==◌, if◌then◌else◌,
}
use ai_workflow_premortem_pu.Model.Enums.{Tier, high, is_high_or_critical}
use ai_workflow_premortem_pu.Model.Records.{FailureMode, WorkflowNode, Stage1Output, Stage2Output}
use ai_workflow_premortem_pu.Model.Evaluation.{EvidenceSource}
use ai_workflow_premortem_pu.Model.Context.{ProjectContext}
use ai_workflow_premortem_pu.Gates.Blocker.{
  StageBlocker, evidence_gap, policy_gap, edit_stage_output, verify_evidence, make_blocker,
  find_pending_action_id,
}
use ai_workflow_premortem_pu.Gates.Engine.{GateRule, pure_rule}

-- `list(dict.fromkeys(ids))`
unfoldable pub first_ids : List String → List String → List String
first_ids seen [] = []
first_ids seen (id ∷ ids) =
    let rest = first_ids seen ids in
    let kept = id ∷ first_ids (id ∷ seen) ids in if mem id seen then rest else kept

-- `{ev.evidence_id: ev for ev in ctx.evidence_sources}.get(id)`
unfoldable pub cited_evidence : ProjectContext → String → Option EvidenceSource
cited_evidence ctx id =
    last (keep_if (λ (e : EvidenceSource). e.evidence_id == id) ctx.evidence_sources)

-- A failure mode without evidence, or with evidence that does not exist.
unsupported : ProjectContext → FailureMode → StageBlocker
unsupported ctx m =
    make_blocker ctx 1 evidence_gap "stage1_evidence_gap" m.severity "failure_mode" (some m.id)
      (find_pending_action_id ctx 1 "evidence_gap" m.id) edit_stage_output false

-- The pending action on unverified evidence, from one of two sources; Python's order of the set is
-- arbitrary.
verify_action : ProjectContext → FailureMode → Option String
verify_action ctx m =
    let unverified = find_pending_action_id ctx 1 "evidence_unverified_for_high_risk" m.id in
    if is_some unverified
    then unverified
    else find_pending_action_id ctx 1 "evidence_low_credibility" m.id

reference_blockers :
    ProjectContext → FailureMode → String → Option EvidenceSource → List StageBlocker
unfolding unsupported verify_action
reference_blockers ctx m id none = unsupported ctx m ∷ []
reference_blockers ctx m id (some e) =
    if e.verified
    then []
    else make_blocker ctx 1 evidence_gap "stage1_evidence_gap" m.severity "evidence" (some id)
        (verify_action ctx m) verify_evidence false
      ∷ []

reference_loop : ProjectContext → FailureMode → List String → List StageBlocker
unfolding reference_blockers
reference_loop ctx m [] = []
reference_loop ctx m (id ∷ ids) =
    reference_blockers ctx m id (cited_evidence ctx id) ++ reference_loop ctx m ids

-- The body of the loop over the failure modes.
claim_blockers : ProjectContext → FailureMode → List StageBlocker
unfolding reference_loop unsupported
claim_blockers ctx m =
    if not (is_high_or_critical m.severity)
    then []
    else if is_empty (first_ids [] m.evidence_ids)
    then unsupported ctx m ∷ []
    else reference_loop ctx m (first_ids [] m.evidence_ids)

claim_loop : ProjectContext → List FailureMode → List StageBlocker
unfolding claim_blockers
claim_loop ctx [] = []
claim_loop ctx (m ∷ modes) = claim_blockers ctx m ++ claim_loop ctx modes

abbrev pub modes_of : Option Stage1Output → List FailureMode
modes_of none = []
modes_of (some o) = o.failure_modes

unfoldable pub stage1_evidence_gap_evaluate : ProjectContext → ℕ → List StageBlocker
unfolding claim_loop
stage1_evidence_gap_evaluate ctx stage =
    if not (stage == 1) then [] else claim_loop ctx (modes_of ctx.stage_1_output)

unfoldable pub stage1_evidence_gap_rule : GateRule
stage1_evidence_gap_rule = pure_rule "stage1_evidence_gap" (1 ∷ []) stage1_evidence_gap_evaluate

-- The identifiers of the high and critical failure modes.
unfoldable pub high_ids : List FailureMode → List String
high_ids modes =
    map (λ (m : FailureMode). m.id)
      (keep_if (λ (m : FailureMode). is_high_or_critical m.severity) modes)

unfoldable pub addresses_any : List String → WorkflowNode → Bool
addresses_any ids n = any (λ id. mem id ids) n.failure_modes_addressed

unfoldable pub is_covered : List WorkflowNode → String → Bool
is_covered nodes id = any (λ (n : WorkflowNode). mem id n.failure_modes_addressed) nodes

-- `severity_by_fm.get(id, "high")`
unfoldable pub severity_by_id : List FailureMode → String → Tier
severity_by_id modes id =
    elim (last
      (keep_if (λ (m : FailureMode). is_high_or_critical m.severity && m.id == id) modes)) [
        | none ↦ high
        | some m ↦ m.severity
      ]

node_loop : ProjectContext → List String → List WorkflowNode → List StageBlocker
node_loop ctx ids [] = []
node_loop ctx ids (n ∷ nodes) =
    (if addresses_any ids n && not n.has_oversight_policy
      then make_blocker ctx 2 policy_gap "stage2_policy_gap" high "workflow_node" (some n.node_id)
          (find_pending_action_id ctx 2 "policy_gap" n.node_id) edit_stage_output false
        ∷ []
      else [])
    ++ node_loop ctx ids nodes

uncovered_loop : ProjectContext → List FailureMode → List String → List StageBlocker
uncovered_loop ctx modes [] = []
uncovered_loop ctx modes (id ∷ ids) =
    make_blocker ctx 2 policy_gap "stage2_policy_gap" (severity_by_id modes id) "failure_mode"
      (some id) (find_pending_action_id ctx 2 "policy_gap" id) edit_stage_output false
    ∷ uncovered_loop ctx modes ids

-- `sorted(high_risk_ids - covered)`
unfoldable pub uncovered_ids : List FailureMode → List WorkflowNode → List String
uncovered_ids modes nodes =
    sorted string_leb (first_ids [] (keep_if (λ id. not (is_covered nodes id)) (high_ids modes)))

policy_blockers : ProjectContext → Option Stage1Output → Option Stage2Output → List StageBlocker
unfolding node_loop uncovered_loop
policy_blockers ctx none second = []
policy_blockers ctx (some first) none = []
policy_blockers ctx (some first) (some second) =
    node_loop ctx (high_ids first.failure_modes) second.workflow_nodes
    ++ uncovered_loop ctx first.failure_modes
        (uncovered_ids first.failure_modes second.workflow_nodes)

unfoldable pub stage2_policy_gap_evaluate : ProjectContext → ℕ → List StageBlocker
unfolding policy_blockers
stage2_policy_gap_evaluate ctx stage =
    if not (stage == 2) then [] else policy_blockers ctx ctx.stage_1_output ctx.stage_2_output

unfoldable pub stage2_policy_gap_rule : GateRule
stage2_policy_gap_rule = pure_rule "stage2_policy_gap" (2 ∷ []) stage2_policy_gap_evaluate
