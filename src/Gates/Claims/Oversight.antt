-- ===== src/Gates/Claims/Oversight.antt =====
-- core/gates/rules/stage2_policy_gap.py: what stands behind an open gate of stage 2.
use ai_workflow_premortem_pu.Prelude.{
  string_eq, String, Bool, true, false, not, Option, none, some, List, [], ◌∷◌, ◌++◌, keep_if, mem,
  sorted, insert_sorted, string_leb, All, In, keep_if-empty, append-eq-nil, is_empty_iff, ok, ◌≡◌,
  refl, arith, inl, inr, Bool-cases,
}
use ai_workflow_premortem_pu.Model.Enums.{is_high_or_critical}
use ai_workflow_premortem_pu.Model.Records.{FailureMode, WorkflowNode, Stage1Output, Stage2Output}
use ai_workflow_premortem_pu.Model.Context.{ProjectContext}
use ai_workflow_premortem_pu.Gates.Engine.{
  GateRule, basic_rules, is_skipped, StageGateResult, evaluate_stage_gate,
}
use ai_workflow_premortem_pu.Gates.Ready.{IsReady}
use ai_workflow_premortem_pu.Gates.Verdict.{found_nothing}
use ai_workflow_premortem_pu.Gates.Keep.{KeepContext, evaluate_stage_gate-passes}
use ai_workflow_premortem_pu.Gates.Claims.{
  first_ids, high_ids, addresses_any, is_covered, node_loop, uncovered_loop, uncovered_ids,
  policy_blockers, stage2_policy_gap_evaluate, stage2_policy_gap_rule,
}

first_ids-nil : (ids : List String) → first_ids [] ids ≡ [] → ids ≡ []
unfolding first_ids
first_ids-nil [] h = refl
first_ids-nil (id ∷ ids) h = absurd cc

module _ (ctx : ProjectContext) where
  node_loop-nil :
      (ids : List String) (nodes : List WorkflowNode)
      → node_loop ctx ids nodes ≡ []
      → All (λ (n : WorkflowNode). addresses_any ids n ≡ true → n.has_oversight_policy ≡ true) nodes
  unfolding node_loop
  node_loop-nil ids [] h = tt
  node_loop-nil ids (n ∷ nodes) h =
      let (one, rest) = append-eq-nil _ (node_loop ctx ids nodes) h in
      (λ t. ground arith, node_loop-nil ids nodes rest)

  uncovered_loop-nil :
      (modes : List FailureMode) (ids : List String) → uncovered_loop ctx modes ids ≡ [] → ids ≡ []
  unfolding uncovered_loop
  uncovered_loop-nil modes [] h = refl
  uncovered_loop-nil modes (id ∷ ids) h = absurd cc

sorted-nil : (le : String → String → Bool) (xs : List String) → sorted le xs ≡ [] → xs ≡ []
unfolding sorted insert_sorted
sorted-nil le [] h = refl
sorted-nil le (x ∷ xs) h = absurd (inserted (sorted le xs) h)
  where
    inserted : (ys : List String) → insert_sorted le x ys ≡ [] → ⊥
    inserted [] k = cc
    inserted (y ∷ ys) k = ground arith

covered_from :
    (modes : List FailureMode) (nodes : List WorkflowNode)
    → uncovered_ids modes nodes ≡ []
    → (id : String) → In id (high_ids modes)
    → is_covered nodes id ≡ true
unfolding uncovered_ids
covered_from modes nodes h id member =
    let left = keep_if (λ id. not (is_covered nodes id)) (high_ids modes) in
    let none_left = first_ids-nil left (sorted-nil string_leb (first_ids [] left) h) in
    let quiet =
      keep_if-empty (λ id. not (is_covered nodes id)) (high_ids modes) id
        ((is_empty_iff left).1 none_left) member in
    ground arith

high_ids-In :
    (modes : List FailureMode) (m : FailureMode)
    → In m modes
    → is_high_or_critical m.severity ≡ true
    → In m.id (high_ids modes)
unfolding high_ids
high_ids-In [] m member severe = absurd (member tt)
high_ids-In (x ∷ modes) m (inl e) severe =
    let t : is_high_or_critical x.severity ≡ true = rw e at severe in rw t (inl cc)
high_ids-In (x ∷ modes) m (inr k) severe = elim (Bool-cases (is_high_or_critical x.severity)) [
  | inl t ↦ rw t (inr (high_ids-In modes m k severe))
  | inr f ↦ rw f (high_ids-In modes m k severe)
]

covering_node :
    (nodes : List WorkflowNode) (id : String)
    → is_covered nodes id ≡ true
    → (n : WorkflowNode) × In n nodes × (mem id n.failure_modes_addressed ≡ true)
unfolding is_covered
covering_node [] id h = absurd cc
covering_node (n ∷ nodes) id h = elim (Bool-cases (mem id n.failure_modes_addressed)) [
  | inl t ↦ (n, inl refl, t)
  | inr f ↦ let (k, member, t) = covering_node nodes id (rw f at h) in (k, inr member, t)
]

-- Every high or critical failure mode is addressed by a node, and every node that addresses one has an
-- oversight policy.
pub record Governed (modes : List FailureMode) (nodes : List WorkflowNode) : Type 0 where
  pub covered :
      (m : FailureMode)
      → In m modes
      → is_high_or_critical m.severity ≡ true
      → (n : WorkflowNode) × In n nodes × (mem m.id n.failure_modes_addressed ≡ true)
  pub overseen :
      All
        (λ (n : WorkflowNode).
          addresses_any (high_ids modes) n ≡ true → n.has_oversight_policy ≡ true)
        nodes

policy_blockers-nil :
    (ctx : ProjectContext) (first : Option Stage1Output) (second : Option Stage2Output)
    (o1 : Stage1Output) (o2 : Stage2Output)
    → policy_blockers ctx first second ≡ []
    → first ≡ some o1
    → second ≡ some o2
    → Governed o1.failure_modes o2.workflow_nodes
unfolding policy_blockers
policy_blockers-nil ctx none second o1 o2 h e k = absurd cc
policy_blockers-nil ctx (some first) none o1 o2 h e k = absurd cc
policy_blockers-nil ctx (some first) (some second) o1 o2 h e k =
    let modes = first.failure_modes in
    let nodes = second.workflow_nodes in
    let (policies, gaps) =
      append-eq-nil (node_loop ctx (high_ids modes) nodes)
        (uncovered_loop ctx modes (uncovered_ids modes nodes)) h in
    let all_covered = uncovered_loop-nil ctx modes (uncovered_ids modes nodes) gaps in
    let governed : Governed modes nodes = record {
      covered = λ m member severe.
          covering_node nodes m.id
            (covered_from modes nodes all_covered m.id (high_ids-In modes m member severe));
      overseen = node_loop-nil ctx (high_ids modes) nodes policies;
    } in
    let same1 : first ≡ o1 = cc in let same2 : second ≡ o2 = cc in rw⁻¹ same1 (rw⁻¹ same2 governed)

-- Behind an open gate of stage 2, with the policy rule enabled and behind rules that leave the session as
-- it is, the stage is ready, every high or critical failure mode of stage 1 is addressed by a workflow
-- node, and every node that addresses one has an oversight policy.
pub evaluate_stage_gate-Governed :
    (ctx : ProjectContext) (before more : List GateRule) (disabled : List String)
    (strict : ProjectContext → Bool) (persisted : Bool) (result : StageGateResult)
    (o1 : Stage1Output) (o2 : Stage2Output)
    → KeepContext 2 before
    → mem "stage2_policy_gap" disabled ≡ false
    → (evaluate_stage_gate
        (basic_rules ++ (before ++ stage2_policy_gap_rule ∷ more))
        disabled
        strict
        persisted
        ctx
        2).0
      ≡ ok result
    → result.can_continue ≡ true
    → ctx.stage_1_output ≡ some o1
    → ctx.stage_2_output ≡ some o2
    → IsReady ctx 2 × Governed o1.failure_modes o2.workflow_nodes
unfolding stage2_policy_gap_rule stage2_policy_gap_evaluate is_skipped
evaluate_stage_gate-Governed ctx before more disabled strict persisted result o1 o2 keep enabled h
      go e1 e2 =
    let (ready, nothing) =
      evaluate_stage_gate-passes before more stage2_policy_gap_rule disabled strict persisted ctx 2
        result keep (rw enabled refl) h go in
    (
      ready,
      policy_blockers-nil ctx ctx.stage_1_output ctx.stage_2_output o1 o2
          (found_nothing _ _ refl nothing) e1 e2,
    )
