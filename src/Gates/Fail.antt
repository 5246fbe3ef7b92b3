-- ===== src/Gates/Fail.antt =====
-- The engine fails closed (core/gates/engine.py): a stage may continue exactly if every rule that was
-- not skipped ran without an exception and found nothing.
use ai_workflow_premortem_pu.Prelude.{
  ℕ, String, ◌≡◌, refl, ◌↔◌, ◌⊎◌, arith, Bool, true, false, List, [], ◌∷◌, is_empty, is_blank, sym,
  ◌∙◌, Outcome, ok, raised, string_eq, nat_eq, append-eq-nil, is_empty_iff,
}
use ai_workflow_premortem_pu.Model.Context.{ProjectContext}
use ai_workflow_premortem_pu.Stage.Revision.{out_of_range}
use ai_workflow_premortem_pu.Gates.Blocker.{StageBlocker}
use ai_workflow_premortem_pu.Gates.Engine.{
  GateRule, RuleFault, data_fault, any_fault, handle_rule, is_skipped, run_rule, run_rules, dedup,
  StageGateResult, persistence_fails, evaluate_stage_gate,
}

-- Each rule in turn is skipped, or it runs without raising and finds nothing.
abbrev pub Clear : List String → ℕ → List GateRule → ProjectContext → Type 0
Clear disabled stage [] ctx = Unit
Clear disabled stage (r ∷ rs) ctx =
    ((is_skipped disabled stage r ≡ true) ⊎ ((r.evaluate ctx stage).0 ≡ ok []))
    × Clear disabled stage rs (run_rule disabled stage r ctx).1

blank_is_empty : (s : String) → is_blank s ≡ true → s ≡ ""
blank_is_empty String.[] h = refl
blank_is_empty (String.◌∷◌ c s) h = cc

handle_rule-nil :
    (id : String) (stage : ℕ) (o : Outcome RuleFault (List StageBlocker)) (ctx : ProjectContext)
    → ((handle_rule id stage (o, ctx)).0 ≡ []) ↔ (o ≡ ok [])
unfolding handle_rule
handle_rule-nil id stage (ok bs) ctx = ground arith
handle_rule-nil id stage (raised data_fault) ctx = ground arith
handle_rule-nil id stage (raised any_fault) ctx = ground arith

run_rule-nil :
    (disabled : List String) (stage : ℕ) (r : GateRule) (ctx : ProjectContext)
    → ((run_rule disabled stage r ctx).0 ≡ [])
      ↔ ((is_skipped disabled stage r ≡ true) ⊎ ((r.evaluate ctx stage).0 ≡ ok []))
unfolding run_rule
run_rule-nil disabled stage r ctx =
    let (o, ctx') = r.evaluate ctx stage in
    ground
      (arith, handle_rule-nil r.rule_id stage (r.evaluate ctx stage).0 (r.evaluate ctx stage).1)

run_rules-nil :
    (disabled : List String) (stage : ℕ) (rules : List GateRule) (ctx : ProjectContext)
    → ((run_rules disabled stage rules ctx).0 ≡ []) ↔ Clear disabled stage rules ctx
unfolding run_rules
run_rules-nil disabled stage [] ctx = (λ _. tt, λ _. refl)
run_rules-nil disabled stage (r ∷ rs) ctx =
    let here = run_rule-nil disabled stage r ctx in
    let rest = run_rules-nil disabled stage rs (run_rule disabled stage r ctx).1 in
    (
      λ h. let (a, b) = append-eq-nil _ _ h in (here.0 a, rest.0 b),
      λ c. rw (here.1 c.0) (rest.1 c.1),
    )

-- Dropping repeated identifiers leaves nothing only of nothing.
dedup-nil : (bs : List StageBlocker) → (dedup [] bs ≡ []) ↔ (bs ≡ [])
unfolding dedup
dedup-nil [] = ground arith
dedup-nil (b ∷ bs) = ground arith

pub gate_answer :
    (rules : List GateRule) (disabled : List String) (strict : ProjectContext → Bool)
    (persisted : Bool) (ctx : ProjectContext) (stage : ℕ) (result : StageGateResult)
    → (evaluate_stage_gate rules disabled strict persisted ctx stage).0 ≡ ok result
    → (result.can_continue ≡ is_empty (dedup [] (run_rules disabled stage rules ctx).0))
      × (result.blockers ≡ dedup [] (run_rules disabled stage rules ctx).0)
      × (out_of_range stage ≡ false)
      × (persistence_fails
            (strict (run_rules disabled stage rules ctx).1)
            persisted
            (run_rules disabled stage rules ctx).1
          ≡ false)
unfolding evaluate_stage_gate
gate_answer rules disabled strict persisted ctx stage result h = ground arith

-- A gate that answers lets the stage continue exactly if every rule in turn was skipped or ran
-- without an exception and found nothing; its list of blockers is empty exactly then.
pub evaluate_stage_gate-Clear :
    (rules : List GateRule) (disabled : List String) (strict : ProjectContext → Bool)
    (persisted : Bool) (ctx : ProjectContext) (stage : ℕ) (result : StageGateResult)
    → (evaluate_stage_gate rules disabled strict persisted ctx stage).0 ≡ ok result
    → ((result.can_continue ≡ true) ↔ Clear disabled stage rules ctx)
      × ((result.blockers ≡ []) ↔ Clear disabled stage rules ctx)
evaluate_stage_gate-Clear rules disabled strict persisted ctx stage result h =
    let (go, found, _, _) = gate_answer rules disabled strict persisted ctx stage result h in
    let bs = (run_rules disabled stage rules ctx).0 in
    let clear = run_rules-nil disabled stage rules ctx in
    let none_left = dedup-nil bs in
    let empty = is_empty_iff (dedup [] bs) in
    (
      (
        λ e. clear.0 (none_left.0 (empty.0 (sym go ∙ e))),
        λ c. go ∙ empty.1 (none_left.1 (clear.1 c)),
      ),
      (λ e. clear.0 (none_left.0 (sym found ∙ e)), λ c. found ∙ none_left.1 (clear.1 c)),
    )
