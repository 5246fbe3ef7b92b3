-- ===== src/Gates/Verdict.antt =====
-- The verdict of a gate (core/gates/engine.py) over the five rules of every stage and whatever rules
-- are registered after them.
use ai_workflow_premortem_pu.Prelude.{
  ℕ, String, ◌≡◌, refl, ◌↔◌, inl, inr, arith, Bool, true, false, List, [], ◌∷◌, ◌++◌, Outcome, ok,
  mem, nat_eq, string_eq,
}
use ai_workflow_premortem_pu.Dict.{get}
use ai_workflow_premortem_pu.Model.Context.{ProjectContext}
use ai_workflow_premortem_pu.Stage.Revision.{out_of_range}
use ai_workflow_premortem_pu.Gates.Blocker.{StageBlocker}
use ai_workflow_premortem_pu.Gates.Manifest.{is_safety_bottom_line, get_rule_meta, rule_manifest}
use ai_workflow_premortem_pu.Gates.Basic.{
  missing_output_rule, stale_dependency_rule, action_state_rule, parser_error_rule,
  safety_finding_rule,
}
use ai_workflow_premortem_pu.Gates.Engine.{
  RuleFault, GateRule, pure_rule, every_stage, basic_rules, is_skipped, run_rule, handle_rule,
  StageGateResult, evaluate_stage_gate,
}
use ai_workflow_premortem_pu.Gates.Fail.{Clear, gate_answer, evaluate_stage_gate-Clear}
use ai_workflow_premortem_pu.Gates.Ready.{
  IsReady, missing_output_rule-nil, stale_dependency_rule-nil, action_loop-nil,
  parser_error_rule-nil, safety_loop-nil,
}

in_every_stage : (stage : ℕ) → out_of_range stage ≡ false → mem stage every_stage ≡ true
in_every_stage stage h = ground arith

pub found_nothing :
    (o : Outcome RuleFault (List StageBlocker)) (xs : List StageBlocker)
    → o ≡ ok xs
    → o ≡ ok []
    → xs ≡ []
found_nothing o xs h k = cc

module _ (disabled : List String) (stage : ℕ) (id : String)
    (f : ProjectContext → ℕ → List StageBlocker) (ctx : ProjectContext) where
  pure_rule-context : (run_rule disabled stage (pure_rule id every_stage f) ctx).1 ≡ ctx
  unfolding run_rule handle_rule
  pure_rule-context = ground arith

  Clear-pure_rule :
      (rest : List GateRule)
      → is_safety_bottom_line id ≡ true
      → out_of_range stage ≡ false
      → Clear disabled stage (pure_rule id every_stage f ∷ rest) ctx
        ↔ ((f ctx stage ≡ []) × Clear disabled stage rest ctx)
  unfolding is_skipped
  Clear-pure_rule rest bottom range =
      let here = in_every_stage stage range in
      (
        λ c. (
          elim c.0 [
            | inl skipped ↦ ground arith
            | inr none_found ↦ found_nothing _ _ refl none_found
          ],
          rw pure_rule-context at c.1,
        ),
        λ p. (inr (ap_ok p.0), rw pure_rule-context p.1),
      )
    where
      ap_ok : f ctx stage ≡ [] → ((pure_rule id every_stage f).evaluate ctx stage).0 ≡ ok []
      ap_ok h = rw h

module _ (disabled : List String) (stage : ℕ) (more : List GateRule) (ctx : ProjectContext) where
  Clear-basic_rules :
      out_of_range stage ≡ false
      → Clear disabled stage (basic_rules ++ more) ctx ↔ (
          (missing_output_rule ctx stage ≡ [])
          × (stale_dependency_rule ctx stage ≡ [])
          × (action_state_rule ctx stage ≡ [])
          × (parser_error_rule ctx stage ≡ [])
          × (safety_finding_rule ctx stage ≡ [])
          × Clear disabled stage more ctx)
  unfolding basic_rules is_safety_bottom_line get_rule_meta rule_manifest get
  Clear-basic_rules range =
      let r4 = pure_rule "safety_finding" every_stage safety_finding_rule ∷ more in
      let r3 = pure_rule "parser_error" every_stage parser_error_rule ∷ r4 in
      let r2 = pure_rule "action_state" every_stage action_state_rule ∷ r3 in
      let r1 = pure_rule "stale_dependency" every_stage stale_dependency_rule ∷ r2 in
      let e =
        Clear-pure_rule disabled stage "safety_finding" safety_finding_rule ctx more refl range in
      let d = Clear-pure_rule disabled stage "parser_error" parser_error_rule ctx r4 refl range in
      let c = Clear-pure_rule disabled stage "action_state" action_state_rule ctx r3 refl range in
      let b =
        Clear-pure_rule disabled stage "stale_dependency" stale_dependency_rule ctx r2 refl range in
      let a =
        Clear-pure_rule disabled stage "missing_output" missing_output_rule ctx r1 refl range in
      (
        λ h.
            let (h1, t1) = a.0 h in
            let (h2, t2) = b.0 t1 in
            let (h3, t3) = c.0 t2 in
            let (h4, t4) = d.0 t3 in let (h5, r5) = e.0 t4 in (h1, h2, h3, h4, h5, r5),
        λ (h1, h2, h3, h4, h5, r). a.1 (h1, b.1 (h2, c.1 (h3, d.1 (h4, e.1 (h5, r))))),
      )

IsReady-rules :
    (ctx : ProjectContext) (stage : ℕ)
    → ((missing_output_rule ctx stage ≡ [])
        × (stale_dependency_rule ctx stage ≡ [])
        × (action_state_rule ctx stage ≡ [])
        × (parser_error_rule ctx stage ≡ [])
        × (safety_finding_rule ctx stage ≡ []))
      ↔ IsReady ctx stage
unfolding action_state_rule safety_finding_rule
IsReady-rules ctx stage = (
  λ (h1, h2, h3, h4, h5).
      let output = (missing_output_rule-nil ctx stage).0 h1 in
      let (fresh, deps) = (stale_dependency_rule-nil ctx stage output).0 h2 in
      record {
        output = output;
        not_stale = fresh;
        dependencies = deps;
        actions = (action_loop-nil ctx stage ctx.pending_actions).0 h3;
        parsed = (parser_error_rule-nil ctx stage).0 h4;
        findings = (safety_loop-nil ctx stage ctx.safety_findings).0 h5;
      },
  λ (r : IsReady ctx stage). (
    (missing_output_rule-nil ctx stage).1 r.output,
    (stale_dependency_rule-nil ctx stage r.output).1 (r.not_stale, r.dependencies),
    (action_loop-nil ctx stage ctx.pending_actions).1 r.actions,
    (parser_error_rule-nil ctx stage).1 r.parsed,
    (safety_loop-nil ctx stage ctx.safety_findings).1 r.findings,
  ),
)

-- A gate over the five rules of every stage and any further rules, whichever rules are disabled, lets
-- the stage continue exactly if the stage is ready (it has an output that is neither stale nor built
-- on passed upstream versions, its current actions are settled, its parser left no error and no open
-- finding blocks it) and each further rule was skipped or ran without an exception and found nothing.
pub evaluate_stage_gate-IsReady :
    (more : List GateRule) (disabled : List String) (strict : ProjectContext → Bool)
    (persisted : Bool) (ctx : ProjectContext) (stage : ℕ) (result : StageGateResult)
    → (evaluate_stage_gate (basic_rules ++ more) disabled strict persisted ctx stage).0 ≡ ok result
    → (result.can_continue ≡ true) ↔ (IsReady ctx stage × Clear disabled stage more ctx)
evaluate_stage_gate-IsReady more disabled strict persisted ctx stage result h =
    let (_, _, range, _) =
      (gate_answer (basic_rules ++ more) disabled strict persisted ctx stage result h) in
    let answer =
      (evaluate_stage_gate-Clear (basic_rules ++ more) disabled strict persisted ctx stage result
        h).0 in
    let rules = Clear-basic_rules disabled stage more ctx range in
    let ready = IsReady-rules ctx stage in
    (
      λ e. let (h1, h2, h3, h4, h5, r) = rules.0 (answer.0 e) in (ready.0 (h1, h2, h3, h4, h5), r),
      λ p. let (h1, h2, h3, h4, h5) = ready.1 p.0 in answer.1 (rules.1 (h1, h2, h3, h4, h5, p.1)),
    )
