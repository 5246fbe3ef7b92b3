-- ===== src/Gates/Keep.antt =====
-- core/gates/engine.py: what a gate leaves of a session, if each of its rules leaves it.
use ai_workflow_premortem_pu.Prelude.{
  ℕ, String, Bool, true, false, List, [], ◌∷◌, ◌++◌, Outcome, ok, raised, Outcome-cases, Bool-cases,
  ◌≡◌, refl, ◌∙◌, inl, inr, arith, All, All-map, All-append, ◌⊎◌,
}
use ai_workflow_premortem_pu.Model.Context.{ProjectContext}
use ai_workflow_premortem_pu.Stage.Revision.{out_of_range}
use ai_workflow_premortem_pu.Gates.Blocker.{StageBlocker}
use ai_workflow_premortem_pu.Gates.Engine.{
  RuleFault, data_fault, any_fault, GateRule, basic_rules, handle_rule, is_skipped, run_rule,
  run_rules, StageGateResult, persistence_fails, evaluate_stage_gate,
}
use ai_workflow_premortem_pu.Gates.Ready.{IsReady}
use ai_workflow_premortem_pu.Gates.Fail.{Clear}
use ai_workflow_premortem_pu.Gates.Verdict.{evaluate_stage_gate-IsReady}

pub handle_rule-context :
    (id : String) (stage : ℕ) (run : Outcome RuleFault (List StageBlocker) × ProjectContext)
    → (handle_rule id stage run).1 ≡ run.1
unfolding handle_rule
handle_rule-context id stage (ok blockers, ctx) = refl
handle_rule-context id stage (raised data_fault, ctx) = refl
handle_rule-context id stage (raised any_fault, ctx) = refl

module _ {A : Type 0} (part : ProjectContext → A) where
  -- A rule leaves that part of every session as it is.
  abbrev pub RuleKeeps : GateRule → Type 0
  RuleKeeps r = (c : ProjectContext) (s : ℕ) → part (r.evaluate c s).1 ≡ part c

  pub basic_rules-keep : All RuleKeeps basic_rules
  unfolding basic_rules
  basic_rules-keep = (λ c s. refl, (λ c s. refl, (λ c s. refl, (λ c s. refl, (λ c s. refl, tt)))))

  pub run_rule-keeps :
      (disabled : List String) (stage : ℕ) (r : GateRule) (ctx : ProjectContext)
      → part (r.evaluate ctx stage).1 ≡ part ctx
      → part (run_rule disabled stage r ctx).1 ≡ part ctx
  unfolding run_rule
  run_rule-keeps disabled stage r ctx h = elim (Bool-cases (is_skipped disabled stage r)) [
    | inl t ↦ rw t refl
    | inr f ↦ rw (f, handle_rule-context r.rule_id stage (r.evaluate ctx stage)) h
  ]

  run_rules-keep :
      (disabled : List String) (stage : ℕ) (rules : List GateRule) (ctx : ProjectContext)
      → All RuleKeeps rules
      → part (run_rules disabled stage rules ctx).1 ≡ part ctx
  unfolding run_rules
  run_rules-keep disabled stage [] ctx k = refl
  run_rules-keep disabled stage (r ∷ rules) ctx k =
      run_rules-keep disabled stage rules (run_rule disabled stage r ctx).1 k.1
      ∙ run_rule-keeps disabled stage r ctx (k.0 ctx stage)

  evaluate_stage_gate-left :
      (rules : List GateRule) (disabled : List String) (strict : ProjectContext → Bool)
      (persisted : Bool) (ctx : ProjectContext) (stage : ℕ)
      → part (run_rules disabled stage rules ctx).1 ≡ part ctx
      → part (evaluate_stage_gate rules disabled strict persisted ctx stage).1 ≡ part ctx
  unfolding evaluate_stage_gate
  evaluate_stage_gate-left rules disabled strict persisted ctx stage kept =
      let ctx' = (run_rules disabled stage rules ctx).1 in
      elim (Bool-cases (out_of_range stage)) [
        | inl t ↦ rw t refl
        | inr f ↦ elim (Bool-cases (persistence_fails (strict ctx') persisted ctx')) [
          | inl lost ↦ rw (f, lost) kept
          | inr saved ↦ rw (f, saved) kept
        ]
      ]

  pub evaluate_stage_gate-keeps :
      (rules : List GateRule) (disabled : List String) (strict : ProjectContext → Bool)
      (persisted : Bool) (ctx : ProjectContext) (stage : ℕ)
      → All RuleKeeps rules
      → part (evaluate_stage_gate rules disabled strict persisted ctx stage).1 ≡ part ctx
  evaluate_stage_gate-keeps rules disabled strict persisted ctx stage k =
      evaluate_stage_gate-left rules disabled strict persisted ctx stage
        (run_rules-keep disabled stage rules ctx k)

-- Where its records can be written, a gate of a stage answers.
pub evaluate_stage_gate-answers :
    (rules : List GateRule) (disabled : List String) (strict : ProjectContext → Bool)
    (ctx : ProjectContext) (stage : ℕ)
    → out_of_range stage ≡ false
    → (r : StageGateResult) × ((evaluate_stage_gate rules disabled strict true ctx stage).0 ≡ ok r)
unfolding evaluate_stage_gate persistence_fails
evaluate_stage_gate-answers rules disabled strict ctx stage f =
    elim (Outcome-cases (evaluate_stage_gate rules disabled strict true ctx stage).0) [
      | inl (r, h) ↦ (r, h)
      | inr (e, h) ↦ absurd (ground arith)
    ]

module _ (disabled : List String) (stage : ℕ) (ctx : ProjectContext) where
  -- Each rule is skipped, or it finds nothing in the session and leaves it as it is.
  abbrev pub Quiet : List GateRule → Type 0
  Quiet rules =
      All
        (λ (r : GateRule).
          (is_skipped disabled stage r ≡ true) ⊎ (r.evaluate ctx stage ≡ (ok [], ctx)))
        rules

  abbrev Still : GateRule → Type 0
  Still r = (run_rule disabled stage r ctx).1 ≡ ctx

  run_rule-Still :
      (r : GateRule)
      → (is_skipped disabled stage r ≡ true) ⊎ (r.evaluate ctx stage ≡ (ok [], ctx))
      → Still r
  run_rule-Still r (inr e) = run_rule-keeps (λ c. c) disabled stage r ctx (λ i. (e i).1)
  run_rule-Still r (inl t) = unfold run_rule in rw t refl

  Quiet-Clear : (rules : List GateRule) → Quiet rules → Clear disabled stage rules ctx
  Quiet-Clear [] h = tt
  Quiet-Clear (r ∷ rs) h = (
    elim h.0 [ inl t ↦ inl t | inr e ↦ inr (λ i. (e i).0) ],
    rw (run_rule-Still r h.0) (Quiet-Clear rs h.1),
  )

  run_rules-left :
      (rules : List GateRule) → All Still rules → (run_rules disabled stage rules ctx).1 ≡ ctx
  unfolding run_rules
  run_rules-left [] h = refl
  run_rules-left (r ∷ rs) h = rw h.0 (run_rules-left rs h.1)

  basic_rules-Still : All Still basic_rules
  basic_rules-Still =
      All-map basic_rules (λ r k. run_rule-keeps (λ c. c) disabled stage r ctx (k ctx stage))
        (basic_rules-keep (λ c. c))

  -- The gate of a stage that is ready, whose further rules are quiet.
  pub evaluate_stage_gate-opens :
      (more : List GateRule) (strict : ProjectContext → Bool)
      → out_of_range stage ≡ false
      → IsReady ctx stage
      → Quiet more
      → (r : StageGateResult) × (evaluate_stage_gate
            (basic_rules ++ more)
            disabled
            strict
            true
            ctx
            stage
          ≡ (ok r, ctx))
        × (r.can_continue ≡ true)
  evaluate_stage_gate-opens more strict range ready quiet =
      let rules = basic_rules ++ more in
      let (r, h) = evaluate_stage_gate-answers rules disabled strict ctx stage range in
      let still =
        All-append Still basic_rules more basic_rules-Still (All-map more run_rule-Still quiet) in
      let kept =
        evaluate_stage_gate-left (λ c. c) rules disabled strict true ctx stage
          (run_rules-left rules still) in
      (
        r,
        λ i. (h i, kept i),
        (evaluate_stage_gate-IsReady more disabled strict true ctx stage r h).1
            (ready, Quiet-Clear more quiet),
      )

-- The rules leave every context as it is where they are run on the stage.
abbrev pub KeepContext : ℕ → List GateRule → Type 0
KeepContext stage rules =
    All (λ (r : GateRule). (c : ProjectContext) → (r.evaluate c stage).1 ≡ c) rules

Clear-append :
    (disabled : List String) (stage : ℕ) (before rules : List GateRule) (ctx : ProjectContext)
    → KeepContext stage before
    → Clear disabled stage (before ++ rules) ctx
    → Clear disabled stage rules ctx
Clear-append disabled stage [] rules ctx k h = h
Clear-append disabled stage (r ∷ before) rules ctx k h =
    let kept = run_rule-keeps (λ c. c) disabled stage r ctx (k.0 ctx) in
    Clear-append disabled stage before rules ctx k.1 (rw kept at h.1)

-- Behind an open gate the stage is ready, and a rule that was not skipped found nothing, if the rules
-- before it leave the session.
pub evaluate_stage_gate-passes :
    (before more : List GateRule) (rule : GateRule) (disabled : List String)
    (strict : ProjectContext → Bool) (persisted : Bool) (ctx : ProjectContext) (stage : ℕ)
    (result : StageGateResult)
    → KeepContext stage before
    → is_skipped disabled stage rule ≡ false
    → (evaluate_stage_gate
        (basic_rules ++ (before ++ rule ∷ more))
        disabled
        strict
        persisted
        ctx
        stage).0
      ≡ ok result
    → result.can_continue ≡ true
    → IsReady ctx stage × ((rule.evaluate ctx stage).0 ≡ ok [])
evaluate_stage_gate-passes before more rule disabled strict persisted ctx stage result keep runs h
      go =
    let (ready, clear) =
      (evaluate_stage_gate-IsReady (before ++ rule ∷ more) disabled strict persisted ctx stage
          result h).0
        go in
    elim (Clear-append disabled stage before (rule ∷ more) ctx keep clear).0 [
      | inl skipped ↦ absurd cc
      | inr nothing ↦ (ready, nothing)
    ]
