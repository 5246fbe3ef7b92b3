-- ===== src/Gates/BottomLine.antt =====
-- core/gates/engine.py with core/gates/rules/manifest.py: which rules GATE_DISABLED_RULES can switch off.
use ai_workflow_premortem_pu.Prelude.{
  ℕ, String, ◌≡◌, refl, arith, Bool, true, false, not, ◌||◌, List, [], ◌∷◌, All, In, mem, mem-In,
  keep_if, Bool-cases, inl, inr, ok, string_eq, nat_eq, ◌==◌, ap,
}
use ai_workflow_premortem_pu.Dict.{get}
use ai_workflow_premortem_pu.Model.Context.{ProjectContext}
use ai_workflow_premortem_pu.Gates.Manifest.{is_safety_bottom_line, get_rule_meta, rule_manifest}
use ai_workflow_premortem_pu.Gates.Engine.{
  GateRule, is_skipped, run_rule, run_rules, StageGateResult, evaluate_stage_gate,
}
use ai_workflow_premortem_pu.Gates.Fail.{Clear, evaluate_stage_gate-Clear}

-- The rules that may not be switched off.
abbrev pub protected : List String
protected =
    "missing_output" ∷ "stale_dependency" ∷ "action_state" ∷ "parser_error" ∷ "safety_finding"
    ∷ "stage4_final_governance" ∷ "risk_treatment" ∷ "expert_review" ∷ []

All-In : (P : String → Type 0) (ids : List String) (id : String) → All P ids → In id ids → P id
All-In P [] id h m = absurd (m tt)
All-In P (x ∷ ids) id h (inl e) = rw e h.0
All-In P (x ∷ ids) id h (inr k) = All-In P ids id h.1 k

protected-All : All (λ (x : String). is_safety_bottom_line x ≡ true) protected
unfolding is_safety_bottom_line get_rule_meta rule_manifest get
protected-All = (refl, (refl, (refl, (refl, (refl, (refl, (refl, (refl, tt))))))))

protected_is_bottom_line : (id : String) → mem id protected ≡ true → is_safety_bottom_line id ≡ true
protected_is_bottom_line id h =
    All-In (λ x. is_safety_bottom_line x ≡ true) protected id protected-All (mem-In id protected h)

-- The identifiers of a list that do not name a protected rule.
abbrev pub others : List String → List String
others disabled = keep_if (λ id. not (mem id protected)) disabled

mem-others :
    (id : String) (disabled : List String)
    → mem id protected ≡ false
    → mem id (others disabled) ≡ mem id disabled
mem-others id [] h = refl
mem-others id (x ∷ disabled) h = elim (Bool-cases (mem x protected)) [
  | inl t ↦ elim (Bool-cases (id == x)) [
    | inl e ↦ absurd (let same = (string_eq.beq_iff id x).0 e in let k = rw same at h in cc)
    | inr n ↦ rw (t, n) (mem-others id disabled h)
  ]
  | inr f ↦ rw f (ap (λ b. id == x || b) (mem-others id disabled h))
]

is_skipped-others :
    (disabled : List String) (stage : ℕ) (r : GateRule)
    → is_skipped disabled stage r ≡ is_skipped (others disabled) stage r
unfolding is_skipped
is_skipped-others disabled stage r = elim (Bool-cases (mem r.rule_id protected)) [
  | inl t ↦ let b = protected_is_bottom_line r.rule_id t in ground arith
  | inr f ↦ rw (mem-others r.rule_id disabled f)
]

run_rules-others :
    (disabled : List String) (stage : ℕ) (rules : List GateRule) (ctx : ProjectContext)
    → run_rules disabled stage rules ctx ≡ run_rules (others disabled) stage rules ctx
unfolding run_rules run_rule
run_rules-others disabled stage [] ctx = refl
run_rules-others disabled stage (r ∷ rs) ctx =
    rw (is_skipped-others disabled stage r)
      (rw (run_rules-others disabled stage rs (run_rule (others disabled) stage r ctx).1))

module _ (disabled : List String) (stage : ℕ) where
  -- Each protected rule that applies to the stage ran, on what the rules before it left, and found
  -- nothing.
  abbrev pub ProtectedRan : List GateRule → ProjectContext → Type 0
  ProtectedRan [] ctx = Unit
  ProtectedRan (r ∷ rs) ctx =
      (mem r.rule_id protected ≡ true
        → mem stage r.applies_to_stages ≡ true
        → (r.evaluate ctx stage).0 ≡ ok [])
      × ProtectedRan rs (run_rule disabled stage r ctx).1

  Clear-ProtectedRan :
      (rules : List GateRule) (ctx : ProjectContext)
      → Clear disabled stage rules ctx
      → ProtectedRan rules ctx
  unfolding is_skipped
  Clear-ProtectedRan [] ctx h = tt
  Clear-ProtectedRan (r ∷ rs) ctx h = (
    λ named applies. elim h.0 [
      | inl skipped ↦ absurd (let b = protected_is_bottom_line r.rule_id named in ground arith)
      | inr nothing ↦ nothing
    ],
    Clear-ProtectedRan rs (run_rule disabled stage r ctx).1 h.1,
  )

  -- For any rules and any list of disabled ones, the gate answers, and leaves of the session, what it
  -- does when the eight protected rules are taken off that list; and if it is open, each protected rule
  -- that applies to the stage ran without an exception, on what the rules before it left, and found
  -- nothing.
  pub evaluate_stage_gate-bottom_line :
      (rules : List GateRule) (strict : ProjectContext → Bool) (persisted : Bool)
      (ctx : ProjectContext)
      → (evaluate_stage_gate rules disabled strict persisted ctx stage
          ≡ evaluate_stage_gate rules (others disabled) strict persisted ctx stage)
        × ((result : StageGateResult)
            → (evaluate_stage_gate rules disabled strict persisted ctx stage).0 ≡ ok result
            → result.can_continue ≡ true
            → ProtectedRan rules ctx)
  unfolding evaluate_stage_gate
  evaluate_stage_gate-bottom_line rules strict persisted ctx = (
    rw (run_rules-others disabled stage rules ctx),
    λ result h go.
        Clear-ProtectedRan rules ctx
          ((evaluate_stage_gate-Clear rules disabled strict persisted ctx stage result h).0.0 go),
  )
