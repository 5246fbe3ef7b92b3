-- ===== src/Release/Treatment/Rule.antt =====
-- core/gates/rules/risk_treatment.py: the rule that keeps stage 4 closed while an item is untreated.
use ai_workflow_premortem_pu.Prelude.{
  ℕ, String, false, none, some, List, [], ◌∷◌, ◌==◌, nat_eq, if◌then◌else◌,
}
use ai_workflow_premortem_pu.Model.Context.{ProjectContext}
use ai_workflow_premortem_pu.Gates.Blocker.{
  StageBlocker, make_blocker, risk_treatment, complete_risk_treatment,
}
use ai_workflow_premortem_pu.Gates.Engine.{GateRule, pure_rule}
use ai_workflow_premortem_pu.Release.Treatment.{
  TreatmentRequirement, TreatmentState, source_value, treatment_blockers,
}

unfoldable pub stage_blockers_of :
    ProjectContext → List (TreatmentRequirement × TreatmentState) → List StageBlocker
stage_blockers_of ctx [] = []
stage_blockers_of ctx ((r, _) ∷ items) =
    make_blocker ctx 4 risk_treatment "risk_treatment" r.risk_level (source_value r.source_type)
      (some r.source_id) none complete_risk_treatment false
    ∷ stage_blockers_of ctx items

-- `digest` is `current_evaluation_digest`.
module _ (digest : ProjectContext → String) where
  unfoldable pub risk_treatment_evaluate : ProjectContext → ℕ → List StageBlocker
  risk_treatment_evaluate ctx stage =
      if stage == 4 then stage_blockers_of ctx (treatment_blockers ctx (digest ctx)) else []

  unfoldable pub risk_treatment_rule : GateRule
  risk_treatment_rule = pure_rule "risk_treatment" (4 ∷ []) risk_treatment_evaluate
