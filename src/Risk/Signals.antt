-- ===== src/Risk/Signals.antt =====
-- What keyword inference (core/risk/inference.py) can give: factors in range, CRITICAL for a
-- critical domain, at least MEDIUM where nothing is found.
use ai_workflow_premortem_pu.Prelude.{◌≤◌, String, ◌≡◌, arith, Bool, true}
use ai_workflow_premortem_pu.Model.Enums.{
  Tier, critical, DataClassification, tier_order, tier_order-max_tier,
}
use ai_workflow_premortem_pu.Model.Records.{RiskFactorScores}
use ai_workflow_premortem_pu.Model.Context.{ProjectContext}
use ai_workflow_premortem_pu.Risk.Rules.{
  Floor, raise_when, critical_floor, collect_floor, evaluate_risk,
}
use ai_workflow_premortem_pu.Risk.Bounds.{InRange, le-raise_when, le-high_floor}
use ai_workflow_premortem_pu.Risk.Inference.{
  critical_keywords, neutral, domain_signal, low_scope_signal, automation_signal, sensitive_signal,
  classification_signal, factors_of_hits, hits, infer_legacy_factors,
}

domain_signal-InRange :
    (a b : Bool) (f : RiskFactorScores) → InRange f → InRange (domain_signal a b f)
unfolding domain_signal
domain_signal-InRange a b f h = ground arith

low_scope_signal-InRange :
    (a b c : Bool) (f : RiskFactorScores) → InRange f → InRange (low_scope_signal a b c f)
unfolding low_scope_signal
low_scope_signal-InRange a b c f h = ground arith

automation_signal-InRange :
    (a : Bool) (f : RiskFactorScores) → InRange f → InRange (automation_signal a f)
unfolding automation_signal
automation_signal-InRange a f h = ground arith

sensitive_signal-InRange :
    (a : Bool) (f : RiskFactorScores) → InRange f → InRange (sensitive_signal a f)
unfolding sensitive_signal
sensitive_signal-InRange a f h = ground arith

classification_signal-InRange :
    (a : Bool) (f : RiskFactorScores) → InRange f → InRange (classification_signal a f)
unfolding classification_signal
classification_signal-InRange a f h = ground arith

neutral-InRange : InRange neutral
neutral-InRange = omega arith

ruleset keep_range = (
  domain_signal-InRange, low_scope_signal-InRange, automation_signal-InRange,
  sensitive_signal-InRange, classification_signal-InRange, neutral-InRange,
)

-- Inference passes the validation of the factor model: whatever the keywords say, no score leaves
-- the range 0 to 3.
pub infer_legacy_factors-InRange :
    (re_search : String → String → Bool) (ctx : ProjectContext)
    → InRange (infer_legacy_factors re_search ctx)
unfolding infer_legacy_factors factors_of_hits
infer_legacy_factors-InRange re_search ctx = search keep_range depth 7

abbrev Severe : RiskFactorScores → Type 0
Severe f = (f.impact ≡ 3) × (2 ≤ f.reversibility)

critical_hits-Severe : (b c d e g : Bool) → Severe (factors_of_hits true b c d e g)
unfolding factors_of_hits domain_signal low_scope_signal automation_signal sensitive_signal
    classification_signal
critical_hits-Severe b c d e g = ground arith

Severe-critical_floor :
    (f : RiskFactorScores) (s : Floor) → Severe f → 3 ≤ tier_order (critical_floor f s).tier
unfolding critical_floor
Severe-critical_floor f s h = le-raise_when _ _ _ _ (
    le-raise_when _ _ _ _
      (le-raise_when _ _ _ _ (le-raise_when _ _ _ _ (unfold raise_when in ground arith))))

Severe-collect_floor :
    (f : RiskFactorScores) (t : Tier) (c : DataClassification)
    → Severe f
    → 3 ≤ tier_order (collect_floor f t c).tier
unfolding collect_floor
Severe-collect_floor f t c h = le-high_floor f _ (Severe-critical_floor f _ h)

at_least_critical : (t : Tier) → 3 ≤ tier_order t → t ≡ critical
at_least_critical t h = ground arith

Severe-critical :
    (f : RiskFactorScores) (c : DataClassification)
    → Severe f
    → (evaluate_risk f c).effective_tier ≡ critical
unfolding evaluate_risk
Severe-critical f c h =
    at_least_critical _ (omega (arith, tier_order-max_tier, Severe-collect_floor f _ c h))

-- A text that hits a critical keyword is CRITICAL under every classification, whatever else it
-- says: no low-scope wording takes it down.
pub critical_keywords_critical :
    (re_search : String → String → Bool) (ctx : ProjectContext) (c : DataClassification)
    → hits re_search ctx critical_keywords ≡ true
    → (evaluate_risk (infer_legacy_factors re_search ctx) c).effective_tier ≡ critical
unfolding infer_legacy_factors
critical_keywords_critical re_search ctx c h =
    Severe-critical _ c (rw h (critical_hits-Severe _ _ _ _ _))
