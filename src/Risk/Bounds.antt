-- ===== src/Risk/Bounds.antt =====
-- The score of valid factors lies in the bands, and the floors that a classification forces.
use ai_workflow_premortem_pu.Prelude.{ℕ, ◌+◌, ◌*◌, ◌≤◌, ◌≡◌, arith, Bool, String}
use ai_workflow_premortem_pu.Model.Enums.{Tier, tier_order}
use ai_workflow_premortem_pu.Model.Records.{RiskFactorScores}
use ai_workflow_premortem_pu.Risk.Rules.{
  score_factors, tier_from_score, Floor, raise_when, critical_floor, high_floor,
}

-- The bounds that the model `RiskFactorScores` validates: `Field(ge=0, le=3)`.
pub record InRange (f : RiskFactorScores) : Type 0 where
  pub impact_le : f.impact ≤ 3
  pub autonomy_le : f.autonomy ≤ 3
  pub data_sensitivity_le : f.data_sensitivity ≤ 3
  pub reversibility_le : f.reversibility ≤ 3
  pub scale_le : f.scale ≤ 3
  pub external_exposure_le : f.external_exposure ≤ 3

pub score_factors_lem :
    (f : RiskFactorScores)
    → score_factors f
      ≡ 3 * f.impact
        + 4 * f.autonomy
        + 2 * f.data_sensitivity
        + 2 * f.reversibility
        + f.scale
        + 2 * f.external_exposure
unfolding score_factors
score_factors_lem f = omega arith

pub score_factors_le : (f : RiskFactorScores) → InRange f → score_factors f ≤ 42
score_factors_le f h = omega (arith, score_factors_lem f)

pub tier_from_score_mono :
    (a b : ℕ) → a ≤ b → tier_order (tier_from_score a) ≤ tier_order (tier_from_score b)
unfolding tier_from_score
tier_from_score_mono a b h = ground arith

pub le-raise_when :
    {n : ℕ} (c : Bool) (tier : Tier) (reason : String) (s : Floor)
    → n ≤ tier_order s.tier
    → n ≤ tier_order (raise_when c tier reason s).tier
unfolding raise_when
le-raise_when c tier reason s h = ground arith

ruleset grows = (le-raise_when)

pub le-critical_floor :
    {n : ℕ} (f : RiskFactorScores) (s : Floor)
    → n ≤ tier_order s.tier
    → n ≤ tier_order (critical_floor f s).tier
unfolding critical_floor
le-critical_floor f s h = search grows depth 7

pub le-high_floor :
    {n : ℕ} (f : RiskFactorScores) (s : Floor)
    → n ≤ tier_order s.tier
    → n ≤ tier_order (high_floor f s).tier
unfolding high_floor
le-high_floor f s h = search grows depth 8
