-- ===== src/Risk/Monotone.antt =====
-- Raising a factor, or the classification to sensitive personal data, never lowers a tier
-- (core/risk/rules.py).
use ai_workflow_premortem_pu.Prelude.{
  ◌≤◌, String, ◌≡◌, refl, arith, Bool, true, false, if◌then◌else◌,
}
use ai_workflow_premortem_pu.Model.Enums.{Tier, DataClassification, tier_order}
use ai_workflow_premortem_pu.Model.Records.{RiskFactorScores}
use ai_workflow_premortem_pu.Risk.Rules.{
  score_factors, tier_from_score, Floor, raise_when, sensitive_floor, critical_floor, high_floor,
  no_floor, is_sensitive, collect_floor, evaluate_risk,
}
use ai_workflow_premortem_pu.Risk.Bounds.{InRange, score_factors_lem, tier_from_score_mono}

-- Every factor of `f` is at most that of `g`.
pub record AtMost (f g : RiskFactorScores) : Type 0 where
  pub impact_le : f.impact ≤ g.impact
  pub autonomy_le : f.autonomy ≤ g.autonomy
  pub data_sensitivity_le : f.data_sensitivity ≤ g.data_sensitivity
  pub reversibility_le : f.reversibility ≤ g.reversibility
  pub scale_le : f.scale ≤ g.scale
  pub external_exposure_le : f.external_exposure ≤ g.external_exposure

infix 40 ◌⊑◌
abbrev pub ◌⊑◌ : Floor → Floor → Type 0
s ⊑ t = tier_order s.tier ≤ tier_order t.tier

pub raise_when_mono :
    (c d : Bool) (tier : Tier) (reason : String) (s t : Floor)
    → (c ≡ true → d ≡ true)
    → s ⊑ t
    → raise_when c tier reason s ⊑ raise_when d tier reason t
unfolding raise_when
raise_when_mono false false tier reason s t i h = h
raise_when_mono false true tier reason s t i h = ground arith
raise_when_mono true true tier reason s t i h = ground arith
raise_when_mono true false tier reason s t i h = absurd (ground (arith, i refl))

raise_when_grows :
    (c : Bool) (tier : Tier) (reason : String) (s : Floor) → s ⊑ raise_when c tier reason s
unfolding raise_when
raise_when_grows c tier reason s = ground arith

module _ (f g : RiskFactorScores) (range : InRange g) (h : AtMost f g) where
  structural_mono :
      tier_order (tier_from_score (score_factors f))
      ≤ tier_order (tier_from_score (score_factors g))
  structural_mono =
      tier_from_score_mono _ _ (omega (arith, score_factors_lem f, score_factors_lem g))

  sensitive_floor_mono :
      (a b : Tier) (s t : Floor)
      → tier_order a ≤ tier_order b
      → s ⊑ t
      → sensitive_floor f a s ⊑ sensitive_floor g b t
  unfolding sensitive_floor
  sensitive_floor_mono a b s t o k =
      raise_when_mono _ _ _ _ _ _ (λ e. ground arith)
        (raise_when_mono _ _ _ _ _ _ (λ e. ground arith) (raise_when_mono _ _ _ _ s t (λ e. e) k))

  critical_floor_mono : (s t : Floor) → s ⊑ t → critical_floor f s ⊑ critical_floor g t
  unfolding critical_floor
  critical_floor_mono s t k =
      raise_when_mono _ _ _ _ _ _ (λ e. ground arith)
        (raise_when_mono _ _ _ _ _ _ (λ e. ground arith)
          (raise_when_mono _ _ _ _ _ _ (λ e. ground arith)
            (raise_when_mono _ _ _ _ _ _ (λ e. ground arith)
              (raise_when_mono _ _ _ _ s t (λ e. ground arith) k))))

  high_floor_mono : (s t : Floor) → s ⊑ t → high_floor f s ⊑ high_floor g t
  unfolding high_floor
  high_floor_mono s t k =
      raise_when_mono _ _ _ _ _ _ (λ e. ground arith)
        (raise_when_mono _ _ _ _ _ _ (λ e. ground arith)
          (raise_when_mono _ _ _ _ _ _ (λ e. ground arith)
            (raise_when_mono _ _ _ _ _ _ (λ e. ground arith)
              (raise_when_mono _ _ _ _ _ _ (λ e. ground arith)
                (raise_when_mono _ _ _ _ s t (λ e. ground arith) k)))))

sensitive_floor_grows : (f : RiskFactorScores) (a : Tier) (s : Floor) → s ⊑ sensitive_floor f a s
unfolding sensitive_floor
sensitive_floor_grows f a s = grind (arith, raise_when_grows)

-- Whether the second classification is at least as strict as the first.
abbrev pub Stricter : DataClassification → DataClassification → Type 0
Stricter c d = is_sensitive c ≡ true → is_sensitive d ≡ true

module _ (f g : RiskFactorScores) (range : InRange g) (h : AtMost f g) where
  entry_mono :
      (a b : Tier) (c d : DataClassification)
      → tier_order a ≤ tier_order b
      → Stricter c d
      → (if is_sensitive c then sensitive_floor f a no_floor else no_floor)
        ⊑ (if is_sensitive d then sensitive_floor g b no_floor else no_floor)
  entry_mono a b c d o k = by_test (is_sensitive c) (is_sensitive d) k
    where
      by_test :
          (p q : Bool)
          → (p ≡ true → q ≡ true)
          → (if p then sensitive_floor f a no_floor else no_floor)
            ⊑ (if q then sensitive_floor g b no_floor else no_floor)
      by_test true true i = sensitive_floor_mono f g range h a b no_floor no_floor o (omega arith)
      by_test true false i = cc (i refl)
      by_test false true i = sensitive_floor_grows g b no_floor
      by_test false false i = omega arith

  pub collect_floor_mono :
      (a b : Tier) (c d : DataClassification)
      → tier_order a ≤ tier_order b
      → Stricter c d
      → collect_floor f a c ⊑ collect_floor g b d
  unfolding collect_floor
  collect_floor_mono a b c d o k =
      high_floor_mono f g range h _ _ (critical_floor_mono f g range h _ _ (entry_mono a b c d o k))

  -- Raising factors within their range, and going to sensitive personal data, never lowers the
  -- structural tier, the floor or the effective tier.
  pub evaluate_risk_mono :
      (c d : DataClassification)
      → Stricter c d
      → (tier_order (evaluate_risk f c).structural_tier
          ≤ tier_order (evaluate_risk g d).structural_tier)
        × (tier_order (evaluate_risk f c).floor_tier ≤ tier_order (evaluate_risk g d).floor_tier)
        × (tier_order (evaluate_risk f c).effective_tier
            ≤ tier_order (evaluate_risk g d).effective_tier)
  unfolding evaluate_risk
  evaluate_risk_mono c d k =
      let s = structural_mono f g range h in
      let t = collect_floor_mono _ _ c d s k in (s, t, ground arith)
