-- ===== src/Risk/Rules.antt =====
-- core/risk/rules.py: the weighted score, the bands, the hard floors and the effective tier.
use ai_workflow_premortem_pu.Prelude.{
  ℕ, ◌+◌, ◌*◌, String, Bool, ◌&&◌, ◌||◌, List, [], ◌∷◌, ◌++◌, map, leb, ◌==◌, nat_eq, string_eq,
  if◌then◌else◌,
}
use ai_workflow_premortem_pu.Dict.{Dict, get}
use ai_workflow_premortem_pu.Model.Enums.{
  Tier, low, medium, high, critical, DataClassification, sensitive_personal, max_tier,
  is_high_or_critical,
}
use ai_workflow_premortem_pu.Model.Records.{RiskFactorScores}
use ai_workflow_premortem_pu.Model.Context.{or_default}

abbrev pub factor_weights : Dict String ℕ
factor_weights =
    ("impact", 3)
    ∷ ("autonomy", 4)
    ∷ ("data_sensitivity", 2)
    ∷ ("reversibility", 2)
    ∷ ("scale", 1)
    ∷ ("external_exposure", 2)
    ∷ []

abbrev pub score_bands : List (ℕ × Tier)
score_bands = (4, low) ∷ (14, medium) ∷ (21, high) ∷ (42, critical) ∷ []

unfoldable pub as_dict : RiskFactorScores → Dict String ℕ
as_dict f =
    ("impact", f.impact)
    ∷ ("autonomy", f.autonomy)
    ∷ ("data_sensitivity", f.data_sensitivity)
    ∷ ("reversibility", f.reversibility)
    ∷ ("scale", f.scale)
    ∷ ("external_exposure", f.external_exposure)
    ∷ []

sum : List ℕ → ℕ
sum [] = 0
sum (x ∷ xs) = x + sum xs

weight : String → ℕ
unfolding get
weight name = or_default (get name factor_weights) 0

unfoldable pub score_factors : RiskFactorScores → ℕ
unfolding as_dict sum weight
score_factors f = sum (map (λ entry. weight entry.0 * entry.1) (as_dict f))

in_band : List (ℕ × Tier) → ℕ → Tier
in_band [] score = critical
in_band ((upper, tier) ∷ bands) score = if leb score upper then tier else in_band bands score

unfoldable pub tier_from_score : ℕ → Tier
unfolding in_band
tier_from_score score = in_band score_bands score

abbrev pub is_sensitive : DataClassification → Bool
is_sensitive sensitive_personal = Bool.true
is_sensitive _ = Bool.false

-- The variables `floor` and `reasons` that `_raise` writes.
pub record Floor : Type 0 where
  pub tier : Tier
  pub reasons : List String

-- `if cond: _raise(tier, reason)`
unfoldable pub raise_when : Bool → Tier → String → Floor → Floor
raise_when cond tier reason s =
    if cond then record { tier = max_tier s.tier tier; reasons = s.reasons ++ reason ∷ [] } else s

abbrev pub no_floor : Floor
no_floor = record { tier = low; reasons = [] }

-- The block under `if data_classification == "sensitive_personal"`.
unfoldable pub sensitive_floor : RiskFactorScores → Tier → Floor → Floor
sensitive_floor f structural s =
    let s =
      raise_when Bool.true high "floor: sensitive_personal classification requires at least HIGH"
        s in
    let s =
      raise_when (is_high_or_critical structural) critical
        "floor: sensitive_personal combined with high structural risk requires CRITICAL" s in
    raise_when (leb 2 f.impact && leb 2 f.reversibility) critical
      "floor: sensitive_personal with material impact and hard-to-reverse action requires CRITICAL"
      s

-- The combinations that require CRITICAL whatever the classification.
unfoldable pub critical_floor : RiskFactorScores → Floor → Floor
critical_floor f s =
    let s =
      raise_when
        (f.impact == 3 && (leb 2 f.autonomy || leb 2 f.reversibility || leb 2 f.external_exposure))
        critical
        "floor: severe impact combined with autonomy/reversibility/external exposure requires CRITICAL"
        s in
    let s =
      raise_when (f.data_sensitivity == 3 && leb 2 f.impact) critical
        "floor: highly sensitive data combined with material impact requires CRITICAL" s in
    let s =
      raise_when (leb 2 f.autonomy && leb 3 f.data_sensitivity && leb 2 f.impact) critical
        "floor: autonomous action over highly sensitive data requires CRITICAL" s in
    let s =
      raise_when (f.reversibility == 3 && leb 2 f.impact) critical
        "floor: irreversible action with material impact requires CRITICAL" s in
    raise_when (f.external_exposure == 3 && (leb 2 f.autonomy || leb 2 f.data_sensitivity)) critical
      "floor: public/external exposure with autonomy or sensitive data requires CRITICAL" s

-- The combinations that require at least HIGH.
unfoldable pub high_floor : RiskFactorScores → Floor → Floor
high_floor f s =
    let s = raise_when (f.impact == 3) high "floor: severe impact requires at least HIGH" s in
    let s =
      raise_when (leb 2 f.impact && leb 2 f.autonomy) high
        "floor: material impact with autonomous execution requires at least HIGH" s in
    let s =
      raise_when (leb 2 f.impact && leb 2 f.external_exposure) high
        "floor: material impact with external exposure requires at least HIGH" s in
    let s =
      raise_when (leb 3 f.data_sensitivity) high
        "floor: highly sensitive data requires at least HIGH" s in
    let s =
      raise_when (f.scale == 3 && leb 2 f.data_sensitivity) high
        "floor: public/multi-tenant scale with sensitive data requires at least HIGH" s in
    raise_when (leb 2 f.reversibility && leb 2 f.impact) high
      "floor: hard-to-reverse action with material impact requires at least HIGH" s

unfoldable pub collect_floor : RiskFactorScores → Tier → DataClassification → Floor
collect_floor f structural classification =
    let s =
      if is_sensitive classification then sensitive_floor f structural no_floor else no_floor in
    high_floor f (critical_floor f s)

pub record RiskEvaluation : Type 0 where
  pub structural_tier : Tier
  pub floor_tier : Tier
  pub effective_tier : Tier
  pub score : ℕ
  pub floor_reasons : List String

unfoldable pub evaluate_risk : RiskFactorScores → DataClassification → RiskEvaluation
evaluate_risk f classification =
    let score = score_factors f in
    let structural = tier_from_score score in
    let floor = collect_floor f structural classification in
    record {
      structural_tier = structural;
      floor_tier = floor.tier;
      effective_tier = max_tier structural floor.tier;
      score = score;
      floor_reasons = floor.reasons;
    }
