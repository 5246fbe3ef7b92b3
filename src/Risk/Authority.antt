-- ===== src/Risk/Authority.antt =====
-- Runs of risk operations by one actor role, and what changed inputs do to an old override
-- (core/risk/assessment.py).
use native.Mathlib.Nat.{le_refl, le_trans}
use ai_workflow_premortem_pu.Prelude.{◌≤◌, String, ◌≡◌, ◌≢◌, Bool, ok, string_eq}
use ai_workflow_premortem_pu.Model.Enums.{tier_order}
use ai_workflow_premortem_pu.Model.Records.{RiskFactorScores, RiskOverrideRecord}
use ai_workflow_premortem_pu.Model.Context.{ProjectContext}
use ai_workflow_premortem_pu.Risk.Assessment.{
  DigestPayload, RiskAssessment, set_risk_profile, apply_risk_override,
}
use ai_workflow_premortem_pu.Risk.Overrides.{
  tier_of, apply_risk_override-no_downgrade, set_risk_profile-no_downgrade,
}

module _ (re_search : String → String → Bool) (hash : DigestPayload → String) (role : String) where
  pub data RiskStep : ProjectContext → ProjectContext → Type 0 where
    overridden :
        (ctx ctx' : ProjectContext) (tier reason actor id : String) (r : RiskOverrideRecord)
        → apply_risk_override re_search hash ctx tier reason actor role id ≡ ok (r, ctx')
        → RiskStep ctx ctx'
    edited :
        (ctx ctx' : ProjectContext) (f : RiskFactorScores) (a : RiskAssessment)
        → set_risk_profile re_search hash ctx f role ≡ ok (a, ctx')
        → RiskStep ctx ctx'

  pub data RiskRun (ctx : ProjectContext) : ProjectContext → Type 0 where
    here : RiskRun ctx ctx
    then_step : {c d : ProjectContext} → RiskRun ctx c → RiskStep c d → RiskRun ctx d

  step_no_downgrade :
      {c d : ProjectContext}
      → role ≢ "admin"
      → RiskStep c d
      → tier_order (tier_of re_search hash c) ≤ tier_order (tier_of re_search hash d)
  step_no_downgrade n (overridden c d t reason actor id r h) =
      apply_risk_override-no_downgrade re_search hash c t reason actor role id r d n h
  step_no_downgrade n (edited c d f a h) =
      (set_risk_profile-no_downgrade re_search hash c f role a d n h).0

  -- However many overrides and factor edits are granted to a role other than admin, in whatever
  -- order, the effective tier never falls below where it started.
  pub RiskRun-no_downgrade :
      {c d : ProjectContext}
      → role ≢ "admin"
      → RiskRun c d
      → tier_order (tier_of re_search hash c) ≤ tier_order (tier_of re_search hash d)
  RiskRun-no_downgrade n here = le_refl _
  RiskRun-no_downgrade n (then_step r s) =
      le_trans (RiskRun-no_downgrade n r) (step_no_downgrade n s)
