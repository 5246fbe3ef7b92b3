-- ===== src/Risk/Profile.antt =====
-- core/risk/profile.py: the gates of stage 3 that a tier requires, and the strict-output policy. The
-- explanatory `rationale` is left out.
use ai_workflow_premortem_pu.Prelude.{String, Bool, true, false, ◌||◌, if◌then◌else◌}
use ai_workflow_premortem_pu.Model.Enums.{
  Tier, high, critical, DataClassification, public_demo, is_high_or_critical,
}
use ai_workflow_premortem_pu.Model.Context.{ProjectContext}
use ai_workflow_premortem_pu.Risk.Rules.{is_sensitive}
use ai_workflow_premortem_pu.Risk.Assessment.{DigestPayload, assess_project_risk}

pub record Stage3GateProfile : Type 0 where
  pub risk_tier : Tier
  pub require_eval_coverage : Bool
  pub require_failed_eval_resolution : Bool
  pub require_redteam_coverage : Bool
  pub require_eval_regression : Bool
  pub require_trace_backfill : Bool
  pub require_expert_review : Bool

-- The chain of `if tier == ...`.
unfoldable pub profile_of_tier : Tier → Stage3GateProfile
profile_of_tier critical = record {
  risk_tier = critical;
  require_eval_coverage = true;
  require_failed_eval_resolution = true;
  require_redteam_coverage = true;
  require_eval_regression = true;
  require_trace_backfill = true;
  require_expert_review = true;
}
profile_of_tier high = record {
  risk_tier = high;
  require_eval_coverage = true;
  require_failed_eval_resolution = true;
  require_redteam_coverage = true;
  require_eval_regression = true;
  require_trace_backfill = true;
  require_expert_review = false;
}
profile_of_tier tier = record {
  risk_tier = tier;
  require_eval_coverage = true;
  require_failed_eval_resolution = true;
  require_redteam_coverage = false;
  require_eval_regression = false;
  require_trace_backfill = false;
  require_expert_review = false;
}

-- `data_classification == "public_demo"`
abbrev pub is_public_demo : DataClassification → Bool
is_public_demo public_demo = true
is_public_demo _ = false

module _ (re_search : String → String → Bool) (hash : DigestPayload → String) where
  unfoldable pub requires_strict_structured_output : ProjectContext → Bool
  requires_strict_structured_output ctx =
      if is_public_demo ctx.data_classification
      then false
      else (is_high_or_critical (assess_project_risk re_search hash ctx).effective_tier
          || is_sensitive ctx.data_classification)

  unfoldable pub build_stage3_gate_profile : ProjectContext → Stage3GateProfile
  build_stage3_gate_profile ctx =
      profile_of_tier (assess_project_risk re_search hash ctx).effective_tier
