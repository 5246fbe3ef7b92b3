-- ===== src/Gates/Manifest.antt =====
-- core/gates/rules/manifest.py: the version of each rule and whether it is a safety bottom line.
use ai_workflow_premortem_pu.Prelude.{
  String, Bool, true, false, Option, none, some, [], ◌∷◌, string_eq,
}
use ai_workflow_premortem_pu.Dict.{Dict, get}

pub record RuleMeta : Type 0 where
  pub version : String
  pub owner : String
  pub since_app_version : String
  pub safety_bottom_line : Bool

abbrev meta : String → String → String → Bool → RuleMeta
meta version owner since bottom = record {
  version = version;
  owner = owner;
  since_app_version = since;
  safety_bottom_line = bottom;
}

unfoldable pub rule_manifest : Dict String RuleMeta
rule_manifest =
    ("missing_output", meta "1.0.0" "project-owner" "1.0.0" true)
    ∷ ("stale_dependency", meta "1.0.0" "project-owner" "1.0.0" true)
    ∷ ("action_state", meta "1.0.0" "project-owner" "1.0.0" true)
    ∷ ("parser_error", meta "1.0.0" "project-owner" "1.0.0" true)
    ∷ ("safety_finding", meta "1.1.0" "security" "1.0.2" true)
    ∷ ("stage1_evidence_gap", meta "1.0.0" "project-owner" "1.0.0" false)
    ∷ ("stage2_policy_gap", meta "1.0.0" "project-owner" "1.0.0" false)
    ∷ ("stage3_eval_failure", meta "1.0.0" "project-owner" "1.0.0" false)
    ∷ ("redteam_coverage", meta "1.1.0" "security" "1.0.2" false)
    ∷ ("eval_regression", meta "1.0.0" "project-owner" "1.0.0" false)
    ∷ ("trace_backfill_gap", meta "1.0.0" "project-owner" "1.0.0" false)
    ∷ ("stage4_final_governance", meta "1.0.0" "compliance" "1.0.0" true)
    ∷ ("risk_treatment", meta "1.0.0" "compliance" "1.6.0" true)
    ∷ ("expert_review", meta "1.1.0" "compliance" "1.1.0" true)
    ∷ []

unfoldable pub get_rule_meta : String → Option RuleMeta
unfolding rule_manifest get
get_rule_meta rule_id = get rule_id rule_manifest

unfoldable pub get_rule_version : String → String
unfolding get_rule_meta
get_rule_version rule_id = elim (get_rule_meta rule_id) [ none ↦ "0.0.0" | some m ↦ m.version ]

unfoldable pub is_safety_bottom_line : String → Bool
unfolding get_rule_meta
is_safety_bottom_line rule_id = elim (get_rule_meta rule_id) [
  | none ↦ false
  | some m ↦ m.safety_bottom_line
]
