-- ===== src/Model/Enums.antt =====
-- The enumerations of core/models.py and core/risk/models.py. Where Python holds a plain text that
-- no validator checks (reviewer decisions, source types), the model keeps the text.
use ai_workflow_premortem_pu.Prelude.{
  ℕ, String, ◌≡◌, Bool, true, false, arith, ltb, max, if◌then◌else◌,
}

pub data SessionState : Type 0 where
  init s1_running s1_review s2_running s2_review s3_running s3_review s4_running s4_review iterating
        complete error recovery_required :
      SessionState

-- `current_state` as it is stored: a text that is no member of the enumeration is possible, since
-- assignments are not validated and old rows are loaded.
pub data StateValue : Type 0 where
  known : SessionState → StateValue
  unknown : String → StateValue

pub data ActionType : Type 0 where
  approve edit reject verify_evidence escalate : ActionType

pub data ActionStatus : Type 0 where
  pending resolved cancelled superseded stale : ActionStatus

pub data FindingStatus : Type 0 where
  open_finding resolved_finding dismissed_finding : FindingStatus

-- `Literal["low", "medium", "high", "critical"]`: severities, risk levels and risk tiers.
pub data Tier : Type 0 where
  low medium high critical : Tier

pub data DataClassification : Type 0 where
  public_demo business_internal sensitive_personal : DataClassification

pub data RiskFactorSource : Type 0 where
  human scenario llm_assisted system_default legacy_inference : RiskFactorSource

-- TIER_ORDER
abbrev pub tier_order : Tier → ℕ
tier_order low = 0
tier_order medium = 1
tier_order high = 2
tier_order critical = 3

pub tier_order_injective : (a b : Tier) → tier_order a ≡ tier_order b → a ≡ b
tier_order_injective a b h = ground arith

-- `max(a, b, key=TIER_ORDER)`: the first of two equal ones.
abbrev pub max_tier : Tier → Tier → Tier
max_tier a b = if ltb (tier_order a) (tier_order b) then b else a

pub tier_order-max_tier :
    (a b : Tier) → tier_order (max_tier a b) ≡ max (tier_order a) (tier_order b)
tier_order-max_tier a b = ground arith

abbrev pub is_high_or_critical : Tier → Bool
is_high_or_critical high = true
is_high_or_critical critical = true
is_high_or_critical _ = false

abbrev pub is_pending : ActionStatus → Bool
is_pending pending = true
is_pending _ = false

abbrev pub is_resolved : ActionStatus → Bool
is_resolved resolved = true
is_resolved _ = false

-- `status in {"cancelled", "superseded"}`
abbrev pub is_inactive : ActionStatus → Bool
is_inactive cancelled = true
is_inactive superseded = true
is_inactive _ = false

abbrev pub is_escalate : ActionType → Bool
is_escalate escalate = true
is_escalate _ = false

-- `action_type in {"approve", "edit", "escalate"}`
abbrev pub is_decisive : ActionType → Bool
is_decisive approve = true
is_decisive edit = true
is_decisive escalate = true
is_decisive _ = false

abbrev pub is_open : FindingStatus → Bool
is_open open_finding = true
is_open _ = false
