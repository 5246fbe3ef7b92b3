-- ===== src/Gates/Policy.antt =====
-- graph/transition_policy.py: which decisions close a human action, and which let the stage go on. The
-- message of an effect is left out.
use ai_workflow_premortem_pu.Prelude.{
  ℕ, String, Bool, true, false, not, ◌&&◌, ◌||◌, Option, none, some, List, [], ◌∷◌, any, mem, ltb,
  strip, is_empty, Outcome, ok, raised, ◌==◌, string_eq, if◌then◌else◌,
}
use ai_workflow_premortem_pu.Dict.{Dict, get}
use ai_workflow_premortem_pu.Model.Enums.{
  ActionType, approve, edit, reject, verify_evidence, escalate,
}
use ai_workflow_premortem_pu.Model.Records.{PendingHumanAction}

-- A value of the payload: a dict with its number of entries, or anything else.
pub data PayloadValue : Type 0 where
  entries : ℕ → PayloadValue
  other_value : PayloadValue

pub record ResolutionEffect : Type 0 where
  pub allow_resolve : Bool
  pub allow_continue : Bool
  pub require_revision : Bool
  pub require_escalation : Bool

abbrev effect : Bool → Bool → Bool → Bool → ResolutionEffect
effect resolve continue revision escalation = record {
  allow_resolve = resolve;
  allow_continue = continue;
  require_revision = revision;
  require_escalation = escalation;
}

abbrev pub closes : ResolutionEffect
closes = effect true true false false

abbrev pub closes_for_revision : ResolutionEffect
closes_for_revision = effect true false true false

abbrev pub refused : ResolutionEffect
refused = effect false false false false

abbrev pub refused_for_revision : ResolutionEffect
refused_for_revision = effect false false true false

abbrev pub refused_for_escalation : ResolutionEffect
refused_for_escalation = effect false false false true

abbrev structured_edit_source_types : List String
structured_edit_source_types = "parser" ∷ "policy_gap" ∷ "evidence_gap" ∷ "eval_coverage" ∷ []

abbrev structured_stage_schema_keys : List String
structured_stage_schema_keys =
    "failure_modes" ∷ "workflow_nodes" ∷ "test_cases" ∷ "trigger_methods" ∷ []

abbrev is_full_dict : Option PayloadValue → Bool
is_full_dict (some (entries n)) = ltb 0 n
is_full_dict _ = false

abbrev has_key : Dict String PayloadValue → String → Bool
has_key payload key = any (λ (e : String × PayloadValue). e.0 == key) payload

-- `not payload_after`: `None` and the empty dict.
abbrev pub no_payload : Option (Dict String PayloadValue) → Bool
no_payload none = true
no_payload (some p) = is_empty p

unfoldable pub has_structured_stage_payload : Option (Dict String PayloadValue) → Bool
unfolding get
has_structured_stage_payload none = false
has_structured_stage_payload (some []) = false
has_structured_stage_payload (some (e ∷ p)) =
    is_full_dict (get "structured_output" (e ∷ p))
    || any (has_key (e ∷ p)) structured_stage_schema_keys

unfoldable pub edit_effect : String → String → Option (Dict String PayloadValue) → ResolutionEffect
unfolding has_structured_stage_payload
edit_effect source_type decision payload =
    if decision == "approve" && source_type == "eval_run"
    then closes
    else if decision == "edit"
    then if no_payload payload
      then refused_for_revision
      else if mem source_type structured_edit_source_types
          && not (has_structured_stage_payload payload)
      then refused_for_revision
      else closes
    else if decision == "reject"
    then closes_for_revision
    else refused

unfoldable pub effect_of :
    ActionType → String → String → Option (Dict String PayloadValue) → ResolutionEffect
unfolding edit_effect
effect_of verify_evidence source_type decision payload =
    if mem decision ("verify_evidence" ∷ "verified" ∷ "approve" ∷ [])
    then closes
    else if mem decision ("dismiss" ∷ "dismissed" ∷ "reject" ∷ [])
    then closes
    else refused
effect_of approve source_type decision payload =
    if decision == "approve"
    then closes
    else if decision == "reject"
    then closes_for_revision
    else refused
effect_of edit source_type decision payload = edit_effect source_type decision payload
effect_of escalate source_type decision payload =
    if decision == "approve" then closes else refused_for_escalation
effect_of reject source_type decision payload = refused

unfoldable pub evaluate_action_resolution :
    PendingHumanAction → String → Option (Dict String PayloadValue) → ResolutionEffect
unfolding effect_of
evaluate_action_resolution a decision payload =
    effect_of a.action_type a.source_type (strip decision) payload

pub data PolicyError : Type 0 where
  transition_refused : PolicyError

unfoldable pub assert_action_resolution_allowed :
    PendingHumanAction
    → String
    → Option (Dict String PayloadValue)
    → Outcome PolicyError ResolutionEffect
unfolding evaluate_action_resolution
assert_action_resolution_allowed a decision payload =
    let e = evaluate_action_resolution a decision payload in
    if e.allow_resolve then ok e else raised transition_refused
