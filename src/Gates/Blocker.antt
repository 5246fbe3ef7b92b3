-- ===== src/Gates/Blocker.antt =====
-- `StageBlocker`, `_safe_token`, `_blocker` and the searches over a stage's actions of
-- core/stage_readiness_service.py. Messages and metadata are left out.
use Prim.Native.Char.{code}
use Prim.Native.String.{String}
use ai_workflow_premortem_pu.Prelude.{
  ℕ, zero, suc, Bool, true, false, ◌&&◌, ◌||◌, Option, none, some, List, ◌≡◌, refl, concat,
  is_blank, leb, ltb, keep_if, find_first, ◌==◌, nat_eq, string_eq, option_string_eq, if◌then◌else◌,
}
use Prim.Native.Nat.{◌/◌, ◌%◌}
use ai_workflow_premortem_pu.Model.Enums.{Tier, is_pending}
use ai_workflow_premortem_pu.Model.Records.{PendingHumanAction}
use ai_workflow_premortem_pu.Model.Context.{ProjectContext, or_default, current_version}

pub data BlockerType : Type 0 where
  missing_stage_output stale_dependency pending_action rejected_action unresolved_escalation
        parser_error safety_finding evidence_gap policy_gap eval_failure redteam_coverage
        eval_regression trace_backfill_gap final_governance expert_review risk_treatment
        gate_rule_error gate_data_error :
      BlockerType

abbrev pub blocker_type_text : BlockerType → String
blocker_type_text missing_stage_output = "missing_stage_output"
blocker_type_text stale_dependency = "stale_dependency"
blocker_type_text pending_action = "pending_action"
blocker_type_text rejected_action = "rejected_action"
blocker_type_text unresolved_escalation = "unresolved_escalation"
blocker_type_text parser_error = "parser_error"
blocker_type_text safety_finding = "safety_finding"
blocker_type_text evidence_gap = "evidence_gap"
blocker_type_text policy_gap = "policy_gap"
blocker_type_text eval_failure = "eval_failure"
blocker_type_text redteam_coverage = "redteam_coverage"
blocker_type_text eval_regression = "eval_regression"
blocker_type_text trace_backfill_gap = "trace_backfill_gap"
blocker_type_text final_governance = "final_governance"
blocker_type_text expert_review = "expert_review"
blocker_type_text risk_treatment = "risk_treatment"
blocker_type_text gate_rule_error = "gate_rule_error"
blocker_type_text gate_data_error = "gate_data_error"

pub data RequiredResolution : Type 0 where
  run_stage rerun_stage resolve_action verify_evidence edit_stage_output revise_stage back_stage
        approve_escalation resolve_safety_finding create_eval_dataset_from_stage3
        add_eval_cases_to_dataset set_eval_baseline create_eval_experiment run_eval_experiment
        compare_eval_experiment generate_redteam_cases approve_redteam_case sync_redteam_eval_case
        create_redteam_dataset trace_to_eval_case create_trace_backfill_dataset
        approve_expert_review complete_risk_treatment retry_gate_persistence :
      RequiredResolution

pub record StageBlocker : Type 0 where
  pub blocker_id : String
  pub stage_id : ℕ
  pub stage_output_version : ℕ
  pub blocker_type : BlockerType
  pub rule_id : String
  pub severity : Tier
  pub source_type : Option String
  pub source_id : Option String
  pub action_id : Option String
  pub required_resolution : RequiredResolution
  pub can_be_overridden_by_approval : Bool

digit : ℕ → String
digit d =
    if d == 0
    then "0"
    else if d == 1
    then "1"
    else if d == 2
    then "2"
    else if d == 3
    then "3"
    else if d == 4
    then "4"
    else if d == 5
    then "5"
    else if d == 6
    then "6"
    else if d == 7
    then "7"
    else if d == 8
    then "8"
    else "9"

-- `str(n)`, on fuel: a number has at most as many digits as its successor counts.
digits_from : ℕ → ℕ → String
unfolding digit
digits_from zero n = ""
digits_from (suc fuel) n =
    let upper = digits_from fuel (n / 10) in
    concat (if ltb n 10 then "" else upper) (digit (n % 10))

unfoldable pub str : ℕ → String
unfolding digits_from
str n = digits_from (suc n) n

-- `[A-Za-z0-9_-]`
is_token_code : ℕ → Bool
is_token_code c =
    leb b'A' c && leb c b'Z'
    || leb b'a' c && leb c b'z'
    || leb b'0' c && leb c b'9'
    || c == b'_'
    || c == b'-'

-- `re.sub(r"[^A-Za-z0-9_-]+", "_", s)`; the flag says that the run before was replaced already.
substitute : Bool → String → String
unfolding is_token_code
substitute replaced String.[] = String.[]
substitute replaced (String.◌∷◌ c s) = elim (is_token_code (code c)) [
  | true ↦ String.◌∷◌ c (substitute false s)
  | false ↦ if replaced then substitute true s else concat "_" (substitute true s)
]

-- `s.strip("_")`
drop_left : String → String
drop_left String.[] = String.[]
drop_left (String.◌∷◌ c s) =
    let rest = drop_left s in if code c == b'_' then rest else String.◌∷◌ c s

drop_right : String → String
drop_right String.[] = String.[]
drop_right (String.◌∷◌ c s) =
    let rest = drop_right s in
    if code c == b'_' && is_blank rest then String.[] else String.◌∷◌ c rest

-- `s[:n]`
take_chars : ℕ → String → String
take_chars zero s = String.[]
take_chars (suc n) String.[] = String.[]
take_chars (suc n) (String.◌∷◌ c s) = String.◌∷◌ c (take_chars n s)

-- `s or d`
unfoldable pub text_or_default : String → String → String
text_or_default s d = if is_blank s then d else s

-- `_safe_token`, cut after `limit` characters.
unfoldable pub token_upto : ℕ → String → String
unfolding substitute drop_left drop_right take_chars text_or_default
token_upto limit value =
    text_or_default
      (take_chars limit (drop_right (drop_left (substitute false (text_or_default value "none")))))
      "none"

unfoldable pub safe_token : String → String
unfolding token_upto
safe_token value = token_upto 80 value

-- `source_id or action_id or 'gate'`
first_text : Option String → Option String → String
unfolding text_or_default
first_text source_id action_id =
    text_or_default (or_default source_id "") (text_or_default (or_default action_id "") "gate")

raw_id : ℕ → ℕ → BlockerType → String → Option String → Option String → String
unfolding first_text
raw_id stage version type source_type source_id action_id = concat "S" (
    concat (str stage) (
      concat "_V" (
        concat (str version) (
          concat "_" (
            concat (blocker_type_text type)
              (concat "_" (concat source_type (concat "_" (first_text source_id action_id)))))))))

-- `_blocker`, with the `rule_id` that the rule writes into its copy.
unfoldable pub make_blocker :
    ProjectContext
    → ℕ
    → BlockerType
    → String
    → Tier
    → String
    → Option String
    → Option String
    → RequiredResolution
    → Bool
    → StageBlocker
unfolding raw_id
make_blocker ctx stage type rule_id severity source_type source_id action_id resolution override =
    let version = current_version ctx stage in
    record {
      blocker_id = safe_token (raw_id stage version type source_type source_id action_id);
      stage_id = stage;
      stage_output_version = version;
      blocker_type = type;
      rule_id = rule_id;
      severity = severity;
      source_type = some source_type;
      source_id = source_id;
      action_id = action_id;
      required_resolution = resolution;
      can_be_overridden_by_approval = override;
    }

-- `_current_stage_actions`
unfoldable pub current_stage_actions : ProjectContext → ℕ → List PendingHumanAction
current_stage_actions ctx stage =
    keep_if (λ a. a.stage_id == stage && a.stage_output_version == current_version ctx stage)
      ctx.pending_actions

abbrev action_id_of : Option PendingHumanAction → Option String
action_id_of none = none
action_id_of (some a) = some a.action_id

-- `_find_pending_action_id`, called with both a source type and a source.
unfoldable pub find_pending_action_id : ProjectContext → ℕ → String → String → Option String
find_pending_action_id ctx stage source_type source_id = action_id_of (
    find_first
      (λ a. a.source_type == source_type && a.source_id == some source_id && is_pending a.status)
      (current_stage_actions ctx stage))

safe_token_test : safe_token "S1_V12_x y//z__" ≡ "S1_V12_x_y_z"
unfolding safe_token
safe_token_test = refl

str_test : str 1207 ≡ "1207"
unfolding str
str_test = refl
