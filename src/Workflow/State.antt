-- ===== src/Workflow/State.antt =====
-- core/workflow_state_service.py. A raised error leaves the context as it was, so a fallible
-- operation returns the new context or the error.
use ai_workflow_premortem_pu.Prelude.{
  String, Bool, true, false, not, ◌&&◌, ◌||◌, Option, none, some, Outcome, ok, raised, raise_if,
  ◌>>=◌, ◌>>◌, ◌==◌, string_eq, if◌then◌else◌, concat, List, [], ◌∷◌, find_first,
}
use ai_workflow_premortem_pu.Model.Enums.{
  SessionState, init, s1_running, s1_review, s2_running, s2_review, s3_running, s3_review,
  s4_running, s4_review, iterating, complete, error, recovery_required, StateValue, known, unknown,
}
use ai_workflow_premortem_pu.Model.Context.{ProjectContext, append_audit_event}

-- The values of the enumeration `SessionState`.
abbrev pub session_state_value : SessionState → String
session_state_value init = "init"
session_state_value s1_running = "s1_running"
session_state_value s1_review = "s1_review"
session_state_value s2_running = "s2_running"
session_state_value s2_review = "s2_review"
session_state_value s3_running = "s3_running"
session_state_value s3_review = "s3_review"
session_state_value s4_running = "s4_running"
session_state_value s4_review = "s4_review"
session_state_value iterating = "iterating"
session_state_value complete = "complete"
session_state_value error = "error"
session_state_value recovery_required = "recovery_required"

abbrev pub all_states : List SessionState
all_states =
    init ∷ s1_running ∷ s1_review ∷ s2_running ∷ s2_review ∷ s3_running ∷ s3_review ∷ s4_running
    ∷ s4_review ∷ iterating ∷ complete ∷ error ∷ recovery_required ∷ []

-- `SessionState(text)`: the member with that value.
unfoldable pub parse_state : String → Option SessionState
parse_state text = find_first (λ s. session_state_value s == text) all_states

unfoldable pub state_value : StateValue → String
state_value (known s) = session_state_value s
state_value (unknown text) = text

abbrev is_member : Option SessionState → Bool
is_member none = false
is_member (some _) = true

unfoldable pub is_known_state : StateValue → Bool
unfolding state_value parse_state
is_known_state v = is_member (parse_state (state_value v))

-- `value in BLOCKED_STATES`
unfoldable pub is_blocked : StateValue → Bool
is_blocked (known error) = true
is_blocked (known recovery_required) = true
is_blocked (known _) = false
is_blocked (unknown text) = text == "error" || text == "recovery_required"

-- `member in RESUMABLE_STATES`
unfoldable pub is_resumable : SessionState → Bool
is_resumable complete = false
is_resumable error = false
is_resumable recovery_required = false
is_resumable _ = true

pub data WorkflowError : Type 0 where
  workflow_blocked : String → String → String → WorkflowError
  unknown_target not_recoverable not_blocked : WorkflowError

-- The repr of the raw state stands in the reason; here the raw text does.
unfoldable pub mark_invalid_state : ProjectContext → String → ProjectContext
mark_invalid_state ctx raw_state =
    append_audit_event
      (record ctx { current_state = known recovery_required; last_error = some raw_state }) "system"
      "workflow_state_invalid" "workflow" ctx.session_id

unfoldable pub mark_workflow_error : ProjectContext → String → ProjectContext
mark_workflow_error ctx reason =
    append_audit_event (record ctx { current_state = known error; last_error = some reason })
      "system" "workflow_error" "workflow" ctx.session_id

unfoldable pub mark_advancement_blocked : ProjectContext → ProjectContext
mark_advancement_blocked ctx =
    append_audit_event ctx "system" "workflow_advancement_blocked" "workflow" ctx.session_id

-- `s or default`: an empty text counts as absent.
abbrev pub text_or : Option String → String → String
text_or none d = d
text_or (some s) d = if s == "" then d else s

unfoldable pub assert_advanceable : ProjectContext → Outcome WorkflowError (Unit {0})
assert_advanceable ctx =
    let state = state_value ctx.current_state in
    do
      raise_if (is_blocked ctx.current_state)
          (workflow_blocked state (text_or ctx.last_error "") ctx.session_id)
      raise_if (not (is_known_state ctx.current_state))
          (workflow_blocked state (text_or ctx.last_error "unknown workflow state") ctx.session_id)

-- The two entries of a stored context that `sanitize_persisted_state` reads and writes.
pub record PersistedState : Type 0 where
  pub current_state : Option String
  pub last_error : Option String

-- `repr` is that of Python, of a text.
unfoldable pub sanitize_persisted_state : (String → String) → PersistedState → PersistedState
sanitize_persisted_state repr raw = elim raw.current_state [
  | none ↦ raw
  | some value ↦ if is_member (parse_state value) then raw else record {
    current_state = some (session_state_value recovery_required);
    last_error = some (concat "invalid persisted workflow state: " (repr value));
  }
]

-- `_resolve_target`, at a text; a member is its value.
unfoldable pub resolve_target : String → Outcome WorkflowError SessionState
resolve_target text = elim (parse_state text) [
  | none ↦ raised unknown_target
  | some candidate ↦ if is_resumable candidate then ok candidate else raised not_recoverable
]

unfoldable pub recover_workflow :
    ProjectContext → String → String → Outcome WorkflowError ProjectContext
recover_workflow ctx target_state actor = do
  target ← resolve_target target_state
  raise_if (not (is_blocked ctx.current_state) && is_known_state ctx.current_state) not_blocked
  ok (
      append_audit_event (record ctx { current_state = known target; last_error = some "" }) actor
        "workflow_recovered" "workflow" ctx.session_id)
