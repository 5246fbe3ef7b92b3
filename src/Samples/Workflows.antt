-- ===== src/Samples/Workflows.antt =====
-- Tests of blocked states and recovery.
use ai_workflow_premortem_pu.Model.Context.{append_audit_event}
use ai_workflow_premortem_pu.Prelude.{◌≡◌, ◌≢◌, refl, none, some, ok, value_of, String, concat}
use ai_workflow_premortem_pu.Samples.{base}
use ai_workflow_premortem_pu.Model.Enums.{SessionState, complete, known}
use ai_workflow_premortem_pu.Model.Context.{ProjectContext}
use ai_workflow_premortem_pu.Workflow.State.{
  parse_state, state_value, session_state_value, assert_advanceable, mark_workflow_error,
  recover_workflow, resolve_target, is_resumable, PersistedState, sanitize_persisted_state,
  is_blocked,
}
use ai_workflow_premortem_pu.Workflow.Recovery.{
  recover_workflow-assert_advanceable, sanitize_persisted_state_known,
}

abbrev failed : ProjectContext
failed = mark_workflow_error base "timeout"

abbrev recovered : ProjectContext
recovered = value_of (recover_workflow failed "s2_review" "carol") base

recovered_ok : recover_workflow failed "s2_review" "carol" ≡ ok recovered
unfolding recover_workflow mark_workflow_error resolve_target parse_state is_resumable is_blocked
    append_audit_event
recovered_ok = refl

recover_workflow-assert_advanceable_example :
    (assert_advanceable failed ≢ ok tt)
    × (assert_advanceable recovered ≡ ok tt)
    × (state_value recovered.current_state ≡ "s2_review")
    × (recovered.current_state ≢ known complete)
    × (recovered.last_error ≡ some "")
recover_workflow-assert_advanceable_example =
    recover_workflow-assert_advanceable failed recovered "s2_review" "carol" recovered_ok

abbrev quoted : String → String
quoted value = concat "'" (concat value "'")

abbrev torn : PersistedState
torn = record { current_state = some "s9_review"; last_error = none }

sanitize_persisted_state_known_example :
    (torn.current_state ≡ none → sanitize_persisted_state quoted torn ≡ torn)
    × ((s : SessionState)
        → torn.current_state ≡ some (session_state_value s)
        → sanitize_persisted_state quoted torn ≡ torn)
    × ((value : String)
        → torn.current_state ≡ some value
        → ((s : SessionState) → session_state_value s ≢ value)
        → ((sanitize_persisted_state quoted torn).current_state ≡ some "recovery_required")
          × ((sanitize_persisted_state quoted torn).last_error
              ≡ some (concat "invalid persisted workflow state: " (quoted value)))
          × ((ctx : ProjectContext)
              → (sanitize_persisted_state quoted torn).current_state
                ≡ some (state_value ctx.current_state)
              → assert_advanceable ctx ≢ ok tt))
    × (sanitize_persisted_state quoted (sanitize_persisted_state quoted torn)
        ≡ sanitize_persisted_state quoted torn)
sanitize_persisted_state_known_example = sanitize_persisted_state_known quoted torn
