-- ===== src/Actions/Answer.antt =====
-- `resolve_action_with_result` of core/governance/action_resolution.py: resolving an action with an answer
-- instead of exceptions. Of the answer, the identifiers of logs and the hashes of payloads are left out.
pub mod Refines
use ai_workflow_premortem_pu.Prelude.{
  ℕ, String, Bool, true, false, not, ◌&&◌, Option, none, some, Outcome, ok, raised, nat_eq, ◌==◌,
  ◌!=◌, if◌then◌else◌,
}
use ai_workflow_premortem_pu.Model.Enums.{ActionStatus, stale, is_pending}
use ai_workflow_premortem_pu.Model.Records.{
  PendingHumanAction, ActionResolutionLog, ResultStatus, result_resolved, idempotent_replay,
  result_stale, result_conflict, validation_failed, result_not_pending, result_not_found,
  result_forbidden, result_error, ResolutionFault, action_not_found, not_pending, stale_action,
  hash_conflict, target_missing, not_authorised, stale_approval,
}
use ai_workflow_premortem_pu.Model.Context.{ProjectContext, current_version, or_default}
use ai_workflow_premortem_pu.Risk.Assessment.{DigestPayload}
use ai_workflow_premortem_pu.Actions.State.{
  append_action_resolution_log, latest_action_resolution_log, target_object_exists,
}
use ai_workflow_premortem_pu.Actions.Effects.{Services, is_edit}
use ai_workflow_premortem_pu.Actions.Resolution.{
  Request, Step, find_action, write_action, effective_key, counted, failed_with, conflicts,
  resolve_action,
}

pub record ActionResolutionResult : Type 0 where
  pub action_id : String
  pub requested_status : String
  pub result_status : ResultStatus
  pub action_status : Option ActionStatus
  pub before_hash : Option String
  pub after_hash : Option String
  pub error_message : Option ResolutionFault

-- The statuses that a failed attempt takes over from the log that it wrote.
abbrev pub is_failure : ResultStatus → Bool
is_failure validation_failed = true
is_failure result_conflict = true
is_failure result_stale = true
is_failure result_error = true
is_failure _ = false

-- The statuses of a log that stands for a resolution.
abbrev pub is_closing : ResultStatus → Bool
is_closing result_resolved = true
is_closing idempotent_replay = true
is_closing _ = false

failed_status : PendingHumanAction → Option ActionResolutionLog → ResultStatus
failed_status a none = if is_edit a.action_type then validation_failed else result_error
failed_status a (some l) =
    if is_failure l.result_status
    then l.result_status
    else if is_edit a.action_type
    then validation_failed
    else result_error

-- The status that answers an exception.
unfoldable pub status_of_fault :
    PendingHumanAction → Option ActionResolutionLog → ResolutionFault → ResultStatus
unfolding failed_status
status_of_fault a log not_authorised = result_forbidden
status_of_fault a log stale_approval = result_stale
status_of_fault a log _ = failed_status a log

log_after : Option ActionResolutionLog → Option String
log_after none = none
log_after (some l) = l.after_hash

-- An exception of the policy says nothing of the log for the two faults of a review.
after_of_fault : ResolutionFault → Option ActionResolutionLog → Option String
unfolding log_after
after_of_fault not_authorised log = none
after_of_fault stale_approval log = none
after_of_fault _ log = log_after log

module _ (re_search : String → String → Bool) (hash : DigestPayload → String)
    (action_hash payload_hash : PendingHumanAction → String) (services : Services) where
  -- The answer where the action is left open, with the error and the log; `write` is what else is written
  -- to the action.
  unfoldable pub decline :
      ProjectContext
      → Request
      → PendingHumanAction
      → (PendingHumanAction → PendingHumanAction)
      → ResolutionFault
      → ResultStatus
      → ActionResolutionResult × ProjectContext
  decline ctx req a write fault status = (
    record {
      action_id = a.action_id;
      requested_status = req.decision;
      result_status = status;
      action_status = some (write a).status;
      before_hash = some (action_hash a);
      after_hash = none;
      error_message = some fault;
    },
    append_action_resolution_log
        (write_action a.action_id (λ b. failed_with fault (counted (write b))) ctx)
        (record {
          action_id = a.action_id;
          idempotency_key = effective_key req a;
          requested_status = req.decision;
          result_status = status;
          before_hash = some (action_hash a);
          after_hash = none;
          error_message = some fault;
          created_at = req.now;
        }),
  )

  -- The answer to `resolve_action`, called with the effective key.
  unfoldable pub answer_of :
      Request
      → PendingHumanAction
      → Step PendingHumanAction
      → ActionResolutionResult × ProjectContext
  unfolding after_of_fault
  answer_of req a (ok b, ctx) = (
    record {
      action_id = req.action_id;
      requested_status = req.decision;
      result_status = result_resolved;
      action_status = some b.status;
      before_hash = some (action_hash a);
      after_hash = some (action_hash b);
      error_message = none;
    },
    ctx,
  )
  answer_of req a (raised fault, ctx) =
      let log = latest_action_resolution_log ctx req.action_id (effective_key req a) in
      (
        record {
          action_id = req.action_id;
          requested_status = req.decision;
          result_status = status_of_fault a log fault;
          action_status = some (or_default (find_action ctx req.action_id) a).status;
          before_hash = some (action_hash a);
          after_hash = after_of_fault fault log;
          error_message = some fault;
        },
        ctx,
      )

  -- An action that is not pending: a replay, or an error; `log` is the latest under the key.
  unfoldable pub not_pending_answer :
      Request → PendingHumanAction → Option ActionResolutionLog → ActionResolutionResult
  not_pending_answer req a none = record {
    action_id = req.action_id;
    requested_status = req.decision;
    result_status = result_not_pending;
    action_status = some a.status;
    before_hash = some (action_hash a);
    after_hash = none;
    error_message = some not_pending;
  }
  not_pending_answer req a (some l) =
      let closed = is_closing l.result_status in
      record {
        action_id = req.action_id;
        requested_status = req.decision;
        result_status = if closed then idempotent_replay else result_not_pending;
        action_status = some a.status;
        before_hash = if closed then l.before_hash else some (action_hash a);
        after_hash = if closed then l.after_hash else none;
        error_message = if closed then none else some not_pending;
      }

  abbrev pub keyed : Request → PendingHumanAction → Request
  keyed req a = record req { key = effective_key req a }

  unfoldable pub answer_found :
      ProjectContext → Request → PendingHumanAction → ActionResolutionResult × ProjectContext
  unfolding decline answer_of not_pending_answer
  answer_found ctx req a =
      let log = latest_action_resolution_log ctx req.action_id (effective_key req a) in
      if not (is_pending a.status)
      then (not_pending_answer req a log, ctx)
      else if a.stage_output_version != current_version ctx a.stage_id
      then decline ctx req a (λ b. record b { status = stale }) stale_action result_stale
      else if conflicts re_search hash action_hash payload_hash services req a
      then decline ctx req a (λ b. b) hash_conflict result_conflict
      else if not (target_object_exists ctx a)
      then decline ctx req a (λ b. b) target_missing result_conflict
      else answer_of req a
          (resolve_action re_search hash action_hash payload_hash services ctx (keyed req a))

  answer_search :
      ProjectContext → Request → Option PendingHumanAction → ActionResolutionResult × ProjectContext
  unfolding answer_found
  answer_search ctx req none = (
    record {
      action_id = req.action_id;
      requested_status = req.decision;
      result_status = result_not_found;
      action_status = none;
      before_hash = none;
      after_hash = none;
      error_message = some action_not_found;
    },
    ctx,
  )
  answer_search ctx req (some a) = answer_found ctx req a

  unfoldable pub resolve_action_with_result :
      ProjectContext → Request → ActionResolutionResult × ProjectContext
  unfolding answer_search
  resolve_action_with_result ctx req = answer_search ctx req (find_action ctx req.action_id)
