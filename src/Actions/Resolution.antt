-- ===== src/Actions/Resolution.antt =====
-- `resolve_action` of core/governance/action_resolution.py. Identifiers of actions are unique, so that
-- the loop over the actions is the search for the first with the identifier, and where the code leaves
-- it by `continue`, it finds no other. Where no note was given, the code keeps the policy's message;
-- messages are left out.
pub mod Checks
pub mod Refusing
pub mod Closing
pub mod Again
use ai_workflow_premortem_pu.Prelude.{
  ℕ, ◌+◌, String, Bool, true, false, not, ◌&&◌, Option, none, some, List, [], ◌∷◌, find_first,
  update_first, mem, is_blank, Outcome, ok, raised, ◌>>◌, nat_eq, string_eq, ◌==◌, ◌!=◌,
  if◌then◌else◌,
}
use ai_workflow_premortem_pu.Model.Enums.{resolved, is_pending}
use ai_workflow_premortem_pu.Model.Records.{
  PendingHumanAction, ActionResolutionLog, ResultStatus, result_resolved, result_stale,
  result_conflict, validation_failed, result_error, ResolutionFault, action_not_found, not_pending,
  stale_action, hash_conflict, not_authorised, stale_approval, transition_denied, effect_failed,
}
use ai_workflow_premortem_pu.Model.Context.{
  ProjectContext, append_audit_event, current_version, or_default,
}
use ai_workflow_premortem_pu.Risk.Assessment.{DigestPayload}
use ai_workflow_premortem_pu.Gates.Approver.{
  ReviewError, not_admin, reviewer_missing, creator_missing, self_approval, digest_missing,
  stale_digest, validate_expert_review_approval,
}
use ai_workflow_premortem_pu.Gates.Policy.{
  PolicyError, ResolutionEffect, assert_action_resolution_allowed,
}
use ai_workflow_premortem_pu.Actions.State.{
  action_resolution_log_exists, append_action_resolution_log,
}
use ai_workflow_premortem_pu.Actions.Effects.{
  Payload, Services, is_edit, apply_pre_resolution_effects, apply_post_resolution_effects,
}

-- The arguments of a call, and the time.
pub record Request : Type 0 where
  pub action_id : String
  pub decision : String
  pub note : String
  pub payload_after : Payload
  pub key : Option String
  pub expected_before_hash : Option String
  pub actor_id : String
  pub actor_role : String
  pub now : ℕ

abbrev pub find_action : ProjectContext → String → Option PendingHumanAction
find_action ctx id = find_first (λ (a : PendingHumanAction). a.action_id == id) ctx.pending_actions

-- Writing to the action object.
unfoldable pub write_action :
    String → (PendingHumanAction → PendingHumanAction) → ProjectContext → ProjectContext
write_action id f ctx = record ctx {
  pending_actions =
      update_first (λ (a : PendingHumanAction). a.action_id == id) f ctx.pending_actions;
}

-- `idempotency_key or action.idempotency_key`
abbrev pub effective_key : Request → PendingHumanAction → Option String
effective_key req a = if is_blank (or_default req.key "") then a.idempotency_key else req.key

abbrev pub counted : PendingHumanAction → PendingHumanAction
counted a = record a { resolution_attempts = a.resolution_attempts + 1 }

abbrev pub failed_with : ResolutionFault → PendingHumanAction → PendingHumanAction
failed_with fault a = record a { last_resolution_error = some fault }

abbrev pub resolved_by : Request → Option String → PendingHumanAction → PendingHumanAction
resolved_by req key a = record a {
  status = resolved;
  reviewer_decision = some req.decision;
  reviewer_note = if is_blank req.note then none else some req.note;
  idempotency_key = key;
  last_resolution_error = none;
  resolved_at = some req.now;
}

abbrev failure_status : PendingHumanAction → ResultStatus
failure_status a = if is_edit a.action_type then validation_failed else result_error

abbrev pub Step : Type 0 → Type 0
Step A = Outcome ResolutionFault A × ProjectContext

-- The exception that a refused review becomes; the last two are about a stale approval.
abbrev pub review_fault : ReviewError → ResolutionFault
review_fault digest_missing = stale_approval
review_fault stale_digest = stale_approval
review_fault _ = not_authorised

unfoldable pub reviewed : Outcome ReviewError (Option String) → Outcome ResolutionFault (Unit {0})
reviewed (ok digest) = ok tt
reviewed (raised e) = raised (review_fault e)

unfoldable pub permitted : Outcome PolicyError ResolutionEffect → Outcome ResolutionFault (Unit {0})
permitted (ok effect) = ok tt
permitted (raised e) = raised transition_denied

-- `re.search`, the digest of risk inputs, and `_stable_hash` of an action and of its payload.
module _ (re_search : String → String → Bool) (hash : DigestPayload → String)
    (action_hash payload_hash : PendingHumanAction → String) (services : Services) where
  -- The error and the log of a call that fails.
  unfoldable pub refuse :
      ProjectContext
      → Request
      → PendingHumanAction
      → ResolutionFault
      → ResultStatus
      → Step PendingHumanAction
  refuse ctx req a fault status = (
    raised fault,
    append_action_resolution_log (write_action a.action_id (failed_with fault) ctx) (record {
      action_id = a.action_id;
      idempotency_key = effective_key req a;
      requested_status = req.decision;
      result_status = status;
      before_hash = some (action_hash a);
      after_hash = none;
      error_message = some fault;
      created_at = req.now;
    }),
  )

  -- The two checks before anything is done.
  unfoldable pub allowed :
      ProjectContext → Request → PendingHumanAction → Outcome ResolutionFault (Unit {0})
  unfolding reviewed permitted
  allowed ctx req a =
      reviewed (
        validate_expert_review_approval re_search hash ctx a req.decision req.actor_id
          req.actor_role)
      >> permitted (assert_action_resolution_allowed a req.decision req.payload_after)

  -- The log and the event of a resolved action.
  unfoldable pub logged : ProjectContext → Request → PendingHumanAction → Step PendingHumanAction
  logged ctx req a =
      let now_is = or_default (find_action ctx a.action_id) a in
      (
        ok now_is,
        append_audit_event
            (append_action_resolution_log ctx (record {
              action_id = a.action_id;
              idempotency_key = effective_key req a;
              requested_status = req.decision;
              result_status = result_resolved;
              before_hash = some (action_hash a);
              after_hash = some (action_hash now_is);
              error_message = none;
              created_at = req.now;
            }))
            "user" "human_action_resolved" "human_action" a.action_id,
      )

  unfoldable pub finish :
      Request
      → PendingHumanAction
      → Outcome (Unit {0}) Bool × ProjectContext
      → Step PendingHumanAction
  unfolding refuse logged
  finish req a (raised e, ctx) = refuse ctx req a effect_failed (failure_status a)
  finish req a (ok true, ctx) = (raised action_not_found, ctx)
  finish req a (ok false, ctx) = logged ctx req a

  -- Marking the action resolved, and the effects after that.
  unfoldable pub close_action :
      Request
      → PendingHumanAction
      → Outcome (Unit {0}) (Option Bool) × ProjectContext
      → Step PendingHumanAction
  unfolding finish refuse
  close_action req a (raised e, ctx) = refuse ctx req a effect_failed (failure_status a)
  close_action req a (ok applied, ctx) =
      let key = effective_key req a in
      finish req a (
        apply_post_resolution_effects services (write_action a.action_id (resolved_by req key) ctx)
          (resolved_by req key (counted a)) req.decision req.note applied req.now)

  unfoldable pub attempt_checked :
      ProjectContext
      → Request
      → PendingHumanAction
      → Outcome ResolutionFault (Unit {0})
      → Step PendingHumanAction
  unfolding refuse close_action
  attempt_checked ctx req a (raised fault) = refuse ctx req a fault (failure_status a)
  attempt_checked ctx req a (ok _) =
      close_action req a
        (apply_pre_resolution_effects services ctx a req.decision req.payload_after)

  -- The `try` block.
  unfoldable pub attempt : ProjectContext → Request → PendingHumanAction → Step PendingHumanAction
  unfolding attempt_checked
  attempt ctx req a = attempt_checked ctx req a (allowed ctx req a)

  -- The client saw another action than the present one.
  unfoldable pub conflicts : Request → PendingHumanAction → Bool
  conflicts req a =
      let expected = or_default req.expected_before_hash "" in
      not (is_blank expected) && not (mem expected (action_hash a ∷ payload_hash a ∷ []))

  -- The body of the loop. `a` is the action as it is found; its attempts are counted first.
  unfoldable pub resolve_found :
      ProjectContext → Request → PendingHumanAction → Step PendingHumanAction
  unfolding refuse attempt conflicts
  resolve_found ctx req a =
      let c = write_action a.action_id counted ctx in
      if not (is_pending a.status)
      then if action_resolution_log_exists ctx a.action_id (effective_key req a)
        then (ok a, ctx)
        else (raised not_pending, ctx)
      else if a.stage_output_version != current_version c a.stage_id
      then refuse c req a stale_action result_stale
      else if conflicts req a
      then refuse c req a hash_conflict result_conflict
      else attempt c req a

  unfoldable pub resolve_search :
      ProjectContext → Request → Option PendingHumanAction → Step PendingHumanAction
  unfolding resolve_found
  resolve_search ctx req none = (raised action_not_found, ctx)
  resolve_search ctx req (some a) = resolve_found ctx req a

  unfoldable pub resolve_action : ProjectContext → Request → Step PendingHumanAction
  unfolding resolve_search
  resolve_action ctx req = resolve_search ctx req (find_action ctx req.action_id)
