-- ===== src/Actions/Resolution/Refusing.antt =====
-- core/governance/action_resolution.py: a refused resolution leaves the session as it was, but for the
-- count of attempts, the error and the log.
use ai_workflow_premortem_pu.Prelude.{
  append_nil, String, Bool, true, false, Option, none, some, List, [], ◌∷◌, ◌++◌, map, length,
  update_first, Outcome, ok, raised, Outcome-cases, ◌≡◌, ◌≤◌, refl, sym, ◌∙◌, ap, arith, inl, inr,
  Bool-cases, nat_eq, string_eq, ◌==◌,
}
use ai_workflow_premortem_pu.Model.Enums.{is_pending}
use ai_workflow_premortem_pu.Model.Records.{
  PendingHumanAction, ActionResolutionLog, ResultStatus, ResolutionFault, action_not_found,
  effect_failed, stale_action, hash_conflict, not_pending, result_stale, result_conflict,
}
use ai_workflow_premortem_pu.Model.Context.{ProjectContext, current_version}
use ai_workflow_premortem_pu.Risk.Assessment.{DigestPayload}
use ai_workflow_premortem_pu.Actions.State.{
  append_action_resolution_log, action_resolution_log_exists,
}
use ai_workflow_premortem_pu.Actions.Effects.{Services, apply_pre_resolution_effects}
use ai_workflow_premortem_pu.Actions.Resolution.Checks.{
  Because, allowed-Because, allowed-write_action,
}
use ai_workflow_premortem_pu.Actions.Resolution.{
  Request, Step, find_action, write_action, effective_key, counted, failed_with, refuse, allowed,
  logged, finish, close_action, attempt_checked, attempt, conflicts, resolve_found, resolve_search,
  resolve_action,
}

-- An action without the count of attempts and the last error.
abbrev pub bare : PendingHumanAction → PendingHumanAction
bare a = record a { resolution_attempts = 0; last_resolution_error = none }

pub record Refused (ctx ctx' : ProjectContext) : Type 0 where
  pub frame : ctx' ≡ record ctx {
    pending_actions = ctx'.pending_actions;
    action_resolution_logs = ctx'.action_resolution_logs;
  }
  pub actions : map bare ctx'.pending_actions ≡ map bare ctx.pending_actions
  pub logs :
      (added : List ActionResolutionLog) × (ctx'.action_resolution_logs
        ≡ ctx.action_resolution_logs ++ added)
      × (length added ≤ 1)

update_first-bare :
    (p : PendingHumanAction → Bool) (f : PendingHumanAction → PendingHumanAction)
    → ((a : PendingHumanAction) → bare (f a) ≡ bare a)
    → (actions : List PendingHumanAction) → map bare (update_first p f actions) ≡ map bare actions
update_first-bare p f same [] = refl
update_first-bare p f same (a ∷ actions) = elim (Bool-cases (p a)) [
  | inl t ↦ rw (t, same a) refl
  | inr n ↦ rw (n, update_first-bare p f same actions) refl
]

unchanged : (ctx : ProjectContext) → Refused ctx ctx
unchanged ctx = record {
  frame = refl;
  actions = refl;
  logs = ([], sym (append_nil ctx.action_resolution_logs), omega arith);
}

-- The exceptions that are raised before anything is done for the action.
abbrev pub is_refusal : ResolutionFault → Bool
is_refusal action_not_found = false
is_refusal effect_failed = false
is_refusal _ = true

refusal_found : (fault : ResolutionFault) → action_not_found ≡ fault → is_refusal fault ≡ false
refusal_found fault e = rw⁻¹ e refl

module _ (re_search : String → String → Bool) (hash : DigestPayload → String)
    (action_hash payload_hash : PendingHumanAction → String) (services : Services) where
  refuse-Refused :
      (ctx : ProjectContext) (req : Request) (a : PendingHumanAction) (fault : ResolutionFault)
      (status : ResultStatus)
      → Refused ctx
          (refuse re_search hash action_hash payload_hash services
            (write_action a.action_id counted ctx)
            req
            a
            fault
            status).1
  unfolding refuse write_action append_action_resolution_log
  refuse-Refused ctx req a fault status =
      let here = λ (b : PendingHumanAction). b.action_id == a.action_id in
      let marked = update_first here counted ctx.pending_actions in
      record {
        frame = refl;
        actions =
            update_first-bare here (failed_with fault) (λ b. refl) marked
            ∙ update_first-bare here counted (λ b. refl) ctx.pending_actions;
        logs = (_ ∷ [], refl, omega arith);
      }

  finish-fault :
      (req : Request) (a : PendingHumanAction) (p : Outcome (Unit {0}) Bool × ProjectContext)
      (fault : ResolutionFault)
      → (finish re_search hash action_hash payload_hash services req a p).0 ≡ raised fault
      → is_refusal fault ≡ false
  unfolding finish refuse logged
  finish-fault req a (raised e, c) fault h = let same : effect_failed ≡ fault = cc in rw⁻¹ same refl
  finish-fault req a (ok true, c) fault h =
      let same : action_not_found ≡ fault = cc in rw⁻¹ same refl
  finish-fault req a (ok false, c) fault h = absurd cc

  close_action-fault :
      (req : Request) (a : PendingHumanAction)
      (p : Outcome (Unit {0}) (Option Bool) × ProjectContext) (fault : ResolutionFault)
      → (close_action re_search hash action_hash payload_hash services req a p).0 ≡ raised fault
      → is_refusal fault ≡ false
  unfolding close_action refuse
  close_action-fault req a (raised e, c) fault h =
      let same : effect_failed ≡ fault = cc in rw⁻¹ same refl
  close_action-fault req a (ok applied, c) fault h = finish-fault req a _ fault h

  attempt-refused :
      (ctx : ProjectContext) (req : Request) (a : PendingHumanAction) (fault : ResolutionFault)
      → let c = write_action a.action_id counted ctx in
        let step = attempt re_search hash action_hash payload_hash services c req a in
        (step.0 ≡ raised fault)
        → is_refusal fault ≡ true
        → Refused ctx step.1
          × Because re_search hash action_hash payload_hash services ctx req a fault
  unfolding attempt attempt_checked refuse
  attempt-refused ctx req a fault h r =
      let c = write_action a.action_id counted ctx in
      let check = allowed re_search hash action_hash payload_hash services c req a in
      elim (Outcome-cases check) [
        | inr (e, lost) ↦
            let k = rw lost at h in
            let same : e ≡ fault = cc in
            rw lost (
              refuse-Refused ctx req a e _,
              rw⁻¹ same (
                  allowed-Because re_search hash action_hash payload_hash services ctx req a e (
                    sym (
                      allowed-write_action re_search hash action_hash payload_hash services ctx req
                        a a.action_id counted)
                    ∙ lost)),
            )
        | inl (u, found) ↦
            let f =
              close_action-fault req a
                (apply_pre_resolution_effects services c a req.decision req.payload_after) fault
                (rw found at h) in
            absurd cc
      ]

  found-refused :
      (ctx : ProjectContext) (req : Request) (a : PendingHumanAction) (fault : ResolutionFault)
      → let step = resolve_found re_search hash action_hash payload_hash services ctx req a in
        (step.0 ≡ raised fault)
        → is_refusal fault ≡ true
        → Refused ctx step.1
          × Because re_search hash action_hash payload_hash services ctx req a fault
  unfolding resolve_found refuse write_action current_version
  found-refused ctx req a fault h r =
      let c = write_action a.action_id counted ctx in
      elim (Bool-cases (is_pending a.status)) [
        | inr closed ↦
            elim (Bool-cases (action_resolution_log_exists ctx a.action_id (effective_key req a))) [
              | inl t ↦ absurd (let k = rw (closed, t) at h in cc)
              | inr f ↦
                  let k = rw (closed, f) at h in
                  let same : not_pending ≡ fault = cc in
                  rw (closed, f) (unchanged ctx, rw⁻¹ same closed)
            ]
        | inl waits ↦ elim (Bool-cases (a.stage_output_version == current_version ctx a.stage_id)) [
          | inr old ↦
              let k = rw (waits, old) at h in
              let same : stale_action ≡ fault = cc in
              rw (waits, old) (refuse-Refused ctx req a stale_action result_stale, rw⁻¹ same old)
          | inl new ↦
              elim (Bool-cases (conflicts re_search hash action_hash payload_hash services req a)) [
                | inl t ↦
                    let k = rw (waits, new, t) at h in
                    let same : hash_conflict ≡ fault = cc in
                    rw (waits, new, t)
                      (refuse-Refused ctx req a hash_conflict result_conflict, rw⁻¹ same t)
                | inr f ↦
                    rw (waits, new, f) (attempt-refused ctx req a fault (rw (waits, new, f) at h) r)
              ]
        ]
      ]

  search-refused :
      (ctx ctx' : ProjectContext) (req : Request) (fault : ResolutionFault)
      (found : Option PendingHumanAction)
      → resolve_search re_search hash action_hash payload_hash services ctx req found
        ≡ (raised fault, ctx')
      → is_refusal fault ≡ true
      → (a : PendingHumanAction) × (found ≡ some a)
        × Refused ctx ctx'
        × Because re_search hash action_hash payload_hash services ctx req a fault
  unfolding resolve_search
  search-refused ctx ctx' req fault none h r =
      let same = ap (λ (p : Step PendingHumanAction). p.0) h in
      absurd (let k = refusal_found fault cc in cc)
  search-refused ctx ctx' req fault (some a) h r =
      let k = found-refused ctx req a fault (ap (λ (p : Step PendingHumanAction). p.0) h) r in
      (a, refl, rw (ap (λ (p : Step PendingHumanAction). p.1) h) at k.0, k.1)

  -- A call that is refused before its effects says why: no pending action, an older output version, another
  -- content than the client saw, a review that is not authorised or is stale, or a decision that the policy
  -- does not let close the action. It leaves the session as it was, but for the action's count of attempts
  -- and last error and at most one more log entry; whatever the red-team, trace and output services do.
  pub resolve_action-refuses :
      (ctx ctx' : ProjectContext) (req : Request) (fault : ResolutionFault)
      → resolve_action re_search hash action_hash payload_hash services ctx req
        ≡ (raised fault, ctx')
      → is_refusal fault ≡ true
      → (a : PendingHumanAction) × (find_action ctx req.action_id ≡ some a)
        × Refused ctx ctx'
        × Because re_search hash action_hash payload_hash services ctx req a fault
  unfolding resolve_action
  resolve_action-refuses ctx ctx' req fault h r =
      search-refused ctx ctx' req fault (find_action ctx req.action_id) h r
