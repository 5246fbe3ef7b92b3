-- ===== src/Actions/Answer/Refines.antt =====
-- core/governance/action_resolution.py: the answers of `resolve_action_with_result` against the calls of
-- `resolve_action`.
use ai_workflow_premortem_pu.Prelude.{
  String, Bool, true, false, Option, none, some, ok, raised, ◌≡◌, ◌⊎◌, refl, ap, arith, inl, inr,
  Bool-cases, nat_eq, ◌==◌,
}
use ai_workflow_premortem_pu.Model.Enums.{is_pending, stale}
use ai_workflow_premortem_pu.Model.Records.{
  PendingHumanAction, ActionResolutionLog, ResultStatus, result_resolved, idempotent_replay,
  result_stale, result_conflict, result_not_pending, result_not_found, ResolutionFault,
  not_authorised, stale_approval, stale_action, hash_conflict, target_missing,
}
use ai_workflow_premortem_pu.Model.Context.{ProjectContext, current_version}
use ai_workflow_premortem_pu.Risk.Assessment.{DigestPayload}
use ai_workflow_premortem_pu.Actions.State.{latest_action_resolution_log, target_object_exists}
use ai_workflow_premortem_pu.Actions.Effects.{Services}
use ai_workflow_premortem_pu.Actions.Resolution.{
  Request, Step, find_action, effective_key, conflicts, resolve_action,
}
use ai_workflow_premortem_pu.Actions.Resolution.Closing.{Resolvable, resolve_action-Resolvable}
use ai_workflow_premortem_pu.Actions.Answer.{
  ActionResolutionResult, failed_status, status_of_fault, decline, answer_of, not_pending_answer,
  keyed, answer_found, answer_search, resolve_action_with_result,
}

-- The statuses of an answer that leaves everything as it was.
abbrev pub is_idle : ResultStatus → Bool
is_idle result_not_found = true
is_idle result_not_pending = true
is_idle idempotent_replay = true
is_idle _ = false

-- The answer to a call that failed is none of these, nor that of a resolution.
abbrev is_done : ResultStatus → Bool
is_done result_resolved = true
is_done s = is_idle s

status_of_fault-is_done :
    (a : PendingHumanAction) (log : Option ActionResolutionLog) (fault : ResolutionFault)
    → is_done (status_of_fault a log fault) ≡ false
unfolding status_of_fault failed_status
status_of_fault-is_done a log not_authorised = refl
status_of_fault-is_done a log stale_approval = refl
status_of_fault-is_done a none _ = ground arith
status_of_fault-is_done a (some l) _ = ground arith

module _ (re_search : String → String → Bool) (hash : DigestPayload → String)
    (action_hash payload_hash : PendingHumanAction → String) (services : Services) where
  abbrev resolving : ProjectContext → Request → PendingHumanAction → Step PendingHumanAction
  resolving ctx req a =
      resolve_action re_search hash action_hash payload_hash services ctx
        (keyed re_search hash action_hash payload_hash services req a)

  -- A resolution stands behind the answer that an action is resolved.
  pub record Resolves (ctx : ProjectContext) (req : Request) (a : PendingHumanAction)
      (ctx' : ProjectContext) : Type 0 where
    pub resolvable : Resolvable re_search hash action_hash payload_hash services ctx req a
    pub target : target_object_exists ctx a ≡ true
    pub done : (b : PendingHumanAction) × (resolving ctx req a ≡ (ok b, ctx'))

  answer_of-ok :
      (req : Request) (a : PendingHumanAction) (p : Step PendingHumanAction)
      → (answer_of re_search hash action_hash payload_hash services req a p).0.result_status
        ≡ result_resolved
      → (b : PendingHumanAction) × (p
          ≡ (ok b, (answer_of re_search hash action_hash payload_hash services req a p).1))
  unfolding answer_of
  answer_of-ok req a (ok b, c) h = (b, refl)
  answer_of-ok req a (raised fault, c) h = absurd (
      let log = latest_action_resolution_log c req.action_id (effective_key req a) in
      let k = status_of_fault-is_done a log fault in let d = ap is_done h in cc)

  answer_of-is_idle :
      (req : Request) (a : PendingHumanAction) (p : Step PendingHumanAction)
      → is_idle (answer_of re_search hash action_hash payload_hash services req a p).0.result_status
        ≡ false
  unfolding answer_of
  answer_of-is_idle req a (ok b, c) = refl
  answer_of-is_idle req a (raised fault, c) =
      let log = latest_action_resolution_log c req.action_id (effective_key req a) in
      idle_is_done (status_of_fault a log fault) (status_of_fault-is_done a log fault)
    where
      idle_is_done : (s : ResultStatus) → is_done s ≡ false → is_idle s ≡ false
      idle_is_done result_resolved h = refl
      idle_is_done _ h = h

  -- The same action under its effective key.
  Resolvable-keyed :
      (ctx : ProjectContext) (req : Request) (a : PendingHumanAction)
      → Resolvable re_search hash action_hash payload_hash services ctx
          (keyed re_search hash action_hash payload_hash services req a)
          a
      → Resolvable re_search hash action_hash payload_hash services ctx req a
  unfolding conflicts
  Resolvable-keyed ctx req a r = record {
    waiting = r.waiting;
    current = r.current;
    as_seen = r.as_seen;
    policy = r.policy;
    expert = r.expert;
  }

  resolving-Resolvable :
      (ctx ctx' : ProjectContext) (req : Request) (a b : PendingHumanAction)
      → find_action ctx req.action_id ≡ some a
      → is_pending a.status ≡ true
      → resolving ctx req a ≡ (ok b, ctx')
      → Resolvable re_search hash action_hash payload_hash services ctx req a
  resolving-Resolvable ctx ctx' req a b found waits h =
      let (a', found', k) =
        resolve_action-Resolvable re_search hash action_hash payload_hash services ctx ctx'
          (keyed re_search hash action_hash payload_hash services req a) b h in
      let same : a' ≡ a = cc in
      Resolvable-keyed ctx req a
        (elim (rw same at k) [ inl r ↦ absurd (let c = r.closed in cc) | inr r ↦ r.0 ])

  -- An answer about the action `a`, against the call that it stands for.
  pub record Refines (ctx : ProjectContext) (req : Request) (a : PendingHumanAction)
      (r : ActionResolutionResult) (ctx' : ProjectContext) : Type 0 where
    pub sound : r.result_status ≡ result_resolved → Resolves ctx req a ctx'
    pub complete :
        (b : PendingHumanAction) (c : ProjectContext)
        → is_pending a.status ≡ true
        → target_object_exists ctx a ≡ true
        → resolving ctx req a ≡ (ok b, c)
        → (r.result_status ≡ result_resolved) × (ctx' ≡ c)
    pub idle : is_idle r.result_status ≡ true → (is_pending a.status ≡ false) × (ctx' ≡ ctx)

  not_pending_answer-Refines :
      (ctx : ProjectContext) (req : Request) (a : PendingHumanAction)
      (log : Option ActionResolutionLog)
      → is_pending a.status ≡ false
      → Refines ctx req a
          (not_pending_answer re_search hash action_hash payload_hash services req a log)
          ctx
  unfolding not_pending_answer
  not_pending_answer-Refines ctx req a none closed = record {
    sound = λ h. absurd cc;
    complete = λ b c waits. absurd cc;
    idle = λ _. (closed, refl);
  }
  not_pending_answer-Refines ctx req a (some l) closed = record {
    sound = λ h. absurd (ground arith);
    complete = λ b c waits. absurd cc;
    idle = λ _. (closed, refl);
  }

  -- An answer that declines, where the call would not resolve the action either.
  decline-Refines :
      (ctx : ProjectContext) (req : Request) (a : PendingHumanAction)
      (write : PendingHumanAction → PendingHumanAction) (fault : ResolutionFault)
      (status : ResultStatus)
      → is_done status ≡ false
      → (target_object_exists ctx a ≡ true
          → Resolvable re_search hash action_hash payload_hash services ctx req a
          → ⊥)
      → find_action ctx req.action_id ≡ some a
      → let p =
          decline re_search hash action_hash payload_hash services ctx req a write fault status in
        Refines ctx req a p.0 p.1
  unfolding decline
  decline-Refines ctx req a write fault status n bad found = record {
    sound = λ h. absurd (let d = ap is_done h in cc);
    complete = λ b c waits target h.
        absurd (bad target (resolving-Resolvable ctx c req a b found waits h));
    idle = λ h. absurd (let d = idle_is_done status h in cc);
  }
    where
      idle_is_done : (s : ResultStatus) → is_idle s ≡ true → is_done s ≡ true
      idle_is_done result_resolved h = refl
      idle_is_done _ h = h

  found-Refines :
      (ctx : ProjectContext) (req : Request) (a : PendingHumanAction)
      → find_action ctx req.action_id ≡ some a
      → let p = answer_found re_search hash action_hash payload_hash services ctx req a in
        Refines ctx req a p.0 p.1
  unfolding answer_found
  found-Refines ctx req a found =
      let answered =
        answer_of re_search hash action_hash payload_hash services req a (resolving ctx req a) in
      elim (Bool-cases (is_pending a.status)) [
        | inr closed ↦ rw closed (not_pending_answer-Refines ctx req a _ closed)
        | inl waits ↦ elim (Bool-cases (a.stage_output_version == current_version ctx a.stage_id)) [
          | inr old ↦
              rw (waits, old)
                (decline-Refines ctx req a (λ b. record b { status = stale }) stale_action
                  result_stale refl (λ t r. let c = r.current in cc) found)
          | inl new ↦
              elim (Bool-cases (conflicts re_search hash action_hash payload_hash services req a)) [
                | inl t ↦
                    rw (waits, new, t)
                      (decline-Refines ctx req a (λ b. b) hash_conflict result_conflict refl
                        (λ e r. let c = r.as_seen in cc) found)
                | inr f ↦ elim (Bool-cases (target_object_exists ctx a)) [
                  | inr lost ↦
                      rw (waits, new, f, lost)
                        (decline-Refines ctx req a (λ b. b) target_missing result_conflict refl
                          (λ e r. cc) found)
                  | inl there ↦
                      rw (waits, new, f, there)
                        (record {
                          sound = λ h.
                              let (b, e) = answer_of-ok req a (resolving ctx req a) h in
                              record {
                                resolvable =
                                    resolving-Resolvable ctx answered.1 req a b found waits e;
                                target = there;
                                done = (b, e);
                              };
                          complete = λ b c _ _ e. resolved_answer b c e;
                          idle = λ h.
                              absurd (let d = answer_of-is_idle req a (resolving ctx req a) in cc);
                        })
                ]
              ]
        ]
      ]
    where
      resolved_answer :
          (b : PendingHumanAction) (c : ProjectContext)
          → resolving ctx req a ≡ (ok b, c)
          → let p =
              answer_of re_search hash action_hash payload_hash services req a
                (resolving ctx req a) in
            (p.0.result_status ≡ result_resolved) × (p.1 ≡ c)
      resolved_answer b c e = rw e (refl, refl)

  -- The answer of a resolution always comes, without an exception. For an unknown action it says so and
  -- nothing changes. Otherwise it says that the action is resolved only where the action may be resolved as
  -- asked, its target is there, and `resolve_action` under the effective key resolves it, with the same
  -- session after it; for a pending action whose target is there it does say so then. Where it answers a
  -- replay or an action that is not pending, the action is not pending and nothing changes.
  pub resolve_action_with_result-Refines :
      (ctx : ProjectContext) (req : Request)
      → let p =
          resolve_action_with_result re_search hash action_hash payload_hash services ctx req in
        ((find_action ctx req.action_id ≡ none)
          × (p.0.result_status ≡ result_not_found)
          × (p.1 ≡ ctx))
        ⊎ ((a : PendingHumanAction) × (find_action ctx req.action_id ≡ some a)
            × Refines ctx req a p.0 p.1)
  unfolding resolve_action_with_result answer_search
  resolve_action_with_result-Refines ctx req = from_search (find_action ctx req.action_id) refl
    where
      from_search :
          (found : Option PendingHumanAction)
          → find_action ctx req.action_id ≡ found
          → let p = answer_search re_search hash action_hash payload_hash services ctx req found in
            ((found ≡ none) × (p.0.result_status ≡ result_not_found) × (p.1 ≡ ctx))
            ⊎ ((a : PendingHumanAction) × (found ≡ some a) × Refines ctx req a p.0 p.1)
      from_search none e = inl (refl, refl, refl)
      from_search (some a) e = inr (a, refl, found-Refines ctx req a e)
