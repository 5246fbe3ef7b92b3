-- ===== src/Actions/Resolution/Closing.antt =====
-- core/governance/action_resolution.py: what stands behind a resolution that is answered.
use ai_workflow_premortem_pu.Prelude.{
  String, Bool, true, false, Option, none, some, any-appended, strip, non_empty, is_blank, Outcome,
  ok, raised, Outcome-cases, ◌≡◌, ◌≢◌, ◌⊎◌, refl, sym, ◌∙◌, ap, arith, inl, inr, Bool-cases, nat_eq,
  string_eq, option_string_eq, ◌==◌, beq_refl,
}
use ai_workflow_premortem_pu.Model.Enums.{is_pending}
use ai_workflow_premortem_pu.Model.Records.{PendingHumanAction}
use ai_workflow_premortem_pu.Model.Context.{ProjectContext, append_audit_event, current_version}
use ai_workflow_premortem_pu.Risk.Assessment.{DigestPayload, risk_assessment_digest}
use ai_workflow_premortem_pu.Gates.Approver.{
  validate_expert_review_approval, validate_expert_review_approval_iff,
}
use ai_workflow_premortem_pu.Gates.Policy.{
  evaluate_action_resolution, assert_action_resolution_allowed,
}
use ai_workflow_premortem_pu.Actions.State.{
  is_replay_log, append_action_resolution_log, action_resolution_log_exists,
}
use ai_workflow_premortem_pu.Actions.Effects.{Services, apply_pre_resolution_effects}
use ai_workflow_premortem_pu.Actions.Resolution.Checks.{allowed-write_action}
use ai_workflow_premortem_pu.Actions.Resolution.{
  Request, Step, find_action, write_action, effective_key, counted, refuse, allowed, reviewed,
  permitted, logged, finish, close_action, attempt_checked, attempt, conflicts, resolve_found,
  resolve_search, resolve_action,
}

module _ (re_search : String → String → Bool) (hash : DigestPayload → String)
    (action_hash payload_hash : PendingHumanAction → String) (services : Services) where
  -- The action may be resolved as it is asked for.
  pub record Resolvable (ctx : ProjectContext) (req : Request) (a : PendingHumanAction)
      : Type 0 where
    pub waiting : is_pending a.status ≡ true
    pub current : (a.stage_output_version == current_version ctx a.stage_id) ≡ true
    pub as_seen : conflicts re_search hash action_hash payload_hash services req a ≡ false
    pub policy : (evaluate_action_resolution a req.decision req.payload_after).allow_resolve ≡ true
    pub expert :
        a.source_type ≡ "expert_review"
        → strip req.decision ≡ "approve"
        → (req.actor_role ≡ "admin")
          × (non_empty (strip req.actor_id) ≡ true)
          × (strip req.actor_id ≢ strip ctx.created_by)
          × (a.payload_digest ≡ some (risk_assessment_digest re_search hash ctx))

  -- The log of a resolution under the key is there.
  abbrev pub Recorded : ProjectContext → Request → PendingHumanAction → Type 0
  Recorded ctx req a =
      (key : String)
      → effective_key req a ≡ some key
      → is_blank key ≡ false
      → action_resolution_log_exists ctx a.action_id (effective_key req a) ≡ true

  reviewed-expert :
      (ctx : ProjectContext) (req : Request) (a : PendingHumanAction)
      → reviewed (
          validate_expert_review_approval re_search hash ctx a req.decision req.actor_id
            req.actor_role)
        ≡ ok tt
      → a.source_type ≡ "expert_review"
      → strip req.decision ≡ "approve"
      → (req.actor_role ≡ "admin")
        × (non_empty (strip req.actor_id) ≡ true)
        × (strip req.actor_id ≢ strip ctx.created_by)
        × (a.payload_digest ≡ some (risk_assessment_digest re_search hash ctx))
  unfolding reviewed validate_expert_review_approval
  reviewed-expert ctx req a h source approves =
      let review =
        validate_expert_review_approval re_search hash ctx a req.decision req.actor_id
          req.actor_role in
      elim (Outcome-cases review) [
        | inr (e, lost) ↦ absurd (let k = rw lost at h in cc)
        | inl (none, found) ↦ absurd (let k = rw (source, approves) at found in ground arith)
        | inl (some d, found) ↦
            let (role, named, creator, apart, carried, full, digest) =
              (validate_expert_review_approval_iff re_search hash ctx a req.decision req.actor_id
                  req.actor_role d source approves).0
                found in
            (role, named, apart, carried ∙ ap (λ (x : String). some x) (sym digest))
      ]

  allowed-policy :
      (ctx : ProjectContext) (req : Request) (a : PendingHumanAction)
      → allowed re_search hash action_hash payload_hash services ctx req a ≡ ok tt
      → (reviewed (
            validate_expert_review_approval re_search hash ctx a req.decision req.actor_id
              req.actor_role)
          ≡ ok tt)
        × ((evaluate_action_resolution a req.decision req.payload_after).allow_resolve ≡ true)
  unfolding allowed reviewed permitted assert_action_resolution_allowed
  allowed-policy ctx req a h =
      let review =
        validate_expert_review_approval re_search hash ctx a req.decision req.actor_id
          req.actor_role in
      let effect = evaluate_action_resolution a req.decision req.payload_after in
      elim (Outcome-cases review) [
        | inr (e, lost) ↦ absurd (let k = rw lost at h in cc)
        | inl (d, found) ↦ elim (Bool-cases effect.allow_resolve) [
          | inl t ↦ (rw found refl, t)
          | inr f ↦ absurd (let k = rw (found, f) at h in cc)
        ]
      ]

  logged-Recorded :
      (ctx : ProjectContext) (req : Request) (a : PendingHumanAction)
      → Recorded (logged re_search hash action_hash payload_hash services ctx req a).1 req a
  unfolding logged append_action_resolution_log append_audit_event action_resolution_log_exists
      is_replay_log
  logged-Recorded ctx req a key e full = rw e (
      rw full (
        any-appended (is_replay_log a.action_id key) ctx.action_resolution_logs _
          (rw (beq_refl a.action_id, beq_refl key) refl)))

  finish-Recorded :
      (req : Request) (a b : PendingHumanAction) (p : Outcome (Unit {0}) Bool × ProjectContext)
      → (finish re_search hash action_hash payload_hash services req a p).0 ≡ ok b
      → Recorded (finish re_search hash action_hash payload_hash services req a p).1 req a
  unfolding finish refuse
  finish-Recorded req a b (raised e, c) h = absurd cc
  finish-Recorded req a b (ok true, c) h = absurd cc
  finish-Recorded req a b (ok false, c) h = logged-Recorded c req a

  close_action-Recorded :
      (req : Request) (a b : PendingHumanAction)
      (p : Outcome (Unit {0}) (Option Bool) × ProjectContext)
      → (close_action re_search hash action_hash payload_hash services req a p).0 ≡ ok b
      → Recorded (close_action re_search hash action_hash payload_hash services req a p).1 req a
  unfolding close_action refuse
  close_action-Recorded req a b (raised e, c) h = absurd cc
  close_action-Recorded req a b (ok applied, c) h = finish-Recorded req a b _ h

  attempt-ok :
      (c : ProjectContext) (req : Request) (a b : PendingHumanAction)
      → let step = attempt re_search hash action_hash payload_hash services c req a in
        (step.0 ≡ ok b)
        → (allowed re_search hash action_hash payload_hash services c req a ≡ ok tt)
          × Recorded step.1 req a
  unfolding attempt attempt_checked refuse
  attempt-ok c req a b h =
      elim (Outcome-cases (allowed re_search hash action_hash payload_hash services c req a)) [
        | inr (e, lost) ↦ absurd (let k = rw lost at h in cc)
        | inl (u, found) ↦ (
          found,
          rw found (
              close_action-Recorded req a b
                (apply_pre_resolution_effects services c a req.decision req.payload_after)
                (rw found at h)),
        )
      ]

  -- The action was resolved before under the key, and the call changes nothing.
  pub record Replayed (ctx : ProjectContext) (req : Request) (a b : PendingHumanAction)
      (ctx' : ProjectContext) : Type 0 where
    pub closed : is_pending a.status ≡ false
    pub known_key : action_resolution_log_exists ctx a.action_id (effective_key req a) ≡ true
    pub same_action : a ≡ b
    pub same_session : ctx ≡ ctx'

  found-ok :
      (ctx : ProjectContext) (req : Request) (a b : PendingHumanAction)
      → let step = resolve_found re_search hash action_hash payload_hash services ctx req a in
        (step.0 ≡ ok b)
        → Replayed ctx req a b step.1 ⊎ (Resolvable ctx req a × Recorded step.1 req a)
  unfolding resolve_found refuse write_action current_version
  found-ok ctx req a b h =
      let c = write_action a.action_id counted ctx in
      let replays = action_resolution_log_exists ctx a.action_id (effective_key req a) in
      elim (Bool-cases (is_pending a.status)) [
        | inr closed ↦ elim (Bool-cases replays) [
          | inr f ↦ absurd (let k = rw (closed, f) at h in cc)
          | inl t ↦
              let k = rw (closed, t) at h in
              rw (closed, t)
                (inl (record {
                  closed = closed;
                  known_key = t;
                  same_action = cc;
                  same_session = refl;
                }))
        ]
        | inl waits ↦ elim (Bool-cases (a.stage_output_version == current_version ctx a.stage_id)) [
          | inr old ↦ absurd (let k = rw (waits, old) at h in cc)
          | inl new ↦
              elim (Bool-cases (conflicts re_search hash action_hash payload_hash services req a)) [
                | inl t ↦ absurd (let k = rw (waits, new, t) at h in cc)
                | inr f ↦
                    let (check, recorded) = attempt-ok c req a b (rw (waits, new, f) at h) in
                    let (review, policy) = allowed-policy ctx req a (
                      sym (
                        allowed-write_action re_search hash action_hash payload_hash services ctx
                          req a a.action_id counted)
                      ∙ check) in
                    rw (waits, new, f)
                      (inr (
                        record {
                          waiting = waits;
                          current = new;
                          as_seen = f;
                          policy = policy;
                          expert = reviewed-expert ctx req a review;
                        },
                        recorded,
                      ))
              ]
        ]
      ]

  search-ok :
      (ctx : ProjectContext) (req : Request) (b : PendingHumanAction)
      (found : Option PendingHumanAction)
      → let step = resolve_search re_search hash action_hash payload_hash services ctx req found in
        (step.0 ≡ ok b)
        → (a : PendingHumanAction) × (found ≡ some a)
          × (Replayed ctx req a b step.1 ⊎ (Resolvable ctx req a × Recorded step.1 req a))
  unfolding resolve_search
  search-ok ctx req b none h = absurd cc
  search-ok ctx req b (some a) h = (a, refl, found-ok ctx req a b h)

  -- An answer of a resolution is about the first action with the identifier. Either the action was not
  -- pending, but resolved under the same key before, and then it comes back and nothing changes. Or it was
  -- pending for the present output, as the client saw it, the policy lets the decision close it, an approval
  -- of an expert review comes from an admin who is not the session's creator and is for the present risk,
  -- and the resolution is recorded under its key, if it has one.
  pub resolve_action-Resolvable :
      (ctx ctx' : ProjectContext) (req : Request) (b : PendingHumanAction)
      → resolve_action re_search hash action_hash payload_hash services ctx req ≡ (ok b, ctx')
      → (a : PendingHumanAction) × (find_action ctx req.action_id ≡ some a)
        × (Replayed ctx req a b ctx' ⊎ (Resolvable ctx req a × Recorded ctx' req a))
  unfolding resolve_action
  resolve_action-Resolvable ctx ctx' req b h =
      let (a, found, k) =
        search-ok ctx req b (find_action ctx req.action_id)
          (ap (λ (p : Step PendingHumanAction). p.0) h) in
      (a, found, rw (ap (λ (p : Step PendingHumanAction). p.1) h) at k)
