-- ===== src/Actions/Resolution/Again.antt =====
-- core/governance/action_resolution.py: resolving an action again under the same key.
use ai_workflow_premortem_pu.Prelude.{
  String, Bool, true, false, Option, some, List, [], ◌∷◌, find_first, update_first, find_first-true,
  is_blank, Outcome, ok, raised, Outcome-cases, ◌≡◌, refl, sym, ◌∙◌, ap, inl, inr, Bool-cases,
  nat_eq, string_eq, ◌==◌,
}
use ai_workflow_premortem_pu.Model.Enums.{is_pending}
use ai_workflow_premortem_pu.Model.Records.{PendingHumanAction}
use ai_workflow_premortem_pu.Model.Context.{
  ProjectContext, append_audit_event, or_default, current_version,
}
use ai_workflow_premortem_pu.Risk.Assessment.{DigestPayload}
use ai_workflow_premortem_pu.Actions.State.{
  append_action_resolution_log, action_resolution_log_exists,
}
use ai_workflow_premortem_pu.Actions.Effects.{
  Services, apply_pre_resolution_effects, apply_post_resolution_effects,
}
use ai_workflow_premortem_pu.Actions.Effects.Closing.{Closed}
use ai_workflow_premortem_pu.Actions.Effects.Keeping.{
  Found, Tame, apply_pre_resolution_effects-Found, apply_post_resolution_effects-Keeps,
}
use ai_workflow_premortem_pu.Actions.Resolution.{
  Request, Step, find_action, write_action, effective_key, counted, resolved_by, refuse, allowed,
  logged, finish, close_action, attempt_checked, attempt, conflicts, resolve_found, resolve_search,
  resolve_action,
}
use ai_workflow_premortem_pu.Actions.Resolution.Closing.{resolve_action-Resolvable}

module _ (id : String) where
  update_first-Found :
      (f : PendingHumanAction → PendingHumanAction)
      → ((a : PendingHumanAction) → ((f a).action_id == id) ≡ (a.action_id == id))
      → (actions : List PendingHumanAction) (a : PendingHumanAction)
      → find_first (λ (b : PendingHumanAction). b.action_id == id) actions ≡ some a
      → find_first
          (λ (b : PendingHumanAction). b.action_id == id)
          (update_first (λ (b : PendingHumanAction). b.action_id == id) f actions)
        ≡ some (f a)
  update_first-Found f same [] a h = absurd cc
  update_first-Found f same (x ∷ actions) a h = elim (Bool-cases (x.action_id == id)) [
    | inl t ↦
        let k : x ≡ a = cc (rw t at h) in
        rw t (rw (same x ∙ t) (ap (λ (y : PendingHumanAction). some (f y)) k))
    | inr n ↦ rw n (rw n (update_first-Found f same actions a (rw n at h)))
  ]

module _ (re_search : String → String → Bool) (hash : DigestPayload → String)
    (action_hash payload_hash : PendingHumanAction → String) (services : Services) where
  -- After a resolution, the action that was answered is found, and it is closed.
  abbrev Settled : String → PendingHumanAction → ProjectContext → Type 0
  Settled id b c = (find_action c id ≡ some b) × (is_pending b.status ≡ false)

  logged-Settled :
      (req : Request) (a b : PendingHumanAction) (c : ProjectContext)
      → Closed a.action_id c
      → (logged re_search hash action_hash payload_hash services c req a).0 ≡ ok b
      → Settled a.action_id b (logged re_search hash action_hash payload_hash services c req a).1
  unfolding logged append_action_resolution_log append_audit_event
  logged-Settled req a b c (a1, found, closed) h =
      let k : or_default (find_action c a.action_id) a ≡ b = cc in
      let same : a1 ≡ b = rw found at k in rw⁻¹ same (found, closed)

  finish-Settled :
      (req : Request) (a b : PendingHumanAction) (p : Outcome (Unit {0}) Bool × ProjectContext)
      → Closed a.action_id p.1
      → (finish re_search hash action_hash payload_hash services req a p).0 ≡ ok b
      → Settled a.action_id b (finish re_search hash action_hash payload_hash services req a p).1
  unfolding finish refuse
  finish-Settled req a b (raised e, c) k h = absurd cc
  finish-Settled req a b (ok true, c) k h = absurd cc
  finish-Settled req a b (ok false, c) k h = logged-Settled req a b c k h

  close_action-Settled :
      (req : Request) (a b : PendingHumanAction)
      (p : Outcome (Unit {0}) (Option Bool) × ProjectContext)
      → Tame a.action_id services
      → Found a.action_id p.1
      → (close_action re_search hash action_hash payload_hash services req a p).0 ≡ ok b
      → Settled a.action_id b
          (close_action re_search hash action_hash payload_hash services req a p).1
  unfolding close_action refuse write_action
  close_action-Settled req a b (raised e, c) tame k h = absurd cc
  close_action-Settled req a b (ok applied, c) tame (a0, found) h =
      let key = effective_key req a in
      let done = write_action a.action_id (resolved_by req key) c in
      let closed : Closed a.action_id done = (
        resolved_by req key a0,
        update_first-Found a.action_id (resolved_by req key) (λ x. refl) c.pending_actions a0 found,
        refl,
      ) in
      finish-Settled req a b
        (apply_post_resolution_effects services done (resolved_by req key (counted a)) req.decision
          req.note applied req.now)
        (apply_post_resolution_effects-Keeps a.action_id services tame done
          (resolved_by req key (counted a)) req.decision req.note applied req.now closed)
        h

  attempt-Settled :
      (c : ProjectContext) (req : Request) (a b : PendingHumanAction)
      → Tame a.action_id services
      → Found a.action_id c
      → let step = attempt re_search hash action_hash payload_hash services c req a in
        (step.0 ≡ ok b) → Settled a.action_id b step.1
  unfolding attempt attempt_checked refuse
  attempt-Settled c req a b tame k h =
      elim (Outcome-cases (allowed re_search hash action_hash payload_hash services c req a)) [
        | inr (e, lost) ↦ absurd (let g = rw lost at h in cc)
        | inl (u, found) ↦ rw found (
            close_action-Settled req a b
              (apply_pre_resolution_effects services c a req.decision req.payload_after) tame
              (apply_pre_resolution_effects-Found a.action_id services tame c a req.decision
                req.payload_after k)
              (rw found at h))
      ]

  found-Settled :
      (ctx : ProjectContext) (req : Request) (a b : PendingHumanAction)
      → Tame a.action_id services
      → find_action ctx a.action_id ≡ some a
      → let step = resolve_found re_search hash action_hash payload_hash services ctx req a in
        (step.0 ≡ ok b) → Settled a.action_id b step.1
  unfolding resolve_found refuse write_action
  found-Settled ctx req a b tame found h =
      let c = write_action a.action_id counted ctx in
      let replays = action_resolution_log_exists ctx a.action_id (effective_key req a) in
      elim (Bool-cases (is_pending a.status)) [
        | inr closed ↦ elim (Bool-cases replays) [
          | inr f ↦ absurd (let k = rw (closed, f) at h in cc)
          | inl t ↦
              let k : a ≡ b = cc (rw (closed, t) at h) in rw (closed, t) (rw⁻¹ k (found, closed))
        ]
        | inl waits ↦ elim (Bool-cases (a.stage_output_version == current_version c a.stage_id)) [
          | inr old ↦ absurd (let k = rw (waits, old) at h in cc)
          | inl new ↦
              elim (Bool-cases (conflicts re_search hash action_hash payload_hash services req a)) [
                | inl t ↦ absurd (let k = rw (waits, new, t) at h in cc)
                | inr f ↦
                    let counted_is_found =
                      update_first-Found a.action_id counted (λ x. refl) ctx.pending_actions a
                        found in
                    rw (waits, new, f)
                      (attempt-Settled c req a b tame (counted a, counted_is_found)
                        (rw (waits, new, f) at h))
              ]
        ]
      ]

  resolve_action-found :
      (ctx : ProjectContext) (req : Request) (a : PendingHumanAction)
      → find_action ctx req.action_id ≡ some a
      → resolve_action re_search hash action_hash payload_hash services ctx req
        ≡ resolve_found re_search hash action_hash payload_hash services ctx req a
  unfolding resolve_action resolve_search
  resolve_action-found ctx req a e =
      ap (resolve_search re_search hash action_hash payload_hash services ctx req) e

  found_id :
      (ctx : ProjectContext) (id : String) (a : PendingHumanAction)
      → find_action ctx id ≡ some a
      → a.action_id ≡ id
  found_id ctx id a e =
      (string_eq.beq_iff a.action_id id).0
        (find_first-true (λ (x : PendingHumanAction). x.action_id == id) ctx.pending_actions e)

  keyed_by :
      (req : Request) (a : PendingHumanAction) (key : String)
      → req.key ≡ some key
      → is_blank key ≡ false
      → effective_key req a ≡ some key
  keyed_by req a key e full = rw e (rw full refl)

  replays :
      (ctx : ProjectContext) (again : Request) (b : PendingHumanAction) (key : String)
      → Settled again.action_id b ctx
      → effective_key again b ≡ some key
      → action_resolution_log_exists ctx b.action_id (some key) ≡ true
      → resolve_action re_search hash action_hash payload_hash services ctx again ≡ (ok b, ctx)
  unfolding resolve_found
  replays ctx again b key (found, closed) e log =
      resolve_action-found ctx again b found ∙ rw (closed, e, log) refl

  -- A resolution happens once under its key. After an answered call with a key, another call on the same
  -- action under that key, whatever its decision, gives the same answer and changes nothing. This holds
  -- where the red-team, trace, reviewed-output and review services neither lose nor reopen the action.
  pub resolve_action-again :
      (ctx ctx' : ProjectContext) (req again : Request) (b : PendingHumanAction) (key : String)
      → Tame req.action_id services
      → req.key ≡ some key
      → is_blank key ≡ false
      → again.action_id ≡ req.action_id
      → again.key ≡ some key
      → resolve_action re_search hash action_hash payload_hash services ctx req ≡ (ok b, ctx')
      → resolve_action re_search hash action_hash payload_hash services ctx' again ≡ (ok b, ctx')
  resolve_action-again ctx ctx' req again b key tame named full same named' h =
      let (a, found, k) =
        resolve_action-Resolvable re_search hash action_hash payload_hash services ctx ctx' req b
          h in
      let id = found_id ctx req.action_id a found in
      let step : resolve_found re_search hash action_hash payload_hash services ctx req a
          ≡ (ok b, ctx') =
        sym (resolve_action-found ctx req a found) ∙ h in
      let left =
        found-Settled ctx req a b (rw id tame) (rw id found)
          (ap (λ (p : Step PendingHumanAction). p.0) step) in
      let settled : Settled a.action_id b ctx' =
        rw (ap (λ (p : Step PendingHumanAction). p.1) step) at left in
      let log : action_resolution_log_exists ctx' a.action_id (effective_key req a) ≡ true =
        elim k [
          | inl r ↦
              ap (λ c. action_resolution_log_exists c a.action_id (effective_key req a))
                (sym r.same_session)
              ∙ r.known_key
          | inr r ↦ r.1 key (keyed_by req a key named full) full
        ] in
      let b_id : b.action_id ≡ a.action_id = found_id ctx' a.action_id b settled.0 in
      replays ctx' again b key (rw (same ∙ sym id) settled) (keyed_by again b key named' full)
        (rw b_id (rw (keyed_by req a key named full) at log))
