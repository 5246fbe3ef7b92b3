-- ===== src/Workflow/Recovery.antt =====
-- The workflow fails closed and leaves a blocked state by recovery alone
-- (core/workflow_state_service.py).
use text.Mathlib.TextEquality.{eq_iff}
use ai_workflow_premortem_pu.Prelude.{
  String, ◌≡◌, refl, ◌↔◌, inl, inr, arith, true, false, Option, none, some, ok, ◌==◌, string_eq,
  >>=-eq-ok, not, ◌&&◌, ◌≢◌, find_first-true, ap, sym, ◌∙◌, Option-cases, concat,
}
use ai_workflow_premortem_pu.Model.Enums.{
  SessionState, complete, recovery_required, StateValue, known, unknown,
}
use ai_workflow_premortem_pu.Model.Context.{ProjectContext, append_audit_event}
use ai_workflow_premortem_pu.Workflow.State.{
  session_state_value, all_states, parse_state, state_value, is_known_state, is_blocked,
  is_resumable, assert_advanceable, PersistedState, sanitize_persisted_state, resolve_target,
  recover_workflow,
}

-- Reading the value of a state gives the state back.
pub parse_state-session_state_value :
    (s : SessionState) → parse_state (session_state_value s) ≡ some s
unfolding parse_state
parse_state-session_state_value SessionState.init = refl
parse_state-session_state_value _ = refl

session_state_value-parse_state :
    (text : String) (s : SessionState) → parse_state text ≡ some s → session_state_value s ≡ text
unfolding parse_state
session_state_value-parse_state text s h =
    (eq_iff (session_state_value s) text).0
      (find_first-true (λ x. session_state_value x == text) all_states h)

known_is_known : (s : SessionState) → is_known_state (known s) ≡ true
unfolding is_known_state
known_is_known s = rw (parse_state-session_state_value s)

-- A turn may run exactly in the states that are members of the enumeration and not blocked.
pub assert_advanceable_iff :
    (ctx : ProjectContext)
    → (assert_advanceable ctx ≡ ok tt)
      ↔ ((is_known_state ctx.current_state ≡ true) × (is_blocked ctx.current_state ≡ false))
unfolding assert_advanceable
assert_advanceable_iff ctx = ground arith

resumable_is_advanceable : (s : SessionState) → is_resumable s ≡ true → is_blocked (known s) ≡ false
unfolding is_resumable is_blocked
resumable_is_advanceable complete h = ground arith
resumable_is_advanceable s h = ground arith

not_complete : (s : SessionState) → is_resumable s ≡ true → known s ≢ known complete
unfolding is_resumable
not_complete complete h = cc
not_complete s h = ground arith

resolve_target-eq-ok :
    (target : String) (s : SessionState)
    → resolve_target target ≡ ok s
    → (parse_state target ≡ some s) × (is_resumable s ≡ true)
unfolding resolve_target
resolve_target-eq-ok target s h = ground arith

recover_workflow-eq-ok :
    (ctx ctx' : ProjectContext) (target actor : String)
    → recover_workflow ctx target actor ≡ ok ctx'
    → (s : SessionState) × (resolve_target target ≡ ok s)
      × (not (is_blocked ctx.current_state) && is_known_state ctx.current_state ≡ false)
      × (ctx'
          ≡ append_audit_event
              (record ctx { current_state = known s; last_error = some "" })
              actor
              "workflow_recovered"
              "workflow"
              ctx.session_id)
unfolding recover_workflow
recover_workflow-eq-ok ctx ctx' target actor h =
    let (s, found, rest) = >>=-eq-ok (resolve_target target) _ h in
    (s, found, ground arith, ground arith)

-- Recovery succeeds only from a state that may not advance, and leads to a state that may, with the
-- error text cleared; the target is the resumable state that was named, so never `complete`.
pub recover_workflow-assert_advanceable :
    (ctx ctx' : ProjectContext) (target actor : String)
    → recover_workflow ctx target actor ≡ ok ctx'
    → (assert_advanceable ctx ≢ ok tt)
      × (assert_advanceable ctx' ≡ ok tt)
      × (state_value ctx'.current_state ≡ target)
      × (ctx'.current_state ≢ known complete)
      × (ctx'.last_error ≡ some "")
unfolding append_audit_event
recover_workflow-assert_advanceable ctx ctx' target actor h =
    let (s, found, guard, state) = recover_workflow-eq-ok ctx ctx' target actor h in
    let (parsed, fine) = resolve_target-eq-ok target s found in
    let reached : ctx'.current_state ≡ known s =
      ap (λ (c : ProjectContext). c.current_state) state in
    (
      λ free. let (k, b) = (assert_advanceable_iff ctx).0 free in ground arith,
      (assert_advanceable_iff ctx').1
          (rw reached (known_is_known s), rw reached (resumable_is_advanceable s fine)),
      rw reached (unfold state_value in session_state_value-parse_state target s parsed),
      λ e. not_complete s fine (sym reached ∙ e),
      ap (λ (c : ProjectContext). c.last_error) state,
    )

-- A state with the value of a blocked member is blocked, also if it is read as a text.
waits : (v : StateValue) → state_value v ≡ "recovery_required" → is_blocked v ≡ true
unfolding state_value is_blocked
waits (unknown text) h = rw h refl
waits (known s) h = named s h
  where
    named :
        (s : SessionState)
        → session_state_value s ≡ "recovery_required"
        → is_blocked (known s) ≡ true
    named recovery_required h = refl
    named s h = absurd cc

module _ (repr : String → String) where
  no_member :
      (value : String)
      → ((s : SessionState) → session_state_value s ≢ value)
      → parse_state value ≡ none
  no_member value lost = elim (Option-cases (parse_state value)) [
    | inl e ↦ e
    | inr (s, found) ↦ absurd (lost s (session_state_value-parse_state value s found))
  ]

  sanitized :
      (v e : Option String)
      → sanitize_persisted_state repr
          (sanitize_persisted_state repr (record { current_state = v; last_error = e }))
        ≡ sanitize_persisted_state repr (record { current_state = v; last_error = e })
  unfolding sanitize_persisted_state
  sanitized none e = refl
  sanitized (some value) e = elim (Option-cases (parse_state value)) [
    | inl lost ↦
        let again = parse_state-session_state_value recovery_required in rw lost (rw again refl)
    | inr (s, found) ↦ rw found (rw found refl)
  ]

  -- The storage boundary gives back as it is what has no state or the value of a member of the
  -- enumeration. Any other state becomes "recovery_required", and the error text quotes it; turned into
  -- a state, that may not advance. Sanitizing again changes nothing.
  pub sanitize_persisted_state_known :
      (raw : PersistedState)
      → (raw.current_state ≡ none → sanitize_persisted_state repr raw ≡ raw)
        × ((s : SessionState)
            → raw.current_state ≡ some (session_state_value s)
            → sanitize_persisted_state repr raw ≡ raw)
        × ((value : String)
            → raw.current_state ≡ some value
            → ((s : SessionState) → session_state_value s ≢ value)
            → ((sanitize_persisted_state repr raw).current_state ≡ some "recovery_required")
              × ((sanitize_persisted_state repr raw).last_error
                  ≡ some (concat "invalid persisted workflow state: " (repr value)))
              × ((ctx : ProjectContext)
                  → (sanitize_persisted_state repr raw).current_state
                    ≡ some (state_value ctx.current_state)
                  → assert_advanceable ctx ≢ ok tt))
        × (sanitize_persisted_state repr (sanitize_persisted_state repr raw)
            ≡ sanitize_persisted_state repr raw)
  unfolding sanitize_persisted_state
  sanitize_persisted_state_known raw = (
    λ e. rw e refl,
    λ s e. rw e (rw (parse_state-session_state_value s) refl),
    λ value e lost. rw e (
        rw (no_member value lost) (
          refl,
          refl,
          λ ctx same free.
              let (k, b) = (assert_advanceable_iff ctx).0 free in
              absurd (let w = waits ctx.current_state cc in cc),
        )),
    sanitized raw.current_state raw.last_error,
  )
