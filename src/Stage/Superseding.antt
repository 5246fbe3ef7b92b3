-- ===== src/Stage/Superseding.antt =====
-- What `supersede_actions_for_stage` (core/governance/action_resolution.py) leaves behind.
use ai_workflow_premortem_pu.Prelude.{
  ℕ, append_nil, String, Bool, true, false, not, ◌&&◌, ◌||◌, Option, List, [], ◌∷◌, ◌++◌, ◌≡◌, refl,
  arith, All, keep_if, ◌==◌, nat_eq, option_string_eq, string_eq, Bool-cases, inl, inr, none, some,
  is_some, ◌⊎◌, ◌↔◌, ◌≢◌, if◌then◌else◌,
}
use ai_workflow_premortem_pu.Model.Enums.{
  ActionStatus, pending, resolved, superseded, is_pending, is_resolved, is_decisive,
}
use ai_workflow_premortem_pu.Model.Records.{PendingHumanAction, AuditEvent}
use ai_workflow_premortem_pu.Model.Context.{ProjectContext, append_audit_event}
use ai_workflow_premortem_pu.Stage.Supersede.{
  is_rejected, should_supersede, superseded_action, supersede_loop, superseded_events,
  supersede_actions_for_stage,
}

append_assoc : (xs ys zs : List AuditEvent) → (xs ++ ys) ++ zs ≡ xs ++ (ys ++ zs)
append_assoc [] ys zs = refl
append_assoc (x ∷ xs) ys zs = rw (append_assoc xs ys zs)

abbrev superseded_event : String → AuditEvent
superseded_event id = record {
  actor = "system";
  event_type = "human_action_superseded";
  target_type = "human_action";
  target_id = id;
}

abbrev superseded_trail : List String → List AuditEvent
superseded_trail [] = []
superseded_trail (id ∷ ids) = superseded_event id ∷ superseded_trail ids

superseded_events-frame :
    (ids : List String) (ctx : ProjectContext)
    → superseded_events ids ctx
      ≡ record ctx { audit_events = ctx.audit_events ++ superseded_trail ids }
unfolding superseded_events append_audit_event
superseded_events-frame [] ctx = rw (append_nil ctx.audit_events)
superseded_events-frame (id ∷ ids) ctx =
    rw
      (superseded_events-frame ids
        (append_audit_event ctx "system" "human_action_superseded" "human_action" id))
      (rw (append_assoc ctx.audit_events (superseded_event id ∷ []) (superseded_trail ids)))

module _ (stage : ℕ) (reason : String) (by : Option String) (now : ℕ) where
  -- Superseding writes the list of actions and the audit trail alone.
  pub supersede_actions_for_stage-frame :
      (ctx : ProjectContext)
      → (supersede_actions_for_stage ctx stage reason by now).0 ≡ record ctx {
        pending_actions = (supersede_loop stage reason by now ctx.pending_actions).0;
        audit_events =
            ctx.audit_events
            ++ superseded_trail (supersede_loop stage reason by now ctx.pending_actions).1;
      }
  unfolding supersede_actions_for_stage
  supersede_actions_for_stage-frame ctx =
      superseded_events-frame (supersede_loop stage reason by now ctx.pending_actions).1
        (record ctx {
          pending_actions = (supersede_loop stage reason by now ctx.pending_actions).0;
        })

  superseded_is_quiet :
      (a : PendingHumanAction) → should_supersede stage (superseded_action reason by now a) ≡ false
  unfolding should_supersede superseded_action is_rejected
  superseded_is_quiet a = ground arith

  loop-quiet :
      (actions : List PendingHumanAction)
      → All
          (λ (a : PendingHumanAction). should_supersede stage a ≡ false)
          (supersede_loop stage reason by now actions).0
  unfolding supersede_loop
  loop-quiet [] = tt
  loop-quiet (a ∷ actions) = elim (Bool-cases (should_supersede stage a)) [
    | inl t ↦ rw t (superseded_is_quiet a, loop-quiet actions)
    | inr f ↦ rw f (f, loop-quiet actions)
  ]

  quiet-loop :
      (actions : List PendingHumanAction)
      → All (λ (a : PendingHumanAction). should_supersede stage a ≡ false) actions
      → supersede_loop stage reason by now actions ≡ (actions, [])
  unfolding supersede_loop
  quiet-loop [] h = refl
  quiet-loop (a ∷ actions) h = rw h.0 (rw (quiet-loop actions h.1))

  quiet_is_settled :
      (a : PendingHumanAction)
      → should_supersede stage a ≡ false
      → a.stage_id ≡ stage
      → (is_pending a.status ≡ false) × (is_rejected a ≡ false)
  unfolding should_supersede
  quiet_is_settled a h e = (ground arith, ground arith)

  -- The actions of other stages, and the resolved ones that were not rejected.
  abbrev pub untouched : PendingHumanAction → Bool
  untouched a = not (a.stage_id == stage) || is_resolved a.status && not (is_rejected a)

  untouched-quiet :
      (a : PendingHumanAction)
      → should_supersede stage a ≡ true
      → (untouched a ≡ false) × (untouched (superseded_action reason by now a) ≡ false)
  unfolding should_supersede superseded_action is_rejected
  untouched-quiet a h = (ground arith, ground arith)

  loop-untouched :
      (actions : List PendingHumanAction)
      → keep_if untouched (supersede_loop stage reason by now actions).0 ≡ keep_if untouched actions
  unfolding supersede_loop
  loop-untouched [] = refl
  loop-untouched (a ∷ actions) = elim (Bool-cases (should_supersede stage a)) [
    | inl t ↦
        let (old, new) = untouched-quiet a t in rw t (rw old (rw new (loop-untouched actions)))
    | inr f ↦ rw f (rw (loop-untouched actions))
  ]

  settled_from_quiet :
      (actions : List PendingHumanAction)
      → All (λ (a : PendingHumanAction). should_supersede stage a ≡ false) actions
      → All
          (λ (a : PendingHumanAction).
            a.stage_id ≡ stage → (is_pending a.status ≡ false) × (is_rejected a ≡ false))
          actions
  settled_from_quiet [] h = tt
  settled_from_quiet (a ∷ actions) h = (quiet_is_settled a h.0, settled_from_quiet actions h.1)

  -- Pending, or a resolved key action that the reviewer rejected.
  abbrev pub Due : PendingHumanAction → Type 0
  Due a =
      (a.stage_id ≡ stage)
      × ((a.status ≡ pending)
          ⊎ ((a.status ≡ resolved)
              × (a.reviewer_decision ≡ some "reject")
              × (is_decisive a.action_type ≡ true)))

  -- The action under its identifier, superseded, with the reason and by whom, and with the time that it
  -- was resolved before or else the present one.
  pub record Superseded (a b : PendingHumanAction) : Type 0 where
    pub same_id : b.action_id ≡ a.action_id
    pub same_stage : b.stage_id ≡ a.stage_id
    pub status : b.status ≡ superseded
    pub note : b.reviewer_note ≡ some reason
    pub by_whom : b.superseded_by ≡ by
    pub kept_time : a.resolved_at ≢ none → b.resolved_at ≡ a.resolved_at
    pub new_time : a.resolved_at ≡ none → b.resolved_at ≡ some now

  -- What becomes of each action, in order.
  abbrev pub Fates : List PendingHumanAction → List PendingHumanAction → Type 0
  Fates [] [] = Unit
  Fates (a ∷ as') (b ∷ bs) = ((Due a × Superseded a b) ⊎ ((Due a → ⊥) × (b ≡ a))) × Fates as' bs
  Fates _ _ = ⊥

  pending_iff : (s : ActionStatus) → (is_pending s ≡ true) ↔ (s ≡ pending)
  pending_iff pending = (λ _. refl, λ _. refl)
  pending_iff _ = ground arith

  resolved_iff : (s : ActionStatus) → (is_resolved s ≡ true) ↔ (s ≡ resolved)
  resolved_iff resolved = (λ _. refl, λ _. refl)
  resolved_iff _ = ground arith

  should_supersede_iff : (a : PendingHumanAction) → (should_supersede stage a ≡ true) ↔ Due a
  unfolding should_supersede is_rejected
  should_supersede_iff a =
      let here = nat_eq.beq_iff a.stage_id stage in
      let waits = pending_iff a.status in
      let done = resolved_iff a.status in
      let refused = option_string_eq.beq_iff a.reviewer_decision (some "reject") in
      ground (arith, here, waits, done, refused)

  superseded_action-Superseded :
      (a : PendingHumanAction) → Superseded a (superseded_action reason by now a)
  unfolding superseded_action
  superseded_action-Superseded a = record {
    same_id = refl;
    same_stage = refl;
    status = refl;
    note = refl;
    by_whom = refl;
    kept_time = λ h. kept a.resolved_at h;
    new_time = λ h. rw h refl;
  }
    where
      kept : (o : Option ℕ) → o ≢ none → (if is_some o then o else some now) ≡ o
      kept none h = absurd (h refl)
      kept (some t) h = refl

  loop-Fates :
      (actions : List PendingHumanAction)
      → Fates actions (supersede_loop stage reason by now actions).0
  unfolding supersede_loop
  loop-Fates [] = tt
  loop-Fates (a ∷ actions) = elim (Bool-cases (should_supersede stage a)) [
    | inl t ↦
        rw t
          (inl ((should_supersede_iff a).0 t, superseded_action-Superseded a), loop-Fates actions)
    | inr f ↦ rw f (
      inr (λ due. absurd (let t = (should_supersede_iff a).1 due in cc), refl),
      loop-Fates actions,
    )
  ]

  -- Superseding a stage's actions supersedes, in place, exactly the ones of that stage that are pending
  -- or a rejected key action, and leaves each other action as it is. None of the stage's actions is
  -- pending or rejected after it; every action of another stage and every resolved one that was not
  -- rejected is kept, in order; and doing it again finds nothing and changes nothing.
  pub supersede_actions_for_stage-settles :
      (ctx : ProjectContext)
      → let after = (supersede_actions_for_stage ctx stage reason by now).0 in
        Fates ctx.pending_actions after.pending_actions
        × All
            (λ (a : PendingHumanAction).
              a.stage_id ≡ stage → (is_pending a.status ≡ false) × (is_rejected a ≡ false))
            after.pending_actions
        × (keep_if untouched after.pending_actions ≡ keep_if untouched ctx.pending_actions)
        × (supersede_actions_for_stage after stage reason by now ≡ (after, 0))
  unfolding supersede_actions_for_stage superseded_events
  supersede_actions_for_stage-settles ctx =
      let actions = ctx.pending_actions in
      let quiet = loop-quiet actions in
      rw (supersede_actions_for_stage-frame ctx) (
        loop-Fates actions,
        settled_from_quiet (supersede_loop stage reason by now actions).0 quiet,
        loop-untouched actions,
        rw (quiet-loop (supersede_loop stage reason by now actions).0 quiet),
      )
