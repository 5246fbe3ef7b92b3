-- ===== src/Actions/Effects/Keeping.antt =====
-- core/governance/action_effects.py: the effects of a decision do not reopen an action that is closed.
use ai_workflow_premortem_pu.Prelude.{
  if◌then◌else◌, ℕ, String, Bool, true, false, not, ◌&&◌, ◌||◌, Option, none, some, find_first, ok,
  raised, ◌≡◌, refl, inl, inr, Bool-cases, string_eq, nat_eq, ◌==◌, concat,
}
use ai_workflow_premortem_pu.Model.Records.{PendingHumanAction}
use ai_workflow_premortem_pu.Model.Context.{
  ProjectContext, append_audit_event, bump_stage_output_version,
}
use ai_workflow_premortem_pu.Stage.Supersede.{supersede_actions_for_stage}
use ai_workflow_premortem_pu.Stage.Revision.{
  record_stage_dependency_versions, invalidate_downstream_stages, out_of_range,
}
use ai_workflow_premortem_pu.Gates.Policy.{no_payload}
use ai_workflow_premortem_pu.Actions.Effects.{
  Payload, apply_pre_resolution_effects, edit_answer, is_edit, Service, Services, and_then,
  flag_effect, finding_effect, evidence_effect, redteam_effect, trace_effect, renewed, staled,
  edited_event, after_trace, after_redteam, stage_call, dropped, new_output, edit_effects,
  apply_post_resolution_effects, is_verify, is_dismissal,
}
use ai_workflow_premortem_pu.Actions.Effects.Closing.{
  Closed, Keeps, supersede-Keeps, invalidate_loop-Keeps, flag_effect-Keeps, finding_effect-Keeps,
  evidence_effect-Keeps, here,
}

module _ (id : String) where
  -- A step keeps the action closed, whether it raises or not.
  abbrev StepKeeps : {A : Type 0} → ProjectContext → Service A → Type 0
  StepKeeps c p = Keeps id c p.1

  and_then-Keeps :
      {A B : Type 0} (c : ProjectContext) (p : Service A) (next : A → ProjectContext → Service B)
      → StepKeeps c p
      → ((a : A) (d : ProjectContext) → StepKeeps d (next a d))
      → StepKeeps c (and_then p next)
  unfolding and_then
  and_then-Keeps c (raised e, d) next h g k = h k
  and_then-Keeps c (ok a, d) next h g k = g a d (h k)

  abbrev pub Found : ProjectContext → Type 0
  Found c = (a : PendingHumanAction) × (find_first (here id) c.pending_actions ≡ some a)

  -- None of the services reopens or loses the action.
  pub record Tame (services : Services) : Type 0 where
    pub reviewed_output_keeps :
        (c : ProjectContext) (stage : ℕ) (payload : Payload)
        → Found c
        → Found (services.apply_reviewed_output c stage payload).1
    pub on_redteam_keeps :
        (c : ProjectContext) (a : PendingHumanAction) (decision : String)
        → Keeps id c (services.on_redteam c a decision).1
    pub on_trace_keeps :
        (c : ProjectContext) (a : PendingHumanAction) → Keeps id c (services.on_trace c a).1
    pub refresh_keeps :
        (c : ProjectContext) (stage version : ℕ) → Keeps id c (services.refresh c stage version).1

  module _ (services : Services) (tame : Tame services) where
    redteam_effect-Keeps :
        (a : PendingHumanAction) (decision : String) (c : ProjectContext)
        → Keeps id c (redteam_effect services a decision c).1
    unfolding redteam_effect
    redteam_effect-Keeps a decision c k =
        either
          ((a.source_type == "redteam_gap" || a.source_type == "redteam_case")
              && decision == "approve"
            || a.source_type == "redteam_case" && is_dismissal decision)
          (services.on_redteam c a decision) c (tame.on_redteam_keeps c a decision) k
      where
        either :
            (b : Bool) (p : Service (Unit {0})) (d : ProjectContext)
            → Keeps id d p.1
            → Keeps id d (if b then p else (ok tt, d)).1
        either true p d h k = h k
        either false p d h k = k

    trace_effect-Keeps :
        (a : PendingHumanAction) (decision : String) (c : ProjectContext)
        → Keeps id c (trace_effect services a decision c).1
    unfolding trace_effect
    trace_effect-Keeps a decision c k =
        elim (Bool-cases (a.source_type == "trace_backfill_gap" && decision == "approve")) [
          | inl t ↦ rw t (tame.on_trace_keeps c a k)
          | inr f ↦ rw f k
        ]

    recorded-Keeps :
        (c : ProjectContext) (stage : ℕ)
        → Keeps id c (stage_call c (record_stage_dependency_versions c stage)).1
    unfolding stage_call record_stage_dependency_versions append_audit_event
    recorded-Keeps c stage k = elim (Bool-cases (out_of_range stage)) [
      | inl t ↦ rw t k
      | inr f ↦ rw f k
    ]

    invalidated-Keeps :
        (c : ProjectContext) (stage : ℕ) (reason : String) (by : Option String) (now : ℕ)
        → Keeps id c (stage_call c (dropped (invalidate_downstream_stages c stage reason by now))).1
    unfolding stage_call dropped invalidate_downstream_stages
    invalidated-Keeps c stage reason by now k = elim (Bool-cases (out_of_range stage)) [
      | inl t ↦ rw t k
      | inr f ↦ rw f (invalidate_loop-Keeps id stage reason by now _ c k)
    ]

    renewed-Keeps :
        (a : PendingHumanAction) (now version : ℕ) (c : ProjectContext)
        → Keeps id c (renewed services a now version c).1
    unfolding renewed
    renewed-Keeps a now version c k =
        let reason =
          concat "Stage output edited by action "
            (concat a.action_id "; stale actions superseded.") in
        tame.refresh_keeps
          (supersede_actions_for_stage c a.stage_id reason (some a.action_id) now).0 a.stage_id
          version (supersede-Keeps id c a.stage_id reason (some a.action_id) now k)

    staled-Keeps :
        (a : PendingHumanAction) (now version : ℕ) (c : ProjectContext)
        → Keeps id c (staled services a now version c).1
    unfolding staled
    staled-Keeps a now version c =
        let reason = concat "Stage output edited by action " (concat a.action_id ".") in
        and_then-Keeps c
          (stage_call c
            (dropped (invalidate_downstream_stages c a.stage_id reason (some a.action_id) now)))
          (λ _ d. renewed services a now version d)
          (invalidated-Keeps c a.stage_id reason (some a.action_id) now)
          (λ _ d. renewed-Keeps a now version d)

    new_output-Keeps :
        (a : PendingHumanAction) (now : ℕ) (c : ProjectContext)
        → Keeps id c (new_output services a now c).1
    unfolding new_output bump_stage_output_version
    new_output-Keeps a now c =
        let (bumped, version) = bump_stage_output_version c a.stage_id in
        and_then-Keeps bumped
          (stage_call bumped (record_stage_dependency_versions bumped a.stage_id))
          (λ _ d. staled services a now version d) (recorded-Keeps bumped a.stage_id)
          (λ _ d. staled-Keeps a now version d)

    edit_effects-Keeps :
        (a : PendingHumanAction) (now : ℕ) (applied : Option Bool) (c : ProjectContext)
        → Keeps id c (edit_effects services a now applied c).1
    unfolding edit_effects append_audit_event
    edit_effects-Keeps a now none c = λ k. k
    edit_effects-Keeps a now (some true) c =
        and_then-Keeps c (new_output services a now c) (λ _ d. edited_event services a d)
          (new_output-Keeps a now c) (λ _ d k. k)
    edit_effects-Keeps a now (some false) c =
        and_then-Keeps {A = Unit {0}} c (ok tt, c) (λ _ d. edited_event services a d) (λ k. k)
          (λ _ d k. k)

    after_trace-Keeps :
        (a : PendingHumanAction) (applied : Option Bool) (now : ℕ) (c : ProjectContext)
        → Keeps id c (after_trace services a applied now c).1
    unfolding after_trace
    after_trace-Keeps a applied now c =
        and_then-Keeps c (edit_effects services a now applied c) (λ _ d. (ok false, d))
          (edit_effects-Keeps a now applied c) (λ _ d k. k)

    after_redteam-Keeps :
        (a : PendingHumanAction) (decision : String) (applied : Option Bool) (now : ℕ)
        (c : ProjectContext)
        → Keeps id c (after_redteam services a decision applied now c).1
    unfolding after_redteam
    after_redteam-Keeps a decision applied now c =
        and_then-Keeps c (trace_effect services a decision c)
          (λ _ d. after_trace services a applied now d) (trace_effect-Keeps a decision c)
          (λ _ d. after_trace-Keeps a applied now d)

    edit_answer-context : (p : Service Bool) → (edit_answer services p).1 ≡ p.1
    unfolding edit_answer
    edit_answer-context (ok b, c) = refl
    edit_answer-context (raised e, c) = refl

    pub apply_pre_resolution_effects-Found :
        (c : ProjectContext) (a : PendingHumanAction) (decision : String) (payload : Payload)
        → Found c
        → Found (apply_pre_resolution_effects services c a decision payload).1
    unfolding apply_pre_resolution_effects
    apply_pre_resolution_effects-Found c a decision payload k =
        elim (Bool-cases
          (is_edit a.action_type && decision == "edit" && not (no_payload payload))) [
            | inl t ↦
                rw (t, edit_answer-context (services.apply_reviewed_output c a.stage_id payload))
                  (tame.reviewed_output_keeps c a.stage_id payload k)
            | inr f ↦ rw f k
          ]

    -- The effects that follow a resolution do not reopen the action.
    pub apply_post_resolution_effects-Keeps :
        (c : ProjectContext) (a : PendingHumanAction) (decision note : String)
        (applied : Option Bool) (now : ℕ)
        → Keeps id c (apply_post_resolution_effects services c a decision note applied now).1
    unfolding apply_post_resolution_effects
    apply_post_resolution_effects-Keeps c a decision note applied now k =
        let c1 = finding_effect a decision (flag_effect a decision note c) in
        let k1 : Closed id c1 =
          finding_effect-Keeps id a decision (flag_effect a decision note c)
            (flag_effect-Keeps id a decision note c k) in
        let c2 = evidence_effect a c1 in
        elim (Bool-cases (is_verify a.action_type && is_dismissal decision)) [
          | inl t ↦ rw t k1
          | inr f ↦ rw f (
              and_then-Keeps c2 (redteam_effect services a decision c2)
                (λ _ d. after_redteam services a decision applied now d)
                (redteam_effect-Keeps a decision c2)
                (λ _ d. after_redteam-Keeps a decision applied now d)
                (evidence_effect-Keeps id a c1 k1))
        ]
