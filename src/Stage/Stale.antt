-- ===== src/Stage/Stale.antt =====
-- Which stages `invalidate_downstream_stages` (core/stage_revision_service.py) marks stale.
use ai_workflow_premortem_pu.Prelude.{
  ℕ, suc, zero, ◌+◌, ◌≤◌, String, Bool, true, ◌&&◌, ◌||◌, Option, List, [], ◌∷◌, ◌≡◌, ◌≢◌, refl,
  sym, ◌∙◌, arith, any, mem, keep_if, ◌==◌, nat_eq, ltb, leb, if◌then◌else◌, inl, inr, Bool-cases,
  concat,
}
use ai_workflow_premortem_pu.Dict.{put, pop, get-put_same, get-put_other, get-pop_other}
use ai_workflow_premortem_pu.Model.Records.{PendingHumanAction, Staleness}
use ai_workflow_premortem_pu.Model.Context.{ProjectContext, append_audit_event, stage_output_exists}
use ai_workflow_premortem_pu.Stage.Supersede.{should_supersede, superseded_action, supersede_loop}
use ai_workflow_premortem_pu.Stage.Superseding.{supersede_actions_for_stage-frame}
use ai_workflow_premortem_pu.Stage.Revision.{
  range, downstream_has_state, mark_stale, invalidate_loop,
}
use ai_workflow_premortem_pu.Gates.Basic.{is_stale}

-- Superseding changes no action's stage.
loop-has_action :
    (stage j : ℕ) (reason : String) (by : Option String) (now : ℕ)
    (actions : List PendingHumanAction)
    → any (λ a. a.stage_id == j) (supersede_loop stage reason by now actions).0
      ≡ any (λ a. a.stage_id == j) actions
unfolding supersede_loop superseded_action
loop-has_action stage j reason by now [] = refl
loop-has_action stage j reason by now (a ∷ actions) = elim (Bool-cases (should_supersede stage a)) [
  | inl t ↦ rw t (rw (loop-has_action stage j reason by now actions))
  | inr f ↦ rw f (rw (loop-has_action stage j reason by now actions))
]

module _ (changed : ℕ) (reason : String) (by : Option String) (now : ℕ) where
  -- The new entry of `stage_staleness`.
  abbrev entry : Staleness
  entry = record {
    stale = true;
    because_stage = changed;
    reason = reason;
    stale_superseded_by = by;
  }

  mark_stale-frame :
      (d : ℕ) (ctx : ProjectContext)
      → let after = mark_stale changed reason by now d ctx in
        (after.stage_staleness ≡ put d entry ctx.stage_staleness)
        × (after.parser_errors ≡ pop d ctx.parser_errors)
        × (after.stage_dependency_versions ≡ ctx.stage_dependency_versions)
        × ((j : ℕ) → stage_output_exists after j ≡ stage_output_exists ctx j)
        × ((j : ℕ)
            → any (λ a. a.stage_id == j) after.pending_actions
              ≡ any (λ a. a.stage_id == j) ctx.pending_actions)
  unfolding mark_stale append_audit_event stage_output_exists
  mark_stale-frame d ctx =
      let ctx1 : ProjectContext = record ctx {
        stage_staleness = put d entry ctx.stage_staleness;
        parser_errors = pop d ctx.parser_errors;
      } in
      let text = concat "Downstream stage marked stale: " reason in
      rw (supersede_actions_for_stage-frame d text by now ctx1)
        (refl, refl, refl, λ j. refl, λ j. loop-has_action d j text by now ctx.pending_actions)

  mark_stale-is_stale :
      (d : ℕ) (ctx : ProjectContext) → is_stale (mark_stale changed reason by now d ctx) d ≡ true
  mark_stale-is_stale d ctx =
      let stale = (mark_stale-frame d ctx).0 in
      unfold is_stale in rw stale (rw (get-put_same d entry ctx.stage_staleness, is_stale) refl)

  mark_stale-other :
      (d j : ℕ) (ctx : ProjectContext)
      → d ≢ j
      → (is_stale (mark_stale changed reason by now d ctx) j ≡ is_stale ctx j)
        × (downstream_has_state (mark_stale changed reason by now d ctx) j
            ≡ downstream_has_state ctx j)
  mark_stale-other d j ctx h =
      let (stale, errors, deps, outs, acts) = mark_stale-frame d ctx in
      (
        unfold is_stale in
            rw stale (rw (get-put_other d j entry ctx.stage_staleness h, is_stale) refl),
        unfold downstream_has_state in
            rw (outs j)
              (rw deps (rw errors (rw (get-pop_other d j ctx.parser_errors h) (rw (acts j))))),
      )

keep-range :
    (p q : ℕ → Bool) (start count : ℕ)
    → ((j : ℕ) → start ≤ j → p j ≡ q j)
    → keep_if p (range start count) ≡ keep_if q (range start count)
keep-range p q start zero h = refl
keep-range p q start (suc count) h =
    rw (h start (omega arith)) (rw (keep-range p q (suc start) count λ j le. h j (omega arith)))

mem-range : (j start count : ℕ) → mem j (range start count) ≡ (leb start j && ltb j (start + count))
mem-range j start zero = ground arith
mem-range j start (suc count) = ground (arith, mem-range j (suc start) count)

module _ (changed : ℕ) (reason : String) (by : Option String) (now : ℕ) where
  -- The context after the body of the loop for one stage.
  abbrev step : ℕ → ProjectContext → ProjectContext
  step d ctx = if downstream_has_state ctx d then mark_stale changed reason by now d ctx else ctx

  step-is_stale :
      (d : ℕ) (ctx : ProjectContext)
      → is_stale (step d ctx) d ≡ (downstream_has_state ctx d || is_stale ctx d)
  step-is_stale d ctx = elim (Bool-cases (downstream_has_state ctx d)) [
    | inl t ↦ rw t (mark_stale-is_stale changed reason by now d ctx)
    | inr f ↦ rw f
  ]

  step-same :
      (d j : ℕ) (ctx : ProjectContext)
      → d ≡ j
      → is_stale (step d ctx) j ≡ (downstream_has_state ctx j || is_stale ctx j)
  step-same d j ctx e = rw (sym e) (step-is_stale d ctx)

  step-other :
      (d j : ℕ) (ctx : ProjectContext)
      → d ≢ j
      → (is_stale (step d ctx) j ≡ is_stale ctx j)
        × (downstream_has_state (step d ctx) j ≡ downstream_has_state ctx j)
  step-other d j ctx h = elim (Bool-cases (downstream_has_state ctx d)) [
    | inl t ↦ rw t (mark_stale-other changed reason by now d j ctx h)
    | inr f ↦ rw f (refl, refl)
  ]

  step-output :
      (d j : ℕ) (ctx : ProjectContext)
      → stage_output_exists (step d ctx) j ≡ stage_output_exists ctx j
  step-output d j ctx = elim (Bool-cases (downstream_has_state ctx d)) [
    | inl t ↦ rw t ((mark_stale-frame changed reason by now d ctx).3 j)
    | inr f ↦ rw f
  ]

  pub invalidate_loop-output :
      (ds : List ℕ) (ctx : ProjectContext) (j : ℕ)
      → stage_output_exists (invalidate_loop changed reason by now ds ctx).0 j
        ≡ stage_output_exists ctx j
  unfolding invalidate_loop
  invalidate_loop-output [] ctx j = refl
  invalidate_loop-output (d ∷ ds) ctx j =
      invalidate_loop-output ds (step d ctx) j ∙ step-output d j ctx

  pub invalidate_loop-keys :
      (start count : ℕ) (ctx : ProjectContext)
      → (invalidate_loop changed reason by now (range start count) ctx).1
        ≡ keep_if (downstream_has_state ctx) (range start count)
  unfolding invalidate_loop
  invalidate_loop-keys start zero ctx = refl
  invalidate_loop-keys start (suc count) ctx =
      let rest =
        invalidate_loop-keys (suc start) count (step start ctx)
        ∙ keep-range (downstream_has_state (step start ctx)) (downstream_has_state ctx) (suc start)
            count (λ j le. (step-other start j ctx (λ e. omega arith)).1) in
      rw rest

  pub invalidate_loop-is_stale :
      (start count : ℕ) (ctx : ProjectContext) (j : ℕ)
      → is_stale (invalidate_loop changed reason by now (range start count) ctx).0 j
        ≡ (leb start j && ltb j (start + count) && downstream_has_state ctx j || is_stale ctx j)
  unfolding invalidate_loop
  invalidate_loop-is_stale start zero ctx j = ground arith
  invalidate_loop-is_stale start (suc count) ctx j =
      let rest = invalidate_loop-is_stale (suc start) count (step start ctx) j in
      elim (Bool-cases (start == j)) [
        | inl t ↦
            let e = (nat_eq.beq_iff start j).0 t in rest ∙ ground (arith, step-same start j ctx e)
        | inr f ↦
            let (a, b) = step-other start j ctx (λ e. ground arith) in
            rest ∙ rw a (rw b (ground arith))
      ]
