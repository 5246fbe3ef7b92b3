-- ===== src/Advance/Coordinator/Progress.antt =====
-- That a session which is ready gets through: core/stage_advancement_coordinator.py over the gate of
-- core/gates/engine.py.
use ai_workflow_premortem_pu.Prelude.{
  ℕ, String, Bool, true, false, List, [], ◌∷◌, ◌++◌, ok, ◌≡◌, refl, ◌∙◌, ap, arith,
}
use ai_workflow_premortem_pu.Model.Enums.{known, complete}
use ai_workflow_premortem_pu.Model.Context.{
  ProjectContext, append_audit_event, current_version, stage_output_exists,
}
use ai_workflow_premortem_pu.Workflow.State.{is_blocked}
use ai_workflow_premortem_pu.Stage.Revision.{out_of_range}
use ai_workflow_premortem_pu.Gates.Basic.{is_stale, recorded_dependencies, is_current}
use ai_workflow_premortem_pu.Gates.Engine.{
  GateRule, basic_rules, StageGateResult, evaluate_stage_gate,
}
use ai_workflow_premortem_pu.Gates.Ready.{IsReady}
use ai_workflow_premortem_pu.Gates.Keep.{Quiet, evaluate_stage_gate-opens}
use ai_workflow_premortem_pu.Advance.Operations.{operations_of, build_stage_resolution_operations}
use ai_workflow_premortem_pu.Advance.Coordinator.{
  next_state_of, decision_of, moved, with_operations, with_result, build_stage_advancement_decision,
  move_on, advance_stage_if_ready,
}
use ai_workflow_premortem_pu.Advance.Coordinator.Moves.{Gate}

advance-moved :
    (gate : Gate) (c : ProjectContext) (stage : ℕ) (reason : String) (r : StageGateResult)
    → gate c stage ≡ (ok r, c)
    → r.can_continue ≡ true
    → is_blocked c.current_state ≡ false
    → out_of_range stage ≡ false
    → (advance_stage_if_ready gate c stage reason).1 ≡ moved c stage
unfolding advance_stage_if_ready build_stage_advancement_decision with_result with_operations
    operations_of build_stage_resolution_operations move_on decision_of
advance-moved gate c stage reason r e t free range = rw (free, range, e, e, t) refl

next_is_free : (stage : ℕ) → is_blocked (known (next_state_of stage)) ≡ false
unfolding next_state_of is_blocked
next_is_free stage = ground arith

-- Sessions that differ in their state, the notes of their reviews and their audit trail at most.
abbrev pub SameWork : ProjectContext → ProjectContext → Type 0
SameWork c d = d ≡ record c {
  current_state = d.current_state;
  review_notes = d.review_notes;
  audit_events = d.audit_events;
}

moved_complete : (d : ProjectContext) → (moved d 4).current_state ≡ known complete
unfolding moved append_audit_event next_state_of
moved_complete d = refl

IsReady-SameWork :
    (c d : ProjectContext) (stage : ℕ) → SameWork c d → IsReady c stage → IsReady d stage
unfolding stage_output_exists is_stale current_version recorded_dependencies is_current
IsReady-SameWork c d stage e r = rw e (record {
  output = r.output;
  not_stale = r.not_stale;
  dependencies = r.dependencies;
  actions = r.actions;
  parsed = r.parsed;
  findings = r.findings;
})

moved-SameWork : (c d : ProjectContext) (stage : ℕ) → SameWork c d → SameWork c (moved d stage)
unfolding moved append_audit_event
moved-SameWork c d stage e =
    ap
      (λ (x : ProjectContext). record x {
        current_state = (moved d stage).current_state;
        review_notes = (moved d stage).review_notes;
        audit_events = (moved d stage).audit_events;
      })
      e

-- Advancing the stages in turn, whatever the answers.
unfoldable pub advance_each : Gate → String → List ℕ → ProjectContext → ProjectContext
advance_each gate reason [] c = c
advance_each gate reason (stage ∷ stages) c =
    advance_each gate reason stages (advance_stage_if_ready gate c stage reason).1

module _ (more : List GateRule) (disabled : List String) (strict : ProjectContext → Bool)
    (reason : String) (c : ProjectContext) where
  -- The stage is ready, and each further rule is skipped for it or finds nothing and leaves the session
  -- as it is, also once the session has moved on.
  pub record Passes (stage : ℕ) : Type 0 where
    pub in_range : out_of_range stage ≡ false
    pub ready : IsReady c stage
    pub quiet : (d : ProjectContext) → SameWork c d → Quiet disabled stage d more

  abbrev the_gate : Gate
  the_gate = evaluate_stage_gate (basic_rules ++ more) disabled strict true

  one_step :
      (d : ProjectContext) (stage : ℕ)
      → SameWork c d
      → is_blocked d.current_state ≡ false
      → Passes stage
      → (advance_stage_if_ready the_gate d stage reason).1 ≡ moved d stage
  one_step d stage same free p =
      let (r, e, t) =
        evaluate_stage_gate-opens disabled stage d more strict p.in_range
          (IsReady-SameWork c d stage same p.ready) (p.quiet d same) in
      advance-moved the_gate d stage reason r e t free p.in_range

  moved_is_free :
      (d : ProjectContext) (stage : ℕ) → is_blocked (moved d stage).current_state ≡ false
  unfolding moved append_audit_event
  moved_is_free d stage = next_is_free stage

  -- Advancing the four stages in turn completes a session that is not blocked, if each stage passes: it
  -- is ready, and each further rule is skipped for it, or finds nothing in it and leaves the session as it
  -- is, whatever the state, the review notes and the audit trail of the session are by then. The records
  -- of the gates can be written.
  pub advance_each-complete :
      is_blocked c.current_state ≡ false
      → Passes 1
      → Passes 2
      → Passes 3
      → Passes 4
      → (advance_each the_gate reason (1 ∷ 2 ∷ 3 ∷ 4 ∷ []) c).current_state ≡ known complete
  unfolding advance_each
  advance_each-complete free p1 p2 p3 p4 =
      let c1 = moved c 1 in
      let c2 = moved c1 2 in
      let c3 = moved c2 3 in
      let s1 = moved-SameWork c c 1 refl in
      let s2 = moved-SameWork c c1 2 s1 in
      let s3 = moved-SameWork c c2 3 s2 in
      first c c1 1 (2 ∷ 3 ∷ 4 ∷ []) (one_step c 1 refl free p1)
      ∙ first c1 c2 2 (3 ∷ 4 ∷ []) (one_step c1 2 s1 (moved_is_free c 1) p2)
      ∙ first c2 c3 3 (4 ∷ []) (one_step c2 3 s2 (moved_is_free c1 2) p3)
      ∙ first c3 (moved c3 4) 4 [] (one_step c3 4 s3 (moved_is_free c2 3) p4)
      ∙ moved_complete c3
    where
      first :
          (d d' : ProjectContext) (stage : ℕ) (stages : List ℕ)
          → (advance_stage_if_ready the_gate d stage reason).1 ≡ d'
          → (advance_each the_gate reason (stage ∷ stages) d).current_state
            ≡ (advance_each the_gate reason stages d').current_state
      first d d' stage stages e =
          ap (λ (x : ProjectContext). (advance_each the_gate reason stages x).current_state) e
