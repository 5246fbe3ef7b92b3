-- ===== src/Advance/Coordinator/Moves.antt =====
-- core/stage_advancement_coordinator.py: when a session moves on, and to which state.
use ai_workflow_premortem_pu.Prelude.{
  ℕ, String, true, false, some, List, Outcome, ok, raised, Bool-cases, ◌≡◌, refl, sym, ◌∙◌, ap, ◌↔◌,
  ◌⊎◌, inl, inr, arith,
}
use ai_workflow_premortem_pu.Model.Enums.{
  StateValue, known, s2_running, s3_running, s4_running, complete,
}
use ai_workflow_premortem_pu.Model.Context.{ProjectContext, append_audit_event}
use ai_workflow_premortem_pu.Workflow.State.{is_blocked, state_value}
use ai_workflow_premortem_pu.Stage.Revision.{out_of_range}
use ai_workflow_premortem_pu.Gates.Engine.{StageGateResult, GateError}
use ai_workflow_premortem_pu.Advance.Operations.{
  StageResolutionOperation, operations_of, build_stage_resolution_operations,
}
use ai_workflow_premortem_pu.Advance.Coordinator.{
  Answer, StageAdvancementDecision, next_state_of, decision_of, blocked_decision, moved,
  with_operations, with_result, build_stage_advancement_decision, blocked_answer, move_on,
  advance_stage_if_ready,
}

abbrev pub Gate : Type 0
Gate = ProjectContext → ℕ → Outcome GateError StageGateResult × ProjectContext

-- Evaluating a gate may add actions to the session, but does not move it.
abbrev pub KeepsState : Gate → Type 0
KeepsState gate = (c : ProjectContext) (s : ℕ) → (gate c s).1.current_state ≡ c.current_state

-- The state that follows a stage: the work on the next one, or the end.
abbrev pub Follows : ℕ → StateValue → Type 0
Follows stage v =
    ((stage ≡ 1) × (v ≡ known s2_running))
    ⊎ ((stage ≡ 2) × (v ≡ known s3_running))
    ⊎ ((stage ≡ 3) × (v ≡ known s4_running))
    ⊎ ((stage ≡ 4) × (v ≡ known complete))

next_state_of-Follows :
    (stage : ℕ) → out_of_range stage ≡ false → Follows stage (known (next_state_of stage))
unfolding next_state_of
next_state_of-Follows stage range = ground arith

answer_parts :
    (p : Answer) (d : StageAdvancementDecision) (ctx : ProjectContext)
    → p ≡ (ok d, ctx)
    → (p.0 ≡ ok d) × (p.1 ≡ ctx)
answer_parts p d ctx h = (ap (λ (q : Answer). q.0) h, ap (λ (q : Answer). q.1) h)

module _ (gate : Gate) (stage : ℕ) (reason : String) where
  operations_of-context :
      (p : Outcome GateError StageGateResult × ProjectContext) → (operations_of gate p).1 ≡ p.1
  unfolding operations_of
  operations_of-context (ok r, c) = refl
  operations_of-context (raised e, c) = refl

  with_operations-context :
      (r : StageGateResult) (p : Outcome GateError (List StageResolutionOperation) × ProjectContext)
      → (with_operations gate stage reason r p).1 ≡ p.1
  unfolding with_operations
  with_operations-context r (ok ops, c) = refl
  with_operations-context r (raised e, c) = refl

  with_operations-eq-ok :
      (r : StageGateResult) (p : Outcome GateError (List StageResolutionOperation) × ProjectContext)
      (d : StageAdvancementDecision)
      → (with_operations gate stage reason r p).0 ≡ ok d
      → (d.can_advance ≡ r.can_continue) × (d.advanced ≡ false)
  unfolding with_operations decision_of
  with_operations-eq-ok r (ok ops, c) d h = (ground arith, ground arith)
  with_operations-eq-ok r (raised e, c) d h = absurd cc

  with_result-state :
      (p : Outcome GateError StageGateResult × ProjectContext)
      → KeepsState gate
      → (with_result gate stage reason p).1.current_state ≡ p.1.current_state
  unfolding with_result build_stage_resolution_operations
  with_result-state (raised e, c) k = refl
  with_result-state (ok r, c) k =
      rw (with_operations-context r (operations_of gate (gate c stage)))
        (rw (operations_of-context (gate c stage)) (k c stage))

  with_result-eq-ok :
      (p : Outcome GateError StageGateResult × ProjectContext) (d : StageAdvancementDecision)
      → (with_result gate stage reason p).0 ≡ ok d
      → (r : StageGateResult) × (p.0 ≡ ok r)
        × (d.can_advance ≡ r.can_continue)
        × (d.advanced ≡ false)
  unfolding with_result
  with_result-eq-ok (raised e, c) d h = absurd cc
  with_result-eq-ok (ok r, c) d h =
      let k = with_operations-eq-ok r (build_stage_resolution_operations gate c stage) d h in
      (r, refl, k.0, k.1)

  -- What an answer of the coordinator says, against the session before and the gate's verdict.
  pub record Advances (ctx : ProjectContext) (result : StageGateResult)
      (d : StageAdvancementDecision) (ctx' : ProjectContext) : Type 0 where
    pub exactly_if :
        (d.advanced ≡ true)
        ↔ ((is_blocked ctx.current_state ≡ false) × (result.can_continue ≡ true))
    pub moves_on :
        d.advanced ≡ true
        → (ctx'.current_state ≡ known (next_state_of stage))
          × (d.next_state ≡ some (state_value (known (next_state_of stage))))
    pub follows : d.advanced ≡ true → Follows stage ctx'.current_state
    pub in_range : d.advanced ≡ true → out_of_range stage ≡ false
    pub stays : d.advanced ≡ false → ctx'.current_state ≡ ctx.current_state

  Advances-context :
      (ctx c c' : ProjectContext) (r : StageGateResult) (d : StageAdvancementDecision)
      → c ≡ c'
      → Advances ctx r d c
      → Advances ctx r d c'
  Advances-context ctx c c' r d e a = rw (← e) a

  blocked_answer-eq-ok :
      (p : Outcome GateError StageGateResult × ProjectContext) (d : StageAdvancementDecision)
      → (blocked_answer gate stage p).0 ≡ ok d
      → (r : StageGateResult) × (p.0 ≡ ok r)
        × (d.advanced ≡ false)
        × ((blocked_answer gate stage p).1 ≡ p.1)
  unfolding blocked_answer blocked_decision
  blocked_answer-eq-ok (ok r, c) d h = (r, refl, ground arith, refl)
  blocked_answer-eq-ok (raised e, c) d h = absurd cc

  move_on-stays :
      (d d' : StageAdvancementDecision) (c : ProjectContext)
      → d.can_advance ≡ false
      → (move_on gate stage reason (ok d, c)).0 ≡ ok d'
      → (d'.advanced ≡ d.advanced) × ((move_on gate stage reason (ok d, c)).1 ≡ c)
  unfolding move_on
  move_on-stays d d' c f h = (ground arith, rw f refl)

  move_on-moves :
      (d d' : StageAdvancementDecision) (c : ProjectContext)
      → d.can_advance ≡ true
      → (move_on gate stage reason (ok d, c)).0 ≡ ok d'
      → (d'.advanced ≡ true)
        × (d'.next_state ≡ some (state_value (known (next_state_of stage))))
        × ((move_on gate stage reason (ok d, c)).1.current_state ≡ known (next_state_of stage))
  unfolding move_on moved append_audit_event
  move_on-moves d d' c t h = (ground arith, ground arith, rw t refl)

  -- The answer of a session that is not blocked, from the decision that it rests on.
  move_on-Advances :
      (ctx : ProjectContext) (result : StageGateResult) (p : Answer)
      (d d' : StageAdvancementDecision)
      → is_blocked ctx.current_state ≡ false
      → p.0 ≡ ok d
      → d.can_advance ≡ result.can_continue
      → d.advanced ≡ false
      → out_of_range stage ≡ false
      → p.1.current_state ≡ ctx.current_state
      → (move_on gate stage reason p).0 ≡ ok d'
      → Advances ctx result d' (move_on gate stage reason p).1
  move_on-Advances ctx result (raised e, c) d d' free h same new range kept k = absurd cc
  move_on-Advances ctx result (ok d0, c) d d' free h same new range kept k =
      let e : d0 ≡ d = cc in
      elim (Bool-cases d0.can_advance) [
        | inl t ↦
            let (advanced, next, state) = move_on-moves d0 d' c t k in
            let open_gate : result.can_continue ≡ true =
              sym same ∙ (sym (ap (λ (x : StageAdvancementDecision). x.can_advance) e) ∙ t) in
            record {
              exactly_if = (λ _. (free, open_gate), λ _. advanced);
              moves_on = λ _. (state, next);
              follows = λ _. rw state (next_state_of-Follows stage range);
              in_range = λ _. range;
              stays = λ f. absurd (ground arith);
            }
        | inr f ↦
            let (advanced, state) = move_on-stays d0 d' c f k in
            let closed : result.can_continue ≡ false =
              sym same ∙ (sym (ap (λ (x : StageAdvancementDecision). x.can_advance) e) ∙ f) in
            let unmoved : d'.advanced ≡ false =
              advanced ∙ (ap (λ (x : StageAdvancementDecision). x.advanced) e ∙ new) in
            record {
              exactly_if = (λ a. absurd (ground arith), λ o. absurd (let g = o.1 in ground arith));
              moves_on = λ a. absurd (ground arith);
              follows = λ a. absurd (ground arith);
              in_range = λ a. absurd (ground arith);
              stays = λ _. ap (λ (x : ProjectContext). x.current_state) state ∙ kept;
            }
      ]

  build-eq-ok :
      (ctx : ProjectContext) (d : StageAdvancementDecision)
      → (build_stage_advancement_decision gate ctx stage reason).0 ≡ ok d
      → (r : StageGateResult) × ((gate ctx stage).0 ≡ ok r)
        × (d.can_advance ≡ r.can_continue)
        × (d.advanced ≡ false)
        × (out_of_range stage ≡ false)
  unfolding build_stage_advancement_decision
  build-eq-ok ctx d h = elim (Bool-cases (out_of_range stage)) [
    | inl t ↦ absurd (let k = rw t at h in cc)
    | inr f ↦
        let (r, found, same, new) = with_result-eq-ok (gate ctx stage) d (rw f at h) in
        (r, found, same, new, f)
  ]

  build-state :
      (ctx : ProjectContext)
      → KeepsState gate
      → (build_stage_advancement_decision gate ctx stage reason).1.current_state ≡ ctx.current_state
  unfolding build_stage_advancement_decision
  build-state ctx k = elim (Bool-cases (out_of_range stage)) [
    | inl t ↦ rw t refl
    | inr f ↦ rw f (with_result-state (gate ctx stage) k ∙ k ctx stage)
  ]

  move_on-eq-ok :
      (p : Answer) (d' : StageAdvancementDecision)
      → (move_on gate stage reason p).0 ≡ ok d'
      → (d : StageAdvancementDecision) × (p.0 ≡ ok d)
  unfolding move_on
  move_on-eq-ok (ok d, c) d' h = (d, refl)
  move_on-eq-ok (raised e, c) d' h = absurd cc

  blocked_answer-context :
      (p : Outcome GateError StageGateResult × ProjectContext)
      → (blocked_answer gate stage p).1 ≡ p.1
  unfolding blocked_answer
  blocked_answer-context (ok r, c) = refl
  blocked_answer-context (raised e, c) = refl

  move_on-raised :
      (p : Answer) (e : GateError)
      → (move_on gate stage reason p).0 ≡ raised e
      → (move_on gate stage reason p).1 ≡ p.1
  unfolding move_on
  move_on-raised (raised e', c) e h = refl
  move_on-raised (ok d, c) e h = absurd (ground arith)

  -- An exception of the gate leaves the session's state.
  pub advance_stage_if_ready-raised :
      (ctx : ProjectContext) (e : GateError)
      → KeepsState gate
      → (advance_stage_if_ready gate ctx stage reason).0 ≡ raised e
      → (advance_stage_if_ready gate ctx stage reason).1.current_state ≡ ctx.current_state
  unfolding advance_stage_if_ready
  advance_stage_if_ready-raised ctx e keeps h = elim (Bool-cases (is_blocked ctx.current_state)) [
    | inl t ↦ rw t (rw (blocked_answer-context (gate ctx stage)) (keeps ctx stage))
    | inr f ↦
        let built = build_stage_advancement_decision gate ctx stage reason in
        rw f (rw (move_on-raised built e (rw f at h)) (build-state ctx keeps))
  ]

  -- An answer rests on the gate's verdict: the session moves on exactly if it is not blocked and the
  -- gate of the stage lets it continue, then always from stages 1, 2 and 3 to the running state of the
  -- next one and from stage 4 to `complete`; otherwise its state is what it was.
  pub advance_stage_if_ready-Advances :
      (ctx ctx' : ProjectContext) (d : StageAdvancementDecision)
      → KeepsState gate
      → advance_stage_if_ready gate ctx stage reason ≡ (ok d, ctx')
      → (result : StageGateResult) × ((gate ctx stage).0 ≡ ok result) × Advances ctx result d ctx'
  unfolding advance_stage_if_ready
  advance_stage_if_ready-Advances ctx ctx' d keeps h =
      elim (Bool-cases (is_blocked ctx.current_state)) [
        | inl t ↦
            let (answered, left) =
              answer_parts (blocked_answer gate stage (gate ctx stage)) d ctx' (rw t at h) in
            let (r, found, advanced, state) = blocked_answer-eq-ok (gate ctx stage) d answered in
            (
              r,
              found,
              record {
                exactly_if =
                    (λ a. absurd (ground arith), λ o. absurd (let g = o.0 in ground arith));
                moves_on = λ a. absurd (ground arith);
                follows = λ a. absurd (ground arith);
                in_range = λ a. absurd (ground arith);
                stays = λ _.
                    ap (λ (x : ProjectContext). x.current_state) (sym left ∙ state)
                    ∙ keeps ctx stage;
              },
            )
        | inr f ↦
            let built = build_stage_advancement_decision gate ctx stage reason in
            let (answered, left) =
              answer_parts (move_on gate stage reason built) d ctx' (rw f at h) in
            let (d0, decided) = move_on-eq-ok built d answered in
            let (r, found, same, new, range) = build-eq-ok ctx d0 decided in
            (
              r,
              found,
              Advances-context ctx (move_on gate stage reason built).1 ctx' r d left (
                  move_on-Advances ctx r built d0 d f decided same new range (build-state ctx keeps)
                    answered),
            )
      ]
