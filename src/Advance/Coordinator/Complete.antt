-- ===== src/Advance/Coordinator/Complete.antt =====
-- How a session comes to be complete: core/stage_advancement_coordinator.py among the other services that
-- write the state, core/stage_revision_service.py and core/workflow_state_service.py.
use ai_workflow_premortem_pu.Prelude.{
  ℕ, String, Bool, true, false, Option, none, some, ok, Outcome-cases, Bool-cases, ◌≡◌, ◌≢◌, ◌↔◌,
  refl, sym, ◌∙◌, ap, inl, inr, arith, ◌+◌, ◌-◌,
}
use ai_workflow_premortem_pu.Model.Enums.{StateValue, known, unknown, complete, init, s1_running}
use ai_workflow_premortem_pu.Model.Context.{ProjectContext, append_audit_event}
use ai_workflow_premortem_pu.Workflow.State.{
  mark_workflow_error, mark_invalid_state, recover_workflow, PersistedState,
  sanitize_persisted_state, session_state_value, parse_state,
}
use ai_workflow_premortem_pu.Workflow.Recovery.{
  parse_state-session_state_value, recover_workflow-assert_advanceable,
  sanitize_persisted_state_known,
}
use ai_workflow_premortem_pu.Stage.Revision.{
  range, out_of_range, running_state, review_state, rollback_target, revise_stage, rollback_stage,
  supersede_stages, invalidate_downstream_stages,
}
use ai_workflow_premortem_pu.Stage.Invalidation.{revise-eq-ok}
use ai_workflow_premortem_pu.Gates.Engine.{StageGateResult}
use ai_workflow_premortem_pu.Advance.Coordinator.{next_state_of, advance_stage_if_ready}
use ai_workflow_premortem_pu.Advance.Coordinator.Moves.{
  Gate, KeepsState, advance_stage_if_ready-Advances, advance_stage_if_ready-raised,
}

running_is_open : (stage : ℕ) → known (running_state stage) ≢ known complete
unfolding running_state
running_is_open stage e = ground arith

target_is_open :
    (stage : ℕ) (running : Bool) → known (rollback_target stage running) ≢ known complete
unfolding rollback_target running_state review_state
target_is_open stage running e = ground arith

rollback-state :
    (c d : ProjectContext) (from_stage to_stage : ℕ) (reason : String) (running : Bool)
    (by : Option String) (now : ℕ)
    → rollback_stage c from_stage to_stage reason running by now ≡ ok d
    → d.current_state ≡ known (rollback_target to_stage running)
unfolding rollback_stage append_audit_event
rollback-state c d from_stage to_stage reason running by now h =
    let before = supersede_stages reason by now (range (to_stage + 1) (from_stage - to_stage)) c in
    elim (Outcome-cases (invalidate_downstream_stages before to_stage reason by now)) [
      | inl (r, found) ↦ ground (arith, found)
      | inr (e, lost) ↦ ground (arith, lost)
    ]

completes_at_four :
    (stage : ℕ)
    → known (next_state_of stage) ≡ known complete
    → out_of_range stage ≡ false
    → stage ≡ 4
unfolding next_state_of
completes_at_four stage e range = ground arith

is_complete : StateValue → Bool
is_complete (known complete) = true
is_complete _ = false

is_complete_iff : (v : StateValue) → (is_complete v ≡ true) ↔ (v ≡ known complete)
unfolding is_complete
is_complete_iff (known complete) = (λ _. refl, λ _. refl)
is_complete_iff (known _) = ground arith
is_complete_iff (unknown text) = ground arith

-- The states that a node of the graph leaves: node_init waits for more or is done, and
-- node_stage_running goes to the review of its stage, or stays there if the stage failed.
pub data NodeState : StateValue → Type 0 where
  init_waits : NodeState (known init)
  init_done : NodeState (known s1_running)
  stage_done : (stage : ℕ) → NodeState (known (review_state stage))
  stage_failed : (stage : ℕ) → NodeState (known (running_state stage))

node_is_open : {v : StateValue} → NodeState v → v ≢ known complete
unfolding review_state running_state
node_is_open init_waits e = ground arith
node_is_open init_done e = ground arith
node_is_open (stage_done stage) e = ground arith
node_is_open (stage_failed stage) e = ground arith

-- The text by which a state is stored; an unknown one is no member's value.
abbrev pub Stored : StateValue → String → Type 0
Stored (known s) text = text ≡ session_state_value s
Stored (unknown t) text = (text ≡ t) × (parse_state t ≡ none)

reload_is_open :
    (repr : String → String) (raw : PersistedState) (v : StateValue) (text out : String)
    → Stored v text
    → raw.current_state ≡ some text
    → (sanitize_persisted_state repr raw).current_state ≡ some out
    → out ≡ "complete"
    → v ≡ known complete
reload_is_open repr raw (known s) text out from r k e =
    let same = (sanitize_persisted_state_known repr raw).1 s (r ∙ ap some from) in
    let read : raw.current_state ≡ some out = rw same at k in
    let value : session_state_value s ≡ "complete" = cc in
    let p = parse_state-session_state_value s in
    let q = parse_state-session_state_value complete in
    let found : parse_state "complete" ≡ some s = rw value at p in cc
reload_is_open repr raw (unknown t) text out (from, lost) r k e =
    let (state, _, _) = (sanitize_persisted_state_known repr raw).2 text r (λ s same.
      let p = parse_state-session_state_value s in
      let found : parse_state t ≡ some s = rw (same ∙ from) at p in cc) in
    absurd cc

module _ (gate : Gate) where
  -- The writers of a session's state, and any other work that leaves it alone. A node and a load from
  -- the storage stand here with whatever else they do.
  pub data Move : ProjectContext → ProjectContext → Type 0 where
    advance :
        (c d : ProjectContext) (stage : ℕ) (reason : String)
        → (advance_stage_if_ready gate c stage reason).1 ≡ d
        → Move c d
    revise :
        (c d : ProjectContext) (stage : ℕ) (reason note : String) (by : Option String) (now : ℕ)
        → revise_stage c stage reason note by now ≡ ok d
        → Move c d
    roll_back :
        (c d : ProjectContext) (from_stage to_stage : ℕ) (reason : String) (running : Bool)
        (by : Option String) (now : ℕ)
        → rollback_stage c from_stage to_stage reason running by now ≡ ok d
        → Move c d
    fail : (c d : ProjectContext) (reason : String) → mark_workflow_error c reason ≡ d → Move c d
    distrust : (c d : ProjectContext) (raw : String) → mark_invalid_state c raw ≡ d → Move c d
    recover :
        (c d : ProjectContext) (target actor : String)
        → recover_workflow c target actor ≡ ok d
        → Move c d
    run_node : (c d : ProjectContext) → NodeState d.current_state → Move c d
    reload :
        (c d : ProjectContext) (repr : String → String) (raw : PersistedState) (text out : String)
        → Stored c.current_state text
        → raw.current_state ≡ some text
        → (sanitize_persisted_state repr raw).current_state ≡ some out
        → Stored d.current_state out
        → Move c d
    work : (c d : ProjectContext) → d.current_state ≡ c.current_state → Move c d

  pub data Run (c : ProjectContext) : ProjectContext → Type 0 where
    start : Run c c
    then_move : {d e : ProjectContext} → Run c d → Move d e → Run c e

  -- The gate of stage 4 lets the session continue.
  abbrev pub Opens : ProjectContext → Type 0
  Opens c = (r : StageGateResult) × ((gate c 4).0 ≡ ok r) × (r.can_continue ≡ true)

  advance-complete :
      (c : ProjectContext) (stage : ℕ) (reason : String)
      → KeepsState gate
      → c.current_state ≢ known complete
      → (advance_stage_if_ready gate c stage reason).1.current_state ≡ known complete
      → Opens c
  advance-complete c stage reason keeps n e =
      let q = advance_stage_if_ready gate c stage reason in
      elim (Outcome-cases q.0) [
        | inr (fault, lost) ↦
            absurd
              (n (sym (advance_stage_if_ready-raised gate stage reason c fault keeps lost) ∙ e))
        | inl (d, found) ↦
            let (r, verdict, a) =
              advance_stage_if_ready-Advances gate stage reason c q.1 d keeps
                (λ i. (found i, q.1)) in
            elim (Bool-cases d.advanced) [
              | inr f ↦ absurd (n (sym (a.stays f) ∙ e))
              | inl t ↦
                  let four = completes_at_four stage (sym (a.moves_on t).0 ∙ e) (a.in_range t) in
                  (r, rw (← four) verdict, (a.exactly_if.0 t).1)
            ]
      ]

  Move-complete :
      {c d : ProjectContext}
      → KeepsState gate
      → Move c d
      → c.current_state ≢ known complete
      → d.current_state ≡ known complete
      → Opens c
  unfolding append_audit_event mark_workflow_error mark_invalid_state
  Move-complete keeps (advance c d stage reason e) n h =
      advance-complete c stage reason keeps n (ap (λ (x : ProjectContext). x.current_state) e ∙ h)
  Move-complete keeps (revise c d stage reason note by now e) n h =
      let (r, _, state) = revise-eq-ok c d stage reason note by now e in
      absurd (running_is_open stage (sym (ap (λ (x : ProjectContext). x.current_state) state) ∙ h))
  Move-complete keeps (roll_back c d from to reason running by now e) n h =
      absurd
        (target_is_open to running (sym (rollback-state c d from to reason running by now e) ∙ h))
  Move-complete keeps (fail c d reason e) n h =
      absurd (let s = ap (λ (x : ProjectContext). x.current_state) e ∙ h in cc)
  Move-complete keeps (distrust c d raw e) n h =
      absurd (let s = ap (λ (x : ProjectContext). x.current_state) e ∙ h in cc)
  Move-complete keeps (recover c d target actor e) n h =
      absurd ((recover_workflow-assert_advanceable c d target actor e).3 h)
  Move-complete keeps (run_node c d s) n h = absurd (node_is_open s h)
  Move-complete keeps (reload c d repr raw text out from r s to) n h = absurd (
      n (
        reload_is_open repr raw c.current_state text out from r s
          (let k : Stored (known complete) out = rw h at to in k)))
  Move-complete keeps (work c d e) n h = absurd (n (sym e ∙ h))

  -- A session that is not complete becomes complete, by moves of the coordinator, the revision and
  -- workflow-state services and the nodes of the graph, and by loads from the storage, only on a way
  -- through a session, not complete yet either, at which the gate of stage 4 lets it continue. This holds
  -- of a gate that keeps the state.
  pub Run-complete :
      {c d : ProjectContext}
      → KeepsState gate
      → Run c d
      → c.current_state ≢ known complete
      → d.current_state ≡ known complete
      → (x : ProjectContext) × Run c x × (x.current_state ≢ known complete) × Opens x
  Run-complete keeps start n h = absurd (n h)
  Run-complete keeps (then_move {d = d} run move) n h =
      elim (Bool-cases (is_complete d.current_state)) [
        | inl t ↦ Run-complete keeps run n ((is_complete_iff d.current_state).0 t)
        | inr f ↦
            let m : d.current_state ≢ known complete =
              λ e. let t = (is_complete_iff d.current_state).1 e in ground arith in
            (d, run, m, Move-complete keeps move m h)
      ]
