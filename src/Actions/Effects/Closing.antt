-- ===== src/Actions/Effects/Closing.antt =====
-- core/governance/action_effects.py, with supersede_actions_for_stage of
-- core/governance/action_resolution.py and invalidate_downstream_stages of
-- core/stage_revision_service.py: what they do to an action that is closed.
use ai_workflow_premortem_pu.Prelude.{
  ℕ, String, Bool, false, ◌||◌, Option, some, List, [], ◌∷◌, mem, is_blank, find_first, ◌≡◌, refl,
  arith, inl, inr, Bool-cases, string_eq, nat_eq, ◌==◌,
}
use ai_workflow_premortem_pu.Model.Enums.{is_pending}
use ai_workflow_premortem_pu.Model.Records.{PendingHumanAction}
use ai_workflow_premortem_pu.Model.Context.{ProjectContext, append_audit_event}
use ai_workflow_premortem_pu.Stage.Supersede.{
  should_supersede, superseded_action, supersede_loop, supersede_actions_for_stage,
}
use ai_workflow_premortem_pu.Stage.Superseding.{supersede_actions_for_stage-frame}
use ai_workflow_premortem_pu.Stage.Revision.{invalidate_loop, mark_stale, downstream_has_state}
use ai_workflow_premortem_pu.Actions.Effects.{
  flag_effect, finding_effect, verify_source, verify_sources, evidence_effect, is_verify,
}

module _ (id : String) where
  abbrev pub here : PendingHumanAction → Bool
  here a = a.action_id == id

  -- The first action with the identifier is not pending.
  abbrev pub ClosedIn : List PendingHumanAction → Type 0
  ClosedIn actions =
      (a : PendingHumanAction) × (find_first here actions ≡ some a) × (is_pending a.status ≡ false)

  abbrev pub Closed : ProjectContext → Type 0
  Closed c = ClosedIn c.pending_actions

  -- Work that does not reopen the action.
  abbrev pub Keeps : ProjectContext → ProjectContext → Type 0
  Keeps c c' = Closed c → Closed c'

  Keeps-same : (c c' : ProjectContext) → c'.pending_actions ≡ c.pending_actions → Keeps c c'
  Keeps-same c c' e k = rw e k

  supersede_loop-ClosedIn :
      (stage : ℕ) (reason : String) (by : Option String) (now : ℕ)
      (actions : List PendingHumanAction)
      → ClosedIn actions
      → ClosedIn (supersede_loop stage reason by now actions).0
  unfolding supersede_loop superseded_action
  supersede_loop-ClosedIn stage reason by now [] k = k
  supersede_loop-ClosedIn stage reason by now (x ∷ actions) (a, found, closed) =
      elim (Bool-cases (should_supersede stage x)) [
        | inl t ↦ elim (Bool-cases (here x)) [
          | inl h ↦ rw t (superseded_action reason by now x, rw h refl, refl)
          | inr n ↦
              let rest =
                supersede_loop-ClosedIn stage reason by now actions (a, rw n at found, closed) in
              rw t (rest.0, rw n rest.1, rest.2)
        ]
        | inr f ↦ elim (Bool-cases (here x)) [
          | inl h ↦ rw f (a, rw h (rw h at found), closed)
          | inr n ↦
              let rest =
                supersede_loop-ClosedIn stage reason by now actions (a, rw n at found, closed) in
              rw f (rest.0, rw n rest.1, rest.2)
        ]
      ]

  pub supersede-Keeps :
      (c : ProjectContext) (stage : ℕ) (reason : String) (by : Option String) (now : ℕ)
      → Keeps c (supersede_actions_for_stage c stage reason by now).0
  supersede-Keeps c stage reason by now k =
      rw (supersede_actions_for_stage-frame stage reason by now c)
        (supersede_loop-ClosedIn stage reason by now c.pending_actions k)

  mark_stale-Keeps :
      (changed : ℕ) (reason : String) (by : Option String) (now downstream : ℕ) (c : ProjectContext)
      → Keeps c (mark_stale changed reason by now downstream c)
  unfolding mark_stale append_audit_event
  mark_stale-Keeps changed reason by now downstream c k = supersede-Keeps _ downstream _ by now k

  pub invalidate_loop-Keeps :
      (changed : ℕ) (reason : String) (by : Option String) (now : ℕ) (stages : List ℕ)
      (c : ProjectContext)
      → Keeps c (invalidate_loop changed reason by now stages c).0
  unfolding invalidate_loop
  invalidate_loop-Keeps changed reason by now [] c k = k
  invalidate_loop-Keeps changed reason by now (d ∷ ds) c k =
      invalidate_loop-Keeps changed reason by now ds _
        (elim (Bool-cases (downstream_has_state c d)) [
          | inl t ↦ rw t (mark_stale-Keeps changed reason by now d c k)
          | inr f ↦ rw f k
        ])

  pub flag_effect-Keeps :
      (a : PendingHumanAction) (decision note : String) (c : ProjectContext)
      → Keeps c (flag_effect a decision note c)
  unfolding flag_effect
  flag_effect-Keeps a decision note c = Keeps-same c (flag_effect a decision note c) (ground arith)

  pub finding_effect-Keeps :
      (a : PendingHumanAction) (decision : String) (c : ProjectContext)
      → Keeps c (finding_effect a decision c)
  unfolding finding_effect
  finding_effect-Keeps a decision c = Keeps-same c (finding_effect a decision c) (ground arith)

  verify_source-Keeps : (key : String) (c : ProjectContext) → Keeps c (verify_source key c)
  unfolding verify_source append_audit_event
  verify_source-Keeps key c = Keeps-same c (verify_source key c) (ground arith)

  verify_sources-Keeps :
      (seen keys : List String) (c : ProjectContext) → Keeps c (verify_sources seen keys c)
  unfolding verify_sources
  verify_sources-Keeps seen [] c k = k
  verify_sources-Keeps seen (key ∷ keys) c k = elim (Bool-cases (is_blank key || mem key seen)) [
    | inl t ↦ rw t (verify_sources-Keeps seen keys c k)
    | inr f ↦
        rw f (
          verify_sources-Keeps (key ∷ seen) keys (verify_source key c)
            (verify_source-Keeps key c k))
  ]

  pub evidence_effect-Keeps :
      (a : PendingHumanAction) (c : ProjectContext) → Keeps c (evidence_effect a c)
  unfolding evidence_effect
  evidence_effect-Keeps a c k = elim (Bool-cases (is_verify a.action_type)) [
    | inl t ↦ rw t (verify_sources-Keeps [] a.payload_evidence_ids c k)
    | inr f ↦ rw f k
  ]
