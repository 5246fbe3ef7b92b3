-- ===== src/Advance/Readiness/Closed.antt =====
-- core/stage_readiness_service.py: the readiness that is shown, against the verdicts of the gates.
use ai_workflow_premortem_pu.Prelude.{
  ℕ, true, false, List, [], ◌∷◌, mem, is_empty, Outcome, ok, raised, ◌≡◌, ◌≢◌, ◌↔◌, ◌⊎◌, nat_eq,
  if◌then◌else◌,
}
use ai_workflow_premortem_pu.Model.Context.{ProjectContext}
use ai_workflow_premortem_pu.Gates.Engine.{StageGateResult, GateError, gate_data_lost}
use ai_workflow_premortem_pu.Advance.Coordinator.{not_started}
use ai_workflow_premortem_pu.Advance.Coordinator.Moves.{Gate}
use ai_workflow_premortem_pu.Advance.Readiness.{StageReadiness}

-- A loop whose turns all answer answers with one result for each stage; `left` is what a turn leaves.
module _ {A : Type 0} (turn : ProjectContext → ℕ → Outcome GateError A × ProjectContext)
    (stage_of : A → ℕ) (P : ProjectContext → A → Type 0)
    (left : ProjectContext → A → ProjectContext) where
  abbrev Answers : ℕ → Type 0
  Answers stage =
      (ctx : ProjectContext)
      → (a : A) × (turn ctx stage ≡ (ok a, left ctx a)) × (stage_of a ≡ stage) × P ctx a

  -- Each result is about the session that its turn found.
  abbrev Chain : ProjectContext → List A → ProjectContext → Type 0
  Chain ctx [] after = after ≡ ctx
  Chain ctx (a ∷ as') after = P ctx a × Chain (left ctx a) as' after

-- What the entry of a stage shows of the gate at the session that it found; `reached` are the stages that
-- the session had reached at first.
pub record Shows (gate : Gate) (reached : List ℕ) (ctx : ProjectContext) (e : StageReadiness)
    : Type 0 where
  pub actionable : e.is_actionable ≡ mem e.stage_id reached
  pub open_iff : (e.can_continue ≡ true) ↔ (
      (e.is_actionable ≡ true)
      × (r : StageGateResult) × ((gate ctx e.stage_id).0 ≡ ok r)
      × (r.can_continue ≡ true))
  pub reasons : e.is_actionable ≡ true → e.can_continue ≡ false → e.blockers ≢ []
  pub future : e.is_actionable ≡ false → (e.blockers ≡ []) × (e.lifecycle ≡ not_started)

-- The gate of a reached stage was evaluated, and may have written to the session.
abbrev pub after_entry : Gate → ProjectContext → StageReadiness → ProjectContext
after_entry gate ctx e = if e.is_actionable then (gate ctx e.stage_id).1 else ctx

-- Each entry shows the gate at the session that the gates of the entries before it left.
abbrev pub Shown : Gate → List ℕ → ProjectContext → List StageReadiness → ProjectContext → Type 0
Shown gate reached ctx [] after = after ≡ ctx
Shown gate reached ctx (e ∷ es) after =
    Shows gate reached ctx e × Shown gate reached (after_entry gate ctx e) es after

-- A gate that answers with blockers exactly if it is closed, or whose data is lost.
abbrev Sane : Gate → ProjectContext → ℕ → Type 0
Sane gate ctx stage =
    ((r : StageGateResult) × ((gate ctx stage).0 ≡ ok r) × (r.can_continue ≡ is_empty r.blockers))
    ⊎ ((gate ctx stage).0 ≡ raised gate_data_lost)
