-- ===== src/Gates/Ready.antt =====
-- What the five rules of every stage (core/gates/rules) ask of a session, said without blockers.
use ai_workflow_premortem_pu.Prelude.{
  ℕ, ◌≤◌, ◌≡◌, refl, ◌↔◌, ◌⊎◌, arith, Bool, true, false, ◌&&◌, List, [], ◌∷◌, ◌++◌, is_empty,
  non_empty, All, nat_eq, string_eq, option_string_eq, if◌then◌else◌, append-eq-nil,
}
use ai_workflow_premortem_pu.Dict.{Dict, get}
use ai_workflow_premortem_pu.Model.Enums.{is_pending, is_escalate, is_inactive}
use ai_workflow_premortem_pu.Model.Records.{PendingHumanAction, SafetyFinding}
use ai_workflow_premortem_pu.Model.Context.{
  ProjectContext, or_default, current_version, stage_output_exists,
}
use ai_workflow_premortem_pu.Stage.Supersede.{is_rejected}
use ai_workflow_premortem_pu.Gates.Blocker.{StageBlocker}
use ai_workflow_premortem_pu.Gates.Basic.{
  missing_output_rule, is_stale, stale_dependencies, recorded_dependencies, stale_dependency_rule,
  is_approved, action_blockers, is_current, action_loop, parser_error_rule, finding_blocks,
  safety_loop,
}

-- The action asks for nothing more: it is not waiting and blocking, it was not rejected, and an
-- escalation was approved or withdrawn.
pub record Settled (a : PendingHumanAction) : Type 0 where
  pub not_waiting : (is_pending a.status && a.blocking) ≡ false
  pub not_rejected : is_rejected a ≡ false
  pub escalation :
      is_escalate a.action_type ≡ true → (is_approved a ≡ true) ⊎ (is_inactive a.status ≡ true)

pub record IsReady (ctx : ProjectContext) (stage : ℕ) : Type 0 where
  pub output : stage_output_exists ctx stage ≡ true
  pub not_stale : is_stale ctx stage ≡ false
  pub dependencies :
      All (λ (d : ℕ × ℕ). current_version ctx d.0 ≤ d.1) (recorded_dependencies ctx stage)
  pub actions :
      All
        (λ (a : PendingHumanAction). is_current ctx stage a ≡ true → Settled a)
        ctx.pending_actions
  pub parsed : non_empty (or_default (get stage ctx.parser_errors) "") ≡ false
  pub findings : All (λ (f : SafetyFinding). finding_blocks stage f ≡ false) ctx.safety_findings

stale_dependencies-nil :
    (ctx : ProjectContext) (deps : Dict ℕ ℕ)
    → (is_empty (stale_dependencies ctx deps) ≡ true)
      ↔ All (λ (d : ℕ × ℕ). current_version ctx d.0 ≤ d.1) deps
unfolding stale_dependencies
stale_dependencies-nil ctx [] = (λ _. tt, λ _. refl)
stale_dependencies-nil ctx ((u, v) ∷ deps) = ground (arith, stale_dependencies-nil ctx deps)

pub action_blockers-nil :
    (ctx : ProjectContext) (stage : ℕ) (a : PendingHumanAction)
    → (action_blockers ctx stage a ≡ []) ↔ Settled a
unfolding action_blockers
action_blockers-nil ctx stage a = (
  λ h. record {
    not_waiting = ground arith;
    not_rejected = ground arith;
    escalation = λ e. ground arith;
  },
  λ s. ground (arith, s.escalation),
)

pub action_loop-nil :
    (ctx : ProjectContext) (stage : ℕ) (actions : List PendingHumanAction)
    → (action_loop ctx stage actions ≡ [])
      ↔ All (λ (a : PendingHumanAction). is_current ctx stage a ≡ true → Settled a) actions
unfolding action_loop
action_loop-nil ctx stage [] = (λ _. tt, λ _. refl)
action_loop-nil ctx stage (a ∷ actions) =
    let one = action_blockers-nil ctx stage a in
    let rest = action_loop-nil ctx stage actions in
    (
      λ h.
          let (x, y) =
            append-eq-nil (if is_current ctx stage a then action_blockers ctx stage a else [])
              (action_loop ctx stage actions) h in
          (λ c. one.0 (rw c at x), rest.0 y),
      λ s.
          rw (rest.1 s.1)
            (alone (is_current ctx stage a) (action_blockers ctx stage a) (λ c. one.1 (s.0 c))),
    )
  where
    alone :
        (b : Bool) (bs : List StageBlocker)
        → (b ≡ true → bs ≡ [])
        → (if b then bs else []) ++ [] ≡ []
    alone true bs h = rw (h refl)
    alone false bs h = refl

pub safety_loop-nil :
    (ctx : ProjectContext) (stage : ℕ) (findings : List SafetyFinding)
    → (safety_loop ctx stage findings ≡ [])
      ↔ All (λ (f : SafetyFinding). finding_blocks stage f ≡ false) findings
unfolding safety_loop
safety_loop-nil ctx stage [] = (λ _. tt, λ _. refl)
safety_loop-nil ctx stage (f ∷ findings) = ground (arith, safety_loop-nil ctx stage findings)

pub stale_dependency_rule-nil :
    (ctx : ProjectContext) (stage : ℕ)
    → stage_output_exists ctx stage ≡ true
    → (stale_dependency_rule ctx stage ≡ []) ↔ (
        (is_stale ctx stage ≡ false)
        × All (λ (d : ℕ × ℕ). current_version ctx d.0 ≤ d.1) (recorded_dependencies ctx stage))
unfolding stale_dependency_rule
stale_dependency_rule-nil ctx stage e =
    let deps = stale_dependencies-nil ctx (recorded_dependencies ctx stage) in
    (λ h. (ground arith, deps.0 (ground arith)), λ p. let full = deps.1 p.1 in ground arith)

pub missing_output_rule-nil :
    (ctx : ProjectContext) (stage : ℕ)
    → (missing_output_rule ctx stage ≡ []) ↔ (stage_output_exists ctx stage ≡ true)
unfolding missing_output_rule
missing_output_rule-nil ctx stage = ground arith

pub parser_error_rule-nil :
    (ctx : ProjectContext) (stage : ℕ)
    → (parser_error_rule ctx stage ≡ [])
      ↔ (non_empty (or_default (get stage ctx.parser_errors) "") ≡ false)
unfolding parser_error_rule
parser_error_rule-nil ctx stage = ground arith
