-- ===== src/Gates/Resolution.antt =====
-- The transition policy of human actions (graph/transition_policy.py) against the action_state rule of
-- the gate (core/gates/rules/action_state.py).
use ai_workflow_premortem_pu.Prelude.{
  ℕ, String, ◌≡◌, refl, sym, ◌∙◌, ◌↔◌, inl, inr, arith, true, false, not, ◌&&◌, Option, some, [],
  strip, ok, raised, ◌==◌, string_eq, option_string_eq, Bool-cases, if◌then◌else◌,
}
use ai_workflow_premortem_pu.Dict.{Dict}
use ai_workflow_premortem_pu.Model.Enums.{
  ActionType, approve, edit, reject, verify_evidence, escalate, resolved, is_escalate, is_decisive,
}
use ai_workflow_premortem_pu.Model.Records.{PendingHumanAction}
use ai_workflow_premortem_pu.Model.Context.{ProjectContext}
use ai_workflow_premortem_pu.Stage.Supersede.{is_rejected}
use ai_workflow_premortem_pu.Gates.Basic.{is_approved}
use ai_workflow_premortem_pu.Gates.Basic.{action_blockers}
use ai_workflow_premortem_pu.Gates.Ready.{Settled, action_blockers-nil}
use ai_workflow_premortem_pu.Gates.Policy.{
  PayloadValue, ResolutionEffect, edit_effect, effect_of, evaluate_action_resolution,
  assert_action_resolution_allowed, transition_refused,
}

effect_of-continue :
    (type : ActionType) (source decision : String) (payload : Option (Dict String PayloadValue))
    → let e = effect_of type source decision payload in
      (e.allow_continue ≡ true)
      → (e.allow_resolve ≡ true) × (e.require_revision ≡ false) × (e.require_escalation ≡ false)
unfolding effect_of edit_effect
effect_of-continue verify_evidence source decision payload h =
    (ground arith, ground arith, ground arith)
effect_of-continue approve source decision payload h = (ground arith, ground arith, ground arith)
effect_of-continue edit source decision payload h = (ground arith, ground arith, ground arith)
effect_of-continue escalate source decision payload h = (ground arith, ground arith, ground arith)
effect_of-continue reject source decision payload h = (ground arith, ground arith, ground arith)

apart : (d s t : String) → (s == t) ≡ false → (d == s) ≡ true → (d == t) ≡ false
apart d s t h e = rw ((string_eq.beq_iff d s).0 e) h

-- A decision that closes the action lets the stage go on exactly if it is no rejection of a key
-- action and, for an escalation, it is an approval.
closing_decision :
    (type : ActionType) (source decision : String) (payload : Option (Dict String PayloadValue))
    → (effect_of type source decision payload).allow_resolve ≡ true
    → ((effect_of type source decision payload).allow_continue
        ≡ not (decision == "reject" && is_decisive type))
      × ((is_escalate type ≡ true) → (decision == "approve") ≡ true)
unfolding effect_of edit_effect
closing_decision verify_evidence source decision payload h = (ground arith, ground arith)
closing_decision approve source decision payload h =
    (ground (arith, apart decision "approve" "reject" refl), ground arith)
closing_decision edit source decision payload h = (
  ground (arith, apart decision "approve" "reject" refl, apart decision "edit" "reject" refl),
  ground arith,
)
closing_decision escalate source decision payload h =
    (ground (arith, apart decision "approve" "reject" refl), ground arith)
closing_decision reject source decision payload h = (ground arith, ground arith)

-- The action after `resolve_action` wrote the reviewer's decision.
abbrev pub resolved_with : PendingHumanAction → String → PendingHumanAction
resolved_with a decision = record a { status = resolved; reviewer_decision = some decision }

Settled-iff :
    (a : PendingHumanAction) (decision : String)
    → (is_escalate a.action_type ≡ true → (decision == "approve") ≡ true)
    → Settled (resolved_with a decision)
      ↔ (not (decision == "reject" && is_decisive a.action_type) ≡ true)
unfolding is_rejected is_approved
Settled-iff a decision h = (
  λ (s : Settled (resolved_with a decision)). let r = s.not_rejected in ground arith,
  λ e. record {
    not_waiting = refl;
    not_rejected = ground arith;
    escalation = λ k. inl (ground (arith, h k));
  },
)

-- Where the policy lets a decision without outer white space close an action, the gate's action_state
-- rule finds nothing left in that action exactly if the policy lets the stage go on; and letting it go
-- on never asks for a revision or an escalation.
pub assert_action_resolution_allowed-Settled :
    (a : PendingHumanAction) (decision : String) (payload : Option (Dict String PayloadValue))
    (ctx : ProjectContext) (stage : ℕ) (e : ResolutionEffect)
    → strip decision ≡ decision
    → assert_action_resolution_allowed a decision payload ≡ ok e
    → ((action_blockers ctx stage (resolved_with a decision) ≡ []) ↔ (e.allow_continue ≡ true))
      × (e.allow_continue ≡ true → (e.require_revision ≡ false) × (e.require_escalation ≡ false))
unfolding assert_action_resolution_allowed evaluate_action_resolution
assert_action_resolution_allowed-Settled a decision payload ctx stage e trimmed h =
    let type = a.action_type in
    let f = effect_of type a.source_type decision payload in
    let (allowed, same) = chosen f (rw trimmed at h) in
    let (go, esc) = closing_decision type a.source_type decision payload allowed in
    let settled = Settled-iff a decision esc in
    let quiet = action_blockers-nil ctx stage (resolved_with a decision) in
    rw⁻¹ same (
      (λ b. go ∙ settled.0 (quiet.0 b), λ c. quiet.1 (settled.1 (sym go ∙ c))),
      λ c. let (_, r, x) = effect_of-continue type a.source_type decision payload c in (r, x),
    )
  where
    chosen :
        (f : ResolutionEffect)
        → (if f.allow_resolve then ok f else raised transition_refused) ≡ ok e
        → (f.allow_resolve ≡ true) × (f ≡ e)
    chosen f h = elim (Bool-cases f.allow_resolve) [
      | inl t ↦ (t, cc (rw t at h))
      | inr n ↦ absurd (cc (rw n at h))
    ]
