-- ===== src/Advance/Readiness.antt =====
-- `build_stage_readiness` of core/stage_readiness_service.py, the operations of all stages of
-- core/stage_resolution_service.py and the envelope of core/stage_advancement_coordinator.py. Messages,
-- the stages' metadata and traces are left out.
pub mod Closed
use ai_workflow_premortem_pu.Prelude.{
  ℕ, String, Bool, true, false, not, ◌&&◌, Option, none, some, List, [], ◌∷◌, ◌++◌, map, keep_if,
  mem, Outcome, ok, raised, nat_eq, ◌==◌, if◌then◌else◌,
}
use ai_workflow_premortem_pu.Dict.{Dict, get}
use ai_workflow_premortem_pu.Model.Enums.{critical, is_pending, is_open}
use ai_workflow_premortem_pu.Model.Records.{PendingHumanAction, SafetyFinding, Staleness}
use ai_workflow_premortem_pu.Model.Context.{
  ProjectContext, or_default, current_version, stage_output_exists,
}
use ai_workflow_premortem_pu.Workflow.State.{state_value}
use ai_workflow_premortem_pu.Stage.Revision.{stage_key}
use ai_workflow_premortem_pu.Gates.Blocker.{
  StageBlocker, gate_data_error, retry_gate_persistence, make_blocker, current_stage_actions,
  text_or_default,
}
use ai_workflow_premortem_pu.Gates.Engine.{StageGateResult, GateError, bad_stage, gate_data_lost}
use ai_workflow_premortem_pu.Advance.Scope.{reached_stage_ids, is_stage_actionable}
use ai_workflow_premortem_pu.Advance.Operations.{
  StageResolutionOperation, build_stage_resolution_operations, next_required,
}
use ai_workflow_premortem_pu.Advance.Coordinator.{
  StageLifecycle, not_started, stage_lifecycle, StageAdvancementDecision, safe_stage,
  build_stage_advancement_decision,
}

pub record StageReadiness : Type 0 where
  pub stage_id : ℕ
  pub state : String
  pub output_exists : Bool
  pub stage_output_version : ℕ
  pub lifecycle : StageLifecycle
  pub can_continue : Bool
  pub blockers : List StageBlocker
  pub pending_action_ids : List String
  pub pending_blocking_action_ids : List String
  pub open_safety_finding_ids : List String
  pub parser_error : String
  pub stage_dependency_versions : Dict ℕ ℕ
  pub stale_reason : String
  pub is_actionable : Bool

pending_of_stage : ProjectContext → ℕ → List PendingHumanAction
pending_of_stage ctx stage =
    keep_if (λ (a : PendingHumanAction). is_pending a.status) (current_stage_actions ctx stage)

open_of_stage : ProjectContext → ℕ → List SafetyFinding
open_of_stage ctx stage =
    keep_if
      (λ (f : SafetyFinding).
        elim f.finding_stage [ none ↦ false | some s ↦ s == stage ] && is_open f.status)
      ctx.safety_findings

reason_of : Option Staleness → String
reason_of none = ""
reason_of (some m) = m.reason

-- The entry of a stage, from the lifecycle, the verdict and the blockers that were found for it. The
-- actions, findings and versions are those of the session before its gate was evaluated.
unfoldable pub readiness_entry :
    ProjectContext
    → ProjectContext
    → ℕ
    → Bool
    → StageLifecycle
    → Bool
    → List StageBlocker
    → StageReadiness
unfolding pending_of_stage open_of_stage reason_of
readiness_entry before after stage actionable lifecycle can_continue blockers = record {
  stage_id = stage;
  state = state_value after.current_state;
  output_exists = stage_output_exists after stage;
  stage_output_version = current_version before stage;
  lifecycle = lifecycle;
  can_continue = can_continue;
  blockers = blockers;
  pending_action_ids =
      map (λ (a : PendingHumanAction). a.action_id) (pending_of_stage before stage);
  pending_blocking_action_ids =
      map (λ (a : PendingHumanAction). a.action_id)
        (keep_if (λ (a : PendingHumanAction). a.blocking) (pending_of_stage before stage));
  open_safety_finding_ids = map (λ (f : SafetyFinding). f.finding_id) (open_of_stage before stage);
  parser_error = or_default (get stage after.parser_errors) "";
  stage_dependency_versions = or_default (get stage before.stage_dependency_versions) [];
  stale_reason = reason_of (get stage before.stage_staleness);
  is_actionable = actionable;
}

-- The answer of a gate whose record was lost.
unfoldable pub lost_result : ProjectContext → ℕ → StageGateResult
lost_result ctx stage = record {
  stage_id = stage;
  stage_output_version = current_version ctx stage;
  can_continue = false;
  blockers =
      make_blocker ctx stage gate_data_error "" critical "gate_evaluation_records"
        (some (stage_key stage)) none retry_gate_persistence false
      ∷ [];
}

unfoldable pub recovered :
    ℕ
    → Outcome GateError StageGateResult × ProjectContext
    → Outcome GateError StageGateResult × ProjectContext
recovered stage (raised gate_data_lost, ctx) = (ok (lost_result ctx stage), ctx)
recovered stage (ok result, ctx) = (ok result, ctx)
recovered stage (raised bad_stage, ctx) = (raised bad_stage, ctx)

pub record StageOperationEnvelope : Type 0 where
  pub stage_id : ℕ
  pub decision : StageAdvancementDecision
  pub next_required_operation : Option StageResolutionOperation

-- `operations.extend` for one stage after the other.
joined : {A : Type 0} → List (List A) → List A
joined [] = []
joined (xs ∷ rest) = xs ++ joined rest

-- The results of a loop over stages, up to an exception; each turn sees what those before it left.
unfoldable pub add_result :
    {A : Type 0}
    → A
    → Outcome GateError (List A) × ProjectContext
    → Outcome GateError (List A) × ProjectContext
add_result a (raised e, ctx) = (raised e, ctx)
add_result a (ok rest, ctx) = (ok (a ∷ rest), ctx)

unfoldable pub then_each :
    {A : Type 0}
    → Outcome GateError A × ProjectContext
    → (ProjectContext → Outcome GateError (List A) × ProjectContext)
    → Outcome GateError (List A) × ProjectContext
unfolding add_result
then_each (raised e, ctx) next = (raised e, ctx)
then_each (ok a, ctx) next = add_result a (next ctx)

unfoldable pub each_stage :
    {A : Type 0}
    → (ProjectContext → ℕ → Outcome GateError A × ProjectContext)
    → List ℕ
    → ProjectContext
    → Outcome GateError (List A) × ProjectContext
unfolding then_each
each_stage turn [] ctx = (ok [], ctx)
each_stage turn (stage ∷ stages) ctx = then_each (turn ctx stage) (each_stage turn stages)

-- `gate` evaluates the gate of a stage, as `evaluate_stage_gate` with its rules and settings does.
module _ (gate : ProjectContext → ℕ → Outcome GateError StageGateResult × ProjectContext) where
  unfoldable pub evaluate_gate_for_readiness :
      ProjectContext → ℕ → Outcome GateError StageGateResult × ProjectContext
  unfolding recovered
  evaluate_gate_for_readiness ctx stage = recovered stage (gate ctx stage)

  unfoldable pub evaluated_entry :
      ProjectContext
      → ℕ
      → Outcome GateError StageGateResult × ProjectContext
      → Outcome GateError StageReadiness × ProjectContext
  evaluated_entry before stage (raised e, ctx) = (raised e, ctx)
  evaluated_entry before stage (ok result, ctx) = (
    ok (
        readiness_entry before ctx stage true (stage_lifecycle ctx stage result) result.can_continue
          result.blockers),
    ctx,
  )

  -- The body of the loop for a stage; `actionables` are those the session had reached at first.
  unfoldable pub stage_entry :
      List ℕ → ProjectContext → ℕ → Outcome GateError StageReadiness × ProjectContext
  unfolding evaluated_entry
  stage_entry actionables ctx stage =
      if mem stage actionables
      then evaluated_entry ctx stage (evaluate_gate_for_readiness ctx stage)
      else (ok (readiness_entry ctx ctx stage false not_started false []), ctx)

  unfoldable pub build_stage_readiness :
      ProjectContext → Outcome GateError (List StageReadiness) × ProjectContext
  unfolding each_stage
  build_stage_readiness ctx =
      each_stage (stage_entry (reached_stage_ids ctx)) (1 ∷ 2 ∷ 3 ∷ 4 ∷ []) ctx

  -- A turn of `build_all_stage_resolution_operations`: nothing for a stage that is not asked for.
  unfoldable pub stage_operations :
      List ℕ
      → ProjectContext
      → ℕ
      → Outcome GateError (List StageResolutionOperation) × ProjectContext
  stage_operations active ctx stage =
      if mem stage active then build_stage_resolution_operations gate ctx stage else (ok [], ctx)

  unfoldable pub build_all_stage_resolution_operations :
      ProjectContext
      → Bool
      → Outcome GateError (List (List StageResolutionOperation)) × ProjectContext
  unfolding stage_operations each_stage
  build_all_stage_resolution_operations ctx include_future =
      let stages = 1 ∷ 2 ∷ 3 ∷ 4 ∷ [] in
      each_stage (stage_operations (if include_future then stages else reached_stage_ids ctx))
        stages ctx

  chosen_operation :
      Outcome GateError (List (List StageResolutionOperation)) × ProjectContext
      → Outcome GateError (Option StageResolutionOperation) × ProjectContext
  unfolding joined
  chosen_operation (raised e, ctx) = (raised e, ctx)
  chosen_operation (ok by_stage, ctx) = (ok (next_required (joined by_stage)), ctx)

  unfoldable pub get_next_required_operation :
      ProjectContext
      → Option ℕ
      → Outcome GateError (Option StageResolutionOperation) × ProjectContext
  unfolding each_stage chosen_operation
  get_next_required_operation ctx stage =
      let stages : List ℕ = elim stage [ none ↦ reached_stage_ids ctx | some s ↦ s ∷ [] ] in
      chosen_operation (each_stage (build_stage_resolution_operations gate) stages ctx)

  -- The decision and the next operation that a change of a session comes back with.
  enveloped :
      ℕ
      → Outcome GateError StageAdvancementDecision × ProjectContext
      → Outcome GateError StageOperationEnvelope × ProjectContext
  unfolding get_next_required_operation
  enveloped stage (raised e, ctx) = (raised e, ctx)
  enveloped stage (ok decision, ctx) =
      let (next, ctx') = get_next_required_operation ctx (some stage) in
      elim next [
        | raised e ↦ (raised e, ctx')
        | ok operation ↦ (
          ok (record {
            stage_id = stage;
            decision = decision;
            next_required_operation = operation;
          }),
          ctx',
        )
      ]

  -- `reason or operation` is the reason; 0 stands for no stage.
  unfoldable pub build_stage_operation_envelope :
      ProjectContext
      → ℕ
      → String
      → String
      → Outcome GateError StageOperationEnvelope × ProjectContext
  unfolding enveloped
  build_stage_operation_envelope ctx asked operation reason =
      let stage = safe_stage ctx asked [] in
      enveloped stage
        (build_stage_advancement_decision gate ctx stage (text_or_default reason operation))
