-- ===== src/Advance/Operations.antt =====
-- core/stage_resolution_service.py: the operation that resolves each blocker of a stage. Hints, payload
-- examples and metadata are left out.
use ai_workflow_premortem_pu.Prelude.{
  ℕ, String, Bool, true, false, not, ◌&&◌, Option, none, some, List, [], ◌∷◌, mem, find_first, head,
  is_some, is_blank, concat, Outcome, ok, raised, string_eq, option_string_eq, ◌==◌, if◌then◌else◌,
}
use ai_workflow_premortem_pu.Model.Enums.{Tier}
use ai_workflow_premortem_pu.Model.Context.{ProjectContext, or_default}
use ai_workflow_premortem_pu.Gates.Blocker.{
  BlockerType, RequiredResolution, resolve_action, approve_escalation, edit_stage_output,
  StageBlocker, str, token_upto, text_or_default,
}
use ai_workflow_premortem_pu.Gates.Engine.{StageGateResult, GateError}
use ai_workflow_premortem_pu.Advance.Contract.{
  Place, the_stage, the_action, the_evidence, the_finding, the_experiment, the_dataset, the_case,
  the_trace, Template, resolution_text, operation_contract_for,
}

pub record StageResolutionOperation : Type 0 where
  pub operation_id : String
  pub stage_id : ℕ
  pub stage_output_version : ℕ
  pub blocker_id : String
  pub blocker_type : BlockerType
  pub required_resolution : RequiredResolution
  pub severity : Tier
  pub source_type : Option String
  pub source_id : Option String
  pub action_id : Option String
  pub can_execute_via_api : Bool
  pub api_method : Option String
  pub api_path : Option String
  pub hard_blocker : Bool
  pub can_be_overridden_by_approval : Bool

-- `template.format(session_id=..., <place>=value)`
abbrev pub path_to : String → Template → String → String
path_to session_id t value =
    concat "/sessions/" (concat session_id (concat t.before (concat value t.after)))

-- No path without an identifier.
abbrev pub bound_path : String → Template → Option String → Option String
bound_path session_id t none = none
bound_path session_id t (some value) =
    if is_blank value then none else some (path_to session_id t value)

-- A source of another type names nothing that the path is about.
abbrev source_of_type : String → StageBlocker → Option String
source_of_type type b = if b.source_type == some type then b.source_id else none

-- The resolutions that always go through an action.
abbrev needs_action : RequiredResolution → Bool
needs_action resolve_action = true
needs_action approve_escalation = true
needs_action edit_stage_output = true
needs_action _ = false

place_path : String → StageBlocker → Template → Option Place → Option String
place_path session_id b t (some the_action) = bound_path session_id t b.action_id
place_path session_id b t (some the_evidence) =
    bound_path session_id t (source_of_type "evidence" b)
place_path session_id b t (some the_finding) =
    bound_path session_id t (source_of_type "safety_finding" b)
place_path session_id b t (some the_experiment) =
    bound_path session_id t (source_of_type "eval_experiment" b)
place_path session_id b t (some the_dataset) =
    bound_path session_id t (source_of_type "eval_dataset" b)
place_path session_id b t (some the_case) =
    bound_path session_id t (source_of_type "redteam_case" b)
place_path session_id b t (some the_trace) = bound_path session_id t (source_of_type "trace" b)
place_path session_id b t (some the_stage) = some (path_to session_id t (str b.stage_id))
place_path session_id b t none =
    if needs_action b.required_resolution && is_blank (or_default b.action_id "")
    then none
    else some (path_to session_id t "")

unfoldable pub api_path_of : String → StageBlocker → Option Template → Option String
unfolding place_path
api_path_of session_id b none = none
api_path_of session_id b (some t) = place_path session_id b t t.place

-- `f"S{stage}_V{version}_{resolution}_{action or source or blocker}"`
unfoldable pub operation_id_of : StageBlocker → String
operation_id_of b =
    let target =
      text_or_default (or_default b.action_id "")
        (text_or_default (or_default b.source_id "") b.blocker_id) in
    token_upto 100 (
      concat "S" (
        concat (str b.stage_id) (
          concat "_V" (
            concat (str b.stage_output_version)
              (concat "_" (concat (resolution_text b.required_resolution) (concat "_" target)))))))

unfoldable pub operation_from_blocker : String → StageBlocker → StageResolutionOperation
operation_from_blocker session_id b =
    let contract = operation_contract_for (resolution_text b.required_resolution) in
    let path = api_path_of session_id b contract.api_path_template in
    record {
      operation_id = operation_id_of b;
      stage_id = b.stage_id;
      stage_output_version = b.stage_output_version;
      blocker_id = b.blocker_id;
      blocker_type = b.blocker_type;
      required_resolution = b.required_resolution;
      severity = b.severity;
      source_type = b.source_type;
      source_id = b.source_id;
      action_id = b.action_id;
      can_execute_via_api = contract.can_execute_via_api && not (is_blank (or_default path ""));
      api_method = contract.api_method;
      api_path = path;
      hard_blocker = not b.can_be_overridden_by_approval;
      can_be_overridden_by_approval = b.can_be_overridden_by_approval;
    }

-- The loop that keeps the first operation of each identifier.
unfoldable pub operations_loop :
    String → List String → List StageBlocker → List StageResolutionOperation
operations_loop session_id seen [] = []
operations_loop session_id seen (b ∷ bs) =
    let o = operation_from_blocker session_id b in
    let rest = operations_loop session_id seen bs in
    let kept = o ∷ operations_loop session_id (o.operation_id ∷ seen) bs in
    if mem o.operation_id seen then rest else kept

-- `gate` evaluates the gate of a stage, as `evaluate_stage_gate` with its rules and settings does.
module _ (gate : ProjectContext → ℕ → Outcome GateError StageGateResult × ProjectContext) where
  unfoldable pub operations_of :
      Outcome GateError StageGateResult × ProjectContext
      → Outcome GateError (List StageResolutionOperation) × ProjectContext
  operations_of (ok result, ctx) = (ok (operations_loop ctx.session_id [] result.blockers), ctx)
  operations_of (raised e, ctx) = (raised e, ctx)

  unfoldable pub build_stage_resolution_operations :
      ProjectContext → ℕ → Outcome GateError (List StageResolutionOperation) × ProjectContext
  unfolding operations_of
  build_stage_resolution_operations ctx stage = operations_of (gate ctx stage)

-- `get_next_required_operation`, for the operations of the stages that were asked for.
unfoldable pub next_required : List StageResolutionOperation → Option StageResolutionOperation
next_required ops =
    let hard = find_first (λ (o : StageResolutionOperation). o.hard_blocker) ops in
    if is_some hard then hard else head ops
