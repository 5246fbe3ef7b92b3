-- ===== src/Samples/Resolutions.antt =====
-- Tests of human actions: adding one, and resolving an expert review.
use ai_workflow_premortem_pu.Prelude.{
  String, true, false, none, some, [], ◌∷◌, Outcome, ok, raised, ◌≡◌, ◌⊎◌, refl, strip,
}
use ai_workflow_premortem_pu.Samples.{base, edit_action, no_match, constant}
use ai_workflow_premortem_pu.Dict.{get}
use ai_workflow_premortem_pu.Model.Enums.{approve, escalate, high}
use ai_workflow_premortem_pu.Model.Records.{
  PendingHumanAction, ResolutionFault, result_not_found, not_authorised,
}
use ai_workflow_premortem_pu.Model.Context.{ProjectContext, append_audit_event, current_version}
use ai_workflow_premortem_pu.Risk.Assessment.{DigestPayload, risk_assessment_digest}
use ai_workflow_premortem_pu.Gates.Approver.{validate_expert_review_approval}
use ai_workflow_premortem_pu.Gates.Policy.{
  assert_action_resolution_allowed, evaluate_action_resolution, effect_of,
}
use ai_workflow_premortem_pu.Actions.State.{
  NewAction, add_action_if_missing, append_action_resolution_log,
}
use ai_workflow_premortem_pu.Actions.State.Adding.{Adds, add_action_if_missing-Adds}
use ai_workflow_premortem_pu.Actions.Effects.{
  Services, and_then, apply_pre_resolution_effects, apply_post_resolution_effects, flag_effect,
  finding_effect, evidence_effect, redteam_effect, trace_effect, edit_effects, after_redteam,
  after_trace,
}
use ai_workflow_premortem_pu.Actions.Resolution.{
  Request, find_action, write_action, counted, resolved_by, refuse, allowed, reviewed, permitted,
  logged, finish, close_action, attempt_checked, attempt, conflicts, resolve_found, resolve_search,
  resolve_action,
}
use ai_workflow_premortem_pu.Actions.Answer.{ActionResolutionResult, resolve_action_with_result}
use ai_workflow_premortem_pu.Actions.Answer.Refines.{Refines, resolve_action_with_result-Refines}
use ai_workflow_premortem_pu.Actions.Effects.Keeping.{Tame}
use ai_workflow_premortem_pu.Actions.Resolution.Again.{resolve_action-again}
use ai_workflow_premortem_pu.Actions.Resolution.Checks.{Because}
use ai_workflow_premortem_pu.Actions.Resolution.Refusing.{Refused, resolve_action-refuses}
use ai_workflow_premortem_pu.Actions.Resolution.Closing.{
  Resolvable, Recorded, Replayed, resolve_action-Resolvable,
}

abbrev wanted : NewAction
wanted = record {
  stage = 2;
  type = approve;
  risk = high;
  source_type_of = "workflow_node";
  source_id_of = some "N1";
  digest_of = none;
  evidence_of = [];
  is_blocking = true;
  version_of = none;
}

add_action_if_missing-Adds_example : Adds base wanted "a9" (add_action_if_missing base "a9" wanted)
add_action_if_missing-Adds_example = add_action_if_missing-Adds base wanted "a9"

abbrev digest : DigestPayload → String
digest = constant "d"

abbrev action_hash : PendingHumanAction → String
action_hash = constant "h"

abbrev payload_hash : PendingHumanAction → String
payload_hash = constant "p"

-- Services that do nothing.
abbrev idle : Services
idle = record {
  apply_reviewed_output = λ ctx stage payload. (ok false, ctx);
  on_redteam = λ ctx a decision. (ok tt, ctx);
  on_trace = λ ctx a. (ok tt, ctx);
  refresh = λ ctx stage version. (ok tt, ctx);
}

abbrev review : PendingHumanAction
review = record edit_action {
  action_type = escalate;
  source_type = "expert_review";
  payload_digest = some "d";
}

abbrev reviewing : ProjectContext
reviewing = record base { pending_actions = review ∷ [] }

abbrev asked_by : String → String → Request
asked_by actor role = record {
  action_id = "a1";
  decision = "approve";
  note = "";
  payload_after = none;
  key = some "k1";
  expected_before_hash = some "h";
  actor_id = actor;
  actor_role = role;
  now = 7;
}

abbrev resolve_by : String → String → Outcome ResolutionFault PendingHumanAction × ProjectContext
resolve_by actor role =
    resolve_action no_match digest action_hash payload_hash idle reviewing (asked_by actor role)

abbrev approved : PendingHumanAction
approved = resolved_by (asked_by "carol" "admin") (some "k1") (counted review)

carol_approves : resolve_by "carol" "admin" ≡ (ok approved, (resolve_by "carol" "admin").1)
unfolding resolve_action resolve_search resolve_found attempt attempt_checked allowed reviewed
    permitted conflicts current_version get write_action validate_expert_review_approval
    risk_assessment_digest strip assert_action_resolution_allowed evaluate_action_resolution
    effect_of close_action apply_pre_resolution_effects finish apply_post_resolution_effects
    flag_effect finding_effect evidence_effect redteam_effect trace_effect edit_effects
    after_redteam after_trace and_then logged refuse append_action_resolution_log append_audit_event
carol_approves = refl

resolve_action-Resolvable_example :
    (a : PendingHumanAction) × (find_action reviewing "a1" ≡ some a)
    × (Replayed no_match digest action_hash payload_hash idle reviewing
          (asked_by "carol" "admin")
          a
          approved
          (resolve_by "carol" "admin").1
        ⊎ (Resolvable no_match digest action_hash payload_hash idle reviewing
              (asked_by "carol" "admin")
              a
            × Recorded no_match digest action_hash payload_hash idle
                (resolve_by "carol" "admin").1
                (asked_by "carol" "admin")
                a))
resolve_action-Resolvable_example =
    resolve_action-Resolvable no_match digest action_hash payload_hash idle reviewing
      (resolve_by "carol" "admin").1 (asked_by "carol" "admin") approved carol_approves

bob_fails : resolve_by "bob" "user" ≡ (raised not_authorised, (resolve_by "bob" "user").1)
unfolding resolve_action resolve_search resolve_found attempt attempt_checked allowed reviewed
    permitted conflicts current_version get write_action validate_expert_review_approval
    risk_assessment_digest strip assert_action_resolution_allowed evaluate_action_resolution
    effect_of close_action apply_pre_resolution_effects finish apply_post_resolution_effects
    flag_effect finding_effect evidence_effect redteam_effect trace_effect edit_effects
    after_redteam after_trace and_then logged refuse append_action_resolution_log append_audit_event
bob_fails = refl

resolve_action-refuses_example :
    (a : PendingHumanAction) × (find_action reviewing "a1" ≡ some a)
    × Refused reviewing (resolve_by "bob" "user").1
    × Because no_match digest action_hash payload_hash idle reviewing
        (asked_by "bob" "user")
        a
        not_authorised
resolve_action-refuses_example =
    resolve_action-refuses no_match digest action_hash payload_hash idle reviewing
      (resolve_by "bob" "user").1 (asked_by "bob" "user") not_authorised bob_fails refl

abbrev answered : ActionResolutionResult × ProjectContext
answered =
    resolve_action_with_result no_match digest action_hash payload_hash idle reviewing
      (asked_by "carol" "admin")

resolve_action_with_result-Refines_example :
    ((find_action reviewing "a1" ≡ none)
      × (answered.0.result_status ≡ result_not_found)
      × (answered.1 ≡ reviewing))
    ⊎ ((a : PendingHumanAction) × (find_action reviewing "a1" ≡ some a)
        × Refines no_match digest action_hash payload_hash idle reviewing
            (asked_by "carol" "admin")
            a
            answered.0
            answered.1)
resolve_action_with_result-Refines_example =
    resolve_action_with_result-Refines no_match digest action_hash payload_hash idle reviewing
      (asked_by "carol" "admin")

idle-Tame : Tame "a1" idle
idle-Tame = record {
  reviewed_output_keeps = λ c stage payload k. k;
  on_redteam_keeps = λ c a decision k. k;
  on_trace_keeps = λ c a k. k;
  refresh_keeps = λ c stage version k. k;
}

-- The same key, another decision by somebody else.
abbrev other_decision : Request
other_decision = record (asked_by "bob" "user") { decision = "reject" }

resolve_action-again_example :
    resolve_action no_match digest action_hash payload_hash idle
      (resolve_by "carol" "admin").1
      other_decision
    ≡ (ok approved, (resolve_by "carol" "admin").1)
resolve_action-again_example =
    resolve_action-again no_match digest action_hash payload_hash idle reviewing
      (resolve_by "carol" "admin").1 (asked_by "carol" "admin") other_decision approved "k1"
      idle-Tame refl refl refl refl carol_approves
