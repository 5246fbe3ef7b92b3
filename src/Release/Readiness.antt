-- ===== src/Release/Readiness.antt =====
-- `build_release_readiness` of core/approval_service.py. Messages, counts and the lists that are only
-- shown are left out.
use ai_workflow_premortem_pu.Prelude.{
  ℕ, String, Bool, true, false, not, ◌&&◌, Option, none, some, List, [], ◌∷◌, ◌++◌, map, keep_if,
  any, all, mem, is_some, is_empty, non_empty, join, sorted, string_leb, string_eq, nat_eq, ◌==◌,
  if◌then◌else◌, head,
}
use ai_workflow_premortem_pu.Dict.{Dict}
use ai_workflow_premortem_pu.Model.Enums.{Tier, critical, is_pending, is_open, is_high_or_critical}
use ai_workflow_premortem_pu.Model.Records.{
  FailureMode, PendingHumanAction, SafetyFinding, Staleness,
}
use ai_workflow_premortem_pu.Model.Evaluation.{EvidenceSource, EvalCase}
use ai_workflow_premortem_pu.Model.Context.{ProjectContext, current_version}
use ai_workflow_premortem_pu.Stage.Revision.{stage_key}
use ai_workflow_premortem_pu.Risk.Assessment.{DigestPayload}
use ai_workflow_premortem_pu.Workflow.State.{state_value}
use ai_workflow_premortem_pu.Release.Version.{VersionPayload, current_evaluation_digest}
use ai_workflow_premortem_pu.Release.Treatment.{
  TreatmentRequirement, TreatmentState, source_value, failure_modes, is_business_session,
  treatment_blockers,
}
use ai_workflow_premortem_pu.Release.Coverage.{required_high_risk_node_ids}
use ai_workflow_premortem_pu.Release.Evidence.{ReleaseBlocker, blocker}
use ai_workflow_premortem_pu.Release.Batch.{ReleaseBatch, ReleaseEvidence, build_release_evidence}

pub record ReleaseReadiness : Type 0 where
  pub applicable : Bool
  pub evaluation_completed : Bool
  pub can_approve : Bool
  pub blockers : List ReleaseBlocker
  pub checks : Dict String Bool
  pub required_test_eval_ids : List String
  pub release_batch_id : String
  pub release_batch_run_ids : List String

-- `ctx.current_state == SessionState.COMPLETE`: the enumeration is one of texts.
unfoldable pub is_session_complete : ProjectContext → Bool
unfolding state_value
is_session_complete ctx = state_value ctx.current_state == "complete"

unfoldable pub stage_outputs_present : ProjectContext → Bool
stage_outputs_present ctx =
    is_some ctx.stage_1_output
    && is_some ctx.stage_2_output
    && is_some ctx.stage_3_output
    && is_some ctx.stage_4_output

unfoldable pub stale_stage_keys : ProjectContext → List ℕ
stale_stage_keys ctx =
    map (λ (e : ℕ × Staleness). e.0)
      (keep_if (λ (e : ℕ × Staleness). e.1.stale) ctx.stage_staleness)

unfoldable pub parser_error_keys : ProjectContext → List ℕ
parser_error_keys ctx =
    map (λ (e : ℕ × String). e.0) (keep_if (λ (e : ℕ × String). non_empty e.1) ctx.parser_errors)

unfoldable pub pending_blocking_actions : ProjectContext → List String
pending_blocking_actions ctx =
    map (λ (a : PendingHumanAction). a.action_id)
      (keep_if
        (λ (a : PendingHumanAction).
          is_pending a.status
          && a.blocking
          && a.stage_output_version == current_version ctx a.stage_id)
        ctx.pending_actions)

unfoldable pub open_high_critical_safety : ProjectContext → List String
open_high_critical_safety ctx =
    map (λ (f : SafetyFinding). f.finding_id)
      (keep_if (λ (f : SafetyFinding). is_open f.status && is_high_or_critical f.severity)
        ctx.safety_findings)

-- `list(dict.fromkeys(xs))`: the first of each, in order.
unfoldable pub unique_first : List String → List String → List String
unique_first seen [] = []
unique_first seen (s ∷ ss) =
    let rest = unique_first seen ss in
    let fresh = s ∷ unique_first (s ∷ seen) ss in if mem s seen then rest else fresh

unfoldable pub evidence_by_id : String → List EvidenceSource → Option EvidenceSource
evidence_by_id id [] = none
evidence_by_id id (e ∷ es) =
    let later = evidence_by_id id es in
    if is_some later then later else if e.evidence_id == id then some e else none

abbrev unverified : Tier → String → String → String → ReleaseBlocker
unverified severity source id resolution = record {
  code = "unverified_evidence";
  severity = severity;
  source_type = some source;
  source_id = some id;
  required_resolution = resolution;
}

unfoldable pub cited_blockers : ProjectContext → Tier → List String → List ReleaseBlocker
cited_blockers ctx severity [] = []
cited_blockers ctx severity (id ∷ ids) =
    (elim (evidence_by_id id ctx.evidence_sources) [
      | none ↦ unverified severity "evidence" id "edit_stage_output" ∷ []
      | some e ↦ if e.verified then [] else unverified severity "evidence" id "verify_evidence" ∷ []
    ])
    ++ cited_blockers ctx severity ids

unfoldable pub mode_blockers : ProjectContext → List FailureMode → List ReleaseBlocker
mode_blockers ctx [] = []
mode_blockers ctx (m ∷ modes) =
    let ids = unique_first [] m.evidence_ids in
    (if not (is_high_or_critical m.severity)
      then []
      else if is_empty ids
      then unverified m.severity "failure_mode" m.id "edit_stage_output" ∷ []
      else cited_blockers ctx m.severity ids)
    ++ mode_blockers ctx modes

unfoldable pub evidence_blockers : ProjectContext → List ReleaseBlocker
evidence_blockers ctx = mode_blockers ctx (failure_modes ctx.stage_1_output)

-- `", ".join(sorted(keys))`, and the first key of a list.
abbrev joined_keys : List ℕ → Option String
joined_keys keys = some (join ", " (sorted string_leb (map stage_key keys)))

abbrev first_key : List ℕ → Option String
first_key [] = none
first_key (k ∷ _) = some (stage_key k)

abbrev with_severity : Tier → ReleaseBlocker → ReleaseBlocker
with_severity severity b = record b { severity = severity }

unfoldable pub session_blockers : ProjectContext → List ReleaseBlocker
session_blockers ctx =
    (if not (is_session_complete ctx)
      then blocker "evaluation_not_completed" (some "session") (some ctx.session_id) "run_stage"
        ∷ []
      else if not (stage_outputs_present ctx)
      then blocker "missing_stage_output" (some "stage") none "run_stage" ∷ []
      else [])
    ++ (if is_empty (stale_stage_keys ctx)
        then []
        else blocker "stale_stage" (some "stage") (joined_keys (stale_stage_keys ctx)) "rerun_stage"
          ∷ [])
    ++ (if is_empty (pending_blocking_actions ctx)
        then []
        else blocker "pending_action" (some "human_action") (head (pending_blocking_actions ctx))
            "resolve_action"
          ∷ [])
    ++ (if is_empty (parser_error_keys ctx)
        then []
        else blocker "parser_error" (some "parser") (first_key (parser_error_keys ctx))
            "edit_stage_output"
          ∷ [])
    ++ (if is_empty (open_high_critical_safety ctx)
        then []
        else with_severity critical (
            blocker "safety_finding" (some "safety_finding") (head (open_high_critical_safety ctx))
              "resolve_safety_finding")
          ∷ [])

abbrev treatment_blocker : TreatmentRequirement × TreatmentState → ReleaseBlocker
treatment_blocker (r, _) = record {
  code = "risk_treatment";
  severity = r.risk_level;
  source_type = some (source_value r.source_type);
  source_id = some r.source_id;
  required_resolution = "complete_risk_treatment";
}

abbrev has_code : String → List ReleaseBlocker → Bool
has_code code bs = any (λ (b : ReleaseBlocker). b.code == code) bs

abbrev batch_id : Option ReleaseBatch → String
batch_id none = ""
batch_id (some b) = b.experiment_id

abbrev batch_run_ids : Option ReleaseBatch → List String
batch_run_ids none = []
batch_run_ids (some b) = b.run_ids

module _ (sha256 : VersionPayload → String) (re_search : String → String → Bool)
    (hash : DigestPayload → String) where
  unfoldable pub release_checks :
      ProjectContext → ReleaseEvidence → List ReleaseBlocker → String → Dict String Bool
  release_checks ctx evidence blockers digest =
      ("applicable", true)
      ∷ (
        "evaluation_completed",
        is_session_complete ctx && stage_outputs_present ctx && is_empty (stale_stage_keys ctx),
      )
      ∷ ("no_stale_stage_outputs", is_empty (stale_stage_keys ctx))
      ∷ ("no_pending_blocking_actions", is_empty (pending_blocking_actions ctx))
      ∷ ("no_parser_errors", is_empty (parser_error_keys ctx))
      ∷ ("no_open_high_critical_safety_findings", is_empty (open_high_critical_safety ctx))
      ∷ ("verified_adopted_evidence", is_empty (evidence_blockers ctx))
      ∷ ("risk_treatments_complete", is_empty (treatment_blockers ctx digest))
      ∷ ("target_deployment_declared", not (has_code "target_deployment" blockers))
      ∷ ("required_test_cases_defined", not (has_code "required_test_case" blockers))
      ∷ ("release_batch_complete", is_some evidence.release_batch)
      ∷ (
        "real_target_tests_passed",
        not (has_code "real_target_test" blockers) && is_some evidence.release_batch,
      )
      ∷ []

  unfoldable pub build_release_readiness : ProjectContext → ReleaseReadiness
  build_release_readiness ctx =
      let digest = current_evaluation_digest sha256 re_search hash ctx in
      let evidence =
        build_release_evidence sha256 ctx digest (required_high_risk_node_ids re_search hash ctx) in
      let blockers =
        session_blockers ctx
        ++ evidence_blockers ctx
        ++ map treatment_blocker (treatment_blockers ctx digest)
        ++ evidence.blockers in
      let checks = release_checks ctx evidence blockers digest in
      if not (is_business_session ctx)
      then record {
        applicable = false;
        evaluation_completed = is_session_complete ctx;
        can_approve = false;
        blockers = [];
        checks = ("applicable", false) ∷ [];
        required_test_eval_ids = [];
        release_batch_id = "";
        release_batch_run_ids = [];
      }
      else record {
        applicable = true;
        evaluation_completed =
            is_session_complete ctx && stage_outputs_present ctx && is_empty (stale_stage_keys ctx);
        can_approve = all (λ (c : String × Bool). c.1) checks;
        blockers = blockers;
        checks = checks;
        required_test_eval_ids = map (λ (c : EvalCase). c.eval_id) evidence.required_cases;
        release_batch_id = batch_id evidence.release_batch;
        release_batch_run_ids = batch_run_ids evidence.release_batch;
      }
