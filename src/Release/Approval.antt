-- ===== src/Release/Approval.antt =====
-- core/approval_service.py: who decides on a release, and how long an approval lasts. Logs and metrics
-- are left out. `now` is the clock and `fresh` the new identifier.
pub mod Granting
use ai_workflow_premortem_pu.Prelude.{
  ℕ, String, Bool, true, false, not, ◌&&◌, ◌||◌, Option, none, some, List, [], ◌∷◌, ◌++◌, latest,
  leb, non_empty, strip, Outcome, ok, raised, raise_if, ◌>>=◌, ◌>>◌, string_eq, ◌==◌, ◌!=◌,
  if◌then◌else◌,
}
use ai_workflow_premortem_pu.Model.Records.{ApprovalStatus, approved, rejected, ProjectApproval}
use ai_workflow_premortem_pu.Model.Context.{ProjectContext, append_audit_event}
use ai_workflow_premortem_pu.Risk.Assessment.{DigestPayload}
use ai_workflow_premortem_pu.Release.Version.{VersionPayload, current_evaluation_digest}
use ai_workflow_premortem_pu.Release.Treatment.{is_business_session}
use ai_workflow_premortem_pu.Release.Snapshot.{EvidenceSnapshot, release_evidence_snapshot}
use ai_workflow_premortem_pu.Release.Evidence.{ReleaseBlocker}
use ai_workflow_premortem_pu.Release.Readiness.{ReleaseReadiness, build_release_readiness}

pub data ApprovalError : Type 0 where
  not_applicable unsupported_decision not_admin reviewer_missing creator_missing self_approval :
      ApprovalError
  prerequisites_not_met : List ReleaseBlocker → ApprovalError

-- The first component of `effective_approval_status`.
pub data EffectiveStatus : Type 0 where
  not_requested is_rejected is_stale invalidated is_approved : EffectiveStatus

abbrev pub status_is_approved : ApprovalStatus → Bool
status_is_approved approved = true
status_is_approved rejected = false

unfoldable pub assert_approval_authorized :
    ProjectContext → String → String → Outcome ApprovalError String
assert_approval_authorized ctx actor_id actor_role = do
  raise_if (actor_role != "admin") not_admin
  raise_if (not (non_empty (strip actor_id))) reviewer_missing
  raise_if (not (non_empty (strip ctx.created_by))) creator_missing
  raise_if (strip actor_id == strip ctx.created_by) self_approval
  ok (strip actor_id)

unfoldable pub latest_approval : ProjectContext → Option ProjectApproval
latest_approval ctx =
    latest (λ (a b : ProjectApproval). leb a.created_at b.created_at) ctx.project_approvals

-- From the current digests and the readiness.
unfoldable pub status_of : Option ProjectApproval → String → String → Bool → EffectiveStatus
status_of none digest evidence can_approve = not_requested
status_of (some a) digest evidence can_approve =
    if not (status_is_approved a.status)
    then is_rejected
    else if a.evaluation_version_digest != digest
    then is_stale
    else if not (non_empty a.evidence_digest)
    then invalidated
    else if a.evidence_digest != evidence
    then invalidated
    else if not can_approve
    then invalidated
    else is_approved

-- The latest approval, where it already covers the present digests.
abbrev pub covering : Option ProjectApproval → String → String → Option ProjectApproval
covering none digest evidence = none
covering (some a) digest evidence =
    if status_is_approved a.status
      && a.evaluation_version_digest == digest
      && a.evidence_digest == evidence
    then some a
    else none

abbrev pub decision_record :
    (status : ApprovalStatus) (digest evidence reviewer role note fresh : String) (now : ℕ)
    → ProjectApproval
decision_record status digest evidence reviewer role note fresh now = record {
  approval_id = fresh;
  status = status;
  evaluation_version_digest = digest;
  evidence_digest = evidence;
  decided_by = reviewer;
  decided_role = role;
  decision_note = note;
  created_at = now;
}

abbrev pub appended : ProjectContext → ProjectApproval → String → ProjectContext
appended ctx a event =
    append_audit_event (record ctx { project_approvals = ctx.project_approvals ++ a ∷ [] }) "user"
      event "project_approval" a.approval_id

-- An approval of the present state: a new record unless the latest one covers it already.
abbrev granted :
    ProjectContext
    → Option ProjectApproval
    → ProjectApproval
    → ProjectApproval × ProjectContext × Bool
granted ctx (some a) new = (a, ctx, true)
granted ctx none new = (new, appended ctx new "release_approval_granted", false)

module _ (sha256 : VersionPayload → String) (re_search : String → String → Bool)
    (hash : DigestPayload → String) (evidence_hash : EvidenceSnapshot → String) where
  -- `_evidence_digest_for`
  unfoldable pub evidence_digest_for : ProjectContext → ReleaseReadiness → String → String
  evidence_digest_for ctx readiness digest = evidence_hash (
      release_evidence_snapshot sha256 ctx readiness.release_batch_run_ids
        readiness.required_test_eval_ids digest)

  unfoldable pub effective_approval_status :
      ProjectContext → Option ProjectApproval → EffectiveStatus
  effective_approval_status ctx approval =
      let digest = current_evaluation_digest sha256 re_search hash ctx in
      let readiness = build_release_readiness sha256 re_search hash ctx in
      status_of approval digest (evidence_digest_for ctx readiness digest) readiness.can_approve

  unfoldable pub request_release_approval :
      (ctx : ProjectContext) (decision note actor_id actor_role fresh : String) (now : ℕ)
      → Outcome ApprovalError (ProjectApproval × ProjectContext × Bool)
  request_release_approval ctx decision note actor_id actor_role fresh now =
      let readiness = build_release_readiness sha256 re_search hash ctx in
      let digest = current_evaluation_digest sha256 re_search hash ctx in
      let evidence = evidence_digest_for ctx readiness digest in
      do
        raise_if (not (is_business_session ctx)) not_applicable
        raise_if (not (decision == "approve" || decision == "reject")) unsupported_decision
        reviewer ← assert_approval_authorized ctx actor_id actor_role
        let refusal = decision_record rejected digest evidence reviewer actor_role note fresh now
        let approval = decision_record approved digest evidence reviewer actor_role note fresh now
        (if decision == "reject"
            then ok (refusal, appended ctx refusal "release_approval_rejected", false)
            else if not readiness.can_approve
            then raised (prerequisites_not_met readiness.blockers)
            else ok (granted ctx (covering (latest_approval ctx) digest evidence) approval))
