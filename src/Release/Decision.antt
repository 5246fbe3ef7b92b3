-- ===== src/Release/Decision.antt =====
-- core/release_gate_service.py: the decision that deployment pipelines ask for. Texts that are only
-- shown are left out.
pub mod Allow
pub mod Tested
use ai_workflow_premortem_pu.Prelude.{
  String, Bool, true, false, not, ◌&&◌, Option, none, some, List, [], ◌∷◌, is_empty, is_blank,
  if◌then◌else◌,
}
use ai_workflow_premortem_pu.Model.Records.{ProjectApproval}
use ai_workflow_premortem_pu.Model.Context.{ProjectContext}
use ai_workflow_premortem_pu.Risk.Assessment.{DigestPayload}
use ai_workflow_premortem_pu.Release.Version.{VersionPayload, current_evaluation_digest}
use ai_workflow_premortem_pu.Release.Snapshot.{EvidenceSnapshot}
use ai_workflow_premortem_pu.Release.Evidence.{ReleaseBlocker, blocker}
use ai_workflow_premortem_pu.Release.Readiness.{ReleaseReadiness, build_release_readiness}
use ai_workflow_premortem_pu.Release.Approval.{
  EffectiveStatus, not_requested, is_rejected, is_stale, invalidated, is_approved, latest_approval,
  evidence_digest_for, status_of,
}

pub data ReasonCode : Type 0 where
  code_approved code_not_applicable approval_not_requested approval_rejected approval_stale
        approval_invalidated prerequisites_not_met :
      ReasonCode

abbrev code_text : ReasonCode → String
code_text code_approved = "approved"
code_text code_not_applicable = "not_applicable"
code_text approval_not_requested = "approval_not_requested"
code_text approval_rejected = "approval_rejected"
code_text approval_stale = "approval_stale"
code_text approval_invalidated = "approval_invalidated"
code_text prerequisites_not_met = "prerequisites_not_met"

-- `_REASON_BY_STATUS`
abbrev pub reason_by_status : EffectiveStatus → ReasonCode
reason_by_status is_approved = code_approved
reason_by_status not_requested = approval_not_requested
reason_by_status is_rejected = approval_rejected
reason_by_status is_stale = approval_stale
reason_by_status invalidated = approval_invalidated

abbrev pub is_code_approved : ReasonCode → Bool
is_code_approved code_approved = true
is_code_approved _ = false

abbrev effective_is_approved : EffectiveStatus → Bool
effective_is_approved is_approved = true
effective_is_approved _ = false

-- `decision == "allow"` is `allow`.
pub record ReleaseGateDecision : Type 0 where
  pub allow : Bool
  pub reason_code : ReasonCode
  pub approval_status : EffectiveStatus
  pub applicable : Bool
  pub blockers : List ReleaseBlocker

abbrev approval_id_of : Option ProjectApproval → Option String
approval_id_of none = none
approval_id_of (some a) = if is_blank a.approval_id then none else some a.approval_id

unfoldable pub decide :
    Option ProjectApproval → EffectiveStatus → ReleaseReadiness → ReleaseGateDecision
decide latest status readiness =
    let code =
      (if effective_is_approved status && not readiness.can_approve
        then prerequisites_not_met
        else reason_by_status status) in
    record {
      allow = is_code_approved code && readiness.can_approve;
      reason_code = code;
      approval_status = status;
      applicable = true;
      blockers =
          if not (is_code_approved code) && is_empty readiness.blockers
          then blocker (code_text code) (some "project_approval") (approval_id_of latest)
              "request_release_approval"
            ∷ []
          else readiness.blockers;
    }

module _ (sha256 : VersionPayload → String) (re_search : String → String → Bool)
    (hash : DigestPayload → String) (evidence_hash : EvidenceSnapshot → String) where
  unfoldable pub evaluate_release_gate : ProjectContext → ReleaseGateDecision
  evaluate_release_gate ctx =
      let readiness = build_release_readiness sha256 re_search hash ctx in
      let digest = current_evaluation_digest sha256 re_search hash ctx in
      let evidence = evidence_digest_for sha256 re_search hash evidence_hash ctx readiness digest in
      let latest = latest_approval ctx in
      if not readiness.applicable
      then record {
        allow = false;
        reason_code = code_not_applicable;
        approval_status = not_requested;
        applicable = false;
        blockers = blocker "not_applicable" (some "session") (some ctx.session_id) "" ∷ [];
      }
      else decide latest (status_of latest digest evidence readiness.can_approve) readiness
