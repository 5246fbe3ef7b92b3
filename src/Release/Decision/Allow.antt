-- ===== src/Release/Decision/Allow.antt =====
-- What an `allow` of the release gate (core/release_gate_service.py) says of a session.
use ai_workflow_premortem_pu.Prelude.{
  String, ◌≡◌, refl, ◌↔◌, inl, inr, arith, Bool, true, Option, none, some, non_empty, Bool-cases,
  string_eq, beq_refl,
}
use ai_workflow_premortem_pu.Model.Records.{ProjectApproval, approved}
use ai_workflow_premortem_pu.Model.Context.{ProjectContext}
use ai_workflow_premortem_pu.Risk.Assessment.{DigestPayload}
use ai_workflow_premortem_pu.Release.Version.{VersionPayload, current_evaluation_digest}
use ai_workflow_premortem_pu.Release.Snapshot.{EvidenceSnapshot}
use ai_workflow_premortem_pu.Release.Readiness.{ReleaseReadiness, build_release_readiness}
use ai_workflow_premortem_pu.Release.Approval.{
  EffectiveStatus, not_requested, is_rejected, is_stale, invalidated, is_approved, latest_approval,
  evidence_digest_for, status_of,
}
use ai_workflow_premortem_pu.Release.Decision.{decide, evaluate_release_gate}

-- An approval that covers the present evaluation and evidence digests.
pub record Covers (a : ProjectApproval) (digest evidence : String) : Type 0 where
  pub granted : a.status ≡ approved
  pub same_evaluation : a.evaluation_version_digest ≡ digest
  pub same_evidence : a.evidence_digest ≡ evidence
  pub bound : non_empty evidence ≡ true

covered-status_of :
    (a : ProjectApproval) (digest evidence : String) (can : Bool)
    → Covers a digest evidence
    → can ≡ true
    → status_of (some a) digest evidence can ≡ is_approved
unfolding status_of
covered-status_of a digest evidence can c k = rw c.granted (
    rw c.same_evaluation
      (rw (beq_refl digest) (rw c.same_evidence (rw c.bound (rw (beq_refl evidence) (rw k))))))

found-status_of :
    (o : Option ProjectApproval) (a : ProjectApproval) (digest evidence : String) (can : Bool)
    → o ≡ some a
    → Covers a digest evidence
    → can ≡ true
    → status_of o digest evidence can ≡ is_approved
found-status_of o a digest evidence can e c k = rw e (covered-status_of a digest evidence can c k)

pub status_of-Covers :
    (o : Option ProjectApproval) (digest evidence : String) (can : Bool)
    → (status_of o digest evidence can ≡ is_approved)
      ↔ ((a : ProjectApproval) × (o ≡ some a) × Covers a digest evidence × (can ≡ true))
unfolding status_of
status_of-Covers none digest evidence can =
    (λ h. absurd (ground arith), λ (a, e, c, k). absurd (ground arith))
status_of-Covers (some a) digest evidence can =
    let s = string_eq.beq_iff a.evaluation_version_digest digest in
    let e = string_eq.beq_iff a.evidence_digest evidence in
    (
      λ h.
          let same : a.evidence_digest ≡ evidence = ground (arith, e) in
          let full : non_empty a.evidence_digest ≡ true = ground arith in
          (
            a,
            refl,
            record {
              granted = ground arith;
              same_evaluation = ground (arith, s);
              same_evidence = same;
              bound = rw same at full;
            },
            ground arith,
          ),
      λ (b, eq, c, k). found-status_of (some a) b digest evidence can eq c k,
    )

decide-allow :
    (o : Option ProjectApproval) (status : EffectiveStatus) (r : ReleaseReadiness)
    → (status ≡ is_approved → r.can_approve ≡ true)
    → ((decide o status r).allow ≡ true) ↔ (status ≡ is_approved)
unfolding decide
decide-allow o is_approved r h = (λ _. refl, λ _. let c = h refl in ground arith)
decide-allow o not_requested r h = (λ a. absurd (ground arith), λ e. absurd (ground arith))
decide-allow o is_rejected r h = (λ a. absurd (ground arith), λ e. absurd (ground arith))
decide-allow o is_stale r h = (λ a. absurd (ground arith), λ e. absurd (ground arith))
decide-allow o invalidated r h = (λ a. absurd (ground arith), λ e. absurd (ground arith))

module _ (sha256 : VersionPayload → String) (re_search : String → String → Bool)
    (hash : DigestPayload → String) (evidence_hash : EvidenceSnapshot → String) where
  -- The release gate allows a session exactly if its prerequisites hold now and its latest approval is
  -- an approval for the present evaluation digest and the present, non-empty evidence digest.
  pub evaluate_release_gate-allow :
      (ctx : ProjectContext)
      → let readiness = build_release_readiness sha256 re_search hash ctx in
        let digest = current_evaluation_digest sha256 re_search hash ctx in
        ((evaluate_release_gate sha256 re_search hash evidence_hash ctx).allow ≡ true) ↔ (
          (readiness.applicable ≡ true)
          × (readiness.can_approve ≡ true)
          × ((a : ProjectApproval) × (latest_approval ctx ≡ some a)
              × Covers a digest
                  (evidence_digest_for sha256 re_search hash evidence_hash ctx readiness digest)))
  unfolding evaluate_release_gate build_release_readiness
  evaluate_release_gate-allow ctx =
      let readiness = build_release_readiness sha256 re_search hash ctx in
      let digest = current_evaluation_digest sha256 re_search hash ctx in
      let evidence = evidence_digest_for sha256 re_search hash evidence_hash ctx readiness digest in
      let covers = status_of-Covers (latest_approval ctx) digest evidence readiness.can_approve in
      let allowed =
        decide-allow (latest_approval ctx)
          (status_of (latest_approval ctx) digest evidence readiness.can_approve) readiness
          (λ e. (covers.0 e).3) in
      elim (Bool-cases readiness.applicable) [
        | inr f ↦ rw f (λ h. absurd (ground arith), λ h. absurd (ground arith))
        | inl t ↦ rw t (
          λ h. let (a, e, c, k) = covers.0 (allowed.0 h) in (refl, k, (a, e, c)),
          λ (_, k, p). allowed.1 (covers.1 (p.0, p.1, p.2, k)),
        )
      ]
