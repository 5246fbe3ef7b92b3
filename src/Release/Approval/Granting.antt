-- ===== src/Release/Approval/Granting.antt =====
-- Who can grant a release (`request_release_approval` of core/approval_service.py), and what a grant is
-- worth to the release gate.
use ai_workflow_premortem_pu.Prelude.{
  ℕ, String, ◌≡◌, ◌≢◌, refl, sym, ap, ◌∙◌, ◌⊎◌, inl, inr, arith, Bool, true, false, ◌&&◌, ◌||◌,
  Option, none, some, non_empty, strip, ok, Outcome-cases, Bool-cases, string_eq, ◌==◌,
}
use ai_workflow_premortem_pu.Model.Records.{ProjectApproval, ApprovalStatus, approved, rejected}
use ai_workflow_premortem_pu.Model.Context.{ProjectContext}
use ai_workflow_premortem_pu.Risk.Assessment.{DigestPayload}
use ai_workflow_premortem_pu.Release.Version.{VersionPayload, current_evaluation_digest}
use ai_workflow_premortem_pu.Release.Treatment.{is_business_session}
use ai_workflow_premortem_pu.Release.Snapshot.{EvidenceSnapshot}
use ai_workflow_premortem_pu.Release.Readiness.{build_release_readiness}
use ai_workflow_premortem_pu.Release.Approval.{
  assert_approval_authorized, latest_approval, evidence_digest_for, covering, granted,
  decision_record, appended, request_release_approval, status_is_approved,
}

authorized-eq-ok :
    (ctx : ProjectContext) (actor role reviewer : String)
    → assert_approval_authorized ctx actor role ≡ ok reviewer
    → (role ≡ "admin")
      × (reviewer ≡ strip actor)
      × (non_empty (strip actor) ≡ true)
      × (strip actor ≢ strip ctx.created_by)
      × (non_empty (strip ctx.created_by) ≡ true)
unfolding assert_approval_authorized
authorized-eq-ok ctx actor role reviewer h =
    let admin = string_eq.beq_iff role "admin" in
    let self = string_eq.beq_iff (strip actor) (strip ctx.created_by) in
    (ground (arith, admin), ground arith, ground arith, λ e. ground (arith, self.1 e), ground arith)

-- An approval of these digests.
abbrev pub Binds : ProjectApproval → String → String → Type 0
Binds b digest evidence =
    (b.status ≡ approved) × (b.evaluation_version_digest ≡ digest) × (b.evidence_digest ≡ evidence)

-- The answer to an approval, made now or found.
module _ (ctx ctx' : ProjectContext) (digest evidence reviewer role note fresh : String) (now : ℕ)
    (a : ProjectApproval) (unchanged : Bool) where
  abbrev fresh_record : ProjectApproval
  fresh_record = decision_record approved digest evidence reviewer role note fresh now

  abbrev Granted : Option ProjectApproval → Type 0
  Granted o =
      Binds a digest evidence
      × (((o ≡ some a) × (ctx' ≡ ctx) × (unchanged ≡ true))
          ⊎ (((b : ProjectApproval) → o ≡ some b → Binds b digest evidence → ⊥)
              × (a.approval_id ≡ fresh)
              × (a.decided_by ≡ reviewer)
              × (a.created_at ≡ now)
              × (ctx' ≡ appended ctx a "release_approval_granted")
              × (unchanged ≡ false)))

  new-Granted :
      (o : Option ProjectApproval)
      → ((b : ProjectApproval) → o ≡ some b → Binds b digest evidence → ⊥)
      → granted ctx none fresh_record ≡ (a, ctx', unchanged)
      → Granted o
  new-Granted o open_yet h =
      let made : fresh_record ≡ a = ap (λ (t : ProjectApproval × ProjectContext × Bool). t.0) h in
      let left = ap (λ (t : ProjectApproval × ProjectContext × Bool). t.1) h in
      let new = ap (λ (t : ProjectApproval × ProjectContext × Bool). t.2) h in
      (
        (
          ap (λ (x : ProjectApproval). x.status) (sym made),
          ap (λ (x : ProjectApproval). x.evaluation_version_digest) (sym made),
          ap (λ (x : ProjectApproval). x.evidence_digest) (sym made),
        ),
        inr (
          open_yet,
          ap (λ (x : ProjectApproval). x.approval_id) (sym made),
          ap (λ (x : ProjectApproval). x.decided_by) (sym made),
          ap (λ (x : ProjectApproval). x.created_at) (sym made),
          sym left ∙ ap (λ (x : ProjectApproval). appended ctx x "release_approval_granted") made,
          sym new,
        ),
      )

  grant-Granted :
      (o : Option ProjectApproval)
      → granted ctx (covering o digest evidence) fresh_record ≡ (a, ctx', unchanged)
      → Granted o
  grant-Granted none h = new-Granted none (λ b e c. absurd cc) h
  grant-Granted (some b) h =
      let same = string_eq.beq_iff b.evaluation_version_digest digest in
      let kept = string_eq.beq_iff b.evidence_digest evidence in
      elim (Bool-cases (
        status_is_approved b.status
        && b.evaluation_version_digest == digest
        && b.evidence_digest == evidence)) [
          | inr f ↦
              new-Granted (some b)
                (λ b' e c.
                  let found : b' ≡ b = cc in
                  let (s, d, v) : Binds b digest evidence = rw found at c in
                  absurd (let k = rw (s, same.1 d, kept.1 v) at f in cc))
                (rw f at h)
          | inl t ↦
              let h' = rw t at h in
              let found : b ≡ a = ap (λ (x : ProjectApproval × ProjectContext × Bool). x.0) h' in
              let left = ap (λ (x : ProjectApproval × ProjectContext × Bool). x.1) h' in
              let old = ap (λ (x : ProjectApproval × ProjectContext × Bool). x.2) h' in
              rw⁻¹ found (
                (
                  approved_status b.status (ground arith),
                  ground (arith, same),
                  ground (arith, kept),
                ),
                inl (refl, sym left, sym old),
              )
        ]
    where
      approved_status : (s : ApprovalStatus) → status_is_approved s ≡ true → s ≡ approved
      approved_status approved h = refl
      approved_status rejected h = absurd (ground arith)

module _ (sha256 : VersionPayload → String) (re_search : String → String → Bool)
    (hash : DigestPayload → String) (evidence_hash : EvidenceSnapshot → String) where
  request-eq-ok :
      (ctx : ProjectContext) (decision note actor role fresh : String) (now : ℕ)
      (answer : ProjectApproval × ProjectContext × Bool)
      → request_release_approval sha256 re_search hash evidence_hash ctx decision note actor role
          fresh now
        ≡ ok answer
      → (is_business_session ctx ≡ true)
        × ((decision == "approve" || decision == "reject") ≡ true)
        × (assert_approval_authorized ctx actor role ≡ ok (strip actor))
        × ((decision == "reject") ≡ false
            → ((build_release_readiness sha256 re_search hash ctx).can_approve ≡ true))
  unfolding request_release_approval
  request-eq-ok ctx decision note actor role fresh now answer h =
      elim (Outcome-cases (assert_approval_authorized ctx actor role)) [
        | inr (e, lost) ↦ absurd (ground (arith, lost))
        | inl (r, found) ↦
            let (_, same, _, _, _) = authorized-eq-ok ctx actor role r found in
            (ground arith, ground arith, found ∙ ap ok same, λ n. ground (arith, found))
      ]

  approve-answer :
      (ctx : ProjectContext) (note actor role fresh : String) (now : ℕ)
      (answer : ProjectApproval × ProjectContext × Bool)
      → request_release_approval sha256 re_search hash evidence_hash ctx "approve" note actor role
          fresh now
        ≡ ok answer
      → let readiness = build_release_readiness sha256 re_search hash ctx in
        let digest = current_evaluation_digest sha256 re_search hash ctx in
        let evidence =
          evidence_digest_for sha256 re_search hash evidence_hash ctx readiness digest in
        granted ctx
          (covering (latest_approval ctx) digest evidence)
          (decision_record approved digest evidence (strip actor) role note fresh now)
        ≡ answer
  unfolding request_release_approval
  approve-answer ctx note actor role fresh now answer h =
      let (_, _, found, _) = request-eq-ok ctx "approve" note actor role fresh now answer h in
      ground (arith, found)

  -- An approval succeeds only for a business session whose prerequisites hold, given by an admin with an
  -- identity that differs from the recorded creator's. It answers with an approval for the present
  -- evaluation and evidence digests. If the latest approval covers these, it is the answer, reported as
  -- unchanged, and the session is left as it is; only if it does not, a new one of that admin is
  -- appended, with the present time, and reported as new.
  pub request_release_approval-grants :
      (ctx ctx' : ProjectContext) (note actor role fresh : String) (now : ℕ) (a : ProjectApproval)
      (unchanged : Bool)
      → request_release_approval sha256 re_search hash evidence_hash ctx "approve" note actor role
          fresh now
        ≡ ok (a, ctx', unchanged)
      → let readiness = build_release_readiness sha256 re_search hash ctx in
        let digest = current_evaluation_digest sha256 re_search hash ctx in
        let evidence =
          evidence_digest_for sha256 re_search hash evidence_hash ctx readiness digest in
        (is_business_session ctx ≡ true)
        × (readiness.can_approve ≡ true)
        × (role ≡ "admin")
        × (non_empty (strip actor) ≡ true)
        × (non_empty (strip ctx.created_by) ≡ true)
        × (strip actor ≢ strip ctx.created_by)
        × Binds a digest evidence
        × (((latest_approval ctx ≡ some a) × (ctx' ≡ ctx) × (unchanged ≡ true))
            ⊎ (((b : ProjectApproval) → latest_approval ctx ≡ some b → Binds b digest evidence → ⊥)
                × (a.approval_id ≡ fresh)
                × (a.decided_by ≡ strip actor)
                × (a.created_at ≡ now)
                × (ctx' ≡ appended ctx a "release_approval_granted")
                × (unchanged ≡ false)))
  request_release_approval-grants ctx ctx' note actor role fresh now a unchanged h =
      let (business, _, found, can) =
        request-eq-ok ctx "approve" note actor role fresh now (a, ctx', unchanged) h in
      let (admin, _, named, other, creator) = authorized-eq-ok ctx actor role (strip actor) found in
      let readiness = build_release_readiness sha256 re_search hash ctx in
      let digest = current_evaluation_digest sha256 re_search hash ctx in
      let evidence = evidence_digest_for sha256 re_search hash evidence_hash ctx readiness digest in
      let (covers, kept) =
        grant-Granted ctx ctx' digest evidence (strip actor) role note fresh now a unchanged
          (latest_approval ctx)
          (approve-answer ctx note actor role fresh now (a, ctx', unchanged) h) in
      (business, can refl, admin, named, creator, other, covers, kept)
