-- ===== src/Gates/Approver.antt =====
-- core/governance/expert_review.py: who may approve the expert review of a critical session.
use ai_workflow_premortem_pu.Prelude.{
  String, Bool, true, not, Option, none, some, Outcome, ok, raise_if, ◌>>◌, ◌==◌, ◌!=◌, ◌≡◌, ◌≢◌,
  ◌↔◌, arith, string_eq, option_string_eq, strip, non_empty, if◌then◌else◌, beq-false, beq_refl,
}
use ai_workflow_premortem_pu.Model.Records.{PendingHumanAction}
use ai_workflow_premortem_pu.Model.Context.{ProjectContext, or_default}
use ai_workflow_premortem_pu.Risk.Assessment.{DigestPayload, risk_assessment_digest}

pub data ReviewError : Type 0 where
  not_admin reviewer_missing creator_missing self_approval digest_missing stale_digest : ReviewError

module _ (re_search : String → String → Bool) (hash : DigestPayload → String) where
  -- `none` where the action is no expert review or the decision is no approval.
  unfoldable pub validate_expert_review_approval :
      ProjectContext
      → PendingHumanAction
      → String
      → String
      → String
      → Outcome ReviewError (Option String)
  validate_expert_review_approval ctx a decision actor_id actor_role =
      let current = risk_assessment_digest re_search hash ctx in
      let checked = (do
        raise_if (actor_role != "admin") not_admin
        raise_if (not (non_empty (strip actor_id))) reviewer_missing
        raise_if (not (non_empty (strip ctx.created_by))) creator_missing
        raise_if (strip actor_id == strip ctx.created_by) self_approval
        raise_if (not (non_empty (or_default a.payload_digest ""))) digest_missing
        raise_if (a.payload_digest != some current) stale_digest
        ok (some current)) in
      if a.source_type != "expert_review"
      then ok none
      else if strip decision != "approve"
      then ok none
      else checked

  -- An approval of an expert review passes exactly if an admin with an identity gives it who is not
  -- the recorded creator of the session, and the action carries the present risk digest; it then
  -- answers with that digest.
  pub validate_expert_review_approval_iff :
      (ctx : ProjectContext) (a : PendingHumanAction) (decision actor_id actor_role digest : String)
      → a.source_type ≡ "expert_review"
      → strip decision ≡ "approve"
      → (validate_expert_review_approval ctx a decision actor_id actor_role ≡ ok (some digest)) ↔ (
          (actor_role ≡ "admin")
          × (non_empty (strip actor_id) ≡ true)
          × (non_empty (strip ctx.created_by) ≡ true)
          × (strip actor_id ≢ strip ctx.created_by)
          × (a.payload_digest ≡ some digest)
          × (non_empty digest ≡ true)
          × (risk_assessment_digest re_search hash ctx ≡ digest))
  unfolding validate_expert_review_approval
  validate_expert_review_approval_iff ctx a decision actor_id actor_role digest source approves =
      let current = risk_assessment_digest re_search hash ctx in
      let admin = string_eq.beq_iff actor_role "admin" in
      let self = string_eq.beq_iff (strip actor_id) (strip ctx.created_by) in
      let bound = option_string_eq.beq_iff a.payload_digest (some current) in
      rw source (
        rw approves (
          λ h.
              let carried : a.payload_digest ≡ some digest = ground (arith, bound) in
              let full : non_empty (or_default a.payload_digest "") ≡ true = ground arith in
              (
                ground (arith, admin),
                ground arith,
                ground arith,
                λ e. ground (arith, self.1 e),
                carried,
                rw carried at full,
                ground arith,
              ),
          λ (role, named, creator, other, carried, full, e).
              let apart = beq-false (strip actor_id) (strip ctx.created_by) other in
              rw (admin.1 role) (
                rw named
                  (rw creator (rw apart (rw carried (rw full (rw e (rw (beq_refl digest)))))))),
        ))
