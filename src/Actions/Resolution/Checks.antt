-- ===== src/Actions/Resolution/Checks.antt =====
-- The checks of core/governance/action_resolution.py before anything is done for an action.
use ai_workflow_premortem_pu.Prelude.{
  String, Bool, true, false, raised, Outcome-cases, ◌≡◌, refl, inl, inr, Bool-cases, nat_eq,
  string_eq, ◌==◌,
}
use ai_workflow_premortem_pu.Model.Enums.{is_pending}
use ai_workflow_premortem_pu.Model.Records.{
  PendingHumanAction, ResolutionFault, stale_action, hash_conflict, not_pending, transition_denied,
  not_authorised, stale_approval,
}
use ai_workflow_premortem_pu.Model.Context.{ProjectContext, current_version}
use ai_workflow_premortem_pu.Risk.Inference.{infer_legacy_factors, hits, aggregate_legacy_text}
use ai_workflow_premortem_pu.Risk.Assessment.{
  DigestPayload, risk_assessment_digest, assess_project_risk, resolve_factors, build_assessment,
}
use ai_workflow_premortem_pu.Gates.Approver.{
  ReviewError, not_admin, reviewer_missing, creator_missing, self_approval, digest_missing,
  stale_digest, validate_expert_review_approval,
}
use ai_workflow_premortem_pu.Gates.Policy.{
  evaluate_action_resolution, assert_action_resolution_allowed,
}
use ai_workflow_premortem_pu.Actions.Effects.{Services}
use ai_workflow_premortem_pu.Actions.Resolution.{
  review_fault, reviewed, permitted, Request, write_action, allowed, conflicts,
}

module _ (re_search : String → String → Bool) (hash : DigestPayload → String)
    (action_hash payload_hash : PendingHumanAction → String) (services : Services) where
  abbrev pub ReviewRefused : ProjectContext → Request → PendingHumanAction → Type 0
  ReviewRefused ctx req a =
      (e : ReviewError) × (validate_expert_review_approval re_search hash ctx a req.decision
          req.actor_id req.actor_role
        ≡ raised e)

  -- Why a call on the action `a` is refused.
  abbrev pub Because : ProjectContext → Request → PendingHumanAction → ResolutionFault → Type 0
  Because ctx req a not_pending = is_pending a.status ≡ false
  Because ctx req a stale_action =
      (a.stage_output_version == current_version ctx a.stage_id) ≡ false
  Because ctx req a hash_conflict =
      conflicts re_search hash action_hash payload_hash services req a ≡ true
  Because ctx req a transition_denied =
      (evaluate_action_resolution a req.decision req.payload_after).allow_resolve ≡ false
  Because ctx req a not_authorised = ReviewRefused ctx req a
  Because ctx req a stale_approval = ReviewRefused ctx req a
  Because ctx req a _ = Unit

  review-Because :
      (ctx : ProjectContext) (req : Request) (a : PendingHumanAction) (e : ReviewError)
      → ReviewRefused ctx req a
      → Because ctx req a (review_fault e)
  review-Because ctx req a not_admin r = r
  review-Because ctx req a reviewer_missing r = r
  review-Because ctx req a creator_missing r = r
  review-Because ctx req a self_approval r = r
  review-Because ctx req a digest_missing r = r
  review-Because ctx req a stale_digest r = r

  -- A review or a policy that refuses. The review is checked first.
  pub allowed-Because :
      (ctx : ProjectContext) (req : Request) (a : PendingHumanAction) (fault : ResolutionFault)
      → allowed re_search hash action_hash payload_hash services ctx req a ≡ raised fault
      → Because ctx req a fault
  unfolding allowed reviewed permitted assert_action_resolution_allowed
  allowed-Because ctx req a fault h =
      let review =
        validate_expert_review_approval re_search hash ctx a req.decision req.actor_id
          req.actor_role in
      let effect = evaluate_action_resolution a req.decision req.payload_after in
      elim (Outcome-cases review) [
        | inr (e, lost) ↦
            let same : review_fault e ≡ fault = cc (rw lost at h) in
            rw⁻¹ same (review-Because ctx req a e (e, lost))
        | inl (d, found) ↦ elim (Bool-cases effect.allow_resolve) [
          | inl t ↦ absurd (let k = rw (found, t) at h in cc)
          | inr f ↦ let same : transition_denied ≡ fault = cc (rw (found, f) at h) in rw⁻¹ same f
        ]
      ]

  -- Neither check reads the actions of the session.
  pub allowed-write_action :
      (ctx : ProjectContext) (req : Request) (a : PendingHumanAction) (id : String)
      (f : PendingHumanAction → PendingHumanAction)
      → allowed re_search hash action_hash payload_hash services (write_action id f ctx) req a
        ≡ allowed re_search hash action_hash payload_hash services ctx req a
  unfolding allowed write_action validate_expert_review_approval risk_assessment_digest
      assess_project_risk resolve_factors infer_legacy_factors hits aggregate_legacy_text
      build_assessment
  allowed-write_action ctx req a id f = refl
