-- ===== src/Risk/Overrides.antt =====
-- Overrides and factor edits (core/risk/assessment.py): what they make of the effective tier, and
-- that only an admin can lower it.
use ai_workflow_premortem_pu.Prelude.{
  ◌≤◌, String, ◌≡◌, refl, ◌≢◌, ◌∙◌, sym, ap, arith, Bool, Option, none, some, List, [], ◌∷◌, ◌++◌,
  last, ok, string_eq,
}
use ai_workflow_premortem_pu.Model.Enums.{
  Tier, DataClassification, human, tier_order, max_tier, tier_order-max_tier,
}
use ai_workflow_premortem_pu.Model.Records.{RiskFactorScores, RiskOverrideRecord}
use ai_workflow_premortem_pu.Model.Context.{ProjectContext, append_audit_event}
use ai_workflow_premortem_pu.Risk.Rules.{evaluate_risk}
use text.Mathlib.TextEquality.{eq_iff}
use ai_workflow_premortem_pu.Risk.Inference.{infer_legacy_factors, hits, aggregate_legacy_text}
use ai_workflow_premortem_pu.Risk.Assessment.{
  DigestPayload, RiskAssessment, tier_of_text, assert_tier_downgrade_allowed, bound_override,
  overridden_tier, resolve_factors, risk_factor_digest, build_assessment, assess_project_risk,
  set_risk_profile, apply_risk_override,
}

last-append {ℓ} : {A : Type ℓ} (xs : List A) (x : A) → last (xs ++ x ∷ []) ≡ some x
last-append [] x = refl
last-append (y ∷ []) x = refl
last-append (y ∷ z ∷ zs) x = last-append (z ∷ zs) x

overridden_tier-floor :
    (o : Option RiskOverrideRecord) (floor effective : Tier)
    → tier_order floor ≤ tier_order effective
    → tier_order floor ≤ tier_order (overridden_tier o floor effective)
overridden_tier-floor none floor effective h = h
overridden_tier-floor (some r) floor effective h = omega (arith, tier_order-max_tier)

pub effective-floor :
    (f : RiskFactorScores) (c : DataClassification)
    → tier_order (evaluate_risk f c).floor_tier ≤ tier_order (evaluate_risk f c).effective_tier
unfolding evaluate_risk
effective-floor f c = omega (arith, tier_order-max_tier)

downgrade_guard :
    (role : String) (before after : Tier)
    → role ≢ "admin"
    → assert_tier_downgrade_allowed role before after ≡ ok tt
    → tier_order before ≤ tier_order after
unfolding assert_tier_downgrade_allowed
downgrade_guard role before after n h = ground (arith, eq_iff role "admin")

-- What an audit event and a longer list of overrides leave alone.
pub resolve_factors-override :
    (re_search : String → String → Bool) (hash : DigestPayload → String) (ctx : ProjectContext)
    (os : List RiskOverrideRecord) (a b c d : String)
    → resolve_factors re_search hash
        (append_audit_event (record ctx { risk_overrides = os }) a b c d)
      ≡ resolve_factors re_search hash ctx
unfolding resolve_factors infer_legacy_factors hits aggregate_legacy_text append_audit_event
resolve_factors-override re_search hash ctx os a b c d = refl

module _ (re_search : String → String → Bool) (hash : DigestPayload → String) where
  abbrev pub tier_of : ProjectContext → Tier
  tier_of ctx = (assess_project_risk re_search hash ctx).effective_tier

  -- An effective tier is never below its floor, override or not.
  pub assess-floor :
      (ctx : ProjectContext)
      → tier_order (assess_project_risk re_search hash ctx).floor_tier ≤ tier_order (tier_of ctx)
  unfolding assess_project_risk build_assessment
  assess-floor ctx = overridden_tier-floor _ _ _ (effective-floor _ _)

  override_result :
      (ctx : ProjectContext) (requested_tier reason actor actor_role id : String)
      (r : RiskOverrideRecord) (ctx' : ProjectContext)
      → apply_risk_override re_search hash ctx requested_tier reason actor actor_role id
        ≡ ok (r, ctx')
      → (tier_of_text requested_tier ≡ ok r.requested_tier)
        × (assert_tier_downgrade_allowed actor_role (tier_of ctx) r.requested_tier ≡ ok tt)
        × (r.factors_digest ≡ risk_factor_digest re_search hash ctx)
        × (r.effective_tier
            ≡ max_tier r.requested_tier (assess_project_risk re_search hash ctx).floor_tier)
        × (ctx'
            ≡ append_audit_event
                (record ctx { risk_overrides = ctx.risk_overrides ++ r ∷ [] })
                "user"
                "risk_tier_overridden"
                "session"
                ctx.session_id)
  unfolding apply_risk_override
  override_result ctx t reason actor role id r ctx' h = ground arith

  -- The digest that an override stores is the current one, so the override counts.
  bound_override-current :
      (r : RiskOverrideRecord) (digest : String)
      → r.factors_digest ≡ digest
      → bound_override (some r) digest ≡ some r
  unfolding bound_override
  bound_override-current r digest e = ground (arith, eq_iff r.factors_digest digest)

  assess-override :
      (ctx : ProjectContext) (r : RiskOverrideRecord)
      → r.factors_digest ≡ risk_factor_digest re_search hash ctx
      → assess_project_risk re_search hash (
          append_audit_event
            (record ctx { risk_overrides = ctx.risk_overrides ++ r ∷ [] })
            "user"
            "risk_tier_overridden"
            "session"
            ctx.session_id)
        ≡ record {
          factors = (assess_project_risk re_search hash ctx).factors;
          structural_tier = (assess_project_risk re_search hash ctx).structural_tier;
          floor_tier = (assess_project_risk re_search hash ctx).floor_tier;
          effective_tier =
              max_tier r.requested_tier (assess_project_risk re_search hash ctx).floor_tier;
          override_id = some r.override_id;
        }
  unfolding assess_project_risk build_assessment risk_factor_digest append_audit_event
  assess-override ctx r e =
      rw (resolve_factors-override re_search hash ctx)
        (rw (last-append ctx.risk_overrides r) (rw (bound_override-current r _ e) refl))

  -- A granted override takes effect at once: the tier of the new state is the requested one, raised
  -- to the floor, the record says so, and the floor and the factors stay.
  pub apply_risk_override-assess :
      (ctx : ProjectContext) (requested_tier reason actor actor_role id : String)
      (r : RiskOverrideRecord) (ctx' : ProjectContext)
      → apply_risk_override re_search hash ctx requested_tier reason actor actor_role id
        ≡ ok (r, ctx')
      → (tier_of_text requested_tier ≡ ok r.requested_tier)
        × (tier_of ctx'
            ≡ max_tier r.requested_tier (assess_project_risk re_search hash ctx).floor_tier)
        × (tier_of ctx' ≡ r.effective_tier)
        × ((assess_project_risk re_search hash ctx').override_id ≡ some r.override_id)
        × ((assess_project_risk re_search hash ctx').floor_tier
            ≡ (assess_project_risk re_search hash ctx).floor_tier)
        × ((assess_project_risk re_search hash ctx').factors
            ≡ (assess_project_risk re_search hash ctx).factors)
  apply_risk_override-assess ctx t reason actor role id r ctx' h =
      let (parsed, allowed, bound, effective, state) =
        override_result ctx t reason actor role id r ctx' h in
      let now = ap (assess_project_risk re_search hash) state ∙ assess-override ctx r bound in
      (
        parsed,
        ap (λ (a : RiskAssessment). a.effective_tier) now,
        ap (λ (a : RiskAssessment). a.effective_tier) now ∙ sym effective,
        ap (λ (a : RiskAssessment). a.override_id) now,
        ap (λ (a : RiskAssessment). a.floor_tier) now,
        ap (λ (a : RiskAssessment). a.factors) now,
      )

  -- Nobody but an admin lowers the tier by an override.
  pub apply_risk_override-no_downgrade :
      (ctx : ProjectContext) (requested_tier reason actor actor_role id : String)
      (r : RiskOverrideRecord) (ctx' : ProjectContext)
      → actor_role ≢ "admin"
      → apply_risk_override re_search hash ctx requested_tier reason actor actor_role id
        ≡ ok (r, ctx')
      → tier_order (tier_of ctx) ≤ tier_order (tier_of ctx')
  apply_risk_override-no_downgrade ctx t reason actor role id r ctx' n h =
      let allowed = (override_result ctx t reason actor role id r ctx' h).1 in
      let now = (apply_risk_override-assess ctx t reason actor role id r ctx' h).1 in
      rw now (
        omega (
          arith,
          tier_order-max_tier,
          downgrade_guard role (tier_of ctx) r.requested_tier n allowed,
        ))

  profile_result :
      (ctx : ProjectContext) (f : RiskFactorScores) (actor_role : String) (a : RiskAssessment)
      (ctx' : ProjectContext)
      → set_risk_profile re_search hash ctx f actor_role ≡ ok (a, ctx')
      → (a ≡ assess_project_risk re_search hash ctx')
        × (assert_tier_downgrade_allowed actor_role
              (tier_of ctx)
              (build_assessment re_search hash ctx (record f { source = human })).effective_tier
            ≡ ok tt)
        × (ctx'
            ≡ append_audit_event
                (record ctx { risk_profile = some (record f { source = human }) })
                "user"
                "risk_profile_updated"
                "session"
                ctx.session_id)
  unfolding set_risk_profile
  profile_result ctx f role a ctx' h = ground arith

  assess-profile :
      (ctx : ProjectContext) (f : RiskFactorScores)
      → assess_project_risk re_search hash (
          append_audit_event
            (record ctx { risk_profile = some f })
            "user"
            "risk_profile_updated"
            "session"
            ctx.session_id)
        ≡ build_assessment re_search hash ctx f
  unfolding assess_project_risk build_assessment append_audit_event resolve_factors
  assess-profile ctx f = refl

  -- Nobody but an admin lowers the tier by editing the factors; the returned assessment is that of
  -- the new state, whose factors are the given ones.
  pub set_risk_profile-no_downgrade :
      (ctx : ProjectContext) (f : RiskFactorScores) (actor_role : String) (a : RiskAssessment)
      (ctx' : ProjectContext)
      → actor_role ≢ "admin"
      → set_risk_profile re_search hash ctx f actor_role ≡ ok (a, ctx')
      → (tier_order (tier_of ctx) ≤ tier_order (tier_of ctx'))
        × (a ≡ assess_project_risk re_search hash ctx')
        × (a.factors ≡ record f { source = human })
  unfolding build_assessment
  set_risk_profile-no_downgrade ctx f role a ctx' n h =
      let (same, allowed, state) = profile_result ctx f role a ctx' h in
      let now =
        ap (assess_project_risk re_search hash) state
        ∙ assess-profile ctx (record f { source = human }) in
      (
        rw (ap (λ (a : RiskAssessment). a.effective_tier) now) (downgrade_guard role _ _ n allowed),
        same,
        ap (λ (a : RiskAssessment). a.factors) (same ∙ now),
      )
