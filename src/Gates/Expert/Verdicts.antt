-- ===== src/Gates/Expert/Verdicts.antt =====
-- When the expert-review rule (core/gates/rules/expert_review.py) lets stage 3 pass.
use ai_workflow_premortem_pu.Prelude.{
  ℕ, String, Bool, true, false, ◌&&◌, Option, none, some, List, [], ◌∷◌, ◌++◌, any, find_first,
  is_some, ◌≡◌, ◌≢◌, refl, sym, ◌∙◌, ◌↔◌, ◌⊎◌, inl, inr, arith, Bool-cases, ◌==◌, nat_eq, string_eq,
  option_string_eq, any-append, keep_if, beq-false, In,
}
use ai_workflow_premortem_pu.Model.Enums.{
  Tier, critical, ActionStatus, resolved, is_pending, is_resolved,
}
use ai_workflow_premortem_pu.Model.Records.{PendingHumanAction}
use ai_workflow_premortem_pu.Model.Context.{ProjectContext, append_audit_event, current_version}
use ai_workflow_premortem_pu.Risk.Assessment.{
  DigestPayload, assess_project_risk, risk_assessment_digest,
}
use ai_workflow_premortem_pu.Risk.Profile.{profile_of_tier, build_stage3_gate_profile}
use ai_workflow_premortem_pu.Gates.Basic.{is_approved}
use ai_workflow_premortem_pu.Gates.Blocker.{find_pending_action_id, current_stage_actions}
use ai_workflow_premortem_pu.Gates.Keep.{RuleKeeps}
use ai_workflow_premortem_pu.Gates.Expert.{
  is_existing, is_approved_now, is_pending_now, withdraw_loop, withdrawn_events, withdraw_reviews,
  review_action, review_blocker, issue_review, ask_for_review, expert_review_evaluate,
  expert_review_rule,
}

found_any :
    (p : PendingHumanAction → Bool) (actions : List PendingHumanAction)
    → is_some (find_first p actions) ≡ any p actions
found_any p [] = refl
found_any p (a ∷ actions) = ground (arith, found_any p actions)

issue_always :
    (fresh digest : String) (ctx : ProjectContext) (o : Option String)
    → (issue_review fresh digest ctx o).0 ≢ []
unfolding issue_review
issue_always fresh digest ctx (some id) = λ h. ground arith
issue_always fresh digest ctx none = λ h. ground arith

asks_always :
    (fresh digest : String) (o : Option PendingHumanAction) (ctx : ProjectContext)
    → (ask_for_review fresh digest o ctx).0 ≢ []
unfolding ask_for_review
asks_always fresh digest (some a) ctx = λ h. ground arith
asks_always fresh digest none ctx =
    issue_always fresh digest (withdraw_reviews ctx)
      (find_pending_action_id (withdraw_reviews ctx) 3 "expert_review" "critical_tier_review")

-- A list without expert reviews of the current version.
module _ (version : ℕ) (digest : String) where
  none_existing :
      (actions : List PendingHumanAction)
      → any (is_existing version) actions ≡ false
      → (find_first (is_pending_now version digest) actions ≡ none)
        × (find_first (is_approved_now version digest) actions ≡ none)
        × (withdraw_loop version actions ≡ (actions, []))
  unfolding is_pending_now is_approved_now withdraw_loop
  none_existing [] h = (refl, refl, refl)
  none_existing (a ∷ actions) h =
      let here : is_existing version a ≡ false = ground arith in
      let (p, q, w) = none_existing actions (ground arith) in (rw here p, rw here q, rw here (rw w))

none_found :
    (version : ℕ) (id : String) (actions : List PendingHumanAction)
    → any (is_existing version) actions ≡ false
    → find_first
        (λ (a : PendingHumanAction).
          a.source_type == "expert_review" && a.source_id == some id && is_pending a.status)
        (keep_if
          (λ (a : PendingHumanAction). a.stage_id == 3 && a.stage_output_version == version)
          actions)
      ≡ none
unfolding is_existing
none_found version id [] h = refl
none_found version id (a ∷ actions) h = ground (arith, none_found version id actions)

find_pending-none :
    (ctx : ProjectContext)
    → any (is_existing (current_version ctx 3)) ctx.pending_actions ≡ false
    → find_pending_action_id ctx 3 "expert_review" "critical_tier_review" ≡ none
unfolding find_pending_action_id current_stage_actions
find_pending-none ctx h =
    rw (none_found (current_version ctx 3) "critical_tier_review" ctx.pending_actions h)

withdraw-none :
    (ctx : ProjectContext)
    → any (is_existing (current_version ctx 3)) ctx.pending_actions ≡ false
    → withdraw_reviews ctx ≡ ctx
unfolding withdraw_reviews withdrawn_events
withdraw-none ctx h =
    let (_, _, w) = none_existing (current_version ctx 3) "" ctx.pending_actions h in rw w

-- The action that the rule makes has version 1, so a later version does not count it.
review_action-not_existing :
    (version : ℕ) (fresh digest : String)
    → version ≢ 1
    → is_existing version (review_action fresh digest) ≡ false
unfolding is_existing review_action
review_action-not_existing version fresh digest h =
    let n = beq-false 1 version (λ e. h (sym e)) in ground arith

any-member :
    (p : PendingHumanAction → Bool) (actions : List PendingHumanAction)
    → any p actions ≡ true
    → (a : PendingHumanAction) × In a actions × (p a ≡ true)
any-member p [] h = absurd cc
any-member p (x ∷ actions) h = elim (Bool-cases (p x)) [
  | inl t ↦ (x, inl refl, t)
  | inr f ↦ let (a, k, t) = any-member p actions (rw f at h) in (a, inr k, t)
]

member-any :
    (p : PendingHumanAction → Bool) (actions : List PendingHumanAction) (a : PendingHumanAction)
    → In a actions
    → p a ≡ true
    → any p actions ≡ true
member-any p [] a h t = absurd (h tt)
member-any p (x ∷ actions) a (inl e) t = let k : p x ≡ true = rw e at t in rw k refl
member-any p (x ∷ actions) a (inr k) t = let rest = member-any p actions a k t in ground arith

resolved_iff : (s : ActionStatus) → (is_resolved s ≡ true) ↔ (s ≡ resolved)
resolved_iff resolved = (λ _. refl, λ _. refl)
resolved_iff _ = ground arith

requires_iff : (t : Tier) → ((profile_of_tier t).require_expert_review ≡ false) ↔ (t ≢ critical)
unfolding profile_of_tier
requires_iff critical = (λ h. absurd cc, λ h. absurd (h refl))
requires_iff _ = (λ h e. ground arith, λ h. refl)

withdrawn_events-state :
    (ids : List String) (ctx : ProjectContext)
    → (withdrawn_events ids ctx).current_state ≡ ctx.current_state
unfolding withdrawn_events append_audit_event
withdrawn_events-state [] ctx = refl
withdrawn_events-state (id ∷ ids) ctx =
    withdrawn_events-state ids
      (append_audit_event ctx "system" "human_action_superseded" "human_action" id)

issue_review-state :
    (fresh digest : String) (ctx : ProjectContext) (o : Option String)
    → (issue_review fresh digest ctx o).1.current_state ≡ ctx.current_state
unfolding issue_review
issue_review-state fresh digest ctx (some id) = refl
issue_review-state fresh digest ctx none = refl

ask_for_review-state :
    (fresh digest : String) (o : Option PendingHumanAction) (ctx : ProjectContext)
    → (ask_for_review fresh digest o ctx).1.current_state ≡ ctx.current_state
unfolding ask_for_review withdraw_reviews
ask_for_review-state fresh digest (some a) ctx = refl
ask_for_review-state fresh digest none ctx =
    let (actions, ids) = withdraw_loop (current_version ctx 3) ctx.pending_actions in
    let found =
      find_pending_action_id (withdraw_reviews ctx) 3 "expert_review" "critical_tier_review" in
    issue_review-state fresh digest (withdraw_reviews ctx) found
    ∙ withdrawn_events-state ids (record ctx { pending_actions = actions })

module _ (re_search : String → String → Bool) (hash : DigestPayload → String) (fresh : String) where
  -- The rule writes to a session, but does not move it.
  pub expert_review_rule-state :
      RuleKeeps (λ (c : ProjectContext). c.current_state) (expert_review_rule re_search hash fresh)
  unfolding expert_review_rule expert_review_evaluate
  expert_review_rule-state ctx stage =
      let version = current_version ctx stage in
      let digest = risk_assessment_digest re_search hash ctx in
      let asked =
        ask_for_review-state fresh digest
          (find_first (is_pending_now version digest) ctx.pending_actions) ctx in
      ground (arith, asked)

  verdict_any :
      (ctx : ProjectContext)
      → ((expert_review_evaluate re_search hash fresh ctx 3).0 ≡ []) ↔ (
          ((build_stage3_gate_profile re_search hash ctx).require_expert_review ≡ false)
          ⊎ (any
                (is_approved_now
                  (current_version ctx 3)
                  (risk_assessment_digest re_search hash ctx))
                ctx.pending_actions
              ≡ true))
  unfolding expert_review_evaluate
  verdict_any ctx =
      let version = current_version ctx 3 in
      let digest = risk_assessment_digest re_search hash ctx in
      let approved = found_any (is_approved_now version digest) ctx.pending_actions in
      let asks =
        asks_always fresh digest (find_first (is_pending_now version digest) ctx.pending_actions)
          ctx in
      elim (Bool-cases (build_stage3_gate_profile re_search hash ctx).require_expert_review) [
        | inr f ↦ rw f (λ _. inl refl, λ _. refl)
        | inl t ↦
            elim (Bool-cases
              (is_some (find_first (is_approved_now version digest) ctx.pending_actions))) [
                | inl a ↦ rw t (rw a (λ _. inr (sym approved ∙ a), λ _. refl))
                | inr n ↦ rw t (
                    rw n (
                      λ h. absurd (asks h),
                      λ s. absurd (elim s [ inl e ↦ ground arith | inr e ↦ ground arith ]),
                    ))
              ]
      ]

  abbrev the_digest : ProjectContext → String
  the_digest ctx = risk_assessment_digest re_search hash ctx

  -- An expert review of the present output of stage 3, approved under the present risk digest.
  pub record Approves (ctx : ProjectContext) (a : PendingHumanAction) : Type 0 where
    pub member : In a ctx.pending_actions
    pub source : a.source_type ≡ "expert_review"
    pub stage : a.stage_id ≡ 3
    pub version : a.stage_output_version ≡ current_version ctx 3
    pub status : a.status ≡ resolved
    pub decision : a.reviewer_decision ≡ some "approve"
    pub digest : a.payload_digest ≡ some (risk_assessment_digest re_search hash ctx)

  is_approved_now-Approves :
      (ctx : ProjectContext) (a : PendingHumanAction)
      → In a ctx.pending_actions
      → is_approved_now (current_version ctx 3) (the_digest ctx) a ≡ true
      → Approves ctx a
  unfolding is_approved_now is_existing is_approved
  is_approved_now-Approves ctx a member h =
      let source = string_eq.beq_iff a.source_type "expert_review" in
      let stage = nat_eq.beq_iff a.stage_id 3 in
      let version = nat_eq.beq_iff a.stage_output_version (current_version ctx 3) in
      let done = resolved_iff a.status in
      let decision = option_string_eq.beq_iff a.reviewer_decision (some "approve") in
      let digest = option_string_eq.beq_iff a.payload_digest (some (the_digest ctx)) in
      record {
        member = member;
        source = source.0 (ground arith);
        stage = stage.0 (ground arith);
        version = version.0 (ground arith);
        status = done.0 (ground arith);
        decision = decision.0 (ground arith);
        digest = digest.0 (ground arith);
      }

  Approves-is_approved_now :
      (ctx : ProjectContext) (a : PendingHumanAction)
      → Approves ctx a
      → is_approved_now (current_version ctx 3) (the_digest ctx) a ≡ true
  unfolding is_approved_now is_existing is_approved
  Approves-is_approved_now ctx a h =
      let source = (string_eq.beq_iff a.source_type "expert_review").1 h.source in
      let stage = (nat_eq.beq_iff a.stage_id 3).1 h.stage in
      let version = (nat_eq.beq_iff a.stage_output_version (current_version ctx 3)).1 h.version in
      let done = (resolved_iff a.status).1 h.status in
      let decision = (option_string_eq.beq_iff a.reviewer_decision (some "approve")).1 h.decision in
      let digest = (option_string_eq.beq_iff a.payload_digest (some (the_digest ctx))).1 h.digest in
      rw (source, stage, version, done, decision, digest) refl

  -- The rule finds nothing in stage 3 exactly if the session's effective risk tier is not critical, or
  -- there is an expert-review action of stage 3 and its current output version that is resolved as
  -- approved under the current risk digest.
  pub expert_review_evaluate-nil :
      (ctx : ProjectContext)
      → ((expert_review_evaluate re_search hash fresh ctx 3).0 ≡ []) ↔ (
          ((assess_project_risk re_search hash ctx).effective_tier ≢ critical)
          ⊎ ((a : PendingHumanAction) × Approves ctx a))
  unfolding build_stage3_gate_profile
  expert_review_evaluate-nil ctx =
      let p = is_approved_now (current_version ctx 3) (the_digest ctx) in
      let tier = (assess_project_risk re_search hash ctx).effective_tier in
      (
        λ h. elim ((verdict_any ctx).0 h) [
          | inl low ↦ inl ((requires_iff tier).0 low)
          | inr found ↦
              let (a, member, t) = any-member p ctx.pending_actions found in
              inr (a, is_approved_now-Approves ctx a member t)
        ],
        λ s. (verdict_any ctx).1 (elim s [
          | inl low ↦ inl ((requires_iff tier).1 low)
          | inr (a, h) ↦
              inr (member-any p ctx.pending_actions a h.member (Approves-is_approved_now ctx a h))
        ]),
      )

  rerun-answer :
      (ctx : ProjectContext)
      → (build_stage3_gate_profile re_search hash ctx).require_expert_review ≡ true
      → any (is_existing (current_version ctx 3)) ctx.pending_actions ≡ false
      → expert_review_evaluate re_search hash fresh ctx 3 ≡ (
        review_blocker ctx fresh ∷ [],
        record ctx {
          pending_actions =
              ctx.pending_actions
              ++ review_action fresh (risk_assessment_digest re_search hash ctx) ∷ [];
        },
      )
  unfolding expert_review_evaluate ask_for_review issue_review
  rerun-answer ctx required none_yet =
      let version = current_version ctx 3 in
      let digest = risk_assessment_digest re_search hash ctx in
      let (p, q, _) = none_existing version digest ctx.pending_actions none_yet in
      rw required
        (rw q (rw p (rw (withdraw-none ctx none_yet) (rw (find_pending-none ctx none_yet)))))

  -- In a critical session whose stage 3 is at another output version than 1 and has no expert review
  -- of that version, the rule blocks and appends an action, and the context that it leaves again has no
  -- expert review of that version: the action is made with version 1, and no action of version 1,
  -- whatever its status and decision, counts as an approval.
  pub expert_review_evaluate-rerun :
      (ctx : ProjectContext)
      → (build_stage3_gate_profile re_search hash ctx).require_expert_review ≡ true
      → current_version ctx 3 ≢ 1
      → any (is_existing (current_version ctx 3)) ctx.pending_actions ≡ false
      → let digest = risk_assessment_digest re_search hash ctx in
        let after = (expert_review_evaluate re_search hash fresh ctx 3).1 in
        ((expert_review_evaluate re_search hash fresh ctx 3).0 ≡ review_blocker ctx fresh ∷ [])
        × (after.pending_actions ≡ ctx.pending_actions ++ review_action fresh digest ∷ [])
        × (any (is_existing (current_version after 3)) after.pending_actions ≡ false)
        × ((a : PendingHumanAction)
            → a.stage_output_version ≡ 1
            → is_approved_now (current_version after 3) digest a ≡ false)
  unfolding current_version is_approved_now is_existing
  expert_review_evaluate-rerun ctx required later none_yet =
      let version = current_version ctx 3 in
      let digest = risk_assessment_digest re_search hash ctx in
      let e = rerun-answer ctx required none_yet in
      rw e (
        refl,
        refl,
        any-append (is_existing version) ctx.pending_actions (review_action fresh digest ∷ [])
            ∙ (let n = review_action-not_existing version fresh digest later in ground arith),
        λ a one. let n = beq-false 1 version (λ e. later (sym e)) in rw one (ground arith),
      )
