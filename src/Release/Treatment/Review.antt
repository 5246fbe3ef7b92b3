-- ===== src/Release/Treatment/Review.antt =====
-- Who can close a treatment (`upsert_risk_treatment` and `review_risk_treatment` of
-- core/risk_treatment_service.py).
use ai_workflow_premortem_pu.Prelude.{
  ℕ, String, Bool, true, false, not, ◌&&◌, some, ◌≡◌, ◌≢◌, refl, ap, sym, ◌∙◌, ◌↔◌, inl, inr, arith,
  Option-cases, ok, Outcome-cases, ◌==◌, string_eq, non_empty, strip, strip-strip, strip-empty,
  find_first,
}
use ai_workflow_premortem_pu.Model.Records.{RiskTreatment, TreatmentStatus}
use ai_workflow_premortem_pu.Model.Context.{ProjectContext}
use ai_workflow_premortem_pu.Release.Treatment.{
  TreatmentRequirement, write_role, is_final, find_requirement, latest_treatment, parse_status,
  new_treatment, updated_treatment, stored, same_status, upsert_risk_treatment, reviewed_treatment,
  review_risk_treatment,
}
use ai_workflow_premortem_pu.Release.Treatment.Cover.{Closed}

module _ (ctx : ProjectContext) (digest : String) (now : ℕ) (fresh : String) where
  review-eq-ok :
      (id : String) (accept : Bool) (note actor role : String) (u : RiskTreatment)
      (ctx' : ProjectContext)
      → review_risk_treatment ctx digest now fresh id accept note actor role ≡ ok (u, ctx')
      → (t : RiskTreatment) × (u
          ≡ reviewed_treatment ctx digest now fresh t accept (strip actor) note)
        × (write_role role ≡ true)
        × (non_empty (strip actor) ≡ true)
        × (strip actor ≢ strip t.updated_by)
        × (t.evaluation_version_digest ≡ digest)
        × ((accept && not (is_final t.status)) ≡ false)
  unfolding review_risk_treatment
  review-eq-ok id accept note actor role u ctx' h =
      elim (Option-cases
        (find_first (λ (t : RiskTreatment). (t.treatment_id == id)) ctx.risk_treatments)) [
          | inl lost ↦ absurd (ground (arith, lost))
          | inr (t, found) ↦
              let same = string_eq.beq_iff (strip actor) (strip t.updated_by) in
              let bound = string_eq.beq_iff t.evaluation_version_digest digest in
              (
                t,
                ground (arith, found),
                ground (arith, found),
                ground (arith, found),
                λ e. ground (arith, found, same.1 e),
                ground (arith, found, bound),
                ground (arith, found),
              )
        ]

  accepted-Closed :
      (t : RiskTreatment) (actor note : String)
      → non_empty (strip actor) ≡ true
      → t.evaluation_version_digest ≡ digest
      → is_final t.status ≡ true
      → Closed (reviewed_treatment ctx digest now fresh t true (strip actor) note) digest
        ↔ ((non_empty (strip t.owner) ≡ true) × (non_empty (strip t.mitigation_plan) ≡ true))
  unfolding reviewed_treatment
  accepted-Closed t actor note named bound final = (
    λ (c : Closed (reviewed_treatment ctx digest now fresh t true (strip actor) note) digest).
        (c.owned, c.planned_out),
    λ p. record {
      owned = p.0;
      planned_out = p.1;
      bound = bound;
      final = final;
      reviewed = ap non_empty (strip-strip actor) ∙ named;
    },
  )

  rejected-open :
      (t : RiskTreatment) (reviewer note d : String)
      → Closed (reviewed_treatment ctx digest now fresh t false reviewer note) d
      → ⊥
  unfolding reviewed_treatment
  rejected-open t reviewer note d c = let f = c.final in ground arith

  -- A review that succeeds was made by an editor or admin with an identity that differs from the last
  -- updater's. Accepting closes the treatment exactly if it has an owner and a plan, and names that
  -- reviewer; rejecting leaves it open, whatever digest is asked for.
  pub review_risk_treatment-Closed :
      (id : String) (accept : Bool) (note actor role : String) (t : RiskTreatment)
      (ctx' : ProjectContext)
      → review_risk_treatment ctx digest now fresh id accept note actor role ≡ ok (t, ctx')
      → (write_role role ≡ true)
        × (non_empty (strip actor) ≡ true)
        × (strip actor ≢ strip t.updated_by)
        × (accept ≡ true
            → (t.reviewed_by ≡ strip actor)
              × (Closed t digest ↔ (
                  (non_empty (strip t.owner) ≡ true)
                  × (non_empty (strip t.mitigation_plan) ≡ true))))
        × (accept ≡ false → (d : String) → Closed t d → ⊥)
  unfolding reviewed_treatment
  review_risk_treatment-Closed id true note actor role t ctx' h =
      let (u, e, writer, named, other, bound, final) =
        review-eq-ok id true note actor role t ctx' h in
      let closed = accepted-Closed u actor note named bound (ground arith) in
      rw e (writer, named, other, λ _. (refl, closed), λ a. absurd (ground arith))
  review_risk_treatment-Closed id false note actor role t ctx' h =
      let (u, e, writer, named, other, _, _) = review-eq-ok id false note actor role t ctx' h in
      rw e (
        writer,
        named,
        other,
        λ a. absurd (ground arith),
        λ _ d. rejected-open u (strip actor) note d,
      )

  upsert-eq-ok :
      (source id owner plan status actor role note : String) (t : RiskTreatment)
      (ctx' : ProjectContext)
      → upsert_risk_treatment ctx digest now fresh source id owner plan status actor role note
        ≡ ok (t, ctx')
      → (s : TreatmentStatus) × (r : TreatmentRequirement) × (parse_status status ≡ some s)
        × (find_requirement ctx source id ≡ ok r)
        × (write_role role ≡ true)
        × (non_empty (strip owner) ≡ true)
        × (non_empty (strip plan) ≡ true)
        × (t
            ≡ (stored ctx digest now fresh
                (latest_treatment ctx source id)
                r
                (strip owner)
                (strip plan)
                s
                actor
                note).0)
  unfolding upsert_risk_treatment
  upsert-eq-ok source id owner plan status actor role note t ctx' h =
      elim (Option-cases (parse_status status)) [
        | inl lost ↦ absurd (ground (arith, lost))
        | inr (s, known) ↦ elim (Outcome-cases (find_requirement ctx source id)) [
          | inr (e, lost) ↦ absurd (ground (arith, known, lost))
          | inl (r, found) ↦ (
            s,
            r,
            known,
            found,
            ground arith,
            ground arith,
            ground arith,
            ground (arith, known, found),
          )
        ]
      ]

  new-open :
      (r : TreatmentRequirement) (owner plan : String) (s : TreatmentStatus) (actor note d : String)
      → Closed (new_treatment ctx digest now fresh r owner plan s actor note) d
      → ⊥
  unfolding new_treatment
  new-open r owner plan s actor note d c = let e = c.reviewed in ground (arith, strip-empty)

  same_status-eq : (a b : TreatmentStatus) → same_status a b ≡ true → a ≡ b
  same_status-eq a b h = ground arith

  not_cleared :
      (u : RiskTreatment) (owner plan : String) (s : TreatmentStatus) (actor note : String)
      → Closed (updated_treatment ctx digest now fresh u owner plan s actor note) digest
      → (u.reviewed_by
          ≡ (updated_treatment ctx digest now fresh u owner plan s actor note).reviewed_by)
        × (u.owner ≡ owner)
        × (u.mitigation_plan ≡ plan)
        × (u.status ≡ s)
        × (u.evaluation_version_digest ≡ digest)
  unfolding updated_treatment
  not_cleared u owner plan s actor note c =
      let e = c.reviewed in
      let o = string_eq.beq_iff u.owner owner in
      let p = string_eq.beq_iff u.mitigation_plan plan in
      let d = string_eq.beq_iff u.evaluation_version_digest digest in
      (
        ground (arith, strip-empty),
        ground (arith, o, strip-empty),
        ground (arith, p, strip-empty),
        same_status-eq u.status s (ground (arith, strip-empty)),
        ground (arith, d, strip-empty),
      )

  -- Nobody closes a treatment by writing it: where the record written is closed, the latest one before
  -- was reviewed by the same person and had the same owner, plan, status and digest.
  pub upsert_risk_treatment-keeps_review :
      (source id owner plan status actor role note : String) (t : RiskTreatment)
      (ctx' : ProjectContext)
      → upsert_risk_treatment ctx digest now fresh source id owner plan status actor role note
        ≡ ok (t, ctx')
      → Closed t digest
      → (u : RiskTreatment) × (latest_treatment ctx source id ≡ some u)
        × (u.reviewed_by ≡ t.reviewed_by)
        × (u.owner ≡ strip owner)
        × (u.mitigation_plan ≡ strip plan)
        × (parse_status status ≡ some u.status)
        × (u.evaluation_version_digest ≡ digest)
  upsert_risk_treatment-keeps_review source id owner plan status actor role note t ctx' h closed =
      let (s, r, known, _, _, _, _, e) =
        upsert-eq-ok source id owner plan status actor role note t ctx' h in
      elim (Option-cases (latest_treatment ctx source id)) [
        | inl none_before ↦
            let created = rw none_before at e in
            absurd
              (new-open r (strip owner) (strip plan) s actor note digest (rw created at closed))
        | inr (u, before) ↦
            let updated = rw before at e in
            let (reviewer, o, p, st, d) =
              not_cleared u (strip owner) (strip plan) s actor note (rw updated at closed) in
            (
              u,
              before,
              reviewer ∙ ap (λ (x : RiskTreatment). x.reviewed_by) (sym updated),
              o,
              p,
              known ∙ ap some (sym st),
              d,
            )
      ]
