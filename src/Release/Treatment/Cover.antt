-- ===== src/Release/Treatment/Cover.antt =====
-- What an empty list of treatment blockers (core/risk_treatment_service.py) says of a session.
use ai_workflow_premortem_pu.Prelude.{
  String, true, false, not, ◌&&◌, ◌||◌, Option, none, some, List, [], ◌∷◌, ◌≡◌, refl, ◌↔◌, ◌⊎◌, inl,
  inr, arith, All, Bool-cases, ◌==◌, string_eq, non_empty, strip,
}
use ai_workflow_premortem_pu.Model.Enums.{is_high_or_critical, is_open}
use ai_workflow_premortem_pu.Model.Records.{
  FailureMode, SafetyFinding, TreatmentSource, failure_mode, safety_finding, RiskTreatment,
}
use ai_workflow_premortem_pu.Model.Context.{ProjectContext}
use ai_workflow_premortem_pu.Release.Treatment.{
  TreatmentRequirement, same_source, source_value, in_seen, finding_requirements, mode_requirements,
  failure_modes, high_risk_treatment_requirements, latest_treatment, evaluate_treatment,
  is_complete, blockers_of, treatment_blockers, is_business_session, is_final,
}

same_source-eq : (a b : TreatmentSource) → same_source a b ≡ true → a ≡ b
same_source-eq a b h = ground arith

module _ (P : TreatmentSource → String → Type 0) where
  -- P holds of every key seen.
  abbrev Seen : List (TreatmentSource × String) → Type 0
  Seen seen = (a : TreatmentSource) (i : String) → in_seen a i seen ≡ true → P a i

  Seen-cons :
      (s : TreatmentSource) (i : String) (seen : List (TreatmentSource × String))
      → P s i
      → Seen seen
      → Seen ((s, i) ∷ seen)
  unfolding in_seen
  Seen-cons s i seen p h a j found = elim (Bool-cases (same_source a s && j == i)) [
    | inl t ↦ here (ground arith) (ground arith)
    | inr f ↦ h a j (ground arith)
  ]
    where
      here : same_source a s ≡ true → (j == i) ≡ true → P a j
      here t u = rw (same_source-eq a s t) (rw ((string_eq.beq_iff j i).0 u) p)

  abbrev OfRequirement : TreatmentRequirement → Type 0
  OfRequirement r = P r.source_type r.source_id

  abbrev OfFinding : SafetyFinding → Type 0
  OfFinding f =
      is_open f.status ≡ true
      → is_high_or_critical f.severity ≡ true
      → P safety_finding f.finding_id

  abbrev OfMode : FailureMode → Type 0
  OfMode m = is_high_or_critical m.severity ≡ true → P failure_mode m.id

  finding_requirements-All :
      (seen : List (TreatmentSource × String)) (findings : List SafetyFinding)
      → (Seen seen
          → All OfRequirement (finding_requirements seen findings)
          → All OfFinding findings)
        × (All OfFinding findings → All OfRequirement (finding_requirements seen findings))
  unfolding finding_requirements
  finding_requirements-All seen [] = (λ _ _. tt, λ _. tt)
  finding_requirements-All seen (f ∷ fs) =
      let rest = finding_requirements-All seen fs in
      let more = finding_requirements-All ((safety_finding, f.finding_id) ∷ seen) fs in
      elim (Bool-cases (not (is_open f.status) || not (is_high_or_critical f.severity))) [
        | inl t ↦ rw t (λ s h. (λ o c. absurd (ground arith), rest.0 s h), λ h. rest.1 h.1)
        | inr n ↦ elim (Bool-cases (in_seen safety_finding f.finding_id seen)) [
          | inl t ↦
              rw n (
                rw t (λ s h. (λ o c. s safety_finding f.finding_id t, rest.0 s h), λ h. rest.1 h.1))
          | inr u ↦ rw n (
              rw u (
                λ s h. (λ o c. h.0, more.0 (Seen-cons safety_finding f.finding_id seen h.0 s) h.1),
                λ h. (h.0 (ground arith) (ground arith), more.1 h.1),
              ))
        ]
      ]

  mode_requirements-All :
      (seen : List (TreatmentSource × String)) (modes : List FailureMode)
      (findings : List SafetyFinding)
      → (Seen seen
          → All OfRequirement (mode_requirements seen modes findings)
          → All OfMode modes × All OfFinding findings)
        × (All OfMode modes
            → All OfFinding findings
            → All OfRequirement (mode_requirements seen modes findings))
  unfolding mode_requirements
  mode_requirements-All seen [] findings =
      let rest = finding_requirements-All seen findings in
      (λ s h. (tt, rest.0 s h), λ _ h. rest.1 h)
  mode_requirements-All seen (m ∷ ms) findings =
      let rest = mode_requirements-All seen ms findings in
      let more = mode_requirements-All ((failure_mode, m.id) ∷ seen) ms findings in
      elim (Bool-cases (is_high_or_critical m.severity)) [
        | inr f ↦ rw f (
          λ s h. let (a, b) = rest.0 s h in ((λ c. absurd (ground arith), a), b),
          λ h k. rest.1 h.1 k,
        )
        | inl t ↦ elim (Bool-cases (in_seen failure_mode m.id seen)) [
          | inl u ↦ rw t (
              rw u (
                λ s h. let (a, b) = rest.0 s h in ((λ c. s failure_mode m.id u, a), b),
                λ h k. rest.1 h.1 k,
              ))
          | inr v ↦ rw t (
              rw v (
                λ s h.
                    let (a, b) = more.0 (Seen-cons failure_mode m.id seen h.0 s) h.1 in
                    ((λ c. h.0, a), b),
                λ h k. (h.0 refl, more.1 h.1 k),
              ))
        ]
      ]

-- The treatment has an owner and a plan, belongs to the digest, is final and was reviewed.
pub record Closed (t : RiskTreatment) (digest : String) : Type 0 where
  pub owned : non_empty (strip t.owner) ≡ true
  pub planned_out : non_empty (strip t.mitigation_plan) ≡ true
  pub bound : t.evaluation_version_digest ≡ digest
  pub final : is_final t.status ≡ true
  pub reviewed : non_empty (strip t.reviewed_by) ≡ true

pub evaluate_treatment-Closed :
    (t : RiskTreatment) (digest : String)
    → (is_complete (evaluate_treatment (some t) digest) ≡ true) ↔ Closed t digest
unfolding evaluate_treatment
evaluate_treatment-Closed t digest =
    let same = string_eq.beq_iff t.evaluation_version_digest digest in
    (
      λ h. record {
        owned = ground arith;
        planned_out = ground arith;
        bound = ground (arith, same);
        final = ground arith;
        reviewed = ground arith;
      },
      λ (c : Closed t digest).
          let e = same.1 c.bound in
          rw c.owned (rw c.planned_out (rw e (rw c.final (rw c.reviewed)))),
    )

-- The latest treatment recorded for an item is closed.
abbrev pub Treated : ProjectContext → String → TreatmentSource → String → Type 0
Treated ctx digest source id =
    (t : RiskTreatment) × (latest_treatment ctx (source_value source) id ≡ some t) × Closed t digest

Treated-iff :
    (digest : String) (o : Option RiskTreatment)
    → (is_complete (evaluate_treatment o digest) ≡ true)
      ↔ ((t : RiskTreatment) × (o ≡ some t) × Closed t digest)
Treated-iff digest none =
    (λ h. absurd (unfold evaluate_treatment in ground arith), λ (t, e, c). absurd (ground arith))
Treated-iff digest (some t) =
    let closed = evaluate_treatment-Closed t digest in
    (λ h. (t, refl, closed.0 h), λ (u, e, c). rw e ((evaluate_treatment-Closed u digest).1 c))

blockers_of-nil :
    (ctx : ProjectContext) (digest : String) (rs : List TreatmentRequirement)
    → (blockers_of ctx digest rs ≡ [])
      ↔ All (λ (r : TreatmentRequirement). Treated ctx digest r.source_type r.source_id) rs
unfolding blockers_of
blockers_of-nil ctx digest [] = (λ _. tt, λ _. refl)
blockers_of-nil ctx digest (r ∷ rs) =
    let rest = blockers_of-nil ctx digest rs in
    let found = latest_treatment ctx (source_value r.source_type) r.source_id in
    let one = Treated-iff digest found in
    elim (Bool-cases (is_complete (evaluate_treatment found digest))) [
      | inl t ↦ rw t (λ h. (one.0 t, rest.0 h), λ h. rest.1 h.1)
      | inr f ↦ rw f (λ h. absurd (ground arith), λ h. absurd (let c = one.1 h.0 in ground arith))
    ]

-- A session has no treatment blocker exactly if it is no business session, or every high or critical
-- failure mode of stage 1 and every open high or critical safety finding has, as its latest
-- treatment, one that is final, has an owner and a plan, belongs to the current evaluation digest and
-- was reviewed.
pub treatment_blockers-nil :
    (ctx : ProjectContext) (digest : String)
    → (treatment_blockers ctx digest ≡ []) ↔ (
        (is_business_session ctx ≡ false)
        ⊎ (All
              (λ (m : FailureMode).
                is_high_or_critical m.severity ≡ true → Treated ctx digest failure_mode m.id)
              (failure_modes ctx.stage_1_output)
            × All
                (λ (f : SafetyFinding).
                  is_open f.status ≡ true
                  → is_high_or_critical f.severity ≡ true
                  → Treated ctx digest safety_finding f.finding_id)
                ctx.safety_findings))
unfolding treatment_blockers high_risk_treatment_requirements in_seen
treatment_blockers-nil ctx digest =
    let required = blockers_of-nil ctx digest (high_risk_treatment_requirements ctx) in
    let cover =
      mode_requirements-All (Treated ctx digest) [] (failure_modes ctx.stage_1_output)
        ctx.safety_findings in
    elim (Bool-cases (is_business_session ctx)) [
      | inr f ↦ rw f (λ _. inl refl, λ _. refl)
      | inl t ↦ rw t (
        λ h. inr (cover.0 none_seen (required.0 h)),
        λ s. elim s [ inl e ↦ absurd (ground arith) | inr h ↦ required.1 (cover.1 h.0 h.1) ],
      )
    ]
  where
    none_seen : (a : TreatmentSource) (i : String) → in_seen a i [] ≡ true → Treated ctx digest a i
    none_seen a i h = absurd (ground arith)
