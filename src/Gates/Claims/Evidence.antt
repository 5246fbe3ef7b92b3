-- ===== src/Gates/Claims/Evidence.antt =====
-- core/gates/rules/stage1_evidence_gap.py: what stands behind an open gate of stage 1.
use ai_workflow_premortem_pu.Prelude.{
  String, Bool, true, false, Option, none, some, List, [], ◌∷◌, ◌++◌, mem, is_empty, All,
  append-eq-nil, ok, ◌≡◌, ◌≢◌, refl, arith, inl, inr, Bool-cases, nat_eq, string_eq, ◌==◌,
}
use ai_workflow_premortem_pu.Model.Enums.{is_high_or_critical}
use ai_workflow_premortem_pu.Model.Records.{FailureMode}
use ai_workflow_premortem_pu.Model.Evaluation.{EvidenceSource}
use ai_workflow_premortem_pu.Model.Context.{ProjectContext}
use ai_workflow_premortem_pu.Gates.Engine.{
  GateRule, basic_rules, is_skipped, StageGateResult, evaluate_stage_gate,
}
use ai_workflow_premortem_pu.Gates.Ready.{IsReady}
use ai_workflow_premortem_pu.Gates.Verdict.{found_nothing}
use ai_workflow_premortem_pu.Gates.Keep.{KeepContext, evaluate_stage_gate-passes}
use ai_workflow_premortem_pu.Gates.Claims.{
  first_ids, cited_evidence, reference_blockers, reference_loop, claim_blockers, claim_loop,
  modes_of, stage1_evidence_gap_evaluate, stage1_evidence_gap_rule,
}

first_ids-All :
    (P : String → Type 0) (seen ids : List String)
    → ((id : String) → mem id seen ≡ true → P id)
    → All P (first_ids seen ids)
    → All P ids
unfolding first_ids
first_ids-All P seen [] known h = tt
first_ids-All P seen (id ∷ ids) known h = elim (Bool-cases (mem id seen)) [
  | inl t ↦ (known id t, first_ids-All P seen ids known (rw t at h))
  | inr f ↦
      let k = rw f at h in
      (
        k.0,
        first_ids-All P (id ∷ seen) ids
            (λ x m. elim (Bool-cases (x == id)) [
              | inl e ↦ rw ((string_eq.beq_iff x id).0 e) k.0
              | inr n ↦ known x (rw n at m)
            ])
            k.1,
      )
]

first_ids-cited : (ids : List String) → is_empty (first_ids [] ids) ≡ false → ids ≢ []
unfolding first_ids
first_ids-cited [] h e = absurd cc
first_ids-cited (id ∷ ids) h e = absurd cc

-- A failure mode that cites evidence, all of it on record and verified.
pub record Supported (ctx : ProjectContext) (m : FailureMode) : Type 0 where
  pub cited : m.evidence_ids ≢ []
  pub verified :
      All
        (λ (id : String).
          (e : EvidenceSource) × (cited_evidence ctx id ≡ some e) × (e.verified ≡ true))
        m.evidence_ids

module _ (ctx : ProjectContext) where
  reference_blockers-nil :
      (m : FailureMode) (id : String) (found : Option EvidenceSource)
      → reference_blockers ctx m id found ≡ []
      → (e : EvidenceSource) × (found ≡ some e) × (e.verified ≡ true)
  unfolding reference_blockers
  reference_blockers-nil m id none h = absurd cc
  reference_blockers-nil m id (some e) h = (e, refl, ground arith)

  reference_loop-nil :
      (m : FailureMode) (ids : List String)
      → reference_loop ctx m ids ≡ []
      → All
          (λ (id : String).
            (e : EvidenceSource) × (cited_evidence ctx id ≡ some e) × (e.verified ≡ true))
          ids
  unfolding reference_loop
  reference_loop-nil m [] h = tt
  reference_loop-nil m (id ∷ ids) h =
      let (one, rest) =
        append-eq-nil (reference_blockers ctx m id (cited_evidence ctx id))
          (reference_loop ctx m ids) h in
      (reference_blockers-nil m id (cited_evidence ctx id) one, reference_loop-nil m ids rest)

  claim_blockers-nil :
      (m : FailureMode)
      → claim_blockers ctx m ≡ []
      → is_high_or_critical m.severity ≡ true
      → Supported ctx m
  unfolding claim_blockers
  claim_blockers-nil m h severe = elim (Bool-cases (is_empty (first_ids [] m.evidence_ids))) [
    | inl t ↦ absurd (let k = rw (severe, t) at h in cc)
    | inr f ↦ record {
      cited = first_ids-cited m.evidence_ids f;
      verified =
          first_ids-All _ [] m.evidence_ids (λ id k. absurd cc)
            (reference_loop-nil m (first_ids [] m.evidence_ids) (rw (severe, f) at h));
    }
  ]

  claim_loop-nil :
      (modes : List FailureMode)
      → claim_loop ctx modes ≡ []
      → All (λ (m : FailureMode). is_high_or_critical m.severity ≡ true → Supported ctx m) modes
  unfolding claim_loop
  claim_loop-nil [] h = tt
  claim_loop-nil (m ∷ modes) h =
      let (one, rest) = append-eq-nil (claim_blockers ctx m) (claim_loop ctx modes) h in
      (claim_blockers-nil m one, claim_loop-nil modes rest)

  -- Behind an open gate of stage 1, with the evidence rule enabled and behind rules that leave the session
  -- as it is, the stage is ready and every high or critical failure mode cites evidence, all of which is on
  -- record and verified.
  pub evaluate_stage_gate-Supported :
      (before more : List GateRule) (disabled : List String) (strict : ProjectContext → Bool)
      (persisted : Bool) (result : StageGateResult)
      → KeepContext 1 before
      → mem "stage1_evidence_gap" disabled ≡ false
      → (evaluate_stage_gate
          (basic_rules ++ (before ++ stage1_evidence_gap_rule ∷ more))
          disabled
          strict
          persisted
          ctx
          1).0
        ≡ ok result
      → result.can_continue ≡ true
      → IsReady ctx 1
        × All
            (λ (m : FailureMode). is_high_or_critical m.severity ≡ true → Supported ctx m)
            (modes_of ctx.stage_1_output)
  unfolding stage1_evidence_gap_rule stage1_evidence_gap_evaluate is_skipped
  evaluate_stage_gate-Supported before more disabled strict persisted result keep enabled h go =
      let (ready, nothing) =
        evaluate_stage_gate-passes before more stage1_evidence_gap_rule disabled strict persisted
          ctx 1 result keep (rw enabled refl) h go in
      (ready, claim_loop-nil (modes_of ctx.stage_1_output) (found_nothing _ _ refl nothing))
