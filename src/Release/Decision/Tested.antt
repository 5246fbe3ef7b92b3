-- ===== src/Release/Decision/Tested.antt =====
-- core/release_gate_service.py with core/approval_service.py and core/release_evidence.py: what an
-- open release gate says of the session's risks and tests.
use ai_workflow_premortem_pu.Prelude.{
  String, Bool, true, ◌&&◌, Option, none, some, List, All, In, is_empty, is_empty_iff, is_some,
  Bool-cases, ◌≡◌, refl, inl, inr, arith,
}
use ai_workflow_premortem_pu.Model.Enums.{is_high_or_critical, is_open}
use ai_workflow_premortem_pu.Model.Records.{
  FailureMode, SafetyFinding, failure_mode, safety_finding,
}
use ai_workflow_premortem_pu.Model.Evaluation.{EvalCase, EvalRun, EvalExperiment}
use ai_workflow_premortem_pu.Model.Context.{ProjectContext}
use ai_workflow_premortem_pu.Risk.Assessment.{DigestPayload}
use ai_workflow_premortem_pu.Release.Version.{VersionPayload, current_evaluation_digest}
use ai_workflow_premortem_pu.Release.Treatment.{
  failure_modes, is_business_session, treatment_blockers,
}
use ai_workflow_premortem_pu.Release.Treatment.Cover.{Treated, treatment_blockers-nil}
use ai_workflow_premortem_pu.Release.Coverage.{required_high_risk_node_ids}
use ai_workflow_premortem_pu.Release.Evidence.{ReleaseBlocker, required_release_cases}
use ai_workflow_premortem_pu.Release.Batch.{
  ReleaseBatch, select_release_batch, build_release_evidence,
}
use ai_workflow_premortem_pu.Release.Batch.Sound.{Tests, select_release_batch-Tests}
use ai_workflow_premortem_pu.Release.Snapshot.{EvidenceSnapshot}
use ai_workflow_premortem_pu.Release.Readiness.{
  is_session_complete, stage_outputs_present, release_checks, build_release_readiness,
}
use ai_workflow_premortem_pu.Release.Decision.{evaluate_release_gate}
use ai_workflow_premortem_pu.Release.Decision.Allow.{evaluate_release_gate-allow}

batch_found :
    (p : Option ReleaseBatch × List ReleaseBlocker)
    → is_some p.0 ≡ true
    → (b : ReleaseBatch) × (p ≡ (some b, p.1))
batch_found (none, found) h = absurd cc
batch_found (some b, found) h = (b, refl)

module _ (sha256 : VersionPayload → String) (re_search : String → String → Bool)
    (hash : DigestPayload → String) where
  -- The test cases that a release of the session needs.
  abbrev pub needed_cases : ProjectContext → List EvalCase
  needed_cases ctx = (required_release_cases ctx (required_high_risk_node_ids re_search hash ctx)).0

  can_approve-true :
      (ctx : ProjectContext)
      → (build_release_readiness sha256 re_search hash ctx).can_approve ≡ true
      → let digest = current_evaluation_digest sha256 re_search hash ctx in
        (is_business_session ctx ≡ true)
        × ((is_session_complete ctx && stage_outputs_present ctx) ≡ true)
        × (is_empty (treatment_blockers ctx digest) ≡ true)
        × (is_some (select_release_batch sha256 ctx digest (needed_cases ctx)).0 ≡ true)
  unfolding build_release_readiness release_checks build_release_evidence
  can_approve-true ctx h = elim (Bool-cases (is_business_session ctx)) [
    | inl t ↦ let k = rw t at h in (t, ground arith, ground arith, ground arith)
    | inr f ↦ absurd cc
  ]

module _ (sha256 : VersionPayload → String) (re_search : String → String → Bool)
    (hash : DigestPayload → String) (evidence_hash : EvidenceSnapshot → String) where
  -- An open release gate means a completed business session with all four stage outputs in which every
  -- high or critical failure mode and every open high or critical safety finding has a closed treatment
  -- and every required test case has a valid run, all of them in one batch of one experiment.
  pub evaluate_release_gate-Tests :
      (ctx : ProjectContext)
      → (evaluate_release_gate sha256 re_search hash evidence_hash ctx).allow ≡ true
      → let digest = current_evaluation_digest sha256 re_search hash ctx in
        (is_business_session ctx ≡ true)
        × ((is_session_complete ctx && stage_outputs_present ctx) ≡ true)
        × All
            (λ (m : FailureMode).
              is_high_or_critical m.severity ≡ true → Treated ctx digest failure_mode m.id)
            (failure_modes ctx.stage_1_output)
        × All
            (λ (f : SafetyFinding).
              is_open f.status ≡ true
              → is_high_or_critical f.severity ≡ true
              → Treated ctx digest safety_finding f.finding_id)
            ctx.safety_findings
        × ((b : ReleaseBatch) × (x : EvalExperiment) × In x ctx.eval_experiments
            × ((c : EvalCase)
                → In c (needed_cases sha256 re_search hash ctx)
                → (run : EvalRun) × Tests sha256 ctx digest b x c run))
  evaluate_release_gate-Tests ctx h =
      let digest = current_evaluation_digest sha256 re_search hash ctx in
      let cases = needed_cases sha256 re_search hash ctx in
      let (_, can, _) = (evaluate_release_gate-allow sha256 re_search hash evidence_hash ctx).0 h in
      let (business, complete, treated, found) = can_approve-true sha256 re_search hash ctx can in
      let (b, e) = batch_found (select_release_batch sha256 ctx digest cases) found in
      let (_, (x, listed, _, _, _, tests)) =
        select_release_batch-Tests sha256 ctx digest cases b _ e in
      elim ((treatment_blockers-nil ctx digest).0 ((is_empty_iff _).0 treated)) [
        | inl none_needed ↦ absurd cc
        | inr (modes, findings) ↦ (business, complete, modes, findings, (b, x, listed, tests))
      ]
