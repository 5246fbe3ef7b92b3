-- ===== src/Release/Valid.antt =====
-- What counts as evidence for a release (core/release_evidence.py).
use ai_workflow_premortem_pu.Prelude.{
  String, ◌≡◌, refl, inl, inr, arith, Bool, true, false, not, ◌&&◌, Option, none, some, List, [],
  ◌++◌, append-eq-nil, non_empty, strip, string_eq, ◌!=◌, Bool-cases,
}
use ai_workflow_premortem_pu.Model.Evaluation.{
  TargetDeployment, EvalCase, EvalRun, HumanCalibration, JudgeLabel, passed, is_target_http,
  is_real_target, is_success, is_completed, is_passed, is_human,
}
use ai_workflow_premortem_pu.Model.Context.{ProjectContext, or_default}
use ai_workflow_premortem_pu.Release.Version.{VersionPayload, eval_case_digest}
use ai_workflow_premortem_pu.Release.Evidence.{
  RunReason, bad_run_mode, bad_execution_kind, bad_execution_outcome, bad_status,
  stale_evaluation_version, actual_output_missing, judge_passed, when, latest_human_calibration,
  review_reasons, judge_reasons, deployment_reasons, case_reasons, release_run_reasons,
}

-- The run went through the declared deployment.
pub record RanOn (run : EvalRun) (d : TargetDeployment) : Type 0 where
  pub endpoint : run.target_endpoint ≡ d.endpoint
  pub version : run.target_deployment_version ≡ d.version
  pub declared : (non_empty d.endpoint && non_empty d.version) ≡ true

-- A human passed the run and wrote down why.
pub record Reviewed (c : HumanCalibration) : Type 0 where
  pub label : is_passed c.human_label ≡ true
  pub comment : non_empty (strip c.human_comment) ≡ true
  pub reviewer : non_empty (strip c.reviewer_id) ≡ true

pub record ValidRun (sha256 : VersionPayload → String) (ctx : ProjectContext) (run : EvalRun)
    (found : Option EvalCase) (digest : String) : Type 0 where
  pub real : (is_target_http run.run_mode && is_real_target run.execution_kind) ≡ true
  pub done : (is_success run.execution_outcome && is_completed run.status) ≡ true
  pub judged : run.judge_result ≡ some passed
  pub output : non_empty (strip (or_default run.actual_output "")) ≡ true
  pub human : is_human run.judge_mode ≡ true
  pub calibrated :
      (c : HumanCalibration) × (latest_human_calibration ctx run.run_id ≡ some c) × Reviewed c
  pub current : run.evaluation_version_digest ≡ digest
  pub same_case :
      (c : EvalCase) × (found ≡ some c) × (run.case_version_digest ≡ eval_case_digest sha256 c)
  pub deployed : (d : TargetDeployment) × (ctx.target_deployment ≡ some d) × RanOn run d

when-nil : (b : Bool) (r : RunReason) → when b r ≡ [] → b ≡ false
when-nil true r h = absurd (ground arith)
when-nil false r h = refl

review-nil :
    (run : EvalRun) (o : Option HumanCalibration)
    → review_reasons run o ≡ []
    → (is_human run.judge_mode ≡ true) × ((c : HumanCalibration) × (o ≡ some c) × Reviewed c)
unfolding review_reasons
review-nil run none h = absurd (ground arith)
review-nil run (some c) h = (
  ground arith,
  (c, refl, record { label = ground arith; comment = ground arith; reviewer = ground arith }),
)

judged_passed : (o : Option JudgeLabel) → judge_passed o ≡ true → o ≡ some passed
judged_passed none h = absurd (ground arith)
judged_passed (some l) h = ground arith

judge-nil :
    (run : EvalRun) (o : Option HumanCalibration)
    → is_target_http run.run_mode ≡ true
    → judge_reasons run o ≡ []
    → (run.judge_result ≡ some passed)
      × (non_empty (strip (or_default run.actual_output "")) ≡ true)
      × (review_reasons run o ≡ [])
unfolding judge_reasons
judge-nil run o real h = elim (Bool-cases (judge_passed run.judge_result)) [
  | inr f ↦ absurd (ground arith)
  | inl t ↦
      let silent = not (non_empty (strip (or_default run.actual_output ""))) in
      let (a, b) =
        append-eq-nil (when silent actual_output_missing) (review_reasons run o)
          (rw real at (rw t at h)) in
      let c = when-nil silent actual_output_missing a in
      (judged_passed run.judge_result t, ground arith, b)
]

deployment-nil :
    (run : EvalRun) (o : Option TargetDeployment)
    → deployment_reasons run o ≡ []
    → (d : TargetDeployment) × (o ≡ some d) × RanOn run d
unfolding deployment_reasons
deployment-nil run none h = absurd (ground arith)
deployment-nil run (some d) h =
    let e = string_eq.beq_iff run.target_endpoint d.endpoint in
    let v = string_eq.beq_iff run.target_deployment_version d.version in
    (
      d,
      refl,
      record { endpoint = ground (arith, e); version = ground (arith, v); declared = ground arith },
    )

not-false : {b : Bool} → not b ≡ false → b ≡ true
not-false {b = true} h = refl
not-false {b = false} h = absurd (ground arith)

all_empty :
    (a b c d e f g i : List RunReason)
    → a ++ b ++ c ++ d ++ e ++ f ++ g ++ i ≡ []
    → (a ≡ []) × (b ≡ []) × (c ≡ []) × (d ≡ []) × (e ≡ []) × (f ≡ []) × (g ≡ []) × (i ≡ [])
all_empty a b c d e f g i h =
    let (h1, i0) = append-eq-nil (a ++ b ++ c ++ d ++ e ++ f ++ g) i h in
    let (h2, g0) = append-eq-nil (a ++ b ++ c ++ d ++ e ++ f) g h1 in
    let (h3, f0) = append-eq-nil (a ++ b ++ c ++ d ++ e) f h2 in
    let (h4, e0) = append-eq-nil (a ++ b ++ c ++ d) e h3 in
    let (h5, d0) = append-eq-nil (a ++ b ++ c) d h4 in
    let (h6, c0) = append-eq-nil (a ++ b) c h5 in
    let (a0, b0) = append-eq-nil a b h6 in (a0, b0, c0, d0, e0, f0, g0, i0)

module _ (sha256 : VersionPayload → String) where
  case-nil :
      (run : EvalRun) (o : Option EvalCase)
      → case_reasons sha256 run o ≡ []
      → (c : EvalCase) × (o ≡ some c) × (run.case_version_digest ≡ eval_case_digest sha256 c)
  unfolding case_reasons
  case-nil run none h = absurd (ground arith)
  case-nil run (some c) h =
      let e = string_eq.beq_iff run.case_version_digest (eval_case_digest sha256 c) in
      (c, refl, ground (arith, e))

  -- The conditions of a run, in the order of its reasons.
  reasons-nil :
      (ctx : ProjectContext) (run : EvalRun) (found : Option EvalCase) (digest : String)
      → release_run_reasons sha256 ctx run found digest ≡ []
      → (is_target_http run.run_mode ≡ true)
        × (is_real_target run.execution_kind ≡ true)
        × (is_success run.execution_outcome ≡ true)
        × (is_completed run.status ≡ true)
        × (judge_reasons run (latest_human_calibration ctx run.run_id) ≡ [])
        × (run.evaluation_version_digest ≡ digest)
        × (case_reasons sha256 run found ≡ [])
        × (deployment_reasons run ctx.target_deployment ≡ [])
  unfolding release_run_reasons
  reasons-nil ctx run found digest h =
      let current = string_eq.beq_iff run.evaluation_version_digest digest in
      let (a, b, c, d, e, f, g, i) =
        all_empty (when (not (is_target_http run.run_mode)) bad_run_mode)
          (when (not (is_real_target run.execution_kind)) bad_execution_kind)
          (when (not (is_success run.execution_outcome)) bad_execution_outcome)
          (when (not (is_completed run.status)) bad_status)
          (judge_reasons run (latest_human_calibration ctx run.run_id))
          (when (run.evaluation_version_digest != digest) stale_evaluation_version)
          (case_reasons sha256 run found) (deployment_reasons run ctx.target_deployment) h in
      (
        not-false (when-nil (not (is_target_http run.run_mode)) bad_run_mode a),
        not-false (when-nil (not (is_real_target run.execution_kind)) bad_execution_kind b),
        not-false (when-nil (not (is_success run.execution_outcome)) bad_execution_outcome c),
        not-false (when-nil (not (is_completed run.status)) bad_status d),
        e,
        current.0 (
            not-false
              (when-nil (run.evaluation_version_digest != digest) stale_evaluation_version f)),
        g,
        i,
      )

  -- A run has no reason against it only if it is valid evidence: a completed, successful execution of
  -- the real target as it is deployed now, for the current evaluation version and case version, with
  -- an output, passed by a human whose calibration names the reviewer and says why.
  pub release_run_reasons-ValidRun :
      (ctx : ProjectContext) (run : EvalRun) (found : Option EvalCase) (digest : String)
      → release_run_reasons sha256 ctx run found digest ≡ []
      → ValidRun sha256 ctx run found digest
  release_run_reasons-ValidRun ctx run found digest h =
      let (mode, kind, outcome, status, judge, current, case_, deployed) =
        reasons-nil ctx run found digest h in
      let (judged, output, review) =
        judge-nil run (latest_human_calibration ctx run.run_id) mode judge in
      let (human, calibrated) = review-nil run (latest_human_calibration ctx run.run_id) review in
      record {
        real = rw mode kind;
        done = rw outcome status;
        judged = judged;
        output = output;
        human = human;
        calibrated = calibrated;
        current = current;
        same_case = case-nil run found case_;
        deployed = deployment-nil run ctx.target_deployment deployed;
      }
