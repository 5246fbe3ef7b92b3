-- ===== src/Release/Batch/Sound.antt =====
-- core/release_evidence.py: what a selected release batch proves.
use ai_workflow_premortem_pu.Prelude.{
  String, Bool, true, false, not, ◌&&◌, Option, some, List, [], ◌∷◌, map, In, keep_if, mem,
  is_empty, Bool-cases, In-keep_if, keep_if-empty, In-map, mem-In, mem-map, In-sorted, sorted,
  string_leb, string_eq, ◌≡◌, refl, inl, inr, arith, is_empty_iff, ap,
}
use ai_workflow_premortem_pu.Model.Evaluation.{
  EvalCase, EvalRun, EvalExperiment, is_completed, is_target_http,
}
use ai_workflow_premortem_pu.Model.Context.{ProjectContext}
use ai_workflow_premortem_pu.Release.Version.{VersionPayload}
use ai_workflow_premortem_pu.Release.Coverage.{distinct}
use ai_workflow_premortem_pu.Release.Evidence.{ReleaseBlocker}
use ai_workflow_premortem_pu.Release.Batch.{
  ReleaseBatch, later_first, case_by_eval_id, runs_for_experiment, relevant_runs, missing_ids,
  is_valid_run, invalid_runs, select_loop, select_release_batch,
}
use ai_workflow_premortem_pu.Release.Valid.{ValidRun, release_run_reasons-ValidRun}

In-distinct : (s : String) (ss : List String) → In s ss → In s (distinct ss)
unfolding distinct
In-distinct s [] h = absurd (h tt)
In-distinct s (t ∷ ts) h = elim (Bool-cases (mem t ts)) [
  | inl m ↦
      rw m (elim h [ inl e ↦ In-distinct s ts (rw e (mem-In t ts m)) | inr k ↦ In-distinct s ts k ])
  | inr n ↦ rw n (elim h [ inl e ↦ inl e | inr k ↦ inr (In-distinct s ts k) ])
]

not-false : {b : Bool} → not b ≡ false → b ≡ true
not-false {b = true} h = refl
not-false {b = false} h = absurd cc

found_one :
    (a b : ReleaseBatch) (found : List ReleaseBlocker)
    → ◌≡◌ {A = Option ReleaseBatch × List ReleaseBlocker} (some a, []) (some b, found)
    → (b ≡ a) × (found ≡ [])
found_one a b found h = (cc, cc)

module _ (sha256 : VersionPayload → String) (ctx : ProjectContext) (digest : String) where
  -- The batch stands for this experiment.
  record Qualifies (required : List String) (b : ReleaseBatch) (x : EvalExperiment) : Type 0 where
    covered : is_empty (missing_ids required (relevant_runs ctx required x)) ≡ true
    clean : is_empty (invalid_runs sha256 ctx digest (relevant_runs ctx required x)) ≡ true
    same_id : b.experiment_id ≡ x.experiment_id
    same_runs : b.run_ids ≡ map (λ (r : EvalRun). r.run_id) (relevant_runs ctx required x)

  select_loop-Qualifies :
      (required : List String) (xs : List EvalExperiment) (best : List ReleaseBlocker)
      (b : ReleaseBatch) (found : List ReleaseBlocker)
      → select_loop sha256 ctx digest required best xs ≡ (some b, found)
      → (found ≡ []) × ((x : EvalExperiment) × In x xs × Qualifies required b x)
  unfolding select_loop
  select_loop-Qualifies required [] best b found h = absurd cc
  select_loop-Qualifies required (x ∷ xs) best b found h =
      let rel = relevant_runs ctx required x in
      let missing = is_empty (missing_ids required rel) in
      let invalid = is_empty (invalid_runs sha256 ctx digest rel) in
      elim (Bool-cases (missing && invalid && not (is_empty rel))) [
        | inl t ↦
            let (e, nothing) = found_one _ b found (rw t at h) in
            (
              nothing,
              (
                x,
                inl refl,
                record {
                  covered = ground arith;
                  clean = ground arith;
                  same_id = ap (λ (b : ReleaseBatch). b.experiment_id) e;
                  same_runs = ap (λ (b : ReleaseBatch). b.run_ids) e;
                },
              ),
            )
        | inr f ↦
            let (nothing, (y, k, q)) = select_loop-Qualifies required xs _ b found (rw f at h) in
            (nothing, (y, inr k, q))
      ]

  -- The run tests this case on the real target, as part of the experiment and of the batch.
  pub record Tests (b : ReleaseBatch) (x : EvalExperiment) (c : EvalCase) (run : EvalRun)
      : Type 0 where
    pub recorded : In run ctx.eval_runs
    pub in_experiment : mem run.run_id x.run_ids ≡ true
    pub in_batch : In run.run_id b.run_ids
    pub same_eval : c.eval_id ≡ run.eval_id
    pub valid : ValidRun sha256 ctx run (case_by_eval_id run.eval_id ctx.eval_cases) digest

  Qualifies-Tests :
      (required : List String) (b : ReleaseBatch) (x : EvalExperiment) (c : EvalCase)
      → Qualifies required b x
      → In c.eval_id required
      → (run : EvalRun) × Tests b x c run
  unfolding missing_ids relevant_runs runs_for_experiment invalid_runs is_valid_run
  Qualifies-Tests required b x c q h =
      let covered = not-false (keep_if-empty _ required c.eval_id q.covered h) in
      let (run, k, e) =
        mem-map (λ (r : EvalRun). r.eval_id) c.eval_id (relevant_runs ctx required x) covered in
      let (from_experiment, _) = In-keep_if _ (runs_for_experiment ctx x) run k in
      let (recorded, listed) = In-keep_if _ ctx.eval_runs run from_experiment in
      let clean = not-false (keep_if-empty _ (relevant_runs ctx required x) run q.clean k) in
      (
        run,
        record {
          recorded = recorded;
          in_experiment = listed;
          in_batch =
              rw q.same_runs
                (In-map (λ (r : EvalRun). r.run_id) (relevant_runs ctx required x) run k);
          same_eval = e;
          valid =
              release_run_reasons-ValidRun sha256 ctx run
                (case_by_eval_id run.eval_id ctx.eval_cases) digest ((is_empty_iff _).0 clean);
        },
      )

  -- A selected release batch comes without blockers from one completed experiment of the session
  -- against the real target, and for each required case a recorded run of that experiment stands in
  -- the batch that is valid evidence: a human-reviewed success on the deployed target for the current
  -- versions.
  pub select_release_batch-Tests :
      (cases : List EvalCase) (b : ReleaseBatch) (found : List ReleaseBlocker)
      → select_release_batch sha256 ctx digest cases ≡ (some b, found)
      → (found ≡ [])
        × ((x : EvalExperiment) × In x ctx.eval_experiments
            × (is_completed x.status ≡ true)
            × (is_target_http x.run_mode ≡ true)
            × (b.experiment_id ≡ x.experiment_id)
            × ((c : EvalCase) → In c cases → (run : EvalRun) × Tests b x c run))
  unfolding select_release_batch
  select_release_batch-Tests cases b found h =
      let required = sorted string_leb (distinct (map (λ (c : EvalCase). c.eval_id) cases)) in
      let finished = λ (x : EvalExperiment). is_completed x.status && is_target_http x.run_mode in
      let experiments = sorted later_first (keep_if finished ctx.eval_experiments) in
      elim (Bool-cases (is_empty experiments)) [
        | inl t ↦ absurd cc
        | inr f ↦
            let (nothing, (x, k, q)) =
              select_loop-Qualifies required experiments [] b found (rw f at h) in
            let (listed, passes) =
              In-keep_if finished ctx.eval_experiments x ((In-sorted later_first x _).0 k) in
            (
              nothing,
              (
                x,
                listed,
                ground arith,
                ground arith,
                q.same_id,
                λ c m. Qualifies-Tests required b x c q (
                    (In-sorted string_leb c.eval_id _).1
                      (In-distinct c.eval_id _ (In-map (λ (c : EvalCase). c.eval_id) cases c m))),
              ),
            )
      ]
