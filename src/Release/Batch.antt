-- ===== src/Release/Batch.antt =====
-- core/release_evidence.py, second part: the release batch, one completed experiment against the real
-- target that covers the required cases.
pub mod Sound
use ai_workflow_premortem_pu.Prelude.{
  ℕ, String, Bool, not, ◌&&◌, ◌||◌, Option, none, some, List, [], ◌∷◌, ◌++◌, map, keep_if, mem, ltb,
  is_some, is_empty, non_empty, sorted, string_leb, string_eq, nat_eq, ◌==◌, if◌then◌else◌,
}
use ai_workflow_premortem_pu.Model.Evaluation.{
  EvalCase, EvalRun, EvalExperiment, is_completed, is_target_http,
}
use ai_workflow_premortem_pu.Model.Context.{ProjectContext, or_default}
use ai_workflow_premortem_pu.Release.Version.{VersionPayload}
use ai_workflow_premortem_pu.Release.Coverage.{distinct}
use ai_workflow_premortem_pu.Release.Evidence.{
  ReleaseBlocker, blocker, required_release_cases, deployment_declared, release_run_reasons,
}

pub record ReleaseBatch : Type 0 where
  pub experiment_id : String
  pub run_ids : List String
  pub eval_ids : List String

abbrev finished_at : EvalExperiment → ℕ
finished_at x = or_default x.completed_at x.created_at

-- `_experiment_sort_key`, the later experiment first.
unfoldable pub later_first : EvalExperiment → EvalExperiment → Bool
later_first x y =
    ltb (finished_at y) (finished_at x)
    || finished_at x == finished_at y && string_leb y.experiment_id x.experiment_id

-- `_case_by_eval_id`: a later case replaces an earlier one with its identifier.
unfoldable pub case_by_eval_id : String → List EvalCase → Option EvalCase
case_by_eval_id id [] = none
case_by_eval_id id (c ∷ cs) =
    let later = case_by_eval_id id cs in
    if is_some later then later else if c.eval_id == id then some c else none

unfoldable pub runs_for_experiment : ProjectContext → EvalExperiment → List EvalRun
runs_for_experiment ctx x = keep_if (λ (r : EvalRun). mem r.run_id x.run_ids) ctx.eval_runs

unfoldable pub relevant_runs : ProjectContext → List String → EvalExperiment → List EvalRun
relevant_runs ctx required x =
    keep_if (λ (r : EvalRun). is_empty required || mem r.eval_id required)
      (runs_for_experiment ctx x)

unfoldable pub missing_ids : List String → List EvalRun → List String
missing_ids required runs =
    keep_if (λ id. not (mem id (map (λ (r : EvalRun). r.eval_id) runs))) required

module _ (sha256 : VersionPayload → String) (ctx : ProjectContext) (digest : String) where
  unfoldable pub is_valid_run : EvalRun → Bool
  is_valid_run r =
      is_empty (release_run_reasons sha256 ctx r (case_by_eval_id r.eval_id ctx.eval_cases) digest)

  unfoldable pub invalid_runs : List EvalRun → List EvalRun
  invalid_runs runs = keep_if (λ r. not (is_valid_run r)) runs

  abbrev run_blockers : List EvalRun → List ReleaseBlocker
  run_blockers runs =
      map
        (λ (r : EvalRun).
          blocker "real_target_test" (some "eval_run") (some r.run_id) "run_eval_experiment")
        runs

  abbrev missing_blocker : String → ReleaseBlocker
  missing_blocker id = elim (case_by_eval_id id ctx.eval_cases) [
    | none ↦ blocker "real_target_test" (some "eval_case") (some id) "run_eval_experiment"
    | some c ↦ elim c.target_node_id [
      | none ↦ blocker "real_target_test" (some "eval_case") (some id) "run_eval_experiment"
      | some n ↦
          if non_empty n
          then blocker "real_target_test" (some "eval_node") (some n) "run_eval_experiment"
          else blocker "real_target_test" (some "eval_case") (some id) "run_eval_experiment"
    ]
  ]

  abbrev batch_of : List String → EvalExperiment → List EvalRun → ReleaseBatch
  batch_of eval_ids x runs = record {
    experiment_id = x.experiment_id;
    run_ids = map (λ (r : EvalRun). r.run_id) runs;
    eval_ids = eval_ids;
  }

  abbrev sorted_ids : List EvalRun → List String
  sorted_ids runs = sorted string_leb (distinct (map (λ (r : EvalRun). r.eval_id) runs))

  -- Where no experiment qualifies: the blockers kept so far, or a general one.
  abbrev last_blockers : List String → List ReleaseBlocker → List ReleaseBlocker
  last_blockers required best =
      if not (is_empty best)
      then best
      else if is_empty required
      then blocker "real_target_test" (some "eval_run") none "run_eval_experiment" ∷ []
      else blocker "real_target_test" (some "eval_experiment") none "run_eval_experiment" ∷ []

  -- The loop over the experiments: the batch of the first that qualifies.
  unfoldable pub select_loop :
      List String
      → List ReleaseBlocker
      → List EvalExperiment
      → Option ReleaseBatch × List ReleaseBlocker
  select_loop required best [] = (none, last_blockers required best)
  select_loop required best (x ∷ xs) =
      let relevant = relevant_runs ctx required x in
      let invalid = invalid_runs relevant in
      let missing = missing_ids required relevant in
      let found = map missing_blocker missing ++ run_blockers invalid in
      let next =
        (if is_empty required
          then if not (is_empty relevant) && not (is_empty invalid)
            then run_blockers invalid
            else best
          else if not (is_empty found) && is_empty best
          then found
          else best) in
      let rest = select_loop required next xs in
      let eval_ids = (if is_empty required then sorted_ids relevant else required) in
      if is_empty missing && is_empty invalid && not (is_empty relevant)
      then (some (batch_of eval_ids x relevant), [])
      else rest

  unfoldable pub select_release_batch : List EvalCase → Option ReleaseBatch × List ReleaseBlocker
  select_release_batch cases =
      let required = sorted string_leb (distinct (map (λ (c : EvalCase). c.eval_id) cases)) in
      let experiments = sorted later_first (
        keep_if (λ (x : EvalExperiment). is_completed x.status && is_target_http x.run_mode)
          ctx.eval_experiments) in
      if is_empty experiments
      then (none, blocker "release_batch" (some "eval_experiment") none "run_eval_experiment" ∷ [])
      else select_loop required [] experiments

pub record ReleaseEvidence : Type 0 where
  pub required_cases : List EvalCase
  pub release_batch : Option ReleaseBatch
  pub blockers : List ReleaseBlocker

unfoldable pub build_release_evidence :
    (VersionPayload → String) → ProjectContext → String → List String → ReleaseEvidence
build_release_evidence sha256 ctx digest required_nodes =
    let (cases, missing) = required_release_cases ctx required_nodes in
    let (batch, found) = select_release_batch sha256 ctx digest cases in
    let gaps =
      map (λ n. blocker "required_test_case" (some "eval_node") (some n) "sync_eval_cases")
        missing in
    let undeclared =
      (if deployment_declared ctx.target_deployment
        then []
        else blocker "target_deployment" (some "target_deployment") none "declare_target_deployment"
          ∷ []) in
    record { required_cases = cases; release_batch = batch; blockers = undeclared ++ gaps ++ found }
