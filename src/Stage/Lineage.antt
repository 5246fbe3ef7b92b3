-- ===== src/Stage/Lineage.antt =====
-- The upstream versions that a stage records (`record_stage_dependency_versions` of
-- core/stage_revision_service.py) against `bump_stage_output_version` and the stale_dependency gate.
use ai_workflow_premortem_pu.Prelude.{
  ℕ, suc, zero, ◌+◌, ◌-◌, ◌≤◌, ◌<◌, true, false, some, List, [], ◌∷◌, ◌≡◌, ◌≢◌, refl, ◌∙◌, arith,
  All, In, ok, nat_eq, inl, inr, ◌⊎◌, Bool-cases,
}
use ai_workflow_premortem_pu.Dict.{Dict, get, put, pop, get-put_same, get-pop_same}
use ai_workflow_premortem_pu.Model.Context.{
  ProjectContext, append_audit_event, or_default, current_version, stage_output_exists,
  bump_stage_output_version,
}
use ai_workflow_premortem_pu.Stage.Revision.{
  range, out_of_range, stage_key, upstream_versions, record_stage_dependency_versions,
}
use ai_workflow_premortem_pu.Gates.Basic.{is_stale, recorded_dependencies, stale_dependency_rule}
use ai_workflow_premortem_pu.Gates.Ready.{stale_dependency_rule-nil}

record-eq-ok :
    (ctx ctx' : ProjectContext) (stage : ℕ)
    → record_stage_dependency_versions ctx stage ≡ ok ctx'
    → (out_of_range stage ≡ false)
      × (ctx'
          ≡ append_audit_event
              (record ctx {
                stage_dependency_versions =
                    put stage
                      (upstream_versions ctx (range 1 (stage - 1)))
                      ctx.stage_dependency_versions;
                stage_staleness = pop stage ctx.stage_staleness;
              })
              "system"
              "stage_dependency_versions_recorded"
              "stage"
              (stage_key stage))
unfolding record_stage_dependency_versions
record-eq-ok ctx ctx' stage h = (ground arith, ground arith)

upstream_versions-All :
    (ctx : ProjectContext) (stages : List ℕ)
    → All (λ (d : ℕ × ℕ). current_version ctx d.0 ≤ d.1) (upstream_versions ctx stages)
unfolding upstream_versions
upstream_versions-All ctx [] = tt
upstream_versions-All ctx (s ∷ ss) = (omega arith, upstream_versions-All ctx ss)

upstream_versions-In :
    (ctx : ProjectContext) (u : ℕ) (start count : ℕ)
    → start ≤ u
    → u < start + count
    → In (u, current_version ctx u) (upstream_versions ctx (range start count))
unfolding upstream_versions
upstream_versions-In ctx u start zero h k = absurd (omega arith)
upstream_versions-In ctx u start (suc count) h k = elim (compare_start u start h) [
  | inl e ↦ inl (rw e)
  | inr l ↦ inr (upstream_versions-In ctx u (suc start) count l (omega arith))
]
  where
    compare_start : (u start : ℕ) → start ≤ u → (u ≡ start) ⊎ (suc start ≤ u)
    compare_start u start h = omega arith

All-In : (P : ℕ × ℕ → Type 0) (d : ℕ × ℕ) (deps : Dict ℕ ℕ) → All P deps → In d deps → P d
All-In P d [] h m = absurd (m tt)
All-In P d (x ∷ deps) h (inl e) = rw e h.0
All-In P d (x ∷ deps) h (inr m) = All-In P d deps h.1 m

abbrev recorded_context : ProjectContext → ℕ → ProjectContext
recorded_context ctx stage =
    append_audit_event
      (record ctx {
        stage_dependency_versions =
            put stage (upstream_versions ctx (range 1 (stage - 1))) ctx.stage_dependency_versions;
        stage_staleness = pop stage ctx.stage_staleness;
      })
      "system" "stage_dependency_versions_recorded" "stage" (stage_key stage)

recorded-dependencies :
    (ctx : ProjectContext) (stage : ℕ)
    → recorded_dependencies (recorded_context ctx stage) stage
      ≡ upstream_versions ctx (range 1 (stage - 1))
unfolding recorded_dependencies append_audit_event
recorded-dependencies ctx stage =
    rw (
      get-put_same stage (upstream_versions ctx (range 1 (stage - 1)))
        ctx.stage_dependency_versions)

recorded-is_stale :
    (ctx : ProjectContext) (stage : ℕ) → is_stale (recorded_context ctx stage) stage ≡ false
unfolding is_stale append_audit_event
recorded-is_stale ctx stage = rw (get-pop_same stage ctx.stage_staleness, is_stale) refl

recorded-current_version :
    (ctx : ProjectContext) (stage u : ℕ)
    → current_version (recorded_context ctx stage) u ≡ current_version ctx u
unfolding current_version append_audit_event
recorded-current_version ctx stage u = refl

upstream_versions-current :
    (ctx : ProjectContext) (stage : ℕ) (stages : List ℕ)
    → All
        (λ (d : ℕ × ℕ). current_version (recorded_context ctx stage) d.0 ≤ d.1)
        (upstream_versions ctx stages)
unfolding upstream_versions
upstream_versions-current ctx stage [] = tt
upstream_versions-current ctx stage (s ∷ ss) =
    (omega (arith, recorded-current_version ctx stage s), upstream_versions-current ctx stage ss)

rule_is_empty :
    (ctx : ProjectContext) (stage : ℕ)
    → is_stale ctx stage ≡ false
    → All (λ (d : ℕ × ℕ). current_version ctx d.0 ≤ d.1) (recorded_dependencies ctx stage)
    → stale_dependency_rule ctx stage ≡ []
rule_is_empty ctx stage h k = elim (Bool-cases (stage_output_exists ctx stage)) [
  | inl t ↦ (stale_dependency_rule-nil ctx stage t).1 (h, k)
  | inr f ↦ unfold stale_dependency_rule in rw f
]

-- Once a stage has recorded the versions it was built on, the stale_dependency rule finds nothing in
-- it.
pub record_stage_dependency_versions-fresh :
    (ctx ctx' : ProjectContext) (stage : ℕ)
    → record_stage_dependency_versions ctx stage ≡ ok ctx'
    → stale_dependency_rule ctx' stage ≡ []
record_stage_dependency_versions-fresh ctx ctx' stage h =
    let (_, e) = record-eq-ok ctx ctx' stage h in
    rw e (
      rule_is_empty (recorded_context ctx stage) stage (recorded-is_stale ctx stage) (
        rw (recorded-dependencies ctx stage)
          (upstream_versions-current ctx stage (range 1 (stage - 1)))))

bump-current_version :
    (ctx : ProjectContext) (u v : ℕ)
    → get u ctx.stage_output_versions ≡ some v
    → (current_version ctx u ≡ v) × (current_version (bump_stage_output_version ctx u).0 u ≡ v + 1)
unfolding current_version bump_stage_output_version
bump-current_version ctx u v h = (
  rw h,
  rw (get-put_same u (or_default (get u ctx.stage_output_versions) 0 + 1) ctx.stage_output_versions)
      (rw h),
)

-- Bumping a version changes neither the recorded dependencies nor the outputs.
bump-keeps :
    (ctx : ProjectContext) (u stage : ℕ)
    → (recorded_dependencies (bump_stage_output_version (recorded_context ctx stage) u).0 stage
        ≡ recorded_dependencies (recorded_context ctx stage) stage)
      × (stage_output_exists (bump_stage_output_version (recorded_context ctx stage) u).0 stage
          ≡ stage_output_exists ctx stage)
unfolding recorded_dependencies stage_output_exists bump_stage_output_version append_audit_event
bump-keeps ctx u stage = (refl, refl)

recorded-versions :
    (ctx : ProjectContext) (stage u : ℕ)
    → get u (recorded_context ctx stage).stage_output_versions ≡ get u ctx.stage_output_versions
unfolding append_audit_event
recorded-versions ctx stage u = refl

-- Once a stage has recorded its upstream versions, a new version of any earlier stage that has one
-- already makes the gate's stale_dependency rule block it, as long as it has an output.
pub record_stage_dependency_versions-bump :
    (ctx ctx' : ProjectContext) (stage u v : ℕ)
    → record_stage_dependency_versions ctx stage ≡ ok ctx'
    → stage_output_exists ctx stage ≡ true
    → 1 ≤ u
    → u < stage
    → get u ctx.stage_output_versions ≡ some v
    → stale_dependency_rule (bump_stage_output_version ctx' u).0 stage ≢ []
record_stage_dependency_versions-bump ctx ctx' stage u v h out low below versions =
    let (_, e) = record-eq-ok ctx ctx' stage h in
    rw e λ nothing.
      let (deps, outs) = bump-keeps ctx u stage in
      let bumped = (bump_stage_output_version (recorded_context ctx stage) u).0 in
      let passed = (stale_dependency_rule-nil bumped stage (outs ∙ out)).0 nothing in
      let known = rw (deps ∙ recorded-dependencies ctx stage) at passed.1 in
      let place = upstream_versions-In ctx u 1 (stage - 1) low (omega arith) in
      let bound =
        All-In (λ (d : ℕ × ℕ). current_version bumped d.0 ≤ d.1) (u, current_version ctx u)
          (upstream_versions ctx (range 1 (stage - 1))) known place in
      let (_, new) =
        bump-current_version (recorded_context ctx stage) u v
          (recorded-versions ctx stage u ∙ versions) in
      let (old, _) = bump-current_version ctx u v versions in omega (arith, bound, new, old)
