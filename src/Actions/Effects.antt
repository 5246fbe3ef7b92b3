-- ===== src/Actions/Effects.antt =====
-- core/governance/action_effects.py: what a decision on an action does to flags, findings, evidence and
-- outputs. The red-team, trace and output services are arguments.
pub mod Closing
pub mod Keeping
use ai_workflow_premortem_pu.Prelude.{
  ℕ, String, Bool, true, false, not, ◌&&◌, ◌||◌, Option, none, some, List, [], ◌∷◌, any, mem,
  update_first, is_blank, concat, Outcome, ok, raised, string_eq, option_string_eq, ◌==◌,
  if◌then◌else◌,
}
use ai_workflow_premortem_pu.Dict.{Dict}
use ai_workflow_premortem_pu.Model.Enums.{ActionType, edit, verify_evidence, resolved_finding}
use ai_workflow_premortem_pu.Model.Records.{
  PendingHumanAction, FlaggedItem, flag_verified, flag_dismissed, SafetyFinding,
}
use ai_workflow_premortem_pu.Model.Evaluation.{EvidenceSource}
use ai_workflow_premortem_pu.Model.Context.{
  ProjectContext, append_audit_event, bump_stage_output_version, or_default,
}
use ai_workflow_premortem_pu.Stage.Revision.{
  StageError, record_stage_dependency_versions, invalidate_downstream_stages, stage_key,
}
use ai_workflow_premortem_pu.Stage.Supersede.{supersede_actions_for_stage}
use ai_workflow_premortem_pu.Gates.Policy.{PayloadValue, no_payload}

abbrev pub Payload : Type 0
Payload = Option (Dict String PayloadValue)

-- A service may raise, and may have changed the session until then.
abbrev pub Service : Type 0 → Type 0
Service A = Outcome (Unit {0}) A × ProjectContext

-- `apply_reviewed_output_with_result` answers whether it wrote the structured output; `on_redteam` and
-- `on_trace` are the branches on the gap type; `refresh` is what follows the superseding of an edited
-- stage's actions: policy findings, evaluation cases and new review actions.
pub record Services : Type 0 where
  pub apply_reviewed_output : ProjectContext → ℕ → Payload → Service Bool
  pub on_redteam : ProjectContext → PendingHumanAction → String → Service (Unit {0})
  pub on_trace : ProjectContext → PendingHumanAction → Service (Unit {0})
  pub refresh : ProjectContext → ℕ → ℕ → Service (Unit {0})

-- The rest of a sequence, after a step that may raise.
unfoldable pub and_then : {A B : Type 0} → Service A → (A → ProjectContext → Service B) → Service B
and_then (raised e, ctx) next = (raised e, ctx)
and_then (ok a, ctx) next = next a ctx

abbrev pub is_dismissal : String → Bool
is_dismissal decision = mem decision ("dismiss" ∷ "dismissed" ∷ "reject" ∷ [])

abbrev pub is_edit : ActionType → Bool
is_edit edit = true
is_edit _ = false

abbrev pub is_verify : ActionType → Bool
is_verify verify_evidence = true
is_verify _ = false

-- `source_type == type and source_id`
abbrev comes_from : String → PendingHumanAction → Bool
comes_from type a = a.source_type == type && not (is_blank (or_default a.source_id ""))

unfoldable pub flag_effect : PendingHumanAction → String → String → ProjectContext → ProjectContext
flag_effect a decision note ctx =
    if comes_from "flag" a
    then record ctx {
      flagged_items =
          update_first (λ (f : FlaggedItem). some f.item_id == a.source_id)
            (λ f. record f {
              flag_status = if is_dismissal decision then flag_dismissed else flag_verified;
              note = note;
            })
            ctx.flagged_items;
    }
    else ctx

unfoldable pub finding_effect : PendingHumanAction → String → ProjectContext → ProjectContext
finding_effect a decision ctx =
    if comes_from "safety_finding" a
    then record ctx {
      safety_findings =
          update_first
            (λ (f : SafetyFinding). some f.finding_id == a.source_id && decision == "approve")
            (λ f. record f { status = resolved_finding }) ctx.safety_findings;
    }
    else ctx

unfoldable pub verify_source : String → ProjectContext → ProjectContext
verify_source id ctx =
    let known = any (λ (e : EvidenceSource). e.evidence_id == id) ctx.evidence_sources in
    if known
    then append_audit_event
        (record ctx {
          evidence_sources =
              update_first (λ (e : EvidenceSource). e.evidence_id == id)
                (λ e. record e { verified = true }) ctx.evidence_sources;
        })
        "user" "evidence_verified" "evidence_source" id
    else ctx

-- The set of the payload's evidence identifiers, taken in the payload's order; Python's order of a set
-- is arbitrary.
unfoldable pub verify_sources : List String → List String → ProjectContext → ProjectContext
verify_sources seen [] ctx = ctx
verify_sources seen (id ∷ ids) ctx =
    let skipped = verify_sources seen ids ctx in
    let verified = verify_sources (id ∷ seen) ids (verify_source id ctx) in
    if is_blank id || mem id seen then skipped else verified

unfoldable pub evidence_effect : PendingHumanAction → ProjectContext → ProjectContext
evidence_effect a ctx =
    if is_verify a.action_type then verify_sources [] a.payload_evidence_ids ctx else ctx

-- A call of core/stage_revision_service.py that may raise.
unfoldable pub stage_call : ProjectContext → Outcome StageError ProjectContext → Service (Unit {0})
stage_call ctx (raised e) = (raised tt, ctx)
stage_call ctx (ok ctx') = (ok tt, ctx')

unfoldable pub dropped :
    {A : Type 0} → Outcome StageError (ProjectContext × A) → Outcome StageError ProjectContext
dropped (raised e) = raised e
dropped (ok (ctx, a)) = ok ctx

module _ (services : Services) where
  -- `apply_pre_resolution_effects`: `none` where nothing was edited.
  edit_answer : Service Bool → Service (Option Bool)
  edit_answer (raised e, ctx) = (raised e, ctx)
  edit_answer (ok applied, ctx) = (ok (some applied), ctx)

  unfoldable pub apply_pre_resolution_effects :
      ProjectContext → PendingHumanAction → String → Payload → Service (Option Bool)
  unfolding edit_answer
  apply_pre_resolution_effects ctx a decision payload =
      if is_edit a.action_type && decision == "edit" && not (no_payload payload)
      then edit_answer (services.apply_reviewed_output ctx a.stage_id payload)
      else (ok none, ctx)

  unfoldable pub redteam_effect : PendingHumanAction → String → ProjectContext → Service (Unit {0})
  redteam_effect a decision ctx =
      if (a.source_type == "redteam_gap" || a.source_type == "redteam_case")
          && decision == "approve"
        || a.source_type == "redteam_case" && is_dismissal decision
      then services.on_redteam ctx a decision
      else (ok tt, ctx)

  unfoldable pub trace_effect : PendingHumanAction → String → ProjectContext → Service (Unit {0})
  trace_effect a decision ctx =
      if a.source_type == "trace_backfill_gap" && decision == "approve"
      then services.on_trace ctx a
      else (ok tt, ctx)

  -- The end of the work on an edited output: the stage's open actions are withdrawn, new ones made.
  unfoldable pub renewed : PendingHumanAction → ℕ → ℕ → ProjectContext → Service (Unit {0})
  renewed a now version c =
      let reason =
        concat "Stage output edited by action "
          (concat a.action_id "; stale actions superseded.") in
      services.refresh (supersede_actions_for_stage c a.stage_id reason (some a.action_id) now).0
        a.stage_id version

  -- Before that, the later stages become stale.
  unfoldable pub staled : PendingHumanAction → ℕ → ℕ → ProjectContext → Service (Unit {0})
  unfolding and_then renewed stage_call dropped
  staled a now version c =
      let reason = concat "Stage output edited by action " (concat a.action_id ".") in
      and_then
        (stage_call c
          (dropped (invalidate_downstream_stages c a.stage_id reason (some a.action_id) now)))
        (λ _ d. renewed a now version d)

  -- A new version of an edited output, which depends on the present upstream versions.
  unfoldable pub new_output : PendingHumanAction → ℕ → ProjectContext → Service (Unit {0})
  unfolding and_then staled stage_call
  new_output a now ctx =
      let (bumped, version) = bump_stage_output_version ctx a.stage_id in
      and_then (stage_call bumped (record_stage_dependency_versions bumped a.stage_id))
        (λ _ c. staled a now version c)

  abbrev pub edited_event : PendingHumanAction → ProjectContext → Service (Unit {0})
  edited_event a c = (
    ok tt,
    append_audit_event c "user" "stage_output_edited" "stage_output" (stage_key a.stage_id),
  )

  unfoldable pub edit_effects :
      PendingHumanAction → ℕ → Option Bool → ProjectContext → Service (Unit {0})
  unfolding and_then new_output
  edit_effects a now none ctx = (ok tt, ctx)
  edit_effects a now (some applied) ctx =
      and_then (if applied then new_output a now ctx else (ok tt, ctx)) (λ _ c. edited_event a c)

  -- The effects after those of the red-team services, and after those of the trace services.
  unfoldable pub after_trace : PendingHumanAction → Option Bool → ℕ → ProjectContext → Service Bool
  unfolding and_then
  after_trace a applied now c = and_then (edit_effects a now applied c) (λ _ d. (ok false, d))

  unfoldable pub after_redteam :
      PendingHumanAction → String → Option Bool → ℕ → ProjectContext → Service Bool
  unfolding and_then after_trace
  after_redteam a decision applied now c =
      and_then (trace_effect a decision c) (λ _ d. after_trace a applied now d)

  -- `apply_post_resolution_effects`: true where the resolution is not logged.
  unfoldable pub apply_post_resolution_effects :
      ProjectContext → PendingHumanAction → String → String → Option Bool → ℕ → Service Bool
  unfolding and_then
  apply_post_resolution_effects ctx a decision note applied now =
      let c1 = finding_effect a decision (flag_effect a decision note ctx) in
      if is_verify a.action_type && is_dismissal decision
      then (ok true, c1)
      else and_then (redteam_effect a decision (evidence_effect a c1))
          (λ _ c. after_redteam a decision applied now c)
