-- ===== src/Release/Treatment.antt =====
-- core/risk_treatment_service.py and core/gates/rules/risk_treatment.py. `digest` is the current
-- evaluation digest of the session; `now` is the clock and `fresh` the new identifier. A treatment's
-- identifier stands for the object, so writing to the object found writes to the first entry with its
-- identifier.
pub mod Cover
pub mod Review
pub mod Rule
use ai_workflow_premortem_pu.Prelude.{
  ℕ, String, Bool, true, false, not, ◌&&◌, ◌||◌, Option, none, some, List, [], ◌∷◌, ◌++◌, strip,
  is_blank, non_empty, keep_if, find_first, latest, leb, Outcome, ok, raised, raise_if, ◌>>=◌, ◌>>◌,
  ◌==◌, ◌!=◌, string_eq, if◌then◌else◌, is_some,
}
use ai_workflow_premortem_pu.Model.Enums.{
  Tier, DataClassification, public_demo, is_high_or_critical, is_open,
}
use ai_workflow_premortem_pu.Model.Records.{
  FailureMode, Stage1Output, SafetyFinding, TreatmentStatus, planned, in_progress, completed,
  accepted, TreatmentSource, failure_mode, safety_finding, RiskTreatment,
}
use ai_workflow_premortem_pu.Model.Context.{ProjectContext, append_audit_event}

pub data TreatmentError : Type 0 where
  bad_role unsupported_status not_high_risk owner_missing plan_missing reviewer_missing not_found
        same_person stale_treatment not_final_status :
      TreatmentError

pub data TreatmentState : Type 0 where
  missing incomplete_fields stale not_final unreviewed complete : TreatmentState

pub record TreatmentRequirement : Type 0 where
  pub source_type : TreatmentSource
  pub source_id : String
  pub risk_level : Tier

abbrev pub same_source : TreatmentSource → TreatmentSource → Bool
same_source failure_mode failure_mode = true
same_source safety_finding safety_finding = true
same_source _ _ = false

abbrev pub source_value : TreatmentSource → String
source_value failure_mode = "failure_mode"
source_value safety_finding = "safety_finding"

-- `status in TREATMENT_FINAL_STATUSES`
abbrev pub is_final : TreatmentStatus → Bool
is_final completed = true
is_final accepted = true
is_final _ = false

abbrev same_status : TreatmentStatus → TreatmentStatus → Bool
same_status planned planned = true
same_status in_progress in_progress = true
same_status completed completed = true
same_status accepted accepted = true
same_status _ _ = false

-- The texts that `upsert_risk_treatment` accepts as a status.
unfoldable pub parse_status : String → Option TreatmentStatus
parse_status s =
    if s == "planned"
    then some planned
    else if s == "in_progress"
    then some in_progress
    else if s == "completed"
    then some completed
    else if s == "accepted"
    then some accepted
    else none

unfoldable pub is_business : DataClassification → Bool
is_business public_demo = false
is_business _ = true

unfoldable pub is_business_session : ProjectContext → Bool
unfolding is_business
is_business_session ctx = is_business ctx.data_classification

unfoldable pub in_seen : TreatmentSource → String → List (TreatmentSource × String) → Bool
in_seen source id [] = false
in_seen source id ((s, i) ∷ seen) = same_source source s && id == i || in_seen source id seen

-- The loop over the safety findings.
unfoldable pub finding_requirements :
    List (TreatmentSource × String) → List SafetyFinding → List TreatmentRequirement
finding_requirements seen [] = []
finding_requirements seen (f ∷ findings) =
    let rest = finding_requirements seen findings in
    let more = finding_requirements ((safety_finding, f.finding_id) ∷ seen) findings in
    if not (is_open f.status) || not (is_high_or_critical f.severity)
    then rest
    else if in_seen safety_finding f.finding_id seen
    then rest
    else record { source_type = safety_finding; source_id = f.finding_id; risk_level = f.severity }
      ∷ more

-- The loop over the failure modes, and what follows it.
unfoldable pub mode_requirements :
    List (TreatmentSource × String)
    → List FailureMode
    → List SafetyFinding
    → List TreatmentRequirement
mode_requirements seen [] findings = finding_requirements seen findings
mode_requirements seen (m ∷ modes) findings =
    let rest = mode_requirements seen modes findings in
    let more = mode_requirements ((failure_mode, m.id) ∷ seen) modes findings in
    if not (is_high_or_critical m.severity)
    then rest
    else if in_seen failure_mode m.id seen
    then rest
    else record { source_type = failure_mode; source_id = m.id; risk_level = m.severity } ∷ more

abbrev pub failure_modes : Option Stage1Output → List FailureMode
failure_modes none = []
failure_modes (some s) = s.failure_modes

unfoldable pub high_risk_treatment_requirements : ProjectContext → List TreatmentRequirement
high_risk_treatment_requirements ctx =
    mode_requirements [] (failure_modes ctx.stage_1_output) ctx.safety_findings

unfoldable pub latest_treatment : ProjectContext → String → String → Option RiskTreatment
latest_treatment ctx source id =
    latest (λ (t u : RiskTreatment). leb t.updated_at u.updated_at)
      (keep_if (λ (t : RiskTreatment). source_value t.source_type == source && t.source_id == id)
        ctx.risk_treatments)

unfoldable pub evaluate_treatment : Option RiskTreatment → String → TreatmentState
evaluate_treatment none digest = missing
evaluate_treatment (some t) digest =
    if not (non_empty (strip t.owner)) || not (non_empty (strip t.mitigation_plan))
    then incomplete_fields
    else if t.evaluation_version_digest != digest
    then stale
    else if not (is_final t.status)
    then not_final
    else if not (non_empty (strip t.reviewed_by))
    then unreviewed
    else complete

abbrev pub is_complete : TreatmentState → Bool
is_complete complete = true
is_complete _ = false

-- An entry of `treatment_blockers`: the requirement and the state that is short of `complete`.
unfoldable pub blockers_of :
    ProjectContext
    → String
    → List TreatmentRequirement
    → List (TreatmentRequirement × TreatmentState)
blockers_of ctx digest [] = []
blockers_of ctx digest (r ∷ requirements) =
    let rest = blockers_of ctx digest requirements in
    let state =
      evaluate_treatment (latest_treatment ctx (source_value r.source_type) r.source_id) digest in
    if is_complete state then rest else (r, state) ∷ rest

unfoldable pub treatment_blockers :
    ProjectContext → String → List (TreatmentRequirement × TreatmentState)
treatment_blockers ctx digest =
    if not (is_business_session ctx)
    then []
    else blockers_of ctx digest (high_risk_treatment_requirements ctx)

abbrev pub write_role : String → Bool
write_role role = role == "editor" || role == "admin"

unfoldable pub find_requirement :
    ProjectContext → String → String → Outcome TreatmentError TreatmentRequirement
find_requirement ctx source id =
    elim (find_first
      (λ (r : TreatmentRequirement). source_value r.source_type == source && r.source_id == id)
      (high_risk_treatment_requirements ctx)) [ none ↦ raised not_high_risk | some r ↦ ok r ]

-- Writes to the object that was found.
unfoldable pub write_treatment : RiskTreatment → List RiskTreatment → List RiskTreatment
write_treatment t [] = []
write_treatment t (u ∷ us) =
    let rest = write_treatment t us in if u.treatment_id == t.treatment_id then t ∷ us else u ∷ rest

module _ (ctx : ProjectContext) (digest : String) (now : ℕ) (fresh : String) where
  -- A new record.
  unfoldable pub new_treatment :
      TreatmentRequirement → String → String → TreatmentStatus → String → String → RiskTreatment
  new_treatment r owner plan status actor_id note = record {
    treatment_id = fresh;
    source_type = r.source_type;
    source_id = r.source_id;
    risk_level = r.risk_level;
    owner = owner;
    mitigation_plan = plan;
    status = status;
    evaluation_version_digest = digest;
    created_by = actor_id;
    updated_by = actor_id;
    reviewed_by = "";
    reviewed_at = none;
    review_note = note;
    updated_at = now;
  }

  -- The update of an existing record: a change of content or of evaluation version clears the review.
  unfoldable pub updated_treatment :
      RiskTreatment → String → String → TreatmentStatus → String → String → RiskTreatment
  updated_treatment t owner plan status actor_id note =
      let content_changed =
        t.owner != owner || t.mitigation_plan != plan || not (same_status t.status status) in
      let digest_changed = t.evaluation_version_digest != digest in
      let clear = content_changed || digest_changed in
      record t {
        owner = owner;
        mitigation_plan = plan;
        status = status;
        review_note = note;
        evaluation_version_digest = digest;
        updated_by = actor_id;
        updated_at = now;
        reviewed_by = if clear then "" else t.reviewed_by;
        reviewed_at = if clear then none else t.reviewed_at;
      }

  abbrev stored :
      Option RiskTreatment
      → TreatmentRequirement
      → String
      → String
      → TreatmentStatus
      → String
      → String
      → RiskTreatment × List RiskTreatment
  stored none r owner plan status actor_id note =
      let t = new_treatment r owner plan status actor_id note in (t, ctx.risk_treatments ++ t ∷ [])
  stored (some u) r owner plan status actor_id note =
      let t = updated_treatment u owner plan status actor_id note in
      (t, write_treatment t ctx.risk_treatments)

  abbrev known_status : Option TreatmentStatus → Outcome TreatmentError TreatmentStatus
  known_status none = raised unsupported_status
  known_status (some s) = ok s

  unfoldable pub upsert_risk_treatment :
      (source source_id owner plan status actor_id actor_role note : String)
      → Outcome TreatmentError (RiskTreatment × ProjectContext)
  upsert_risk_treatment source source_id owner plan status actor_id actor_role note = do
    raise_if (not (write_role actor_role)) bad_role
    s ← known_status (parse_status status)
    r ← find_requirement ctx source source_id
    raise_if (not (non_empty (strip owner))) owner_missing
    raise_if (not (non_empty (strip plan))) plan_missing
    let written =
        stored (latest_treatment ctx source source_id) r (strip owner) (strip plan) s actor_id note
    ok (
      written.0,
      append_audit_event (record ctx { risk_treatments = written.1 }) "user"
          "risk_treatment_upserted" "risk_treatment" written.0.treatment_id,
    )

  abbrev found_treatment : Option RiskTreatment → Outcome TreatmentError RiskTreatment
  found_treatment none = raised not_found
  found_treatment (some t) = ok t

  -- The record after the decision; `accept` stands for the decision "accept", its negation for
  -- "reject".
  unfoldable pub reviewed_treatment : RiskTreatment → Bool → String → String → RiskTreatment
  reviewed_treatment t accept reviewer note = record t {
    status = if accept then t.status else in_progress;
    reviewed_by = if accept then reviewer else "";
    reviewed_at = if accept then some now else none;
    review_note = note;
    updated_at = now;
  }

  unfoldable pub review_risk_treatment :
      (treatment_id : String) (accept : Bool) (note actor_id actor_role : String)
      → Outcome TreatmentError (RiskTreatment × ProjectContext)
  review_risk_treatment treatment_id accept note actor_id actor_role = do
    raise_if (not (write_role actor_role)) bad_role
    raise_if (not (non_empty (strip actor_id))) reviewer_missing
    t ←
        found_treatment
          (find_first (λ (t : RiskTreatment). t.treatment_id == treatment_id) ctx.risk_treatments)
    raise_if (strip actor_id == strip t.updated_by) same_person
    raise_if (t.evaluation_version_digest != digest) stale_treatment
    raise_if (accept && not (is_final t.status)) not_final_status
    let u = reviewed_treatment t accept (strip actor_id) note
    ok (
      u,
      append_audit_event (record ctx { risk_treatments = write_treatment u ctx.risk_treatments })
          "user" "risk_treatment_reviewed" "risk_treatment" u.treatment_id,
    )
