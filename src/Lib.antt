-- ===== src/Lib.antt =====
-- A verification library of the AI workflow pre-mortem: the service that leads a planned AI workflow
-- through four stages (failure modes, workflow design, stress tests, triggers), closes each stage with
-- a gate, and releases the session with an approval that is bound to its evidence.
--
-- The parts and how they interact. Everything is a function of one mutable object, ProjectContext of
-- core/models.py; the model passes it explicitly and each operation returns the new one.
--   * Model: the records of core/models.py and core/risk/models.py (Model/Enums, Model/Records,
--     Model/Evaluation) and the context with its audit trail and stage output versions (Model/Context:
--     core/audit_service.py, core/governance/action_state.py).
--   * Risk: core/risk/. Risk/Inference is infer_legacy_factors, Risk/Rules is evaluate_risk,
--     Risk/Assessment is assess_project_risk, set_risk_profile and apply_risk_override, Risk/Profile is
--     build_stage3_gate_profile. Risk/Bounds, Risk/Monotone, Risk/Overrides, Risk/Signals and
--     Risk/Authority hold proofs.
--   * Workflow: core/workflow_state_service.py. Workflow/State has the states, marks and recovery;
--     Workflow/Recovery has the proofs.
--   * Stage: core/stage_revision_service.py (Stage/Revision) and supersede_actions_for_stage of
--     core/governance/action_resolution.py (Stage/Supersede). Stage/Stale, Stage/Invalidation,
--     Stage/Lineage and Stage/Superseding hold proofs.
--   * Gates: core/gates/engine.py (Gates/Engine), core/gates/rules/manifest.py (Gates/Manifest), the
--     rules of core/gates/rules/ that apply to every stage (Gates/Basic), stage1_evidence_gap and
--     stage2_policy_gap (Gates/Claims) and expert_review (Gates/Expert), the blockers of
--     core/stage_readiness_service.py (Gates/Blocker), graph/transition_policy.py (Gates/Policy) and
--     core/governance/expert_review.py (Gates/Approver, which also holds its proof). Gates/Ready
--     states when a stage is ready; Gates/Verdict, Gates/Fail, Gates/BottomLine, Gates/Keep, Gates/Claims/Evidence,
--     Gates/Claims/Oversight, Gates/Resolution and Gates/Expert/Verdicts hold proofs.
--   * Advance: the reached stages (Advance/Scope, core/stage_scope_service.py), what each blocker asks
--     for (Advance/Contract, core/stage_advancement_contract.py), the operations that resolve blockers
--     (Advance/Operations, core/stage_resolution_service.py), the decision and the move to the next
--     state (Advance/Coordinator, core/stage_advancement_coordinator.py) and the readiness of all stages
--     (Advance/Readiness, core/stage_readiness_service.py). Advance/Offers, Advance/Coordinator/Moves,
--     Advance/Coordinator/Complete, Advance/Coordinator/Progress and Advance/Readiness/Closed hold
--     proofs, Gates/Keep what they need of a gate.
--   * Actions: core/governance/action_state.py (Actions/State), core/governance/action_effects.py
--     (Actions/Effects), and of core/governance/action_resolution.py resolve_action (Actions/Resolution)
--     and resolve_action_with_result (Actions/Answer). Actions/State/Adding, Actions/Effects/Closing,
--     Actions/Effects/Keeping, Actions/Answer/Refines and the modules below Actions/Resolution hold
--     proofs.
--   * Release: core/evaluation_version.py (Release/Version), core/risk_treatment_service.py
--     (Release/Treatment), core/gates/rules/risk_treatment.py (Release/Treatment/Rule),
--     core/coverage/policy.py (Release/Coverage), core/release_evidence.py (Release/Evidence,
--     Release/Batch, Release/Snapshot), core/approval_service.py (Release/Readiness, Release/Approval)
--     and core/release_gate_service.py (Release/Decision). Release/Treatment/Cover,
--     Release/Treatment/Review, Release/Valid, Release/Batch/Sound, Release/Approval/Granting,
--     Release/Decision/Allow and Release/Decision/Tested hold proofs.
--   * Prelude and Dict: Boolean tests, lists, text, sorting, outcomes with exceptions and association
--     lists. Samples: concrete contexts and runs of the theorems on them.
-- A revision marks later stages stale; the gate reads the marks, the actions, the findings and, through
-- the risk profile, whether an expert must approve; the release readiness reads the same context, and
-- an approval is bound to the digests of what it read.
--
-- Correspondence. A Python exception is `raised` of an Outcome; the modelled operations raise before
-- they change anything, and the gate, which does not, gives the context besides its outcome. A
-- Pydantic literal is a data type, a dictionary is an association list, a set is a list that is only
-- asked for membership or emptiness. Time and fresh identifiers are arguments. Stage keys "stage_1" to
-- "stage_4" are the stage's number. Loops over lists are structural recursion; the only fuel is that of
-- `str` on numbers, which is one more than the number n: n has at most n + 1 digits.
--
-- Parameters. `re_search` is Python's re.search. `hash` (of risk inputs), `sha256` (of evaluation
-- payloads and cases) and `evidence_hash` (of the evidence snapshot) stand for the hexadecimal SHA-256
-- of the canonical JSON; a payload is a structured value. No theorem assumes anything of them. The
-- list of rules of a gate is an argument; the theorems take the modelled rules in the order of
-- registration, with any others between or after them. `strict` is requires_strict_structured_output, `persisted`
-- whether the record of the gate could be written. `action_hash` and `payload_hash` are the hashes of
-- an action and of its payload, `repr` is Python's repr of a text. `services` are the red-team, trace,
-- reviewed-output and review services that resolving an action calls; the theorems hold whatever they
-- do, except that the one on a second call under the same key asks that they neither lose nor reopen
-- the action. Of the graph's nodes (graph/nodes.py) only the states that they leave are stated, in
-- Advance/Coordinator/Complete.
--
-- Not modelled: the rules of the single stages except stage1_evidence_gap, stage2_policy_gap,
-- expert_review and risk_treatment, the services that an action's effects call, the traces and
-- wrappers of the advancement coordinator, the graph's runner and nodes, prompts and parsers of the
-- stages, language-model adapters, evaluation runners and judges, reports, storage, the HTTP
-- interface, login and the frontend. They are input and output, floating-point statistics, or
-- services around the modelled core. Messages, titles, metadata and log records are left out where
-- nothing modelled reads them.

pub mod Prelude
pub mod Dict
pub mod Model
pub mod Risk
pub mod Workflow
pub mod Stage
pub mod Gates
pub mod Advance
pub mod Actions
pub mod Release
pub mod Samples
