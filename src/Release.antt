-- ===== src/Release.antt =====
-- The evaluation version that evidence is bound to (core/evaluation_version.py), risk treatments
-- (core/risk_treatment_service.py), release evidence (core/release_evidence.py), release approval
-- (core/approval_service.py) and the release gate (core/release_gate_service.py).
pub mod Version
pub mod Treatment
pub mod Coverage
pub mod Evidence
pub mod Batch
pub mod Valid
pub mod Snapshot
pub mod Readiness
pub mod Approval
pub mod Decision
