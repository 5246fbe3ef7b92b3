-- ===== src/Gates.antt =====
-- core/gates and the blockers of core/stage_readiness_service.py: the rules of a stage gate and the
-- engine that runs them.
pub mod Blocker
pub mod Manifest
pub mod Basic
pub mod Engine
pub mod Fail
pub mod BottomLine
pub mod Keep
pub mod Claims
pub mod Ready
pub mod Verdict
pub mod Policy
pub mod Resolution
pub mod Approver
pub mod Expert
