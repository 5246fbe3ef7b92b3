-- ===== src/Advance.antt =====
-- From a gate's verdict to the next stage: which stages count (core/stage_scope_service.py), what each
-- blocker asks for (core/stage_advancement_contract.py, core/stage_resolution_service.py), and the one
-- place that moves a session on (core/stage_advancement_coordinator.py).
pub mod Scope
pub mod Contract
pub mod Operations
pub mod Offers
pub mod Coordinator
pub mod Readiness
