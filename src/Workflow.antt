-- ===== src/Workflow.antt =====
-- core/workflow_state_service.py: blocked states, failing closed, and explicit recovery.
pub mod State
pub mod Recovery
