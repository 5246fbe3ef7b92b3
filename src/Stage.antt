-- ===== src/Stage.antt =====
-- Stage versions, lineage, revision and rollback: core/stage_revision_service.py and
-- `supersede_actions_for_stage` of core/governance/action_resolution.py.
pub mod Supersede
pub mod Revision
pub mod Superseding
pub mod Lineage
pub mod Stale
pub mod Invalidation
