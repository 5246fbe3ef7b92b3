-- ===== src/Model.antt =====
-- core/models.py and core/risk/models.py: the enumerations, the records of a session and the
-- session context that every service reads and updates.
pub mod Enums
pub mod Records
pub mod Evaluation
pub mod Context
