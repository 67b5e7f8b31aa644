-- ===== src/Hf.antt =====
-- The locked revisions and the targets of a run (hf/).
pub mod Revisions
pub mod Targets
