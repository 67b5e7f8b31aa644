-- ===== src/Evaluation/Capsule.antt =====
-- The experiment capsule: the rows of run.parquet, their writer and their reader.
pub mod Artifact
pub mod Rows
pub mod Reader
mod Tests
