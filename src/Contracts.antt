-- ===== src/Contracts.antt =====
-- The typed contracts of a run (contracts.py, contract_io.py, generated_candidate_io.py).
pub mod Strip
pub mod Checks
pub mod Revisions
pub mod Candidate
pub mod Context
pub mod Tests
