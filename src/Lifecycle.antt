-- ===== src/Lifecycle.antt =====
-- The lifecycle of a candidate request (scripts/ci): snapshots of its state and their choice.
pub mod Snapshot
pub mod States
pub mod Events
pub mod Accepted
pub mod Current
pub mod Choice
pub mod Timeline
mod Tests
