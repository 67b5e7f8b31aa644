-- ===== src/Datasets.antt =====
-- The evaluation datasets: records, manifests, and the choice of samples.
pub mod Models
pub mod Rows
pub mod Resolver
pub mod Selection
pub mod Resolution
pub mod Conversion
mod Tests
