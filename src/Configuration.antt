-- ===== src/Configuration.antt =====
-- The configuration of a run (config/): the catalog of runtimes and the composed configuration.
pub mod Catalog
pub mod Models
pub mod Environment
pub mod Resolver
pub mod Tests
