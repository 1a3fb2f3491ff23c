-- ===== src/Datasource.antt =====
-- internal/datasource: the use cases of data sources and crawl targets.
pub mod Types
pub mod Validate
pub mod Guards
pub mod Effects
pub mod Crud
pub mod Lifecycle
pub mod Readiness
pub mod Project
pub mod Targets
pub mod Dryrun
