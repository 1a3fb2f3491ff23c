-- ===== src/Repository.antt =====
-- internal/datasource/repository: the errors, the options and the PostgreSQL implementation.
pub mod Options
pub mod Sources
pub mod Targets
pub mod Modes
