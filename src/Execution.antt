-- ===== src/Execution.antt =====
-- internal/execution: it claims due targets, hands out crawl tasks, and records their completion.
pub mod Options
pub mod Interval
pub mod Services
pub mod Store
pub mod Types
pub mod Specs
pub mod Dispatch
pub mod Cron
pub mod Complete
pub mod Running
