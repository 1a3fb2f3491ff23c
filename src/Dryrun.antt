-- ===== src/Dryrun.antt =====
-- internal/dryrun: what a dry run keeps of the artifact that a crawler delivers, and how its end is
-- recorded.
pub mod Sample
pub mod Store
pub mod Results
pub mod Types
pub mod Plan
pub mod Trigger
pub mod Complete
