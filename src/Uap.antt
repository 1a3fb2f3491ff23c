-- ===== src/Uap.antt =====
-- internal/uap: it parses the raw batches that the crawlers deliver, publishes their records and
-- stores them in chunks.
pub mod Types
pub mod Store
pub mod Lines
pub mod Records
pub mod Batch
