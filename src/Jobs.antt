-- ===== src/Jobs.antt =====
-- Jobs of the job-service: their uploads' claims, and the tools.
pub mod Claims
pub mod Tools
pub mod Consume
pub mod Access
pub mod Create
pub mod Cleanup
