-- ===== src/Jobs/Sound.antt =====
-- The invariant of the job manager (src/workers/job_manager.py), kept by every step.
pub mod Base
pub mod Requests
pub mod Workers
pub mod Shutdown
pub mod Run
