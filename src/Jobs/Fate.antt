-- ===== src/Jobs/Fate.antt =====
-- What may become of one job in a step of the job manager (src/workers/job_manager.py).
pub mod Base
pub mod Reports
pub mod Steps
pub mod Events
pub mod Promises
