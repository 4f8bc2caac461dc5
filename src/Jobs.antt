-- ===== src/Jobs.antt =====
-- The transient job manager (src/workers/job_manager.py): its state, its operations, and schedules.
pub mod State
pub mod Callbacks
pub mod Manager
pub mod Schedule
pub mod Invariant
pub mod Sound
pub mod Fate
pub mod Views
pub mod Live
pub mod Verdict
mod Tests
