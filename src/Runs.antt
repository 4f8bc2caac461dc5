-- ===== src/Runs.antt =====
-- The table of runs (src/repositories/runs.py) and the statements of its workers.
pub mod Table
pub mod Worker
pub mod Claim
pub mod Reconcile
pub mod Wanted
pub mod Listing
pub mod Heartbeat
pub mod Outcome
pub mod Metrics
pub mod Tally
pub mod Daily
pub mod Days
pub mod Job
pub mod Ends
mod Tests
mod JobTests
