-- ===== src/Scan.antt =====
-- Reading an uploaded strategy without running it (src/services/strategy_validation/scanning.py).
pub mod Tree
pub mod Rules
pub mod Classes
pub mod Issues
pub mod Contract
pub mod Check
pub mod Indicators
pub mod Sources
pub mod Distinct
pub mod Closure
pub mod Verdict
pub mod Told
mod Tests
