-- ===== src/Controls.antt =====
-- The run form's execution controls (src/services/run_controls.py).
pub mod Validate
pub mod Fast
pub mod Allocation
mod Tests
