-- ===== src/Bars.antt =====
-- Bar sizes and the limits on intraday windows (engine/data/bar_interval.py).
pub mod Interval
pub mod Weekdays
mod Tests
