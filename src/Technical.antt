-- ===== src/Technical.antt =====
-- The numbers of the dashboard's indicators (src/services/technical_indicators.py).
pub mod Averages
pub mod Strength
pub mod Rsi
mod Tests
