-- ===== src/Gate.antt =====
-- The point-in-time news-sentiment gate (engine/core/sentiment_gate.py).
pub mod Score
pub mod Window
pub mod Blocks
mod Tests
