-- ===== src/Pairing.antt =====
-- FIFO pairing of engine fills into round trips (src/services/trade_pairing.py).
pub mod Fill
pub mod Match
pub mod Loop
pub mod Shares
pub mod Fifo
pub mod Books
pub mod Position
pub mod Sides
pub mod Profit
pub mod Report
pub mod Input
mod Tests
