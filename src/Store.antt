-- ===== src/Store.antt =====
-- Where the source of uploaded strategies is kept (src/integrations/strategy_store.py).
pub mod Names
pub mod Paths
pub mod Bucket
pub mod Objects
pub mod Sweep
pub mod Raises
pub mod Errors
pub mod Materialize
pub mod Apart
pub mod Disk
pub mod Alike
pub mod Segments
mod Tests
mod DiskTests
