-- ===== src/Examples.antt =====
-- The programs under examples/ that build data structures of managed objects.
pub mod Balloon
mod Tests
