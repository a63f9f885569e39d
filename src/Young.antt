-- ===== src/Young.antt =====
-- src/youngheap.rs: the young generation and the root reference counts.
pub mod Mark
pub mod Sweep
pub mod Balance
pub mod Minor
pub mod Samples
mod Tests
pub mod Deferred
pub mod Heap
pub mod Read
