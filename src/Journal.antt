-- ===== src/Journal.antt =====
-- src/journal.rs: the queue from one mutator to the collector, a chain of one-shot buffers.
pub mod Cells
pub mod Memory
pub mod Buffer
pub mod Queue
pub mod Chain
pub mod Send
pub mod Recv
pub mod Disconnect
pub mod Release
pub mod Race
pub mod Trace
mod Tests
