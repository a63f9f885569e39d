-- ===== src/Heap.antt =====
-- src/heap.rs: journal items, the metadata of an entry in either object map, the trace stack.
pub mod Object
pub mod RootMeta
pub mod ObjectMeta
pub mod TraceStack
mod Tests
