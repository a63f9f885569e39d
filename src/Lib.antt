-- ===== src/Lib.antt =====
-- mo-gc, a garbage collector in Rust: application threads send reference count changes through
-- journals to a collector thread, which keeps a map of roots and new objects, marks and sweeps
-- the young generation in a pool of threads, and moves survivors to a mature heap.
--
-- Journal models src/journal.rs. Journal/Memory has the buffers at their addresses, the queue
-- and its two ends, and commands that run on them; an access through a dangling pointer, past
-- the end of a buffer or to a slot that was never written is a fault. Journal/Buffer has the
-- operations of Buffer, Journal/Queue those of BufferQueue, Sender, Receiver and EmptyIter. The
-- two ends run one whole operation at a time, but for the reads of Journal/Race. A number is a
-- usize of 64 bits whose additions wrap around, and so does the size of an allocation, for
-- which a journal is made with the size of its items. The fuel is 2 for a write (it makes one
-- buffer at most), the number of items left and one more for the loop of Buffer::drop, and the
-- next unused address for that of BufferQueue::drop. Journal/Chain says what items a memory
-- holds, Journal/Send, Journal/Recv and Journal/Disconnect what each operation does to them,
-- Journal/Trace what a whole journal does, Journal/Race what a read does between whose two
-- steps the sender has run, Journal/Release what is left of it. Journal/Cells has the shared
-- cells.
--
-- Heap models src/heap.rs, and ptr_shift of src/gcthread.rs: Heap/Object, Heap/RootMeta,
-- Heap/ObjectMeta and Heap/TraceStack are the types of the same names with their operations. A
-- cell that the source changes in place is a record that an operation returns. Constants has
-- the constants of src/constants.rs.
--
-- Trie is the interface of the crate bitmaptrie, which is not part of the repository: a map
-- from keys, with the keys of its shards. Trie/Assoc is an instance of it, an association list;
-- Trie/Fold has the passes over the shards that the sweeps of both heaps make, Trie/Tally what
-- such a pass counts.
--
-- Young models src/youngheap.rs. Young/Mark is YoungHeap::mark: one job for each shard, and a
-- schedule that gives the jobs their turns; a turn is one read or one write of the shared map,
-- so that the jobs interleave in every way. Young/Sweep is YoungHeap::sweep, one shard after
-- the other, since shards have no key in common; Young/Minor runs the two one after the other.
-- Young/Deferred is YoungHeap::merge_deferred, jobs that interleave at their atomic decrements;
-- the fuel of its chunks is the number of items. Young/Heap has the state of YoungHeap,
-- minor_collection and major_collection, and CollectOps of src/heap.rs, through which it calls
-- the mature heap. Young/Read is YoungHeap::read_journals. The Trace implementations of client
-- types are a parameter, a function from an object to the pointers that it pushes; it may
-- depend on the object's address and not on its vtable pointer.
--
-- Mature models src/parheap.rs: ParHeap::mark with its interleaved jobs, ParHeap::sweep,
-- add_object and collect. Statistics has the trait StatsLogger of src/statistics.rs and
-- DefaultLogger, Statistics/Dump the figures that it prints. Thread is the loop of gc_thread in
-- src/gcthread.rs: what the other threads have done by each iteration is a list that the loop
-- takes one element of. Thread/Handle is GcThread. What the collector owes to an application is
-- said by Young/Balance: each count is the number of the roots that the entries read so far
-- have left on the object, and of the decrements put off. Young/Balance/Read is about the
-- reading of lawful entries, Young/Heap/Balance and Young/Heap/Moves about the two kinds of
-- collection; MarksRoots is what the young heap relies on in the mature heap, with Mature/Roots
-- for ParHeap. Thread/Iteration is about one iteration of the loop, Thread/Ends,
-- Thread/WholeRun and Thread/Joined about the whole run, with Thread/Schedules for the turns of
-- the jobs, Thread/Finishing for what the pool of threads sees to, and Thread/Drain for the
-- number of iterations. AppThread models src/appthread.rs: the pointer types and the journal
-- entries that they write, for a type that is its two vtables and what its `traversible`
-- returns; AppThread/Values is the access to the values, AppThread/Spawn the start of an
-- application thread, Trace the trait of src/trace.rs. AppThread/Program has the operations of
-- a thread as a sequence, AppThread/Owned what their entries are to the collector,
-- Thread/Programs their run together with it. Examples/Balloon has the rings of
-- examples/balloon_animals.rs, whose fuel is the number of twists; what the collector has done
-- to the boxes meanwhile is an argument.
--
-- Not modelled: the interleaving of the two ends of a journal inside of the sender's
-- operations; failure of an allocation; the scheduling of threads, printing and the clock. The
-- memory of a journal that read_journals removes from its list is no longer followed.
pub mod AppThread
pub mod Common
pub mod Constants
pub mod Heap
pub mod Mature
pub mod Statistics
pub mod Thread
pub mod Journal
pub mod Trie
pub mod Young
pub mod Trace
pub mod Examples
