-- ===== src/Thread/Handle.antt =====
-- src/gcthread.rs, `GcThread`: the handle of the collector thread. What the thread was started with
-- stands for its computation, which `join` waits for.
use mo_gc.Common.{ℕ, Option, none, some, List, [], ◌∷◌}
use mo_gc.AppThread.Spawn.{JournalChannel, spawn_from_gc}
use mo_gc.Heap.Object.{TraitObject, Object}
use mo_gc.Heap.ObjectMeta.{ObjectMeta}
use mo_gc.Heap.RootMeta.{RootMeta}
use mo_gc.Journal.Memory.{BufferQueue}
use mo_gc.Statistics.{StatsLogger, default_logger, new_logger}
use mo_gc.Thread.{Arrival, Turns, gc_thread}
use mo_gc.Trie.{Trie}
use mo_gc.Young.Heap.{CollectOps, par_heap}

module _ (t : Trie RootMeta) (trace : TraitObject → List TraitObject) (mature : CollectOps t)
    {Time : Type 0} (logger : StatsLogger Time) where
  pub record GcThread : Type 0 where
    pub tx_chan : JournalChannel
    pub num_threads : ℕ
    pub mature_heap : mature.Heap
    pub log : logger.Log

  -- `GcThread::spawn_gc_with`
  unfoldable pub spawn_gc_with : ℕ → mature.Heap → logger.Log → GcThread
  spawn_gc_with num_threads heap log = record {
    tx_chan = [];
    num_threads = num_threads;
    mature_heap = heap;
    log = log;
  }

  -- `GcThread::spawn`: an application thread that journals to the collector thread.
  unfoldable pub spawn : GcThread → GcThread × BufferQueue Object
  unfolding spawn_from_gc
  spawn gc = let (tx, journal) = spawn_from_gc gc.tx_chan in (record gc { tx_chan = tx }, journal)

  -- `rx_chan.recv()`, the receipt of the first journal. The handle holds a sender until the join has
  -- returned, so that without any journal the wait has no end: `none`.
  unfoldable pub first_journal : JournalChannel → Option (BufferQueue Object × JournalChannel)
  first_journal [] = none
  first_journal (journal ∷ journals) = some (journal, journals)

  -- `GcThread::join`: waits for the collector thread, and returns its logger, or `none` where the
  -- thread panicked. What the application threads do meanwhile is an argument: what is written to
  -- the first journal before its receipt, and what has been done by each iteration.
  unfoldable pub join :
      GcThread
      → (BufferQueue Object → BufferQueue Object)
      → List Arrival
      → Turns
      → Time
      → Time
      → Option logger.Log
  unfolding first_journal
  join gc written arrivals last start_time end_time = elim (first_journal gc.tx_chan) [
    | none ↦ none
    | some (journal, journals) ↦
        gc_thread t trace mature logger gc.num_threads (written journal) gc.mature_heap gc.log
          arrivals last start_time end_time
  ]

module _ (t : Trie RootMeta) (h : Trie ObjectMeta) (trace : TraitObject → List TraitObject) where
  -- `ParHeap::new`
  unfoldable pub new_par_heap : (num_threads : ℕ) → (par_heap t h trace num_threads).Heap
  unfolding par_heap
  new_par_heap num_threads = h.new

  -- `GcThread::spawn_gc`, given the number of cores and the time that a logger starts with.
  unfoldable pub spawn_gc :
      {Time : Type 0} (cores : ℕ)
      → Time
      → GcThread t trace (par_heap t h trace cores) (default_logger Time)
  unfolding spawn_gc_with new_par_heap default_logger
  spawn_gc {Time} cores epoch =
      spawn_gc_with t trace (par_heap t h trace cores) (default_logger Time) cores
        (new_par_heap cores) (new_logger epoch)
