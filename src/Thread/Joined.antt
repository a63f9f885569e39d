-- ===== src/Thread/Joined.antt =====
-- A program from its start to the end of the collector thread, with the mature heap `ParHeap` and
-- the logger `DefaultLogger`.
use mathlib.Core.List.{map}
use mo_gc.Common.{ℕ, ◌≤◌, ◌<◌, ◌≡◌, true, some, List, [], length}
use mo_gc.AppThread.Spawn.{spawn_from_gc}
use mo_gc.Heap.Object.{TraitObject, Object}
use mo_gc.Heap.ObjectMeta.{ObjectMeta}
use mo_gc.Heap.RootMeta.{RootMeta}
use mo_gc.Journal.Buffer.Capacity.{IsCapacity}
use mo_gc.Journal.Chain.{Represents}
use mo_gc.Journal.Memory.{BufferQueue}
use mo_gc.Mature.Roots.{par_heap-MarksRoots}
use mo_gc.Statistics.{default_logger, new_logger}
use mo_gc.Thread.{Turns}
use mo_gc.Thread.Ends.{quiet}
use mo_gc.Thread.Handle.{spawn_gc_with, spawn, first_journal, join, new_par_heap, spawn_gc}
use mo_gc.Thread.WholeRun.{first_state, gc_thread_returns}
use mo_gc.Thread.Drain.{iterations_needed}
use mo_gc.Thread.Finishing.{AllFinish}
use mo_gc.Thread.Iteration.{State}
use mo_gc.Thread.OneJournal.{one_queue}
use mo_gc.Trie.{Trie}
use mo_gc.Young.Balance.{AllLawful}
use mo_gc.Young.Heap.{par_heap}
use mo_gc.Young.Mark.Reach.{ByAddress}

module _ (t : Trie RootMeta) (h : Trie ObjectMeta) (trace : TraitObject → List TraitObject)
    (by : ByAddress trace) {Time : Type 0} where
  abbrev pub first_log : Time → (default_logger Time).Log
  unfolding default_logger
  first_log epoch = new_logger epoch

  -- The state in which the loop of the collector thread begins, with this journal.
  abbrev pub begins :
      (cores : ℕ)
      → Time
      → Time
      → BufferQueue Object
      → State t trace (par_heap t h trace cores) (default_logger Time)
  begins cores epoch start_time journal =
      first_state t trace (par_heap t h trace cores) (default_logger Time) cores journal
        (new_par_heap t h trace cores) (first_log epoch) start_time

  -- The collector thread is started with its defaults on a machine with at least one core, and one
  -- application thread with it, which has written lawful entries and hung up before the collector
  -- thread begins; tracing is by address. The join then returns the logger, whatever turns the jobs
  -- take that come to their ends.
  pub join_returns :
      {cap : ℕ} (cores : ℕ) (epoch start_time end_time : Time)
      (written : BufferQueue Object → BufferQueue Object) (entries : List Object)
      (turns : List Turns) (last : Turns)
      → let gc =
          spawn t trace
            (par_heap t h trace cores)
            (default_logger Time)
            (spawn_gc t h trace cores epoch) in
        0 < cores
        → IsCapacity cap
        → Represents cap (written gc.1) entries
        → (written gc.1).hup ≡ true
        → AllLawful t (λ k. 0) (record { entry_count = 0; roots = t.new; deferred = [] }) entries
        → iterations_needed (one_queue entries) ≤ length turns
        → AllFinish t trace
            (par_heap t h trace cores)
            (default_logger Time)
            (begins cores epoch start_time (written gc.1))
            turns
            last
        → (result : (default_logger Time).Log) × (join t trace
              (par_heap t h trace cores)
              (default_logger Time)
              gc.0
              written
              (map quiet turns)
              last
              start_time
              end_time
            ≡ some result)
  unfolding join spawn spawn_gc spawn_gc_with spawn_from_gc first_journal
  join_returns cores epoch start_time end_time written entries turns last pos k r hup lawful enough
        finish =
      gc_thread_returns t trace (par_heap t h trace cores) (default_logger Time) by
        (par_heap-MarksRoots t h trace cores) cores _ entries (new_par_heap t h trace cores)
        (first_log epoch) start_time turns last end_time pos k r hup lawful enough finish
