-- ===== src/Thread/WholeRun.antt =====
-- `gc_thread` from beginning to end.
use mathlib.Core.List.{map}
use mo_gc.Common.{ℕ, ◌≤◌, ◌<◌, ◌≡◌, refl, sym, subst, true, some, List, [], ◌∷◌, length, arith}
use mo_gc.Heap.Object.{TraitObject, Object}
use mo_gc.Heap.RootMeta.{RootMeta}
use mo_gc.Journal.Memory.{BufferQueue}
use mo_gc.Statistics.{StatsLogger}
use mo_gc.Thread.{Turns, gc_thread}
use mo_gc.Thread.Drain.{iterations_needed}
use mo_gc.Thread.Ends.{quiet, loop_ends}
use mo_gc.Thread.Finishing.{AllFinish, served-AllFinish, finishing-AllServed}
use mo_gc.Thread.Iteration.{State, IsGood}
use mo_gc.Trie.{Trie}
use mo_gc.Young.Balance.{IsBalanced, AllLawful}
use mo_gc.Young.Heap.{CollectOps, new, add_journal}
use mo_gc.Journal.Buffer.Capacity.{IsCapacity}
use mo_gc.Journal.Chain.{Represents}
use mo_gc.Young.Heap.Moves.{MarksRoots}
use mo_gc.Young.Mark.Reach.{ByAddress}
use mo_gc.Young.Read.Entries.{no_more, one_more}
use mo_gc.Thread.Courses.{all_entries, first_reading, some_course}
use mo_gc.Thread.OneJournal.{one_queue, all_entries-one}

module _ (t : Trie RootMeta) (trace : TraitObject → List TraitObject) (mature : CollectOps t)
    {Time : Type 0} (logger : StatsLogger Time) where
  -- The state in which the loop begins.
  abbrev pub first_state :
      ℕ → BufferQueue Object → mature.Heap → logger.Log → Time → State t trace mature logger
  first_state num_threads first heap log start_time = record {
    heap = record {
      num_threads = num_threads;
      journals = first ∷ [];
      roots = t.new;
      deferred = [];
      mature_heap = heap;
      log = logger.mark_start_time start_time log;
    };
    sleep_dur = 0;
  }

  pub empty-IsBalanced : IsBalanced t t.new [] (λ k. 0)
  empty-IsBalanced = record {
    ready = record {
      short = λ k m h. let none_there = t.get-new k in cc;
      valid = λ k m h. let none_there = t.get-new k in cc;
      clean = λ k m h. let none_there = t.get-new k in cc;
    };
    counted = λ k m h. let none_there = t.get-new k in cc;
    known = λ k h. absurd (omega arith);
  }

  module _ (by : ByAddress trace) (lawful_heap : MarksRoots t mature) (num_threads : ℕ)
      (first : BufferQueue Object) (entries : List Object) (heap : mature.Heap) (log : logger.Log)
      (start_time : Time) where
    abbrev pub begun : State t trace mature logger
    begun = first_state num_threads first heap log start_time

    abbrev pub WrittenLawful : Type 0
    WrittenLawful = AllLawful t (λ k. 0) (first_reading t trace mature logger begun) entries

    -- The entries of the one journal are those of its iterations.
    all-lawful :
        (n : ℕ)
        → iterations_needed (one_queue entries) ≤ n
        → WrittenLawful
        → AllLawful t
            (λ k. 0)
            (first_reading t trace mature logger begun)
            (all_entries t trace mature logger n (one_queue entries))
    all-lawful n enough lawful =
        subst (AllLawful t (λ k. 0) (first_reading t trace mature logger begun))
          (sym (all_entries-one t trace mature logger n entries enough)) lawful

    -- There are turns with which all jobs end, for as many iterations as one likes.
    pub some_turns :
        {cap : ℕ} (n : ℕ)
        → iterations_needed (one_queue entries) ≤ n
        → 0 < num_threads
        → IsCapacity cap
        → Represents cap first entries
        → first.hup ≡ true
        → WrittenLawful
        → (turns : List Turns) × (last : Turns) × (n ≤ length turns)
          × AllFinish t trace mature logger begun turns last
    some_turns n enough pos k r hup lawful =
        let (turns, last, course, long) =
          some_course t trace mature logger by lawful_heap n begun (λ k. 0) (one_queue entries)
            (record { pos = pos; balanced = empty-IsBalanced }) (one_more k r hup no_more)
            (refl, tt) enough (all-lawful n enough lawful) in
        (
          turns,
          last,
          long,
          served-AllFinish t trace mature logger turns begun (λ k. 0) (one_queue entries) last
              course,
        )

    -- A run from beginning to end. An application thread has written entries that are lawful (for a
    -- collector that knows of no roots yet) and has hung up before the collector thread begins,
    -- which has at least one thread for its jobs; tracing is by address, and the mature heap only
    -- marks roots with a positive count. Then `gc_thread` does not panic: whatever turns the jobs
    -- take in `iterations_needed` iterations or more, as long as those of every minor collection
    -- come to their ends, it returns its log.
    pub gc_thread_returns :
        {cap : ℕ} (turns : List Turns) (last : Turns) (end_time : Time)
        → 0 < num_threads
        → IsCapacity cap
        → Represents cap first entries
        → first.hup ≡ true
        → AllLawful t (λ k. 0) (first_reading t trace mature logger begun) entries
        → iterations_needed (one_queue entries) ≤ length turns
        → AllFinish t trace mature logger begun turns last
        → (result : logger.Log) × (gc_thread t trace mature logger num_threads first heap log
              (map quiet turns)
              last
              start_time
              end_time
            ≡ some result)
    unfolding gc_thread new add_journal
    gc_thread_returns turns last end_time pos k r hup lawful enough finish =
        let good : IsGood t trace mature logger begun (λ k. 0) = record {
          pos = pos;
          balanced = empty-IsBalanced;
        } in
        let journals = one_more k r hup no_more in
        loop_ends t trace mature logger by lawful_heap last end_time turns begun (λ k. 0)
          (one_queue entries) good journals (refl, tt) enough
          (finishing-AllServed t trace mature logger by lawful_heap turns begun (λ k. 0)
            (one_queue entries) last good journals (refl, tt)
            (all-lawful (length turns) enough lawful) finish)
