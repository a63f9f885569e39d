-- ===== src/Thread/Ends.antt =====
-- The collector thread comes to its end once the application threads have hung up.
use mathlib.Core.List.{map}
use mo_gc.Common.{
  ℕ, ◌≤◌, ◌≡◌, ◌≢◌, refl, ◌∙◌, false, none, some, List, [], ◌∷◌, ◌==◌, length, arith,
}
use mo_gc.Heap.Object.{TraitObject, Object}
use mo_gc.Heap.RootMeta.{RootMeta}
use mo_gc.Journal.Memory.{BufferQueue}
use mo_gc.Statistics.{StatsLogger}
use mo_gc.Thread.{Arrival, Turns, iteration, finish, loop}
use mo_gc.Thread.Drain.{HungUp, iterations_needed, after, after-HungUp, after-needed}
use mo_gc.Thread.Iteration.{State, Finishes, IsGood, IsServed, entries_read, iteration_lem}
use mo_gc.Trie.{Trie}
use mo_gc.Young.Balance.{act_all}
use mo_gc.Young.Heap.{CollectOps, num_journals, major_collection}
use mo_gc.Young.Heap.Balance.{minor_collection-IsBalanced}
use mo_gc.Young.Heap.Moves.{MarksRoots}
use mo_gc.Young.Mark.Reach.{ByAddress}
use mo_gc.Young.Read.Entries.{Queue, Journals, no_more, one_more}

-- No thread has connected or written by this iteration.
abbrev pub quiet : Turns → Arrival
quiet turns = record { connected = none; written = λ journals. journals; turns = turns }

pub no_queues : (js : List (BufferQueue Object)) → Journals js [] → js ≡ []
no_queues js no_more = refl

pub some_queue :
    (js : List (BufferQueue Object)) (q : Queue) (queues : List Queue)
    → Journals js (q ∷ queues)
    → (length js == 0) ≡ false
some_queue js q queues (one_more k r e rest) = ground arith

module _ (t : Trie RootMeta) (trace : TraitObject → List TraitObject) (mature : CollectOps t)
    {Time : Type 0} (logger : StatsLogger Time) where
  -- The final collection gets its turns.
  abbrev pub IsClosed : State t trace mature logger → Turns → Type 0
  IsClosed s last =
      s.heap.journals ≡ []
      → Finishes t trace mature logger s.heap.roots s.heap.deferred s.heap.num_threads last

  -- Every iteration of a course is served, from journals that hold these queues, and so is the
  -- final collection whenever no journal is left.
  abbrev pub AllServed :
      State t trace mature logger → (ℕ → ℕ) → List Queue → List Turns → Turns → Type 0
  AllServed s live queues [] last = IsClosed s last
  AllServed s live queues (turns ∷ more) last =
      IsClosed s last
      × (s.heap.journals ≢ []
          → IsServed t trace mature logger s live (quiet turns) queues
            × ((s' : State t trace mature logger)
                → iteration t trace mature logger s (quiet turns) ≡ some s'
                → AllServed s' (act_all live (entries_read t trace mature logger queues))
                    (after t queues) more last))

  module _ (by : ByAddress trace) (lawful_heap : MarksRoots t mature) (last : Turns)
      (now : Time) where
    finish_lem :
        (s : State t trace mature logger) (live : ℕ → ℕ)
        → IsGood t trace mature logger s live
        → Finishes t trace mature logger s.heap.roots s.heap.deferred s.heap.num_threads last
        → (log : logger.Log) × (finish t trace mature logger s.heap last now ≡ some log)
    unfolding finish
    finish_lem s live good done =
        let (y', young, runs, deferred, threads, journals, b) =
          minor_collection-IsBalanced t trace mature logger by s.heap live good.balanced good.pos
            last.marking last.merging done.marked done.merged in
        (
          logger.mark_end_time now (major_collection t trace mature logger y' last.major).log,
          rw (finish, runs) refl,
        )

    closed :
        (s : State t trace mature logger) (turns : List Turns) (live : ℕ → ℕ) (queues : List Queue)
        → AllServed s live queues turns last
        → IsClosed s last
    closed s [] live queues served = served
    closed s (u ∷ more) live queues served = served.0

    loop_done :
        (s : State t trace mature logger) (arrivals : List Arrival)
        → s.heap.journals ≡ []
        → loop t trace mature logger s arrivals last now
          ≡ finish t trace mature logger s.heap last now
    unfolding loop num_journals
    loop_done s [] none_left = rw none_left refl
    loop_done s (a ∷ arrivals) none_left = rw none_left refl

    -- The collector thread ends. From a state in which the counts are in balance with the roots of
    -- the application, every sender has hung up and no thread connects any more, where the entries
    -- that are left are lawful, the jobs get the turns that they need, tracing is by address and the
    -- mature heap only marks roots that have a positive count: the loop returns the log within
    -- `iterations_needed` iterations, which is one more than the number of times that an iteration
    -- reads its most from the longest journal.
    pub loop_ends :
        (turns : List Turns) (s : State t trace mature logger) (live : ℕ → ℕ) (queues : List Queue)
        → IsGood t trace mature logger s live
        → Journals s.heap.journals queues
        → HungUp queues
        → iterations_needed queues ≤ length turns
        → AllServed s live queues turns last
        → (log : logger.Log) × (loop t trace mature logger s (map quiet turns) last now ≡ some log)
    unfolding loop num_journals
    loop_ends turns s live [] good journals hung_up enough served =
        let none_left = no_queues s.heap.journals journals in
        let (log, ends) = finish_lem s live good (closed s turns live [] served none_left) in
        (log, loop_done s (map quiet turns) none_left ∙ ends)
    loop_ends [] s live (q ∷ queues) good journals hung_up enough served = absurd (omega arith)
    loop_ends (u ∷ more) s live (q ∷ queues) good journals hung_up enough served =
        let going = some_queue s.heap.journals q queues journals in
        let (here, later) = served.1 (λ none_left. let bad = rw none_left at going in cc) in
        let (s', runs, good', journals', none_off) =
          iteration_lem t trace mature logger by lawful_heap s live (quiet u) (q ∷ queues) good
            here in
        let (log, ends) =
          loop_ends more s' (act_all live (entries_read t trace mature logger (q ∷ queues)))
            (after t (q ∷ queues)) good' journals' (after-HungUp t (q ∷ queues) hung_up)
            (omega (arith, after-needed t (q ∷ queues) hung_up)) (later s' runs) in
        (log, rw (going, runs) ends)
