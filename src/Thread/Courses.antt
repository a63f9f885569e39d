-- ===== src/Thread/Courses.antt =====
-- From lawful entries alone: turns with which every job of every minor collection comes to its end.
use mathlib.Core.Option.{some-injective}
use mo_gc.Common.{
  ℕ, zero, suc, ◌≤◌, ◌≡◌, refl, sym, ap, ◌∙◌, subst, List, [], ◌∷◌, ◌++◌, length, arith,
}
use mo_gc.Heap.Object.{TraitObject, Object}
use mo_gc.Heap.RootMeta.{RootMeta}
use mo_gc.Statistics.{StatsLogger}
use mo_gc.Thread.{Turns, connect}
use mo_gc.Thread.Drain.{HungUp, iterations_needed, after, after-HungUp, after-needed}
use mo_gc.Thread.Ends.{quiet, some_queue, no_queues, IsClosed, AllServed}
use mo_gc.Thread.Iteration.{State, IsGood, IsServed, entries_read, reading, iteration_lem}
use mo_gc.Thread.Schedules.{turns_in_order, turns_in_order-Finishes}
use mo_gc.Trie.{Trie}
use mo_gc.Young.Balance.{act_all, AllLawful}
use mo_gc.Young.Balance.Lawful.{AllLawful-append, AllLawful-Fewer}
use mo_gc.Young.Balance.Read.{read_all-IsBalanced}
use mo_gc.Young.Deferred.Chunks.{occurrences}
use mo_gc.Young.Heap.{CollectOps}
use mo_gc.Young.Heap.Moves.{MarksRoots}
use mo_gc.Young.Mark.Reach.{ByAddress}
use mo_gc.Young.Read.{Reading}
use mo_gc.Young.Read.Entries.{Queue, Journals, read_all}

abbrev no_turns : Turns
no_turns = record { marking = []; merging = []; major = [] }

abbrev idle_turns : ℕ → List Turns
idle_turns zero = []
idle_turns (suc n) = no_turns ∷ idle_turns n

length-idle_turns : (n : ℕ) → length (idle_turns n) ≡ n
length-idle_turns zero = refl
length-idle_turns (suc n) = ap suc (length-idle_turns n)

module _ (t : Trie RootMeta) (trace : TraitObject → List TraitObject) (mature : CollectOps t)
    {Time : Type 0} (logger : StatsLogger Time) where
  -- The entries of so many iterations, in the order in which they are read.
  abbrev pub all_entries : ℕ → List Queue → List Object
  all_entries zero queues = []
  all_entries (suc n) queues =
      entries_read t trace mature logger queues ++ all_entries n (after t queues)

  -- What is read before the first entry of an iteration.
  abbrev pub first_reading : State t trace mature logger → Reading t
  first_reading s = record { entry_count = 0; roots = s.heap.roots; deferred = s.heap.deferred }

  not_ended :
      (s : State t trace mature logger) (q : Queue) (queues : List Queue) (last : Turns)
      → Journals s.heap.journals (q ∷ queues)
      → IsClosed t trace mature logger s last
  not_ended s q queues last journals none_left =
      let there = some_queue s.heap.journals q queues journals in
      let bad = rw none_left at there in cc

  module _ (by : ByAddress trace) (lawful_heap : MarksRoots t mature) where
    -- With turns for the jobs of the collection that follows, the iteration is served.
    pub served :
        (s : State t trace mature logger) (live : ℕ → ℕ) (queues : List Queue)
        → IsGood t trace mature logger s live
        → Journals s.heap.journals queues
        → AllLawful t live (first_reading s) (entries_read t trace mature logger queues)
        → (turns : Turns) × IsServed t trace mature logger s live (quiet turns) queues
    unfolding connect
    served s live queues good journals lawful =
        let r = reading t trace mature logger s (quiet no_turns) queues in
        let b =
          read_all-IsBalanced t (entries_read t trace mature logger queues) (first_reading s) live
            good.balanced lawful in
        (
          turns_in_order t trace mature logger by r.roots r.deferred s.heap.num_threads,
          record {
            arrived = journals;
            lawful = lawful;
            finishes =
                turns_in_order-Finishes t trace mature logger by r.roots r.deferred
                  s.heap.num_threads good.pos b.ready.short;
          },
        )

    -- Where no journal is left no iteration is made.
    none_served :
        (s : State t trace mature logger) (live : ℕ → ℕ) (n : ℕ) (last : Turns)
        → s.heap.journals ≡ []
        → IsClosed t trace mature logger s last
        → AllServed t trace mature logger s live [] (idle_turns n) last
    none_served s live zero last none_left closed = closed
    none_served s live (suc n) last none_left closed = (closed, λ going. absurd (going none_left))

    pub some_course :
        (n : ℕ) (s : State t trace mature logger) (live : ℕ → ℕ) (queues : List Queue)
        → IsGood t trace mature logger s live
        → Journals s.heap.journals queues
        → HungUp queues
        → iterations_needed queues ≤ n
        → AllLawful t live (first_reading s) (all_entries n queues)
        → (turns : List Turns) × (last : Turns) × AllServed t trace mature logger s live queues
            turns last
          × (n ≤ length turns)
    some_course n s live [] good journals hung_up enough lawful = (
      idle_turns n,
      turns_in_order t trace mature logger by s.heap.roots s.heap.deferred s.heap.num_threads,
      none_served s live n _ (no_queues s.heap.journals journals) (λ none_left.
          turns_in_order-Finishes t trace mature logger by s.heap.roots s.heap.deferred
            s.heap.num_threads good.pos good.balanced.ready.short),
      omega (arith, length-idle_turns n),
    )
    some_course zero s live (q ∷ queues) good journals hung_up enough lawful = absurd (omega arith)
    some_course (suc n) s live (q ∷ queues) good journals hung_up enough lawful =
        let entries = entries_read t trace mature logger (q ∷ queues) in
        let (now, later) =
          AllLawful-append t entries (all_entries n (after t (q ∷ queues))) live (first_reading s)
            lawful in
        let (u, here) = served s live (q ∷ queues) good journals now in
        let (s1, runs, good1, journals1, none_off) =
          iteration_lem t trace mature logger by lawful_heap s live (quiet u) (q ∷ queues) good
            here in
        let fewer : (k : ℕ)
            → occurrences k (first_reading s1).deferred
              ≤ occurrences k (read_all t (first_reading s) entries).deferred =
          λ k. omega (arith, ap (occurrences k) none_off) in
        let shorter = after-needed t (q ∷ queues) hung_up in
        let (more, last, course, long) =
          some_course n s1 (act_all live entries) (after t (q ∷ queues)) good1 journals1
            (after-HungUp t (q ∷ queues) hung_up) (omega (arith, shorter))
            (AllLawful-Fewer t (all_entries n (after t (q ∷ queues))) (act_all live entries)
              (read_all t (first_reading s) entries) (first_reading s1) fewer later) in
        (
          u ∷ more,
          last,
          (
            not_ended s q queues last journals,
            λ going. (
              here,
              λ s' e.
                  subst
                    (λ s'.
                      AllServed t trace mature logger s' (act_all live entries)
                        (after t (q ∷ queues)) more last)
                    (some-injective _ _ (sym runs ∙ e)) course,
            ),
          ),
          omega (arith, long),
        )
