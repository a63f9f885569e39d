-- ===== src/Thread/Finishing.antt =====
-- What the pool of threads sees to: every job of a minor collection comes to its end, whatever turns
-- the jobs take. `pool.scoped` of src/youngheap.rs returns when its jobs have.
use mathlib.Core.Option.{some-injective}
use mo_gc.Common.{ℕ, ◌≤◌, ◌≡◌, ◌≢◌, sym, ap, ◌∙◌, subst, some, List, [], ◌∷◌, length, arith}
use mo_gc.Heap.Object.{TraitObject}
use mo_gc.Heap.RootMeta.{RootMeta}
use mo_gc.Statistics.{StatsLogger}
use mo_gc.Thread.{Turns, iteration, connect}
use mo_gc.Thread.Courses.{all_entries, first_reading}
use mo_gc.Thread.Drain.{HungUp, after, after-HungUp}
use mo_gc.Thread.Ends.{quiet, IsClosed, AllServed}
use mo_gc.Thread.Iteration.{
  State, Heap, Finishes, IsGood, IsServed, at_hand, entries_read, iteration_lem,
}
use mo_gc.Trie.{Trie}
use mo_gc.Young.Balance.{act_all, AllLawful}
use mo_gc.Young.Balance.Lawful.{AllLawful-append, AllLawful-Fewer}
use mo_gc.Young.Deferred.Chunks.{occurrences}
use mo_gc.Young.Heap.{CollectOps}
use mo_gc.Young.Heap.Moves.{MarksRoots}
use mo_gc.Young.Mark.Reach.{ByAddress}
use mo_gc.Young.Read.{read_journals}
use mo_gc.Young.Read.Entries.{Queue, Journals, read_all, read_journals-refines}

module _ (t : Trie RootMeta) (trace : TraitObject → List TraitObject) (mature : CollectOps t)
    {Time : Type 0} (logger : StatsLogger Time) where
  -- The turns of an iteration end the jobs of its minor collection, whatever its reading gives.
  abbrev pub IterationFinishes : State t trace mature logger → Turns → Type 0
  IterationFinishes s turns =
      (y : Heap t trace mature logger) (n : ℕ)
      → read_journals t trace mature logger (at_hand t trace mature logger s (quiet turns))
        ≡ some (y, n)
      → Finishes t trace mature logger y.roots y.deferred y.num_threads turns

  -- So do the turns of each iteration that is made while journals are left, and those of the final
  -- collection.
  abbrev pub AllFinish : State t trace mature logger → List Turns → Turns → Type 0
  AllFinish s [] last = IsClosed t trace mature logger s last
  AllFinish s (turns ∷ more) last =
      IsClosed t trace mature logger s last
      × (s.heap.journals ≢ []
          → IterationFinishes s turns
            × ((s' : State t trace mature logger)
                → iteration t trace mature logger s (quiet turns) ≡ some s'
                → AllFinish s' more last))

  -- A course that is served is one in which all jobs end.
  pub served-AllFinish :
      (turns : List Turns) (s : State t trace mature logger) (live : ℕ → ℕ) (queues : List Queue)
      (last : Turns)
      → AllServed t trace mature logger s live queues turns last
      → AllFinish s turns last
  unfolding connect
  served-AllFinish [] s live queues last served = served
  served-AllFinish (u ∷ more) s live queues last (closed, served) = (
    closed,
    λ going.
        let (here, later) = served going in
        (
          λ y n reads.
              let (js, runs, left) =
                read_journals-refines t trace mature logger
                  (at_hand t trace mature logger s (quiet u)) queues here.arrived in
              let same =
                ap (λ (p : Heap t trace mature logger × ℕ). p.0)
                  (some-injective _ _ (sym runs ∙ reads)) in
              subst
                (λ (y : Heap t trace mature logger).
                  Finishes t trace mature logger y.roots y.deferred y.num_threads u)
                same here.finishes,
          λ s' runs.
              served-AllFinish more s' (act_all live (entries_read t trace mature logger queues))
                (after t queues) last (later s' runs),
        ),
  )

  module _ (by : ByAddress trace) (lawful_heap : MarksRoots t mature) where
    -- A course in which all jobs end is served, if what there is to read is lawful.
    pub finishing-AllServed :
        (turns : List Turns) (s : State t trace mature logger) (live : ℕ → ℕ) (queues : List Queue)
        (last : Turns)
        → IsGood t trace mature logger s live
        → Journals s.heap.journals queues
        → HungUp queues
        → AllLawful t live
            (first_reading t trace mature logger s)
            (all_entries t trace mature logger (length turns) queues)
        → AllFinish s turns last
        → AllServed t trace mature logger s live queues turns last
    unfolding connect
    finishing-AllServed [] s live queues last good journals hung_up lawful finish = finish
    finishing-AllServed (u ∷ more) s live queues last good journals hung_up lawful
          (closed, finish) =
        (
          closed,
          λ going.
              let (ends, later) = finish going in
              let entries = entries_read t trace mature logger queues in
              let (now, rest) =
                AllLawful-append t entries
                  (all_entries t trace mature logger (length more) (after t queues)) live
                  (first_reading t trace mature logger s) lawful in
              let (js, reads, left) =
                read_journals-refines t trace mature logger
                  (at_hand t trace mature logger s (quiet u)) queues journals in
              let here : IsServed t trace mature logger s live (quiet u) queues = record {
                arrived = journals;
                lawful = now;
                finishes = ends _ _ reads;
              } in
              (
                here,
                λ s' runs'.
                    let (s1, runs, good1, journals1, none_off) =
                      iteration_lem t trace mature logger by lawful_heap s live (quiet u) queues
                        good here in
                    let fewer : (k : ℕ)
                        → occurrences k (first_reading t trace mature logger s1).deferred
                          ≤ occurrences k
                              (read_all t (first_reading t trace mature logger s)
                                entries).deferred =
                      λ k. omega (arith, ap (occurrences k) none_off) in
                    subst
                      (λ s'.
                        AllServed t trace mature logger s' (act_all live entries) (after t queues)
                          more last)
                      (some-injective _ _ (sym runs ∙ runs'))
                      (finishing-AllServed more s1 (act_all live entries) (after t queues) last
                        good1 journals1 (after-HungUp t queues hung_up)
                        (AllLawful-Fewer t
                          (all_entries t trace mature logger (length more) (after t queues))
                          (act_all live entries)
                          (read_all t (first_reading t trace mature logger s) entries)
                          (first_reading t trace mature logger s1) fewer rest)
                        (later s1 runs)),
              ),
        )
