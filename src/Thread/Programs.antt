-- ===== src/Thread/Programs.antt =====
-- Any program of one application thread that owns what it uses, from its start to the join of the
-- collector thread.
use mathlib.Core.List.{map}
use mo_gc.Journal.Buffer.Capacity.{next_power_of_two_le}
use mo_gc.Heap.Object.{object_size}
use mo_gc.Common.{ℕ, suc, ◌^◌, ◌<◌, ◌≡◌, refl, sym, subst, true, some, List, [], ◌∷◌, length, arith}
use mo_gc.AppThread.Owned.{entries_of-AllLawful}
use mo_gc.AppThread.Program.{Act, perform_all, entries_of, IsOwned, perform_all-append}
use mo_gc.AppThread.Spawn.{spawn_from_gc}
use mo_gc.Constants.{journal_buffer_size}
use mo_gc.Heap.Object.{TraitObject, Object}
use mo_gc.Heap.ObjectMeta.{ObjectMeta}
use mo_gc.Heap.RootMeta.{RootMeta}
use mo_gc.Journal.Buffer.{next_power_of_two}
use mo_gc.Journal.Buffer.Capacity.{IsCapacity, next_power_of_two-IsCapacity}
use mo_gc.Journal.Chain.{Represents}
use mo_gc.Journal.Memory.{BufferQueue, Run, ok, fault, out_of_fuel, Cmd, ◌>>◌}
use mo_gc.Journal.Queue.{make_journal, drop_sender}
use mo_gc.Journal.Send.{drop_sender-keeps}
use mo_gc.Journal.Trace.{make_journal-Sending}
use mo_gc.Statistics.{default_logger}
use mo_gc.Thread.{Turns}
use mo_gc.Thread.Ends.{quiet}
use mo_gc.Thread.Handle.{spawn, spawn_gc, join, new_par_heap}
use mo_gc.Thread.Joined.{first_log, begins, join_returns}
use mo_gc.Mature.Roots.{par_heap-MarksRoots}
use mo_gc.Thread.Finishing.{AllFinish}
use mo_gc.Thread.WholeRun.{some_turns}
use mo_gc.Trie.{Trie}
use mo_gc.Young.Heap.{par_heap}
use mo_gc.Young.Mark.Reach.{ByAddress}

-- The operations of a thread, at whose end its sender is dropped.
abbrev pub life : List Act → Cmd Object (Unit {0})
life acts = perform_all acts >> drop_sender

abbrev left_by : BufferQueue Object → Run Object (Unit {0}) → BufferQueue Object
left_by journal (ok done s) = s
left_by journal fault = journal
left_by journal out_of_fuel = journal

-- The journal that a thread leaves.
abbrev pub journal_of : List Act → BufferQueue Object → BufferQueue Object
journal_of acts journal = left_by journal (life acts journal)

size : IsCapacity (next_power_of_two journal_buffer_size)
size = next_power_of_two-IsCapacity journal_buffer_size (omega arith)

life_lem :
    (acts : List Act)
    → (s' : BufferQueue Object) × (life acts (make_journal object_size journal_buffer_size)
        ≡ ok tt s')
      × Represents (next_power_of_two journal_buffer_size) s' (entries_of acts)
      × (s'.hup ≡ true)
life_lem acts =
    let (s, runs, sending) = perform_all-append size acts (
      make_journal-Sending object_size journal_buffer_size (omega arith)
        (omega (arith, next_power_of_two_le journal_buffer_size (omega arith)))) in
    let (s', drops, shape, hup) = drop_sender-keeps size sending in
    (s', rw (runs, drops) refl, shape, hup)

length-entries_of : (acts : List Act) → length (entries_of acts) ≡ length acts
length-entries_of [] = refl
length-entries_of (a ∷ acts) = omega (arith, length-entries_of acts)

module _ (t : Trie RootMeta) (h : Trie ObjectMeta) (trace : TraitObject → List TraitObject)
    (by : ByAddress trace) {Time : Type 0} where
  -- Turns with which all jobs end, for what a program has left in its journal.
  pub program_turns :
      (cores : ℕ) (epoch start_time : Time) (acts : List Act)
      → 0 < cores
      → length acts < 2 ^ 64
      → IsOwned [] (λ k. 0) acts
      → (turns : List Turns) × (last : Turns) × (length acts < length turns)
        × AllFinish t trace
            (par_heap t h trace cores)
            (default_logger Time)
            (begins t h trace by cores epoch start_time
              (journal_of acts (make_journal object_size journal_buffer_size)))
            turns
            last
  program_turns cores epoch start_time acts pos few owned =
      let (s', runs, shape, hup) = life_lem acts in
      let left : journal_of acts (make_journal object_size journal_buffer_size) ≡ s' =
        rw runs refl in
      some_turns t trace (par_heap t h trace cores) (default_logger Time) by
        (par_heap-MarksRoots t h trace cores) cores _ (entries_of acts)
        (new_par_heap t h trace cores) (first_log t h trace by epoch) start_time (suc (length acts))
        (omega (arith, length-entries_of acts)) pos size
        (subst (λ s. Represents (next_power_of_two journal_buffer_size) s (entries_of acts))
          (sym left) shape)
        (subst (λ (s : BufferQueue Object). s.hup ≡ true) (sym left) hup)
        (entries_of-AllLawful t acts _ refl few owned)

  -- A program of one application thread that has run to its end and hung up before the collector
  -- thread, which was started with its defaults on a machine with at least one core, begins to
  -- collect. The thread makes fewer than 2 ^ 64 operations on its pointers: it allocates at aligned
  -- addresses where no object of its own was before, clones or loads roots only on its objects, and
  -- drops no root twice. Then its operations run without a fault; and, with tracing by address,
  -- whatever turns the jobs take, as long as those of every minor collection come to their ends and
  -- there are more iterations than operations, the collector thread does not panic: the join
  -- returns the logger.
  pub join_program :
      (cores : ℕ) (epoch start_time end_time : Time) (acts : List Act) (turns : List Turns)
      (last : Turns)
      → 0 < cores
      → length acts < 2 ^ 64
      → IsOwned [] (λ k. 0) acts
      → let gc =
          spawn t trace
            (par_heap t h trace cores)
            (default_logger Time)
            (spawn_gc t h trace cores epoch) in
        length acts < length turns
        → AllFinish t trace
            (par_heap t h trace cores)
            (default_logger Time)
            (begins t h trace by cores epoch start_time (journal_of acts gc.1))
            turns
            last
        → (s' : BufferQueue Object) × (life acts gc.1 ≡ ok tt s')
          × ((result : (default_logger Time).Log) × (join t trace
                  (par_heap t h trace cores)
                  (default_logger Time)
                  gc.0
                  (journal_of acts)
                  (map quiet turns)
                  last
                  start_time
                  end_time
                ≡ some result))
  unfolding spawn spawn_from_gc
  join_program cores epoch start_time end_time acts turns last pos few owned enough finish =
      let (s', runs, shape, hup) = life_lem acts in
      let left : journal_of acts (make_journal object_size journal_buffer_size) ≡ s' =
        rw runs refl in
      (
        s',
        runs,
        join_returns t h trace by cores epoch start_time end_time (journal_of acts)
            (entries_of acts) turns last pos size
            (subst (λ s. Represents (next_power_of_two journal_buffer_size) s (entries_of acts))
              (sym left) shape)
            (subst (λ (s : BufferQueue Object). s.hup ≡ true) (sym left) hup)
            (entries_of-AllLawful t acts _ refl few owned)
            (omega (arith, enough, length-entries_of acts)) finish,
      )
