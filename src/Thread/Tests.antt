-- ===== src/Thread/Tests.antt =====
-- The theorems on the collector thread at concrete inputs.
use mathlib.Core.List.{map}
use mo_gc.Heap.Object.{object_size}
use mo_gc.Common.{◌∷◌, ℕ, ◌^◌, ◌≤◌, ◌<◌, ◌≡◌, refl, min, some, List, [], length, arith}
use mo_gc.Constants.{max_sleep_dur}
use mo_gc.Thread.Finishing.{AllFinish}
use mo_gc.Thread.WholeRun.{some_turns}
use mo_gc.Thread.Joined.{begins}
use mo_gc.Thread.Programs.{program_turns}
use mo_gc.AppThread.Program.{perform_all, held_all}
use mo_gc.Journal.Chain.{Represents}
use mo_gc.Journal.Buffer.{next_power_of_two}
use mo_gc.Journal.Queue.{make_journal}
use mo_gc.AppThread.Spawn.{spawn_from_gc}
use mo_gc.Constants.{journal_buffer_size}
use mo_gc.Thread.{Turns, next_sleep, iteration, loop, gc_thread}
use mo_gc.Common.{true}
use mo_gc.Journal.Memory.{BufferQueue}
use mo_gc.Heap.Object.{Object}
use mo_gc.Statistics.{default_logger}
use mo_gc.Thread.Handle.{GcThread, spawn, spawn_gc, join}
use mo_gc.Thread.Samples.{objects}
use mo_gc.Young.Heap.{par_heap}
use mo_gc.AppThread.{Traced}
use mo_gc.AppThread.Owned.{program-AllLawful}
use mo_gc.AppThread.Program.{Act, make, share, release, IsOwned}
use mo_gc.Thread.Programs.{life, journal_of, join_program}
use mo_gc.Young.Balance.{AllLawful}
use mo_gc.Journal.Memory.{ok}
use mo_gc.Thread.Courses.{served, some_course}
use mo_gc.Thread.Drain.{after}
use mo_gc.Thread.Ends.{quiet, AllServed, loop_ends}
use mo_gc.Thread.Iteration.{State, IsGood, IsServed, entries_read, iteration_lem}
use mo_gc.Thread.OneJournal.{one_queue}
use mo_gc.Thread.Samples.{
  heaps, logger, heaps-MarksRoots, no_objects, no_log, size, entries, hung_up, entries-AllLawful,
}
use mo_gc.Thread.Sleep.{idle, idle-next_sleep}
use mo_gc.Thread.WholeRun.{first_state, empty-IsBalanced, gc_thread_returns}
use mo_gc.Young.Balance.{act_all}
use mo_gc.Young.Read.Entries.{Journals, no_more, one_more}
use mo_gc.Young.Samples.{tries, trace, trace-ByAddress}

idle-next_sleep_example : (idle 9 (next_sleep 5 40) ≡ min (2 ^ 9) max_sleep_dur) × (idle 9 0 ≡ 0)
idle-next_sleep_example = idle-next_sleep 5 9 40 (omega arith)

abbrev start : State tries trace heaps logger
start = first_state tries trace heaps logger 2 hung_up.0 no_objects no_log 0

abbrev no_roots : ℕ → ℕ
no_roots k = 0

good : IsGood tries trace heaps logger start no_roots
good = record { pos = omega arith; balanced = empty-IsBalanced tries trace heaps logger }

journals : Journals start.heap.journals (one_queue entries)
journals = one_more size hung_up.2 hung_up.3 no_more

abbrev first_served :
    (u : Turns) × IsServed tries trace heaps logger start no_roots (quiet u) (one_queue entries)
first_served =
    served tries trace heaps logger trace-ByAddress heaps-MarksRoots start no_roots
      (one_queue entries) good journals (entries-AllLawful start.heap.roots)

iteration_example :
    (s' : State tries trace heaps logger) × (iteration tries trace heaps logger start
        (quiet first_served.0)
      ≡ some s')
    × IsGood tries trace heaps logger s'
        (act_all no_roots (entries_read tries trace heaps logger (one_queue entries)))
    × Journals s'.heap.journals (after tries (one_queue entries))
    × (s'.heap.deferred ≡ [])
iteration_example =
    iteration_lem tries trace heaps logger trace-ByAddress heaps-MarksRoots start no_roots
      (quiet first_served.0) (one_queue entries) good first_served.1

abbrev course :
    (turns : List Turns) × (last : Turns) × AllServed tries trace heaps logger start no_roots
      (one_queue entries)
      turns
      last
    × (1 ≤ length turns)
course =
    some_course tries trace heaps logger trace-ByAddress heaps-MarksRoots 1 start no_roots
      (one_queue entries) good journals (refl, tt) (omega arith)
      (entries-AllLawful start.heap.roots)

loop_ends_example :
    (log : logger.Log) × (loop tries trace heaps logger start (map quiet course.0) course.1 7
      ≡ some log)
loop_ends_example =
    loop_ends tries trace heaps logger trace-ByAddress heaps-MarksRoots course.1 7 course.0 start
      no_roots (one_queue entries) good journals (refl, tt) course.3 course.2

abbrev some_run :
    (turns : List Turns) × (last : Turns) × (1 ≤ length turns)
    × AllFinish tries trace heaps logger start turns last
some_run =
    some_turns tries trace heaps logger trace-ByAddress heaps-MarksRoots 2 hung_up.0 entries
      no_objects no_log 0 1 (omega arith) (omega arith) size hung_up.2 hung_up.3
      (entries-AllLawful start.heap.roots)

gc_thread_returns_example :
    (result : logger.Log) × (gc_thread tries trace heaps logger 2 hung_up.0 no_objects no_log
        (map quiet some_run.0)
        some_run.1
        0
        7
      ≡ some result)
gc_thread_returns_example =
    gc_thread_returns tries trace heaps logger trace-ByAddress heaps-MarksRoots 2 hung_up.0 entries
      no_objects no_log 0 some_run.0 some_run.1 7 (omega arith) size hung_up.2 hung_up.3
      (entries-AllLawful start.heap.roots) some_run.2 some_run.3

-- The handle once the collector thread and one application thread were started.
abbrev handle :
    GcThread tries trace (par_heap tries objects trace 2) (default_logger ℕ) × BufferQueue Object
handle =
    spawn tries trace (par_heap tries objects trace 2) (default_logger ℕ)
      (spawn_gc tries objects trace 2 0)

abbrev type : Traced
type = record { box_vtable = 64; value_vtable = 128; traversible = true }

-- A root is made, cloned, and dropped twice, the last time with its object.
abbrev acts : List Act
acts = make type 4096 ∷ share type 4096 ∷ release type 4096 ∷ release type 4096 ∷ []

owned : IsOwned [] (λ k. 0) acts
owned = (
  refl,
  omega arith,
  refl,
  (
    refl,
    omega arith,
    refl,
    (refl, omega arith, (refl, omega arith), (refl, omega arith, (refl, omega arith), tt)),
  ),
)

program-AllLawful_example :
    (entries : List Object) × (s' : BufferQueue Object) × (perform_all acts
        (make_journal object_size journal_buffer_size)
      ≡ ok tt s')
    × Represents (next_power_of_two journal_buffer_size) s' entries
    × AllLawful tries
        (λ k. 0)
        (record { entry_count = 0; roots = tries.new; deferred = [] })
        entries
    × (act_all (λ k. 0) entries ≡ held_all (λ k. 0) acts)
program-AllLawful_example =
    program-AllLawful tries acts (record { entry_count = 0; roots = tries.new; deferred = [] }) refl
      (omega arith) owned

abbrev program_run :
    (turns : List Turns) × (last : Turns) × (length acts < length turns)
    × AllFinish tries trace
        (par_heap tries objects trace 2)
        (default_logger ℕ)
        (begins tries objects trace trace-ByAddress 2 0 0
          (journal_of acts (make_journal object_size journal_buffer_size)))
        turns
        last
program_run =
    program_turns tries objects trace trace-ByAddress 2 0 0 acts (omega arith) (omega arith) owned

join_program_example :
    (s' : BufferQueue Object) × (life acts handle.1 ≡ ok tt s')
    × ((result : (default_logger ℕ).Log) × (join tries trace
            (par_heap tries objects trace 2)
            (default_logger ℕ)
            handle.0
            (journal_of acts)
            (map quiet program_run.0)
            program_run.1
            0
            7
          ≡ some result))
unfolding spawn spawn_from_gc
join_program_example =
    join_program tries objects trace trace-ByAddress 2 0 0 7 acts program_run.0 program_run.1
      (omega arith) (omega arith) owned program_run.2 program_run.3
