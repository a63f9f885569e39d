-- ===== src/Young/Tests.antt =====
-- The theorems on the young generation at concrete inputs.
use mo_gc.Common.{◌≡◌, ◌↔◌, ◌⊎◌, true, some, elem, arith, length}
use mo_gc.Heap.RootMeta.{new, mark_and_needs_trace}
use mo_gc.Young.Mark.{run, start}
use mo_gc.Young.Mark.Reach.{Reach, marked_at}
use mo_gc.Young.Mark.Correct.{Finished, mark_correct}
use mo_gc.Young.Mark.Finish.{mark_finishes}
use mo_gc.Young.Sweep.{sweep}
use mo_gc.Young.Sweep.Entry.{swept, is_doomed, get-sweep}
use mo_gc.Young.Sweep.Drops.{drop_keys, elem-sweep}
use mo_gc.Young.Sweep.Counters.{is_young, sweep-counters}
use mo_gc.Trie.Tally.{tally}
use mo_gc.Young.Minor.{IsReady, Collected, mark_and_sweep, collect_garbage, collect-IsReady}
use mo_gc.Young.Samples.{
  tries, roots, trace, trace-ByAddress, short, ready, at_three, schedule, fair, all-Finished,
}

mark_finishes_example : Finished (run tries trace (start tries trace roots 2) schedule)
mark_finishes_example =
    mark_finishes tries trace trace-ByAddress roots 2 schedule (omega arith) short fair

mark_correct_example :
    let r = (run tries trace (start tries trace roots 2) schedule).roots in
    ((marked_at tries r 3 ≡ true) ↔ Reach tries trace roots 3)
    × ((tries.get r 3 ≡ some (new 0 64 2))
        ⊎ (tries.get r 3 ≡ some (mark_and_needs_trace (new 0 64 2)).0))
mark_correct_example =
    mark_correct tries trace trace-ByAddress roots ready.clean ready.short 2 schedule 3 (new 0 64 2)
      (omega arith) all-Finished at_three

collect_garbage_example :
    Collected tries trace roots (mark_and_sweep tries trace roots 2 schedule) 3 (new 0 64 2)
collect_garbage_example =
    collect_garbage tries trace trace-ByAddress roots ready 2 schedule (omega arith) all-Finished 3
      (new 0 64 2) at_three

collect-IsReady_example : IsReady tries (mark_and_sweep tries trace roots 2 schedule).roots
collect-IsReady_example =
    collect-IsReady tries trace trace-ByAddress roots ready 2 schedule (omega arith) all-Finished

elem-sweep_example : elem 3 (drop_keys (sweep tries roots 2).drops) ≡ is_doomed (tries.get roots 3)
elem-sweep_example = elem-sweep tries roots 2 3 (omega arith) short

get-sweep_example : tries.get (sweep tries roots 2).roots 3 ≡ swept (tries.get roots 3)
get-sweep_example = get-sweep tries roots 2 3 (omega arith)

sweep-counters_example :
    ((sweep tries roots 2).young_counter
      ≡ tally (λ k. is_young (tries.get roots k)) (tries.keys roots))
    × ((sweep tries roots 2).drop_counter
        ≡ tally (λ k. is_doomed (tries.get roots k)) (tries.keys roots))
    × (length (sweep tries roots 2).drops
        ≡ tally (λ k. is_doomed (tries.get roots k)) (tries.keys roots))
sweep-counters_example = sweep-counters tries roots 2 (omega arith)
