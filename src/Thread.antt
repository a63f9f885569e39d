-- ===== src/Thread.antt =====
-- src/gcthread.rs, `gc_thread`: the loop of the collector thread, over what the other threads have
-- done by each of its iterations.
pub mod Handle
pub mod Iteration
pub mod Joined
pub mod Sleep
pub mod Programs
pub mod WholeRun
pub mod OneJournal
pub mod Courses
pub mod Finishing
pub mod Ends
pub mod Drain
pub mod Schedules
mod Samples
mod Tests
use mo_gc.Common.{
  ℕ, ◌*◌, min, Bool, not, ◌&&◌, Option, none, some, List, [], ◌∷◌, ◌==◌, leb, if◌then◌else◌,
}
use mo_gc.Constants.{max_sleep_dur, min_sleep_dur, major_collect_threshold}
use mo_gc.Heap.Object.{TraitObject, Object}
use mo_gc.Heap.RootMeta.{RootMeta}
use mo_gc.Journal.Memory.{BufferQueue}
use mo_gc.Statistics.{StatsLogger}
use mo_gc.Trie.{Trie}
use mo_gc.Young.Heap.{
  CollectOps, YoungHeap, new, add_journal, num_journals, minor_collection, major_collection,
}
use mo_gc.Young.Read.{read_journals}

-- The next duration to sleep if all journals are empty: back off exponentially up to the max.
unfoldable pub next_sleep : ℕ → ℕ → ℕ
next_sleep entries_read sleep_dur =
    if entries_read == 0 then min (sleep_dur * 2) max_sleep_dur else min_sleep_dur

-- The turns of the jobs of a minor and of a major collection.
pub record Turns : Type 0 where
  pub marking : List ℕ
  pub merging : List ℕ
  pub major : List ℕ

-- What the application threads have done by an iteration: a journal may have been connected, and
-- the journals at hand may have been written to.
pub record Arrival : Type 0 where
  pub connected : Option (BufferQueue Object)
  pub written : List (BufferQueue Object) → List (BufferQueue Object)
  pub turns : Turns

module _ (t : Trie RootMeta) (trace : TraitObject → List TraitObject) (mature : CollectOps t)
    {Time : Type 0} (logger : StatsLogger Time) where
  abbrev pub Heap : Type 0
  Heap = YoungHeap t trace mature logger

  pub record Loop : Type 0 where
    pub heap : Heap
    pub sleep_dur : ℕ

  -- A panic, or a fault in a journal, ends the thread.
  abbrev pub and_then : {A B : Type 0} → Option A → (A → Option B) → Option B
  and_then none k = none
  and_then (some a) k = k a

  unfoldable pub connect : Heap → Option (BufferQueue Object) → Heap
  connect y none = y
  connect y (some journal) = add_journal t trace mature logger y journal

  -- `thread::sleep` where nothing was read
  unfoldable pub sleep : Heap → ℕ → ℕ → Heap
  sleep y entries_read sleep_dur =
      if entries_read == 0 then record y { log = logger.add_sleep sleep_dur y.log } else y

  -- Whether the young count reaches the threshold and we are not just trying to keep up.
  unfoldable pub is_major_due : ℕ → ℕ → Bool
  is_major_due sleep_dur young_count =
      not (sleep_dur == min_sleep_dur) && leb major_collect_threshold young_count

  -- One iteration.
  unfoldable pub iteration : Loop → Arrival → Option Loop
  iteration s arrival =
      let y = connect s.heap arrival.connected in
      let at_hand : Heap = record y { journals = arrival.written y.journals } in
      and_then (read_journals t trace mature logger at_hand) λ read.
        let sleep_dur = next_sleep read.1 s.sleep_dur in
        and_then
          (minor_collection t trace mature logger (sleep read.0 read.1 s.sleep_dur)
            arrival.turns.marking arrival.turns.merging)
          λ minor. some (record {
            heap =
                if is_major_due sleep_dur minor.1
                then major_collection t trace mature logger minor.0 arrival.turns.major
                else minor.0;
            sleep_dur = sleep_dur;
          })

  -- The final collection, where all roots should be unrooted.
  unfoldable pub finish : Heap → Turns → Time → Option logger.Log
  finish y turns now =
      and_then (minor_collection t trace mature logger y turns.marking turns.merging) λ minor.
        some (
          logger.mark_end_time now (major_collection t trace mature logger minor.0 turns.major).log)

  -- Loops until all journals are disconnected; each iteration takes an arrival. `none` is a panic
  -- or the want of an arrival.
  unfoldable pub loop : Loop → List Arrival → Turns → Time → Option logger.Log
  loop s [] last now =
      if num_journals t trace mature logger s.heap == 0 then finish s.heap last now else none
  loop s (arrival ∷ arrivals) last now =
      let rest = λ (s' : Loop). loop s' arrivals last now in
      if num_journals t trace mature logger s.heap == 0
      then finish s.heap last now
      else and_then (iteration s arrival) rest

  -- `gc_thread`, from the first journal on, with the times at its start and at its end.
  unfoldable pub gc_thread :
      ℕ
      → BufferQueue Object
      → mature.Heap
      → logger.Log
      → List Arrival
      → Turns
      → Time
      → Time
      → Option logger.Log
  gc_thread num_threads first heap log arrivals last start_time end_time =
      let y =
        add_journal t trace mature logger (new t trace mature logger num_threads heap log) first in
      loop
        (record {
          heap = record y { log = logger.mark_start_time start_time y.log };
          sleep_dur = 0;
        })
        arrivals last end_time
