-- ===== src/Thread/Iteration.antt =====
-- One iteration of the collector thread returns, and leaves the heap as the next one needs it.
use mo_gc.Common.{
  ℕ, ◌<◌, ◌≡◌, refl, sym, ◌∙◌, subst, inl, inr, Option, none, some, List, [], ◌==◌, if◌then◌else◌,
  Bool-cases,
}
use mo_gc.Constants.{journal_run}
use mo_gc.Heap.Object.{TraitObject, Object}
use mo_gc.Heap.RootMeta.{RootMeta}
use mo_gc.Journal.Memory.{BufferQueue}
use mo_gc.Statistics.{StatsLogger}
use mo_gc.Thread.{Arrival, Loop, Turns, connect, sleep, next_sleep, is_major_due, iteration}
use mo_gc.Trie.{Trie, concat}
use mo_gc.Young.Balance.{act_all, IsBalanced, AllLawful}
use mo_gc.Young.Balance.Read.{read_all-IsBalanced}
use mo_gc.Young.Deferred.{merge_deferred}
use mo_gc.Young.Heap.{CollectOps, YoungHeap, add_journal, minor_collection, major_collection}
use mo_gc.Young.Heap.Balance.{minor_collection-IsBalanced}
use mo_gc.Young.Heap.Moves.{MarksRoots, major_collection-IsBalanced}
use mo_gc.Young.Mark.{run, start}
use mo_gc.Young.Mark.Reach.{ByAddress}
use mo_gc.Young.Mark.Correct.{Finished}
use mo_gc.Young.Minor.{mark_and_sweep}
use mo_gc.Young.Read.{Reading}
use mo_gc.Young.Read.Entries.{
  Queue, Journals, read_all, unread, updated, rounds_entries, rounds_left, retained,
  read_journals-refines,
}

module _ (t : Trie RootMeta) (trace : TraitObject → List TraitObject) (mature : CollectOps t)
    {Time : Type 0} (logger : StatsLogger Time) where
  abbrev pub Heap : Type 0
  Heap = YoungHeap t trace mature logger

  abbrev pub State : Type 0
  State = Loop t trace mature logger

  -- The heap with its journals as an iteration finds them.
  abbrev pub at_hand : State → Arrival → Heap
  at_hand s arrival =
      let y = connect t trace mature logger s.heap arrival.connected in
      record y { journals = arrival.written y.journals }

  -- The jobs of a minor collection of this map and these decrements come to their ends.
  pub record Finishes (roots : t.Map) (deferred : List Object) (num_threads : ℕ) (turns : Turns)
      : Type 0 where
    pub marked : Finished (run t trace (start t trace roots num_threads) turns.marking)
    pub merged :
        concat
          (merge_deferred t
            (mark_and_sweep t trace roots num_threads turns.marking).roots
            deferred
            num_threads
            turns.merging).jobs
        ≡ []

  -- What the counts stand for, between two iterations.
  pub record IsGood (s : State) (live : ℕ → ℕ) : Type 0 where
    pub pos : 0 < s.heap.num_threads
    pub balanced : IsBalanced t s.heap.roots s.heap.deferred live

  -- The entries that an iteration reads.
  abbrev pub entries_read : List Queue → List Object
  entries_read queues = rounds_entries t journal_run queues

  -- The heap after the entries were read.
  abbrev pub reading : State → Arrival → List Queue → Reading t
  reading s arrival queues =
      read_all t (unread t trace mature logger (at_hand s arrival)) (entries_read queues)

  -- What an iteration relies on: the journals at hand hold these queues of entries, which are lawful,
  -- and the jobs of the minor collection get the turns that they need.
  pub record IsServed (s : State) (live : ℕ → ℕ) (arrival : Arrival) (queues : List Queue)
      : Type 0 where
    pub arrived : Journals (at_hand s arrival).journals queues
    pub lawful :
        AllLawful t live (unread t trace mature logger (at_hand s arrival)) (entries_read queues)
    pub finishes :
        Finishes
          (reading s arrival queues).roots
          (reading s arrival queues).deferred
          (at_hand s arrival).num_threads
          arrival.turns

  connect-IsBalanced :
      (y : Heap) (o : Option (BufferQueue Object)) (live : ℕ → ℕ)
      → 0 < y.num_threads
      → IsBalanced t y.roots y.deferred live
      → (0 < (connect t trace mature logger y o).num_threads)
        × IsBalanced t
            (connect t trace mature logger y o).roots
            (connect t trace mature logger y o).deferred
            live
  unfolding connect add_journal
  connect-IsBalanced y none live pos b = (pos, b)
  connect-IsBalanced y (some journal) live pos b = (pos, b)

  sleep-log :
      (y : Heap) (n sleep_dur : ℕ)
      → (log : logger.Log) × (sleep t trace mature logger y n sleep_dur ≡ record y { log = log })
  unfolding sleep
  sleep-log y n sleep_dur = elim (Bool-cases (n == 0)) [
    | inl idle ↦ (logger.add_sleep sleep_dur y.log, rw idle refl)
    | inr busy ↦ (y.log, rw busy refl)
  ]

  module _ (by : ByAddress trace) (lawful_heap : MarksRoots t mature) where
    -- The state of the loop after a minor collection.
    abbrev next_state : Heap → ℕ → Turns → ℕ → State
    next_state y young turns sleep_dur = record {
      heap =
          if is_major_due t trace mature logger sleep_dur young
          then major_collection t trace mature logger y turns.major
          else y;
      sleep_dur = sleep_dur;
    }

    -- The collection at the end of an iteration, and the one that may follow it.
    collections :
        (y : Heap) (live : ℕ → ℕ) (turns : Turns) (sleep_dur : ℕ)
        → 0 < y.num_threads
        → IsBalanced t y.roots y.deferred live
        → Finishes y.roots y.deferred y.num_threads turns
        → (y' : Heap) × (young : ℕ) × (minor_collection t trace mature logger y turns.marking
              turns.merging
            ≡ some (y', young))
          × IsGood (next_state y' young turns sleep_dur) live
          × ((next_state y' young turns sleep_dur).heap.journals ≡ y.journals)
          × ((next_state y' young turns sleep_dur).heap.deferred ≡ [])
    collections y live turns sleep_dur pos b done =
        let (y', young, runs, deferred, threads, journals, b') =
          minor_collection-IsBalanced t trace mature logger by y live b pos turns.marking
            turns.merging done.marked done.merged in
        let b'' : IsBalanced t y'.roots y'.deferred live = rw deferred b' in
        let pos' : 0 < y'.num_threads = rw threads pos in
        elim (Bool-cases (is_major_due t trace mature logger sleep_dur young)) [
          | inl due ↦
              let (after, counts, same, threads', journals') =
                major_collection-IsBalanced t trace mature logger lawful_heap y' turns.major live
                  b'' in
              (
                y',
                young,
                runs,
                rw due (record { pos = subst (λ n. 0 < n) (sym threads') pos'; balanced = after }),
                rw due (journals' ∙ journals),
                rw due (same ∙ deferred),
              )
          | inr not_due ↦ (
            y',
            young,
            runs,
            rw not_due (record { pos = pos'; balanced = b'' }),
            rw not_due journals,
            rw not_due deferred,
          )
        ]

    -- An iteration of the collector thread does not panic and faults on no journal. Where the counts
    -- are in balance with the roots of the application, there is a thread, the journals at hand hold
    -- queues of entries that are lawful in the order in which they are read (an address that becomes
    -- new has no roots and no decrements put off, no count leaves a word, a root is dropped at most
    -- once), the jobs get the turns that they need, tracing is by address and the mature heap only
    -- marks roots that have a positive count: the iteration returns, the counts are in balance with
    -- the roots that the entries it read have left, what it has not read is still unread in its
    -- journal, the journals that ended are gone, and no decrement is put off.
    pub iteration_lem :
        (s : State) (live : ℕ → ℕ) (arrival : Arrival) (queues : List Queue)
        → IsGood s live
        → IsServed s live arrival queues
        → (s' : State) × (iteration t trace mature logger s arrival ≡ some s')
          × IsGood s' (act_all live (entries_read queues))
          × Journals s'.heap.journals (retained (rounds_left t journal_run queues))
          × (s'.heap.deferred ≡ [])
    unfolding iteration
    iteration_lem s live arrival queues good served =
        let y = at_hand s arrival in
        let (pos, b) = connect-IsBalanced s.heap arrival.connected live good.pos good.balanced in
        let (js, reads, left) =
          read_journals-refines t trace mature logger y queues served.arrived in
        let r = reading s arrival queues in
        let b' =
          read_all-IsBalanced t (entries_read queues) (unread t trace mature logger y) live b
            served.lawful in
        let (log, slept) =
          sleep-log (updated t trace mature logger y r js) r.entry_count s.sleep_dur in
        let (y', young, runs, good', journals, none_off) =
          collections (record (updated t trace mature logger y r js) { log = log })
            (act_all live (entries_read queues)) arrival.turns
            (next_sleep r.entry_count s.sleep_dur) pos b' served.finishes in
        (
          _,
          rw (iteration, reads, slept, runs) refl,
          good',
          subst (λ js. Journals js (retained (rounds_left t journal_run queues))) (sym journals)
              left,
          none_off,
        )
