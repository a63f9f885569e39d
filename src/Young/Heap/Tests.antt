-- ===== src/Young/Heap/Tests.antt =====
-- The theorems on the collections and on the reading of journals at concrete inputs.
use mo_gc.Journal.Buffer.Capacity.{next_power_of_two_le}
use mo_gc.Heap.Object.{object_size}
use mo_gc.Common.{
  ℕ, ◌<◌, ◌^◌, ◌≡◌, refl, true, false, none, some, List, [], ◌∷◌, ◌==◌, arith, inl, inr, Bool-cases,
}
use mo_gc.Constants.{journal_run}
use mo_gc.Heap.Object.{Object}
use mo_gc.Heap.ObjectMeta.{ObjectMeta}
use mo_gc.Heap.RootMeta.{new, is_new}
use mo_gc.Journal.Buffer.{next_power_of_two}
use mo_gc.Journal.Buffer.Capacity.{IsCapacity, next_power_of_two-IsCapacity}
use mo_gc.Journal.Memory.{BufferQueue, ok}
use mo_gc.Journal.Queue.{make_journal, send}
use mo_gc.Journal.Send.{Sending, send-append}
use mo_gc.Journal.Trace.{make_journal-Sending}
use mo_gc.Statistics.{StatsLogger, default_logger, new_logger}
use mo_gc.Trie.{Trie, concat}
use mo_gc.Trie.Assoc.{assoc, lookup}
use mo_gc.Young.Samples.{
  deferred, covered, tries, roots, trace, trace-ByAddress, ready, schedule, all-Finished,
}
use mo_gc.Young.Deferred.{merge_deferred, chunks, chunk_size, merge_turn, next_of}
use mo_gc.Young.Minor.{mark_and_sweep}
use mo_gc.Young.Heap.{CollectOps, YoungHeap, par_heap, minor_collection, major_collection}
use mo_gc.Mature.Roots.{par_heap-MarksRoots}
use mo_gc.Young.Balance.{act_all, IsBalanced, AllLawful}
use mo_gc.Young.Balance.Read.{read_all-IsBalanced}
use mo_gc.Young.Heap.Balance.{minor_collection-IsBalanced}
use mo_gc.Young.Heap.Moves.{count_of, MarksRoots, major_collection-IsBalanced}
use mo_gc.Thread.Iteration.{Finishes}
use mo_gc.Thread.Schedules.{turns_in_order, turns_in_order-Finishes}
use mo_gc.Young.Mark.Same.{mark_and_sweep-same}
use mo_gc.Young.Heap.Major.{mature_objects, major_collection-removes}
use mo_gc.Young.Read.{read_entry, read_journals}
use mo_gc.Young.Read.Entries.{
  Queue, Journals, no_more, one_more, read_all, unread, updated, rounds_entries, rounds_left,
  retained, read_journals-refines,
}

abbrev objects : Trie ObjectMeta
objects = assoc ObjectMeta

abbrev heaps : CollectOps tries
heaps = par_heap tries objects trace 2

abbrev logger : StatsLogger ℕ
logger = default_logger ℕ

no_objects : heaps.Heap
unfolding par_heap
no_objects = objects.new

no_log : logger.Log
unfolding default_logger
no_log = new_logger 0

-- A journal with the entry of a new rooted object in it.
four : IsCapacity (next_power_of_two 4)
four = next_power_of_two-IsCapacity 4 (omega arith)

abbrev entry : Object
entry = record { ptr = 35; vtable = 64 }

abbrev sent :
    (s : BufferQueue Object) × (send entry (make_journal object_size 4) ≡ ok tt s)
    × Sending (next_power_of_two 4) s (entry ∷ [])
sent =
    send-append four
      (make_journal-Sending object_size 4 (omega arith)
        (omega (arith, next_power_of_two_le 4 (omega arith))))
      entry

abbrev heap : YoungHeap tries trace heaps logger
heap = record {
  num_threads = 2;
  journals = sent.0 ∷ [];
  roots = roots;
  deferred = deferred;
  mature_heap = no_objects;
  log = no_log;
}

all_merged_after :
    concat
      (merge_deferred tries
        (mark_and_sweep tries trace roots 2 schedule).roots
        deferred
        2
        (0 ∷ [])).jobs
    ≡ []
unfolding merge_deferred chunks chunk_size merge_turn next_of
all_merged_after = refl

at_one : tries.get roots 1 ≡ some (new 1 64 2)
unfolding assoc lookup new
at_one = refl

one_is_new : is_new (new 1 64 2) ≡ true
unfolding is_new new
one_is_new = refl

one_counted : 0 < (new 1 64 2).refcount
unfolding new
one_counted = omega arith

one_fits : (new 1 64 2).vtable < 2 ^ 64
unfolding new
one_fits = omega arith

major_collection-removes_example :
    objects.get
      (mature_objects tries objects trace 2 logger
        (major_collection tries trace heaps logger heap schedule).mature_heap)
      1
    ≡ none
major_collection-removes_example =
    major_collection-removes tries objects trace 2 logger heap schedule 1 (new 1 64 2) (omega arith)
      at_one one_counted one_is_new one_fits

abbrev queues : List Queue
queues = (entry ∷ [], false) ∷ []

one_journal : Journals heap.journals queues
one_journal = one_more four sent.2.shape sent.2.open_ no_more

read_journals-refines_example :
    let s =
      read_all tries
        (unread tries trace heaps logger heap)
        (rounds_entries tries journal_run queues) in
    (journals : List (BufferQueue Object)) × (read_journals tries trace heaps logger heap
      ≡ some (updated tries trace heaps logger heap s journals, s.entry_count))
    × Journals journals (retained (rounds_left tries journal_run queues))
read_journals-refines_example =
    read_journals-refines tries trace heaps logger heap queues one_journal

abbrev no_roots : ℕ → ℕ
no_roots k = 0

-- The one count is that of the decrement put off.
balanced : IsBalanced tries roots deferred no_roots
unfolding assoc lookup new
balanced = record {
  ready = ready;
  counted = λ k m h. elim (Bool-cases (k == 1)) [
    | inl one ↦ ground arith
    | inr not_one ↦ elim (Bool-cases (k == 2)) [
      | inl two ↦ ground arith
      | inr not_two ↦ elim (Bool-cases (k == 3)) [
        | inl three ↦ ground arith
        | inr not_three ↦ ground arith
      ]
    ]
  ];
  known = λ k h. covered.known k (omega arith);
}

entry_lawful : AllLawful tries no_roots (unread tries trace heaps logger heap) (entry ∷ [])
unfolding read_entry
entry_lawful = (
  record {
    fits = omega arith;
    fresh = λ h. refl;
    room = λ h. absurd (omega arith);
    held = λ h. absurd (omega arith);
  },
  tt,
)

read_all-IsBalanced_example :
    let s = read_all tries (unread tries trace heaps logger heap) (entry ∷ []) in
    IsBalanced tries s.roots s.deferred (act_all no_roots (entry ∷ []))
read_all-IsBalanced_example =
    read_all-IsBalanced tries (entry ∷ []) (unread tries trace heaps logger heap) no_roots balanced
      entry_lawful

minor_collection-IsBalanced_example :
    (y' : YoungHeap tries trace heaps logger) × (young : ℕ) × (minor_collection tries trace heaps
        logger heap schedule
        (0 ∷ [])
      ≡ some (y', young))
    × (y'.deferred ≡ [])
    × (y'.num_threads ≡ 2)
    × (y'.journals ≡ heap.journals)
    × IsBalanced tries y'.roots [] no_roots
minor_collection-IsBalanced_example =
    minor_collection-IsBalanced tries trace heaps logger trace-ByAddress heap no_roots balanced
      (omega arith) schedule (0 ∷ []) all-Finished all_merged_after

major_collection-IsBalanced_example :
    let y' = major_collection tries trace heaps logger heap schedule in
    IsBalanced tries y'.roots y'.deferred no_roots
    × ((k : ℕ) → count_of (tries.get y'.roots k) ≡ count_of (tries.get heap.roots k))
    × (y'.deferred ≡ heap.deferred)
    × (y'.num_threads ≡ heap.num_threads)
    × (y'.journals ≡ heap.journals)
major_collection-IsBalanced_example =
    major_collection-IsBalanced tries trace heaps logger (par_heap-MarksRoots tries objects trace 2)
      heap schedule no_roots balanced

par_heap-MarksRoots_example : MarksRoots tries heaps
par_heap-MarksRoots_example = par_heap-MarksRoots tries objects trace 2

-- Three threads whose jobs run one after the other.
abbrev in_order :
    Finishes tries trace heaps logger roots [] 3
      (turns_in_order tries trace heaps logger trace-ByAddress roots [] 3)
in_order =
    turns_in_order-Finishes tries trace heaps logger trace-ByAddress roots [] 3 (omega arith)
      ready.short

mark_and_sweep-same_example :
    tries.get (mark_and_sweep tries trace roots 2 schedule).roots 3
    ≡ tries.get
        (mark_and_sweep tries trace roots 3
          (turns_in_order tries trace heaps logger trace-ByAddress roots [] 3).marking).roots
        3
mark_and_sweep-same_example =
    mark_and_sweep-same tries trace trace-ByAddress roots ready 2 3 schedule
      (turns_in_order tries trace heaps logger trace-ByAddress roots [] 3).marking (omega arith)
      (omega arith) all-Finished in_order.marked 3
