-- ===== src/Thread/Samples.antt =====
-- A journal for the tests: its thread has made a root on a new object, dropped it, and hung up.
use mo_gc.Journal.Buffer.Capacity.{next_power_of_two_le}
use mo_gc.Heap.Object.{object_size}
use mo_gc.Common.{ℕ, ◌≡◌, true, List, [], ◌∷◌, refl, arith}
use mo_gc.Heap.Object.{Object}
use mo_gc.Heap.ObjectMeta.{ObjectMeta}
use mo_gc.Journal.Buffer.{next_power_of_two}
use mo_gc.Journal.Buffer.Capacity.{IsCapacity, next_power_of_two-IsCapacity}
use mo_gc.Journal.Chain.{Represents}
use mo_gc.Journal.Memory.{BufferQueue, Run, ok, fault, out_of_fuel}
use mo_gc.Constants.{journal_buffer_size}
use mo_gc.Journal.Queue.{make_journal, send, drop_sender}
use mo_gc.Journal.Send.{Sending, send-append, drop_sender-keeps}
use mo_gc.Journal.Trace.{make_journal-Sending}
use mo_gc.Mature.Roots.{par_heap-MarksRoots}
use mo_gc.Statistics.{StatsLogger, default_logger, new_logger}
use mo_gc.Trie.{Trie}
use mo_gc.Trie.Assoc.{assoc}
use mo_gc.Young.Balance.{AllLawful}
use mo_gc.Young.Heap.{CollectOps, par_heap}
use mo_gc.Young.Heap.Moves.{MarksRoots}
use mo_gc.Young.Read.{Reading, read_entry}
use mo_gc.Young.Samples.{tries, trace}

abbrev pub objects : Trie ObjectMeta
objects = assoc ObjectMeta

abbrev pub heaps : CollectOps tries
heaps = par_heap tries objects trace 2

abbrev pub logger : StatsLogger ℕ
logger = default_logger ℕ

pub heaps-MarksRoots : MarksRoots tries heaps
heaps-MarksRoots = par_heap-MarksRoots tries objects trace 2

pub no_objects : heaps.Heap
unfolding par_heap
no_objects = objects.new

pub no_log : logger.Log
unfolding default_logger
no_log = new_logger 0

-- NEW_INC and DEC of the object at key 4.
abbrev pub made : Object
made = record { ptr = 35; vtable = 64 }

abbrev pub dropped : Object
dropped = record { ptr = 32; vtable = 64 }

abbrev pub entries : List Object
entries = made ∷ dropped ∷ []

-- The journal of an application thread, once it has run these commands.
abbrev left_by : BufferQueue Object → Run Object (Unit {0}) → BufferQueue Object
left_by journal (ok done s) = s
left_by journal fault = journal
left_by journal out_of_fuel = journal

abbrev pub written : BufferQueue Object → BufferQueue Object
written journal =
    let first = left_by journal (send made journal) in
    let second = left_by first (send dropped first) in left_by second (drop_sender second)

pub size : IsCapacity (next_power_of_two journal_buffer_size)
size = next_power_of_two-IsCapacity journal_buffer_size (omega arith)

abbrev first_sent :
    (s : BufferQueue Object) × (send made (make_journal object_size journal_buffer_size) ≡ ok tt s)
    × Sending (next_power_of_two journal_buffer_size) s (made ∷ [])
first_sent =
    send-append size
      (make_journal-Sending object_size journal_buffer_size (omega arith)
        (omega (arith, next_power_of_two_le journal_buffer_size (omega arith))))
      made

abbrev both_sent :
    (s : BufferQueue Object) × (send dropped first_sent.0 ≡ ok tt s)
    × Sending (next_power_of_two journal_buffer_size) s entries
both_sent = send-append size first_sent.2 dropped

abbrev pub hung_up :
    (s : BufferQueue Object) × (drop_sender both_sent.0 ≡ ok tt s)
    × Represents (next_power_of_two journal_buffer_size) s entries
    × (s.hup ≡ true)
hung_up = drop_sender-keeps size both_sent.2

pub written-hung_up : written (make_journal object_size journal_buffer_size) ≡ hung_up.0
written-hung_up = rw (first_sent.1, both_sent.1, hung_up.1) refl

abbrev pub start_of : tries.Map → Reading tries
start_of roots = record { entry_count = 0; roots = roots; deferred = [] }

pub entries-AllLawful : (roots : tries.Map) → AllLawful tries (λ k. 0) (start_of roots) entries
unfolding read_entry
entries-AllLawful roots = (
  record {
    fits = omega arith;
    fresh = λ h. refl;
    room = λ h. absurd (omega arith);
    held = λ h. absurd (omega arith);
  },
  (
    record {
      fits = omega arith;
      fresh = λ h. absurd (omega arith);
      room = λ h. absurd (omega arith);
      held = λ h. ground arith;
    },
    tt,
  ),
)
