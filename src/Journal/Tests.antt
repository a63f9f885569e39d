-- ===== src/Journal/Tests.antt =====
-- The theorems on journals at concrete inputs.
use mo_gc.Journal.Buffer.Capacity.{next_power_of_two_le}
use mo_gc.Common.{none, ℕ, ◌*◌, ◌≤◌, ◌<◌, ◌^◌, ◌≡◌, ◌⊎◌, true, false, ◌&&◌, List, [], ◌∷◌, arith}
use mo_gc.Journal.Memory.{BufferQueue, ok}
use mo_gc.Journal.Buffer.{next_power_of_two}
use mo_gc.Journal.Buffer.Capacity.{
  IsCapacity, next_power_of_two-IsCapacity, next_power_of_two_least,
}
use mo_gc.Journal.Queue.{make_journal, send, drop_sender, is_disconnected}
use mo_gc.Journal.Chain.{Represents}
use mo_gc.Journal.Send.{Sending, send-append, drop_sender-keeps}
use mo_gc.Journal.Race.{Late, second_look_lem}
use mo_gc.Journal.Recv.{Reads, try_recv-refines}
use mo_gc.Journal.Disconnect.{is_nil, is_disconnected_lem}
use mo_gc.Journal.Queue.{drop_queue}
use mo_gc.Journal.Release.{dropped_items, drop_queue-releases}
use mo_gc.Journal.Trace.{Op, push, pull, Delivered, delivery, make_journal-Sending}

abbrev sends : List (Op ℕ)
sends = push 10 ∷ push 20 ∷ pull ∷ push 30 ∷ pull ∷ []

delivery_example : Delivered 8 2 true sends
delivery_example =
    delivery 8 2 true sends (omega arith) (omega (arith, next_power_of_two_le 2 (omega arith)))

two : IsCapacity (next_power_of_two 2)
two = next_power_of_two-IsCapacity 2 (omega arith)

fresh : Sending (next_power_of_two 2) (make_journal {A = ℕ} 8 2) []
fresh = make_journal-Sending 8 2 (omega arith) (omega (arith, next_power_of_two_le 2 (omega arith)))

-- A journal with one unread item.
abbrev sent_seven :
    (s' : BufferQueue ℕ) × (send 7 (make_journal 8 2) ≡ ok tt s')
    × Sending (next_power_of_two 2) s' (7 ∷ [])
sent_seven = send-append two fresh 7

send-append_example :
    (s' : BufferQueue ℕ) × (send 7 (make_journal 8 2) ≡ ok tt s')
    × Sending (next_power_of_two 2) s' (7 ∷ [])
send-append_example = send-append two fresh 7

try_recv-refines_example : Reads (next_power_of_two 2) true sent_seven.0 (7 ∷ [])
try_recv-refines_example = try_recv-refines two true sent_seven.2.shape

drop_sender-keeps_example :
    (s' : BufferQueue ℕ) × (drop_sender (make_journal 8 2) ≡ ok tt s')
    × Represents (next_power_of_two 2) s' []
    × (s'.hup ≡ true)
drop_sender-keeps_example = drop_sender-keeps two fresh

is_disconnected_example :
    is_disconnected (make_journal {A = ℕ} 8 2)
    ≡ ok ((make_journal {A = ℕ} 8 2).hup && is_nil {A = ℕ} []) (make_journal 8 2)
is_disconnected_example = is_disconnected_lem fresh.shape

next_power_of_two_least_example :
    (k : ℕ) × (next_power_of_two 5 ≡ 2 ^ k)
    × (5 ≤ next_power_of_two 5)
    × (k ≤ 63)
    × ((next_power_of_two 5 ≡ 1) ⊎ (next_power_of_two 5 < 2 * 5))
next_power_of_two_least_example = next_power_of_two_least 5 (omega arith)

drop_queue-releases_example :
    (s' : BufferQueue ℕ) × (drop_queue true sent_seven.0 ≡ ok (dropped_items true (7 ∷ [])) s')
    × ((p : ℕ) → s'.cell p ≡ none)
drop_queue-releases_example = drop_queue-releases true two sent_seven.2.shape

-- A journal of buffers for one item, to which two were sent since a read's first look.
abbrev one_sent :
    (s : BufferQueue ℕ) × (send 7 (make_journal 8 1) ≡ ok tt s)
    × Sending (next_power_of_two 1) s (7 ∷ [])
one_sent =
    send-append (next_power_of_two-IsCapacity 1 (omega arith))
      (make_journal-Sending 8 1 (omega arith) (omega (arith, next_power_of_two_le 1 (omega arith))))
      7

abbrev two_sent :
    (s : BufferQueue ℕ) × (send 8 one_sent.0 ≡ ok tt s)
    × Sending (next_power_of_two 1) s (7 ∷ 8 ∷ [])
two_sent = send-append (next_power_of_two-IsCapacity 1 (omega arith)) one_sent.2 8

second_look_example : Late (next_power_of_two 1) false two_sent.0 (7 ∷ 8 ∷ [])
second_look_example =
    second_look_lem (next_power_of_two-IsCapacity 1 (omega arith)) false two_sent.2.shape
