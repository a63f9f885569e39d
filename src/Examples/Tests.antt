-- ===== src/Examples/Tests.antt =====
-- The theorems on snakes at concrete inputs.
use mo_gc.Journal.Buffer.Capacity.{next_power_of_two_le}
use mo_gc.Common.{ℕ, List, ◌==◌, if◌then◌else◌}
use mo_gc.Examples.Balloon.{Meanwhile}
use mo_gc.Journal.Buffer.Capacity.{IsCapacity}
use mo_gc.Heap.Object.{object_size}
use mo_gc.Common.{true, none, [], ◌∷◌, arith}
use mo_gc.AppThread.{Traced}
use mo_gc.Heap.Object.{Object}
use mo_gc.Journal.Buffer.{next_power_of_two}
use mo_gc.Journal.Buffer.Capacity.{next_power_of_two-IsCapacity}
use mo_gc.Journal.Memory.{BufferQueue}
use mo_gc.Journal.Queue.{make_journal}
use mo_gc.Journal.Send.{Sending}
use mo_gc.Journal.Trace.{make_journal-Sending}

abbrev segment_type : Traced
segment_type = record { box_vtable = 640; value_vtable = 704; traversible = true }

abbrev balloon_type : Traced
balloon_type = record { box_vtable = 768; value_vtable = 832; traversible = true }

-- A collector that frees another box.
abbrev elsewhere : Meanwhile
elsewhere n boxes k = if k == 12288 then none else boxes k

abbrev segments : List ℕ
segments = 4160 ∷ 4224 ∷ []

abbrev open_journal : BufferQueue Object
open_journal = make_journal object_size 64

abbrev sixty_four : IsCapacity (next_power_of_two 64)
sixty_four = next_power_of_two-IsCapacity 64 (omega arith)

abbrev empty : Sending (next_power_of_two 64) open_journal []
empty =
    make_journal-Sending object_size 64 (omega arith)
      (omega (arith, next_power_of_two_le 64 (omega arith)))

-- A collector that frees each new box at once.
abbrev at_once : Meanwhile
at_once n boxes k = if k == n then none else boxes k
