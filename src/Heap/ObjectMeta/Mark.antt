-- ===== src/Heap/ObjectMeta/Mark.antt =====
-- What the operations on a mature object's mark do.
use mo_gc.Common.{◌-◌, ◌%◌, ◌/◌, ◌^◌, ◌<◌, ◌≡◌, false, ◌&&◌, ◌==◌, arith}
use mo_gc.Common.Bits.{and-one, and-two, or-one, and-not_one}
use mo_gc.Heap.ObjectMeta.{ObjectMeta, mark_and_needs_trace, is_marked, unmark}

-- `mark_and_needs_trace` changes nothing: it sets the mark bit only where it is set already. It
-- asks for a trace exactly of an object that is marked and traversible.
pub mark-noop :
    (m : ObjectMeta)
    → ((mark_and_needs_trace m).0 ≡ m)
      × ((mark_and_needs_trace m).1 ≡ (is_marked m && (m.vtable / 2 % 2 == 1)))
unfolding mark_and_needs_trace is_marked
mark-noop m = ground (arith, and-one m.vtable, and-two m.vtable, or-one m.vtable)

pub is_marked-unmark : (m : ObjectMeta) → m.vtable < 2 ^ 64 → is_marked (unmark m) ≡ false
unfolding is_marked unmark
is_marked-unmark m h = ground (arith, and-not_one m.vtable, and-one (m.vtable - m.vtable % 2))
