-- ===== src/Heap/Tests.antt =====
-- The theorems on objects and their metadata at concrete inputs.
use mo_gc.Common.{◌+◌, ◌/◌, ◌%◌, ◌≡◌, refl, not, ◌&&◌, ◌==◌, arith}
use mo_gc.Heap.Object.{key_of, from_trie_ptr, into}
use mo_gc.Heap.Object.Keys.{into-from_trie_ptr}
use mo_gc.Heap.ObjectMeta
use mo_gc.Heap.ObjectMeta.Mark.{mark-noop}
use mo_gc.Heap.RootMeta
use mo_gc.Heap.RootMeta.View.{view, needs_trace-view}

into-from_trie_ptr_example :
    into (from_trie_ptr (key_of 4096) (640 + 3)) ≡ record { data_ptr = 4096; vtable = 640 }
into-from_trie_ptr_example =
    into-from_trie_ptr 4096 640 3 (omega arith) refl (omega arith) refl (omega arith)

mark-noop_example :
    ((ObjectMeta.mark_and_needs_trace (ObjectMeta.new 642)).0 ≡ ObjectMeta.new 642)
    × ((ObjectMeta.mark_and_needs_trace (ObjectMeta.new 642)).1
        ≡ (ObjectMeta.is_marked (ObjectMeta.new 642) && ((ObjectMeta.new 642).vtable / 2 % 2 == 1)))
mark-noop_example = mark-noop (ObjectMeta.new 642)

needs_trace-view_example :
    (RootMeta.mark_and_needs_trace (RootMeta.new 1 640 2)).1
    ≡ (not (view (RootMeta.new 1 640 2)).marked && (view (RootMeta.new 1 640 2)).young)
needs_trace-view_example = needs_trace-view (RootMeta.new 1 640 2)
