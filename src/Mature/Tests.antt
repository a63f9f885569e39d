-- ===== src/Mature/Tests.antt =====
-- The theorems on the mature heap at a concrete input: an object that a root points at.
use mo_gc.Common.{◌≡◌, length, List, [], ◌∷◌, arith}
use mo_gc.Heap.Object.{TraitObject}
use mo_gc.Heap.ObjectMeta.{ObjectMeta}
use mo_gc.Heap.RootMeta.{RootMeta}
use mo_gc.Mature.{add_object, collect}
use mo_gc.Mature.Collect.{swept, collect_unmarked}
use mo_gc.Mature.Counters.{is_unmarked, collect-counters}
use mo_gc.Trie.{Trie}
use mo_gc.Trie.Tally.{tally}
use mo_gc.Trie.Assoc.{assoc}

abbrev tries : Trie RootMeta
tries = assoc RootMeta

abbrev objects : Trie ObjectMeta
objects = assoc ObjectMeta

abbrev trace : TraitObject → List TraitObject
trace o = []

abbrev roots : tries.Map
roots = tries.set tries.new 1 (record { refcount = 1; vtable = 64; flags = 0 })

heap : objects.Map
heap = add_object objects objects.new 1 64

collect_unmarked_example :
    objects.get (collect tries objects trace roots heap 2 (0 ∷ 0 ∷ [])).1.objects 1
    ≡ swept (objects.get heap 1)
collect_unmarked_example =
    collect_unmarked tries objects trace heap roots 2 (0 ∷ 0 ∷ []) 1 (omega arith)

collect-counters_example :
    ((collect tries objects trace roots heap 2 (0 ∷ 0 ∷ [])).1.heap_counter
      ≡ length (objects.keys heap))
    × ((collect tries objects trace roots heap 2 (0 ∷ 0 ∷ [])).1.drop_counter
        ≡ tally (λ k. is_unmarked (objects.get heap k)) (objects.keys heap))
    × (length (collect tries objects trace roots heap 2 (0 ∷ 0 ∷ [])).1.drops
        ≡ tally (λ k. is_unmarked (objects.get heap k)) (objects.keys heap))
collect-counters_example =
    collect-counters tries objects trace roots heap 2 (0 ∷ 0 ∷ []) (omega arith)
