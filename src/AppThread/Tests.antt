-- ===== src/AppThread/Tests.antt =====
-- The theorem on journal entries at a concrete input.
use mo_gc.Common.{refl, true, []}
use mo_gc.AppThread.Protocol.{Understood, read_entry-entry_of}
use mo_gc.Heap.Object.{TraitObject}
use mo_gc.Heap.RootMeta.{RootMeta}
use mo_gc.Trie.{Trie}
use mo_gc.Trie.Assoc.{assoc}
use mo_gc.Young.Read.{Reading}

abbrev tries : Trie RootMeta
tries = assoc RootMeta

abbrev start : Reading tries
start = record { entry_count = 0; roots = tries.new; deferred = [] }

abbrev object : TraitObject
object = record { data_ptr = 4096; vtable = 640 }

read_entry-entry_of_example : Understood tries start object true
read_entry-entry_of_example = read_entry-entry_of tries start object true refl
