-- ===== src/AppThread/Spawn.antt =====
-- src/appthread.rs, `AppThread::spawn_from_gc`: a new application thread makes its journal, sends the
-- receiving end to the collector thread, and keeps the sending end as its own. The channel to the
-- collector thread is the list of what was sent on it.
use mo_gc.Heap.Object.{object_size}
use mo_gc.Common.{List, [], ◌∷◌, ◌++◌}
use mo_gc.Constants.{journal_buffer_size}
use mo_gc.Heap.Object.{Object}
use mo_gc.Journal.Memory.{BufferQueue}
use mo_gc.Journal.Queue.{make_journal}

abbrev pub JournalChannel : Type 0
JournalChannel = List (BufferQueue Object)

-- The channel with the new journal on it, and the thread-local `GC_JOURNAL` of the new thread.
unfoldable pub spawn_from_gc : JournalChannel → JournalChannel × BufferQueue Object
unfolding make_journal
spawn_from_gc tx =
    let journal = make_journal object_size journal_buffer_size in (tx ++ journal ∷ [], journal)
