-- ===== src/Young/Heap.antt =====
-- src/youngheap.rs, `YoungHeap`: its state, and the two kinds of collection. `CollectOps` is the
-- trait of src/heap.rs that the mature heap implements.
pub mod Collections
pub mod Balance
pub mod Major
pub mod Moves
mod Tests
use mathlib.Core.List.{foldl}
use mo_gc.Common.{
  ℕ, Bool, not, ◌&&◌, Option, none, some, List, [], ◌∷◌, ◌++◌, if◌then◌else◌, length,
}
use mo_gc.Heap.Object.{TraitObject, Object}
use mo_gc.Heap.ObjectMeta.{ObjectMeta}
use mo_gc.Heap.RootMeta.{RootMeta, unsync_is_unrooted, is_new, set_not_new, vtable as root_vtable}
use mo_gc.Journal.Memory.{BufferQueue}
use mo_gc.Mature.{collect, add_object}
use mo_gc.Statistics.{StatsLogger}
use mo_gc.Trie.{Trie}
use mo_gc.Young.Deferred.{merge_deferred}
use mo_gc.Young.Minor.{mark_and_sweep}

-- What a collection of the mature heap returns, with the map of the roots as it leaves it.
pub record CollectResult (Heap Roots : Type 0) : Type 0 where
  pub heap : Heap
  pub roots : Roots
  pub heap_size : ℕ
  pub drop_count : ℕ

-- `CollectOps`, with the schedule of the thread pool.
pub record CollectOps (t : Trie RootMeta) : Type 1 where
  pub Heap : Type 0
  pub add_object : Heap → ℕ → ℕ → Heap
  pub collect : Heap → t.Map → List ℕ → CollectResult Heap t.Map

-- `ParHeap`, the implementation of `CollectOps`.
unfoldable pub par_heap :
    (t : Trie RootMeta) → Trie ObjectMeta → (TraitObject → List TraitObject) → ℕ → CollectOps t
unfolding add_object collect
par_heap t h trace num_threads = record {
  Heap = h.Map;
  add_object = add_object h;
  collect = λ objects roots schedule.
      let (roots', s) = collect t h trace roots objects num_threads schedule in
      record {
        heap = s.objects;
        roots = roots';
        heap_size = s.heap_counter;
        drop_count = s.drop_counter;
      };
}

module _ (t : Trie RootMeta) (trace : TraitObject → List TraitObject) (mature : CollectOps t)
    {Time : Type 0} (logger : StatsLogger Time) where
  pub record YoungHeap : Type 0 where
    pub num_threads : ℕ
    pub journals : List (BufferQueue Object)
    pub roots : t.Map
    pub deferred : List Object
    pub mature_heap : mature.Heap
    pub log : logger.Log

  unfoldable pub new : ℕ → mature.Heap → logger.Log → YoungHeap
  new num_threads mature_heap log = record {
    num_threads = num_threads;
    journals = [];
    roots = t.new;
    deferred = [];
    mature_heap = mature_heap;
    log = log;
  }

  unfoldable pub add_journal : YoungHeap → BufferQueue Object → YoungHeap
  add_journal y recv = record y { journals = y.journals ++ recv ∷ [] }

  unfoldable pub num_journals : YoungHeap → ℕ
  num_journals y = length y.journals

  -- Mark, sweep, merge the deferred decrements, given the turns of the jobs that mark and of those
  -- that merge. Returns the number of new objects; `none` is a panic.
  unfoldable pub minor_collection : YoungHeap → List ℕ → List ℕ → Option (YoungHeap × ℕ)
  minor_collection y marking merging =
      let s = mark_and_sweep t trace y.roots y.num_threads marking in
      elim (merge_deferred t s.roots y.deferred y.num_threads merging).roots [
        | none ↦ none
        | some roots ↦ some (
          record y { roots = roots; deferred = []; log = logger.add_dropped s.drop_counter y.log },
          s.young_counter,
        )
      ]

  -- A new object with a positive count moves to the mature set: its entry is from now on a simple
  -- reference counted root.
  unfoldable pub move_at : t.Map × mature.Heap → ℕ → Option RootMeta → t.Map × mature.Heap
  move_at (roots, heap) ptr none = (roots, heap)
  move_at (roots, heap) ptr (some meta) =
      if not (unsync_is_unrooted meta) && is_new meta
      then (t.set roots ptr (set_not_new meta), mature.add_object heap ptr (root_vtable meta))
      else (roots, heap)

  unfoldable pub move_key : t.Map × mature.Heap → ℕ → t.Map × mature.Heap
  unfolding move_at
  move_key (roots, heap) ptr = move_at (roots, heap) ptr (t.get roots ptr)

  -- Move new objects into the mature heap and collect it, given the turns of its jobs.
  unfoldable pub major_collection : YoungHeap → List ℕ → YoungHeap
  unfolding move_key
  major_collection y schedule =
      let (roots, heap) = foldl move_key (y.roots, y.mature_heap) (t.keys y.roots) in
      let result = mature.collect heap roots schedule in
      record y {
        roots = result.roots;
        mature_heap = result.heap;
        log =
            logger.add_dropped result.drop_count (logger.current_heap_size result.heap_size y.log);
      }
