-- ===== src/Mature.antt =====
-- src/parheap.rs, `ParHeap`: the mature heap, marked by a pool of jobs that interleave at the reads
-- and writes of the shared object map, and swept shard by shard.
pub mod Collect
pub mod Counters
pub mod Roots
mod Tests
use mathlib.Core.List.{foldl}
use mo_gc.Common.{
  ℕ, ◌+◌, Bool, true, false, not, ◌&&◌, Option, none, some, List, [], ◌∷◌, ◌==◌, if◌then◌else◌,
}
use mo_gc.Common.Words.{shl}
use mo_gc.Heap.Object.{TraitObject, Object, ptr_shift, key_of, from_trie_ptr, into}
use mo_gc.Heap.ObjectMeta.{
  ObjectMeta, new, mark_and_needs_trace, is_marked, unmark, vtable as vtable_of,
}
use mo_gc.Heap.RootMeta.{
  RootMeta, unsync_is_unrooted, mark_and_needs_trace as mark_root_and_needs_trace,
  vtable as root_vtable,
}
use mo_gc.Heap.TraceStack.{push_to_trace}
use mo_gc.Trie.{Trie, nth, update}

-- An object whose vtable cell a job has read and has not written back yet.
pub record Pending : Type 0 where
  pub key : ℕ
  pub meta : ObjectMeta
  pub obj : Object

-- One job: the rest of its shard of the roots, its trace stack, and the object at hand.
pub record Job : Type 0 where
  pub todo : List ℕ
  pub stack : List Object
  pub pending : Option Pending

abbrev pub job : List ℕ → List Object → Option Pending → Job
job todo stack pending = record { todo = todo; stack = stack; pending = pending }

abbrev pub found_object : Object → Option ObjectMeta → Option Pending
found_object obj none = none
found_object obj (some meta) = some (record { key = key_of obj.ptr; meta = meta; obj = obj })

-- `object.trace(&mut stack)`, which pushes every pointer of the object.
unfoldable pub trace_into : (TraitObject → List TraitObject) → Object → List Object → List Object
unfolding into push_to_trace
trace_into trace obj stack =
    (foldl push_to_trace (record { stack = stack }) (trace (into obj))).stack

module _ (t : Trie RootMeta) (h : Trie ObjectMeta) (trace : TraitObject → List TraitObject) where
  -- The roots, each of which one job owns, the shared objects, and the jobs by number.
  pub record Pool : Type 0 where
    pub roots : t.Map
    pub objects : h.Map
    pub jobs : ℕ → Job

  -- A root is marked, and looked into if it needs tracing.
  unfoldable pub mark_root : t.Map → List ℕ → ℕ → Option RootMeta → t.Map × Job
  unfolding unsync_is_unrooted mark_root_and_needs_trace root_vtable trace_into from_trie_ptr
  mark_root roots todo ptr none = (roots, job todo [] none)
  mark_root roots todo ptr (some meta) =
      let (meta', needs_trace) = mark_root_and_needs_trace meta in
      if unsync_is_unrooted meta then (roots, job todo [] none) else (
        t.set roots ptr meta',
        job todo
            (if needs_trace
              then trace_into trace (from_trie_ptr ptr (root_vtable meta')) []
              else [])
            none,
      )

  -- The object at hand is marked, and looked into if it needs tracing.
  unfoldable pub mark_object : h.Map → List ℕ → List Object → Pending → h.Map × Job
  unfolding mark_and_needs_trace trace_into
  mark_object objects todo stack p =
      let (meta, needs_trace) = mark_and_needs_trace p.meta in
      (
        h.set objects p.key meta,
        job todo (if needs_trace then trace_into trace p.obj stack else stack) none,
      )

  -- The next step of a job: what it has at hand, else the top of its stack, else its next root.
  unfoldable pub step_on :
      t.Map → h.Map → List ℕ → List Object → Option Pending → t.Map × h.Map × Job
  unfolding mark_root mark_object
  step_on roots objects todo stack (some p) =
      let (objects', j) = mark_object objects todo stack p in (roots, objects', j)
  step_on roots objects todo (obj ∷ stack) none =
      (roots, objects, job todo stack (found_object obj (h.get objects (key_of obj.ptr))))
  step_on roots objects (ptr ∷ todo) [] none =
      let (roots', j) = mark_root roots todo ptr (t.get roots ptr) in (roots', objects, j)
  step_on roots objects [] [] none = (roots, objects, job [] [] none)

  unfoldable pub turn : Pool → ℕ → Pool
  unfolding step_on
  turn p i =
      let j = p.jobs i in
      let (roots, objects, j') = step_on p.roots p.objects j.todo j.stack j.pending in
      record { roots = roots; objects = objects; jobs = update p.jobs i j' }

  -- `ParHeap::mark`: one job for each shard of the roots, with the turns that the schedule gives.
  unfoldable pub mark : t.Map → h.Map → ℕ → List ℕ → Pool
  unfolding turn
  mark roots objects num_threads schedule =
      foldl turn
        (record {
          roots = roots;
          objects = objects;
          jobs = λ i. job (nth (t.shards roots num_threads) i) [] none;
        })
        schedule

module _ (h : Trie ObjectMeta) where
  -- The map, the counters of the running job, and the objects whose destructors were run, the last
  -- one first.
  pub record Sweep : Type 0 where
    pub objects : h.Map
    pub heap_counter : ℕ
    pub drop_counter : ℕ
    pub drops : List TraitObject

  unfoldable pub sweep_at : Sweep → ℕ → Option ObjectMeta → Sweep
  unfolding is_marked unmark vtable_of
  sweep_at s ptr none = s
  sweep_at s ptr (some meta) =
      if not (is_marked meta)
      then record s {
        objects = h.remove s.objects ptr;
        heap_counter = s.heap_counter + 1;
        drop_counter = s.drop_counter + 1;
        drops = record { data_ptr = shl ptr ptr_shift; vtable = vtable_of meta } ∷ s.drops;
      }
      else record s {
        objects = h.set s.objects ptr (unmark meta);
        heap_counter = s.heap_counter + 1;
      }

  unfoldable pub sweep_key : Sweep → ℕ → Sweep
  unfolding sweep_at
  sweep_key s ptr = sweep_at s ptr (h.get s.objects ptr)

  -- One job: its counters start at zero and are added to the totals at the end.
  unfoldable pub sweep_shard : Sweep → List ℕ → Sweep
  unfolding sweep_key
  sweep_shard s shard =
      let local = foldl sweep_key (record s { heap_counter = 0; drop_counter = 0 }) shard in
      record local {
        heap_counter = s.heap_counter + local.heap_counter;
        drop_counter = s.drop_counter + local.drop_counter;
      }

  -- `ParHeap::sweep`. Returns the heap object count and the dropped object count.
  unfoldable pub sweep : h.Map → ℕ → Sweep
  unfolding sweep_shard
  sweep objects num_threads =
      foldl sweep_shard
        (record { objects = objects; heap_counter = 0; drop_counter = 0; drops = [] })
        (h.shards objects num_threads)

  -- `ptr` is assumed to already be right-shift adjusted
  unfoldable pub add_object : h.Map → ℕ → ℕ → h.Map
  unfolding new
  add_object objects ptr vtable = h.set objects ptr (new vtable)

-- `ParHeap::collect`, with the roots as the mark phase leaves them.
unfoldable pub collect :
    (t : Trie RootMeta) (h : Trie ObjectMeta)
    → (TraitObject → List TraitObject)
    → t.Map
    → h.Map
    → ℕ
    → List ℕ
    → t.Map × Sweep h
unfolding mark sweep
collect t h trace roots objects num_threads schedule =
    let p = mark t h trace roots objects num_threads schedule in
    (p.roots, sweep h p.objects num_threads)
