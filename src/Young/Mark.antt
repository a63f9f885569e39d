-- ===== src/Young/Mark.antt =====
-- src/youngheap.rs, `YoungHeap::mark`: the jobs of the thread pool, one for each shard of the roots,
-- interleaved in any order at the reads and the writes of the shared map.
pub mod Reach
pub mod Same
pub mod Step
pub mod Commit
pub mod Invariant
pub mod Correct
pub mod Work
pub mod Turns
pub mod Finish
use mo_gc.Common.{
  ℕ, zero, suc, Bool, true, false, not, ◌||◌, Option, none, some, List, [], ◌∷◌, ◌==◌,
  if◌then◌else◌,
}
use mathlib.Core.List.{foldl}
use mo_gc.Heap.Object.{TraitObject, Object, key_of, from_trie_ptr, into}
use mo_gc.Heap.RootMeta.{
  RootMeta, unsync_is_unrooted, is_new, mark_and_needs_trace, vtable as vtable_of,
}
use mo_gc.Heap.TraceStack
use mo_gc.Heap.TraceStack.{TraceStack, push_to_trace}
use mo_gc.Trie.{Trie, nth, update}

-- An entry whose flags a job has read and has not written back yet.
pub record Pending : Type 0 where
  pub key : ℕ
  pub meta : RootMeta
  pub obj : Object

-- One job: the rest of its shard, its trace stack, and what it is about to mark.
pub record Job : Type 0 where
  pub todo : List ℕ
  pub stack : TraceStack
  pub pending : Option Pending

abbrev pub job : List ℕ → TraceStack → Option Pending → Job
job todo stack pending = record { todo = todo; stack = stack; pending = pending }

-- Entries with a positive reference count, and entries that are not new, are possible roots.
unfoldable pub is_root : RootMeta → Bool
is_root meta = not (unsync_is_unrooted meta) || not (is_new meta)

-- `object.trace(&mut stack)`, which pushes every pointer of the object.
pub trace_into : (TraitObject → List TraitObject) → Object → TraceStack → TraceStack
unfolding into push_to_trace
trace_into trace obj stack = foldl push_to_trace stack (trace (into obj))

pub is_finished : Job → Bool
is_finished j = elim j.todo [
  | _ ∷ _ ↦ false
  | [] ↦ elim j.stack.stack [ _ ∷ _ ↦ false | [] ↦ elim j.pending [ some _ ↦ false | none ↦ true ] ]
]

-- `if let Some(meta) = objects.get(ptr)`
abbrev pub found_object : Object → Option RootMeta → Option Pending
found_object obj none = none
found_object obj (some meta) = some (record { key = key_of obj.ptr; meta = meta; obj = obj })

unfoldable pub found_root : ℕ → Option RootMeta → Option Pending
unfolding is_root from_trie_ptr vtable_of
found_root ptr none = none
found_root ptr (some meta) =
    if is_root meta
    then some (record { key = ptr; meta = meta; obj = from_trie_ptr ptr (vtable_of meta) })
    else none

module _ (t : Trie RootMeta) (trace : TraitObject → List TraitObject) where
  open t use {Map, get, set}

  -- The entry is marked, and looked into if it needs tracing. (Where it was marked already the
  -- write puts back what was read.)
  pub commit : Map → List ℕ → TraceStack → Pending → Map × Job
  unfolding mark_and_needs_trace trace_into
  commit roots todo stack p =
      let (meta, needs_trace) = mark_and_needs_trace p.meta in
      (
        set roots p.key meta,
        job todo (if needs_trace then trace_into trace p.obj stack else stack) none,
      )

  -- An object off the trace stack is looked up in the whole map.
  pub visit : Map → List ℕ → Object → List Object → Map × Job
  visit roots todo obj rest =
      (roots, job todo (record { stack = rest }) (found_object obj (get roots (key_of obj.ptr))))

  -- An entry of the shard is marked if it may be a root.
  pub scan : Map → ℕ → List ℕ → Map × Job
  scan roots ptr rest = (roots, job rest (record { stack = [] }) (found_root ptr (get roots ptr)))

  -- The next step of a job.
  pub step_on : Map → List ℕ → List Object → Option Pending → Map × Job
  unfolding commit visit scan
  step_on roots todo stack (some p) = commit roots todo (record { stack = stack }) p
  step_on roots todo (obj ∷ rest) none = visit roots todo obj rest
  step_on roots (ptr ∷ rest) [] none = scan roots ptr rest
  step_on roots [] [] none = (roots, job [] (record { stack = [] }) none)

  pub step : Map → Job → Map × Job
  unfolding step_on
  step roots j = step_on roots j.todo j.stack.stack j.pending

  -- The pool with its jobs, by number.
  pub record Pool : Type 0 where
    pub roots : Map
    pub jobs : ℕ → Job

  pub turn : Pool → ℕ → Pool
  unfolding step
  turn p i =
      let (roots, j) = step p.roots (p.jobs i) in record { roots = roots; jobs = update p.jobs i j }

  -- The jobs take turns as the schedule says.
  pub run : Pool → List ℕ → Pool
  unfolding turn
  run p schedule = foldl turn p schedule

  -- One job for each shard. (A number without a shard names a job with nothing to do.)
  pub start : Map → ℕ → Pool
  start roots num_threads = record {
    roots = roots;
    jobs = λ i. job (nth (t.shards roots num_threads) i) TraceStack.new none;
  }
