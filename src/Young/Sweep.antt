-- ===== src/Young/Sweep.antt =====
-- src/youngheap.rs, `YoungHeap::sweep`: unmarked new objects are dropped, unrooted entries of old
-- objects are removed, the rest is unmarked. Shards have no key in common, so they are taken one
-- after the other.
pub mod Entry
pub mod Drops
pub mod Counters
use mathlib.Core.List.{foldl}
use mo_gc.Common.{
  ℕ, ◌+◌, Bool, true, false, not, ◌&&◌, Option, none, some, List, [], ◌∷◌, if◌then◌else◌,
}
use mo_gc.Heap.Object.{TraitObject, from_trie_ptr, into}
use mo_gc.Heap.RootMeta.{RootMeta, unsync_is_unrooted, is_new, is_new_and_unmarked, unmark}
use mo_gc.Trie.{Trie}

-- What the closure given to `retain_if` decides, with the entry that it leaves behind.
pub data Fate : Type 0 where
  retained : RootMeta → Fate
  -- the object is dropped, and so is its entry
  dropped : Fate
  removed : Fate

unfoldable pub fate : RootMeta → Fate
unfolding is_new_and_unmarked is_new unsync_is_unrooted unmark
fate meta =
    if is_new_and_unmarked meta
    then dropped
    else if not (is_new meta) && unsync_is_unrooted meta
    then removed
    else retained (unmark meta)

module _ (t : Trie RootMeta) where
  open t use {Map, get, set, remove}

  -- The map, the counters of the running job, and the objects whose destructors were run, the last
  -- one first.
  pub record Sweep : Type 0 where
    pub roots : Map
    pub young_counter : ℕ
    pub drop_counter : ℕ
    pub drops : List TraitObject

  pub sweep_entry : Sweep → ℕ → RootMeta → Fate → Sweep
  unfolding is_new into from_trie_ptr
  sweep_entry s ptr meta dropped = record s {
    roots = remove s.roots ptr;
    drop_counter = s.drop_counter + 1;
    drops = into (from_trie_ptr ptr meta.vtable) ∷ s.drops;
  }
  sweep_entry s ptr meta removed = record s { roots = remove s.roots ptr }
  sweep_entry s ptr meta (retained meta') = record s {
    roots = set s.roots ptr meta';
    young_counter = s.young_counter + (if is_new meta then 1 else 0);
  }

  pub sweep_at : Sweep → ℕ → Option RootMeta → Sweep
  unfolding sweep_entry fate
  sweep_at s ptr none = s
  sweep_at s ptr (some meta) = sweep_entry s ptr meta (fate meta)

  pub sweep_key : Sweep → ℕ → Sweep
  unfolding sweep_at
  sweep_key s ptr = sweep_at s ptr (get s.roots ptr)

  -- One job: its counters start at zero and are added to the totals at the end.
  pub sweep_shard : Sweep → List ℕ → Sweep
  unfolding sweep_key
  sweep_shard s shard =
      let local = foldl sweep_key (record s { young_counter = 0; drop_counter = 0 }) shard in
      record local {
        young_counter = s.young_counter + local.young_counter;
        drop_counter = s.drop_counter + local.drop_counter;
      }

  -- Returns the young object count and the dropped count.
  pub sweep : Map → ℕ → Sweep
  unfolding sweep_shard
  sweep roots num_threads =
      foldl sweep_shard (record { roots = roots; young_counter = 0; drop_counter = 0; drops = [] })
        (t.shards roots num_threads)
