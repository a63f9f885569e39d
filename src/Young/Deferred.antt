-- ===== src/Young/Deferred.antt =====
-- src/youngheap.rs, `YoungHeap::merge_deferred`: the deferred decrements are split into chunks, one
-- job for each, and the jobs interleave at the atomic decrements.
pub mod Chunks
pub mod Merged
pub mod Finish
pub mod Panic
mod Tests
use mathlib.Core.List.{foldl}
use mo_gc.Common.{
  take, drop, ℕ, zero, suc, ◌-◌, ◌/◌, max, Option, none, some, List, [], ◌∷◌, ◌==◌, if◌then◌else◌,
  length,
}
use mo_gc.Heap.Object.{Object, key_of}
use mo_gc.Heap.RootMeta.{RootMeta, dec}
use mo_gc.Trie.{Trie}

module _ {ℓ} {A : Type ℓ} where
  -- `slice::chunks`; a slice has fewer chunks than items.
  unfoldable pub chunks : ℕ → ℕ → List A → List (List A)
  chunks zero size xs = []
  chunks (suc fuel) size [] = []
  chunks (suc fuel) size (x ∷ xs) = take size (x ∷ xs) ∷ chunks fuel size (drop size (x ∷ xs))

unfoldable pub chunk_size : ℕ → ℕ → ℕ
chunk_size len num_threads = max 1 (len / num_threads)

-- The next object of a job, and the jobs after it.
unfoldable pub next_of : List (List Object) → ℕ → Option Object × List (List Object)
next_of [] i = (none, [])
next_of ([] ∷ jobs) zero = (none, [] ∷ jobs)
next_of ((o ∷ os) ∷ jobs) zero = (some o, os ∷ jobs)
next_of (os ∷ jobs) (suc i) = let (o, rest) = next_of jobs i in (o, os ∷ rest)

module _ (t : Trie RootMeta) where
  open t use {Map, get, set}

  -- The map, `none` after a panic, and what the jobs have not seen yet.
  pub record Merge : Type 0 where
    pub roots : Option Map
    pub jobs : List (List Object)

  -- There should never be something in the deferred buffer that is not in the map: `unreachable!()`
  unfoldable pub dec_at : Map → ℕ → Option RootMeta → Option Map
  unfolding dec
  dec_at roots ptr none = none
  dec_at roots ptr (some meta) = some (set roots ptr (dec meta))

  unfoldable pub dec_object : Option Object → Option Map → Option Map
  unfolding dec_at
  dec_object none roots = roots
  dec_object (some object) none = none
  dec_object (some object) (some roots) =
      dec_at roots (key_of object.ptr) (get roots (key_of object.ptr))

  unfoldable pub merge_turn : Merge → ℕ → Merge
  unfolding next_of dec_object
  merge_turn s i =
      let (object, rest) = next_of s.jobs i in
      record { roots = dec_object object s.roots; jobs = rest }

  -- The jobs at the start, and the jobs when the turns of the schedule have been taken. A division
  -- by zero threads panics.
  unfoldable pub merge_deferred : Map → List Object → ℕ → List ℕ → Merge
  unfolding chunks chunk_size merge_turn
  merge_deferred roots deferred num_threads schedule =
      foldl merge_turn
        (record {
          roots = if num_threads == 0 then none else some roots;
          jobs = chunks (length deferred) (chunk_size (length deferred) num_threads) deferred;
        })
        schedule
