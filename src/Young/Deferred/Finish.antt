-- ===== src/Young/Deferred/Finish.antt =====
-- The jobs of the merge come to their ends: each turn of a job takes one object off its chunk.
use mathlib.Core.List.{foldl}
use mo_gc.Common.{
  ℕ, zero, suc, ◌+◌, ◌≤◌, ◌<◌, ◌≡◌, refl, inl, inr, some, List, [], ◌∷◌, ◌==◌, if◌then◌else◌,
  length, drop, arith, Bool-cases,
}
use mo_gc.Heap.Object.{Object}
use mo_gc.Heap.RootMeta.{RootMeta}
use mo_gc.Trie.{Trie, concat}
use mo_gc.Young.Deferred.Merged.{Merged, IsCovered, merge_deferred_lem}
use mo_gc.Young.Deferred.{next_of, Merge, merge_turn, chunks, chunk_size, merge_deferred}

-- What a job has left.
abbrev pub job_of : List (List Object) → ℕ → List Object
job_of [] i = []
job_of (os ∷ jobs) zero = os
job_of (os ∷ jobs) (suc i) = job_of jobs i

-- How often a schedule gives the job its turn.
abbrev pub turns_of : ℕ → List ℕ → ℕ
turns_of i [] = 0
turns_of i (n ∷ schedule) = (if i == n then 1 else 0) + turns_of i schedule

job_of-next_of :
    (jobs : List (List Object)) (n i : ℕ)
    → job_of (next_of jobs n).1 i ≡ (if i == n then drop 1 (job_of jobs i) else job_of jobs i)
unfolding next_of
job_of-next_of [] n i = ground arith
job_of-next_of ([] ∷ jobs) zero zero = refl
job_of-next_of ([] ∷ jobs) zero (suc i) = ground arith
job_of-next_of ((o ∷ os) ∷ jobs) zero zero = refl
job_of-next_of ((o ∷ os) ∷ jobs) zero (suc i) = ground arith
job_of-next_of ([] ∷ jobs) (suc n) zero = ground arith
job_of-next_of ((o ∷ os) ∷ jobs) (suc n) zero = ground arith
job_of-next_of ([] ∷ jobs) (suc n) (suc i) = ground (arith, job_of-next_of jobs n i)
job_of-next_of ((o ∷ os) ∷ jobs) (suc n) (suc i) = ground (arith, job_of-next_of jobs n i)

all_empty : (jobs : List (List Object)) → ((i : ℕ) → length (job_of jobs i) ≡ 0) → concat jobs ≡ []
all_empty [] h = refl
all_empty ([] ∷ jobs) h = all_empty jobs (λ i. h (suc i))
all_empty ((o ∷ os) ∷ jobs) h = absurd (omega (arith, h 0))

tail-le : (os : List Object) (n : ℕ) → length os ≤ 1 + n → length (drop 1 os) ≤ n
tail-le [] n h = omega arith
tail-le (o ∷ os) n h = omega arith

module _ (t : Trie RootMeta) where
  runs_out :
      (schedule : List ℕ) (s : Merge t)
      → ((i : ℕ) → length (job_of s.jobs i) ≤ turns_of i schedule)
      → concat (foldl (merge_turn t) s schedule).jobs ≡ []
  unfolding merge_turn
  runs_out [] s few = all_empty s.jobs (λ i. omega (arith, few i))
  runs_out (n ∷ schedule) s few = runs_out schedule (merge_turn t s n) (λ i.
      elim (Bool-cases (i == n)) [
        | inl mine ↦
            let h : length (job_of s.jobs i) ≤ 1 + turns_of i schedule = ground (arith, few i) in
            rw (job_of-next_of s.jobs n i, mine) (tail-le (job_of s.jobs i) (turns_of i schedule) h)
        | inr other ↦ rw (job_of-next_of s.jobs n i, other) (ground (arith, few i))
      ])

  -- Once every job has had as many turns as it has objects in its chunk, no decrement is left.
  pub no-job_left :
      (roots : t.Map) (deferred : List Object) (num_threads : ℕ) (schedule : List ℕ)
      → ((i : ℕ)
          → length (
              job_of
                (chunks (length deferred) (chunk_size (length deferred) num_threads) deferred)
                i)
            ≤ turns_of i schedule)
      → concat (merge_deferred t roots deferred num_threads schedule).jobs ≡ []
  unfolding merge_deferred
  no-job_left roots deferred num_threads schedule enough = runs_out schedule _ enough

  -- The merge is made to its end: with a thread, and where every deferred decrement has an entry with
  -- a count that covers it, once every job has had as many turns as it has objects in its chunk, in
  -- whatever order, no decrement is left in any job, the merge has not panicked, and every decrement
  -- has been made: each count has gone down by the number of its decrements, and the rest of the map
  -- is as it was.
  pub merge_deferred-completes :
      (roots : t.Map) (deferred : List Object) (num_threads : ℕ) (schedule : List ℕ)
      → 0 < num_threads
      → IsCovered t roots deferred
      → ((i : ℕ)
          → length (
              job_of
                (chunks (length deferred) (chunk_size (length deferred) num_threads) deferred)
                i)
            ≤ turns_of i schedule)
      → (concat (merge_deferred t roots deferred num_threads schedule).jobs ≡ [])
        × ((r' : t.Map) × ((merge_deferred t roots deferred num_threads schedule).roots ≡ some r')
            × Merged t roots deferred r')
  merge_deferred-completes roots deferred num_threads schedule pos covered enough =
      let done = no-job_left roots deferred num_threads schedule enough in
      (done, merge_deferred_lem t roots deferred num_threads schedule pos covered done)
