-- ===== src/Thread/Schedules.antt =====
-- Turns that are enough for every job of a minor collection exist.
use mo_gc.Common.{
  ℕ, zero, suc, ◌+◌, ◌≤◌, ◌<◌, ◌^◌, ◌≡◌, ◌⊎◌, refl, ap, inl, inr, List, [], ◌∷◌, ◌++◌, ◌==◌, length,
  some, arith, Bool-cases, ==_iff,
}
use mo_gc.Heap.Object.{TraitObject, Object}
use mo_gc.Heap.RootMeta.{RootMeta}
use mo_gc.Statistics.{StatsLogger}
use mo_gc.Thread.{Turns}
use mo_gc.Thread.Iteration.{Finishes}
use mo_gc.Trie.{Trie, nth}
use mo_gc.Young.Deferred.{chunks, chunk_size}
use mo_gc.Young.Deferred.Finish.{job_of, turns_of, no-job_left}
use mo_gc.Young.Heap.{CollectOps}
use mo_gc.Young.Mark.Reach.{ByAddress}
use mo_gc.Young.Mark.Finish.{turns, turns_needed, mark_finishes}
use mo_gc.Young.Minor.{mark_and_sweep}

-- So many turns of one job, and of each of the first jobs.
abbrev pub turns_for : ℕ → ℕ → List ℕ
turns_for zero i = []
turns_for (suc n) i = i ∷ turns_for n i

abbrev pub turns_for_all : (ℕ → ℕ) → ℕ → List ℕ
turns_for_all need zero = []
turns_for_all need (suc jobs) = turns_for (need jobs) jobs ++ turns_for_all need jobs

turns_of-append : (i : ℕ) (xs ys : List ℕ) → turns_of i (xs ++ ys) ≡ turns_of i xs + turns_of i ys
turns_of-append i [] ys = omega arith
turns_of-append i (x ∷ xs) ys = omega (arith, turns_of-append i xs ys)

turns_of-turns_for : (n i : ℕ) → turns_of i (turns_for n i) ≡ n
turns_of-turns_for zero i = refl
turns_of-turns_for (suc n) i = ground (arith, turns_of-turns_for n i)

turns_for-enough :
    (need : ℕ → ℕ) (jobs i : ℕ) → i < jobs → need i ≤ turns_of i (turns_for_all need jobs)
turns_for-enough need zero i h = absurd (omega arith)
turns_for-enough need (suc jobs) i h =
    let split = turns_of-append i (turns_for (need jobs) jobs) (turns_for_all need jobs) in
    elim (Bool-cases (i == jobs)) [
      | inl last ↦
          let e : i ≡ jobs = (==_iff i jobs).0 last in
          rw e (
            omega (
              arith,
              turns_of-append jobs (turns_for (need jobs) jobs) (turns_for_all need jobs),
              turns_of-turns_for (need jobs) jobs,
            ))
      | inr other ↦ omega (arith, split, turns_for-enough need jobs i (ground arith))
    ]

nth-beyond : (xss : List (List ℕ)) (i : ℕ) → length xss ≤ i → nth xss i ≡ []
nth-beyond [] i h = refl
nth-beyond (xs ∷ xss) zero h = absurd (omega arith)
nth-beyond (xs ∷ xss) (suc i) h = nth-beyond xss i (omega arith)

job_of-beyond : (jobs : List (List Object)) (i : ℕ) → length jobs ≤ i → job_of jobs i ≡ []
job_of-beyond [] i h = refl
job_of-beyond (os ∷ jobs) zero h = absurd (omega arith)
job_of-beyond (os ∷ jobs) (suc i) h = job_of-beyond jobs i (omega arith)

in_order : (i n : ℕ) → (i < n) ⊎ (n ≤ i)
in_order i zero = inr (omega arith)
in_order zero (suc n) = inl (omega arith)
in_order (suc i) (suc n) = elim (in_order i n) [
  | inl less ↦ inl (omega arith)
  | inr more ↦ inr (omega arith)
]

module _ (t : Trie RootMeta) (trace : TraitObject → List TraitObject) (mature : CollectOps t)
    {Time : Type 0} (logger : StatsLogger Time) (by : ByAddress trace) where
  turns-same : (i : ℕ) (schedule : List ℕ) → turns t trace by i schedule ≡ turns_of i schedule
  turns-same i [] = refl
  turns-same i (n ∷ schedule) = omega (arith, turns-same i schedule)

  -- One job after the other, each as often as it needs.
  pub turns_in_order : t.Map → List Object → ℕ → Turns
  turns_in_order roots deferred num_threads =
      let shards = t.shards roots num_threads in
      let parts = chunks (length deferred) (chunk_size (length deferred) num_threads) deferred in
      record {
        marking = turns_for_all (λ i. turns_needed t trace by roots (nth shards i)) (length shards);
        merging = turns_for_all (λ i. length (job_of parts i)) (length parts);
        major = [];
      }

  -- For any map whose keys are below 2 ^ 61 and any decrements put off, with at least one thread and
  -- tracing by address, there are turns with which all jobs of a minor collection come to their
  -- ends: those that run one job after the other.
  pub turns_in_order-Finishes :
      (roots : t.Map) (deferred : List Object) (num_threads : ℕ)
      → 0 < num_threads
      → ((k : ℕ) (m : RootMeta) → t.get roots k ≡ some m → k < 2 ^ 61)
      → Finishes t trace mature logger roots deferred num_threads
          (turns_in_order roots deferred num_threads)
  unfolding turns_in_order
  turns_in_order-Finishes roots deferred num_threads pos short =
      let shards = t.shards roots num_threads in
      let parts = chunks (length deferred) (chunk_size (length deferred) num_threads) deferred in
      let u = turns_in_order roots deferred num_threads in
      record {
        marked = mark_finishes t trace by roots num_threads u.marking pos short (λ i.
            elim (in_order i (length shards)) [
              | inl less ↦ inr (
                  omega (
                    arith,
                    turns-same i u.marking,
                    turns_for-enough (λ i. turns_needed t trace by roots (nth shards i))
                        (length shards) i less,
                  ))
              | inr more ↦ inl (nth-beyond shards i more)
            ]);
        merged =
            no-job_left t (mark_and_sweep t trace roots num_threads u.marking).roots deferred
              num_threads u.merging
              (λ i. elim (in_order i (length parts)) [
                | inl less ↦ turns_for-enough (λ i. length (job_of parts i)) (length parts) i less
                | inr more ↦ omega (arith, ap length (job_of-beyond parts i more))
              ]);
      }
