-- ===== src/Young/Heap/Balance.antt =====
-- What a minor collection does to the balance of the counts with the roots of the application.
use mo_gc.Common.{
  ℕ, ◌<◌, ◌≡◌, sym, ◌∙◌, subst, inl, inr, true, false, none, some, List, [], arith, Bool-cases,
  Option-cases,
}
use mathlib.Core.Option.{some-injective}
use mo_gc.Heap.Object.{TraitObject, Object}
use mo_gc.Heap.RootMeta.{RootMeta, is_new, unsync_is_unrooted}
use mo_gc.Heap.RootMeta.View.{IsValid, marked_of}
use mo_gc.Statistics.{StatsLogger}
use mo_gc.Trie.{Trie, concat}
use mo_gc.Young.Balance.{IsBalanced, balanced-IsCovered}
use mo_gc.Young.Deferred.{merge_deferred}
use mo_gc.Young.Mark.{is_root, run, start}
use mo_gc.Young.Mark.Reach.{ByAddress, root}
use mo_gc.Young.Mark.Correct.{Finished}
use mo_gc.Young.Minor.{mark_and_sweep}
use mo_gc.Young.Heap.{CollectOps, YoungHeap, minor_collection}
use mo_gc.Young.Heap.Collections.{IsSteady, minor_collection_lem}

counted-is_root : (m : RootMeta) → 0 < m.refcount → is_root m ≡ true
unfolding is_root unsync_is_unrooted
counted-is_root m h = ground arith

pub counted-unsync_is_unrooted : (m : RootMeta) → 0 < m.refcount → unsync_is_unrooted m ≡ false
unfolding unsync_is_unrooted
counted-unsync_is_unrooted m h = ground arith

module _ (t : Trie RootMeta) (trace : TraitObject → List TraitObject) (mature : CollectOps t)
    {Time : Type 0} (logger : StatsLogger Time) where
  -- Changes of the entries that keep the counts.
  pub record IsChange (m m' : RootMeta) : Type 0 where
    pub count : m'.refcount ≡ m.refcount
    pub valid : IsValid m'
    pub clean : marked_of m'.flags ≡ true → is_new m' ≡ false

  pub changed-IsBalanced :
      (roots roots' : t.Map) (deferred : List Object) (live : ℕ → ℕ)
      → IsBalanced t roots deferred live
      → ((k : ℕ) → t.get roots k ≡ none → t.get roots' k ≡ none)
      → ((k : ℕ) (m : RootMeta)
          → t.get roots k ≡ some m
          → (m' : RootMeta) × (t.get roots' k ≡ some m') × IsChange m m')
      → IsBalanced t roots' deferred live
  changed-IsBalanced roots roots' deferred live b absent change = record {
    ready = record {
      short = λ k m' h. let (m, at, c) = back k m' h in b.ready.short k m at;
      valid = λ k m' h. let (m, at, c) = back k m' h in c.valid;
      clean = λ k m' h. let (m, at, c) = back k m' h in c.clean;
    };
    counted = λ k m' h. let (m, at, c) = back k m' h in c.count ∙ b.counted k m at;
    known = λ k h. let (m, at) = b.known k h in let (m', at', c) = change k m at in (m', at');
  }
    where
      back :
          (k : ℕ) (m' : RootMeta)
          → t.get roots' k ≡ some m'
          → (m : RootMeta) × (t.get roots k ≡ some m) × IsChange m m'
      back k m' h = elim (Option-cases (t.get roots k)) [
        | inl gone ↦ let none_left = absent k gone in cc
        | inr (m, at) ↦
            let (m1, at1, c) = change k m at in
            (m, at, subst (IsChange m) (some-injective _ _ (sym at1 ∙ h)) c)
      ]

  module _ (by : ByAddress trace) (y : YoungHeap t trace mature logger) (live : ℕ → ℕ)
      (b : IsBalanced t y.roots y.deferred live) (pos : 0 < y.num_threads)
      (marking merging : List ℕ)
      (done : Finished (run t trace (start t trace y.roots y.num_threads) marking)) where
    pub balanced-IsSteady : IsSteady t trace mature logger by y
    balanced-IsSteady = record {
      ready = b.ready;
      covered = balanced-IsCovered t y.roots y.deferred live b;
    }

    -- From a heap whose counts are in balance with the roots of the application (each count the
    -- number of roots on the object and of its decrements put off, as far as entries were read; the
    -- map ready), with at least one thread, tracing by address, and all jobs finished: a minor
    -- collection does not panic, nothing is put off afterwards, and each count is then exactly the
    -- number of roots on its object; every object that has a root still has its entry.
    pub minor_collection-IsBalanced :
        concat
            (merge_deferred t
              (mark_and_sweep t trace y.roots y.num_threads marking).roots
              y.deferred
              y.num_threads
              merging).jobs
          ≡ []
        → (y' : YoungHeap t trace mature logger) × (young : ℕ) × (minor_collection t trace mature
              logger y marking merging
            ≡ some (y', young))
          × (y'.deferred ≡ [])
          × (y'.num_threads ≡ y.num_threads)
          × (y'.journals ≡ y.journals)
          × IsBalanced t y'.roots [] live
    minor_collection-IsBalanced merged_all =
        let (y', young, runs, entries, back, deferred, threads, journals, steady) =
          minor_collection_lem t trace mature logger by y balanced-IsSteady pos marking merging done
            merged_all in
        (
          y',
          young,
          runs,
          deferred,
          threads,
          journals,
          record {
            ready = steady.ready;
            counted =
                λ k m' h. let (m, at, e) = back k m' h in rw e (omega (arith, b.counted k m at));
            known = λ k h.
                let (m, at) = b.known k (omega arith) in
                let count : 0 < m.refcount = omega (arith, b.counted k m at) in
                let e = entries k m at in
                elim (Bool-cases (is_new m)) [
                  | inl young_one ↦ (_, e.kept young_one (root at (counted-is_root m count)))
                  | inr old ↦
                      let left = rw (counted-unsync_is_unrooted m count) at e.old old in (_, left)
                ];
          },
        )
