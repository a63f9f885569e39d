-- ===== src/Young/Heap/Collections.antt =====
-- What the two kinds of collection owe to the state of the young heap.
use mo_gc.Common.{
  ℕ, ◌-◌, ◌<◌, ◌^◌, ◌≡◌, refl, sym, ap, ◌∙◌, inl, inr, true, false, none, some, List, [],
  if◌then◌else◌, arith, Bool-cases, Option-cases,
}
use mathlib.Core.Option.{some-injective}
use mo_gc.Heap.Object.{TraitObject}
use mo_gc.Heap.RootMeta.{RootMeta, is_new, unsync_is_unrooted, unmark}
use mo_gc.Heap.RootMeta.View.{marked_of}
use mo_gc.Statistics.{StatsLogger}
use mo_gc.Trie.{Trie, concat}
use mo_gc.Young.Mark.{is_root, run, start}
use mo_gc.Young.Mark.Reach.{ByAddress, Reach, root}
use mo_gc.Young.Mark.Correct.{Finished}
use mo_gc.Young.Deferred.{merge_deferred}
use mo_gc.Young.Deferred.Chunks.{occurrences}
use mo_gc.Young.Deferred.Merged.{Merged, IsCovered, merge_deferred_lem}
use mo_gc.Young.Minor.{
  IsReady, Collected, mark_and_sweep, is_dropped, collect_garbage, collect-IsReady, after-entry,
  after-unmarked,
}
use mo_gc.Young.Heap.{CollectOps, YoungHeap, minor_collection}

module _ (t : Trie RootMeta) (trace : TraitObject → List TraitObject) (mature : CollectOps t)
    {Time : Type 0} (logger : StatsLogger Time) (by : ByAddress trace) where
  -- Every deferred decrement is one that the counts cover, and the map is ready.
  pub record IsSteady (y : YoungHeap t trace mature logger) : Type 0 where
    pub ready : IsReady t y.roots
    pub covered : IsCovered t y.roots y.deferred

  module _ (y : YoungHeap t trace mature logger) (steady : IsSteady y) (pos : 0 < y.num_threads)
      (marking merging : List ℕ)
      (done : Finished (run t trace (start t trace y.roots y.num_threads) marking)) where
    abbrev swept : t.Map
    swept = (mark_and_sweep t trace y.roots y.num_threads marking).roots

    collected :
        (k : ℕ) (m : RootMeta)
        → t.get y.roots k ≡ some m
        → Collected t trace y.roots (mark_and_sweep t trace y.roots y.num_threads marking) k m
    collected k m at =
        collect_garbage t trace by y.roots steady.ready y.num_threads marking pos done k m at

    -- An entry with a positive count outlives the sweep.
    rooted-kept :
        (k : ℕ) (m : RootMeta)
        → t.get y.roots k ≡ some m
        → 0 < m.refcount
        → t.get swept k ≡ some (unmark m)
    unfolding is_root unsync_is_unrooted
    rooted-kept k m at count =
        let c = collected k m at in
        let rooted : unsync_is_unrooted m ≡ false = ground arith in
        elim (Bool-cases (is_new m)) [
          | inl new ↦
              elim (Bool-cases
                (is_dropped t trace (mark_and_sweep t trace y.roots y.num_threads marking) k)) [
                  | inl gone ↦ absurd ((c.destroyed.0 gone).1 (root at (ground arith)))
                  | inr there ↦ c.kept new there
                ]
          | inr old ↦ c.old old ∙ rw rooted refl
        ]

    swept-entry :
        (k : ℕ) (m' : RootMeta)
        → t.get swept k ≡ some m'
        → (m : RootMeta) × (t.get y.roots k ≡ some m) × (m' ≡ unmark m)
    swept-entry k m' h =
        after-entry t trace by y.roots steady.ready y.num_threads marking pos done k m' h

    swept-IsCovered : IsCovered t swept y.deferred
    unfolding unmark
    swept-IsCovered = record {
      enough = λ k m' h.
          let (m, at, e) = swept-entry k m' h in rw (e, unmark) (steady.covered.enough k m at);
      fits = λ k m' h.
          let (m, at, e) = swept-entry k m' h in rw (e, unmark) (steady.covered.fits k m at);
      known = λ k h.
          let (m, at) = steady.covered.known k h in
          (unmark m, rooted-kept k m at (omega (arith, steady.covered.enough k m at)));
    }

    abbrev less : ℕ → RootMeta → RootMeta
    less k m = record m { refcount = m.refcount - occurrences k y.deferred }

    -- The entry once its mark was cleared and its deferred decrements were made.
    abbrev lowered : ℕ → RootMeta → RootMeta
    lowered k m = record (unmark m) { refcount = m.refcount - occurrences k y.deferred }

    -- What a minor collection owes to an entry.
    pub record Minor (y' : YoungHeap t trace mature logger) (k : ℕ) (m : RootMeta) : Type 0 where
      -- A new object in reach keeps its entry, with its count lowered and no mark.
      pub kept : is_new m ≡ true → Reach t trace y.roots k → t.get y'.roots k ≡ some (lowered k m)
      -- A new object out of reach is destroyed, and its entry with it.
      pub destroyed : is_new m ≡ true → ¬ Reach t trace y.roots k → t.get y'.roots k ≡ none
      -- An entry that is not new goes when its count was zero before the merge.
      pub old :
          is_new m ≡ false
          → t.get y'.roots k ≡ (if unsync_is_unrooted m then none else some (lowered k m))

    Merged-entry :
        (r' : t.Map) (k : ℕ) (m' : RootMeta)
        → Merged t swept y.deferred r'
        → t.get r' k ≡ some m'
        → (m : RootMeta) × (t.get swept k ≡ some m) × (m' ≡ less k m)
    Merged-entry r' k m' merged h = elim (Option-cases (t.get swept k)) [
      | inl gone ↦ let none_left = merged.absent k gone in cc
      | inr (m, at) ↦ (m, at, some-injective _ _ (sym h ∙ merged.counts k m at))
    ]

    Merged-lowered :
        (r' : t.Map)
        → Merged t swept y.deferred r'
        → (k : ℕ) (m' : RootMeta) → t.get r' k ≡ some m'
        → (m : RootMeta) × (t.get y.roots k ≡ some m) × (m' ≡ lowered k m)
    unfolding unmark
    Merged-lowered r' merged k m' h =
        let (m1, at1, e1) = Merged-entry r' k m' merged h in
        let (m, at, e) = swept-entry k m1 at1 in (m, at, e1 ∙ ap (less k) e)

    swept-IsReady : IsReady t swept
    swept-IsReady = collect-IsReady t trace by y.roots steady.ready y.num_threads marking pos done

    unmarked-swept : (k : ℕ) (m : RootMeta) → t.get swept k ≡ some m → marked_of m.flags ≡ false
    unmarked-swept = after-unmarked t trace by y.roots steady.ready y.num_threads marking pos done

    Merged-IsReady : (r' : t.Map) → Merged t swept y.deferred r' → IsReady t r'
    Merged-IsReady r' merged = record {
      short =
          λ k m' h. let (m, at, e) = Merged-entry r' k m' merged h in swept-IsReady.short k m at;
      valid = λ k m' h.
          let (m, at, e) = Merged-entry r' k m' merged h in
          let v = swept-IsReady.valid k m at in
          rw e (record { count_fits = omega (arith, v.count_fits); flags_fit = v.flags_fit });
      clean = λ k m' h marked.
          let (m, at, e) = Merged-entry r' k m' merged h in
          let before : marked_of m.flags ≡ true = sym (ap (λ m. marked_of m.flags) e) ∙ marked in
          cc (unmarked-swept k m at);
    }

    Merged-fits :
        (r' : t.Map) (k : ℕ) (m' : RootMeta)
        → Merged t swept y.deferred r'
        → t.get r' k ≡ some m'
        → m'.refcount < 2 ^ 64
    Merged-fits r' k m' merged h = ((Merged-IsReady r' merged).valid k m' h).count_fits

    not_dropped :
        (k : ℕ) (m : RootMeta)
        → Collected t trace y.roots (mark_and_sweep t trace y.roots y.num_threads marking) k m
        → Reach t trace y.roots k
        → is_dropped t trace (mark_and_sweep t trace y.roots y.num_threads marking) k ≡ false
    not_dropped k m c reach =
        elim (Bool-cases
          (is_dropped t trace (mark_and_sweep t trace y.roots y.num_threads marking) k)) [
            | inl gone ↦ absurd ((c.destroyed.0 gone).1 reach)
            | inr there ↦ there
          ]

    -- The collection returns, and this is what it has done.
    abbrev pub MinorDone : Type 0
    MinorDone =
        (y' : YoungHeap t trace mature logger) × (young : ℕ) × (minor_collection t trace mature
            logger y marking merging
          ≡ some (y', young))
        × ((k : ℕ) (m : RootMeta) → t.get y.roots k ≡ some m → Minor y' k m)
        × ((k : ℕ) (m' : RootMeta)
            → t.get y'.roots k ≡ some m'
            → (m : RootMeta) × (t.get y.roots k ≡ some m) × (m' ≡ lowered k m))
        × (y'.deferred ≡ [])
        × (y'.num_threads ≡ y.num_threads)
        × (y'.journals ≡ y.journals)
        × IsSteady y'

    pub minor_collection_lem :
        concat (merge_deferred t swept y.deferred y.num_threads merging).jobs ≡ [] → MinorDone
    unfolding minor_collection unmark
    minor_collection_lem merged_all =
        let (r', runs, merged) =
          merge_deferred_lem t swept y.deferred y.num_threads merging pos swept-IsCovered
            merged_all in
        let s = mark_and_sweep t trace y.roots y.num_threads marking in
        (
          record y { roots = r'; deferred = []; log = logger.add_dropped s.drop_counter y.log },
          s.young_counter,
          rw (minor_collection, runs) refl,
          λ k m at.
              let c = collected k m at in
              record {
                kept =
                    λ new reach. merged.counts k (unmark m) (c.kept new (not_dropped k m c reach));
                destroyed = λ new out. merged.absent k (c.gone (c.destroyed.1 (new, out)));
                old = λ old. elim (Bool-cases (unsync_is_unrooted m)) [
                  | inl unrooted ↦ rw unrooted (merged.absent k (c.old old ∙ rw unrooted refl))
                  | inr rooted ↦ rw rooted (merged.counts k (unmark m) (c.old old ∙ rw rooted refl))
                ];
              },
          Merged-lowered r' merged,
          refl,
          refl,
          refl,
          record {
            ready = Merged-IsReady r' merged;
            covered = record {
              enough = λ k m h. omega arith;
              fits = λ k m h. Merged-fits r' k m merged h;
              known = λ k h. absurd (omega arith);
            };
          },
        )
