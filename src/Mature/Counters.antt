-- ===== src/Mature/Counters.antt =====
-- What a collection of the mature heap reports: src/parheap.rs, the counters of `ParHeap::sweep`.
use mo_gc.Common.{
  ℕ, ◌+◌, ◌<◌, ◌≡◌, refl, ◌∙◌, inl, inr, Bool, false, not, Option, none, some, List, [], arith,
  Bool-cases, is_some, length,
}
use mo_gc.Heap.Object.{TraitObject}
use mo_gc.Heap.ObjectMeta.{ObjectMeta, is_marked}
use mo_gc.Heap.RootMeta.{RootMeta}
use mo_gc.Mature.{Sweep, sweep_at, sweep_key, sweep_shard, sweep, mark, collect}
use mo_gc.Mature.Collect.{swept, get-sweep_key, get-sweep_shard, mark-Same}
use mo_gc.Trie.{Trie}
use mo_gc.Trie.Tally.{
  one_if, tally, tally-shards, tally-maps, tally-keys, Counts, foldl-Counts, shards-count,
}

abbrev pub is_unmarked : Option ObjectMeta → Bool
is_unmarked none = false
is_unmarked (some meta) = not (is_marked meta)

module _ (h : Trie ObjectMeta) where
  abbrev held : Sweep h → ℕ → Option ObjectMeta
  held s k = h.get s.objects k

  -- What is counted of an entry: each is, and the unmarked ones once more, with their destructors.
  record Counted (s s' : Sweep h) (o : Option ObjectMeta) : Type 0 where
    all : s'.heap_counter ≡ s.heap_counter + one_if (is_some o)
    dropped : s'.drop_counter ≡ s.drop_counter + one_if (is_unmarked o)
    run : length s'.drops ≡ length s.drops + one_if (is_unmarked o)

  sweep_at-Counted : (s : Sweep h) (j : ℕ) (o : Option ObjectMeta) → Counted s (sweep_at h s j o) o
  unfolding sweep_at
  sweep_at-Counted s j none = record { all = omega arith; dropped = omega arith; run = omega arith }
  sweep_at-Counted s j (some meta) = elim (Bool-cases (is_marked meta)) [
    | inl marked ↦
        let none : one_if (is_unmarked (some meta)) ≡ 0 = rw marked refl in
        rw marked (record { all = refl; dropped = omega (arith, none); run = omega (arith, none) })
    | inr unmarked ↦
        let one : one_if (is_unmarked (some meta)) ≡ 1 = rw unmarked refl in
        rw unmarked (record { all = refl; dropped = omega (arith, one); run = omega (arith, one) })
  ]

  sweep_key-Counted : (s : Sweep h) (j : ℕ) → Counted s (sweep_key h s j) (held s j)
  unfolding sweep_key
  sweep_key-Counted s j = sweep_at-Counted s j (h.get s.objects j)

  all-shard : Counts held swept is_some (λ s. s.heap_counter) (sweep_shard h)
  unfolding sweep_shard
  all-shard s ks d =
      let local : Sweep h = record s { heap_counter = 0; drop_counter = 0 } in
      omega (
        arith,
        foldl-Counts held swept is_some (λ s. s.heap_counter) (sweep_key h) (get-sweep_key h)
            (λ s j. (sweep_key-Counted s j).all) local ks d,
      )

  drop-shard : Counts held swept is_unmarked (λ s. s.drop_counter) (sweep_shard h)
  unfolding sweep_shard
  drop-shard s ks d =
      let local : Sweep h = record s { heap_counter = 0; drop_counter = 0 } in
      omega (
        arith,
        foldl-Counts held swept is_unmarked (λ s. s.drop_counter) (sweep_key h) (get-sweep_key h)
            (λ s j. (sweep_key-Counted s j).dropped) local ks d,
      )

  run-shard : Counts held swept is_unmarked (λ s. length s.drops) (sweep_shard h)
  unfolding sweep_shard
  run-shard s ks d =
      foldl-Counts held swept is_unmarked (λ s. length s.drops) (sweep_key h) (get-sweep_key h)
        (λ s j. (sweep_key-Counted s j).run) (record s { heap_counter = 0; drop_counter = 0 }) ks d

  sweep-counters :
      (objects : h.Map) (num_threads : ℕ)
      → 0 < num_threads
      → let s = sweep h objects num_threads in
        (s.heap_counter ≡ tally (λ k. is_some (h.get objects k)) (h.keys objects))
        × (s.drop_counter ≡ tally (λ k. is_unmarked (h.get objects k)) (h.keys objects))
        × (length s.drops ≡ tally (λ k. is_unmarked (h.get objects k)) (h.keys objects))
  unfolding sweep
  sweep-counters objects num_threads pos =
      let shards = h.shards objects num_threads in
      let start : Sweep h = record {
        objects = objects;
        heap_counter = 0;
        drop_counter = 0;
        drops = [];
      } in
      let once = h.shards-Distinct objects num_threads pos in
      let same = λ (f : ℕ → Bool). tally-shards h objects num_threads f pos in
      (
        shards-count held swept is_some (λ s. s.heap_counter) (sweep_shard h) (get-sweep_shard h)
              all-shard shards start once
            ∙ omega (arith, same (λ k. is_some (h.get objects k))),
        shards-count held swept is_unmarked (λ s. s.drop_counter) (sweep_shard h)
              (get-sweep_shard h) drop-shard shards start once
            ∙ omega (arith, same (λ k. is_unmarked (h.get objects k))),
        shards-count held swept is_unmarked (λ s. length s.drops) (sweep_shard h)
              (get-sweep_shard h) run-shard shards start once
            ∙ omega (arith, same (λ k. is_unmarked (h.get objects k))),
      )

module _ (t : Trie RootMeta) (h : Trie ObjectMeta) (trace : TraitObject → List TraitObject) where
  -- What a collection of the mature heap reports, with at least one thread and in whatever order
  -- the jobs of the mark phase take turns: its heap size is the number of objects before the
  -- collection, the dropped ones among them; its drop count is the number of the objects that were
  -- unmarked before it began, and as many destructors are run.
  pub collect-counters :
      (roots : t.Map) (objects : h.Map) (num_threads : ℕ) (schedule : List ℕ)
      → 0 < num_threads
      → let s = (collect t h trace roots objects num_threads schedule).1 in
        (s.heap_counter ≡ length (h.keys objects))
        × (s.drop_counter ≡ tally (λ k. is_unmarked (h.get objects k)) (h.keys objects))
        × (length s.drops ≡ tally (λ k. is_unmarked (h.get objects k)) (h.keys objects))
  unfolding collect
  collect-counters roots objects num_threads schedule pos =
      let now = (mark t h trace roots objects num_threads schedule).objects in
      let same = mark-Same t h trace objects roots num_threads schedule in
      let (all, dropped, run) = sweep-counters h now num_threads pos in
      let alike = λ (test : Option ObjectMeta → Bool). tally-maps h now objects test same in
      (
        all ∙ alike is_some ∙ tally-keys h objects,
        dropped ∙ alike is_unmarked,
        run ∙ alike is_unmarked,
      )
