-- ===== src/Young/Sweep/Counters.antt =====
-- What the counters of a sweep say.
use mo_gc.Common.{ℕ, ◌+◌, ◌<◌, ◌≡◌, refl, Bool, true, false, Option, none, some, arith, [], length}
use mo_gc.Heap.RootMeta.{RootMeta, is_new}
use mo_gc.Trie.{Trie}
use mo_gc.Trie.Tally.{one_if, tally, tally-shards, Counts, foldl-Counts, shards-count}
use mo_gc.Young.Sweep.{
  Fate, retained, dropped, removed, fate, Sweep, sweep_entry, sweep_at, sweep_key, sweep_shard,
  sweep,
}
use mo_gc.Young.Sweep.Drops.{count-sweep}
use mo_gc.Young.Sweep.Entry.{swept, is_doomed, get-sweep_key, get-sweep_shard}

-- A new object that a sweep keeps.
abbrev pub is_young : Option RootMeta → Bool
is_young none = false
is_young (some meta) = elim (fate meta) [ retained _ ↦ is_new meta | _ ↦ false ]

module _ (t : Trie RootMeta) where
  open t use {Map, get}

  abbrev held : Sweep t → ℕ → Option RootMeta
  held s k = get s.roots k

  young-entry :
      (s : Sweep t) (j : ℕ) (meta : RootMeta) (f : Fate)
      → (sweep_entry t s j meta f).young_counter
        ≡ s.young_counter + one_if (elim f [ retained _ ↦ is_new meta | _ ↦ false ])
  unfolding sweep_entry
  young-entry s j meta dropped = omega arith
  young-entry s j meta removed = omega arith
  young-entry s j meta (retained meta') = refl

  drop-entry :
      (s : Sweep t) (j : ℕ) (meta : RootMeta) (f : Fate)
      → (sweep_entry t s j meta f).drop_counter
        ≡ s.drop_counter + one_if (elim f [ dropped ↦ true | _ ↦ false ])
  unfolding sweep_entry
  drop-entry s j meta dropped = refl
  drop-entry s j meta removed = omega arith
  drop-entry s j meta (retained meta') = omega arith

  young-at :
      (s : Sweep t) (j : ℕ) (o : Option RootMeta)
      → (sweep_at t s j o).young_counter ≡ s.young_counter + one_if (is_young o)
  unfolding sweep_at
  young-at s j none = omega arith
  young-at s j (some meta) = young-entry s j meta (fate meta)

  young-key :
      (s : Sweep t) (j : ℕ)
      → (sweep_key t s j).young_counter ≡ s.young_counter + one_if (is_young (get s.roots j))
  unfolding sweep_key
  young-key s j = young-at s j (get s.roots j)

  drop-at :
      (s : Sweep t) (j : ℕ) (o : Option RootMeta)
      → (sweep_at t s j o).drop_counter ≡ s.drop_counter + one_if (is_doomed o)
  unfolding sweep_at
  drop-at s j none = omega arith
  drop-at s j (some meta) = drop-entry s j meta (fate meta)

  drop-key :
      (s : Sweep t) (j : ℕ)
      → (sweep_key t s j).drop_counter ≡ s.drop_counter + one_if (is_doomed (get s.roots j))
  unfolding sweep_key
  drop-key s j = drop-at s j (get s.roots j)

  young-shard : Counts held swept is_young (λ s. s.young_counter) (sweep_shard t)
  unfolding sweep_shard
  young-shard s ks d =
      let local : Sweep t = record s { young_counter = 0; drop_counter = 0 } in
      omega (
        arith,
        foldl-Counts held swept is_young (λ s. s.young_counter) (sweep_key t) (get-sweep_key t)
            young-key local ks d,
      )

  drop-shard : Counts held swept is_doomed (λ s. s.drop_counter) (sweep_shard t)
  unfolding sweep_shard
  drop-shard s ks d =
      let local : Sweep t = record s { young_counter = 0; drop_counter = 0 } in
      omega (
        arith,
        foldl-Counts held swept is_doomed (λ s. s.drop_counter) (sweep_key t) (get-sweep_key t)
            drop-key local ks d,
      )

  -- With at least one thread, a sweep counts what it should: its young counter is the number of the
  -- map's keys whose entry is of a new object that is kept, its drop counter the number of those
  -- whose entry is doomed, and as many destructors are run.
  pub sweep-counters :
      (r : Map) (num_threads : ℕ)
      → 0 < num_threads
      → let s = sweep t r num_threads in
        (s.young_counter ≡ tally (λ k. is_young (get r k)) (t.keys r))
        × (s.drop_counter ≡ tally (λ k. is_doomed (get r k)) (t.keys r))
        × (length s.drops ≡ tally (λ k. is_doomed (get r k)) (t.keys r))
  unfolding sweep
  sweep-counters r num_threads pos =
      let shards = t.shards r num_threads in
      let start : Sweep t = record { roots = r; young_counter = 0; drop_counter = 0; drops = [] } in
      let once = t.shards-Distinct r num_threads pos in
      let young =
        shards-count held swept is_young (λ s. s.young_counter) (sweep_shard t) (get-sweep_shard t)
          young-shard shards start once in
      let dropped =
        shards-count held swept is_doomed (λ s. s.drop_counter) (sweep_shard t) (get-sweep_shard t)
          drop-shard shards start once in
      let run = count-sweep t r num_threads in
      let same = λ (f : ℕ → Bool). tally-shards t r num_threads f pos in
      (
        omega (arith, young, same (λ k. is_young (get r k))),
        omega (arith, dropped, same (λ k. is_doomed (get r k))),
        omega (arith, dropped, same (λ k. is_doomed (get r k)), run),
      )
