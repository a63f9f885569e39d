-- ===== src/Young/Sweep/Drops.antt =====
-- Which objects a sweep drops, and what its counters say.
use mathlib.Core.List.{foldl}
use mo_gc.Common.{
  ℕ, ◌+◌, ◌<◌, ◌^◌, ◌≡◌, refl, sym, ap, ◌∙◌, inl, inr, true, false, ◌||◌, ◌&&◌, Option, none, some,
  List, [], ◌∷◌, ◌==◌, elem, Distinct, arith, Option-cases, Bool-cases, ==_iff, is_some, length,
}
use mo_gc.Heap.Object.{TraitObject, key_of, from_trie_ptr, into}
use mo_gc.Heap.RootMeta.{RootMeta}
use mo_gc.Trie.{Trie, concat}
use mo_gc.Trie.Fold.{elem-append, Distinct-append}
use mo_gc.Young.Sweep.{
  Fate, retained, dropped, removed, fate, Sweep, sweep_entry, sweep_at, sweep_key, sweep_shard,
  sweep,
}
use mo_gc.Young.Sweep.Entry.{is_doomed, get-sweep_key, get-sweep_shard}

abbrev pub drop_keys : List TraitObject → List ℕ
drop_keys [] = []
drop_keys (o ∷ os) = key_of o.data_ptr ∷ drop_keys os

abbrev Small : List ℕ → Type 0
Small ks = (k : ℕ) → elem k ks ≡ true → k < 2 ^ 61

module _ (t : Trie RootMeta) where
  open t use {Map, get}

  elem-sweep_at :
      (s : Sweep t) (j k : ℕ) (o : Option RootMeta)
      → j < 2 ^ 61
      → elem k (drop_keys (sweep_at t s j o).drops)
        ≡ (elem k (drop_keys s.drops) || ((k == j) && is_doomed o))
  unfolding sweep_at sweep_entry into from_trie_ptr
  elem-sweep_at s j k none small = ground arith
  elem-sweep_at s j k (some meta) small = by_fate (fate meta)
    where
      by_fate :
          (f : Fate)
          → elem k (drop_keys (sweep_entry t s j meta f).drops)
            ≡ (elem k (drop_keys s.drops) || ((k == j) && elim f [ dropped ↦ true | _ ↦ false ]))
      by_fate dropped = ground arith
      by_fate removed = ground arith
      by_fate (retained meta') = ground arith

  elem-sweep_key :
      (s : Sweep t) (j k : ℕ)
      → j < 2 ^ 61
      → elem k (drop_keys (sweep_key t s j).drops)
        ≡ (elem k (drop_keys s.drops) || ((k == j) && is_doomed (get s.roots j)))
  unfolding sweep_key
  elem-sweep_key s j k small = elem-sweep_at s j k (get s.roots j) small

  -- A job drops the doomed objects of its shard, and no other.
  elem-sweep_keys :
      (ks : List ℕ) (s : Sweep t) (k : ℕ)
      → Distinct ks
      → Small ks
      → elem k (drop_keys (foldl (sweep_key t) s ks).drops)
        ≡ (elem k (drop_keys s.drops) || (elem k ks && is_doomed (get s.roots k)))
  elem-sweep_keys [] s k d small = ground arith
  elem-sweep_keys (j ∷ ks) s k d small =
      elem-sweep_keys ks (sweep_key t s j) k d.1 (λ i h. small i (ground arith))
      ∙ elim (Bool-cases (k == j)) [
        | inl here ↦
            let e : k ≡ j = (==_iff k j).0 here in
            let once : elem k ks ≡ false = rw e d.0 in
            let same : is_doomed (get s.roots j) ≡ is_doomed (get s.roots k) =
              ap (λ k. is_doomed (get s.roots k)) (sym e) in
            ground (arith, elem-sweep_key s j k (small j (ground arith)), same)
        | inr other ↦
            let same : is_doomed (get (sweep_key t s j).roots k) ≡ is_doomed (get s.roots k) =
              rw (get-sweep_key, other) in
            ground (arith, elem-sweep_key s j k (small j (ground arith)), same)
      ]

  elem-sweep_shard :
      (s : Sweep t) (ks : List ℕ) (k : ℕ)
      → Distinct ks
      → Small ks
      → elem k (drop_keys (sweep_shard t s ks).drops)
        ≡ (elem k (drop_keys s.drops) || (elem k ks && is_doomed (get s.roots k)))
  unfolding sweep_shard
  elem-sweep_shard s ks k d small =
      elem-sweep_keys ks (record s { young_counter = 0; drop_counter = 0 }) k d small

  elem-sweep_shards :
      (xss : List (List ℕ)) (s : Sweep t) (k : ℕ)
      → Distinct (concat xss)
      → Small (concat xss)
      → elem k (drop_keys (foldl (sweep_shard t) s xss).drops)
        ≡ (elem k (drop_keys s.drops) || (elem k (concat xss) && is_doomed (get s.roots k)))
  elem-sweep_shards [] s k d small = ground arith
  elem-sweep_shards (xs ∷ xss) s k d small =
      let (dx, dxs, apart) = Distinct-append xs (concat xss) d in
      let split = λ (i : ℕ). elem-append i xs (concat xss) in
      let here = elem-sweep_shard s xs k dx (λ i h. small i (ground (arith, split i))) in
      elem-sweep_shards xss (sweep_shard t s xs) k dxs (λ i h. small i (ground (arith, split i)))
      ∙ elim (Bool-cases (elem k xs)) [
        | inl inside ↦ ground (arith, here, split k, apart k inside)
        | inr outside ↦
            let same : is_doomed (get (sweep_shard t s xs).roots k) ≡ is_doomed (get s.roots k) =
              rw (get-sweep_shard t s xs k dx, outside) in
            ground (arith, here, split k, same)
      ]

  -- With at least one thread, and where keys are below 2 ^ 61, the keys of the objects whose
  -- destructors a sweep runs are those of the doomed entries.
  pub elem-sweep :
      (r : Map) (num_threads k : ℕ)
      → 0 < num_threads
      → ((k : ℕ) (m : RootMeta) → get r k ≡ some m → k < 2 ^ 61)
      → elem k (drop_keys (sweep t r num_threads).drops) ≡ is_doomed (get r k)
  unfolding sweep
  elem-sweep r num_threads k pos short =
      let inside = λ (i : ℕ). t.elem-shards r num_threads i pos in
      elem-sweep_shards (t.shards r num_threads) _ k (t.shards-Distinct r num_threads pos) (λ i h.
        elim (Option-cases (get r i)) [
          | inl gone ↦
              let out : is_some (get r i) ≡ false = rw gone in absurd (ground (arith, inside i))
          | inr (m, at) ↦ short i m at
        ])
      ∙ elim (Option-cases (get r k)) [
        | inl gone ↦ rw (inside k, gone)
        | inr (m, at) ↦ rw (inside k, at)
      ]

  -- The drop counter counts the destructors that were run.
  count-sweep_key :
      (s : Sweep t) (j : ℕ)
      → (sweep_key t s j).drop_counter + length s.drops
        ≡ s.drop_counter + length (sweep_key t s j).drops
  unfolding sweep_key sweep_at sweep_entry
  count-sweep_key s j = ground arith

  count-sweep_keys :
      (ks : List ℕ) (s : Sweep t)
      → (foldl (sweep_key t) s ks).drop_counter + length s.drops
        ≡ s.drop_counter + length (foldl (sweep_key t) s ks).drops
  count-sweep_keys [] s = refl
  count-sweep_keys (j ∷ ks) s =
      omega (arith, count-sweep_key s j, count-sweep_keys ks (sweep_key t s j))

  count-sweep_shard :
      (s : Sweep t) (xs : List ℕ)
      → (sweep_shard t s xs).drop_counter + length s.drops
        ≡ s.drop_counter + length (sweep_shard t s xs).drops
  unfolding sweep_shard
  count-sweep_shard s xs =
      omega (arith, count-sweep_keys xs (record s { young_counter = 0; drop_counter = 0 }))

  count-sweep_shards :
      (xss : List (List ℕ)) (s : Sweep t)
      → (foldl (sweep_shard t) s xss).drop_counter + length s.drops
        ≡ s.drop_counter + length (foldl (sweep_shard t) s xss).drops
  count-sweep_shards [] s = refl
  count-sweep_shards (xs ∷ xss) s =
      omega (arith, count-sweep_shard s xs, count-sweep_shards xss (sweep_shard t s xs))

  -- The drop counter that a sweep returns is the number of destructors that were run.
  pub count-sweep :
      (r : Map) (num_threads : ℕ)
      → (sweep t r num_threads).drop_counter ≡ length (sweep t r num_threads).drops
  unfolding sweep
  count-sweep r num_threads = omega (
    arith,
    count-sweep_shards (t.shards r num_threads)
        (record { roots = r; young_counter = 0; drop_counter = 0; drops = [] }),
  )
