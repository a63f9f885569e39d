-- ===== src/Young/Sweep/Entry.antt =====
-- What a sweep does to each entry, to the counters and to the objects.
use mo_gc.Common.{
  ℕ, ◌<◌, ◌≡◌, refl, sym, ◌∙◌, subst, inl, inr, Bool, true, false, Option, none, some, List, ◌==◌,
  if◌then◌else◌, elem, Distinct, Option-cases, Bool-cases, ==_iff,
}
use mo_gc.Heap.RootMeta.{RootMeta}
use mo_gc.Trie.{Trie}
use mo_gc.Trie.Fold.{foldl-Passes, foldl-shards}
use mo_gc.Young.Sweep.{
  Fate, retained, dropped, removed, fate, Sweep, sweep_entry, sweep_at, sweep_key, sweep_shard,
  sweep,
}

-- What is left of an entry.
abbrev pub kept : Fate → Option RootMeta
kept (retained meta) = some meta
kept dropped = none
kept removed = none

abbrev pub swept : Option RootMeta → Option RootMeta
swept none = none
swept (some meta) = kept (fate meta)

abbrev pub is_doomed : Option RootMeta → Bool
is_doomed none = false
is_doomed (some meta) = elim (fate meta) [ dropped ↦ true | _ ↦ false ]

module _ (t : Trie RootMeta) where
  open t use {Map, get, set, remove, get-set, get-remove}

  get-sweep_entry :
      (s : Sweep t) (j k : ℕ) (meta : RootMeta) (f : Fate)
      → get (sweep_entry t s j meta f).roots k ≡ (if k == j then kept f else get s.roots k)
  unfolding sweep_entry
  get-sweep_entry s j k meta dropped = get-remove s.roots j k
  get-sweep_entry s j k meta removed = get-remove s.roots j k
  get-sweep_entry s j k meta (retained meta') = get-set s.roots j meta' k

  get-sweep_at :
      (s : Sweep t) (j k : ℕ) (o : Option RootMeta)
      → get s.roots j ≡ o
      → get (sweep_at t s j o).roots k ≡ (if k == j then swept o else get s.roots k)
  unfolding sweep_at
  get-sweep_at s j k none e = elim (Bool-cases (k == j)) [
    | inl here ↦ rw here (subst (λ k. get s.roots k ≡ none) (sym ((==_iff k j).0 here)) e)
    | inr other ↦ rw other
  ]
  get-sweep_at s j k (some meta) e = get-sweep_entry s j k meta (fate meta)

  pub get-sweep_key :
      (s : Sweep t) (j k : ℕ)
      → get (sweep_key t s j).roots k ≡ (if k == j then swept (get s.roots j) else get s.roots k)
  unfolding sweep_key
  get-sweep_key s j k = get-sweep_at s j k (get s.roots j) refl

  abbrev held : Sweep t → ℕ → Option RootMeta
  held s k = get s.roots k

  -- A job sweeps the entries of its shard, each once, and no other.
  pub get-sweep_shard :
      (s : Sweep t) (ks : List ℕ) (k : ℕ)
      → Distinct ks
      → get (sweep_shard t s ks).roots k
        ≡ (if elem k ks then swept (get s.roots k) else get s.roots k)
  unfolding sweep_shard
  get-sweep_shard s ks k d =
      foldl-Passes held swept (sweep_key t) get-sweep_key
        (record s { young_counter = 0; drop_counter = 0 }) ks k d

  -- With at least one thread, a sweep puts in the place of every entry what its fate leaves of
  -- it, once, and makes no entry.
  pub get-sweep :
      (r : Map) (num_threads k : ℕ)
      → 0 < num_threads
      → get (sweep t r num_threads).roots k ≡ swept (get r k)
  unfolding sweep
  get-sweep r num_threads k pos =
      foldl-shards held swept (sweep_shard t) get-sweep_shard (t.shards r num_threads) _ k
        (t.shards-Distinct r num_threads pos)
      ∙ elim (Option-cases (get r k)) [
        | inl gone ↦ rw (t.elem-shards r num_threads k pos, gone)
        | inr (m, at) ↦ rw (t.elem-shards r num_threads k pos, at)
      ]
