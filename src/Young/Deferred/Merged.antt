-- ===== src/Young/Deferred/Merged.antt =====
-- In whatever order the decrements are made, the counts come out the same.
use mathlib.Core.List.{foldl}
use mo_gc.Common.{
  ℕ, ◌+◌, ◌-◌, ◌%◌, ◌^◌, ◌≤◌, ◌<◌, ◌≡◌, refl, sym, ap, ◌∙◌, subst, inl, inr, Option, none, some,
  List, [], ◌∷◌, ◌==◌, if◌then◌else◌, length, Bool-cases, arith, ==_iff, ==_refl,
}
use mathlib.Core.Option.{some-injective}
use mo_gc.Heap.Object.{Object, key_of}
use mo_gc.Heap.RootMeta.{RootMeta, dec}
use mo_gc.Trie.{Trie, concat}
use mo_gc.Young.Deferred.{
  chunks, next_of, Merge, dec_at, dec_object, merge_turn, chunk_size, merge_deferred,
}
use mo_gc.Young.Deferred.Chunks.{occurrences, once, concat-chunks, next_of-occurrences}

module _ (t : Trie RootMeta) (r : t.Map) (deferred : List Object) where
  open t use {Map, get, set, get-set}

  -- The entry at a key after some of its decrements, with `left` of them still to come.
  record Entry (now : Map) (k left : ℕ) (m : RootMeta) : Type 0 where
    count : ℕ
    found : get now k ≡ some (record m { refcount = count })
    balance : count + occurrences k deferred ≡ m.refcount + left
    fits : count < 2 ^ 64

  -- What the jobs have left, and what they have done to the map.
  record Sound (now : Map) (jobs : List (List Object)) : Type 0 where
    entry : (k : ℕ) (m : RootMeta) → get r k ≡ some m → Entry now k (occurrences k (concat jobs)) m
    known : (k : ℕ) → 0 < occurrences k (concat jobs) → (m : RootMeta) × (get r k ≡ some m)
    absent : (k : ℕ) → get r k ≡ none → get now k ≡ none

  module _
      (enough : (k : ℕ) (m : RootMeta)
        → get r k ≡ some m
        → occurrences k deferred ≤ m.refcount) where
    -- The map when a count went down by one.
    Entry-dec :
        (now : Map) (j k left : ℕ) (x m : RootMeta)
        → get now j ≡ some x
        → get r k ≡ some m
        → Entry now k ((if k == j then 1 else 0) + left) m
        → Entry (set now j (dec x)) k left m
    unfolding dec
    Entry-dec now j k left x m read at e = elim (Bool-cases (k == j)) [
      | inl here ↦
          let same : k ≡ j = (==_iff k j).0 here in
          let read' : get now k ≡ some x = rw same read in
          let found : x ≡ record m { refcount = e.count } =
            some-injective _ _ (sym read' ∙ e.found) in
          let more : e.count + occurrences k deferred ≡ m.refcount + (1 + left) =
            ground (arith, e.balance) in
          let room = enough k m at in
          let one_less : (e.count + 2 ^ 64 - 1) % 2 ^ 64 ≡ e.count - 1 = omega (arith, e.fits) in
          record {
            count = e.count - 1;
            found = get-set now j _ k ∙ rw (here, found, one_less) refl;
            balance = omega arith;
            fits = omega (arith, e.fits);
          }
      | inr other ↦ record {
        count = e.count;
        found = get-set now j _ k ∙ rw other e.found;
        balance = ground (arith, e.balance);
        fits = e.fits;
      }
    ]

    Sound-object :
        (now : Map) (jobs jobs' : List (List Object)) (object : Option Object)
        → ((k : ℕ) → once k object + occurrences k (concat jobs') ≡ occurrences k (concat jobs))
        → Sound now jobs
        → (now' : Map) × (dec_object t object (some now) ≡ some now') × Sound now' jobs'
    unfolding dec_object dec_at
    Sound-object now jobs jobs' none split s =
        let same : (k : ℕ) → occurrences k (concat jobs) ≡ occurrences k (concat jobs') =
          λ k. omega (arith, split k) in
        (
          now,
          refl,
          record {
            entry = λ k m at. subst (λ n. Entry now k n m) (same k) (s.entry k m at);
            known = λ k h. s.known k (omega (arith, same k));
            absent = s.absent;
          },
        )
    Sound-object now jobs jobs' (some o) split s =
        let j = key_of o.ptr in
        let here : 0 < occurrences j (concat jobs) = ground (arith, split j, ==_refl j) in
        let (m, at) = s.known j here in
        let e = s.entry j m at in
        (
          set now j (dec (record m { refcount = e.count })),
          rw e.found refl,
          record {
            entry = λ k m' at'.
                Entry-dec now j k _ _ m' e.found at'
                  (subst (λ n. Entry now k n m') (sym (split k)) (s.entry k m' at'));
            known = λ k h. s.known k (omega (arith, split k));
            absent = λ k gone. elim (Bool-cases (k == j)) [
              | inl same ↦
                  let gone' : get r j ≡ none =
                    subst (λ k. get r k ≡ none) ((==_iff k j).0 same) gone in
                  cc
              | inr other ↦ get-set now j _ k ∙ rw other (s.absent k gone)
            ];
          },
        )

    -- What a schedule comes to.
    Sound-run :
        (schedule : List ℕ) (s : Merge t) (now : Map)
        → s.roots ≡ some now
        → Sound now s.jobs
        → (now' : Map) × ((foldl (merge_turn t) s schedule).roots ≡ some now')
          × Sound now' (foldl (merge_turn t) s schedule).jobs
    unfolding merge_turn
    Sound-run [] s now here sound = (now, here, sound)
    Sound-run (i ∷ schedule) s now here sound =
        let (now', e, sound') =
          Sound-object now s.jobs (next_of s.jobs i).1 (next_of s.jobs i).0
            (next_of-occurrences s.jobs i) sound in
        Sound-run schedule (merge_turn t s i) now' (rw here e) sound'

  -- The map with every deferred decrement taken off its count.
  pub record Merged (r' : Map) : Type 0 where
    pub counts :
        (k : ℕ) (m : RootMeta)
        → get r k ≡ some m
        → get r' k ≡ some (record m { refcount = m.refcount - occurrences k deferred })
    pub absent : (k : ℕ) → get r k ≡ none → get r' k ≡ none

  -- The counts cover the deferred decrements, and every one of these has an entry.
  pub record IsCovered : Type 0 where
    pub enough : (k : ℕ) (m : RootMeta) → get r k ≡ some m → occurrences k deferred ≤ m.refcount
    pub fits : (k : ℕ) (m : RootMeta) → get r k ≡ some m → m.refcount < 2 ^ 64
    pub known : (k : ℕ) → 0 < occurrences k deferred → (m : RootMeta) × (get r k ≡ some m)

  pub chunked :
      (num_threads : ℕ)
      → concat (chunks (length deferred) (chunk_size (length deferred) num_threads) deferred)
        ≡ deferred
  unfolding chunk_size
  chunked num_threads = concat-chunks _ _ deferred (ground arith) (omega arith)

  -- Where every deferred decrement has an entry with a count that covers it, and there is a thread:
  -- whatever the order in which the jobs make the decrements, once none are left the merge has not
  -- panicked, each count has gone down by the number of its decrements, and the rest of the map is
  -- as it was.
  pub merge_deferred_lem :
      (num_threads : ℕ) (schedule : List ℕ)
      → 0 < num_threads
      → IsCovered
      → concat (merge_deferred t r deferred num_threads schedule).jobs ≡ []
      → (r' : Map) × ((merge_deferred t r deferred num_threads schedule).roots ≡ some r')
        × Merged r'
  unfolding merge_deferred
  merge_deferred_lem num_threads schedule pos covered done =
      let all = chunked num_threads in
      let (r', runs, sound) = Sound-run covered.enough schedule _ r (ground arith) (record {
        entry = λ k m at. record {
          count = m.refcount;
          found = at;
          balance = rw all refl;
          fits = covered.fits k m at;
        };
        known = λ k h. covered.known k (rw all at h);
        absent = λ k gone. gone;
      }) in
      (
        r',
        runs,
        record {
          counts = λ k m at.
              let e = sound.entry k m at in
              let none_left : occurrences k
                    (concat (merge_deferred t r deferred num_threads schedule).jobs)
                  ≡ 0 =
                ap (occurrences k) done in
              let count : e.count ≡ m.refcount - occurrences k deferred =
                omega (arith, e.balance, none_left) in
              rw (← count) e.found;
          absent = sound.absent;
        },
      )
