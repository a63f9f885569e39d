-- ===== src/Young/Deferred/Panic.antt =====
-- When the merge of the deferred decrements panics.
use mathlib.Core.List.{foldl}
use mo_gc.Common.{
  ℕ, ◌+◌, ◌<◌, ◌≡◌, ◌⊎◌, refl, sym, ap, ◌∙◌, subst, inl, inr, Option, none, some, List, [], ◌∷◌,
  ◌==◌, if◌then◌else◌, length, arith, Bool-cases, ==_iff,
}
use mo_gc.Heap.Object.{Object, key_of}
use mo_gc.Heap.RootMeta.{RootMeta, dec}
use mo_gc.Trie.{Trie, concat}
use mo_gc.Young.Deferred.{
  chunks, chunk_size, next_of, Merge, dec_at, dec_object, merge_turn, merge_deferred,
}
use mo_gc.Young.Deferred.Chunks.{occurrences, once, next_of-occurrences}
use mo_gc.Young.Deferred.Merged.{chunked}

module _ (t : Trie RootMeta) where
  open t use {Map, get, set, get-set}

  -- A panic is not undone.
  dec_object-none : (o : Option Object) → dec_object t o none ≡ none
  unfolding dec_object
  dec_object-none none = refl
  dec_object-none (some o) = refl

  run-none :
      (schedule : List ℕ) (s : Merge t)
      → s.roots ≡ none
      → (foldl (merge_turn t) s schedule).roots ≡ none
  unfolding merge_turn
  run-none [] s e = e
  run-none (i ∷ schedule) s e =
      run-none schedule (merge_turn t s i)
        (ap (dec_object t (next_of s.jobs i).0) e ∙ dec_object-none (next_of s.jobs i).0)

  module _ (k : ℕ) where
    -- The merge has panicked, or it has the decrement of a key without an entry before it.
    IsDoomed : Merge t → Type 0
    IsDoomed s =
        (s.roots ≡ none)
        ⊎ ((now : Map) × (s.roots ≡ some now)
            × (get now k ≡ none)
            × (0 < occurrences k (concat s.jobs)))

    dec_at-doomed :
        (now : Map) (o : Object) (found : Option RootMeta)
        → get now (key_of o.ptr) ≡ found
        → get now k ≡ none
        → (rest : ℕ) → 0 < (if k == key_of o.ptr then 1 else 0) + rest
        → (dec_at t now (key_of o.ptr) found ≡ none)
          ⊎ ((now' : Map) × (dec_at t now (key_of o.ptr) found ≡ some now')
              × (get now' k ≡ none)
              × (0 < rest))
    unfolding dec_at
    dec_at-doomed now o none at gone rest some_left = inl refl
    dec_at-doomed now o (some m) at gone rest some_left = elim (Bool-cases (k == key_of o.ptr)) [
      | inl here ↦
          let same : k ≡ key_of o.ptr = (==_iff k (key_of o.ptr)).0 here in
          let bad : get now (key_of o.ptr) ≡ none = subst (λ j. get now j ≡ none) same gone in cc
      | inr other ↦ inr (
        set now (key_of o.ptr) (dec m),
        refl,
        get-set now (key_of o.ptr) (dec m) k ∙ rw other gone,
        ground (arith, other),
      )
    ]

    dec_object-doomed :
        (now : Map) (o : Option Object) (rest : ℕ)
        → get now k ≡ none
        → 0 < once k o + rest
        → (dec_object t o (some now) ≡ none)
          ⊎ ((now' : Map) × (dec_object t o (some now) ≡ some now')
              × (get now' k ≡ none)
              × (0 < rest))
    unfolding dec_object
    dec_object-doomed now none rest gone some_left = inr (now, refl, gone, omega arith)
    dec_object-doomed now (some o) rest gone some_left =
        dec_at-doomed now o (get now (key_of o.ptr)) refl gone rest some_left

    turn-IsDoomed : (s : Merge t) (i : ℕ) → IsDoomed s → IsDoomed (merge_turn t s i)
    unfolding merge_turn IsDoomed
    turn-IsDoomed s i (inl e) =
        inl (ap (dec_object t (next_of s.jobs i).0) e ∙ dec_object-none (next_of s.jobs i).0)
    turn-IsDoomed s i (inr (now, e, gone, some_left)) =
        subst
          (λ roots.
            (dec_object t (next_of s.jobs i).0 roots ≡ none)
            ⊎ ((now' : Map) × (dec_object t (next_of s.jobs i).0 roots ≡ some now')
                × (get now' k ≡ none)
                × (0 < occurrences k (concat (next_of s.jobs i).1))))
          (sym e)
          (dec_object-doomed now (next_of s.jobs i).0 (occurrences k (concat (next_of s.jobs i).1))
            gone (omega (arith, next_of-occurrences s.jobs i k)))

    run-IsDoomed :
        (schedule : List ℕ) (s : Merge t) → IsDoomed s → IsDoomed (foldl (merge_turn t) s schedule)
    run-IsDoomed [] s doomed = doomed
    run-IsDoomed (i ∷ schedule) s doomed =
        run-IsDoomed schedule (merge_turn t s i) (turn-IsDoomed s i doomed)

  -- The merge of the deferred decrements panics in two cases: with no threads, whatever there is to
  -- merge; and, in whatever order the jobs make the decrements, when none are left and one of them
  -- was of a key without an entry.
  pub merge_deferred-panics :
      (r : Map) (deferred : List Object) (num_threads : ℕ) (schedule : List ℕ) (k : ℕ)
      → (num_threads ≡ 0)
        ⊎ ((get r k ≡ none)
            × (0 < occurrences k deferred)
            × (concat (merge_deferred t r deferred num_threads schedule).jobs ≡ []))
      → (merge_deferred t r deferred num_threads schedule).roots ≡ none
  unfolding merge_deferred IsDoomed
  merge_deferred-panics r deferred num_threads schedule k (inl no_threads) =
      run-none schedule _ (ground arith)
  merge_deferred-panics r deferred num_threads schedule k (inr (gone, there, done)) =
      elim (Bool-cases (num_threads == 0)) [
        | inl no_threads ↦ run-none schedule _ (rw no_threads refl)
        | inr some_threads ↦
            elim (run-IsDoomed k schedule
              (record {
                roots = if num_threads == 0 then none else some r;
                jobs = chunks (length deferred) (chunk_size (length deferred) num_threads) deferred;
              })
              (inr (
                r,
                rw some_threads refl,
                gone,
                subst (λ d. 0 < occurrences k d) (sym (chunked t r deferred num_threads)) there,
              ))) [
                | inl panics ↦ panics
                | inr (now, e, gone', left) ↦ absurd (omega (arith, ap (occurrences k) done))
              ]
      ]
