-- ===== src/Young/Mark/Correct.antt =====
-- In whatever order the jobs take turns, the mark phase finds what is reachable.
use mo_gc.Common.{
  ℕ, ◌<◌, ◌^◌, ◌≡◌, ◌↔◌, sym, ◌∙◌, ◌⊎◌, inl, inr, true, false, none, some, List, arith,
}
use mo_gc.Heap.Object.{TraitObject}
use mo_gc.Heap.RootMeta.{RootMeta, is_new, mark_and_needs_trace}
use mo_gc.Heap.RootMeta.View.{marked_of}
use mathlib.Core.Option.{some-injective}
use mo_gc.Trie.{Trie}
use mo_gc.Young.Mark.{Job, Pool, is_root, is_finished, run, start}
use mo_gc.Young.Mark.Reach.{ByAddress, Reach, root, child, marked_at, busy}
use mo_gc.Young.Mark.Step.{Evolves, same, hit}
use mo_gc.Young.Mark.Invariant.{Settled, Inv, Inv-run, Inv-start}

-- Every job has finished.
abbrev pub Finished :
    {t : Trie RootMeta} {trace : TraitObject → List TraitObject} → Pool t trace → Type 0
Finished p = (i : ℕ) → is_finished (p.jobs i) ≡ true

finished-idle :
    (t : Trie RootMeta) (r : t.Map) (j : Job) (k : ℕ) → is_finished j ≡ true → busy t r j k ≡ false
unfolding is_finished
finished-idle t r j k h = ground arith

old-is_root : (m : RootMeta) → is_new m ≡ false → is_root m ≡ true
unfolding is_root
old-is_root m old = ground arith

module _ (t : Trie RootMeta) (trace : TraitObject → List TraitObject) (by : ByAddress trace)
    (r0 : t.Map)
    (clean : (k : ℕ) (m : RootMeta)
      → t.get r0 k ≡ some m
      → marked_of m.flags ≡ true
      → is_new m ≡ false)
    (short : (k : ℕ) (m : RootMeta) → t.get r0 k ≡ some m → k < 2 ^ 61) where
  open t use {Map, get}

  Settled-marked :
      (p : Pool t trace) (k : ℕ)
      → Finished p
      → Settled t trace by r0 clean short p k
      → marked_at t p.roots k ≡ true
  Settled-marked p k done (inl marked) = marked
  Settled-marked p k done (inr (i, h)) = cc (finished-idle t r0 (p.jobs i) k (done i))

  Reach-marked :
      (p : Pool t trace) {k : ℕ}
      → Inv t trace by r0 clean short p
      → Finished p
      → Reach t trace r0 k
      → marked_at t p.roots k ≡ true
  Reach-marked p {k} inv done (root {m} at h) = Settled-marked p k done (inv.rooted k m at h)
  Reach-marked p {k} inv done (child {k = from} {m} {m'} reach at new kid at') =
      Settled-marked p k done
        (inv.closed from k m m' at (Reach-marked p inv done reach) new kid at')

  Evolves-Reach :
      (r : Map) (k : ℕ) (m : RootMeta)
      → get r0 k ≡ some m
      → Evolves t trace by r0 clean short r k
      → marked_at t r k ≡ true
      → Reach t trace r0 k
  Evolves-Reach r k m at (same e) h =
      let already = rw (e ∙ at, marked_at) at h in root at (old-is_root m (clean k m at already))
  Evolves-Reach r k m at (hit found marked reach) h = reach

  Evolves-entry :
      (r : Map) (k : ℕ) (m : RootMeta)
      → get r0 k ≡ some m
      → Evolves t trace by r0 clean short r k
      → (get r k ≡ some m) ⊎ (get r k ≡ some (mark_and_needs_trace m).0)
  Evolves-entry r k m at (same e) = inl (e ∙ at)
  Evolves-entry r k m at (hit found marked reach) =
      inr (rw (some-injective _ _ (sym at ∙ found)) marked)

  -- From a map in which no new object is marked and every key is below 2 ^ 61, with at least one
  -- thread, and where what an object traces depends on its address only: whatever the order in
  -- which the jobs read and write the shared map, once all of them have finished, an entry is
  -- marked if and only if it is reachable from the roots through new objects, and every entry
  -- is as it was or as a mark leaves it.
  pub mark_correct :
      (num_threads : ℕ) (schedule : List ℕ) (k : ℕ) (m : RootMeta)
      → 0 < num_threads
      → Finished (run t trace (start t trace r0 num_threads) schedule)
      → get r0 k ≡ some m
      → let r = (run t trace (start t trace r0 num_threads) schedule).roots in
        ((marked_at t r k ≡ true) ↔ Reach t trace r0 k)
        × ((get r k ≡ some m) ⊎ (get r k ≡ some (mark_and_needs_trace m).0))
  mark_correct num_threads schedule k m pos done at =
      let p = run t trace (start t trace r0 num_threads) schedule in
      let inv =
        Inv-run t trace by r0 clean short schedule _
          (Inv-start t trace by r0 clean short num_threads pos) in
      (
        (Evolves-Reach p.roots k m at (inv.evolves k), Reach-marked p inv done),
        Evolves-entry p.roots k m at (inv.evolves k),
      )

  Evolves-none :
      (r : Map) (k : ℕ) → get r0 k ≡ none → Evolves t trace by r0 clean short r k → get r k ≡ none
  Evolves-none r k at (same e) = e ∙ at
  Evolves-none r k at (hit found marked reach) = cc

  -- The mark phase makes no entries.
  pub mark-none :
      (num_threads : ℕ) (schedule : List ℕ) (k : ℕ)
      → 0 < num_threads
      → get r0 k ≡ none
      → get (run t trace (start t trace r0 num_threads) schedule).roots k ≡ none
  mark-none num_threads schedule k pos at =
      let p = run t trace (start t trace r0 num_threads) schedule in
      Evolves-none p.roots k at (
        (Inv-run t trace by r0 clean short schedule _
            (Inv-start t trace by r0 clean short num_threads pos)).evolves
          k)
