-- ===== src/Young/Mark/Finish.antt =====
-- Every job of the mark phase finishes after a bounded number of its own turns, whatever the other
-- jobs do in between.
use mo_gc.Common.{
  ℕ, zero, suc, ◌+◌, ◌*◌, ◌≤◌, ◌<◌, ◌^◌, ◌≡◌, refl, sym, ap, ◌∙◌, subst, ◌⊎◌, inl, inr, true, false,
  Option, none, some, List, [], ◌∷◌, ◌==◌, if◌then◌else◌, elem, arith, Option-cases, Bool-cases,
  ==_iff, is_some, length,
}
use mo_gc.Heap.Object.{TraitObject, Object}
use mo_gc.Heap.RootMeta.{RootMeta}
use mo_gc.Heap.TraceStack
use mo_gc.Heap.TraceStack.{TraceStack, push_to_trace}
use mo_gc.Trie.{Trie, concat}
use mo_gc.Young.Mark.{Job, Pending, Pool, job, is_finished, step_on, step, turn, run, start}
use mo_gc.Trie.{nth}
use mo_gc.Young.Mark.Correct.{Finished}
use mo_gc.Trie.Fold.{elem-append}
use mo_gc.Young.Mark.Reach.{kid_keys, ByAddress}
use mo_gc.Young.Mark.Work.{sum_over, sum_over-le, work, work_on, cost}
use mo_gc.Young.Mark.Turns.{Bounded, Bounded-turn, other-work, own-work}

module _ (t : Trie RootMeta) (trace : TraitObject → List TraitObject) (by : ByAddress trace) where
  open t use {Map, get}

  finished-step_on :
      (r : Map) (todo : List ℕ) (stack : List Object) (q : Option Pending)
      → is_finished (job todo (record { stack = stack }) q) ≡ true
      → is_finished (step_on t trace r todo stack q).1 ≡ true
  unfolding is_finished step_on
  finished-step_on r [] [] none h = h
  finished-step_on r [] [] (some p) h = cc
  finished-step_on r [] (o ∷ stack) q h = cc
  finished-step_on r (k ∷ todo) stack q h = cc

  -- How often a schedule gives the job its turn.
  abbrev pub turns : ℕ → List ℕ → ℕ
  turns i [] = 0
  turns i (n ∷ schedule) = (if i == n then 1 else 0) + turns i schedule

  finished-step :
      (r : Map) (j : Job) → is_finished j ≡ true → is_finished (step t trace r j).1 ≡ true
  unfolding step
  finished-step r j h = finished-step_on r j.todo j.stack.stack j.pending h

  no-work_on :
      (ks : List ℕ) (r : Map) (todo : List ℕ) (stack : List Object) (q : Option Pending)
      → work_on t trace by ks r todo stack q ≡ 0
      → is_finished (job todo (record { stack = stack }) q) ≡ true
  unfolding work_on is_finished
  no-work_on ks r [] [] none h = refl
  no-work_on ks r (k ∷ todo) stack q h = absurd (omega arith)
  no-work_on ks r [] (o ∷ stack) q h = absurd (omega arith)
  no-work_on ks r [] [] (some p) h = absurd (ground arith)

  no-work : (ks : List ℕ) (r : Map) (j : Job) → work t trace by ks r j ≡ 0 → is_finished j ≡ true
  unfolding work
  no-work ks r j h = no-work_on ks r j.todo j.stack.stack j.pending h

  less :
      (ks : List ℕ) (n : ℕ) (schedule : List ℕ) (p : Pool t trace) (i : ℕ)
      → Bounded t trace by ks p
      → is_finished (p.jobs i) ≡ false
      → work t trace by ks p.roots (p.jobs i) ≤ turns i (n ∷ schedule)
      → work t trace by ks (turn t trace p n).roots ((turn t trace p n).jobs i) ≤ turns i schedule
  less ks n schedule p i b going few = elim (Bool-cases (i == n)) [
    | inl mine ↦
        let e : i ≡ n = (==_iff i n).0 mine in
        let own =
          own-work t trace by ks p n b (subst (λ i. is_finished (p.jobs i) ≡ false) e going) in
        let own' : work t trace by ks (turn t trace p n).roots ((turn t trace p n).jobs i) + 1
            ≤ work t trace by ks p.roots (p.jobs i) =
          rw e own in
        ground (arith, own')
    | inr other ↦ ground (arith, other-work t trace by ks p n b i other)
  ]

  finished-turn :
      (p : Pool t trace) (n i : ℕ)
      → is_finished (p.jobs i) ≡ true
      → is_finished ((turn t trace p n).jobs i) ≡ true
  unfolding turn
  finished-turn p n i h = elim (Bool-cases (i == n)) [
    | inl mine ↦ rw mine (
        finished-step p.roots (p.jobs n)
          (subst (λ i. is_finished (p.jobs i) ≡ true) ((==_iff i n).0 mine) h))
    | inr other ↦ rw other h
  ]

  runs_out :
      (ks : List ℕ) (schedule : List ℕ) (p : Pool t trace) (i : ℕ)
      → Bounded t trace by ks p
      → (is_finished (p.jobs i) ≡ true) ⊎ (work t trace by ks p.roots (p.jobs i) ≤ turns i schedule)
      → is_finished ((run t trace p schedule).jobs i) ≡ true
  unfolding run
  runs_out ks [] p i b (inl done) = done
  runs_out ks [] p i b (inr few) = no-work ks p.roots (p.jobs i) (omega arith)
  runs_out ks (n ∷ schedule) p i b (inl done) =
      runs_out ks schedule (turn t trace p n) i (Bounded-turn t trace by ks p n b)
        (inl (finished-turn p n i done))
  runs_out ks (n ∷ schedule) p i b (inr few) = elim (Bool-cases (is_finished (p.jobs i))) [
    | inl done ↦
        runs_out ks schedule (turn t trace p n) i (Bounded-turn t trace by ks p n b)
          (inl (finished-turn p n i done))
    | inr going ↦
        runs_out ks schedule (turn t trace p n) i (Bounded-turn t trace by ks p n b)
          (inr (less ks n schedule p i b going few))
  ]

  -- The most turns that a job can need which starts on `shard`: two for each key of its shard, and
  -- two for each pointer of the objects in the map.
  unfoldable pub turns_needed : Map → List ℕ → ℕ
  turns_needed r shard = sum_over (λ k. 2 * length (kid_keys trace k)) (t.keys r) + 2 * length shard

  elem-nth-concat :
      (xss : List (List ℕ)) (i k : ℕ) → elem k (nth xss i) ≡ true → elem k (concat xss) ≡ true
  elem-nth-concat [] i k h = cc
  elem-nth-concat (xs ∷ xss) zero k h = ground (arith, elem-append k xs (concat xss))
  elem-nth-concat (xs ∷ xss) (suc i) k h =
      ground (arith, elem-append k xs (concat xss), elem-nth-concat xss i k h)

  Bounded-start :
      (r : Map) (num_threads : ℕ)
      → 0 < num_threads
      → ((k : ℕ) (m : RootMeta) → get r k ≡ some m → k < 2 ^ 61)
      → Bounded t trace by (t.keys r) (start t trace r num_threads)
  unfolding start
  Bounded-start r num_threads pos short = record {
    covers = λ k m at. t.elem-keys r k ∙ ap is_some at;
    known = λ i. tt;
    small = λ i k h.
        let inside : is_some (get r k) ≡ true =
          sym (t.elem-shards r num_threads k pos)
          ∙ elem-nth-concat (t.shards r num_threads) i k h in
        elim (Option-cases (get r k)) [ inl gone ↦ cc | inr (m, at) ↦ short k m at ];
  }

  work-start :
      (r : Map) (num_threads : ℕ) (schedule : List ℕ) (i : ℕ)
      → turns_needed r (nth (t.shards r num_threads) i) ≤ turns i schedule
      → work t trace by
          (t.keys r)
          (start t trace r num_threads).roots
          ((start t trace r num_threads).jobs i)
        ≤ turns i schedule
  unfolding work start turns_needed TraceStack.new
  work-start r num_threads schedule i enough = omega (
    arith,
    sum_over-le (λ k. 2 * length (kid_keys trace k)) (cost t trace by r none) (t.keys r)
        (λ k. ground arith),
  )

  -- A job has finished once it has had its turns, whatever the other jobs do in between.
  job_finishes :
      (r : Map) (num_threads : ℕ) (schedule : List ℕ) (i : ℕ)
      → 0 < num_threads
      → ((k : ℕ) (m : RootMeta) → get r k ≡ some m → k < 2 ^ 61)
      → turns_needed r (nth (t.shards r num_threads) i) ≤ turns i schedule
      → is_finished ((run t trace (start t trace r num_threads) schedule).jobs i) ≡ true
  job_finishes r num_threads schedule i pos short enough =
      runs_out (t.keys r) schedule (start t trace r num_threads) i
        (Bounded-start r num_threads pos short) (inr (work-start r num_threads schedule i enough))

  idle-start :
      (r : Map) (num_threads i : ℕ)
      → nth (t.shards r num_threads) i ≡ []
      → is_finished ((start t trace r num_threads).jobs i) ≡ true
  unfolding start is_finished TraceStack.new
  idle-start r num_threads i none_here = rw none_here

  -- The mark phase ends, where keys are below 2 ^ 61, what an object traces depends on its
  -- address only and there is a thread: once every job with a key in its shard has had
  -- `turns_needed` turns, whatever the other jobs did in between, all jobs have finished.
  pub mark_finishes :
      (r : Map) (num_threads : ℕ) (schedule : List ℕ)
      → 0 < num_threads
      → ((k : ℕ) (m : RootMeta) → get r k ≡ some m → k < 2 ^ 61)
      → ((i : ℕ)
          → (nth (t.shards r num_threads) i ≡ [])
            ⊎ (turns_needed r (nth (t.shards r num_threads) i) ≤ turns i schedule))
      → Finished (run t trace (start t trace r num_threads) schedule)
  mark_finishes r num_threads schedule pos short fair i = elim (fair i) [
    | inl idle ↦
        runs_out (t.keys r) schedule (start t trace r num_threads) i
          (Bounded-start r num_threads pos short) (inl (idle-start r num_threads i idle))
    | inr enough ↦ job_finishes r num_threads schedule i pos short enough
  ]
