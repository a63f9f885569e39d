-- ===== src/Young/Mark/Same.antt =====
-- What the mark phase and the sweep come to does not depend on the number of threads, nor on the
-- order in which the jobs take turns.
use mo_gc.Common.{
  ℕ, ◌<◌, ◌≡◌, ◌⊎◌, sym, ap, ◌∙◌, inl, inr, true, none, some, List, arith, Bool-cases, Option-cases,
}
use mo_gc.Heap.Object.{TraitObject}
use mo_gc.Heap.RootMeta.{RootMeta, mark_and_needs_trace}
use mo_gc.Heap.RootMeta.View.{marked_of, view-mark, mark-again}
use mo_gc.Trie.{Trie}
use mo_gc.Young.Mark.{run, start}
use mo_gc.Young.Mark.Reach.{ByAddress, Reach, marked_at}
use mo_gc.Young.Mark.Correct.{Finished, mark_correct, mark-none}
use mo_gc.Young.Minor.{IsReady, mark_and_sweep}
use mo_gc.Young.Sweep.Entry.{swept, get-sweep}

module _ (t : Trie RootMeta) (trace : TraitObject → List TraitObject) (by : ByAddress trace)
    (r : t.Map) (ready : IsReady t r) where
  module _ (num_threads : ℕ) (schedule : List ℕ) (pos : 0 < num_threads)
      (done : Finished (run t trace (start t trace r num_threads) schedule)) where
    abbrev result : t.Map
    result = (run t trace (start t trace r num_threads) schedule).roots

    -- An entry is marked or as it was, depending on whether it is reachable only.
    outcome :
        (k : ℕ) (m : RootMeta)
        → t.get r k ≡ some m
        → ((t.get result k ≡ some (mark_and_needs_trace m).0) × Reach t trace r k)
          ⊎ ((t.get result k ≡ some m) × ¬ Reach t trace r k)
    outcome k m at =
        let (iff, entry) =
          mark_correct t trace by r ready.clean ready.short num_threads schedule k m pos done at in
        elim entry [
          | inl same ↦ elim (Bool-cases (marked_of m.flags)) [
            | inl before ↦ inl (rw (mark-again m before) same, iff.0 (rw (marked_at, same) before))
            | inr not_yet ↦ inr (same, λ reach. let bad = rw (same, marked_at) at iff.1 reach in cc)
          ]
          | inr hit ↦
              let now : marked_of (mark_and_needs_trace m).0.flags ≡ true =
                ground (arith, view-mark m) in
              inl (hit, iff.0 (rw (marked_at, hit, now)))
        ]

    result-none : (k : ℕ) → t.get r k ≡ none → t.get result k ≡ none
    result-none k gone =
        mark-none t trace by r ready.clean ready.short num_threads schedule k pos gone

  module _ (n n' : ℕ) (schedule schedule' : List ℕ) (pos : 0 < n) (pos' : 0 < n')
      (done : Finished (run t trace (start t trace r n) schedule))
      (done' : Finished (run t trace (start t trace r n') schedule')) where
    pub mark-same :
        (k : ℕ)
        → t.get (run t trace (start t trace r n) schedule).roots k
          ≡ t.get (run t trace (start t trace r n') schedule').roots k
    mark-same k = elim (Option-cases (t.get r k)) [
      | inl gone ↦
          result-none n schedule pos done k gone ∙ sym (result-none n' schedule' pos' done' k gone)
      | inr (m, at) ↦ elim (outcome n schedule pos done k m at) [
        | inl (e, reach) ↦ elim (outcome n' schedule' pos' done' k m at) [
          | inl (e', reach') ↦ e ∙ sym e'
          | inr (e', out) ↦ absurd (out reach)
        ]
        | inr (e, out) ↦ elim (outcome n' schedule' pos' done' k m at) [
          | inl (e', reach') ↦ absurd (out reach')
          | inr (e', out') ↦ e ∙ sym e'
        ]
      ]
    ]

    -- The parallel collection is equivalent to any other, also to one on a single thread: for a ready
    -- map and tracing by address, whatever the two numbers of threads (at least one) and the two
    -- orders in which the jobs of the mark phase took turns until all had finished, mark and sweep
    -- leave the same entry, or none, at each key.
    pub mark_and_sweep-same :
        (k : ℕ)
        → t.get (mark_and_sweep t trace r n schedule).roots k
          ≡ t.get (mark_and_sweep t trace r n' schedule').roots k
    unfolding mark_and_sweep
    mark_and_sweep-same k =
        get-sweep t _ n k pos ∙ ap swept (mark-same k) ∙ sym (get-sweep t _ n' k pos')
