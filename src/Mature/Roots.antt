-- ===== src/Mature/Roots.antt =====
-- What the mark phase of the mature heap does to the roots: it marks entries with a positive count.
use mathlib.Core.List.{foldl}
use mathlib.Core.Option.{some-injective}
use mo_gc.Common.{
  ℕ, ◌≡◌, refl, sym, ap, ◌∙◌, subst, inl, inr, false, Option, none, some, List, [], ◌∷◌, ◌==◌,
  arith, Bool-cases, ==_iff,
}
use mo_gc.Heap.Object.{TraitObject, Object}
use mo_gc.Heap.ObjectMeta.{ObjectMeta}
use mo_gc.Heap.RootMeta.{RootMeta, unsync_is_unrooted, mark_and_needs_trace}
use mo_gc.Heap.RootMeta.View.{view-mark, mark-again}
use mo_gc.Mature.{Pending, Pool, mark_root, step_on, turn, mark, collect}
use mo_gc.Trie.{Trie}
use mo_gc.Young.Heap.{par_heap}
use mo_gc.Young.Heap.Moves.{IsMarkedRoot, MarksRoots}

module _ (t : Trie RootMeta) (h : Trie ObjectMeta) (trace : TraitObject → List TraitObject) where
  -- A second mark of a root is no mark.
  twice :
      (o : Option RootMeta) (m' : RootMeta)
      → IsMarkedRoot o (some m')
      → unsync_is_unrooted m' ≡ false
      → IsMarkedRoot o (some (mark_and_needs_trace m').0)
  unfolding unsync_is_unrooted
  twice o m' (inl e) rooted = inr (m', sym e, refl, ground arith)
  twice o m' (inr (m, e, e', count)) rooted =
      let eq : m' ≡ (mark_and_needs_trace m).0 = some-injective _ _ e' in
      let again : (mark_and_needs_trace m').0 ≡ m' =
        mark-again m' (rw eq (ground (arith, view-mark m))) in
      inr (m, e, ap some (again ∙ eq), count)

  module _ (roots : t.Map) where
    abbrev Marked : t.Map → Type 0
    Marked now = (k : ℕ) → IsMarkedRoot (t.get roots k) (t.get now k)

    mark_root-Marked :
        (now : t.Map) (todo : List ℕ) (ptr : ℕ) (o : Option RootMeta)
        → t.get now ptr ≡ o
        → Marked now
        → Marked (mark_root t h trace now todo ptr o).0
    unfolding mark_root
    mark_root-Marked now todo ptr none e all k = all k
    mark_root-Marked now todo ptr (some m') e all k = elim (Bool-cases (unsync_is_unrooted m')) [
      | inl unrooted ↦ rw unrooted (all k)
      | inr rooted ↦
          rw (rooted, t.get-set)
            (elim (Bool-cases (k == ptr)) [
              | inl here ↦
                  let same = (==_iff k ptr).0 here in
                  rw here (
                    twice (t.get roots k) m'
                      (subst (IsMarkedRoot (t.get roots k)) (ap (t.get now) same ∙ e) (all k))
                      rooted)
              | inr other ↦ rw other (all k)
            ])
    ]

    step_on-Marked :
        (now : t.Map) (objects : h.Map) (todo : List ℕ) (stack : List Object) (q : Option Pending)
        → Marked now
        → Marked (step_on t h trace now objects todo stack q).0
    unfolding step_on
    step_on-Marked now objects todo stack (some p) all = all
    step_on-Marked now objects todo (obj ∷ stack) none all = all
    step_on-Marked now objects (ptr ∷ todo) [] none all = mark_root-Marked now todo ptr _ refl all
    step_on-Marked now objects [] [] none all = all

    run-Marked :
        (schedule : List ℕ) (p : Pool t h trace)
        → Marked p.roots
        → Marked (foldl (turn t h trace) p schedule).roots
    unfolding turn
    run-Marked [] p all = all
    run-Marked (i ∷ schedule) p all =
        let j = p.jobs i in
        run-Marked schedule (turn t h trace p i)
          (step_on-Marked p.roots p.objects j.todo j.stack j.pending all)

  -- The mature heap `ParHeap` does what the young heap relies on: whatever the order in which the
  -- jobs of its mark phase take turns, an entry of the roots is as it was, or it has a positive
  -- count and is as a mark leaves it.
  pub par_heap-MarksRoots : (num_threads : ℕ) → MarksRoots t (par_heap t h trace num_threads)
  unfolding par_heap collect mark
  par_heap-MarksRoots num_threads = record {
    marks = λ heap roots schedule k. run-Marked roots schedule _ (λ k. inl refl) k;
  }
