-- ===== src/Thread/OneJournal.antt =====
-- The entries of a single journal are read in the order in which they were written.
use mo_gc.Common.{
  ℕ, zero, suc, ◌≤◌, ◌≡◌, refl, sym, ap, ◌∙◌, inl, inr, true, List, [], ◌∷◌, ◌++◌, take, drop,
  append_assoc, append-nil, if◌then◌else◌, arith, Bool-cases,
}
use mo_gc.Constants.{buffer_run, journal_run}
use mo_gc.Heap.Object.{TraitObject, Object}
use mo_gc.Heap.RootMeta.{RootMeta}
use mo_gc.Journal.Disconnect.{is_nil}
use mo_gc.Statistics.{StatsLogger}
use mo_gc.Thread.Courses.{all_entries}
use mo_gc.Thread.Drain.{
  iterations_needed, left_of, length-left_of, is_nil-length, after_rounds, rounds_left-cons,
  rounds_left-nil,
}
use mo_gc.Trie.{Trie}
use mo_gc.Young.Deferred.Chunks.{take-drop}
use mo_gc.Young.Heap.{CollectOps}
use mo_gc.Young.Read.Entries.{Queue, rounds_entries}

abbrev pub one_queue : List Object → List Queue
one_queue xs = (xs, true) ∷ []

is_nil-eq : (xs : List Object) → is_nil xs ≡ true → xs ≡ []
is_nil-eq [] h = refl
is_nil-eq (x ∷ xs) h = cc

module _ (t : Trie RootMeta) where
  rounds-split : (n : ℕ) (xs : List Object) → rounds_entries t n (one_queue xs) ++ left_of n xs ≡ xs
  rounds-split zero xs = refl
  rounds-split (suc n) xs =
      append_assoc (take buffer_run xs ++ []) (rounds_entries t n (one_queue (drop buffer_run xs)))
        (left_of n (drop buffer_run xs))
      ∙ ap (λ l. (take buffer_run xs ++ []) ++ l) (rounds-split n (drop buffer_run xs))
      ∙ ap (λ l. l ++ drop buffer_run xs) (append-nil (take buffer_run xs))
      ∙ take-drop buffer_run xs

  rounds-none : (n : ℕ) → rounds_entries t n [] ≡ []
  rounds-none zero = refl
  rounds-none (suc n) = rounds-none n

  after-one :
      (n : ℕ) (xs : List Object)
      → after_rounds t n (one_queue xs)
        ≡ (if is_nil (left_of n xs) then [] else one_queue (left_of n xs))
  after-one n xs = rw (rounds_left-cons t n (xs, true) [], rounds_left-nil t n) refl

module _ (t : Trie RootMeta) (trace : TraitObject → List TraitObject) (mature : CollectOps t)
    {Time : Type 0} (logger : StatsLogger Time) where
  all_entries-none : (m : ℕ) → all_entries t trace mature logger m [] ≡ []
  all_entries-none zero = refl
  all_entries-none (suc m) =
      ap (λ l. l ++ all_entries t trace mature logger m []) (rounds-none t journal_run)
      ∙ all_entries-none m

  pub all_entries-one :
      (m : ℕ) (xs : List Object)
      → iterations_needed (one_queue xs) ≤ m
      → all_entries t trace mature logger m (one_queue xs) ≡ xs
  all_entries-one zero xs h = absurd (omega arith)
  all_entries-one (suc m) xs h =
      let len = length-left_of journal_run xs in
      ap (λ q. rounds_entries t journal_run (one_queue xs) ++ all_entries t trace mature logger m q)
        (after-one t journal_run xs)
      ∙ elim (Bool-cases (is_nil (left_of journal_run xs))) [
        | inl ended ↦ rw ended (
            ap (λ l. rounds_entries t journal_run (one_queue xs) ++ l)
              (all_entries-none m ∙ sym (is_nil-eq (left_of journal_run xs) ended))
            ∙ rounds-split t journal_run xs)
        | inr more ↦
            let some_left = is_nil-length t (left_of journal_run xs) more in
            rw more (
              ap (λ l. rounds_entries t journal_run (one_queue xs) ++ l)
                (all_entries-one m (left_of journal_run xs) (omega arith))
              ∙ rounds-split t journal_run xs)
      ]
