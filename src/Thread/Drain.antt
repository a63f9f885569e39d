-- ===== src/Thread/Drain.antt =====
-- How many iterations it takes to read the journals to their ends, once the senders have hung up.
use mo_gc.Common.{
  ℕ, zero, suc, ◌-◌, ◌*◌, ◌/◌, ◌≤◌, ◌<◌, ◌≡◌, refl, ap, ◌∙◌, inl, inr, max, true, false, ◌&&◌, List,
  [], ◌∷◌, length, drop, arith, Bool-cases,
}
use mo_gc.Constants.{buffer_run, journal_run}
use mo_gc.Heap.Object.{Object}
use mo_gc.Heap.RootMeta.{RootMeta}
use mo_gc.Journal.Disconnect.{is_nil}
use mo_gc.Trie.{Trie}
use mo_gc.Young.Read.Entries.{Queue, round_left, rounds_left, retained}

-- Every sender has hung up.
abbrev pub HungUp : List Queue → Type 0
HungUp [] = Unit
HungUp ((xs, hup) ∷ queues) = (hup ≡ true) × HungUp queues

-- The number of iterations until all is read: an iteration takes `journal_run * buffer_run` entries
-- of a journal, if there are so many.
abbrev pub iterations_needed : List Queue → ℕ
iterations_needed [] = 0
iterations_needed ((xs, hup) ∷ queues) =
    max (suc (length xs / (journal_run * buffer_run))) (iterations_needed queues)

-- What a number of rounds leaves of a queue.
abbrev pub left_of : ℕ → List Object → List Object
left_of zero xs = xs
left_of (suc n) xs = left_of n (drop buffer_run xs)

length-drop : (n : ℕ) (xs : List Object) → length (drop n xs) ≡ length xs - n
length-drop zero xs = omega arith
length-drop (suc n) [] = omega arith
length-drop (suc n) (x ∷ xs) = omega (arith, length-drop n xs)

pub length-left_of : (n : ℕ) (xs : List Object) → length (left_of n xs) ≡ length xs - n * buffer_run
length-left_of zero xs = omega arith
length-left_of (suc n) xs =
    omega (arith, length-left_of n (drop buffer_run xs), length-drop buffer_run xs)

module _ (t : Trie RootMeta) where
  pub rounds_left-nil : (n : ℕ) → rounds_left t n [] ≡ []
  rounds_left-nil zero = refl
  rounds_left-nil (suc n) = rounds_left-nil n

  pub rounds_left-cons :
      (n : ℕ) (q : Queue) (queues : List Queue)
      → rounds_left t n (q ∷ queues) ≡ (left_of n q.0, q.1) ∷ rounds_left t n queues
  rounds_left-cons zero q queues = refl
  rounds_left-cons (suc n) q queues =
      rounds_left-cons n (drop buffer_run q.0, q.1) (round_left t queues)

  abbrev pub after_rounds : ℕ → List Queue → List Queue
  after_rounds n queues = retained (rounds_left t n queues)

  -- The queues after an iteration.
  abbrev pub after : List Queue → List Queue
  after queues = after_rounds journal_run queues

  rounds-HungUp : (n : ℕ) (queues : List Queue) → HungUp queues → HungUp (after_rounds n queues)
  rounds-HungUp n [] h = rw (rounds_left-nil n) tt
  rounds-HungUp n ((xs, hup) ∷ queues) (h, hs) =
      rw (rounds_left-cons n (xs, hup) queues) (elim (Bool-cases (hup && is_nil (left_of n xs))) [
        | inl ended ↦ rw ended (rounds-HungUp n queues hs)
        | inr open_ ↦ rw open_ (h, rounds-HungUp n queues hs)
      ])

  pub after-HungUp : (queues : List Queue) → HungUp queues → HungUp (after queues)
  after-HungUp queues h = rounds-HungUp journal_run queues h

  pub is_nil-length : (xs : List Object) → is_nil xs ≡ false → 0 < length xs
  is_nil-length [] h = cc
  is_nil-length (x ∷ xs) h = omega arith

  rounds-needed :
      (n : ℕ) (queues : List Queue)
      → n ≡ journal_run
      → HungUp queues
      → iterations_needed (after_rounds n queues) ≤ iterations_needed queues - 1
  rounds-needed n [] e h = rw (rounds_left-nil n) (omega arith)
  rounds-needed n ((xs, hup) ∷ queues) e (h, hs) =
      let fewer = rounds-needed n queues e hs in
      let len : length (left_of n xs) ≡ length xs - 32 * 1024 =
        length-left_of n xs ∙ ap (λ n. length xs - n * buffer_run) e in
      rw (rounds_left-cons n (xs, hup) queues) (elim (Bool-cases (hup && is_nil (left_of n xs))) [
        | inl ended ↦ rw ended (omega arith)
        | inr open_ ↦
            let more = is_nil-length (left_of n xs) (ground arith) in rw open_ (omega arith)
      ])

  -- Each iteration takes one off.
  pub after-needed :
      (queues : List Queue)
      → HungUp queues
      → iterations_needed (after queues) ≤ iterations_needed queues - 1
  after-needed queues h = rounds-needed journal_run queues refl h
