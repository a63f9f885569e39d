-- ===== src/Young/Read/Entries.antt =====
-- What a reading of the journals takes from them, and in which order.
use mathlib.Core.List.{foldl}
use mo_gc.Common.{
  ℕ, zero, suc, ◌≡◌, refl, ap, ◌∙◌, subst, Bool, true, false, ◌&&◌, Option, none, some, List, [],
  ◌∷◌, ◌++◌, if◌then◌else◌, take, drop, Bool-cases, inl, inr,
}
use mo_gc.Heap.Object.{TraitObject, Object}
use mo_gc.Heap.RootMeta.{RootMeta}
use mo_gc.Constants.{buffer_run, journal_run}
use mo_gc.Journal.Memory.{BufferQueue, Run, ok}
use mo_gc.Journal.Buffer.Capacity.{IsCapacity}
use mo_gc.Journal.Queue.{Received, value, err, try_recv, next, is_disconnected}
use mo_gc.Journal.Chain.{Represents}
use mo_gc.Journal.Recv.{recv_spec, try_recv-refines}
use mo_gc.Journal.Disconnect.{is_nil, is_disconnected_lem}
use mo_gc.Statistics.{StatsLogger}
use mo_gc.Young.Heap.{CollectOps, YoungHeap}
use mo_gc.Trie.{Trie}
use mo_gc.Young.Read.{Reading, read_entry, read_run, read_round, read_rounds, retain, read_journals}

-- The abstract journals: what is unread, and whether the sender has hung up.
abbrev pub Queue : Type 0
Queue = List Object × Bool

pub data Journals : List (BufferQueue Object) → List Queue → Type 0 where
  no_more : Journals [] []
  one_more :
      {cap : ℕ} {s : BufferQueue Object} {xs : List Object} {hup : Bool}
      {journals : List (BufferQueue Object)} {queues : List Queue}
      → IsCapacity cap
      → Represents cap s xs
      → s.hup ≡ hup
      → Journals journals queues
      → Journals (s ∷ journals) ((xs, hup) ∷ queues)

next_spec : List Object → Option Object × List Object
next_spec [] = (none, [])
next_spec (x ∷ xs) = (some x, xs)

item_of : Received Object → Option Object
item_of (value item) = some item
item_of (err e) = none

item_of-next_spec :
    (xs : List Object) (hup : Bool) → item_of (recv_spec xs hup).0 ≡ (next_spec xs).0
unfolding item_of recv_spec next_spec
item_of-next_spec [] true = refl
item_of-next_spec [] false = refl
item_of-next_spec (x ∷ xs) hup = refl

left-next_spec : (xs : List Object) (hup : Bool) → (recv_spec xs hup).1 ≡ (next_spec xs).1
unfolding recv_spec next_spec
left-next_spec [] hup = refl
left-next_spec (x ∷ xs) hup = refl

next-item :
    (s s' : BufferQueue Object) (got : Received Object)
    → try_recv false s ≡ ok got s'
    → next false s ≡ ok (item_of got) s'
unfolding next item_of
next-item s s' (value item) runs = rw runs refl
next-item s s' (err e) runs = rw runs refl

-- What a read owes to a journal: what it gives, and what stays unread.
abbrev Steps : {A : Type 0} → ℕ → BufferQueue Object → Run Object A → A → List Object → Type 0
Steps cap s runs a left =
    (s' : BufferQueue Object) × (runs ≡ ok a s') × Represents cap s' left × (s'.hup ≡ s.hup)

next-refines :
    {cap : ℕ} {s : BufferQueue Object} {xs : List Object}
    → IsCapacity cap
    → Represents cap s xs
    → Steps cap s (next false s) (next_spec xs).0 (next_spec xs).1
next-refines {cap} {s} {xs} k r =
    let (s', runs, after, hup) = try_recv-refines k false r in
    (
      s',
      next-item s s' _ runs ∙ ap (λ o. ok o s') (item_of-next_spec xs s.hup),
      subst (Represents cap s') (left-next_spec xs s.hup) after,
      hup,
    )

module _ (t : Trie RootMeta) where
  -- The entries update the roots and the deferred decrements, in order.
  abbrev pub read_all : Reading t → List Object → Reading t
  read_all s entries = foldl (read_entry t) s entries

  -- A run takes the oldest entries, as many as it may.
  read_run-refines :
      {cap : ℕ} (n : ℕ) (xs : List Object) (s : Reading t) (j : BufferQueue Object)
      → IsCapacity cap
      → Represents cap j xs
      → Steps cap j (read_run t n s j) (read_all s (take n xs)) (drop n xs)
  unfolding read_run next_spec
  read_run-refines zero xs s j k r = (j, refl, r, refl)
  read_run-refines (suc n) [] s j k r =
      let (j', runs, after, hup) = next-refines k r in (j', rw runs refl, after, hup)
  read_run-refines (suc n) (x ∷ xs) s j k r =
      let (j', runs, after, hup) = next-refines k r in
      let (j'', more, left, hup') = read_run-refines n xs (read_entry t s x) j' k after in
      (j'', rw (runs, more) refl, left, hup' ∙ hup)

  -- The entries of one round, in the order in which they are read, and what it leaves.
  abbrev pub round_entries : List Queue → List Object
  round_entries [] = []
  round_entries ((xs, hup) ∷ queues) = take buffer_run xs ++ round_entries queues

  abbrev pub round_left : List Queue → List Queue
  round_left [] = []
  round_left ((xs, hup) ∷ queues) = (drop buffer_run xs, hup) ∷ round_left queues

  read_all-append :
      (xs ys : List Object) (s : Reading t) → read_all s (xs ++ ys) ≡ read_all (read_all s xs) ys
  read_all-append [] ys s = refl
  read_all-append (x ∷ xs) ys s = read_all-append xs ys (read_entry t s x)

  read_round-refines :
      {js : List (BufferQueue Object)} {queues : List Queue} (s : Reading t)
      → Journals js queues
      → (js' : List (BufferQueue Object)) × (read_round t js s
          ≡ some (js', read_all s (round_entries queues)))
        × Journals js' (round_left queues)
  unfolding read_round
  read_round-refines s no_more = ([], refl, no_more)
  read_round-refines s (one_more {s = j} {xs} {hup} {journals} {queues} k r e rest) =
      let (j', runs, after, same) = read_run-refines buffer_run xs s j k r in
      let (js', more, left) = read_round-refines (read_all s (take buffer_run xs)) rest in
      (
        j' ∷ js',
        rw (read_round, runs, more, read_all-append (take buffer_run xs) (round_entries queues) s)
            refl,
        one_more k after (same ∙ e) left,
      )

  -- The entries of several rounds, and what these leave.
  abbrev pub rounds_entries : ℕ → List Queue → List Object
  rounds_entries zero queues = []
  rounds_entries (suc n) queues = round_entries queues ++ rounds_entries n (round_left queues)

  abbrev pub rounds_left : ℕ → List Queue → List Queue
  rounds_left zero queues = queues
  rounds_left (suc n) queues = rounds_left n (round_left queues)

  read_rounds-refines :
      {queues : List Queue} (n : ℕ) (js : List (BufferQueue Object)) (s : Reading t)
      → Journals js queues
      → (js' : List (BufferQueue Object)) × (read_rounds t n js s
          ≡ some (js', read_all s (rounds_entries n queues)))
        × Journals js' (rounds_left n queues)
  unfolding read_rounds
  read_rounds-refines zero js s journals = (js, refl, journals)
  read_rounds-refines {queues} (suc n) js s journals =
      let (js', runs, left) = read_round-refines s journals in
      let (js'', more, left') =
        read_rounds-refines n js' (read_all s (round_entries queues)) left in
      (
        js'',
        rw
            (
              read_rounds,
              runs,
              more,
              read_all-append (round_entries queues) (rounds_entries n (round_left queues)) s,
            )
            refl,
        left',
      )

-- The journals that are not at their end: a sender is there, or an entry.
abbrev pub retained : List Queue → List Queue
retained [] = []
retained ((xs, hup) ∷ queues) =
    if hup && is_nil xs then retained queues else (xs, hup) ∷ retained queues

retain-refines :
    {js : List (BufferQueue Object)} {queues : List Queue}
    → Journals js queues
    → (js' : List (BufferQueue Object)) × (retain js ≡ some js') × Journals js' (retained queues)
unfolding retain
retain-refines no_more = ([], refl, no_more)
retain-refines (one_more {s = j} {xs} {hup} {journals} {queues} k r e rest) =
    let (js', runs, left) = retain-refines rest in
    let gone : is_disconnected j ≡ ok (hup && is_nil xs) j =
      is_disconnected_lem r ∙ ap (λ b. ok (b && is_nil xs) j) e in
    elim (Bool-cases (hup && is_nil xs)) [
      | inl ended ↦ (js', rw (retain, gone, runs, ended) refl, rw ended left)
      | inr open_ ↦ (j ∷ js', rw (retain, gone, runs, open_) refl, rw open_ (one_more k r e left))
    ]

module _ (t : Trie RootMeta) (trace : TraitObject → List TraitObject) (mature : CollectOps t)
    {Time : Type 0} (logger : StatsLogger Time) where
  -- The reading before the first entry.
  abbrev pub unread : YoungHeap t trace mature logger → Reading t
  unread y = record { entry_count = 0; roots = y.roots; deferred = y.deferred }

  -- The heap after a reading, with these journals.
  abbrev pub updated :
      YoungHeap t trace mature logger
      → Reading t
      → List (BufferQueue Object)
      → YoungHeap t trace mature logger
  updated y s journals = record y { journals = journals; roots = s.roots; deferred = s.deferred }

  -- From journals that represent queues of unread entries, `read_journals` returns and faults on no
  -- access. In each of `journal_run` rounds it takes from every journal in turn the oldest entries,
  -- `buffer_run` of them or what there is, and lets each entry update the roots or the deferred
  -- decrements in that order, and count as read. What it has not taken is still unread in its
  -- journal, and exactly the journals that are empty and have been hung up are gone.
  pub read_journals-refines :
      (y : YoungHeap t trace mature logger) (queues : List Queue)
      → Journals y.journals queues
      → let s = read_all t (unread y) (rounds_entries t journal_run queues) in
        (journals : List (BufferQueue Object)) × (read_journals t trace mature logger y
          ≡ some (updated y s journals, s.entry_count))
        × Journals journals (retained (rounds_left t journal_run queues))
  unfolding read_journals
  read_journals-refines y queues js =
      let (js', runs, left) = read_rounds-refines t journal_run y.journals (unread y) js in
      let (js'', kept, left') = retain-refines left in
      (js'', rw (read_journals, runs, kept) refl, left')
