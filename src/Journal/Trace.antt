-- ===== src/Journal/Trace.antt =====
-- A journal used by a sender and a receiver that take turns: any sequence of their operations.
use mo_gc.Common.{
  ℕ, zero, suc, ◌*◌, ◌<◌, ◌^◌, ◌≤◌, ◌≡◌, refl, ap, sym, ◌∙◌, Bool, true, false, none, List, [], ◌∷◌,
  ◌++◌, append_assoc, append-nil, length, arith,
}
use mo_gc.Journal.Memory.{BufferQueue, ok, Cmd, ◌>>=◌, ◌>>◌, pure, put_ne}
use mo_gc.Journal.Buffer.{new, next_power_of_two}
use mo_gc.Journal.Buffer.Capacity.{IsCapacity, next_power_of_two-IsCapacity}
use mo_gc.Journal.Queue.{
  disconnected, Received, value, err, make_journal, send, drop_sender, try_recv,
}
use mo_gc.Journal.Chain.{end, Represents}
use mo_gc.Journal.Send.{IsAllocated-new, Sending, send-append, drop_sender-keeps}
use mo_gc.Journal.Recv.{recv_spec, try_recv-refines}

pub data Op (A : Type 0) : Type 0 where
  push : A → Op A
  pull : Op A

module _ {A : Type 0} where
  -- The items that a read brought.
  brought : Received A → List A
  brought (value x) = x ∷ []
  brought (err e) = []

  step : Bool → Op A → Cmd A (List A)
  unfolding brought
  step needs_drop (push x) = send x >> pure []
  step needs_drop pull = do r ← try_recv needs_drop; pure (brought r)

  -- Runs the operations in turn and collects what the reads brought.
  pub exec : Bool → List (Op A) → Cmd A (List A)
  unfolding step
  exec needs_drop [] = pure []
  exec needs_drop (op ∷ ops) = do
    got ← step needs_drop op
    more ← exec needs_drop ops
    pure (got ++ more)

  abbrev pub sent : List (Op A) → List A
  sent [] = []
  sent (push x ∷ ops) = x ∷ sent ops
  sent (pull ∷ ops) = sent ops

  -- Reads `n` times, whatever comes.
  pub recv_times : Bool → ℕ → Cmd A (List (Received A))
  recv_times needs_drop zero = pure []
  recv_times needs_drop (suc n) = do
    r ← try_recv needs_drop
    rs ← recv_times needs_drop n
    pure (r ∷ rs)

  -- A new journal is empty.
  pub make_journal-Sending :
      (item_size n : ℕ)
      → n ≤ 2 ^ 63
      → next_power_of_two n * item_size < 2 ^ 64
      → Sending (next_power_of_two n) (make_journal {A = A} item_size n) []
  unfolding make_journal new
  make_journal-Sending item_size n h small =
      let k = next_power_of_two-IsCapacity n h in
      record {
        shape = record {
          chain =
              end (new item_size n) refl refl
                (record {
                  size = refl;
                  memory = IsAllocated-new A item_size n small;
                  bound = omega arith;
                  filled = omega arith;
                  count = refl;
                  unread = tt;
                })
                refl refl;
          pos = omega arith;
          brk = refl;
          before = λ p h. put_ne (λ _. none) 1 p _ (ground arith);
          after = λ p h. put_ne (λ _. none) 1 p _ (ground arith);
        };
        open_ = refl;
      }

  -- What a run from `s` brings, with what it leaves unread.
  abbrev pub Fifo : ℕ → Bool → List (Op A) → BufferQueue A → List A → Type 0
  Fifo cap needs_drop ops s xs =
      (got : List A) × (rest : List A) × (s' : BufferQueue A) × (exec needs_drop ops s ≡ ok got s')
      × (got ++ rest ≡ xs ++ sent ops)
      × Sending cap s' rest

  push-step :
      (needs_drop : Bool) (x : A) (s s' : BufferQueue A)
      → send x s ≡ ok tt s'
      → step needs_drop (push x) s ≡ ok [] s'
  unfolding step
  push-step needs_drop x s s' runs = rw runs

  recv-Sending :
      {cap : ℕ} {s : BufferQueue A} {xs : List A} (needs_drop : Bool)
      → IsCapacity cap
      → Sending cap s xs
      → (s' : BufferQueue A) × (step needs_drop pull s ≡ ok (brought (recv_spec xs s.hup).0) s')
        × Sending cap s' (recv_spec xs s.hup).1
  unfolding step
  recv-Sending needs_drop k r =
      let (s', runs, after, hup) = try_recv-refines k needs_drop r.shape in
      (s', rw runs, record { shape = after; open_ = hup ∙ r.open_ })

  brought-spec :
      (xs : List A) (hup : Bool) → brought (recv_spec xs hup).0 ++ (recv_spec xs hup).1 ≡ xs
  unfolding recv_spec brought
  brought-spec [] true = refl
  brought-spec [] false = refl
  brought-spec (x ∷ xs) hup = refl

  regroup_read :
      (first got rest unread xs more : List A)
      → got ++ rest ≡ unread ++ more
      → first ++ unread ≡ xs
      → (first ++ got) ++ rest ≡ xs ++ more
  regroup_read first got rest unread xs more order split =
      append_assoc first got rest
      ∙ ap (λ l. first ++ l) order
      ∙ sym (append_assoc first unread more)
      ∙ ap (λ l. l ++ more) split

  -- Whatever the order of sends and reads: the reads bring the items in the order in which they were
  -- sent, each once, and what they have not brought is still unread.
  pub exec-Fifo :
      {cap : ℕ} (needs_drop : Bool) (ops : List (Op A)) (s : BufferQueue A) (xs : List A)
      → IsCapacity cap
      → Sending cap s xs
      → Fifo cap needs_drop ops s xs
  unfolding exec
  exec-Fifo needs_drop [] s xs k r = ([], xs, s, refl, sym (append-nil xs), r)
  exec-Fifo needs_drop (push x ∷ ops) s xs k r =
      let (s', runs, after) = send-append k r x in
      let (got, rest, s'', more, order, left) =
        exec-Fifo needs_drop ops s' (xs ++ x ∷ []) k after in
      (
        got,
        rest,
        s'',
        rw (push-step needs_drop x s s' runs, more),
        order ∙ append_assoc xs (x ∷ []) (sent ops),
        left,
      )
  exec-Fifo needs_drop (pull ∷ ops) s xs k r =
      let (s', runs, after) = recv-Sending needs_drop k r in
      let (got, rest, s'', more, order, left) =
        exec-Fifo needs_drop ops s' (recv_spec xs s.hup).1 k after in
      (
        brought (recv_spec xs s.hup).0 ++ got,
        rest,
        s'',
        rw (runs, more),
        regroup_read (brought (recv_spec xs s.hup).0) got rest (recv_spec xs s.hup).1 xs (sent ops)
            order (brought-spec xs s.hup),
        left,
      )

  -- The results of reads until the journal is known to be disconnected.
  abbrev pub all_then_disconnected : List A → List (Received A)
  all_then_disconnected [] = err disconnected ∷ []
  all_then_disconnected (x ∷ xs) = value x ∷ all_then_disconnected xs

  -- After the sender's drop the unread items can still be read, all of them and in order, and then
  -- the journal reports that it is disconnected.
  pub recv_times-hung_up :
      {cap : ℕ} (needs_drop : Bool) (xs : List A) (s : BufferQueue A)
      → IsCapacity cap
      → Represents cap s xs
      → s.hup ≡ true
      → (s' : BufferQueue A) × (recv_times needs_drop (suc (length xs)) s
          ≡ ok (all_then_disconnected xs) s')
        × Represents cap s' []
  unfolding recv_times recv_spec
  recv_times-hung_up needs_drop [] s k r h =
      let (s', runs, after, hup) = try_recv-refines k needs_drop r in (s', rw (runs, h), after)
  recv_times-hung_up needs_drop (x ∷ xs) s k r h =
      let (s', runs, after, hup) = try_recv-refines k needs_drop r in
      let (s'', more, left) = recv_times-hung_up needs_drop xs s' k after (hup ∙ h) in
      (s'', rw (runs, more), left)

  -- What a journal brings from its making to its end, when the operations `ops` come before the
  -- sender's drop.
  abbrev pub Delivered : ℕ → ℕ → Bool → List (Op A) → Type 0
  Delivered item_size n needs_drop ops =
      (got : List A) × (rest : List A) × (s₁ : BufferQueue A) × (s₂ : BufferQueue A)
      × (s₃ : BufferQueue A) × (exec needs_drop ops (make_journal item_size n) ≡ ok got s₁)
      × (drop_sender s₁ ≡ ok tt s₂)
      × (recv_times needs_drop (suc (length rest)) s₂ ≡ ok (all_then_disconnected rest) s₃)
      × (got ++ rest ≡ sent ops)

  -- A journal from its making to its end, used by one operation at a time, where the capacity asked
  -- for is at most 2 ^ 63 and the buffers, that capacity rounded up to a power of two times the size
  -- of an item, have fewer than 2 ^ 64 bytes: any sequence of sends and reads succeeds, then the sender's drop does, and
  -- then the reads until the journal reports its disconnection. What the reads brought before the
  -- drop, followed by what they bring after it, is what was sent, in order and each item once.
  pub delivery :
      (item_size n : ℕ) (needs_drop : Bool) (ops : List (Op A))
      → n ≤ 2 ^ 63
      → next_power_of_two n * item_size < 2 ^ 64
      → Delivered item_size n needs_drop ops
  delivery item_size n needs_drop ops h small =
      let k = next_power_of_two-IsCapacity n h in
      let (got, rest, s₁, runs, order, left) =
        exec-Fifo needs_drop ops (make_journal item_size n) [] k
          (make_journal-Sending item_size n h small) in
      let (s₂, drops, shape, hup) = drop_sender-keeps k left in
      let (s₃, reads, _) = recv_times-hung_up needs_drop rest s₂ k shape hup in
      (got, rest, s₁, s₂, s₃, runs, drops, reads, order)
