-- ===== src/Journal/Queue.antt =====
-- src/journal.rs, `BufferQueue<T>`, `Sender<T>`, `Receiver<T>` and `EmptyIter<T>`.
use mo_gc.Common.{ℕ, zero, suc, Bool, true, false, Option, none, some, List, ◌++◌, if◌then◌else◌}
use mo_gc.Journal.Memory.{Ptr, BufferQueue, ok, out_of_fuel, Cmd, pure, ◌>>=◌, ◌>>◌, and_then, put}
use mo_gc.Journal.Buffer.{
  new, write, try_read, is_completed, mark_completed, is_empty, next_buffer, drop,
}

pub data RecvResult : Type 0 where
  empty disconnected : RecvResult

-- `Result<T, RecvResult>`
pub data Received {ℓ} (A : Type ℓ) : Type ℓ where
  value : A → Received A
  err : RecvResult → Received A

module _ {ℓ} {A : Type ℓ} where
  -- `BufferQueue::new`, given `size_of::<T>()`: the first buffer is the only one, and both ends point at it.
  unfoldable pub make_journal : ℕ → ℕ → BufferQueue A
  unfolding new
  make_journal item_size capacity = record {
    cell = put (λ _. none) 1 (some (new item_size capacity));
    brk = 2;
    head = 1;
    tail = 1;
    hup = false;
  }

  unfoldable pub get_head : Cmd A Ptr
  get_head s = ok s.head s

  unfoldable pub get_tail : Cmd A Ptr
  get_tail s = ok s.tail s

  unfoldable pub get_hup : Cmd A Bool
  get_hup s = ok s.hup s

  unfoldable pub set_tail : Ptr → Cmd A (Unit {0})
  set_tail p s = ok tt (record s { tail = p })

  unfoldable pub set_hup : Bool → Cmd A (Unit {0})
  set_hup b s = ok tt (record s { hup = b })

  -- The old head is dropped, its unread items with it.
  unfoldable pub replace_head : Bool → Ptr → Cmd A (List A)
  unfolding drop
  replace_head needs_drop next_head s =
      and_then (drop needs_drop s.head s) λ items s'. ok items (record s' { head = next_head })

  unfoldable pub head_is_completed : Cmd A Bool
  unfolding get_head is_completed
  head_is_completed = do is_completed (← get_head)

  unfoldable pub next_head : Cmd A (Option Ptr)
  unfolding get_head next_buffer
  next_head = do next_buffer (← get_head)

  -- `Sender::send`. A write makes one more buffer at most, hence the fuel.
  unfoldable pub send : A → Cmd A (Unit {0})
  unfolding get_tail write set_tail
  send item = do
    tail ← get_tail
    result ← write 2 tail item
    elim result [ none ↦ pure tt | some new_tail ↦ set_tail new_tail ]

  -- `Sender::drop`: mark the last buffer as completed and set the HUP flag
  unfoldable pub drop_sender : Cmd A (Unit {0})
  unfolding get_tail mark_completed set_hup
  drop_sender = do tail ← get_tail; mark_completed tail; set_hup true

  -- `Receiver::try_recv`
  unfoldable pub try_recv : Bool → Cmd A (Received A)
  unfolding get_head get_hup try_read head_is_completed next_head replace_head
  try_recv needs_drop = do
    head ← get_head
    result ← try_read head
    elim result [
      | some item ↦ pure (value item)
      | none ↦ do
        completed ← head_is_completed
        if completed
            then (do
              next ← next_head
              elim next [
                | some p ↦ do
                  _ ← replace_head needs_drop p
                  new_head ← get_head
                  peeked ← try_read new_head
                  pure (elim peeked [ some item ↦ value item | none ↦ err empty ])
                | none ↦ do hup ← get_hup; pure (if hup then err disconnected else err empty)
              ])
            else pure (err empty)
    ]

  -- `Receiver::is_disconnected`
  unfoldable pub is_disconnected : Cmd A Bool
  unfolding get_hup next_head get_head is_empty
  is_disconnected = do
    hup ← get_hup
    if hup
        then (do
          next ← next_head
          elim next [ none ↦ do is_empty (← get_head) | some _ ↦ pure false ])
        else pure false

  -- `EmptyIter::next`: ignores the disconnected state
  unfoldable pub next : Bool → Cmd A (Option A)
  unfolding try_recv
  next needs_drop = do
    r ← try_recv needs_drop
    pure (elim r [ value item ↦ some item | err _ ↦ none ])

  -- The loop of `BufferQueue::drop`, from the buffer at `head` on; with the items that were dropped.
  unfoldable pub drop_from : Bool → ℕ → Ptr → Cmd A (List A)
  unfolding next_buffer drop
  drop_from needs_drop zero head = λ _. out_of_fuel
  drop_from needs_drop (suc fuel) head = do
    next ← next_buffer head
    items ← drop needs_drop head
    let rest = drop_from needs_drop fuel
    elim next [ none ↦ pure items | some p ↦ do more ← rest p; pure (items ++ more) ]

  -- `BufferQueue::drop`: drop all unread buffers. There are fewer buffers than addresses in use.
  unfoldable pub drop_queue : Bool → Cmd A (List A)
  unfolding drop_from
  drop_queue needs_drop s = drop_from needs_drop s.brk s.head s
