-- ===== src/Journal/Buffer.antt =====
-- src/journal.rs, `Buffer<T>`: the operations of one buffer, each through a pointer to it.
pub mod Capacity
use mo_gc.Common.{
  ℕ, zero, suc, ◌+◌, ◌-◌, ◌*◌, ◌%◌, ◌^◌, Bool, true, false, Option, none, some, List, [], ◌∷◌, ltb,
  leb, ◌==◌, if◌then◌else◌,
}
use mo_gc.Common.Words.{wrapping_add}
use mo_gc.Journal.Memory.{
  Ptr, Buffer, Run, ok, fault, out_of_fuel, Cmd, pure, ◌>>=◌, ◌>>◌, and_then, put, load, store,
  alloc, free,
}

-- `usize::next_power_of_two`: doubles 1 until it is large enough. After 64 doublings the word has
-- wrapped around to 0, which is what a release build returns.
unfoldable pub doubling : ℕ → ℕ → ℕ → ℕ
doubling zero p n = 0
doubling (suc fuel) p n = let more = doubling fuel (p * 2) n in if leb n p then p else more

unfoldable pub next_power_of_two : ℕ → ℕ
unfolding doubling
next_power_of_two n = doubling 64 1 n

module _ {ℓ} {A : Type ℓ} where
  -- `Buffer::new`, given `size_of::<T>()`. The size of the allocation wraps around, as in a release
  -- build (a debug build panics where it does); the allocation is taken to succeed.
  unfoldable pub new : ℕ → ℕ → Buffer A
  new item_size requested_capacity =
      let rounded_capacity = next_power_of_two requested_capacity in
      record {
        slots = λ _. none;
        capacity = rounded_capacity;
        item_size = item_size;
        allocated = rounded_capacity * item_size % 2 ^ 64;
        head = 0;
        tail = 0;
        tail_max = rounded_capacity;
        next = 0;
      }

  -- `write(self.data.offset(tail), item)`, inside of the allocation.
  unfoldable pub write_slot : Buffer A → ℕ → A → Cmd A (Buffer A)
  write_slot b i item s =
      if leb ((i + 1) * b.item_size) b.allocated
      then ok (record b { slots = put b.slots i (some item) }) s
      else fault

  -- `read(self.data.offset(head))`, of a slot that was written.
  unfoldable pub read_slot : Buffer A → ℕ → Cmd A A
  read_slot b i s = elim (b.slots i) [ none ↦ fault | some item ↦ ok item s ]

  -- Write to the buffer, returning Some(new_buffer) if the current one was full. The result of the
  -- write to the new buffer is dropped, as in the source.
  unfoldable pub write : ℕ → Ptr → A → Cmd A (Option Ptr)
  unfolding load store alloc write_slot new
  write zero self item = λ _. out_of_fuel
  write (suc fuel) self item = do
    b ← load self
    let rest = write fuel
    if ltb b.tail b.tail_max
        then (do
          b' ← write_slot b b.tail item
          store self (record b' { tail = wrapping_add b'.tail 1 })
          pure none)
        else (do
          ptr ← alloc (new b.item_size b.capacity)
          _ ← rest ptr item
          full ← load self
          store self (record full { next = ptr })
          pure (some ptr))

  -- Read the next item from the buffer, if there is one.
  unfoldable pub try_read : Ptr → Cmd A (Option A)
  unfolding load store read_slot
  try_read self = do
    b ← load self
    if ltb b.head b.tail
        then (do
          item ← read_slot b b.head
          store self (record b { head = wrapping_add b.head 1 })
          pure (some item))
        else pure none

  unfoldable pub is_completed : Ptr → Cmd A Bool
  unfolding load
  is_completed self = do b ← load self; pure (b.tail_max == b.tail)

  -- Mark this buffer as full.
  unfoldable pub mark_completed : Ptr → Cmd A (Unit {0})
  unfolding load store
  mark_completed self = do b ← load self; store self (record b { tail_max = b.tail })

  unfoldable pub is_empty : Ptr → Cmd A Bool
  unfolding load
  is_empty self = do b ← load self; pure (b.head == b.tail_max)

  -- The pointer to the next buffer if the sender has written one.
  unfoldable pub next_buffer : Ptr → Cmd A (Option Ptr)
  unfolding load
  next_buffer self = do b ← load self; pure (if b.next == 0 then none else some b.next)

  -- The loop of `Buffer::drop`, which pops the items that are left, so that they are dropped.
  unfoldable pub drain : ℕ → Ptr → Cmd A (List A)
  unfolding try_read
  drain zero self = λ _. out_of_fuel
  drain (suc fuel) self = do
    popped ← try_read self
    let rest = drain fuel self
    elim popped [ none ↦ pure [] | some item ↦ do items ← rest; pure (item ∷ items) ]

  -- `Buffer::drop`, with the items whose destructors it ran. `needs_drop` is that of the item type.
  unfoldable pub drop : Bool → Ptr → Cmd A (List A)
  unfolding load drain free
  drop needs_drop self = do
    b ← load self
    items ← if needs_drop then drain (b.tail - b.head + 1) self else pure []
    free self
    pure items
