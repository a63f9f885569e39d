-- ===== src/Journal/Chain.antt =====
-- What a journal's memory holds: the chain of buffers from the receiver's end to the sender's, and
-- the items in it that were not read.
pub mod Grow
pub mod Shrink
use mo_gc.Common.{
  ℕ, suc, ◌+◌, ◌*◌, ◌^◌, ◌≤◌, ◌<◌, ◌≡◌, Bool, Option, none, some, List, [], ◌∷◌, ◌++◌, length,
  if◌then◌else◌,
}
use mo_gc.Journal.Memory.{Ptr, Buffer, BufferQueue}

module _ {ℓ} {A : Type ℓ} where
  -- The slots from `i` on hold these items.
  abbrev pub Slots : (ℕ → Option A) → ℕ → List A → Type ℓ
  Slots f i [] = Unit
  Slots f i (x ∷ xs) = (f i ≡ some x) × Slots f (suc i) xs

  -- The allocation of a buffer is as large as its capacity needs.
  abbrev pub IsAllocated : Buffer A → Type 0
  IsAllocated b = (b.allocated ≡ b.capacity * b.item_size) × (b.capacity * b.item_size < 2 ^ 64)

  -- A buffer of capacity `cap` whose unread items are `xs`.
  pub record Holds (cap : ℕ) (b : Buffer A) (xs : List A) : Type ℓ where
    pub size : b.capacity ≡ cap
    pub memory : IsAllocated b
    pub bound : b.tail_max ≤ cap
    pub filled : b.tail ≤ b.tail_max
    pub count : b.tail ≡ b.head + length xs
    pub unread : Slots b.slots b.head xs

  -- From `p` on the buffers up to `last` hold the unread items `xs`. Every buffer but the last is
  -- full, and every buffer but the first has an unread item of its own.
  pub data Chain (cap : ℕ) (hup : Bool) (cell : Ptr → Option (Buffer A)) (last : Ptr)
      : Ptr → List A → Type ℓ where
    end :
        {p : Ptr} {xs : List A} (b : Buffer A)
        → p ≡ last
        → cell p ≡ some b
        → Holds cap b xs
        → b.next ≡ 0
        → b.tail_max ≡ (if hup then b.tail else cap)
        → Chain cap hup cell last p xs
    link :
        {p : Ptr} {zs : List A} (q : Ptr) (b c : Buffer A) (xs ys : List A)
        → cell p ≡ some b
        → Holds cap b xs
        → b.tail ≡ cap
        → b.next ≡ q
        → q ≡ suc p
        → cell q ≡ some c
        → c.head < c.tail
        → Chain cap hup cell last q ys
        → zs ≡ xs ++ ys
        → Chain cap hup cell last p zs

  -- The journal `s` has the unread items `xs`; no buffer outside of the chain is allocated.
  pub record Represents (cap : ℕ) (s : BufferQueue A) (xs : List A) : Type ℓ where
    pub chain : Chain cap s.hup s.cell s.tail s.head xs
    pub pos : 0 < s.head
    pub brk : s.brk ≡ suc s.tail
    pub before : (p : Ptr) → p < s.head → s.cell p ≡ none
    pub after : (p : Ptr) → s.tail < p → s.cell p ≡ none
