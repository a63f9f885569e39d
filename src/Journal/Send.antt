-- ===== src/Journal/Send.antt =====
-- src/journal.rs, `Sender<T>`: a send appends to the unread items, a hang-up keeps them.
use mo_gc.Common.{
  ℕ, suc, ◌+◌, ◌*◌, ◌^◌, ◌≤◌, ◌<◌, ◌≡◌, ◌≢◌, refl, sym, subst, ◌∙◌, inl, inr, true, false, none,
  some, List, [], ◌∷◌, ◌++◌, ltb, ◌==◌, ==_refl, Bool-cases, arith,
}
use mo_gc.Journal.Memory.{Ptr, Buffer, BufferQueue, ok, put, put_ne}
use native.Mathlib.Nat.{mul-le-mul_right}
use mo_gc.Journal.Buffer.{new, write, next_power_of_two}
use mo_gc.Journal.Buffer.Capacity.{IsCapacity}
use mo_gc.Journal.Queue.{send, drop_sender}
use mo_gc.Journal.Chain.{IsAllocated, Holds, Chain, Represents}
use mo_gc.Journal.Chain.Grow.{
  Chain-le, Last, Chain-Last, Chain-grow, Chain-extend, Chain-close, pushed, completed,
}

pub IsAllocated-new {ℓ} :
    (A : Type ℓ) (item_size n : ℕ)
    → next_power_of_two n * item_size < 2 ^ 64
    → IsAllocated (new {A = A} item_size n)
unfolding new
IsAllocated-new A item_size n small = (omega (arith, small), small)

module _ {ℓ} {A : Type ℓ} where
  -- A slot below the capacity lies in the allocation.
  fits_slot :
      (b : Buffer A) (i : ℕ) → i < b.capacity → IsAllocated b → (i + 1) * b.item_size ≤ b.allocated
  fits_slot b i h (whole, small) =
      rw whole (mul-le-mul_right {m = i + 1} {n = b.capacity} b.item_size (omega (arith, h)))

  -- A write to a buffer with room.
  write-room :
      (fuel : ℕ) (p : Ptr) (item : A) (s : BufferQueue A) (b : Buffer A)
      → s.cell p ≡ some b
      → b.tail < b.tail_max
      → b.tail_max ≤ b.capacity
      → b.capacity < 2 ^ 64
      → IsAllocated b
      → write (suc fuel) p item s
        ≡ ok none (record s { cell = put s.cell p (some (pushed b item)) })
  unfolding write
  write-room fuel p item s b at lt le small memory =
      let fits : (b.tail + 1) * b.item_size ≤ b.allocated =
        fits_slot b b.tail (omega arith) memory in
      ground (arith, fits)

  -- A write to a full buffer, with an unused address at hand for a new buffer of `cap` items.
  linked : BufferQueue A → Ptr → Buffer A → ℕ → A → BufferQueue A
  linked s p b cap item = record s {
    cell =
        put
          (put (put s.cell s.brk (some (new b.item_size cap))) s.brk
            (some (pushed (new b.item_size cap) item)))
          p (some (record b { next = s.brk }));
    brk = suc s.brk;
  }

  write-full :
      (cap : ℕ) (p : Ptr) (item : A) (s : BufferQueue A) (b : Buffer A)
      → IsCapacity cap
      → s.cell p ≡ some b
      → b.tail ≡ b.tail_max
      → b.capacity ≡ cap
      → cap * b.item_size < 2 ^ 64
      → p < s.brk
      → write 2 p item s ≡ ok (some s.brk) (linked s p b cap item)
  unfolding write linked
  write-full cap p item s b k at full size small fresh =
      let memory = IsAllocated-new A b.item_size cap (rw k.rounded small) in
      let fits = fits_slot (new b.item_size cap) 0 (rw k.rounded k.pos) memory in
      ground (arith, k.rounded, k.pos, k.fits, fits)

  -- The sender has not hung up, and the journal holds `xs` and nothing else.
  pub record Sending (cap : ℕ) (s : BufferQueue A) (xs : List A) : Type ℓ where
    pub shape : Represents cap s xs
    pub open_ : s.hup ≡ false

  Holds-new :
      (item_size cap : ℕ) (item : A)
      → IsCapacity cap
      → cap * item_size < 2 ^ 64
      → Holds cap (pushed (new item_size cap) item) (item ∷ [])
  unfolding new
  Holds-new item_size cap item k small = record {
    size = k.rounded;
    memory = IsAllocated-new A item_size cap (rw k.rounded small);
    bound = ground (arith, k.rounded);
    filled = ground (arith, k.rounded, k.pos);
    count = omega arith;
    unread = (refl, tt);
  }

  new-tail_max :
      (item_size cap : ℕ) (item : A)
      → IsCapacity cap
      → (pushed (new item_size cap) item).tail_max ≡ cap
  unfolding new
  new-tail_max item_size cap item k = k.rounded

  -- The state after a send into the last buffer `l`.
  grown : BufferQueue A → Buffer A → A → BufferQueue A
  grown s l item = record s { cell = put s.cell s.tail (some (pushed l item)) }

  module _ {cap : ℕ} {s : BufferQueue A} {xs : List A} (k : IsCapacity cap)
      (r : Sending cap s xs) where
    open-Chain : Chain cap false s.cell s.tail s.head xs
    open-Chain = subst (λ h. Chain cap h s.cell s.tail s.head xs) r.open_ r.shape.chain

    last : Last cap false s.cell s.tail
    last = Chain-Last open-Chain

    below : s.head ≤ s.tail
    below = Chain-le open-Chain

    send-grown :
        (item : A)
        → last.buffer.tail < last.buffer.tail_max
        → (send item s ≡ ok tt (grown s last.buffer item))
          × Sending cap (grown s last.buffer item) (xs ++ item ∷ [])
    unfolding send grown
    send-grown item lt = (
      rw (
          write-room 1 s.tail item s last.buffer last.found lt (omega (arith, last.size, last.room))
            (omega (arith, last.size, k.fits)) last.memory),
      record {
        shape = record {
          chain =
              subst
                (λ h.
                  Chain cap h (put s.cell s.tail (some (pushed last.buffer item))) s.tail s.head
                    (xs ++ item ∷ []))
                (sym r.open_) (Chain-grow item last.buffer last.found lt open-Chain);
          pos = r.shape.pos;
          brk = r.shape.brk;
          before = λ p h. put_ne s.cell s.tail p _ (ground (arith, below)) ∙ r.shape.before p h;
          after = λ p h. put_ne s.cell s.tail p _ (ground arith) ∙ r.shape.after p h;
        };
        open_ = r.open_;
      },
    )

    test : (p q : ℕ) → p ≢ q → (p == q) ≡ false
    test p q ne = ground arith

    linked-elsewhere :
        (item : A) (l : Buffer A) (p : Ptr)
        → (p == s.tail) ≡ false
        → (p == s.brk) ≡ false
        → (linked s s.tail l cap item).cell p ≡ s.cell p
    unfolding linked
    linked-elsewhere item l p ne_tail ne_brk = rw (ne_tail, ne_brk)

    send-linked :
        (item : A)
        → last.buffer.tail ≡ last.buffer.tail_max
        → let s' : BufferQueue A = record (linked s s.tail last.buffer cap item) { tail = s.brk } in
          (send item s ≡ ok tt s') × Sending cap s' (xs ++ item ∷ [])
    unfolding send linked new
    send-linked item full =
        let fresh : s.brk ≡ suc s.tail = r.shape.brk in
        let small : cap * last.buffer.item_size < 2 ^ 64 =
          subst (λ n. n * last.buffer.item_size < 2 ^ 64) last.size last.memory.1 in
        (
          rw (
              write-full cap s.tail item s last.buffer k last.found full last.size small
                (omega arith)),
          record {
            shape = record {
              chain = simp r.open_ (
                  rw fresh (
                    Chain-extend item last.buffer (pushed (new last.buffer.item_size cap) item)
                      last.found (full ∙ last.open_end)
                      (Holds-new last.buffer.item_size cap item k small) refl
                      (new-tail_max last.buffer.item_size cap item k)
                      (λ p h. rw (test p s.tail (omega arith), test p (suc s.tail) (omega arith)))
                      (rw (==_refl s.tail))
                      (rw (test (suc s.tail) s.tail (omega arith), ==_refl (suc s.tail)))
                      open-Chain));
              pos = r.shape.pos;
              brk = refl;
              before = λ p h.
                  linked-elsewhere item last.buffer p (ground (arith, below))
                    (ground (arith, below))
                  ∙ r.shape.before p h;
              after = λ p h.
                  linked-elsewhere item last.buffer p (ground arith) (ground arith)
                  ∙ r.shape.after p (omega arith);
            };
            open_ = r.open_;
          },
        )

    -- On a journal that represents the unread items `xs`, whose sender has not hung up and
    -- whose buffers have a possible capacity, a send returns, faults on no access, and appends
    -- the item to what is unread.
    pub send-append :
        (item : A)
        → (s' : BufferQueue A) × (send item s ≡ ok tt s') × Sending cap s' (xs ++ item ∷ [])
    send-append item = elim (Bool-cases (ltb last.buffer.tail last.buffer.tail_max)) [
      | inl room ↦ let (runs, after) = send-grown item (ground arith) in (_, runs, after)
      | inr full ↦
          let (runs, after) = send-linked item (ground (arith, last.filled)) in (_, runs, after)
    ]

    closed : BufferQueue A
    closed = record s { cell = put s.cell s.tail (some (completed last.buffer)); hup = true }

    -- On a journal that represents the unread items `xs` and whose sender has not hung up, the
    -- sender's drop returns, keeps the unread items and leaves the journal hung up.
    pub drop_sender-keeps :
        (s' : BufferQueue A) × (drop_sender s ≡ ok tt s') × Represents cap s' xs × (s'.hup ≡ true)
    unfolding drop_sender closed
    drop_sender-keeps = (
      closed,
      ground (arith, last.found),
      record {
        chain = Chain-close last.buffer last.found open-Chain;
        pos = r.shape.pos;
        brk = r.shape.brk;
        before = λ p h.
            put_ne s.cell s.tail p _ (test p s.tail (omega (arith, below))) ∙ r.shape.before p h;
        after = λ p h. put_ne s.cell s.tail p _ (test p s.tail (omega arith)) ∙ r.shape.after p h;
      },
      refl,
    )
