-- ===== src/Journal/Recv.antt =====
-- src/journal.rs, `Receiver<T>`: what a read takes from the unread items, and what it reports.
use mo_gc.Common.{
  ℕ, suc, ◌^◌, ◌≤◌, ◌<◌, ◌≡◌, refl, subst, ◌∙◌, inl, inr, Bool, true, Option, none, some, List, [],
  ◌∷◌, ◌==◌, if◌then◌else◌, Bool-cases, arith,
}
use mo_gc.Journal.Memory.{Ptr, Buffer, BufferQueue, ok, put, put_ne}
use mo_gc.Journal.Buffer.{try_read, drop}
use mo_gc.Journal.Buffer.Capacity.{IsCapacity}
use mo_gc.Journal.Queue.{empty, disconnected, Received, value, err, try_recv}
use mo_gc.Journal.Chain.{Chain, Represents}
use mo_gc.Journal.Chain.Grow.{Chain-le}
use mo_gc.Journal.Chain.Shrink.{
  popped, Chain-pop, Chain-frame, unread, passed, drained, Chain-Front,
}

module _ {A : Type 0} where
  pub try_read-item :
      (p : Ptr) (s : BufferQueue A) (b : Buffer A) (x : A)
      → s.cell p ≡ some b
      → b.head < b.tail
      → b.tail < 2 ^ 64
      → b.slots b.head ≡ some x
      → try_read p s ≡ ok (some x) (record s { cell = put s.cell p (some (popped b)) })
  unfolding try_read
  try_read-item p s b x at lt small slot = ground arith

  pub try_read-none :
      (p : Ptr) (s : BufferQueue A) (b : Buffer A)
      → s.cell p ≡ some b
      → b.tail ≤ b.head
      → try_read p s ≡ ok none s
  unfolding try_read
  try_read-none p s b at le = ground arith

  -- An empty buffer is dropped without a destructor to run, and its memory given back.
  pub drop-read :
      (needs_drop : Bool) (p : Ptr) (s : BufferQueue A) (b : Buffer A)
      → s.cell p ≡ some b
      → b.tail ≡ b.head
      → drop needs_drop p s ≡ ok [] (record s { cell = put s.cell p none })
  unfolding drop
  drop-read needs_drop p s b at e = ground arith

  -- Nothing is left to read, and the sender has hung up or not.
  unfoldable pub outcome : Bool → Received A
  outcome hup = if hup then err disconnected else err empty

  try_recv-drained :
      (needs_drop : Bool) (s : BufferQueue A) (b : Buffer A)
      → s.cell s.head ≡ some b
      → b.tail ≡ b.head
      → b.next ≡ 0
      → (s.hup ≡ true → b.tail_max ≡ b.tail)
      → try_recv needs_drop s ≡ ok (outcome s.hup) s
  unfolding try_recv outcome
  try_recv-drained needs_drop s b at e n m = ground arith

  try_recv-unread :
      (needs_drop : Bool) (s : BufferQueue A) (b : Buffer A) (x : A)
      → s.cell s.head ≡ some b
      → b.head < b.tail
      → b.tail < 2 ^ 64
      → b.slots b.head ≡ some x
      → try_recv needs_drop s
        ≡ ok (value x) (record s { cell = put s.cell s.head (some (popped b)) })
  unfolding try_recv
  try_recv-unread needs_drop s b x at lt small slot = ground arith

  try_recv-passed :
      (needs_drop : Bool) (s : BufferQueue A) (b c : Buffer A) (y : A)
      → s.cell s.head ≡ some b
      → b.tail ≡ b.head
      → b.tail_max ≡ b.tail
      → b.next ≡ suc s.head
      → s.cell (suc s.head) ≡ some c
      → c.head < c.tail
      → c.tail < 2 ^ 64
      → c.slots c.head ≡ some y
      → try_recv needs_drop s
        ≡ ok (value y) (record s {
          cell = put (put s.cell s.head none) (suc s.head) (some (popped c));
          head = suc s.head;
        })
  unfolding try_recv
  try_recv-passed needs_drop s b c y at e m n at' live small slot = ground arith

  -- The abstract queue: what a read returns, and what stays unread.
  unfoldable pub recv_spec : List A → Bool → Received A × List A
  unfolding outcome
  recv_spec [] hup = (outcome hup, [])
  recv_spec (x ∷ xs) hup = (value x, xs)

  -- What a read from `s` has to do.
  abbrev pub Reads : ℕ → Bool → BufferQueue A → List A → Type 0
  Reads cap needs_drop s xs =
      (s' : BufferQueue A) × (try_recv needs_drop s ≡ ok (recv_spec xs s.hup).0 s')
      × Represents cap s' (recv_spec xs s.hup).1
      × (s'.hup ≡ s.hup)

  module _ {cap : ℕ} {s : BufferQueue A} {xs : List A} (k : IsCapacity cap) (needs_drop : Bool)
      (r : Represents cap s xs) where
    read-unread :
        (b : Buffer A) → s.cell s.head ≡ some b → b.head < b.tail → Reads cap needs_drop s xs
    unfolding recv_spec
    read-unread b at live =
        let f = Chain-pop b at live r.chain in
        let below = Chain-le r.chain in
        let small : b.tail < 2 ^ 64 = omega (arith, f.small, k.fits) in
        (
          record s { cell = put s.cell s.head (some (popped b)) },
          rw f.split (try_recv-unread needs_drop s b f.item at live small f.slot),
          rw f.split (record {
            chain = f.chain;
            pos = r.pos;
            brk = r.brk;
            before = λ p h. put_ne s.cell s.head p _ (ground arith) ∙ r.before p h;
            after = λ p h. put_ne s.cell s.head p _ (ground arith) ∙ r.after p h;
          }),
          refl,
        )

    read-drained :
        (b : Buffer A)
        → s.cell s.head ≡ some b
        → b.tail ≡ b.head
        → b.next ≡ 0
        → b.tail_max ≡ (if s.hup then b.tail else cap)
        → xs ≡ []
        → Reads cap needs_drop s xs
    unfolding recv_spec
    read-drained b at e n m none_left = (
      s,
      rw none_left (try_recv-drained needs_drop s b at e n (λ h. ground arith)),
      rw none_left (subst (λ xs. Represents cap s xs) none_left r),
      refl,
    )

    -- The memory once the first buffer was given back.
    abbrev freed : Ptr → Option (Buffer A)
    freed = put s.cell s.head none

    freed-before : (p : Ptr) → p < suc s.head → freed p ≡ none
    freed-before p h = elim (Bool-cases (p == s.head)) [
      | inl here ↦ rw here
      | inr other ↦ put_ne s.cell s.head p none other ∙ r.before p (ground arith)
    ]

    read-passed :
        (b c : Buffer A)
        → s.cell s.head ≡ some b
        → b.tail ≡ b.head
        → b.tail_max ≡ b.tail
        → b.next ≡ suc s.head
        → s.cell (suc s.head) ≡ some c
        → c.head < c.tail
        → Chain cap s.hup s.cell s.tail (suc s.head) xs
        → Reads cap needs_drop s xs
    unfolding recv_spec
    read-passed b c at e m n at' live ch =
        let framed =
          Chain-frame {cell' = freed} ch (λ q le. put_ne s.cell s.head q none (ground arith)) in
        let at_next : freed (suc s.head) ≡ some c =
          put_ne s.cell s.head (suc s.head) none (ground arith) ∙ at' in
        let f = Chain-pop c at_next live framed in
        let below = Chain-le ch in
        (
          record s { cell = put freed (suc s.head) (some (popped c)); head = suc s.head },
          rw f.split (
              try_recv-passed needs_drop s b c f.item at e m n at' live
                (omega (arith, f.small, k.fits)) f.slot),
          rw f.split (record {
            chain = f.chain;
            pos = omega arith;
            brk = r.brk;
            before = λ p h. put_ne freed (suc s.head) p _ (ground arith) ∙ freed-before p h;
            after = λ p h.
                put_ne freed (suc s.head) p _ (ground arith)
                ∙ put_ne s.cell s.head p none (ground arith)
                ∙ r.after p h;
          }),
          refl,
        )

    -- On a journal that represents the unread items `xs`, with buffers of a possible capacity,
    -- a read returns, faults on no access, and does what the abstract queue does: it takes the
    -- oldest unread item, or, if there is none, says whether the sender has hung up; the
    -- journal then represents the rest.
    pub try_recv-refines : Reads cap needs_drop s xs
    try_recv-refines = elim (Chain-Front r.chain) [
      | unread b at live ↦ read-unread b at live
      | passed b c at e m n at' live ch ↦ read-passed b c at e m n at' live ch
      | drained b on at e n m none_left ↦ read-drained b at e n m none_left
    ]
