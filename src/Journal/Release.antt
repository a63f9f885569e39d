-- ===== src/Journal/Release.antt =====
-- src/journal.rs, `BufferQueue::drop`: the memory and the items that are left when both ends are gone.
use mo_gc.Common.{
  ℕ, zero, suc, ◌+◌, ◌-◌, ◌≤◌, ◌<◌, ◌^◌, ◌≡◌, refl, sym, ap, ◌∙◌, subst, inl, inr, Bool, true,
  false, Option, none, some, List, [], ◌∷◌, ◌++◌, ◌==◌, if◌then◌else◌, length, ltb, Bool-cases,
  arith,
}
use mo_gc.Journal.Memory.{Ptr, Buffer, BufferQueue, ok, put, put_ne, put_self, load, free}
use mo_gc.Journal.Buffer.{next_buffer, drain, drop}
use mo_gc.Journal.Buffer.Capacity.{IsCapacity}
use mo_gc.Journal.Queue.{drop_from, drop_queue}
use mo_gc.Journal.Chain.{Slots, Holds, Chain, end, link, Represents}
use mo_gc.Journal.Chain.Grow.{Chain-le}
use mo_gc.Journal.Chain.Shrink.{popped, Chain-frame}
use mo_gc.Journal.Recv.{try_read-item, try_read-none}

module _ {A : Type 0} where
  -- The memory `f` is that of `s` but at `p`.
  abbrev pub Elsewhere : BufferQueue A → Ptr → (Ptr → Option (Buffer A)) → Type 0
  Elsewhere s p f = (q : Ptr) → (q == p) ≡ false → f q ≡ s.cell q

  -- The loop pops the unread items of the buffer.
  drain-unread :
      (xs : List A) (p : Ptr) (s : BufferQueue A) (b : Buffer A)
      → s.cell p ≡ some b
      → b.tail ≡ b.head + length xs
      → b.tail < 2 ^ 64
      → Slots b.slots b.head xs
      → (f : Ptr → Option (Buffer A)) × (b' : Buffer A) × (drain (suc (length xs)) p s
          ≡ ok xs (record s { cell = f }))
        × (f p ≡ some b')
        × Elsewhere s p f
  unfolding drain
  drain-unread [] p s b at count small slots =
      (s.cell, b, rw (try_read-none p s b at (omega arith)) refl, at, λ q h. refl)
  drain-unread (x ∷ xs) p s b at count small slots =
      let s' : BufferQueue A = record s { cell = put s.cell p (some (popped b)) } in
      let (f, b', runs, there, same) =
        drain-unread xs p s' (popped b) (put_self s.cell p _) (omega arith) small slots.1 in
      (
        f,
        b',
        rw (try_read-item p s b x at (omega arith) small slots.0, runs) refl,
        there,
        λ q h. same q h ∙ put_ne s.cell p q _ h,
      )

  -- The items whose destructors run.
  abbrev pub dropped_items : Bool → List A → List A
  dropped_items needs_drop xs = if needs_drop then xs else []

  -- A buffer is dropped: its unread items are, where that means something, and its memory is given
  -- back.
  pub drop-buffer :
      {cap : ℕ} (needs_drop : Bool) (p : Ptr) (s : BufferQueue A) (b : Buffer A) (xs : List A)
      → cap < 2 ^ 64
      → s.cell p ≡ some b
      → Holds cap b xs
      → (f : Ptr → Option (Buffer A)) × (drop needs_drop p s
          ≡ ok (dropped_items needs_drop xs) (record s { cell = f }))
        × (f p ≡ none)
        × Elsewhere s p f
  unfolding drop load free
  drop-buffer false p s b xs fits at h =
      (put s.cell p none, ground arith, put_self s.cell p none, λ q ne. put_ne s.cell p q none ne)
  drop-buffer true p s b xs fits at h =
      let (f, b', runs, there, same) =
        drain-unread xs p s b at h.count (omega (arith, h.filled, h.bound)) h.unread in
      let fuel : b.tail - b.head + 1 ≡ suc (length xs) = omega (arith, h.count) in
      (
        put f p none,
        rw (drop, load, free, at, fuel, runs, there) refl,
        put_self f p none,
        λ q ne. put_ne f p q none ne ∙ same q ne,
      )

  dropped_items-append :
      (needs_drop : Bool) (xs ys : List A)
      → dropped_items needs_drop xs ++ dropped_items needs_drop ys
        ≡ dropped_items needs_drop (xs ++ ys)
  dropped_items-append true xs ys = refl
  dropped_items-append false xs ys = refl

  next_buffer-last :
      (p : Ptr) (s : BufferQueue A) (b : Buffer A)
      → s.cell p ≡ some b
      → b.next ≡ 0
      → next_buffer p s ≡ ok none s
  unfolding next_buffer load
  next_buffer-last p s b at e = ground arith

  next_buffer-linked :
      (p q : Ptr) (s : BufferQueue A) (b : Buffer A)
      → s.cell p ≡ some b
      → b.next ≡ q
      → 0 < q
      → next_buffer p s ≡ ok (some q) s
  unfolding next_buffer load
  next_buffer-linked p q s b at e pos = ground arith

  -- What the loop leaves: the buffers from `p` to `last` are gone, the others are as they were.
  record Released (s : BufferQueue A) (p last : Ptr) (f : Ptr → Option (Buffer A)) : Type 0 where
    gone : (q : Ptr) → p ≤ q → q ≤ last → f q ≡ none
    below : (q : Ptr) → q < p → f q ≡ s.cell q
    above : (q : Ptr) → last < q → f q ≡ s.cell q

  drop_from-Released :
      {cap : ℕ} {hup : Bool} {last : Ptr} (needs_drop : Bool) (fuel : ℕ) (s : BufferQueue A)
      (p : Ptr) (xs : List A)
      → cap < 2 ^ 64
      → last < p + fuel
      → Chain cap hup s.cell last p xs
      → (f : Ptr → Option (Buffer A)) × (drop_from needs_drop fuel p s
          ≡ ok (dropped_items needs_drop xs) (record s { cell = f }))
        × Released s p last f
  unfolding drop_from
  drop_from-Released needs_drop zero s p xs fits enough ch = absurd (omega (arith, Chain-le ch))
  drop_from-Released needs_drop (suc fuel) s p xs fits enough (end b e at h n m) =
      let (f, runs, gone, rest) = drop-buffer needs_drop p s b xs fits at h in
      (
        f,
        rw (next_buffer-last p s b at n, runs) refl,
        record {
          gone =
              λ q lo hi. let here : p ≡ q = omega (arith, e) in subst (λ q. f q ≡ none) here gone;
          below = λ q lt. rest q (ground arith);
          above = λ q lt. rest q (ground arith);
        },
      )
  drop_from-Released needs_drop (suc fuel) s p zs fits enough
        (link q b c xs ys at h full n step at' live rest e) =
      let (f, runs, gone, other) = drop-buffer needs_drop p s b xs fits at h in
      let s' : BufferQueue A = record s { cell = f } in
      let (g, more, released) =
        drop_from-Released needs_drop fuel s' q ys fits (omega arith)
          (Chain-frame {cell' = f} rest (λ r le. other r (ground arith))) in
      (
        g,
        rw (next_buffer-linked p q s b at n (omega arith), runs, more, e)
            (ap (λ l. ok l (record s { cell = g })) (dropped_items-append needs_drop xs ys)),
        record {
          gone = λ r lo hi. elim (Bool-cases (r == p)) [
            | inl here ↦
                let same : r ≡ p = ground arith in
                released.below r (omega arith) ∙ subst (λ r. f r ≡ none) (sym same) gone
            | inr later ↦ released.gone r (ground arith) hi
          ];
          below = λ r lt. released.below r (omega arith) ∙ other r (ground arith);
          above = λ r lt. released.above r lt ∙ other r (ground (arith, Chain-le rest));
        },
      )

  -- When both ends of a journal that represents the unread items `xs` are gone, its drop returns,
  -- faults on no access, runs the destructors of the unread items, all of them in order and no other
  -- (if the type of the items has any), and gives back every buffer.
  pub drop_queue-releases :
      {cap : ℕ} {s : BufferQueue A} {xs : List A} (needs_drop : Bool)
      → IsCapacity cap
      → Represents cap s xs
      → (s' : BufferQueue A) × (drop_queue needs_drop s ≡ ok (dropped_items needs_drop xs) s')
        × ((p : Ptr) → s'.cell p ≡ none)
  unfolding drop_queue
  drop_queue-releases {s} {xs} needs_drop k r =
      let (f, runs, released) =
        drop_from-Released needs_drop s.brk s s.head xs k.fits (omega (arith, r.brk)) r.chain in
      (
        record s { cell = f },
        runs,
        λ p. elim (Bool-cases (ltb p s.head)) [
          | inl low ↦ released.below p (ground arith) ∙ r.before p (ground arith)
          | inr high ↦ elim (Bool-cases (ltb s.tail p)) [
            | inl past ↦ released.above p (ground arith) ∙ r.after p (ground arith)
            | inr inside ↦ released.gone p (ground arith) (ground arith)
          ]
        ],
      )
