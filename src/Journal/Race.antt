-- ===== src/Journal/Race.antt =====
-- src/journal.rs, `Receiver::try_recv`, in two steps, between which the sender may run: a look at the
-- first buffer, and, where it had nothing, a look at whether that buffer is completed.
use mo_gc.Common.{
  ℕ, suc, ◌^◌, ◌<◌, ◌≡◌, refl, ap, ◌∙◌, subst, inl, inr, Bool, true, false, Option, none, some,
  List, ◌∷◌, ◌++◌, ◌==◌, if◌then◌else◌, Bool-cases, arith, ==_iff,
}
use mo_gc.Journal.Buffer.{try_read, is_completed, next_buffer, drop}
use mo_gc.Journal.Buffer.Capacity.{IsCapacity}
use mo_gc.Journal.Memory.{Ptr, Buffer, BufferQueue, ok, Cmd, pure, ◌>>=◌, put, put_ne, load}
use mo_gc.Journal.Queue.{
  empty, disconnected, Received, value, err, get_head, get_hup, head_is_completed, next_head,
  replace_head, try_recv,
}
use mo_gc.Journal.Chain.{Holds, Chain, end, link, Represents}
use mo_gc.Journal.Chain.Grow.{Chain-le}
use mo_gc.Journal.Chain.Shrink.{popped, Chain-pop, Chain-frame}
use mo_gc.Journal.Recv.{outcome, try_read-item}
use mo_gc.Journal.Release.{drop-buffer}

module _ {A : Type 0} where
  -- The first look: an item of the first buffer, if it has one.
  unfoldable pub first_look : Cmd A (Option A)
  unfolding get_head try_read
  first_look = do try_read (← get_head)

  -- The second look, at a completed buffer and at its successor.
  unfoldable pub second_look : Bool → Cmd A (Received A)
  unfolding get_head get_hup try_read head_is_completed next_head replace_head
  second_look needs_drop = do
    completed ← head_is_completed
    if completed
        then (do
          next ← next_head
          elim next [
            | some p ↦ do
              _ ← replace_head needs_drop p
              new_head ← get_head
              peeked ← try_read new_head
              pure (elim peeked [ some item ↦ value item | none ↦ err empty ])
            | none ↦ do hup ← get_hup; pure (if hup then err disconnected else err empty)
          ])
        else pure (err empty)

  -- The read as a whole is one look after the other.
  unfoldable pub looks : Bool → Cmd A (Received A)
  unfolding first_look second_look
  looks needs_drop = do
    found ← first_look
    elim found [ some item ↦ pure (value item) | none ↦ second_look needs_drop ]

  pub looks-try_recv : (needs_drop : Bool) → looks needs_drop ≡ try_recv needs_drop
  unfolding looks try_recv first_look second_look
  looks-try_recv needs_drop = refl

  late-last :
      (needs_drop : Bool) (s : BufferQueue A) (b : Buffer A)
      → s.cell s.head ≡ some b
      → b.next ≡ 0
      → (s.hup ≡ true → b.tail_max ≡ b.tail)
      → second_look needs_drop s ≡ ok (outcome s.hup) s
  unfolding second_look outcome
  late-last needs_drop s b at n m = ground arith

  late-linked :
      (needs_drop : Bool) (s : BufferQueue A) (b c : Buffer A) (items : List A)
      (f : Ptr → Option (Buffer A)) (y : A)
      → s.cell s.head ≡ some b
      → b.tail_max ≡ b.tail
      → b.next ≡ suc s.head
      → drop needs_drop s.head s ≡ ok items (record s { cell = f })
      → f (suc s.head) ≡ some c
      → c.head < c.tail
      → c.tail < 2 ^ 64
      → c.slots c.head ≡ some y
      → second_look needs_drop s
        ≡ ok (value y) (record s { cell = put f (suc s.head) (some (popped c)); head = suc s.head })
  unfolding second_look head_is_completed is_completed next_head next_buffer replace_head get_head
      load
  late-linked needs_drop s b c items f y at m n drops at' live small slot =
      let linked : (b.next == 0) ≡ false = ground arith in
      let peek =
        try_read-item (suc s.head) (record s { cell = f; head = suc s.head }) c y at' live small
          slot in
      ground (arith, linked, drops, peek)

  -- What the second look makes of the unread items `ys` of the journal.
  pub data Late (cap : ℕ) (needs_drop : Bool) (s : BufferQueue A) (ys : List A) : Type 0 where
    -- The first buffer is the last: nothing is read and nothing lost, though there may be items.
    stays :
        s.head ≡ s.tail → second_look needs_drop s ≡ ok (outcome s.hup) s → Late cap needs_drop s ys
    -- The first buffer is completed and has a successor: the items of the buffer are lost, and the
    -- first item of the successor is read.
    passes :
        (b : Buffer A) (lost : List A) (y : A) (back : List A) (s' : BufferQueue A)
        → s.cell s.head ≡ some b
        → Holds cap b lost
        → ys ≡ lost ++ y ∷ back
        → second_look needs_drop s ≡ ok (value y) s'
        → Represents cap s' back
        → Late cap needs_drop s ys

  module _ {cap : ℕ} {s : BufferQueue A} {ys : List A} (k : IsCapacity cap) (needs_drop : Bool)
      (r : Represents cap s ys) where
    passed :
        (b c : Buffer A) (lost zs : List A)
        → s.cell s.head ≡ some b
        → Holds cap b lost
        → b.tail ≡ cap
        → b.next ≡ suc s.head
        → s.cell (suc s.head) ≡ some c
        → c.head < c.tail
        → Chain cap s.hup s.cell s.tail (suc s.head) zs
        → ys ≡ lost ++ zs
        → Late cap needs_drop s ys
    passed b c lost zs at h full n at' live rest e =
        let (f, drops, gone, same) = drop-buffer needs_drop s.head s b lost k.fits at h in
        let framed = Chain-frame {cell' = f} rest (λ q le. same q (ground arith)) in
        let there : f (suc s.head) ≡ some c = same (suc s.head) (ground arith) ∙ at' in
        let p = Chain-pop c there live framed in
        let below = Chain-le rest in
        passes b lost p.item p.rest
          (record s { cell = put f (suc s.head) (some (popped c)); head = suc s.head }) at h
          (e ∙ ap (λ l. lost ++ l) p.split)
          (late-linked needs_drop s b c _ f p.item at (omega (arith, h.bound, h.filled)) n drops
            there live (omega (arith, p.small, k.fits)) p.slot)
          (record {
            chain = p.chain;
            pos = omega arith;
            brk = r.brk;
            before = λ q lt.
                put_ne f (suc s.head) q _ (ground arith) ∙ elim (Bool-cases (q == s.head)) [
                  | inl here ↦ ap f ((==_iff q s.head).0 here) ∙ gone
                  | inr other ↦ same q other ∙ r.before q (ground arith)
                ];
            after = λ q lt.
                put_ne f (suc s.head) q _ (ground arith) ∙ same q (ground arith) ∙ r.after q lt;
          })

    -- What a read does whose first look found nothing and whose sender has run since then: the
    -- journal now represents the unread items `ys`, whichever they are. The second look returns and
    -- faults on no access. If the first buffer is the last one it takes nothing, and says Empty or,
    -- when the sender has hung up, Disconnected, also where there are items to read. If the sender
    -- has gone on to another buffer, the items that it has put in the first one are lost, the read
    -- gives the item after them, and the journal represents what comes after that.
    pub second_look_lem : Late cap needs_drop s ys
    second_look_lem = go r.chain
      where
        go : Chain cap s.hup s.cell s.tail s.head ys → Late cap needs_drop s ys
        go (end b e at h n m) = stays e (late-last needs_drop s b at n (λ hup. ground arith))
        go (link q b c lost zs at h full n step at' live rest e) =
            passed b c lost zs at h full (n ∙ step) (subst (λ q. s.cell q ≡ some c) step at') live
              (subst (λ q. Chain cap s.hup s.cell s.tail q zs) step rest) e
