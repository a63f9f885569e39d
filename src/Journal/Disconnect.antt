-- ===== src/Journal/Disconnect.antt =====
-- src/journal.rs, `Receiver::is_disconnected`: whether the journal will bring nothing more.
use mo_gc.Common.{
  ℕ, suc, ◌<◌, ◌≡◌, ◌∙◌, Bool, true, false, Option, some, List, [], ◌∷◌, ◌==◌, ◌&&◌, arith,
}
use mo_gc.Journal.Memory.{Ptr, Buffer, BufferQueue, ok}
use mo_gc.Journal.Queue.{is_disconnected}
use mo_gc.Journal.Chain.{Chain, end, link, Represents}
use mo_gc.Journal.Chain.Shrink.{Chain-pop}

module _ {A : Type 0} where
  abbrev pub is_nil : List A → Bool
  is_nil [] = true
  is_nil (x ∷ xs) = false

  Front-live :
      {cap : ℕ} {hup : Bool} {cell : Ptr → Option (Buffer A)} {last p : Ptr} {xs : List A}
      (c : Buffer A)
      → cell p ≡ some c
      → c.head < c.tail
      → Chain cap hup cell last p xs
      → is_nil xs ≡ false
  Front-live c at live ch = let f = Chain-pop c at live ch in rw f.split

  -- How a chain begins, for a reader that looks at the first buffer only.
  data Begin (hup : Bool) (cell : Ptr → Option (Buffer A)) (p : Ptr) (xs : List A) : Type 0 where
    last_one :
        (b : Buffer A)
        → cell p ≡ some b
        → b.next ≡ 0
        → (hup ≡ true → (b.head == b.tail_max) ≡ is_nil xs)
        → Begin hup cell p xs
    linked :
        (b : Buffer A) → cell p ≡ some b → b.next ≡ suc p → is_nil xs ≡ false → Begin hup cell p xs

  Chain-Begin :
      {cap : ℕ} {hup : Bool} {cell : Ptr → Option (Buffer A)} {last p : Ptr} {xs : List A}
      → Chain cap hup cell last p xs
      → Begin hup cell p xs
  Chain-Begin {xs = []} (end b e at h n m) = last_one b at n (λ hup. ground (arith, h.count))
  Chain-Begin {xs = x ∷ xs} (end b e at h n m) = last_one b at n (λ hup. ground (arith, h.count))
  Chain-Begin (link q b c (x ∷ xs) ys at h full n step at' live rest e) =
      linked b at (n ∙ step) (rw e)
  Chain-Begin (link q b c [] ys at h full n step at' live rest e) =
      linked b at (n ∙ step) (rw e (Front-live c at' live rest))

  -- On a journal that represents the unread items `xs`, `is_disconnected` changes nothing, and
  -- is true exactly when the sender has hung up and nothing is left to read.
  pub is_disconnected_lem :
      {cap : ℕ} {s : BufferQueue A} {xs : List A}
      → Represents cap s xs
      → is_disconnected s ≡ ok (s.hup && is_nil xs) s
  unfolding is_disconnected
  is_disconnected_lem {s} {xs} r = elim (Chain-Begin r.chain) [
    | last_one b at n m ↦ ground (arith, at, n, m)
    | linked b at n m ↦ ground (arith, at, n, m)
  ]
