-- ===== src/Journal/Chain/Shrink.antt =====
-- Reads at the receiver's end of a chain: of an item of the first buffer, and past that buffer.
use mo_gc.Common.{
  ℕ, suc, ◌≤◌, ◌<◌, ◌≡◌, refl, ap, sym, subst, ◌∙◌, Bool, false, Option, some, List, [], ◌∷◌, ◌++◌,
  ◌==◌, if◌then◌else◌, arith,
}
use mo_gc.Journal.Memory.{Ptr, Buffer, put, put_self, put_ne}
use mo_gc.Journal.Chain.{Holds, Chain, end, link}
use mo_gc.Journal.Chain.Grow.{same_buffer}

module _ {ℓ} {A : Type ℓ} where
  -- A buffer whose first unread item was read.
  abbrev pub popped : Buffer A → Buffer A
  popped b = record b { head = suc b.head }

  -- The first unread item of a buffer that has one.
  record First (cap : ℕ) (b : Buffer A) (xs : List A) : Type ℓ where
    pub item : A
    pub rest : List A
    pub split : xs ≡ item ∷ rest
    pub slot : b.slots b.head ≡ some item
    pub left : Holds cap (popped b) rest

  Holds-First :
      {cap : ℕ} (b : Buffer A) (xs : List A) → b.head < b.tail → Holds cap b xs → First cap b xs
  Holds-First b [] live h = absurd (omega (arith, h.count))
  Holds-First b (x ∷ xs) live h = record {
    item = x;
    rest = xs;
    split = refl;
    slot = h.unread.0;
    left = record {
      size = h.size;
      memory = h.memory;
      bound = h.bound;
      filled = h.filled;
      count = omega (arith, h.count);
      unread = h.unread.1;
    };
  }

  -- What the memory from `p` on holds decides the chain from `p` on.
  pub Chain-frame :
      {cap : ℕ} {hup : Bool} {cell cell' : Ptr → Option (Buffer A)} {last p : Ptr} {xs : List A}
      → Chain cap hup cell last p xs
      → ((r : Ptr) → p ≤ r → cell' r ≡ cell r)
      → Chain cap hup cell' last p xs
  Chain-frame {p} (end b e at h n m) same = end b e (same p (omega arith) ∙ at) h n m
  Chain-frame {p} (link q b c xs ys at h full n step at' live rest e) same =
      link q b c xs ys (same p (omega arith) ∙ at) h full n step (same q (omega arith) ∙ at') live
        (Chain-frame rest (λ r le. same r (omega arith))) e

  -- A chain after the first unread item of its first buffer was read.
  pub record Popped (cap : ℕ) (hup : Bool) (cell : Ptr → Option (Buffer A)) (last p : Ptr)
      (b : Buffer A) (xs : List A) : Type ℓ where
    pub item : A
    pub rest : List A
    pub split : xs ≡ item ∷ rest
    pub slot : b.slots b.head ≡ some item
    pub small : b.tail ≤ cap
    pub chain : Chain cap hup (put cell p (some (popped b))) last p rest

  pub Chain-pop :
      {cap : ℕ} {hup : Bool} {cell : Ptr → Option (Buffer A)} {last p : Ptr} {xs : List A}
      (b : Buffer A)
      → cell p ≡ some b
      → b.head < b.tail
      → Chain cap hup cell last p xs
      → Popped cap hup cell last p b xs
  Chain-pop {cap} {hup} {cell} {last} {p} {xs} b is_b live (end b' e at h n m) =
      let eq = same_buffer cell p p b' b at is_b refl in
      let hb = subst (λ (b : Buffer A). Holds cap b xs) eq h in
      let f = Holds-First b xs live hb in
      record {
        item = f.item;
        rest = f.rest;
        split = f.split;
        slot = f.slot;
        small = omega (arith, hb.filled, hb.bound);
        chain =
            end (popped b) e (put_self cell p _) f.left (subst (λ (b : Buffer A). b.next ≡ 0) eq n)
              (subst (λ (b : Buffer A). b.tail_max ≡ (if hup then b.tail else cap)) eq m);
      }
  Chain-pop {cap} {cell} {p} b is_b live (link q b' c xs ys at h full n step at' more tail e) =
      let eq = same_buffer cell p p b' b at is_b refl in
      let hb = subst (λ (b : Buffer A). Holds cap b xs) eq h in
      let f = Holds-First b xs live hb in
      let other : (q == p) ≡ false = ground arith in
      record {
        item = f.item;
        rest = f.rest ++ ys;
        split = e ∙ ap (λ l. l ++ ys) f.split;
        slot = f.slot;
        small = omega (arith, hb.filled, hb.bound);
        chain =
            link q (popped b) c f.rest ys (put_self cell p _) f.left
              (subst (λ (b : Buffer A). b.tail ≡ cap) eq full)
              (subst (λ (b : Buffer A). b.next ≡ q) eq n) step (put_ne cell p q _ other ∙ at') more
              (Chain-frame tail (λ r le. put_ne cell p r _ (ground arith))) refl;
      }

  -- How a chain can begin: with an unread item, with a full buffer that has been read, or with
  -- the last buffer, which has been read too.
  pub data Front (cap : ℕ) (hup : Bool) (cell : Ptr → Option (Buffer A)) (last p : Ptr)
      (xs : List A) : Type ℓ where
    unread : (b : Buffer A) → cell p ≡ some b → b.head < b.tail → Front cap hup cell last p xs
    passed :
        (b c : Buffer A)
        → cell p ≡ some b
        → b.tail ≡ b.head
        → b.tail_max ≡ b.tail
        → b.next ≡ suc p
        → cell (suc p) ≡ some c
        → c.head < c.tail
        → Chain cap hup cell last (suc p) xs
        → Front cap hup cell last p xs
    drained :
        (b : Buffer A)
        → p ≡ last
        → cell p ≡ some b
        → b.tail ≡ b.head
        → b.next ≡ 0
        → b.tail_max ≡ (if hup then b.tail else cap)
        → xs ≡ []
        → Front cap hup cell last p xs

  pub Chain-Front :
      {cap : ℕ} {hup : Bool} {cell : Ptr → Option (Buffer A)} {last p : Ptr} {xs : List A}
      → Chain cap hup cell last p xs
      → Front cap hup cell last p xs
  Chain-Front {xs = []} (end b e at h n m) = drained b e at (omega (arith, h.count)) n m refl
  Chain-Front {xs = x ∷ xs} (end b e at h n m) = unread b at (omega (arith, h.count))
  Chain-Front (link q b c (x ∷ xs) ys at h full n step at' live rest e) =
      unread b at (omega (arith, h.count))
  Chain-Front {cap} {hup} {cell} {last} {xs = zs}
        (link q b c [] ys at h full n step at' live rest e) =
      passed b c at (omega (arith, h.count)) (omega (arith, h.filled, h.bound)) (n ∙ step)
        (subst (λ q. cell q ≡ some c) step at') live
        (subst (λ q. Chain cap hup cell last q zs) step
          (subst (λ zs. Chain cap hup cell last q zs) (sym e) rest))
