-- ===== src/Journal/Chain/Grow.antt =====
-- Writes at the sender's end of a chain: into the last buffer, or into a new one behind it.
use mo_gc.Common.{
  ℕ, suc, ◌+◌, ◌≤◌, ◌<◌, ◌≡◌, refl, ap, sym, subst, ◌∙◌, inl, inr, Bool, true, false, Option, some,
  List, [], ◌∷◌, ◌++◌, append_assoc, length, length-append, ◌==◌, if◌then◌else◌, Bool-cases, ==_iff,
  arith,
}
use mo_gc.Journal.Memory.{put_self, put_ne, Ptr, Buffer, put}
use mo_gc.Journal.Chain.{IsAllocated, Slots, Holds, Chain, end, link}

module _ {ℓ} {A : Type ℓ} where
  -- A buffer with one more item.
  abbrev pub pushed : Buffer A → A → Buffer A
  pushed b item = record b { slots = put b.slots b.tail (some item); tail = suc b.tail }

  Slots-put :
      (f : ℕ → Option A) (i j : ℕ) (xs : List A) (v : Option A)
      → i + length xs ≤ j
      → Slots f i xs
      → Slots (put f j v) i xs
  Slots-put f i j [] v h s = tt
  Slots-put f i j (x ∷ xs) v h s =
      (ground (arith, s.0), Slots-put f (suc i) j xs v (omega arith) s.1)

  Slots-snoc :
      (f : ℕ → Option A) (i : ℕ) (xs : List A) (x : A) (j : ℕ)
      → j ≡ i + length xs
      → Slots f i xs
      → Slots (put f j (some x)) i (xs ++ x ∷ [])
  Slots-snoc f i [] x j e s = (ground arith, tt)
  Slots-snoc f i (y ∷ ys) x j e s =
      (ground (arith, s.0), Slots-snoc f (suc i) ys x j (omega arith) s.1)

  Holds-pushed :
      {cap : ℕ} {b : Buffer A} {xs : List A} (item : A)
      → Holds cap b xs
      → b.tail < b.tail_max
      → Holds cap (pushed b item) (xs ++ item ∷ [])
  Holds-pushed {b} {xs} item h lt = record {
    size = h.size;
    memory = h.memory;
    bound = h.bound;
    filled = lt;
    count = omega (arith, h.count, length-append xs (item ∷ []));
    unread = Slots-snoc b.slots b.head xs item b.tail h.count h.unread;
  }

  pub Chain-le :
      {cap : ℕ} {hup : Bool} {cell : Ptr → Option (Buffer A)} {last p : Ptr} {xs : List A}
      → Chain cap hup cell last p xs
      → p ≤ last
  Chain-le (end b e at h n m) = omega arith
  Chain-le (link q b c xs ys at h full n step at' live rest e) = omega (arith, Chain-le rest)

  -- The last buffer of a chain.
  pub record Last (cap : ℕ) (hup : Bool) (cell : Ptr → Option (Buffer A)) (last : Ptr)
      : Type ℓ where
    pub buffer : Buffer A
    pub found : cell last ≡ some buffer
    pub size : buffer.capacity ≡ cap
    pub memory : IsAllocated buffer
    pub filled : buffer.tail ≤ buffer.tail_max
    pub room : buffer.tail_max ≤ cap
    pub unlinked : buffer.next ≡ 0
    pub open_end : buffer.tail_max ≡ (if hup then buffer.tail else cap)

  pub Chain-Last :
      {cap : ℕ} {hup : Bool} {cell : Ptr → Option (Buffer A)} {last p : Ptr} {xs : List A}
      → Chain cap hup cell last p xs
      → Last cap hup cell last
  Chain-Last (end b e at h n m) = record {
    buffer = b;
    found = cc;
    size = h.size;
    memory = h.memory;
    filled = h.filled;
    room = h.bound;
    unlinked = n;
    open_end = m;
  }
  Chain-Last (link q b c xs ys at h full n step at' live rest e) = Chain-Last rest

  append_regroup : {zs : List A} (xs ys w : List A) → zs ≡ xs ++ ys → zs ++ w ≡ xs ++ (ys ++ w)
  append_regroup xs ys w e = rw e (append_assoc xs ys w)

  pub same_buffer :
      (cell : Ptr → Option (Buffer A)) (p q : Ptr) (b c : Buffer A)
      → cell p ≡ some b
      → cell q ≡ some c
      → p ≡ q
      → b ≡ c
  same_buffer cell p q b c at at' e = cc

  -- A write into the last buffer.
  pub Chain-grow :
      {cap : ℕ} {cell : Ptr → Option (Buffer A)} {last p : Ptr} {xs : List A} (item : A)
      (l : Buffer A)
      → cell last ≡ some l
      → l.tail < l.tail_max
      → Chain cap false cell last p xs
      → Chain cap false (put cell last (some (pushed l item))) last p (xs ++ item ∷ [])
  Chain-grow {cap} {cell} {last} {p} {xs} item l is_last lt (end b e at h n m) =
      let same = same_buffer cell p last b l at is_last e in
      end (pushed l item) e (ground arith)
        (Holds-pushed item (subst (λ (b : Buffer A). Holds cap b xs) same h) lt) (ground arith)
        (ground arith)
  Chain-grow {last} {p} item l is_last lt (link q b c xs ys at h full n step at' live rest e) =
      let below = Chain-le rest in
      let whole = append_regroup xs ys (item ∷ []) e in
      elim (Bool-cases (q == last)) [
        | inl near ↦
            link q b (pushed l item) xs (ys ++ item ∷ []) (ground arith) h full n step
              (ground arith) (ground arith) (Chain-grow item l is_last lt rest) whole
        | inr far ↦
            link q b c xs (ys ++ item ∷ []) (ground arith) h full n step (ground arith) live
              (Chain-grow item l is_last lt rest) whole
      ]

  -- A new buffer behind a full last one.
  pub Chain-extend :
      {cap : ℕ} {cell cell' : Ptr → Option (Buffer A)} {last p : Ptr} {xs : List A} (item : A)
      (l n : Buffer A)
      → cell last ≡ some l
      → l.tail ≡ cap
      → Holds cap n (item ∷ [])
      → n.next ≡ 0
      → n.tail_max ≡ cap
      → ((r : Ptr) → r < last → cell' r ≡ cell r)
      → cell' last ≡ some (record l { next = suc last })
      → cell' (suc last) ≡ some n
      → Chain cap false cell last p xs
      → Chain cap false cell' (suc last) p (xs ++ item ∷ [])
  Chain-extend {cap} {cell} {cell'} {last} {p} {xs} item l n is_last full hn nn nm same at_last
        at_new (end b e at h _ m) =
      let eq = same_buffer cell p last b l at is_last e in
      let hl = subst (λ (b : Buffer A). Holds cap b xs) eq h in
      link (suc last) (record l { next = suc last }) n xs (item ∷ []) (rw e at_last)
        (record {
          size = hl.size;
          memory = hl.memory;
          bound = hl.bound;
          filled = hl.filled;
          count = hl.count;
          unread = hl.unread;
        })
        full refl (ap suc (sym e)) at_new (omega (arith, hn.count)) (end n refl at_new hn nn nm)
        refl
  Chain-extend {cell} {last} {p} item l n is_last full hn nn nm same at_last at_new
        (link q b c xs ys at h fu nx step at' live rest e) =
      let below = Chain-le rest in
      let whole = append_regroup xs ys (item ∷ []) e in
      let more = Chain-extend item l n is_last full hn nn nm same at_last at_new rest in
      let live_at : q ≡ last → l.head < l.tail = λ on.
        subst (λ (b : Buffer A). b.head < b.tail) (same_buffer cell q last c l at' is_last on)
          live in
      elim (Bool-cases (q == last)) [
        | inl near ↦
            link q b (record l { next = suc last }) xs (ys ++ item ∷ []) (same p (omega arith) ∙ at)
              h fu nx step (rw ((==_iff q last).0 near) at_last) (live_at ((==_iff q last).0 near))
              more whole
        | inr far ↦
            link q b c xs (ys ++ item ∷ []) (same p (omega arith) ∙ at) h fu nx step
              (same q (ground arith) ∙ at') live more whole
      ]

  abbrev pub completed : Buffer A → Buffer A
  completed b = record b { tail_max = b.tail }

  -- The last buffer is marked as completed.
  pub Chain-close :
      {cap : ℕ} {cell : Ptr → Option (Buffer A)} {last p : Ptr} {xs : List A} (l : Buffer A)
      → cell last ≡ some l
      → Chain cap false cell last p xs
      → Chain cap true (put cell last (some (completed l))) last p xs
  Chain-close {cap} {cell} {last} {p} {xs} l is_last (end b e at h n m) =
      let eq = same_buffer cell p last b l at is_last e in
      let hl = subst (λ (b : Buffer A). Holds cap b xs) eq h in
      end (completed l) e (rw e (put_self cell last _))
        (record {
          size = hl.size;
          memory = hl.memory;
          bound = ground (arith, hl.filled, hl.bound);
          filled = ground arith;
          count = hl.count;
          unread = hl.unread;
        })
        (subst (λ (b : Buffer A). b.next ≡ 0) eq n) refl
  Chain-close {cell} {last} {p} l is_last (link q b c xs ys at h full n step at' live rest e) =
      let below = Chain-le rest in
      let here = put_ne cell last p (some (completed l)) (ground arith) ∙ at in
      let more = Chain-close l is_last rest in
      elim (Bool-cases (q == last)) [
        | inl near ↦
            let on : q ≡ last = (==_iff q last).0 near in
            link q b (completed l) xs ys here h full n step (rw on (put_self cell last _))
              (subst (λ (b : Buffer A). b.head < b.tail)
                (same_buffer cell q last c l at' is_last on) live)
              more e
        | inr far ↦ link q b c xs ys here h full n step (put_ne cell last q _ far ∙ at') live more e
      ]
