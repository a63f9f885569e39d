-- ===== src/Examples/Balloon/Chain.antt =====
-- What a balloon is after its twists: a chain of all its segments.
use mo_gc.Common.{
  ◌∙◌, ℕ, ◌+◌, ◌≡◌, refl, sym, subst, inl, inr, true, false, some, List, [], ◌∷◌, ◌++◌, ◌==◌, elem,
  Distinct, length, arith, Bool-cases, ==_iff, ==_refl, append_assoc, append-nil,
}
use mo_gc.AppThread.{Traced, entry_of, write, gc_new, gc_null, box_object}
use mo_gc.AppThread.Values.{Boxes, GcBox, box_new, put_box, gc_value_mut}
use mo_gc.Constants.{new_bit}
use mo_gc.Examples.Balloon.{Meanwhile, Segment, segment_new, join_to, Balloon, twist, twists}
use mo_gc.Heap.Object.{Object}
use mo_gc.Journal.Buffer.Capacity.{IsCapacity}
use mo_gc.Journal.Memory.{BufferQueue, ok}
use mo_gc.Journal.Send.{Sending, send-append}

-- The box of a segment before another one, or before none.
abbrev pub linked : ℕ → GcBox Segment
linked next = record { value = record { next = record { ptr = next } } }

-- The segments from the head to the tail, each with a pointer to the next one.
abbrev pub Chain : Boxes Segment → ℕ → List ℕ → Type 0
Chain boxes head [] = boxes head ≡ some (linked 0)
Chain boxes head (next ∷ rest) = (boxes head ≡ some (linked next)) × Chain boxes next rest

abbrev pub last_of : ℕ → List ℕ → ℕ
last_of head [] = head
last_of head (next ∷ rest) = last_of next rest

-- A write to an address that is not in the chain.
pub Chain-put :
    (boxes : Boxes Segment) (a : ℕ) (b : GcBox Segment) (head : ℕ) (rest : List ℕ)
    → elem a (head ∷ rest) ≡ false
    → Chain boxes head rest
    → Chain (put_box boxes a b) head rest
Chain-put boxes a b head [] out c = let ne : (head == a) ≡ false = ground arith in rw ne c
Chain-put boxes a b head (next ∷ rest) out (at, c) =
    let ne : (head == a) ≡ false = ground arith in
    (rw ne at, Chain-put boxes a b next rest (ground arith) c)

pub elem-last_of : (head : ℕ) (rest : List ℕ) → elem (last_of head rest) (head ∷ rest) ≡ true
elem-last_of head [] = ground (arith, ==_refl head)
elem-last_of head (next ∷ rest) = ground (arith, elem-last_of next rest)

pub elem-ne : (xs : List ℕ) (a c : ℕ) → elem a xs ≡ false → elem c xs ≡ true → (c == a) ≡ false
elem-ne xs a c out there = elim (Bool-cases (c == a)) [
  | inl same ↦
      let there' : elem a xs ≡ true = subst (λ c. elem c xs ≡ true) ((==_iff c a).0 same) there in
      cc
  | inr different ↦ different
]

pub ==_comm-false : (a b : ℕ) → (a == b) ≡ false → (b == a) ≡ false
==_comm-false a b h = ground arith

-- The collector frees none of these boxes.
abbrev pub Spares : Meanwhile → List ℕ → Type 0
Spares meanwhile all =
    (n : ℕ) (boxes : Boxes Segment) (k : ℕ) → elem k all ≡ true → meanwhile n boxes k ≡ boxes k

abbrev pub Within : List ℕ → List ℕ → Type 0
Within xs all = (k : ℕ) → elem k xs ≡ true → elem k all ≡ true

pub Chain-spared :
    (boxes boxes' : Boxes Segment) (head : ℕ) (rest : List ℕ)
    → ((k : ℕ) → elem k (head ∷ rest) ≡ true → boxes' k ≡ boxes k)
    → Chain boxes head rest
    → Chain boxes' head rest
Chain-spared boxes boxes' head [] same c = same head (ground (arith, ==_refl head)) ∙ c
Chain-spared boxes boxes' head (next ∷ rest) same (at, c) = (
  same head (ground (arith, ==_refl head)) ∙ at,
  Chain-spared boxes boxes' next rest (λ k h. same k (ground (arith, h))) c,
)

-- What a twist does to the balloon and its boxes.
abbrev twisted_boxes : Meanwhile → Boxes Segment → ℕ → ℕ → Boxes Segment
twisted_boxes meanwhile boxes a head =
    put_box (meanwhile a (put_box boxes a (linked 0))) a (linked head)

-- A balloon whose segments are these.
pub record IsBalloon (boxes : Boxes Segment) (balloon : Balloon) (head : ℕ) (rest : List ℕ)
    : Type 0 where
  pub chain : Chain boxes head rest
  pub distinct : Distinct (head ∷ rest)
  pub at_head : balloon.head.ptr ≡ head
  pub at_tail : balloon.tail.ptr ≡ last_of head rest

module _ (type : Traced) where
  -- The journal entry of a segment.
  abbrev pub new_entry : ℕ → Object
  new_entry a = entry_of (box_object type a) type.traversible true new_bit

  abbrev pub new_entries : List ℕ → List Object
  new_entries [] = []
  new_entries (a ∷ rest) = new_entry a ∷ new_entries rest

  pub gc_new-append :
      {cap : ℕ} {s : BufferQueue Object} {xs : List Object}
      → IsCapacity cap
      → Sending cap s xs
      → (a : ℕ)
      → (s' : BufferQueue Object) × (gc_new type a s ≡ ok (record { ptr = a }) s')
        × Sending cap s' (xs ++ new_entry a ∷ [])
  unfolding gc_new write
  gc_new-append k r a =
      let (s', runs, after) = send-append k r (new_entry a) in (s', rw runs refl, after)

  twist_lem :
      {cap : ℕ} {s : BufferQueue Object} {xs : List Object}
      → IsCapacity cap
      → Sending cap s xs
      → (meanwhile : Meanwhile) (all : List ℕ) (a : ℕ) (boxes : Boxes Segment) (balloon : Balloon)
        (head : ℕ) (rest : List ℕ)
      → Spares meanwhile all
      → Within (a ∷ head ∷ rest) all
      → IsBalloon boxes balloon head rest
      → elem a (head ∷ rest) ≡ false
      → (s' : BufferQueue Object) × (boxes' : Boxes Segment) × (balloon' : Balloon) × (twist type
            meanwhile a boxes balloon s
          ≡ ok (some (boxes', balloon')) s')
        × IsBalloon boxes' balloon' a (head ∷ rest)
        × Sending cap s' (xs ++ new_entry a ∷ [])
  unfolding twist gc_value_mut join_to box_new segment_new gc_null
  twist_lem k r meanwhile all a boxes balloon head rest spares within b fresh =
      let (s', runs, after) = gc_new-append k r a in
      let there : meanwhile a (put_box boxes a (linked 0)) a ≡ some (linked 0) =
        spares a (put_box boxes a (linked 0)) a (within a (ground (arith, ==_refl a)))
        ∙ rw (==_refl a) refl in
      (
        s',
        twisted_boxes meanwhile boxes a balloon.head.ptr,
        record balloon { head = record { ptr = a } },
        rw (runs, there) refl,
        record {
          chain = (
            rw (==_refl a, b.at_head) refl,
            Chain-put _ a _ head rest fresh (
                Chain-spared (put_box boxes a (linked 0)) _ head rest
                  (λ k h. spares a _ k (within k (ground (arith, h))))
                  (Chain-put boxes a _ head rest fresh b.chain)),
          );
          distinct = (fresh, b.distinct);
          at_head = refl;
          at_tail = b.at_tail;
        },
        after,
      )

  -- The addresses in the order in which a walk from the head meets them.
  abbrev pub twist_all : List ℕ → ℕ → List ℕ → ℕ × List ℕ
  twist_all [] head rest = (head, rest)
  twist_all (a ∷ addresses) head rest = twist_all addresses a (head ∷ rest)

  pub twists_lem :
      {cap : ℕ} (k : IsCapacity cap) (addresses : List ℕ) {s : BufferQueue Object}
      {xs : List Object}
      → Sending cap s xs
      → (meanwhile : Meanwhile) (all : List ℕ) (boxes : Boxes Segment) (balloon : Balloon)
        (head : ℕ) (rest : List ℕ)
      → Spares meanwhile all
      → Within (head ∷ rest) all
      → Within addresses all
      → IsBalloon boxes balloon head rest
      → Distinct addresses
      → ((a : ℕ) → elem a addresses ≡ true → elem a (head ∷ rest) ≡ false)
      → (s' : BufferQueue Object) × (boxes' : Boxes Segment) × (balloon' : Balloon) × (twists type
            meanwhile addresses boxes balloon s
          ≡ ok (some (boxes', balloon')) s')
        × IsBalloon boxes' balloon'
            (twist_all addresses head rest).0
            (twist_all addresses head rest).1
        × Sending cap s' (xs ++ new_entries addresses)
  unfolding twists
  twists_lem k [] {s} {xs} r meanwhile all boxes balloon head rest spares within more_within b
        distinct fresh =
      (_, boxes, balloon, refl, b, subst (Sending _ _) (sym (append-nil xs)) r)
  twists_lem k (a ∷ addresses) {s} {xs} r meanwhile all boxes balloon head rest spares within
        more_within b distinct fresh =
      let (s', boxes', balloon', runs, b', r') =
        twist_lem k r meanwhile all a boxes balloon head rest spares
          (λ c h. ground (arith, h, within c, more_within c)) b
          (fresh a (ground (arith, ==_refl a))) in
      let (s'', boxes'', balloon'', more, b'', r'') =
        twists_lem k addresses r' meanwhile all boxes' balloon' a (head ∷ rest) spares
          (λ c h. ground (arith, h, within c, more_within c))
          (λ c h. more_within c (ground (arith, h))) b' distinct.1
          (λ c there.
            ground (arith, elem-ne addresses a c distinct.0 there, fresh c (ground arith))) in
      (
        s'',
        boxes'',
        balloon'',
        rw (runs, more) refl,
        b'',
        subst (Sending _ s'') (append_assoc xs (new_entry a ∷ []) (new_entries addresses)) r'',
      )

  pub twist_all-Within :
      (addresses : List ℕ) (all : List ℕ) (head : ℕ) (rest : List ℕ)
      → Within (head ∷ rest) all
      → Within addresses all
      → Within ((twist_all addresses head rest).0 ∷ (twist_all addresses head rest).1) all
  twist_all-Within [] all head rest within more_within = within
  twist_all-Within (a ∷ addresses) all head rest within more_within =
      twist_all-Within addresses all a (head ∷ rest)
        (λ c h. ground (arith, h, within c, more_within c))
        (λ c h. more_within c (ground (arith, h)))

  pub length-twist_all :
      (addresses : List ℕ) (head : ℕ) (rest : List ℕ)
      → length (twist_all addresses head rest).1 ≡ length addresses + length rest
  length-twist_all [] head rest = omega arith
  length-twist_all (a ∷ addresses) head rest =
      omega (arith, length-twist_all addresses a (head ∷ rest))
