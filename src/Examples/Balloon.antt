-- ===== src/Examples/Balloon.antt =====
-- examples/balloon_animals.rs: rings of segments that a program makes and drops. The addresses of
-- the boxes that are allocated are arguments; `none` is a pointer that leads to no box. The collector
-- runs at the same time and may free boxes: what it has done to them by the time at which a segment
-- was allocated, and by that at which the ring is closed, is an argument, given the address of the
-- segment or of the root.
pub mod Chain
pub mod Ring
use mo_gc.Common.{ℕ, zero, suc, ◌+◌, Bool, true, Option, none, some, List, [], ◌∷◌, if◌then◌else◌}
use mo_gc.AppThread.{Traced, Gc, GcRoot, gc_new, gc_null, as_raw, is, root_new, root_drop}
use mo_gc.AppThread.Values.{Boxes, box_new, put_box, gc_value, gc_value_mut}
use mo_gc.Heap.Object.{Object}
use mo_gc.Heap.TraceStack.{push_to_trace}
use mo_gc.Journal.Memory.{Cmd, pure, ◌>>=◌, ◌>>◌, and_then}
use mo_gc.Trace.{Trace}

pub record Segment : Type 0 where
  pub next : Gc

-- What the collector does to the boxes.
abbrev pub Meanwhile : Type 0
Meanwhile = ℕ → Boxes Segment → Boxes Segment

unfoldable pub segment_new : Segment
unfolding gc_null
segment_new = record { next = gc_null }

unfoldable pub join_to : Gc → Segment → Segment
join_to to segment = record segment { next = to }

pub record Balloon : Type 0 where
  pub head : Gc
  pub tail : Gc

module _ (segment_type : Traced) where
  -- The `Trace` implementation of `Segment`: pushes the box of the next segment.
  unfoldable pub segment_trace : Trace Segment
  unfolding as_raw push_to_trace
  segment_trace = record {
    traversible = λ segment. true;
    trace = λ segment heap. elim (as_raw segment.next) [
      | none ↦ heap
      | some ptr ↦ push_to_trace heap (record { data_ptr = ptr; vtable = segment_type.box_vtable })
    ];
  }

  -- The `Trace` implementation of `Balloon`: pushes the segment at the head.
  unfoldable pub balloon_trace : Trace Balloon
  unfolding push_to_trace
  balloon_trace = record {
    traversible = λ balloon. true;
    trace = λ balloon heap.
        push_to_trace heap
          (record { data_ptr = balloon.head.ptr; vtable = segment_type.value_vtable });
  }

  unfoldable pub inflate : ℕ → Boxes Segment → Cmd Object (Boxes Segment × Balloon)
  inflate address boxes = do
    body ← gc_new segment_type address
    pure (put_box boxes address (box_new segment_new), record { head = body; tail = body })

  abbrev pub twisted : Balloon → Gc → Option (Boxes Segment) → Option (Boxes Segment × Balloon)
  twisted balloon new_seg none = none
  twisted balloon new_seg (some boxes) = some (boxes, record balloon { head = new_seg })

  unfoldable pub twist :
      Meanwhile → ℕ → Boxes Segment → Balloon → Cmd Object (Option (Boxes Segment × Balloon))
  twist meanwhile address boxes balloon = do
    new_seg ← gc_new segment_type address
    let joined =
        gc_value_mut (meanwhile address (put_box boxes address (box_new segment_new))) new_seg
          (join_to balloon.head)
    pure (twisted balloon new_seg joined)

  -- The loop over the segments of a snake.
  unfoldable pub twists :
      Meanwhile → List ℕ → Boxes Segment → Balloon → Cmd Object (Option (Boxes Segment × Balloon))
  twists meanwhile [] boxes balloon = pure (some (boxes, balloon))
  twists meanwhile (address ∷ addresses) boxes balloon = do
    after ← twist meanwhile address boxes balloon
    elim after [
      | none ↦ pure none
      | some (boxes', balloon') ↦ twists meanwhile addresses boxes' balloon'
    ]

unfoldable pub complete : Boxes Segment → Balloon → Option (Boxes Segment)
complete boxes balloon =
    gc_value_mut boxes balloon.tail (λ segment. record segment { next = balloon.head })

-- The loop of `count`; `none` also where the fuel has run out.
unfoldable pub count_from : ℕ → Boxes Segment → Gc → Gc → ℕ → Option ℕ
count_from zero boxes tail current count = none
count_from (suc fuel) boxes tail current count = elim (gc_value boxes current) [
  | none ↦ none
  | some segment ↦
      let rest = count_from fuel boxes tail segment.next (count + 1) in
      if is segment.next tail then some (count + 1) else rest
]

unfoldable pub count : ℕ → Boxes Segment → Balloon → Option ℕ
count fuel boxes balloon = count_from fuel boxes balloon.tail balloon.head 0

abbrev pub count_completed : ℕ → Balloon → Option (Boxes Segment) → Option ℕ
count_completed fuel balloon none = none
count_completed fuel balloon (some boxes) = count fuel boxes balloon

abbrev pub counted_after :
    (Boxes Segment → Boxes Segment) → ℕ → Option (Boxes Segment × Balloon) → Option ℕ
counted_after freed fuel none = none
counted_after freed fuel (some (boxes, balloon)) =
    count_completed fuel balloon (complete (freed boxes) balloon)

-- One snake, from its allocation to the drop of its root; returns the count of its segments.
unfoldable pub snake :
    Meanwhile → Traced → Traced → ℕ → ℕ → List ℕ → ℕ → Boxes Segment → Cmd Object (Option ℕ)
snake meanwhile segment_type balloon_type body root_at segments fuel boxes = do
  (boxes', balloon) ← inflate segment_type body boxes
  root ← root_new balloon_type root_at
  after ← twists segment_type meanwhile segments boxes' balloon
  root_drop balloon_type root >> pure (counted_after (meanwhile root_at) fuel after)
