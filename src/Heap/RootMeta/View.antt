-- ===== src/Heap/RootMeta/View.antt =====
-- The flags of an entry read as two Booleans, and what each operation does to them.
use mo_gc.Common.{ℕ, ◌%◌, ◌/◌, ◌^◌, ◌<◌, ◌≡◌, Bool, true, false, not, ◌&&◌, ◌==◌, arith}
use mo_gc.Common.Bits.{and-one, and-two, and_three, or-one, and-not_one, and-not_two}
use mo_gc.Heap.RootMeta.{
  RootMeta, inc, dec, is_new, is_new_and_unmarked, set_not_new, mark_and_needs_trace, unmark,
}

-- An entry as the collector reads it.
pub record View : Type 0 where
  pub count : ℕ
  pub young : Bool
  pub marked : Bool

abbrev pub marked_of : ℕ → Bool
marked_of flags = flags % 2 == 1

abbrev pub young_of : ℕ → Bool
young_of flags = flags / 2 % 2 == 1

abbrev pub view : RootMeta → View
view m = record { count = m.refcount; young = young_of m.flags; marked = marked_of m.flags }

-- Only the two low bits of the flags are ever used.
pub record IsValid (m : RootMeta) : Type 0 where
  pub count_fits : m.refcount < 2 ^ 64
  pub flags_fit : m.flags < 4

pub is_new-view : (m : RootMeta) → is_new m ≡ (view m).young
unfolding is_new
is_new-view m = ground (arith, and-two m.flags)

pub is_new_and_unmarked-view :
    (m : RootMeta) → is_new_and_unmarked m ≡ ((view m).young && not (view m).marked)
unfolding is_new_and_unmarked
is_new_and_unmarked-view m = ground (arith, and_three m.flags)

pub view-mark : (m : RootMeta) → view (mark_and_needs_trace m).0 ≡ record (view m) { marked = true }
unfolding mark_and_needs_trace
view-mark m = ground (arith, and-one m.flags, or-one m.flags)

-- The traverse flag of the vtable is not looked at: an entry needs tracing if it was unmarked and
-- is new, because `TRAVERSE_BIT` and `NEW_BIT` are one bit of the flags.
pub needs_trace-view :
    (m : RootMeta) → (mark_and_needs_trace m).1 ≡ (not (view m).marked && (view m).young)
unfolding mark_and_needs_trace
needs_trace-view m = ground (arith, and-one m.flags, and-two m.flags)

pub view-unmark : (m : RootMeta) → IsValid m → view (unmark m) ≡ record (view m) { marked = false }
unfolding unmark
view-unmark m v = ground (arith, and-not_one m.flags)

pub view-set_not_new :
    (m : RootMeta) → IsValid m → view (set_not_new m) ≡ record (view m) { young = false }
unfolding set_not_new
view-set_not_new m v = ground (arith, and-not_two m.flags)

pub mark-IsValid : (m : RootMeta) → IsValid m → IsValid (mark_and_needs_trace m).0
unfolding mark_and_needs_trace
mark-IsValid m v = ground (arith, and-one m.flags, or-one m.flags)

pub unmark-IsValid : (m : RootMeta) → IsValid m → IsValid (unmark m)
unfolding unmark
unmark-IsValid m v = ground (arith, and-not_one m.flags)

pub set_not_new-IsValid : (m : RootMeta) → IsValid m → IsValid (set_not_new m)
unfolding set_not_new
set_not_new-IsValid m v = ground (arith, and-not_two m.flags)

pub inc-IsValid : (m : RootMeta) → IsValid m → IsValid (inc m)
unfolding inc
inc-IsValid m v = omega arith

pub dec-IsValid : (m : RootMeta) → IsValid m → IsValid (dec m)
unfolding dec
dec-IsValid m v = omega arith

-- A second mark changes nothing.
pub mark-again : (m : RootMeta) → marked_of m.flags ≡ true → (mark_and_needs_trace m).0 ≡ m
unfolding mark_and_needs_trace
mark-again m h = ground (arith, and-one m.flags)

pub is_new-mark : (m : RootMeta) → is_new (mark_and_needs_trace m).0 ≡ is_new m
is_new-mark m = ground (arith, is_new-view m, is_new-view (mark_and_needs_trace m).0, view-mark m)

pub refcount-mark : (m : RootMeta) → (mark_and_needs_trace m).0.refcount ≡ m.refcount
unfolding mark_and_needs_trace
refcount-mark m = ground arith
