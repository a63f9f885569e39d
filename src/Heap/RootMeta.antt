-- ===== src/Heap/RootMeta.antt =====
-- src/heap.rs, `RootMeta`: reference count, vtable pointer and flags of an entry of the root map.
pub mod View
use mo_gc.Common.{ℕ, Bool, not, bit_and, bit_or, ◌==◌, if◌then◌else◌, ◌&&◌}
use mo_gc.Common.Words.{wrapping_add, wrapping_sub}
use mo_gc.Constants.{mark_bit, mark_mask, new_bit, new_mask, ptr_mask, traverse_bit}

pub record RootMeta : Type 0 where
  pub refcount : ℕ
  pub vtable : ℕ
  pub flags : ℕ

unfoldable pub new : ℕ → ℕ → ℕ → RootMeta
new refcount vtable flags = record { refcount = refcount; vtable = vtable; flags = flags }

-- Initialize with a reference count of 1
unfoldable pub one : ℕ → ℕ → RootMeta
unfolding new
one vtable flags = new 1 vtable flags

-- Initialize with a reference count of 0
unfoldable pub zero : ℕ → ℕ → RootMeta
unfolding new
zero vtable flags = new 0 vtable flags

unfoldable pub inc : RootMeta → RootMeta
inc m = record m { refcount = wrapping_add m.refcount 1 }

unfoldable pub dec : RootMeta → RootMeta
dec m = record m { refcount = wrapping_sub m.refcount 1 }

-- The count as a plain cell, and its updates through that cell.
abbrev pub unsync_refcount : RootMeta → ℕ
unsync_refcount m = m.refcount

unfoldable pub unsync_inc : RootMeta → RootMeta
unsync_inc m = record m { refcount = wrapping_add (unsync_refcount m) 1 }

unfoldable pub unsync_dec : RootMeta → RootMeta
unsync_dec m = record m { refcount = wrapping_sub (unsync_refcount m) 1 }

unfoldable pub unsync_is_unrooted : RootMeta → Bool
unsync_is_unrooted m = unsync_refcount m == 0

unfoldable pub is_new : RootMeta → Bool
is_new m = not (bit_and m.flags new_bit == 0)

unfoldable pub is_new_and_unmarked : RootMeta → Bool
is_new_and_unmarked m = bit_and m.flags (bit_or mark_bit new_bit) == new_bit

unfoldable pub set_not_new : RootMeta → RootMeta
set_not_new m = record m { flags = bit_and m.flags new_mask }

-- Mark this object and return true if it needs to be traced into
unfoldable pub mark_and_needs_trace : RootMeta → RootMeta × Bool
mark_and_needs_trace m =
    let was_unmarked = bit_and m.flags mark_bit == 0 in
    (
      if was_unmarked then record m { flags = bit_or m.flags mark_bit } else m,
      was_unmarked && not (bit_and m.flags traverse_bit == 0),
    )

-- Reset the mark bit back to 0
unfoldable pub unmark : RootMeta → RootMeta
unmark m = record m { flags = bit_and m.flags mark_mask }

-- The vtable without any flags set
unfoldable pub vtable : RootMeta → ℕ
vtable m = bit_and m.vtable ptr_mask
