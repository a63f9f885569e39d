-- ===== src/Heap/ObjectMeta.antt =====
-- src/heap.rs, `ObjectMeta`: the vtable pointer of a mature object, with the mark in bit 0 and the
-- traversible flag in bit 1.
pub mod Mark
use mo_gc.Common.{ℕ, Bool, not, bit_and, bit_or, ◌==◌, if◌then◌else◌, ◌&&◌}
use mo_gc.Constants.{mark_bit, mark_mask, ptr_mask, traverse_bit}

pub record ObjectMeta : Type 0 where
  pub vtable : ℕ

unfoldable pub new : ℕ → ObjectMeta
new vtable = record { vtable = vtable }

-- Mark this object and return true if it needs to be traced into
unfoldable pub mark_and_needs_trace : ObjectMeta → ObjectMeta × Bool
mark_and_needs_trace m =
    let was_marked = bit_and m.vtable mark_bit == 0 in
    (
      if not was_marked then record m { vtable = bit_or m.vtable mark_bit } else m,
      not was_marked && not (bit_and m.vtable traverse_bit == 0),
    )

-- Query the mark bit
unfoldable pub is_marked : ObjectMeta → Bool
is_marked m = not (bit_and m.vtable mark_bit == 0)

-- Unset the mark bit
unfoldable pub unmark : ObjectMeta → ObjectMeta
unmark m = record m { vtable = bit_and m.vtable mark_mask }

-- The vtable pointer without mark or traverse bits set
unfoldable pub vtable : ObjectMeta → ℕ
vtable m = bit_and m.vtable ptr_mask
