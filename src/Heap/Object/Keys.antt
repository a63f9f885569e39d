-- ===== src/Heap/Object/Keys.antt =====
-- What a trip through an object map's key does to an address and to a vtable pointer.
use mo_gc.Common.{ℕ, ◌+◌, ◌*◌, ◌%◌, ◌^◌, ◌<◌, ◌≡◌, arith}
use mo_gc.Common.Bits.{and-not_three}
use mo_gc.Common.Words.{shr}
use mo_gc.Heap.Object.{TraitObject, ptr_shift_of, key_of, from_trie_ptr, from, into}

-- For an 8-aligned address and a 4-aligned vtable pointer with any flags in its two low bits,
-- on 64-bit words: from the address's key and the vtable pointer with its flags the trait
-- object that was put in comes out.
pub into-from_trie_ptr :
    (data_ptr vtable flags : ℕ)
    → data_ptr < 2 ^ 64
    → data_ptr % 8 ≡ 0
    → vtable + flags < 2 ^ 64
    → vtable % 4 ≡ 0
    → flags < 4
    → into (from_trie_ptr (key_of data_ptr) (vtable + flags))
      ≡ record { data_ptr = data_ptr; vtable = vtable }
unfolding into from_trie_ptr
into-from_trie_ptr data_ptr vtable flags small aligned fits clean low =
    ground (arith, and-not_three (vtable + flags))

-- Where a `usize` has 4 bytes, `ptr_shift` is still 3, so two objects at neighbouring words have
-- one key.
neighbours-share_key : (k : ℕ) → shr (8 * k) (ptr_shift_of 4) ≡ shr (8 * k + 4) (ptr_shift_of 4)
neighbours-share_key k = omega arith

pub from-into_shift : (t : TraitObject) → t.vtable % 4 ≡ 0 → t.vtable < 2 ^ 64 → into (from t) ≡ t
unfolding into from
from-into_shift t clean fits = ground (arith, and-not_three t.vtable)
