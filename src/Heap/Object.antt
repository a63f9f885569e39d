-- ===== src/Heap/Object.antt =====
-- src/heap.rs, `Object`: a journal item, which is a trait object with flags in its low bits; and
-- `ptr_shift` of src/gcthread.rs, which turns an address into a key of an object map.
pub mod Keys
use mo_gc.Common.{ℕ, bit_and, ◌==◌, if◌then◌else◌}
use mo_gc.Common.Words.{shl, shr}
use mo_gc.Constants.{ptr_mask}

-- `std::raw::TraitObject`
pub record TraitObject : Type 0 where
  pub data_ptr : ℕ
  pub vtable : ℕ

pub record Object : Type 0 where
  pub ptr : ℕ
  pub vtable : ℕ

-- `size_of::<Object>()`, two words.
abbrev pub object_size : ℕ
object_size = 16

-- `ptr_shift`, given what `size_of::<usize>()` returns: a number of bytes.
abbrev pub ptr_shift_of : ℕ → ℕ
ptr_shift_of size_of_usize = if size_of_usize == 32 then 2 else 3

-- `ptr_shift` where a `usize` has 8 bytes.
abbrev pub ptr_shift : ℕ
ptr_shift = ptr_shift_of 8

-- The key of an address in an object map, `ptr >> ptr_shift()`.
abbrev pub key_of : ℕ → ℕ
key_of ptr = shr ptr ptr_shift

unfoldable pub from_trie_ptr : ℕ → ℕ → Object
from_trie_ptr ptr vtable = record { ptr = shl ptr ptr_shift; vtable = vtable }

unfoldable pub from : TraitObject → Object
from tobj = record { ptr = tobj.data_ptr; vtable = tobj.vtable }

-- `Object::into`; `as_trace` is a transmute of its result.
unfoldable pub into : Object → TraitObject
into o = record { data_ptr = o.ptr; vtable = bit_and o.vtable ptr_mask }
