-- ===== src/AppThread/Protocol.antt =====
-- What the collector makes of the entries that an application thread writes.
use mo_gc.Common.{
  ℕ, ◌%◌, ◌<◌, ◌≡◌, refl, Bool, true, false, [], ◌∷◌, ◌++◌, bit_or, bit_and, if◌then◌else◌, arith,
}
use mo_gc.Common.Bits.{and_three, or-one, or-two, or_three, or-nil}
use mo_gc.Common.Words.{wrapping_add}
use mo_gc.Constants.{inc_bit, new_bit, flags_mask, traverse_bit}
use mo_gc.Heap.Object.{TraitObject, key_of}
use mo_gc.Heap.RootMeta.{RootMeta, one, zero}
use mo_gc.Trie.{Trie}
use mo_gc.AppThread.{entry_of}
use mo_gc.Young.Read.{Reading, read_entry, inc_at}

-- An address with room for the flags keeps both apart.
flags-apart :
    (p f : ℕ)
    → p % 8 ≡ 0
    → f < 4
    → (bit_and (bit_or p f) flags_mask ≡ f) × (key_of (bit_or p f) ≡ key_of p)
flags-apart p f aligned small =
    ground (arith, and_three (bit_or p f), or-nil p, or-one p, or-two p, or_three p)

module _ (t : Trie RootMeta) (s : Reading t) (tobj : TraitObject) (traversible : Bool) where
  abbrev key : ℕ
  key = key_of tobj.data_ptr

  -- One more entry was read.
  abbrev pub counted : Reading t
  counted = record s { entry_count = wrapping_add s.entry_count 1 }

  -- The vtable pointer that a new object is entered with.
  abbrev pub flagged : ℕ
  flagged = if traversible then bit_or tobj.vtable traverse_bit else tobj.vtable

  -- What reading makes of the entries for an object.
  pub record Understood : Type 0 where
    -- `GcRoot::new`: a new entry with a count of one
    pub new_root :
        read_entry t s (entry_of tobj traversible true (bit_or new_bit inc_bit))
        ≡ record counted { roots = t.set s.roots key (one flagged new_bit) }
    -- `Gc::new`, `GcAtomic::new`: a new entry with a count of zero
    pub new_object :
        read_entry t s (entry_of tobj traversible true new_bit)
        ≡ record counted { roots = t.set s.roots key (zero flagged new_bit) }
    -- a clone of a root, a load into a root: one more in the count
    pub more :
        read_entry t s (entry_of tobj traversible false inc_bit)
        ≡ record counted { roots = inc_at t s.roots key tobj.vtable (t.get s.roots key) }
    -- the drop of a root: a decrement of its key is deferred
    pub less : read_entry t s (entry_of tobj traversible false 0) ≡ record counted {
      deferred = s.deferred ++ record { ptr = tobj.data_ptr; vtable = tobj.vtable } ∷ [];
    }

  -- The collector understands what the application threads write: for an object at an 8-aligned
  -- address, each of the four kinds of entry is read as the kind that it was written as, at the key
  -- of the address and with the vtable pointer (and its traversible flag) that was written.
  pub read_entry-entry_of : tobj.data_ptr % 8 ≡ 0 → Understood
  unfolding read_entry entry_of
  read_entry-entry_of aligned =
      let both = flags-apart tobj.data_ptr 3 aligned (omega arith) in
      let new_only = flags-apart tobj.data_ptr 2 aligned (omega arith) in
      let inc_only = flags-apart tobj.data_ptr 1 aligned (omega arith) in
      let neither = flags-apart tobj.data_ptr 0 aligned (omega arith) in
      record {
        new_root = rw (both.0, both.1) refl;
        new_object = rw (new_only.0, new_only.1) refl;
        more = rw (inc_only.0, inc_only.1) refl;
        less = rw (neither.0, or-nil tobj.data_ptr) refl;
      }
