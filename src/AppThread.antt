-- ===== src/AppThread.antt =====
-- src/appthread.rs: the pointers of an application thread, `GcRoot`, `Gc` and `GcAtomic`, and the
-- entries that they write to the thread's journal. The journal of the thread is the state of the
-- commands; where an allocation puts a value is an argument.
pub mod Protocol
pub mod Program
pub mod Owned
pub mod Spawn
pub mod Values
mod Tests
use mo_gc.Common.{ℕ, Bool, true, false, ◌&&◌, Option, none, some, bit_or, ◌==◌, if◌then◌else◌}
use mo_gc.Constants.{inc_bit, new_bit, traverse_bit}
use mo_gc.Heap.Object.{TraitObject, Object}
use mo_gc.Journal.Memory.{Cmd, pure, ◌>>=◌, ◌>>◌, and_then}
use mo_gc.Journal.Queue.{send}

-- What the compiler has for a client's type `T`: the vtables of `GcBox<T>` and of `T` as `Trace`
-- implementations, and what `traversible` returns.
pub record Traced : Type 0 where
  pub box_vtable : ℕ
  pub value_vtable : ℕ
  pub traversible : Bool

-- `as_traitobject`, of the box at an address and of the value in it, its only field.
abbrev pub box_object : Traced → ℕ → TraitObject
box_object type ptr = record { data_ptr = ptr; vtable = type.box_vtable }

abbrev pub value_object : Traced → ℕ → TraitObject
value_object type ptr = record { data_ptr = ptr; vtable = type.value_vtable }

-- The journal entry of `write`.
unfoldable pub entry_of : TraitObject → Bool → Bool → ℕ → Object
entry_of tobj traversible is_new flags = record {
  ptr = bit_or tobj.data_ptr flags;
  vtable = if is_new && traversible then bit_or tobj.vtable traverse_bit else tobj.vtable;
}

-- Write a reference count change to the journal.
unfoldable pub write : TraitObject → Bool → Bool → ℕ → Cmd Object (Unit {0})
unfolding entry_of send
write tobj traversible is_new flags = send (entry_of tobj traversible is_new flags)

pub record GcRoot : Type 0 where
  pub ptr : ℕ

pub record Gc : Type 0 where
  pub ptr : ℕ

pub record GcAtomic : Type 0 where
  pub ptr : ℕ

-- `std::sync::atomic::Ordering`
pub data Ordering : Type 0 where
  relaxed release acquire acq_rel seq_cst : Ordering

module _ (type : Traced) where
  -- `GcRoot::new`: hands a new object to the collector with an increment.
  unfoldable pub root_new : ℕ → Cmd Object GcRoot
  root_new ptr =
      write (box_object type ptr) type.traversible true (bit_or new_bit inc_bit)
      >> pure (record { ptr = ptr })

  -- `GcRoot::from_raw`; the entry is written for the value that the root derefers to.
  unfoldable pub root_from_raw : ℕ → Cmd Object GcRoot
  root_from_raw ptr =
      write (value_object type ptr) type.traversible false inc_bit >> pure (record { ptr = ptr })

  -- `GcRoot::drop`
  unfoldable pub root_drop : GcRoot → Cmd Object (Unit {0})
  root_drop root = write (value_object type root.ptr) type.traversible false 0

  -- `GcRoot::clone`
  unfoldable pub root_clone : GcRoot → Cmd Object GcRoot
  unfolding root_from_raw
  root_clone root = root_from_raw root.ptr

  -- `Gc::new`: moves a value to the heap.
  unfoldable pub gc_new : ℕ → Cmd Object Gc
  gc_new ptr =
      write (box_object type ptr) type.traversible true new_bit >> pure (record { ptr = ptr })

  -- `GcAtomic::new`
  unfoldable pub atomic_new : ℕ → Cmd Object GcAtomic
  atomic_new ptr =
      write (box_object type ptr) type.traversible true new_bit >> pure (record { ptr = ptr })

  -- An atomic load panics on the orderings of a store.
  unfoldable pub load_raw : GcAtomic → Ordering → Option ℕ
  load_raw atomic release = none
  load_raw atomic acq_rel = none
  load_raw atomic _ = some atomic.ptr

  -- `GcAtomic::load_into_root`
  unfoldable pub load_into_root : GcAtomic → Ordering → Cmd Object (Option GcRoot)
  unfolding load_raw
  load_into_root atomic order = elim (load_raw atomic order) [
    | none ↦ pure none
    | some ptr ↦
        write (value_object type ptr) type.traversible false inc_bit
        >> pure (some (record { ptr = ptr }))
  ]

-- `Gc::null` and `GcAtomic::null`
unfoldable pub gc_null : Gc
gc_null = record { ptr = 0 }

unfoldable pub atomic_null : GcAtomic
atomic_null = record { ptr = 0 }

-- `Gc::as_raw`: none for a null pointer.
unfoldable pub as_raw : Gc → Option ℕ
as_raw gc = if gc.ptr == 0 then none else some gc.ptr

-- Pointer equality, `Gc::is`.
unfoldable pub is : Gc → Gc → Bool
is gc other = gc.ptr == other.ptr

-- `GcAtomic::load_into_gc`
unfoldable pub load_into_gc : GcAtomic → Ordering → Option Gc
load_into_gc atomic release = none
load_into_gc atomic acq_rel = none
load_into_gc atomic _ = some (record { ptr = atomic.ptr })

-- An atomic store panics on the orderings of a load.
unfoldable pub store_raw : GcAtomic → ℕ → Ordering → Option GcAtomic
store_raw atomic ptr acquire = none
store_raw atomic ptr acq_rel = none
store_raw atomic ptr _ = some (record { ptr = ptr })

-- `GcAtomic::store_from_gc`
unfoldable pub store_from_gc : GcAtomic → Gc → Ordering → Option GcAtomic
unfolding store_raw
store_from_gc atomic gc order = store_raw atomic gc.ptr order

-- `GcAtomic::store_from_root`: the root that it took by value is dropped at its end, or in the
-- panic's unwinding.
unfoldable pub store_from_root :
    Traced → GcAtomic → GcRoot → Ordering → Cmd Object (Option GcAtomic)
unfolding store_raw root_drop
store_from_root type atomic root order =
    root_drop type root >> pure (store_raw atomic root.ptr order)
