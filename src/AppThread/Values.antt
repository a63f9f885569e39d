-- ===== src/AppThread/Values.antt =====
-- src/appthread.rs: the boxes that the pointers lead to, and the access to the values in them. The
-- memory holds a box at an address, or none; a pointer that leads to no box cannot be followed.
use mo_gc.Common.{ℕ, ◌≡◌, refl, ap, inl, inr, Option, none, some, ◌==◌, if◌then◌else◌, Bool-cases}
use mo_gc.AppThread.{GcRoot, Gc, is}
use mo_gc.Trace.{Trace}

pub record GcBox (T : Type 0) : Type 0 where
  pub value : T

unfoldable pub box_new : {T : Type 0} → T → GcBox T
box_new value = record { value = value }

-- The `Trace` implementation of `GcBox`.
unfoldable pub box_trace : {T : Type 0} → Trace T → Trace (GcBox T)
box_trace type = record {
  traversible = λ b. type.traversible b.value;
  trace = λ b heap. type.trace b.value heap;
}

-- `Gc::from_raw`, and the copy that `Gc::clone` and `Copy` make.
unfoldable pub gc_from_raw : ℕ → Gc
gc_from_raw ptr = record { ptr = ptr }

unfoldable pub gc_clone : Gc → Gc
gc_clone gc = record { ptr = gc.ptr }

-- `GcRoot::ptr` and `Gc::ptr`
abbrev pub root_ptr : GcRoot → ℕ
root_ptr root = root.ptr

abbrev pub gc_ptr : Gc → ℕ
gc_ptr gc = gc.ptr

-- The boxes at the addresses of the memory.
abbrev pub Boxes : Type 0 → Type 0
Boxes T = ℕ → Option (GcBox T)

module _ {T : Type 0} where
  abbrev pub put_box : Boxes T → ℕ → GcBox T → Boxes T
  put_box boxes ptr b k = if k == ptr then some b else boxes k

  abbrev pub value_in : Option (GcBox T) → Option T
  value_in none = none
  value_in (some b) = some b.value

  abbrev pub change_in : Boxes T → ℕ → (T → T) → Option (GcBox T) → Option (Boxes T)
  change_in boxes ptr change none = none
  change_in boxes ptr change (some b) = some (put_box boxes ptr (record { value = change b.value }))

  -- `Gc::value`, which `Deref` returns a reference to.
  unfoldable pub gc_value : Boxes T → Gc → Option T
  gc_value boxes gc = value_in (boxes gc.ptr)

  -- A change of the value through the reference of `Gc::value_mut` and `DerefMut`.
  unfoldable pub gc_value_mut : Boxes T → Gc → (T → T) → Option (Boxes T)
  gc_value_mut boxes gc change = change_in boxes gc.ptr change (boxes gc.ptr)

  -- `GcRoot::value` and `Deref`
  unfoldable pub root_value : Boxes T → GcRoot → Option T
  root_value boxes root = value_in (boxes root.ptr)

  -- A change of the value through `GcRoot::value_mut` and `DerefMut`.
  unfoldable pub root_value_mut : Boxes T → GcRoot → (T → T) → Option (Boxes T)
  root_value_mut boxes root change = change_in boxes root.ptr change (boxes root.ptr)

  -- What a change through one pointer does to what the others see: a change through a pointer with
  -- a value succeeds, every pointer that is the same sees the changed value, and every other pointer
  -- the value that it saw before.
  gc_value_mut-aliases :
      (boxes : Boxes T) (gc other : Gc) (change : T → T) (value : T)
      → gc_value boxes gc ≡ some value
      → (boxes' : Boxes T) × (gc_value_mut boxes gc change ≡ some boxes')
        × (gc_value boxes' other
            ≡ (if is other gc then some (change value) else gc_value boxes other))
  unfolding gc_value gc_value_mut is
  gc_value_mut-aliases boxes gc other change value there = go (boxes gc.ptr) refl there
    where
      go :
          (found : Option (GcBox T))
          → boxes gc.ptr ≡ found
          → value_in found ≡ some value
          → (boxes' : Boxes T) × (change_in boxes gc.ptr change found ≡ some boxes')
            × (value_in (boxes' other.ptr)
                ≡ (if other.ptr == gc.ptr then some (change value) else value_in (boxes other.ptr)))
      go none at e = cc
      go (some b) at e = (
        put_box boxes gc.ptr (record { value = change b.value }),
        refl,
        elim (Bool-cases (other.ptr == gc.ptr)) [
          | inl same ↦ rw same (ap (λ o. elim o [ none ↦ none | some v ↦ some (change v) ]) e)
          | inr different ↦ rw different refl
        ],
      )
