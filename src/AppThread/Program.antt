-- ===== src/AppThread/Program.antt =====
-- What an application thread does with its pointers, as a sequence of the operations that write to
-- the journal, and what the ownership of roots asks of it.
use mo_gc.Common.{
  ℕ, ◌+◌, ◌-◌, ◌%◌, ◌^◌, ◌<◌, ◌≡◌, refl, sym, subst, true, false, List, [], ◌∷◌, ◌++◌, ◌==◌, bit_or,
  if◌then◌else◌, elem, append_assoc, append-nil,
}
use mo_gc.AppThread.{
  Traced, entry_of, box_object, value_object, write, root_new, root_from_raw, root_drop, gc_new,
}
use mo_gc.Constants.{inc_bit, new_bit}
use mo_gc.Heap.Object.{Object, key_of}
use mo_gc.Journal.Buffer.Capacity.{IsCapacity}
use mo_gc.Journal.Memory.{BufferQueue, ok, Cmd, pure, ◌>>=◌, ◌>>◌}
use mo_gc.Journal.Send.{Sending, send-append}

-- A new root, a new object, one more root on an object, the drop of a root; each with the address
-- of the object's box.
pub data Act : Type 0 where
  make place share release : Traced → ℕ → Act

-- `GcRoot::new`; `Gc::new`, and `GcAtomic::new`, which writes the same; the clone of a root and a
-- load into one; `GcRoot::drop`.
unfoldable pub perform : Act → Cmd Object (Unit {0})
perform (make type ptr) = root_new type ptr >>= λ _. pure tt
perform (place type ptr) = gc_new type ptr >>= λ _. pure tt
perform (share type ptr) = root_from_raw type ptr >>= λ _. pure tt
perform (release type ptr) = root_drop type (record { ptr = ptr })

unfoldable pub perform_all : List Act → Cmd Object (Unit {0})
perform_all [] = pure tt
perform_all (a ∷ acts) = perform a >> perform_all acts

abbrev pub address : Act → ℕ
address (make type ptr) = ptr
address (place type ptr) = ptr
address (share type ptr) = ptr
address (release type ptr) = ptr

-- The journal entries of the operations.
abbrev pub entry : Act → Object
entry (make type ptr) =
    entry_of (box_object type ptr) type.traversible true (bit_or new_bit inc_bit)
entry (place type ptr) = entry_of (box_object type ptr) type.traversible true new_bit
entry (share type ptr) = entry_of (value_object type ptr) type.traversible false inc_bit
entry (release type ptr) = entry_of (value_object type ptr) type.traversible false 0

abbrev pub entries_of : List Act → List Object
entries_of [] = []
entries_of (a ∷ acts) = entry a ∷ entries_of acts

-- The number of roots that the thread holds on an operation's object, where it held `n` before.
abbrev pub roots_after : Act → ℕ → ℕ
roots_after (make type ptr) n = n + 1
roots_after (place type ptr) n = n
roots_after (share type ptr) n = n + 1
roots_after (release type ptr) n = n - 1

-- The roots on each object after an operation.
abbrev pub held_after : (ℕ → ℕ) → Act → ℕ → ℕ
held_after live a k = if k == key_of (address a) then roots_after a (live k) else live k

abbrev pub held_all : (ℕ → ℕ) → List Act → ℕ → ℕ
held_all live [] = live
held_all live (a ∷ acts) = held_all (held_after live a) acts

-- What ownership asks of one operation: an object is allocated where none was before, and an object
-- is shared or released by way of a root on it.
abbrev pub IsAllowed : List ℕ → (ℕ → ℕ) → Act → Type 0
IsAllowed used live (make type ptr) = elem (key_of ptr) used ≡ false
IsAllowed used live (place type ptr) = elem (key_of ptr) used ≡ false
IsAllowed used live (share type ptr) = elem (key_of ptr) used ≡ true
IsAllowed used live (release type ptr) = (elem (key_of ptr) used ≡ true) × (0 < live (key_of ptr))

-- A program that owns what it uses: boxes are at aligned addresses of a 64-bit memory.
abbrev pub IsOwned : List ℕ → (ℕ → ℕ) → List Act → Type 0
IsOwned used live [] = Unit
IsOwned used live (a ∷ acts) =
    (address a % 8 ≡ 0)
    × (address a < 2 ^ 64)
    × IsAllowed used live a
    × IsOwned (key_of (address a) ∷ used) (held_after live a) acts

perform-append :
    {cap : ℕ} {s : BufferQueue Object} {xs : List Object}
    → IsCapacity cap
    → Sending cap s xs
    → (a : Act)
    → (s' : BufferQueue Object) × (perform a s ≡ ok tt s') × Sending cap s' (xs ++ entry a ∷ [])
unfolding perform root_new gc_new root_from_raw root_drop write
perform-append k r (make type ptr) =
    let (s', runs, after) = send-append k r (entry (make type ptr)) in (s', rw runs refl, after)
perform-append k r (place type ptr) =
    let (s', runs, after) = send-append k r (entry (place type ptr)) in (s', rw runs refl, after)
perform-append k r (share type ptr) =
    let (s', runs, after) = send-append k r (entry (share type ptr)) in (s', rw runs refl, after)
perform-append k r (release type ptr) =
    let (s', runs, after) = send-append k r (entry (release type ptr)) in (s', rw runs refl, after)

-- The operations write their entries in their order.
pub perform_all-append :
    {cap : ℕ} (k : IsCapacity cap) (acts : List Act) {s : BufferQueue Object} {xs : List Object}
    → Sending cap s xs
    → (s' : BufferQueue Object) × (perform_all acts s ≡ ok tt s')
      × Sending cap s' (xs ++ entries_of acts)
unfolding perform_all
perform_all-append k [] {s} {xs} r = (s, refl, subst (Sending _ s) (sym (append-nil xs)) r)
perform_all-append k (a ∷ acts) {s} {xs} r =
    let (s', runs, after) = perform-append k r a in
    let (s'', more, last) = perform_all-append k acts after in
    (
      s'',
      rw (runs, more) refl,
      subst (Sending _ s'') (append_assoc xs (entry a ∷ []) (entries_of acts)) last,
    )
