-- ===== src/AppThread/Owned.antt =====
-- The entries of a program that owns what it uses are lawful.
pub mod Tagged
use mo_gc.AppThread.Owned.Tagged.{flags_of, IsTagged, entry-IsTagged, act-held, act_all-held}
use mo_gc.Journal.Buffer.Capacity.{next_power_of_two_le}
use mo_gc.Heap.Object.{object_size}
use mo_gc.Common.{
  ℕ, ◌+◌, ◌%◌, ◌^◌, ◌≤◌, ◌<◌, ◌≡◌, refl, sym, ap, ◌∙◌, subst, fun_ext, inl, inr, false, List, [],
  ◌∷◌, ◌++◌, ◌==◌, bit_and, if◌then◌else◌, elem, length, arith, Bool-cases,
}
use mo_gc.AppThread.{entry_of}
use mo_gc.AppThread.Program.{
  Act, make, place, share, release, address, entry, entries_of, held_after, held_all, perform_all,
  perform_all-append, IsAllowed, IsOwned,
}
use mo_gc.Common.Bits.{or-nil, or-one, or-two, or_three, and_three}
use mo_gc.Constants.{flags_mask, journal_buffer_size}
use mo_gc.Heap.Object.{Object, key_of}
use mo_gc.Heap.RootMeta.{RootMeta}
use mo_gc.Journal.Buffer.{next_power_of_two}
use mo_gc.Journal.Buffer.Capacity.{next_power_of_two-IsCapacity}
use mo_gc.Journal.Chain.{Represents}
use mo_gc.Journal.Memory.{BufferQueue, ok}
use mo_gc.Journal.Queue.{make_journal}
use mo_gc.Journal.Trace.{make_journal-Sending}
use mo_gc.Trie.{Trie}
use mo_gc.Young.Balance.{act, act_all, IsLawful, AllLawful}
use mo_gc.Young.Deferred.Chunks.{occurrences, occurrences-append}
use mo_gc.Young.Read.{Reading, read_entry}

-- What has been made of the program so far: what is not in use has no roots and no decrements put
-- off, and the counts have room for what is to come.
record IsSmall (used : List ℕ) (live : ℕ → ℕ) (deferred : List Object) (left : ℕ) : Type 0 where
  unused : (k : ℕ) → elem k used ≡ false → live k + occurrences k deferred ≡ 0
  room : (k : ℕ) → live k + occurrences k deferred + left < 2 ^ 64

allowed-IsLawful :
    (used : List ℕ) (live : ℕ → ℕ) (deferred : List Object) (left : ℕ) (a : Act)
    → IsSmall used live deferred (1 + left)
    → IsTagged a
    → IsAllowed used live a
    → IsLawful live deferred (entry a)
allowed-IsLawful used live deferred left (make type ptr) small e fresh = record {
  fits = e.fits;
  fresh = λ h. rw e.key (small.unused (key_of ptr) fresh);
  room = λ h. absurd (omega (arith, e.low));
  held = λ h. absurd (omega (arith, e.low));
}
allowed-IsLawful used live deferred left (place type ptr) small e fresh = record {
  fits = e.fits;
  fresh = λ h. rw e.key (small.unused (key_of ptr) fresh);
  room = λ h. absurd (omega (arith, e.low));
  held = λ h. absurd (omega (arith, e.low));
}
allowed-IsLawful used live deferred left (share type ptr) small e there = record {
  fits = e.fits;
  fresh = λ h. absurd (omega (arith, e.low));
  room = λ h. rw e.key (omega (arith, small.room (key_of ptr)));
  held = λ h. absurd (omega (arith, e.low));
}
allowed-IsLawful used live deferred left (release type ptr) small e (there, root) = record {
  fits = e.fits;
  fresh = λ h. absurd (omega (arith, e.low));
  room = λ h. absurd (omega (arith, e.low));
  held = λ h. rw e.key root;
}

module _ (t : Trie RootMeta) where
  -- What the reading of an entry puts off.
  abbrev put_off : (s : Reading t) (a : Act) → List Object
  put_off s a = (read_entry t s (entry a)).deferred

  deferred-kept :
      (s : Reading t) (e : Object) (f : ℕ)
      → bit_and e.ptr flags_mask ≡ f
      → 0 < f
      → f < 4
      → (read_entry t s e).deferred ≡ s.deferred
  unfolding read_entry
  deferred-kept s e f flags pos few = elim (Bool-cases (bit_and e.ptr flags_mask == 3)) [
    | inl three ↦ rw three refl
    | inr not_three ↦ elim (Bool-cases (bit_and e.ptr flags_mask == 2)) [
      | inl two ↦ rw (not_three, two) refl
      | inr not_two ↦ elim (Bool-cases (bit_and e.ptr flags_mask == 1)) [
        | inl one ↦ rw (not_three, not_two, one) refl
        | inr not_one ↦ absurd (ground arith)
      ]
    ]
  ]

  deferred-put :
      (s : Reading t) (e : Object)
      → bit_and e.ptr flags_mask ≡ 0
      → (read_entry t s e).deferred ≡ s.deferred ++ e ∷ []
  unfolding read_entry
  deferred-put s e flags = rw flags refl

  put_off-occurrences :
      (s : Reading t) (a : Act) (k : ℕ)
      → IsTagged a
      → occurrences k (put_off s a)
        ≡ occurrences k s.deferred
          + (if k == key_of (address a) then if flags_of a == 0 then 1 else 0 else 0)
  put_off-occurrences s (make type ptr) k e =
      ap (occurrences k) (deferred-kept s _ 3 e.flags (omega arith) (omega arith)) ∙ ground arith
  put_off-occurrences s (place type ptr) k e =
      ap (occurrences k) (deferred-kept s _ 2 e.flags (omega arith) (omega arith)) ∙ ground arith
  put_off-occurrences s (share type ptr) k e =
      ap (occurrences k) (deferred-kept s _ 1 e.flags (omega arith) (omega arith)) ∙ ground arith
  put_off-occurrences s (release type ptr) k e =
      ap (occurrences k) (deferred-put s (entry (release type ptr)) e.flags)
      ∙ occurrences-append k s.deferred (entry (release type ptr) ∷ [])
      ∙ rw e.key (ground arith)

  -- No operation adds more than one to what a count stands for, and only at its own object.
  sum-after :
      (used : List ℕ) (live : ℕ → ℕ) (s : Reading t) (left : ℕ) (a : Act) (k : ℕ)
      → IsSmall used live s.deferred (1 + left)
      → IsTagged a
      → IsAllowed used live a
      → (held_after live a k + occurrences k (put_off s a) ≤ live k + occurrences k s.deferred + 1)
        × ((k == key_of (address a)) ≡ false
            → held_after live a k + occurrences k (put_off s a) ≡ live k + occurrences k s.deferred)
  sum-after used live s left (make type ptr) k small e fresh =
      let later = put_off-occurrences s (make type ptr) k e in
      (ground (arith, later, small.unused (key_of ptr) fresh), λ ne. ground (arith, later))
  sum-after used live s left (place type ptr) k small e fresh =
      let later = put_off-occurrences s (place type ptr) k e in
      (ground (arith, later), λ ne. ground (arith, later))
  sum-after used live s left (share type ptr) k small e there =
      let later = put_off-occurrences s (share type ptr) k e in
      (ground (arith, later), λ ne. ground (arith, later))
  sum-after used live s left (release type ptr) k small e (there, root) =
      let later = put_off-occurrences s (release type ptr) k e in
      (ground (arith, later), λ ne. ground (arith, later))

  IsSmall-after :
      (used : List ℕ) (live : ℕ → ℕ) (s : Reading t) (left : ℕ) (a : Act)
      → IsSmall used live s.deferred (1 + left)
      → IsTagged a
      → IsAllowed used live a
      → IsSmall (key_of (address a) ∷ used) (held_after live a) (put_off s a) left
  IsSmall-after used live s left a small e allowed = record {
    unused = λ k out.
        (sum-after used live s left a k small e allowed).1 (ground arith)
        ∙ small.unused k (ground arith);
    room = λ k. omega (arith, (sum-after used live s left a k small e allowed).0, small.room k);
  }

  owned-AllLawful :
      (acts : List Act) (used : List ℕ) (live : ℕ → ℕ) (s : Reading t)
      → IsSmall used live s.deferred (length acts)
      → IsOwned used live acts
      → AllLawful t live s (entries_of acts)
  owned-AllLawful [] used live s small owned = tt
  owned-AllLawful (a ∷ acts) used live s small (aligned, fits, allowed, owned) =
      let e = entry-IsTagged a aligned fits in
      let small' : IsSmall used live s.deferred (1 + length acts) = record {
        unused = small.unused;
        room = λ k. omega (arith, small.room k);
      } in
      (
        allowed-IsLawful used live s.deferred (length acts) a small' e allowed,
        subst (λ live. AllLawful t live (read_entry t s (entry a)) (entries_of acts))
            (sym (act-held live a e))
            (owned-AllLawful acts (key_of (address a) ∷ used) (held_after live a)
              (read_entry t s (entry a))
              (IsSmall-after used live s (length acts) a small' e allowed) owned),
      )

  pub entries_of-AllLawful :
      (acts : List Act) (s : Reading t)
      → s.deferred ≡ []
      → length acts < 2 ^ 64
      → IsOwned [] (λ k. 0) acts
      → AllLawful t (λ k. 0) s (entries_of acts)
  entries_of-AllLawful acts s none_off few owned =
      owned-AllLawful acts [] (λ k. 0) s
        (record {
          unused = λ k out. omega (arith, ap (occurrences k) none_off);
          room = λ k. omega (arith, ap (occurrences k) none_off);
        })
        owned

  -- What an application thread writes for the collector: where a thread allocates each object at an
  -- aligned address of a 64-bit memory where none of its objects was before, clones or loads roots
  -- only on objects that it has allocated, drops no root twice, and makes fewer than 2 ^ 64
  -- operations, in that order, on a new journal of the size that the library gives it: they run
  -- without a fault, and the journal has entries to read that are lawful, for a collector that knows
  -- of no roots yet and has nothing put off, and that leave on every object as many roots as the
  -- thread then holds.
  pub program-AllLawful :
      (acts : List Act) (s : Reading t)
      → s.deferred ≡ []
      → length acts < 2 ^ 64
      → IsOwned [] (λ k. 0) acts
      → (entries : List Object) × (s' : BufferQueue Object) × (perform_all acts
            (make_journal object_size journal_buffer_size)
          ≡ ok tt s')
        × Represents (next_power_of_two journal_buffer_size) s' entries
        × AllLawful t (λ k. 0) s entries
        × (act_all (λ k. 0) entries ≡ held_all (λ k. 0) acts)
  program-AllLawful acts s none_off few owned =
      let (s', runs, after) =
        perform_all-append (next_power_of_two-IsCapacity journal_buffer_size (omega arith)) acts (
          make_journal-Sending object_size journal_buffer_size (omega arith)
            (omega (arith, next_power_of_two_le journal_buffer_size (omega arith)))) in
      (
        entries_of acts,
        s',
        runs,
        after.shape,
        entries_of-AllLawful acts s none_off few owned,
        act_all-held acts [] (λ k. 0) owned,
      )
