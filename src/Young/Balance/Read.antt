-- ===== src/Young/Balance/Read.antt =====
-- What the reading of lawful entries does to the balance of the counts.
use mo_gc.Common.{
  ℕ, ◌+◌, ◌-◌, ◌%◌, ◌^◌, ◌<◌, ◌≡◌, refl, sym, ◌∙◌, subst, inl, inr, false, Option, none, some, List,
  [], ◌∷◌, ◌++◌, ◌==◌, if◌then◌else◌, bit_and, arith, Bool-cases, ==_iff, ==_refl,
}
use mo_gc.Common.Bits.{and_three}
use mo_gc.Constants.{flags_mask, new_bit}
use mo_gc.Heap.Object.{Object, key_of}
use mo_gc.Heap.RootMeta.{RootMeta, new, one, zero, inc, is_new}
use mo_gc.Heap.RootMeta.View.{inc-IsValid}
use mo_gc.Trie.{Trie}
use mo_gc.Young.Deferred.Chunks.{occurrences, occurrences-append}
use mo_gc.Young.Read.{Reading, read_entry, inc_at}
use mo_gc.Young.Read.Entries.{read_all}
use mo_gc.Young.Balance.{act, act_all, IsLawful, IsBalanced, AllLawful, IsBalanced-set}

is_new-inc : (m : RootMeta) → is_new (inc m) ≡ is_new m
unfolding is_new inc
is_new-inc m = refl

module _ (t : Trie RootMeta) where
  open t use {Map, get, set, get-set}

  act-other :
      (live : ℕ → ℕ) (e : Object) (k : ℕ) → (k == key_of e.ptr) ≡ false → act live e k ≡ live k
  act-other live e k ne = rw ne refl

  act-here :
      (live : ℕ → ℕ) (e : Object) (f : ℕ)
      → bit_and e.ptr flags_mask ≡ f
      → act live e (key_of e.ptr) ≡ (
          if f == 3
          then live (key_of e.ptr) + 1
          else if f == 2
          then live (key_of e.ptr)
          else if f == 1
          then live (key_of e.ptr) + 1
          else live (key_of e.ptr) - 1)
  act-here live e f h = rw (==_refl (key_of e.ptr), h) refl

  short-key : (e : Object) → e.ptr < 2 ^ 64 → key_of e.ptr < 2 ^ 61
  short-key e h = omega arith

  module _ (roots : Map) (deferred : List Object) (live : ℕ → ℕ) (e : Object)
      (b : IsBalanced t roots deferred live) (lawful : IsLawful live deferred e) where
    abbrev key : ℕ
    key = key_of e.ptr

    new_entry :
        (count : ℕ)
        → count < 2
        → act live e key ≡ live key + count
        → live key + occurrences key deferred ≡ 0
        → IsBalanced t (set roots key (new count e.vtable new_bit)) deferred (act live e)
    unfolding new
    new_entry count few acts fresh =
        IsBalanced-set t roots deferred live (act live e) key _ b (short-key e lawful.fits)
          (record { count_fits = omega arith; flags_fit = omega arith }) (λ h. cc)
          (omega (arith, acts, fresh)) (act-other live e)

    more :
        (o : Option RootMeta)
        → get roots key ≡ o
        → act live e key ≡ live key + 1
        → e.ptr % 4 ≡ 1
        → IsBalanced t (inc_at t roots key e.vtable o) deferred (act live e)
    unfolding inc_at inc zero new is_new
    more none gone acts flags =
        IsBalanced-set t roots deferred live (act live e) key _ b (short-key e lawful.fits)
          (record { count_fits = omega arith; flags_fit = omega arith }) (λ h. cc)
          (elim (Bool-cases (live key + occurrences key deferred == 0)) [
            | inl zero_live ↦ ground (arith, acts)
            | inr some_live ↦ let (m, at) = b.known key (ground arith) in cc
          ])
          (act-other live e)
    more (some m) at acts flags =
        let count = b.counted key m at in
        let wraps : (m.refcount + 1) % 2 ^ 64 ≡ m.refcount + 1 = omega (arith, lawful.room flags) in
        IsBalanced-set t roots deferred live (act live e) key _ b (short-key e lawful.fits)
          (inc-IsValid m (b.ready.valid key m at)) (b.ready.clean key m at)
          (omega (arith, acts, wraps, count)) (act-other live e)

    -- A decrement that is put off counts for the root that is gone.
    same-sum :
        act live e key ≡ live key - 1
        → e.ptr % 4 ≡ 0
        → (k : ℕ)
        → act live e k + occurrences k (deferred ++ e ∷ []) ≡ live k + occurrences k deferred
    same-sum acts flags k =
        let later = occurrences-append k deferred (e ∷ []) in
        elim (Bool-cases (k == key)) [
          | inl here ↦
              let same : k ≡ key = (==_iff k key).0 here in
              let one_less : act live e k ≡ live k - 1 =
                subst (λ k. act live e k ≡ live k - 1) (sym same) acts in
              let some_root : 0 < live k = subst (λ k. 0 < live k) (sym same) (lawful.held flags) in
              let last : occurrences k (e ∷ []) ≡ 1 = rw here refl in
              omega (arith, later, one_less, some_root, last)
          | inr other ↦
              let last : occurrences k (e ∷ []) ≡ 0 = rw other refl in
              let kept : act live e k ≡ live k = act-other live e k other in
              omega (arith, later, kept, last)
        ]

    put_off :
        act live e key ≡ live key - 1
        → e.ptr % 4 ≡ 0
        → IsBalanced t roots (deferred ++ e ∷ []) (act live e)
    put_off acts flags = record {
      ready = b.ready;
      counted = λ k m at. b.counted k m at ∙ sym (same-sum acts flags k);
      known = λ k h. b.known k (subst (λ n. 0 < n) (same-sum acts flags k) h);
    }

  -- A lawful entry keeps the counts in balance with the roots that it leaves.
  read_entry-IsBalanced :
      (s : Reading t) (live : ℕ → ℕ) (e : Object)
      → IsBalanced t s.roots s.deferred live
      → IsLawful live s.deferred e
      → IsBalanced t (read_entry t s e).roots (read_entry t s e).deferred (act live e)
  unfolding read_entry one zero
  read_entry-IsBalanced s live e b lawful =
      let low = and_three e.ptr in
      elim (Bool-cases (bit_and e.ptr flags_mask == 3)) [
        | inl three ↦ rw three (
            new_entry s.roots s.deferred live e b lawful 1 (omega arith)
              (act-here live e 3 (ground arith)) (lawful.fresh (ground arith)))
        | inr not_three ↦ elim (Bool-cases (bit_and e.ptr flags_mask == 2)) [
          | inl two ↦
              rw (not_three, two)
                (new_entry s.roots s.deferred live e b lawful 0 (omega arith)
                  (act-here live e 2 (ground arith) ∙ omega arith) (lawful.fresh (ground arith)))
          | inr not_two ↦ elim (Bool-cases (bit_and e.ptr flags_mask == 1)) [
            | inl one_more ↦
                rw (not_three, not_two, one_more)
                  (more s.roots s.deferred live e b lawful _ refl (act-here live e 1 (ground arith))
                    (ground arith))
            | inr not_one ↦
                rw (not_three, not_two, not_one)
                  (put_off s.roots s.deferred live e b lawful (act-here live e 0 (ground arith))
                    (ground arith))
          ]
        ]
      ]

  -- The counts stand for the roots of the application: where they do before a reading (each count
  -- the number of roots on the object and of its decrements put off; the map ready), and each entry
  -- is lawful when it is read (an address that becomes new has no roots and no decrements put off,
  -- so that no thread's increment was read before the allocation; no count leaves a word; a root is
  -- dropped at most once), they do so afterwards, with the roots that the entries have made and
  -- dropped: an increment, also that of a new root, adds one, and a decrement takes one.
  pub read_all-IsBalanced :
      (entries : List Object) (s : Reading t) (live : ℕ → ℕ)
      → IsBalanced t s.roots s.deferred live
      → AllLawful t live s entries
      → IsBalanced t
          (read_all t s entries).roots
          (read_all t s entries).deferred
          (act_all live entries)
  read_all-IsBalanced [] s live b lawful = b
  read_all-IsBalanced (e ∷ entries) s live b lawful =
      read_all-IsBalanced entries (read_entry t s e) (act live e)
        (read_entry-IsBalanced s live e b lawful.0) lawful.1
