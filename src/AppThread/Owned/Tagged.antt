-- ===== src/AppThread/Owned/Tagged.antt =====
-- The entry of an operation carries the address of its object and its flags, and says what becomes of
-- the roots on it.
use mo_gc.Common.{ℕ, ◌+◌, ◌%◌, ◌^◌, ◌<◌, ◌≡◌, refl, ap, ◌∙◌, fun_ext, List, [], ◌∷◌, bit_and, arith}
use mo_gc.AppThread.{entry_of}
use mo_gc.AppThread.Program.{
  Act, make, place, share, release, address, entry, entries_of, held_after, held_all, IsOwned,
}
use mo_gc.Common.Bits.{or-nil, or-one, or-two, or_three, and_three}
use mo_gc.Constants.{flags_mask}
use mo_gc.Heap.Object.{key_of}
use mo_gc.Young.Balance.{act, act_all}

-- The flags of an operation's entry.
abbrev pub flags_of : Act → ℕ
flags_of (make type ptr) = 3
flags_of (place type ptr) = 2
flags_of (share type ptr) = 1
flags_of (release type ptr) = 0

entry-ptr : (a : Act) → address a % 8 ≡ 0 → (entry a).ptr ≡ address a + flags_of a
unfolding entry_of
entry-ptr (make type ptr) aligned = ground (arith, or_three ptr)
entry-ptr (place type ptr) aligned = ground (arith, or-two ptr)
entry-ptr (share type ptr) aligned = ground (arith, or-one ptr)
entry-ptr (release type ptr) aligned = ground (arith, or-nil ptr)

flags_of-few : (a : Act) → flags_of a < 4
flags_of-few (make type ptr) = omega arith
flags_of-few (place type ptr) = omega arith
flags_of-few (share type ptr) = omega arith
flags_of-few (release type ptr) = omega arith

-- What an entry does not change: the key, the flags.
pub record IsTagged (a : Act) : Type 0 where
  pub fits : (entry a).ptr < 2 ^ 64
  pub key : key_of (entry a).ptr ≡ key_of (address a)
  pub low : (entry a).ptr % 4 ≡ flags_of a
  pub flags : bit_and (entry a).ptr flags_mask ≡ flags_of a

pub entry-IsTagged : (a : Act) → address a % 8 ≡ 0 → address a < 2 ^ 64 → IsTagged a
entry-IsTagged a aligned fits =
    let e = entry-ptr a aligned in
    let few = flags_of-few a in
    record {
      fits = omega (arith, e);
      key = omega (arith, e);
      low = omega (arith, e);
      flags = omega (arith, e, and_three (entry a).ptr);
    }

pub act-held : (live : ℕ → ℕ) (a : Act) → IsTagged a → act live (entry a) ≡ held_after live a
act-held live (make type ptr) e = fun_ext (λ k. rw (e.key, e.flags) refl)
act-held live (place type ptr) e = fun_ext (λ k. rw (e.key, e.flags) refl)
act-held live (share type ptr) e = fun_ext (λ k. rw (e.key, e.flags) refl)
act-held live (release type ptr) e = fun_ext (λ k. rw (e.key, e.flags) refl)

-- The entries leave the roots that the thread holds.
pub act_all-held :
    (acts : List Act) (used : List ℕ) (live : ℕ → ℕ)
    → IsOwned used live acts
    → act_all live (entries_of acts) ≡ held_all live acts
act_all-held [] used live owned = refl
act_all-held (a ∷ acts) used live (aligned, fits, allowed, owned) =
    ap (λ live. act_all live (entries_of acts)) (act-held live a (entry-IsTagged a aligned fits))
    ∙ act_all-held acts (key_of (address a) ∷ used) (held_after live a) owned
