-- ===== src/Young/Balance.antt =====
-- What the counts of the young generation stand for: the number of roots that the application
-- threads hold on an object, as far as their entries have been read, and of decrements put off.
pub mod Lawful
pub mod Read
use mo_gc.Common.{
  ℕ, ◌+◌, ◌-◌, ◌%◌, ◌^◌, ◌≤◌, ◌<◌, ◌≡◌, ◌⊎◌, refl, sym, ap, ◌∙◌, subst, inl, inr, Bool, true, false,
  Option, none, some, List, [], ◌∷◌, ◌++◌, ◌==◌, if◌then◌else◌, bit_and, arith, Bool-cases,
  Option-cases, ==_iff,
}
use mo_gc.Common.Bits.{and_three, and-two}
use mo_gc.Constants.{flags_mask, new_bit}
use mo_gc.Heap.Object.{Object, key_of}
use mo_gc.Heap.RootMeta.{RootMeta, new, one, zero, inc, is_new}
use mo_gc.Heap.RootMeta.View.{IsValid, marked_of}
use mathlib.Core.Option.{some-injective}
use mo_gc.Trie.{Trie}
use mo_gc.Young.Deferred.Chunks.{occurrences, occurrences-append}
use mo_gc.Young.Deferred.Merged.{IsCovered}
use mo_gc.Young.Minor.{IsReady}
use mo_gc.Young.Read.{Reading, read_entry, inc_at}

-- What an operation that wrote an entry did to the number of roots on its object: NEW_INC and INC are
-- one more, NEW is none, DEC is one less.
abbrev pub change : ℕ → ℕ → ℕ
change flags n =
    if flags == 3 then n + 1 else if flags == 2 then n else if flags == 1 then n + 1 else n - 1

-- The number of roots on each object after an entry.
abbrev pub act : (ℕ → ℕ) → Object → ℕ → ℕ
act live entry k =
    if k == key_of entry.ptr then change (bit_and entry.ptr flags_mask) (live k) else live k

abbrev pub act_all : (ℕ → ℕ) → List Object → ℕ → ℕ
act_all live [] = live
act_all live (entry ∷ entries) = act_all (act live entry) entries

-- The entries that an application writes, in the order in which they are read: the address of a new
-- object is not that of one with roots (so that no entry of a second thread that has rooted it was
-- read before) or with decrements put off, counts stay below the bounds of a word, and a root is dropped once.
pub record IsLawful (live : ℕ → ℕ) (deferred : List Object) (entry : Object) : Type 0 where
  pub fits : entry.ptr < 2 ^ 64
  pub fresh :
      2 ≤ entry.ptr % 4 → live (key_of entry.ptr) + occurrences (key_of entry.ptr) deferred ≡ 0
  pub room :
      entry.ptr % 4 ≡ 1
      → live (key_of entry.ptr) + occurrences (key_of entry.ptr) deferred + 1 < 2 ^ 64
  pub held : entry.ptr % 4 ≡ 0 → 0 < live (key_of entry.ptr)

module _ (t : Trie RootMeta) where
  open t use {Map, get, set, get-set}

  -- A ready map in which each count is the number of the roots on its object and of the decrements
  -- put off, and in which every object with a root or such a decrement has its entry.
  pub record IsBalanced (roots : Map) (deferred : List Object) (live : ℕ → ℕ) : Type 0 where
    pub ready : IsReady t roots
    pub counted :
        (k : ℕ) (m : RootMeta) → get roots k ≡ some m → m.refcount ≡ live k + occurrences k deferred
    pub known :
        (k : ℕ) → 0 < live k + occurrences k deferred → (m : RootMeta) × (get roots k ≡ some m)

  pub balanced-IsCovered :
      (roots : Map) (deferred : List Object) (live : ℕ → ℕ)
      → IsBalanced roots deferred live
      → IsCovered t roots deferred
  balanced-IsCovered roots deferred live b = record {
    enough = λ k m at. omega (arith, b.counted k m at);
    fits = λ k m at. (b.ready.valid k m at).count_fits;
    known = λ k h. b.known k (omega arith);
  }

  -- The entries of a reading, each of them lawful when its turn comes.
  abbrev pub AllLawful : (ℕ → ℕ) → Reading t → List Object → Type 0
  AllLawful live s [] = Unit
  AllLawful live s (entry ∷ entries) =
      IsLawful live s.deferred entry × AllLawful (act live entry) (read_entry t s entry) entries

  -- A write of one entry, with the roots on its object.
  pub IsBalanced-set :
      (roots : Map) (deferred : List Object) (live live' : ℕ → ℕ) (j : ℕ) (m' : RootMeta)
      → IsBalanced roots deferred live
      → j < 2 ^ 61
      → IsValid m'
      → (marked_of m'.flags ≡ true → is_new m' ≡ false)
      → m'.refcount ≡ live' j + occurrences j deferred
      → ((k : ℕ) → (k == j) ≡ false → live' k ≡ live k)
      → IsBalanced (set roots j m') deferred live'
  IsBalanced-set roots deferred live live' j m' b short valid clean count others = record {
    ready = record {
      short = λ k m h. elim (at k m h) [
        | inl (e, e') ↦ rw e short
        | inr (ne, h') ↦ b.ready.short k m h'
      ];
      valid = λ k m h. elim (at k m h) [
        | inl (e, e') ↦ rw e' valid
        | inr (ne, h') ↦ b.ready.valid k m h'
      ];
      clean = λ k m h. elim (at k m h) [
        | inl (e, e') ↦ rw e' clean
        | inr (ne, h') ↦ b.ready.clean k m h'
      ];
    };
    counted = λ k m h. elim (at k m h) [
      | inl (e, e') ↦ rw (e, e') count
      | inr (ne, h') ↦ rw (others k ne) (b.counted k m h')
    ];
    known = λ k h. elim (Bool-cases (k == j)) [
      | inl here ↦ (m', get-set roots j m' k ∙ rw here refl)
      | inr other ↦
          let (m, there) =
            b.known k (subst (λ n. 0 < n + occurrences k deferred) (others k other) h) in
          (m, get-set roots j m' k ∙ rw other there)
    ];
  }
    where
      at :
          (k : ℕ) (m : RootMeta)
          → get (set roots j m') k ≡ some m
          → ((k ≡ j) × (m ≡ m')) ⊎ (((k == j) ≡ false) × (get roots k ≡ some m))
      at k m h = elim (Bool-cases (k == j)) [
        | inl here ↦ inl (
          (==_iff k j).0 here,
          some-injective _ _ (sym (sym (get-set roots j m' k ∙ rw here refl) ∙ h)),
        )
        | inr other ↦ inr (other, sym (get-set roots j m' k ∙ rw other refl) ∙ h)
      ]
