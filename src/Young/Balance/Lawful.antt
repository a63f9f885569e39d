-- ===== src/Young/Balance/Lawful.antt =====
-- Lawful entries stay lawful when fewer decrements are put off, and when they are read in parts.
use mo_gc.Common.{ℕ, ◌≤◌, inl, inr, List, [], ◌∷◌, ◌++◌, ◌==◌, bit_and, arith, Bool-cases}
use mo_gc.Constants.{flags_mask}
use mo_gc.Heap.Object.{Object, key_of}
use mo_gc.Heap.RootMeta.{RootMeta}
use mo_gc.Trie.{Trie}
use mo_gc.Young.Balance.{act, act_all, IsLawful, AllLawful}
use mo_gc.Young.Deferred.Chunks.{occurrences, occurrences-append}
use mo_gc.Young.Read.{Reading, read_entry}
use mo_gc.Young.Read.Entries.{read_all}

-- No more decrements of any key.
abbrev pub Fewer : List Object → List Object → Type 0
Fewer fewer deferred = (k : ℕ) → occurrences k fewer ≤ occurrences k deferred

pub IsLawful-Fewer :
    (live : ℕ → ℕ) (fewer deferred : List Object) (e : Object)
    → Fewer fewer deferred
    → IsLawful live deferred e
    → IsLawful live fewer e
IsLawful-Fewer live fewer deferred e less lawful = record {
  fits = lawful.fits;
  fresh = λ h. omega (arith, less (key_of e.ptr), lawful.fresh h);
  room = λ h. omega (arith, less (key_of e.ptr), lawful.room h);
  held = lawful.held;
}

module _ (t : Trie RootMeta) where
  read_entry-Fewer :
      (s s' : Reading t) (e : Object)
      → Fewer s'.deferred s.deferred
      → Fewer (read_entry t s' e).deferred (read_entry t s e).deferred
  unfolding read_entry
  read_entry-Fewer s s' e less k = elim (Bool-cases (bit_and e.ptr flags_mask == 3)) [
    | inl three ↦ rw three (less k)
    | inr not_three ↦ elim (Bool-cases (bit_and e.ptr flags_mask == 2)) [
      | inl two ↦ rw (not_three, two) (less k)
      | inr not_two ↦ elim (Bool-cases (bit_and e.ptr flags_mask == 1)) [
        | inl one_more ↦ rw (not_three, not_two, one_more) (less k)
        | inr not_one ↦
            rw (not_three, not_two, not_one)
              (omega (
                arith,
                less k,
                occurrences-append k s.deferred (e ∷ []),
                occurrences-append k s'.deferred (e ∷ []),
              ))
      ]
    ]
  ]

  pub AllLawful-Fewer :
      (entries : List Object) (live : ℕ → ℕ) (s s' : Reading t)
      → Fewer s'.deferred s.deferred
      → AllLawful t live s entries
      → AllLawful t live s' entries
  AllLawful-Fewer [] live s s' less lawful = tt
  AllLawful-Fewer (e ∷ entries) live s s' less lawful = (
    IsLawful-Fewer live s'.deferred s.deferred e less lawful.0,
    AllLawful-Fewer entries (act live e) (read_entry t s e) (read_entry t s' e)
        (read_entry-Fewer s s' e less) lawful.1,
  )

  pub AllLawful-append :
      (xs ys : List Object) (live : ℕ → ℕ) (s : Reading t)
      → AllLawful t live s (xs ++ ys)
      → AllLawful t live s xs × AllLawful t (act_all live xs) (read_all t s xs) ys
  AllLawful-append [] ys live s lawful = (tt, lawful)
  AllLawful-append (x ∷ xs) ys live s lawful =
      let (first, rest) = AllLawful-append xs ys (act live x) (read_entry t s x) lawful.1 in
      ((lawful.0, first), rest)
