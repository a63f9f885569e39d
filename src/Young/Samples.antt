-- ===== src/Young/Samples.antt =====
-- A map of three entries for the tests: a rooted object that points at a second one, and a third that
-- nothing points at; a schedule of the jobs that mark; and a decrement.
use mo_gc.Young.Deferred.Merged.{IsCovered}
use mo_gc.Common.{
  ℕ, zero, suc, ◌≤◌, ◌<◌, ◌^◌, ◌≡◌, ◌⊎◌, refl, ap, false, none, some, List, [], ◌∷◌, ◌==◌,
  if◌then◌else◌, arith, inl, inr, Bool-cases,
}
use mo_gc.Heap.Object.{Object, TraitObject, key_of}
use mo_gc.Heap.RootMeta.{RootMeta, new}
use mo_gc.Heap.RootMeta.View.{IsValid, marked_of}
use mo_gc.Trie.{Trie}
use mo_gc.Trie.Assoc.{assoc, lookup, keys_of, without_key}
use mo_gc.Young.Mark.{run, start}
use mo_gc.Trie.{nth}
use mo_gc.Young.Mark.Reach.{ByAddress}
use mo_gc.Young.Mark.Correct.{Finished}
use mo_gc.Young.Mark.Finish.{mark_finishes, turns, turns_needed}
use mo_gc.Young.Minor.{IsReady}

abbrev pub tries : Trie RootMeta
tries = assoc RootMeta

abbrev pub roots : tries.Map
unfolding assoc new
roots = (1, new 1 64 2) ∷ (2, new 0 64 2) ∷ (3, new 0 64 2) ∷ []

-- The object at key 1 points at the one at key 2.
abbrev pub points : ℕ → List TraitObject
points k = if k == 1 then record { data_ptr = 16; vtable = 64 } ∷ [] else []

abbrev pub trace : TraitObject → List TraitObject
trace o = points (key_of o.data_ptr)

pub trace-ByAddress : ByAddress trace
trace-ByAddress a b e = ap points e

-- The entries of the map have these properties.
pub entries :
    (k : ℕ) (m : RootMeta)
    → tries.get roots k ≡ some m
    → (k < 2 ^ 61) × IsValid m × (marked_of m.flags ≡ false)
unfolding assoc lookup new
entries k m h = elim (Bool-cases (k == 1)) [
  | inl one ↦ ground arith
  | inr not_one ↦ elim (Bool-cases (k == 2)) [
    | inl two ↦ ground arith
    | inr not_two ↦ elim (Bool-cases (k == 3)) [
      | inl three ↦ ground arith
      | inr not_three ↦ ground arith
    ]
  ]
]

pub short : (k : ℕ) (m : RootMeta) → tries.get roots k ≡ some m → k < 2 ^ 61
short k m h = (entries k m h).0

pub ready : IsReady tries roots
ready = record {
  short = λ k m h. (entries k m h).0;
  valid = λ k m h. (entries k m h).1;
  clean = λ k m h marked. cc ((entries k m h).2);
}

pub at_three : tries.get roots 3 ≡ some (new 0 64 2)
unfolding assoc lookup new
at_three = refl

pub at_nine : tries.get roots 9 ≡ none
unfolding assoc lookup new
at_nine = refl

-- The jobs of the three keys in turn, each often enough.
abbrev pub schedule : List ℕ
schedule = 0 ∷ 1 ∷ 2 ∷ 0 ∷ 1 ∷ 2 ∷ 0 ∷ 1 ∷ 2 ∷ 0 ∷ 1 ∷ 2 ∷ 0 ∷ 1 ∷ 2 ∷ []

-- Whose turns these are, and whether they are enough.
pub fair :
    (i : ℕ)
    → (nth (tries.shards roots 2) i ≡ [])
      ⊎ (turns_needed tries trace trace-ByAddress roots (nth (tries.shards roots 2) i)
          ≤ turns tries trace trace-ByAddress i schedule)
unfolding turns_needed assoc keys_of without_key new
fair zero = inr (ground arith)
fair (suc zero) = inr (ground arith)
fair (suc (suc zero)) = inr (ground arith)
fair (suc (suc (suc i))) = inl refl

pub all-Finished : Finished (run tries trace (start tries trace roots 2) schedule)
all-Finished = mark_finishes tries trace trace-ByAddress roots 2 schedule (omega arith) short fair

-- One decrement of the rooted object is deferred.
abbrev pub deferred : List Object
deferred = record { ptr = 8; vtable = 64 } ∷ []

pub covered : IsCovered tries roots deferred
unfolding assoc lookup new
covered = record {
  enough =
      λ k m h. elim (Bool-cases (k == 1)) [ inl one ↦ ground arith | inr not_one ↦ ground arith ];
  fits = λ k m h. (ready.valid k m h).count_fits;
  known = λ k h. elim (Bool-cases (k == 1)) [
    | inl one ↦ (new 1 64 2, rw one refl)
    | inr not_one ↦ absurd (ground arith)
  ];
}
