-- ===== src/Young/Deferred/Tests.antt =====
-- The theorems on the merge of the deferred decrements at concrete inputs.
use mo_gc.Common.{zero, suc, length, ◌≤◌, ℕ, ◌≡◌, refl, none, some, List, [], ◌∷◌, arith, inr}
use mo_gc.Heap.Object.{Object}
use mo_gc.Trie.{concat}
use mo_gc.Young.Samples.{at_nine, deferred, covered, tries, roots}
use mo_gc.Young.Deferred.{merge_deferred, chunks, chunk_size, merge_turn, next_of}
use mo_gc.Young.Deferred.Merged.{Merged, merge_deferred_lem}
use mo_gc.Young.Deferred.Finish.{job_of, turns_of, merge_deferred-completes}
use mo_gc.Young.Deferred.Panic.{merge_deferred-panics}

all_merged : concat (merge_deferred tries roots deferred 2 (0 ∷ [])).jobs ≡ []
unfolding merge_deferred chunks chunk_size merge_turn next_of
all_merged = refl

one_turn :
    (i : ℕ)
    → length (job_of (chunks (length deferred) (chunk_size (length deferred) 2) deferred) i)
      ≤ turns_of i (0 ∷ [])
unfolding chunks chunk_size
one_turn zero = ground arith
one_turn (suc i) = ground arith

merge_completes_example :
    (concat (merge_deferred tries roots deferred 2 (0 ∷ [])).jobs ≡ [])
    × ((r' : tries.Map) × ((merge_deferred tries roots deferred 2 (0 ∷ [])).roots ≡ some r')
        × Merged tries roots deferred r')
merge_completes_example =
    merge_deferred-completes tries roots deferred 2 (0 ∷ []) (omega arith) covered one_turn

merge_deferred_example :
    (r' : tries.Map) × ((merge_deferred tries roots deferred 2 (0 ∷ [])).roots ≡ some r')
    × Merged tries roots deferred r'
merge_deferred_example =
    merge_deferred_lem tries roots deferred 2 (0 ∷ []) (omega arith) covered all_merged

-- A decrement of a key that has no entry.
abbrev stray : List Object
stray = record { ptr = 72; vtable = 64 } ∷ []

merge_deferred-panics_example : (merge_deferred tries roots stray 2 (0 ∷ [])).roots ≡ none
unfolding merge_deferred chunks chunk_size merge_turn next_of
merge_deferred-panics_example =
    merge_deferred-panics tries roots stray 2 (0 ∷ []) 9 (inr (at_nine, omega arith, refl))
