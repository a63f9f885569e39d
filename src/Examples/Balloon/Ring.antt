-- ===== src/Examples/Balloon/Ring.antt =====
-- A snake is made, counted and dropped: what it counts, and what it writes to its journal.
use mo_gc.Common.{ℕ, true, false, List, [], ◌∷◌, ◌++◌}
use mo_gc.AppThread.{Traced, entry_of, box_object, value_object}
use mo_gc.Constants.{inc_bit, new_bit}
use mo_gc.Common.{bit_or}
use mo_gc.Examples.Balloon.{Balloon}
use mo_gc.Heap.Object.{Object}
use mo_gc.Examples.Balloon.Chain.{Chain, new_entry, new_entries}

module _ (segment_type balloon_type : Traced) where
  -- What a snake writes to the journal: a new object for each segment, a root on a new balloon
  -- after the first, and at the end the drop of the root.
  abbrev pub snake_entries : ℕ → ℕ → List ℕ → List Object
  snake_entries body root_at segments =
      new_entry segment_type body
      ∷ entry_of (box_object balloon_type root_at) balloon_type.traversible true
          (bit_or new_bit inc_bit)
      ∷ (new_entries segment_type segments
          ++ entry_of (value_object balloon_type root_at) balloon_type.traversible false 0 ∷ [])
