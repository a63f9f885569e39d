-- ===== src/Journal/Cells.antt =====
-- src/journal.rs, `MaybeAtomicUsize`: the cells that both ends of a journal share. Where the order of
-- stores is total the cell is a plain one, elsewhere it is atomic; the buffers keep the number that
-- the cell holds.
use mo_gc.Common.{ℕ}
use mo_gc.Common.Words.{wrapping_add}

pub record MaybeAtomicUsize : Type 0 where
  pub value : ℕ

-- The cell on x86: `fetch_add` reads and writes in two steps, which only the one writer of the cell
-- may do.
unfoldable pub cell_new : ℕ → MaybeAtomicUsize
cell_new value = record { value = value }

unfoldable pub cell_load : MaybeAtomicUsize → ℕ
cell_load cell = cell.value

unfoldable pub cell_store : MaybeAtomicUsize → ℕ → MaybeAtomicUsize
cell_store cell value = record { value = value }

unfoldable pub cell_fetch_add : MaybeAtomicUsize → ℕ → ℕ × MaybeAtomicUsize
unfolding cell_load cell_store
cell_fetch_add cell value =
    let old = cell_load cell in (old, cell_store cell (wrapping_add old value))

-- The cell elsewhere, on an `AtomicUsize`.
unfoldable pub atomic_cell_new : ℕ → MaybeAtomicUsize
atomic_cell_new value = record { value = value }

unfoldable pub atomic_cell_load : MaybeAtomicUsize → ℕ
atomic_cell_load cell = cell.value

unfoldable pub atomic_cell_store : MaybeAtomicUsize → ℕ → MaybeAtomicUsize
atomic_cell_store cell value = record { value = value }

unfoldable pub atomic_cell_fetch_add : MaybeAtomicUsize → ℕ → ℕ × MaybeAtomicUsize
atomic_cell_fetch_add cell value = (cell.value, record { value = wrapping_add cell.value value })
