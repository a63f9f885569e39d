-- ===== src/Young/Read.antt =====
-- src/youngheap.rs, `YoungHeap::read_journals`: entries are taken from the journals in turn and
-- update the roots, or are deferred.
pub mod Entries
use mo_gc.Common.{
  ℕ, zero, suc, Bool, false, Option, none, some, List, [], ◌∷◌, ◌++◌, ◌==◌, if◌then◌else◌, bit_and,
}
use mo_gc.Common.Words.{wrapping_add}
use mo_gc.Constants.{buffer_run, flags_mask, journal_run, new_bit}
use mo_gc.Heap.Object.{TraitObject, Object, key_of}
use mo_gc.Heap.RootMeta.{RootMeta, one, zero as zero_count, inc}
use mo_gc.Journal.Memory.{BufferQueue, Run, ok, fault, out_of_fuel, Cmd, pure, ◌>>=◌, and_then}
use mo_gc.Journal.Queue.{next, is_disconnected}
use mo_gc.Statistics.{StatsLogger}
use mo_gc.Trie.{Trie}
use mo_gc.Young.Heap.{CollectOps, YoungHeap}

module _ (t : Trie RootMeta) where
  -- What reading changes, and the number of entries read.
  pub record Reading : Type 0 where
    pub entry_count : ℕ
    pub roots : t.Map
    pub deferred : List Object

  -- `self.roots.get_default_mut(ptr, ..).inc()`
  unfoldable pub inc_at : t.Map → ℕ → ℕ → Option RootMeta → t.Map
  inc_at roots ptr vtable none = t.set roots ptr (inc (zero_count vtable 0))
  inc_at roots ptr vtable (some meta) = t.set roots ptr (inc meta)

  -- NEW_INC, NEW, INC or DEC; two bits have no other value.
  unfoldable pub read_entry : Reading → Object → Reading
  unfolding inc_at
  read_entry s entry =
      let flags = bit_and entry.ptr flags_mask in
      let ptr = key_of entry.ptr in
      let counted : Reading = record s { entry_count = wrapping_add s.entry_count 1 } in
      if flags == 3
      then record counted { roots = t.set s.roots ptr (one entry.vtable new_bit) }
      else if flags == 2
      then record counted { roots = t.set s.roots ptr (zero_count entry.vtable new_bit) }
      else if flags == 1
      then record counted { roots = inc_at s.roots ptr entry.vtable (t.get s.roots ptr) }
      else record counted { deferred = s.deferred ++ entry ∷ [] }

  -- `for entry in journal.iter_until_empty().take(n)`; an `Object` needs no drop.
  unfoldable pub read_run : ℕ → Reading → Cmd Object Reading
  unfolding read_entry next
  read_run zero s = pure s
  read_run (suc n) s = do
    entry ← next false
    elim entry [ none ↦ pure s | some e ↦ read_run n (read_entry s e) ]

  -- The journals with what was read, if no access faulted.
  abbrev pub Read : Type 0
  Read = Option (List (BufferQueue Object) × Reading)

  abbrev pub read_next : Run Object Reading → (Reading → Read) → Read
  read_next (ok s journal) rest = elim (rest s) [
    | none ↦ none
    | some (journals, s') ↦ some (journal ∷ journals, s')
  ]
  read_next fault rest = none
  read_next out_of_fuel rest = none

  -- For each journal.
  unfoldable pub read_round : List (BufferQueue Object) → Reading → Read
  read_round [] s = some ([], s)
  read_round (journal ∷ journals) s =
      read_next (read_run buffer_run s journal) (read_round journals)

  -- Reads through the journals a few times.
  unfoldable pub read_rounds : ℕ → List (BufferQueue Object) → Reading → Read
  read_rounds zero journals s = some (journals, s)
  read_rounds (suc n) journals s = elim (read_round journals s) [
    | none ↦ none
    | some (journals', s') ↦ read_rounds n journals' s'
  ]

abbrev pub retain_next :
    Run Object Bool → Option (List (BufferQueue Object)) → Option (List (BufferQueue Object))
retain_next (ok gone journal) none = none
retain_next (ok gone journal) (some journals) = some (if gone then journals else journal ∷ journals)
retain_next fault rest = none
retain_next out_of_fuel rest = none

-- Removes any disconnected journals.
unfoldable pub retain : List (BufferQueue Object) → Option (List (BufferQueue Object))
retain [] = some []
retain (journal ∷ journals) = retain_next (is_disconnected journal) (retain journals)

module _ (t : Trie RootMeta) (trace : TraitObject → List TraitObject) (mature : CollectOps t)
    {Time : Type 0} (logger : StatsLogger Time) where
  abbrev pub finish_read :
      YoungHeap t trace mature logger
      → Reading t
      → Option (List (BufferQueue Object))
      → Option (YoungHeap t trace mature logger × ℕ)
  finish_read y s none = none
  finish_read y s (some journals) =
      some (record y { journals = journals; roots = s.roots; deferred = s.deferred }, s.entry_count)

  -- `none` is a fault in a journal. Returns the number of journal entries read.
  unfoldable pub read_journals :
      YoungHeap t trace mature logger → Option (YoungHeap t trace mature logger × ℕ)
  read_journals y =
      elim (read_rounds t journal_run y.journals
        (record { entry_count = 0; roots = y.roots; deferred = y.deferred })) [
          | none ↦ none
          | some (journals, s) ↦ finish_read y s (retain journals)
        ]
