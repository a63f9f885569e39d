-- ===== src/Young/Heap/Major.antt =====
-- What a major collection does to the objects that it moves into the mature heap `ParHeap`.
use mathlib.Core.List.{foldl}
use mo_gc.Common.{
  ℕ, ◌-◌, ◌%◌, ◌<◌, ◌^◌, ◌≡◌, refl, ap, ◌∙◌, inl, inr, Bool, true, false, not, ◌&&◌, Option, none,
  some, List, ◌==◌, if◌then◌else◌, arith, Bool-cases, Option-cases, ==_iff,
}
use mo_gc.Common.Bits.{and-one, and-not_three}
use mo_gc.Heap.Object.{TraitObject}
use mo_gc.Heap.ObjectMeta.{ObjectMeta, new, is_marked}
use mo_gc.Heap.RootMeta.{RootMeta, unsync_is_unrooted, is_new, set_not_new, vtable as root_vtable}
use mo_gc.Mature.{add_object}
use mo_gc.Mature.Collect.{swept, collect_unmarked}
use mo_gc.Statistics.{StatsLogger}
use mo_gc.Trie.{Trie}
use mo_gc.Trie.Fold.{foldl-Passes}
use mo_gc.Young.Heap.{CollectOps, par_heap, YoungHeap, move_at, move_key, major_collection}

-- A vtable pointer out of a root's entry has no mark in it.
new-unmarked : (m : RootMeta) → m.vtable < 2 ^ 64 → is_marked (new (root_vtable m)) ≡ false
unfolding is_marked new root_vtable
new-unmarked m fits = ground (arith, and-not_three m.vtable, and-one (m.vtable - m.vtable % 4))

-- Whether an entry's object moves, and what the two maps hold at its key afterwards.
abbrev moves : RootMeta → Bool
moves m = not (unsync_is_unrooted m) && is_new m

abbrev moved : Option RootMeta × Option ObjectMeta → Option RootMeta × Option ObjectMeta
moved (none, o) = (none, o)
moved (some m, o) =
    if moves m then (some (set_not_new m), some (new (root_vtable m))) else (some m, o)

module _ (t : Trie RootMeta) (h : Trie ObjectMeta) (trace : TraitObject → List TraitObject)
    (threads : ℕ) {Time : Type 0} (logger : StatsLogger Time) where
  abbrev heaps : CollectOps t
  heaps = par_heap t h trace threads

  abbrev State : Type 0
  State = t.Map × heaps.Heap

  -- The object map of the mature heap.
  pub mature_objects : heaps.Heap → h.Map
  unfolding par_heap
  mature_objects objects = objects

  held : State → ℕ → Option RootMeta × Option ObjectMeta
  unfolding par_heap
  held s k = (t.get s.0 k, h.get s.1 k)

  held-move_at :
      (s : State) (j k : ℕ) (o : Option RootMeta)
      → t.get s.0 j ≡ o
      → held (move_at t trace heaps logger s j o) k
        ≡ (if k == j then moved (o, (held s j).1) else held s k)
  unfolding held move_at par_heap add_object
  held-move_at s j k none e = elim (Bool-cases (k == j)) [
    | inl here ↦ rw (here, (==_iff k j).0 here, e) refl
    | inr other ↦ rw other refl
  ]
  held-move_at s j k (some m) e = elim (Bool-cases (moves m)) [
    | inl moving ↦ elim (Bool-cases (k == j)) [
      | inl here ↦ rw (moving, t.get-set, h.get-set, here) refl
      | inr other ↦ rw (moving, t.get-set, h.get-set, other) refl
    ]
    | inr staying ↦ elim (Bool-cases (k == j)) [
      | inl here ↦ rw (staying, here, (==_iff k j).0 here, e) refl
      | inr other ↦ rw (staying, other) refl
    ]
  ]

  held-move_key :
      (s : State) (j k : ℕ)
      → held (move_key t trace heaps logger s j) k ≡ (if k == j then moved (held s j) else held s k)
  unfolding held move_key
  held-move_key s j k = held-move_at s j k (t.get s.0 j) refl

  abbrev after_moves : State → State
  after_moves s = foldl (move_key t trace heaps logger) s (t.keys s.0)

  -- Every entry of the roots is visited once.
  held-moves : (s : State) (k : ℕ) → held (after_moves s) k ≡ moved (held s k)
  unfolding held
  held-moves s k =
      foldl-Passes held moved (move_key t trace heaps logger) held-move_key s (t.keys s.0) k
        (t.keys-Distinct s.0)
      ∙ elim (Option-cases (t.get s.0 k)) [
        | inl gone ↦ rw (t.elem-keys s.0 k, gone) refl
        | inr (m, at) ↦ rw (t.elem-keys s.0 k, at) refl
      ]

  -- With the mature heap `ParHeap` and at least one thread, and in whatever order the jobs of its
  -- mark phase take turns: a new object whose count is positive, which a major collection moves into
  -- the mature heap (its vtable pointer fits a word), is not in the mature heap afterwards. The
  -- collection has removed it, although it is rooted.
  pub major_collection-removes :
      (y : YoungHeap t trace heaps logger) (schedule : List ℕ) (k : ℕ) (m : RootMeta)
      → 0 < threads
      → t.get y.roots k ≡ some m
      → 0 < m.refcount
      → is_new m ≡ true
      → m.vtable < 2 ^ 64
      → h.get (mature_objects (major_collection t trace heaps logger y schedule).mature_heap) k
        ≡ none
  unfolding mature_objects major_collection par_heap held unsync_is_unrooted
  major_collection-removes y schedule k m pos at count new_object fits =
      let moving : moves m ≡ true = ground arith in
      let s = after_moves (y.roots, y.mature_heap) in
      let put_in : h.get s.1 k ≡ some (new (root_vtable m)) =
        ap (λ v. v.1) (held-moves (y.roots, y.mature_heap) k) ∙ rw (at, moving) refl in
      collect_unmarked t h trace s.1 s.0 threads schedule k pos
      ∙ ap swept put_in
      ∙ rw (new-unmarked m fits) refl
