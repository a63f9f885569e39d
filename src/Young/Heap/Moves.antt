-- ===== src/Young/Heap/Moves.antt =====
-- What a major collection does to the balance of the counts with the roots of the application, and
-- what the young heap relies on in a mature heap for that.
use mathlib.Core.List.{foldl}
use mo_gc.Common.{
  ℕ, ◌<◌, ◌≡◌, ◌⊎◌, refl, sym, ap, ◌∙◌, subst, inl, inr, Bool, true, false, not, ◌&&◌, Option, none,
  some, List, ◌==◌, if◌then◌else◌, arith, Bool-cases, Option-cases, ==_iff,
}
use mathlib.Core.Option.{some-injective}
use mo_gc.Heap.Object.{TraitObject}
use mo_gc.Heap.RootMeta.{RootMeta, is_new, unsync_is_unrooted, set_not_new, mark_and_needs_trace}
use mo_gc.Heap.RootMeta.View.{
  IsValid, marked_of, mark-IsValid, is_new-mark, refcount-mark, set_not_new-IsValid,
  view-set_not_new, is_new-view,
}
use mo_gc.Statistics.{StatsLogger}
use mo_gc.Trie.{Trie}
use mo_gc.Trie.Fold.{foldl-Passes}
use mo_gc.Young.Balance.{IsBalanced}
use mo_gc.Young.Heap.Balance.{IsChange, changed-IsBalanced, counted-unsync_is_unrooted}
use mo_gc.Young.Heap.{CollectOps, YoungHeap, move_at, move_key, major_collection}

refcount-set_not_new : (m : RootMeta) → (set_not_new m).refcount ≡ m.refcount
unfolding set_not_new
refcount-set_not_new m = refl

-- The count of an entry, if there is one.
abbrev pub count_of : Option RootMeta → Option ℕ
count_of none = none
count_of (some m) = some m.refcount

-- What the mature heap may do to an entry of the roots: mark it, if its count is positive.
abbrev pub IsMarkedRoot : Option RootMeta → Option RootMeta → Type 0
IsMarkedRoot o o' =
    (o' ≡ o)
    ⊎ ((m : RootMeta) × (o ≡ some m) × (o' ≡ some (mark_and_needs_trace m).0) × (0 < m.refcount))

-- What the young heap relies on in a mature heap.
pub record MarksRoots (t : Trie RootMeta) (mature : CollectOps t) : Type 0 where
  pub marks :
      (heap : mature.Heap) (roots : t.Map) (schedule : List ℕ) (k : ℕ)
      → IsMarkedRoot (t.get roots k) (t.get (mature.collect heap roots schedule).roots k)

module _ (t : Trie RootMeta) (trace : TraitObject → List TraitObject) (mature : CollectOps t)
    {Time : Type 0} (logger : StatsLogger Time) where
  -- Whether an entry's object moves, and what the roots hold at its key afterwards.
  abbrev pub moves : RootMeta → Bool
  moves m = not (unsync_is_unrooted m) && is_new m

  abbrev pub moved : Option RootMeta → Option RootMeta
  moved none = none
  moved (some m) = if moves m then some (set_not_new m) else some m

  abbrev State : Type 0
  State = t.Map × mature.Heap

  held : State → ℕ → Option RootMeta
  held s k = t.get s.0 k

  held-move_at :
      (s : State) (j k : ℕ) (o : Option RootMeta)
      → t.get s.0 j ≡ o
      → held (move_at t trace mature logger s j o) k ≡ (if k == j then moved o else held s k)
  unfolding held move_at
  held-move_at s j k none e = elim (Bool-cases (k == j)) [
    | inl here ↦ rw (here, (==_iff k j).0 here, e) refl
    | inr other ↦ rw other refl
  ]
  held-move_at s j k (some m) e = elim (Bool-cases (moves m)) [
    | inl moving ↦ rw (moving, t.get-set) refl
    | inr staying ↦ elim (Bool-cases (k == j)) [
      | inl here ↦ rw (staying, here, (==_iff k j).0 here, e) refl
      | inr other ↦ rw (staying, other) refl
    ]
  ]

  held-move_key :
      (s : State) (j k : ℕ)
      → held (move_key t trace mature logger s j) k
        ≡ (if k == j then moved (held s j) else held s k)
  unfolding held move_key
  held-move_key s j k = held-move_at s j k (t.get s.0 j) refl

  abbrev after_moves : State → State
  after_moves s = foldl (move_key t trace mature logger) s (t.keys s.0)

  get-moves : (s : State) (k : ℕ) → t.get (after_moves s).0 k ≡ moved (t.get s.0 k)
  unfolding held
  get-moves s k =
      foldl-Passes held moved (move_key t trace mature logger) held-move_key s (t.keys s.0) k
        (t.keys-Distinct s.0)
      ∙ elim (Option-cases (t.get s.0 k)) [
        | inl gone ↦ rw (t.elem-keys s.0 k, gone) refl
        | inr (m, at) ↦ rw (t.elem-keys s.0 k, at) refl
      ]

  moved-IsChange :
      (m : RootMeta)
      → IsValid m
      → (marked_of m.flags ≡ true → is_new m ≡ false)
      → (m' : RootMeta) × (moved (some m) ≡ some m')
        × IsChange t trace mature logger m m'
        × (0 < m.refcount → is_new m' ≡ false)
  moved-IsChange m v clean = elim (Bool-cases (moves m)) [
    | inl moving ↦
        let old : is_new (set_not_new m) ≡ false =
          ground (arith, is_new-view (set_not_new m), view-set_not_new m v) in
        (
          set_not_new m,
          rw moving refl,
          record {
            count = refcount-set_not_new m;
            valid = set_not_new-IsValid m v;
            clean = λ _. old;
          },
          λ _. old,
        )
    | inr staying ↦ (
      m,
      rw staying refl,
      record { count = refl; valid = v; clean = clean },
      λ count. let rooted = counted-unsync_is_unrooted m count in ground arith,
    )
  ]

  mark-IsChange :
      (m : RootMeta)
      → IsValid m
      → is_new m ≡ false
      → IsChange t trace mature logger m (mark_and_needs_trace m).0
  mark-IsChange m v old = record {
    count = refcount-mark m;
    valid = mark-IsValid m v;
    clean = λ _. is_new-mark m ∙ old;
  }

  module _ (lawful : MarksRoots t mature) (y : YoungHeap t trace mature logger)
      (schedule : List ℕ) where
    abbrev y' : YoungHeap t trace mature logger
    y' = major_collection t trace mature logger y schedule

    abbrev before_mark : State
    before_mark = after_moves (y.roots, y.mature_heap)

    marked : (k : ℕ) → IsMarkedRoot (moved (t.get y.roots k)) (t.get y'.roots k)
    unfolding major_collection
    marked k =
        subst (λ o. IsMarkedRoot o (t.get y'.roots k)) (get-moves (y.roots, y.mature_heap) k)
          (lawful.marks before_mark.1 before_mark.0 schedule k)

    absent : (k : ℕ) → t.get y.roots k ≡ none → t.get y'.roots k ≡ none
    absent k gone = elim (marked k) [
      | inl same ↦ same ∙ ap moved gone
      | inr (m, e, e', count) ↦ let bad = sym (ap moved gone) ∙ e in cc
    ]

    changed :
        (k : ℕ) (m : RootMeta)
        → t.get y.roots k ≡ some m
        → IsValid m
        → (marked_of m.flags ≡ true → is_new m ≡ false)
        → (m' : RootMeta) × (t.get y'.roots k ≡ some m') × IsChange t trace mature logger m m'
    changed k m at valid clean =
        let (m1, e1, c, old) = moved-IsChange m valid clean in
        elim (marked k) [
          | inl same ↦ (m1, same ∙ ap moved at ∙ e1, c)
          | inr (m2, e, e', count) ↦
              let eq : m1 ≡ m2 = some-injective _ _ (sym e1 ∙ sym (ap moved at) ∙ e) in
              let count1 : 0 < m.refcount =
                subst (λ n. 0 < n) (ap (λ m. m.refcount) (sym eq) ∙ c.count) count in
              let d = mark-IsChange m1 c.valid (old count1) in
              (
                (mark_and_needs_trace m1).0,
                e' ∙ ap (λ m. some (mark_and_needs_trace m).0) (sym eq),
                record { count = d.count ∙ c.count; valid = d.valid; clean = d.clean },
              )
        ]

    -- With a mature heap that does no more to the roots than to mark entries whose count is
    -- positive, a major collection keeps the counts in balance with the roots of the application.
    -- No entry comes or goes, and no count changes; no new object is marked. The decrements put
    -- off, the journals and the number of threads stay.
    pub major_collection-IsBalanced :
        (live : ℕ → ℕ)
        → IsBalanced t y.roots y.deferred live
        → IsBalanced t y'.roots y'.deferred live
          × ((k : ℕ) → count_of (t.get y'.roots k) ≡ count_of (t.get y.roots k))
          × (y'.deferred ≡ y.deferred)
          × (y'.num_threads ≡ y.num_threads)
          × (y'.journals ≡ y.journals)
    unfolding major_collection
    major_collection-IsBalanced live b = (
      changed-IsBalanced t trace mature logger y.roots y'.roots y.deferred live b absent
          (λ k m at. changed k m at (b.ready.valid k m at) (b.ready.clean k m at)),
      λ k. elim (Option-cases (t.get y.roots k)) [
        | inl gone ↦ ap count_of (absent k gone) ∙ sym (ap count_of gone)
        | inr (m, at) ↦
            let (m', at', c) = changed k m at (b.ready.valid k m at) (b.ready.clean k m at) in
            ap count_of at' ∙ ap some c.count ∙ sym (ap count_of at)
      ],
      refl,
      refl,
      refl,
    )
