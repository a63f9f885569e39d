-- ===== src/Young/Minor.antt =====
-- src/youngheap.rs: the mark phase and the sweep, one after the other, as `minor_collection` runs
-- them.
use mo_gc.Common.{
  ℕ, ◌<◌, ◌+◌, ◌^◌, ◌≡◌, ◌↔◌, refl, sym, ap, ◌∙◌, inl, inr, ◌⊎◌, Bool, true, false, not, ◌&&◌, none,
  some, List, if◌then◌else◌, elem, arith, Bool-cases, Option-cases,
}
use mo_gc.Common.Bits.{and-not_one, and-one, or-one}
use mo_gc.Heap.Object.{TraitObject}
use mo_gc.Heap.RootMeta.{
  RootMeta, is_new, is_new_and_unmarked, unsync_is_unrooted, mark_and_needs_trace, unmark,
}
use mo_gc.Heap.RootMeta.View.{
  IsValid, marked_of, is_new-view, is_new_and_unmarked-view, view-mark, is_new-mark, refcount-mark,
  mark-again, view-unmark, unmark-IsValid,
}
use mathlib.Core.Option.{some-injective}
use mo_gc.Trie.{Trie}
use mo_gc.Young.Mark.{is_root, run, start}
use mo_gc.Young.Mark.Reach.{ByAddress, Reach, root, marked_at}
use mo_gc.Young.Mark.Correct.{Finished, mark_correct, mark-none}
use mo_gc.Young.Sweep.{Fate, retained, dropped, removed, fate, Sweep, sweep}
use mo_gc.Young.Sweep.Entry.{kept as kept_of, swept, is_doomed, get-sweep}
use mo_gc.Young.Sweep.Drops.{drop_keys, elem-sweep}

-- What a mark that was set and taken away again leaves.
unmark-mark : (m : RootMeta) → IsValid m → unmark (mark_and_needs_trace m).0 ≡ unmark m
unfolding unmark mark_and_needs_trace
unmark-mark m v =
    ground (arith, and-one m.flags, or-one m.flags, and-not_one m.flags, and-not_one (m.flags + 1))

fate-marked :
    (m : RootMeta)
    → IsValid m
    → fate (mark_and_needs_trace m).0
      ≡ (if not (is_new m) && unsync_is_unrooted m then removed else retained (unmark m))
unfolding fate unsync_is_unrooted
fate-marked m v =
    let new : is_new_and_unmarked (mark_and_needs_trace m).0 ≡ false =
      ground (arith, is_new_and_unmarked-view (mark_and_needs_trace m).0, view-mark m) in
    let unrooted : unsync_is_unrooted (mark_and_needs_trace m).0 ≡ unsync_is_unrooted m =
      rw (refcount-mark m) in
    rw (new, is_new-mark m, unrooted, unmark-mark m v)

fate-unmarked : (m : RootMeta) → marked_of m.flags ≡ false → is_new m ≡ true → fate m ≡ dropped
unfolding fate
fate-unmarked m h new =
    let doomed : is_new_and_unmarked m ≡ true =
      ground (arith, is_new_and_unmarked-view m, is_new-view m) in
    rw doomed

swept-fate : (m : RootMeta) (f : Fate) → fate m ≡ f → swept (some m) ≡ kept_of f
swept-fate m f e = ap kept_of e

is_doomed-fate :
    (m : RootMeta) (f : Fate)
    → fate m ≡ f
    → is_doomed (some m) ≡ elim f [ dropped ↦ true | _ ↦ false ]
is_doomed-fate m f e = ap (λ f. elim f [ dropped ↦ true | _ ↦ false ]) e

-- Between two collections: the keys are keys of addresses, the flags are valid, and no new object
-- is marked. A major collection leaves marks on the other entries.
pub record IsReady (t : Trie RootMeta) (r : t.Map) : Type 0 where
  pub short : (k : ℕ) (m : RootMeta) → t.get r k ≡ some m → k < 2 ^ 61
  pub valid : (k : ℕ) (m : RootMeta) → t.get r k ≡ some m → IsValid m
  pub clean :
      (k : ℕ) (m : RootMeta) → t.get r k ≡ some m → marked_of m.flags ≡ true → is_new m ≡ false

module _ (t : Trie RootMeta) (trace : TraitObject → List TraitObject) where
  -- The mark phase with this schedule, and then the sweep.
  unfoldable pub mark_and_sweep : t.Map → ℕ → List ℕ → Sweep t
  mark_and_sweep r num_threads schedule =
      sweep t (run t trace (start t trace r num_threads) schedule).roots num_threads

  -- The destructor of the object at the key was run.
  abbrev pub is_dropped : Sweep t → ℕ → Bool
  is_dropped s k = elem k (drop_keys s.drops)

  -- What a collection owes to an entry.
  pub record Collected (r : t.Map) (s : Sweep t) (k : ℕ) (m : RootMeta) : Type 0 where
    -- An object is destroyed if and only if it is new and out of reach.
    pub destroyed : (is_dropped s k ≡ true) ↔ ((is_new m ≡ true) × ¬ Reach t trace r k)
    -- The entry of an object that is destroyed is gone.
    pub gone : is_dropped s k ≡ true → t.get s.roots k ≡ none
    -- A new object that is not destroyed keeps its entry, without a mark.
    pub kept : is_new m ≡ true → is_dropped s k ≡ false → t.get s.roots k ≡ some (unmark m)
    -- An entry that is not new stays while it has a reference, and goes without one.
    pub old :
        is_new m ≡ false
        → t.get s.roots k ≡ (if unsync_is_unrooted m then none else some (unmark m))

  module _ (by : ByAddress trace) (r : t.Map) (ready : IsReady t r) (num_threads : ℕ)
      (schedule : List ℕ) (pos : 0 < num_threads)
      (done : Finished (run t trace (start t trace r num_threads) schedule)) where
    abbrev marked : t.Map
    marked = (run t trace (start t trace r num_threads) schedule).roots

    not_new-Reach :
        (k : ℕ) (m : RootMeta) → t.get r k ≡ some m → is_new m ≡ false → Reach t trace r k
    unfolding is_root
    not_new-Reach k m at old = root at (ground arith)

    -- What the mark phase leaves of an entry: its mark tells whether it is reachable.
    data Found (k : ℕ) (m : RootMeta) : Type 0 where
      reached : t.get marked k ≡ some (mark_and_needs_trace m).0 → Reach t trace r k → Found k m
      missed : t.get marked k ≡ some m → marked_of m.flags ≡ false → ¬ Reach t trace r k → Found k m

    found : (k : ℕ) (m : RootMeta) → t.get r k ≡ some m → Found k m
    found k m at =
        let (iff, entry) =
          mark_correct t trace by r ready.clean ready.short num_threads schedule k m pos done at in
        elim entry [
          | inl same ↦ elim (Bool-cases (marked_of m.flags)) [
            | inl before ↦
                reached (rw (mark-again m before) same) (iff.0 (rw (marked_at, same) before))
            | inr not_yet ↦
                missed same not_yet (λ reach. let bad = rw (same, marked_at) at iff.1 reach in cc)
          ]
          | inr hit ↦
              let now : marked_of (mark_and_needs_trace m).0.flags ≡ true =
                ground (arith, view-mark m) in
              reached hit (iff.0 (rw (marked_at, hit, now)))
        ]

    marked-short : (k : ℕ) (m : RootMeta) → t.get marked k ≡ some m → k < 2 ^ 61
    marked-short k m h = elim (Option-cases (t.get r k)) [
      | inl gone ↦
          let none_left =
            mark-none t trace by r ready.clean ready.short num_threads schedule k pos gone in
          cc
      | inr (m0, at) ↦ ready.short k m0 at
    ]

    abbrev after : Sweep t
    after = mark_and_sweep r num_threads schedule

    get-after : (k : ℕ) → t.get after.roots k ≡ swept (t.get marked k)
    unfolding mark_and_sweep
    get-after k = get-sweep t marked num_threads k pos

    dropped-after : (k : ℕ) → is_dropped after k ≡ is_doomed (t.get marked k)
    unfolding mark_and_sweep
    dropped-after k = elem-sweep t marked num_threads k pos marked-short

    Collected-Found :
        (k : ℕ) (m : RootMeta) → t.get r k ≡ some m → Found k m → Collected r after k m
    Collected-Found k m at (reached now reach) =
        let v = ready.valid k m at in
        let f = fate-marked m v in
        let left = get-after k ∙ ap swept now ∙ swept-fate _ _ f in
        let drop = dropped-after k ∙ ap is_doomed now ∙ is_doomed-fate _ _ f in
        let safe : is_dropped after k ≡ false = drop ∙ ground arith in
        record {
          destroyed = (λ h. cc, λ h. absurd (h.1 reach));
          gone = λ h. cc;
          kept = λ new _. left ∙ rw new refl;
          old = λ old. left ∙ ground arith;
        }
    Collected-Found k m at (missed now not_yet out) = elim (Bool-cases (is_new m)) [
      | inl new ↦
          let f = fate-unmarked m not_yet new in
          let drop : is_dropped after k ≡ true =
            dropped-after k ∙ ap is_doomed now ∙ is_doomed-fate _ _ f in
          record {
            destroyed = (λ _. (new, out), λ _. drop);
            gone = λ _. get-after k ∙ ap swept now ∙ swept-fate _ _ f;
            kept = λ _ h. cc;
            old = λ h. cc;
          }
      | inr old ↦ absurd (out (not_new-Reach k m at old))
    ]

    -- What mark and sweep do to an entry of a map that is ready (valid entries, no new object
    -- marked, keys below 2 ^ 61), with at least one thread, where what an object traces depends
    -- on its address only, and whatever the order in which the jobs of the mark phase took turns
    -- until all had finished: an object is destroyed if and only if it is new and not reachable
    -- from the roots through new objects; the entries of the destroyed are gone, new objects in
    -- reach keep their entries, an entry that is not new stays if its count is positive and is
    -- removed otherwise, and what stays has its mark cleared.
    pub collect_garbage : (k : ℕ) (m : RootMeta) → t.get r k ≡ some m → Collected r after k m
    collect_garbage k m at = Collected-Found k m at (found k m at)

    after-none : (k : ℕ) → t.get r k ≡ none → t.get after.roots k ≡ none
    after-none k gone =
        get-after k
        ∙ ap swept (mark-none t trace by r ready.clean ready.short num_threads schedule k pos gone)

    Collected-entry :
        (k : ℕ) (m : RootMeta)
        → Collected r after k m
        → (t.get after.roots k ≡ none) ⊎ (t.get after.roots k ≡ some (unmark m))
    Collected-entry k m c = elim (Bool-cases (is_new m)) [
      | inl new ↦ elim (Bool-cases (is_dropped after k)) [
        | inl gone ↦ inl (c.gone gone)
        | inr there ↦ inr (c.kept new there)
      ]
      | inr old ↦ elim (Bool-cases (unsync_is_unrooted m)) [
        | inl unrooted ↦ inl (rw (c.old old, unrooted))
        | inr rooted ↦ inr (rw (c.old old, rooted))
      ]
    ]

    -- An entry of the map after a collection is one of the map before it, without its mark.
    pub after-entry :
        (k : ℕ) (m' : RootMeta)
        → t.get after.roots k ≡ some m'
        → (m : RootMeta) × (t.get r k ≡ some m) × (m' ≡ unmark m)
    after-entry k m' h = elim (Option-cases (t.get r k)) [
      | inl gone ↦ let none_left = after-none k gone in cc
      | inr (m0, at) ↦ elim (Collected-entry k m0 (collect_garbage k m0 at)) [
        | inl none_left ↦ cc
        | inr same ↦ (m0, at, some-injective _ _ (sym h ∙ same))
      ]
    ]

    -- Nothing is marked after a collection.
    pub after-unmarked :
        (k : ℕ) (m' : RootMeta) → t.get after.roots k ≡ some m' → marked_of m'.flags ≡ false
    after-unmarked k m' h =
        let (m, at, e) = after-entry k m' h in
        rw e (ap (λ v. v.marked) (view-unmark m (ready.valid k m at)))

    -- Under the same conditions (a ready map, a thread, tracing by address, all jobs of the
    -- mark phase finished) mark and sweep leave the map ready for the next collection: valid
    -- entries, no new object marked, keys below 2 ^ 61.
    pub collect-IsReady : IsReady t after.roots
    collect-IsReady = record {
      short = λ k m' h. let (m, at, e) = after-entry k m' h in ready.short k m at;
      valid = λ k m' h.
          let (m, at, e) = after-entry k m' h in rw e (unmark-IsValid m (ready.valid k m at));
      clean = λ k m' h marked. cc (after-unmarked k m' h);
    }
