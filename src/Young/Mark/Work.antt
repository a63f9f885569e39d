-- ===== src/Young/Mark/Work.antt =====
-- The work that is left to a job of the mark phase: every turn of its own uses some up.
use mathlib.Core.List.{foldl, map}
use mo_gc.Common.{
  ℕ, suc, ◌+◌, ◌*◌, ◌≤◌, ◌≡◌, refl, ap, subst, inl, inr, Bool, true, false, not, ◌||◌, ◌&&◌, Option,
  none, some, List, [], ◌∷◌, ◌==◌, if◌then◌else◌, elem, arith, Bool-cases, ==_iff, length,
}
use mo_gc.Heap.Object.{TraitObject, Object, key_of, into, from_trie_ptr}
use mo_gc.Heap.RootMeta.{RootMeta, mark_and_needs_trace, vtable as vtable_of}
use mo_gc.Heap.RootMeta.View.{marked_of, needs_trace-view, view-mark}
use mo_gc.Heap.TraceStack.{TraceStack, push_to_trace}
use mo_gc.Trie.{Trie}
use mo_gc.Young.Mark.{
  Job, Pending, job, is_root, is_finished, found_object, found_root, trace_into, commit, visit,
  scan, step_on,
}
use mo_gc.Young.Mark.Reach.{kid_keys, ByAddress, marked_at}

-- The sum of a weight over keys.
abbrev pub sum_over : (ℕ → ℕ) → List ℕ → ℕ
sum_over w [] = 0
sum_over w (k ∷ ks) = w k + sum_over w ks

pub sum_over-le :
    (w w' : ℕ → ℕ) (ks : List ℕ) → ((k : ℕ) → w' k ≤ w k) → sum_over w' ks ≤ sum_over w ks
sum_over-le w w' [] le = omega arith
sum_over-le w w' (k ∷ ks) le = omega (arith, le k, sum_over-le w w' ks le)

sum_over-drop :
    (w w' : ℕ → ℕ) (ks : List ℕ) (j d : ℕ)
    → ((k : ℕ) → w' k ≤ w k)
    → elem j ks ≡ true
    → w' j + d ≤ w j
    → sum_over w' ks + d ≤ sum_over w ks
sum_over-drop w w' [] j d le h drop = cc
sum_over-drop w w' (k ∷ ks) j d le h drop = elim (Bool-cases (j == k)) [
  | inl here ↦
      let e = (==_iff j k).0 here in
      let drop' = subst (λ j. w' j + d ≤ w j) e drop in omega (arith, drop', sum_over-le w w' ks le)
  | inr later ↦ omega (arith, le k, sum_over-drop w w' ks j d le (ground arith) drop)
]

length-foldl_push :
    (cs : List TraitObject) (s : TraceStack)
    → length (foldl push_to_trace s cs).stack ≡ length s.stack + length cs
unfolding push_to_trace
length-foldl_push [] s = omega arith
length-foldl_push (c ∷ cs) s = omega (arith, length-foldl_push cs (push_to_trace s c))

length-map_key : (f : TraitObject → ℕ) (cs : List TraitObject) → length (map f cs) ≡ length cs
length-map_key f [] = refl
length-map_key f (c ∷ cs) = ap suc (length-map_key f cs)

module _ (t : Trie RootMeta) (trace : TraitObject → List TraitObject) (by : ByAddress trace) where
  open t use {Map, get, set, get-set}

  length-trace_into :
      (obj : Object) (s : TraceStack) (k : ℕ)
      → key_of obj.ptr ≡ k
      → length (trace_into trace obj s).stack ≡ length s.stack + length (kid_keys trace k)
  unfolding trace_into into
  length-trace_into obj s k e = omega (
    arith,
    length-foldl_push (trace (into obj)) s,
    length-map_key (λ c. key_of c.data_ptr) (trace (record { data_ptr = 8 * k; vtable = 0 })),
    ap (λ (cs : List TraitObject). length cs)
        (by (into obj) (record { data_ptr = 8 * k; vtable = 0 }) (omega arith)),
  )

  -- The entry whose unmarked flags the job has read: it will be looked into.
  abbrev pub will_trace : Option Pending → ℕ → Bool
  will_trace none k = false
  will_trace (some p) k = not (marked_of p.meta.flags) && k == p.key

  -- What an entry that may still be found unmarked by the job can cost it.
  abbrev pub cost : Map → Option Pending → ℕ → ℕ
  cost r q k = if marked_at t r k || will_trace q k then 0 else 2 * length (kid_keys trace k)

  abbrev pub pending_cost : Option Pending → ℕ
  pending_cost none = 0
  pending_cost (some p) =
      if marked_of p.meta.flags then 1 else 1 + 2 * length (kid_keys trace p.key)

  -- The turns that a job can still take.
  unfoldable pub work_on : List ℕ → Map → List ℕ → List Object → Option Pending → ℕ
  work_on ks r todo stack q =
      sum_over (cost r q) ks + (pending_cost q + (2 * length stack + 2 * length todo))

  pub marked_at-set :
      (r : Map) (p : Pending) (k : ℕ)
      → marked_at t (set r p.key (mark_and_needs_trace p.meta).0) k
        ≡ ((k == p.key) || marked_at t r k)
  marked_at-set r p k = elim (Bool-cases (k == p.key)) [
    | inl here ↦ rw (get-set, here, marked_at) (ground (arith, view-mark p.meta))
    | inr other ↦ rw (get-set, other, marked_at)
  ]

  -- Every entry has its key in the list.
  abbrev pub Covers : List ℕ → Map → Type 0
  Covers ks r = (k : ℕ) (m : RootMeta) → get r k ≡ some m → elem k ks ≡ true

  abbrev pub IsKnown : List ℕ → Option Pending → Type 0
  IsKnown ks none = Unit
  IsKnown ks (some p) = (key_of p.obj.ptr ≡ p.key) × (elem p.key ks ≡ true)

  commit-work :
      (ks : List ℕ) (r : Map) (todo : List ℕ) (stack : List Object) (p : Pending)
      → IsKnown ks (some p)
      → let out = commit t trace r todo (record { stack = stack }) p in
        work_on ks out.0 out.1.todo out.1.stack.stack out.1.pending + 1
        ≤ work_on ks r todo stack (some p)
  unfolding commit work_on
  commit-work ks r todo stack p (address, known) =
      let r' = set r p.key (mark_and_needs_trace p.meta).0 in
      let costs =
        sum_over-le (cost r (some p)) (cost r' none) ks
          (λ k. ground (arith, marked_at-set r p k)) in
      ground (
        arith,
        costs,
        needs_trace-view p.meta,
        length-trace_into p.obj (record { stack = stack }) p.key address,
      )

  -- Reading an entry moves what it can cost from the map to the job.
  pub found-cost :
      (ks : List ℕ) (r : Map) (p : Pending)
      → get r p.key ≡ some p.meta
      → Covers ks r
      → sum_over (cost r (some p)) ks + pending_cost (some p) ≤ sum_over (cost r none) ks + 1
  found-cost ks r p e covers = elim (Bool-cases (marked_of p.meta.flags)) [
    | inl marked ↦
        let costs = sum_over-le (cost r none) (cost r (some p)) ks (λ j. ground arith) in
        rw marked (omega (arith, costs))
    | inr unmarked ↦
        let clear : marked_at t r p.key ≡ false = rw (e, marked_at) unmarked in
        let costs =
          sum_over-drop (cost r none) (cost r (some p)) ks p.key (2 * length (kid_keys trace p.key))
            (λ j. ground arith) (covers p.key p.meta e) (ground (arith, clear)) in
        rw unmarked (omega (arith, costs))
  ]

  visit-work :
      (ks : List ℕ) (r : Map) (todo : List ℕ) (obj : Object) (rest : List Object)
      (o : Option RootMeta)
      → get r (key_of obj.ptr) ≡ o
      → Covers ks r
      → work_on ks r todo rest (found_object obj o) + 1 ≤ work_on ks r todo (obj ∷ rest) none
  unfolding work_on
  visit-work ks r todo obj rest none e covers = omega arith
  visit-work ks r todo obj rest (some m) e covers =
      omega (arith, found-cost ks r (record { key = key_of obj.ptr; meta = m; obj = obj }) e covers)

  scan-work :
      (ks : List ℕ) (r : Map) (k : ℕ) (rest : List ℕ) (o : Option RootMeta)
      → get r k ≡ o
      → Covers ks r
      → work_on ks r rest [] (found_root k o) + 1 ≤ work_on ks r (k ∷ rest) [] none
  unfolding work_on found_root
  scan-work ks r k rest none e covers = omega arith
  scan-work ks r k rest (some m) e covers = elim (Bool-cases (is_root m)) [
    | inl yes_root ↦ rw yes_root (
        omega (
          arith,
          found-cost ks r (record { key = k; meta = m; obj = from_trie_ptr k (vtable_of m) }) e
              covers,
        ))
    | inr not_root ↦ rw not_root (omega arith)
  ]

  unfoldable pub work : List ℕ → Map → Job → ℕ
  unfolding work_on
  work ks r j = work_on ks r j.todo j.stack.stack j.pending

  -- A turn of a job that has not finished uses up some of its work.
  pub step_on-work :
      (ks : List ℕ) (r : Map) (todo : List ℕ) (stack : List Object) (q : Option Pending)
      → Covers ks r
      → IsKnown ks q
      → is_finished (job todo (record { stack = stack }) q) ≡ false
      → work ks (step_on t trace r todo stack q).0 (step_on t trace r todo stack q).1 + 1
        ≤ work_on ks r todo stack q
  unfolding step_on work visit scan is_finished
  step_on-work ks r todo stack (some p) covers known going = commit-work ks r todo stack p known
  step_on-work ks r todo (obj ∷ rest) none covers known going =
      visit-work ks r todo obj rest _ refl covers
  step_on-work ks r (k ∷ rest) [] none covers known going = scan-work ks r k rest _ refl covers
  step_on-work ks r [] [] none covers known going = cc
