-- ===== src/Young/Mark/Commit.antt =====
-- The step of a job that marks an entry and, where it needs tracing, looks into it.
use mathlib.Core.List.{map}
use mo_gc.Common.{
  ℕ, ◌*◌, ◌<◌, ◌^◌, ◌≡◌, refl, sym, ap, ◌∙◌, subst, ◌⊎◌, inl, inr, Bool, true, false, ◌||◌, ◌&&◌,
  some, List, ◌==◌, if◌then◌else◌, elem, arith, Bool-cases, ==_iff,
}
use mo_gc.Heap.Object.{TraitObject, Object, key_of, into}
use mo_gc.Heap.RootMeta.{RootMeta, is_new, mark_and_needs_trace}
use mo_gc.Heap.RootMeta.View.{marked_of, view-mark, needs_trace-view, is_new-view}
use mo_gc.Heap.TraceStack.{TraceStack}
use mathlib.Core.Option.{some-injective}
use mo_gc.Trie.{Trie}
use mo_gc.Young.Mark.{Job, Pending, job, trace_into, commit}
use mo_gc.Young.Mark.Reach.{kid_keys, ByAddress, Reach, child, marked_at, root_at, stack_keys, busy}
use mo_gc.Young.Mark.Step.{elem-stack_keys, Evolves, same, hit, IsRead, StepOk, JobOk, marked_twice}

elem-trace_into :
    (trace : TraitObject → List TraitObject) (by : ByAddress trace) (obj : Object) (s : TraceStack)
    (i k : ℕ)
    → key_of obj.ptr ≡ k
    → elem i (stack_keys (trace_into trace obj s).stack)
      ≡ (elem i (kid_keys trace k) || elem i (stack_keys s.stack))
unfolding trace_into into
elem-trace_into trace by obj s i k e =
    elem-stack_keys i (trace (into obj)) s
    ∙ ap
        (λ cs.
          elem i (map (λ (c : TraitObject). key_of c.data_ptr) cs) || elem i (stack_keys s.stack))
        (by (into obj) (record { data_ptr = 8 * k; vtable = 0 }) (omega arith))

module _ (t : Trie RootMeta) (trace : TraitObject → List TraitObject) (by : ByAddress trace)
    (r0 : t.Map)
    (clean : (k : ℕ) (m : RootMeta)
      → t.get r0 k ≡ some m
      → marked_of m.flags ≡ true
      → is_new m ≡ false)
    (short : (k : ℕ) (m : RootMeta) → t.get r0 k ≡ some m → k < 2 ^ 61) where
  open t use {Map, get, set, get-set}

  module _ (r : Map) (todo : List ℕ) (stack : List Object) (p : Pending)
      (ev : (k : ℕ) → Evolves t trace by r0 clean short r k)
      (ok : JobOk t trace by r0 clean short r (job todo (record { stack = stack }) (some p)))
      (rd : IsRead t trace by r0 clean short r p) where
    abbrev pub before : Job
    before = job todo (record { stack = stack }) (some p)

    abbrev pub after : Job
    after = (commit t trace r todo (record { stack = stack }) p).1

    abbrev pub r' : Map
    r' = (commit t trace r todo (record { stack = stack }) p).0

    get-after :
        (k : ℕ) → get r' k ≡ (if k == p.key then some (mark_and_needs_trace p.meta).0 else get r k)
    unfolding commit
    get-after k = get-set r p.key (mark_and_needs_trace p.meta).0 k

    as_marked : (mark_and_needs_trace p.meta).0 ≡ (mark_and_needs_trace rd.entry).0
    as_marked = elim rd.read [
      | inl e ↦ ap (λ m. (mark_and_needs_trace m).0) e
      | inr (e, _) ↦
          ap (λ m. (mark_and_needs_trace m).0) e ∙ marked_twice t trace by r0 clean short rd.entry
    ]

    needs : Bool
    needs = (mark_and_needs_trace p.meta).1

    -- Of an entry that is traced the job had read the unmarked flags.
    needs→new : needs ≡ true → is_new rd.entry ≡ true
    unfolding needs
    needs→new h = elim rd.read [
      | inl e ↦ ground (arith, needs_trace-view p.meta, is_new-view rd.entry)
      | inr (e, _) ↦
          ground (arith, needs_trace-view p.meta, is_new-view rd.entry, view-mark rd.entry)
    ]

    elem-after :
        (i : ℕ)
        → elem i (stack_keys after.stack.stack)
          ≡ ((needs && elem i (kid_keys trace p.key)) || elem i (stack_keys stack))
    unfolding commit needs
    elem-after i = elim (Bool-cases (mark_and_needs_trace p.meta).1) [
      | inl traces ↦
          rw traces (elem-trace_into trace by p.obj (record { stack = stack }) i p.key rd.address)
      | inr skips ↦ rw skips
    ]

    marked-after : (k : ℕ) → k ≡ p.key → marked_at t r' k ≡ true
    marked-after k e =
        rw (get-after k, (==_iff k p.key).1 e, marked_at) (ground (arith, view-mark p.meta))

    elsewhere : (k : ℕ) → (k == p.key) ≡ false → get r' k ≡ get r k
    elsewhere k ne = rw (get-after k, ne)

    mono : (k : ℕ) → marked_at t r k ≡ true → marked_at t r' k ≡ true
    mono k h = elim (Bool-cases (k == p.key)) [
      | inl here ↦ marked-after k ((==_iff k p.key).0 here)
      | inr other ↦ rw (elsewhere k other, marked_at) h
    ]

    evolves : (k : ℕ) → Evolves t trace by r0 clean short r' k
    evolves k = elim (Bool-cases (k == p.key)) [
      | inl here ↦
          let e = (==_iff k p.key).0 here in
          hit (ap (get r0) e ∙ rd.found) (rw (get-after k, here) (ap some as_marked))
            (subst (Reach t trace r0) (sym e) rd.reach)
      | inr other ↦ elim (ev k) [
        | same e ↦ same (elsewhere k other ∙ e)
        | hit found marked reach ↦ hit found (elsewhere k other ∙ marked) reach
      ]
    ]

    stacked :
        (k : ℕ) (m : RootMeta)
        → elem k (stack_keys after.stack.stack) ≡ true
        → get r0 k ≡ some m
        → Reach t trace r0 k
    stacked k m h at = elim (Bool-cases (needs && elem k (kid_keys trace p.key))) [
      | inl kid ↦ child rd.reach rd.found (needs→new (ground arith)) (ground arith) at
      | inr other ↦ ok.stacked k m (ground (arith, elem-after k)) at
    ]

    busy-after :
        (k : ℕ)
        → busy t r0 after k
          ≡ (elem k (stack_keys after.stack.stack) || (elem k todo && root_at t r0 k))
    unfolding commit
    busy-after k = refl

    keeps :
        (k : ℕ) (m : RootMeta)
        → get r0 k ≡ some m
        → busy t r0 before k ≡ true
        → (busy t r0 after k ≡ true) ⊎ (marked_at t r' k ≡ true)
    keeps k m at h = elim (Bool-cases (k == p.key)) [
      | inl here ↦ inr (marked-after k ((==_iff k p.key).0 here))
      | inr other ↦ inl (ground (arith, busy-after k, elem-after k))
    ]

    -- An entry that was not marked before was read unmarked, so a new one is looked into.
    traces :
        (m : RootMeta)
        → get r0 p.key ≡ some m
        → marked_at t r p.key ≡ false
        → is_new m ≡ true
        → needs ≡ true
    unfolding needs
    traces m at not_yet new = elim rd.read [
      | inl e ↦
          let eq : p.meta ≡ m = e ∙ some-injective _ _ (sym rd.found ∙ at) in
          let unmarked : marked_of m.flags ≡ false = elim (Bool-cases (marked_of m.flags)) [
            | inl already ↦ cc (clean p.key m at already)
            | inr not_yet ↦ not_yet
          ] in
          ground (arith, eq, unmarked, needs_trace-view p.meta, is_new-view m)
      | inr (e, already) ↦ cc
    ]

    traced :
        (k i : ℕ) (m : RootMeta)
        → get r0 k ≡ some m
        → marked_at t r k ≡ false
        → marked_at t r' k ≡ true
        → is_new m ≡ true
        → elem i (kid_keys trace k) ≡ true
        → busy t r0 after i ≡ true
    traced k i m at not_yet now new kid = elim (Bool-cases (k == p.key)) [
      | inl here ↦
          let e = (==_iff k p.key).0 here in
          let at' : get r0 p.key ≡ some m = subst (λ k. get r0 k ≡ some m) e at in
          let unmarked : marked_at t r p.key ≡ false =
            subst (λ k. marked_at t r k ≡ false) e not_yet in
          let kid' : elem i (kid_keys trace p.key) ≡ true =
            subst (λ k. elem i (kid_keys trace k) ≡ true) e kid in
          ground (arith, busy-after i, elem-after i, traces m at' unmarked new, kid')
      | inr other ↦ let back = rw (elsewhere k other, marked_at) at now in cc
    ]

    pub commit-StepOk : StepOk t trace by r0 clean short r r' before after
    unfolding commit
    commit-StepOk = record {
      mono = mono;
      evolves = evolves;
      stacked = stacked;
      read = λ q h. cc;
      keeps = keeps;
      traced = traced;
    }
