-- ===== src/Mature/Collect.antt =====
-- What a collection does to the mature heap.
use mathlib.Core.List.{foldl}
use mo_gc.Common.{
  ℕ, ◌<◌, ◌≡◌, refl, sym, ap, ◌∙◌, subst, inl, inr, Option, none, some, List, [], ◌∷◌, ◌==◌,
  if◌then◌else◌, elem, Distinct, Bool-cases, Option-cases, ==_iff,
}
use mo_gc.Heap.Object.{TraitObject, Object, key_of}
use mo_gc.Heap.ObjectMeta.{ObjectMeta, is_marked, unmark}
use mo_gc.Heap.ObjectMeta.Mark.{mark-noop}
use mo_gc.Heap.RootMeta.{RootMeta, unsync_is_unrooted}
use mo_gc.Mature.{
  Pending, Job, found_object, Pool, mark_root, mark_object, step_on, turn, mark, Sweep, sweep_at,
  sweep_key, sweep_shard, sweep, collect,
}
use mo_gc.Trie.{Trie}
use mo_gc.Trie.Fold.{foldl-Passes, foldl-shards}

-- What the sweep leaves of an entry.
abbrev pub swept : Option ObjectMeta → Option ObjectMeta
swept none = none
swept (some meta) = if is_marked meta then some (unmark meta) else none

module _ (h : Trie ObjectMeta) where
  get-sweep_at :
      (s : Sweep h) (j k : ℕ) (o : Option ObjectMeta)
      → h.get s.objects j ≡ o
      → h.get (sweep_at h s j o).objects k ≡ (if k == j then swept o else h.get s.objects k)
  unfolding sweep_at
  get-sweep_at s j k none e = elim (Bool-cases (k == j)) [
    | inl here ↦ rw here (subst (λ k. h.get s.objects k ≡ none) (sym ((==_iff k j).0 here)) e)
    | inr other ↦ rw other
  ]
  get-sweep_at s j k (some meta) e = elim (Bool-cases (is_marked meta)) [
    | inl marked ↦ rw marked (h.get-set s.objects j (unmark meta) k)
    | inr unmarked ↦ rw unmarked (h.get-remove s.objects j k)
  ]

  pub get-sweep_key :
      (s : Sweep h) (j k : ℕ)
      → h.get (sweep_key h s j).objects k
        ≡ (if k == j then swept (h.get s.objects j) else h.get s.objects k)
  unfolding sweep_key
  get-sweep_key s j k = get-sweep_at s j k (h.get s.objects j) refl

  abbrev held : Sweep h → ℕ → Option ObjectMeta
  held s k = h.get s.objects k

  pub get-sweep_shard :
      (s : Sweep h) (ks : List ℕ) (k : ℕ)
      → Distinct ks
      → h.get (sweep_shard h s ks).objects k
        ≡ (if elem k ks then swept (h.get s.objects k) else h.get s.objects k)
  unfolding sweep_shard
  get-sweep_shard s ks k d =
      foldl-Passes held swept (sweep_key h) get-sweep_key
        (record s { heap_counter = 0; drop_counter = 0 }) ks k d

  -- With at least one thread, the sweep removes every unmarked object and unmarks the others.
  pub sweep-unmarked :
      (objects : h.Map) (num_threads k : ℕ)
      → 0 < num_threads
      → h.get (sweep h objects num_threads).objects k ≡ swept (h.get objects k)
  unfolding sweep
  sweep-unmarked objects num_threads k pos =
      foldl-shards held swept (sweep_shard h) get-sweep_shard (h.shards objects num_threads) _ k
        (h.shards-Distinct objects num_threads pos)
      ∙ elim (Option-cases (h.get objects k)) [
        | inl gone ↦ rw (h.elem-shards objects num_threads k pos, gone)
        | inr (m, at) ↦ rw (h.elem-shards objects num_threads k pos, at)
      ]

module _ (t : Trie RootMeta) (h : Trie ObjectMeta) (trace : TraitObject → List TraitObject)
    (objects : h.Map) where
  -- What a job has read of an object is what the map held at the start.
  abbrev IsRead : Option Pending → Type 0
  IsRead none = Unit
  IsRead (some p) = h.get objects p.key ≡ some p.meta

  abbrev Same : h.Map → Type 0
  Same now = (k : ℕ) → h.get now k ≡ h.get objects k

  record Kept (now : h.Map) (j : Job) : Type 0 where
    same : Same now
    read : IsRead j.pending

  found-IsRead :
      (obj : Object) (o : Option ObjectMeta)
      → h.get objects (key_of obj.ptr) ≡ o
      → IsRead (found_object obj o)
  found-IsRead obj none e = tt
  found-IsRead obj (some meta) e = e

  root-pending :
      (roots : t.Map) (todo : List ℕ) (ptr : ℕ) (o : Option RootMeta)
      → (mark_root t h trace roots todo ptr o).1.pending ≡ none
  unfolding mark_root unsync_is_unrooted
  root-pending roots todo ptr none = refl
  root-pending roots todo ptr (some meta) = elim (Bool-cases (unsync_is_unrooted meta)) [
    | inl unrooted ↦ rw unrooted refl
    | inr rooted ↦ rw rooted refl
  ]

  -- The write of a mark puts back what was read.
  mark_object-Same :
      (now : h.Map) (todo : List ℕ) (stack : List Object) (p : Pending)
      → Same now
      → IsRead (some p)
      → Same (mark_object t h trace now todo stack p).0
  unfolding mark_object
  mark_object-Same now todo stack p same read k =
      let noop = (mark-noop p.meta).0 in
      h.get-set now p.key _ k ∙ elim (Bool-cases (k == p.key)) [
        | inl here ↦ rw (here, noop, (==_iff k p.key).0 here) (sym read)
        | inr other ↦ rw other (same k)
      ]

  step_on-Kept :
      (roots : t.Map) (now : h.Map) (todo : List ℕ) (stack : List Object) (q : Option Pending)
      → Same now
      → IsRead q
      → Kept
          (step_on t h trace roots now todo stack q).1
          (step_on t h trace roots now todo stack q).2
  unfolding step_on mark_object
  step_on-Kept roots now todo stack (some p) same read = record {
    same = mark_object-Same now todo stack p same read;
    read = tt;
  }
  step_on-Kept roots now todo (obj ∷ stack) none same read = record {
    same = same;
    read = found-IsRead obj _ (sym (same (key_of obj.ptr)));
  }
  step_on-Kept roots now (ptr ∷ todo) [] none same read = record {
    same = same;
    read = rw (root-pending roots todo ptr (t.get roots ptr)) tt;
  }
  step_on-Kept roots now [] [] none same read = record { same = same; read = tt }

  record Inv (p : Pool t h trace) : Type 0 where
    same : Same p.objects
    read : (i : ℕ) → IsRead (p.jobs i).pending

  Inv-turn : (p : Pool t h trace) (n : ℕ) → Inv p → Inv (turn t h trace p n)
  unfolding turn
  Inv-turn p n inv =
      let one =
        step_on-Kept p.roots p.objects (p.jobs n).todo (p.jobs n).stack (p.jobs n).pending inv.same
          (inv.read n) in
      record {
        same = one.same;
        read = λ i. elim (Bool-cases (i == n)) [
          | inl mine ↦ rw mine one.read
          | inr other ↦ rw other (inv.read i)
        ];
      }

  Inv-run :
      (schedule : List ℕ) (p : Pool t h trace) → Inv p → Inv (foldl (turn t h trace) p schedule)
  Inv-run [] p inv = inv
  Inv-run (i ∷ schedule) p inv = Inv-run schedule (turn t h trace p i) (Inv-turn p i inv)

  -- The mark phase leaves the object map as it was, whatever the jobs find.
  pub mark-Same :
      (roots : t.Map) (num_threads : ℕ) (schedule : List ℕ)
      → Same (mark t h trace roots objects num_threads schedule).objects
  unfolding mark
  mark-Same roots num_threads schedule =
      (Inv-run schedule _ (record { same = λ k. refl; read = λ i. tt })).same

  -- A collection of the mature heap, with at least one thread and in whatever order the jobs of the
  -- mark phase take turns, keeps the objects that were marked before it began and removes all
  -- others, reachable or not.
  pub collect_unmarked :
      (roots : t.Map) (num_threads : ℕ) (schedule : List ℕ) (k : ℕ)
      → 0 < num_threads
      → h.get (collect t h trace roots objects num_threads schedule).1.objects k
        ≡ swept (h.get objects k)
  unfolding collect
  collect_unmarked roots num_threads schedule k pos =
      sweep-unmarked h (mark t h trace roots objects num_threads schedule).objects num_threads k pos
      ∙ ap swept (mark-Same roots num_threads schedule k)
