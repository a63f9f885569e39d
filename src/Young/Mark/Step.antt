-- ===== src/Young/Mark/Step.antt =====
-- What one step of a job does to the map and to the job.
use mathlib.Core.List.{foldl, map}
use mo_gc.Common.{
  ℕ, ◌<◌, ◌^◌, ◌≡◌, ◌≢◌, refl, sym, ap, ◌∙◌, subst, ◌⊎◌, inl, inr, true, false, ◌||◌, Option, none,
  some, List, [], ◌∷◌, elem, arith, Bool-cases,
}
use mo_gc.Heap.Object.{TraitObject, Object, key_of, from_trie_ptr}
use mo_gc.Heap.RootMeta.{RootMeta, is_new, unsync_is_unrooted, mark_and_needs_trace}
use mo_gc.Heap.RootMeta.View.{marked_of, view-mark, mark-again, is_new-mark, refcount-mark}
use mo_gc.Heap.TraceStack.{TraceStack, push_to_trace}
use mathlib.Core.Option.{some-injective}
use mo_gc.Trie.{Trie}
use mo_gc.Young.Mark.{Job, Pending, job, is_root, found_object, found_root}
use mo_gc.Young.Mark.Reach.{kid_keys, ByAddress, Reach, root, marked_at, stack_keys, busy}

is_root-mark : (m : RootMeta) → is_root (mark_and_needs_trace m).0 ≡ is_root m
unfolding is_root unsync_is_unrooted
is_root-mark m = rw (is_new-mark, refcount-mark)

pub elem-stack_keys :
    (j : ℕ) (cs : List TraitObject) (s : TraceStack)
    → elem j (stack_keys (foldl push_to_trace s cs).stack)
      ≡ (elem j (map (λ c. key_of c.data_ptr) cs) || elem j (stack_keys s.stack))
unfolding push_to_trace
elem-stack_keys j [] s = refl
elem-stack_keys j (c ∷ cs) s = ground (arith, elem-stack_keys j cs (push_to_trace s c))

module _ (t : Trie RootMeta) (trace : TraitObject → List TraitObject) (by : ByAddress trace)
    (r0 : t.Map)
    (clean : (k : ℕ) (m : RootMeta)
      → t.get r0 k ≡ some m
      → marked_of m.flags ≡ true
      → is_new m ≡ false)
    (short : (k : ℕ) (m : RootMeta) → t.get r0 k ≡ some m → k < 2 ^ 61) where
  open t use {Map, get, set, get-set}

  -- An entry is as it was when the phase began, or it is reachable and marked.
  pub data Evolves (r : Map) (k : ℕ) : Type 0 where
    same : get r k ≡ get r0 k → Evolves r k
    hit :
        {m : RootMeta}
        → get r0 k ≡ some m
        → get r k ≡ some (mark_and_needs_trace m).0
        → Reach t trace r0 k
        → Evolves r k

  -- What a job remembers of the entry that it is about to mark.
  pub record IsRead (r : Map) (p : Pending) : Type 0 where
    pub reach : Reach t trace r0 p.key
    pub address : key_of p.obj.ptr ≡ p.key
    pub entry : RootMeta
    pub found : get r0 p.key ≡ some entry
    pub read :
        (p.meta ≡ entry)
        ⊎ ((p.meta ≡ (mark_and_needs_trace entry).0) × (marked_at t r p.key ≡ true))

  pub record StepOk (r r' : Map) (j j' : Job) : Type 0 where
    pub mono : (k : ℕ) → marked_at t r k ≡ true → marked_at t r' k ≡ true
    pub evolves : (k : ℕ) → Evolves r' k
    pub stacked :
        (k : ℕ) (m : RootMeta)
        → elem k (stack_keys j'.stack.stack) ≡ true
        → get r0 k ≡ some m
        → Reach t trace r0 k
    pub read : (p : Pending) → j'.pending ≡ some p → IsRead r' p
    pub keeps :
        (k : ℕ) (m : RootMeta)
        → get r0 k ≡ some m
        → busy t r0 j k ≡ true
        → (busy t r0 j' k ≡ true) ⊎ (marked_at t r' k ≡ true)
    pub traced :
        (k i : ℕ) (m : RootMeta)
        → get r0 k ≡ some m
        → marked_at t r k ≡ false
        → marked_at t r' k ≡ true
        → is_new m ≡ true
        → elem i (kid_keys trace k) ≡ true
        → busy t r0 j' i ≡ true

  -- The facts about a job on which its next step relies.
  pub record JobOk (r : Map) (j : Job) : Type 0 where
    pub stacked :
        (k : ℕ) (m : RootMeta)
        → elem k (stack_keys j.stack.stack) ≡ true
        → get r0 k ≡ some m
        → Reach t trace r0 k
    pub read : (p : Pending) → j.pending ≡ some p → IsRead r p

  pub marked_twice :
      (m : RootMeta)
      → (mark_and_needs_trace (mark_and_needs_trace m).0).0 ≡ (mark_and_needs_trace m).0
  marked_twice m = mark-again _ (ground (arith, view-mark m))

  -- What is read of an entry is as the entry was, or marked.
  read_entry :
      (r : Map) (k : ℕ) (meta : RootMeta)
      → Evolves r k
      → get r k ≡ some meta
      → (m : RootMeta) × (get r0 k ≡ some m)
        × ((meta ≡ m) ⊎ ((meta ≡ (mark_and_needs_trace m).0) × (marked_at t r k ≡ true)))
  read_entry r k meta (same e) at = (meta, sym e ∙ at, inl refl)
  read_entry r k meta (hit {m} e e' reach) at =
      (m, e, inr (cc, rw (e', marked_at) (ground (arith, view-mark m))))

  -- A step that only reads the map.
  pub reading :
      (r : Map) (j j' : Job)
      → ((k : ℕ) → Evolves r k)
      → ((k : ℕ) (m : RootMeta)
          → elem k (stack_keys j'.stack.stack) ≡ true
          → get r0 k ≡ some m
          → Reach t trace r0 k)
      → ((p : Pending) → j'.pending ≡ some p → IsRead r p)
      → ((k : ℕ) (m : RootMeta) → get r0 k ≡ some m → busy t r0 j k ≡ true → busy t r0 j' k ≡ true)
      → StepOk r r j j'
  reading r j j' ev stacked read keeps = record {
    mono = λ k h. h;
    evolves = ev;
    stacked = stacked;
    read = read;
    keeps = λ k m e h. inl (keeps k m e h);
    traced = λ k i m e not_yet marked new kid. cc;
  }

  in_map : (r : Map) (k : ℕ) (m : RootMeta) → Evolves r k → get r0 k ≡ some m → get r k ≢ none
  in_map r k m (same e) at gone = cc
  in_map r k m (hit e e' reach) at gone = cc

  same_root :
      (r : Map) (k : ℕ) (meta m : RootMeta)
      → ((meta ≡ m) ⊎ ((meta ≡ (mark_and_needs_trace m).0) × (marked_at t r k ≡ true)))
      → is_root meta ≡ is_root m
  same_root r k meta m (inl e) = ap is_root e
  same_root r k meta m (inr (e, _)) = ap is_root e ∙ is_root-mark m

  pub visited :
      (r : Map) (todo : List ℕ) (obj : Object) (rest : List Object) (o : Option RootMeta)
      → get r (key_of obj.ptr) ≡ o
      → ((k : ℕ) → Evolves r k)
      → JobOk r (job todo (record { stack = obj ∷ rest }) none)
      → StepOk r r
          (job todo (record { stack = obj ∷ rest }) none)
          (job todo (record { stack = rest }) (found_object obj o))
  visited r todo obj rest none gone ev ok =
      reading r _ _ ev (λ k m h at. ok.stacked k m (ground arith) at) (λ p h. cc)
        (λ k m at h. ground (arith, in_map r k m (ev k) at))
  visited r todo obj rest (some meta) at ev ok =
      let (m, at0, read) = read_entry r (key_of obj.ptr) meta (ev (key_of obj.ptr)) at in
      reading r _ _ ev (λ k m h at. ok.stacked k m (ground arith) at)
        (λ p h. subst (IsRead r) (some-injective _ _ h) (record {
          reach = ok.stacked (key_of obj.ptr) m (ground arith) at0;
          address = refl;
          entry = m;
          found = at0;
          read = read;
        }))
        (λ k m at h. ground arith)

  pub scanned :
      (r : Map) (ptr : ℕ) (rest : List ℕ) (o : Option RootMeta)
      → get r ptr ≡ o
      → ((k : ℕ) → Evolves r k)
      → StepOk r r
          (job (ptr ∷ rest) (record { stack = [] }) none)
          (job rest (record { stack = [] }) (found_root ptr o))
  unfolding found_root from_trie_ptr
  scanned r ptr rest none gone ev =
      reading r _ _ ev (λ k m h at. cc) (λ p h. cc)
        (λ k m at h. ground (arith, in_map r k m (ev k) at))
  scanned r ptr rest (some meta) at ev =
      let (m, at0, read) = read_entry r ptr meta (ev ptr) at in
      elim (Bool-cases (is_root meta)) [
        | inl yes_root ↦ rw yes_root (
            reading r _ _ ev (λ k m h at. cc)
              (λ p h. subst (IsRead r) (some-injective _ _ h) (record {
                reach = root at0 (sym (same_root r ptr meta m read) ∙ yes_root);
                address = omega (arith, short ptr m at0);
                entry = m;
                found = at0;
                read = read;
              }))
              (λ k m at h. ground arith))
        | inr not_root ↦ rw not_root (
            reading r _ _ ev (λ k m h at. cc) (λ p h. cc)
              (λ k m' at h. ground (arith, same_root r ptr meta m read)))
      ]
