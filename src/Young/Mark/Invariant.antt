-- ===== src/Young/Mark/Invariant.antt =====
-- What holds after every turn of the mark phase: entries change by marks only, and whatever is to be
-- marked is marked or some job will still see to it.
use mo_gc.Common.{
  ℕ, suc, ◌<◌, ◌^◌, ◌≡◌, refl, ap, ◌∙◌, subst, ◌⊎◌, inl, inr, true, false, Option, none, some, List,
  [], ◌∷◌, ◌==◌, elem, arith, Bool-cases, ==_iff, ==_refl, is_some,
}
use mo_gc.Trie.Fold.{elem-append}
use mo_gc.Heap.Object.{TraitObject, Object}
use mo_gc.Heap.RootMeta.{RootMeta, is_new}
use mo_gc.Heap.RootMeta.View.{marked_of}
use mo_gc.Heap.TraceStack
use mo_gc.Heap.TraceStack.{TraceStack}
use mo_gc.Trie.{Trie, concat}
use mo_gc.Young.Mark.{Job, Pending, Pool, job, is_root, step_on, step, turn, run, start}
use mo_gc.Trie.{nth}
use mo_gc.Young.Mark.Reach.{kid_keys, ByAddress, marked_at, busy}
use mo_gc.Young.Mark.Step.{Evolves, same, IsRead, StepOk, JobOk, reading, visited, scanned}
use mo_gc.Young.Mark.Commit.{commit-StepOk}

-- Each key of the shards has a job.
elem-nth :
    (k : ℕ) (xss : List (List ℕ))
    → elem k (concat xss) ≡ true
    → (i : ℕ) × (elem k (nth xss i) ≡ true)
elem-nth k [] h = cc
elem-nth k (xs ∷ xss) h = elim (Bool-cases (elem k xs)) [
  | inl here ↦ (0, here)
  | inr later ↦
      let (i, there) = elem-nth k xss (ground (arith, elem-append k xs (concat xss))) in
      (suc i, there)
]

module _ (t : Trie RootMeta) (trace : TraitObject → List TraitObject) (by : ByAddress trace)
    (r0 : t.Map)
    (clean : (k : ℕ) (m : RootMeta)
      → t.get r0 k ≡ some m
      → marked_of m.flags ≡ true
      → is_new m ≡ false)
    (short : (k : ℕ) (m : RootMeta) → t.get r0 k ≡ some m → k < 2 ^ 61) where
  open t use {Map, get}

  abbrev pub Settled : Pool t trace → ℕ → Type 0
  Settled p k = (marked_at t p.roots k ≡ true) ⊎ ((i : ℕ) × (busy t r0 (p.jobs i) k ≡ true))

  pub record Inv (p : Pool t trace) : Type 0 where
    pub evolves : (k : ℕ) → Evolves t trace by r0 clean short p.roots k
    pub ok : (i : ℕ) → JobOk t trace by r0 clean short p.roots (p.jobs i)
    pub closed :
        (k i : ℕ) (m m' : RootMeta)
        → get r0 k ≡ some m
        → marked_at t p.roots k ≡ true
        → is_new m ≡ true
        → elem i (kid_keys trace k) ≡ true
        → get r0 i ≡ some m'
        → Settled p i
    pub rooted : (k : ℕ) (m : RootMeta) → get r0 k ≡ some m → is_root m ≡ true → Settled p k

  step_on-StepOk :
      (r : Map) (todo : List ℕ) (stack : List Object) (q : Option Pending)
      → ((k : ℕ) → Evolves t trace by r0 clean short r k)
      → JobOk t trace by r0 clean short r (job todo (record { stack = stack }) q)
      → StepOk t trace by r0 clean short r
          (step_on t trace r todo stack q).0
          (job todo (record { stack = stack }) q)
          (step_on t trace r todo stack q).1
  unfolding step_on
  step_on-StepOk r todo stack (some p) ev ok =
      commit-StepOk t trace by r0 clean short r todo stack p ev ok (ok.read p refl)
  step_on-StepOk r todo (obj ∷ rest) none ev ok =
      visited t trace by r0 clean short r todo obj rest _ refl ev ok
  step_on-StepOk r (ptr ∷ rest) [] none ev ok =
      scanned t trace by r0 clean short r ptr rest _ refl ev
  step_on-StepOk r [] [] none ev ok =
      reading t trace by r0 clean short r _ _ ev ok.stacked ok.read (λ k m at h. h)

  step-StepOk :
      (r : Map) (j : Job)
      → ((k : ℕ) → Evolves t trace by r0 clean short r k)
      → JobOk t trace by r0 clean short r j
      → StepOk t trace by r0 clean short r (step t trace r j).0 j (step t trace r j).1
  unfolding step
  step-StepOk r j ev ok = step_on-StepOk r j.todo j.stack.stack j.pending ev ok

  IsRead-mono :
      (r r' : Map) (p : Pending)
      → ((k : ℕ) → marked_at t r k ≡ true → marked_at t r' k ≡ true)
      → IsRead t trace by r0 clean short r p
      → IsRead t trace by r0 clean short r' p
  IsRead-mono r r' p mono rd = record {
    reach = rd.reach;
    address = rd.address;
    entry = rd.entry;
    found = rd.found;
    read = elim rd.read [ inl e ↦ inl e | inr (e, m) ↦ inr (e, mono p.key m) ];
  }

  module _ (p : Pool t trace) (n : ℕ) (inv : Inv p) where
    abbrev p' : Pool t trace
    p' = turn t trace p n

    one :
        StepOk t trace by r0 clean short p.roots
          (step t trace p.roots (p.jobs n)).0
          (p.jobs n)
          (step t trace p.roots (p.jobs n)).1
    one = step-StepOk p.roots (p.jobs n) inv.evolves (inv.ok n)

    Settled-turn : (k : ℕ) (m : RootMeta) → get r0 k ≡ some m → Settled p k → Settled p' k
    unfolding turn
    Settled-turn k m at (inl marked) = inl (one.mono k marked)
    Settled-turn k m at (inr (i, h)) = elim (Bool-cases (i == n)) [
      | inl mine ↦
          let e = (==_iff i n).0 mine in
          elim (one.keeps k m at (subst (λ i. busy t r0 (p.jobs i) k ≡ true) e h)) [
            | inl still ↦ inr (i, rw mine still)
            | inr marked ↦ inl marked
          ]
      | inr other ↦ inr (i, rw other h)
    ]

    ok-turn : (i : ℕ) → JobOk t trace by r0 clean short p'.roots (p'.jobs i)
    unfolding turn
    ok-turn i = elim (Bool-cases (i == n)) [
      | inl mine ↦ rw mine (record { stacked = one.stacked; read = one.read })
      | inr other ↦ rw other (record {
        stacked = (inv.ok i).stacked;
        read = λ q h. IsRead-mono p.roots _ q one.mono ((inv.ok i).read q h);
      })
    ]

    closed-turn :
        (k i : ℕ) (m m' : RootMeta)
        → get r0 k ≡ some m
        → marked_at t p'.roots k ≡ true
        → is_new m ≡ true
        → elem i (kid_keys trace k) ≡ true
        → get r0 i ≡ some m'
        → Settled p' i
    unfolding turn
    closed-turn k i m m' at now new kid at' = elim (Bool-cases (marked_at t p.roots k)) [
      | inl already ↦ Settled-turn i m' at' (inv.closed k i m m' at already new kid at')
      | inr not_yet ↦ inr (n, rw (==_refl n) (one.traced k i m at not_yet now new kid))
    ]

    Inv-turn : Inv p'
    unfolding turn
    Inv-turn = record {
      evolves = one.evolves;
      ok = ok-turn;
      closed = closed-turn;
      rooted = λ k m at h. Settled-turn k m at (inv.rooted k m at h);
    }

  pub Inv-run : (schedule : List ℕ) (p : Pool t trace) → Inv p → Inv (run t trace p schedule)
  unfolding run
  Inv-run [] p inv = inv
  Inv-run (i ∷ schedule) p inv = Inv-run schedule (turn t trace p i) (Inv-turn p i inv)

  pub Inv-start : (num_threads : ℕ) → 0 < num_threads → Inv (start t trace r0 num_threads)
  unfolding start TraceStack.new
  Inv-start num_threads pos = record {
    evolves = λ k. same refl;
    ok = λ i. record { stacked = λ k m h at. cc; read = λ p h. cc };
    closed =
        λ k i m m' at h new kid at'. let bad = rw (at, marked_at) at h in cc (clean k m at bad);
    rooted = λ k m at h.
        let (i, there) =
          elem-nth k (t.shards r0 num_threads)
            (t.elem-shards r0 num_threads k pos ∙ ap is_some at) in
        inr (i, ground (arith, there));
  }
