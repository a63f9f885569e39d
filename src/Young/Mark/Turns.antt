-- ===== src/Young/Mark/Turns.antt =====
-- What a turn of one job costs in work that is left, its own and the other jobs'.
use mo_gc.Common.{
  ℕ, ◌+◌, ◌≤◌, ◌<◌, ◌^◌, ◌≡◌, refl, inl, inr, true, false, Option, none, some, List, [], ◌∷◌, ◌==◌,
  elem, arith, Bool-cases, ==_iff, ==_refl,
}
use mo_gc.Heap.Object.{TraitObject, Object, key_of, from_trie_ptr}
use mo_gc.Heap.RootMeta.{RootMeta}
use mo_gc.Trie.{Trie}
use mo_gc.Young.Mark.{
  Job, Pending, Pool, is_root, is_finished, found_object, found_root, commit, visit, scan, step_on,
  step, turn,
}
use mo_gc.Young.Mark.Reach.{ByAddress, marked_at}
use mo_gc.Young.Mark.Work.{
  sum_over-le, marked_at-set, step_on-work, work, work_on, cost, Covers, IsKnown,
}

module _ (t : Trie RootMeta) (trace : TraitObject → List TraitObject) (by : ByAddress trace) where
  open t use {Map, get, set, get-set}

  -- The map has entries at the keys of the list only, and so has each job.
  pub record Bounded (ks : List ℕ) (p : Pool t trace) : Type 0 where
    pub covers : Covers t trace by ks p.roots
    pub known : (i : ℕ) → IsKnown t trace by ks (p.jobs i).pending
    pub small : (i k : ℕ) → elem k (p.jobs i).todo ≡ true → k < 2 ^ 61

  found-IsKnown :
      (ks : List ℕ) (r : Map) (obj : Object) (o : Option RootMeta)
      → get r (key_of obj.ptr) ≡ o
      → Covers t trace by ks r
      → IsKnown t trace by ks (found_object obj o)
  found-IsKnown ks r obj none e covers = tt
  found-IsKnown ks r obj (some m) e covers = (refl, covers (key_of obj.ptr) m e)

  root-IsKnown :
      (ks : List ℕ) (r : Map) (k : ℕ) (o : Option RootMeta)
      → get r k ≡ o
      → Covers t trace by ks r
      → k < 2 ^ 61
      → IsKnown t trace by ks (found_root k o)
  unfolding found_root from_trie_ptr
  root-IsKnown ks r k none e covers small = tt
  root-IsKnown ks r k (some m) e covers small = elim (Bool-cases (is_root m)) [
    | inl yes_root ↦ rw yes_root (omega arith, covers k m e)
    | inr not_root ↦ rw not_root tt
  ]

  Covers-set :
      (ks : List ℕ) (r : Map) (j : ℕ) (v : RootMeta)
      → elem j ks ≡ true
      → Covers t trace by ks r
      → Covers t trace by ks (set r j v)
  Covers-set ks r j v known covers k m h = elim (Bool-cases (k == j)) [
    | inl here ↦ rw ((==_iff k j).0 here) known
    | inr other ↦ covers k m (rw (get-set, other) at h)
  ]

  pub record StepBounded (ks : List ℕ) (r r' : Map) (todo : List ℕ) (j' : Job) : Type 0 where
    pub covers : Covers t trace by ks r'
    pub known : IsKnown t trace by ks j'.pending
    pub mono : (k : ℕ) → marked_at t r k ≡ true → marked_at t r' k ≡ true
    pub less : (k : ℕ) → elem k j'.todo ≡ true → elem k todo ≡ true

  step_on-Bounded :
      (ks : List ℕ) (r : Map) (todo : List ℕ) (stack : List Object) (q : Option Pending)
      → Covers t trace by ks r
      → IsKnown t trace by ks q
      → ((k : ℕ) → elem k todo ≡ true → k < 2 ^ 61)
      → StepBounded ks r (step_on t trace r todo stack q).0 todo (step_on t trace r todo stack q).1
  unfolding step_on commit visit scan
  step_on-Bounded ks r todo stack (some p) covers known small = record {
    covers = Covers-set ks r p.key _ known.1 covers;
    known = tt;
    mono = λ k h. ground (arith, marked_at-set t trace by r p k);
    less = λ k h. h;
  }
  step_on-Bounded ks r todo (obj ∷ rest) none covers known small = record {
    covers = covers;
    known = found-IsKnown ks r obj _ refl covers;
    mono = λ k h. h;
    less = λ k h. ground arith;
  }
  step_on-Bounded ks r (k ∷ rest) [] none covers known small = record {
    covers = covers;
    known = root-IsKnown ks r k _ refl covers (small k (ground arith));
    mono = λ k h. h;
    less = λ k h. ground arith;
  }
  step_on-Bounded ks r [] [] none covers known small = record {
    covers = covers;
    known = tt;
    mono = λ k h. h;
    less = λ k h. ground arith;
  }

  module _ (ks : List ℕ) (p : Pool t trace) (n : ℕ) (b : Bounded ks p) where
    one :
        StepBounded ks p.roots
          (step t trace p.roots (p.jobs n)).0
          (p.jobs n).todo
          (step t trace p.roots (p.jobs n)).1
    unfolding step
    one =
        step_on-Bounded ks p.roots (p.jobs n).todo (p.jobs n).stack.stack (p.jobs n).pending
          b.covers (b.known n) (b.small n)

    pub Bounded-turn : Bounded ks (turn t trace p n)
    unfolding turn
    Bounded-turn = record {
      covers = one.covers;
      known = λ i. elim (Bool-cases (i == n)) [
        | inl mine ↦ rw mine one.known
        | inr other ↦ rw other (b.known i)
      ];
      small = λ i k. elim (Bool-cases (i == n)) [
        | inl mine ↦ rw mine (λ h. b.small n k (one.less k h))
        | inr other ↦ rw other (b.small i k)
      ];
    }

    -- Another job's turn costs a job nothing.
    pub other-work :
        (i : ℕ)
        → (i == n) ≡ false
        → work t trace by ks (turn t trace p n).roots ((turn t trace p n).jobs i)
          ≤ work t trace by ks p.roots (p.jobs i)
    unfolding turn work work_on
    other-work i other = rw other (
        omega (
          arith,
          sum_over-le (cost t trace by p.roots (p.jobs i).pending)
              (cost t trace by (turn t trace p n).roots (p.jobs i).pending) ks
              (λ k. ground (arith, one.mono k)),
        ))

    pub own-work :
        is_finished (p.jobs n) ≡ false
        → work t trace by ks (turn t trace p n).roots ((turn t trace p n).jobs n) + 1
          ≤ work t trace by ks p.roots (p.jobs n)
    unfolding turn work step
    own-work going = rw (==_refl n) (
        step_on-work t trace by ks p.roots (p.jobs n).todo (p.jobs n).stack.stack (p.jobs n).pending
          b.covers (b.known n) going)
