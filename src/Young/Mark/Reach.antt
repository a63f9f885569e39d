-- ===== src/Young/Mark/Reach.antt =====
-- What the mark phase is to find: the entries that the roots lead to through new objects.
use mathlib.Core.List.{map}
use mo_gc.Common.{
  false, ℕ, ◌*◌, ◌≡◌, Bool, true, false, ◌||◌, ◌&&◌, Option, none, some, List, [], ◌∷◌, ◌==◌, elem,
}
use mo_gc.Heap.Object.{TraitObject, Object, key_of}
use mo_gc.Heap.RootMeta.{RootMeta, is_new}
use mo_gc.Heap.RootMeta.View.{marked_of}
use mo_gc.Trie.{Trie}
use mo_gc.Young.Mark.{Job, Pending, is_root}

-- The keys that the object behind an entry points at.
abbrev pub kid_keys : (TraitObject → List TraitObject) → ℕ → List ℕ
kid_keys trace k = map (λ c. key_of c.data_ptr) (trace (record { data_ptr = 8 * k; vtable = 0 }))

-- What the collector relies on in `Trace::trace`: the pointers that it visits are those of the
-- object at the address, whatever vtable pointer came with it.
abbrev pub ByAddress : (TraitObject → List TraitObject) → Type 0
ByAddress trace = (a b : TraitObject) → key_of a.data_ptr ≡ key_of b.data_ptr → trace a ≡ trace b

abbrev pub stack_keys : List Object → List ℕ
stack_keys [] = []
stack_keys (o ∷ os) = key_of o.ptr ∷ stack_keys os

abbrev pub pending_is : Option Pending → ℕ → Bool
pending_is none k = false
pending_is (some p) k = k == p.key

module _ (t : Trie RootMeta) where
  open t use {Map, get}

  abbrev pub marked_at : Map → ℕ → Bool
  marked_at r k = elim (get r k) [ none ↦ false | some m ↦ marked_of m.flags ]

  abbrev pub root_at : Map → ℕ → Bool
  root_at r k = elim (get r k) [ none ↦ false | some m ↦ is_root m ]

  -- The job will still see to the entry.
  abbrev pub busy : Map → Job → ℕ → Bool
  busy r0 j k =
      elem k (stack_keys j.stack.stack)
      || (pending_is j.pending k || (elem k j.todo && root_at r0 k))

  -- Reachable from the roots of the map, where only new objects are looked into.
  pub data Reach (trace : TraitObject → List TraitObject) (r : Map) : ℕ → Type 0 where
    root : {k : ℕ} {m : RootMeta} → get r k ≡ some m → is_root m ≡ true → Reach trace r k
    child :
        {k j : ℕ} {m m' : RootMeta}
        → Reach trace r k
        → get r k ≡ some m
        → is_new m ≡ true
        → elem j (kid_keys trace k) ≡ true
        → get r j ≡ some m'
        → Reach trace r j
