-- ===== src/Trie/Assoc.antt =====
-- An association list meets the interface: the hypotheses on the trie can hold. The first entry of
-- a key counts. The shards are the single keys.
use mo_gc.Common.{
  ℕ, ◌≡◌, refl, ap, sym, subst, ◌∙◌, not, ◌&&◌, Option, none, some, List, [], ◌∷◌, elem, Distinct,
  is_some, ◌==◌, if◌then◌else◌, arith,
}
use mo_gc.Trie.{Trie, concat}

unfoldable pub without_key : ℕ → List ℕ → List ℕ
without_key j [] = []
without_key j (k ∷ ks) = let rest = without_key j ks in if k == j then rest else k ∷ rest

elem-without_key :
    (j : ℕ) (ks : List ℕ) (k : ℕ) → elem k (without_key j ks) ≡ (not (k == j) && elem k ks)
unfolding without_key
elem-without_key j [] k = ground arith
elem-without_key j (i ∷ ks) k = ground (arith, elem-without_key j ks k)

without_key-Distinct : (j : ℕ) (ks : List ℕ) → Distinct ks → Distinct (without_key j ks)
unfolding without_key
without_key-Distinct j [] d = tt
without_key-Distinct j (k ∷ ks) d =
    ground (arith, without_key-Distinct j ks d.1, elem-without_key j ks k, d.0)

module _ {V : Type 0} where
  unfoldable pub lookup : List (ℕ × V) → ℕ → Option V
  lookup [] k = none
  lookup ((j, v) ∷ m) k = if k == j then some v else lookup m k

  unfoldable pub keys_of : List (ℕ × V) → List ℕ
  unfolding without_key
  keys_of [] = []
  keys_of ((j, v) ∷ m) = j ∷ without_key j (keys_of m)

  unfoldable pub remove_key : List (ℕ × V) → ℕ → List (ℕ × V)
  remove_key [] k = []
  remove_key ((j, v) ∷ m) k = let rest = remove_key m k in if k == j then rest else (j, v) ∷ rest

  pub lookup-remove_key :
      (m : List (ℕ × V)) (j k : ℕ)
      → lookup (remove_key m j) k ≡ (if k == j then none else lookup m k)
  unfolding lookup remove_key
  lookup-remove_key [] j k = ground arith
  lookup-remove_key ((i, v) ∷ m) j k = ground (arith, lookup-remove_key m j k)

  pub elem-keys_of : (m : List (ℕ × V)) (k : ℕ) → elem k (keys_of m) ≡ is_some (lookup m k)
  unfolding keys_of lookup
  elem-keys_of [] k = refl
  elem-keys_of ((j, v) ∷ m) k = ground (arith, elem-without_key j (keys_of m) k, elem-keys_of m k)

  pub keys_of-Distinct : (m : List (ℕ × V)) → Distinct (keys_of m)
  unfolding keys_of
  keys_of-Distinct [] = tt
  keys_of-Distinct ((j, v) ∷ m) = (
    ground (arith, elem-without_key j (keys_of m) j),
    without_key-Distinct j (keys_of m) (keys_of-Distinct m),
  )

abbrev pub singles : List ℕ → List (List ℕ)
singles [] = []
singles (k ∷ ks) = (k ∷ []) ∷ singles ks

pub concat-singles : (ks : List ℕ) → concat (singles ks) ≡ ks
concat-singles [] = refl
concat-singles (k ∷ ks) = ap (λ r. k ∷ r) (concat-singles ks)

unfoldable pub assoc : (V : Type 0) → Trie V
unfolding lookup remove_key keys_of without_key
assoc V = record {
  Map = List (ℕ × V);
  new = [];
  get = lookup;
  set = λ m k v. (k, v) ∷ m;
  remove = remove_key;
  keys = keys_of;
  shards = λ m n. singles (keys_of m);
  get-new = λ k. refl;
  get-set = λ m j v k. refl;
  get-remove = lookup-remove_key;
  elem-keys = elem-keys_of;
  keys-Distinct = keys_of-Distinct;
  elem-shards = λ m n k h. ap (elem k) (concat-singles (keys_of m)) ∙ elem-keys_of m k;
  shards-Distinct = λ m n h. subst Distinct (sym (concat-singles (keys_of m))) (keys_of-Distinct m);
}
