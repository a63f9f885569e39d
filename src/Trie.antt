-- ===== src/Trie.antt =====
-- The object maps of src/heap.rs, `RootMap` and `HeapMap`, are tries of the crate bitmaptrie, which
-- is not part of the repository: what the collector uses of it is an interface.
pub mod Assoc
pub mod Fold
pub mod Tally
use mo_gc.Common.{
  ℕ, zero, suc, ◌<◌, ◌≡◌, Bool, Option, none, some, List, [], ◌∷◌, ◌++◌, elem, Distinct, is_some,
  ◌==◌, if◌then◌else◌,
}

abbrev pub concat {ℓ} : {A : Type ℓ} → List (List A) → List A
concat [] = []
concat (xs ∷ xss) = xs ++ concat xss

-- The shard of a job.
abbrev pub nth : List (List ℕ) → ℕ → List ℕ
nth [] i = []
nth (xs ∷ xss) zero = xs
nth (xs ∷ xss) (suc i) = nth xss i

-- The jobs, by number, once one of them took a step.
abbrev pub update {ℓ} : {A : Type ℓ} → (ℕ → A) → ℕ → A → ℕ → A
update jobs i j k = if k == i then j else jobs k

-- A write through a reference that the trie hands out is a `set` at the key.
pub record Trie (V : Type 0) : Type 1 where
  pub Map : Type 0
  pub new : Map
  pub get : Map → ℕ → Option V
  pub set : Map → ℕ → V → Map
  -- what `retain_if` does with an entry that is not to be retained
  pub remove : Map → ℕ → Map
  -- the keys in the order of `iter` and `iter_mut`
  pub keys : Map → List ℕ
  -- `borrow_sharded`, given the number of threads: the keys of each shard
  pub shards : Map → ℕ → List (List ℕ)
  pub get-new : (k : ℕ) → get new k ≡ none
  pub get-set :
      (m : Map) (j : ℕ) (v : V) (k : ℕ) → get (set m j v) k ≡ (if k == j then some v else get m k)
  pub get-remove : (m : Map) (j k : ℕ) → get (remove m j) k ≡ (if k == j then none else get m k)
  pub elem-keys : (m : Map) (k : ℕ) → elem k (keys m) ≡ is_some (get m k)
  pub keys-Distinct : (m : Map) → Distinct (keys m)
  pub elem-shards : (m : Map) (n k : ℕ) → 0 < n → elem k (concat (shards m n)) ≡ is_some (get m k)
  pub shards-Distinct : (m : Map) (n : ℕ) → 0 < n → Distinct (concat (shards m n))
