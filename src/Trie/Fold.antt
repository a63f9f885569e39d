-- ===== src/Trie/Fold.antt =====
-- Passes over the shards of a map: each key is visited once, and its visit changes nothing but what
-- the key holds.
use mathlib.Core.List.{foldl}
use mo_gc.Common.{
  ℕ, ◌≡◌, refl, sym, ap, ◌∙◌, inl, inr, true, false, ◌||◌, List, [], ◌∷◌, ◌++◌, ◌==◌, if◌then◌else◌,
  elem, Distinct, arith, Bool-cases, ==_iff,
}
use mo_gc.Trie.{concat}

pub elem-append : (k : ℕ) (xs ys : List ℕ) → elem k (xs ++ ys) ≡ (elem k xs || elem k ys)
elem-append k [] ys = refl
elem-append k (x ∷ xs) ys = ground (arith, elem-append k xs ys)

pub Distinct-append :
    (xs ys : List ℕ)
    → Distinct (xs ++ ys)
    → Distinct xs × Distinct ys × ((k : ℕ) → elem k xs ≡ true → elem k ys ≡ false)
Distinct-append [] ys d = (tt, d, λ k h. cc)
Distinct-append (x ∷ xs) ys d =
    let (dx, dy, apart) = Distinct-append xs ys d.1 in
    let split = elem-append x xs ys in
    ((ground (arith, d.0, split), dx), dy, λ k h. ground (arith, d.0, split, apart k))

module _ {S V : Type 0} (held : S → ℕ → V) (change : V → V) where
  -- A visit changes what its key holds.
  abbrev pub Visits : (S → ℕ → S) → Type 0
  Visits visit =
      (s : S) (j k : ℕ) → held (visit s j) k ≡ (if k == j then change (held s j) else held s k)

  -- A pass changes what its keys hold.
  abbrev pub Passes : (S → List ℕ → S) → Type 0
  Passes pass =
      (s : S) (ks : List ℕ) (k : ℕ)
      → Distinct ks
      → held (pass s ks) k ≡ (if elem k ks then change (held s k) else held s k)

  pub foldl-Passes : (visit : S → ℕ → S) → Visits visit → Passes (foldl visit)
  foldl-Passes visit one s [] k d = refl
  foldl-Passes visit one s (j ∷ ks) k d =
      foldl-Passes visit one (visit s j) ks k d.1 ∙ elim (Bool-cases (k == j)) [
        | inl here ↦
            let e : k ≡ j = (==_iff k j).0 here in
            let once : elem k ks ≡ false = rw e d.0 in
            rw (once, one s j k, here) (ap (λ k. change (held s k)) (sym e))
        | inr other ↦ rw (one s j k, other)
      ]

  -- One pass after the other over lists without a key in common.
  pub foldl-shards :
      (pass : S → List ℕ → S)
      → Passes pass
      → (xss : List (List ℕ)) (s : S) (k : ℕ) → Distinct (concat xss)
      → held (foldl pass s xss) k ≡ (if elem k (concat xss) then change (held s k) else held s k)
  foldl-shards pass one [] s k d = refl
  foldl-shards pass one (xs ∷ xss) s k d =
      let (dx, dxs, apart) = Distinct-append xs (concat xss) d in
      foldl-shards pass one xss (pass s xs) k dxs ∙ elim (Bool-cases (elem k xs)) [
        | inl here ↦ rw (one s xs k dx, elem-append, here, apart k here)
        | inr other ↦ rw (one s xs k dx, elem-append, other)
      ]
