-- ===== src/Trie/Tally.antt =====
-- How many keys pass a test: of a list, and of the keys that a pass over the shards visits.
use mathlib.Core.List.{foldl}
use mo_gc.Common.{
  ℕ, ◌+◌, ◌<◌, ◌≡◌, refl, sym, ap, subst, ◌∙◌, inl, inr, Bool, true, false, not, ◌&&◌, List, [],
  ◌∷◌, ◌++◌, ◌==◌, if◌then◌else◌, elem, Distinct, arith, Bool-cases, ==_iff, Option, is_some,
  length,
}
use mo_gc.Trie.{Trie, concat}
use mo_gc.Trie.Fold.{Distinct-append, Visits, Passes}

abbrev pub one_if : Bool → ℕ
one_if b = if b then 1 else 0

abbrev pub tally : (ℕ → Bool) → List ℕ → ℕ
tally f [] = 0
tally f (k ∷ ks) = one_if (f k) + tally f ks

tally-append : (f : ℕ → Bool) (xs ys : List ℕ) → tally f (xs ++ ys) ≡ tally f xs + tally f ys
tally-append f [] ys = omega arith
tally-append f (x ∷ xs) ys = omega (arith, tally-append f xs ys)

-- Only the keys of the list are tested.
tally-agree :
    (f g : ℕ → Bool) (xs : List ℕ)
    → ((k : ℕ) → elem k xs ≡ true → f k ≡ g k)
    → tally f xs ≡ tally g xs
tally-agree f g [] same = refl
tally-agree f g (x ∷ xs) same =
    let here : f x ≡ g x = same x (ground arith) in
    let rest = tally-agree f g xs (λ k h. same k (ground (arith, h))) in rw (here, rest) refl

tally-none :
    (f : ℕ → Bool) (xs : List ℕ) → ((k : ℕ) → elem k xs ≡ true → f k ≡ false) → tally f xs ≡ 0
tally-none f [] none = refl
tally-none f (x ∷ xs) none =
    let here : f x ≡ false = none x (ground arith) in
    let rest = tally-none f xs (λ k h. none k (ground (arith, h))) in rw (here, rest) refl

-- The test without one key.
abbrev but : ℕ → (ℕ → Bool) → ℕ → Bool
but x f k = not (k == x) && f k

tally-but-out :
    (f : ℕ → Bool) (x : ℕ) (xs : List ℕ) → elem x xs ≡ false → tally (but x f) xs ≡ tally f xs
tally-but-out f x xs out = tally-agree (but x f) f xs (λ k h. elim (Bool-cases (k == x)) [
  | inl here ↦
      let e : k ≡ x = (==_iff k x).0 here in
      let bad : elem x xs ≡ true = subst (λ k. elem k xs ≡ true) e h in
      absurd (ground (arith, out, bad))
  | inr other ↦ rw other refl
])

tally-but :
    (f : ℕ → Bool) (x : ℕ) (ys : List ℕ)
    → Distinct ys
    → elem x ys ≡ true
    → tally f ys ≡ one_if (f x) + tally (but x f) ys
tally-but f x [] d inside = absurd (ground (arith, inside))
tally-but f x (y ∷ ys) (out, d) inside = elim (Bool-cases (x == y)) [
  | inl here ↦
      let e : x ≡ y = (==_iff x y).0 here in
      let fresh : elem x ys ≡ false = rw e out in
      let same : f x ≡ f y = ap f e in
      let gone : but x f y ≡ false = ground (arith, e) in
      let rest = tally-but-out f x ys fresh in rw (gone, rest, same) (omega arith)
  | inr other ↦
      let later : elem x ys ≡ true = ground (arith, inside, other) in
      let kept : but x f y ≡ f y = ground (arith, other) in
      let rest = tally-but f x ys d later in rw kept (omega (arith, rest))
]

-- Two lists of distinct keys that have the same keys among those that pass a test have as many of
-- them.
tally-same :
    (f : ℕ → Bool) (xs ys : List ℕ)
    → Distinct xs
    → Distinct ys
    → ((k : ℕ) → f k ≡ true → elem k xs ≡ elem k ys)
    → tally f xs ≡ tally f ys
tally-same f [] ys dx dy same = sym (
    tally-none f ys (λ k h. elim (Bool-cases (f k)) [
      | inl passes ↦ absurd (ground (arith, h, same k passes))
      | inr fails ↦ fails
    ]))
tally-same f (x ∷ xs) ys (out, dx) dy same =
    let rest = tally-same (but x f) xs ys dx dy (λ k h.
      let passes : f k ≡ true = ground (arith, h) in
      let other : (k == x) ≡ false = ground (arith, h) in ground (arith, same k passes, other)) in
    let left = tally-but-out f x xs out in
    elim (Bool-cases (f x)) [
      | inl passes ↦
          let there : elem x ys ≡ true = sym (same x passes) ∙ ground arith in
          omega (arith, tally-but f x ys dy there, left, rest)
      | inr fails ↦
          let alike : tally (but x f) ys ≡ tally f ys = tally-agree (but x f) f ys (λ k h.
            elim (Bool-cases (k == x)) [
              | inl here ↦
                  let bad : f k ≡ false = ap f ((==_iff k x).0 here) ∙ fails in
                  rw bad (ground arith)
              | inr other ↦ rw other refl
            ]) in
          rw fails (omega (arith, left, rest, alike))
    ]

-- The shards of a map have the keys of the map.
pub tally-shards :
    {V : Type 0} (t : Trie V) (r : t.Map) (n : ℕ) (f : ℕ → Bool)
    → 0 < n
    → tally f (concat (t.shards r n)) ≡ tally f (t.keys r)
tally-shards t r n f pos =
    tally-same f (concat (t.shards r n)) (t.keys r) (t.shards-Distinct r n pos) (t.keys-Distinct r)
      (λ k h. t.elem-shards r n k pos ∙ sym (t.elem-keys r k))

-- Maps with the same entries have as many that pass a test.
pub tally-maps :
    {V : Type 0} (t : Trie V) (r r' : t.Map) (test : Option V → Bool)
    → ((k : ℕ) → t.get r k ≡ t.get r' k)
    → tally (λ k. test (t.get r k)) (t.keys r) ≡ tally (λ k. test (t.get r' k)) (t.keys r')
tally-maps t r r' test same =
    tally-agree (λ k. test (t.get r k)) (λ k. test (t.get r' k)) (t.keys r)
      (λ k h. ap test (same k))
    ∙ tally-same (λ k. test (t.get r' k)) (t.keys r) (t.keys r') (t.keys-Distinct r)
        (t.keys-Distinct r') (λ k h. t.elem-keys r k ∙ ap is_some (same k) ∙ sym (t.elem-keys r' k))

tally-all :
    (f : ℕ → Bool) (xs : List ℕ)
    → ((k : ℕ) → elem k xs ≡ true → f k ≡ true)
    → tally f xs ≡ length xs
tally-all f [] all = refl
tally-all f (x ∷ xs) all =
    let here : f x ≡ true = all x (ground arith) in
    let rest = tally-all f xs (λ k h. all k (ground (arith, h))) in rw (here, rest) (omega arith)

pub tally-keys :
    {V : Type 0} (t : Trie V) (r : t.Map)
    → tally (λ k. is_some (t.get r k)) (t.keys r) ≡ length (t.keys r)
tally-keys t r = tally-all (λ k. is_some (t.get r k)) (t.keys r) (λ k h. sym (t.elem-keys r k) ∙ h)

module _ {S V : Type 0} (held : S → ℕ → V) (change : V → V) (test : V → Bool) (count : S → ℕ) where
  abbrev passing : S → ℕ → Bool
  passing s k = test (held s k)

  -- A pass counts the keys of its list that hold what passes the test before it.
  abbrev pub Counts : (S → List ℕ → S) → Type 0
  Counts pass =
      (s : S) (ks : List ℕ) → Distinct ks → count (pass s ks) ≡ count s + tally (passing s) ks

  pub foldl-Counts :
      (visit : S → ℕ → S)
      → Visits held change visit
      → ((s : S) (j : ℕ) → count (visit s j) ≡ count s + one_if (test (held s j)))
      → Counts (foldl visit)
  foldl-Counts visit one step s [] d = omega arith
  foldl-Counts visit one step s (j ∷ ks) d =
      let rest = foldl-Counts visit one step (visit s j) ks d.1 in
      let same : tally (passing (visit s j)) ks ≡ tally (passing s) ks =
        tally-agree (passing (visit s j)) (passing s) ks (λ k h. elim (Bool-cases (k == j)) [
          | inl here ↦
              let e : k ≡ j = (==_iff k j).0 here in
              let bad : elem j ks ≡ true = subst (λ k. elem k ks ≡ true) e h in
              absurd (ground (arith, d.0, bad))
          | inr other ↦ rw (one s j k, other) refl
        ]) in
      omega (arith, step s j, rest, same)

  pub shards-count :
      (pass : S → List ℕ → S)
      → Passes held change pass
      → Counts pass
      → (xss : List (List ℕ)) (s : S) → Distinct (concat xss)
      → count (foldl pass s xss) ≡ count s + tally (passing s) (concat xss)
  shards-count pass one counts [] s d = omega arith
  shards-count pass one counts (xs ∷ xss) s d =
      let (dx, dxs, apart) = Distinct-append xs (concat xss) d in
      let rest = shards-count pass one counts xss (pass s xs) dxs in
      let same : tally (passing (pass s xs)) (concat xss) ≡ tally (passing s) (concat xss) =
        tally-agree (passing (pass s xs)) (passing s) (concat xss) (λ k h.
          elim (Bool-cases (elem k xs)) [
            | inl inside ↦ absurd (ground (arith, apart k inside, h))
            | inr outside ↦ rw (one s xs k dx, outside) refl
          ]) in
      omega (arith, counts s xs dx, rest, same, tally-append (passing s) xs (concat xss))
