-- ===== src/Young/Deferred/Chunks.antt =====
-- What is in the chunks of the deferred decrements, and what a job takes from its chunk.
use mo_gc.Common.{
  ℕ, zero, suc, ◌+◌, ◌≤◌, ◌<◌, ◌≡◌, refl, ap, ◌∙◌, Option, none, some, List, [], ◌∷◌, ◌++◌, ◌==◌,
  if◌then◌else◌, length, arith,
}
use mo_gc.Heap.Object.{Object, key_of}
use mo_gc.Trie.{concat}
use mo_gc.Common.{take, drop}
use mo_gc.Young.Deferred.{chunks, next_of}

-- How often a key occurs among the objects.
abbrev pub occurrences : ℕ → List Object → ℕ
occurrences k [] = 0
occurrences k (o ∷ os) = (if k == key_of o.ptr then 1 else 0) + occurrences k os

abbrev pub once : ℕ → Option Object → ℕ
once k none = 0
once k (some o) = if k == key_of o.ptr then 1 else 0

pub occurrences-append :
    (k : ℕ) (xs ys : List Object) → occurrences k (xs ++ ys) ≡ occurrences k xs + occurrences k ys
occurrences-append k [] ys = omega arith
occurrences-append k (x ∷ xs) ys = omega (arith, occurrences-append k xs ys)

pub take-drop {ℓ} : {A : Type ℓ} (n : ℕ) (xs : List A) → take n xs ++ drop n xs ≡ xs
take-drop zero xs = refl
take-drop (suc n) [] = refl
take-drop (suc n) (x ∷ xs) = ap (λ l. x ∷ l) (take-drop n xs)

length-drop {ℓ} : {A : Type ℓ} (n : ℕ) (xs : List A) → length (drop n xs) ≤ length xs
length-drop zero xs = omega arith
length-drop (suc n) [] = omega arith
length-drop (suc n) (x ∷ xs) = omega (arith, length-drop n xs)

pub concat-chunks {ℓ} :
    {A : Type ℓ} (fuel size : ℕ) (xs : List A)
    → 0 < size
    → length xs ≤ fuel
    → concat (chunks fuel size xs) ≡ xs
unfolding chunks
concat-chunks fuel zero xs pos enough = absurd (omega arith)
concat-chunks zero (suc n) [] pos enough = refl
concat-chunks zero (suc n) (x ∷ xs) pos enough = absurd (omega arith)
concat-chunks (suc fuel) (suc n) [] pos enough = refl
concat-chunks (suc fuel) (suc n) (x ∷ xs) pos enough =
    ap (λ l. x ∷ (take n xs ++ l))
      (concat-chunks fuel (suc n) (drop n xs) pos (omega (arith, length-drop n xs)))
    ∙ ap (λ l. x ∷ l) (take-drop n xs)

pub next_of-occurrences :
    (jobs : List (List Object)) (i k : ℕ)
    → once k (next_of jobs i).0 + occurrences k (concat (next_of jobs i).1)
      ≡ occurrences k (concat jobs)
unfolding next_of
next_of-occurrences [] i k = omega arith
next_of-occurrences ([] ∷ jobs) zero k = omega arith
next_of-occurrences ((o ∷ os) ∷ jobs) zero k = omega arith
next_of-occurrences ([] ∷ jobs) (suc i) k = next_of-occurrences jobs i k
next_of-occurrences ((o ∷ os) ∷ jobs) (suc i) k = omega (
  arith,
  next_of-occurrences jobs i k,
  occurrences-append k os (concat jobs),
  occurrences-append k os (concat (next_of jobs i).1),
)
