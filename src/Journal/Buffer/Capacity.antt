-- ===== src/Journal/Buffer/Capacity.antt =====
-- The rounding of a requested capacity.
use mo_gc.Common.{
  ℕ, zero, suc, ◌*◌, ◌+◌, ◌^◌, ◌≤◌, ◌<◌, ◌≡◌, refl, ap, ◌∙◌, subst, ◌⊎◌, inl, inr, leb, Bool-cases,
  arith,
}
use mo_gc.Journal.Buffer.{doubling, next_power_of_two}
use native.Mathlib.Nat.{pow-suc, one-le-pow, pow-le-pow_right}

-- What a doubling loop from `2 ^ e` gives: the least power of two from there on that `n` fits.
abbrev Rounded : ℕ → ℕ → ℕ → ℕ → Type 0
Rounded e last n r = (k : ℕ) × (r ≡ 2 ^ k) × (n ≤ 2 ^ k) × (k ≤ last) × ((k ≡ e) ⊎ (2 ^ k < 2 * n))

doubling-Rounded :
    (fuel e last n : ℕ)
    → e + fuel ≡ last
    → n ≤ 2 ^ last
    → Rounded e last n (doubling (suc fuel) (2 ^ e) n)
unfolding doubling
doubling-Rounded zero e last n s h =
    let s' : last ≡ e = omega arith in
    let fits : n ≤ 2 ^ e = subst (λ l. n ≤ 2 ^ l) s' h in
    (e, ground arith, fits, omega arith, inl refl)
doubling-Rounded (suc fuel) e last n s h = elim (Bool-cases (leb n (2 ^ e))) [
  | inl small ↦ (e, rw small, ground arith, omega arith, inl refl)
  | inr large ↦
      let (k, r, fits, bound, least) = doubling-Rounded fuel (suc e) last n (omega arith) h in
      (
        k,
        rw large (rw (← pow-suc 2 e) r),
        fits,
        bound,
        elim least [ inl first ↦ inr (ground (arith, pow-suc 2 e, first)) | inr more ↦ inr more ],
      )
]

-- A request of up to 2 ^ 63 items is rounded up to the least power of two that it fits.
pub next_power_of_two_least :
    (n : ℕ)
    → n ≤ 2 ^ 63
    → (k : ℕ) × (next_power_of_two n ≡ 2 ^ k)
      × (n ≤ next_power_of_two n)
      × (k ≤ 63)
      × ((next_power_of_two n ≡ 1) ⊎ (next_power_of_two n < 2 * n))
unfolding next_power_of_two
next_power_of_two_least n h =
    let (k, r, fits, bound, least) = doubling-Rounded 63 0 63 n refl h in
    (
      k,
      r,
      rw r fits,
      bound,
      elim least [ inl first ↦ inl (r ∙ ap (λ e. 2 ^ e) first) | inr more ↦ inr (rw r more) ],
    )

-- A bound on the rounding.
pub next_power_of_two_le : (n : ℕ) → n ≤ 2 ^ 63 → next_power_of_two n ≤ 2 * n + 1
next_power_of_two_le n h =
    let (k, r, fits, bound, least) = next_power_of_two_least n h in
    elim least [ inl one ↦ omega (arith, one) | inr less ↦ omega (arith, less) ]

-- The capacity of a buffer: asked for again, it is not rounded any further.
pub record IsCapacity (cap : ℕ) : Type 0 where
  pub rounded : next_power_of_two cap ≡ cap
  pub pos : 0 < cap
  pub fits : cap < 2 ^ 64

lt_trichotomy : (j k : ℕ) → (j < k) ⊎ ((j ≡ k) ⊎ (k < j))
lt_trichotomy j k = grind arith

pow-lt-pow : (j k : ℕ) → j < k → 2 * 2 ^ j ≤ 2 ^ k
pow-lt-pow j k h = ground (arith, pow-suc 2 j, pow-le-pow_right {n = 2} (omega arith) h)

two_pow-rounded : (k : ℕ) → k ≤ 63 → next_power_of_two (2 ^ k) ≡ 2 ^ k
two_pow-rounded k h =
    let big : 2 ^ k ≤ 2 ^ 63 = pow-le-pow_right {n = 2} (omega arith) h in
    let (j, r, fits, bound, least) = next_power_of_two_least (2 ^ k) big in
    elim (lt_trichotomy j k) [
      | inl below ↦ absurd (omega (arith, pow-lt-pow j k below, one-le-pow j 2 (omega arith)))
      | inr (inl same) ↦ r ∙ ap (λ e. 2 ^ e) same
      | inr (inr above) ↦ absurd (omega (arith, pow-lt-pow k j above, one-le-pow k 2 (omega arith)))
    ]

pub next_power_of_two-IsCapacity : (n : ℕ) → n ≤ 2 ^ 63 → IsCapacity (next_power_of_two n)
next_power_of_two-IsCapacity n h =
    let (k, r, fits, bound, least) = next_power_of_two_least n h in
    let small : 2 ^ k ≤ 2 ^ 63 = pow-le-pow_right {n = 2} (omega arith) bound in
    record {
      rounded = rw r (two_pow-rounded k bound);
      pos = rw r (one-le-pow k 2 (omega arith));
      fits = rw r (omega arith);
    }
