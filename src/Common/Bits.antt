-- ===== src/Common/Bits.antt =====
-- Masks: what `bit_and` and `bit_or` do with the masks of the collector, in terms of `/` and `%`.
use Prim.Native.Nat.{
  ℕ, zero, suc, ◌+◌, ◌-◌, ◌*◌, ◌/◌, ◌%◌, ◌^◌, ◌≤◌, ◌<◌, min, max, bit_and, bit_or, digits,
  bit_and-bitwise, bit_or-bitwise,
}
use mathlib.Core.Path.{◌≡◌, refl, ap}
use native.Mathlib.Nat.{pow-suc}
use native.Mathlib.Omega.{arith}

-- The recursion on binary digits that the native operations stand for, on enough fuel.
abbrev and_on : ℕ → ℕ → ℕ → ℕ
and_on fuel a b = digits (λ _. zero) min fuel a b

abbrev or_on : ℕ → ℕ → ℕ → ℕ
or_on fuel a b = digits (λ b. b) max fuel a b

and_on-fuel : (n m a b : ℕ) → a ≤ n → a ≤ m → and_on n a b ≡ and_on m a b
and_on-fuel zero zero a b p q = refl
and_on-fuel zero (suc m) zero b p q = refl
and_on-fuel zero (suc m) (suc a) b p q = absurd (omega arith)
and_on-fuel (suc n) zero zero b p q = refl
and_on-fuel (suc n) zero (suc a) b p q = absurd (omega arith)
and_on-fuel (suc n) (suc m) zero b p q = refl
and_on-fuel (suc n) (suc m) (suc a) b p q =
    omega (arith, and_on-fuel n m (suc a / 2) (b / 2) (omega arith) (omega arith))

or_on-fuel : (n m a b : ℕ) → a ≤ n → a ≤ m → or_on n a b ≡ or_on m a b
or_on-fuel zero zero a b p q = refl
or_on-fuel zero (suc m) zero b p q = refl
or_on-fuel zero (suc m) (suc a) b p q = absurd (omega arith)
or_on-fuel (suc n) zero zero b p q = refl
or_on-fuel (suc n) zero (suc a) b p q = absurd (omega arith)
or_on-fuel (suc n) (suc m) zero b p q = refl
or_on-fuel (suc n) (suc m) (suc a) b p q =
    omega (arith, or_on-fuel n m (suc a / 2) (b / 2) (omega arith) (omega arith))

zero-and : (b : ℕ) → bit_and 0 b ≡ 0
zero-and b = bit_and-bitwise 0 b

zero-or : (b : ℕ) → bit_or 0 b ≡ b
zero-or b = bit_or-bitwise 0 b

and-digit : (a b : ℕ) → bit_and a b ≡ bit_and (a / 2) (b / 2) * 2 + min (a % 2) (b % 2)
and-digit zero b = omega (arith, zero-and b, zero-and (b / 2))
and-digit (suc a) b = omega (
  arith,
  bit_and-bitwise (suc a) b,
  bit_and-bitwise (suc a / 2) (b / 2),
  and_on-fuel a (suc a / 2) (suc a / 2) (b / 2) (omega arith) (omega arith),
)

or-digit : (a b : ℕ) → bit_or a b ≡ bit_or (a / 2) (b / 2) * 2 + max (a % 2) (b % 2)
or-digit zero b = omega (arith, zero-or b, zero-or (b / 2))
or-digit (suc a) b = omega (
  arith,
  bit_or-bitwise (suc a) b,
  bit_or-bitwise (suc a / 2) (b / 2),
  or_on-fuel a (suc a / 2) (suc a / 2) (b / 2) (omega arith) (omega arith),
)

and-nil_on : (fuel a : ℕ) → a ≤ fuel → bit_and a 0 ≡ 0
and-nil_on fuel zero h = zero-and 0
and-nil_on zero (suc a) h = absurd (omega arith)
and-nil_on (suc fuel) (suc a) h =
    omega (arith, and-digit (suc a) 0, and-nil_on fuel (suc a / 2) (omega arith))

or-nil_on : (fuel a : ℕ) → a ≤ fuel → bit_or a 0 ≡ a
or-nil_on fuel zero h = zero-or 0
or-nil_on zero (suc a) h = absurd (omega arith)
or-nil_on (suc fuel) (suc a) h =
    omega (arith, or-digit (suc a) 0, or-nil_on fuel (suc a / 2) (omega arith))

and-nil : (a : ℕ) → bit_and a 0 ≡ 0
and-nil a = and-nil_on a a (omega arith)

pub or-nil : (a : ℕ) → bit_or a 0 ≡ a
or-nil a = or-nil_on a a (omega arith)

-- `k` ones.
ones : ℕ → ℕ
ones zero = 0
ones (suc k) = ones k * 2 + 1

double_row : (q k : ℕ) → q * 2 ^ suc k ≡ q * 2 ^ k * 2
double_row q k = omega (arith, ap (λ (p : ℕ). q * p) (pow-suc 2 k))

ones-eq : (k : ℕ) → ones k + 1 ≡ 2 ^ k
unfolding ones
ones-eq zero = refl
ones-eq (suc k) = omega (arith, ones-eq k, pow-suc 2 k)

-- The digits above the mask are cut off, the digits below it stay.
and-ones_split : (k q r : ℕ) → r < 2 ^ k → bit_and (q * 2 ^ k + r) (ones k) ≡ r
unfolding ones
and-ones_split zero q r h = omega (arith, and-nil (q * 2 ^ 0 + r))
and-ones_split (suc k) q r h = ground (
  arith,
  and-digit (q * 2 ^ suc k + r) (ones k * 2 + 1),
  double_row q k,
  pow-suc 2 k,
  and-ones_split k q (r / 2) (omega (arith, pow-suc 2 k)),
)

and-ones : (k a : ℕ) → bit_and a (ones k) ≡ a % 2 ^ k
and-ones k a = ground (arith, ones-eq k, and-ones_split k (a / 2 ^ k) (a % 2 ^ k))

-- The low masks.
pub and-one : (a : ℕ) → bit_and a 1 ≡ a % 2
unfolding ones
and-one a = and-ones 1 a

pub and_three : (a : ℕ) → bit_and a 3 ≡ a % 4
unfolding ones
and_three a = and-ones 2 a

pub and-two : (a : ℕ) → bit_and a 2 ≡ a / 2 % 2 * 2
and-two a = omega (arith, and-digit a 2, and-one (a / 2))

pub or-one : (a : ℕ) → bit_or a 1 ≡ a + (1 - a % 2)
or-one a = omega (arith, or-digit a 1, or-nil (a / 2))

pub or-two : (a : ℕ) → bit_or a 2 ≡ a + 2 * (1 - a / 2 % 2)
or-two a = omega (arith, or-digit a 2, or-one (a / 2))

pub or_three : (a : ℕ) → bit_or a 3 ≡ a + (3 - a % 4)
or_three a = omega (arith, or-digit a 3, or-one (a / 2))

-- The complements of the low masks, on a 64-bit word.
pub and-not_one : (a : ℕ) → a < 2 ^ 64 → bit_and a (2 ^ 64 - 2) ≡ a - a % 2
unfolding ones
and-not_one a h = omega (arith, and-digit a (2 ^ 64 - 2), and-ones 63 (a / 2))

pub and-not_two : (a : ℕ) → a < 2 ^ 64 → bit_and a (2 ^ 64 - 3) ≡ a - a / 2 % 2 * 2
unfolding ones
and-not_two a h =
    omega (arith, and-digit a (2 ^ 64 - 3), and-digit (a / 2) (2 ^ 63 - 2), and-ones 62 (a / 2 / 2))

pub and-not_three : (a : ℕ) → a < 2 ^ 64 → bit_and a (2 ^ 64 - 4) ≡ a - a % 4
unfolding ones
and-not_three a h =
    omega (arith, and-digit a (2 ^ 64 - 4), and-digit (a / 2) (2 ^ 63 - 2), and-ones 62 (a / 2 / 2))
