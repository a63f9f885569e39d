-- ===== src/Statistics/Dump/Signed.antt =====
-- The operations on i64 that src/statistics.rs uses. A value is its 64 bits, as a number; additions
-- and multiplications wrap around, and a division panics by zero and where it overflows.
use mo_gc.Common.{
  ℕ, ◌+◌, ◌-◌, ◌*◌, ◌/◌, ◌%◌, ◌^◌, ◌<◌, ◌≡◌, Bool, not, ◌&&◌, max, Option, none, some, ◌==◌, ltb,
  if◌then◌else◌, arith,
}
use mo_gc.Common.Words.{wrapping_sub}

abbrev pub is_negative : ℕ → Bool
is_negative x = not (ltb x (2 ^ 63))

abbrev pub magnitude : ℕ → ℕ
magnitude x = if is_negative x then 2 ^ 64 - x else x

abbrev pub negated_if : Bool → ℕ → ℕ
negated_if b x = if b then wrapping_sub 0 x else x

unfoldable pub wrapping_mul : ℕ → ℕ → ℕ
wrapping_mul x y = x * y % 2 ^ 64

-- The order of i64 is that of the words with the sign bit turned over.
unfoldable pub signed_max : ℕ → ℕ → ℕ
signed_max x y = if ltb ((x + 2 ^ 63) % 2 ^ 64) ((y + 2 ^ 63) % 2 ^ 64) then y else x

-- Rounds towards zero.
unfoldable pub signed_div : ℕ → ℕ → Option ℕ
signed_div x y =
    if y == 0
    then none
    else if (x == 2 ^ 63) && (y == 2 ^ 64 - 1)
    then none
    else some (negated_if (is_negative x) (negated_if (is_negative y) (magnitude x / magnitude y)))

-- On small values that are not negative these are the operations on numbers.
pub mul_small : (x y : ℕ) → x * y < 2 ^ 64 → wrapping_mul x y ≡ x * y
unfolding wrapping_mul
mul_small x y h = omega (arith, h)

pub max_one : (x : ℕ) → x < 2 ^ 63 → signed_max x 1 ≡ max x 1
unfolding signed_max
max_one x h = ground arith

pub div_small : (x y : ℕ) → x < 2 ^ 63 → 0 < y → y < 2 ^ 63 → signed_div x y ≡ some (x / y)
unfolding signed_div
div_small x y x_small pos y_small = ground arith

-- With one operand negative, the quotient is that of the sizes, negated.
pub mul_negative :
    (x : ℕ) → 0 < x → x < 2 ^ 56 → wrapping_mul (wrapping_sub 0 x) 100 ≡ wrapping_sub 0 (x * 100)
unfolding wrapping_mul
mul_negative x pos few = omega (arith, pos, few)

pub div_negative :
    (x y : ℕ)
    → 0 < x
    → x < 2 ^ 63
    → 0 < y
    → y < 2 ^ 63
    → signed_div (wrapping_sub 0 x) y ≡ some (wrapping_sub 0 (x / y))
unfolding signed_div
div_negative x y x_pos x_small y_pos y_small =
    let word : wrapping_sub 0 x ≡ 2 ^ 64 - x = omega (arith, x_pos, x_small) in
    let size : 2 ^ 64 - (2 ^ 64 - x) ≡ x = omega (arith, x_small) in rw word (ground (arith, size))

pub div_by_negative :
    (x y : ℕ)
    → x < 2 ^ 63
    → 0 < y
    → y < 2 ^ 63
    → signed_div x (wrapping_sub 0 y) ≡ some (wrapping_sub 0 (x / y))
unfolding signed_div
div_by_negative x y x_small y_pos y_small =
    let word : wrapping_sub 0 y ≡ 2 ^ 64 - y = omega (arith, y_pos, y_small) in
    let size : 2 ^ 64 - (2 ^ 64 - y) ≡ y = omega (arith, y_small) in rw word (ground (arith, size))
