-- ===== src/Common/Words.antt =====
-- `usize` on a 64-bit target: a number below `2 ^ 64`, with the wrap-around written out.
use Prim.Native.Nat.{ℕ, ◌+◌, ◌-◌, ◌*◌, ◌/◌, ◌%◌, ◌^◌, ◌<◌}

abbrev pub usize_values : ℕ
usize_values = 2 ^ 64

-- A value that fits a `usize`.
abbrev pub IsUsize : ℕ → Type 0
IsUsize a = a < 2 ^ 64

-- `fetch_add` and `fetch_sub` wrap around; so does `+` in a release build.
abbrev pub wrapping_add : ℕ → ℕ → ℕ
wrapping_add a b = (a + b) % 2 ^ 64

abbrev pub wrapping_sub : ℕ → ℕ → ℕ
wrapping_sub a b = (a + 2 ^ 64 - b) % 2 ^ 64

-- `a << k` and `a >> k` on a `usize`.
abbrev pub shl : ℕ → ℕ → ℕ
shl a k = a * 2 ^ k % 2 ^ 64

abbrev pub shr : ℕ → ℕ → ℕ
shr a k = a / 2 ^ k

-- `!a`.
abbrev pub complement : ℕ → ℕ
complement a = 2 ^ 64 - 1 - a
