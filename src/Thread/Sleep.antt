-- ===== src/Thread/Sleep.antt =====
-- How long the collector thread sleeps when it reads nothing.
use mo_gc.Common.{ℕ, zero, suc, ◌^◌, ◌<◌, ◌≡◌, min, arith}
use native.Mathlib.Nat.{pow-suc}
use mo_gc.Constants.{max_sleep_dur}
use mo_gc.Thread.{next_sleep}

-- The duration after `n` iterations in a row that read nothing.
abbrev pub idle : ℕ → ℕ → ℕ
idle zero sleep_dur = sleep_dur
idle (suc n) sleep_dur = next_sleep 0 (idle n sleep_dur)

-- After an iteration that read something, `n` iterations that read nothing double the duration of
-- one millisecond `n` times, up to the maximum; before anything was ever read the duration is zero,
-- however many iterations read nothing.
pub idle-next_sleep :
    (entries_read n : ℕ) (sleep_dur : ℕ)
    → 0 < entries_read
    → (idle n (next_sleep entries_read sleep_dur) ≡ min (2 ^ n) max_sleep_dur) × (idle n 0 ≡ 0)
unfolding next_sleep
idle-next_sleep entries_read zero sleep_dur pos = ground arith
idle-next_sleep entries_read (suc n) sleep_dur pos =
    ground (arith, idle-next_sleep entries_read n sleep_dur pos, pow-suc 2 n)
