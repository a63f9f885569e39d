-- ===== src/Statistics/Dump.antt =====
-- src/statistics.rs, `DefaultLogger::dump_to_stdout`: the figures that are printed.
pub mod Signed
use mo_gc.Common.{
  ℕ, ◌+◌, ◌-◌, ◌*◌, ◌/◌, ◌%◌, ◌^◌, ◌<◌, ◌≡◌, ◌≢◌, refl, ap, ◌∙◌, max, Option, none, some, inl, inr,
  ◌==◌, ltb, if◌then◌else◌, Bool-cases, ==_iff, arith,
}
use mo_gc.Common.Words.{wrapping_sub}
use mo_gc.Statistics.{DefaultLogger}
use mo_gc.Statistics.Dump.Signed.{
  wrapping_mul, signed_max, signed_div, mul_small, max_one, div_small, mul_negative, div_negative,
  div_by_negative,
}

-- What is printed, in the order of the arguments of `println!`.
pub record Figures : Type 0 where
  pub max_heap_size : ℕ
  pub total_dropped : ℕ
  pub dropped_per_second : ℕ
  pub active_time : ℕ
  pub total_time : ℕ
  pub percent_active_time : ℕ

-- What a panic skips.
infixl 10 ◌>>=◌
abbrev ◌>>=◌ {κ μ} : {A : Type κ} {B : Type μ} → Option A → (A → Option B) → Option B
none >>= f = none
some a >>= f = f a

-- Given `(stop - start).num_milliseconds()` of the crate `time`, an i64. None is a panic.
unfoldable pub dump_to_stdout :
    {Time : Type 0} → (Time → Time → ℕ) → DefaultLogger Time → Option Figures
unfolding wrapping_mul signed_max signed_div
dump_to_stdout num_milliseconds log =
    let total_time = signed_max (num_milliseconds log.start_time log.stop_time) 1 in
    let active_time = wrapping_sub total_time log.sleep_time in
    do
      percent_active_time ← signed_div (wrapping_mul active_time 100) total_time
      dropped_per_second ← signed_div (wrapping_mul log.total_dropped 1000) active_time
      some (record {
        max_heap_size = log.max_heap_size;
        total_dropped = log.total_dropped;
        dropped_per_second = dropped_per_second;
        active_time = active_time;
        total_time = total_time;
        percent_active_time = percent_active_time;
      })

module _ {Time : Type 0} (num_milliseconds : Time → Time → ℕ) (log : DefaultLogger Time) where
  abbrev elapsed : ℕ
  elapsed = num_milliseconds log.start_time log.stop_time

  abbrev pub total : ℕ
  total = max elapsed 1

  -- The figures of an active time, with what the divisions gave.
  abbrev figures_of : ℕ → ℕ → ℕ → Figures
  figures_of dropped active percent = record {
    max_heap_size = log.max_heap_size;
    total_dropped = log.total_dropped;
    dropped_per_second = dropped;
    active_time = active;
    total_time = total;
    percent_active_time = percent;
  }

  -- The figures of a thread that was active for this long.
  abbrev active_for : ℕ → Figures
  active_for active = figures_of (log.total_dropped * 1000 / active) active (active * 100 / total)

  -- The figures where the sleep that was asked for exceeds the total time by this much: three of
  -- them are negative.
  abbrev behind_by : ℕ → Figures
  behind_by excess =
      figures_of (wrapping_sub 0 (log.total_dropped * 1000 / excess)) (wrapping_sub 0 excess)
        (wrapping_sub 0 (excess * 100 / total))

  abbrev pub printed : Option Figures
  printed =
      if log.sleep_time == total
      then none
      else if ltb log.sleep_time total
      then some (active_for (total - log.sleep_time))
      else some (behind_by (log.sleep_time - total))

  dumped :
      (active percent dropped : ℕ)
      → elapsed < 2 ^ 56
      → log.total_dropped < 2 ^ 53
      → wrapping_sub total log.sleep_time ≡ active
      → signed_div (wrapping_mul active 100) total ≡ some percent
      → signed_div (log.total_dropped * 1000) active ≡ some dropped
      → dump_to_stdout num_milliseconds log ≡ some (figures_of dropped active percent)
  unfolding dump_to_stdout
  dumped active percent dropped short few now first second =
      let time : signed_max elapsed 1 ≡ total = max_one elapsed (omega (arith, short)) in
      let rate : wrapping_mul log.total_dropped 1000 ≡ log.total_dropped * 1000 =
        mul_small log.total_dropped 1000 (omega (arith, few)) in
      rw (time, now, rate, first, second) refl

  dumped-panics :
      elapsed < 2 ^ 56 → log.sleep_time ≡ total → dump_to_stdout num_milliseconds log ≡ none
  unfolding dump_to_stdout
  dumped-panics short all =
      let time : signed_max elapsed 1 ≡ total = max_one elapsed (omega (arith, short)) in
      let now : wrapping_sub total log.sleep_time ≡ 0 = omega (arith, short, all) in
      let first = div_small 0 total (omega arith) (omega arith) (omega (arith, short)) in
      rw (time, now, mul_small 0 100 (omega arith), first) refl

  dumped-active :
      elapsed < 2 ^ 56
      → log.total_dropped < 2 ^ 53
      → log.sleep_time < total
      → dump_to_stdout num_milliseconds log ≡ some (active_for (total - log.sleep_time))
  dumped-active short few less =
      let active = total - log.sleep_time in
      dumped active _ _ short few (omega (arith, short, less))
        (ap (λ x. signed_div x total) (mul_small active 100 (omega (arith, short)))
          ∙ div_small (active * 100) total (omega (arith, short)) (omega arith)
              (omega (arith, short)))
        (div_small (log.total_dropped * 1000) active (omega (arith, few)) (omega (arith, less))
          (omega (arith, short)))

  dumped-behind :
      elapsed < 2 ^ 56
      → log.total_dropped < 2 ^ 53
      → log.sleep_time < 2 ^ 56
      → total < log.sleep_time
      → dump_to_stdout num_milliseconds log ≡ some (behind_by (log.sleep_time - total))
  dumped-behind short few bound more =
      let excess = log.sleep_time - total in
      dumped (wrapping_sub 0 excess) _ _ short few (omega (arith, short, bound, more))
        (ap (λ x. signed_div x total)
            (mul_negative excess (omega (arith, more)) (omega (arith, bound)))
          ∙ div_negative (excess * 100) total (omega (arith, more)) (omega (arith, bound))
              (omega arith) (omega (arith, short)))
        (div_by_negative (log.total_dropped * 1000) excess (omega (arith, few))
          (omega (arith, more)) (omega (arith, bound)))

  -- What the logger prints of a run of less than 2 ^ 56 milliseconds, with less than 2 ^ 53 dropped
  -- objects and less than 2 ^ 56 milliseconds of sleep: where the sleep makes up all of the (at
  -- least one millisecond of) total time, the print panics. Where it is less, the active time is
  -- the rest, and its percentage and the objects dropped per second of it are rounded down. Where it
  -- is more, these three are negative, rounded towards zero.
  pub dump_to_stdout_lem :
      elapsed < 2 ^ 56
      → log.total_dropped < 2 ^ 53
      → log.sleep_time < 2 ^ 56
      → dump_to_stdout num_milliseconds log ≡ printed
  dump_to_stdout_lem short few bound = elim (Bool-cases (log.sleep_time == total)) [
    | inl all ↦ dumped-panics short ((==_iff log.sleep_time total).0 all) ∙ rw all refl
    | inr not_all ↦ elim (Bool-cases (ltb log.sleep_time total)) [
      | inl less ↦ dumped-active short few (ground (arith, less)) ∙ rw (not_all, less) refl
      | inr more ↦
          dumped-behind short few bound (ground (arith, more, not_all)) ∙ rw (not_all, more) refl
    ]
  ]
