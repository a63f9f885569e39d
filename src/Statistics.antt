-- ===== src/Statistics.antt =====
-- src/statistics.rs: what the collector tells a logger, and the counters of `DefaultLogger`.
pub mod Dump
mod Tests
use mo_gc.Common.{ℕ, max}
use mo_gc.Common.Words.{wrapping_add}

-- `StatsLogger`. A time is what `get_time` returned.
pub record StatsLogger (Time : Type 0) : Type 1 where
  pub Log : Type 0
  pub mark_start_time : Time → Log → Log
  pub mark_end_time : Time → Log → Log
  pub add_sleep : ℕ → Log → Log
  pub add_dropped : ℕ → Log → Log
  pub current_heap_size : ℕ → Log → Log

pub record DefaultLogger (Time : Type 0) : Type 0 where
  pub max_heap_size : ℕ
  pub total_dropped : ℕ
  pub drop_iterations : ℕ
  pub start_time : Time
  pub stop_time : Time
  pub sleep_time : ℕ

-- `DefaultLogger::new`, given `Timespec::new(0, 0)`
unfoldable pub new_logger : {Time : Type 0} → Time → DefaultLogger Time
new_logger epoch = record {
  max_heap_size = 0;
  total_dropped = 0;
  drop_iterations = 0;
  start_time = epoch;
  stop_time = epoch;
  sleep_time = 0;
}

-- The implementation of `StatsLogger` for `DefaultLogger`.
unfoldable pub default_logger : (Time : Type 0) → StatsLogger Time
default_logger Time = record {
  Log = DefaultLogger Time;
  mark_start_time = λ now log. record log { start_time = now };
  mark_end_time = λ now log. record log { stop_time = now };
  add_sleep = λ ms log. record log { sleep_time = wrapping_add log.sleep_time ms };
  add_dropped = λ count log. record log {
    total_dropped = wrapping_add log.total_dropped count;
    drop_iterations = wrapping_add log.drop_iterations 1;
  };
  current_heap_size = λ size log. record log { max_heap_size = max log.max_heap_size size };
}
