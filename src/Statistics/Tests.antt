-- ===== src/Statistics/Tests.antt =====
-- The theorem on the logger at a concrete input: three of ten milliseconds active, six objects
-- dropped.
use mo_gc.Common.{ℕ, ◌-◌, ◌≡◌, arith}
use mo_gc.Statistics.{DefaultLogger}
use mo_gc.Statistics.Dump.{dump_to_stdout, printed, dump_to_stdout_lem}

abbrev log : DefaultLogger ℕ
log = record {
  max_heap_size = 9;
  total_dropped = 6;
  drop_iterations = 2;
  start_time = 5;
  stop_time = 15;
  sleep_time = 7;
}

abbrev since : ℕ → ℕ → ℕ
since start stop = stop - start

dump_to_stdout_example : dump_to_stdout since log ≡ printed since log
dump_to_stdout_example = dump_to_stdout_lem since log (omega arith) (omega arith) (omega arith)
