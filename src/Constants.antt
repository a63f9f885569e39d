-- ===== src/Constants.antt =====
-- src/constants.rs: parameters of the collector, bits and masks.
use mo_gc.Common.{ℕ}
use mo_gc.Common.Words.{complement}

abbrev pub journal_buffer_size : ℕ
journal_buffer_size = 32768

abbrev pub buffer_run : ℕ
buffer_run = 1024

abbrev pub journal_run : ℕ
journal_run = 32

-- milliseconds
abbrev pub max_sleep_dur : ℕ
max_sleep_dur = 100

abbrev pub min_sleep_dur : ℕ
min_sleep_dur = 1

-- `1 << 20`
abbrev pub major_collect_threshold : ℕ
major_collect_threshold = 1_048_576

abbrev pub ptr_mask : ℕ
ptr_mask = complement 3

abbrev pub mark_bit : ℕ
mark_bit = 1

abbrev pub mark_mask : ℕ
mark_mask = complement 1

abbrev pub traverse_bit : ℕ
traverse_bit = 2

abbrev pub flags_mask : ℕ
flags_mask = 3

abbrev pub inc_bit : ℕ
inc_bit = 1

abbrev pub new_bit : ℕ
new_bit = 2

abbrev pub new_mask : ℕ
new_mask = complement 2
