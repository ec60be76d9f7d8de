-- ===== src/Clock.antt =====
-- src/time.c: the clock, a 16-bit timer and a count of its overflows.
use net_gitaroo.Common.{Bool, Option, false, none, some, true, ℕ, ◌%◌, ◌*◌, ◌+◌, ◌/◌, ◌^◌}
pub mod Ticks

-- The registers T_COUNT and T_MODE, of which `counting` and the overflow flag, and
-- __time_intr_overflow_id and __time_intr_overflow_count.
pub record Timer : Type 0 where
  pub t_count : ℕ
  pub counting : Bool
  pub overflow_flag : Bool
  pub overflow_id : Option ℕ
  pub overflow_count : ℕ

-- _ps2sdk_time_init; `handler` is what AddIntcHandler returns, none for -1.
unfoldable pub time_init : (handler : Option ℕ) → Timer → Timer
time_init handler r = record r {
  overflow_id = elim r.overflow_id [ none ↦ handler | some id ↦ some id ];
  t_count = 0;
  counting = true;
  overflow_count = 0;
}

-- _ps2sdk_time_deinit
unfoldable pub time_deinit : Timer → Timer
time_deinit r = record r { counting = false; overflow_id = none; overflow_count = 0 }

-- `size` is one more than the largest ps2_clock_t, and `ticks` is PS2_CLOCKS_PER_SEC / CLOCKS_PER_SEC.
module _ (size : ℕ) where
  -- intrOverflow
  unfoldable pub intr_overflow : Timer → Timer
  intr_overflow r = record r {
    overflow_count = (r.overflow_count + 1) % size;
    overflow_flag = false;
  }

  unfoldable pub ps2_clock : Timer → ℕ
  ps2_clock r = (r.t_count + (r.overflow_count * 2 ^ 16) % size) % size

  -- clock
  unfoldable pub clock : (ticks : ℕ) → Timer → ℕ
  clock ticks r = ps2_clock r / ticks
