-- ===== src/Clock/Ticks.antt =====
-- What ps2_clock of src/time.c reads after a number of ticks.
use native.Mathlib.Nat.{mod-eq_of_lt}
use net_gitaroo.Common.{
  Bool-cases, Option, arith, false, if◌then◌else◌, inl, inr, suc, true, ℕ, ◌%◌, ◌*◌, ◌+◌, ◌<◌, ◌==◌,
  ◌^◌, ◌≡◌,
}
use net_gitaroo.Clock.{Timer, intr_overflow, ps2_clock, time_init}

-- The timer counts one tick up, and sets the overflow flag when it starts again at 0.
abbrev pub tick : Timer → Timer
tick r = record r {
  t_count = (r.t_count + 1) % 2 ^ 16;
  overflow_flag = if r.t_count == 65535 then true else r.overflow_flag;
}

-- The overflow that has not been served.
abbrev pub unserved : Timer → ℕ
unserved r = if r.overflow_flag then 1 else 0

-- Runs since _ps2sdk_time_init with the number of ticks, where `stale` is the overflow that had not
-- been served before; an overflow is served before the next one.
pub data Ticks (size : ℕ) (stale : ℕ) : Timer → ℕ → Type 0 where
  starts_timer :
      (handler : Option ℕ) (r : Timer)
      → unserved r ≡ stale
      → Ticks size stale (time_init handler r) 0
  counts :
      {r : Timer} {n : ℕ}
      → (r.t_count ≡ 65535 → r.overflow_flag ≡ false)
      → Ticks size stale r n
      → Ticks size stale (tick r) (suc n)
  serves :
      {r : Timer} {n : ℕ}
      → r.overflow_flag ≡ true
      → Ticks size stale r n
      → Ticks size stale (intr_overflow size r) n

abbrev Elapsed : Timer → ℕ → Type 0
Elapsed r n = (r.t_count < 65536) × (r.t_count + (r.overflow_count + unserved r) * 65536 ≡ n)

Ticks-Elapsed :
    {size stale : ℕ} {r : Timer} {n : ℕ}
    → Ticks size stale r n
    → n + stale * 65536 < size
    → Elapsed r (n + stale * 65536)
unfolding time_init intr_overflow
Ticks-Elapsed (starts_timer handler r flag) few = (omega arith, omega (arith, flag))
Ticks-Elapsed (counts {r} {n} once run) few =
    let (l, e) = Ticks-Elapsed run (omega (arith, few)) in
    elim (Bool-cases (r.t_count == 65535)) [
      | inl full ↦
          let wrapped : r.t_count ≡ 65535 = ground arith in
          let flag = once wrapped in
          let before = rw flag at e in rw full (omega arith, omega (arith, wrapped, before))
      | inr more ↦ rw more (omega arith, ground (arith, l, e))
    ]
Ticks-Elapsed {size} (serves {r} {n} flag run) few =
    let (l, e) = Ticks-Elapsed run few in
    let before = rw flag at e in
    let small = mod-eq_of_lt {n = r.overflow_count + 1} {m = size} (omega (arith, before, few)) in
    rw small (l, omega (arith, before))

-- After `n` ticks since _ps2sdk_time_init ps2_clock reads `n`, and 65536 less while an overflow has not
-- been served, and 65536 more if one had not been served when the timer was started; if each overflow is
-- served before the next one and the sum of all these fits ps2_clock_t.
pub ps2_clock-elapsed :
    {size stale : ℕ} {r : Timer} {n : ℕ}
    → Ticks size stale r n
    → n + stale * 65536 < size
    → ps2_clock size r + unserved r * 65536 ≡ n + stale * 65536
unfolding ps2_clock
ps2_clock-elapsed {size} {stale} {r} {n} run few =
    let (l, e) = Ticks-Elapsed run few in
    let high = mod-eq_of_lt {n = r.overflow_count * 2 ^ 16} {m = size} (omega (arith, e, few)) in
    let all =
      mod-eq_of_lt {n = r.t_count + r.overflow_count * 2 ^ 16} {m = size} (omega (arith, e, few)) in
    rw (high, all) (omega (arith, e))
