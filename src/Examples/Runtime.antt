-- ===== src/Examples/Runtime.antt =====
-- The theorems on the runtime routines and on netman's transmit ring at concrete inputs.
use net_gitaroo.Common.{
  List, [], arith, false, if◌then◌else◌, inr, none, refl, some, subst, suc, true, zero, ℕ, ◌%◌, ◌*◌,
  ◌+◌, ◌<◌, ◌==◌, ◌^◌, ◌∷◌, ◌≡◌, ◌⊎◌,
}
use net_gitaroo.Util.{create_hook, memcmp, udivdi3}
use net_gitaroo.Util.Laws.{memcmp-equal}
use net_gitaroo.Util.Hooked.{create_hook-runs, goes_to, run_one, run_two}
use net_gitaroo.Bytes.{store_list}
use net_gitaroo.Netman.TxFlow.{registered, send_frame-never_waits}
use net_gitaroo.Netman.TxRing.{TxRing, cleared, register_network_stack, send_frame}
use net_gitaroo.Packets.{Bytes, null}
use net_gitaroo.Util.QueueRuns.{QueueCall, removes, run_calls, run_calls-list_calls, sets}
use net_gitaroo.Util.QueueSteps.{Active}
use net_gitaroo.Util.Queues.{RpcData}
use net_gitaroo.Clock.{Timer, intr_overflow, ps2_clock, time_init}
use net_gitaroo.Clock.Ticks.{Ticks, counts, ps2_clock-elapsed, serves, starts_timer, tick, unserved}

abbrev text : Bytes
text = store_list (λ a. 0) 0 (103 ∷ 110 ∷ 101 ∷ 116 ∷ 103 ∷ 110 ∷ 97 ∷ [])

memcmp-equal_example :
    ((memcmp 3 text 0 4 ≡ 0) × ((i : ℕ) → i < 3 → text (0 + i) ≡ text (4 + i)))
    ⊎ ((memcmp 3 text 0 4 ≡ 1) × ((i : ℕ) × (i < 3) × ((text (0 + i) == text (4 + i)) ≡ false)))
memcmp-equal_example = memcmp-equal 3 text 0 4

-- A quotient above 32 bits is not what it should be.
udivdi3_of_large : udivdi3 (2 ^ 32) 1 ≡ 0
unfolding udivdi3
udivdi3_of_large = refl

-- Two words that are no jumps: lw v0, 0(a0) and addu v1, v0, a1.
abbrev plain_code : ℕ → ℕ
plain_code a = if a == 0x100000 then 0x8c820000 else 0x00451821

create_hook-runs_example :
    let m = create_hook 0x100000 0x200000 0x300000 plain_code in
    (run_one m 0x100000 ≡ (0 ∷ [], goes_to 0x200000))
    × (run_two m 0x300000 ≡ run_two plain_code 0x100000)
create_hook-runs_example =
    create_hook-runs 0x100000 0x200000 0x300000 plain_code refl refl (omega arith) (omega arith)
      (inr (omega arith)) (inr refl) refl

abbrev blank_ring : TxRing
blank_ring = record {
  ee_status = λ i. cleared;
  wr_ptr = 5;
  iop_status = λ i. cleared;
  frames = λ i. 0;
  rd_ptr = 5;
  commands = [];
}

send_frame-never_waits_example :
    let t = register_network_stack blank_ring in
    (u : TxRing) × (send_frame 4 0 1 1514 2 t ≡ some u)
    × (u.frames t.wr_ptr ≡ 1)
    × (u.iop_status ≡ t.iop_status)
    × (u.wr_ptr ≡ (t.wr_ptr + 1) % 24)
send_frame-never_waits_example = send_frame-never_waits {group_size = 4} 0 1 1514 2 registered

-- Two queues are set and the first is removed.
abbrev no_queues : RpcData
no_queues = record {
  queues = λ i. record {
    thread_id = 0;
    active = 0;
    link = null;
    start = null;
    end_ = null;
    next = null;
  };
  active_queue = 0;
}

abbrev queue_calls : List QueueCall
queue_calls = sets 64 7 ∷ (sets 128 8 ∷ (removes 64 ∷ []))

run_calls-list_calls_example : Active (run_calls 3 queue_calls no_queues) (128 ∷ [])
run_calls-list_calls_example =
    run_calls-list_calls 3 queue_calls no_queues (128 ∷ []) refl refl (omega arith)

-- The timer is started with an overflow that has not been served, which is served then; after 65536
-- ticks there is another one.
abbrev stale_timer : Timer
stale_timer = record {
  t_count = 9;
  counting = false;
  overflow_flag = true;
  overflow_id = none;
  overflow_count = 3;
}

abbrev served_timer : ℕ → Timer
served_timer n = record {
  t_count = n;
  counting = true;
  overflow_flag = false;
  overflow_id = some 4;
  overflow_count = 1;
}

served_timer-Ticks : (n : ℕ) → n < 65536 → Ticks 4294967296 1 (served_timer n) n
unfolding time_init intr_overflow
served_timer-Ticks zero h = serves refl (starts_timer (some 4) stale_timer refl)
served_timer-Ticks (suc n) h =
    let not_full : (n == 65535) ≡ false = ground arith in
    let low : (n + 1) % 2 ^ 16 ≡ suc n = omega arith in
    let same : tick (served_timer n) ≡ served_timer (suc n) = rw (not_full, low) refl in
    subst (λ r. Ticks 4294967296 1 r (suc n)) same
      (counts (λ e. refl) (served_timer-Ticks n (omega arith)))

abbrev overflowed : Timer
overflowed = tick (served_timer 65535)

ps2_clock-elapsed_example :
    ps2_clock 4294967296 overflowed + unserved overflowed * 65536 ≡ 65536 + 1 * 65536
ps2_clock-elapsed_example =
    ps2_clock-elapsed (counts (λ e. refl) (served_timer-Ticks 65535 (omega arith))) (omega arith)
