-- ===== src/Examples/Rings.antt =====
-- The theorems on the receive ring and on the owners of the buffers at concrete runs.
use net_gitaroo.Common.{
  List, [], arith, false, leb, length, none, refl, true, ℕ, ◌++◌, ◌<◌, ◌↔◌, ◌∷◌, ◌≡◌, ◌≢◌, ◌≤◌, ◌⊎◌,
}
use net_gitaroo.Buffers.Init.{range}
use net_gitaroo.Buffers.Rx.{
  alloc_rx_packet, init_lists, link_array, realloc_rx_packet, rx_base, tx_base,
}
use net_gitaroo.Examples.Consoles.{console_env, player}
use net_gitaroo.Net.{Net}
use net_gitaroo.Netman.RxRing.{
  RxRing, alloc_packet, alloc_rx_buffers, clear_buffer_len, enq_frame, enq_packet, enq_turn,
  frame_send_cb, hand_over, handle_sif_event, hands, init_ring, queue_frame, rx_turn,
  send_frames_to_ee, sleep_rx_thread, sleeps, transfer_clear, transfer_frame, wake_rx_thread,
}
use net_gitaroo.Netman.RxRuns.{
  RxRuns, begins, dozes, driver_receive, enqueues, fires, interrupts, returns, transfers, turns,
}
use net_gitaroo.Netman.RxStack.{RxStack}
use net_gitaroo.Owners.NetStack.{net_stack}
use net_gitaroo.Owners.Senders.{Clean, StartsNull}
use net_gitaroo.Packets.{Ptr, null, put}
use net_gitaroo.Examples.Pools.{blank_pool, fresh_pool-Owned}
use net_gitaroo.Ip.{enq_rx_packet}
use net_gitaroo.Netman.RxQueue.{InRange, RxRuns-bounds, RxRuns-queue, rx_turn-never_spins}
use net_gitaroo.Buffers.RxLaws.{alloc_rx_packet-free}
use net_gitaroo.Owners.Frames.{enq_rx_packet-frees}
use net_gitaroo.Netman.RxDrained.{RxRuns-drained}
use net_gitaroo.Owners.Entries.{ServesAll-alloc_rx_packet}
use net_gitaroo.Owners.Serves.{Balanced, ServesAll, followed, gives, initialised}
use net_gitaroo.Buffers.Owned.{Owned}
use net_gitaroo.Buffers.Settled.{Grown}

pub starts_null : StartsNull console_env
starts_null s = refl

abbrev pub stack : RxStack
stack = net_stack console_env starts_null

abbrev pub blank_rx : RxRing Net
blank_rx = record {
  iop_status = λ i. record { length = 0; packet = 0; payload = 0 };
  frame_buffer = λ i. 0;
  pbufs = λ i. record { handle = none; payload = 0; length = 0 };
  wr_ptr = 3;
  num_frames_in_queue = 0;
  dmat_reqs = λ i. record { source = 0; dest = 0; index = 0; int_o = false };
  alarm = false;
  to_ee = [];
  interrupt = false;
  ee_status = λ i. record { length = 0; packet = 0; payload = 0 };
  ee_frames = λ i. 0;
  rd_ptr = 0;
  next_rd_ptr = 0;
  is_processing_rx = 0;
  about_to_sleep = false;
  asleep = false;
  wakeups = 0;
  to_iop = [];
  stack = player;
}

pub blank_rx-Holds : stack.Holds blank_rx.stack []
blank_rx-Holds = (range rx_base 25, (range tx_base 16, [], fresh_pool-Owned), refl)

-- A run: a frame of 60 bytes named 7 is enqueued, sent when the alarm fires, and handed over.
abbrev pub rx_allocated : RxRing Net
rx_allocated = (alloc_rx_buffers stack 1514 24 0 (init_ring blank_rx)).1

abbrev cleared : RxRing Net
cleared = transfer_clear rx_allocated.to_iop rx_allocated

abbrev enqueued : RxRing Net
enqueued = driver_receive 4 60 7 0 cleared

abbrev sent : RxRing Net
sent = frame_send_cb true enqueued

abbrev arrived : RxRing Net
arrived = transfer_frame sent.to_ee sent

abbrev take_turn : RxRing Net → RxRing Net
take_turn r = let (turn, t) = rx_turn stack 1514 r in enq_turn stack 1514 turn t

abbrev handed : RxRing Net
handed = take_turn (handle_sif_event arrived)

abbrev one_frame : List (ℕ × ℕ)
one_frame = (60, 7) ∷ []

arrived-RxRuns : RxRuns stack 4 1514 arrived one_frame []
unfolding alloc_rx_buffers clear_buffer_len init_ring transfer_clear alloc_packet enq_packet
    enq_frame queue_frame frame_send_cb send_frames_to_ee transfer_frame init_lists link_array
    alloc_rx_packet put
arrived-RxRuns = transfers (
    fires true refl (enqueues 60 7 0 (omega arith) refl (returns (begins blank_rx blank_rx-Holds))))

-- The thread hands the frame over, uses up its wake-up, and sleeps.
abbrev slept : RxRing Net
slept = sleep_rx_thread (take_turn (sleep_rx_thread (take_turn handed)))

handed-RxRuns : RxRuns stack 4 1514 handed one_frame one_frame
unfolding alloc_rx_buffers clear_buffer_len init_ring transfer_clear alloc_packet enq_packet
    enq_frame queue_frame frame_send_cb send_frames_to_ee transfer_frame init_lists link_array
    alloc_rx_packet put handle_sif_event wake_rx_thread rx_turn hand_over enq_turn realloc_rx_packet
handed-RxRuns = turns refl refl (interrupts refl arrived-RxRuns)

slept-RxRuns : RxRuns stack 4 1514 slept one_frame one_frame
unfolding alloc_rx_buffers clear_buffer_len init_ring transfer_clear alloc_packet enq_packet
    enq_frame queue_frame frame_send_cb send_frames_to_ee transfer_frame init_lists link_array
    alloc_rx_packet put handle_sif_event wake_rx_thread rx_turn hand_over enq_turn realloc_rx_packet
    sleep_rx_thread enq_rx_packet
slept-RxRuns = dozes refl (turns refl refl (dozes refl (turns refl refl handed-RxRuns)))

RxRuns-queue_example : (rest : List (ℕ × ℕ)) × (one_frame ≡ one_frame ++ rest) × (length rest ≤ 24)
RxRuns-queue_example = RxRuns-queue {stack = stack} (omega arith) (omega arith) handed-RxRuns

rx_turn-never_spins_example :
    (((rx_turn stack 1514 arrived).0 ≡ hands (arrived.ee_status arrived.rd_ptr).packet)
      × ((arrived.ee_status arrived.rd_ptr).length ≢ 0))
    ⊎ (((rx_turn stack 1514 arrived).0 ≡ sleeps) × ((arrived.ee_status arrived.rd_ptr).length ≡ 0))
rx_turn-never_spins_example = rx_turn-never_spins (omega arith) (omega arith) arrived-RxRuns

RxRuns-bounds_example :
    (arrived.wr_ptr < 24)
    × (arrived.rd_ptr < 24)
    × (arrived.next_rd_ptr ≡ arrived.rd_ptr)
    × InRange arrived.to_ee
    × (leb 4 arrived.num_frames_in_queue ≡ false)
RxRuns-bounds_example = RxRuns-bounds {frame_size = 1514} (omega arith) (omega arith) arrived-RxRuns

RxRuns-drained_example : one_frame ≡ one_frame
unfolding alloc_rx_buffers clear_buffer_len init_ring transfer_clear alloc_packet enq_packet
    enq_frame queue_frame frame_send_cb send_frames_to_ee transfer_frame init_lists link_array
    alloc_rx_packet put handle_sif_event wake_rx_thread rx_turn hand_over enq_turn realloc_rx_packet
    sleep_rx_thread enq_rx_packet
RxRuns-drained_example = RxRuns-drained (omega arith) (omega arith) slept-RxRuns refl refl refl refl

player-Clean : Clean player (range 1 25) []
player-Clean = (range 26 16, [], fresh_pool-Owned)

-- netman takes the first receive buffer and delivers it.
abbrev given : Net
given = record player { pool = (alloc_rx_packet 60 player.pool).1 }

abbrev one_held : List ℕ
one_held = 1 ∷ []

given-ServesAll : ServesAll console_env (record player { pool = blank_pool }) given (1 ∷ [])
unfolding alloc_rx_packet init_lists link_array put
given-ServesAll = followed initialised (gives 60 (λ e. cc))

enq_rx_packet-frees_example :
    let t = enq_rx_packet console_env 1 given in
    (fs : List Ptr) × (qs : List Ptr) × Owned t.pool (range 1 25) [] fs qs []
    × Grown (record { len_before = 0; calls_before = given.pool.xmits }) 0 (length qs) t.pool.xmits
unfolding alloc_rx_packet init_lists link_array put
enq_rx_packet-frees_example =
    enq_rx_packet-frees console_env starts_null 1 given
      (alloc_rx_packet-free 60 1 fresh_pool-Owned).3

ServesAll-alloc_rx_packet_example :
    Balanced given (1 ∷ []) × (((alloc_rx_packet 60 given.pool).0 ≡ null) ↔ (length one_held ≡ 25))
ServesAll-alloc_rx_packet_example = ServesAll-alloc_rx_packet 60 starts_null refl given-ServesAll
