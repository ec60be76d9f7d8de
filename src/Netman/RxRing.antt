-- ===== src/Netman/RxRing.antt =====
-- The ring that takes received frames from the IOP to the EE: netman_iop/src/rpc_client.c fills it,
-- and netman/src/rpc_server.c empties it into the network stack. Each side keeps its own copy of
-- the descriptors; SIF0 takes descriptors and frames to the EE and SIF1 takes cleared descriptors
-- back, each in order. A frame is named by a number.
use net_gitaroo.Common.{
  Bool, List, Option, [], false, if◌then◌else◌, leb, ltb, none, not, some, suc, true, zero, ℕ, ◌&&◌,
  ◌++◌, ◌+◌, ◌-◌, ◌==◌, ◌∷◌,
}
use net_gitaroo.Packets.{Ptr, null}
use net_gitaroo.IpVisual.{put_at}
use net_gitaroo.Netman.RxStack.{RxStack}
use net_gitaroo.Netman.TxRing.{next_ptr}

-- The fields of struct NetManBD that this ring uses.
pub record RxBd : Type 0 where
  pub length : ℕ
  pub packet : Ptr
  pub payload : ℕ

-- struct NetManPacketBuffer; `payload` is the slot of FrameBuffer that it points to, and `handle`
-- the index of the descriptor, if it is not NULL.
pub record IopPacket : Type 0 where
  pub handle : Option ℕ
  pub payload : ℕ
  pub length : ℕ

-- A frame's two entries of dmatReqs: the frame from the slot `source` of FrameBuffer to the
-- address `dest` of the EE, and the descriptor `index`; `int_o` is SIF_DMA_INT_O of the second.
pub record DmaReq : Type 0 where
  pub source : ℕ
  pub dest : ℕ
  pub index : ℕ
  pub int_o : Bool

-- The IOP's globals, the EE's, the transfers on their way, and whether the EE has an interrupt of
-- SIF0 to serve. `ee_frames` holds the frame at each address; `about_to_sleep` says that NETMAN_RxThread
-- is between EI and SleepThread, and `wakeups` counts those that it has not slept off.
pub record RxRing (S : Type 0) : Type 0 where
  pub iop_status : ℕ → RxBd
  pub frame_buffer : ℕ → ℕ
  pub pbufs : ℕ → IopPacket
  pub wr_ptr : ℕ
  pub num_frames_in_queue : ℕ
  pub dmat_reqs : ℕ → DmaReq
  pub alarm : Bool
  pub to_ee : List DmaReq
  pub interrupt : Bool
  pub ee_status : ℕ → RxBd
  pub ee_frames : ℕ → ℕ
  pub rd_ptr : ℕ
  pub next_rd_ptr : ℕ
  pub is_processing_rx : ℕ
  pub about_to_sleep : Bool
  pub asleep : Bool
  pub wakeups : ℕ
  pub to_iop : List ℕ
  pub stack : S

-- What a turn of NETMAN_RxThread does: it goes to sleep, tries again to allocate, or hands a
-- packet over.
pub data Turn : Type 0 where
  sleeps : Turn
  spins : Turn
  hands : (packet : Ptr) → Turn

-- The first `n` requests of dmatReqs.
abbrev pub first_reqs : (ℕ → DmaReq) → ℕ → List DmaReq
first_reqs reqs zero = []
first_reqs reqs (suc n) = reqs 0 ∷ first_reqs (λ i. reqs (suc i)) n

module _ {S : Type 0} where
  -- NetManRpcNetProtStackAllocRxPacket: the packet is named by its index in pbufs.
  unfoldable pub alloc_packet : (length : ℕ) → RxRing S → Option ℕ × RxRing S
  alloc_packet length r =
      if (r.iop_status r.wr_ptr).length == 0
      then (
        some r.wr_ptr,
        record r {
          pbufs =
              put_at r.pbufs r.wr_ptr
                (record { handle = some r.wr_ptr; payload = r.wr_ptr; length = length });
        },
      )
      else (none, r)

  -- NetManRpcNetProtStackFreeRxPacket
  unfoldable pub free_packet : ℕ → RxRing S → RxRing S
  free_packet packet r = record r {
    pbufs = put_at r.pbufs packet (record (r.pbufs packet) { handle = none });
  }

  -- sendFramesToEE; `accepted` is whether sceSifSetDma takes the requests. In mode 0 the code asks
  -- until they are taken.
  unfoldable pub send_frames_to_ee : (accepted : Bool) → RxRing S → Bool × RxRing S
  send_frames_to_ee accepted r =
      let last = r.num_frames_in_queue - 1 in
      let reqs = put_at r.dmat_reqs last (record (r.dmat_reqs last) { int_o = true }) in
      if r.num_frames_in_queue == 0
      then (true, r)
      else if accepted
      then (
        true,
        record r {
          dmat_reqs = reqs;
          to_ee = r.to_ee ++ first_reqs reqs r.num_frames_in_queue;
          num_frames_in_queue = 0;
        },
      )
      else (false, record r { dmat_reqs = reqs })

  -- FrameSendCB: the alarm is set again where sending failed.
  unfoldable pub frame_send_cb : (accepted : Bool) → RxRing S → RxRing S
  frame_send_cb accepted r =
      let (done, t) = send_frames_to_ee accepted r in record t { alarm = not done }

  -- The middle of EnQFrame: the descriptor and the request of a frame.
  unfoldable pub queue_frame : (frame length : ℕ) → RxRing S → RxRing S
  queue_frame frame length r =
      let wr = r.wr_ptr in
      let bd = record (r.iop_status wr) { length = length } in
      record r {
        iop_status = put_at r.iop_status wr bd;
        dmat_reqs =
            put_at r.dmat_reqs r.num_frames_in_queue
              (record { source = frame; dest = bd.payload; index = wr; int_o = false });
        num_frames_in_queue = r.num_frames_in_queue + 1;
        wr_ptr = next_ptr wr;
      }

  -- EnQFrame, of the frame in a slot of FrameBuffer
  unfoldable pub enq_frame : (group_size frame length : ℕ) → RxRing S → RxRing S
  enq_frame group_size frame length r =
      let r = record r { alarm = false } in
      let r = if leb group_size r.num_frames_in_queue then (send_frames_to_ee true r).1 else r in
      let r = queue_frame frame length r in
      if leb group_size r.num_frames_in_queue
      then (send_frames_to_ee true r).1
      else record r { alarm = true }

  -- NetManRpcProtStackEnQRxPacket
  unfoldable pub enq_packet : (group_size packet : ℕ) → RxRing S → RxRing S
  enq_packet group_size packet r =
      enq_frame group_size (r.pbufs packet).payload (r.pbufs packet).length r

  -- SIF0 serves its first request.
  unfoldable pub transfer_frame : List DmaReq → RxRing S → RxRing S
  transfer_frame [] r = r
  transfer_frame (q ∷ qs) r = record r {
    ee_frames = put_at r.ee_frames q.dest (r.frame_buffer q.source);
    ee_status = put_at r.ee_status q.index (r.iop_status q.index);
    interrupt = if q.int_o then true else r.interrupt;
    to_ee = qs;
  }

  -- SIF1 serves its first request.
  unfoldable pub transfer_clear : List ℕ → RxRing S → RxRing S
  transfer_clear [] r = r
  transfer_clear (i ∷ is) r = record r {
    iop_status = put_at r.iop_status i (r.ee_status i);
    to_iop = is;
  }

  -- iWakeupThread of NETMAN_RxThread: the kernel counts the wake-ups of a thread that is awake.
  unfoldable pub wake_rx_thread : RxRing S → RxRing S
  wake_rx_thread r =
      if r.asleep then record r { asleep = false } else record r { wakeups = r.wakeups + 1 }

  -- HandleRxEvent of the EE
  unfoldable pub handle_sif_event : RxRing S → RxRing S
  handle_sif_event r =
      let r = record r { interrupt = false } in
      if ltb 0 (r.ee_status r.next_rd_ptr).length && (r.is_processing_rx == 0)
      then wake_rx_thread (record r { is_processing_rx = 1 })
      else r

  -- ClearBufferLen of the EE
  unfoldable pub clear_buffer_len : (index : ℕ) (packet : Ptr) (payload : ℕ) → RxRing S → RxRing S
  clear_buffer_len index packet payload r = record r {
    ee_status =
        put_at r.ee_status index (record { length = 0; packet = packet; payload = payload });
    to_iop = r.to_iop ++ (index ∷ []);
  }

  -- SleepThread of NETMAN_RxThread: with a wake-up counted, the thread goes on.
  unfoldable pub sleep_rx_thread : RxRing S → RxRing S
  sleep_rx_thread r =
      let r = record r { about_to_sleep = false } in
      if r.wakeups == 0 then record r { asleep = true } else record r { wakeups = r.wakeups - 1 }

-- `frame_size` is NETMAN_NETIF_FRAME_SIZE, and `group_size` above NETMAN_FRAME_GROUP_SIZE.
module _ (stack : RxStack) (frame_size : ℕ) where
  -- NETMAN_RxThread for the frame at the read pointer, with the replacement `packet_next`, up to
  -- its call of EnQRxPacket.
  unfoldable pub hand_over : (packet_next : Ptr) → RxRing stack.State → RxRing stack.State
  hand_over packet_next r =
      let bd = r.ee_status r.rd_ptr in
      let r = record r { next_rd_ptr = next_ptr r.next_rd_ptr } in
      let r = clear_buffer_len r.rd_ptr packet_next (stack.data_of packet_next) r in
      record r {
        rd_ptr = r.next_rd_ptr;
        stack = stack.realloc_rx_packet bd.packet bd.length r.stack;
      }

  -- One turn of NETMAN_RxThread's loops, while it is awake, up to its call of EnQRxPacket.
  unfoldable pub rx_turn : RxRing stack.State → Turn × RxRing stack.State
  rx_turn r =
      let (packet_next, s) = stack.alloc_rx_packet frame_size r.stack in
      if (r.ee_status r.rd_ptr).length == 0
      then (sleeps, record r { is_processing_rx = 0; about_to_sleep = true })
      else if packet_next == null
      then (spins, record r { stack = s })
      else (hands (r.ee_status r.rd_ptr).packet, hand_over packet_next (record r { stack = s }))

  -- The call of EnQRxPacket that ends a turn.
  unfoldable pub enq_turn : Turn → RxRing stack.State → RxRing stack.State
  enq_turn sleeps r = r
  enq_turn spins r = r
  enq_turn (hands packet) r = record r { stack = stack.enq_rx_packet packet r.stack }

  -- NetManRPCAllocRxBuffers, from index `i` on, `n` more; false for -ENOMEM
  unfoldable pub alloc_rx_buffers : (n i : ℕ) → RxRing stack.State → Bool × RxRing stack.State
  alloc_rx_buffers zero i r = (true, r)
  alloc_rx_buffers (suc n) i r =
      let (packet, s) = stack.alloc_rx_packet frame_size r.stack in
      let rest =
        alloc_rx_buffers n (i + 1)
          (clear_buffer_len i packet (stack.data_of packet) (record r { stack = s })) in
      if packet == null then (false, record r { stack = s }) else rest

-- The state after both sides' initialisation (NetManInitRPCClient of the IOP, and
-- NETMAN_EE_RPC_FUNC_INIT and the start of NETMAN_RxThread on the EE), before the buffers are
-- allocated: the IOP's descriptors are all marked as in use.
unfoldable pub init_ring : {S : Type 0} → RxRing S → RxRing S
init_ring r = record r {
  frame_buffer = λ i. 0;
  iop_status = λ i. record { length = 65535; packet = null; payload = 0 };
  wr_ptr = 0;
  num_frames_in_queue = 0;
  alarm = false;
  to_ee = [];
  interrupt = false;
  ee_status = λ i. record { length = 0; packet = null; payload = 0 };
  rd_ptr = 0;
  next_rd_ptr = 0;
  is_processing_rx = 0;
  about_to_sleep = false;
  asleep = false;
  wakeups = 0;
  to_iop = [];
}
