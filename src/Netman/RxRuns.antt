-- ===== src/Netman/RxRuns.antt =====
-- Runs of the receive ring: the driver, the transfers, and NETMAN_RxThread.
use net_gitaroo.Common.{Bool, List, [], false, length, none, some, true, ℕ, ◌++◌, ◌<◌, ◌∷◌, ◌≡◌}
use net_gitaroo.IpVisual.{put_at}
use net_gitaroo.Netman.RxInv.{Frame}
use net_gitaroo.Netman.RxRing.{
  RxRing, Turn, alloc_packet, alloc_rx_buffers, enq_packet, enq_turn, frame_send_cb, free_packet,
  handle_sif_event, hands, init_ring, rx_turn, sleep_rx_thread, sleeps, spins, transfer_clear,
  transfer_frame,
}
use net_gitaroo.Netman.RxStack.{RxStack}
use net_gitaroo.Packets.{Ptr}

-- The driver's write of a received frame to the slot of an allocated packet.
abbrev pub fill_packet : {S : Type 0} → (packet frame : ℕ) → RxRing S → RxRing S
fill_packet packet frame r = record r {
  frame_buffer = put_at r.frame_buffer (r.pbufs packet).payload frame;
}

-- What the driver does with a received frame: it allocates a packet, fills it and enqueues it.
abbrev pub driver_receive :
    {S : Type 0} → (group_size length frame packet : ℕ) → RxRing S → RxRing S
driver_receive group_size length frame packet r =
    enq_packet group_size packet (fill_packet packet frame (alloc_packet length r).1)

-- What the network stack is given when a turn calls EnQRxPacket: the size of the packet, as the stack
-- has it, and what is in its memory.
abbrev pub given_frames : (stack : RxStack) → Turn → RxRing stack.State → List Frame
given_frames stack sleeps r = []
given_frames stack spins r = []
given_frames stack (hands packet) r =
    (stack.size_of packet r.stack, r.ee_frames (stack.data_of packet)) ∷ []

-- Runs since NetManRPCAllocRxBuffers, with the frames that the driver has enqueued and those that
-- the network stack has been given, in order. The driver enqueues, drops or discards a frame; the
-- alarm fires; a transfer ends; the EE serves an interrupt; the receive thread takes a turn
-- or, after one that goes to sleep, calls SleepThread; or other code of the stack runs.
pub data RxRuns (stack : RxStack) (group_size frame_size : ℕ)
    : RxRing stack.State → List Frame → List Frame → Type 0 where
  begins :
      (r : RxRing stack.State)
      → stack.Holds r.stack []
      → RxRuns stack group_size frame_size
          (alloc_rx_buffers stack frame_size 24 0 (init_ring r)).1
          []
          []
  enqueues :
      {r : RxRing stack.State} {es ds : List Frame} (length frame packet : ℕ)
      → 0 < length
      → (alloc_packet length r).0 ≡ some packet
      → RxRuns stack group_size frame_size r es ds
      → RxRuns stack group_size frame_size
          (driver_receive group_size length frame packet r)
          (es ++ ((length, frame) ∷ []))
          ds
  drops :
      {r : RxRing stack.State} {es ds : List Frame} (length : ℕ)
      → (alloc_packet length r).0 ≡ none
      → RxRuns stack group_size frame_size r es ds
      → RxRuns stack group_size frame_size (alloc_packet length r).1 es ds
  discards :
      {r : RxRing stack.State} {es ds : List Frame} (length frame packet : ℕ)
      → (alloc_packet length r).0 ≡ some packet
      → RxRuns stack group_size frame_size r es ds
      → RxRuns stack group_size frame_size
          (free_packet packet (fill_packet packet frame (alloc_packet length r).1))
          es
          ds
  fires :
      {r : RxRing stack.State} {es ds : List Frame} (accepted : Bool)
      → r.alarm ≡ true
      → RxRuns stack group_size frame_size r es ds
      → RxRuns stack group_size frame_size (frame_send_cb accepted r) es ds
  transfers :
      {r : RxRing stack.State} {es ds : List Frame}
      → RxRuns stack group_size frame_size r es ds
      → RxRuns stack group_size frame_size (transfer_frame r.to_ee r) es ds
  returns :
      {r : RxRing stack.State} {es ds : List Frame}
      → RxRuns stack group_size frame_size r es ds
      → RxRuns stack group_size frame_size (transfer_clear r.to_iop r) es ds
  interrupts :
      {r : RxRing stack.State} {es ds : List Frame}
      → r.interrupt ≡ true
      → RxRuns stack group_size frame_size r es ds
      → RxRuns stack group_size frame_size (handle_sif_event r) es ds
  turns :
      {r : RxRing stack.State} {es ds : List Frame}
      → r.asleep ≡ false
      → r.about_to_sleep ≡ false
      → RxRuns stack group_size frame_size r es ds
      → RxRuns stack group_size frame_size
          (enq_turn stack frame_size (rx_turn stack frame_size r).0 (rx_turn stack frame_size r).1)
          es
          (ds ++ given_frames stack (rx_turn stack frame_size r).0 (rx_turn stack frame_size r).1)
  dozes :
      {r : RxRing stack.State} {es ds : List Frame}
      → r.about_to_sleep ≡ true
      → RxRuns stack group_size frame_size r es ds
      → RxRuns stack group_size frame_size (sleep_rx_thread r) es ds
  runs :
      {r : RxRing stack.State} {es ds : List Frame} (u : stack.State)
      → ((h : List Ptr) → stack.Holds r.stack h → stack.Holds u h)
      → RxRuns stack group_size frame_size r es ds
      → RxRuns stack group_size frame_size (record r { stack = u }) es ds
