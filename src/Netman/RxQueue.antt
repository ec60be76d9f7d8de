-- ===== src/Netman/RxQueue.antt =====
-- The receive ring as a queue: no frame is lost, doubled or moved between the IOP's driver and the
-- network stack, and the receive thread always finds a packet to put in a frame's place.
use net_gitaroo.Common.{
  Bool-cases, List, [], ap, arith, false, inl, inr, leb, length, suc, sym, ℕ, ◌++◌, ◌+◌, ◌-◌, ◌<◌,
  ◌==◌, ◌∙◌, ◌∷◌, ◌≡◌, ◌≢◌, ◌≤◌, ◌⊎◌,
}
use net_gitaroo.Netman.RxInv.{Frame, Requests, dest_of}
use net_gitaroo.Netman.RxRing.{DmaReq, RxRing, hands, rx_turn, sleeps}
use net_gitaroo.Netman.RxRuns.{
  RxRuns, begins, discards, dozes, drops, enqueues, fires, interrupts, returns, runs, transfers,
  turns,
}
use net_gitaroo.Netman.RxStack.{RxStack}
use net_gitaroo.Netman.Span.{length-span, span, span-append}
use net_gitaroo.Netman.RxFlow.{
  Flow, Flow-begins, Flow-discards, Flow-drops, Flow-enqueues, Flow-fires, Flow-returns,
  Flow-transfers,
}
use net_gitaroo.Netman.RxTurns.{
  Flow-dozes, Flow-hands, Flow-interrupts, Flow-runs, Flow-sleeps, turn-hands, turn-sleeps,
}

-- Requests for descriptors and slots of the two rings.
abbrev pub InRange : List DmaReq → Type 0
InRange [] = Unit
InRange (x ∷ xs) = (x.source < 24) × (x.index < 24) × InRange xs

Requests-InRange : (dest : ℕ → ℕ) (xs : List DmaReq) (a q : ℕ) → Requests dest xs a q → InRange xs
Requests-InRange dest [] a q r = tt
Requests-InRange dest (x ∷ xs) a q ((s, d, i), r) =
    (omega (arith, s), omega (arith, i), Requests-InRange dest xs (suc a) q r)

module _ {stack : RxStack} {group_size frame_size : ℕ} (pos : 0 < group_size)
    (spare : 24 < stack.capacity) where
  pub RxRuns-Flow :
      {r : RxRing stack.State} {es ds : List Frame}
      → RxRuns stack group_size frame_size r es ds
      → Flow stack group_size r es ds
  RxRuns-Flow (begins r h) = Flow-begins stack group_size frame_size r h (omega (arith, spare)) pos
  RxRuns-Flow (enqueues length frame packet some_bytes given run) =
      Flow-enqueues stack group_size frame_size length frame packet some_bytes given
        (RxRuns-Flow run)
  RxRuns-Flow (drops length fails run) =
      Flow-drops stack group_size frame_size length fails (RxRuns-Flow run)
  RxRuns-Flow (discards length frame packet given run) =
      Flow-discards stack group_size frame_size length frame packet given (RxRuns-Flow run)
  RxRuns-Flow (fires accepted on run) =
      Flow-fires stack group_size frame_size accepted (RxRuns-Flow run) pos
  RxRuns-Flow (transfers run) = Flow-transfers stack group_size frame_size (RxRuns-Flow run)
  RxRuns-Flow (returns run) = Flow-returns stack group_size frame_size (RxRuns-Flow run)
  RxRuns-Flow (interrupts on run) = Flow-interrupts stack group_size frame_size (RxRuns-Flow run)
  RxRuns-Flow (dozes on run) = Flow-dozes stack group_size frame_size (RxRuns-Flow run)
  RxRuns-Flow (runs u keeps run) = Flow-runs stack group_size frame_size u keeps (RxRuns-Flow run)
  RxRuns-Flow (turns {r} awake up run) =
      let f = RxRuns-Flow run in
      elim (Bool-cases ((r.ee_status r.rd_ptr).length == 0)) [
        | inl clear ↦
            rw (turn-sleeps stack group_size frame_size f spare (ground arith))
              (Flow-sleeps stack group_size frame_size f spare)
        | inr used ↦
            rw (turn-hands stack group_size frame_size f spare (ground arith))
              (Flow-hands stack group_size frame_size f spare (ground arith))
      ]

  -- In every state of a run the frames that the network stack was given are the first of those that
  -- the driver enqueued, in order, and at most 24 are still on their way: of a frame that is given,
  -- the length is the size that the stack has been told for the packet when EnQRxPacket is called
  -- with it, and the data is what its memory holds then; if a group has room for a frame and the
  -- stack has more than 24 packets to give.
  pub RxRuns-queue :
      {r : RxRing stack.State} {es ds : List Frame}
      → RxRuns stack group_size frame_size r es ds
      → (rest : List Frame) × (es ≡ ds ++ rest) × (length rest ≤ 24)
  RxRuns-queue run =
      let f = RxRuns-Flow run in
      let k = f.e - f.t in
      let v = f.inv in
      let total : f.n ≡ f.m + k = omega (arith, f.counts, v.order, v.queue_size) in
      (
        span f.hist (24 + f.m) k,
        f.enqueued
            ∙ ap (span f.hist 24) total
            ∙ span-append f.hist 24 f.m k
            ∙ ap (λ l. l ++ span f.hist (24 + f.m) k) (sym f.delivered),
        omega (arith, length-span f.hist (24 + f.m) k, v.order, v.queue_size),
      )

  -- In every state of a run a turn of NETMAN_RxThread never waits for a packet: it hands over the
  -- packet of the descriptor at the read pointer exactly if that is in use, and else sleeps; if a group has room for a
  -- frame and the stack has more than 24 packets to give.
  pub rx_turn-never_spins :
      {r : RxRing stack.State} {es ds : List Frame}
      → RxRuns stack group_size frame_size r es ds
      → (((rx_turn stack frame_size r).0 ≡ hands (r.ee_status r.rd_ptr).packet)
          × ((r.ee_status r.rd_ptr).length ≢ 0))
        ⊎ (((rx_turn stack frame_size r).0 ≡ sleeps) × ((r.ee_status r.rd_ptr).length ≡ 0))
  rx_turn-never_spins {r} run =
      let f = RxRuns-Flow run in
      elim (Bool-cases ((r.ee_status r.rd_ptr).length == 0)) [
        | inl clear ↦ inr (
          ap (λ t. t.0) (turn-sleeps stack group_size frame_size f spare (ground arith)),
          ground arith,
        )
        | inr used ↦ inl (
          ap (λ t. t.0) (turn-hands stack group_size frame_size f spare (ground arith)),
          ground arith,
        )
      ]

  -- In every state of a run the pointers are indices of the 24 descriptors, every request on its way
  -- names one, and there is room for one more request in dmatReqs, whose size is that of a group: so
  -- the first test of EnQFrame never holds; if a group has room for a frame and the stack has more than
  -- 24 packets to give.
  pub RxRuns-bounds :
      {r : RxRing stack.State} {es ds : List Frame}
      → RxRuns stack group_size frame_size r es ds
      → (r.wr_ptr < 24)
        × (r.rd_ptr < 24)
        × (r.next_rd_ptr ≡ r.rd_ptr)
        × InRange r.to_ee
        × (leb group_size r.num_frames_in_queue ≡ false)
  RxRuns-bounds {r} run =
      let f = RxRuns-Flow run in
      let v = f.inv in
      (
        omega (arith, v.wr),
        omega (arith, v.rd),
        omega (arith, v.rd),
        Requests-InRange (dest_of stack f.pk) r.to_ee f.a f.q v.sent,
        ground (arith, f.few),
      )
