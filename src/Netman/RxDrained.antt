-- ===== src/Netman/RxDrained.antt =====
-- No frame is left behind while NETMAN_RxThread sleeps.
use net_gitaroo.Common.{
  Bool-cases, List, [], ap, arith, false, inl, inr, length, ltb, refl, subst, suc, sym, true, zero,
  ℕ, ◌+◌, ◌<◌, ◌==◌, ◌∙◌, ◌≡◌,
}
use net_gitaroo.Netman.RxRing.{
  RxRing, alloc_rx_buffers, clear_buffer_len, enq_turn, hand_over, hands, init_ring, sleeps,
}
use net_gitaroo.Netman.RxInv.{Frame, Requests, dest_of}
use net_gitaroo.Netman.RxQueue.{RxRuns-Flow}
use net_gitaroo.Netman.RxReceive.{driver_receive-enq_frame, filled}
use net_gitaroo.Netman.RxRuns.{
  RxRuns, begins, discards, dozes, drops, enqueues, fires, interrupts, returns, runs, transfers,
  turns,
}
use net_gitaroo.Netman.RxStack.{RxStack}
use net_gitaroo.Packets.{Ptr, null}
use net_gitaroo.Netman.Span.{span}
use net_gitaroo.Netman.RxTurns.{turn-hands, turn-sleeps}
use net_gitaroo.Netman.RxWake.{
  Wakes, alloc_packet-Wakes, clear-Wakes, dozes-Wakes, enq_frame-Wakes, event-Wakes, fires-Wakes,
  free-Wakes, rests_now, sleeps-Wakes, transfers-Wakes, woken,
}

sleep_turn-Wakes :
    (stack : RxStack) (frame_size : ℕ) (r : RxRing stack.State)
    → Wakes r
    → Wakes (enq_turn stack frame_size sleeps r)
unfolding enq_turn
sleep_turn-Wakes stack frame_size r w = w

hands-Wakes :
    (stack : RxStack) (frame_size : ℕ) (packet p : Ptr) (u : stack.State) (r : RxRing stack.State)
    → rests_now r ≡ false
    → Wakes r
    → Wakes (
        enq_turn stack frame_size
          (hands packet)
          (hand_over stack frame_size p (record r { stack = u })))
unfolding hand_over clear_buffer_len enq_turn
hands-Wakes stack frame_size packet p u r awake w = woken _ w.marked w.apart awake

buffers-Wakes :
    (stack : RxStack) (frame_size n i : ℕ) (r : RxRing stack.State)
    → r.asleep ≡ false
    → r.about_to_sleep ≡ false
    → r.to_ee ≡ []
    → Wakes (alloc_rx_buffers stack frame_size n i r).1
unfolding alloc_rx_buffers clear_buffer_len
buffers-Wakes stack frame_size zero i r awake up quiet =
    woken r (rw quiet tt) (λ s. up) (rw (awake, up) refl)
buffers-Wakes stack frame_size (suc n) i r awake up quiet =
    elim (Bool-cases ((stack.alloc_rx_packet frame_size r.stack).0 == null)) [
      | inl fails ↦ rw fails (
          woken (record r { stack = (stack.alloc_rx_packet frame_size r.stack).1 }) (rw quiet tt)
            (λ s. up) (rw (awake, up) refl))
      | inr finds ↦ rw finds (buffers-Wakes stack frame_size n (i + 1) _ awake up quiet)
    ]

module _ {stack : RxStack} {group_size frame_size : ℕ} (pos : 0 < group_size)
    (spare : 24 < stack.capacity) where
  RxRuns-Wakes :
      {r : RxRing stack.State} {es ds : List Frame}
      → RxRuns stack group_size frame_size r es ds
      → Wakes r
  RxRuns-Wakes (begins r h) =
      buffers-Wakes stack frame_size 24 0 (init_ring r) (unfold init_ring in refl)
        (unfold init_ring in refl) (unfold init_ring in refl)
  RxRuns-Wakes (enqueues {r} length frame packet some_bytes given run) =
      let (same, _) = driver_receive-enq_frame group_size length frame packet r given in
      let w = RxRuns-Wakes run in
      rw same (
        enq_frame-Wakes group_size r.wr_ptr length (filled length frame r)
          (record { marked = w.marked; apart = w.apart; idle = w.idle; clear = w.clear }))
  RxRuns-Wakes (drops {r} length fails run) = alloc_packet-Wakes length r (RxRuns-Wakes run)
  RxRuns-Wakes (discards {r} length frame packet given run) =
      free-Wakes packet frame _ (alloc_packet-Wakes length r (RxRuns-Wakes run))
  RxRuns-Wakes (fires {r} accepted on run) = fires-Wakes accepted r (RxRuns-Wakes run)
  RxRuns-Wakes (transfers {r} run) = transfers-Wakes r (RxRuns-Wakes run)
  RxRuns-Wakes (returns {r} run) = clear-Wakes r.to_iop r (RxRuns-Wakes run)
  RxRuns-Wakes (interrupts {r} on run) =
      let v = (RxRuns-Flow pos spare run).inv in
      event-Wakes r (v.rd.1 ∙ sym v.rd.0) (RxRuns-Wakes run)
  RxRuns-Wakes (dozes {r} about run) = dozes-Wakes r about (RxRuns-Wakes run)
  RxRuns-Wakes (runs u keeps run) =
      let w = RxRuns-Wakes run in
      record { marked = w.marked; apart = w.apart; idle = w.idle; clear = w.clear }
  RxRuns-Wakes (turns {r} awake up run) =
      let f = RxRuns-Flow pos spare run in
      elim (Bool-cases ((r.ee_status r.rd_ptr).length == 0)) [
        | inl clear ↦ rw (turn-sleeps stack group_size frame_size f spare (ground arith)) (
            sleep_turn-Wakes stack frame_size _
              (sleeps-Wakes r (ground arith) (RxRuns-Wakes run) awake))
        | inr used ↦
            rw (turn-hands stack group_size frame_size f spare (ground arith))
              (hands-Wakes stack frame_size _ _ _ r (rw (awake, up) refl) (RxRuns-Wakes run))
      ]

  -- No wake-up is lost: in a state of a run where NETMAN_RxThread sleeps, with no request queued or
  -- on its way and no interrupt to serve, the network stack has been given every frame that the
  -- driver enqueued; if a group has room for a frame and the stack has more than 24 packets to give.
  pub RxRuns-drained :
      {r : RxRing stack.State} {es ds : List Frame}
      → RxRuns stack group_size frame_size r es ds
      → r.asleep ≡ true
      → r.num_frames_in_queue ≡ 0
      → r.to_ee ≡ []
      → r.interrupt ≡ false
      → es ≡ ds
  RxRuns-drained {r} run asleep none_queued none_sent quiet =
      let f = RxRuns-Flow pos spare run in
      let v = f.inv in
      let z = (RxRuns-Wakes run).clear (rw asleep refl) none_sent quiet in
      let sent : f.a ≡ f.q =
        subst (λ l. Requests (dest_of stack f.pk) l f.a f.q) none_sent v.sent in
      let taken : f.t ≡ f.a = elim (Bool-cases (ltb f.t f.a)) [
        | inl more ↦
            let len =
              ap (λ w. (r.ee_status w).length) v.rd.0
              ∙ v.ee.lengths f.t (omega arith) (ground arith) in
            let some_bytes = v.positive f.t (omega arith) (ground (arith, v.order, v.queue_size)) in
            absurd (omega (arith, sym len ∙ z, some_bytes))
        | inr all ↦ ground (arith, v.order)
      ] in
      let same : f.n ≡ f.m = omega (arith, f.counts, sent, taken, v.queue_size, none_queued) in
      f.enqueued ∙ ap (span f.hist 24) same ∙ sym f.delivered
