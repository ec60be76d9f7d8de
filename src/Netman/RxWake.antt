-- ===== src/Netman/RxWake.antt =====
-- The wake-ups of NETMAN_RxThread: it does not sleep on a frame that has arrived.
use net_gitaroo.Common.{
  Bool, Bool-cases, List, [], ap, arith, false, if◌then◌else◌, inl, inr, leb, length, ltb, refl,
  subst, sym, true, ℕ, ◌&&◌, ◌+◌, ◌-◌, ◌==◌, ◌||◌, ◌∙◌, ◌∷◌, ◌≡◌,
}
use net_gitaroo.Netman.RxRing.{
  DmaReq, RxRing, alloc_packet, enq_frame, frame_send_cb, free_packet, handle_sif_event,
  queue_frame, send_frames_to_ee, sleep_rx_thread, transfer_clear, transfer_frame, wake_rx_thread,
}
use net_gitaroo.Netman.RxRuns.{fill_packet}
use net_gitaroo.Netman.RxFlow.{List-cases}
use net_gitaroo.Netman.RxMarked.{
  LastMarked, LastMarked-append, LastMarked-tail, last_interrupts, last_marked, nil_left,
}

-- The thread sleeps, or will as soon as it calls SleepThread.
abbrev pub rests_now : {S : Type 0} → RxRing S → Bool
rests_now r = r.asleep || (r.about_to_sleep && (r.wakeups == 0))

-- A batch ends with a request that asks for an interrupt; and a thread that rests has said so, and
-- has nothing to do once the requests and the interrupt are served.
pub record Wakes {S : Type 0} (r : RxRing S) : Type 0 where
  pub marked : LastMarked r.to_ee
  pub apart : r.asleep ≡ true → r.about_to_sleep ≡ false
  pub idle : rests_now r ≡ true → r.is_processing_rx ≡ 0
  pub clear :
      rests_now r ≡ true → r.to_ee ≡ [] → r.interrupt ≡ false → (r.ee_status r.rd_ptr).length ≡ 0

module _ {S : Type 0} where
  sent-Wakes : (accepted : Bool) (r : RxRing S) → Wakes r → Wakes (send_frames_to_ee accepted r).1
  unfolding send_frames_to_ee
  sent-Wakes accepted r w = elim (Bool-cases (r.num_frames_in_queue == 0)) [
    | inl empty ↦ rw empty w
    | inr some_reqs ↦ rw some_reqs (elim (Bool-cases accepted) [
      | inr no_room ↦
          rw no_room (record { marked = w.marked; apart = w.apart; idle = w.idle; clear = w.clear })
      | inl taken ↦ rw taken (record {
        marked = LastMarked-append r.to_ee _ w.marked (last_marked r (ground arith));
        apart = w.apart;
        idle = w.idle;
        clear = λ s e q. w.clear s (nil_left r.to_ee _ e) q;
      })
    ])
  ]

  pub enq_frame-Wakes :
      (group_size frame length : ℕ) (r : RxRing S)
      → Wakes r
      → Wakes (enq_frame group_size frame length r)
  unfolding enq_frame queue_frame
  enq_frame-Wakes group_size frame length r w =
      let r' : RxRing S = record r { alarm = false } in
      let w' : Wakes r' = record {
        marked = w.marked;
        apart = w.apart;
        idle = w.idle;
        clear = w.clear;
      } in
      let t = if leb group_size r.num_frames_in_queue then (send_frames_to_ee true r').1 else r' in
      let wt : Wakes t = elim (Bool-cases (leb group_size r.num_frames_in_queue)) [
        | inl full ↦ rw full (sent-Wakes true r' w')
        | inr more ↦ rw more w'
      ] in
      let u = queue_frame frame length t in
      let wu : Wakes u = record {
        marked = wt.marked;
        apart = wt.apart;
        idle = wt.idle;
        clear = wt.clear;
      } in
      elim (Bool-cases (leb group_size u.num_frames_in_queue)) [
        | inl full ↦ rw full (sent-Wakes true u wu)
        | inr more ↦
            rw more
              (record { marked = wt.marked; apart = wt.apart; idle = wt.idle; clear = wt.clear })
      ]

  transfer-Wakes :
      (x : DmaReq) (xs : List DmaReq) (r : RxRing S)
      → r.to_ee ≡ x ∷ xs
      → Wakes r
      → Wakes (transfer_frame (x ∷ xs) r)
  unfolding transfer_frame
  transfer-Wakes x xs r e w =
      let l = rw e at w.marked in
      record {
        marked = LastMarked-tail x xs l;
        apart = w.apart;
        idle = w.idle;
        clear = λ s empty q. last_interrupts x xs r.interrupt l empty q;
      }

  -- A thread that does not rest has nothing to show.
  pub woken :
      (r : RxRing S)
      → LastMarked r.to_ee
      → (r.asleep ≡ true → r.about_to_sleep ≡ false)
      → rests_now r ≡ false
      → Wakes r
  woken r m k awake = record {
    marked = m;
    apart = k;
    idle = λ s. let e = sym awake ∙ s in cc;
    clear = λ s. let e = sym awake ∙ s in cc;
  }

  pub event-Wakes : (r : RxRing S) → r.next_rd_ptr ≡ r.rd_ptr → Wakes r → Wakes (handle_sif_event r)
  unfolding handle_sif_event wake_rx_thread
  event-Wakes r same w =
      elim (Bool-cases (ltb 0 (r.ee_status r.next_rd_ptr).length && (r.is_processing_rx == 0))) [
        | inr e ↦ rw e (record {
          marked = w.marked;
          apart = w.apart;
          idle = w.idle;
          clear = λ s n q.
              let z : (r.ee_status r.next_rd_ptr).length ≡ 0 = ground (arith, w.idle s) in
              ap (λ k. (r.ee_status k).length) (sym same) ∙ z;
        })
        | inl e ↦ rw e (elim (Bool-cases r.asleep) [
          | inl a ↦ rw a (
              woken (record r { interrupt = false; is_processing_rx = 1; asleep = false }) w.marked
                (λ s. w.apart a) (ground (arith, w.apart a)))
          | inr a ↦ rw a (
              woken
                (record r {
                  interrupt = false;
                  is_processing_rx = 1;
                  asleep = false;
                  wakeups = r.wakeups + 1;
                })
                w.marked (λ s. cc) (ground arith))
        ])
      ]

  pub sleeps-Wakes :
      (r : RxRing S)
      → (r.ee_status r.rd_ptr).length ≡ 0
      → Wakes r
      → r.asleep ≡ false
      → Wakes (record r { is_processing_rx = 0; about_to_sleep = true })
  sleeps-Wakes r z w awake = record {
    marked = w.marked;
    apart = λ s. let e = sym awake ∙ s in cc;
    idle = λ s. refl;
    clear = λ s n q. z;
  }

  -- SleepThread, where the thread is about to call it.
  pub dozes-Wakes : (r : RxRing S) → r.about_to_sleep ≡ true → Wakes r → Wakes (sleep_rx_thread r)
  unfolding sleep_rx_thread
  dozes-Wakes r about w = elim (Bool-cases (r.wakeups == 0)) [
    | inl e ↦
        let rests : rests_now r ≡ true = ground arith in
        rw e (record {
          marked = w.marked;
          apart = λ s. refl;
          idle = λ s. w.idle rests;
          clear = λ s. w.clear rests;
        })
    | inr e ↦ rw e (
        woken (record r { about_to_sleep = false; wakeups = r.wakeups - 1 }) w.marked (λ s. refl)
          (ground (arith, w.apart)))
  ]

  pub alloc_packet-Wakes : (length : ℕ) (r : RxRing S) → Wakes r → Wakes (alloc_packet length r).1
  unfolding alloc_packet
  alloc_packet-Wakes length r w = elim (Bool-cases ((r.iop_status r.wr_ptr).length == 0)) [
    | inl free ↦
        rw free (record { marked = w.marked; apart = w.apart; idle = w.idle; clear = w.clear })
    | inr busy ↦ rw busy w
  ]

  pub clear-Wakes : (is : List ℕ) (r : RxRing S) → Wakes r → Wakes (transfer_clear is r)
  unfolding transfer_clear
  clear-Wakes [] r w = w
  clear-Wakes (i ∷ is) r w = record {
    marked = w.marked;
    apart = w.apart;
    idle = w.idle;
    clear = w.clear;
  }

  pub free-Wakes :
      (packet frame : ℕ) (r : RxRing S)
      → Wakes r
      → Wakes (free_packet packet (fill_packet packet frame r))
  unfolding free_packet
  free-Wakes packet frame r w = record {
    marked = w.marked;
    apart = w.apart;
    idle = w.idle;
    clear = w.clear;
  }

  pub fires-Wakes : (accepted : Bool) (r : RxRing S) → Wakes r → Wakes (frame_send_cb accepted r)
  unfolding frame_send_cb
  fires-Wakes accepted r w =
      let w' = sent-Wakes accepted r w in
      record { marked = w'.marked; apart = w'.apart; idle = w'.idle; clear = w'.clear }

  pub transfers-Wakes : (r : RxRing S) → Wakes r → Wakes (transfer_frame r.to_ee r)
  transfers-Wakes r w = elim (List-cases r.to_ee) [
    | inl e ↦ subst (λ l. Wakes (transfer_frame l r)) (sym e) (unfold transfer_frame in w)
    | inr (x, xs, e) ↦ subst (λ l. Wakes (transfer_frame l r)) (sym e) (transfer-Wakes x xs r e w)
  ]
