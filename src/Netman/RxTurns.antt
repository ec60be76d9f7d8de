-- ===== src/Netman/RxTurns.antt =====
-- The receive ring is a queue: what the interrupts and the turns of the thread keep.
use mathlib.Core.List.{append-nil}
use net_gitaroo.Common.{
  Bool, Bool-cases, List, [], ap, arith, false, inl, inr, ltb, subst, suc, sym, true, ℕ, ◌&&◌, ◌++◌,
  ◌+◌, ◌-◌, ◌<◌, ◌==◌, ◌∙◌, ◌∷◌, ◌≡◌, ◌≢◌,
}
use net_gitaroo.Netman.RxInv.{Frame, slot}
use net_gitaroo.Netman.RxRing.{
  RxRing, clear_buffer_len, enq_turn, hand_over, handle_sif_event, hands, rx_turn, sleep_rx_thread,
  sleeps, wake_rx_thread,
}
use net_gitaroo.Netman.RxStack.{RxStack}
use net_gitaroo.Netman.Span.{length-span, span, span-last}
use net_gitaroo.Packets.{Ptr, null}
use net_gitaroo.IpVisual.{put_at}
use net_gitaroo.Netman.RxRuns.{given_frames}
use net_gitaroo.Netman.RxTake.{handed_over, ready}
use net_gitaroo.Netman.RxFlow.{Flow, moved}

module _ (stack : RxStack) (group_size frame_size : ℕ) where
  -- What the EE keeps of its thread and of its interrupts has no part in the invariant.
  alerted :
      {r : RxRing stack.State} {es ds : List Frame} (interrupt about asleep : Bool)
      (processing wakeups : ℕ)
      → Flow stack group_size r es ds
      → Flow stack group_size
          (record r {
            interrupt = interrupt;
            is_processing_rx = processing;
            about_to_sleep = about;
            asleep = asleep;
            wakeups = wakeups;
          })
          es
          ds
  alerted interrupt about asleep processing wakeups f =
      let v = f.inv in
      moved stack group_size frame_size f
        (record {
          order = v.order;
          wr = v.wr;
          queue_size = v.queue_size;
          rd = v.rd;
          iop = v.iop;
          ee = v.ee;
          sent = v.sent;
          queued = v.queued;
          returning = v.returning;
          positive = v.positive;
          distinct = v.distinct;
          holds = v.holds;
        })
        f.few

  pub Flow-interrupts :
      {r : RxRing stack.State} {es ds : List Frame}
      → Flow stack group_size r es ds
      → Flow stack group_size (handle_sif_event r) es ds
  unfolding handle_sif_event wake_rx_thread
  Flow-interrupts {r} f =
      elim (Bool-cases (ltb 0 (r.ee_status r.next_rd_ptr).length && (r.is_processing_rx == 0))) [
        | inr e ↦ rw e (alerted false r.about_to_sleep r.asleep r.is_processing_rx r.wakeups f)
        | inl e ↦ rw e (elim (Bool-cases r.asleep) [
          | inl a ↦ rw a (alerted false r.about_to_sleep false 1 r.wakeups f)
          | inr a ↦ rw a (alerted false r.about_to_sleep false 1 (r.wakeups + 1) f)
        ])
      ]

  pub Flow-dozes :
      {r : RxRing stack.State} {es ds : List Frame}
      → Flow stack group_size r es ds
      → Flow stack group_size (sleep_rx_thread r) es ds
  unfolding sleep_rx_thread
  Flow-dozes {r} f = elim (Bool-cases (r.wakeups == 0)) [
    | inl e ↦ rw e (alerted r.interrupt false true r.is_processing_rx r.wakeups f)
    | inr e ↦ rw e (alerted r.interrupt false r.asleep r.is_processing_rx (r.wakeups - 1) f)
  ]

  pub Flow-runs :
      {r : RxRing stack.State} {es ds : List Frame} (u : stack.State)
      → ((h : List Ptr) → stack.Holds r.stack h → stack.Holds u h)
      → Flow stack group_size r es ds
      → Flow stack group_size (record r { stack = u }) es ds
  Flow-runs u keeps f =
      let v = f.inv in
      moved stack group_size frame_size f
        (record {
          order = v.order;
          wr = v.wr;
          queue_size = v.queue_size;
          rd = v.rd;
          iop = v.iop;
          ee = v.ee;
          sent = v.sent;
          queued = v.queued;
          returning = v.returning;
          positive = v.positive;
          distinct = v.distinct;
          holds = keeps (span f.pk 0 24) v.holds;
        })
        f.few

  -- A turn of the thread: it sleeps where the slot at the read pointer is clear, and else finds a
  -- packet for it.
  module _ {r : RxRing stack.State} {es ds : List Frame} (f : Flow stack group_size r es ds)
      (spare : 24 < stack.capacity) where
    alloc-ne-null : (stack.alloc_rx_packet frame_size r.stack).0 ≢ null
    alloc-ne-null e =
        let few = (stack.refuses frame_size r.stack (span f.pk 0 24) f.inv.holds e).1 in
        omega (arith, few, spare, length-span f.pk 0 24)

    pub turn-sleeps :
        (r.ee_status r.rd_ptr).length ≡ 0
        → rx_turn stack frame_size r
          ≡ (sleeps, record r { is_processing_rx = 0; about_to_sleep = true })
    unfolding rx_turn
    turn-sleeps e = rw e

    pub turn-hands :
        (r.ee_status r.rd_ptr).length ≢ 0
        → rx_turn stack frame_size r ≡ (
          hands (r.ee_status r.rd_ptr).packet,
          hand_over stack frame_size
              (stack.alloc_rx_packet frame_size r.stack).0
              (record r { stack = (stack.alloc_rx_packet frame_size r.stack).1 }),
        )
    unfolding rx_turn
    turn-hands ne =
        let busy : ((r.ee_status r.rd_ptr).length == 0) ≡ false = ground arith in
        let found : ((stack.alloc_rx_packet frame_size r.stack).0 == null) ≡ false =
          ground (arith, alloc-ne-null) in
        rw (busy, found)

    pub Flow-sleeps :
        let t = record r { is_processing_rx = 0; about_to_sleep = true } in
        Flow stack group_size
          (enq_turn stack frame_size sleeps t)
          es
          (ds ++ given_frames stack sleeps t)
    unfolding enq_turn
    Flow-sleeps =
        subst (Flow stack group_size (record r { is_processing_rx = 0; about_to_sleep = true }) es)
          (sym (append-nil ds)) (alerted r.interrupt true r.asleep 0 r.wakeups f)

    pub Flow-hands :
        (r.ee_status r.rd_ptr).length ≢ 0
        → let turn = hands (r.ee_status r.rd_ptr).packet in
          let t =
            hand_over stack frame_size
              (stack.alloc_rx_packet frame_size r.stack).0
              (record r { stack = (stack.alloc_rx_packet frame_size r.stack).1 }) in
          Flow stack group_size
            (enq_turn stack frame_size turn t)
            es
            (ds ++ given_frames stack turn t)
    unfolding hand_over clear_buffer_len enq_turn
    Flow-hands ne =
        let p = (stack.alloc_rx_packet frame_size r.stack).0 in
        let u = (stack.alloc_rx_packet frame_size r.stack).1 in
        let gave = stack.gives frame_size r.stack (span f.pk 0 24) f.inv.holds alloc-ne-null in
        let ta = ready stack frame_size r f.inv ne in
        let v = f.inv in
        let len : (r.ee_status r.rd_ptr).length ≡ (f.hist f.t).0 =
          ap (λ w. (r.ee_status w).length) v.rd.0 ∙ v.ee.lengths f.t (omega arith) ta in
        let packet = (r.ee_status r.rd_ptr).packet in
        let name : r.ee_frames (stack.data_of packet) ≡ (f.hist f.t).1 =
          ap (λ w. r.ee_frames (stack.data_of (r.ee_status w).packet)) v.rd.0
          ∙ ap (λ x. r.ee_frames (stack.data_of x)) (v.ee.packets (slot f.t) (omega arith))
          ∙ v.ee.frames f.t (omega arith) ta in
        let size = stack.resized packet (r.ee_status r.rd_ptr).length u ∙ len in
        let given : Frame = (
          stack.size_of packet (stack.realloc_rx_packet packet (r.ee_status r.rd_ptr).length u),
          r.ee_frames (stack.data_of packet),
        ) in
        let here : given ≡ f.hist (24 + f.m) =
          (λ i. (size i, name i)) ∙ ap f.hist (sym f.counts.1) in
        record {
          hist = f.hist;
          pk = put_at f.pk (slot f.t) p;
          c = f.c;
          t = suc f.t;
          a = f.a;
          q = f.q;
          e = f.e;
          n = f.n;
          m = suc f.m;
          inv = handed_over stack frame_size r f.inv p u gave ta;
          few = f.few;
          enqueued = f.enqueued;
          delivered =
              ap (λ l. l ++ (given ∷ [])) f.delivered
              ∙ ap (λ x. span f.hist 24 f.m ++ (x ∷ [])) here
              ∙ sym (span-last f.hist 24 f.m);
          counts = (f.counts.0, omega (arith, f.counts));
        }
