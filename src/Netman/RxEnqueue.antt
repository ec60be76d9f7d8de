-- ===== src/Netman/RxEnqueue.antt =====
-- EnQFrame of the IOP: a frame that the driver received goes to the end of the ring.
use net_gitaroo.Common.{
  Bool, Bool-cases, ap, arith, false, inl, inr, leb, length, refl, subst, suc, sym, true, ℕ, ◌+◌,
  ◌<◌, ◌==◌, ◌∙◌, ◌≡◌, ◌≤◌,
}
use net_gitaroo.IpVisual.{put_at}
use net_gitaroo.Netman.RxInv.{EeSide, Frame, IopSide, IsReq, RxInv, dest_of, slot}
use net_gitaroo.Netman.RxIop.{IopSide-enqueue, IopSide-fill, free-room, sent_all}
use net_gitaroo.Netman.RxRing.{DmaReq, IopPacket, RxBd, RxRing, enq_frame, queue_frame}
use net_gitaroo.Netman.RxStack.{RxStack}
use net_gitaroo.Packets.{Ptr}
use net_gitaroo.Netman.RxReceive.{filled}

-- What has arrived does not depend on what comes later.
EeSide-later :
    {dest : ℕ → ℕ} {pk : ℕ → Ptr} {hist : ℕ → Frame} {st : ℕ → RxBd} {fr : ℕ → ℕ} {t a : ℕ} (e : ℕ)
    (f : Frame)
    → EeSide dest pk hist st fr t a
    → a ≤ e
    → EeSide dest pk (put_at hist e f) st fr t a
EeSide-later e f s h = record {
  lengths = λ k l m. ground (arith, s.lengths k);
  frames = λ k l m. ground (arith, s.frames k);
  clear = s.clear;
  packets = s.packets;
  payloads = s.payloads;
}

-- One more request behind those in the queue.
queued-IsReq :
    (dest : ℕ → ℕ) (reqs : ℕ → DmaReq) (n i q : ℕ) (x : DmaReq) {e : ℕ}
    → q + n ≡ e
    → (i < n → IsReq dest (reqs i) (q + i))
    → IsReq dest x e
    → i < n + 1
    → IsReq dest (put_at reqs n x i) (q + i)
queued-IsReq dest reqs n i q x e h (s, d, k) l = elim (Bool-cases (i == n)) [
  | inl same ↦ rw same (let w : q + i ≡ q + n = ground arith in rw (w, e) (s, d, k))
  | inr other ↦ rw other (h (ground arith))
]

-- The alarm has no part in the invariant.
pub silenced :
    (stack : RxStack) {hist : ℕ → Frame} {pk : ℕ → Ptr} {c t a q e : ℕ} (on : Bool)
    (r : RxRing stack.State)
    → RxInv stack r hist pk c t a q e
    → RxInv stack (record r { alarm = on }) hist pk c t a q e
silenced stack on r v = record {
  order = v.order;
  wr = v.wr;
  queue_size = v.queue_size;
  rd = v.rd;
  iop = v.iop;
  ee = v.ee;
  sent = v.sent;
  queued = v.queued;
  returning = v.returning;
  positive = v.positive;
  distinct = v.distinct;
  holds = v.holds;
}

module _ (stack : RxStack) {hist : ℕ → Frame} {pk : ℕ → Ptr} {c t a e : ℕ} where
  queued_frame :
      {q : ℕ} (r : RxRing stack.State) (frame length : ℕ)
      → RxInv stack r hist pk c t a q e
      → e < c + 24
      → 0 < length
      → r.frame_buffer (slot e) ≡ frame
      → RxInv stack
          (queue_frame (slot e) length r)
          (put_at hist e (length, frame))
          pk
          c
          t
          a
          q
          (suc e)
  unfolding queue_frame
  queued_frame {q} r frame length v room pos filled = record {
    order = omega (arith, v.order, v.queue_size);
    wr = rw v.wr (omega arith);
    queue_size = omega (arith, v.queue_size);
    rd = v.rd;
    iop =
        subst
          (λ w.
            IopSide (dest_of stack pk) pk (put_at hist e (length, frame))
              (put_at r.iop_status w (record (r.iop_status w) { length = length })) r.frame_buffer c
              t (suc e))
          (sym v.wr)
          (IopSide-enqueue length frame v.iop v.order.0 (omega (arith, v.order, v.queue_size)) room
            (omega arith) filled);
    ee = EeSide-later e (length, frame) v.ee (omega (arith, v.order, v.queue_size));
    sent = v.sent;
    queued = λ i l.
        queued-IsReq (dest_of stack pk) r.dmat_reqs r.num_frames_in_queue i q _ v.queue_size
          (v.queued i)
          (
            refl,
            ap (λ w. (r.iop_status w).payload) v.wr
                ∙ v.iop.payloads e (omega (arith, v.order, v.queue_size)) room,
            v.wr,
          )
          l;
    returning = v.returning;
    positive = λ k l m. ground (arith, v.positive k);
    distinct = v.distinct;
    holds = v.holds;
  }

  -- The queue of requests stays below a full group: its first test never holds.
  pub enqueued_frame :
      {q : ℕ} (group_size : ℕ) (r : RxRing stack.State) (frame length : ℕ)
      → RxInv stack r hist pk c t a q e
      → r.num_frames_in_queue < group_size
      → e < c + 24
      → 0 < length
      → r.frame_buffer (slot e) ≡ frame
      → let u = enq_frame group_size (slot e) length r in
        (q' : ℕ) × RxInv stack u (put_at hist e (length, frame)) pk c t a q' (suc e)
        × (u.num_frames_in_queue < group_size)
  unfolding enq_frame
  enqueued_frame {q} group_size r frame length v few room pos filled =
      let below : leb group_size r.num_frames_in_queue ≡ false = ground arith in
      let w =
        queued_frame (record r { alarm = false }) frame length (silenced stack false r v) room pos
          filled in
      let n : RxRing stack.State = queue_frame (slot e) length (record r { alarm = false }) in
      elim (Bool-cases (leb group_size n.num_frames_in_queue)) [
        | inl full ↦
            let (v', z) = sent_all stack w in rw (below, full) (suc e, v', omega (arith, z))
        | inr more ↦ rw (below, more) (q, silenced stack true n w, ground arith)
      ]

  -- Filling a packet at the write pointer, whatever becomes of the packet.
  pub refilled :
      {q : ℕ} (r : RxRing stack.State) (pbufs : ℕ → IopPacket) (frame : ℕ)
      → RxInv stack r hist pk c t a q e
      → (r.iop_status r.wr_ptr).length ≡ 0
      → (e < c + 24)
        × RxInv stack
            (record r { pbufs = pbufs; frame_buffer = put_at r.frame_buffer r.wr_ptr frame })
            hist
            pk
            c
            t
            a
            q
            e
  refilled {q} r pbufs frame v free =
      let room =
        free-room v.iop (omega (arith, v.order, v.queue_size)) v.order.3
          (ap (λ w. (r.iop_status w).length) (sym v.wr) ∙ free) in
      (
        room,
        record {
          order = v.order;
          wr = v.wr;
          queue_size = v.queue_size;
          rd = v.rd;
          iop =
              subst
                (λ w.
                  IopSide (dest_of stack pk) pk hist r.iop_status (put_at r.frame_buffer w frame) c
                    t e)
                (sym v.wr) (IopSide-fill frame v.iop v.order.0 room);
          ee = v.ee;
          sent = v.sent;
          queued = v.queued;
          returning = v.returning;
          positive = v.positive;
          distinct = v.distinct;
          holds = v.holds;
        },
      )
