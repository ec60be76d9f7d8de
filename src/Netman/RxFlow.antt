-- ===== src/Netman/RxFlow.antt =====
-- The receive ring is a queue: what the steps of the IOP keep.
use net_gitaroo.Common.{
  Bool, Bool-cases, List, [], ap, arith, false, inl, inr, length, none, refl, some, subst, suc, sym,
  true, ℕ, ◌++◌, ◌+◌, ◌<◌, ◌==◌, ◌∙◌, ◌∷◌, ◌≡◌, ◌≤◌, ◌⊎◌,
}
use net_gitaroo.Netman.RxInv.{Frame, RxInv, slot}
use net_gitaroo.Netman.RxRing.{
  RxRing, alloc_packet, alloc_rx_buffers, enq_frame, frame_send_cb, free_packet, init_ring,
  send_frames_to_ee, transfer_clear, transfer_frame,
}
use net_gitaroo.Netman.RxStack.{RxStack}
use net_gitaroo.Netman.RxStart.{Filled-RxInv, Filled-all, Filled-init}
use net_gitaroo.Netman.Span.{span, span-last, span-put_above}
use net_gitaroo.Packets.{Ptr}
use net_gitaroo.IpVisual.{put_at}
use net_gitaroo.Netman.RxEnqueue.{enqueued_frame, refilled, silenced}
use net_gitaroo.Netman.RxReceive.{driver_receive-enq_frame, fill_packet-allocated, filled}
use net_gitaroo.Netman.RxRuns.{driver_receive, fill_packet}
use net_gitaroo.Netman.RxArrive.{arrived, returned}
use net_gitaroo.Netman.RxIop.{sent_all, sent_none}

-- The state of a run: the invariant with its positions, the frames by position, and room for a
-- request in dmatReqs.
pub record Flow (stack : RxStack) (group_size : ℕ) (r : RxRing stack.State) (es ds : List Frame)
    : Type 0 where
  pub hist : ℕ → Frame
  pub pk : ℕ → Ptr
  pub c : ℕ
  pub t : ℕ
  pub a : ℕ
  pub q : ℕ
  pub e : ℕ
  pub n : ℕ
  pub m : ℕ
  pub inv : RxInv stack r hist pk c t a q e
  pub few : r.num_frames_in_queue < group_size
  pub enqueued : es ≡ span hist 24 n
  pub delivered : ds ≡ span hist 24 m
  pub counts : (24 + n ≡ e) × (24 + m ≡ t)

-- One more value at the end.
span-grows {ℓ} :
    {A : Type ℓ} (f : ℕ → A) (e : ℕ) (x : A) (n : ℕ)
    → 24 + n ≡ e
    → span (put_at f e x) 24 (suc n) ≡ span f 24 n ++ (x ∷ [])
span-grows f e x n h =
    let new : put_at f e x (24 + n) ≡ x = ground arith in
    span-last (put_at f e x) 24 n
    ∙ ap (λ l. l ++ (put_at f e x (24 + n) ∷ [])) (span-put_above f e x 24 n (omega (arith, h)))
    ∙ ap (λ y. span f 24 n ++ (y ∷ [])) new

pub List-cases {ℓ} : {A : Type ℓ} (l : List A) → (l ≡ []) ⊎ ((x : A) × (xs : List A) × (l ≡ x ∷ xs))
List-cases [] = inl refl
List-cases (x ∷ xs) = inr (x, xs, refl)

unsent :
    {S : Type 0} (r : RxRing S)
    → (send_frames_to_ee false r).1.num_frames_in_queue ≡ r.num_frames_in_queue
unfolding send_frames_to_ee
unsent r = ground arith

module _ (stack : RxStack) (group_size frame_size : ℕ) where
  pub Flow-begins :
      (r : RxRing stack.State)
      → stack.Holds r.stack []
      → 24 ≤ stack.capacity
      → 0 < group_size
      → Flow stack group_size (alloc_rx_buffers stack frame_size 24 0 (init_ring r)).1 [] []
  Flow-begins r h enough pos =
      let (ok, (pk, f)) =
        Filled-all stack frame_size 24 0 (init_ring r) (λ i. 0) refl enough
          (Filled-init stack frame_size r (λ i. 0) h) in
      record {
        hist = λ k. (0, 0);
        pk = pk;
        c = 0;
        t = 24;
        a = 24;
        q = 24;
        e = 24;
        n = 0;
        m = 0;
        inv = Filled-RxInv stack frame_size _ pk f;
        few = omega (arith, f.none_queued, pos);
        enqueued = refl;
        delivered = refl;
        counts = (refl, refl);
      }

  -- A step that moves positions only.
  pub moved :
      {r u : RxRing stack.State} {es ds : List Frame} (f : Flow stack group_size r es ds)
      {c a q : ℕ}
      → RxInv stack u f.hist f.pk c f.t a q f.e
      → u.num_frames_in_queue < group_size
      → Flow stack group_size u es ds
  moved f {c} {a} {q} v few = record {
    hist = f.hist;
    pk = f.pk;
    c = c;
    t = f.t;
    a = a;
    q = q;
    e = f.e;
    n = f.n;
    m = f.m;
    inv = v;
    few = few;
    enqueued = f.enqueued;
    delivered = f.delivered;
    counts = f.counts;
  }

  pub Flow-enqueues :
      {r : RxRing stack.State} {es ds : List Frame} (length frame packet : ℕ)
      → 0 < length
      → (alloc_packet length r).0 ≡ some packet
      → Flow stack group_size r es ds
      → Flow stack group_size
          (driver_receive group_size length frame packet r)
          (es ++ ((length, frame) ∷ []))
          ds
  Flow-enqueues {r} {es} {ds} length frame packet pos given f =
      let (same, free) = driver_receive-enq_frame group_size length frame packet r given in
      let (room, v) = refilled stack r (filled length frame r).pbufs frame f.inv free in
      let own : put_at r.frame_buffer r.wr_ptr frame (slot f.e) ≡ frame =
        ground (arith, f.inv.wr) in
      let u = filled length frame r in
      let (q, v', few) =
        subst
          (λ w.
            (q : ℕ) × RxInv stack (enq_frame group_size w length u)
              (put_at f.hist f.e (length, frame)) f.pk f.c f.t f.a q (suc f.e)
            × ((enq_frame group_size w length u).num_frames_in_queue < group_size))
          (sym f.inv.wr) (enqueued_frame stack group_size u frame length v f.few room pos own) in
      rw same (record {
        hist = put_at f.hist f.e (length, frame);
        pk = f.pk;
        c = f.c;
        t = f.t;
        a = f.a;
        q = q;
        e = suc f.e;
        n = suc f.n;
        m = f.m;
        inv = v';
        few = few;
        enqueued =
            ap (λ l. l ++ ((length, frame) ∷ [])) f.enqueued
            ∙ sym (span-grows f.hist f.e (length, frame) f.n f.counts.0);
        delivered =
            f.delivered
            ∙ sym (
                span-put_above f.hist f.e (length, frame) 24 f.m
                  (omega (arith, f.counts, f.inv.order, f.inv.queue_size)));
        counts = (omega (arith, f.counts), f.counts.1);
      })

  pub Flow-discards :
      {r : RxRing stack.State} {es ds : List Frame} (length frame packet : ℕ)
      → (alloc_packet length r).0 ≡ some packet
      → Flow stack group_size r es ds
      → Flow stack group_size
          (free_packet packet (fill_packet packet frame (alloc_packet length r).1))
          es
          ds
  Flow-discards {r} {es} {ds} length frame packet given f =
      let (same, free, _) = fill_packet-allocated length frame packet r given in
      let u = filled length frame r in
      let v =
        (refilled stack r (put_at u.pbufs packet (record (u.pbufs packet) { handle = none })) frame
          f.inv free).1 in
      subst (λ w. Flow stack group_size (free_packet packet w) es ds) (sym same)
        (unfold free_packet in moved f v f.few)

  pub Flow-drops :
      {r : RxRing stack.State} {es ds : List Frame} (length : ℕ)
      → (alloc_packet length r).0 ≡ none
      → Flow stack group_size r es ds
      → Flow stack group_size (alloc_packet length r).1 es ds
  unfolding alloc_packet
  Flow-drops {r} length fails f = elim (Bool-cases ((r.iop_status r.wr_ptr).length == 0)) [
    | inl free ↦ let e = rw free at fails in cc
    | inr busy ↦ rw busy f
  ]

  pub Flow-fires :
      {r : RxRing stack.State} {es ds : List Frame} (accepted : Bool)
      → Flow stack group_size r es ds
      → 0 < group_size
      → Flow stack group_size (frame_send_cb accepted r) es ds
  unfolding frame_send_cb
  Flow-fires {r} true f pos =
      let (v, all) = sent_all stack f.inv in
      moved f (silenced stack _ _ v) (omega (arith, all, pos))
  Flow-fires {r} false f pos =
      let (q, v) = sent_none stack f.inv in moved f (silenced stack _ _ v) (rw (unsent r) f.few)

  pub Flow-transfers :
      {r : RxRing stack.State} {es ds : List Frame}
      → Flow stack group_size r es ds
      → Flow stack group_size (transfer_frame r.to_ee r) es ds
  Flow-transfers {r} {es} {ds} f = elim (List-cases r.to_ee) [
    | inl e ↦
        subst (λ l. Flow stack group_size (transfer_frame l r) es ds) (sym e)
          (unfold transfer_frame in f)
    | inr (x, xs, e) ↦
        subst (λ l. Flow stack group_size (transfer_frame l r) es ds) (sym e)
          (moved f (arrived stack r x xs e f.inv) (unfold transfer_frame in f.few))
  ]

  pub Flow-returns :
      {r : RxRing stack.State} {es ds : List Frame}
      → Flow stack group_size r es ds
      → Flow stack group_size (transfer_clear r.to_iop r) es ds
  Flow-returns {r} {es} {ds} f = elim (List-cases r.to_iop) [
    | inl e ↦
        subst (λ l. Flow stack group_size (transfer_clear l r) es ds) (sym e)
          (unfold transfer_clear in f)
    | inr (x, xs, e) ↦
        subst (λ l. Flow stack group_size (transfer_clear l r) es ds) (sym e)
          (moved f (returned stack r x xs e f.inv) (unfold transfer_clear in f.few))
  ]
