-- ===== src/Netman/RxArrive.antt =====
-- The transfers of the receive ring: a frame reaches the EE, a cleared descriptor the IOP.
use net_gitaroo.Common.{List, [], ap, arith, subst, suc, sym, ℕ, ◌+◌, ◌<◌, ◌∙◌, ◌∷◌, ◌≡◌, ◌≤◌}
use net_gitaroo.IpVisual.{put_at}
use net_gitaroo.Netman.RxInv.{EeSide, Frame, IopSide, Requests, RxInv, Slots, dest_of, slot}
use net_gitaroo.Netman.RxRing.{DmaReq, RxBd, RxRing, transfer_clear, transfer_frame}
use net_gitaroo.Packets.{Ptr}
use net_gitaroo.Netman.RxStack.{RxStack}

-- The buffers' bytes are apart.
abbrev pub Separate : (ℕ → ℕ) → Type 0
Separate f = (i j : ℕ) → i < 24 → j < 24 → f i ≡ f j → i ≡ j

EeSide-arrive :
    {dest : ℕ → ℕ} {pk : ℕ → Ptr} {hist : ℕ → Frame} {st : ℕ → RxBd} {fr : ℕ → ℕ} {t a : ℕ}
    (bd : RxBd) (f : ℕ)
    → EeSide dest pk hist st fr t a
    → Separate dest
    → t ≤ a
    → a < t + 24
    → bd.length ≡ (hist a).0
    → f ≡ (hist a).1
    → bd.packet ≡ pk (slot a)
    → bd.payload ≡ dest (slot a)
    → EeSide dest pk hist (put_at st (slot a) bd) (put_at fr (dest (slot a)) f) t (suc a)
EeSide-arrive {dest} {a} bd f s sep ta room el ef ep ed = record {
  lengths = λ k h l. ground (arith, s.lengths k);
  frames = λ k h l. ground (arith, s.frames k, sep (slot k) (slot a));
  clear = λ k h l. ground (arith, s.clear k);
  packets = λ i h. ground (arith, s.packets i);
  payloads = λ i h. ground (arith, s.payloads i);
}

IopSide-clear :
    {dest : ℕ → ℕ} {pk : ℕ → Ptr} {hist : ℕ → Frame} {st : ℕ → RxBd} {fb : ℕ → ℕ} {c t e : ℕ}
    (bd : RxBd)
    → IopSide dest pk hist st fb c t e
    → c < t
    → t ≤ e
    → e ≤ c + 24
    → bd.length ≡ 0
    → bd.packet ≡ pk (slot c)
    → bd.payload ≡ dest (slot c)
    → IopSide dest pk hist (put_at st (slot c) bd) fb (suc c) t e
IopSide-clear bd s ct te full el ep ed = record {
  used = λ k h l. ground (arith, s.used k);
  lengths = λ k h l. ground (arith, s.lengths k);
  frames = s.frames;
  free = λ k h l. ground (arith, s.free k);
  packets = λ k h l. ground (arith, s.packets k);
  payloads = λ k h l. ground (arith, s.payloads k);
}

pub Requests-le : (dest : ℕ → ℕ) (xs : List DmaReq) (a q : ℕ) → Requests dest xs a q → a ≤ q
Requests-le dest [] a q r = omega (arith, r)
Requests-le dest (x ∷ xs) a q r = omega (arith, Requests-le dest xs (suc a) q r.1)

Slots-le : (is : List ℕ) (c t : ℕ) → Slots is c t → c ≤ t
Slots-le [] c t r = omega (arith, r)
Slots-le (i ∷ is) c t r = omega (arith, Slots-le is (suc c) t r.1)

module _ (stack : RxStack) {hist : ℕ → Frame} {pk : ℕ → Ptr} {c t a q e : ℕ} where
  dest-Separate :
      (r : RxRing stack.State) → RxInv stack r hist pk c t a q e → Separate (dest_of stack pk)
  dest-Separate r v i j h k same = v.distinct i j h k (stack.data_injective (pk i) (pk j) same)

  -- SIF0 brings the first frame on its way to the EE.
  pub arrived :
      (r : RxRing stack.State) (x : DmaReq) (xs : List DmaReq)
      → r.to_ee ≡ x ∷ xs
      → RxInv stack r hist pk c t a q e
      → RxInv stack (transfer_frame (x ∷ xs) r) hist pk c t (suc a) q e
  unfolding transfer_frame
  arrived r x xs way v =
      let ((es, ed, ei), rest) = rw way at v.sent in
      let before = Requests-le (dest_of stack pk) xs (suc a) q rest in
      let room : a < c + 24 = omega (arith, before, v.order, v.queue_size) in
      let below : a < e = omega (arith, before, v.queue_size) in
      let bd = r.iop_status (slot a) in
      record {
        order = omega (arith, before, v.order);
        wr = v.wr;
        queue_size = v.queue_size;
        rd = v.rd;
        iop = v.iop;
        ee =
            subst
              (λ i.
                EeSide (dest_of stack pk) pk hist (put_at r.ee_status i (r.iop_status i))
                  (put_at r.ee_frames x.dest (r.frame_buffer x.source)) t (suc a))
              (sym ei)
              (subst
                (λ d.
                  EeSide (dest_of stack pk) pk hist (put_at r.ee_status (slot a) bd)
                    (put_at r.ee_frames d (r.frame_buffer x.source)) t (suc a))
                (sym ed)
                (EeSide-arrive bd (r.frame_buffer x.source) v.ee (dest-Separate r v) v.order.1
                  (omega (arith, room, v.order)) (v.iop.lengths a v.order.1 below)
                  (ap r.frame_buffer es ∙ v.iop.frames a v.order.1 below)
                  (v.iop.packets a v.order.1 room) (v.iop.payloads a v.order.1 room)));
        sent = rest;
        queued = v.queued;
        returning = v.returning;
        positive = v.positive;
        distinct = v.distinct;
        holds = v.holds;
      }

  -- SIF1 brings the first cleared descriptor back.
  pub returned :
      (r : RxRing stack.State) (i : ℕ) (is : List ℕ)
      → r.to_iop ≡ i ∷ is
      → RxInv stack r hist pk c t a q e
      → RxInv stack (transfer_clear (i ∷ is) r) hist pk (suc c) t a q e
  unfolding transfer_clear
  returned r i is way v =
      let (ei, rest) = rw way at v.returning in
      let before = Slots-le is (suc c) t rest in
      let full : e ≤ c + 24 = v.order.3 in
      let wrapped : slot (c + 24) ≡ slot c = omega arith in
      rw ei (record {
        order = omega (arith, before, v.order);
        wr = v.wr;
        queue_size = v.queue_size;
        rd = v.rd;
        iop =
            IopSide-clear (r.ee_status (slot c)) v.iop before (omega (arith, v.order, v.queue_size))
              full
              (ap (λ k. (r.ee_status k).length) (sym wrapped)
                ∙ v.ee.clear (c + 24) (omega (arith, v.order, v.queue_size))
                    (omega (arith, before)))
              (v.ee.packets (slot c) (omega arith)) (v.ee.payloads (slot c) (omega arith));
        ee = v.ee;
        sent = v.sent;
        queued = v.queued;
        returning = rest;
        positive = v.positive;
        distinct = v.distinct;
        holds = v.holds;
      })
