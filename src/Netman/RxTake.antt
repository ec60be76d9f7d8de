-- ===== src/Netman/RxTake.antt =====
-- NETMAN_RxThread of the EE: a frame is taken off the ring, and its slot gets another packet.
use net_gitaroo.Common.{
  Bool-cases, List, [], ap, arith, false, inl, inr, ltb, mem, refl, subst, suc, sym, ℕ, ◌++◌, ◌+◌,
  ◌<◌, ◌==◌, ◌∙◌, ◌∷◌, ◌≡◌, ◌≢◌, ◌≤◌,
}
use net_gitaroo.IpVisual.{put_at}
use net_gitaroo.Netman.RxArrive.{Requests-le}
use net_gitaroo.Netman.RxInv.{EeSide, Frame, IopSide, Requests, RxInv, Slots, dest_of, slot}
use net_gitaroo.Netman.RxIop.{apart}
use net_gitaroo.Netman.RxRing.{DmaReq, RxBd, RxRing, clear_buffer_len, enq_turn, hand_over, hands}
use net_gitaroo.Packets.{Ptr}
use net_gitaroo.Netman.RxStack.{RxStack}
use net_gitaroo.Netman.TxRing.{next_ptr}
use net_gitaroo.Netman.Span.{count-span-put, length-span, mem-span, span}

IopSide-take :
    {dest dest' : ℕ → ℕ} {pk pk' : ℕ → Ptr} {hist : ℕ → Frame} {st : ℕ → RxBd} {fb : ℕ → ℕ}
    {c t e : ℕ}
    → IopSide dest pk hist st fb c t e
    → ((i : ℕ) → (i == slot t) ≡ false → (dest' i ≡ dest i) × (pk' i ≡ pk i))
    → c ≤ t
    → IopSide dest' pk' hist st fb c (suc t) e
IopSide-take {t} s same ct = record {
  used = s.used;
  lengths = λ k h l. s.lengths k (omega arith) l;
  frames = λ k h l. s.frames k (omega arith) l;
  free = s.free;
  packets = λ k h l. ground (arith, s.packets k, same (slot k));
  payloads = λ k h l. ground (arith, s.payloads k, same (slot k));
}

EeSide-take :
    {dest dest' : ℕ → ℕ} {pk pk' : ℕ → Ptr} {hist : ℕ → Frame} {st : ℕ → RxBd} {fr : ℕ → ℕ}
    {t a : ℕ} (bd : RxBd)
    → EeSide dest pk hist st fr t a
    → ((i : ℕ) → (i == slot t) ≡ false → (dest' i ≡ dest i) × (pk' i ≡ pk i))
    → t < a
    → a ≤ t + 24
    → bd.length ≡ 0
    → bd.packet ≡ pk' (slot t)
    → bd.payload ≡ dest' (slot t)
    → EeSide dest' pk' hist (put_at st (slot t) bd) fr (suc t) a
EeSide-take {dest} {dest'} {fr} {t} bd s same ta full el ep ed = record {
  lengths = λ k h l. ground (arith, s.lengths k);
  frames = λ k h l.
      let moved : (slot k == slot t) ≡ false = ground arith in
      ap fr ((same (slot k) moved).0) ∙ s.frames k (omega arith) l;
  clear = λ k h l. ground (arith, s.clear k);
  packets = λ i h. ground (arith, s.packets i, same i);
  payloads = λ i h. ground (arith, s.payloads i, same i);
}

-- The requests on their way ask for other slots.
Requests-ext :
    (dest dest' : ℕ → ℕ) (xs : List DmaReq) (a q : ℕ)
    → ((k : ℕ) → a ≤ k → k < q → dest' (slot k) ≡ dest (slot k))
    → Requests dest xs a q
    → Requests dest' xs a q
Requests-ext dest dest' [] a q same r = r
Requests-ext dest dest' (x ∷ xs) a q same ((s, d, i), r) = (
  (s, d ∙ sym (same a (omega arith) (Requests-le dest xs (suc a) q r)), i),
  Requests-ext dest dest' xs (suc a) q (λ k h l. same k (omega arith) l) r,
)

pub Slots-append : (is : List ℕ) (c t : ℕ) → Slots is c t → Slots (is ++ (slot t ∷ [])) c (suc t)
Slots-append [] c t s = (ap slot (sym s), ap suc s)
Slots-append (i ∷ is) c t (h, s) = (h, Slots-append is (suc c) t s)

-- Another packet in a slot leaves the others apart, if it is none of them.
distinct-put :
    (pk : ℕ → Ptr) (j : ℕ) (p : Ptr)
    → ((i k : ℕ) → i < 24 → k < 24 → pk i ≡ pk k → i ≡ k)
    → ((i : ℕ) → i < 24 → pk i ≢ p)
    → (i k : ℕ) → i < 24
    → k < 24
    → put_at pk j p i ≡ put_at pk j p k
    → i ≡ k
distinct-put pk j p apart fresh i k h l e = ground (arith, apart i k, fresh i, fresh k)

module _ (stack : RxStack) (frame_size : ℕ) {hist : ℕ → Frame} {pk : ℕ → Ptr} {c t a q e : ℕ} where
  -- Where the read pointer's descriptor is in use, a frame has arrived there.
  pub ready :
      (r : RxRing stack.State)
      → RxInv stack r hist pk c t a q e
      → (r.ee_status r.rd_ptr).length ≢ 0
      → t < a
  ready r v ne = elim (Bool-cases (ltb t a)) [
    | inl h ↦ ground arith
    | inr h ↦ absurd (
        ne (
          ap (λ w. (r.ee_status w).length) v.rd.0
          ∙ v.ee.clear t (ground (arith, v.order)) (omega arith)))
  ]

  module _ (r : RxRing stack.State) (v : RxInv stack r hist pk c t a q e) (p : Ptr)
      (u : stack.State)
      (gave : stack.Holds u (p ∷ span pk 0 24) × (mem p (span pk 0 24) ≡ false)) where
    abbrev replaced : ℕ → Ptr
    replaced = put_at pk (slot t) p

    others :
        (i : ℕ)
        → (i == slot t) ≡ false
        → (dest_of stack replaced i ≡ dest_of stack pk i) × (replaced i ≡ pk i)
    others i h = let e : replaced i ≡ pk i = ground arith in (ap stack.data_of e, e)

    moved :
        (k : ℕ) → t < k → k < t + 24 → dest_of stack replaced (slot k) ≡ dest_of stack pk (slot k)
    moved k h l = (others (slot k) (ground arith)).0

    handed-Holds :
        (n : ℕ) (packet : Ptr)
        → packet ≡ pk (slot t)
        → stack.Holds
            (stack.enq_rx_packet packet (stack.realloc_rx_packet packet n u))
            (span replaced 0 24)
    handed-Holds n packet e =
        let swapped =
          stack.reorders u (p ∷ span pk 0 24) (packet ∷ span replaced 0 24)
            (λ x. rw e (count-span-put pk (slot t) p x 0 24 (omega arith) (omega arith)))
            (omega (arith, length-span pk 0 24, length-span replaced 0 24)) gave.0 in
        stack.receives packet _ _ (stack.resizes packet n u _ swapped)

    -- The frame at the read pointer goes to the stack, and `p` takes its packet's place.
    pub handed_over :
        t < a
        → RxInv stack
            (enq_turn stack frame_size
              (hands (r.ee_status r.rd_ptr).packet)
              (hand_over stack frame_size p (record r { stack = u })))
            hist
            replaced
            c
            (suc t)
            a
            q
            e
    unfolding hand_over clear_buffer_len enq_turn
    handed_over ta =
        let step : next_ptr r.next_rd_ptr ≡ slot (suc t) = omega (arith, v.rd.1) in
        let bd : RxBd = record { length = 0; packet = p; payload = stack.data_of p } in
        record {
          order = omega (arith, v.order, ta);
          wr = v.wr;
          queue_size = v.queue_size;
          rd = (step, step);
          iop = IopSide-take v.iop others v.order.0;
          ee =
              subst
                (λ i.
                  EeSide (dest_of stack replaced) replaced hist (put_at r.ee_status i bd)
                    r.ee_frames (suc t) a)
                (sym v.rd.0)
                (EeSide-take bd v.ee others ta (omega (arith, v.order, v.queue_size)) refl
                  (ground arith) (ap stack.data_of (ground arith)));
          sent =
              Requests-ext (dest_of stack pk) (dest_of stack replaced) r.to_ee a q
                (λ k h l. moved k (omega arith) (omega (arith, l, v.order, v.queue_size))) v.sent;
          queued = λ i l.
              let (s, d, k) = v.queued i l in
              (
                s,
                d
                    ∙ sym (
                        moved (q + i) (omega (arith, v.order, ta))
                          (omega (arith, l, v.order, v.queue_size))),
                k,
              );
          returning =
              subst (λ i. Slots (r.to_iop ++ (i ∷ [])) c (suc t)) (sym v.rd.0)
                (Slots-append r.to_iop c t v.returning);
          positive = λ k h l. v.positive k (omega arith) l;
          distinct =
              distinct-put pk (slot t) p v.distinct
                (λ i h. mem-span pk p i 0 24 gave.1 (omega arith) (omega arith));
          holds =
              handed-Holds _ _
                (ap (λ i. (r.ee_status i).packet) v.rd.0 ∙ v.ee.packets (slot t) (omega arith));
        }
