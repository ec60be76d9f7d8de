-- ===== src/Netman/RxIop.antt =====
-- The IOP's side of the receive ring: what EnQFrame and sendFramesToEE keep.
use net_gitaroo.Common.{
  Bool-cases, List, [], arith, false, inl, inr, ltb, refl, subst, suc, sym, true, zero, ℕ, ◌++◌,
  ◌+◌, ◌-◌, ◌<◌, ◌==◌, ◌∷◌, ◌≡◌, ◌≢◌, ◌≤◌,
}
use net_gitaroo.IpVisual.{put_at}
use net_gitaroo.Netman.RxInv.{Frame, IopSide, IsReq, Requests, RxInv, dest_of, slot}
use net_gitaroo.Netman.RxRing.{DmaReq, RxBd, RxRing, first_reqs, send_frames_to_ee}
use net_gitaroo.Packets.{Ptr}
use net_gitaroo.Netman.RxStack.{RxStack}
use net_gitaroo.Netman.RxReceive.{filled}

pub apart : (j k : ℕ) → j < k → k < j + 24 → (slot j == slot k) ≡ false
apart j k h l = ground arith

module _ {dest : ℕ → ℕ} {pk : ℕ → Ptr} {hist : ℕ → Frame} {st : ℕ → RxBd} {fb : ℕ → ℕ}
    {c t e : ℕ} where
  -- A frame at the write pointer.
  pub IopSide-enqueue :
      (len frame : ℕ)
      → IopSide dest pk hist st fb c t e
      → c ≤ t
      → t ≤ e
      → e < c + 24
      → len ≢ 0
      → fb (slot e) ≡ frame
      → IopSide dest pk
          (put_at hist e (len, frame))
          (put_at st (slot e) (record (st (slot e)) { length = len }))
          fb
          c
          t
          (suc e)
  IopSide-enqueue len frame s ct te room ne filled = record {
    used = λ k h l. ground (arith, s.used k);
    lengths = λ k h l. ground (arith, s.lengths k);
    frames = λ k h l. ground (arith, s.frames k);
    free = λ k h l. ground (arith, s.free k);
    packets = λ k h l. ground (arith, s.packets k);
    payloads = λ k h l. ground (arith, s.payloads k);
  }

  -- The driver's write to the slot at the write pointer.
  pub IopSide-fill :
      (frame : ℕ)
      → IopSide dest pk hist st fb c t e
      → c ≤ t
      → e < c + 24
      → IopSide dest pk hist st (put_at fb (slot e) frame) c t e
  IopSide-fill frame s ct room = record {
    used = s.used;
    lengths = s.lengths;
    frames = λ k h l. ground (arith, s.frames k);
    free = s.free;
    packets = s.packets;
    payloads = s.payloads;
  }

-- A free slot at the write pointer leaves room for a frame.
pub free-room :
    {dest : ℕ → ℕ} {pk : ℕ → Ptr} {hist : ℕ → Frame} {st : ℕ → RxBd} {fb : ℕ → ℕ} {c t e : ℕ}
    → IopSide dest pk hist st fb c t e
    → c ≤ e
    → e ≤ c + 24
    → (st (slot e)).length ≡ 0
    → e < c + 24
free-room {c} {e} s ce full z = elim (Bool-cases (ltb e (c + 24))) [
  | inl h ↦ ground arith
  | inr h ↦ absurd (s.used c (omega arith) (ground arith) (ground arith))
]

-- More requests behind those on their way.
pub Requests-append :
    (dest : ℕ → ℕ) (xs ys : List DmaReq) (a b q : ℕ)
    → Requests dest xs a b
    → Requests dest ys b q
    → Requests dest (xs ++ ys) a q
Requests-append dest [] ys a b q r s = subst (λ k. Requests dest ys k q) (sym r) s
Requests-append dest (x ∷ xs) ys a b q (h, r) s = (h, Requests-append dest xs ys (suc a) b q r s)

first_reqs-Requests :
    (dest : ℕ → ℕ) (reqs : ℕ → DmaReq) (n a b : ℕ)
    → a + n ≡ b
    → ((i : ℕ) → i < n → IsReq dest (reqs i) (a + i))
    → Requests dest (first_reqs reqs n) a b
first_reqs-Requests dest reqs zero a b e h = omega (arith, e)
first_reqs-Requests dest reqs (suc n) a b e h = (
  ground (arith, h 0),
  first_reqs-Requests dest (λ i. reqs (suc i)) n (suc a) b (omega (arith, e))
      (λ i l. ground (arith, h (suc i))),
)

-- The mark on a request leaves what it asks for.
IsReq-marked :
    (dest : ℕ → ℕ) (reqs : ℕ → DmaReq) (j i k : ℕ)
    → IsReq dest (reqs i) k
    → IsReq dest (put_at reqs j (record (reqs j) { int_o = true }) i) k
IsReq-marked dest reqs j i k h = ground (arith, h)

module _ (stack : RxStack) {r : RxRing stack.State} {hist : ℕ → Frame} {pk : ℕ → Ptr}
    {c t a e : ℕ} where
  pub sent_none :
      {q : ℕ}
      → RxInv stack r hist pk c t a q e
      → (q' : ℕ) × RxInv stack (send_frames_to_ee false r).1 hist pk c t a q' e
  unfolding send_frames_to_ee
  sent_none {q} v = elim (Bool-cases (r.num_frames_in_queue == 0)) [
    | inl empty ↦ rw empty (q, v)
    | inr full ↦ rw full (
      q,
      record {
        order = v.order;
        wr = v.wr;
        queue_size = v.queue_size;
        rd = v.rd;
        iop = v.iop;
        ee = v.ee;
        sent = v.sent;
        queued = λ i l.
            IsReq-marked (dest_of stack pk) r.dmat_reqs (r.num_frames_in_queue - 1) i (q + i)
              (v.queued i l);
        returning = v.returning;
        positive = v.positive;
        distinct = v.distinct;
        holds = v.holds;
      },
    )
  ]

  pub sent_all :
      {q : ℕ}
      → RxInv stack r hist pk c t a q e
      → let u = (send_frames_to_ee true r).1 in
        RxInv stack u hist pk c t a e e × (u.num_frames_in_queue ≡ 0)
  unfolding send_frames_to_ee
  sent_all {q} v = elim (Bool-cases (r.num_frames_in_queue == 0)) [
    | inl empty ↦
        let same : q ≡ e = ground (arith, v.queue_size) in
        rw empty (subst (λ k. RxInv stack r hist pk c t a k e) same v, ground arith)
    | inr full ↦ rw full (
      record {
        order = omega (arith, v.order, v.queue_size);
        wr = v.wr;
        queue_size = omega arith;
        rd = v.rd;
        iop = v.iop;
        ee = v.ee;
        sent = Requests-append (dest_of stack pk) r.to_ee _ a q e v.sent (
            first_reqs-Requests (dest_of stack pk) _ r.num_frames_in_queue q e v.queue_size (λ i l.
              IsReq-marked (dest_of stack pk) r.dmat_reqs (r.num_frames_in_queue - 1) i (q + i)
                (v.queued i l)));
        queued = λ i l. absurd (omega (arith, l));
        returning = v.returning;
        positive = v.positive;
        distinct = v.distinct;
        holds = v.holds;
      },
      refl,
    )
  ]
