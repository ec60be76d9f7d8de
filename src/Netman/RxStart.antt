-- ===== src/Netman/RxStart.antt =====
-- NetManRPCAllocRxBuffers: after it every slot of the receive ring has a packet of its own.
use net_gitaroo.Common.{
  Bool-cases, [], ap, arith, false, inl, inr, mem, refl, subst, suc, true, zero, ℕ, ◌++◌, ◌+◌, ◌<◌,
  ◌==◌, ◌∙◌, ◌∷◌, ◌≡◌, ◌≤◌,
}
use net_gitaroo.IpVisual.{put_at}
use net_gitaroo.Netman.RxInv.{RxInv, Slots, dest_of, slot}
use net_gitaroo.Netman.RxRing.{RxRing, alloc_rx_buffers, clear_buffer_len, init_ring}
use net_gitaroo.Netman.RxStack.{RxStack}
use net_gitaroo.Netman.RxTake.{Slots-append}
use net_gitaroo.Packets.{Ptr, null}
use net_gitaroo.Netman.Span.{count-span-last, count-span-put_above, length-span, mem-span, span}

-- The state with the packets `pk` in the first `i` slots.
pub record Filled (stack : RxStack) (r : RxRing stack.State) (pk : ℕ → Ptr) (i : ℕ) : Type 0 where
  pub wr : r.wr_ptr ≡ 0
  pub none_queued : r.num_frames_in_queue ≡ 0
  pub rd : (r.rd_ptr ≡ 0) × (r.next_rd_ptr ≡ 0)
  pub none_sent : r.to_ee ≡ []
  pub marked : (j : ℕ) → (r.iop_status j).length ≡ 65535
  pub clear : (j : ℕ) → (r.ee_status j).length ≡ 0
  pub packets : (j : ℕ) → j < i → (r.ee_status j).packet ≡ pk j
  pub payloads : (j : ℕ) → j < i → (r.ee_status j).payload ≡ dest_of stack pk j
  pub returning : Slots r.to_iop 0 i
  pub distinct : (j k : ℕ) → j < i → k < i → pk j ≡ pk k → j ≡ k
  pub holds : stack.Holds r.stack (span pk 0 i)

module _ (stack : RxStack) (frame_size : ℕ) where
  pub Filled-init :
      (r : RxRing stack.State) (pk : ℕ → Ptr)
      → stack.Holds r.stack []
      → Filled stack (init_ring r) pk 0
  unfolding init_ring
  Filled-init r pk h = record {
    wr = refl;
    none_queued = refl;
    rd = (refl, refl);
    none_sent = refl;
    marked = λ j. refl;
    clear = λ j. refl;
    packets = λ j l. absurd (omega (arith, l));
    payloads = λ j l. absurd (omega (arith, l));
    returning = refl;
    distinct = λ j k l. absurd (omega (arith, l));
    holds = h;
  }

  pub Filled-next :
      (r : RxRing stack.State) (pk : ℕ → Ptr) (i : ℕ) (p : Ptr) (u : stack.State)
      → i < 24
      → Filled stack r pk i
      → stack.Holds u (p ∷ span pk 0 i) × (mem p (span pk 0 i) ≡ false)
      → Filled stack
          (clear_buffer_len i p (stack.data_of p) (record r { stack = u }))
          (put_at pk i p)
          (suc i)
  unfolding clear_buffer_len
  Filled-next r pk i p u few f gave = record {
    wr = f.wr;
    none_queued = f.none_queued;
    rd = f.rd;
    none_sent = f.none_sent;
    marked = f.marked;
    clear = λ j. ground (arith, f.clear j);
    packets = λ j l. ground (arith, f.packets j);
    payloads = λ j l. elim (Bool-cases (j == i)) [
      | inl e ↦ rw e (ap stack.data_of (ground arith))
      | inr e ↦ rw e (f.payloads j (ground arith) ∙ ap stack.data_of (ground arith))
    ];
    returning =
        subst (λ k. Slots (r.to_iop ++ (k ∷ [])) 0 (suc i)) (omega arith)
          (Slots-append r.to_iop 0 i f.returning);
    distinct = λ j k l m e. ground (
      arith,
      f.distinct j k,
      mem-span pk p j 0 i gave.1 (omega arith),
      mem-span pk p k 0 i gave.1 (omega arith),
    );
    holds =
        stack.reorders u (p ∷ span pk 0 i) (span (put_at pk i p) 0 (suc i))
          (λ x. ground (
            arith,
            count-span-last (put_at pk i p) x 0 i,
            count-span-put_above pk i p x 0 i (omega arith),
          ))
          (omega (arith, length-span pk 0 i, length-span (put_at pk i p) 0 (suc i))) gave.0;
  }

  -- With 24 packets to give, NetManRPCAllocRxBuffers succeeds.
  pub Filled-all :
      (n i : ℕ) (r : RxRing stack.State) (pk : ℕ → Ptr)
      → i + n ≡ 24
      → 24 ≤ stack.capacity
      → Filled stack r pk i
      → let (done, t) = alloc_rx_buffers stack frame_size n i r in
        (done ≡ true) × ((pk' : ℕ → Ptr) × Filled stack t pk' 24)
  unfolding alloc_rx_buffers
  Filled-all zero i r pk e enough f = (refl, (pk, subst (Filled stack r pk) (omega (arith, e)) f))
  Filled-all (suc n) i r pk e enough f =
      let p = (stack.alloc_rx_packet frame_size r.stack).0 in
      let u = (stack.alloc_rx_packet frame_size r.stack).1 in
      elim (Bool-cases (p == null)) [
        | inl fails ↦
            let few = (stack.refuses frame_size r.stack (span pk 0 i) f.holds (ground arith)).1 in
            absurd (omega (arith, few, length-span pk 0 i))
        | inr given ↦
            let gave = stack.gives frame_size r.stack (span pk 0 i) f.holds (ground arith) in
            rw given (
              Filled-all n (i + 1) _ (put_at pk i p) (omega (arith, e)) enough (
                subst (Filled stack _ (put_at pk i p)) (omega arith)
                  (Filled-next r pk i p u (omega (arith, e)) f gave)))
      ]

  pub Filled-RxInv :
      (r : RxRing stack.State) (pk : ℕ → Ptr)
      → Filled stack r pk 24
      → RxInv stack r (λ k. (0, 0)) pk 0 24 24 24 24
  Filled-RxInv r pk f = record {
    order = omega arith;
    wr = f.wr;
    queue_size = omega (arith, f.none_queued);
    rd = f.rd;
    iop = record {
      used = λ k h l e. absurd (omega (arith, f.marked (slot k), e));
      lengths = λ k h l. absurd (omega (arith, h, l));
      frames = λ k h l. absurd (omega (arith, h, l));
      free = λ k h l. absurd (omega (arith, h, l));
      packets = λ k h l. absurd (omega (arith, h, l));
      payloads = λ k h l. absurd (omega (arith, h, l));
    };
    ee = record {
      lengths = λ k h l. absurd (omega (arith, h, l));
      frames = λ k h l. absurd (omega (arith, h, l));
      clear = λ k h l. f.clear (slot k);
      packets = f.packets;
      payloads = f.payloads;
    };
    sent = rw f.none_sent refl;
    queued = λ i l. absurd (omega (arith, l, f.none_queued));
    returning = f.returning;
    positive = λ k h l. absurd (omega (arith, h, l));
    distinct = f.distinct;
    holds = f.holds;
  }
