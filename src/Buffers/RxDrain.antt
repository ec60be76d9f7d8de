-- ===== src/Buffers/RxDrain.antt =====
-- AllocRxPacket, called until the receive buffers run out and on.
use net_gitaroo.Common.{
  List, [], arith, false, if◌then◌else◌, leb, length, refl, suc, sym, true, zero, ℕ, ◌++◌, ◌+◌,
  ◌==◌, ◌∙◌, ◌∷◌, ◌≡◌, ◌≢◌,
}
use net_gitaroo.Buffers.Owned.{Owned}
use net_gitaroo.Buffers.Rx.{alloc_rx_packet}
use net_gitaroo.Buffers.RxLaws.{alloc_rx_packet-free}
use net_gitaroo.Packets.{Pool, Ptr, null}

unfoldable pub alloc_rx_packets : (n size : ℕ) → Pool → List Ptr × Pool
alloc_rx_packets zero size s = ([], s)
alloc_rx_packets (suc n) size s =
    let (p, t) = alloc_rx_packet size s in let (ps, u) = alloc_rx_packets n size t in (p ∷ ps, u)

abbrev pub nulls : ℕ → List Ptr
nulls zero = []
nulls (suc n) = null ∷ nulls n

-- A call without a free buffer.
alloc_rx_packet-empty :
    (size : ℕ) (s : Pool)
    → s.free_packet_buffer ≡ null
    → let (p, t) = alloc_rx_packet size s in
      (p ≡ null)
      × (t.free_packet_buffer ≡ null)
      × (t.interrupts ≡ (s.has_failed_alloc == 0))
      × ((t.has_failed_alloc == 0) ≡ false)
unfolding alloc_rx_packet
alloc_rx_packet-empty size s e = ground arith

alloc_rx_packet-flag :
    (size : ℕ) (s : Pool)
    → s.free_packet_buffer ≢ null
    → (alloc_rx_packet size s).1.has_failed_alloc ≡ s.has_failed_alloc
unfolding alloc_rx_packet
alloc_rx_packet-flag size s ne = ground arith

-- Further calls after the first failure.
alloc_rx_packets-off :
    (k size : ℕ) (s : Pool)
    → s.free_packet_buffer ≡ null
    → (s.has_failed_alloc == 0) ≡ false
    → let (ps, t) = alloc_rx_packets k size s in
      (ps ≡ nulls k) × (t.interrupts ≡ (if k == 0 then s.interrupts else false))
unfolding alloc_rx_packets
alloc_rx_packets-off zero size s e failed = (refl, refl)
alloc_rx_packets-off (suc k) size s e failed =
    let (p, f, i, g) = alloc_rx_packet-empty size s e in
    let (ps, off) = alloc_rx_packets-off k size (alloc_rx_packet size s).1 f g in
    (λ j. p j ∷ ps j, ground (arith, off, i, failed))

alloc_rx_packets-empty :
    (k size : ℕ) (s : Pool)
    → s.free_packet_buffer ≡ null
    → s.has_failed_alloc ≡ 0
    → s.interrupts ≡ true
    → let (ps, t) = alloc_rx_packets k size s in (ps ≡ nulls k) × (t.interrupts ≡ leb k 1)
unfolding alloc_rx_packets
alloc_rx_packets-empty zero size s e fresh on = (refl, on)
alloc_rx_packets-empty (suc k) size s e fresh on =
    let (p, f, i, g) = alloc_rx_packet-empty size s e in
    let (ps, off) = alloc_rx_packets-off k size (alloc_rx_packet size s).1 f g in
    (λ j. p j ∷ ps j, ground (arith, off, i, fresh))

-- As many calls of AllocRxPacket as there are free receive buffers hand them all out, in order, and
-- each call after that returns NULL; the interrupts are on behind the first call that fails, and off
-- from the second on; if they are on at first and no call has failed before.
pub alloc_rx_packets-drains :
    (size : ℕ) (rxs : List Ptr) (k : ℕ) {s : Pool} {rx_held fs qs held : List Ptr}
    → Owned s rxs rx_held fs qs held
    → s.has_failed_alloc ≡ 0
    → s.interrupts ≡ true
    → let (ps, t) = alloc_rx_packets (length rxs + k) size s in
      (ps ≡ rxs ++ nulls k) × (t.interrupts ≡ leb k 1)
unfolding alloc_rx_packets
alloc_rx_packets-drains size [] k {s} o fresh on =
    let none_first : length {A = Ptr} [] + k ≡ k = omega arith in
    rw none_first (alloc_rx_packets-empty k size s o.rx fresh on)
alloc_rx_packets-drains size (p ∷ rxs) k {s} o fresh on =
    let (e, _, i, o') = alloc_rx_packet-free size p o in
    let t = (alloc_rx_packet size s).1 in
    let flag = alloc_rx_packet-flag size s (λ z. o.rx.1 (sym o.rx.0 ∙ z)) in
    let (ps, b) = alloc_rx_packets-drains size rxs k o' (flag ∙ fresh) i in
    let one_more : length (p ∷ rxs) + k ≡ suc (length rxs + k) = omega arith in
    rw one_more (λ j. e j ∷ ps j, b)
