-- ===== src/Buffers/RxLaws.antt =====
-- AllocRxPacket, FreeRxPacket and ReallocRxPacket: who owns the receive buffers.
use net_gitaroo.Common.{
  List, [], arith, count_self, false, not-mem_of_count, refl, true, ℕ, ◌==◌, ◌∷◌, ◌≡◌,
}
use net_gitaroo.Packets.{Pool, Ptr, null, put}
use net_gitaroo.Buffers.Owned.{Owned, rx_held-ne-null, rx_held_apart, rx_not_tx}
use net_gitaroo.Buffers.Chain.{Chain-put, put_self}
use net_gitaroo.Buffers.Rx.{alloc_rx_packet, free_rx_packet}

taken_rx : Pool → Ptr → ℕ → Pool
taken_rx s p size = record s {
  free_packet_buffer = (s.heap p).next;
  heap = put s.heap p (record (s.heap p) { next = null; size = size });
  interrupts = true;
}

module _ {s : Pool} {rx_held fs qs held : List Ptr} (size : ℕ) where
  allocated_rx :
      {rxs : List Ptr} (p : Ptr)
      → Owned s (p ∷ rxs) rx_held fs qs held
      → alloc_rx_packet size s ≡ (p, taken_rx s p size)
  unfolding alloc_rx_packet taken_rx
  allocated_rx p o = ground arith

  -- With a free receive buffer, AllocRxPacket hands out the first one with the given size and the
  -- interrupts on; it is owned by the caller, and no other buffer changes its owner.
  pub alloc_rx_packet-free :
      {rxs : List Ptr} (p : Ptr)
      → Owned s (p ∷ rxs) rx_held fs qs held
      → let (buf, t) = alloc_rx_packet size s in
        (buf ≡ p)
        × ((t.heap p).size ≡ size)
        × (t.interrupts ≡ true)
        × Owned t rxs (p ∷ rx_held) fs qs held
  unfolding taken_rx
  alloc_rx_packet-free {rxs} p o =
      let (f, q) = rx_not_tx o p (omega (arith, o.rx_once p, count_self p rxs)) in
      let out = not-mem_of_count p rxs (ground (arith, o.rx_once p)) in
      rw (allocated_rx p o) (
        refl,
        rw put_self,
        refl,
        record {
          rx = Chain-put s.heap (s.heap p).next rxs p _ out o.rx.2;
          free = Chain-put s.heap s.free_tx_packet_buffer fs p _ f o.free;
          queue = Chain-put s.heap s.next_tx_packet_buffer qs p _ q o.queue;
          rx_once = λ a. omega (arith, o.rx_once a);
          tx_once = o.tx_once;
          total = o.total;
        },
      )

  -- Without one, AllocRxPacket returns NULL and no buffer changes its owner; but it leaves the
  -- interrupts on only the first time that this happens: from the second failure on they stay off.
  pub alloc_rx_packet-fails :
      Owned s [] rx_held fs qs held
      → let (buf, t) = alloc_rx_packet size s in
        (buf ≡ null)
        × (t.interrupts ≡ (s.has_failed_alloc == 0))
        × (t.heap ≡ s.heap)
        × ((t.has_failed_alloc == 0) ≡ false)
  unfolding alloc_rx_packet
  alloc_rx_packet-fails o = ground arith

-- FreeRxPacket takes a receive buffer back from the code that holds it, to the front of the free
-- list, and no other buffer changes its owner.
pub free_rx_packet-frees :
    {s : Pool} {rxs rx_held fs qs held : List Ptr} (p : Ptr)
    → Owned s rxs (p ∷ rx_held) fs qs held
    → Owned (free_rx_packet p s) (p ∷ rxs) rx_held fs qs held
unfolding free_rx_packet
free_rx_packet-frees {s} {rxs} {rx_held} {fs} {qs} p o =
    let (r, f, q) = rx_held_apart o p (omega (arith, count_self p rx_held)) in
    record {
      rx = (
        refl,
        rx_held-ne-null o p (omega (arith, count_self p rx_held)),
        rw put_self (Chain-put s.heap s.free_packet_buffer rxs p _ r o.rx),
      );
      free = Chain-put s.heap s.free_tx_packet_buffer fs p _ f o.free;
      queue = Chain-put s.heap s.next_tx_packet_buffer qs p _ q o.queue;
      rx_once = λ a. omega (arith, o.rx_once a);
      tx_once = o.tx_once;
      total = o.total;
    }
