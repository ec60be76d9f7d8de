-- ===== src/Buffers/SendTx.antt =====
-- NextTxPacket, AfterTxPacket and DeQTxPacket: what the sending thread sees of the queue.
use net_gitaroo.Common.{
  List, Option, [], arith, length, none, not-mem_of_count, refl, some, true, ℕ, ◌∷◌, ◌≡◌, ◌≤◌,
}
use net_gitaroo.Packets.{Pool, Ptr, put_next}
use net_gitaroo.Buffers.Owned.{Owned, put_same-Owned, queue-Distinct, queued_apart}
use net_gitaroo.Buffers.Chain.{Chain-put, put_self}
use net_gitaroo.Buffers.Tx.{after_tx_packet, deq_tx_packet, next_tx_packet, set_transmitting}

-- What the sender is handed: nothing and size 0, or a buffer of the pool, its size, and the mark
-- on it.
abbrev pub Handed : Pool → List Ptr → ℕ × Option Ptr × Pool → Type 0
Handed s [] (n, p, t) = (n ≡ 0) × (p ≡ none)
Handed s (q ∷ _) (n, p, t) = (n ≡ (s.heap q).size) × (p ≡ some q) × ((t.heap q).transmitting ≡ 1)

abbrev pub tail_of : List Ptr → List Ptr
tail_of [] = []
tail_of (x ∷ xs) = xs

module _ {s : Pool} {rxs rx_held fs held : List Ptr} (q : Ptr) (qs : List Ptr)
    (o : Owned s rxs rx_held fs (q ∷ qs) held) where
  nexted :
      next_tx_packet s
      ≡ ((s.heap q).size, some q, record s { heap = set_transmitting s.heap q; interrupts = true })
  unfolding next_tx_packet
  nexted = ground arith

  dequeued : deq_tx_packet s ≡ record s {
    heap = put_next s.heap q s.free_tx_packet_buffer;
    free_tx_packet_buffer = q;
    next_tx_packet_buffer = (s.heap q).next;
    interrupts = true;
  }
  unfolding deq_tx_packet
  dequeued = ground arith

aftered :
    {s : Pool} {rxs rx_held fs held : List Ptr} (q r : Ptr) (qs : List Ptr)
    → Owned s rxs rx_held fs (q ∷ r ∷ qs) held
    → after_tx_packet s
      ≡ ((s.heap r).size, some r, record s { heap = set_transmitting s.heap r; interrupts = true })
unfolding after_tx_packet
aftered q r qs o = ground arith

-- Switching the interrupts on moves no buffer.
interrupts-Owned :
    {s : Pool} {rxs rx_held fs qs held : List Ptr}
    → Owned s rxs rx_held fs qs held
    → Owned (record s { interrupts = true }) rxs rx_held fs qs held
interrupts-Owned o = record {
  rx = o.rx;
  free = o.free;
  queue = o.queue;
  rx_once = o.rx_once;
  tx_once = o.tx_once;
  total = o.total;
}

nothing_next :
    {s : Pool} {rxs rx_held fs held : List Ptr}
    → Owned s rxs rx_held fs [] held
    → next_tx_packet s ≡ (0, none, record s { interrupts = true })
unfolding next_tx_packet
nothing_next o = ground arith

nothing_after :
    {s : Pool} {rxs rx_held fs qs held : List Ptr}
    → length qs ≤ 1
    → Owned s rxs rx_held fs qs held
    → after_tx_packet s ≡ (0, none, record s { interrupts = true })
unfolding after_tx_packet
nothing_after {qs = []} few o = ground arith
nothing_after {qs = q ∷ []} few o = ground arith
nothing_after {qs = q ∷ r ∷ qs} few o = absurd (omega arith)

-- NextTxPacket hands out the first buffer of the queue, marks it, and moves no buffer; on an
-- empty queue it returns 0.
pub next_tx_packet-Handed :
    {s : Pool} {rxs rx_held fs qs held : List Ptr}
    → Owned s rxs rx_held fs qs held
    → Handed s qs (next_tx_packet s) × Owned (next_tx_packet s).2 rxs rx_held fs qs held
next_tx_packet-Handed {s} {qs = []} o = rw (nothing_next o) ((refl, refl), interrupts-Owned o)
next_tx_packet-Handed {s} {qs = q ∷ qs} o =
    rw (nexted q qs o) ((refl, refl, rw put_self), put_same-Owned q _ refl o)

-- AfterTxPacket hands out the second buffer of the queue, marks it, and moves no buffer; with
-- fewer than two it returns 0.
pub after_tx_packet-Handed :
    {s : Pool} {rxs rx_held fs qs held : List Ptr}
    → Owned s rxs rx_held fs qs held
    → Handed s (tail_of qs) (after_tx_packet s) × Owned (after_tx_packet s).2 rxs rx_held fs qs held
after_tx_packet-Handed {s} {qs = []} o =
    rw (nothing_after (omega arith) o) ((refl, refl), interrupts-Owned o)
after_tx_packet-Handed {s} {qs = q ∷ []} o =
    rw (nothing_after (omega arith) o) ((refl, refl), interrupts-Owned o)
after_tx_packet-Handed {s} {qs = q ∷ r ∷ qs} o =
    rw (aftered q r qs o) ((refl, refl, rw put_self), put_same-Owned r _ refl o)

-- DeQTxPacket moves the first buffer of the queue to the front of the free list, and changes the
-- owner of no other.
pub deq_tx_packet-frees :
    {s : Pool} {rxs rx_held fs qs held : List Ptr} (q : Ptr)
    → Owned s rxs rx_held fs (q ∷ qs) held
    → Owned (deq_tx_packet s) rxs rx_held (q ∷ fs) qs held
deq_tx_packet-frees {s} {rxs} {fs} {qs} q o =
    let (r, f) = queued_apart o q (ground arith) in
    let out = not-mem_of_count q qs (ground (arith, queue-Distinct o q)) in
    rw (dequeued q qs o) (record {
      rx = Chain-put s.heap s.free_packet_buffer rxs q _ r o.rx;
      free =
          (refl, o.queue.1, rw put_self (Chain-put s.heap s.free_tx_packet_buffer fs q _ f o.free));
      queue = Chain-put s.heap (s.heap q).next qs q _ out o.queue.2;
      rx_once = o.rx_once;
      tx_once = λ a. omega (arith, o.tx_once a);
      total = omega (arith, o.total);
    })
