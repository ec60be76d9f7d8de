-- ===== src/Buffers/QueueTx.antt =====
-- AddTxPacket, NextTxPacket, AfterTxPacket and DeQTxPacket work the transmit queue first in,
-- first out, and lose no buffer.
use net_gitaroo.Common.{
  List, [], ap, arith, count, count-append, false, length, length-append, mem, not-mem_of_count,
  refl, suc, true, zero, ℕ, ◌++◌, ◌+◌, ◌<◌, ◌==◌, ◌∙◌, ◌∷◌, ◌≡◌, ◌≢◌, ◌≤◌,
}
use net_gitaroo.Packets.{Heap, Pool, Ptr, max_rounds, null, put, put_next}
use net_gitaroo.Buffers.Tx.{add_tx_packet, find_last}
use net_gitaroo.Buffers.Chain.{Chain, Chain-put, put_self}
use net_gitaroo.Buffers.Owned.{
  Distinct, Owned, held-ne-null, held_apart, queue-Distinct, queued_apart,
}

-- The last buffer of a list that is not empty.
abbrev last_of : Ptr → List Ptr → Ptr
last_of x [] = x
last_of x (y ∷ ys) = last_of y ys

find_last-last_of :
    (h : Heap) (k : ℕ) (x : Ptr) (xs : List Ptr)
    → Chain h (h x).next xs
    → length xs < k
    → find_last k h x ≡ last_of x xs
unfolding find_last
find_last-last_of h zero x xs c fuel = absurd (omega arith)
find_last-last_of h (suc k) x [] c fuel = ground arith
find_last-last_of h (suc k) x (y ∷ ys) c fuel = ground (arith, find_last-last_of h k y ys c.2)

mem-last_of : (a x : Ptr) (xs : List Ptr) → mem a (x ∷ xs) ≡ false → (a == last_of x xs) ≡ false
mem-last_of a x [] m = ground arith
mem-last_of a x (y ∷ ys) m = mem-last_of a y ys (ground arith)

-- Linking `p` behind the last buffer.
Chain-append_last :
    (h : Heap) (q p x : Ptr) (xs : List Ptr)
    → Chain h q (x ∷ xs)
    → Distinct (x ∷ xs)
    → mem p (x ∷ xs) ≡ false
    → p ≢ null
    → (h p).next ≡ null
    → Chain (put_next h (last_of x xs) p) q ((x ∷ xs) ++ (p ∷ []))
unfolding put
Chain-append_last h q p x [] c d m ne e = ground arith
Chain-append_last h q p x (y ∷ ys) c d m ne e =
    let out = not-mem_of_count x (y ∷ ys) (ground (arith, d x)) in
    let keep = mem-last_of x y ys out in
    let rest =
      Chain-append_last h (h x).next p y ys c.2 (λ a. ground (arith, d a)) (ground arith) ne e in
    (c.0, c.1, rw keep rest)

count-last_of : (x : Ptr) (xs : List Ptr) → 1 ≤ count (last_of x xs) (x ∷ xs)
count-last_of x [] = ground arith
count-last_of x (y ∷ ys) = omega (arith, count-last_of y ys)

-- The lists after the two writes of AddTxPacket to a queue that is not empty.
module _ {s : Pool} {rxs rx_held fs held : List Ptr} (p q : Ptr) (qs : List Ptr)
    (o : Owned s rxs rx_held fs (q ∷ qs) (p ∷ held)) where
  cleared : Heap
  cleared = put s.heap p (record (s.heap p) { next = null; transmitting = 0 })

  apart : (mem p rxs ≡ false) × (mem p fs ≡ false) × (mem p (q ∷ qs) ≡ false)
  apart = held_apart o p (ground arith)

  last_apart : (mem (last_of q qs) rxs ≡ false) × (mem (last_of q qs) fs ≡ false)
  last_apart = queued_apart o (last_of q qs) (count-last_of q qs)

  queue_cleared : Chain cleared s.next_tx_packet_buffer (q ∷ qs)
  unfolding cleared
  queue_cleared = Chain-put s.heap s.next_tx_packet_buffer (q ∷ qs) p _ apart.2 o.queue

  found : find_last max_rounds cleared s.next_tx_packet_buffer ≡ last_of q qs
  found =
      ap (find_last max_rounds cleared) queue_cleared.0
      ∙ find_last-last_of cleared max_rounds q qs queue_cleared.2 (omega (arith, o.total))

  linked : Heap
  linked = put_next cleared (last_of q qs) p

  linked-keeps :
      (h : Ptr) (xs : List Ptr)
      → mem p xs ≡ false
      → mem (last_of q qs) xs ≡ false
      → Chain s.heap h xs
      → Chain linked h xs
  unfolding linked cleared
  linked-keeps h xs out out' c =
      Chain-put cleared h xs (last_of q qs) _ out' (Chain-put s.heap h xs p _ out c)

  linked-queue : Chain linked s.next_tx_packet_buffer ((q ∷ qs) ++ (p ∷ []))
  unfolding linked cleared put
  linked-queue =
      Chain-append_last cleared s.next_tx_packet_buffer p q qs queue_cleared (queue-Distinct o)
        apart.2 (held-ne-null o p (ground arith)) (ground arith)

  added : add_tx_packet p s ≡ record s { heap = linked; interrupts = true; xmits = s.xmits + 1 }
  unfolding add_tx_packet linked cleared
  added =
      let busy : (s.next_tx_packet_buffer == null) ≡ false = ground arith in
      rw busy (unfold cleared in rw found)

added_first :
    {s : Pool} {rxs rx_held fs held : List Ptr} (p : Ptr)
    → Owned s rxs rx_held fs [] held
    → add_tx_packet p s ≡ record s {
      heap = put s.heap p (record (s.heap p) { next = null; transmitting = 0 });
      next_tx_packet_buffer = p;
      interrupts = true;
      xmits = s.xmits + 1;
    }
unfolding add_tx_packet
added_first p o = ground arith

-- AddTxPacket puts an allocated buffer at the end of the transmit queue and wakes the sender once:
-- every other list stays as it was, and every buffer still has exactly one owner.
pub add_tx_packet-enqueues :
    {s : Pool} {rxs rx_held fs qs held : List Ptr} (p : Ptr)
    → Owned s rxs rx_held fs qs (p ∷ held)
    → Owned (add_tx_packet p s) rxs rx_held fs (qs ++ (p ∷ [])) held
      × ((add_tx_packet p s).xmits ≡ s.xmits + 1)
add_tx_packet-enqueues {s} {rxs} {fs} {qs = []} {held} p o =
    let (r, f, _) = held_apart o p (ground arith) in
    rw (added_first p o) (
      record {
        rx = Chain-put s.heap s.free_packet_buffer rxs p _ r o.rx;
        free = Chain-put s.heap s.free_tx_packet_buffer fs p _ f o.free;
        queue = (refl, held-ne-null o p (ground arith), rw put_self);
        rx_once = o.rx_once;
        tx_once = λ a. omega (arith, o.tx_once a);
        total = omega (arith, o.total);
      },
      refl,
    )
add_tx_packet-enqueues {s} {rxs} {fs} {qs = q ∷ qs} {held} p o =
    let (r, f, _) = held_apart o p (ground arith) in
    let (r', f') = last_apart p q qs o in
    rw (added p q qs o) (
      record {
        rx = linked-keeps p q qs o s.free_packet_buffer rxs r r' o.rx;
        free = linked-keeps p q qs o s.free_tx_packet_buffer fs f f' o.free;
        queue = linked-queue p q qs o;
        rx_once = o.rx_once;
        tx_once = λ a. omega (arith, o.tx_once a, count-append a (q ∷ qs) (p ∷ []));
        total = omega (arith, o.total, length-append (q ∷ qs) (p ∷ []));
      },
      refl,
    )
