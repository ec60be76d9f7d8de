-- ===== src/Buffers/Owned.antt =====
-- Who owns each buffer of src/networking.c: the two free lists, the transmit queue, or the code
-- that allocated it.
use net_gitaroo.Common.{
  List, arith, count, false, if◌then◌else◌, leb, length, ltb, mem, not-mem_of_count, true, ℕ, ◌&&◌,
  ◌+◌, ◌≡◌, ◌≢◌, ◌≤◌,
}
use net_gitaroo.Packets.{PacketBuffer, Pool, Ptr, null, num_tx_packet_buffers, put}
use net_gitaroo.Buffers.Rx.{rx_base, tx_base}
use net_gitaroo.Buffers.Chain.{Chain, Chain-put_same}

-- 1 at the address of a receive buffer, or of a transmit buffer, and 0 elsewhere.
abbrev pub is_rx : Ptr → ℕ
is_rx a = if leb rx_base a && ltb a tx_base then 1 else 0

abbrev pub is_tx : Ptr → ℕ
is_tx a = if leb tx_base a && ltb a (tx_base + num_tx_packet_buffers) then 1 else 0

-- Each buffer has exactly one owner: the receive buffers are those of the list `rxs` and those
-- given out, `rx_held`; the transmit buffers are those of `fs` (free), `qs` (queued, first to
-- last) and `held`.
pub record Owned (s : Pool) (rxs rx_held fs qs held : List Ptr) : Type 0 where
  pub rx : Chain s.heap s.free_packet_buffer rxs
  pub free : Chain s.heap s.free_tx_packet_buffer fs
  pub queue : Chain s.heap s.next_tx_packet_buffer qs
  pub rx_once : (a : Ptr) → count a rxs + count a rx_held ≡ is_rx a
  pub tx_once : (a : Ptr) → count a fs + count a qs + count a held ≡ is_tx a
  pub total : length fs + length qs + length held ≡ num_tx_packet_buffers

abbrev pub Distinct : List Ptr → Type 0
Distinct xs = (a : Ptr) → count a xs ≤ 1

-- What owns a buffer once owns it alone.
module _ {s : Pool} {rxs rx_held fs qs held : List Ptr} (o : Owned s rxs rx_held fs qs held) where
  pub tx_not_rx : (a : Ptr) → 1 ≤ is_tx a → mem a rxs ≡ false
  tx_not_rx a m = not-mem_of_count a rxs (ground (arith, o.rx_once a))

  pub rx_not_tx : (a : Ptr) → 1 ≤ is_rx a → (mem a fs ≡ false) × (mem a qs ≡ false)
  rx_not_tx a m = (
    not-mem_of_count a fs (ground (arith, o.tx_once a)),
    not-mem_of_count a qs (ground (arith, o.tx_once a)),
  )

  pub held_apart :
      (a : Ptr) → 1 ≤ count a held → (mem a rxs ≡ false) × (mem a fs ≡ false) × (mem a qs ≡ false)
  held_apart a m = (
    tx_not_rx a (omega (arith, o.tx_once a)),
    not-mem_of_count a fs (ground (arith, o.tx_once a)),
    not-mem_of_count a qs (ground (arith, o.tx_once a)),
  )

  pub queued_apart : (a : Ptr) → 1 ≤ count a qs → (mem a rxs ≡ false) × (mem a fs ≡ false)
  queued_apart a m = (
    tx_not_rx a (omega (arith, o.tx_once a)),
    not-mem_of_count a fs (ground (arith, o.tx_once a)),
  )

  pub rx_held_apart :
      (a : Ptr)
      → 1 ≤ count a rx_held
      → (mem a rxs ≡ false) × (mem a fs ≡ false) × (mem a qs ≡ false)
  rx_held_apart a m =
      let (f, q) = rx_not_tx a (omega (arith, o.rx_once a)) in
      (not-mem_of_count a rxs (ground (arith, o.rx_once a)), f, q)

  pub held-ne-null : (p : Ptr) → 1 ≤ count p held → p ≢ null
  held-ne-null p m = ground (arith, o.tx_once p)

  pub rx_held-ne-null : (p : Ptr) → 1 ≤ count p rx_held → p ≢ null
  rx_held-ne-null p m = ground (arith, o.rx_once p)

  pub queue-Distinct : Distinct qs
  queue-Distinct a = ground (arith, o.tx_once a)

-- A write that leaves the pointer alone leaves every owner.
pub put_same-Owned :
    {s : Pool} {rxs rx_held fs qs held : List Ptr} (q : Ptr) (b : PacketBuffer)
    → b.next ≡ (s.heap q).next
    → Owned s rxs rx_held fs qs held
    → Owned (record s { heap = put s.heap q b; interrupts = true }) rxs rx_held fs qs held
put_same-Owned {s} {rxs} {fs} {qs} q b e o = record {
  rx = Chain-put_same s.heap s.free_packet_buffer rxs q b e o.rx;
  free = Chain-put_same s.heap s.free_tx_packet_buffer fs q b e o.free;
  queue = Chain-put_same s.heap s.next_tx_packet_buffer qs q b e o.queue;
  rx_once = o.rx_once;
  tx_once = o.tx_once;
  total = o.total;
}

-- Filling a buffer leaves every owner.
pub fill-Owned :
    {s : Pool} {rxs rx_held fs qs held : List Ptr} (q : Ptr) (b : PacketBuffer)
    → b.next ≡ (s.heap q).next
    → Owned s rxs rx_held fs qs held
    → Owned (record s { heap = put s.heap q b }) rxs rx_held fs qs held
fill-Owned {s} {rxs} {fs} {qs} q b e o = record {
  rx = Chain-put_same s.heap s.free_packet_buffer rxs q b e o.rx;
  free = Chain-put_same s.heap s.free_tx_packet_buffer fs q b e o.free;
  queue = Chain-put_same s.heap s.next_tx_packet_buffer qs q b e o.queue;
  rx_once = o.rx_once;
  tx_once = o.tx_once;
  total = o.total;
}
