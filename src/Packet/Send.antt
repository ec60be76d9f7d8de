-- ===== src/Packet/Send.antt =====
-- A datagram from MakeUdpPacket to the transmit queue, when a buffer is free.
use net_gitaroo.Common.{
  List, [], ap, arith, false, refl, true, u16, ℕ, ◌++◌, ◌+◌, ◌==◌, ◌∙◌, ◌∷◌, ◌≡◌,
}
use net_gitaroo.Net.{Env, Net}
use net_gitaroo.Packets.{Bytes, Heap, Pool, Ptr, null, put, put_next}
use net_gitaroo.Packet.{
  fill, ip_frame, make_ip_packet, make_udp_packet, udp_bytes, udp_datagram, write_bytes,
}
use net_gitaroo.Bytes.{HwAddr, IpAddr}
use net_gitaroo.Buffers.Owned.{Owned, fill-Owned}
use net_gitaroo.Buffers.QueueTx.{add_tx_packet-enqueues}
use net_gitaroo.Buffers.Tx.{add_tx_packet, mark}
use net_gitaroo.Checksum.{finalize_udp_checksum}
use net_gitaroo.Buffers.AllocTx.{alloc_tx_packet-free, allocated_free}

-- AddTxPacket writes no packet's bytes and no size.
bytes-put_next :
    (h : Heap) (p q a : Ptr)
    → ((put_next h p q a).bytes ≡ (h a).bytes) × ((put_next h p q a).size ≡ (h a).size)
unfolding put
bytes-put_next h p q a = ground arith

pub bytes-add_tx_packet :
    (p a : Ptr) (s : Pool)
    → (((add_tx_packet p s).heap a).bytes ≡ (s.heap a).bytes)
      × (((add_tx_packet p s).heap a).size ≡ (s.heap a).size)
unfolding add_tx_packet put
bytes-add_tx_packet p a s = ground arith

-- What `fill` leaves in its buffer.
bytes-fill :
    (s : Pool) (p : Ptr) (write : Bytes → Bytes) (size : ℕ)
    → (((fill s p write size).heap p).bytes ≡ write (s.heap p).bytes)
      × (((fill s p write size).heap p).size ≡ size)
unfolding put
bytes-fill s p write size = (ground arith, ground arith)

-- The pool after the allocation of the free buffer `p`.
unfoldable pub taken_tx : Pool → Ptr → ℕ → Pool
taken_tx s p priority = record s {
  free_tx_packet_buffer = (s.heap p).next;
  heap = mark s.heap p priority;
  interrupts = true;
}

-- The bytes of a datagram whose payload the caller writes.
abbrev pub datagram_bytes :
    Net
    → (dst : IpAddr) (dst_hwaddr : HwAddr) (src_port dst_port len : ℕ) (payload : Bytes → Bytes)
    → Bytes
    → Bytes
datagram_bytes s dst dst_hwaddr src_port dst_port len payload d =
    finalize_udp_checksum
      (payload (
        udp_bytes s.our_ip dst src_port dst_port len
          (ip_frame s dst dst_hwaddr 17 (u16 (len + 8)) d)))
      udp_datagram

-- The state that MakeUdpPacket leaves when it is given the free buffer `p`.
unfoldable pub made_udp :
    (dst : IpAddr) (dst_hwaddr : HwAddr) (src_port dst_port len priority : ℕ) → Ptr → Net → Net
unfolding taken_tx
made_udp dst dst_hwaddr src_port dst_port len priority p s =
    let pool = taken_tx s.pool p priority in
    let t = record s {
      pool = fill pool p (ip_frame s dst dst_hwaddr 17 (u16 (len + 8))) (14 + 20 + u16 (len + 8));
      ip_id_ctr = u16 (s.ip_id_ctr + 1);
    } in
    write_bytes t p (udp_bytes s.our_ip dst src_port dst_port len)

module _ (dst : IpAddr) (dst_hwaddr : HwAddr) (src_port dst_port len priority : ℕ) (s : Net)
    {rxs rx_held fs qs held : List Ptr} (p : Ptr)
    (o : Owned s.pool rxs rx_held (p ∷ fs) qs held) where
  pub make_udp_packet-made :
      (env : Env)
      → make_udp_packet env dst dst_hwaddr src_port dst_port len priority s
        ≡ (p, made_udp dst dst_hwaddr src_port dst_port len priority p s)
  unfolding make_udp_packet make_ip_packet made_udp
  make_udp_packet-made env =
      let busy : (p == null) ≡ false = ground (arith, o.free.1) in
      rw (allocated_free (env.uninit s.pool) priority p o, busy, busy)

  unfoldable pub made : Pool
  made = (made_udp dst dst_hwaddr src_port dst_port len priority p s).pool

  taken_tx-Owned : Owned (taken_tx s.pool p priority) rxs rx_held fs qs (p ∷ held)
  unfolding taken_tx
  taken_tx-Owned =
      let t = alloc_tx_packet-free 0 priority p o in
      let t' = rw (allocated_free 0 priority p o) at t in t'.1

  made_udp-Owned : Owned made rxs rx_held fs qs (p ∷ held)
  unfolding made made_udp
  made_udp-Owned = fill-Owned p _ refl (fill-Owned p _ refl taken_tx-Owned)

  made_udp-bytes :
      ((made.heap p).bytes
        ≡ udp_bytes s.our_ip dst src_port dst_port len
            (ip_frame s dst dst_hwaddr 17 (u16 (len + 8)) (s.pool.heap p).bytes))
      × ((made.heap p).size ≡ 14 + 20 + u16 (len + 8))
  unfolding made made_udp taken_tx put
  made_udp-bytes = (ground arith, ground arith)

  module _ (payload : Bytes → Bytes) where
    -- the pool after the payload is written, and after the checksum is filled in
    unfoldable pub written : Pool
    written = fill made p payload (made.heap p).size

    unfoldable pub finished : Pool
    finished = fill written p (λ d. finalize_udp_checksum d udp_datagram) (written.heap p).size

    finished-bytes :
        ((finished.heap p).bytes
          ≡ datagram_bytes s dst dst_hwaddr src_port dst_port len payload (s.pool.heap p).bytes)
        × ((finished.heap p).size ≡ 14 + 20 + u16 (len + 8))
    unfolding finished written
    finished-bytes =
        let (b, n) = made_udp-bytes in
        let (b', n') = bytes-fill made p payload (made.heap p).size in
        let (b'', n'') =
          bytes-fill written p (λ d. finalize_udp_checksum d udp_datagram) (written.heap p).size in
        (b'' ∙ ap (λ d. finalize_udp_checksum d udp_datagram) (b' ∙ ap payload b), n'' ∙ n' ∙ n)

    -- The datagram is queued last, with its bytes, and no other buffer changes its owner.
    pub send-Owned :
        Owned (add_tx_packet p finished) rxs rx_held fs (qs ++ (p ∷ [])) held
        × (((add_tx_packet p finished).heap p).bytes
            ≡ datagram_bytes s dst dst_hwaddr src_port dst_port len payload (s.pool.heap p).bytes)
        × (((add_tx_packet p finished).heap p).size ≡ 14 + 20 + u16 (len + 8))
    unfolding finished written
    send-Owned =
        let w = fill-Owned p _ refl (fill-Owned p _ refl made_udp-Owned) in
        let (b, n) = bytes-add_tx_packet p p finished in
        let (b', n') = finished-bytes in ((add_tx_packet-enqueues p w).0, b ∙ b', n ∙ n')
