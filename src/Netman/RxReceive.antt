-- ===== src/Netman/RxReceive.antt =====
-- A received frame from the driver to the ring of the IOP.
use net_gitaroo.Common.{
  Bool-cases, Option, ap, arith, inl, inr, length, none, refl, some, sym, ℕ, ◌==◌, ◌≡◌,
}
use net_gitaroo.IpVisual.{put_at}
use net_gitaroo.Netman.RxRing.{RxRing, alloc_packet, enq_frame, enq_packet}
use net_gitaroo.Netman.RxRuns.{driver_receive, fill_packet}

abbrev packet_or : ℕ → Option ℕ → ℕ
packet_or d none = d
packet_or d (some p) = p

module _ {S : Type 0} where
  -- A packet is given where the slot at the write pointer is free: it is that slot's.
  pub alloc_packet-given :
      (length packet : ℕ) (r : RxRing S)
      → (alloc_packet length r).0 ≡ some packet
      → ((r.iop_status r.wr_ptr).length ≡ 0)
        × (packet ≡ r.wr_ptr)
        × ((alloc_packet length r).1 ≡ record r {
          pbufs =
              put_at r.pbufs r.wr_ptr
                (record { handle = some r.wr_ptr; payload = r.wr_ptr; length = length });
        })
  unfolding alloc_packet
  alloc_packet-given length packet r given =
      elim (Bool-cases ((r.iop_status r.wr_ptr).length == 0)) [
        | inl free ↦
            let e = rw free at given in rw free (ground arith, sym (ap (packet_or 0) e), refl)
        | inr busy ↦ let e = rw busy at given in cc
      ]

  -- The state in which the driver has allocated and filled a packet.
  abbrev pub filled : (length frame : ℕ) → RxRing S → RxRing S
  filled length frame r = record r {
    pbufs =
        put_at r.pbufs r.wr_ptr
          (record { handle = some r.wr_ptr; payload = r.wr_ptr; length = length });
    frame_buffer = put_at r.frame_buffer r.wr_ptr frame;
  }

  pub fill_packet-allocated :
      (length frame packet : ℕ) (r : RxRing S)
      → (alloc_packet length r).0 ≡ some packet
      → (fill_packet packet frame (alloc_packet length r).1 ≡ filled length frame r)
        × ((r.iop_status r.wr_ptr).length ≡ 0)
        × (packet ≡ r.wr_ptr)
  fill_packet-allocated length frame packet r given =
      let (free, same, e) = alloc_packet-given length packet r given in
      let own : (put_at r.pbufs r.wr_ptr
            (record { handle = some r.wr_ptr; payload = r.wr_ptr; length = length }) r.wr_ptr)
          ≡ record { handle = some r.wr_ptr; payload = r.wr_ptr; length = length } =
        ground arith in
      (rw (e, same, own) refl, free, same)

  -- The driver's frame goes to the slot at the write pointer.
  pub driver_receive-enq_frame :
      (group_size length frame packet : ℕ) (r : RxRing S)
      → (alloc_packet length r).0 ≡ some packet
      → (driver_receive group_size length frame packet r
          ≡ enq_frame group_size r.wr_ptr length (filled length frame r))
        × ((r.iop_status r.wr_ptr).length ≡ 0)
  unfolding enq_packet
  driver_receive-enq_frame group_size length frame packet r given =
      let (e, free, same) = fill_packet-allocated length frame packet r given in
      let own : ((filled length frame r).pbufs r.wr_ptr)
          ≡ record { handle = some r.wr_ptr; payload = r.wr_ptr; length = length } =
        ground arith in
      (rw (e, same, own) refl, free)
