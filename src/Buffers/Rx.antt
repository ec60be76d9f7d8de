-- ===== src/Buffers/Rx.antt =====
-- The receive side of src/networking.c (AllocRxPacket, FreeRxPacket, ReallocRxPacket) and the
-- set-up of the lists in InitConnection.
use net_gitaroo.Common.{false, if◌then◌else◌, suc, true, zero, ℕ, ◌+◌, ◌==◌}
use net_gitaroo.Packets.{Heap, Pool, Ptr, null, put, put_next}

-- AllocRxPacket: the buffer, and the new state. `*payload` is set to the buffer's `data` exactly
-- where the result is not NULL. Interrupts are off from the DI on, and EI is called in the first
-- two branches only.
unfoldable pub alloc_rx_packet : ℕ → Pool → Ptr × Pool
alloc_rx_packet size s =
    let buf = s.free_packet_buffer in
    if buf == null
    then (
      buf,
      if s.has_failed_alloc == 0
          then record s { interrupts = true; has_failed_alloc = 1 }
          else record s { interrupts = false },
    )
    else (
      buf,
      record s {
        free_packet_buffer = (s.heap buf).next;
        heap = put s.heap buf (record (s.heap buf) { next = null; size = size });
        interrupts = true;
      },
    )

-- FreeRxPacket
unfoldable pub free_rx_packet : Ptr → Pool → Pool
free_rx_packet packet s = record s {
  heap = put_next s.heap packet s.free_packet_buffer;
  free_packet_buffer = packet;
  interrupts = true;
}

-- ReallocRxPacket
unfoldable pub realloc_rx_packet : Ptr → ℕ → Pool → Pool
realloc_rx_packet packet size s = record s {
  heap = put s.heap packet (record (s.heap packet) { size = size });
}

-- `for(i = …; i < n - 1; i++) buffers[i].next = &buffers[i+1]; buffers[n-1].next = NULL`, for an
-- array of `suc n` buffers from address `p` on.
unfoldable pub link_array : ℕ → Ptr → Heap → Heap
link_array zero p h = put_next h p null
link_array (suc n) p h = link_array n (p + 1) (put_next h p (p + 1))

-- The addresses of `packet_buffers` and `tx_packet_buffers`.
abbrev pub rx_base : Ptr
rx_base = 1

abbrev pub tx_base : Ptr
tx_base = 26

-- The part of InitConnection that builds the two free lists.
unfoldable pub init_lists : Pool → Pool
unfolding link_array
init_lists s = record s {
  heap = link_array 15 tx_base (link_array 24 rx_base s.heap);
  free_packet_buffer = rx_base;
  free_tx_packet_buffer = tx_base;
}
