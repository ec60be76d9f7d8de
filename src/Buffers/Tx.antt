-- ===== src/Buffers/Tx.antt =====
-- The transmit side of src/networking.c: AllocTxPacket, AddTxPacket, NextTxPacket, DeQTxPacket
-- and AfterTxPacket. A walk along a list tests its condition at most `max_rounds` times, once
-- more than there are transmit buffers: enough for every list without a cycle.
use net_gitaroo.Common.{
  Bool, Option, if◌then◌else◌, leb, none, some, suc, true, zero, ℕ, ◌&&◌, ◌+◌, ◌==◌,
}
use net_gitaroo.Packets.{Heap, PacketBuffer, Pool, Ptr, max_rounds, null, put, put_next}

-- `!next_yoink->transmitting && priority <= next_yoink->priority`
unfoldable pub is_eligible : ℕ → PacketBuffer → Bool
is_eligible priority b = (b.transmitting == 0) && leb priority b.priority

-- The first loop of AllocTxPacket: `buf` is overwritten by each eligible buffer in turn.
unfoldable pub find_victim : ℕ → Heap → ℕ → Ptr → Ptr → Ptr
find_victim zero h priority yoink buf = buf
find_victim (suc k) h priority yoink buf =
    let rest =
      find_victim k h priority (h yoink).next
        (if is_eligible priority (h yoink) then yoink else buf) in
    if yoink == null then buf else rest

-- The second loop: unlinks `buf` behind the first entry that points at it.
unfoldable pub unlink_behind : ℕ → Heap → Ptr → Ptr → Heap
unlink_behind zero h yoink buf = h
unlink_behind (suc k) h yoink buf =
    let rest = unlink_behind k h (h yoink).next buf in
    if yoink == null
    then h
    else if (h yoink).next == buf
    then put_next h yoink (h buf).next
    else rest

-- `buf->priority = priority; buf->transmitting = 0;`
abbrev pub mark : Heap → Ptr → ℕ → Heap
mark h p priority = put h p (record (h p) { priority = priority; transmitting = 0 })

-- `if(buf != NULL) { … }` of the branch that has no free buffer
unfoldable pub unlink : Pool → Ptr → Pool
unlink s buf =
    if buf == null
    then s
    else if buf == s.next_tx_packet_buffer
    then record s { next_tx_packet_buffer = (s.heap buf).next }
    else record s { heap = unlink_behind max_rounds s.heap s.next_tx_packet_buffer buf }

-- AllocTxPacket. `uninit` is what the local `buf` holds before anything is assigned to it: the
-- source gives it no initial value.
unfoldable pub alloc_tx_packet : (uninit : Ptr) (priority : ℕ) → Pool → Ptr × Pool
alloc_tx_packet uninit priority s =
    if s.free_tx_packet_buffer == null
    then (let buf = find_victim max_rounds s.heap priority s.next_tx_packet_buffer uninit in
        let t = unlink s buf in
        (buf, record t { heap = mark t.heap buf priority; interrupts = true }))
    else (let buf = s.free_tx_packet_buffer in
        (
          buf,
          record s {
            free_tx_packet_buffer = (s.heap buf).next;
            heap = mark s.heap buf priority;
            interrupts = true;
          },
        ))

-- `while(last->next != NULL) last = last->next;`
unfoldable pub find_last : ℕ → Heap → Ptr → Ptr
find_last zero h last = last
find_last (suc k) h last =
    let rest = find_last k h (h last).next in if (h last).next == null then last else rest

-- AddTxPacket
unfoldable pub add_tx_packet : Ptr → Pool → Pool
add_tx_packet packet s =
    let h = put s.heap packet (record (s.heap packet) { next = null; transmitting = 0 }) in
    let t =
      if s.next_tx_packet_buffer == null
      then record s { heap = h; next_tx_packet_buffer = packet }
      else record s { heap = put_next h (find_last max_rounds h s.next_tx_packet_buffer) packet } in
    record t { interrupts = true; xmits = s.xmits + 1 }

abbrev pub set_transmitting : Heap → Ptr → Heap
set_transmitting h p = put h p (record (h p) { transmitting = 1 })

-- NextTxPacket: the size that it returns, the buffer whose `data` it hands out through
-- `payload`, and the new state.
unfoldable pub next_tx_packet : Pool → ℕ × Option Ptr × Pool
next_tx_packet s =
    let p = s.next_tx_packet_buffer in
    if p == null
    then (0, none, record s { interrupts = true })
    else ((s.heap p).size, some p, record s { heap = set_transmitting s.heap p; interrupts = true })

-- DeQTxPacket
unfoldable pub deq_tx_packet : Pool → Pool
deq_tx_packet s =
    let p = s.next_tx_packet_buffer in
    if p == null then s else record s {
      heap = put_next s.heap p s.free_tx_packet_buffer;
      free_tx_packet_buffer = p;
      next_tx_packet_buffer = (s.heap p).next;
      interrupts = true;
    }

-- AfterTxPacket: as NextTxPacket, of the second buffer in the queue.
unfoldable pub after_tx_packet : Pool → ℕ × Option Ptr × Pool
after_tx_packet s =
    let p = s.next_tx_packet_buffer in
    let q = (s.heap p).next in
    if p == null
    then (0, none, record s { interrupts = true })
    else if q == null
    then (0, none, record s { interrupts = true })
    else ((s.heap q).size, some q, record s { heap = set_transmitting s.heap q; interrupts = true })
