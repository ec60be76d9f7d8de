-- ===== src/Packets.antt =====
-- struct packet_buffer of src/networking.h over an explicit memory, and the globals of
-- src/networking.c that hold the lists of buffers.
use net_gitaroo.Common.{Bool, if◌then◌else◌, ℕ, ◌==◌}

-- The address of a `struct packet_buffer`; 0 is NULL.
abbrev pub Ptr : Type 0
Ptr = ℕ

abbrev pub null : Ptr
null = 0

-- The contents of an array of bytes, by offset.
abbrev pub Bytes : Type 0
Bytes = ℕ → ℕ

-- struct packet_buffer; `bytes` is its field `data`, of NETMAN_NETIF_FRAME_SIZE bytes. A write behind its
-- end would change `next` and the other fields: the only one whose length is not bounded is LogStr's,
-- which has no result there (Logging).
pub record PacketBuffer : Type 0 where
  pub bytes : Bytes
  pub next : Ptr
  pub size : ℕ
  pub priority : ℕ
  pub transmitting : ℕ

abbrev pub Heap : Type 0
Heap = Ptr → PacketBuffer

-- `*p = b`
unfoldable pub put : Heap → Ptr → PacketBuffer → Heap
put h p b a = if a == p then b else h a

abbrev pub put_next : Heap → Ptr → Ptr → Heap
put_next h p q = put h p (record (h p) { next = q })

-- The globals; `interrupts` is what DI and EI switch, and `xmits` counts the calls of
-- NetManNetIFXmit.
pub record Pool : Type 0 where
  pub heap : Heap
  pub free_packet_buffer : Ptr
  pub free_tx_packet_buffer : Ptr
  pub next_tx_packet_buffer : Ptr
  pub has_failed_alloc : ℕ
  pub interrupts : Bool
  pub xmits : ℕ

-- NETMAN_RPC_BLOCK_SIZE_LESSER, NUM_PACKET_BUFFERS and NUM_TX_PACKET_BUFFERS
abbrev pub netman_rpc_block_size_lesser : ℕ
netman_rpc_block_size_lesser = 24

abbrev pub num_packet_buffers : ℕ
num_packet_buffers = 25

abbrev pub num_tx_packet_buffers : ℕ
num_tx_packet_buffers = 16

-- How often a loop along a list of transmit buffers tests its condition, at most.
abbrev pub max_rounds : ℕ
max_rounds = 17
