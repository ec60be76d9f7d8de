-- ===== src/Packet.antt =====
-- MakeIpPacket and MakeUdpPacket of src/networking.c: an allocated buffer filled with the headers
-- of a frame. The payload of a datagram starts `udp_payload` bytes into the buffer.
pub mod Udp
pub mod Send
use net_gitaroo.Common.{htons, if◌then◌else◌, not16, u16, u32, ℕ, ◌+◌, ◌==◌}
use net_gitaroo.Packets.{Bytes, Pool, Ptr, null, put}
use net_gitaroo.Bytes.{HwAddr, IpAddr, store16, store8, store_hw, store_ip}
use net_gitaroo.Buffers.Tx.{add_tx_packet, alloc_tx_packet}
use net_gitaroo.Checksum.{calc_header_checksum, finalize_udp_checksum, fold_twice}
use net_gitaroo.Net.{Env, Net}

-- Where the parts of a frame that this code builds start in the buffer's bytes.
abbrev pub frame_payload : ℕ
frame_payload = 14

abbrev pub ip_header_size : ℕ
ip_header_size = 20

abbrev pub udp_datagram : ℕ
udp_datagram = 34

abbrev pub udp_payload : ℕ
udp_payload = 42

-- The Ethernet header of every frame that is sent.
unfoldable pub ethernet_bytes : (destination source : HwAddr) (type : ℕ) → Bytes → Bytes
ethernet_bytes destination source type d =
    store16 (store_hw (store_hw d 0 destination) 6 source) 12 (htons type)

-- The IP header, up to its checksum.
unfoldable pub ip_bytes :
    (source dst : IpAddr) (identification protocol payload_length : ℕ) → Bytes → Bytes
ip_bytes source dst identification protocol payload_length d =
    let h = frame_payload in
    let d = store8 (store8 d h 0x45) (h + 1) 0 in
    let d = store16 d (h + 2) (htons (20 + payload_length)) in
    let d = store16 d (h + 4) identification in
    let d = store16 d (h + 6) 0 in
    let d = store8 (store8 d (h + 8) 0x80) (h + 9) protocol in
    store_ip (store_ip d (h + 12) source) (h + 16) dst

-- The UDP header with the pseudo-header's part of the checksum.
unfoldable pub udp_bytes :
    (source dst : IpAddr) (src_port dst_port payload_length : ℕ) → Bytes → Bytes
udp_bytes source dst src_port dst_port payload_length d =
    let checksum = u32 (
      htons dst.s0
      + htons dst.s1
      + htons source.s0
      + htons source.s1
      + 17
      + (payload_length + 8)) in
    let u = udp_datagram in
    let d = store16 (store16 d u (htons src_port)) (u + 2) (htons dst_port) in
    store16 (store16 d (u + 4) (htons (payload_length + 8))) (u + 6)
      (not16 (htons (fold_twice checksum)))

-- A write of a buffer's bytes and size.
abbrev pub fill : Pool → Ptr → (Bytes → Bytes) → ℕ → Pool
fill s p write size = record s {
  heap = put s.heap p (record (s.heap p) { bytes = write (s.heap p).bytes; size = size });
}

-- A write of a buffer's bytes alone.
abbrev pub write_bytes : Net → Ptr → (Bytes → Bytes) → Net
write_bytes s p write = record s { pool = fill s.pool p write (s.pool.heap p).size }

-- What MakeIpPacket writes into its buffer.
unfoldable pub ip_frame :
    Net → (dst : IpAddr) (dst_hwaddr : HwAddr) (protocol payload_length : ℕ) → Bytes → Bytes
ip_frame s dst dst_hwaddr protocol payload_length d =
    let d = ethernet_bytes dst_hwaddr s.our_hwaddr 0x0800 d in
    let d = ip_bytes s.our_ip dst s.ip_id_ctr protocol payload_length d in
    store16 d (frame_payload + 10) (calc_header_checksum d frame_payload)

-- MakeIpPacket: the buffer (`*out_buf`; NULL where the source returns NULL), and the new state.
unfoldable pub make_ip_packet :
    Env
    → (dst : IpAddr) (dst_hwaddr : HwAddr) (protocol payload_length priority : ℕ) → Net
    → Ptr × Net
make_ip_packet env dst dst_hwaddr protocol payload_length priority s =
    let (buf, pool) = alloc_tx_packet (env.uninit s.pool) priority s.pool in
    if buf == null then (null, record s { pool = pool }) else (
      buf,
      record s {
        pool =
            fill pool buf (ip_frame s dst dst_hwaddr protocol payload_length)
              (14 + 20 + payload_length);
        ip_id_ctr = u16 (s.ip_id_ctr + 1);
      },
    )

-- MakeUdpPacket: likewise.
unfoldable pub make_udp_packet :
    Env
    → (dst : IpAddr) (dst_hwaddr : HwAddr) (src_port dst_port payload_length priority : ℕ) → Net
    → Ptr × Net
make_udp_packet env dst dst_hwaddr src_port dst_port payload_length priority s =
    let (buf, t) = make_ip_packet env dst dst_hwaddr 17 (u16 (payload_length + 8)) priority s in
    if buf == null
    then (null, t)
    else (buf, write_bytes t buf (udp_bytes t.our_ip dst src_port dst_port payload_length))

-- FinalizeUdpChecksum and AddTxPacket, as every sender of a datagram calls them.
unfoldable pub send_udp : Ptr → Net → Net
send_udp buf s =
    let t = write_bytes s buf (λ d. finalize_udp_checksum d udp_datagram) in
    record t { pool = add_tx_packet buf t.pool }
