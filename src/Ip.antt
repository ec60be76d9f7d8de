-- ===== src/Ip.antt =====
-- The receiving half of src/networking.c: HandleIp, HandleArp and EnQRxPacket. A handler is given
-- the bytes of the frame that netman delivered: it writes to transmit buffers only.
use net_gitaroo.Common.{
  Bool, bit_and, htons, if◌then◌else◌, not, ℕ, ◌%◌, ◌&&◌, ◌*◌, ◌+◌, ◌==◌, ◌^◌, ◌||◌,
}
use net_gitaroo.Net.{Env, Net, gn_connecting, gn_connecting_arp, logging_port, net_priority_arp}
use net_gitaroo.Packet.{fill, frame_payload}
use net_gitaroo.Bytes.{broadcast_hwaddr, hwaddr_eq, ip_broadcast, ip_eq, load16, load_hw, load_ip}
use net_gitaroo.Buffers.Rx.{free_rx_packet}
use net_gitaroo.Buffers.Tx.{add_tx_packet, alloc_tx_packet}
use net_gitaroo.Checksum.{calc_header_checksum}
use net_gitaroo.Logging.{handle_logging_packet}
use net_gitaroo.Packets.{Bytes, Ptr, null}
use net_gitaroo.Dhcp.Client.{process_dhcp}
use net_gitaroo.Dhcp.Reply.{handle_dhcp}
use net_gitaroo.GameNet.Receive.{handle_udp_game_net, receive}
use net_gitaroo.GameNet.Send.{arp_bytes, arp_size}

-- `header + ((header->version_ihl & 0xF) << 2)`
abbrev pub ip_payload : Bytes → ℕ
ip_payload d = frame_payload + (d frame_payload % 2 ^ 4) * 4

-- The tests of HandleIp before it looks at the protocol: the version, the fragment bits, and the
-- checksum.
unfoldable pub accepts_header : Bytes → Bool
accepts_header d =
    let h = frame_payload in
    (bit_and (d h) 0xf0 == 0x40)
    && ((bit_and (htons (load16 d (h + 6))) 0x4fff == 0)
        && (calc_header_checksum d h == load16 d (h + 10)))

-- A datagram from a DHCP server to a client.
unfoldable pub is_dhcp : Bytes → Bool
is_dhcp d =
    let u = ip_payload d in
    (d (frame_payload + 9) == 17) && ((load16 d u == htons 67) && (load16 d (u + 2) == htons 68))

-- HandleIp
unfoldable pub handle_ip : Env → Bytes → Net → Net
handle_ip env d s =
    let h = frame_payload in
    let u = ip_payload d in
    let destination_ip = load_ip d (h + 16) in
    if not (accepts_header d)
    then s
    else if is_dhcp d
    then handle_dhcp env d (u + 8) s
    else if not (ip_eq destination_ip s.our_ip) && not (ip_eq destination_ip ip_broadcast)
    then s
    else if d (h + 9) == 17
    then (if load16 d (u + 2) == htons logging_port
        then handle_logging_packet d u h s
        else handle_udp_game_net env (receive d u h) s)
    else s

-- HandleArp's first test: Ethernet and IPv4.
unfoldable pub is_ipv4_arp : Bytes → Bool
is_ipv4_arp d =
    let a = frame_payload in
    (load16 d a == htons 1)
    && ((load16 d (a + 2) == htons 0x0800) && ((d (a + 4) == 6) && (d (a + 5) == 4)))

-- HandleArp's reply to a request for our address.
unfoldable pub send_arp_reply : Env → Bytes → Net → Net
send_arp_reply env d s =
    let a = frame_payload in
    let (buf, pool) = alloc_tx_packet (env.uninit s.pool) net_priority_arp s.pool in
    if buf == null then record s { pool = pool } else record s {
      pool = add_tx_packet buf (
          fill pool buf
            (arp_bytes (load_hw d 6) s.our_hwaddr 2 s.our_hwaddr s.our_ip (load_hw d (a + 8))
              (load_ip d (a + 14)))
            arp_size);
    }

-- HandleArp
unfoldable pub handle_arp : Env → Bytes → Net → Net
handle_arp env d s =
    let a = frame_payload in
    let oper = load16 d (a + 6) in
    if not (is_ipv4_arp d)
    then s
    else if (oper == htons 1) && ip_eq (load_ip d (a + 24)) s.our_ip
    then send_arp_reply env d s
    else if (oper == htons 2)
        && (ip_eq (load_ip d (a + 14)) s.game.gn_remote_ip_or_gateway
            && (s.game.gn_state == gn_connecting_arp))
    then record s {
      game = record s.game { gn_remote_hwaddr = load_hw d (a + 8); gn_state = gn_connecting };
    }
    else s

-- The dispatch of EnQRxPacket on the Ethernet header.
unfoldable pub handle_frame : Env → Bytes → Net → Net
handle_frame env d s =
    if hwaddr_eq (load_hw d 0) s.our_hwaddr || hwaddr_eq (load_hw d 0) broadcast_hwaddr
    then (if load16 d 12 == htons 0x0806
        then handle_arp env d s
        else if load16 d 12 == htons 0x0800
        then handle_ip env d s
        else s)
    else s

-- EnQRxPacket
unfoldable pub enq_rx_packet : Env → Ptr → Net → Net
enq_rx_packet env packet s =
    let t = handle_frame env (s.pool.heap packet).bytes s in
    process_dhcp env (record t { pool = free_rx_packet packet t.pool })
