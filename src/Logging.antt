-- ===== src/Logging.antt =====
-- src/logging.c: the client that asked for the log, and the datagrams of log text.
use net_gitaroo.Common.{
  List, Option, htons, if◌then◌else◌, leb, length, none, not, some, u16, ℕ, ◌&&◌, ◌*◌, ◌+◌, ◌/◌,
  ◌==◌,
}
use net_gitaroo.Net.{Env, Net, logging_port, net_priority_logging}
use net_gitaroo.Packet.{make_udp_packet, send_udp, udp_payload, write_bytes}
use net_gitaroo.Bytes.{clear_bytes, ip_any, ip_eq, load16, load_hw, load_ip, store_list}
use net_gitaroo.Packets.{Bytes, null}

-- HandleLoggingPacket, of a datagram at `u` with its IP header at `h` in the frame `d`
unfoldable pub handle_logging_packet : Bytes → (u h : ℕ) → Net → Net
handle_logging_packet d u h s = record s {
  logging = record {
    logging_cip = load_ip d (h + 12);
    logging_chwaddr = load_hw d 6;
    logging_cport = htons (load16 d u);
  };
}

-- `(length + 3) & ~3`
abbrev pub round_up4 : ℕ → ℕ
round_up4 n = (n + 3) / 4 * 4

-- LogStr, of a string of the given bytes (`length` is their number). There is no result where it writes
-- behind the end of the buffer's `data`, over the fields behind it and the next buffer.
unfoldable pub log_str : Env → List ℕ → Net → Option Net
log_str env str s =
    if not (s.link_up == 0) && not (ip_eq s.logging.logging_cip ip_any)
    then (let packet_len = round_up4 (length str) in
        let (buf, t) =
          make_udp_packet env s.logging.logging_cip s.logging.logging_chwaddr logging_port
            s.logging.logging_cport (u16 packet_len) net_priority_logging s in
        if buf == null
        then some t
        else if leb (udp_payload + packet_len) env.frame_size
        then some (
            send_udp buf (
              write_bytes t buf
                (λ d. store_list (clear_bytes d udp_payload packet_len) udp_payload str)))
        else none)
    else some s

-- What holds of the state behind a call, if there is one.
abbrev pub Ends : (Net → Type 0) → Option Net → Type 0
Ends P none = Unit
Ends P (some t) = P t
