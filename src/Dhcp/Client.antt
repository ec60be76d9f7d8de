-- ===== src/Dhcp/Client.antt =====
-- _process_dhcp and _begin_dhcp of src/networking.c.
use net_gitaroo.Common.{
  List, [], htons, if◌then◌else◌, ltb, none, some, u16, ℕ, ◌%◌, ◌+◌, ◌-◌, ◌/◌, ◌==◌, ◌^◌, ◌||◌, ◌∷◌,
}
use net_gitaroo.Bytes.{
  IpAddr, broadcast_hwaddr, clear_bytes, ip_any, ip_broadcast, ip_byte0, ip_byte1, ip_byte2,
  ip_byte3, store16, store8, store_hw, store_ip, store_list,
}
use net_gitaroo.Net.{DhcpState, Env, Net, net_priority_dhcp, read_clock, read_random}
use net_gitaroo.Packet.{make_udp_packet, send_udp, udp_payload, write_bytes}
use net_gitaroo.Packets.{Bytes, null}

-- ps2_clock_t is an unsigned 64-bit number.
abbrev pub elapsed : ℕ → ℕ → ℕ
elapsed now since = (now + 2 ^ 64 - since) % 2 ^ 64

abbrev pub dhcp_discover_options : List ℕ
dhcp_discover_options =
    0x35 ∷ 0x1 ∷ 0x1 ∷ 0x39 ∷ 0x02 ∷ 0x05 ∷ 0xdc ∷ 0x37 ∷ 0x04 ∷ 0x1 ∷ 0x3 ∷ 0x1c ∷ 0x6 ∷ 0xff ∷ []

-- dhcp_request_options, after the eight bytes that the code overwrites before each use.
abbrev pub dhcp_request_options : (ours server : IpAddr) → List ℕ
dhcp_request_options ours server =
    53
    ∷ 1
    ∷ 3
    ∷ 50
    ∷ 4
    ∷ ip_byte0 ours
    ∷ ip_byte1 ours
    ∷ ip_byte2 ours
    ∷ ip_byte3 ours
    ∷ 54
    ∷ 4
    ∷ ip_byte0 server
    ∷ ip_byte1 server
    ∷ ip_byte2 server
    ∷ ip_byte3 server
    ∷ 0xff
    ∷ []

-- sizeof(dhcp_packet_t), and the offsets of its fields `cookie` and `options`
abbrev pub dhcp_size : ℕ
dhcp_size = 240

abbrev pub dhcp_cookie : List ℕ
dhcp_cookie = 0x63 ∷ 0x82 ∷ 0x53 ∷ 0x63 ∷ []

-- ciaddr and siaddr by the client's state
abbrev pub client_addresses : Net → DhcpState → ℕ → Bytes → Bytes
client_addresses s holder p d =
    if holder.state == 0
    then store_ip (store_ip (store_ip (store_ip d (p + 12) ip_any) (p + 16) ip_any) (p + 20) ip_any)
        (p + 24) ip_any
    else if holder.state == 2
    then store_ip
        (store_ip (store_ip (store_ip d (p + 12) s.our_ip) (p + 16) ip_any) (p + 20)
          holder.dhcp_server_ip)
        (p + 24) ip_any
    else d

abbrev pub client_options : Net → DhcpState → ℕ → Bytes → Bytes
client_options s holder o d =
    if holder.state == 0
    then store_list d o dhcp_discover_options
    else if holder.state == 2
    then store_list d o (dhcp_request_options s.our_ip holder.dhcp_server_ip)
    else d

-- The message that _process_dhcp writes at the payload `p` of its datagram.
unfoldable pub dhcp_bytes : Net → DhcpState → (seconds p : ℕ) → Bytes → Bytes
dhcp_bytes s holder seconds p d =
    let d = clear_bytes d p (dhcp_size + 32) in
    let d = store8 (store8 d p 1) (p + 1) 1 in
    let d = store8 (store8 d (p + 2) 6) (p + 3) 0 in
    let d = store16 (store16 d (p + 4) holder.xid_lower) (p + 6) holder.xid_upper in
    let d = store16 (store16 d (p + 8) (htons seconds)) (p + 10) 0 in
    let d = client_addresses s holder p d in
    let d = store_hw d (p + 28) s.our_hwaddr in
    let d = store_list d (p + 236) dhcp_cookie in client_options s holder (p + dhcp_size) d

-- The branch of _process_dhcp that sends a discover or a request.
unfoldable pub send_dhcp : Env → DhcpState → Net → Net
send_dhcp env holder s =
    let (buf, t) =
      make_udp_packet env holder.dhcp_server_ip holder.dhcp_server_hwaddr 68 67 (dhcp_size + 68)
        net_priority_dhcp s in
    if buf == null
    then t
    else (let (now, t) = read_clock env t in
        let seconds = u16 (elapsed now holder.start_time / env.clocks_per_sec) in
        let t = send_udp buf (write_bytes t buf (dhcp_bytes t holder seconds udp_payload)) in
        let (now, t) = read_clock env t in
        record t {
          dhcp_holder =
              some (record holder { num_retries = holder.num_retries + 1; last_req_time = now });
        })

-- _process_dhcp, past the test for a holder
unfoldable pub process_holder : Env → DhcpState → Net → Net
process_holder env holder s =
    if s.link_up == 0
    then record s { dhcp_holder = none }
    else (let (now, s) = read_clock env s in
        if ltb env.clocks_per_sec (elapsed now holder.last_req_time)
        then (if ltb 20 holder.num_retries
            then record s { dhcp_holder = none }
            else if (holder.state == 0) || (holder.state == 2)
            then send_dhcp env holder s
            else s)
        else s)

-- _process_dhcp
unfoldable pub process_dhcp : Env → Net → Net
process_dhcp env s = elim s.dhcp_holder [ none ↦ s | some holder ↦ process_holder env holder s ]

-- What _begin_dhcp does where there is no client; the source takes malloc to succeed.
unfoldable pub start_dhcp : Env → Net → Net
start_dhcp env s =
    let (now, s) = read_clock env s in
    let (lower, s) = read_random env s in
    let (upper, s) = read_random env s in
    process_dhcp env (record s {
      dhcp_holder = some (record {
        start_time = now;
        last_req_time = 0;
        num_retries = 0;
        dhcp_server_ip = ip_broadcast;
        dhcp_server_hwaddr = broadcast_hwaddr;
        xid_lower = u16 lower;
        xid_upper = u16 upper;
        state = 0;
      });
      our_ip = ip_any;
      gateway_ip = ip_any;
      subnet_mask = ip_any;
    })

-- _begin_dhcp
unfoldable pub begin_dhcp : Env → Net → Net
begin_dhcp env s = elim s.dhcp_holder [ some holder ↦ s | none ↦ start_dhcp env s ]
