-- ===== src/Dhcp/Reply.antt =====
-- _HandleDhcp, LinkStateUp and LinkStateDown of src/networking.c.
use net_gitaroo.Common.{Bool, if◌then◌else◌, ltb, none, not, some, suc, zero, ℕ, ◌&&◌, ◌+◌, ◌==◌}
use net_gitaroo.Bytes.{IpAddr, ip_any, ip_broadcast, ip_of_bytes, load16, load_hw, load_ip}
use net_gitaroo.Dhcp.Client.{begin_dhcp, dhcp_size, process_dhcp}
use net_gitaroo.Net.{DhcpState, Env, Net, gn_idle}
use net_gitaroo.Packets.{Bytes}

-- What the option loop of _HandleDhcp collects.
pub record Options : Type 0 where
  pub oi : ℕ
  pub dhcp_type : ℕ
  pub subnet_mask : IpAddr
  pub router : IpAddr
  pub server : IpAddr

abbrev pub no_options : Options
no_options = record {
  oi = 0;
  dhcp_type = 0;
  subnet_mask = ip_any;
  router = ip_any;
  server = ip_broadcast;
}

-- Four bytes from `o` on, as an address.
abbrev pub four_bytes : Bytes → ℕ → IpAddr
four_bytes d o = ip_of_bytes (d o) (d (o + 1)) (d (o + 2)) (d (o + 3))

-- One round of the loop; `options` is the address of `dhcp->options`.
unfoldable pub read_option : Bytes → (options : ℕ) → Options → Options
read_option d options r =
    let option_type = d (options + r.oi) in
    let option_len = d (options + r.oi + 1) in
    let value = options + r.oi + 2 in
    let r' =
      if option_type == 53
      then record r { dhcp_type = d value }
      else if option_type == 1
      then record r { subnet_mask = four_bytes d value }
      else if option_type == 3
      then record r { router = four_bytes d value }
      else if option_type == 54
      then record r { server = four_bytes d value }
      else r in
    record r' { oi = r.oi + 2 + option_len }

-- The loop. Each round takes two bytes or more, so 251 tests of its condition are enough.
unfoldable pub read_options : ℕ → Bytes → (options : ℕ) → Options → Options
read_options zero d options r = r
read_options (suc k) d options r =
    let rest = read_options k d options (read_option d options r) in
    if ltb r.oi 500 && not (d (options + r.oi) == 0xff) then rest else r

abbrev pub option_rounds : ℕ
option_rounds = 251

-- The first test of _HandleDhcp: a reply to this client's transaction, at address `p`.
unfoldable pub is_our_reply : Bytes → ℕ → DhcpState → Bool
is_our_reply d p holder =
    (d p == 2)
    && ((d (p + 1) == 1)
        && ((d (p + 2) == 6)
            && ((load16 d (p + 4) == holder.xid_lower) && (load16 d (p + 6) == holder.xid_upper))))

-- The end of _HandleDhcp, by the type of the message and the client's state.
unfoldable pub dhcp_transition : Env → (yiaddr : IpAddr) → Options → DhcpState → Net → Net
dhcp_transition env yiaddr r holder s =
    if (r.dhcp_type == 2) && (holder.state == 0)
    then process_dhcp env (record s {
      our_ip = yiaddr;
      gateway_ip = r.router;
      subnet_mask = r.subnet_mask;
      dhcp_holder = some (record holder {
        dhcp_server_ip = r.server;
        num_retries = 0;
        last_req_time = 0;
        state = 2;
      });
    })
    else if (r.dhcp_type == 5) && (holder.state == 2)
    then record s { dhcp_holder = none }
    else if (r.dhcp_type == 6) && (holder.state == 2)
    then process_dhcp env (begin_dhcp env (record s { dhcp_holder = none }))
    else process_dhcp env (record s { dhcp_holder = some holder })

-- _HandleDhcp past the test for a client, of the message at address `p` of the frame `d`
unfoldable pub handle_reply : Env → Bytes → ℕ → DhcpState → Net → Net
handle_reply env d p holder s =
    if is_our_reply d p holder
    then dhcp_transition env (load_ip d (p + 16))
        (read_options option_rounds d (p + dhcp_size) no_options)
        (record holder { dhcp_server_hwaddr = load_hw d 6 }) s
    else s

-- _HandleDhcp
unfoldable pub handle_dhcp : Env → Bytes → ℕ → Net → Net
handle_dhcp env d p s = elim s.dhcp_holder [
  | none ↦ s
  | some holder ↦ handle_reply env d p holder s
]

-- LinkStateUp and LinkStateDown
unfoldable pub link_state_up : Env → Net → Net
link_state_up env s = begin_dhcp env (record s { link_up = 1 })

unfoldable pub link_state_down : Net → Net
link_state_down s = record s { link_up = 0; game = record s.game { gn_state = gn_idle } }
