-- ===== src/State/Exchange.antt =====
-- A DHCP offer, from the options that the server encodes to the client's globals.
use net_gitaroo.Common.{
  Bool-cases, List, Option, arith, false, inl, inr, ltb, refl, some, subst, true, ℕ, ◌&&◌, ◌+◌,
  ◌==◌, ◌||◌, ◌∙◌, ◌≡◌, ◌≤◌,
}
use net_gitaroo.Net.{DhcpState, Env, Net, net_priority_dhcp}
use net_gitaroo.State.Keeps.{make_udp_packet-Keeps}
use net_gitaroo.Packets.{Bytes, null}
use net_gitaroo.Packet.{make_udp_packet, send_udp}
use net_gitaroo.Bytes.{IpAddr, load_hw, load_ip}
use net_gitaroo.State.Client.{handle_dhcp-some, process_dhcp-some}
use net_gitaroo.Dhcp.OptionCodec.{
  AllProper, DhcpOption, Holds, encode_options, options_size, read_options-encode, take_options,
}
use net_gitaroo.Dhcp.Client.{dhcp_size, elapsed, process_holder, send_dhcp}
use net_gitaroo.Dhcp.Reply.{
  Options, dhcp_transition, handle_dhcp, handle_reply, is_our_reply, no_options, option_rounds,
  read_options,
}

-- The addresses of the console are as before.
abbrev SameAddresses : Net → Net → Type 0
SameAddresses s t =
    (t.our_ip ≡ s.our_ip) × (t.gateway_ip ≡ s.gateway_ip) × (t.subnet_mask ≡ s.subnet_mask)

-- A client of the same state and server, that has asked at most once more.
record Asks (holder : DhcpState) (o : Option DhcpState) : Type 0 where
  now : DhcpState
  is_now : o ≡ some now
  same_state : now.state ≡ holder.state
  same_server : now.dhcp_server_ip ≡ holder.dhcp_server_ip
  retries : now.num_retries ≤ holder.num_retries + 1

send_dhcp-Asks :
    (env : Env) (holder : DhcpState) (s : Net)
    → s.dhcp_holder ≡ some holder
    → let t = send_dhcp env holder s in SameAddresses s t × Asks holder t.dhcp_holder
unfolding send_dhcp send_udp
send_dhcp-Asks env holder s h =
    let k =
      make_udp_packet-Keeps env holder.dhcp_server_ip holder.dhcp_server_hwaddr 68 67 308
        net_priority_dhcp s in
    elim (Bool-cases (
      (make_udp_packet env holder.dhcp_server_ip holder.dhcp_server_hwaddr 68 67 308
        net_priority_dhcp s).0
      == null)) [
        | inl e ↦ rw e (
          (k.our_ip, k.gateway_ip, k.subnet_mask),
          record {
            now = holder;
            is_now = k.dhcp ∙ h;
            same_state = refl;
            same_server = refl;
            retries = omega arith;
          },
        )
        | inr e ↦ rw e (
          (k.our_ip, k.gateway_ip, k.subnet_mask),
          record {
            now = _;
            is_now = refl;
            same_state = refl;
            same_server = refl;
            retries = omega arith;
          },
        )
      ]

process_holder-Asks :
    (env : Env) (holder : DhcpState) (s : Net)
    → s.dhcp_holder ≡ some holder
    → (s.link_up == 0) ≡ false
    → holder.num_retries ≤ 20
    → let t = process_holder env holder s in SameAddresses s t × Asks holder t.dhcp_holder
unfolding process_holder
process_holder-Asks env holder s h up few =
    let u : Net = record s { clock_reads = s.clock_reads + 1 } in
    let waits : Asks holder s.dhcp_holder = record {
      now = holder;
      is_now = h;
      same_state = refl;
      same_server = refl;
      retries = omega arith;
    } in
    let not_many : ltb 20 holder.num_retries ≡ false = ground arith in
    elim (Bool-cases
      (ltb env.clocks_per_sec (elapsed (env.clock s.clock_reads) holder.last_req_time))) [
        | inr wait ↦ rw (up, wait) ((refl, refl, refl), waits)
        | inl due ↦ elim (Bool-cases ((holder.state == 0) || (holder.state == 2))) [
          | inl live ↦ rw (up, due, not_many, live) (send_dhcp-Asks env holder u h)
          | inr dead ↦ rw (up, due, not_many, dead) ((refl, refl, refl), waits)
        ]
      ]

-- An offer for a client that has sent a discover, over a link that is up.
dhcp_transition-offer :
    (env : Env) (yiaddr : IpAddr) (r : Options) (holder : DhcpState) (s : Net)
    → r.dhcp_type ≡ 2
    → holder.state ≡ 0
    → (s.link_up == 0) ≡ false
    → let t = dhcp_transition env yiaddr r holder s in
      (t.our_ip ≡ yiaddr)
      × (t.gateway_ip ≡ r.router)
      × (t.subnet_mask ≡ r.subnet_mask)
      × ((now : DhcpState) × (t.dhcp_holder ≡ some now)
          × (now.state ≡ 2)
          × (now.dhcp_server_ip ≡ r.server)
          × (now.num_retries ≤ 1))
unfolding dhcp_transition
dhcp_transition-offer env yiaddr r holder s type state up =
    let asked : DhcpState = record holder {
      dhcp_server_ip = r.server;
      num_retries = 0;
      last_req_time = 0;
      state = 2;
    } in
    let u : Net = record s {
      our_ip = yiaddr;
      gateway_ip = r.router;
      subnet_mask = r.subnet_mask;
      dhcp_holder = some asked;
    } in
    let ((a, b, c), asks) = process_holder-Asks env asked u refl up (omega arith) in
    let is_offer : ((r.dhcp_type == 2) && (holder.state == 0)) ≡ true =
      ground (arith, type, state) in
    rw (is_offer, process_dhcp-some env u asked refl)
      (a, b, c, (asks.now, asks.is_now, asks.same_state, asks.same_server, asks.retries))

-- An offer to a client that has sent a discover, over a link that is up: of the options that the
-- server encoded (all proper, in at most 500 bytes), the console takes its address from the
-- message, the gateway and the mask from the options, and the client goes on to ask the server
-- that the options name, with at most one request sent.
pub handle_dhcp-offer :
    (env : Env) (d : Bytes) (p : ℕ) (s : Net) (holder : DhcpState) (os : List DhcpOption)
    → s.dhcp_holder ≡ some holder
    → holder.state ≡ 0
    → (s.link_up == 0) ≡ false
    → is_our_reply d p holder ≡ true
    → AllProper os
    → Holds d (p + dhcp_size) (encode_options os)
    → options_size os ≤ 500
    → (take_options os no_options).dhcp_type ≡ 2
    → let r = take_options os no_options in
      let t = handle_dhcp env d p s in
      (t.our_ip ≡ load_ip d (p + 16))
      × (t.gateway_ip ≡ r.router)
      × (t.subnet_mask ≡ r.subnet_mask)
      × ((now : DhcpState) × (t.dhcp_holder ≡ some now)
          × (now.state ≡ 2)
          × (now.dhcp_server_ip ≡ r.server)
          × (now.num_retries ≤ 1))
unfolding handle_reply
handle_dhcp-offer env d p s holder os h state up ours proper holds size type =
    let options = p + dhcp_size in
    let holds' : Holds d (options + 0) (encode_options os) =
      subst (λ (a : ℕ). Holds d a (encode_options os)) (omega arith) holds in
    let read : read_options option_rounds d options no_options ≡ take_options os no_options =
      read_options-encode option_rounds d options no_options os proper holds' (omega arith)
        (omega arith) in
    rw (handle_dhcp-some env d p s holder h, ours, read)
      (dhcp_transition-offer env (load_ip d (p + 16)) (take_options os no_options)
        (record holder { dhcp_server_hwaddr = load_hw d 6 }) s type state up)
