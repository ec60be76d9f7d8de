-- ===== src/State/Keeps.antt =====
-- The globals that the routines which build and send packets leave alone.
use net_gitaroo.Common.{Bool-cases, ap, arith, inl, inr, refl, ℕ, ◌==◌, ◌≡◌, ◌⊎◌}
use net_gitaroo.Net.{Env, GameNet, Net, net_priority_game}
use net_gitaroo.Packet.{make_ip_packet, make_udp_packet, send_udp}
use net_gitaroo.Bytes.{HwAddr, IpAddr}
use net_gitaroo.Packets.{Bytes, Ptr, null}
use net_gitaroo.GameNet.Receive.{send_to_remote}

-- Nothing but the buffers, the packet counter and the clock has changed.
pub record Keeps (s t : Net) : Type 0 where
  pub dhcp : t.dhcp_holder ≡ s.dhcp_holder
  pub game : t.game ≡ s.game
  pub our_ip : t.our_ip ≡ s.our_ip
  pub link_up : t.link_up ≡ s.link_up
  pub gateway_ip : t.gateway_ip ≡ s.gateway_ip
  pub subnet_mask : t.subnet_mask ≡ s.subnet_mask

Keeps-refl : (s : Net) → Keeps s s
Keeps-refl s = record {
  dhcp = refl;
  game = refl;
  our_ip = refl;
  link_up = refl;
  gateway_ip = refl;
  subnet_mask = refl;
}

pub make_udp_packet-Keeps :
    (env : Env) (dst : IpAddr) (dst_hwaddr : HwAddr) (src_port dst_port len priority : ℕ) (s : Net)
    → Keeps s (make_udp_packet env dst dst_hwaddr src_port dst_port len priority s).1
unfolding make_udp_packet make_ip_packet
make_udp_packet-Keeps env dst dst_hwaddr src_port dst_port len priority s = record {
  dhcp = ground arith;
  game = ground arith;
  our_ip = ground arith;
  link_up = ground arith;
  gateway_ip = ground arith;
  subnet_mask = ground arith;
}

pub send_udp-Keeps : (buf : Ptr) (s : Net) → Keeps s (send_udp buf s)
unfolding send_udp
send_udp-Keeps buf s = record {
  dhcp = refl;
  game = refl;
  our_ip = refl;
  link_up = refl;
  gateway_ip = refl;
  subnet_mask = refl;
}

-- A message to the remote player changes the game's globals by `before`, or not at all.
pub send_to_remote-game :
    (env : Env) (len : ℕ) (before : GameNet → GameNet) (write : GameNet → Bytes → Bytes) (s : Net)
    → let t = send_to_remote env len before write s in
      ((t.game ≡ before s.game) ⊎ (t.game ≡ s.game)) × (t.dhcp_holder ≡ s.dhcp_holder)
unfolding send_to_remote send_udp
send_to_remote-game env len before write s =
    let g = s.game in
    let k =
      make_udp_packet-Keeps env g.gn_remote_ip g.gn_remote_hwaddr g.gn_src_port g.gn_remote_port len
        net_priority_game s in
    elim (Bool-cases (
      (make_udp_packet env g.gn_remote_ip g.gn_remote_hwaddr g.gn_src_port g.gn_remote_port len
        net_priority_game s).0
      == null)) [
        | inl e ↦ rw e (inr k.game, k.dhcp)
        | inr e ↦ rw e (inl (ap before k.game), k.dhcp)
      ]
