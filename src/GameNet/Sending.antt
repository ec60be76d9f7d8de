-- ===== src/GameNet/Sending.antt =====
-- A message to the remote player, when a buffer is free.
use net_gitaroo.Common.{List, arith, false, ℕ, ◌==◌, ◌∷◌, ◌≡◌}
use net_gitaroo.Net.{Env, GameNet, Net, net_priority_game}
use net_gitaroo.Packets.{Bytes, Ptr, null}
use net_gitaroo.Buffers.Owned.{Owned}
use net_gitaroo.Buffers.Tx.{add_tx_packet}
use net_gitaroo.Packet.{send_udp}
use net_gitaroo.Packet.Send.{finished, made, made_udp, make_udp_packet-made, written}
use net_gitaroo.GameNet.Receive.{send_to_remote}

module _ (s : Net) {rxs rx_held fs qs held : List Ptr} (p : Ptr)
    (o : Owned s.pool rxs rx_held (p ∷ fs) qs held) where
  -- What the remote player's console is sent, and what is then kept.
  unfoldable pub sent_net :
      (len : ℕ) (before : GameNet → GameNet) (write : GameNet → Bytes → Bytes) → Net
  sent_net len before write =
      let g = s.game in
      let t =
        made_udp g.gn_remote_ip g.gn_remote_hwaddr g.gn_src_port g.gn_remote_port len
          net_priority_game p s in
      record t {
        game = before g;
        pool = add_tx_packet p (
            finished g.gn_remote_ip g.gn_remote_hwaddr g.gn_src_port g.gn_remote_port len
              net_priority_game s p o (write (before g)));
      }

  pub send_to_remote-sent :
      (env : Env) (len : ℕ) (before : GameNet → GameNet) (write : GameNet → Bytes → Bytes)
      → send_to_remote env len before write s ≡ sent_net len before write
  unfolding send_to_remote sent_net send_udp finished written made made_udp
  send_to_remote-sent env len before write =
      let g = s.game in
      let busy : (p == null) ≡ false = ground (arith, o.free.1) in
      rw (
        make_udp_packet-made g.gn_remote_ip g.gn_remote_hwaddr g.gn_src_port g.gn_remote_port len
            net_priority_game s p o env,
        busy,
      )
