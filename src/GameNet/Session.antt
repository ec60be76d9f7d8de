-- ===== src/GameNet/Session.antt =====
-- HandleUdpGameNet of a connected console.
use net_gitaroo.Common.{Bool-cases, arith, inl, inr, ltb, refl, ◌&&◌, ◌<◌, ◌==◌, ◌≡◌, ◌⊎◌}
use net_gitaroo.Net.{Env, GameNet, Net, gn_connected, gn_idle}
use net_gitaroo.Bytes.{ip_eq}
use net_gitaroo.GameNet.Receive.{
  Received, from_remote_ports, handle_connected, handle_udp_game_net, handle_unconnected,
}
use net_gitaroo.GameNet.State.{gn_packetid_fin, gn_packetid_gamestate}

-- The datagram is the remote player's: its address and both ports are those in use.
abbrev pub FromRemote : Received → GameNet → Type 0
FromRemote r g =
    (r.src_port ≡ g.gn_remote_port)
    × (r.dst_port ≡ g.gn_src_port)
    × (r.source_ip.s0 ≡ g.gn_remote_ip.s0)
    × (r.source_ip.s1 ≡ g.gn_remote_ip.s1)

-- What a datagram may do to the globals of a connected console.
pub data Heard (r : Received) (g : GameNet) : GameNet → Type 0 where
  ignored :
      ¬ (
        FromRemote r g
        × (((r.ptype ≡ gn_packetid_gamestate) × (g.remote_game_state.seq_num < r.incoming.seq_num))
            ⊎ (r.ptype ≡ gn_packetid_fin)))
      → Heard r g g
  updated :
      FromRemote r g
      → r.ptype ≡ gn_packetid_gamestate
      → g.remote_game_state.seq_num < r.incoming.seq_num
      → Heard r g (record g { remote_game_state = r.incoming })
  finished :
      FromRemote r g → r.ptype ≡ gn_packetid_fin → Heard r g (record g { gn_state = gn_idle })

handle_connected-Heard : (r : Received) (g : GameNet) → Heard r g (handle_connected r g)
unfolding handle_connected
handle_connected-Heard r g =
    elim (Bool-cases (from_remote_ports r g && ip_eq r.source_ip g.gn_remote_ip)) [
      | inr a ↦ rw a (ignored (ground (arith, a)))
      | inl a ↦
          let from : FromRemote r g = ground (arith, a) in
          rw a (elim (Bool-cases (r.ptype == gn_packetid_gamestate)) [
            | inl b ↦ rw b (elim (Bool-cases (ltb g.remote_game_state.seq_num r.incoming.seq_num)) [
              | inl c ↦ rw c (updated from (ground arith) (ground arith))
              | inr c ↦ rw c (ignored (ground (arith, b, c)))
            ])
            | inr b ↦ rw b (elim (Bool-cases (r.ptype == gn_packetid_fin)) [
              | inl c ↦ rw c (finished from (ground arith))
              | inr c ↦ rw c (ignored (ground (arith, b, c)))
            ])
          ])
    ]

pub handle_udp_game_net-connected :
    (env : Env) (r : Received) (s : Net)
    → s.game.gn_state ≡ gn_connected
    → handle_udp_game_net env r s ≡ record s { game = handle_connected r s.game }
unfolding handle_udp_game_net handle_unconnected
handle_udp_game_net-connected env r s c = simp c

-- On a connected console a datagram from the remote player's address and ports replaces the last game
-- state if it holds one with a greater sequence number, and ends the connection if it is FIN; any other
-- datagram leaves the globals of the game as they were; and nothing else changes.
pub handle_udp_game_net-Heard :
    (env : Env) (r : Received) (s : Net)
    → s.game.gn_state ≡ gn_connected
    → Heard r s.game (handle_udp_game_net env r s).game
      × (handle_udp_game_net env r s ≡ record s { game = (handle_udp_game_net env r s).game })
handle_udp_game_net-Heard env r s c =
    rw (handle_udp_game_net-connected env r s c) (handle_connected-Heard r s.game, refl)
