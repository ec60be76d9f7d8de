-- ===== src/GameNet/Delivery.antt =====
-- A game state sent by SendGameState, as HandleUdpGameNet of the other console reads it.
use net_gitaroo.Common.{List, [], ap, arith, refl, ◌++◌, ◌<◌, ◌^◌, ◌∙◌, ◌∷◌, ◌≡◌}
use net_gitaroo.Net.{Env, Net, gn_connected, net_priority_game}
use net_gitaroo.Packets.{Ptr}
use net_gitaroo.Buffers.Owned.{Owned}
use net_gitaroo.GameNet.Frames.{FitsHeader, receive-state_frame, state_frame}
use net_gitaroo.GameNet.Sending.{send_to_remote-sent, sent_net}
use net_gitaroo.GameNet.Wire.{Fits}
use net_gitaroo.Packet.Send.{send-Owned}
use net_gitaroo.GameNet.Receive.{game_state_bytes, next_seq_num, receive, send_to_remote}
use net_gitaroo.GameNet.Send.{PadInput, send_game_state, update_game_state}
use net_gitaroo.GameNet.State.{game_payload, gn_packetid_gamestate}

send_game_state-connected :
    (env : Env) (pad : PadInput) (s : Net)
    → s.game.gn_state ≡ gn_connected
    → send_game_state env pad s
      ≡ send_to_remote env game_payload next_seq_num
          (game_state_bytes gn_packetid_gamestate)
          (record s { game = update_game_state pad s.game })
unfolding send_game_state
send_game_state-connected env pad s c = rw c

-- A connected console with a free buffer sends its updated game state: the datagram is queued
-- last, every other buffer keeps its owner, and HandleUdpGameNet reads from it exactly the ports,
-- the addresses and the game state of the sender, where these fit their C types.
pub send_game_state-delivers :
    (env : Env) (pad : PadInput) (s : Net) {rxs rx_held fs qs held : List Ptr} (p : Ptr)
    → Owned s.pool rxs rx_held (p ∷ fs) qs held
    → s.game.gn_state ≡ gn_connected
    → FitsHeader s
    → let g = next_seq_num (update_game_state pad s.game) in
      Fits g.our_game_state
      → g.gn_src_port < 2 ^ 16
      → g.gn_remote_port < 2 ^ 16
      → let t = send_game_state env pad s in
        Owned t.pool rxs rx_held fs (qs ++ (p ∷ [])) held
        × (t.game ≡ g)
        × (receive (t.pool.heap p).bytes 34 14 ≡ record {
          src_port = g.gn_src_port;
          dst_port = g.gn_remote_port;
          ptype = gn_packetid_gamestate;
          source_ip = s.our_ip;
          source_hwaddr = s.our_hwaddr;
          incoming = g.our_game_state;
        })
unfolding sent_net state_frame
send_game_state-delivers env pad s p o c h f sp rp =
    let u : Net = record s { game = update_game_state pad s.game } in
    let g = next_seq_num u.game in
    let e =
      send_game_state-connected env pad s c
      ∙ send_to_remote-sent u p o env game_payload next_seq_num
          (game_state_bytes gn_packetid_gamestate) in
    let (owned, bytes, _) =
      send-Owned g.gn_remote_ip g.gn_remote_hwaddr g.gn_src_port g.gn_remote_port game_payload
        net_priority_game u p o (game_state_bytes gn_packetid_gamestate g) in
    let read =
      receive-state_frame u g g.gn_remote_ip g.gn_remote_hwaddr g.gn_src_port g.gn_remote_port
        gn_packetid_gamestate (s.pool.heap p).bytes
        (record { ip0 = h.ip0; ip1 = h.ip1; hw0 = h.hw0; hw1 = h.hw1; hw2 = h.hw2 }) f sp rp
        (omega arith) in
    rw e (owned, refl, ap (λ d. receive d 34 14) bytes ∙ read)
