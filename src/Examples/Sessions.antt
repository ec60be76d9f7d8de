-- ===== src/Examples/Sessions.antt =====
-- The theorems on the game protocol and on runs at concrete consoles.
use net_gitaroo.Common.{[], arith, false, none, refl, ℕ, ◌++◌, ◌∷◌, ◌≡◌}
use net_gitaroo.Buffers.Init.{range}
use net_gitaroo.Buffers.Owned.{Owned}
use net_gitaroo.Bytes.{hw, ip}
use net_gitaroo.Examples.Pools.{fresh_pool-Owned}
use net_gitaroo.GameNet.Delivery.{send_game_state-delivers}
use net_gitaroo.GameNet.Frames.{FitsHeader}
use net_gitaroo.GameNet.Handshake.{connect-ack-connects}
use net_gitaroo.GameNet.Session.{Heard, handle_udp_game_net-Heard}
use net_gitaroo.GameNet.Wire.{Fits}
use net_gitaroo.Net.{Net, game_port, gn_connected, gn_hosting}
use net_gitaroo.State.Run.{Reaches-Sane, Sane, here, later, linked, played}
use net_gitaroo.Examples.Consoles.{blank_state, console_env, host, host_ip, joiner, player}
use net_gitaroo.Dhcp.Reply.{link_state_up}
use net_gitaroo.GameNet.Receive.{Received, handle_udp_game_net, next_seq_num, receive}
use net_gitaroo.GameNet.Send.{
  PadInput, clear_handover, send_game_state, update_game_state, update_handover, update_in_game,
}
use net_gitaroo.GameNet.State.{gn_packetid_connect, gn_packetid_gamestate}

-- A datagram of the joining console, as the host receives it.
abbrev datagram : (ptype seq_num : ℕ) → Received
datagram ptype seq_num = record {
  src_port = 50000;
  dst_port = game_port;
  ptype = ptype;
  source_ip = ip 0x000a 0x0200;
  source_hwaddr = hw 4 5 6;
  incoming = record blank_state { seq_num = seq_num };
}

host-FitsHeader :
    (s : Net) → s.our_ip ≡ host_ip → s.our_hwaddr ≡ hw 0x3412 0x7856 0xbc9a → FitsHeader s
host-FitsHeader s e f = record {
  ip0 = rw e (omega arith);
  ip1 = rw e (omega arith);
  hw0 = rw f (omega arith);
  hw1 = rw f (omega arith);
  hw2 = rw f (omega arith);
}

connect-ack-connects_example :
    let t = handle_udp_game_net console_env (datagram gn_packetid_connect 0) host in
    let d = handle_udp_game_net console_env (receive (t.pool.heap 26).bytes 34 14) joiner in
    Owned t.pool (range 1 25) [] (range 27 15) ([] ++ (26 ∷ [])) []
    × (t.game.gn_state ≡ gn_hosting)
    × (d.game.gn_state ≡ gn_connected)
    × (d.game.gn_our_playernum ≡ 1)
    × (d.game.gn_remote_playernum ≡ 0)
    × (d.game.gn_remote_hwaddr ≡ host.our_hwaddr)
connect-ack-connects_example =
    connect-ack-connects console_env console_env (datagram gn_packetid_connect 0) host joiner 26
      fresh_pool-Owned refl refl refl (omega arith) (host-FitsHeader host refl refl) refl refl refl
      refl

handle_udp_game_net-Heard_example :
    let t = handle_udp_game_net console_env (datagram gn_packetid_gamestate 8) player in
    Heard (datagram gn_packetid_gamestate 8) player.game t.game
    × (t ≡ record player { game = t.game })
handle_udp_game_net-Heard_example =
    handle_udp_game_net-Heard console_env (datagram gn_packetid_gamestate 8) player refl

abbrev no_buttons : PadInput
no_buttons = record { get_button = λ b. false; instant = λ b. false; try_again_enabled = none }

sent_state-Fits : Fits (next_seq_num (update_game_state no_buttons player.game)).our_game_state
unfolding update_game_state clear_handover update_in_game update_handover
sent_state-Fits = record {
  seq_num = omega arith;
  score = omega arith;
  health = omega arith;
  angle_accuracy = omega arith;
  time = omega arith;
  attack_accum = omega arith;
  stick_x = omega arith;
  stick_y = omega arith;
  flags = omega arith;
  next_cue = omega arith;
  ctr_miss = omega arith;
  ctr_ok = omega arith;
  ctr_good = omega arith;
  ctr_great = omega arith;
  in_game = omega arith;
  mm_screen = omega arith;
  mm_song = omega arith;
  mm_character = omega arith;
  mm_ready = omega arith;
}

send_game_state-delivers_example :
    let g = next_seq_num (update_game_state no_buttons player.game) in
    let t = send_game_state console_env no_buttons player in
    Owned t.pool (range 1 25) [] (range 27 15) ([] ++ (26 ∷ [])) []
    × (t.game ≡ g)
    × (receive (t.pool.heap 26).bytes 34 14 ≡ record {
      src_port = g.gn_src_port;
      dst_port = g.gn_remote_port;
      ptype = gn_packetid_gamestate;
      source_ip = player.our_ip;
      source_hwaddr = player.our_hwaddr;
      incoming = g.our_game_state;
    })
unfolding update_game_state clear_handover update_in_game update_handover
send_game_state-delivers_example =
    send_game_state-delivers console_env no_buttons player 26 fresh_pool-Owned refl
      (host-FitsHeader player refl refl) sent_state-Fits (omega arith) (omega arith)

Reaches-Sane_example :
    Sane (send_game_state console_env no_buttons (link_state_up console_env player))
Reaches-Sane_example =
    Reaches-Sane
      (later (later here (linked player)) (played (link_state_up console_env player) no_buttons))
      (tt, (omega arith, refl))
