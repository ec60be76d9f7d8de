-- ===== src/GameNet/Receive.antt =====
-- HandleUdpGameNet of src/game_net.c, and the messages to the remote player.
use net_gitaroo.Common.{Bool, htons, if◌then◌else◌, ltb, u32, ℕ, ◌&&◌, ◌+◌, ◌==◌, ◌||◌}
use net_gitaroo.Bytes.{HwAddr, IpAddr, ip_broadcast, ip_eq, load16, load_hw, load_ip, store16}
use net_gitaroo.GameNet.State.{
  gn_packetid_ack, gn_packetid_connect, gn_packetid_fin, gn_packetid_gamestate, load_game_state,
  reset_game_net, store_game_state,
}
use net_gitaroo.Net.{
  Env, GameNet, GameState, Net, game_port, gn_connected, gn_connecting, gn_hosting, gn_idle,
  net_priority_game,
}
use net_gitaroo.Packet.{make_udp_packet, send_udp, udp_payload, write_bytes}
use net_gitaroo.Packets.{Bytes, null}

-- MakeUdpPacket to the remote player, with the payload written by `write`; `before` is what the
-- source does to its globals where a buffer was found.
unfoldable pub send_to_remote :
    Env
    → (payload_length : ℕ) (before : GameNet → GameNet) (write : GameNet → Bytes → Bytes) → Net
    → Net
send_to_remote env payload_length before write s =
    let g = s.game in
    let (buf, t) =
      make_udp_packet env g.gn_remote_ip g.gn_remote_hwaddr g.gn_src_port g.gn_remote_port
        payload_length net_priority_game s in
    if buf == null
    then t
    else (let t = record t { game = before t.game } in
        send_udp buf (write_bytes t buf (write t.game)))

-- `our_game_state.seq_num++`
abbrev pub next_seq_num : GameNet → GameNet
next_seq_num g = record g {
  our_game_state = record g.our_game_state { seq_num = u32 (g.our_game_state.seq_num + 1) };
}

-- A payload of a packet id alone.
abbrev pub id_bytes : ℕ → GameNet → Bytes → Bytes
id_bytes id g d = store16 d udp_payload id

-- A payload of a packet id and our game state.
abbrev pub game_state_bytes : ℕ → GameNet → Bytes → Bytes
game_state_bytes id g d =
    store_game_state (store16 d udp_payload id) (udp_payload + 2) g.our_game_state

-- What HandleUdpGameNet reads of a datagram: its ports in the machine's order, the packet id, the
-- sender, and the game state behind the id.
pub record Received : Type 0 where
  pub src_port : ℕ
  pub dst_port : ℕ
  pub ptype : ℕ
  pub source_ip : IpAddr
  pub source_hwaddr : HwAddr
  pub incoming : GameState

-- For a datagram at address `u` of the frame `d`, with its IP header at `h`.
unfoldable pub receive : Bytes → (u h : ℕ) → Received
receive d u h = record {
  src_port = htons (load16 d u);
  dst_port = htons (load16 d (u + 2));
  ptype = load16 d (u + 8);
  source_ip = load_ip d (h + 12);
  source_hwaddr = load_hw d 6;
  incoming = load_game_state d (u + 10);
}

-- The sender and the ports of a datagram become those of the remote player.
abbrev pub adopt_sender : Received → GameNet → GameNet
adopt_sender r g = record g {
  gn_remote_ip = r.source_ip;
  gn_remote_hwaddr = r.source_hwaddr;
  gn_remote_port = r.src_port;
  gn_src_port = r.dst_port;
}

abbrev pub become_connected : (ours remote : ℕ) → GameNet → GameNet
become_connected ours remote g =
    reset_game_net
      (record g { gn_state = gn_connected; gn_our_playernum = ours; gn_remote_playernum = remote })

-- The branch for GN_HOSTING.
unfoldable pub handle_hosting : Env → Received → Net → Net
handle_hosting env r s =
    if r.ptype == gn_packetid_connect
    then send_to_remote env 2 next_seq_num (id_bytes gn_packetid_ack)
        (record s { game = adopt_sender r s.game })
    else if (r.ptype == gn_packetid_gamestate) && ip_eq r.source_ip s.game.gn_remote_ip
    then record s {
      game =
          become_connected 0 1
            (record (adopt_sender r s.game) { gn_remote_ip = s.game.gn_remote_ip });
    }
    else s

-- The sender of a datagram is the remote player, at the ports in use.
abbrev pub from_remote_ports : Received → GameNet → Bool
from_remote_ports r g = (r.src_port == g.gn_remote_port) && (r.dst_port == g.gn_src_port)

-- The branch for GN_CONNECTING.
unfoldable pub handle_connecting : Received → GameNet → GameNet
handle_connecting r g =
    if from_remote_ports r g
      && ((ip_eq g.gn_remote_ip ip_broadcast || ip_eq r.source_ip g.gn_remote_ip)
          && (r.ptype == gn_packetid_ack))
    then become_connected 1 0
        (record g { gn_remote_ip = r.source_ip; gn_remote_hwaddr = r.source_hwaddr })
    else g

-- The last part, for GN_CONNECTED.
unfoldable pub handle_connected : Received → GameNet → GameNet
handle_connected r g =
    if from_remote_ports r g && ip_eq r.source_ip g.gn_remote_ip
    then (if r.ptype == gn_packetid_gamestate
        then (if ltb g.remote_game_state.seq_num r.incoming.seq_num
            then record g { remote_game_state = r.incoming }
            else g)
        else if r.ptype == gn_packetid_fin
        then record g { gn_state = gn_idle }
        else g)
    else g

-- The first part of HandleUdpGameNet, for a console that is not connected.
unfoldable pub handle_unconnected : Env → Received → Net → Net
handle_unconnected env r s =
    if (s.game.gn_state == gn_hosting) && (r.dst_port == game_port)
    then handle_hosting env r s
    else if s.game.gn_state == gn_connecting
    then record s { game = handle_connecting r s.game }
    else s

-- HandleUdpGameNet
unfoldable pub handle_udp_game_net : Env → Received → Net → Net
handle_udp_game_net env r s =
    let t = handle_unconnected env r s in
    if t.game.gn_state == gn_connected then record t { game = handle_connected r t.game } else t
