-- ===== src/GameNet/Handshake.antt =====
-- The handshake of a hosting and a joining console, over HandleUdpGameNet.
use net_gitaroo.Common.{List, [], ap, arith, refl, sym, ◌++◌, ◌<◌, ◌^◌, ◌∙◌, ◌∷◌, ◌≡◌}
use net_gitaroo.Buffers.Owned.{Owned}
use net_gitaroo.GameNet.Frames.{FitsHeader, id_frame, receive-id_frame}
use net_gitaroo.GameNet.Sending.{send_to_remote-sent, sent_net}
use net_gitaroo.GameNet.Session.{FromRemote}
use net_gitaroo.Net.{
  Env, Net, game_port, gn_connected, gn_connecting, gn_hosting, net_priority_game,
}
use net_gitaroo.Packets.{Ptr}
use net_gitaroo.Packet.Send.{send-Owned}
use net_gitaroo.GameNet.Receive.{
  Received, adopt_sender, handle_connected, handle_connecting, handle_hosting, handle_udp_game_net,
  handle_unconnected, id_bytes, next_seq_num, receive, send_to_remote,
}
use net_gitaroo.GameNet.State.{gn_packetid_ack, gn_packetid_connect, reset_game_net}

-- The globals of the host after it has heard a CONNECT, and its answer.
handle_udp_game_net-connect :
    (env : Env) (r : Received) (s : Net)
    → s.game.gn_state ≡ gn_hosting
    → r.dst_port ≡ game_port
    → r.ptype ≡ gn_packetid_connect
    → handle_unconnected env r s
      ≡ send_to_remote env 2 next_seq_num
          (id_bytes gn_packetid_ack)
          (record s { game = adopt_sender r s.game })
unfolding handle_unconnected handle_hosting
handle_udp_game_net-connect env r s h q c = rw (h, q, c)

-- A joining console that hears an ACK from the host that it asked.
joined :
    (env : Env) (r : Received) (c : Net)
    → c.game.gn_state ≡ gn_connecting
    → FromRemote r c.game
    → r.ptype ≡ gn_packetid_ack
    → let d = handle_udp_game_net env r c in
      (d.game.gn_state ≡ gn_connected)
      × (d.game.gn_our_playernum ≡ 1)
      × (d.game.gn_remote_playernum ≡ 0)
      × (d.game.gn_remote_hwaddr ≡ r.source_hwaddr)
unfolding handle_udp_game_net handle_unconnected handle_connecting handle_connected reset_game_net
joined env r c st from ack = ground (arith, st, ack, from)

still_unconnected :
    (env : Env) (r : Received) (s t : Net)
    → handle_unconnected env r s ≡ t
    → t.game.gn_state ≡ gn_hosting
    → handle_udp_game_net env r s ≡ t
unfolding handle_udp_game_net
still_unconnected env r s t e h = rw e (simp h)

-- A host with a free buffer that hears a CONNECT from a joining console stays a host and queues
-- an ACK last, and every other buffer keeps its owner; when the joining console, which asked that
-- host, hears the ACK, it is connected as player 1 and the host is player 0.
pub connect-ack-connects :
    (env env' : Env) (r : Received) (s c : Net) {rxs rx_held fs qs held : List Ptr} (p : Ptr)
    → Owned s.pool rxs rx_held (p ∷ fs) qs held
    → s.game.gn_state ≡ gn_hosting
    → r.dst_port ≡ game_port
    → r.ptype ≡ gn_packetid_connect
    → r.src_port < 2 ^ 16
    → FitsHeader s
    → c.game.gn_state ≡ gn_connecting
    → c.game.gn_src_port ≡ r.src_port
    → c.game.gn_remote_port ≡ game_port
    → c.game.gn_remote_ip ≡ s.our_ip
    → let t = handle_udp_game_net env r s in
      let d = handle_udp_game_net env' (receive (t.pool.heap p).bytes 34 14) c in
      Owned t.pool rxs rx_held fs (qs ++ (p ∷ [])) held
      × (t.game.gn_state ≡ gn_hosting)
      × (d.game.gn_state ≡ gn_connected)
      × (d.game.gn_our_playernum ≡ 1)
      × (d.game.gn_remote_playernum ≡ 0)
      × (d.game.gn_remote_hwaddr ≡ s.our_hwaddr)
unfolding sent_net id_frame
connect-ack-connects env env' r s c p o h q k sp fits st cs cr ci =
    let u : Net = record s { game = adopt_sender r s.game } in
    let g = next_seq_num u.game in
    let e =
      handle_udp_game_net-connect env r s h q k
      ∙ send_to_remote-sent u p o env 2 next_seq_num (id_bytes gn_packetid_ack) in
    let (owned, bytes, _) =
      send-Owned r.source_ip r.source_hwaddr r.dst_port r.src_port 2 net_priority_game u p o
        (id_bytes gn_packetid_ack g) in
    let read =
      ap (λ d. receive d 34 14) bytes
      ∙ receive-id_frame u g r.source_ip r.source_hwaddr r.dst_port r.src_port gn_packetid_ack
          (s.pool.heap p).bytes
          (record {
            ip0 = fits.ip0;
            ip1 = fits.ip1;
            hw0 = fits.hw0;
            hw1 = fits.hw1;
            hw2 = fits.hw2;
          })
          (omega (arith, q)) sp (omega arith) in
    let (connected, ours, theirs, hwaddr) =
      joined env'
        (record {
          src_port = r.dst_port;
          dst_port = r.src_port;
          ptype = gn_packetid_ack;
          source_ip = s.our_ip;
          source_hwaddr = s.our_hwaddr;
          incoming = _;
        })
        c st (q ∙ sym cr, sym cs, ap (λ a. a.s0) (sym ci), ap (λ a. a.s1) (sym ci)) refl in
    rw (still_unconnected env r s _ e h) (rw read (owned, h, connected, ours, theirs, hwaddr))
