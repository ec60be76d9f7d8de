-- ===== src/GameNet/Send.antt =====
-- send_game_state of src/game_net.c.
use net_gitaroo.Common.{
  Bool, Option, htons, if◌then◌else◌, ltb, none, not, some, ℕ, ◌%◌, ◌&&◌, ◌+◌, ◌-◌, ◌==◌, ◌^◌, ◌||◌,
}
use net_gitaroo.Buffers.Tx.{add_tx_packet, alloc_tx_packet}
use net_gitaroo.Bytes.{
  HwAddr, IpAddr, broadcast_hwaddr, null_hwaddr, store16, store8, store_hw, store_ip,
}
use net_gitaroo.GameNet.Receive.{game_state_bytes, id_bytes, next_seq_num, send_to_remote}
use net_gitaroo.GameNet.State.{
  clear_flag, game_payload, gn_flag_handover, gn_flag_handover_ack, gn_packetid_connect,
  gn_packetid_gamestate, has_flag, set_flag,
}
use net_gitaroo.Net.{
  Env, GameNet, Net, gn_connected, gn_connecting, gn_connecting_arp, net_priority_game, read_clock,
}
use net_gitaroo.Packet.{ethernet_bytes, fill, frame_payload}
use net_gitaroo.Packets.{Bytes, null}

-- What send_game_state asks of the pad and of the menu: GetButton and GetPadButtonInstant of the
-- first pad, and the `enabled` field of try_again_mainsprite, if it is not NULL.
pub record PadInput : Type 0 where
  pub get_button : ℕ → Bool
  pub instant : ℕ → Bool
  pub try_again_enabled : Option Bool

-- The handover of the first player's seat, in the song menu.
unfoldable pub update_handover : PadInput → GameNet → GameNet
update_handover pad g =
    let g =
      if pad.get_button 0x20
        && (pad.get_button 0x80
            && (not (has_flag g.remote_game_state.flags gn_flag_handover)
                && ((g.gn_our_playernum == 0) && (pad.instant 0x20 || pad.instant 0x80))))
      then record g {
        our_game_state = record g.our_game_state {
          flags = set_flag g.our_game_state.flags gn_flag_handover;
        };
        gn_our_playernum = 1;
        gn_remote_playernum = 0;
      }
      else g in
    if has_flag g.remote_game_state.flags gn_flag_handover
    then record g {
      our_game_state = record g.our_game_state {
        flags = set_flag g.our_game_state.flags gn_flag_handover_ack;
      };
      gn_our_playernum = 0;
      gn_remote_playernum = 1;
    }
    else g

abbrev pub with_flags : GameNet → ℕ → GameNet
with_flags g flags = record g { our_game_state = record g.our_game_state { flags = flags } }

abbrev pub with_in_game : GameNet → ℕ → GameNet
with_in_game g n = record g { our_game_state = record g.our_game_state { in_game = n } }

-- The flags that the remote player's flags clear.
unfoldable pub clear_handover : GameNet → GameNet
clear_handover g =
    let g =
      if has_flag g.remote_game_state.flags gn_flag_handover_ack
      then with_flags g (clear_flag g.our_game_state.flags gn_flag_handover)
      else g in
    if has_flag g.remote_game_state.flags gn_flag_handover
    then g
    else with_flags g (clear_flag g.our_game_state.flags gn_flag_handover_ack)

-- The two updates of our in_game.
unfoldable pub update_in_game : PadInput → GameNet → GameNet
update_in_game pad g =
    let g =
      if not (g.gn_ingame == 0) && not (g.gn_tryagain == 0)
      then elim pad.try_again_enabled [
        | none ↦ g
        | some enabled ↦ with_in_game g (if enabled then 5 else 4)
      ]
      else g in
    if not (g.gn_ingame == 0)
      && ((g.our_game_state.in_game == 3)
          && ((g.remote_game_state.in_game == 3) || (g.remote_game_state.in_game == 6)))
    then with_in_game g 6
    else g

-- What send_game_state does to its globals before it sends, while connected.
unfoldable pub update_game_state : PadInput → GameNet → GameNet
update_game_state pad g =
    let g = clear_handover g in
    update_in_game pad
      (if (g.gn_ingame == 0) && (g.our_game_state.mm_screen == 2) then update_handover pad g else g)

-- The Ethernet and ARP parts of an ARP packet, as HandleArp and send_game_state write them.
unfoldable pub arp_bytes :
    (destination source : HwAddr) (oper : ℕ) (sender_hw : HwAddr) (sender_ip : IpAddr)
    (target_hw : HwAddr) (target_ip : IpAddr)
    → Bytes
    → Bytes
arp_bytes destination source oper sender_hw sender_ip target_hw target_ip d =
    let d = ethernet_bytes destination source 0x0806 d in
    let a = frame_payload in
    let d = store16 (store16 d a (htons 1)) (a + 2) (htons 0x0800) in
    let d = store16 (store8 (store8 d (a + 4) 6) (a + 5) 4) (a + 6) (htons oper) in
    let d = store_ip (store_hw d (a + 8) sender_hw) (a + 14) sender_ip in
    store_ip (store_hw d (a + 18) target_hw) (a + 24) target_ip

-- sizeof(ethernet_frame_t) + sizeof(arp_packet_t)
abbrev pub arp_size : ℕ
arp_size = 42

-- The ARP request for the remote player or the gateway.
unfoldable pub send_arp_request : Env → (now : ℕ) → Net → Net
send_arp_request env now s =
    let (buf, pool) = alloc_tx_packet (env.uninit s.pool) net_priority_game s.pool in
    if buf == null then record s { pool = pool } else record s {
      game = record s.game { gn_last_send = now };
      pool = add_tx_packet buf (
          fill pool buf
            (arp_bytes broadcast_hwaddr s.our_hwaddr 1 s.our_hwaddr s.our_ip null_hwaddr
              s.game.gn_remote_ip_or_gateway)
            arp_size);
    }

-- More than a second has passed since gn_last_send.
abbrev pub is_due : Env → ℕ → GameNet → Bool
is_due env now g = ltb env.clocks_per_sec ((now + 2 ^ 64 - g.gn_last_send) % 2 ^ 64)

-- send_game_state
unfoldable pub send_game_state : Env → PadInput → Net → Net
send_game_state env pad s =
    if s.game.gn_state == gn_connected
    then send_to_remote env game_payload next_seq_num (game_state_bytes gn_packetid_gamestate)
        (record s { game = update_game_state pad s.game })
    else if s.game.gn_state == gn_connecting_arp
    then (let (now, s) = read_clock env s in
        if is_due env now s.game then send_arp_request env now s else s)
    else if s.game.gn_state == gn_connecting
    then (let (now, s) = read_clock env s in
        if is_due env now s.game
        then send_to_remote env 2 (λ g. record g { gn_last_send = now })
            (id_bytes gn_packetid_connect) s
        else s)
    else s
