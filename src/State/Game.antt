-- ===== src/State/Game.antt =====
-- The connection state and the player numbers of src/game_net.c, through its handlers.
use net_gitaroo.Common.{
  Bool-cases, Option-cases, arith, inl, inr, refl, ℕ, ◌&&◌, ◌+◌, ◌==◌, ◌≡◌, ◌≤◌,
}
use net_gitaroo.Net.{
  Env, GameNet, Net, game_port, gn_connected, gn_connecting, gn_connecting_arp, gn_hosting,
}
use net_gitaroo.State.Keeps.{send_to_remote-game}
use net_gitaroo.Bytes.{ip_eq}
use net_gitaroo.Packets.{Bytes}
use net_gitaroo.GameNet.Receive.{
  Received, handle_connected, handle_connecting, handle_hosting, handle_udp_game_net,
  handle_unconnected, next_seq_num, send_to_remote,
}
use net_gitaroo.GameNet.Send.{
  PadInput, clear_handover, is_due, send_arp_request, send_game_state, update_game_state,
  update_handover, update_in_game,
}
use net_gitaroo.GameNet.State.{
  game_payload, gn_packetid_connect, gn_packetid_gamestate, reset_game_net,
}

-- The state is one of the five, and the two players are player 0 and player 1.
abbrev pub GameOk : GameNet → Type 0
GameOk g = (g.gn_state ≤ 4) × (g.gn_our_playernum + g.gn_remote_playernum ≡ 1)

handle_connecting-ok : (r : Received) (g : GameNet) → GameOk g → GameOk (handle_connecting r g)
unfolding handle_connecting reset_game_net
handle_connecting-ok r g ok = ground (arith, ok)

handle_connected-ok : (r : Received) (g : GameNet) → GameOk g → GameOk (handle_connected r g)
unfolding handle_connected
handle_connected-ok r g ok = ground (arith, ok)

-- A message leaves the game in order, if `before` does.
sent-ok :
    (env : Env) (len : ℕ) (before : GameNet → GameNet) (write : GameNet → Bytes → Bytes) (s : Net)
    → GameOk s.game
    → GameOk (before s.game)
    → let t = send_to_remote env len before write s in
      GameOk t.game × (t.dhcp_holder ≡ s.dhcp_holder)
sent-ok env len before write s ok ok' =
    let (g, h) = send_to_remote-game env len before write s in
    (elim g [ inl e ↦ rw e ok' | inr e ↦ rw e ok ], h)

handle_hosting-ok :
    (env : Env) (r : Received) (s : Net)
    → GameOk s.game
    → let t = handle_hosting env r s in GameOk t.game × (t.dhcp_holder ≡ s.dhcp_holder)
unfolding handle_hosting reset_game_net
handle_hosting-ok env r s ok = elim (Bool-cases (r.ptype == gn_packetid_connect)) [
  | inl connect ↦ rw connect (sent-ok env 2 _ _ _ ok ok)
  | inr a ↦
      rw a
        (elim (Bool-cases
          ((r.ptype == gn_packetid_gamestate) && ip_eq r.source_ip s.game.gn_remote_ip)) [
            | inl ours ↦ rw ours ((omega arith, refl), refl)
            | inr b ↦ rw b (ok, refl)
          ])
]

handle_unconnected-ok :
    (env : Env) (r : Received) (s : Net)
    → GameOk s.game
    → let t = handle_unconnected env r s in GameOk t.game × (t.dhcp_holder ≡ s.dhcp_holder)
unfolding handle_unconnected
handle_unconnected-ok env r s ok =
    elim (Bool-cases ((s.game.gn_state == gn_hosting) && (r.dst_port == game_port))) [
      | inl hosting ↦ rw hosting (handle_hosting-ok env r s ok)
      | inr a ↦ rw a (elim (Bool-cases (s.game.gn_state == gn_connecting)) [
        | inl b ↦ rw b (handle_connecting-ok r s.game ok, refl)
        | inr b ↦ rw b (ok, refl)
      ])
    ]

pub handle_udp_game_net-ok :
    (env : Env) (r : Received) (s : Net)
    → GameOk s.game
    → let t = handle_udp_game_net env r s in GameOk t.game × (t.dhcp_holder ≡ s.dhcp_holder)
unfolding handle_udp_game_net
handle_udp_game_net-ok env r s ok =
    let t = handle_unconnected env r s in
    let (k, h) = handle_unconnected-ok env r s ok in
    elim (Bool-cases (t.game.gn_state == gn_connected)) [
      | inl c ↦ rw c (handle_connected-ok r t.game k, h)
      | inr c ↦ rw c (k, h)
    ]

update_handover-ok : (pad : PadInput) (g : GameNet) → GameOk g → GameOk (update_handover pad g)
unfolding update_handover
update_handover-ok pad g ok = ground (arith, ok)

clear_handover-ok : (g : GameNet) → GameOk g → GameOk (clear_handover g)
unfolding clear_handover
clear_handover-ok g ok = ground (arith, ok)

update_in_game-ok : (pad : PadInput) (g : GameNet) → GameOk g → GameOk (update_in_game pad g)
unfolding update_in_game
update_in_game-ok pad g ok = ground (arith, ok, Option-cases pad.try_again_enabled)

update_game_state-ok : (pad : PadInput) (g : GameNet) → GameOk g → GameOk (update_game_state pad g)
unfolding update_game_state
update_game_state-ok pad g ok =
    let h = clear_handover g in
    let k = clear_handover-ok g ok in
    elim (Bool-cases ((h.gn_ingame == 0) && (h.our_game_state.mm_screen == 2))) [
      | inl menu ↦ rw menu (update_in_game-ok pad _ (update_handover-ok pad h k))
      | inr a ↦ rw a (update_in_game-ok pad h k)
    ]

send_arp_request-ok :
    (env : Env) (now : ℕ) (s : Net)
    → GameOk s.game
    → let t = send_arp_request env now s in GameOk t.game × (t.dhcp_holder ≡ s.dhcp_holder)
unfolding send_arp_request
send_arp_request-ok env now s ok = ground (arith, ok)

pub send_game_state-ok :
    (env : Env) (pad : PadInput) (s : Net)
    → GameOk s.game
    → let t = send_game_state env pad s in GameOk t.game × (t.dhcp_holder ≡ s.dhcp_holder)
unfolding send_game_state
send_game_state-ok env pad s ok =
    let now = env.clock s.clock_reads in
    let u : Net = record s { clock_reads = s.clock_reads + 1 } in
    elim (Bool-cases (s.game.gn_state == gn_connected)) [
      | inl a ↦
          let ok' = update_game_state-ok pad s.game ok in
          rw a (sent-ok env game_payload next_seq_num _ _ ok' ok')
      | inr a ↦ rw a (elim (Bool-cases (s.game.gn_state == gn_connecting_arp)) [
        | inl b ↦ rw b (elim (Bool-cases (is_due env now s.game)) [
          | inl due ↦ rw due (send_arp_request-ok env now u ok)
          | inr wait ↦ rw wait (ok, refl)
        ])
        | inr b ↦ rw b (elim (Bool-cases (s.game.gn_state == gn_connecting)) [
          | inl c ↦ rw c (elim (Bool-cases (is_due env now s.game)) [
            | inl due ↦ rw due (sent-ok env 2 _ _ u ok ok)
            | inr wait ↦ rw wait (ok, refl)
          ])
          | inr c ↦ rw c (ok, refl)
        ])
      ])
    ]
