-- ===== src/State/Run.antt =====
-- Runs of the network code: its entry points as steps, and what holds in each state they reach.
use net_gitaroo.Common.{
  Bool-cases, List, arith, htons, inl, inr, leb, length, not, some, subst, u16, ℕ, ◌&&◌, ◌+◌, ◌==◌,
  ◌||◌, ◌≡◌,
}
use net_gitaroo.Menu.Laws.{handle_screen-ok, leave_menu-ok}
use net_gitaroo.Net.{Env, Net, logging_port, net_priority_logging}
use net_gitaroo.Ip.{
  accepts_header, enq_rx_packet, handle_arp, handle_frame, handle_ip, ip_payload, is_dhcp,
  send_arp_reply,
}
use net_gitaroo.State.Client.{DhcpOk, begin_dhcp-ok, handle_dhcp-ok, process_dhcp-ok}
use net_gitaroo.State.Game.{GameOk, handle_udp_game_net-ok, send_game_state-ok}
use net_gitaroo.Packets.{Bytes, Ptr, null}
use net_gitaroo.Bytes.{
  broadcast_hwaddr, hwaddr_eq, ip_any, ip_broadcast, ip_eq, load16, load_hw, load_ip,
}
use net_gitaroo.Buffers.Rx.{alloc_rx_packet}
use net_gitaroo.Buffers.Tx.{after_tx_packet, deq_tx_packet, next_tx_packet}
use net_gitaroo.Logging.{Ends, handle_logging_packet, log_str, round_up4}
use net_gitaroo.Packet.{make_udp_packet, send_udp, udp_payload}
use net_gitaroo.State.Keeps.{make_udp_packet-Keeps}
use net_gitaroo.Menu.Data.{Fpu, Menu}
use net_gitaroo.Menu.Handle.{handle_screen, leave_menu}
use net_gitaroo.Dhcp.Client.{process_dhcp}
use net_gitaroo.Dhcp.Reply.{link_state_down, link_state_up}
use net_gitaroo.GameNet.Receive.{receive}
use net_gitaroo.GameNet.Send.{PadInput, send_game_state}

-- The client and the game are in order.
abbrev pub Sane : Net → Type 0
Sane s = DhcpOk s.dhcp_holder × GameOk s.game

handle_arp-ok :
    (env : Env) (d : Bytes) (s : Net)
    → GameOk s.game
    → let t = handle_arp env d s in GameOk t.game × (t.dhcp_holder ≡ s.dhcp_holder)
unfolding handle_arp send_arp_reply
handle_arp-ok env d s ok = ground (arith, ok)

handle_ip-ok : (env : Env) (d : Bytes) (s : Net) → Sane s → Sane (handle_ip env d s)
unfolding handle_ip handle_logging_packet
handle_ip-ok env d s (h, g) = elim (Bool-cases (accepts_header d)) [
  | inr bad ↦ rw bad (h, g)
  | inl good ↦ rw good (elim (Bool-cases (is_dhcp d)) [
    | inl a ↦ let (same, h') = handle_dhcp-ok env d (ip_payload d + 8) s h in rw a (h', rw same g)
    | inr a ↦
        rw a
          (elim (Bool-cases
            (not (ip_eq (load_ip d 30) s.our_ip) && not (ip_eq (load_ip d 30) ip_broadcast))) [
              | inl b ↦ rw b (h, g)
              | inr b ↦ rw b (elim (Bool-cases (d 23 == 17)) [
                | inr c ↦ rw c (h, g)
                | inl c ↦
                    rw c (elim (Bool-cases (load16 d (ip_payload d + 2) == htons logging_port)) [
                      | inl e ↦ rw e (h, g)
                      | inr e ↦
                          let (g', same) =
                            handle_udp_game_net-ok env (receive d (ip_payload d) 14) s g in
                          rw e (rw same h, g')
                    ])
              ])
            ])
  ])
]

handle_frame-ok : (env : Env) (d : Bytes) (s : Net) → Sane s → Sane (handle_frame env d s)
unfolding handle_frame
handle_frame-ok env d s (h, g) =
    elim (Bool-cases
      (hwaddr_eq (load_hw d 0) s.our_hwaddr || hwaddr_eq (load_hw d 0) broadcast_hwaddr)) [
        | inr other ↦ rw other (h, g)
        | inl ours ↦ rw ours (elim (Bool-cases (load16 d 12 == htons 0x0806)) [
          | inl arp ↦ let (g', same) = handle_arp-ok env d s g in rw arp (rw same h, g')
          | inr a ↦ rw a (elim (Bool-cases (load16 d 12 == htons 0x0800)) [
            | inl b ↦ rw b (handle_ip-ok env d s (h, g))
            | inr b ↦ rw b (h, g)
          ])
        ])
      ]

process_dhcp-Sane : (env : Env) (s : Net) → Sane s → Sane (process_dhcp env s)
process_dhcp-Sane env s (h, g) = let (same, h') = process_dhcp-ok env s h in (h', rw same g)

enq_rx_packet-Sane :
    (env : Env) (packet : Ptr) (s : Net) → Sane s → Sane (enq_rx_packet env packet s)
unfolding enq_rx_packet
enq_rx_packet-Sane env packet s ok =
    process_dhcp-Sane env _ (handle_frame-ok env (s.pool.heap packet).bytes s ok)

link_state_up-Sane : (env : Env) (s : Net) → Sane s → Sane (link_state_up env s)
unfolding link_state_up
link_state_up-Sane env s (h, g) =
    let (same, h') = begin_dhcp-ok env (record s { link_up = 1 }) h in (h', rw same g)

log_str-Ends : (env : Env) (str : List ℕ) (s : Net) → Sane s → Ends Sane (log_str env str s)
unfolding log_str send_udp
log_str-Ends env str s (h, g) =
    let l = s.logging in
    let size = round_up4 (length str) in
    let len = u16 size in
    let k =
      make_udp_packet-Keeps env l.logging_cip l.logging_chwaddr logging_port l.logging_cport len
        net_priority_logging s in
    elim (Bool-cases (not (s.link_up == 0) && not (ip_eq l.logging_cip ip_any))) [
      | inr off ↦ rw off (h, g)
      | inl on ↦
          rw on
            (elim (Bool-cases (
              (make_udp_packet env l.logging_cip l.logging_chwaddr logging_port l.logging_cport len
                net_priority_logging s).0
              == null)) [
                | inl busy ↦ rw busy (rw k.dhcp h, rw k.game g)
                | inr buf ↦ rw buf (elim (Bool-cases (leb (udp_payload + size) env.frame_size)) [
                  | inl fits ↦ rw fits (rw k.dhcp h, rw k.game g)
                  | inr long ↦ rw long tt
                ])
              ])
    ]

-- One entry point of the network code: netman delivers a frame, reports the link or takes a
-- buffer of the transmit queue; a video frame passes, in the multiplayer menu or not; the menu is
-- left; the game prints.
pub data Step (env : Env) : Net → Net → Type 0 where
  received : (s : Net) (packet : Ptr) → Step env s (enq_rx_packet env packet s)
  linked : (s : Net) → Step env s (link_state_up env s)
  unlinked : (s : Net) → Step env s (link_state_down s)
  ticked : (s : Net) → Step env s (process_dhcp env s)
  played : (s : Net) (pad : PadInput) → Step env s (send_game_state env pad s)
  printed : (s t : Net) (str : List ℕ) → log_str env str s ≡ some t → Step env s t
  browsed :
      (s : Net) (fpu : Fpu) (pad : PadInput) (original : Menu → Menu) (m : Menu)
      → Step env s (handle_screen fpu env pad original m s).1
  closed : (s : Net) (ret : ℕ) → Step env s (leave_menu env ret s)
  allocated :
      (s : Net) (size : ℕ) → Step env s (record s { pool = (alloc_rx_packet size s.pool).1 })
  handed : (s : Net) → Step env s (record s { pool = (next_tx_packet s.pool).2 })
  prepared : (s : Net) → Step env s (record s { pool = (after_tx_packet s.pool).2 })
  dequeued : (s : Net) → Step env s (record s { pool = deq_tx_packet s.pool })

pub data Reaches (env : Env) (s : Net) : Net → Type 0 where
  here : Reaches env s s
  later : {t u : Net} → Reaches env s t → Step env t u → Reaches env s u

Step-Sane : {env : Env} {s t : Net} → Step env s t → Sane s → Sane t
unfolding link_state_down
Step-Sane {env} (received s packet) ok = enq_rx_packet-Sane env packet s ok
Step-Sane {env} (linked s) ok = link_state_up-Sane env s ok
Step-Sane (unlinked s) (h, g) = (h, (omega arith, g.1))
Step-Sane {env} (ticked s) ok = process_dhcp-Sane env s ok
Step-Sane {env} (played s pad) (h, g) =
    let (g', same) = send_game_state-ok env pad s g in (rw same h, g')
Step-Sane {env} (printed s t str e) ok = subst (Ends Sane) e (log_str-Ends env str s ok)
Step-Sane {env} (browsed s fpu pad original m) (h, g) =
    let (g', same) = handle_screen-ok fpu env pad original m s g in (rw same h, g')
Step-Sane {env} (closed s ret) (h, g) =
    let (g', same) = leave_menu-ok env ret s g in (rw same h, g')
Step-Sane (allocated s size) ok = ok
Step-Sane (handed s) ok = ok
Step-Sane (prepared s) ok = ok
Step-Sane (dequeued s) ok = ok

-- In every state that a run of the entry points reaches from one in order, a DHCP client has
-- sent a discover or a request at most 21 times, the connection state is one of the five, and the
-- two consoles' players are player 0 and player 1; where no string that LogStr prints leaves its
-- buffer.
pub Reaches-Sane : {env : Env} {s t : Net} → Reaches env s t → Sane s → Sane t
Reaches-Sane here ok = ok
Reaches-Sane (later r step) ok = Step-Sane step (Reaches-Sane r ok)
