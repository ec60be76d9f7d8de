-- ===== src/Menu/Laws.antt =====
-- What the screens of src/multi_menu.c do to the game's globals.
use net_gitaroo.Common.{Bool-cases, arith, inl, inr, ℕ, ◌∙◌, ◌≡◌}
use net_gitaroo.Menu.Data.{Fpu, Menu}
use net_gitaroo.Menu.Screens.{
  edit_address, handle_host, handle_join, handle_joining, handle_mptype, start_connection,
}
use net_gitaroo.Net.{Env, Net}
use net_gitaroo.IpVisual.{IpVisual}
use net_gitaroo.State.Game.{GameOk, send_game_state-ok}
use net_gitaroo.Menu.Handle.{
  enter_menu, handle_own_screen, handle_screen, leave_menu, report_menu, send_fin,
}
use net_gitaroo.State.Keeps.{send_to_remote-game}
use net_gitaroo.Menu.Follow.{follow_remote}
use net_gitaroo.GameNet.Receive.{game_state_bytes, next_seq_num, send_to_remote}
use net_gitaroo.GameNet.Send.{PadInput}
use net_gitaroo.GameNet.State.{game_payload, gn_packetid_fin}

-- The connection is in order, and the DHCP client is as it was.
abbrev KeepsGame : Net → Net → Type 0
KeepsGame s t = GameOk t.game × (t.dhcp_holder ≡ s.dhcp_holder)

handle_mptype-ok : (m : Menu) (s : Net) → GameOk s.game → KeepsGame s (handle_mptype m s).2
unfolding handle_mptype
handle_mptype-ok m s ok = ground (arith, ok)

handle_host-ok : (m : Menu) (s : Net) → GameOk s.game → KeepsGame s (handle_host m s).2
unfolding handle_host
handle_host-ok m s ok = ground (arith, ok)

handle_joining-ok : (m : Menu) (s : Net) → GameOk s.game → KeepsGame s (handle_joining m s).2
unfolding handle_joining
handle_joining-ok m s ok = ground (arith, ok)

start_connection-ok :
    (env : Env) (v : IpVisual) (s : Net) → GameOk s.game → KeepsGame s (start_connection env v s)
unfolding start_connection
start_connection-ok env v s ok = ground (arith, ok)

handle_join-ok :
    (env : Env) (prev : ℕ) (m : Menu) (s : Net)
    → GameOk s.game
    → KeepsGame s (handle_join env prev m s).2
unfolding handle_join
handle_join-ok env prev m s ok =
    ground (arith, ok, start_connection-ok env (edit_address prev m).connip_visual s ok)

handle_own_screen-ok :
    (fpu : Fpu) (env : Env) (menu_id prev : ℕ) (m : Menu) (s : Net)
    → GameOk s.game
    → KeepsGame s (handle_own_screen fpu env menu_id prev m s).0.2
unfolding handle_own_screen
handle_own_screen-ok fpu env menu_id prev m s ok = ground (
  arith,
  ok,
  handle_mptype-ok m s ok,
  handle_host-ok m s ok,
  handle_join-ok env prev m s ok,
  handle_joining-ok m s ok,
)

report_menu-ok :
    (fpu : Fpu) (menu_id : ℕ) (m : Menu) (s : Net)
    → GameOk s.game
    → KeepsGame s (report_menu fpu menu_id m s)
unfolding report_menu
report_menu-ok fpu menu_id m s ok = ground (arith, ok)

pub handle_screen-ok :
    (fpu : Fpu) (env : Env) (pad : PadInput) (original : Menu → Menu) (m : Menu) (s : Net)
    → GameOk s.game
    → KeepsGame s (handle_screen fpu env pad original m s).1
unfolding handle_screen
handle_screen-ok fpu env pad original m s ok =
    let e = enter_menu m in
    let o = original (follow_remote fpu e.menu_id s.game e) in
    let ((id, n, t), left) = handle_own_screen fpu env e.menu_id m.menu_id_prev o s in
    let (g, h) = handle_own_screen-ok fpu env e.menu_id m.menu_id_prev o s ok in
    let (g', h') = report_menu-ok fpu id n t g in
    let (g'', h'') = send_game_state-ok env pad (report_menu fpu id n t) g' in
    elim (Bool-cases left) [ inl a ↦ rw a (g, h) | inr a ↦ rw a (g'', h'' ∙ h' ∙ h) ]

pub leave_menu-ok :
    (env : Env) (ret : ℕ) (s : Net) → GameOk s.game → KeepsGame s (leave_menu env ret s)
unfolding leave_menu send_fin
leave_menu-ok env ret s ok =
    let (g, h) =
      send_to_remote-game env game_payload next_seq_num (game_state_bytes gn_packetid_fin) s in
    let g' : GameOk
        (send_to_remote env game_payload next_seq_num (game_state_bytes gn_packetid_fin) s).game =
      elim g [ inl e ↦ rw e ok | inr e ↦ rw e ok ] in
    ground (arith, ok, h, g')
