-- ===== src/Menu/Handle.antt =====
-- hMultiMenuHandleScreen and hMultiMenuLoop of src/multi_menu.c.
use net_gitaroo.Common.{Bool, false, if◌then◌else◌, leb, not, u8, ℕ, ◌&&◌, ◌==◌}
use net_gitaroo.Menu.Data.{
  Fpu, Menu, go_to, menu_id_exiting, menu_id_host, menu_id_join, menu_id_joining, menu_id_mptype,
  set_mp_type_menu_enabled,
}
use net_gitaroo.Menu.Screens.{
  handle_exiting, handle_host, handle_join, handle_joining, handle_mptype, with_state,
}
use net_gitaroo.Net.{Env, Net, gn_connected, gn_idle}
use net_gitaroo.Menu.Follow.{follow_remote}
use net_gitaroo.GameNet.Receive.{game_state_bytes, next_seq_num, send_to_remote}
use net_gitaroo.GameNet.Send.{PadInput, send_game_state}
use net_gitaroo.GameNet.State.{game_payload, gn_packetid_fin}

-- The screen that is asked for first.
unfoldable pub enter_menu : Menu → Menu
enter_menu m =
    if (m.menu_id == 0) && (m.skip_arg == 0)
    then set_mp_type_menu_enabled 1 (go_to menu_id_mptype m)
    else m

-- What our console says of its menu, to the remote one; 0.01f.
unfoldable pub report_menu : Fpu → (menu_id : ℕ) → Menu → Net → Net
report_menu fpu menu_id m s =
    let p = m.players s.game.gn_our_playernum in
    let mm_ready =
      if not (p.ready2 == 0) && leb 4 menu_id
      then 4
      else if (p.ready == 0) && leb 3 menu_id
      then 3
      else 0 in
    if leb menu_id 4 && (leb 2 menu_id && (s.game.gn_state == gn_connected))
    then record s {
      game = record s.game {
        our_game_state = record s.game.our_game_state {
          mm_screen = menu_id;
          mm_song = u8 m.song;
          mm_character = u8 p.character;
          health = fpu.mul p.start_health 0x3c23d70a;
          mm_ready = mm_ready;
        };
      };
    }
    else s

-- The screens by the local `menu_id`: its new value, the new menu and globals, and whether the
-- hook returns at once.
unfoldable pub handle_own_screen :
    Fpu → Env → (menu_id prev_menu_id : ℕ) → Menu → Net → (ℕ × Menu × Net) × Bool
handle_own_screen fpu env menu_id prev_menu_id m s =
    if menu_id == menu_id_mptype
    then (handle_mptype m s, false)
    else if menu_id == menu_id_host
    then (handle_host m s, false)
    else if menu_id == menu_id_join
    then (handle_join env prev_menu_id m s, false)
    else if menu_id == menu_id_joining
    then (handle_joining m s, false)
    else if menu_id == menu_id_exiting
    then (let (t, left) = handle_exiting fpu m in ((menu_id, t, s), left))
    else ((menu_id, m, s), false)

-- hMultiMenuHandleScreen; `original` is the game's own handler.
unfoldable pub handle_screen :
    Fpu → Env → PadInput → (original : Menu → Menu) → Menu → Net → Menu × Net
handle_screen fpu env pad original m s =
    let prev_menu_id = m.menu_id_prev in
    let m = enter_menu m in
    let menu_id = m.menu_id in
    let m = original (follow_remote fpu menu_id s.game m) in
    let ((menu_id, m, s), left) = handle_own_screen fpu env menu_id prev_menu_id m s in
    if left then (m, s) else (m, send_game_state env pad (report_menu fpu menu_id m s))

-- The payload of the FIN that hMultiMenuLoop sends: the game state behind the id.
unfoldable pub send_fin : Env → Net → Net
send_fin env s = send_to_remote env game_payload next_seq_num (game_state_bytes gn_packetid_fin) s

-- hMultiMenuLoop, after the game's own loop has returned `ret`
unfoldable pub leave_menu : Env → (ret : ℕ) → Net → Net
leave_menu env ret s =
    let t = if s.game.gn_state == gn_connected then send_fin env s else s in
    if ret == 0 then with_state gn_idle t else s
