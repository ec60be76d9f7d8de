-- ===== src/Menu/Follow.antt =====
-- The part of hMultiMenuHandleScreen before the game's own handler: while connected, the buttons
-- of the remote player are made up so that its menu follows the remote console's.
use net_gitaroo.Common.{Bool, false, if◌then◌else◌, leb, ltb, not, true, ℕ, ◌&&◌, ◌+◌, ◌==◌}
use net_gitaroo.Menu.Data.{
  Fpu, Menu, mm_pad_down_held, mm_pad_left, mm_pad_right, mm_pad_triangle, mm_pad_up,
  mm_pad_up_held, mm_pad_x, press, put_player,
}
use net_gitaroo.Net.{GameNet, gn_connected}
use net_gitaroo.IpVisual.{put_at}

-- The two locals and the menu.
pub record Follow : Type 0 where
  pub do_update : Bool
  pub target_screen : ℕ
  pub menu : Menu

abbrev no_update : Menu → Follow → Follow
no_update m f = record f { do_update = false; menu = m }

-- The song of the remote player 0; `curr_song` is the song before.
unfoldable pub follow_song : (menu_id curr_song : ℕ) → GameNet → Follow → Follow
follow_song menu_id curr_song g f =
    let m = f.menu in
    let mm_song = g.remote_game_state.mm_song in
    if (g.gn_remote_playernum == 0) && (not (curr_song == mm_song) && ltb mm_song 7)
    then (if menu_id == 2
        then no_update (press 0 mm_pad_up (record m { song = mm_song + 1 })) f
        else record f { target_screen = 2 })
    else f

-- The remote player's character.
unfoldable pub follow_character : (menu_id curr_song : ℕ) → GameNet → Follow → Follow
follow_character menu_id curr_song g f =
    let m = f.menu in
    let n = g.gn_remote_playernum in
    let mm_character = g.remote_game_state.mm_character in
    let remote = m.players n in
    if not (mm_character == remote.character) && (curr_song == g.remote_game_state.mm_song)
    then (if menu_id == 3
        then no_update
            (press n (if ltb mm_character remote.character then mm_pad_left else mm_pad_right) m) f
        else if (menu_id == 4) && (n == 0)
        then record f { target_screen = 3 }
        else if leb mm_character remote.max_char
        then record f { menu = put_player n (record remote { character = mm_character }) m }
        else f)
    else f

-- The remote player's health: 100.0f, 0.5f and -0.5f.
unfoldable pub follow_health : Fpu → (menu_id : ℕ) → GameNet → Follow → Follow
follow_health fpu menu_id g f =
    let m = f.menu in
    let n = g.gn_remote_playernum in
    let hdiff =
      fpu.sub (m.players n).start_health (fpu.mul g.remote_game_state.health 0x42c80000) in
    if menu_id == 4
    then (if fpu.ge hdiff 0x3f000000
        then no_update (press n mm_pad_down_held m) f
        else if fpu.lt hdiff 0xbf000000
        then no_update (press n mm_pad_up_held m) f
        else f)
    else f

-- Whether the remote player is ready.
unfoldable pub follow_ready : (menu_id : ℕ) → GameNet → Follow → Follow
follow_ready menu_id g f =
    let m = f.menu in
    let n = g.gn_remote_playernum in
    let mm_ready = g.remote_game_state.mm_ready in
    let ready = not ((m.players n).ready == 0) in
    let ready2 = not ((m.players n).ready2 == 0) in
    if (g.gn_our_playernum == 0) && (f.do_update && (menu_id == 3))
    then (if leb 3 mm_ready && ready
        then record f { menu = press n mm_pad_x m }
        else if ltb mm_ready 3 && not ready
        then record f { menu = press n mm_pad_triangle m }
        else f)
    else if (g.gn_our_playernum == 0) && (f.do_update && (menu_id == 4))
    then (if leb 4 mm_ready && not ready2
        then record f { menu = press n mm_pad_x m }
        else if ltb mm_ready 4 && ready2
        then record f { menu = press n mm_pad_triangle m }
        else f)
    else f

-- `for(i = 0; i < pads->num_pads; i++) pads->pads[i] |= b;`, for two pads
abbrev press_both : ℕ → Menu → Menu
press_both b m = press 1 b (press 0 b m)

-- The screen of the remote player 0.
unfoldable pub follow_screen : (menu_id : ℕ) → GameNet → Follow → Follow
follow_screen menu_id g f =
    let target =
      if (menu_id == 4) && (ltb 0 g.remote_game_state.in_game && (f.target_screen == 4))
      then 5
      else f.target_screen in
    if not (target == menu_id) && (f.do_update && (g.gn_remote_playernum == 0))
    then record f {
      target_screen = target;
      menu = press_both (if leb menu_id target then mm_pad_x else mm_pad_triangle) f.menu;
    }
    else record f { target_screen = target }

-- `gn_state == GN_CONNECTED && menu_id >= 2 && menu_id <= 4` and what it guards
unfoldable pub follow_remote : Fpu → (menu_id : ℕ) → GameNet → Menu → Menu
follow_remote fpu menu_id g m =
    let screen = g.remote_game_state.mm_screen in
    let pads = put_at m.pads g.gn_our_playernum (m.pads 0) in
    let paired = record m { num_pads = 2; pads = put_at pads g.gn_remote_playernum 0 } in
    if (g.gn_state == gn_connected) && (leb 2 menu_id && leb menu_id 4)
    then (if leb 2 screen && leb screen 4
        then (follow_screen menu_id g (
            follow_ready menu_id g (
              follow_health fpu menu_id g (
                follow_character menu_id m.song g (
                  follow_song menu_id m.song g
                    (record { do_update = true; target_screen = screen; menu = paired })))))).menu
        else paired)
    else m
