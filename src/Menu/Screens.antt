-- ===== src/Menu/Screens.antt =====
-- The screens that hMultiMenuHandleScreen adds to the game's menu.
use net_gitaroo.Common.{
  Bool, [], bit_and, bit_or, false, get_or, if◌then◌else◌, leb, ltb, not, suc, true, u8, zero, ℕ,
  ◌%◌, ◌&&◌, ◌*◌, ◌+◌, ◌-◌, ◌/◌, ◌==◌, ◌^◌, ◌||◌, ◌∷◌,
}
use net_gitaroo.Menu.Data.{
  Fpu, Menu, go_to, menu_id_exiting, menu_id_host, menu_id_join, menu_id_joining, menu_id_mptype,
  mm_pad_down, mm_pad_left, mm_pad_right, mm_pad_triangle, mm_pad_up, mm_pad_x, play, pressed,
  set_connecting_scr_enabled, set_hosting_menu_enabled, set_join_menu_enabled,
  set_mp_type_menu_enabled,
}
use net_gitaroo.Net.{
  Env, Net, game_port, gn_connected, gn_connecting, gn_connecting_arp, gn_hosting, gn_idle,
  read_random,
}
use net_gitaroo.IpVisual.{IpVisual, Sprite, put_at, update_ip_visual}
use net_gitaroo.Bytes.{broadcast_hwaddr, ip, ip_broadcast, ip_eq, ip_mask}

abbrev pub with_state : ℕ → Net → Net
with_state state s = record s { game = record s.game { gn_state = state } }

-- The cursor of the first screen: 0 is host, 1 is join, 2 is couch. The selected entry is drawn
-- from 61 lines further down the texture.
unfoldable pub move_type_cursor : Menu → Menu
move_type_cursor m =
    let moved = λ (item : ℕ). record (play 1 m) {
      type_menu_item = item;
      type_menu_uv_y = λ i. get_or (297 ∷ 317 ∷ 337 ∷ []) i 0 + (if i == item then 61 else 0);
    } in
    if pressed m mm_pad_down && ltb (m.type_menu_item + 1) 3
    then moved (m.type_menu_item + 1)
    else if pressed m mm_pad_up && leb 1 m.type_menu_item
    then moved (m.type_menu_item - 1)
    else m

-- MENU_ID_MPTYPE. Each screen gives the new value of the local `menu_id` first.
unfoldable pub handle_mptype : Menu → Net → ℕ × Menu × Net
handle_mptype m s =
    let m = move_type_cursor m in
    if pressed m mm_pad_x
    then (if m.type_menu_item == 2
        then (1, go_to 1 (set_mp_type_menu_enabled 0 m), s)
        else if m.type_menu_item == 0
        then (
          menu_id_host,
          go_to menu_id_host (set_hosting_menu_enabled 1 (set_mp_type_menu_enabled 0 (play 2 m))),
          record s { game = record s.game { gn_src_port = game_port; gn_state = gn_hosting } },
        )
        else if m.type_menu_item == 1
        then (
          menu_id_join,
          go_to menu_id_join (set_join_menu_enabled 1 (set_mp_type_menu_enabled 0 (play 2 m))),
          s,
        )
        else (menu_id_mptype, m, s))
    else if pressed m mm_pad_triangle
    then (menu_id_exiting, record (play 3 m) { menu_id = menu_id_exiting; fade_overlay = 1 }, s)
    else (menu_id_mptype, m, s)

-- MENU_ID_HOST
unfoldable pub handle_host : Menu → Net → ℕ × Menu × Net
handle_host m s =
    if s.game.gn_state == gn_connected
    then (2, go_to 2 (play 0 (set_hosting_menu_enabled 0 m)), s)
    else if pressed m mm_pad_triangle
    then (
      menu_id_mptype,
      record (play 3 (set_mp_type_menu_enabled 1 (set_hosting_menu_enabled 0 m))) {
        menu_id = menu_id_mptype;
        fade_overlay = 1;
      },
      with_state gn_idle s,
    )
    else (menu_id_host, m, s)

-- `mult`, divided by 10 `n` times
unfoldable pub divide_by_10 : ℕ → ℕ → ℕ
divide_by_10 zero mult = mult
divide_by_10 (suc n) mult = divide_by_10 n (mult / 10)

-- `x += step` or `x -= step` of an unsigned number below `bound`; a step is at most 10000.
abbrev pub add_or_sub : (bound step : ℕ) → (up : Bool) → ℕ → ℕ
add_or_sub bound step up x = if up then (x + step) % bound else (x + bound - step) % bound

-- `bytes[i]` of connip_visual: behind its four bytes stands the low byte of `port`.
abbrev pub visual_byte : IpVisual → ℕ → ℕ
visual_byte v i = if i == 4 then u8 v.port else v.bytes i

abbrev pub set_visual_byte : IpVisual → ℕ → ℕ → IpVisual
set_visual_byte v i b =
    if i == 4
    then record v { port = v.port / 2 ^ 8 * 2 ^ 8 + b }
    else record v { bytes = put_at v.bytes i b }

-- One step up or down of the digit under the cursor.
unfoldable pub change_digit : (up : Bool) (ip_digit : ℕ) → IpVisual → IpVisual
change_digit up ip_digit v =
    if ltb 12 ip_digit
    then record v { port = add_or_sub (2 ^ 16) (divide_by_10 (ip_digit - 12) 10000) up v.port }
    else (let octet_num = ip_digit / 3 in
        let digit = ip_digit % 3 in
        let mult = if digit == 0 then 100 else if digit == 1 then 10 else 1 in
        set_visual_byte v octet_num (add_or_sub (2 ^ 8) mult up (visual_byte v octet_num)))

-- `digits[i]`: behind the twelve digits of the address stand those of the port.
abbrev pub digit_sprite : IpVisual → ℕ → Sprite
digit_sprite v i = if ltb i 12 then v.digits i else v.port_digits (i - 12)

-- The address entry: the cursor, the digit under it, and the underscore. `prev_menu_id` is
-- MM_MENUID_PREV before the game's own handler.
unfoldable pub edit_address : (prev_menu_id : ℕ) → Menu → Menu
edit_address prev_menu_id m =
    let left = pressed m mm_pad_left in
    let right = pressed m mm_pad_right in
    let down = pressed m mm_pad_down in
    let up = pressed m mm_pad_up in
    let i = if left then m.ip_digit - 1 else m.ip_digit in
    let i = if right then (if ltb 16 (i + 1) then 16 else i + 1) else i in
    let v =
      if up && not down
      then change_digit true i m.connip_visual
      else if down && not up
      then change_digit false i m.connip_visual
      else m.connip_visual in
    let changed = left || right || down || up in
    let m = record (if changed then play 1 m else m) { ip_digit = i; connip_visual = v } in
    if changed || not (menu_id_join == prev_menu_id)
    then (let v = update_ip_visual v in
        let i = if ltb 16 i then 16 else i in
        record m {
          ip_digit = i;
          connip_visual = v;
          underscore_x = (digit_sprite v i).x;
          underscore_y = (digit_sprite v i).y;
        })
    else m

-- The start of a connection to the address that was entered: by broadcast, or by the hardware
-- address of the remote console or of the gateway.
unfoldable pub start_connection : Env → IpVisual → Net → Net
start_connection env v s =
    let (r, s) = read_random env s in
    let remote = ip (v.bytes 0 + 2 ^ 8 * v.bytes 1) (v.bytes 2 + 2 ^ 8 * v.bytes 3) in
    let g = record s.game {
      gn_src_port = bit_or (bit_and r 0x3FFF) 0xC000;
      gn_remote_ip = remote;
      gn_remote_ip_or_gateway = remote;
      gn_remote_port = v.port;
    } in
    if ip_eq remote ip_broadcast
    then record s {
      game = record g { gn_remote_hwaddr = broadcast_hwaddr; gn_state = gn_connecting };
    }
    else record s {
      game = record g {
        gn_remote_ip_or_gateway =
            if ip_eq (ip_mask s.gateway_ip s.subnet_mask) (ip_mask remote s.subnet_mask)
            then remote
            else s.gateway_ip;
        gn_state = gn_connecting_arp;
      };
    }

-- MENU_ID_JOIN
unfoldable pub handle_join : Env → (prev_menu_id : ℕ) → Menu → Net → ℕ × Menu × Net
handle_join env prev_menu_id m s =
    let m = edit_address prev_menu_id m in
    if pressed m mm_pad_triangle
    then (
      menu_id_mptype,
      record (play 3 (set_mp_type_menu_enabled 1 (set_join_menu_enabled 0 m))) {
        menu_id = menu_id_mptype;
      },
      s,
    )
    else if pressed m mm_pad_x
    then (
      menu_id_joining,
      record (play 3 (set_connecting_scr_enabled 1 (set_join_menu_enabled 0 m))) {
        menu_id = menu_id_joining;
      },
      start_connection env m.connip_visual s,
    )
    else (menu_id_join, m, s)

-- MENU_ID_JOINING
unfoldable pub handle_joining : Menu → Net → ℕ × Menu × Net
handle_joining m s =
    if s.game.gn_state == gn_connected
    then (2, go_to 2 (play 0 (set_connecting_scr_enabled 0 m)), s)
    else if pressed m mm_pad_triangle
    then (
      menu_id_join,
      record (play 3 (set_join_menu_enabled 1 (set_connecting_scr_enabled 0 m))) {
        menu_id = menu_id_join;
      },
      with_state gn_idle s,
    )
    else (menu_id_joining, m, s)

-- MENU_ID_EXITING: the fade, with 1.0f and 0.01666666666f; true where the menu is left.
unfoldable pub handle_exiting : Fpu → Menu → Menu × Bool
handle_exiting fpu m =
    let m = record m { fade_overlay = 1 } in
    let alpha = fpu.add m.fade_alpha 0x3c888889 in
    if fpu.ge m.fade_alpha 0x3f800000
    then (record m { return_val = 1 }, true)
    else (record m { fade_alpha = if fpu.ge alpha 0x3f800000 then 0x3f800000 else alpha }, false)
