-- ===== src/Menu/Data.antt =====
-- The fields of the game's menu that src/multi_menu.c reads and writes, and its own additions.
-- Floats are bit patterns; the operations of the console's FPU on them are given.
use net_gitaroo.Common.{Bool, List, [], bit_and, bit_or, not, ℕ, ◌++◌, ◌==◌, ◌∷◌}
use net_gitaroo.IpVisual.{IpVisual, put_at, set_ip_visual_enabled}

-- The calls of the game's functions: PLAY_MENU_SOUND(menu_sounds[n], 0, 0) and
-- MultiMenuChangeScreen.
pub data MenuCall : Type 0 where
  play_sound : ℕ → MenuCall
  change_screen : ℕ → MenuCall

pub record Fpu : Type 0 where
  pub add : ℕ → ℕ → ℕ
  pub sub : ℕ → ℕ → ℕ
  pub mul : ℕ → ℕ → ℕ
  pub eq : ℕ → ℕ → Bool
  pub ge : ℕ → ℕ → Bool
  pub lt : ℕ → ℕ → Bool

-- MM_PLAYER_*
pub record MenuPlayer : Type 0 where
  pub character : ℕ
  pub max_char : ℕ
  pub ready : ℕ
  pub ready2 : ℕ
  pub start_health : ℕ

-- MM_MENUID and the other fields, MultiMenuPads, and multi_menu_additions_t; of a sprite that is
-- only shown or hidden, its `enabled`.
pub record Menu : Type 0 where
  pub menu_id : ℕ
  pub menu_id_prev : ℕ
  pub return_val : ℕ
  pub skip_arg : ℕ
  pub song : ℕ
  pub players : ℕ → MenuPlayer
  pub num_pads : ℕ
  pub pads : ℕ → ℕ
  pub background : ℕ
  pub type_menu : ℕ
  pub type_menu_uv_y : ℕ → ℕ
  pub underscore : ℕ
  pub underscore_x : ℕ
  pub underscore_y : ℕ
  pub connecting_text : ℕ
  pub fade_overlay : ℕ
  pub fade_alpha : ℕ
  pub hostip_visual : IpVisual
  pub connip_visual : IpVisual
  pub type_menu_item : ℕ
  pub ip_digit : ℕ
  pub calls : List MenuCall

abbrev pub menu_id_exiting : ℕ
menu_id_exiting = 9

abbrev pub menu_id_mptype : ℕ
menu_id_mptype = 10

abbrev pub menu_id_host : ℕ
menu_id_host = 11

abbrev pub menu_id_join : ℕ
menu_id_join = 12

abbrev pub menu_id_joining : ℕ
menu_id_joining = 13

abbrev pub mm_pad_x : ℕ
mm_pad_x = 0x1

abbrev pub mm_pad_triangle : ℕ
mm_pad_triangle = 0x2

abbrev pub mm_pad_up_held : ℕ
mm_pad_up_held = 0x20

abbrev pub mm_pad_down_held : ℕ
mm_pad_down_held = 0x40

abbrev pub mm_pad_up : ℕ
mm_pad_up = 0x80

abbrev pub mm_pad_down : ℕ
mm_pad_down = 0x100

abbrev pub mm_pad_left : ℕ
mm_pad_left = 0x200

abbrev pub mm_pad_right : ℕ
mm_pad_right = 0x400

-- The calls, in their order.
abbrev pub play : ℕ → Menu → Menu
play n m = record m { calls = m.calls ++ (play_sound n ∷ []) }

-- `menu_id = MM_MENUID(multi_menu) = id; MultiMenuChangeScreen(multi_menu, menu_id);`
abbrev pub go_to : ℕ → Menu → Menu
go_to id m = record m { menu_id = id; calls = m.calls ++ (change_screen id ∷ []) }

-- `pads->pads[0] & b`, and `pads->pads[i] |= b`
abbrev pub pressed : Menu → ℕ → Bool
pressed m b = not (bit_and (m.pads 0) b == 0)

abbrev pub press : ℕ → ℕ → Menu → Menu
press i b m = record m { pads = put_at m.pads i (bit_or (m.pads i) b) }

abbrev pub put_player : ℕ → MenuPlayer → Menu → Menu
put_player i p m = record m { players = put_at m.players i p }

-- set_mp_type_menu_enabled, set_hosting_menu_enabled, set_join_menu_enabled and
-- set_connecting_scr_enabled
unfoldable pub set_mp_type_menu_enabled : ℕ → Menu → Menu
set_mp_type_menu_enabled enabled m = record m { type_menu = enabled; background = enabled }

unfoldable pub set_hosting_menu_enabled : ℕ → Menu → Menu
set_hosting_menu_enabled enabled m = record m {
  background = enabled;
  hostip_visual = set_ip_visual_enabled enabled m.hostip_visual;
}

unfoldable pub set_join_menu_enabled : ℕ → Menu → Menu
set_join_menu_enabled enabled m = record m {
  background = enabled;
  connip_visual = set_ip_visual_enabled enabled m.connip_visual;
  underscore = enabled;
}

unfoldable pub set_connecting_scr_enabled : ℕ → Menu → Menu
set_connecting_scr_enabled enabled m = record m { background = enabled; connecting_text = enabled }
