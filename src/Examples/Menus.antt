-- ===== src/Examples/Menus.antt =====
-- The theorems on the menu and the hooks at concrete inputs.
use net_gitaroo.Common.{
  [], arith, false, get_or, if◌then◌else◌, length, ltb, refl, suc, true, zero, ℕ, ◌%◌, ◌+◌, ◌-◌,
  ◌/◌, ◌<◌, ◌==◌, ◌^◌, ◌∷◌, ◌≡◌,
}
use net_gitaroo.Examples.Consoles.{blank_state, player}
use net_gitaroo.Hooks.Laws.{CountersFit, fake_pad-remote_button, hits_behind, show_hit-catches_up}
use net_gitaroo.Hooks.Pads.{fake_pad_get_button, handle_multi_player_inputs}
use net_gitaroo.Hooks.Status.{Health, Status, show_hit}
use net_gitaroo.IpVisual.{IpVisual, Sprite, update_ip_visual}
use net_gitaroo.IpVisual.Shown.{shown_octet, shown_port, update_ip_visual-shown}
use net_gitaroo.Menu.Screens.{change_digit}
use net_gitaroo.Net.{GameNet, game_port}
use net_gitaroo.Menu.Digits.{Shifts, change_digit-shown}

abbrev sprite : Sprite
sprite = record { enabled = 1; uv_pixel_x = 322; x = 0; y = 0 }

-- The address 10.0.0.200 and the port 13437.
abbrev visual : IpVisual
visual = record {
  dots = λ i. 1;
  digits = λ i. sprite;
  port_digits = λ i. sprite;
  bytes = λ i. get_or (10 ∷ 0 ∷ 0 ∷ 200 ∷ []) i 0;
  port = game_port;
  include_port = 1;
}

visual_bytes-small : (j : ℕ) → visual.bytes j < 2 ^ 8
visual_bytes-small zero = omega arith
visual_bytes-small (suc zero) = omega arith
visual_bytes-small (suc (suc zero)) = omega arith
visual_bytes-small (suc (suc (suc zero))) = omega arith
visual_bytes-small (suc (suc (suc (suc j)))) = omega arith

update_ip_visual-shown_example :
    let w = update_ip_visual visual in
    ((i : ℕ) → i < 4 → shown_octet w i ≡ visual.bytes i)
    × ((visual.include_port == 0) ≡ false → shown_port w ≡ visual.port)
update_ip_visual-shown_example =
    update_ip_visual-shown visual visual_bytes-small (omega arith) (λ i h. refl)

-- The last digit but one of 200, up.
change_digit-shown_example :
    let u = update_ip_visual visual in
    let w = update_ip_visual (change_digit true 10 visual) in
    ((j : ℕ)
      → j < 4
      → Shifts (j == 10 / 3) 256 (10 ^ (2 - 10 % 3)) true (shown_octet u j) (shown_octet w j))
    × ((visual.include_port == 0) ≡ false
        → Shifts (ltb 12 10) (2 ^ 16) (10 ^ (16 - 10)) true (shown_port u) (shown_port w))
change_digit-shown_example =
    change_digit-shown true 10 visual visual_bytes-small (omega arith) (λ i h. refl) (omega arith)
      refl

-- A console in a game whose remote player has missed twice, of which one miss was shown.
abbrev behind : GameNet
behind = record player.game {
  gn_ingame = 1;
  gn_last_miss_ctr = 1;
  remote_game_state = record blank_state { ctr_miss = 2 };
}

abbrev health : Health
health = record { base = 0; addition = 0; score = 0; player_num = 1 }

abbrev status : Status
status = record {
  toasts = λ i. i + 1;
  health = health;
  other_health = health;
  result = record { a = 0; b = 0; miss_flag = 0; hit_type = 2 ^ 32 - 1 };
  shown = [];
}

show_hit-catches_up_example :
    let (h, u) = show_hit behind status in
    (hits_behind h ≡ hits_behind behind - 1)
    × (length u.shown ≡ length status.shown + (if hits_behind behind == 0 then 0 else 1))
    × CountersFit h
show_hit-catches_up_example = show_hit-catches_up behind status (
  omega arith,
  omega arith,
  omega arith,
  omega arith,
  omega arith,
  omega arith,
  omega arith,
  omega arith,
)

-- What a held button does on one console.
abbrev sent_inputs : ℕ × GameNet
sent_inputs =
    handle_multi_player_inputs (λ t. 0) 4800 3 0 0 player.game.gn_our_playernum player.game

-- The other console, which has heard of the held button.
abbrev other : GameNet
other = record player.game { gn_ingame = 1; remote_game_state = (sent_inputs.1).our_game_state }

fake_pad-remote_button_example :
    ((fake_pad_get_button 0x80 other).0 ≡ (if 3 == 1 then 1 else 0))
    × ((fake_pad_get_button 0x40 other).0 ≡ (if 3 == 2 then 1 else 0))
    × ((fake_pad_get_button 0x20 other).0 ≡ (if 3 == 3 then 1 else 0))
    × ((fake_pad_get_button 0x10 other).0 ≡ (if 3 == 4 then 1 else 0))
unfolding handle_multi_player_inputs
fake_pad-remote_button_example =
    fake_pad-remote_button (λ t. 0) 4800 3 0 0 player.game other (omega arith) (omega arith) refl
      refl refl refl refl refl refl
