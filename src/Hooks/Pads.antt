-- ===== src/Hooks/Pads.antt =====
-- The pads of src/game_net.c: FakePadGetButton, hGetPad, hHandleMultiPlayerInputs and hCueSetup.
use net_gitaroo.Common.{
  Bool, bit_and, bit_or, if◌then◌else◌, ltb, not, u8, ℕ, ◌&&◌, ◌+◌, ◌-◌, ◌==◌, ◌^◌, ◌||◌,
}
use net_gitaroo.Net.{GameNet, gn_connected}
use net_gitaroo.GameNet.State.{clear_flag, gn_flag_button}

-- The button number in the low bits of the flags.
abbrev pub remote_button : GameNet → ℕ
remote_button g = bit_and g.remote_game_state.flags gn_flag_button

abbrev to_int : Bool → ℕ
to_int b = if b then 1 else 0

-- A `signed char` as an `int`, both modulo a power of two.
abbrev pub to_signed_int : ℕ → ℕ
to_signed_int x = if ltb x 128 then x else x + 2 ^ 32 - 2 ^ 8

-- FakePadGetButton: what it returns, and `*analog_value`.
unfoldable pub fake_pad_get_button : (button : ℕ) → GameNet → ℕ × ℕ
fake_pad_get_button button g =
    let r = g.remote_game_state in
    let in_game = r.in_game in
    let try_again = not (g.gn_tryagain == 0) in
    if (g.gn_state == gn_connected) && not (g.gn_ingame == 0)
    then (if try_again && (button == 0x2000)
        then (to_int ((in_game == 4) || (in_game == 0)), 0)
        else if try_again && (button == 0x8000)
        then (to_int ((in_game == 5) || (in_game == 3)), 0)
        else if try_again && (button == 0x40)
        then (to_int (ltb in_game 4), 0)
        else if not try_again
            && (((button == 0x40) || (button == 0x800)) && ((in_game == 4) || (in_game == 5)))
        then (1, 0)
        else if button == 0x40000
        then (1, to_signed_int r.stick_x)
        else if button == 0x80000
        then (1, to_signed_int r.stick_y)
        else if button == 0x80
        then (to_int (remote_button g == 1), 0)
        else if button == 0x40
        then (to_int (remote_button g == 2), 0)
        else if button == 0x20
        then (to_int (remote_button g == 3), 0)
        else if button == 0x10
        then (to_int (remote_button g == 4), 0)
        else (0, 0))
    else (0, 0)

-- What hGetPad returns: a pad of the game's, fake_pad, or NULL.
pub data PadChoice : Type 0 where
  game_pad : ℕ → PadChoice
  fake_pad : PadChoice
  no_pad : PadChoice

-- hGetPad
unfoldable pub get_pad : (index : ℕ) → GameNet → PadChoice
get_pad index g =
    if (g.gn_state == gn_connected) && not (g.gn_ingame == 0)
    then (if index == g.gn_our_playernum
        then game_pad 0
        else if index == g.gn_remote_playernum
        then fake_pad
        else no_pad)
    else game_pad index

-- hHandleMultiPlayerInputs, of the whole parts of the stick's position. `original` is given the
-- time that the game's function is called with, and gives its result.
unfoldable pub handle_multi_player_inputs :
    (original : ℕ → ℕ) (time button stick_x stick_y player_num : ℕ) → GameNet → ℕ × GameNet
handle_multi_player_inputs original time button stick_x stick_y player_num g =
    let connected = g.gn_state == gn_connected in
    let time =
      if (player_num == g.gn_remote_playernum) && connected
      then g.remote_game_state.time
      else time in
    (
      original time,
      if (player_num == g.gn_our_playernum) && connected
          then record g {
            our_game_state = record g.our_game_state {
              stick_x = u8 stick_x;
              stick_y = u8 stick_y;
              flags =
                  bit_or (clear_flag g.our_game_state.flags gn_flag_button)
                    (bit_and button gn_flag_button);
              time = time;
            };
          }
          else g,
    )

-- The fields of the object `a0` that hCueSetup uses: the branch at 0x180, and the words at 0x214
-- and 0x220.
pub record Cue : Type 0 where
  pub branch : ℕ
  pub is_set : ℕ
  pub cue : ℕ

-- hCueSetup, of an object. `original` is the game's function, of the time and the object, and
-- `static_branch if_true` the address of static_cue_branch with its field `if_true`.
unfoldable pub cue_setup :
    (original : ℕ → Cue → ℕ × Cue) (static_branch : ℕ → ℕ) (time : ℕ)
    → Cue
    → GameNet
    → ℕ × Cue × GameNet
cue_setup original static_branch time a g =
    let connected = g.gn_state == gn_connected in
    let next_cue = g.remote_game_state.next_cue in
    let did_thing = (g.gn_remote_playernum == 0) && (connected && ltb 0 next_cue) in
    let (ret, b) =
      if did_thing
      then original g.remote_game_state.time (record a { branch = static_branch next_cue })
      else original time a in
    let b = if did_thing then record b { branch = a.branch } else b in
    let with_cue =
      λ (n : ℕ). record g { our_game_state = record g.our_game_state { next_cue = n } } in
    (
      ret,
      b,
      if not (ret == 0) && connected
          then with_cue (u8 b.cue)
          else if (a.is_set == 0) && (not (b.is_set == 0) && connected)
          then with_cue 0
          else g,
    )
