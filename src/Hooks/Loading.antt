-- ===== src/Hooks/Loading.antt =====
-- hMultiPlayerGame, hFinishLoading and hTryAgainScreen of src/game_net.c. The game's functions and
-- what happens to the globals while the thread sleeps are given.
use net_gitaroo.Common.{if◌then◌else◌, ltb, not, suc, zero, ℕ, ◌&&◌, ◌+◌, ◌==◌}
use net_gitaroo.Net.{Env, GameNet, Net, gn_connected}
use net_gitaroo.GameNet.Send.{PadInput, send_game_state, with_in_game}

abbrev with_game : (GameNet → GameNet) → Net → Net
with_game f s = record s { game = f s.game }

-- hMultiPlayerGame; `original` is the game's loop with all that happens meanwhile.
unfoldable pub multi_player_game : Env → PadInput → (original : Net → ℕ × Net) → Net → ℕ × Net
multi_player_game env pad original s =
    let s = with_game (λ g. record g { gn_ingame = 1 }) s in
    let s = if s.game.gn_state == gn_connected then with_game (λ g. with_in_game g 1) s else s in
    let (ret, s) = original (send_game_state env pad s) in
    (
      ret,
      with_game
          (λ g. record g {
            our_game_state = record g.our_game_state { in_game = 0; mm_screen = 2; mm_ready = 0 };
            gn_ingame = 0;
          })
          s,
    )

-- The loop of hFinishLoading that waits for the remote player: `sleep n` is what happens to the
-- globals during its sleep when there are `n` sleeps more to be tried, and `ctr` counts the
-- sleeps since our state was sent.
unfoldable pub wait_for_remote :
    ℕ → Env → PadInput → (sleep : ℕ → Net → Net) → (ctr : ℕ) → Net → Net
wait_for_remote zero env pad sleep ctr s = s
wait_for_remote (suc n) env pad sleep ctr s =
    let t = sleep n s in
    let due = ctr + 1 == 60 in
    let rest =
      wait_for_remote n env pad sleep (if due then 0 else ctr + 1)
        (if due then send_game_state env pad t else t) in
    if ltb s.game.remote_game_state.in_game 2 then rest else s

abbrev set_loading : ℕ → Net → Net
set_loading n s =
    if not (s.game.gn_ingame == 0) && (s.game.gn_state == gn_connected)
    then with_game (λ g. with_in_game g n) s
    else s

-- hFinishLoading, up to the call of the game's function; `tries` bounds the loop.
unfoldable pub finish_loading : (tries : ℕ) → Env → PadInput → (sleep : ℕ → Net → Net) → Net → Net
finish_loading tries env pad sleep s =
    let s = send_game_state env pad (set_loading 2 s) in
    let s =
      if not (s.game.gn_ingame == 0)
        && ((s.game.gn_state == gn_connected) && ltb s.game.remote_game_state.in_game 2)
      then wait_for_remote tries env pad sleep 0 s
      else s in
    send_game_state env pad (set_loading 3 s)

-- hTryAgainScreen; `original` is the game's screen with all that happens meanwhile.
unfoldable pub try_again_screen : (original : Net → ℕ × Net) → Net → ℕ × Net
try_again_screen original s =
    let (ret, s) = original (with_game (λ g. record g { gn_tryagain = 1 }) s) in
    let o = s.game.our_game_state in
    (
      ret,
      with_game
          (λ g. record g {
            gn_tryagain = 0;
            our_game_state =
                if ret == 0
                then record o { next_cue = 0; in_game = 0; mm_screen = 2 }
                else record o { next_cue = 0; in_game = 3 };
          })
          s,
    )
