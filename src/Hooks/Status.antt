-- ===== src/Hooks/Status.antt =====
-- hUpdatePlayerStatus of src/game_net.c.
use net_gitaroo.Common.{List, [], if◌then◌else◌, not, u8, ℕ, ◌%◌, ◌++◌, ◌+◌, ◌-◌, ◌==◌, ◌^◌, ◌∷◌}
use net_gitaroo.Net.{GameNet, GameState, gn_connected}
use net_gitaroo.Menu.Data.{Fpu}

-- PlayerStatusResult
pub record StatusResult : Type 0 where
  pub a : ℕ
  pub b : ℕ
  pub miss_flag : ℕ
  pub hit_type : ℕ

-- The fields of a health struct: the words at 0x90 and 0x170 (floats), 156 and 0xa0.
pub record Health : Type 0 where
  pub base : ℕ
  pub addition : ℕ
  pub score : ℕ
  pub player_num : ℕ

-- What the hook and the game's function share: the four toasts, the two health structs, the
-- result, and the toasts that were shown.
pub record Status : Type 0 where
  pub toasts : ℕ → ℕ
  pub health : Health
  pub other_health : Health
  pub result : StatusResult
  pub shown : List ℕ

-- The game's functions: UpdatePlayerStatus, AddHealth, SubtractHealth and AdjustScore.
pub record StatusCalls : Type 0 where
  pub update : Status → Status
  pub add_health : Health → ℕ → Health
  pub subtract_health : Health → ℕ → Health
  pub adjust_score : Health → ℕ → Health

-- ShowToast(toast), and the result of a hit of the given type
abbrev show : (toast hit_type miss_flag : ℕ) → Status → Status
show toast hit_type miss_flag t = record t {
  shown = t.shown ++ (toast ∷ []);
  result = record t.result { hit_type = hit_type; miss_flag = miss_flag };
}

-- One hit of the remote player that has not been shown yet, if there is one.
unfoldable pub show_hit : GameNet → Status → GameNet × Status
show_hit g t =
    let r = g.remote_game_state in
    if not (r.ctr_miss == g.gn_last_miss_ctr)
    then (record g { gn_last_miss_ctr = u8 (g.gn_last_miss_ctr + 1) }, show (t.toasts 0) 0 1 t)
    else if not (r.ctr_ok == g.gn_last_ok_ctr)
    then (record g { gn_last_ok_ctr = u8 (g.gn_last_ok_ctr + 1) }, show (t.toasts 1) 1 0 t)
    else if not (r.ctr_good == g.gn_last_good_ctr)
    then (record g { gn_last_good_ctr = u8 (g.gn_last_good_ctr + 1) }, show (t.toasts 2) 2 0 t)
    else if not (r.ctr_great == g.gn_last_great_ctr)
    then (record g { gn_last_great_ctr = u8 (g.gn_last_great_ctr + 1) }, show (t.toasts 3) 3 0 t)
    else (g, t)

-- The score and the health of the remote player; 0.0001f.
unfoldable pub follow_status : Fpu → StatusCalls → GameNet → Status → Status
follow_status fpu game g t =
    let r = g.remote_game_state in
    let h = t.health in
    let h =
      if h.score == r.score
      then h
      else game.adjust_score h ((r.score + 2 ^ 32 - h.score) % 2 ^ 32) in
    let health = fpu.add h.base h.addition in
    record t {
      health =
          if fpu.lt (fpu.add health 0x38d1b717) r.health
          then game.add_health h (fpu.sub r.health health)
          else if fpu.lt r.health (fpu.sub health 0x38d1b717)
          then game.subtract_health h (fpu.sub health r.health)
          else h;
    }

-- The branch for the remote player. The game's function sees no toasts, and its changes of the
-- two additions are taken back; hit_type is -1 until a hit is shown.
unfoldable pub update_remote_status : Fpu → StatusCalls → GameNet → Status → GameNet × Status
update_remote_status fpu game g t =
    let u = game.update (record t { toasts = λ i. 0 }) in
    let u = record u {
      toasts = t.toasts;
      health = record u.health { addition = t.health.addition };
      other_health = record u.other_health { addition = t.other_health.addition };
      result = record { a = 0; b = 0; miss_flag = 0; hit_type = 2 ^ 32 - 1 };
    } in
    let (g, u) = show_hit g u in (g, follow_status fpu game g u)

-- The hits of our player, counted for the remote console.
unfoldable pub count_hit : ℕ → GameState → GameState
count_hit hit_type o =
    if hit_type == 0
    then record o { ctr_miss = u8 (o.ctr_miss + 1) }
    else if hit_type == 1
    then record o { ctr_ok = u8 (o.ctr_ok + 1) }
    else if hit_type == 2
    then record o { ctr_good = u8 (o.ctr_good + 1) }
    else if hit_type == 3
    then record o { ctr_great = u8 (o.ctr_great + 1) }
    else o

-- The branch for our player.
unfoldable pub update_our_status : Fpu → StatusCalls → GameNet → Status → GameNet × Status
update_our_status fpu game g t =
    let attack = g.remote_game_state.attack_accum in
    let attacked = not (fpu.eq attack g.gn_last_attack_accum) in
    let t =
      if attacked
      then record t {
        health = game.subtract_health t.health (fpu.sub attack g.gn_last_attack_accum);
      }
      else t in
    let last = if attacked then attack else g.gn_last_attack_accum in
    let before = t.other_health.addition in
    let u = game.update t in
    let after = u.other_health.addition in
    let o = g.our_game_state in
    let accum =
      if fpu.lt after before
      then fpu.add o.attack_accum (fpu.sub before after)
      else o.attack_accum in
    (
      record g {
        gn_last_attack_accum = last;
        our_game_state = count_hit u.result.hit_type (record o {
          attack_accum = accum;
          score = u.health.score;
          health = fpu.add u.health.base u.health.addition;
        });
      },
      u,
    )

-- hUpdatePlayerStatus
unfoldable pub update_player_status : Fpu → StatusCalls → GameNet → Status → GameNet × Status
update_player_status fpu game g t =
    if not (g.gn_state == gn_connected)
    then (g, game.update t)
    else if t.health.player_num == g.gn_remote_playernum
    then update_remote_status fpu game g t
    else if t.health.player_num == g.gn_our_playernum
    then update_our_status fpu game g t
    else (g, game.update t)
