-- ===== src/Hooks/Laws.antt =====
-- What the hooks of src/game_net.c show of the remote player.
use net_gitaroo.Common.{
  Bool, Bool-cases, [], ap, arith, bit_and, bit_or, false, if◌then◌else◌, inl, inr, length,
  length-append, refl, suc, true, u8, zero, ℕ, ◌%◌, ◌++◌, ◌+◌, ◌-◌, ◌<◌, ◌==◌, ◌∙◌, ◌∷◌, ◌≡◌, ◌≤◌,
}
use net_gitaroo.Net.{GameNet, gn_connected}
use net_gitaroo.Hooks.Status.{Status, show_hit}
use net_gitaroo.Hooks.Pads.{fake_pad_get_button, handle_multi_player_inputs, remote_button}
use net_gitaroo.GameNet.State.{clear_flag, gn_flag_button}

-- The hits of the remote player that have not been shown: each counter wraps at 256.
abbrev pub hits_behind : GameNet → ℕ
hits_behind g =
    let r = g.remote_game_state in
    (r.ctr_miss + 256 - g.gn_last_miss_ctr) % 256
    + (r.ctr_ok + 256 - g.gn_last_ok_ctr) % 256
    + (r.ctr_good + 256 - g.gn_last_good_ctr) % 256
    + (r.ctr_great + 256 - g.gn_last_great_ctr) % 256

-- Every counter is an unsigned char.
abbrev pub CountersFit : GameNet → Type 0
CountersFit g =
    let r = g.remote_game_state in
    (r.ctr_miss < 256)
    × (r.ctr_ok < 256)
    × (r.ctr_good < 256)
    × (r.ctr_great < 256)
    × (g.gn_last_miss_ctr < 256)
    × (g.gn_last_ok_ctr < 256)
    × (g.gn_last_good_ctr < 256)
    × (g.gn_last_great_ctr < 256)

-- One counter, before and after it takes a step towards the remote player's.
step_behind :
    (r l : ℕ)
    → r < 256
    → l < 256
    → (r == l) ≡ false
    → (1 ≤ (r + 256 - l) % 256) × ((r + 256 - u8 (l + 1)) % 256 ≡ (r + 256 - l) % 256 - 1)
step_behind r l h k ne = (ground arith, ground arith)

level : (r l : ℕ) → r < 256 → (r == l) ≡ true → (r + 256 - l) % 256 ≡ 0
level r l h e = ground arith

-- A remote player's hit that has not been shown is shown, and one only: while there are any, each
-- update shows one toast and reports a hit, and leaves one hit fewer; then it shows none and
-- changes nothing.
pub show_hit-catches_up :
    (g : GameNet) (t : Status)
    → CountersFit g
    → let (h, u) = show_hit g t in
      (hits_behind h ≡ hits_behind g - 1)
      × (length u.shown ≡ length t.shown + (if hits_behind g == 0 then 0 else 1))
      × CountersFit h
unfolding show_hit
show_hit-catches_up g t f =
    let r = g.remote_game_state in
    let (f0, f1, f2, f3, l0, l1, l2, l3) = f in
    let shown : (toast : ℕ) → length (t.shown ++ (toast ∷ [])) ≡ length t.shown + 1 =
      λ toast. length-append t.shown (toast ∷ []) in
    let small : (n : ℕ) → u8 n < 256 = λ n. omega arith in
    elim (Bool-cases (r.ctr_miss == g.gn_last_miss_ctr)) [
      | inr a ↦
          let (left, less) = step_behind r.ctr_miss g.gn_last_miss_ctr f0 l0 a in
          rw a (
            omega (arith, left, less),
            ground (arith, shown (t.toasts 0), left),
            (f0, f1, f2, f3, small (g.gn_last_miss_ctr + 1), l1, l2, l3),
          )
      | inl a ↦ rw a (elim (Bool-cases (r.ctr_ok == g.gn_last_ok_ctr)) [
        | inr b ↦
            let (left, less) = step_behind r.ctr_ok g.gn_last_ok_ctr f1 l1 b in
            rw b (
              omega (arith, left, less),
              ground (arith, shown (t.toasts 1), left),
              (f0, f1, f2, f3, l0, small (g.gn_last_ok_ctr + 1), l2, l3),
            )
        | inl b ↦ rw b (elim (Bool-cases (r.ctr_good == g.gn_last_good_ctr)) [
          | inr c ↦
              let (left, less) = step_behind r.ctr_good g.gn_last_good_ctr f2 l2 c in
              rw c (
                omega (arith, left, less),
                ground (arith, shown (t.toasts 2), left),
                (f0, f1, f2, f3, l0, l1, small (g.gn_last_good_ctr + 1), l3),
              )
          | inl c ↦ rw c (elim (Bool-cases (r.ctr_great == g.gn_last_great_ctr)) [
            | inr d ↦
                let (left, less) = step_behind r.ctr_great g.gn_last_great_ctr f3 l3 d in
                rw d (
                  omega (arith, left, less),
                  ground (arith, shown (t.toasts 3), left),
                  (f0, f1, f2, f3, l0, l1, l2, small (g.gn_last_great_ctr + 1)),
                )
            | inl d ↦
                let none_left : hits_behind g ≡ 0 = omega (
                  arith,
                  level r.ctr_miss g.gn_last_miss_ctr f0 a,
                  level r.ctr_ok g.gn_last_ok_ctr f1 b,
                  level r.ctr_good g.gn_last_good_ctr f2 c,
                  level r.ctr_great g.gn_last_great_ctr f3 d,
                ) in
                rw d (omega (arith, none_left), ground (arith, none_left), f)
          ])
        ])
      ])
    ]

-- A Boolean test that holds of every number below `n`, by evaluation.
every : (n : ℕ) → (ℕ → Bool) → Bool
every zero test = true
every (suc n) test = if test n then every n test else false

every-at : (n i : ℕ) (test : ℕ → Bool) → every n test ≡ true → i < n → test i ≡ true
unfolding every
every-at zero i test all h = absurd (omega arith)
every-at (suc n) i test all h = ground (arith, every-at n i test)

-- The number of the button survives in the flags.
button_bits :
    every 256 (λ flags. every 5 (λ b.
      bit_and (bit_or (clear_flag flags gn_flag_button) (bit_and b gn_flag_button)) gn_flag_button
      == b))
    ≡ true
unfolding every
button_bits = refl

button_sent :
    (flags b : ℕ)
    → flags < 256
    → b < 5
    → bit_and (bit_or (clear_flag flags gn_flag_button) (bit_and b gn_flag_button)) gn_flag_button
      ≡ b
button_sent flags b h k = ground (arith, every-at 5 b _ (every-at 256 flags _ button_bits h) k)

-- A button held on one console is the button of the fake pad on the other, and no other one is:
-- the player's number `b` of a button (0 for none) that hHandleMultiPlayerInputs puts into our
-- flags is what FakePadGetButton finds in them as the remote player's, of the four buttons in a
-- game that goes on on both sides.
pub fake_pad-remote_button :
    (original : ℕ → ℕ) (time b stick_x stick_y : ℕ) (g h : GameNet)
    → b < 5
    → g.our_game_state.flags < 256
    → g.gn_state ≡ gn_connected
    → h.gn_state ≡ gn_connected
    → (h.gn_ingame == 0) ≡ false
    → h.gn_tryagain ≡ 0
    → let sent =
        (handle_multi_player_inputs original time b stick_x stick_y g.gn_our_playernum g).1 in
      h.remote_game_state ≡ sent.our_game_state
      → (h.remote_game_state.in_game == 4) ≡ false
      → (h.remote_game_state.in_game == 5) ≡ false
      → ((fake_pad_get_button 0x80 h).0 ≡ (if b == 1 then 1 else 0))
        × ((fake_pad_get_button 0x40 h).0 ≡ (if b == 2 then 1 else 0))
        × ((fake_pad_get_button 0x20 h).0 ≡ (if b == 3 then 1 else 0))
        × ((fake_pad_get_button 0x10 h).0 ≡ (if b == 4 then 1 else 0))
unfolding handle_multi_player_inputs fake_pad_get_button
fake_pad-remote_button original time b stick_x stick_y g h small fits gc hc ig ta same four five =
    let flags = g.our_game_state.flags in
    let sent : h.remote_game_state.flags
        ≡ bit_or (clear_flag flags gn_flag_button) (bit_and b gn_flag_button) =
      ap (λ o. o.flags) same ∙ ground (arith, gc) in
    let button : remote_button h ≡ b =
      ap (λ x. bit_and x gn_flag_button) sent ∙ button_sent flags b fits small in
    (ground (arith, button), ground (arith, button), ground (arith, button), ground (arith, button))
