-- ===== src/GameNet/State.antt =====
-- struct game_state on the wire, its flags, and reset_game_net of src/game_net.c.
use net_gitaroo.Common.{Bool, bit_and, bit_or, not, ℕ, ◌+◌, ◌-◌, ◌==◌}
use net_gitaroo.Bytes.{clear_bytes, load32, store32, store8}
use net_gitaroo.Net.{GameNet, GameState}
use net_gitaroo.Packets.{Bytes}

abbrev pub gn_packetid_connect : ℕ
gn_packetid_connect = 33866

abbrev pub gn_packetid_ack : ℕ
gn_packetid_ack = 8478

abbrev pub gn_packetid_gamestate : ℕ
gn_packetid_gamestate = 48347

abbrev pub gn_packetid_fin : ℕ
gn_packetid_fin = 17844

abbrev pub gn_flag_button : ℕ
gn_flag_button = 7

abbrev pub gn_flag_handover : ℕ
gn_flag_handover = 8

abbrev pub gn_flag_handover_ack : ℕ
gn_flag_handover_ack = 16

-- `flags & f`, `flags |= f` and `flags &= ~f` of an unsigned char
abbrev pub has_flag : ℕ → ℕ → Bool
has_flag flags f = not (bit_and flags f == 0)

abbrev pub set_flag : ℕ → ℕ → ℕ
set_flag flags f = bit_or flags f

abbrev pub clear_flag : ℕ → ℕ → ℕ
clear_flag flags f = bit_and flags (255 - f)

-- `*(struct game_state *)p = gs`, with the three bytes of padding behind the last field, which are
-- 0 in the static object.
unfoldable pub store_game_state : Bytes → ℕ → GameState → Bytes
store_game_state d p g =
    let d = store32 (store32 (store32 d p g.seq_num) (p + 4) g.score) (p + 8) g.health in
    let d =
      store32 (store32 (store32 d (p + 12) g.angle_accuracy) (p + 16) g.time) (p + 20)
        g.attack_accum in
    let d = store8 (store8 (store8 d (p + 24) g.stick_x) (p + 25) g.stick_y) (p + 26) g.flags in
    let d = store8 (store8 (store8 d (p + 27) g.next_cue) (p + 28) g.ctr_miss) (p + 29) g.ctr_ok in
    let d =
      store8 (store8 (store8 d (p + 30) g.ctr_good) (p + 31) g.ctr_great) (p + 32) g.in_game in
    let d =
      store8 (store8 (store8 d (p + 33) g.mm_screen) (p + 34) g.mm_song) (p + 35) g.mm_character in
    clear_bytes (store8 d (p + 36) g.mm_ready) (p + 37) 3

-- `*(struct game_state *)p`
unfoldable pub load_game_state : Bytes → ℕ → GameState
load_game_state d p = record {
  seq_num = load32 d p;
  score = load32 d (p + 4);
  health = load32 d (p + 8);
  angle_accuracy = load32 d (p + 12);
  time = load32 d (p + 16);
  attack_accum = load32 d (p + 20);
  stick_x = d (p + 24);
  stick_y = d (p + 25);
  flags = d (p + 26);
  next_cue = d (p + 27);
  ctr_miss = d (p + 28);
  ctr_ok = d (p + 29);
  ctr_good = d (p + 30);
  ctr_great = d (p + 31);
  in_game = d (p + 32);
  mm_screen = d (p + 33);
  mm_song = d (p + 34);
  mm_character = d (p + 35);
  mm_ready = d (p + 36);
}

-- `(sizeof(struct game_state) + 3) & ~1`
abbrev pub game_payload : ℕ
game_payload = 42

-- reset_game_net
unfoldable pub reset_game_net : GameNet → GameNet
reset_game_net g = record g {
  our_game_state = record g.our_game_state {
    seq_num = 0;
    in_game = 0;
    mm_screen = 2;
    attack_accum = 0;
    ctr_good = 0;
    ctr_great = 0;
    ctr_ok = 0;
    ctr_miss = 0;
    flags = 0;
  };
  remote_game_state = record g.remote_game_state {
    seq_num = 0;
    in_game = 0;
    mm_screen = 2;
    attack_accum = 0;
    ctr_good = 0;
    ctr_great = 0;
    ctr_ok = 0;
    ctr_miss = 0;
    flags = 0;
  };
  gn_last_attack_accum = 0;
  gn_last_miss_ctr = 0;
  gn_last_ok_ctr = 0;
  gn_last_good_ctr = 0;
  gn_last_great_ctr = 0;
}
