-- ===== src/GameNet/Wire.antt =====
-- What one console sends of its game state, the other reads.
use net_gitaroo.Common.{arith, u8, ℕ, ◌*◌, ◌+◌, ◌/◌, ◌<◌, ◌^◌, ◌≡◌}
use net_gitaroo.Net.{GameState}
use net_gitaroo.Bytes.{clear_bytes, load16, load32, store16, store32, store8}
use net_gitaroo.Packets.{Bytes}
use net_gitaroo.GameNet.State.{load_game_state, store_game_state}

-- Every field fits its C type.
pub record Fits (g : GameState) : Type 0 where
  pub seq_num : g.seq_num < 2 ^ 32
  pub score : g.score < 2 ^ 32
  pub health : g.health < 2 ^ 32
  pub angle_accuracy : g.angle_accuracy < 2 ^ 32
  pub time : g.time < 2 ^ 32
  pub attack_accum : g.attack_accum < 2 ^ 32
  pub stick_x : g.stick_x < 2 ^ 8
  pub stick_y : g.stick_y < 2 ^ 8
  pub flags : g.flags < 2 ^ 8
  pub next_cue : g.next_cue < 2 ^ 8
  pub ctr_miss : g.ctr_miss < 2 ^ 8
  pub ctr_ok : g.ctr_ok < 2 ^ 8
  pub ctr_good : g.ctr_good < 2 ^ 8
  pub ctr_great : g.ctr_great < 2 ^ 8
  pub in_game : g.in_game < 2 ^ 8
  pub mm_screen : g.mm_screen < 2 ^ 8
  pub mm_song : g.mm_song < 2 ^ 8
  pub mm_character : g.mm_character < 2 ^ 8
  pub mm_ready : g.mm_ready < 2 ^ 8

-- The four bytes of a word, put together again, and a byte.
word :
    (v : ℕ)
    → v < 2 ^ 32
    → u8 v + 2 ^ 8 * u8 (v / 2 ^ 8) + 2 ^ 16 * (u8 (v / 2 ^ 16) + 2 ^ 8 * u8 (v / 2 ^ 16 / 2 ^ 8))
      ≡ v
word v h = omega arith

byte : (v : ℕ) → v < 2 ^ 8 → u8 v ≡ v
byte v h = omega arith

-- A game state whose fields fit their types is read back from the bytes that hold it.
pub load_game_state-store_game_state :
    (d : Bytes) (g : GameState) → Fits g → load_game_state (store_game_state d 44 g) 44 ≡ g
unfolding load_game_state store_game_state load32 store32 load16 store16 store8 clear_bytes
load_game_state-store_game_state d g f = λ i. record {
  seq_num = word g.seq_num f.seq_num i;
  score = word g.score f.score i;
  health = word g.health f.health i;
  angle_accuracy = word g.angle_accuracy f.angle_accuracy i;
  time = word g.time f.time i;
  attack_accum = word g.attack_accum f.attack_accum i;
  stick_x = byte g.stick_x f.stick_x i;
  stick_y = byte g.stick_y f.stick_y i;
  flags = byte g.flags f.flags i;
  next_cue = byte g.next_cue f.next_cue i;
  ctr_miss = byte g.ctr_miss f.ctr_miss i;
  ctr_ok = byte g.ctr_ok f.ctr_ok i;
  ctr_good = byte g.ctr_good f.ctr_good i;
  ctr_great = byte g.ctr_great f.ctr_great i;
  in_game = byte g.in_game f.in_game i;
  mm_screen = byte g.mm_screen f.mm_screen i;
  mm_song = byte g.mm_song f.mm_song i;
  mm_character = byte g.mm_character f.mm_character i;
  mm_ready = byte g.mm_ready f.mm_ready i;
}
