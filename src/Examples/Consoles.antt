-- ===== src/Examples/Consoles.antt =====
-- Concrete consoles: a host, a joining console and a connected player.
use net_gitaroo.Common.{none, ℕ, ◌*◌}
use net_gitaroo.Examples.Pools.{fresh_pool}
use net_gitaroo.Bytes.{IpAddr, hw, ip, ip_any, null_hwaddr}
use net_gitaroo.Net.{Env, GameState, Net, game_port, gn_connected, gn_connecting, gn_hosting}

abbrev pub console_env : Env
console_env = record {
  clocks_per_sec = 576000;
  clock = λ n. 1000000 * n;
  random = λ n. n;
  uninit = λ s. 0;
  frame_size = 1536;
}

abbrev pub blank_state : GameState
blank_state = record {
  seq_num = 7;
  score = 1200;
  health = 0;
  angle_accuracy = 0;
  time = 0;
  attack_accum = 0;
  stick_x = 10;
  stick_y = 20;
  flags = 0;
  next_cue = 0;
  ctr_miss = 0;
  ctr_ok = 0;
  ctr_good = 0;
  ctr_great = 0;
  in_game = 0;
  mm_screen = 2;
  mm_song = 3;
  mm_character = 1;
  mm_ready = 0;
}

-- A console in the given connection state.
abbrev pub console : (state : ℕ) (ours remote : IpAddr) (src_port remote_port : ℕ) → Net
console state ours remote src_port remote_port = record {
  pool = fresh_pool;
  our_hwaddr = hw 0x3412 0x7856 0xbc9a;
  our_ip = ours;
  gateway_ip = ip_any;
  subnet_mask = ip_any;
  ip_id_ctr = 0;
  link_up = 1;
  dhcp_holder = none;
  game = record {
    gn_remote_ip = remote;
    gn_remote_ip_or_gateway = remote;
    gn_remote_hwaddr = hw 1 2 3;
    gn_remote_port = remote_port;
    gn_src_port = src_port;
    gn_state = state;
    gn_last_send = 0;
    gn_our_playernum = 0;
    gn_remote_playernum = 1;
    gn_ingame = 0;
    gn_tryagain = 0;
    our_game_state = blank_state;
    remote_game_state = blank_state;
    gn_last_attack_accum = 0;
    gn_last_miss_ctr = 0;
    gn_last_ok_ctr = 0;
    gn_last_good_ctr = 0;
    gn_last_great_ctr = 0;
  };
  logging = record { logging_cip = ip_any; logging_chwaddr = null_hwaddr; logging_cport = 0 };
  clock_reads = 0;
  random_reads = 0;
}

abbrev pub host_ip : IpAddr
host_ip = ip 0x000a 0x0100

abbrev pub host : Net
host = console gn_hosting host_ip ip_any game_port 0

abbrev pub joiner : Net
joiner = console gn_connecting (ip 0x000a 0x0200) host_ip 50000 game_port

abbrev pub player : Net
player = console gn_connected host_ip (ip 0x000a 0x0200) game_port 50000
