-- ===== src/Net.antt =====
-- The globals of src/networking.c, src/game_net.c and src/logging.c, and the environment that the
-- code runs in.
use net_gitaroo.Common.{Option, ℕ, ◌+◌}
use net_gitaroo.Packets.{Pool, Ptr}
use net_gitaroo.Bytes.{HwAddr, IpAddr}

-- What the code takes from outside: PS2_CLOCKS_PER_SEC, the readings of ps2_clock() and rand()
-- in the order in which they are made, what the uninitialised local of AllocTxPacket holds, and
-- NETMAN_NETIF_FRAME_SIZE.
pub record Env : Type 0 where
  pub clocks_per_sec : ℕ
  pub clock : ℕ → ℕ
  pub random : ℕ → ℕ
  pub uninit : Pool → Ptr
  pub frame_size : ℕ

-- struct dhcp_state
pub record DhcpState : Type 0 where
  pub start_time : ℕ
  pub last_req_time : ℕ
  pub num_retries : ℕ
  pub dhcp_server_ip : IpAddr
  pub dhcp_server_hwaddr : HwAddr
  pub xid_lower : ℕ
  pub xid_upper : ℕ
  pub state : ℕ

-- struct game_state; the floats are their bit patterns
pub record GameState : Type 0 where
  pub seq_num : ℕ
  pub score : ℕ
  pub health : ℕ
  pub angle_accuracy : ℕ
  pub time : ℕ
  pub attack_accum : ℕ
  pub stick_x : ℕ
  pub stick_y : ℕ
  pub flags : ℕ
  pub next_cue : ℕ
  pub ctr_miss : ℕ
  pub ctr_ok : ℕ
  pub ctr_good : ℕ
  pub ctr_great : ℕ
  pub in_game : ℕ
  pub mm_screen : ℕ
  pub mm_song : ℕ
  pub mm_character : ℕ
  pub mm_ready : ℕ

-- GN_IDLE to GN_CONNECTED
abbrev pub gn_idle : ℕ
gn_idle = 0

abbrev pub gn_connecting_arp : ℕ
gn_connecting_arp = 1

abbrev pub gn_connecting : ℕ
gn_connecting = 2

abbrev pub gn_hosting : ℕ
gn_hosting = 3

abbrev pub gn_connected : ℕ
gn_connected = 4

-- The globals of src/game_net.c.
pub record GameNet : Type 0 where
  pub gn_remote_ip : IpAddr
  pub gn_remote_ip_or_gateway : IpAddr
  pub gn_remote_hwaddr : HwAddr
  pub gn_remote_port : ℕ
  pub gn_src_port : ℕ
  pub gn_state : ℕ
  pub gn_last_send : ℕ
  pub gn_our_playernum : ℕ
  pub gn_remote_playernum : ℕ
  pub gn_ingame : ℕ
  pub gn_tryagain : ℕ
  pub our_game_state : GameState
  pub remote_game_state : GameState
  pub gn_last_attack_accum : ℕ
  pub gn_last_miss_ctr : ℕ
  pub gn_last_ok_ctr : ℕ
  pub gn_last_good_ctr : ℕ
  pub gn_last_great_ctr : ℕ

-- The globals of src/logging.c.
pub record Logging : Type 0 where
  pub logging_cip : IpAddr
  pub logging_chwaddr : HwAddr
  pub logging_cport : ℕ

-- Everything that the network code keeps; `clock_reads` and `random_reads` count the calls of
-- ps2_clock() and rand().
pub record Net : Type 0 where
  pub pool : Pool
  pub our_hwaddr : HwAddr
  pub our_ip : IpAddr
  pub gateway_ip : IpAddr
  pub subnet_mask : IpAddr
  pub ip_id_ctr : ℕ
  pub link_up : ℕ
  pub dhcp_holder : Option DhcpState
  pub game : GameNet
  pub logging : Logging
  pub clock_reads : ℕ
  pub random_reads : ℕ

-- ps2_clock()
abbrev pub read_clock : Env → Net → ℕ × Net
read_clock env s = (env.clock s.clock_reads, record s { clock_reads = s.clock_reads + 1 })

-- rand()
abbrev pub read_random : Env → Net → ℕ × Net
read_random env s = (env.random s.random_reads, record s { random_reads = s.random_reads + 1 })

-- NET_PRIORITY_*: a smaller number is served before a larger one.
abbrev pub net_priority_dhcp : ℕ
net_priority_dhcp = 0

abbrev pub net_priority_game : ℕ
net_priority_game = 1

abbrev pub net_priority_arp : ℕ
net_priority_arp = 2

abbrev pub net_priority_logging : ℕ
net_priority_logging = 3

abbrev pub game_port : ℕ
game_port = 13437

abbrev pub logging_port : ℕ
logging_port = 22577
