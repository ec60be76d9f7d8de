-- ===== src/GameNet/Frames.antt =====
-- What `receive` reads of the datagrams that go to the remote player.
use net_gitaroo.Common.{
  ap, arith, htons, htons-htons, htons-lt, u8, ℕ, ◌*◌, ◌+◌, ◌/◌, ◌<◌, ◌^◌, ◌∙◌, ◌≡◌,
}
use net_gitaroo.Net.{GameNet, Net}
use net_gitaroo.GameNet.Wire.{Fits, load_game_state-store_game_state}
use net_gitaroo.Packets.{Bytes}
use net_gitaroo.Bytes.{
  HwAddr, IpAddr, clear_bytes, load16, load32, load_hw, load_ip, store16, store32, store8, store_hw,
  store_ip,
}
use net_gitaroo.Packet.Send.{datagram_bytes}
use net_gitaroo.Checksum.{finalize_udp_checksum}
use net_gitaroo.Packet.{ethernet_bytes, ip_bytes, ip_frame, udp_bytes}
use net_gitaroo.GameNet.Receive.{game_state_bytes, id_bytes, receive}
use net_gitaroo.GameNet.State.{game_payload, load_game_state, store_game_state}

-- Two 16-bit halves that a store wrote and a load reads back.
half : (v : ℕ) → v < 2 ^ 16 → u8 v + 2 ^ 8 * u8 (v / 2 ^ 8) ≡ v
half v h = omega arith

-- A port, through htons and back.
port : (v : ℕ) → v < 2 ^ 16 → htons (u8 (htons v) + 2 ^ 8 * u8 (htons v / 2 ^ 8)) ≡ v
port v h = let back = ap htons (half (htons v) (htons-lt v)) ∙ htons-htons v in omega (arith, back)

pub record FitsHeader (s : Net) : Type 0 where
  pub ip0 : s.our_ip.s0 < 2 ^ 16
  pub ip1 : s.our_ip.s1 < 2 ^ 16
  pub hw0 : s.our_hwaddr.s0 < 2 ^ 16
  pub hw1 : s.our_hwaddr.s1 < 2 ^ 16
  pub hw2 : s.our_hwaddr.s2 < 2 ^ 16

module _ (s : Net) (g : GameNet) (dst : IpAddr) (dst_hwaddr : HwAddr) (src_port dst_port id : ℕ)
    (d : Bytes) where
  unfoldable pub state_frame : Bytes
  state_frame =
      datagram_bytes s dst dst_hwaddr src_port dst_port game_payload (game_state_bytes id g) d

  module _ (h : FitsHeader s) (f : Fits g.our_game_state) (p : src_port < 2 ^ 16)
      (q : dst_port < 2 ^ 16) (i : id < 2 ^ 16) where
    pub receive-state_frame : receive state_frame 34 14 ≡ record {
      src_port = src_port;
      dst_port = dst_port;
      ptype = id;
      source_ip = s.our_ip;
      source_hwaddr = s.our_hwaddr;
      incoming = g.our_game_state;
    }
    unfolding state_frame receive finalize_udp_checksum udp_bytes ip_frame ip_bytes ethernet_bytes
        store_ip store_hw load_ip load_hw load_game_state store_game_state load32 store32 load16
        store16 store8 clear_bytes
    receive-state_frame = λ j. record {
      src_port = port src_port p j;
      dst_port = port dst_port q j;
      ptype = half id i j;
      source_ip = record { s0 = half s.our_ip.s0 h.ip0 j; s1 = half s.our_ip.s1 h.ip1 j };
      source_hwaddr = record {
        s0 = half s.our_hwaddr.s0 h.hw0 j;
        s1 = half s.our_hwaddr.s1 h.hw1 j;
        s2 = half s.our_hwaddr.s2 h.hw2 j;
      };
      incoming = load_game_state-store_game_state d g.our_game_state f j;
    }

module _ (s : Net) (g : GameNet) (dst : IpAddr) (dst_hwaddr : HwAddr) (src_port dst_port id : ℕ)
    (d : Bytes) where
  unfoldable pub id_frame : Bytes
  id_frame = datagram_bytes s dst dst_hwaddr src_port dst_port 2 (id_bytes id g) d

  pub receive-id_frame :
      FitsHeader s
      → src_port < 2 ^ 16
      → dst_port < 2 ^ 16
      → id < 2 ^ 16
      → receive id_frame 34 14 ≡ record {
        src_port = src_port;
        dst_port = dst_port;
        ptype = id;
        source_ip = s.our_ip;
        source_hwaddr = s.our_hwaddr;
        incoming = load_game_state id_frame 44;
      }
  unfolding id_frame receive finalize_udp_checksum udp_bytes ip_frame ip_bytes ethernet_bytes
      store_ip store_hw load_ip load_hw load16 store16 store8
  receive-id_frame h p q i = λ j. record {
    src_port = port src_port p j;
    dst_port = port dst_port q j;
    ptype = half id i j;
    source_ip = record { s0 = half s.our_ip.s0 h.ip0 j; s1 = half s.our_ip.s1 h.ip1 j };
    source_hwaddr = record {
      s0 = half s.our_hwaddr.s0 h.hw0 j;
      s1 = half s.our_hwaddr.s1 h.hw1 j;
      s2 = half s.our_hwaddr.s2 h.hw2 j;
    };
    incoming = load_game_state id_frame 44;
  }
