-- ===== src/Bytes.antt =====
-- Loads and stores of the little-endian EE in the array of bytes of a packet buffer, and the
-- address types of src/networking.h with their macros.
pub mod Laws
use net_gitaroo.Common.{
  Bool, List, [], bit_and, if◌then◌else◌, leb, ltb, u8, ℕ, ◌&&◌, ◌*◌, ◌+◌, ◌/◌, ◌==◌, ◌^◌, ◌∷◌,
}
use net_gitaroo.Packets.{Bytes}

unfoldable pub store8 : Bytes → ℕ → ℕ → Bytes
store8 d o v a = if a == o then u8 v else d a

unfoldable pub load16 : Bytes → ℕ → ℕ
load16 d o = d o + 2 ^ 8 * d (o + 1)

unfoldable pub store16 : Bytes → ℕ → ℕ → Bytes
unfolding store8
store16 d o v = store8 (store8 d o v) (o + 1) (v / 2 ^ 8)

unfoldable pub load32 : Bytes → ℕ → ℕ
unfolding load16
load32 d o = load16 d o + 2 ^ 16 * load16 d (o + 2)

unfoldable pub store32 : Bytes → ℕ → ℕ → Bytes
unfolding store16
store32 d o v = store16 (store16 d o v) (o + 2) (v / 2 ^ 16)

-- memset(p, 0, n)
unfoldable pub clear_bytes : Bytes → (o n : ℕ) → Bytes
clear_bytes d o n a = if leb o a && ltb a (o + n) then 0 else d a

-- memcpy(p, xs, sizeof(xs))
unfoldable pub store_list : Bytes → ℕ → List ℕ → Bytes
store_list d o [] = d
store_list d o (x ∷ xs) = store_list (store8 d o x) (o + 1) xs

-- hwaddr_t and ipaddr_t, by their union's `shorts`
pub record HwAddr : Type 0 where
  pub s0 : ℕ
  pub s1 : ℕ
  pub s2 : ℕ

pub record IpAddr : Type 0 where
  pub s0 : ℕ
  pub s1 : ℕ

abbrev pub hw : ℕ → ℕ → ℕ → HwAddr
hw a b c = record { s0 = a; s1 = b; s2 = c }

abbrev pub ip : ℕ → ℕ → IpAddr
ip a b = record { s0 = a; s1 = b }

-- `bytes[i]` of the union: an address from its four bytes, and its bytes.
abbrev pub ip_of_bytes : ℕ → ℕ → ℕ → ℕ → IpAddr
ip_of_bytes a b c d = ip (a + 2 ^ 8 * b) (c + 2 ^ 8 * d)

abbrev pub ip_byte0 : IpAddr → ℕ
ip_byte0 a = u8 a.s0

abbrev pub ip_byte1 : IpAddr → ℕ
ip_byte1 a = u8 (a.s0 / 2 ^ 8)

abbrev pub ip_byte2 : IpAddr → ℕ
ip_byte2 a = u8 a.s1

abbrev pub ip_byte3 : IpAddr → ℕ
ip_byte3 a = u8 (a.s1 / 2 ^ 8)

-- HWADDR_EQ and IP_EQ
abbrev pub hwaddr_eq : HwAddr → HwAddr → Bool
hwaddr_eq a b = (a.s0 == b.s0) && ((a.s1 == b.s1) && (a.s2 == b.s2))

abbrev pub ip_eq : IpAddr → IpAddr → Bool
ip_eq a b = (a.s0 == b.s0) && (a.s1 == b.s1)

-- IP_MASK, by the halves of the union
unfoldable pub ip_mask : IpAddr → IpAddr → IpAddr
ip_mask a b = ip (bit_and a.s0 b.s0) (bit_and a.s1 b.s1)

unfoldable pub load_ip : Bytes → ℕ → IpAddr
unfolding load16
load_ip d o = ip (load16 d o) (load16 d (o + 2))

unfoldable pub store_ip : Bytes → ℕ → IpAddr → Bytes
unfolding store16
store_ip d o a = store16 (store16 d o a.s0) (o + 2) a.s1

unfoldable pub load_hw : Bytes → ℕ → HwAddr
unfolding load16
load_hw d o = hw (load16 d o) (load16 d (o + 2)) (load16 d (o + 4))

unfoldable pub store_hw : Bytes → ℕ → HwAddr → Bytes
unfolding store16
store_hw d o a = store16 (store16 (store16 d o a.s0) (o + 2) a.s1) (o + 4) a.s2

abbrev pub broadcast_hwaddr : HwAddr
broadcast_hwaddr = hw 0xffff 0xffff 0xffff

abbrev pub null_hwaddr : HwAddr
null_hwaddr = hw 0 0 0

abbrev pub ip_any : IpAddr
ip_any = ip 0 0

abbrev pub ip_broadcast : IpAddr
ip_broadcast = ip 0xffff 0xffff
