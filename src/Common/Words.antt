-- ===== src/Common/Words.antt =====
-- Fixed-width words of C as native numbers, and the byte-order macros of src/networking.h.
use Prim.Native.Nat.{ℕ, ◌+◌, ◌-◌, ◌*◌, ◌/◌, ◌%◌, ◌^◌, ◌<◌}
use mathlib.Core.Path.{◌≡◌}
use native.Mathlib.Omega.{arith}

-- Casts to the fixed widths.
abbrev pub u8 : ℕ → ℕ
u8 n = n % 2 ^ 8

abbrev pub u16 : ℕ → ℕ
u16 n = n % 2 ^ 16

abbrev pub u32 : ℕ → ℕ
u32 n = n % 2 ^ 32

-- `~x` of a 16-bit value, cut to 16 bits.
abbrev pub not16 : ℕ → ℕ
not16 x = 2 ^ 16 - 1 - u16 x

-- HTONS and NTOHS: the two low bytes swapped. The two fields that `|` joins are disjoint.
unfoldable pub htons : ℕ → ℕ
htons x = (x % 2 ^ 8) * 2 ^ 8 + (x / 2 ^ 8) % 2 ^ 8

pub htons-lt : (x : ℕ) → htons x < 2 ^ 16
unfolding htons
htons-lt x = omega arith

-- Swapping twice gives the low 16 bits back.
pub htons-htons : (x : ℕ) → htons (htons x) ≡ u16 x
unfolding htons
htons-htons x = omega arith

-- `~HTONS(c)`, read back in network order, is the one's complement of `c`.
pub htons-not16 : (c : ℕ) → c < 2 ^ 16 → htons (not16 (htons c)) ≡ 65535 - c
unfolding htons
htons-not16 c h = omega arith

pub not16-htons : (c : ℕ) → not16 (htons c) ≡ htons (not16 c)
unfolding htons
not16-htons c = omega arith

pub htons-u16 : (x : ℕ) → htons (u16 x) ≡ htons x
unfolding htons
htons-u16 x = omega arith
