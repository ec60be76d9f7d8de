-- ===== src/Bytes/Laws.antt =====
-- What a load reads after a store.
use net_gitaroo.Common.{arith, u16, ℕ, ◌+◌, ◌<◌, ◌^◌, ◌≡◌, ◌≤◌, ◌⊎◌}
use net_gitaroo.Packets.{Bytes}
use net_gitaroo.Bytes.{load16, store16, store8}

-- Every entry is a byte.
abbrev pub IsBytes : Bytes → Type 0
IsBytes d = (a : ℕ) → d a < 2 ^ 8

pub store8-IsBytes : {d : Bytes} (o v : ℕ) → IsBytes d → IsBytes (store8 d o v)
unfolding store8
store8-IsBytes o v h a = ground (arith, h a)

pub store16-IsBytes : {d : Bytes} (o v : ℕ) → IsBytes d → IsBytes (store16 d o v)
unfolding store16
store16-IsBytes o v h a = ground (arith, h a)

pub load16-lt : {d : Bytes} (o : ℕ) → IsBytes d → load16 d o < 2 ^ 16
unfolding load16
load16-lt o h = omega (arith, h o, h (o + 1))

pub load16-store16 : (d : Bytes) (o v : ℕ) → load16 (store16 d o v) o ≡ u16 v
unfolding load16 store16
load16-store16 d o v = ground arith

pub load16-store16_ne :
    (d : Bytes) (o p v : ℕ) → ((p + 2 ≤ o) ⊎ (o + 2 ≤ p)) → load16 (store16 d o v) p ≡ load16 d p
unfolding load16 store16
load16-store16_ne d o p v h = ground arith
