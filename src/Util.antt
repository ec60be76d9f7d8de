-- ===== src/Util.antt =====
-- src/util.c: the comparison and division routines that the game's binary lacks; and CreateHook of
-- src/hook.c.
pub mod Laws
pub mod Hooked
pub mod Queues
pub mod QueueList
pub mod QueueSteps
pub mod QueueRuns
use net_gitaroo.Common.{
  if◌then◌else◌, ltb, mem, not, suc, u32, zero, ℕ, ◌%◌, ◌&&◌, ◌*◌, ◌+◌, ◌-◌, ◌/◌, ◌==◌, ◌^◌,
}
use net_gitaroo.Packets.{Bytes}
use net_gitaroo.IpVisual.{put_at}

-- memcmp, of the bytes at `p` and at `q`
unfoldable pub memcmp : (length : ℕ) → Bytes → (p q : ℕ) → ℕ
memcmp zero d p q = 0
memcmp (suc length) d p q =
    let rest = memcmp length d (p + 1) (q + 1) in if d p == d q then rest else 1

-- strncmp; a negative result is taken modulo 2^32.
unfoldable pub strncmp : (n : ℕ) → Bytes → (p q : ℕ) → ℕ
strncmp zero d p q = 0
strncmp (suc n) d p q =
    let rest = strncmp n d (p + 1) (q + 1) in
    if not (d p == 0) && (d p == d q) then rest else (d p + 2 ^ 32 - d q) % 2 ^ 32

-- __udivdi3, for a divisor that is not 0 modulo 2^32
unfoldable pub udivdi3 : (a b : ℕ) → ℕ
udivdi3 a b =
    if ltb 0xFFFFFFFF a then ((u32 a / 2 ^ 16) / u32 b * 2 ^ 16) % 2 ^ 64 else u32 a / u32 b

-- CreateHook: the words of the two functions' memory by address, and the new memory. The bits that
-- `|` joins are disjoint for addresses below 2^27, where the console's memory ends.
unfoldable pub create_hook : (function hook trampoline_buffer : ℕ) → (ℕ → ℕ) → ℕ → ℕ
create_hook function hook trampoline_buffer mem =
    let first = mem function in
    let second = mem (function + 4) in
    let t = trampoline_buffer in
    let m =
      if first == 0x03e00008
      then put_at (put_at mem t first) (t + 4) second
      else put_at (put_at (put_at mem (t + 4) (0x08000000 + (function / 4 + 2))) t first) (t + 8)
          second in
    put_at (put_at m function (0x08000000 + hook / 4)) (function + 4) 0
