-- ===== src/Checksum.antt =====
-- CalcHeaderChecksum and FinalizeUdpChecksum of src/networking.c, over the bytes of a packet.
pub mod Sum
pub mod Header
pub mod Udp
use net_gitaroo.Common.{
  htons, if◌then◌else◌, not16, suc, u16, u32, zero, ℕ, ◌%◌, ◌*◌, ◌+◌, ◌/◌, ◌==◌, ◌^◌,
}
use net_gitaroo.Packets.{Bytes}
use net_gitaroo.Bytes.{load16, store16}

-- `for(i = …) if(i != skip) total += NTOHS(as_shorts[i]);` in unsigned 32 bits, for `n` more
-- rounds from `i` on; `base` is the address of `as_shorts[0]`.
unfoldable pub sum_shorts : (n i : ℕ) → Bytes → (base skip total : ℕ) → ℕ
sum_shorts zero i d base skip total = total
sum_shorts (suc n) i d base skip total =
    sum_shorts n (i + 1) d base skip
      (if i == skip then total else u32 (total + htons (load16 d (base + 2 * i))))

-- `(x & 0xFFFF) + ((x >> 16) & 0xFFFF)` in unsigned 32 bits
abbrev pub fold : ℕ → ℕ
fold x = u32 (x % 2 ^ 16 + (x / 2 ^ 16) % 2 ^ 16)

-- CalcHeaderChecksum. Both foldings are assigned to the 16-bit `checksum`.
unfoldable pub calc_header_checksum : Bytes → ℕ → ℕ
calc_header_checksum d header =
    let num_shorts = (d header % 2 ^ 4) * 2 in
    let running_total = sum_shorts num_shorts 0 d header 5 0 in
    let checksum = u16 (fold running_total) in not16 (htons (u16 (fold checksum)))

-- The last part of MakeUdpPacket and of FinalizeUdpChecksum: two foldings in 32 bits.
unfoldable pub fold_twice : ℕ → ℕ
fold_twice checksum = u16 (fold (fold checksum))

-- FinalizeUdpChecksum
unfoldable pub finalize_udp_checksum : Bytes → ℕ → Bytes
finalize_udp_checksum d datagram =
    let amt_shorts = htons (load16 d (datagram + 4)) / 2 in
    let short_checksum = not16 (htons (load16 d (datagram + 6))) in
    let checksum = sum_shorts amt_shorts 0 d datagram 3 short_checksum in
    store16 d (datagram + 6) (not16 (htons (fold_twice checksum)))
