-- ===== src/Checksum/Udp.antt =====
-- FinalizeUdpChecksum against the Internet checksum.
use net_gitaroo.Common.{arith, htons, htons-lt, htons-not16, not16, ℕ, ◌%◌, ◌+◌, ◌/◌, ◌≡◌, ◌≤◌}
use net_gitaroo.Packets.{Bytes}
use net_gitaroo.Checksum.{finalize_udp_checksum, fold_twice, sum_shorts}
use net_gitaroo.Bytes.{load16}
use net_gitaroo.Checksum.Sum.{fold_twice-mod, sum_shorts-le, sum_shorts_complete, total_shorts}

-- The shorts of a datagram, and the part of the checksum that MakeUdpPacket left in its field:
-- the folded sum of the pseudo-header.
abbrev pub datagram_shorts : Bytes → ℕ → ℕ
datagram_shorts d datagram = htons (load16 d (datagram + 4)) / 2

abbrev pub pseudo_part : Bytes → ℕ → ℕ
pseudo_part d datagram = not16 (htons (load16 d (datagram + 6)))

-- After FinalizeUdpChecksum the pseudo-header's part and the shorts of the datagram, the new
-- checksum among them, add up to 0 modulo 2^16 - 1, as a receiver checks; the datagram has at
-- least the eight bytes of its header.
pub finalize_udp_checksum-verifies :
    (d : Bytes) (datagram : ℕ)
    → 4 ≤ datagram_shorts d datagram
    → let e = finalize_udp_checksum d datagram in
      (pseudo_part d datagram + total_shorts (datagram_shorts d datagram) e datagram) % 65535 ≡ 0
unfolding finalize_udp_checksum
finalize_udp_checksum-verifies d datagram four =
    let n = datagram_shorts d datagram in
    let few : n ≤ 32767 = omega (arith, htons-lt (load16 d (datagram + 4))) in
    let acc = pseudo_part d datagram in
    let sum = sum_shorts n 0 d datagram 3 acc in
    let (folded, small, _) =
      fold_twice-mod sum (omega (arith, sum_shorts-le n 0 d datagram 3 acc (omega arith))) in
    omega (
      arith,
      folded,
      htons-not16 (fold_twice sum) small,
      sum_shorts_complete n d datagram 3 acc (datagram + 6) (not16 (htons (fold_twice sum)))
          (omega arith) (omega arith) (omega arith),
    )
