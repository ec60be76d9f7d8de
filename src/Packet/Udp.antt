-- ===== src/Packet/Udp.antt =====
-- What a receiver reads in the datagrams that MakeUdpPacket and FinalizeUdpChecksum build.
use net_gitaroo.Common.{
  ap, arith, htons, htons-htons, htons-lt, htons-not16, length, not16, u32, ℕ, ◌%◌, ◌+◌, ◌/◌, ◌<◌,
  ◌^◌, ◌∙◌, ◌≡◌,
}
use net_gitaroo.Bytes.{IpAddr, load16, store16, store8}
use net_gitaroo.Packets.{Bytes}
use net_gitaroo.Packet.{udp_bytes, udp_datagram}
use net_gitaroo.Checksum.Sum.{fold_twice-mod, total_shorts}
use net_gitaroo.Checksum.{finalize_udp_checksum, fold_twice}
use net_gitaroo.Checksum.Udp.{datagram_shorts, finalize_udp_checksum-verifies, pseudo_part}
use net_gitaroo.Packet.Send.{written}

-- The sum of the big-endian shorts of the UDP pseudo-header.
abbrev pub pseudo_header : (source dst : IpAddr) (payload_length : ℕ) → ℕ
pseudo_header source dst payload_length =
    htons dst.s0 + htons dst.s1 + htons source.s0 + htons source.s1 + 17 + (payload_length + 8)

pseudo_header-lt :
    (source dst : IpAddr) (len : ℕ) → len + 8 < 2 ^ 16 → pseudo_header source dst len < 2 ^ 32
pseudo_header-lt source dst len fits =
    omega (arith, htons-lt dst.s0, htons-lt dst.s1, htons-lt source.s0, htons-lt source.s1)

module _ (source dst : IpAddr) (src_port dst_port len : ℕ) (d : Bytes) where
  -- The fields that MakeUdpPacket fills in.
  pub udp_bytes-fields :
      let e = udp_bytes source dst src_port dst_port len d in
      (load16 e 34 ≡ htons src_port)
      × (load16 e 36 ≡ htons dst_port)
      × (load16 e 38 ≡ htons (len + 8))
      × (load16 e 40 ≡ not16 (htons (fold_twice (u32 (pseudo_header source dst len)))))
  unfolding udp_bytes store16 store8 load16
  udp_bytes-fields =
      let sum = fold_twice (u32 (pseudo_header source dst len)) in
      (
        omega (arith, htons-lt src_port),
        omega (arith, htons-lt dst_port),
        omega (arith, htons-lt (len + 8)),
        omega arith,
      )

-- A datagram whose header MakeUdpPacket wrote, whose payload the caller wrote in any way that
-- spares the header's length and checksum, and that FinalizeUdpChecksum completed, passes the
-- check of RFC 768: the pseudo-header and the datagram add up to 0 modulo 2^16 - 1. The length
-- fits its field, and a last odd byte is left out of the sum.
pub udp_datagram-verifies :
    (source dst : IpAddr) (src_port dst_port len : ℕ) (d written : Bytes)
    → len + 8 < 2 ^ 16
    → let e = udp_bytes source dst src_port dst_port len d in
      load16 written 38 ≡ load16 e 38
      → load16 written 40 ≡ load16 e 40
      → (pseudo_header source dst len
            + total_shorts
                ((len + 8) / 2)
                (finalize_udp_checksum written udp_datagram)
                udp_datagram)
          % 65535
        ≡ 0
udp_datagram-verifies source dst src_port dst_port len d written fits length checksum =
    let (_, _, at_length, at_checksum) = udp_bytes-fields source dst src_port dst_port len d in
    let sum = u32 (pseudo_header source dst len) in
    let (same, small, _) = fold_twice-mod sum (omega arith) in
    let part : pseudo_part written udp_datagram ≡ fold_twice sum =
      ap (λ (t : ℕ). not16 (htons t)) (checksum ∙ at_checksum)
      ∙ (omega (arith, htons-not16 (fold_twice sum) small)) in
    let shorts : datagram_shorts written udp_datagram ≡ (len + 8) / 2 =
      ap (λ (t : ℕ). htons t / 2) (length ∙ at_length) ∙ (omega (arith, htons-htons (len + 8))) in
    let verified = finalize_udp_checksum-verifies written udp_datagram (omega (arith, shorts)) in
    let counted =
      ap (λ (n : ℕ). total_shorts n (finalize_udp_checksum written udp_datagram) udp_datagram)
        shorts in
    let bounded = pseudo_header-lt source dst len fits in
    omega (arith, verified, counted, part, same, bounded)
