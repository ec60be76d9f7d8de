-- ===== src/Checksum/Header.antt =====
-- CalcHeaderChecksum against the Internet checksum: what the shorts of a header add up to once
-- its result is stored in the header.
use net_gitaroo.Common.{
  Bool, arith, htons, htons-not16, if◌then◌else◌, leb, u16, ℕ, ◌%◌, ◌*◌, ◌+◌, ◌-◌, ◌/◌, ◌<◌, ◌^◌,
  ◌≡◌, ◌≤◌,
}
use net_gitaroo.Packets.{Bytes}
use net_gitaroo.Checksum.{calc_header_checksum, fold, sum_shorts}
use net_gitaroo.Bytes.{store16}
use net_gitaroo.Checksum.Sum.{sum_shorts-le, sum_shorts_complete, total_shorts}

-- The shorts of a header, and the sum that the code makes of all but the checksum.
abbrev pub header_shorts : Bytes → ℕ → ℕ
header_shorts d header = (d header % 2 ^ 4) * 2

abbrev pub running_total : Bytes → ℕ → ℕ
running_total d header = sum_shorts (header_shorts d header) 0 d header 5 0

-- The first folding of the running total leaves 16 bits.
abbrev pub carries : Bytes → ℕ → Bool
carries d header = leb (2 ^ 16) (running_total d header % 2 ^ 16 + running_total d header / 2 ^ 16)

running_total-lt : (d : Bytes) (header : ℕ) → running_total d header < 2 ^ 21
running_total-lt d header =
    omega (arith, sum_shorts-le (header_shorts d header) 0 d header 5 0 (omega arith))

-- What the stored field adds to the running total.
calc_header_checksum-value :
    (d : Bytes) (header : ℕ)
    → htons (calc_header_checksum d header)
      ≡ 65535 - (running_total d header % 2 ^ 16 + running_total d header / 2 ^ 16) % 2 ^ 16
unfolding calc_header_checksum
calc_header_checksum-value d header = omega (
  arith,
  running_total-lt d header,
  htons-not16 (u16 (fold (u16 (fold (running_total d header))))) (omega arith),
)

-- With the result of CalcHeaderChecksum stored in a header of at least six shorts, the shorts of
-- the header add up to 0 modulo 2^16 - 1, as RFC 1071 wants, exactly when the first folding does
-- not leave 16 bits; when it does, its carry is lost and they add up to 1.
pub calc_header_checksum-residue :
    (d : Bytes) (header : ℕ)
    → 6 ≤ header_shorts d header
    → total_shorts
          (header_shorts d header)
          (store16 d (header + 10) (calc_header_checksum d header))
          header
        % 65535
      ≡ (if carries d header then 1 else 0)
calc_header_checksum-residue d header six = ground (
  arith,
  running_total-lt d header,
  calc_header_checksum-value d header,
  sum_shorts_complete (header_shorts d header) d header 5 0 (header + 10)
      (calc_header_checksum d header) (omega arith) (omega arith) (omega arith),
)
