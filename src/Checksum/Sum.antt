-- ===== src/Checksum/Sum.antt =====
-- The loop of the checksums against a plain sum of big-endian shorts, and one's-complement
-- folding as arithmetic modulo 2^16 - 1.
use net_gitaroo.Common.{
  Bool-cases, ap, arith, htons, htons-lt, htons-u16, if◌then◌else◌, inl, inr, leb, ltb, refl, suc,
  sym, u32, zero, ℕ, ◌%◌, ◌&&◌, ◌*◌, ◌+◌, ◌<◌, ◌==◌, ◌^◌, ◌∙◌, ◌≡◌, ◌≤◌,
}
use net_gitaroo.Packets.{Bytes}
use net_gitaroo.Checksum.{fold_twice, sum_shorts}
use net_gitaroo.Bytes.{load16, store16}
use net_gitaroo.Bytes.Laws.{load16-store16, load16-store16_ne}

-- The `n` big-endian shorts from address `p` on, added up.
abbrev pub total_shorts : ℕ → Bytes → ℕ → ℕ
total_shorts zero d p = 0
total_shorts (suc n) d p = htons (load16 d p) + total_shorts n d (p + 2)

-- The short that the loop skips, where it is among those that it meets.
abbrev pub skipped : (n i : ℕ) → Bytes → (base skip : ℕ) → ℕ
skipped n i d base skip =
    if leb i skip && ltb skip (i + n) then htons (load16 d (base + 2 * skip)) else 0

pub step_same : (d : Bytes) (a b : ℕ) → a ≡ b → htons (load16 d a) ≡ htons (load16 d b)
step_same d a b e = ap (λ (t : ℕ). htons (load16 d t)) e

pub total_same : (n : ℕ) (d : Bytes) (a b : ℕ) → a ≡ b → total_shorts n d a ≡ total_shorts n d b
total_same n d a b e = ap (λ (t : ℕ). total_shorts n d t) e

pub total_shorts-le : (n : ℕ) (d : Bytes) (p : ℕ) → total_shorts n d p ≤ n * 65535
total_shorts-le zero d p = omega arith
total_shorts-le (suc n) d p = omega (arith, htons-lt (load16 d p), total_shorts-le n d (p + 2))

-- Too few shorts for the 32 bits to overflow: the loop adds up all but the skipped one.
pub sum_shorts-total :
    (n i : ℕ) (d : Bytes) (base skip acc : ℕ)
    → acc + n * 65535 < 2 ^ 32
    → sum_shorts n i d base skip acc + skipped n i d base skip
      ≡ acc + total_shorts n d (base + 2 * i)
unfolding sum_shorts
sum_shorts-total zero i d base skip acc small = ground arith
sum_shorts-total (suc n) i d base skip acc small =
    let next = total_same n d (base + 2 * i + 2) (base + 2 * (i + 1)) (omega arith) in
    let same = λ (e : i ≡ skip). step_same d (base + 2 * i) (base + 2 * skip) (omega arith) in
    let fits = htons-lt (load16 d (base + 2 * i)) in
    elim (Bool-cases (i == skip)) [
      | inl e ↦ rw e (
          ground (
            arith,
            next,
            same (ground arith),
            sum_shorts-total n (i + 1) d base skip acc (omega arith),
          ))
      | inr e ↦ rw e (
          ground (
            arith,
            next,
            fits,
            sum_shorts-total n (i + 1) d base skip (u32 (acc + htons (load16 d (base + 2 * i))))
                (omega (arith, fits)),
          ))
    ]

-- The loop does not see the short that it skips.
pub sum_shorts-store16 :
    (n i : ℕ) (d : Bytes) (base skip acc v : ℕ)
    → sum_shorts n i (store16 d (base + 2 * skip) v) base skip acc ≡ sum_shorts n i d base skip acc
unfolding sum_shorts
sum_shorts-store16 zero i d base skip acc v = refl
sum_shorts-store16 (suc n) i d base skip acc v = elim (Bool-cases (i == skip)) [
  | inl e ↦ rw e (sum_shorts-store16 n (i + 1) d base skip acc v)
  | inr e ↦ rw e (
      rw (load16-store16_ne d (base + 2 * skip) (base + 2 * i) v (ground arith))
        (sum_shorts-store16 n (i + 1) d base skip (u32 (acc + htons (load16 d (base + 2 * i)))) v))
]

-- Storing `v` in place of the skipped short completes the sum of the loop.
pub sum_shorts_complete :
    (n : ℕ) (d : Bytes) (base skip acc o v : ℕ)
    → o ≡ base + 2 * skip
    → skip < n
    → acc + n * 65535 < 2 ^ 32
    → sum_shorts n 0 d base skip acc + htons v ≡ acc + total_shorts n (store16 d o v) base
sum_shorts_complete n d base skip acc o v place inside small =
    let e : Bytes = store16 d o v in
    let here : htons (load16 e (base + 2 * skip)) ≡ htons v =
      step_same e (base + 2 * skip) o (sym place) ∙ ap htons (load16-store16 d o v) ∙ htons-u16 v in
    let unseen : sum_shorts n 0 e base skip acc ≡ sum_shorts n 0 d base skip acc =
      ap (λ (t : ℕ). sum_shorts n 0 (store16 d t v) base skip acc) place
      ∙ sum_shorts-store16 n 0 d base skip acc v in
    ground (
      arith,
      here,
      unseen,
      sum_shorts-total n 0 e base skip acc small,
      total_same n e (base + 2 * 0) base (omega arith),
    )

pub sum_shorts-le :
    (n i : ℕ) (d : Bytes) (base skip acc : ℕ)
    → acc + n * 65535 < 2 ^ 32
    → sum_shorts n i d base skip acc ≤ acc + n * 65535
sum_shorts-le n i d base skip acc small =
    omega (arith, sum_shorts-total n i d base skip acc small, total_shorts-le n d (base + 2 * i))

-- Folding keeps the value modulo 2^16 - 1 and brings it to 16 bits; it gives 0 only of 0.
pub fold_twice-mod :
    (x : ℕ)
    → x < 2 ^ 32
    → (fold_twice x % 65535 ≡ x % 65535) × (fold_twice x < 2 ^ 16) × (fold_twice x ≡ 0 → x ≡ 0)
unfolding fold_twice
fold_twice-mod x h = (omega arith, omega arith, λ e. omega arith)
