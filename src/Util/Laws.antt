-- ===== src/Util/Laws.antt =====
-- What the routines of src/util.c compute.
use net_gitaroo.Common.{
  Bool-cases, ap, arith, false, inl, inr, ltb, refl, suc, u32, zero, ℕ, ◌+◌, ◌/◌, ◌<◌, ◌==◌, ◌^◌,
  ◌∙◌, ◌≡◌, ◌⊎◌,
}
use net_gitaroo.Util.{memcmp, udivdi3}
use net_gitaroo.Packets.{Bytes}

-- The bytes at two addresses agree over one byte more.
agree_behind :
    (d : Bytes) (p q n : ℕ)
    → d p ≡ d q
    → ((i : ℕ) → i < n → d (p + 1 + i) ≡ d (q + 1 + i))
    → (i : ℕ) → i < suc n
    → d (p + i) ≡ d (q + i)
agree_behind d p q n first rest zero h = ap d (omega arith) ∙ first ∙ ap d (omega arith)
agree_behind d p q n first rest (suc i) h =
    ap d (omega arith) ∙ rest i (omega arith) ∙ ap d (omega arith)

differ_behind :
    (d : Bytes) (p q i : ℕ)
    → (d (p + 1 + i) == d (q + 1 + i)) ≡ false
    → (d (p + (i + 1)) == d (q + (i + 1))) ≡ false
differ_behind d p q i ne =
    let a : p + (i + 1) ≡ p + 1 + i = omega arith in
    let b : q + (i + 1) ≡ q + 1 + i = omega arith in rw (a, b) ne

-- memcmp returns 0 if the two ranges hold the same bytes, and 1 if they differ in one.
pub memcmp-equal :
    (length : ℕ) (d : Bytes) (p q : ℕ)
    → ((memcmp length d p q ≡ 0) × ((i : ℕ) → i < length → d (p + i) ≡ d (q + i)))
      ⊎ ((memcmp length d p q ≡ 1) × ((i : ℕ) × (i < length) × ((d (p + i) == d (q + i)) ≡ false)))
unfolding memcmp
memcmp-equal zero d p q = inl (refl, λ i h. absurd (omega arith))
memcmp-equal (suc length) d p q = elim (Bool-cases (d p == d q)) [
  | inr a ↦ rw a (inr (refl, (0, omega arith, ground (arith, a))))
  | inl a ↦ rw a (elim (memcmp-equal length d (p + 1) (q + 1)) [
    | inl (e, same) ↦ inl (e, agree_behind d p q length (ground (arith, a)) same)
    | inr (e, (i, h, ne)) ↦ inr (e, (i + 1, omega arith, differ_behind d p q i ne))
  ])
]

-- __udivdi3 divides exactly where both numbers fit 32 bits.
pub udivdi3-exact : (a b : ℕ) → a < 2 ^ 32 → 0 < b → b < 2 ^ 32 → udivdi3 a b ≡ a / b
unfolding udivdi3
udivdi3-exact a b h k l =
    let a32 : u32 a ≡ a = omega arith in
    let b32 : u32 b ≡ b = omega arith in
    let small : ltb 0xFFFFFFFF a ≡ false = ground arith in rw (small, a32, b32) refl
