-- ===== src/IpVisual/Shown.antt =====
-- The number that a player reads off the sprites.
use net_gitaroo.Common.{
  Bool-cases, arith, false, get_or, if◌then◌else◌, inl, inr, refl, suc, zero, ℕ, ◌%◌, ◌&&◌, ◌*◌,
  ◌+◌, ◌-◌, ◌/◌, ◌<◌, ◌==◌, ◌^◌, ◌∙◌, ◌≡◌,
}
use net_gitaroo.IpVisual.{
  IpVisual, Sprite, multi_menu_digit_x, reveal_digits, update_ip_visual, update_octet,
  update_port_digits, with_digit,
}

-- The digit that a sprite shows; a sprite that is not enabled shows none.
abbrev pub read_digit : ℕ → Sprite → ℕ
read_digit before d = if d.enabled == 0 then before else before * 10 + (d.uv_pixel_x - 322) / 12

abbrev pub shown_octet : IpVisual → ℕ → ℕ
shown_octet v i =
    read_digit (read_digit (read_digit 0 (v.digits (i * 3))) (v.digits (i * 3 + 1)))
      (v.digits (i * 3 + 2))

abbrev pub shown_port : IpVisual → ℕ
shown_port v =
    let f = v.port_digits in
    read_digit (read_digit (read_digit (read_digit (read_digit 0 (f 0)) (f 1)) (f 2)) (f 3)) (f 4)

digit_x : (n : ℕ) → n < 10 → get_or multi_menu_digit_x n 0 ≡ 322 + 12 * n
digit_x zero h = refl
digit_x (suc zero) h = refl
digit_x (suc (suc zero)) h = refl
digit_x (suc (suc (suc zero))) h = refl
digit_x (suc (suc (suc (suc zero)))) h = refl
digit_x (suc (suc (suc (suc (suc zero))))) h = refl
digit_x (suc (suc (suc (suc (suc (suc zero)))))) h = refl
digit_x (suc (suc (suc (suc (suc (suc (suc zero))))))) h = refl
digit_x (suc (suc (suc (suc (suc (suc (suc (suc zero)))))))) h = refl
digit_x (suc (suc (suc (suc (suc (suc (suc (suc (suc zero))))))))) h = refl
digit_x (suc (suc (suc (suc (suc (suc (suc (suc (suc (suc n)))))))))) h = absurd (omega arith)

digit_back : (n : ℕ) → n < 10 → (get_or multi_menu_digit_x n 0 - 322) / 12 ≡ n
digit_back n h = rw (digit_x n h) (omega arith)

update_octet-digits :
    (v : IpVisual) (i : ℕ)
    → let n = v.bytes i in
      let f = (update_octet i v).digits in
      (f (i * 3) ≡ record (with_digit (v.digits (i * 3)) ((n / 100) % 10)) {
        enabled = if (n / 100) % 10 == 0 then 0 else 1;
      })
      × (f (i * 3 + 1) ≡ record (with_digit (v.digits (i * 3 + 1)) ((n / 10) % 10)) {
        enabled = if ((n / 10) % 10 == 0) && ((n / 100) % 10 == 0) then 0 else 1;
      })
      × (f (i * 3 + 2) ≡ with_digit (v.digits (i * 3 + 2)) (n % 10))
unfolding update_octet
update_octet-digits v i = (ground arith, ground arith, ground arith)

octet_value :
    (n e : ℕ)
    → n < 256
    → (e == 0) ≡ false
    → let hundreds = (n / 100) % 10 in
      let tens = (n / 10) % 10 in
      let a = if (if hundreds == 0 then 0 else 1) == 0 then 0 else 0 * 10 + hundreds in
      let b = if (if (tens == 0) && (hundreds == 0) then 0 else 1) == 0 then a else a * 10 + tens in
      (if e == 0 then b else b * 10 + n % 10) ≡ n
octet_value n e h shown = ground arith

shown-update_octet :
    (v : IpVisual) (i : ℕ)
    → v.bytes i < 256
    → ((v.digits (i * 3 + 2)).enabled == 0) ≡ false
    → shown_octet (update_octet i v) i ≡ v.bytes i
shown-update_octet v i small shown =
    let n = v.bytes i in
    let (a, b, c) = update_octet-digits v i in
    rw (a, b, c)
      (rw
        (
          digit_back ((n / 100) % 10) (omega arith),
          digit_back ((n / 10) % 10) (omega arith),
          digit_back (n % 10) (omega arith),
        )
        (octet_value n (v.digits (i * 3 + 2)).enabled small shown))

shown_port-reveal :
    (p : ℕ) (f : ℕ → Sprite) (v : IpVisual)
    → p < 2 ^ 16
    → shown_port (record v { port_digits = reveal_digits 5 0 0 (update_port_digits 5 p f) }) ≡ p
unfolding reveal_digits update_port_digits
shown_port-reveal p f v h =
    rw
      (
        digit_back (p % 10) (omega arith),
        digit_back (p / 10 % 10) (omega arith),
        digit_back (p / 10 / 10 % 10) (omega arith),
        digit_back (p / 10 / 10 / 10 % 10) (omega arith),
        digit_back (p / 10 / 10 / 10 / 10 % 10) (omega arith),
      )
      (ground arith)

-- The sprites of the other octets stay as they are.
other_digits :
    (v : IpVisual) (i j k : ℕ)
    → k < 3
    → (i == j) ≡ false
    → (update_octet j v).digits (i * 3 + k) ≡ v.digits (i * 3 + k)
unfolding update_octet
other_digits v i j k h ne = ground arith

first_digit :
    (v : IpVisual) (i j : ℕ)
    → (i == j) ≡ false
    → (update_octet j v).digits (i * 3) ≡ v.digits (i * 3)
unfolding update_octet
first_digit v i j ne = ground arith

shown-other :
    (v : IpVisual) (i j : ℕ) → (i == j) ≡ false → shown_octet (update_octet j v) i ≡ shown_octet v i
shown-other v i j ne = rw (
  first_digit v i j ne,
  other_digits v i j 1 (omega arith) ne,
  other_digits v i j 2 (omega arith) ne,
)

-- The last digit of each octet is shown.
abbrev pub LastShown : IpVisual → Type 0
LastShown v = (i : ℕ) → i < 4 → ((v.digits (i * 3 + 2)).enabled == 0) ≡ false

update_octet-LastShown : (v : IpVisual) (j : ℕ) → LastShown v → LastShown (update_octet j v)
unfolding update_octet
update_octet-LastShown v j l i h = ground (arith, l i h, l j)

updated_octets : IpVisual → IpVisual
updated_octets v = update_octet 3 (update_octet 2 (update_octet 1 (update_octet 0 v)))

updated_octets-shown :
    (v : IpVisual) (i : ℕ)
    → i < 4
    → ((j : ℕ) → v.bytes j < 256)
    → LastShown v
    → shown_octet (updated_octets v) i ≡ v.bytes i
unfolding updated_octets update_octet
updated_octets-shown v i h small l =
    let a = update_octet 0 v in
    let b = update_octet 1 a in
    let c = update_octet 2 b in
    let la = update_octet-LastShown v 0 l in
    let lb = update_octet-LastShown a 1 la in
    let lc = update_octet-LastShown b 2 lb in
    by_round i h
      (shown-other c 0 3 refl
        ∙ (shown-other b 0 2 refl
            ∙ (shown-other a 0 1 refl ∙ shown-update_octet v 0 (small 0) (l 0 (omega arith)))))
      (shown-other c 1 3 refl
        ∙ (shown-other b 1 2 refl ∙ shown-update_octet a 1 (small 1) (la 1 (omega arith))))
      (shown-other c 2 3 refl ∙ shown-update_octet b 2 (small 2) (lb 2 (omega arith)))
      (shown-update_octet c 3 (small 3) (lc 3 (omega arith)))
  where
    by_round :
        (i : ℕ)
        → i < 4
        → shown_octet (updated_octets v) 0 ≡ v.bytes 0
        → shown_octet (updated_octets v) 1 ≡ v.bytes 1
        → shown_octet (updated_octets v) 2 ≡ v.bytes 2
        → shown_octet (updated_octets v) 3 ≡ v.bytes 3
        → shown_octet (updated_octets v) i ≡ v.bytes i
    by_round zero h a b c d = a
    by_round (suc zero) h a b c d = b
    by_round (suc (suc zero)) h a b c d = c
    by_round (suc (suc (suc zero))) h a b c d = d
    by_round (suc (suc (suc (suc i)))) h a b c d = absurd (omega arith)

-- update_ip_visual shows the address and, if there is one, the port: read off the sprites that are
-- enabled, each octet is the byte of the address and the port is the port, for bytes and a port
-- in range and sprites of the last digits that are enabled before.
pub update_ip_visual-shown :
    (v : IpVisual)
    → ((j : ℕ) → v.bytes j < 256)
    → v.port < 2 ^ 16
    → LastShown v
    → let w = update_ip_visual v in
      ((i : ℕ) → i < 4 → shown_octet w i ≡ v.bytes i)
      × ((v.include_port == 0) ≡ false → shown_port w ≡ v.port)
unfolding update_ip_visual updated_octets update_octet
update_ip_visual-shown v small port l =
    let o : (i : ℕ) → i < 4 → shown_octet (updated_octets v) i ≡ v.bytes i =
      λ i h. updated_octets-shown v i h small l in
    elim (Bool-cases (v.include_port == 0)) [
      | inl none_shown ↦ rw none_shown (o, λ e. ground (arith, e))
      | inr with_port ↦
          rw with_port (o, λ e. shown_port-reveal v.port v.port_digits (updated_octets v) port)
    ]
