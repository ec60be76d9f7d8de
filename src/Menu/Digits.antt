-- ===== src/Menu/Digits.antt =====
-- The entry of an address in src/multi_menu.c: what a step of the digit under the cursor does to the
-- address and the port, as update_ip_visual shows them.
use net_gitaroo.Common.{
  Bool, Bool-cases, arith, false, if◌then◌else◌, inl, inr, ltb, refl, subst, true, ℕ, ◌%◌, ◌+◌, ◌-◌,
  ◌/◌, ◌<◌, ◌==◌, ◌^◌, ◌≡◌, ◌⊎◌,
}
use net_gitaroo.Menu.Screens.{add_or_sub, change_digit, divide_by_10}
use net_gitaroo.IpVisual.{IpVisual, update_ip_visual}
use net_gitaroo.IpVisual.Shown.{LastShown, shown_octet, shown_port, update_ip_visual-shown}

-- A number below `bound` goes one step of `weight` up or down, modulo `bound`.
abbrev pub Stepped : (bound weight : ℕ) (up : Bool) (x y : ℕ) → Type 0
Stepped bound weight up x y =
    (y < bound) × (if up then y ≡ (x + weight) % bound else x ≡ (y + weight) % bound)

-- It does so where `here` holds, and else stays.
abbrev pub Shifts : (here : Bool) (bound weight : ℕ) (up : Bool) (x y : ℕ) → Type 0
Shifts here bound weight up x y = if here then Stepped bound weight up x y else y ≡ x

byte-Stepped :
    (weight : ℕ) (up : Bool) (x : ℕ)
    → x < 256
    → weight < 256
    → Stepped 256 weight up x (add_or_sub 256 weight up x)
byte-Stepped weight true x h k = (omega arith, refl)
byte-Stepped weight false x h k = (omega arith, omega arith)

port-Stepped :
    (weight : ℕ) (up : Bool) (x : ℕ)
    → x < 2 ^ 16
    → weight < 2 ^ 16
    → Stepped (2 ^ 16) weight up x (add_or_sub (2 ^ 16) weight up x)
port-Stepped weight true x h k = (omega arith, refl)
port-Stepped weight false x h k = (omega arith, omega arith)

port_place : (i : ℕ) → i < 17 → 12 < i → ((i ≡ 13) ⊎ ((i ≡ 14) ⊎ ((i ≡ 15) ⊎ (i ≡ 16))))
port_place i h k = omega arith

octet_place : (i : ℕ) → ((i % 3 ≡ 0) ⊎ ((i % 3 ≡ 1) ⊎ (i % 3 ≡ 2)))
octet_place i = omega arith

-- The loop on the factor of the port's step leaves the weight of the digit.
port_weight : (i : ℕ) → i < 17 → ltb 12 i ≡ true → divide_by_10 (i - 12) 10000 ≡ 10 ^ (16 - i)
unfolding divide_by_10
port_weight i h k = elim (port_place i h (ground (arith, k))) [
  | inl e ↦ rw e refl
  | inr (inl e) ↦ rw e refl
  | inr (inr (inl e)) ↦ rw e refl
  | inr (inr (inr e)) ↦ rw e refl
]

octet_weight :
    (i : ℕ) → (if i % 3 == 0 then 100 else if i % 3 == 1 then 10 else 1) ≡ 10 ^ (2 - i % 3)
octet_weight i = elim (octet_place i) [
  | inl e ↦ rw e refl
  | inr (inl e) ↦ rw e refl
  | inr (inr e) ↦ rw e refl
]

change_digit-digits :
    (up : Bool) (i : ℕ) (v : IpVisual)
    → let w = change_digit up i v in (w.digits ≡ v.digits) × (w.include_port ≡ v.include_port)
unfolding change_digit
change_digit-digits up i v = ground arith

octet_weight-lt : (i : ℕ) → 10 ^ (2 - i % 3) < 256
octet_weight-lt i = subst (λ n. n < 256) (octet_weight i) (ground arith)

port_weight-lt : (i : ℕ) → i < 17 → ltb 12 i ≡ true → 10 ^ (16 - i) < 2 ^ 16
port_weight-lt i h k = elim (port_place i h (ground (arith, k))) [
  | inl e ↦ rw e (omega arith)
  | inr (inl e) ↦ rw e (omega arith)
  | inr (inr (inl e)) ↦ rw e (omega arith)
  | inr (inr (inr e)) ↦ rw e (omega arith)
]

-- A step changes the byte or the port that the cursor is on, and nothing else.
abbrev pub Cells : (up : Bool) (i : ℕ) (v w : IpVisual) → Type 0
Cells up i v w =
    ((j : ℕ) → j < 4 → Shifts (j == i / 3) 256 (10 ^ (2 - i % 3)) up (v.bytes j) (w.bytes j))
    × Shifts (ltb 12 i) (2 ^ 16) (10 ^ (16 - i)) up v.port w.port

change_digit-Cells :
    (up : Bool) (i : ℕ) (v : IpVisual)
    → ((j : ℕ) → v.bytes j < 256)
    → v.port < 2 ^ 16
    → i < 17
    → (i == 12) ≡ false
    → Cells up i v (change_digit up i v)
unfolding change_digit
change_digit-Cells up i v small port h k = elim (Bool-cases (ltb 12 i)) [
  | inl a ↦
      rw (a, port_weight i h a)
        (λ j l. ground arith, port-Stepped (10 ^ (16 - i)) up v.port port (port_weight-lt i h a))
  | inr a ↦
      let e : (i / 3 == 4) ≡ false = ground arith in
      rw (a, octet_weight i, e)
        (
          λ j l. elim (Bool-cases (j == i / 3)) [
            | inl b ↦
                let at_cursor : j ≡ i / 3 = ground (arith, b) in
                rw (b, at_cursor)
                  (byte-Stepped (10 ^ (2 - i % 3)) up (v.bytes (i / 3)) (small (i / 3))
                    (octet_weight-lt i))
            | inr b ↦ rw b refl
          ],
          refl,
        )
]

change_digit-port :
    (up : Bool) (i : ℕ) (v : IpVisual)
    → v.port < 2 ^ 16
    → i < 17
    → (i == 12) ≡ false
    → (change_digit up i v).port < 2 ^ 16
unfolding change_digit
change_digit-port up i v port h k = ground (arith, port)

change_digit-small :
    (up : Bool) (i : ℕ) (v : IpVisual)
    → ((j : ℕ) → v.bytes j < 256)
    → (i == 12) ≡ false
    → (j : ℕ) → (change_digit up i v).bytes j < 256
unfolding change_digit
change_digit-small up i v small k j = ground (arith, small j)

-- A step up or down of the digit under the cursor changes the number that the cursor is in by the
-- weight of that digit, as the screen shows it after update_ip_visual: of the octets, modulo 256,
-- and of the port, modulo 2^16, where it is shown; and the other numbers are shown as before. The
-- cursor is on one of the 17 digits, but not on the first of the port; the bytes and the port are in
-- range, and the sprites of the octets' last digits are enabled before.
pub change_digit-shown :
    (up : Bool) (i : ℕ) (v : IpVisual)
    → ((j : ℕ) → v.bytes j < 256)
    → v.port < 2 ^ 16
    → LastShown v
    → i < 17
    → (i == 12) ≡ false
    → let u = update_ip_visual v in
      let w = update_ip_visual (change_digit up i v) in
      ((j : ℕ)
        → j < 4
        → Shifts (j == i / 3) 256 (10 ^ (2 - i % 3)) up (shown_octet u j) (shown_octet w j))
      × ((v.include_port == 0) ≡ false
          → Shifts (ltb 12 i) (2 ^ 16) (10 ^ (16 - i)) up (shown_port u) (shown_port w))
change_digit-shown up i v small port l h k =
    let (octets, number) = change_digit-Cells up i v small port h k in
    let (digits, included) = change_digit-digits up i v in
    let (a, b) = update_ip_visual-shown v small port l in
    let (c, d) =
      update_ip_visual-shown (change_digit up i v) (change_digit-small up i v small k)
        (change_digit-port up i v port h k) (λ j e. rw digits (l j e)) in
    (λ j e. rw (a j e, c j e) (octets j e), λ e. rw (b e, d (rw included e)) number)
