-- ===== src/IpVisual.antt =====
-- The address and port that the menu of src/multi_menu.c shows digit by digit: ip_visual_t,
-- update_ip_visual and set_ip_visual_enabled. Of a sprite it keeps what these write; uv_left and
-- uv_right, which follow from uv_pixel_x, are left out. Coordinates are whole numbers.
pub mod Shown
use net_gitaroo.Common.{
  List, [], get_or, if◌then◌else◌, ltb, not, suc, zero, ℕ, ◌%◌, ◌&&◌, ◌*◌, ◌+◌, ◌/◌, ◌==◌, ◌||◌,
  ◌∷◌,
}

-- struct UiSprite
pub record Sprite : Type 0 where
  pub enabled : ℕ
  pub uv_pixel_x : ℕ
  pub x : ℕ
  pub y : ℕ

-- ip_visual_t; of the dots only `enabled` is written.
pub record IpVisual : Type 0 where
  pub dots : ℕ → ℕ
  pub digits : ℕ → Sprite
  pub port_digits : ℕ → Sprite
  pub bytes : ℕ → ℕ
  pub port : ℕ
  pub include_port : ℕ

abbrev pub multi_menu_digit_x : List ℕ
multi_menu_digit_x = 322 ∷ 334 ∷ 346 ∷ 358 ∷ 370 ∷ 382 ∷ 394 ∷ 406 ∷ 418 ∷ 430 ∷ []

-- `a[i] = x`
abbrev pub put_at {ℓ} : {A : Type ℓ} → (ℕ → A) → ℕ → A → ℕ → A
put_at f i x j = if j == i then x else f j

abbrev pub with_digit : Sprite → ℕ → Sprite
with_digit d digit = record d { uv_pixel_x = get_or multi_menu_digit_x digit 0 }

-- One round of update_ip_visual's first loop.
unfoldable pub update_octet : ℕ → IpVisual → IpVisual
update_octet i v =
    let ip_digit = v.bytes i in
    let off = i * 3 in
    let digit_100 = (ip_digit / 100) % 10 in
    let digit_10 = (ip_digit / 10) % 10 in
    let digit_1 = ip_digit % 10 in
    let hundreds = record (with_digit (v.digits off) digit_100) {
      enabled = if digit_100 == 0 then 0 else 1;
    } in
    let tens = record (with_digit (v.digits (off + 1)) digit_10) {
      enabled = if (digit_10 == 0) && (digit_100 == 0) then 0 else 1;
    } in
    record v {
      digits =
          put_at (put_at (put_at v.digits off hundreds) (off + 1) tens) (off + 2)
            (with_digit (v.digits (off + 2)) digit_1);
    }

-- The loop over the digits of the port, from the last to the first.
unfoldable pub update_port_digits : ℕ → (shifted : ℕ) → (ℕ → Sprite) → ℕ → Sprite
update_port_digits zero shifted f = f
update_port_digits (suc i) shifted f =
    let digit = shifted % 10 in
    update_port_digits i (shifted / 10)
      (put_at f i (record (with_digit (f i) digit) { enabled = if digit == 0 then 0 else 1 }))

-- The loop that shows every digit behind the first that is not 0: `n` rounds, from `i` on.
unfoldable pub reveal_digits : (n i visible_yet : ℕ) → (ℕ → Sprite) → ℕ → Sprite
reveal_digits zero i visible_yet f = f
reveal_digits (suc n) i visible_yet f =
    let visible_yet = if (f i).enabled == 0 then visible_yet else 1 in
    reveal_digits n (i + 1) visible_yet (put_at f i (record (f i) { enabled = visible_yet }))

-- update_ip_visual
unfoldable pub update_ip_visual : IpVisual → IpVisual
update_ip_visual v =
    let v = update_octet 3 (update_octet 2 (update_octet 1 (update_octet 0 v))) in
    if v.include_port == 0
    then v
    else record v { port_digits = reveal_digits 5 0 0 (update_port_digits 5 v.port v.port_digits) }

-- set_ip_visual_enabled
unfoldable pub set_ip_visual_enabled : ℕ → IpVisual → IpVisual
set_ip_visual_enabled enabled v =
    let w = record v {
      digits = λ i. if ltb i 12 then record (v.digits i) { enabled = enabled } else v.digits i;
      dots = λ i. if ltb i 3 || ((i == 3) && not (v.include_port == 0)) then enabled else v.dots i;
      port_digits = λ i.
          if ltb i 5 && not (v.include_port == 0)
          then record (v.port_digits i) { enabled = enabled }
          else v.port_digits i;
    } in
    if enabled == 0 then w else update_ip_visual w
