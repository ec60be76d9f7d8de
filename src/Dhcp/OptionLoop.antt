-- ===== src/Dhcp/OptionLoop.antt =====
-- The option loop of _HandleDhcp: it ends, it stays inside the options, and it reads what a server
-- encodes.
use net_gitaroo.Common.{
  Bool, Bool-cases, ap, arith, false, inl, inr, ltb, not, refl, suc, zero, ℕ, ◌&&◌, ◌*◌, ◌+◌, ◌<◌,
  ◌==◌, ◌∙◌, ◌≡◌, ◌≤◌,
}
use net_gitaroo.Packets.{Bytes}
use net_gitaroo.Dhcp.Reply.{Options, no_options, option_rounds, read_option, read_options}

-- The loop's condition.
abbrev pub goes_on : Bytes → ℕ → Options → Bool
goes_on d options r = ltb r.oi 500 && not (d (options + r.oi) == 0xff)

oi-read_option : (d : Bytes) (options : ℕ) (r : Options) → r.oi + 2 ≤ (read_option d options r).oi
unfolding read_option
oi-read_option d options r = omega arith

read_options_ends :
    (k : ℕ) (d : Bytes) (options : ℕ) (r : Options)
    → 500 ≤ r.oi + 2 * k
    → goes_on d options (read_options k d options r) ≡ false
unfolding read_options
read_options_ends zero d options r enough = ground arith
read_options_ends (suc k) d options r enough =
    ground
      (arith, oi-read_option d options r, read_options_ends k d options (read_option d options r))

-- Whatever a frame holds, the option loop of _HandleDhcp ends by its own condition.
pub handle_dhcp-options_end :
    (d : Bytes) (options : ℕ)
    → goes_on d options (read_options option_rounds d options no_options) ≡ false
handle_dhcp-options_end d options =
    read_options_ends option_rounds d options no_options (omega arith)

read_option_within :
    (d e : Bytes) (options : ℕ) (r : Options)
    → ((a : ℕ) → options ≤ a → a < options + 505 → d a ≡ e a)
    → r.oi < 500
    → read_option d options r ≡ read_option e options r
unfolding read_option
read_option_within d e options r same inside =
    let o = options + r.oi in
    let s0 = same o (omega arith) (omega arith) in
    let s1 = same (o + 1) (omega arith) (omega arith) in
    let s2 = same (o + 2) (omega arith) (omega arith) in
    let s3 = same (o + 2 + 1) (omega arith) (omega arith) in
    let s4 = same (o + 2 + 2) (omega arith) (omega arith) in
    let s5 = same (o + 2 + 3) (omega arith) (omega arith) in rw (s0, s1, s2, s3, s4, s5)

-- The option loop reads only the 505 bytes from `options` on: two frames that agree there give the
-- same result, however often it goes round.
pub read_options_within :
    (k : ℕ) (d e : Bytes) (options : ℕ) (r : Options)
    → ((a : ℕ) → options ≤ a → a < options + 505 → d a ≡ e a)
    → read_options k d options r ≡ read_options k e options r
unfolding read_options
read_options_within zero d e options r same = refl
read_options_within (suc k) d e options r same = elim (Bool-cases (ltb r.oi 500)) [
  | inl inside ↦
      let at = same (options + r.oi) (omega arith) (ground arith) in
      let step = read_option_within d e options r same (ground arith) in
      let rest =
        read_options_within k d e options (read_option d options r) same
        ∙ ap (read_options k e options) step in
      rw (inside, at, rest)
  | inr over ↦ rw over
]
