-- ===== src/Dhcp/OptionCodec.antt =====
-- The options of a DHCP message as a server encodes them (RFC 2132), and what _HandleDhcp reads.
use net_gitaroo.Common.{
  Bool-cases, List, [], ap, arith, false, get_or, if◌then◌else◌, inl, inr, length, ltb, not, refl,
  subst, suc, true, zero, ℕ, ◌*◌, ◌++◌, ◌+◌, ◌<◌, ◌==◌, ◌||◌, ◌∙◌, ◌∷◌, ◌≡◌, ◌≤◌,
}
use net_gitaroo.Packets.{Bytes}
use net_gitaroo.Bytes.{IpAddr, ip_of_bytes}
use net_gitaroo.Dhcp.Reply.{Options, four_bytes, read_option, read_options}

pub record DhcpOption : Type 0 where
  pub code : ℕ
  pub value : List ℕ

-- Code, length, value for each option, then the end mark.
abbrev pub encode_options : List DhcpOption → List ℕ
encode_options [] = 0xff ∷ []
encode_options (o ∷ os) = o.code ∷ length o.value ∷ (o.value ++ encode_options os)

abbrev pub options_size : List DhcpOption → ℕ
options_size [] = 0
options_size (o ∷ os) = 2 + length o.value + options_size os

-- An address option has four bytes or more, a message type one or more, and no option has the
-- code of the end mark.
pub record IsProper (o : DhcpOption) : Type 0 where
  pub not_end : (o.code == 0xff) ≡ false
  pub message_type : (o.code == 53) ≡ true → 1 ≤ length o.value
  pub address : ((o.code == 1) || ((o.code == 3) || (o.code == 54))) ≡ true → 4 ≤ length o.value

abbrev pub AllProper : List DhcpOption → Type 0
AllProper [] = Unit {0}
AllProper (o ∷ os) = IsProper o × AllProper os

abbrev pub address_of : List ℕ → IpAddr
address_of v = ip_of_bytes (get_or v 0 0) (get_or v 1 0) (get_or v 2 0) (get_or v 3 0)

-- What one option means: a later option of the same code replaces an earlier one.
abbrev pub take_option : DhcpOption → Options → Options
take_option o r =
    record (if o.code == 53
      then record r { dhcp_type = get_or o.value 0 0 }
      else if o.code == 1
      then record r { subnet_mask = address_of o.value }
      else if o.code == 3
      then record r { router = address_of o.value }
      else if o.code == 54
      then record r { server = address_of o.value }
      else r) { oi = r.oi + 2 + length o.value }

abbrev pub take_options : List DhcpOption → Options → Options
take_options [] r = r
take_options (o ∷ os) r = take_options os (take_option o r)

-- The bytes `xs` stand in `d` from address `p` on.
abbrev pub Holds : Bytes → ℕ → List ℕ → Type 0
Holds d p [] = Unit {0}
Holds d p (x ∷ xs) = (d p ≡ x) × Holds d (p + 1) xs

Holds-append :
    (d : Bytes) (p : ℕ) (xs ys : List ℕ)
    → Holds d p (xs ++ ys)
    → Holds d p xs × Holds d (p + length xs) ys
Holds-append d p [] ys h = (tt, subst (λ (t : ℕ). Holds d t ys) (omega arith) h)
Holds-append d p (x ∷ xs) ys h =
    let (front, back) = Holds-append d (p + 1) xs ys h.1 in
    ((h.0, front), subst (λ (t : ℕ). Holds d t ys) (omega arith) back)

Holds-get :
    (d : Bytes) (p i : ℕ) (xs : List ℕ) → Holds d p xs → i < length xs → d (p + i) ≡ get_or xs i 0
Holds-get d p i [] h lt = absurd (omega arith)
Holds-get d p zero (x ∷ xs) h lt = ap d (omega arith) ∙ h.0
Holds-get d p (suc i) (x ∷ xs) h lt =
    ap d (omega arith) ∙ Holds-get d (p + 1) i xs h.1 (omega arith)

four_bytes-address_of :
    (d : Bytes) (p : ℕ) (v : List ℕ) → Holds d p v → 4 ≤ length v → four_bytes d p ≡ address_of v
four_bytes-address_of d p v at long =
    let b1 = Holds-get d p 1 v at (omega arith) in
    let b2 = Holds-get d p 2 v at (omega arith) in
    let b3 = Holds-get d p 3 v at (omega arith) in
    let b0' : d p ≡ get_or v 0 0 = ap d (omega arith) ∙ Holds-get d p 0 v at (omega arith) in
    rw (b0', b1, b2, b3)

read_option-take :
    (d : Bytes) (options : ℕ) (r : Options) (o : DhcpOption) (os : List DhcpOption)
    → IsProper o
    → Holds d (options + r.oi) (encode_options (o ∷ os))
    → read_option d options r ≡ take_option o r
unfolding read_option
read_option-take d options r o os proper h =
    let p = options + r.oi + 2 in
    let at : Holds d p o.value =
      (Holds-append d p o.value (encode_options os)
        (subst (λ (t : ℕ). Holds d t (o.value ++ encode_options os)) (omega arith) h.1.1)).0 in
    let first : 1 ≤ length o.value → d p ≡ get_or o.value 0 0 =
      λ long. ap d (omega arith) ∙ Holds-get d p 0 o.value at long in
    let four : 4 ≤ length o.value → four_bytes d p ≡ address_of o.value =
      λ long. four_bytes-address_of d p o.value at long in
    rw (h.0, h.1.0)
      (elim (Bool-cases (o.code == 53)) [
        | inl e ↦ rw (e, first (proper.message_type e))
        | inr e ↦ rw e (elim (Bool-cases (o.code == 1)) [
          | inl e' ↦ rw (e', four (proper.address (rw e')))
          | inr e' ↦ rw e' (elim (Bool-cases (o.code == 3)) [
            | inl f ↦ rw (f, four (proper.address (rw (e', f))))
            | inr f ↦ rw f (elim (Bool-cases (o.code == 54)) [
              | inl g ↦ rw (g, four (proper.address (rw (e', f, g))))
              | inr g ↦ rw g
            ])
          ])
        ])
      ])

-- The option loop reads back the options that a server encodes: of a message whose options are all
-- proper and take at most 500 bytes, it collects for each code the value of its last option.
pub read_options-encode :
    (k : ℕ) (d : Bytes) (options : ℕ) (r : Options) (os : List DhcpOption)
    → AllProper os
    → Holds d (options + r.oi) (encode_options os)
    → r.oi + options_size os ≤ 500
    → 500 ≤ r.oi + 2 * k
    → read_options k d options r ≡ take_options os r
unfolding read_options
read_options-encode zero d options r [] proper h small fuel = refl
read_options-encode (suc k) d options r [] proper h small fuel = ground arith
read_options-encode zero d options r (o ∷ os) proper h small fuel = absurd (omega arith)
read_options-encode (suc k) d options r (o ∷ os) proper h small fuel =
    let inside : ltb r.oi 500 ≡ true = ground arith in
    let more : not (d (options + r.oi) == 0xff) ≡ true =
      ap (λ (c : ℕ). not (c == 0xff)) h.0 ∙ ap not proper.0.not_end in
    let back : Holds d (options + (take_option o r).oi) (encode_options os) =
      subst (λ (t : ℕ). Holds d t (encode_options os)) (omega arith)
        (Holds-append d (options + r.oi + 1 + 1) o.value (encode_options os) h.1.1).1 in
    let rest =
      ap (read_options k d options) (read_option-take d options r o os proper.0 h)
      ∙ read_options-encode k d options (take_option o r) os proper.1 back (omega arith)
          (omega arith) in
    rw (inside, more) rest
