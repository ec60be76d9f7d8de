-- ===== src/State/Client.antt =====
-- The DHCP client of src/networking.c, through its handlers.
use net_gitaroo.Common.{
  Bool-cases, Option, Option-cases, ap, arith, false, inl, inr, ltb, none, refl, some, ℕ, ◌&&◌, ◌+◌,
  ◌==◌, ◌||◌, ◌∙◌, ◌≡◌, ◌≤◌, ◌⊎◌,
}
use net_gitaroo.Net.{DhcpState, Env, Net, net_priority_dhcp}
use net_gitaroo.State.Keeps.{make_udp_packet-Keeps}
use net_gitaroo.Packet.{make_udp_packet, send_udp}
use net_gitaroo.Packets.{Bytes, null}
use net_gitaroo.Bytes.{IpAddr}
use net_gitaroo.Dhcp.Client.{
  begin_dhcp, elapsed, process_dhcp, process_holder, send_dhcp, start_dhcp,
}
use net_gitaroo.Dhcp.Reply.{Options, dhcp_transition, handle_dhcp, handle_reply, is_our_reply}

-- The client has sent a discover (0) or a request (2), at most 21 times.
abbrev pub HolderOk : DhcpState → Type 0
HolderOk d = ((d.state ≡ 0) ⊎ (d.state ≡ 2)) × (d.num_retries ≤ 21)

abbrev pub DhcpOk : Option DhcpState → Type 0
DhcpOk none = Unit
DhcpOk (some d) = HolderOk d

send_dhcp-holder :
    (env : Env) (holder : DhcpState) (s : Net)
    → let t = send_dhcp env holder s in
      (t.game ≡ s.game)
      × ((t.dhcp_holder ≡ s.dhcp_holder)
          ⊎ ((now : ℕ) × (t.dhcp_holder
                ≡ some
                    (record holder { num_retries = holder.num_retries + 1; last_req_time = now }))))
unfolding send_dhcp send_udp
send_dhcp-holder env holder s =
    let k =
      make_udp_packet-Keeps env holder.dhcp_server_ip holder.dhcp_server_hwaddr 68 67 308
        net_priority_dhcp s in
    elim (Bool-cases (
      (make_udp_packet env holder.dhcp_server_ip holder.dhcp_server_hwaddr 68 67 308
        net_priority_dhcp s).0
      == null)) [ inl e ↦ rw e (k.game, inl k.dhcp) | inr e ↦ rw e (k.game, inr (_, refl)) ]

process_holder-ok :
    (env : Env) (holder : DhcpState) (s : Net)
    → s.dhcp_holder ≡ some holder
    → HolderOk holder
    → let t = process_holder env holder s in (t.game ≡ s.game) × DhcpOk t.dhcp_holder
unfolding process_holder
process_holder-ok env holder s e ok =
    let u : Net = record s { clock_reads = s.clock_reads + 1 } in
    let (g, h) = send_dhcp-holder env holder u in
    let sent : ltb 20 holder.num_retries ≡ false → DhcpOk (send_dhcp env holder u).dhcp_holder =
      λ few. elim h [
        | inl same ↦ rw (same, e) ok
        | inr (now, more) ↦ rw more (ok.0, ground arith)
      ] in
    elim (Bool-cases (s.link_up == 0)) [
      | inl down ↦ rw down (refl, tt)
      | inr up ↦
          rw up
            (elim (Bool-cases
              (ltb env.clocks_per_sec (elapsed (env.clock s.clock_reads) holder.last_req_time))) [
                | inr wait ↦ rw wait (refl, rw e ok)
                | inl due ↦ rw due (elim (Bool-cases (ltb 20 holder.num_retries)) [
                  | inl many ↦ rw many (refl, tt)
                  | inr few ↦
                      rw few (elim (Bool-cases ((holder.state == 0) || (holder.state == 2))) [
                        | inl live ↦ rw live (g, sent few)
                        | inr dead ↦ rw dead (refl, rw e ok)
                      ])
                ])
              ])
    ]

-- The game's globals are as before, and the client is in order.
abbrev pub KeepsOk : Net → Net → Type 0
KeepsOk s t = (t.game ≡ s.game) × DhcpOk t.dhcp_holder

-- The cases of the handlers that look for a client.
pub process_dhcp-none : (env : Env) (s : Net) → s.dhcp_holder ≡ none → process_dhcp env s ≡ s
unfolding process_dhcp
process_dhcp-none env s e =
    ap (λ o. elim o [ none ↦ s | some holder ↦ process_holder env holder s ]) e

pub process_dhcp-some :
    (env : Env) (s : Net) (holder : DhcpState)
    → s.dhcp_holder ≡ some holder
    → process_dhcp env s ≡ process_holder env holder s
unfolding process_dhcp
process_dhcp-some env s holder e =
    ap (λ o. elim o [ none ↦ s | some holder' ↦ process_holder env holder' s ]) e

pub begin_dhcp-none :
    (env : Env) (s : Net) → s.dhcp_holder ≡ none → begin_dhcp env s ≡ start_dhcp env s
unfolding begin_dhcp
begin_dhcp-none env s e = ap (λ o. elim o [ some holder ↦ s | none ↦ start_dhcp env s ]) e

pub begin_dhcp-some :
    (env : Env) (s : Net) (holder : DhcpState) → s.dhcp_holder ≡ some holder → begin_dhcp env s ≡ s
unfolding begin_dhcp
begin_dhcp-some env s holder e = ap (λ o. elim o [ some x ↦ s | none ↦ start_dhcp env s ]) e

pub handle_dhcp-none :
    (env : Env) (d : Bytes) (p : ℕ) (s : Net) → s.dhcp_holder ≡ none → handle_dhcp env d p s ≡ s
unfolding handle_dhcp
handle_dhcp-none env d p s e =
    ap (λ o. elim o [ none ↦ s | some holder ↦ handle_reply env d p holder s ]) e

pub handle_dhcp-some :
    (env : Env) (d : Bytes) (p : ℕ) (s : Net) (holder : DhcpState)
    → s.dhcp_holder ≡ some holder
    → handle_dhcp env d p s ≡ handle_reply env d p holder s
unfolding handle_dhcp
handle_dhcp-some env d p s holder e =
    ap (λ o. elim o [ none ↦ s | some x ↦ handle_reply env d p x s ]) e

pub process_dhcp-ok : (env : Env) (s : Net) → DhcpOk s.dhcp_holder → KeepsOk s (process_dhcp env s)
process_dhcp-ok env s ok = elim (Option-cases s.dhcp_holder) [
  | inl e ↦ rw (process_dhcp-none env s e) (refl, ok)
  | inr (holder, e) ↦
      rw (process_dhcp-some env s holder e) (process_holder-ok env holder s e (rw e at ok))
]

start_dhcp-ok : (env : Env) (s : Net) → KeepsOk s (start_dhcp env s)
unfolding start_dhcp
start_dhcp-ok env s = process_dhcp-ok env _ (inl refl, omega arith)

pub begin_dhcp-ok : (env : Env) (s : Net) → DhcpOk s.dhcp_holder → KeepsOk s (begin_dhcp env s)
begin_dhcp-ok env s ok = elim (Option-cases s.dhcp_holder) [
  | inl e ↦ rw (begin_dhcp-none env s e) (start_dhcp-ok env s)
  | inr (holder, e) ↦ rw (begin_dhcp-some env s holder e) (refl, ok)
]

dhcp_transition-ok :
    (env : Env) (yiaddr : IpAddr) (r : Options) (holder : DhcpState) (s : Net)
    → HolderOk holder
    → KeepsOk s (dhcp_transition env yiaddr r holder s)
unfolding dhcp_transition
dhcp_transition-ok env yiaddr r holder s ok =
    elim (Bool-cases ((r.dhcp_type == 2) && (holder.state == 0))) [
      | inl offer ↦ rw offer (process_dhcp-ok env _ (inr refl, omega arith))
      | inr a ↦ rw a (elim (Bool-cases ((r.dhcp_type == 5) && (holder.state == 2))) [
        | inl ack ↦ rw ack (refl, tt)
        | inr b ↦ rw b (elim (Bool-cases ((r.dhcp_type == 6) && (holder.state == 2))) [
          | inl nack ↦
              let t : Net = record s { dhcp_holder = none } in
              let (g, h) = begin_dhcp-ok env t tt in
              let (g', h') = process_dhcp-ok env (begin_dhcp env t) h in rw nack (g' ∙ g, h')
          | inr c ↦ rw c (process_dhcp-ok env _ ok)
        ])
      ])
    ]

handle_reply-ok :
    (env : Env) (d : Bytes) (p : ℕ) (holder : DhcpState) (s : Net)
    → s.dhcp_holder ≡ some holder
    → HolderOk holder
    → KeepsOk s (handle_reply env d p holder s)
unfolding handle_reply
handle_reply-ok env d p holder s e ok = elim (Bool-cases (is_our_reply d p holder)) [
  | inl ours ↦ rw ours (dhcp_transition-ok env _ _ _ s ok)
  | inr other ↦ rw other (refl, rw e ok)
]

pub handle_dhcp-ok :
    (env : Env) (d : Bytes) (p : ℕ) (s : Net)
    → DhcpOk s.dhcp_holder
    → KeepsOk s (handle_dhcp env d p s)
handle_dhcp-ok env d p s ok = elim (Option-cases s.dhcp_holder) [
  | inl e ↦ rw (handle_dhcp-none env d p s e) (refl, ok)
  | inr (holder, e) ↦
      rw (handle_dhcp-some env d p s holder e) (handle_reply-ok env d p holder s e (rw e at ok))
]
