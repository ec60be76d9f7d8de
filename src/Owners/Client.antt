-- ===== src/Owners/Client.antt =====
-- The DHCP client of src/networking.c: what its routines leave of the owners of the buffers.
use net_gitaroo.Common.{Bool-cases, List, Option-cases, inl, inr, ltb, ℕ, ◌&&◌, ◌+◌, ◌==◌, ◌||◌}
use net_gitaroo.State.Client.{
  begin_dhcp-none, begin_dhcp-some, handle_dhcp-none, handle_dhcp-some, process_dhcp-none,
  process_dhcp-some,
}
use net_gitaroo.Bytes.{IpAddr}
use net_gitaroo.Dhcp.Client.{begin_dhcp, elapsed, process_dhcp, process_holder, start_dhcp}
use net_gitaroo.Dhcp.Reply.{Options, dhcp_transition, handle_dhcp, handle_reply, is_our_reply}
use net_gitaroo.Net.{DhcpState, Env, Net}
use net_gitaroo.Owners.Senders.{Kept, StartsNull, send_dhcp-Kept}
use net_gitaroo.Packets.{Bytes, Ptr}
use net_gitaroo.Buffers.Settled.{Tally}

module _ (env : Env) (starts : StartsNull env) {tally : Tally} {rxs rx_held : List Ptr} where
  process_holder-Kept :
      (holder : DhcpState) (s : Net)
      → Kept s tally rxs rx_held
      → Kept (process_holder env holder s) tally rxs rx_held
  unfolding process_holder
  process_holder-Kept holder s c =
      let u : Net = record s { clock_reads = s.clock_reads + 1 } in
      elim (Bool-cases (s.link_up == 0)) [
        | inl down ↦ rw down c
        | inr up ↦
            rw up
              (elim (Bool-cases
                (ltb env.clocks_per_sec (elapsed (env.clock s.clock_reads) holder.last_req_time))) [
                  | inr wait ↦ rw wait c
                  | inl due ↦ rw due (elim (Bool-cases (ltb 20 holder.num_retries)) [
                    | inl many ↦ rw many c
                    | inr few ↦
                        rw few (elim (Bool-cases ((holder.state == 0) || (holder.state == 2))) [
                          | inl live ↦ rw live (send_dhcp-Kept env starts holder u c)
                          | inr dead ↦ rw dead c
                        ])
                  ])
                ])
      ]

  pub process_dhcp-Kept :
      (s : Net) → Kept s tally rxs rx_held → Kept (process_dhcp env s) tally rxs rx_held
  process_dhcp-Kept s c = elim (Option-cases s.dhcp_holder) [
    | inl e ↦ rw (process_dhcp-none env s e) c
    | inr (holder, e) ↦ rw (process_dhcp-some env s holder e) (process_holder-Kept holder s c)
  ]

  start_dhcp-Kept : (s : Net) → Kept s tally rxs rx_held → Kept (start_dhcp env s) tally rxs rx_held
  unfolding start_dhcp
  start_dhcp-Kept s c = process_dhcp-Kept _ c

  pub begin_dhcp-Kept :
      (s : Net) → Kept s tally rxs rx_held → Kept (begin_dhcp env s) tally rxs rx_held
  begin_dhcp-Kept s c = elim (Option-cases s.dhcp_holder) [
    | inl e ↦ rw (begin_dhcp-none env s e) (start_dhcp-Kept s c)
    | inr (holder, e) ↦ rw (begin_dhcp-some env s holder e) c
  ]

  dhcp_transition-Kept :
      (yiaddr : IpAddr) (r : Options) (holder : DhcpState) (s : Net)
      → Kept s tally rxs rx_held
      → Kept (dhcp_transition env yiaddr r holder s) tally rxs rx_held
  unfolding dhcp_transition
  dhcp_transition-Kept yiaddr r holder s c =
      elim (Bool-cases ((r.dhcp_type == 2) && (holder.state == 0))) [
        | inl offer ↦ rw offer (process_dhcp-Kept _ c)
        | inr a ↦ rw a (elim (Bool-cases ((r.dhcp_type == 5) && (holder.state == 2))) [
          | inl ack ↦ rw ack c
          | inr b ↦ rw b (elim (Bool-cases ((r.dhcp_type == 6) && (holder.state == 2))) [
            | inl nack ↦ rw nack (process_dhcp-Kept _ (begin_dhcp-Kept _ c))
            | inr other ↦ rw other (process_dhcp-Kept _ c)
          ])
        ])
      ]

  handle_reply-Kept :
      (d : Bytes) (p : ℕ) (holder : DhcpState) (s : Net)
      → Kept s tally rxs rx_held
      → Kept (handle_reply env d p holder s) tally rxs rx_held
  unfolding handle_reply
  handle_reply-Kept d p holder s c = elim (Bool-cases (is_our_reply d p holder)) [
    | inl ours ↦ rw ours (dhcp_transition-Kept _ _ _ s c)
    | inr other ↦ rw other c
  ]

  pub handle_dhcp-Kept :
      (d : Bytes) (p : ℕ) (s : Net)
      → Kept s tally rxs rx_held
      → Kept (handle_dhcp env d p s) tally rxs rx_held
  handle_dhcp-Kept d p s c = elim (Option-cases s.dhcp_holder) [
    | inl e ↦ rw (handle_dhcp-none env d p s e) c
    | inr (holder, e) ↦ rw (handle_dhcp-some env d p s holder e) (handle_reply-Kept d p holder s c)
  ]
