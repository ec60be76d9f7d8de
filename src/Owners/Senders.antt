-- ===== src/Owners/Senders.antt =====
-- The routines that allocate, fill and queue a transmit buffer: what they leave of its owner.
use net_gitaroo.Common.{
  Bool-cases, List, [], arith, false, inl, inr, leb, length, not, refl, some, subst, u16, ℕ, ◌&&◌,
  ◌+◌, ◌==◌, ◌∷◌, ◌≡◌, ◌≢◌,
}
use net_gitaroo.Net.{
  DhcpState, Env, GameNet, Net, logging_port, net_priority_arp, net_priority_dhcp,
  net_priority_game, net_priority_logging,
}
use net_gitaroo.Packets.{Bytes, Pool, Ptr, null}
use net_gitaroo.Buffers.Settled.{
  Allocated, Holding, Settled, Tally, add_tx_packet-Settled, alloc_tx_packet-Allocated,
  fill-Holding, tallied,
}
use net_gitaroo.Bytes.{HwAddr, IpAddr, ip_any, ip_eq}
use net_gitaroo.Dhcp.Client.{send_dhcp}
use net_gitaroo.GameNet.Receive.{send_to_remote}
use net_gitaroo.GameNet.Send.{send_arp_request}
use net_gitaroo.Ip.{send_arp_reply}
use net_gitaroo.Logging.{Ends, log_str, round_up4}
use net_gitaroo.Packet.{make_ip_packet, make_udp_packet, send_udp, udp_payload}
use net_gitaroo.Buffers.Owned.{Owned}

-- Every buffer has one owner; the receive buffers are those of `rxs`, which are free, and of
-- `rx_held`, and no transmit buffer is held.
abbrev pub OwnsAll : Pool → (rxs rx_held : List Ptr) → Type 0
OwnsAll s rxs rx_held = (fs : List Ptr) × (qs : List Ptr) × Owned s rxs rx_held fs qs []

abbrev pub Clean : Net → (rxs rx_held : List Ptr) → Type 0
Clean s = OwnsAll s.pool

-- And the transmit queue has grown with the calls of AddTxPacket since `tally` was taken.
abbrev pub Kept : Net → Tally → (rxs rx_held : List Ptr) → Type 0
Kept s = Settled s.pool

-- What keeps every tally keeps the owners.
pub clean :
    {s t : Pool} {rxs rx_held rxs' rx_held' : List Ptr}
    → ((tally : Tally) → Settled s tally rxs rx_held → Settled t tally rxs' rx_held')
    → OwnsAll s rxs rx_held
    → OwnsAll t rxs' rx_held'
clean f (fs, qs, o) = let (fs', qs', o', c) = f _ (fs, qs, o, tallied o) in (fs', qs', o')

-- AllocTxPacket's uninitialised local holds NULL whenever it is called.
abbrev pub StartsNull : Env → Type 0
StartsNull env = (s : Pool) → env.uninit s ≡ null

busy-null : (p : Ptr) → p ≢ null → (p == null) ≡ false
busy-null p ne = ground arith

pub send_udp-Kept :
    {tally : Tally} {rxs rx_held : List Ptr} (p : Ptr) (s : Net)
    → Holding (p ∷ []) s.pool tally rxs rx_held
    → Kept (send_udp p s) tally rxs rx_held
unfolding send_udp
send_udp-Kept p s k = add_tx_packet-Settled p (fill-Holding p _ refl k)

module _ (env : Env) (starts : StartsNull env) {tally : Tally} {rxs rx_held : List Ptr} where
  pub make_ip_packet-Allocated :
      (dst : IpAddr) (dst_hwaddr : HwAddr) (protocol len priority : ℕ) (s : Net)
      → Kept s tally rxs rx_held
      → let (p, t) = make_ip_packet env dst dst_hwaddr protocol len priority s in
        Allocated (p, t.pool) tally rxs rx_held
  unfolding make_ip_packet
  make_ip_packet-Allocated dst dst_hwaddr protocol len priority s c =
      rw (starts s.pool) (elim (alloc_tx_packet-Allocated priority c) [
        | inl (e, k) ↦ rw e (inl (refl, k))
        | inr (ne, k) ↦ rw (busy-null _ ne) (inr (ne, fill-Holding _ _ refl k))
      ])

  pub make_udp_packet-Allocated :
      (dst : IpAddr) (dst_hwaddr : HwAddr) (src_port dst_port len priority : ℕ) (s : Net)
      → Kept s tally rxs rx_held
      → let (p, t) = make_udp_packet env dst dst_hwaddr src_port dst_port len priority s in
        Allocated (p, t.pool) tally rxs rx_held
  unfolding make_udp_packet
  make_udp_packet-Allocated dst dst_hwaddr src_port dst_port len priority s c =
      elim (make_ip_packet-Allocated dst dst_hwaddr 17 (u16 (len + 8)) priority s c) [
        | inl (e, k) ↦ rw e (inl (refl, k))
        | inr (ne, k) ↦ rw (busy-null _ ne) (inr (ne, fill-Holding _ _ refl k))
      ]

  pub send_to_remote-Kept :
      (len : ℕ) (before : GameNet → GameNet) (write : GameNet → Bytes → Bytes) (s : Net)
      → Kept s tally rxs rx_held
      → Kept (send_to_remote env len before write s) tally rxs rx_held
  unfolding send_to_remote
  send_to_remote-Kept len before write s c =
      let g = s.game in
      elim (make_udp_packet-Allocated g.gn_remote_ip g.gn_remote_hwaddr g.gn_src_port
        g.gn_remote_port len net_priority_game s c) [
          | inl (e, k) ↦ rw e k
          | inr (ne, k) ↦ rw (busy-null _ ne) (send_udp-Kept _ _ (fill-Holding _ _ refl k))
        ]

  pub send_dhcp-Kept :
      (holder : DhcpState) (s : Net)
      → Kept s tally rxs rx_held
      → Kept (send_dhcp env holder s) tally rxs rx_held
  unfolding send_dhcp
  send_dhcp-Kept holder s c =
      elim (make_udp_packet-Allocated holder.dhcp_server_ip holder.dhcp_server_hwaddr 68 67 308
        net_priority_dhcp s c) [
          | inl (e, k) ↦ rw e k
          | inr (ne, k) ↦ rw (busy-null _ ne) (send_udp-Kept _ _ (fill-Holding _ _ refl k))
        ]

  pub send_arp_reply-Kept :
      (d : Bytes) (s : Net)
      → Kept s tally rxs rx_held
      → Kept (send_arp_reply env d s) tally rxs rx_held
  unfolding send_arp_reply
  send_arp_reply-Kept d s c =
      rw (starts s.pool) (elim (alloc_tx_packet-Allocated net_priority_arp c) [
        | inl (e, k) ↦ rw e k
        | inr (ne, k) ↦ rw (busy-null _ ne) (add_tx_packet-Settled _ (fill-Holding _ _ refl k))
      ])

  pub send_arp_request-Kept :
      (now : ℕ) (s : Net)
      → Kept s tally rxs rx_held
      → Kept (send_arp_request env now s) tally rxs rx_held
  unfolding send_arp_request
  send_arp_request-Kept now s c =
      rw (starts s.pool) (elim (alloc_tx_packet-Allocated net_priority_game c) [
        | inl (e, k) ↦ rw e k
        | inr (ne, k) ↦ rw (busy-null _ ne) (add_tx_packet-Settled _ (fill-Holding _ _ refl k))
      ])

  log_str-Ends :
      (str : List ℕ) (s : Net)
      → Kept s tally rxs rx_held
      → Ends (λ t. Kept t tally rxs rx_held) (log_str env str s)
  unfolding log_str
  log_str-Ends str s c =
      let l = s.logging in
      let len = round_up4 (length str) in
      elim (Bool-cases (not (s.link_up == 0) && not (ip_eq l.logging_cip ip_any))) [
        | inr off ↦ rw off c
        | inl on ↦
            rw on
              (elim (make_udp_packet-Allocated l.logging_cip l.logging_chwaddr logging_port
                l.logging_cport (u16 len) net_priority_logging s c) [
                  | inl (e, k) ↦ rw e k
                  | inr (ne, k) ↦
                      rw (busy-null _ ne)
                        (elim (Bool-cases (leb (udp_payload + len) env.frame_size)) [
                          | inl fits ↦ rw fits (send_udp-Kept _ _ (fill-Holding _ _ refl k))
                          | inr long ↦ rw long tt
                        ])
                ])
      ]

  pub log_str-Kept :
      (str : List ℕ) (s : Net) {t : Net}
      → log_str env str s ≡ some t
      → Kept s tally rxs rx_held
      → Kept t tally rxs rx_held
  log_str-Kept str s e c = subst (Ends (λ t. Kept t tally rxs rx_held)) e (log_str-Ends str s c)
