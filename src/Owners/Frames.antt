-- ===== src/Owners/Frames.antt =====
-- EnQRxPacket of src/networking.c and send_game_state of src/game_net.c: what they leave of the
-- owners of the buffers, whatever a frame holds.
use net_gitaroo.Common.{
  Bool-cases, List, [], htons, inl, inr, length, not, ◌&&◌, ◌+◌, ◌==◌, ◌||◌, ◌∷◌,
}
use net_gitaroo.Buffers.RxLaws.{free_rx_packet-frees}
use net_gitaroo.Bytes.{broadcast_hwaddr, hwaddr_eq, ip_broadcast, ip_eq, load16, load_hw, load_ip}
use net_gitaroo.GameNet.Receive.{Received, handle_hosting, handle_udp_game_net, handle_unconnected}
use net_gitaroo.GameNet.Send.{PadInput, is_due, send_game_state}
use net_gitaroo.GameNet.State.{game_payload, gn_packetid_connect, gn_packetid_gamestate}
use net_gitaroo.Ip.{
  accepts_header, enq_rx_packet, handle_arp, handle_frame, handle_ip, ip_payload, is_dhcp,
  is_ipv4_arp,
}
use net_gitaroo.Logging.{handle_logging_packet}
use net_gitaroo.Net.{
  Env, Net, game_port, gn_connected, gn_connecting, gn_connecting_arp, gn_hosting, logging_port,
}
use net_gitaroo.Owners.Client.{handle_dhcp-Kept, process_dhcp-Kept}
use net_gitaroo.Owners.Senders.{
  Kept, StartsNull, send_arp_reply-Kept, send_arp_request-Kept, send_to_remote-Kept,
}
use net_gitaroo.Packets.{Bytes, Ptr}
use net_gitaroo.Buffers.Owned.{Owned}
use net_gitaroo.Buffers.Rx.{free_rx_packet}
use net_gitaroo.Buffers.Settled.{Grown, Tally, tallied}

module _ (env : Env) (starts : StartsNull env) {tally : Tally} {rxs rx_held : List Ptr} where
  handle_hosting-Kept :
      (r : Received) (s : Net)
      → Kept s tally rxs rx_held
      → Kept (handle_hosting env r s) tally rxs rx_held
  unfolding handle_hosting
  handle_hosting-Kept r s c = elim (Bool-cases (r.ptype == gn_packetid_connect)) [
    | inl connect ↦ rw connect (send_to_remote-Kept env starts 2 _ _ _ c)
    | inr a ↦
        rw a
          (elim (Bool-cases
            ((r.ptype == gn_packetid_gamestate) && ip_eq r.source_ip s.game.gn_remote_ip)) [
              | inl ours ↦ rw ours c
              | inr b ↦ rw b c
            ])
  ]

  handle_unconnected-Kept :
      (r : Received) (s : Net)
      → Kept s tally rxs rx_held
      → Kept (handle_unconnected env r s) tally rxs rx_held
  unfolding handle_unconnected
  handle_unconnected-Kept r s c =
      elim (Bool-cases ((s.game.gn_state == gn_hosting) && (r.dst_port == game_port))) [
        | inl hosting ↦ rw hosting (handle_hosting-Kept r s c)
        | inr a ↦ rw a (elim (Bool-cases (s.game.gn_state == gn_connecting)) [
          | inl b ↦ rw b c
          | inr b ↦ rw b c
        ])
      ]

  handle_udp_game_net-Kept :
      (r : Received) (s : Net)
      → Kept s tally rxs rx_held
      → Kept (handle_udp_game_net env r s) tally rxs rx_held
  unfolding handle_udp_game_net
  handle_udp_game_net-Kept r s c =
      let t = handle_unconnected env r s in
      elim (Bool-cases (t.game.gn_state == gn_connected)) [
        | inl e ↦ rw e (handle_unconnected-Kept r s c)
        | inr e ↦ rw e (handle_unconnected-Kept r s c)
      ]

  handle_ip-Kept :
      (d : Bytes) (s : Net) → Kept s tally rxs rx_held → Kept (handle_ip env d s) tally rxs rx_held
  unfolding handle_ip handle_logging_packet
  handle_ip-Kept d s c = elim (Bool-cases (accepts_header d)) [
    | inr bad ↦ rw bad c
    | inl good ↦ rw good (elim (Bool-cases (is_dhcp d)) [
      | inl a ↦ rw a (handle_dhcp-Kept env starts d _ s c)
      | inr a ↦
          rw a
            (elim (Bool-cases
              (not (ip_eq (load_ip d 30) s.our_ip) && not (ip_eq (load_ip d 30) ip_broadcast))) [
                | inl b ↦ rw b c
                | inr b ↦ rw b (elim (Bool-cases (d 23 == 17)) [
                  | inr other ↦ rw other c
                  | inl udp ↦
                      rw udp
                        (elim (Bool-cases (load16 d (ip_payload d + 2) == htons logging_port)) [
                          | inl e ↦ rw e c
                          | inr e ↦ rw e (handle_udp_game_net-Kept _ s c)
                        ])
                ])
              ])
    ])
  ]

  handle_arp-Kept :
      (d : Bytes) (s : Net) → Kept s tally rxs rx_held → Kept (handle_arp env d s) tally rxs rx_held
  unfolding handle_arp
  handle_arp-Kept d s c = elim (Bool-cases (is_ipv4_arp d)) [
    | inr other ↦ rw other c
    | inl ipv4 ↦
        rw ipv4 (elim (Bool-cases ((load16 d 20 == htons 1) && ip_eq (load_ip d 38) s.our_ip)) [
          | inl request ↦ rw request (send_arp_reply-Kept env starts d s c)
          | inr a ↦
              rw a
                (elim (Bool-cases (
                  (load16 d 20 == htons 2)
                  && (ip_eq (load_ip d 28) s.game.gn_remote_ip_or_gateway
                      && (s.game.gn_state == gn_connecting_arp)))) [
                        | inl reply ↦ rw reply c
                        | inr b ↦ rw b c
                      ])
        ])
  ]

  pub handle_frame-Kept :
      (d : Bytes) (s : Net)
      → Kept s tally rxs rx_held
      → Kept (handle_frame env d s) tally rxs rx_held
  unfolding handle_frame
  handle_frame-Kept d s c =
      elim (Bool-cases
        (hwaddr_eq (load_hw d 0) s.our_hwaddr || hwaddr_eq (load_hw d 0) broadcast_hwaddr)) [
          | inr other ↦ rw other c
          | inl ours ↦ rw ours (elim (Bool-cases (load16 d 12 == htons 0x0806)) [
            | inl arp ↦ rw arp (handle_arp-Kept d s c)
            | inr a ↦ rw a (elim (Bool-cases (load16 d 12 == htons 0x0800)) [
              | inl b ↦ rw b (handle_ip-Kept d s c)
              | inr b ↦ rw b c
            ])
          ])
        ]

  pub send_game_state-Kept :
      (pad : PadInput) (s : Net)
      → Kept s tally rxs rx_held
      → Kept (send_game_state env pad s) tally rxs rx_held
  unfolding send_game_state
  send_game_state-Kept pad s c =
      let now = env.clock s.clock_reads in
      elim (Bool-cases (s.game.gn_state == gn_connected)) [
        | inl a ↦ rw a (send_to_remote-Kept env starts game_payload _ _ _ c)
        | inr a ↦ rw a (elim (Bool-cases (s.game.gn_state == gn_connecting_arp)) [
          | inl b ↦ rw b (elim (Bool-cases (is_due env now s.game)) [
            | inl due ↦ rw due (send_arp_request-Kept env starts now _ c)
            | inr wait ↦ rw wait c
          ])
          | inr b ↦ rw b (elim (Bool-cases (s.game.gn_state == gn_connecting)) [
            | inl e ↦ rw e (elim (Bool-cases (is_due env now s.game)) [
              | inl due ↦ rw due (send_to_remote-Kept env starts 2 _ _ _ c)
              | inr wait ↦ rw wait c
            ])
            | inr e ↦ rw e c
          ])
        ])
      ]

pub enq_rx_packet-Kept :
    (env : Env) (starts : StartsNull env) {tally : Tally} {rxs rx_held : List Ptr} (packet : Ptr)
    (s : Net)
    → Kept s tally rxs (packet ∷ rx_held)
    → Kept (enq_rx_packet env packet s) tally (packet ∷ rxs) rx_held
unfolding enq_rx_packet free_rx_packet
enq_rx_packet-Kept env starts packet s k =
    let (fs, qs, o, c) = handle_frame-Kept env starts (s.pool.heap packet).bytes s k in
    process_dhcp-Kept env starts _ (fs, qs, free_rx_packet-frees packet o, c)

-- EnQRxPacket, whatever the frame holds and whichever handlers it reaches: the receive buffer that
-- netman hands over is afterwards at the front of the free list, the other receive buffers are where
-- they were, each transmit buffer is free or queued, once, and the transmit queue is longer by
-- one buffer for each call of AddTxPacket that the handlers made, up to the 16 that there are; if
-- every buffer had one owner before and no transmit buffer was held, and AllocTxPacket's local
-- starts as NULL.
pub enq_rx_packet-frees :
    (env : Env) (starts : StartsNull env) {rxs rx_held fs qs : List Ptr} (packet : Ptr) (s : Net)
    → Owned s.pool rxs (packet ∷ rx_held) fs qs []
    → let t = enq_rx_packet env packet s in
      (fs' : List Ptr) × (qs' : List Ptr) × Owned t.pool (packet ∷ rxs) rx_held fs' qs' []
      × Grown
          (record { len_before = length qs; calls_before = s.pool.xmits })
          0
          (length qs')
          t.pool.xmits
enq_rx_packet-frees env starts {fs} {qs} packet s o =
    enq_rx_packet-Kept env starts packet s (fs, qs, o, tallied o)
