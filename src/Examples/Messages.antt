-- ===== src/Examples/Messages.antt =====
-- The theorems on checksums, DHCP options and the wire format at concrete packets.
use net_gitaroo.Common.{
  List, [], arith, false, htons, if◌then◌else◌, refl, some, ◌%◌, ◌+◌, ◌/◌, ◌∷◌, ◌≡◌, ◌≤◌,
}
use net_gitaroo.Bytes.{
  broadcast_hwaddr, ip, ip_broadcast, load16, load_ip, store16, store8, store_list,
}
use net_gitaroo.Checksum.{calc_header_checksum, finalize_udp_checksum}
use net_gitaroo.Checksum.Header.{calc_header_checksum-residue, carries, header_shorts}
use net_gitaroo.Checksum.Sum.{total_shorts}
use net_gitaroo.Checksum.Udp.{datagram_shorts, finalize_udp_checksum-verifies, pseudo_part}
use net_gitaroo.Dhcp.OptionCodec.{
  AllProper, DhcpOption, encode_options, read_options-encode, take_options,
}
use net_gitaroo.Dhcp.OptionLoop.{goes_on, handle_dhcp-options_end}
use net_gitaroo.Packet.{udp_bytes, udp_datagram}
use net_gitaroo.Packet.Udp.{pseudo_header, udp_datagram-verifies}
use net_gitaroo.Packets.{Bytes}
use net_gitaroo.Examples.Consoles.{console_env, player}
use net_gitaroo.Net.{DhcpState, Net}
use net_gitaroo.State.Exchange.{handle_dhcp-offer}
use net_gitaroo.Dhcp.Reply.{handle_dhcp, is_our_reply, no_options, option_rounds, read_options}

-- The header of a DHCP discover: 0.0.0.0 to 255.255.255.255, 336 bytes, UDP.
abbrev header : Bytes
header =
    store_list (λ a. 0) 14
      (0x45 ∷ 0 ∷ 0x01 ∷ 0x50 ∷ 0 ∷ 0 ∷ 0 ∷ 0 ∷ 0x80 ∷ 0x11 ∷ 0 ∷ 0 ∷ 0 ∷ 0 ∷ 0 ∷ 0 ∷ 255 ∷ 255
        ∷ 255 ∷ 255 ∷ [])

calc_header_checksum-residue_example :
    total_shorts (header_shorts header 14) (store16 header 24 (calc_header_checksum header 14)) 14
      % 65535
    ≡ (if carries header 14 then 1 else 0)
unfolding store_list store8
calc_header_checksum-residue_example = calc_header_checksum-residue header 14 (omega arith)

-- A datagram of ten bytes from port 68 to port 67.
abbrev datagram : Bytes
datagram = store_list (λ a. 0) 34 (0 ∷ 68 ∷ 0 ∷ 67 ∷ 0 ∷ 10 ∷ 0xff ∷ 0xe3 ∷ 1 ∷ 2 ∷ [])

finalize_udp_checksum-verifies_example :
    let e = finalize_udp_checksum datagram 34 in
    (pseudo_part datagram 34 + total_shorts (datagram_shorts datagram 34) e 34) % 65535 ≡ 0
unfolding store_list store8 load16 htons
finalize_udp_checksum-verifies_example = finalize_udp_checksum-verifies datagram 34 (omega arith)

udp_datagram-verifies_example :
    (pseudo_header (ip 1 2) (ip 3 4) 2
        + total_shorts
            ((2 + 8) / 2)
            (finalize_udp_checksum (udp_bytes (ip 1 2) (ip 3 4) 68 67 2 datagram) udp_datagram)
            udp_datagram)
      % 65535
    ≡ 0
udp_datagram-verifies_example =
    udp_datagram-verifies (ip 1 2) (ip 3 4) 68 67 2 datagram
      (udp_bytes (ip 1 2) (ip 3 4) 68 67 2 datagram) (omega arith) refl refl

-- The options of an offer.
abbrev offer : List DhcpOption
offer =
    record { code = 53; value = 2 ∷ [] }
    ∷ record { code = 1; value = 255 ∷ 255 ∷ 255 ∷ 0 ∷ [] }
    ∷ record { code = 54; value = 10 ∷ 0 ∷ 0 ∷ 1 ∷ [] }
    ∷ []

abbrev offer_message : Bytes
offer_message = store_list (λ a. 0) 282 (encode_options offer)

offer-AllProper : AllProper offer
offer-AllProper = (
  record { not_end = refl; message_type = λ e. omega arith; address = λ e. ground arith },
  (
    record { not_end = refl; message_type = λ e. ground arith; address = λ e. omega arith },
    (record { not_end = refl; message_type = λ e. ground arith; address = λ e. omega arith }, tt),
  ),
)

read_options-encode_example :
    read_options 251 offer_message 282 no_options ≡ take_options offer no_options
unfolding store_list store8
read_options-encode_example =
    read_options-encode 251 offer_message 282 no_options offer offer-AllProper
      (
        refl,
        (
          refl,
          (
            refl,
            (
              refl,
              (
                refl,
                (
                  refl,
                  (
                    refl,
                    (refl, (refl, (refl, (refl, (refl, (refl, (refl, (refl, (refl, tt))))))))),
                  ),
                ),
              ),
            ),
          ),
        ),
      )
      (omega arith) (omega arith)

handle_dhcp-options_end_example :
    goes_on offer_message 282 (read_options option_rounds offer_message 282 no_options) ≡ false
handle_dhcp-options_end_example = handle_dhcp-options_end offer_message 282

-- A console whose client has sent a discover, and an offer for it.
abbrev asking : DhcpState
asking = record {
  start_time = 0;
  last_req_time = 0;
  num_retries = 1;
  dhcp_server_ip = ip_broadcast;
  dhcp_server_hwaddr = broadcast_hwaddr;
  xid_lower = 0x0201;
  xid_upper = 0x0403;
  state = 0;
}

abbrev client : Net
client = record player { dhcp_holder = some asking }

abbrev whole_offer : Bytes
whole_offer = store_list offer_message 42 (2 ∷ 1 ∷ 6 ∷ 0 ∷ 1 ∷ 2 ∷ 3 ∷ 4 ∷ [])

handle_dhcp-offer_example :
    let r = take_options offer no_options in
    let t = handle_dhcp console_env whole_offer 42 client in
    (t.our_ip ≡ load_ip whole_offer (42 + 16))
    × (t.gateway_ip ≡ r.router)
    × (t.subnet_mask ≡ r.subnet_mask)
    × ((now : DhcpState) × (t.dhcp_holder ≡ some now)
        × (now.state ≡ 2)
        × (now.dhcp_server_ip ≡ r.server)
        × (now.num_retries ≤ 1))
unfolding store_list store8 is_our_reply load16
handle_dhcp-offer_example =
    handle_dhcp-offer console_env whole_offer 42 client asking offer refl refl refl refl
      offer-AllProper
      (
        refl,
        (
          refl,
          (
            refl,
            (
              refl,
              (
                refl,
                (
                  refl,
                  (
                    refl,
                    (refl, (refl, (refl, (refl, (refl, (refl, (refl, (refl, (refl, tt))))))))),
                  ),
                ),
              ),
            ),
          ),
        ),
      )
      (omega arith) refl
