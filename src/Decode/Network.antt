-- ===== src/Decode/Network.antt =====
-- The IPv4 and IPv6 headers, the VLAN tags and `DecodePacket` in src/decode/PacketDecode.cpp.
use pcap_constrictor_afpacke.Base.{
  ℕ, zero, suc, ◌+◌, ◌*◌, ◌/◌, ◌%◌, true, not, ◌||◌, Option, none, some, ltb, ◌==◌, if◌then◌else◌,
  length, ◌>>=◌,
}
use pcap_constrictor_afpacke.Bytes.{Bytes, has_bytes, read, read_be16}
use pcap_constrictor_afpacke.Decode.Types.{
  PacketDecodeResult, empty_result, ethertype_ipv4, ethertype_ipv6, is_vlan_ethertype,
  is_unsupported_ipv6_extension, ipv4, ipv6, truncated_ethernet_header, truncated_vlan_tag,
  truncated_ipv4_header, invalid_ipv4_ihl, invalid_ipv4_total_length, truncated_ipv4_packet,
  truncated_ipv6_header, truncated_ipv6_packet, unsupported_ipv6_extension_headers,
}
use pcap_constrictor_afpacke.Decode.Transport.{fail, copy_address, decode_transport}

-- The fields of an IPv4 packet whose lengths have been checked.
unfoldable pub ipv4_fields : PacketDecodeResult → Bytes → ℕ → ℕ → Option PacketDecodeResult
ipv4_fields result packet network_offset ihl = do
  protocol ← read packet (network_offset + 9)
  src ← copy_address packet (network_offset + 12) 4
  dst ← copy_address packet (network_offset + 16) 4
  some (record result {
    success = true;
    ip_version = ipv4;
    network_header_offset = network_offset;
    network_header_length = ihl;
    ip_protocol = protocol;
    address_length = 4;
    src_address = src;
    dst_address = dst;
  })

-- A fragment keeps the network fields only: more_fragments is bit 13, the offset the bits below.
unfoldable pub ipv4_payload : PacketDecodeResult → Bytes → ℕ → ℕ → ℕ → Option PacketDecodeResult
ipv4_payload result packet network_offset ihl total_length = do
  flags_fragment ← read_be16 packet (network_offset + 6)
  if flags_fragment / 0x2000 % 2 == 1 || not (flags_fragment % 0x2000 == 0)
      then some result
      else decode_transport result packet (network_offset + ihl) (network_offset + total_length)

unfoldable pub decode_ipv4 : PacketDecodeResult → Bytes → ℕ → Option PacketDecodeResult
unfolding fail
decode_ipv4 result packet network_offset =
    if not (has_bytes packet network_offset 20)
    then some (fail result truncated_ipv4_header)
    else do
      b ← read packet network_offset
      let ihl = (b % 16 * 4) % 256
      if not (b / 16 == 4) || ltb ihl 20
          then some (fail result invalid_ipv4_ihl)
          else if not (has_bytes packet network_offset ihl)
          then some (fail result truncated_ipv4_header)
          else do
            total_length ← read_be16 packet (network_offset + 2)
            if ltb total_length ihl
                then some (fail result invalid_ipv4_total_length)
                else if not (has_bytes packet network_offset total_length)
                then some (fail result truncated_ipv4_packet)
                else do
                  found ← ipv4_fields result packet network_offset ihl
                  ipv4_payload found packet network_offset ihl total_length

unfoldable pub ipv6_fields : PacketDecodeResult → Bytes → ℕ → Option PacketDecodeResult
ipv6_fields result packet network_offset = do
  protocol ← read packet (network_offset + 6)
  src ← copy_address packet (network_offset + 8) 16
  dst ← copy_address packet (network_offset + 24) 16
  some (record result {
    success = true;
    ip_version = ipv6;
    network_header_offset = network_offset;
    network_header_length = 40;
    ip_protocol = protocol;
    address_length = 16;
    src_address = src;
    dst_address = dst;
  })

unfoldable pub decode_ipv6 : PacketDecodeResult → Bytes → ℕ → Option PacketDecodeResult
unfolding fail
decode_ipv6 result packet network_offset =
    if not (has_bytes packet network_offset 40)
    then some (fail result truncated_ipv6_header)
    else do
      b ← read packet network_offset
      if not (b / 16 == 6) then some (fail result truncated_ipv6_header) else do
        payload_length ← read_be16 packet (network_offset + 4)
        if not (has_bytes packet network_offset (40 + payload_length))
            then some (fail result truncated_ipv6_packet)
            else do
              found ← ipv6_fields result packet network_offset
              if is_unsupported_ipv6_extension found.ip_protocol
                  then some (fail found unsupported_ipv6_extension_headers)
                  else decode_transport found packet (network_offset + 40)
                      (network_offset + (40 + payload_length))

-- What follows the VLAN loop.
unfoldable pub decode_network : PacketDecodeResult → Bytes → ℕ → Option PacketDecodeResult
decode_network result packet network_offset =
    if result.ethertype == ethertype_ipv4
    then decode_ipv4 result packet network_offset
    else if result.ethertype == ethertype_ipv6
    then decode_ipv6 result packet network_offset
    else some result

-- The loop over VLAN tags. Each round consumes four bytes, so that the packet's length is enough fuel.
unfoldable pub vlan_loop : ℕ → PacketDecodeResult → Bytes → ℕ → Option PacketDecodeResult
unfolding fail
vlan_loop zero result packet network_offset = none
vlan_loop (suc fuel) result packet network_offset =
    let next = do
      ether_type ← read_be16 packet (network_offset + 2)
      vlan_loop fuel
          (record result {
            vlan_tag_count = (result.vlan_tag_count + 1) % 256;
            ethertype = ether_type;
            link_header_length = result.link_header_length + 4;
          })
          packet (network_offset + 4)
    in if is_vlan_ethertype result.ethertype
      then if not (has_bytes packet network_offset 4)
        then some (fail result truncated_vlan_tag)
        else next
      else decode_network result packet network_offset

unfoldable pub decode_packet : Bytes → Option PacketDecodeResult
unfolding fail
decode_packet packet =
    if not (has_bytes packet 0 14)
    then some (record empty_result { failure_reason = truncated_ethernet_header })
    else do
      ether_type ← read_be16 packet 12
      vlan_loop (length packet)
          (record empty_result { success = true; link_header_length = 14; ethertype = ether_type })
          packet 14
