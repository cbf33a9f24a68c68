-- ===== src/Decode/Safety.antt =====
-- The decoder reads inside of the packet only, and what it returns lies inside of the packet.
use pcap_constrictor_afpacke.Base.{
  ℕ, zero, suc, ◌+◌, ◌*◌, ◌%◌, ◌≤◌, ◌<◌, ◌≡◌, true, some, arith, length, Holds, Holds-bind, ◌>>=◌,
  if◌then◌else◌,
}
use pcap_constrictor_afpacke.Bytes.{Bytes, be16, byte_at, has_bytes_iff, read_lem, read_be16_lem}
use pcap_constrictor_afpacke.Decode.{
  no_transport, no_failure, PacketDecodeResult, empty_result, fail, decode_transport, ipv4_fields,
  ipv4_payload, decode_ipv4, ipv6_fields, decode_ipv6, decode_network, vlan_loop, decode_packet,
  unsupported_ipv6_extension_headers, is_unsupported_ipv6_extension,
}
use pcap_constrictor_afpacke.Decode.Shape.{
  IsShaped, IsDecoded, copy_address_lem, AtTransport, decode_transport-IsDecoded,
}

-- The result that the network decoders start from.
record AtNetwork (r : PacketDecodeResult) : Type 0 where
  shaped : IsShaped r
  succeeded : r.success ≡ true
  no_reason : r.failure_reason ≡ no_failure
  unset : r.transport_protocol ≡ no_transport

module _ (packet : Bytes) (r : PacketDecodeResult) (offset : ℕ) (at : AtNetwork r) where
  ipv4_fields-AtTransport :
      (ihl end : ℕ)
      → 20 ≤ ihl
      → offset + ihl ≤ length packet
      → end ≤ length packet
      → Holds (λ d. AtTransport packet d (offset + ihl) end) (ipv4_fields r packet offset ihl)
  unfolding ipv4_fields
  ipv4_fields-AtTransport ihl end h k e = ground (
    arith,
    read_lem packet (offset + 9),
    copy_address_lem packet (offset + 12) 4,
    copy_address_lem packet (offset + 16) 4,
  )

  ipv4_payload-IsDecoded :
      (d : PacketDecodeResult) (ihl total_length : ℕ)
      → AtTransport packet d (offset + ihl) (offset + total_length)
      → 8 ≤ ihl
      → offset + ihl ≤ length packet
      → Holds (IsDecoded packet) (ipv4_payload d packet offset ihl total_length)
  unfolding ipv4_payload
  ipv4_payload-IsDecoded d ihl total_length t h k = ground (
    arith,
    read_be16_lem packet (offset + 6),
    decode_transport-IsDecoded packet d (offset + ihl) (offset + total_length) t,
  )

  ipv4_found-IsDecoded :
      (ihl total_length : ℕ)
      → 20 ≤ ihl
      → offset + ihl ≤ length packet
      → offset + total_length ≤ length packet
      → Holds (IsDecoded packet) (
          ipv4_fields r packet offset ihl >>= λ found.
          ipv4_payload found packet offset ihl total_length)
  ipv4_found-IsDecoded ihl total_length h k e =
      Holds-bind _ _ _ _ (ipv4_fields-AtTransport ihl (offset + total_length) h k e)
        (λ d t. ipv4_payload-IsDecoded d ihl total_length t (omega arith) k)

  decode_ipv4-IsDecoded : Holds (IsDecoded packet) (decode_ipv4 r packet offset)
  unfolding decode_ipv4
  decode_ipv4-IsDecoded =
      let ihl = byte_at packet offset % 16 * 4 % 256 in
      let total_length = be16 packet (offset + 2) in
      ground (
        arith,
        has_bytes_iff packet offset 20,
        read_lem packet offset,
        has_bytes_iff packet offset ihl,
        read_be16_lem packet (offset + 2),
        has_bytes_iff packet offset total_length,
        ipv4_found-IsDecoded ihl total_length,
      )

  ipv6_fields-AtTransport :
      (end : ℕ)
      → offset + 40 ≤ length packet
      → end ≤ length packet
      → Holds (λ d. AtTransport packet d (offset + 40) end) (ipv6_fields r packet offset)
  unfolding ipv6_fields
  ipv6_fields-AtTransport end h e = ground (
    arith,
    read_lem packet (offset + 6),
    copy_address_lem packet (offset + 8) 16,
    copy_address_lem packet (offset + 24) 16,
  )

  ipv6_payload-IsDecoded :
      (d : PacketDecodeResult) (end : ℕ)
      → AtTransport packet d (offset + 40) end
      → Holds (IsDecoded packet) (
          if is_unsupported_ipv6_extension d.ip_protocol
          then some (fail d unsupported_ipv6_extension_headers)
          else decode_transport d packet (offset + 40) end)
  unfolding fail
  ipv6_payload-IsDecoded d end t =
      ground (arith, decode_transport-IsDecoded packet d (offset + 40) end t)

  ipv6_found-IsDecoded :
      (end : ℕ)
      → offset + 40 ≤ length packet
      → end ≤ length packet
      → Holds (IsDecoded packet) (
          ipv6_fields r packet offset >>= λ found.
          if is_unsupported_ipv6_extension found.ip_protocol
          then some (fail found unsupported_ipv6_extension_headers)
          else decode_transport found packet (offset + 40) end)
  ipv6_found-IsDecoded end h e =
      Holds-bind _ _ _ _ (ipv6_fields-AtTransport end h e) (λ d t. ipv6_payload-IsDecoded d end t)

  decode_ipv6-IsDecoded : Holds (IsDecoded packet) (decode_ipv6 r packet offset)
  unfolding decode_ipv6
  decode_ipv6-IsDecoded =
      let payload_length = be16 packet (offset + 4) in
      ground (
        arith,
        has_bytes_iff packet offset 40,
        read_lem packet offset,
        read_be16_lem packet (offset + 4),
        has_bytes_iff packet offset (40 + payload_length),
        ipv6_found-IsDecoded (offset + (40 + payload_length)),
      )

  decode_network-IsDecoded : Holds (IsDecoded packet) (decode_network r packet offset)
  unfolding decode_network
  decode_network-IsDecoded = ground (arith, decode_ipv4-IsDecoded, decode_ipv6-IsDecoded)

vlan_loop-IsDecoded :
    (fuel : ℕ) (packet : Bytes) (r : PacketDecodeResult) (offset : ℕ)
    → AtNetwork r
    → offset ≤ length packet
    → length packet < offset + 4 * fuel
    → Holds (IsDecoded packet) (vlan_loop fuel r packet offset)
unfolding vlan_loop
vlan_loop-IsDecoded zero packet r offset at i h = absurd (omega arith)
vlan_loop-IsDecoded (suc fuel) packet r offset at i h = ground (
  arith,
  has_bytes_iff packet offset 4,
  read_be16_lem packet (offset + 2),
  decode_network-IsDecoded packet r offset at,
  vlan_loop-IsDecoded fuel packet
      (record r {
        vlan_tag_count = (r.vlan_tag_count + 1) % 256;
        ethertype = be16 packet (offset + 2);
        link_header_length = r.link_header_length + 4;
      })
      (offset + 4),
)

-- On every packet the decoder reads inside of it and comes to an end. A result that has
-- succeeded carries no failure reason, and one that names a transport protocol is of an IP
-- packet, its headers follow one another, and header and payload lie inside of the packet. Its
-- addresses have 16 bytes, zero behind their length; ports and sequence number are in range.
pub decode_packet-IsDecoded : (packet : Bytes) → Holds (IsDecoded packet) (decode_packet packet)
unfolding decode_packet
decode_packet-IsDecoded packet = ground (
  arith,
  has_bytes_iff packet 0 14,
  read_be16_lem packet 12,
  vlan_loop-IsDecoded (length packet) packet
      (record empty_result { success = true; link_header_length = 14; ethertype = be16 packet 12 })
      14,
)
