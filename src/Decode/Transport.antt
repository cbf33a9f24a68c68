-- ===== src/Decode/Transport.antt =====
-- The TCP and UDP headers in src/decode/PacketDecode.cpp.
use pcap_constrictor_afpacke.Base.{
  ℕ, ◌+◌, ◌-◌, ◌*◌, ◌/◌, ◌%◌, false, not, ◌||◌, ◌++◌, Option, some, ltb, ◌==◌, if◌then◌else◌,
  replicate, ◌>>=◌,
}
use pcap_constrictor_afpacke.Bytes.{Bytes, has_bytes, read, read_be16, read_be32, subspan}
use pcap_constrictor_afpacke.Decode.Types.{
  PacketDecodeFailureReason, PacketDecodeResult, ip_protocol_tcp, ip_protocol_udp, tcp, udp,
  truncated_tcp_header, invalid_tcp_data_offset, truncated_udp_header, invalid_udp_length,
  truncated_udp_payload,
}

-- `failure_reason = reason; success = false`
unfoldable pub fail : PacketDecodeResult → PacketDecodeFailureReason → PacketDecodeResult
fail result reason = record result { success = false; failure_reason = reason }

-- The 16-byte address array: `length` bytes of the packet, then zeros.
unfoldable pub copy_address : Bytes → ℕ → ℕ → Option Bytes
copy_address packet offset count = do
  bytes ← subspan packet offset count
  some (bytes ++ replicate (16 - count) 0)

-- The assignments of `DecodeTcp` once the header has been checked.
unfoldable pub tcp_fields : PacketDecodeResult → Bytes → ℕ → ℕ → ℕ → Option PacketDecodeResult
tcp_fields result packet transport_offset transport_end header_length = do
  src ← read_be16 packet transport_offset
  dst ← read_be16 packet (transport_offset + 2)
  seq ← read_be32 packet (transport_offset + 4)
  flags ← read packet (transport_offset + 13)
  some (record result {
    transport_protocol = tcp;
    transport_header_offset = transport_offset;
    transport_header_length = header_length;
    transport_payload_offset = transport_offset + header_length;
    transport_payload_length = transport_end - (transport_offset + header_length);
    src_port = src;
    dst_port = dst;
    tcp_seq = seq;
    tcp_flags = flags;
  })

unfoldable pub decode_tcp : PacketDecodeResult → Bytes → ℕ → ℕ → Option PacketDecodeResult
unfolding fail
decode_tcp result packet transport_offset transport_end =
    if not (has_bytes packet transport_offset 20) || ltb transport_end (transport_offset + 20)
    then some (fail result truncated_tcp_header)
    else do
      b ← read packet (transport_offset + 12)
      let header_length = (b / 16 * 4) % 256
      if ltb header_length 20
          then some (fail result invalid_tcp_data_offset)
          else if not (has_bytes packet transport_offset header_length)
              || ltb transport_end (transport_offset + header_length)
          then some (fail result truncated_tcp_header)
          else tcp_fields result packet transport_offset transport_end header_length

unfoldable pub udp_fields : PacketDecodeResult → Bytes → ℕ → ℕ → Option PacketDecodeResult
udp_fields result packet transport_offset udp_length = do
  src ← read_be16 packet transport_offset
  dst ← read_be16 packet (transport_offset + 2)
  some (record result {
    transport_protocol = udp;
    transport_header_offset = transport_offset;
    transport_header_length = 8;
    transport_payload_offset = transport_offset + 8;
    transport_payload_length = udp_length - 8;
    src_port = src;
    dst_port = dst;
  })

unfoldable pub decode_udp : PacketDecodeResult → Bytes → ℕ → ℕ → Option PacketDecodeResult
unfolding fail
decode_udp result packet transport_offset transport_end =
    if not (has_bytes packet transport_offset 8) || ltb transport_end (transport_offset + 8)
    then some (fail result truncated_udp_header)
    else do
      udp_length ← read_be16 packet (transport_offset + 4)
      if ltb udp_length 8
          then some (fail result invalid_udp_length)
          else if ltb transport_end (transport_offset + udp_length)
          then some (fail result truncated_udp_payload)
          else udp_fields result packet transport_offset udp_length

-- The last branch of both network decoders, on the protocol number.
unfoldable pub decode_transport : PacketDecodeResult → Bytes → ℕ → ℕ → Option PacketDecodeResult
decode_transport result packet transport_offset transport_end =
    if result.ip_protocol == ip_protocol_tcp
    then decode_tcp result packet transport_offset transport_end
    else if result.ip_protocol == ip_protocol_udp
    then decode_udp result packet transport_offset transport_end
    else some result
