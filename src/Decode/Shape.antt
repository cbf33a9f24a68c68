-- ===== src/Decode/Shape.antt =====
-- What a decoded result is, and that the TCP and UDP decoders give one.
use pcap_constrictor_afpacke.Base.{
  ℕ, ◌+◌, ◌-◌, ◌*◌, ◌/◌, ◌%◌, ◌≤◌, ◌<◌, ◌≡◌, ◌≢◌, ◌⊎◌, true, false, arith, length, take, drop,
  replicate, Holds, length-append, length-take, length-drop, length-replicate, drop-append,
}
use pcap_constrictor_afpacke.Bytes.{
  Bytes, be16, byte_at, has_bytes_iff, read_lem, read_be16_lem, read_be32_lem, subspan_lem, u16_mod,
  u32_mod,
}
use pcap_constrictor_afpacke.Decode.{
  no_ip, no_transport, no_failure, PacketDecodeResult, copy_address, tcp_fields, decode_tcp,
  udp_fields, decode_udp, decode_transport,
}

-- A 16-byte array that holds an address of `count` bytes, then zeros.
pub record IsAddress (count : ℕ) (a : Bytes) : Type 0 where
  pub size : length a ≡ 16
  pub zeros : drop count a ≡ replicate (16 - count) 0

-- What holds of a result from its first field on.
pub record IsShaped (r : PacketDecodeResult) : Type 0 where
  pub src_size : IsAddress r.address_length r.src_address
  pub dst_size : IsAddress r.address_length r.dst_address
  pub src_range : r.src_port < u16_mod
  pub dst_range : r.dst_port < u16_mod
  pub seq_range : r.tcp_seq < u32_mod

-- The outcome and the reason agree.
abbrev pub Agrees : PacketDecodeResult → Type 0
Agrees r =
    ((r.success ≡ true) × (r.failure_reason ≡ no_failure))
    ⊎ ((r.success ≡ false) × (r.failure_reason ≢ no_failure))

-- A transport header and its payload lie one behind the other inside of the packet.
pub record HasTransport (packet : Bytes) (r : PacketDecodeResult) : Type 0 where
  pub succeeded : r.success ≡ true
  pub over_ip : r.ip_version ≢ no_ip
  pub header_at : r.transport_header_offset ≡ r.network_header_offset + r.network_header_length
  pub header_size : 8 ≤ r.transport_header_length
  pub payload_at :
      r.transport_payload_offset ≡ r.transport_header_offset + r.transport_header_length
  pub payload_inside : r.transport_payload_offset + r.transport_payload_length ≤ length packet

pub record IsDecoded (packet : Bytes) (r : PacketDecodeResult) : Type 0 where
  pub shaped : IsShaped r
  pub agrees : Agrees r
  pub transport : (r.transport_protocol ≡ no_transport) ⊎ HasTransport packet r

pub copy_address_lem :
    (packet : Bytes) (offset count : ℕ)
    → offset + count ≤ length packet
    → count ≤ 16
    → Holds (IsAddress count) (copy_address packet offset count)
unfolding copy_address
copy_address_lem packet offset count h k =
    let bytes : Bytes = take count (drop offset packet) in
    let size : length bytes ≡ count =
      omega (arith, length-take count (drop offset packet), length-drop offset packet) in
    rw (subspan_lem packet offset count h) (record {
      size = omega (
        arith,
        length-append bytes (replicate (16 - count) 0),
        length-replicate {A = ℕ} (16 - count) 0,
      );
      zeros = drop-append bytes (replicate (16 - count) 0) count (omega arith);
    })

-- The network header has been read, and the transport header may follow.
pub record AtTransport (packet : Bytes) (r : PacketDecodeResult) (offset end : ℕ) : Type 0 where
  pub shaped : IsShaped r
  pub succeeded : r.success ≡ true
  pub no_reason : r.failure_reason ≡ no_failure
  pub unset : r.transport_protocol ≡ no_transport
  pub over_ip : r.ip_version ≢ no_ip
  pub header_at : offset ≡ r.network_header_offset + r.network_header_length
  pub end_inside : end ≤ length packet

module _ (packet : Bytes) (r : PacketDecodeResult) (offset end : ℕ)
    (at : AtTransport packet r offset end) where
  pub tcp_fields-IsDecoded :
      (header_length : ℕ)
      → 20 ≤ header_length
      → offset + header_length ≤ end
      → Holds (IsDecoded packet) (tcp_fields r packet offset end header_length)
  unfolding tcp_fields
  tcp_fields-IsDecoded n h k = ground (
    arith,
    read_be16_lem packet offset,
    read_be16_lem packet (offset + 2),
    read_be32_lem packet (offset + 4),
    read_lem packet (offset + 13),
  )

  pub decode_tcp-IsDecoded : Holds (IsDecoded packet) (decode_tcp r packet offset end)
  unfolding decode_tcp
  decode_tcp-IsDecoded = ground (
    arith,
    has_bytes_iff packet offset 20,
    read_lem packet (offset + 12),
    tcp_fields-IsDecoded (byte_at packet (offset + 12) / 16 * 4 % 256),
  )

  pub udp_fields-IsDecoded :
      (n : ℕ) → 8 ≤ n → offset + n ≤ end → Holds (IsDecoded packet) (udp_fields r packet offset n)
  unfolding udp_fields
  udp_fields-IsDecoded n h k =
      ground (arith, read_be16_lem packet offset, read_be16_lem packet (offset + 2))

  pub decode_udp-IsDecoded : Holds (IsDecoded packet) (decode_udp r packet offset end)
  unfolding decode_udp
  decode_udp-IsDecoded = ground (
    arith,
    has_bytes_iff packet offset 8,
    read_be16_lem packet (offset + 4),
    udp_fields-IsDecoded (be16 packet (offset + 4)),
  )

  pub decode_transport-IsDecoded : Holds (IsDecoded packet) (decode_transport r packet offset end)
  unfolding decode_transport
  decode_transport-IsDecoded = ground (arith, decode_tcp-IsDecoded, decode_udp-IsDecoded)
