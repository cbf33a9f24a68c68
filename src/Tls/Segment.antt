-- ===== src/Tls/Segment.antt =====
-- A segment that reaches the part of `Evaluate` behind its early returns.
use pcap_constrictor_afpacke.Base.{
  ◌+◌, ◌≤◌, ◌<◌, ◌≡◌, true, false, arith, length, take, drop, length-take, length-drop,
}
use pcap_constrictor_afpacke.Bytes.{Bytes, u32_mod, has_bytes_of, subspan_lem}
use pcap_constrictor_afpacke.Config.{TlsOptions}
use pcap_constrictor_afpacke.Decode.{PacketDecodeResult, is_tcp}
use pcap_constrictor_afpacke.Tls.{
  Directions, no_record, is_syn_or_rst, open_directions, evaluate_payload, evaluate,
}

-- A TCP segment that brings payload and neither opens nor resets the connection.
pub record IsSegment (packet : Bytes) (decoded : PacketDecodeResult) : Type 0 where
  pub over_tcp : is_tcp decoded.transport_protocol ≡ true
  pub plain : is_syn_or_rst decoded.tcp_flags ≡ false
  pub filled : 0 < decoded.transport_payload_length
  pub inside : decoded.transport_payload_offset + decoded.transport_payload_length ≤ length packet
  pub small : length packet < u32_mod

-- `packet.subspan(transport_payload_offset, transport_payload_length)`
abbrev pub payload_of : Bytes → PacketDecodeResult → Bytes
payload_of packet decoded =
    take decoded.transport_payload_length (drop decoded.transport_payload_offset packet)

module _ (packet : Bytes) (decoded : PacketDecodeResult) (segment : IsSegment packet decoded) where
  pub payload_size : length (payload_of packet decoded) ≡ decoded.transport_payload_length
  payload_size = omega (
    arith,
    length-take decoded.transport_payload_length (drop decoded.transport_payload_offset packet),
    length-drop decoded.transport_payload_offset packet,
  )

pub evaluate_segment :
    (config : TlsOptions) (packet : Bytes) (decoded : PacketDecodeResult) (directions : Directions)
    → IsSegment packet decoded
    → evaluate directions packet decoded config
      ≡ evaluate_payload directions decoded config
          (record { disposition = no_record; output_len = length packet })
          (payload_of packet decoded)
unfolding evaluate open_directions
evaluate_segment config packet decoded directions segment = ground (
  arith,
  has_bytes_of packet decoded.transport_payload_offset decoded.transport_payload_length,
  subspan_lem packet decoded.transport_payload_offset decoded.transport_payload_length,
)
