-- ===== src/Tests/QuicExamples.antt =====
-- A request and its reply in a QUIC flow.
use pcap_constrictor_afpacke.Quic.Matched.{IsJustified, payload_of, evaluate-IsMatched}
use pcap_constrictor_afpacke.Quic.Outcome.{IsQuicOutcome, IsFlow}
use pcap_constrictor_afpacke.Base.{
  ◌≡◌, ◌≢◌, refl, ap, none, true, [], ◌∷◌, arith, replicate, inr, some, Holds, Holds-of,
}
use pcap_constrictor_afpacke.Bytes.{Bytes}
use pcap_constrictor_afpacke.Config.{default_config}
use pcap_constrictor_afpacke.Decode.{PacketDecodeResult, empty_result, udp, ipv4}
use pcap_constrictor_afpacke.Quic
use pcap_constrictor_afpacke.Quic.{
  FlowStates, LongHeaderInfo, ConnectionId, make_canonical_flow, learn_scid, match_short,
  match_known,
}
use pcap_constrictor_afpacke.Quic.Replies.{
  IsReply, source, destination, opposite, make_canonical_flow-reply, match_short-learn_scid,
}
use pcap_constrictor_afpacke.Quic.{read_varint}
use pcap_constrictor_afpacke.Quic.Varints.{two_bytes, encode_varint, read_varint-encode_varint}
use pcap_constrictor_afpacke.Base.Checked.{ok}
use pcap_constrictor_afpacke.Base.{◌++◌}

abbrev request : PacketDecodeResult
request = record empty_result {
  ip_version = ipv4;
  transport_protocol = udp;
  src_address = 10 ∷ 0 ∷ 0 ∷ 1 ∷ replicate 12 0;
  dst_address = 10 ∷ 0 ∷ 0 ∷ 2 ∷ replicate 12 0;
  address_length = 4;
  src_port = 50000;
  dst_port = 443;
}

abbrev reply : PacketDecodeResult
reply = record request {
  src_address = request.dst_address;
  dst_address = request.src_address;
  src_port = 443;
  dst_port = 50000;
}

abbrev request-reply : IsReply request reply
request-reply = record {
  src_address = refl;
  dst_address = refl;
  src_port = refl;
  dst_port = refl;
  address_length = refl;
  ip_version = refl;
}

ends_differ : source request ≢ destination request
ends_differ e = absurd (omega (arith, ap (λ a. a.port) e))

make_canonical_flow-reply_example :
    ((make_canonical_flow reply).0 ≡ (make_canonical_flow request).0)
    × ((make_canonical_flow reply).1 ≡ opposite (make_canonical_flow request).1)
make_canonical_flow-reply_example =
    make_canonical_flow-reply request reply request-reply (record { size = refl; zeros = refl })
      (record { size = refl; zeros = refl }) (omega arith) ends_differ

abbrev announced : ConnectionId
announced = record { bytes = 7 ∷ 8 ∷ replicate 18 0; length = 2; known = true }

abbrev announcement : LongHeaderInfo
announcement = record {
  packet_type = 0;
  version = 1;
  dcid = announced;
  scid = announced;
  total_size = 20;
}

abbrev no_flows : FlowStates
no_flows k = none

abbrev short_payload : Bytes
short_payload = 0x40 ∷ 7 ∷ 8 ∷ 1 ∷ 2 ∷ []

match_short-learn_scid_example :
    match_short reply
      (default_config.quic)
      short_payload
      0
      (learn_scid
        (make_canonical_flow request).0
        (make_canonical_flow request).1
        announcement
        no_flows
        (make_canonical_flow reply).0)
      (make_canonical_flow reply).1
    ≡ match_known reply (default_config.quic) short_payload 0 announced
match_short-learn_scid_example =
    match_short-learn_scid request reply announcement no_flows (default_config.quic) short_payload 0
      request-reply (record { size = refl; zeros = refl }) (record { size = refl; zeros = refl })
      (omega arith) ends_differ refl (omega arith)

-- The example of RFC 9000, appendix A.1.
read_varint-encode_varint_example :
    read_varint ((1 ∷ 2 ∷ []) ++ (encode_varint two_bytes 15293 ++ (9 ∷ []))) 2 ≡ ok (15293, 4)
read_varint-encode_varint_example =
    read_varint-encode_varint (1 ∷ 2 ∷ []) (9 ∷ []) two_bytes 15293 (omega arith)

-- A short header with the announced id.
abbrev short_packet : Bytes
short_packet = 0x40 ∷ 7 ∷ 8 ∷ replicate 200 9

abbrev short_decoded : PacketDecodeResult
short_decoded = record request { success = true; transport_payload_length = 203 }

abbrev known_flows : FlowStates
known_flows k = some (record { endpoint_a_scid = announced; endpoint_b_scid = announced })

evaluate-IsMatched_example :
    Holds
      (λ o.
        IsQuicOutcome short_decoded o
        × IsJustified short_decoded (default_config.quic) (payload_of short_decoded short_packet) o)
      (Quic.evaluate known_flows short_packet short_decoded (default_config.quic))
evaluate-IsMatched_example =
    evaluate-IsMatched known_flows short_packet short_decoded (default_config.quic) (omega arith)
      (λ k s e.
        Holds-of IsFlow {m = known_flows k} {a = s}
          (record {
            a_ok = inr (record { known = refl; short = omega arith; array = refl }, omega arith);
            b_ok = inr (record { known = refl; short = omega arith; array = refl }, omega arith);
          })
          e)
