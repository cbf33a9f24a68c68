-- ===== src/Tests/TlsExamples.antt =====
-- Segments of a TLS direction, as in tests/TlsConstrictorTests.cpp.
use pcap_constrictor_afpacke.Base.{
  find-insert_self, ◌<◌, ℕ, ◌+◌, ◌≡◌, refl, List, [], ◌∷◌, ◌++◌, none, some, length, replicate,
  true, insert, arith, Holds,
}
use pcap_constrictor_afpacke.Bytes.{Bytes}
use pcap_constrictor_afpacke.Config.{TlsOptions, final_only}
use pcap_constrictor_afpacke.Decode.{PacketDecodeResult, empty_result, tcp}
use pcap_constrictor_afpacke.Tls
use pcap_constrictor_afpacke.Tls.{
  TlsConstrictResult, Directions, DirectionState, new_direction, DirectionKey-discrete,
  make_direction_key, put, is_tls_content_type, is_syn_or_rst, advance_tcp_seq,
}
use pcap_constrictor_afpacke.Tls.FinalOnly.{
  final_result, kept_whole, Ended, evaluate_all, evaluate_all-final_only,
}
use pcap_constrictor_afpacke.Tls.Outcome.{IsTlsOutcome, evaluate-IsTlsOutcome}
use pcap_constrictor_afpacke.Tls.Records.{
  TlsRecord, encode_records, record_header, any_app_data, cut_point,
}
use pcap_constrictor_afpacke.Tls.Segment.{IsSegment}
use pcap_constrictor_afpacke.Tls.LastRound.{IsReady, Opened, verdict}
use pcap_constrictor_afpacke.Tls.WholeRecords.{evaluate_whole_records, evaluate_partial_record}

abbrev options : TlsOptions
options = record {
  enabled = true;
  ports = 443 ∷ [];
  app_data_keep_record_bytes = 8;
  app_data_continuation_keep_bytes = 2;
  app_data_continuation_policy = final_only;
}

abbrev segment_packet : Bytes → Bytes
segment_packet payload = replicate 54 0 ++ payload

abbrev segment_decoded : ℕ → Bytes → PacketDecodeResult
segment_decoded seq payload = record empty_result {
  success = true;
  transport_protocol = tcp;
  transport_payload_offset = 54;
  transport_payload_length = length payload;
  src_port = 50000;
  dst_port = 443;
  tcp_seq = seq;
  tcp_flags = 0x18;
}

segment_packet-IsSegment :
    (seq : ℕ) (payload : Bytes)
    → 0 < length payload
    → length payload < 1000
    → IsSegment (segment_packet payload) (segment_decoded seq payload)
unfolding is_syn_or_rst
segment_packet-IsSegment seq payload h small = record {
  over_tcp = refl;
  plain = refl;
  filled = h;
  inside = omega arith;
  small = omega arith;
}

-- A direction that is synchronised, with the next byte expected at 100.
abbrev idle_state : DirectionState
idle_state = record new_direction {
  confirmed_tls = true;
  synchronized = true;
  expected_tcp_seq = 100;
}

abbrev open_state : DirectionState
open_state = record idle_state {
  has_active_record = true;
  active_record_constrictible = true;
  active_record_content_type = 0x17;
  active_record_remaining_bytes = 9;
}

abbrev no_directions : Directions
no_directions k = none

abbrev directions_with : DirectionState → Directions
directions_with s = put (make_direction_key (segment_decoded 100 [])) s no_directions

abbrev two_records : List TlsRecord
two_records =
    record { content_type = 0x15; minor = 3; body = 1 ∷ 2 ∷ [] }
    ∷ record { content_type = 0x17; minor = 3; body = replicate 20 9 }
    ∷ []

directions_with-find :
    (s : DirectionState) → directions_with s (make_direction_key (segment_decoded 100 [])) ≡ some s
unfolding insert
directions_with-find s =
    find-insert_self DirectionKey-discrete (make_direction_key (segment_decoded 100 [])) s
      no_directions

segment_decoded-IsReady :
    (payload : Bytes)
    → IsReady (directions_with idle_state) (segment_decoded 100 payload) idle_state
unfolding make_direction_key
segment_decoded-IsReady payload = record {
  entry = directions_with-find idle_state;
  idle = refl;
  synchronized = refl;
  in_order = refl;
}

evaluate_whole_records_example :
    (o : TlsConstrictResult × Directions) × (Tls.evaluate
        (directions_with idle_state)
        (segment_packet (encode_records two_records))
        (segment_decoded 100 (encode_records two_records))
        options
      ≡ some o)
    × (o.0
        ≡ verdict
            (segment_packet (encode_records two_records))
            (segment_decoded 100 (encode_records two_records))
            (any_app_data two_records)
            (cut_point 8 0 (length (encode_records two_records)) two_records))
unfolding is_tls_content_type
evaluate_whole_records_example =
    evaluate_whole_records options (segment_packet (encode_records two_records))
      (segment_decoded 100 (encode_records two_records)) (directions_with idle_state) idle_state
      (segment_packet-IsSegment 100 (encode_records two_records) (omega arith) (omega arith))
      (segment_decoded-IsReady (encode_records two_records)) two_records refl
      (
        record { known = refl; short = omega arith },
        (record { known = refl; short = omega arith }, tt),
      )

abbrev cut_payload : Bytes
cut_payload = encode_records two_records ++ (record_header 0x17 3 40 ++ replicate 12 7)

evaluate_partial_record_example :
    (o : TlsConstrictResult × Directions) × (t : DirectionState) × (Tls.evaluate
        (directions_with idle_state)
        (segment_packet cut_payload)
        (segment_decoded 100 cut_payload)
        options
      ≡ some o)
    × (o.0
        ≡ verdict
            (segment_packet cut_payload)
            (segment_decoded 100 cut_payload)
            true
            (length (encode_records two_records) + 8))
    × (o.1 (make_direction_key (segment_decoded 100 cut_payload)) ≡ some t)
    × Opened t 0x17 28 (advance_tcp_seq 100 (length cut_payload))
unfolding is_tls_content_type
evaluate_partial_record_example =
    evaluate_partial_record options (segment_packet cut_payload) (segment_decoded 100 cut_payload)
      (directions_with idle_state) idle_state
      (segment_packet-IsSegment 100 cut_payload (omega arith) (omega arith))
      (segment_decoded-IsReady cut_payload) two_records 0x17 3 40 (replicate 12 7) refl
      (
        record { known = refl; short = omega arith },
        (record { known = refl; short = omega arith }, tt),
      )
      refl (omega arith) (omega arith)

abbrev middle_segment : Bytes × PacketDecodeResult
middle_segment = (segment_packet (replicate 4 1), segment_decoded 100 (replicate 4 1))

evaluate_all-final_only_example :
    (m : Directions) × (evaluate_all options (directions_with open_state) (
        middle_segment ∷ (segment_packet (replicate 5 2), segment_decoded 104 (replicate 5 2)) ∷ [])
      ≡ some (
        kept_whole middle_segment
            ∷ final_result options
                (segment_packet (replicate 5 2))
                (segment_decoded 104 (replicate 5 2))
            ∷ [],
        m,
      ))
    × Ended (make_direction_key (segment_decoded 100 [])) m
unfolding make_direction_key advance_tcp_seq
evaluate_all-final_only_example =
    evaluate_all-final_only options (make_direction_key (segment_decoded 100 []))
      (middle_segment ∷ []) (segment_packet (replicate 5 2)) (segment_decoded 104 (replicate 5 2))
      (directions_with open_state) open_state (directions_with-find open_state) refl refl refl
      (
        segment_packet-IsSegment 100 (replicate 4 1) (omega arith) (omega arith),
        refl,
        refl,
        (segment_packet-IsSegment 104 (replicate 5 2) (omega arith) (omega arith), refl, refl, tt),
      )
      refl

evaluate-IsTlsOutcome_example :
    Holds (IsTlsOutcome (segment_packet cut_payload) (segment_decoded 100 cut_payload)) (
      Tls.evaluate no_directions
        (segment_packet cut_payload)
        (segment_decoded 100 cut_payload)
        options)
evaluate-IsTlsOutcome_example =
    evaluate-IsTlsOutcome no_directions (segment_packet cut_payload)
      (segment_decoded 100 cut_payload) options (omega arith) (λ k s e. absurd (ground (arith, e)))
