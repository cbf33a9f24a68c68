-- ===== src/Policy.antt =====
-- src/policy/LiveCapturePolicy.hpp and LiveCapturePolicy.cpp: how much of a packet is written.
pub mod Bounds
use pcap_constrictor_afpacke.Base.{
  ℕ, ◌-◌, ◌/◌, ◌%◌, min, max, Bool, true, false, not, ◌&&◌, ◌||◌, Option, none, some, ltb, leb,
  ◌==◌, if◌then◌else◌, length, take, ◌>>=◌,
}
use pcap_constrictor_afpacke.Bytes.{Bytes}
use pcap_constrictor_afpacke.Config.{PolicyConfig}
use pcap_constrictor_afpacke.Decode.{
  IpVersion, no_ip, TransportProtocol, tcp, udp, PacketDecodeFailureReason, no_failure,
  PacketDecodeResult, decode_packet,
}
use pcap_constrictor_afpacke.Packet.{CapturedPacket, safe_captured_len}
use pcap_constrictor_afpacke.Quic
use pcap_constrictor_afpacke.Quic.{
  FlowStates, QuicConstrictResult, QuicConstrictDisposition, port_configured,
}
use pcap_constrictor_afpacke.Tls
use pcap_constrictor_afpacke.Tls.{Directions, TlsConstrictResult, TlsConstrictDisposition}

pub data DecisionReason : Type 0 where
  by_default parse_error non_ip tcp_packet udp_packet tls_candidate : DecisionReason
  tls_application_data_constricted tls_malformed_fallback tls_no_record_fallback : DecisionReason
  quic_candidate quic_long_header quic_short_header_matched : DecisionReason
  quic_short_header_constricted quic_short_header_unknown_cid_fallback : DecisionReason
  quic_short_header_dcid_mismatch_fallback quic_malformed_fallback : DecisionReason

pub record LiveCaptureDecision : Type 0 where
  pub output_len : ℕ
  pub original_len : ℕ
  pub reason : DecisionReason
  pub decode : PacketDecodeResult

pub record LiveCapturePolicy : Type 0 where
  pub config : PolicyConfig
  pub tls_constrictor : Directions
  pub quic_constrictor : FlowStates

-- The constructor: both tables start empty.
abbrev pub new_policy : PolicyConfig → LiveCapturePolicy
new_policy config = record {
  config = config;
  tls_constrictor = λ k. none;
  quic_constrictor = λ k. none;
}

unfoldable pub apply_minimum_savings_threshold : ℕ → ℕ → ℕ → ℕ
apply_minimum_savings_threshold baseline_output_len candidate_output_len min_saved =
    if leb baseline_output_len candidate_output_len
    then baseline_output_len
    else if ltb (baseline_output_len - candidate_output_len) min_saved
    then baseline_output_len
    else candidate_output_len

abbrev has_failure : PacketDecodeFailureReason → Bool
has_failure no_failure = false
has_failure _ = true

abbrev is_no_ip : IpVersion → Bool
is_no_ip no_ip = true
is_no_ip _ = false

-- The part of the choice of a reason that goes by the transport protocol.
abbrev transport_reason : PolicyConfig → PacketDecodeResult → TransportProtocol → DecisionReason
transport_reason config decoded tcp =
    if config.tls.enabled
      && (port_configured config.tls.ports decoded.src_port
          || port_configured config.tls.ports decoded.dst_port)
    then tls_candidate
    else tcp_packet
transport_reason config decoded udp =
    if config.quic.enabled
      && (port_configured config.quic.ports decoded.src_port
          || port_configured config.quic.ports decoded.dst_port)
    then quic_candidate
    else udp_packet
transport_reason config decoded _ = by_default

-- The reason before the constrictors are asked.
unfoldable pub classify : PolicyConfig → Bool → PacketDecodeResult → DecisionReason
classify config malformed decoded =
    if malformed
    then parse_error
    else if has_failure decoded.failure_reason
    then parse_error
    else if decoded.success && is_no_ip decoded.ip_version
    then non_ip
    else transport_reason config decoded decoded.transport_protocol

-- The final length and reason, and the constrictors' tables.
pub record Verdict : Type 0 where
  pub final_output_len : ℕ
  pub reason : DecisionReason
  pub tls_constrictor : Directions
  pub quic_constrictor : FlowStates

-- `tcp_flags & kTcpSynOrRstFlags`
abbrev has_syn_or_rst : ℕ → Bool
has_syn_or_rst tcp_flags = not (tcp_flags / 2 % 4 == 0)

-- The branches on the TLS disposition: length and reason.
unfoldable pub apply_tls : ℕ → ℕ → TlsConstrictDisposition → ℕ → ℕ × DecisionReason
apply_tls min_saved output_len Tls.app_data_prefix tls_len =
    let final = apply_minimum_savings_threshold output_len (min output_len tls_len) min_saved in
    (final, if ltb final output_len then tls_application_data_constricted else tls_candidate)
apply_tls min_saved output_len Tls.malformed tls_len = (output_len, tls_malformed_fallback)
apply_tls min_saved output_len Tls.uncertain_fallback tls_len = (output_len, tls_malformed_fallback)
apply_tls min_saved output_len Tls.no_record tls_len = (output_len, tls_no_record_fallback)
apply_tls min_saved output_len Tls.no_application_data tls_len = (output_len, tls_candidate)

-- The branches on the QUIC disposition.
unfoldable pub apply_quic : ℕ → ℕ → QuicConstrictDisposition → ℕ → ℕ × DecisionReason
apply_quic min_saved output_len Quic.long_header quic_len = (output_len, quic_long_header)
apply_quic min_saved output_len Quic.short_header_matched quic_len =
    let final = apply_minimum_savings_threshold output_len (min output_len quic_len) min_saved in
    (
      final,
      if ltb final output_len then quic_short_header_constricted else quic_short_header_matched,
    )
apply_quic min_saved output_len Quic.unknown_cid_fallback quic_len =
    (output_len, quic_short_header_unknown_cid_fallback)
apply_quic min_saved output_len Quic.dcid_mismatch_fallback quic_len =
    (output_len, quic_short_header_dcid_mismatch_fallback)
apply_quic min_saved output_len Quic.malformed_fallback quic_len =
    (output_len, quic_malformed_fallback)
apply_quic min_saved output_len Quic.not_applicable quic_len = (output_len, quic_candidate)

-- The call of a constrictor, for a packet whose reason is one of the two candidates.
unfoldable pub constrict :
    LiveCapturePolicy → DecisionReason → Bytes → PacketDecodeResult → ℕ → Option Verdict
constrict policy tls_candidate packet decoded output_len =
    let whole : Verdict = record {
      final_output_len = output_len;
      reason = tls_candidate;
      tls_constrictor = policy.tls_constrictor;
      quic_constrictor = policy.quic_constrictor;
    } in
    if ltb 0 decoded.transport_payload_length || has_syn_or_rst decoded.tcp_flags
    then (do
      (result, directions) ← Tls.evaluate policy.tls_constrictor packet decoded policy.config.tls
      let (final, reason) =
          apply_tls policy.config.general.min_saved_bytes_per_packet output_len result.disposition
            result.output_len
      some (record whole {
        final_output_len = final;
        reason = reason;
        tls_constrictor = directions;
      }))
    else some whole
constrict policy quic_candidate packet decoded output_len =
    let whole : Verdict = record {
      final_output_len = output_len;
      reason = quic_candidate;
      tls_constrictor = policy.tls_constrictor;
      quic_constrictor = policy.quic_constrictor;
    } in
    if ltb 0 decoded.transport_payload_length
    then (do
      (result, flows) ← Quic.evaluate policy.quic_constrictor packet decoded policy.config.quic
      let (final, reason) =
          apply_quic policy.config.general.min_saved_bytes_per_packet output_len result.disposition
            result.output_len
      some (record whole { final_output_len = final; reason = reason; quic_constrictor = flows }))
    else some whole
constrict policy reason packet decoded output_len = some (record {
  final_output_len = output_len;
  reason = reason;
  tls_constrictor = policy.tls_constrictor;
  quic_constrictor = policy.quic_constrictor;
})

-- The length that is written when nothing is constricted.
unfoldable pub baseline_len : PolicyConfig → CapturedPacket → ℕ
baseline_len config p =
    min
      (min (min (safe_captured_len p.packet) p.packet.original_len) config.capture.default_snaplen)
      config.capture.max_capture_len

unfoldable pub is_malformed : CapturedPacket → Bool
is_malformed p =
    ltb (length p.packet.data_span) p.packet.captured_len
    || ltb p.packet.original_len (safe_captured_len p.packet)

unfoldable pub evaluate :
    LiveCapturePolicy → CapturedPacket → Option (LiveCaptureDecision × LiveCapturePolicy)
evaluate policy p =
    let bytes = take (safe_captured_len p.packet) p.packet.data_span in
    let output_len = baseline_len policy.config p in
    do
      decoded ← decode_packet bytes
      verdict ←
          constrict policy (classify policy.config (is_malformed p) decoded) bytes decoded
            output_len
      some (
        record {
          output_len = verdict.final_output_len;
          original_len = max p.packet.original_len output_len;
          reason = verdict.reason;
          decode = decoded;
        },
        record policy {
          tls_constrictor = verdict.tls_constrictor;
          quic_constrictor = verdict.quic_constrictor;
        },
      )
