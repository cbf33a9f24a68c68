-- ===== src/Loader/Assign.antt =====
-- `AssignValue` in src/config/ConfigLoader.cpp. A message is a constructor.
use pcap_constrictor_afpacke.Base.{◌||◌, not, Option, none, some, if◌then◌else◌}
use pcap_constrictor_afpacke.Base.Result.{Result, ok, err, ◌>>=◌}
use pcap_constrictor_afpacke.Bytes.{Bytes}
use pcap_constrictor_afpacke.Config.{
  PolicyConfig, TlsAppDataContinuationPolicy, final_only, stream, bulk,
}
use pcap_constrictor_afpacke.Loader.Text.{codes, to_lower, text_eq, trim}
use pcap_constrictor_afpacke.Loader.Values.{
  parse_bool, parse_tls_app_data_continuation_policy, parse_backend, parse_uint32, parse_uint64,
  parse_ports,
}

pub data ConfigMessage : Type 0 where
  unterminated_section empty_section expected_key_value key_before_section empty_key empty_value :
      ConfigMessage
  unknown_section unknown_backend invalid_promiscuous invalid_ring_option invalid_capture_option :
      ConfigMessage
  unknown_capture_key invalid_general unknown_general_key invalid_tls_enabled invalid_tls_ports :
      ConfigMessage
  invalid_continuation_policy unsupported_continuation_policy invalid_tls unknown_tls_key :
      ConfigMessage
  invalid_quic_flag invalid_quic_ports invalid_quic unknown_quic_key : ConfigMessage
  unknown_stats_key invalid_stats_enabled : ConfigMessage
  zero_snaplen zero_max_capture_len zero_ring_block_size zero_ring_block_count : ConfigMessage
  zero_ring_frame_size block_size_not_multiple : ConfigMessage

abbrev pub Assigned : Type 0
Assigned = Result ConfigMessage PolicyConfig

-- A value that is parsed, or the message.
abbrev pub or_message {ℓ} : {A : Type ℓ} → Option A → ConfigMessage → Result ConfigMessage A
or_message none message = err message
or_message (some a) message = ok a

unfoldable pub assign_capture : PolicyConfig → Bytes → Bytes → Assigned
assign_capture config key value =
    if text_eq key (codes "backend")
    then (do
      backend ← or_message (parse_backend value) unknown_backend
      ok (record config { capture = record (config.capture) { backend = backend } }))
    else if text_eq key (codes "interface")
    then ok (record config { capture = record (config.capture) { interface = trim value } })
    else if text_eq key (codes "promiscuous")
    then (do
      parsed ← or_message (parse_bool value) invalid_promiscuous
      ok (record config { capture = record (config.capture) { promiscuous = parsed } }))
    else if text_eq key (codes "output")
    then ok (record config { capture = record (config.capture) { output = trim value } })
    else if text_eq key (codes "ring_block_size")
        || text_eq key (codes "ring_block_count")
        || text_eq key (codes "ring_frame_size")
        || text_eq key (codes "block_timeout_ms")
    then (do
      parsed ← or_message (parse_uint32 value) invalid_ring_option
      ok (record config {
        capture =
            if text_eq key (codes "ring_block_size")
            then record (config.capture) { ring_block_size = parsed }
            else if text_eq key (codes "ring_block_count")
            then record (config.capture) { ring_block_count = parsed }
            else if text_eq key (codes "ring_frame_size")
            then record (config.capture) { ring_frame_size = parsed }
            else record (config.capture) { block_timeout_ms = parsed };
      }))
    else if text_eq key (codes "max_packets") || text_eq key (codes "duration_sec")
    then (do
      parsed ← or_message (parse_uint64 value) invalid_capture_option
      ok (record config {
        capture =
            if text_eq key (codes "max_packets")
            then record (config.capture) { max_packets = parsed }
            else record (config.capture) { duration_sec = parsed };
      }))
    else (do
      parsed ← or_message (parse_uint32 value) invalid_capture_option
      if text_eq key (codes "default_snaplen")
          then ok (record config { capture = record (config.capture) { default_snaplen = parsed } })
          else if text_eq key (codes "max_capture_len")
          then ok (record config { capture = record (config.capture) { max_capture_len = parsed } })
          else err unknown_capture_key)

unfoldable pub assign_general : PolicyConfig → Bytes → Bytes → Assigned
assign_general config key value = do
  parsed ← or_message (parse_uint32 value) invalid_general
  if text_eq key (codes "min_saved_bytes_per_packet")
      then ok (record config {
        general = record (config.general) { min_saved_bytes_per_packet = parsed };
      })
      else err unknown_general_key

-- Only `final_only` is taken.
unfoldable pub only_final :
    TlsAppDataContinuationPolicy → Result ConfigMessage TlsAppDataContinuationPolicy
only_final final_only = ok final_only
only_final stream = err unsupported_continuation_policy
only_final bulk = err unsupported_continuation_policy

unfoldable pub assign_tls : PolicyConfig → Bytes → Bytes → Assigned
assign_tls config key value =
    if text_eq key (codes "enabled")
    then (do
      parsed ← or_message (parse_bool value) invalid_tls_enabled
      ok (record config { tls = record (config.tls) { enabled = parsed } }))
    else if text_eq key (codes "ports")
    then (do
      ports ← or_message (parse_ports value) invalid_tls_ports
      ok (record config { tls = record (config.tls) { ports = ports } }))
    else if text_eq key (codes "app_data_continuation_policy")
    then (do
      parsed ← or_message (parse_tls_app_data_continuation_policy value) invalid_continuation_policy
      policy ← only_final parsed
      ok (record config { tls = record (config.tls) { app_data_continuation_policy = policy } }))
    else (do
      parsed ← or_message (parse_uint32 value) invalid_tls
      if text_eq key (codes "app_data_keep_record_bytes")
          then ok
              (record config { tls = record (config.tls) { app_data_keep_record_bytes = parsed } })
          else if text_eq key (codes "app_data_continuation_keep_bytes")
          then ok (record config {
            tls = record (config.tls) { app_data_continuation_keep_bytes = parsed };
          })
          else err unknown_tls_key)

unfoldable pub assign_quic : PolicyConfig → Bytes → Bytes → Assigned
assign_quic config key value =
    if text_eq key (codes "enabled")
      || text_eq key (codes "require_dcid_match")
      || text_eq key (codes "allow_short_header_without_known_dcid")
    then (do
      parsed ← or_message (parse_bool value) invalid_quic_flag
      ok (record config {
        quic =
            if text_eq key (codes "enabled")
            then record (config.quic) { enabled = parsed }
            else if text_eq key (codes "require_dcid_match")
            then record (config.quic) { require_dcid_match = parsed }
            else record (config.quic) { allow_short_header_without_known_dcid = parsed };
      }))
    else if text_eq key (codes "ports")
    then (do
      ports ← or_message (parse_ports value) invalid_quic_ports
      ok (record config { quic = record (config.quic) { ports = ports } }))
    else (do
      parsed ← or_message (parse_uint32 value) invalid_quic
      if text_eq key (codes "short_header_keep_packet_bytes")
          then ok (record config {
            quic = record (config.quic) { short_header_keep_packet_bytes = parsed };
          })
          else err unknown_quic_key)

unfoldable pub assign_stats : PolicyConfig → Bytes → Bytes → Assigned
assign_stats config key value =
    if not (text_eq key (codes "enabled")) then err unknown_stats_key else (do
      parsed ← or_message (parse_bool value) invalid_stats_enabled
      ok (record config { stats = record (config.stats) { enabled = parsed } }))

-- `AssignValue`; the configuration is only changed where it succeeds.
unfoldable pub assign_value : PolicyConfig → Bytes → Bytes → Bytes → Assigned
assign_value config section key value =
    let normalized_section = to_lower section in
    let normalized_key = to_lower key in
    if text_eq normalized_section (codes "capture")
    then assign_capture config normalized_key value
    else if text_eq normalized_section (codes "general")
    then assign_general config normalized_key value
    else if text_eq normalized_section (codes "tls")
    then assign_tls config normalized_key value
    else if text_eq normalized_section (codes "quic")
    then assign_quic config normalized_key value
    else if text_eq normalized_section (codes "stats")
    then assign_stats config normalized_key value
    else err unknown_section
