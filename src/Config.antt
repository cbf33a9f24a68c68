-- ===== src/Config.antt =====
-- src/policy/PolicyConfig.hpp: the options and their default values. Texts are lists of bytes.
use pcap_constrictor_afpacke.Base.{ℕ, Bool, true, false, List, [], ◌∷◌}
use pcap_constrictor_afpacke.Bytes.{Bytes}

pub data CaptureBackend : Type 0 where
  recvmsg tpacket_v3 : CaptureBackend

pub data TlsAppDataContinuationPolicy : Type 0 where
  final_only stream bulk : TlsAppDataContinuationPolicy

pub record GeneralOptions : Type 0 where
  pub min_saved_bytes_per_packet : ℕ

pub record CaptureOptions : Type 0 where
  pub backend : CaptureBackend
  pub interface : Bytes
  pub promiscuous : Bool
  pub default_snaplen : ℕ
  pub max_capture_len : ℕ
  pub max_packets : ℕ
  pub duration_sec : ℕ
  pub ring_block_size : ℕ
  pub ring_block_count : ℕ
  pub ring_frame_size : ℕ
  pub block_timeout_ms : ℕ
  pub output : Bytes

pub record TlsOptions : Type 0 where
  pub enabled : Bool
  pub ports : List ℕ
  pub app_data_keep_record_bytes : ℕ
  pub app_data_continuation_keep_bytes : ℕ
  pub app_data_continuation_policy : TlsAppDataContinuationPolicy

pub record QuicOptions : Type 0 where
  pub enabled : Bool
  pub ports : List ℕ
  pub short_header_keep_packet_bytes : ℕ
  pub require_dcid_match : Bool
  pub allow_short_header_without_known_dcid : Bool

pub record StatsOptions : Type 0 where
  pub enabled : Bool

pub record PolicyConfig : Type 0 where
  pub general : GeneralOptions
  pub capture : CaptureOptions
  pub tls : TlsOptions
  pub quic : QuicOptions
  pub stats : StatsOptions

abbrev pub default_config : PolicyConfig
default_config = record {
  general = record { min_saved_bytes_per_packet = 16 };
  capture = record {
    backend = recvmsg;
    interface = [];
    promiscuous = false;
    default_snaplen = 65535;
    max_capture_len = 65535;
    max_packets = 0;
    duration_sec = 0;
    ring_block_size = 1048576;
    ring_block_count = 64;
    ring_frame_size = 2048;
    block_timeout_ms = 64;
    output = b'o' ∷ b'u' ∷ b't' ∷ b'p' ∷ b'u' ∷ b't' ∷ b'.' ∷ b'p' ∷ b'c' ∷ b'a' ∷ b'p' ∷ [];
  };
  tls = record {
    enabled = true;
    ports = 443 ∷ 8443 ∷ [];
    app_data_keep_record_bytes = 256;
    app_data_continuation_keep_bytes = 64;
    app_data_continuation_policy = final_only;
  };
  quic = record {
    enabled = true;
    ports = 443 ∷ [];
    short_header_keep_packet_bytes = 128;
    require_dcid_match = false;
    allow_short_header_without_known_dcid = true;
  };
  stats = record { enabled = true };
}
