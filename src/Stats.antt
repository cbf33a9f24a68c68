-- ===== src/Stats.antt =====
-- src/stats/CaptureStats.hpp: the counters of a run, 64-bit numbers.
use pcap_constrictor_afpacke.Base.{ℕ, ◌+◌, ◌%◌, Bool, false}
use pcap_constrictor_afpacke.Bytes.{u64_mod}

pub record CaptureStats : Type 0 where
  pub packets_total : ℕ
  pub packets_written : ℕ
  pub bytes_input : ℕ
  pub bytes_output : ℕ
  pub bytes_saved : ℕ
  pub kernel_stats_available : Bool
  pub kernel_packets : ℕ
  pub kernel_drops : ℕ
  pub receive_errors : ℕ
  pub tls_appdata_constricted : ℕ
  pub tls_fallback : ℕ
  pub quic_long_header : ℕ
  pub quic_short_matched : ℕ
  pub quic_short_constricted : ℕ
  pub quic_fallback : ℕ

abbrev pub empty_stats : CaptureStats
empty_stats = record {
  packets_total = 0;
  packets_written = 0;
  bytes_input = 0;
  bytes_output = 0;
  bytes_saved = 0;
  kernel_stats_available = false;
  kernel_packets = 0;
  kernel_drops = 0;
  receive_errors = 0;
  tls_appdata_constricted = 0;
  tls_fallback = 0;
  quic_long_header = 0;
  quic_short_matched = 0;
  quic_short_constricted = 0;
  quic_fallback = 0;
}

-- `+=` on a counter.
abbrev pub add_count : ℕ → ℕ → ℕ
add_count count n = (count + n) % u64_mod
