-- ===== src/Live/Counted.antt =====
-- The counters and the file of the live loop between two rounds.
use pcap_constrictor_afpacke.Live.Duration.{IsBefore}
use pcap_constrictor_afpacke.Writer.Written.{Records, records_bytes}
use pcap_constrictor_afpacke.Writer.Layout.{global_header_bytes}
use pcap_constrictor_afpacke.Base.{ℕ, ◌+◌, ◌*◌, ◌≤◌, ◌<◌, ◌≡◌, ◌≢◌, true, arith, length, min, ◌++◌}
use pcap_constrictor_afpacke.Bytes.{u32_mod, u64_mod, Bytes}
use pcap_constrictor_afpacke.Config.{PolicyConfig}
use pcap_constrictor_afpacke.Offline
use pcap_constrictor_afpacke.Offline.Totals.{IsCounted, IsAccount}
use pcap_constrictor_afpacke.Packet.{CapturedPacket}
use pcap_constrictor_afpacke.Policy.{DecisionReason, LiveCaptureDecision}
use pcap_constrictor_afpacke.Policy.Bounds.{IsPolicy}
use pcap_constrictor_afpacke.Stats.{CaptureStats}
use pcap_constrictor_afpacke.Live.{accumulate_decision_stats, count_packet, Live, Surroundings}

-- For all counters and every reason, AccumulateDecisionStats of main.cpp and of
-- OfflinePacketFeed.cpp give the same counters.
pub accumulate_decision_stats_agree :
    (stats : CaptureStats) (reason : DecisionReason)
    → accumulate_decision_stats stats reason ≡ Offline.accumulate_decision_stats stats reason
unfolding accumulate_decision_stats Offline.accumulate_decision_stats
accumulate_decision_stats_agree stats reason = ground arith

pub count_packet-IsCounted :
    (packets input : ℕ) (s : CaptureStats) (p : CapturedPacket) (d : LiveCaptureDecision)
    → IsCounted packets input s
    → packets + 1 < u64_mod
    → input + p.packet.captured_len < u64_mod
    → d.output_len ≤ p.packet.captured_len
    → IsCounted (packets + 1) (input + p.packet.captured_len) (count_packet s p d)
      × ((count_packet s p d).bytes_output ≡ s.bytes_output + d.output_len)
unfolding count_packet accumulate_decision_stats
count_packet-IsCounted packets input s p d c n i o =
    ground (arith, c.total_is, c.written_is, c.input_is, c.output_le, c.decisions_le)

-- Before each packet there was a reading of the clock, and no reading so far was at the limit.
abbrev pub IsInTime : Surroundings → PolicyConfig → ℕ → ℕ → Type 0
IsInTime world config packets readings =
    config.capture.duration_sec ≢ 0
    → (packets ≤ readings)
      × ((k : ℕ) → k < readings → IsBefore config.capture.duration_sec (world.elapsed k))

-- The header of the output names this length.
abbrev pub output_snaplen : PolicyConfig → ℕ
output_snaplen config = min config.capture.default_snaplen config.capture.max_capture_len

-- The output of these packets.
abbrev pub live_file : PolicyConfig → Records → Bytes
live_file config records = global_header_bytes (output_snaplen config) ++ records_bytes records

-- The state between two rounds, where `bound` bounds the packets there can be.
module _ {S : Type 0} (valid : S → Type 0) (budget : S → ℕ) (world : Surroundings)
    (config : PolicyConfig) (bound : ℕ) where
  pub record IsLive (live : Live S) : Type 0 where
    pub state_ok : valid live.capture
    pub policy_ok : IsPolicy live.policy
    pub packets : ℕ
    pub input : ℕ
    pub counted : IsCounted packets input live.stats
    pub packets_le : packets + budget live.capture ≤ bound
    pub input_le : input ≤ packets * u32_mod
    pub header_is : live.writer.global_header_written ≡ true
    pub file_is : length live.writer.output.contents ≡ 24 + packets * 16 + live.stats.bytes_output
    pub max_le : config.capture.max_packets ≢ 0 → packets ≤ config.capture.max_packets
    pub snaplen_is : live.writer.snaplen ≡ output_snaplen config
    pub records : Records
    pub account : IsAccount records live.stats
    pub contents_is : live.writer.output.contents ≡ live_file config records
    pub in_time : IsInTime world config packets live.readings
