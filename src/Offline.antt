-- ===== src/Offline.antt =====
-- src/offline/OfflinePacketFeed.hpp and OfflinePacketFeed.cpp: a file through the policy.
pub mod Totals
pub mod Results
pub mod Run
use pcap_constrictor_afpacke.Base.{
  ℕ, zero, suc, ◌+◌, ◌-◌, ◌%◌, min, Option, none, some, ◌>>=◌, Bool, true, false, if◌then◌else◌,
  ◌==◌, [],
}
use pcap_constrictor_afpacke.Base.Result.{Result, err, ok}
use pcap_constrictor_afpacke.Bytes.{Bytes, u64_mod}
use pcap_constrictor_afpacke.Config.{PolicyConfig}
use pcap_constrictor_afpacke.Packet.{PacketView, CapturedPacket, PacketDirection, unknown}
use pcap_constrictor_afpacke.Policy
use pcap_constrictor_afpacke.Policy.{
  DecisionReason, tls_application_data_constricted, tls_malformed_fallback, tls_no_record_fallback,
  quic_long_header, quic_short_header_matched, quic_short_header_constricted,
  quic_short_header_unknown_cid_fallback, quic_short_header_dcid_mismatch_fallback,
  quic_malformed_fallback, LiveCaptureDecision, LiveCapturePolicy, new_policy,
}
use pcap_constrictor_afpacke.Reader.{
  InputFile, PcapReader, PcapPacketRecord, PcapError, Next, timestamp, open_file, read_next,
}
use pcap_constrictor_afpacke.Stats.{CaptureStats, empty_stats, add_count}
use pcap_constrictor_afpacke.Writer.{OutputStream, PcapWriter, WriteError, new_writer, write_packet}

-- The error's text: the reader's, the feed's own, or that of the exception.
pub data FeedError : Type 0 where
  reader_error : PcapError → FeedError
  output_not_opened : FeedError
  write_error : WriteError → FeedError

pub record OfflinePacketFeedResult : Type 0 where
  pub stats : CaptureStats
  pub error : Option FeedError
  pub output : Option OutputStream

unfoldable pub accumulate_decision_stats : CaptureStats → DecisionReason → CaptureStats
accumulate_decision_stats stats tls_application_data_constricted = record stats {
  tls_appdata_constricted = add_count stats.tls_appdata_constricted 1;
}
accumulate_decision_stats stats tls_malformed_fallback = record stats {
  tls_fallback = add_count stats.tls_fallback 1;
}
accumulate_decision_stats stats tls_no_record_fallback = record stats {
  tls_fallback = add_count stats.tls_fallback 1;
}
accumulate_decision_stats stats quic_long_header = record stats {
  quic_long_header = add_count stats.quic_long_header 1;
}
accumulate_decision_stats stats quic_short_header_matched = record stats {
  quic_short_matched = add_count stats.quic_short_matched 1;
}
accumulate_decision_stats stats quic_short_header_constricted = record stats {
  quic_short_constricted = add_count stats.quic_short_constricted 1;
}
accumulate_decision_stats stats quic_short_header_unknown_cid_fallback = record stats {
  quic_fallback = add_count stats.quic_fallback 1;
}
accumulate_decision_stats stats quic_short_header_dcid_mismatch_fallback = record stats {
  quic_fallback = add_count stats.quic_fallback 1;
}
accumulate_decision_stats stats quic_malformed_fallback = record stats {
  quic_fallback = add_count stats.quic_fallback 1;
}
accumulate_decision_stats stats _ = stats

-- The objects of the loop in `Run`.
pub record Feed : Type 0 where
  pub reader : PcapReader
  pub writer : PcapWriter
  pub policy : LiveCapturePolicy
  pub stats : CaptureStats

-- The packet that the loop builds of a record.
abbrev pub captured_packet : PcapReader → PcapPacketRecord → CapturedPacket
captured_packet reader packet_record = record {
  packet = record {
    data_span = packet_record.bytes;
    captured_len = packet_record.captured_length;
    original_len = packet_record.original_length;
  };
  timestamp = timestamp packet_record reader.global_header.time_precision;
  ifindex = 0;
  direction = unknown;
}

-- The counters after a packet.
unfoldable pub count_packet : CaptureStats → PcapPacketRecord → LiveCaptureDecision → CaptureStats
count_packet stats packet_record decision =
    accumulate_decision_stats
      (record stats {
        packets_total = add_count stats.packets_total 1;
        packets_written = add_count stats.packets_written 1;
        bytes_input = add_count stats.bytes_input packet_record.captured_length;
        bytes_output = add_count stats.bytes_output decision.output_len;
      })
      decision.reason

-- The writing of a decided packet.
unfoldable pub write_decided :
    Feed → PcapPacketRecord → LiveCaptureDecision → LiveCapturePolicy → Result WriteError Feed
write_decided feed packet_record decision policy =
    elim (write_packet feed.writer (captured_packet feed.reader packet_record)
      decision.output_len) [
        | err e ↦ err e
        | ok writer ↦ ok (record feed {
          writer = writer;
          policy = policy;
          stats = count_packet feed.stats packet_record decision;
        })
      ]

-- The body of the loop; nothing at all is a read outside of a buffer.
unfoldable pub feed_packet : Feed → PcapPacketRecord → Option (Result WriteError Feed)
feed_packet feed packet_record = do
  (decision, policy) ← Policy.evaluate feed.policy (captured_packet feed.reader packet_record)
  some (write_decided feed packet_record decision policy)

-- After the loop. The difference is one of 64-bit numbers.
unfoldable pub finish : Feed → OfflinePacketFeedResult
finish feed = elim feed.reader.error [
  | some e ↦ record {
    stats = feed.stats;
    error = some (reader_error e);
    output = some feed.writer.output;
  }
  | none ↦ record {
    stats = record feed.stats {
      bytes_saved = (feed.stats.bytes_input + u64_mod - feed.stats.bytes_output) % u64_mod;
    };
    error = none;
    output = some feed.writer.output;
  }
]

-- `catch`; what the failed write has left in the file is not known.
abbrev pub caught : Feed → WriteError → OfflinePacketFeedResult
caught feed e = record { stats = feed.stats; error = some (write_error e); output = none }

-- The loop, for as many rounds as the fuel; nothing at all is also a fuel that is too small.
unfoldable pub feed_loop : ℕ → Feed → Option OfflinePacketFeedResult
feed_loop zero feed = none
feed_loop (suc fuel) feed =
    let next = read_next feed.reader in
    let feed' : Feed = record feed { reader = next.1 } in
    elim next.0 [
      | none ↦ some (finish feed')
      | some packet_record ↦ do
        fed ← feed_packet feed' packet_record
        elim fed [ err e ↦ some (caught feed' e) | ok feed'' ↦ feed_loop fuel feed'' ]
    ]

abbrev pub output_snaplen : PcapReader → PolicyConfig → ℕ
output_snaplen reader config =
    if reader.global_header.snaplen == 0
    then min config.capture.default_snaplen config.capture.max_capture_len
    else reader.global_header.snaplen

-- `std::ofstream` truncates the file; its device has room for so many bytes.
abbrev pub start_feed : PcapReader → ℕ → PolicyConfig → Feed
start_feed reader room config = record {
  reader = reader;
  writer = new_writer (record { contents = []; room = room }) (output_snaplen reader config);
  policy = new_policy config;
  stats = empty_stats;
}

abbrev pub fail_with : FeedError → OfflinePacketFeedResult
fail_with e = record { stats = empty_stats; error = some e; output = none }

-- `Run` on an input that was opened. A record takes 16 bytes of the file at least, so the file's
-- size is fuel enough.
unfoldable pub run_opened : PcapReader → Option ℕ → PolicyConfig → Option OfflinePacketFeedResult
run_opened reader none config = some (fail_with output_not_opened)
run_opened reader (some room) config =
    feed_loop (suc reader.file_size) (start_feed reader room config)

-- `Run`; without a room the output file cannot be opened.
unfoldable pub run : InputFile → Option ℕ → PolicyConfig → Option OfflinePacketFeedResult
run file output config =
    let (opened, reader) = open_file file in
    if opened then run_opened reader output config else elim reader.error [
      | some e ↦ some (fail_with (reader_error e))
      | none ↦ some (record { stats = empty_stats; error = none; output = none })
    ]
