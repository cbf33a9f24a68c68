-- ===== src/Offline/Totals.antt =====
-- The counters of a run of the offline feed, and the size of the file that it writes.
use pcap_constrictor_afpacke.Writer.Layout.{global_header_bytes, record_bytes, missing_header}
use pcap_constrictor_afpacke.Packet.{CapturedPacket}
use pcap_constrictor_afpacke.Base.{
  ℕ, ◌+◌, ◌*◌, ◌≤◌, ◌<◌, ◌≡◌, refl, ◌⊎◌, true, false, arith, length, Holds, Holds-bind, ap, sym,
  ◌∙◌, subst, [], ◌∷◌, ◌++◌, append-nil, append_assoc, length-append, if◌then◌else◌,
}
use pcap_constrictor_afpacke.Base.Result.{Result, err, ok}
use pcap_constrictor_afpacke.Bytes.{u64_mod, Bytes}
use pcap_constrictor_afpacke.Policy.{LiveCaptureDecision, LiveCapturePolicy}
use pcap_constrictor_afpacke.Policy.Bounds.{IsPolicy, IsDecision, evaluate-IsDecision}
use pcap_constrictor_afpacke.Reader.{PcapReader, PcapPacketRecord}
use pcap_constrictor_afpacke.Reader.Progress.{IsReader, IsRecordRead}
use pcap_constrictor_afpacke.Stats.{CaptureStats}
use pcap_constrictor_afpacke.Writer.{PcapWriter, WriteError, write_failed, write_packet}
use pcap_constrictor_afpacke.Writer.Written.{
  IsWritten, write_packet-IsWritten, Records, records_bytes, captured_total, written_total,
  records_bytes-append, captured_total-append, written_total-append,
}
use pcap_constrictor_afpacke.Offline.{
  accumulate_decision_stats, Feed, captured_packet, count_packet, write_decided, feed_packet,
}

abbrev pub decision_total : CaptureStats → ℕ
decision_total s =
    s.tls_appdata_constricted + s.tls_fallback + s.quic_long_header + s.quic_short_matched
    + s.quic_short_constricted + s.quic_fallback

-- The counters after some packets, `input` bytes of which were read: none has wrapped.
pub record IsCounted (packets input : ℕ) (s : CaptureStats) : Type 0 where
  pub total_is : s.packets_total ≡ packets
  pub written_is : s.packets_written ≡ packets
  pub input_is : s.bytes_input ≡ input
  pub output_le : s.bytes_output ≤ s.bytes_input
  pub decisions_le : decision_total s ≤ packets

-- The file so far: nothing, or the file header and each record with its header.
abbrev pub IsFileOf : PcapWriter → ℕ → ℕ → Type 0
IsFileOf w packets bytes =
    ((w.global_header_written ≡ false)
      × (packets ≡ 0)
      × (bytes ≡ 0)
      × (length w.output.contents ≡ 0))
    ⊎ ((w.global_header_written ≡ true)
        × (0 < packets)
        × (length w.output.contents ≡ 24 + packets * 16 + bytes))

-- The counters are those of these packets.
pub record IsAccount (records : Records) (s : CaptureStats) : Type 0 where
  pub count_is : s.packets_total ≡ length records
  pub input_is : s.bytes_input ≡ captured_total records
  pub output_is : s.bytes_output ≡ written_total records

-- The file of these packets; without one there is no header either.
abbrev pub file_of : ℕ → Records → Bytes
file_of snaplen [] = []
file_of snaplen (r ∷ records) = global_header_bytes snaplen ++ records_bytes (r ∷ records)

-- The state of the loop between two rounds.
pub record IsFed (f : Feed) : Type 0 where
  pub reader_ok : IsReader f.reader
  pub policy_ok : IsPolicy f.policy
  pub input : ℕ
  pub read_is : 24 + f.reader.next_packet_index * 16 + input ≡ f.reader.next_input_offset
  pub counted : IsCounted f.reader.next_packet_index input f.stats
  pub file_is : IsFileOf f.writer f.stats.packets_total f.stats.bytes_output
  pub records : Records
  pub account : IsAccount records f.stats
  pub contents_is : f.writer.output.contents ≡ file_of f.writer.snaplen records

file_of-append :
    (w writer : PcapWriter) (records : Records) (bytes : ℕ) (p : CapturedPacket) (incl_len : ℕ)
    → IsFileOf w (length records) bytes
    → w.output.contents ≡ file_of w.snaplen records
    → IsWritten w p incl_len (ok writer)
    → writer.output.contents ≡ file_of writer.snaplen (records ++ (p, incl_len) ∷ [])
file_of-append w writer [] bytes p incl_len file contents h =
    let flag : w.global_header_written ≡ false = ground (arith, file) in
    let data_bytes = record_bytes p incl_len in
    h.2
    ∙ ap (λ c. c ++ (missing_header w ++ data_bytes)) contents
    ∙ ap (λ b. (if b then [] else global_header_bytes w.snaplen) ++ data_bytes) flag
    ∙ (λ i. global_header_bytes (sym h.3 i) ++ data_bytes)
    ∙ ap (λ c. global_header_bytes writer.snaplen ++ c) (sym (append-nil data_bytes))
file_of-append w writer (r ∷ records) bytes p incl_len file contents h =
    let flag : w.global_header_written ≡ true = ground (arith, file) in
    let data_bytes = record_bytes p incl_len in
    let before = records_bytes (r ∷ records) in
    h.2
    ∙ ap (λ c. c ++ (missing_header w ++ data_bytes)) contents
    ∙ ap
        (λ b.
          (global_header_bytes w.snaplen ++ before)
          ++ ((if b then [] else global_header_bytes w.snaplen) ++ data_bytes))
        flag
    ∙ append_assoc (global_header_bytes w.snaplen) before data_bytes
    ∙ (λ i. global_header_bytes (sym h.3 i) ++ (before ++ data_bytes))
    ∙ ap (λ c. global_header_bytes writer.snaplen ++ c)
        (sym (records_bytes-append (r ∷ records) p incl_len))

count_packet-IsCounted :
    (packets input : ℕ) (s : CaptureStats) (r : PcapPacketRecord) (d : LiveCaptureDecision)
    → IsCounted packets input s
    → packets + 1 < u64_mod
    → input + r.captured_length < u64_mod
    → d.output_len ≤ r.captured_length
    → IsCounted (packets + 1) (input + r.captured_length) (count_packet s r d)
      × ((count_packet s r d).bytes_output ≡ s.bytes_output + d.output_len)
unfolding count_packet accumulate_decision_stats
count_packet-IsCounted packets input s r d c p i o =
    ground (arith, c.total_is, c.written_is, c.input_is, c.output_le, c.decisions_le)

abbrev pub IsStep : PcapReader → ℕ → Result WriteError Feed → Type 0
IsStep r snaplen (err e) = e ≡ write_failed
IsStep r snaplen (ok f) = IsFed f × (f.reader ≡ r) × (f.writer.snaplen ≡ snaplen)

write_decided-IsStep :
    (f : Feed) (r : PcapReader) (packet : PcapPacketRecord) (d : LiveCaptureDecision)
    (policy : LiveCapturePolicy)
    → IsFed f
    → IsRecordRead f.reader packet r
    → IsDecision f.policy (captured_packet r packet) (d, policy)
    → IsStep r f.writer.snaplen (write_decided (record f { reader = r }) packet d policy)
unfolding write_decided
write_decided-IsStep f r packet d policy v read o =
    by_result (write_packet f.writer (captured_packet r packet) d.output_len) (
      write_packet-IsWritten f.writer (captured_packet r packet) d.output_len o.within_safe
        o.within_data)
  where
    by_result :
        (m : Result WriteError PcapWriter)
        → IsWritten f.writer (captured_packet r packet) d.output_len m
        → IsStep r f.writer.snaplen (elim m [
          | err e ↦ err e
          | ok writer ↦ ok (record f {
            reader = r;
            writer = writer;
            policy = policy;
            stats = count_packet f.stats packet d;
          })
        ])
    by_result (err e) h = h
    by_result (ok writer) h =
        let counts =
          count_packet-IsCounted f.reader.next_packet_index v.input f.stats packet d v.counted
            (omega arith) (omega arith) (omega arith) in
        let c = counts.0 in
        (
          record {
            reader_ok = read.valid;
            policy_ok = o.valid;
            input = v.input + packet.captured_length;
            read_is = omega arith;
            counted = record {
              total_is = omega arith;
              written_is = omega arith;
              input_is = c.input_is;
              output_le = c.output_le;
              decisions_le = omega arith;
            };
            file_is = written_file v.file_is h c.total_is counts.1;
            records = v.records ++ (captured_packet r packet, d.output_len) ∷ [];
            account = record {
              count_is = omega (
                arith,
                c.total_is,
                v.counted.total_is,
                v.account.count_is,
                length-append v.records ((captured_packet r packet, d.output_len) ∷ []),
              );
              input_is = omega (
                arith,
                c.input_is,
                v.counted.input_is,
                v.account.input_is,
                captured_total-append v.records (captured_packet r packet) d.output_len,
              );
              output_is = omega (
                arith,
                counts.1,
                v.account.output_is,
                written_total-append v.records (captured_packet r packet) d.output_len,
              );
            };
            contents_is =
                file_of-append f.writer writer v.records f.stats.bytes_output
                  (captured_packet r packet) d.output_len
                  (subst (λ n. IsFileOf f.writer n f.stats.bytes_output) v.account.count_is
                    v.file_is)
                  v.contents_is h;
          },
          refl,
          h.3,
        )
      where
        written_file :
            IsFileOf f.writer f.stats.packets_total f.stats.bytes_output
            → IsWritten f.writer (captured_packet r packet) d.output_len (ok writer)
            → (count_packet f.stats packet d).packets_total ≡ f.reader.next_packet_index + 1
            → (count_packet f.stats packet d).bytes_output ≡ f.stats.bytes_output + d.output_len
            → IsFileOf writer
                (count_packet f.stats packet d).packets_total
                (count_packet f.stats packet d).bytes_output
        written_file files w t b = ground (arith, v.counted.total_is)

pub feed_packet-IsStep :
    (f : Feed) (r : PcapReader) (packet : PcapPacketRecord)
    → IsFed f
    → IsRecordRead f.reader packet r
    → Holds (IsStep r f.writer.snaplen) (feed_packet (record f { reader = r }) packet)
unfolding feed_packet
feed_packet-IsStep f r packet v read =
    Holds-bind (IsDecision f.policy (captured_packet r packet)) (IsStep r f.writer.snaplen) _ _
      (evaluate-IsDecision f.policy (captured_packet r packet) v.policy_ok)
      (λ o h. write_decided-IsStep f r packet o.0 o.1 v read h)
