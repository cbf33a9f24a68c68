-- ===== src/Live/Writes.antt =====
-- A packet of the live loop that is decided, written and counted.

use pcap_constrictor_afpacke.Writer.Layout.{global_header_bytes, record_bytes, missing_header}
use pcap_constrictor_afpacke.Base.{
  sym, ℕ, ◌+◌, ◌≤◌, ◌<◌, ◌≡◌, ◌≢◌, ap, arith, none, if◌then◌else◌, if-elim, true, [], ◌∷◌, ◌++◌,
  ◌∙◌, append_assoc, length-append,
}
use pcap_constrictor_afpacke.Base.Result.{Result, err, ok}
use pcap_constrictor_afpacke.Bytes.{u32_mod}
use pcap_constrictor_afpacke.Capture.{Capture, IsCaptured}
use pcap_constrictor_afpacke.Config.{PolicyConfig}
use pcap_constrictor_afpacke.Packet.{CapturedPacket}
use pcap_constrictor_afpacke.Policy.{LiveCaptureDecision, LiveCapturePolicy}
use pcap_constrictor_afpacke.Policy.Bounds.{IsDecision}
use pcap_constrictor_afpacke.Writer.{PcapWriter, WriteError, write_packet}
use pcap_constrictor_afpacke.Writer.Written.{
  header_size, IsWritten, write_packet-IsWritten, Records, records_bytes, records_bytes-append,
  captured_total-append, written_total-append,
}
use pcap_constrictor_afpacke.Live.Counted.{
  IsLive, count_packet-IsCounted, live_file, output_snaplen,
}
use pcap_constrictor_afpacke.Live.{
  max_packets_limit_reached, write_error, Surroundings, Live, Round, again, ended,
  max_packets_reached, count_packet, finish, write_decided,
}
use pcap_constrictor_afpacke.Live.Ended

module _ {S : Type 0} (capture : Capture S) (valid : S → Type 0) (budget : S → ℕ)
    (world : Surroundings) (config : PolicyConfig) (bound : ℕ) (small : bound < u32_mod) where
  abbrev Good : Live S → Type 0
  Good live = IsLive valid budget world config bound live

  abbrev IsRound : ℕ → Round S → Type 0
  IsRound = Ended.IsRound capture valid budget world config bound small

  -- The state has room for one packet more.
  abbrev pub Below : ℕ → ℕ → Type 0
  Below packets readings =
      (config.capture.max_packets ≢ 0 → packets < config.capture.max_packets)
      × (config.capture.duration_sec ≢ 0 → packets < readings)

  contents-append :
      (w writer : PcapWriter) (records : Records) (p : CapturedPacket) (incl_len : ℕ)
      → w.global_header_written ≡ true
      → w.output.contents ≡ live_file config records
      → IsWritten w p incl_len (ok writer)
      → writer.output.contents ≡ live_file config (records ++ (p, incl_len) ∷ [])
  contents-append w writer records p incl_len flag contents h =
      let header = global_header_bytes (output_snaplen config) in
      let data_bytes = record_bytes p incl_len in
      h.2
      ∙ ap (λ c. c ++ (missing_header w ++ data_bytes)) contents
      ∙ ap
          (λ b.
            (header ++ records_bytes records)
            ++ ((if b then [] else global_header_bytes w.snaplen) ++ data_bytes))
          flag
      ∙ append_assoc header (records_bytes records) data_bytes
      ∙ ap (λ c. header ++ c) (sym (records_bytes-append records p incl_len))

  written-Good :
      (left : ℕ) (live : Live S) (p : CapturedPacket) (writer : PcapWriter)
      (o : LiveCaptureDecision × LiveCapturePolicy)
      → (g : Good live) → budget live.capture < left
      → live.stats.packets_total + left ≤ bound
      → Below live.stats.packets_total live.readings
      → IsCaptured p
      → IsDecision live.policy p o
      → IsWritten live.writer p o.0.output_len (ok writer)
      → Good (record live { writer = writer; policy = o.1; stats = count_packet live.stats p o.0 })
  written-Good left live p writer o g spent room below cap d w =
      let counts =
        count_packet-IsCounted g.packets g.input live.stats p o.0 g.counted
          (omega (arith, g.counted.total_is, small, room, spent))
          (omega (arith, g.counted.total_is, small, room, spent, g.input_le, cap.fits))
          d.within_captured in
      let header : header_size live.writer.global_header_written ≡ 0 = ap header_size g.header_is in
      record {
        state_ok = g.state_ok;
        policy_ok = d.valid;
        packets = g.packets + 1;
        input = g.input + p.packet.captured_len;
        counted = counts.0;
        packets_le = omega (arith, g.counted.total_is, room, spent);
        input_le = omega (arith, g.input_le, cap.fits);
        header_is = w.0;
        file_is = omega (arith, w.1, counts.1, g.file_is, header);
        max_le = λ h. omega (arith, below.0 h, g.counted.total_is);
        snaplen_is = w.3 ∙ g.snaplen_is;
        records = g.records ++ (p, o.0.output_len) ∷ [];
        account = record {
          count_is = omega (
            arith,
            counts.0.total_is,
            g.counted.total_is,
            g.account.count_is,
            length-append g.records ((p, o.0.output_len) ∷ []),
          );
          input_is = omega (
            arith,
            counts.0.input_is,
            g.counted.input_is,
            g.account.input_is,
            captured_total-append g.records p o.0.output_len,
          );
          output_is = omega (
            arith,
            counts.1,
            g.account.output_is,
            written_total-append g.records p o.0.output_len,
          );
        };
        contents_is =
            contents-append live.writer writer g.records p o.0.output_len g.header_is g.contents_is
              w;
        in_time = λ n. (omega (arith, below.1 n, g.counted.total_is), (g.in_time n).1);
      }

  pub write_decided-IsRound :
      (left : ℕ) (live : Live S) (p : CapturedPacket) (o : LiveCaptureDecision × LiveCapturePolicy)
      → (g : Good live) → budget live.capture < left
      → live.stats.packets_total + left ≤ bound
      → Below live.stats.packets_total live.readings
      → IsCaptured p
      → IsDecision live.policy p o
      → IsRound left (write_decided capture world config live p o.0 o.1)
  unfolding write_decided
  write_decided-IsRound left live p o g spent room below cap d =
      by_result (write_packet live.writer p o.0.output_len)
        (write_packet-IsWritten live.writer p o.0.output_len d.within_safe d.within_data)
    where
      by_result :
          (m : Result WriteError PcapWriter)
          → IsWritten live.writer p o.0.output_len m
          → IsRound left (elim m [
            | err e ↦ ended (record { exit = write_error e; stats = live.stats; output = none })
            | ok writer ↦
                let live' : Live S = record live {
                  writer = writer;
                  policy = o.1;
                  stats = count_packet live.stats p o.0;
                } in
                if max_packets_reached config live'.stats
                then finish capture world config max_packets_limit_reached live'
                else again live'
          ])
      by_result (err e) w = record {
        written_is = omega (arith, g.counted.written_is, g.counted.total_is);
        output_le = g.counted.output_le;
        decisions_le = omega (arith, g.counted.decisions_le, g.counted.total_is);
        saved_is = tt;
        max_le = λ h. omega (arith, g.max_le h, g.counted.total_is);
        readings = live.readings;
        in_time = λ n. (omega (arith, (g.in_time n).0, g.counted.total_is), (g.in_time n).1);
        exit_ok = w;
        output_is = tt;
        records = g.records;
        account = g.account;
        contents_is = tt;
      }
      by_result (ok writer) w =
          let live' : Live S = record live {
            writer = writer;
            policy = o.1;
            stats = count_packet live.stats p o.0;
          } in
          let g' = written-Good left live p writer o g spent room below cap d w in
          if-elim (IsRound left) (max_packets_reached config live'.stats) _ _
            (λ h.
              Ended.finish_max-IsRound capture valid budget world config bound small left live' g'
                h)
            (λ h. (g', spent))
