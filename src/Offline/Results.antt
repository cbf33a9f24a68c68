-- ===== src/Offline/Results.antt =====
-- The outcome of a whole run of the offline feed.
use pcap_constrictor_afpacke.Writer.Written.{Records}
use pcap_constrictor_afpacke.Base.{
  ℕ, zero, suc, ◌+◌, ◌-◌, ◌%◌, ◌*◌, ◌≤◌, ◌<◌, ◌≡◌, ◌≢◌, sym, ap, ◌∙◌, subst, Option, none, some,
  ◌>>=◌, arith, length, if◌then◌else◌, ◌==◌, Holds, Holds-bind, refl,
}
use pcap_constrictor_afpacke.Base.Result.{Result, err, ok}
use pcap_constrictor_afpacke.Bytes.{u64_mod, Bytes}
use pcap_constrictor_afpacke.Reader.{PcapReader, PcapError, PcapPacketRecord, Next, read_next}
use pcap_constrictor_afpacke.Reader.Progress.{IsReader, IsNext, IsRecordRead, read_next-IsNext}
use pcap_constrictor_afpacke.Stats.{CaptureStats}
use pcap_constrictor_afpacke.Writer.{
  WriteError, write_failed, incl_len_exceeds_packet, OutputStream,
}
use pcap_constrictor_afpacke.Offline.{
  reader_error, write_error, OfflinePacketFeedResult, Feed, feed_packet, finish, caught, feed_loop,
}
use pcap_constrictor_afpacke.Offline.Totals.{
  decision_total, IsFed, IsStep, feed_packet-IsStep, IsAccount, file_of,
}

-- The size of the written file: a header and the records, or nothing at all.
abbrev pub file_size_of : CaptureStats → ℕ
file_size_of s = if s.packets_total == 0 then 0 else 24 + s.packets_total * 16 + s.bytes_output

abbrev pub HasSize : ℕ → Option OutputStream → Type 0
HasSize n none = Unit {0}
HasSize n (some o) = length o.contents ≡ n

abbrev pub HasContents : Bytes → Option OutputStream → Type 0
HasContents bytes none = Unit {0}
HasContents bytes (some o) = o.contents ≡ bytes

-- The outcome of a run over an input of this size, with this snaplen in the output's header.
pub record IsResult (size snaplen : ℕ) (result : OfflinePacketFeedResult) : Type 0 where
  pub written_is : result.stats.packets_written ≡ result.stats.packets_total
  pub within_file : result.stats.packets_total * 16 + result.stats.bytes_input ≤ size
  pub output_le : result.stats.bytes_output ≤ result.stats.bytes_input
  pub decisions_le : decision_total result.stats ≤ result.stats.packets_total
  pub saved_is :
      result.error ≡ none
      → result.stats.bytes_saved + result.stats.bytes_output ≡ result.stats.bytes_input
  pub never_refused : result.error ≢ some (write_error incl_len_exceeds_packet)
  pub output_is : HasSize (file_size_of result.stats) result.output
  pub records : Records
  pub account : IsAccount records result.stats
  pub contents_is : HasContents (file_of snaplen records) result.output
  pub whole_input :
      result.error ≡ none → 24 + result.stats.packets_total * 16 + result.stats.bytes_input ≡ size

caught-IsResult :
    (f : Feed) → IsFed f → IsResult f.reader.file_size f.writer.snaplen (caught f write_failed)
caught-IsResult f v = record {
  written_is = omega (arith, v.counted.written_is, v.counted.total_is);
  within_file =
      omega (arith, v.counted.total_is, v.counted.input_is, v.reader_ok.offset_inside, v.read_is);
  output_le = v.counted.output_le;
  decisions_le = omega (arith, v.counted.decisions_le, v.counted.total_is);
  saved_is = ground arith;
  never_refused = ground arith;
  output_is = tt;
  records = v.records;
  account = v.account;
  contents_is = tt;
  whole_input = ground arith;
}

finish-IsResult :
    (f : Feed)
    → IsFed f
    → (f.reader.error ≡ none → f.reader.next_input_offset ≡ f.reader.file_size)
    → IsResult f.reader.file_size f.writer.snaplen (finish f)
unfolding finish
finish-IsResult f v at_end = by_error f.reader.error refl
  where
    same : IsResult f.reader.file_size f.writer.snaplen (caught f write_failed)
    same = caught-IsResult f v

    by_error :
        (e : Option PcapError)
        → f.reader.error ≡ e
        → IsResult f.reader.file_size f.writer.snaplen (elim e [
          | some e ↦ record {
            stats = f.stats;
            error = some (reader_error e);
            output = some f.writer.output;
          }
          | none ↦ record {
            stats = record f.stats {
              bytes_saved = (f.stats.bytes_input + u64_mod - f.stats.bytes_output) % u64_mod;
            };
            error = none;
            output = some f.writer.output;
          }
        ])
    by_error (some e) is_e = record {
      written_is = same.written_is;
      within_file = same.within_file;
      output_le = same.output_le;
      decisions_le = same.decisions_le;
      saved_is = ground arith;
      never_refused = ground arith;
      output_is = ground (arith, v.file_is);
      records = v.records;
      account = v.account;
      contents_is = v.contents_is;
      whole_input = ground arith;
    }
    by_error none is_e = record {
      written_is = same.written_is;
      within_file = same.within_file;
      output_le = same.output_le;
      decisions_le = same.decisions_le;
      saved_is = λ e. omega (arith, same.output_le, same.within_file, v.reader_ok.size_fits);
      never_refused = ground arith;
      output_is = ground (arith, v.file_is);
      records = v.records;
      account = record {
        count_is = v.account.count_is;
        input_is = v.account.input_is;
        output_is = v.account.output_is;
      };
      contents_is = v.contents_is;
      whole_input =
          λ e. omega (arith, at_end is_e, v.read_is, v.counted.total_is, v.counted.input_is);
    }

-- The reader without a record is as valid as before, and the counters stay.
stopped-IsFed :
    (f : Feed) (r : PcapReader)
    → IsFed f
    → IsReader r
    → r.next_input_offset ≡ f.reader.next_input_offset
    → r.next_packet_index ≡ f.reader.next_packet_index
    → IsFed (record f { reader = r })
stopped-IsFed f r v ready o i = record {
  reader_ok = ready;
  policy_ok = v.policy_ok;
  input = v.input;
  read_is = omega (arith, v.read_is);
  counted = record {
    total_is = omega (arith, v.counted.total_is);
    written_is = omega (arith, v.counted.written_is);
    input_is = v.counted.input_is;
    output_le = v.counted.output_le;
    decisions_le = omega (arith, v.counted.decisions_le);
  };
  file_is = v.file_is;
  records = v.records;
  account = v.account;
  contents_is = v.contents_is;
}

-- A round of the loop, from what the rounds after it do.
module _ (fuel : ℕ) (f : Feed) (v : IsFed f) (opened : f.reader.stream ≢ none)
    (h : f.reader.file_size - f.reader.next_input_offset < suc fuel)
    (go_on : (g : Feed)
      → IsFed g
      → g.reader.stream ≢ none
      → g.reader.file_size - g.reader.next_input_offset < fuel
      → Holds (IsResult g.reader.file_size g.writer.snaplen) (feed_loop fuel g)) where
  after_step :
      (packet : PcapPacketRecord) (r : PcapReader)
      → IsRecordRead f.reader packet r
      → (fed : Result WriteError Feed) → IsStep r f.writer.snaplen fed
      → Holds
          (IsResult f.reader.file_size f.writer.snaplen)
          (elim fed [ err e ↦ some (caught (record f { reader = r }) e) | ok g ↦ feed_loop fuel g ])
  after_step packet r read (err e) step =
      subst (λ e'. IsResult f.reader.file_size f.writer.snaplen (caught f e')) (sym step)
        (caught-IsResult f v)
  after_step packet r read (ok g) (fed, same, same_snaplen) =
      let size : g.reader.file_size ≡ f.reader.file_size =
        ap (λ r'. r'.file_size) same ∙ read.same_size in
      let offset : g.reader.next_input_offset ≡ r.next_input_offset =
        ap (λ r'. r'.next_input_offset) same in
      subst (λ n. Holds (IsResult n f.writer.snaplen) (feed_loop fuel g)) size
        (subst (λ n. Holds (IsResult g.reader.file_size n) (feed_loop fuel g)) same_snaplen
          (go_on g fed (subst (λ r. r.stream ≢ none) (sym same) read.still_open)
            (omega (arith, read.offset_next, fed.reader_ok.offset_inside))))

  after_read :
      (next : Next)
      → IsNext f.reader next
      → Holds (IsResult f.reader.file_size f.writer.snaplen) (elim next.0 [
        | none ↦ some (finish (record f { reader = next.1 }))
        | some packet ↦ do
          fed ← feed_packet (record f { reader = next.1 }) packet
          elim fed [
            | err e ↦ some (caught (record f { reader = next.1 }) e)
            | ok g ↦ feed_loop fuel g
          ]
      ])
  after_read (none, r) (stopped, ready, o, i, size) =
      subst (λ n. IsResult n f.writer.snaplen (finish (record f { reader = r }))) size
        (finish-IsResult (record f { reader = r }) (stopped-IsFed f r v ready o i)
          (λ e. ground (arith, stopped, opened, e)))
  after_read (some packet, r) read =
      Holds-bind (IsStep r f.writer.snaplen) (IsResult f.reader.file_size f.writer.snaplen)
        (feed_packet (record f { reader = r }) packet) _ (feed_packet-IsStep f r packet v read)
        (after_step packet r read)

pub feed_loop-IsResult :
    (fuel : ℕ) (f : Feed)
    → IsFed f
    → f.reader.stream ≢ none
    → f.reader.file_size - f.reader.next_input_offset < fuel
    → Holds (IsResult f.reader.file_size f.writer.snaplen) (feed_loop fuel f)
unfolding feed_loop
feed_loop-IsResult zero f v opened h = absurd (omega arith)
feed_loop-IsResult (suc fuel) f v opened h =
    after_read fuel f v opened h (feed_loop-IsResult fuel) (read_next f.reader)
      (read_next-IsNext f.reader v.reader_ok)
