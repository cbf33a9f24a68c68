-- ===== src/Reader/Files.antt =====
-- A whole file that the writer has written, read back.
use pcap_constrictor_afpacke.Base.{
  ℕ, ◌+◌, ◌*◌, ◌≤◌, ◌<◌, ◌≡◌, ◌≢◌, refl, sym, ap, ◌∙◌, true, none, some, arith, List, [], ◌∷◌, ◌++◌,
  append-nil, append_assoc, length, length-append, length-take,
}
use pcap_constrictor_afpacke.Base.Result.{Result, ok, err, ◌>>=◌}
use pcap_constrictor_afpacke.Bytes.{Bytes, u32_mod, u64_mod}
use pcap_constrictor_afpacke.Packet.{CapturedPacket}
use pcap_constrictor_afpacke.Reader.{
  ClassicPcapGlobalHeader, ClassicPcapGlobalHeader, PcapReader, InputFile, little, microsecond,
  read_u16, read_u32, read_exact, read_next, read_stream, read_record, open_file, open_answered,
  open_sized, open_stream, read_global_header, accept_global_header, detect_magic, new_reader,
}
use pcap_constrictor_afpacke.Reader.RoundTrip.{
  le32_value, record_of, reader_behind, read_next-record_bytes,
}
use pcap_constrictor_afpacke.Writer.{
  le32, PcapWriter, WriteError, new_writer, write_bytes, write_packet,
}
use pcap_constrictor_afpacke.Writer.Layout.{
  record_bytes, global_header_bytes, missing_header, write_packet_lem,
}

-- The packets with the lengths that are written of them, one after the other.
unfoldable pub write_all : PcapWriter → List (CapturedPacket × ℕ) → Result WriteError PcapWriter
write_all w [] = ok w
write_all w ((p, n) ∷ ps) = write_packet w p n >>= λ w'. write_all w' ps

abbrev pub records_bytes : List (CapturedPacket × ℕ) → Bytes
records_bytes [] = []
records_bytes ((p, n) ∷ ps) = record_bytes p n ++ records_bytes ps

-- Lengths that are there in the packets, in 32-bit numbers.
abbrev pub AllFit : List (CapturedPacket × ℕ) → Type 0
AllFit [] = Unit {0}
AllFit ((p, n) ∷ ps) =
    ((n ≤ length p.packet.data_span) × (n < u32_mod) × (p.packet.original_len < u32_mod))
    × AllFit ps

-- The reader gives these packets' records in turn, and then the end of the file without an error.
abbrev pub ReadsBack : PcapReader → List (CapturedPacket × ℕ) → Type 0
ReadsBack r [] = (read_next r ≡ (none, r)) × (r.error ≡ none)
ReadsBack r ((p, n) ∷ ps) =
    (r' : PcapReader) × (read_next r ≡ (some (record_of r p n), r')) × ReadsBack r' ps

reads_back :
    (ps : List (CapturedPacket × ℕ)) (r : PcapReader)
    → AllFit ps
    → r.stream ≡ some (records_bytes ps)
    → r.error ≡ none
    → r.global_header.endianness ≡ little
    → r.file_size ≡ r.next_input_offset + length (records_bytes ps)
    → r.file_size < u64_mod
    → r.next_packet_index * 16 ≤ r.next_input_offset
    → ReadsBack r ps
unfolding read_next read_stream read_record
reads_back [] r fit opened fine order size small index =
    (ap (read_stream r) opened ∙ ground (arith, fine, size), fine)
reads_back ((p, n) ∷ ps) r fit opened fine order size small index =
    let sizes : length (records_bytes ((p, n) ∷ ps)) ≡ 16 + n + length (records_bytes ps) = omega (
      arith,
      length-append (record_bytes p n) (records_bytes ps),
      length-take n p.packet.data_span,
      fit.0.0,
    ) in
    (
      reader_behind r n (records_bytes ps),
      read_next-record_bytes r p n (records_bytes ps) fine order (omega arith) small (omega arith)
          fit.0.0 fit.0.1 fit.0.2 opened,
      reads_back ps (reader_behind r n (records_bytes ps)) fit.1 refl fine order (omega arith) small
          (omega arith),
    )

-- What a call of the writer that succeeds has done.
write_packet-ok :
    (w w' : PcapWriter) (p : CapturedPacket) (n : ℕ)
    → write_packet w p n ≡ ok w'
    → (w'.output.contents ≡ w.output.contents ++ (missing_header w ++ record_bytes p n))
      × (w'.global_header_written ≡ true)
unfolding write_bytes
write_packet-ok w w' p n e = ground (arith, write_packet_lem w p n, e)

write_all-contents :
    (ps : List (CapturedPacket × ℕ)) (w w' : PcapWriter)
    → w.global_header_written ≡ true
    → write_all w ps ≡ ok w'
    → w'.output.contents ≡ w.output.contents ++ records_bytes ps
unfolding write_all
write_all-contents [] w w' h e =
    let same : w ≡ w' = ground (arith, e) in
    ap (λ v. v.output.contents) (sym same) ∙ sym (append-nil w.output.contents)
write_all-contents ((p, n) ∷ ps) w w' h e =
    after (write_packet w p n) refl e (λ w1. write_all-contents ps w1 w')
  where
    after :
        (m : Result WriteError PcapWriter)
        → write_packet w p n ≡ m
        → (m >>= λ w1. write_all w1 ps) ≡ ok w'
        → ((w1 : PcapWriter)
            → w1.global_header_written ≡ true
            → write_all w1 ps ≡ ok w'
            → w'.output.contents ≡ w1.output.contents ++ records_bytes ps)
        → w'.output.contents ≡ w.output.contents ++ records_bytes ((p, n) ∷ ps)
    after (err x) f g go_on = absurd (ground (arith, g))
    after (ok w1) f g go_on =
        let once = write_packet-ok w w1 p n f in
        let no_header : missing_header w ≡ [] = ground (arith, h) in
        go_on w1 once.1 g
        ∙ ap (λ b. b ++ records_bytes ps)
            (once.0 ∙ ap (λ b. w.output.contents ++ (b ++ record_bytes p n)) no_header)
        ∙ append_assoc w.output.contents (record_bytes p n) (records_bytes ps)

-- The header that `Open` reads of the writer's.
abbrev written_header : ℕ → ClassicPcapGlobalHeader
written_header snaplen = record {
  magic_bytes = le32 0xA1B2C3D4;
  endianness = little;
  time_precision = microsecond;
  version_major = 2;
  version_minor = 4;
  reserved1 = 0;
  reserved2 = 0;
  snaplen = snaplen;
  link_type = 1;
}

abbrev opened_reader : ℕ → Bytes → PcapReader
opened_reader snaplen rest = record new_reader {
  stream = some rest;
  global_header = written_header snaplen;
  file_size = 24 + length rest;
  next_input_offset = 24;
}

abbrev pub file_of : Bytes → InputFile
file_of contents = record { file_size = some (length contents); contents = some contents }

open_file-global_header_bytes :
    (snaplen : ℕ) (rest : Bytes)
    → snaplen ≢ 0
    → snaplen < u32_mod
    → 24 + length rest < u64_mod
    → open_file (file_of (global_header_bytes snaplen ++ rest)) ≡ (true, opened_reader snaplen rest)
unfolding open_file open_answered open_sized open_stream read_exact read_global_header
    accept_global_header detect_magic read_u16 read_u32
open_file-global_header_bytes snaplen rest h fits small = ground (arith, le32_value snaplen fits)

-- The first packet brings the file header.
write_all-first :
    (p : CapturedPacket) (n : ℕ) (ps : List (CapturedPacket × ℕ)) (room snaplen : ℕ)
    (w : PcapWriter)
    → write_all (new_writer (record { contents = []; room = room }) snaplen) ((p, n) ∷ ps) ≡ ok w
    → w.output.contents ≡ global_header_bytes snaplen ++ records_bytes ((p, n) ∷ ps)
unfolding write_all
write_all-first p n ps room snaplen w e = after (write_packet start p n) refl e
  where
    start : PcapWriter
    start = new_writer (record { contents = []; room = room }) snaplen

    after :
        (m : Result WriteError PcapWriter)
        → write_packet start p n ≡ m
        → (m >>= λ w1. write_all w1 ps) ≡ ok w
        → w.output.contents ≡ global_header_bytes snaplen ++ records_bytes ((p, n) ∷ ps)
    after (err x) f g = absurd (ground (arith, g))
    after (ok w1) f g =
        let once = write_packet-ok start w1 p n f in
        write_all-contents ps w1 w once.1 g
        ∙ ap (λ b. b ++ records_bytes ps) once.0
        ∙ append_assoc (global_header_bytes snaplen) (record_bytes p n) (records_bytes ps)

-- One packet or more, each with a length that its bytes have and lengths under 2 ^ 32, are
-- written to a new file with a snaplen that is not 0 and under 2 ^ 32, and no call of the writer
-- throws. If the file is smaller than 2 ^ 64 bytes, Open accepts it and finds that snaplen, and
-- ReadNext gives for the packets in turn a record of that length with the packet's first bytes,
-- its original length or, if that is less, the written one, and its time in seconds modulo 2 ^
-- 32 and microseconds, and then the end of the file without an error.
pub write_all-ReadsBack :
    (p : CapturedPacket) (n : ℕ) (ps : List (CapturedPacket × ℕ)) (room snaplen : ℕ)
    (w : PcapWriter)
    → snaplen ≢ 0
    → snaplen < u32_mod
    → AllFit ((p, n) ∷ ps)
    → write_all (new_writer (record { contents = []; room = room }) snaplen) ((p, n) ∷ ps) ≡ ok w
    → length w.output.contents < u64_mod
    → (r : PcapReader) × (open_file (file_of w.output.contents) ≡ (true, r))
      × (r.global_header.snaplen ≡ snaplen)
      × ReadsBack r ((p, n) ∷ ps)
write_all-ReadsBack p n ps room snaplen w h fits all written small =
    let records = records_bytes ((p, n) ∷ ps) in
    let contents = write_all-first p n ps room snaplen w written in
    let small' : 24 + length records < u64_mod = omega (arith, ap length contents, small) in
    (
      opened_reader snaplen records,
      ap (λ b. open_file (file_of b)) contents
          ∙ open_file-global_header_bytes snaplen records h fits small',
      refl,
      reads_back ((p, n) ∷ ps) (opened_reader snaplen records) all refl refl refl refl small'
          (omega arith),
    )
