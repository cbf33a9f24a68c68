-- ===== src/Reader/Progress.antt =====
-- A read goes forward in the file, by what it returns, and never over the end.
use pcap_constrictor_afpacke.Base.{
  ℕ, ◌+◌, ◌*◌, ◌≤◌, ◌<◌, ◌≡◌, refl, ◌⊎◌, inl, inr, ◌≢◌, Bool, true, false, Option, none, some,
  arith, length, take, drop, length-take, Option-cases,
}
use pcap_constrictor_afpacke.Bytes.{Bytes, u64_mod}
use pcap_constrictor_afpacke.Reader.{
  PcapPacketRecord, packet_at, PcapEndianness, PcapTimePrecision, PcapReader, InputFile, Next,
  new_reader, read_exact, open_file, open_stream, read_global_header, accept_global_header,
  read_next, read_stream, open_sized, open_answered, read_record, accept_packet,
  accept_packet_header, read_packet_data, detect_magic,
}

-- The offset is in the file, the file's size is a 64-bit number, and every record that was read
-- has a header before the offset.
pub record IsReader (r : PcapReader) : Type 0 where
  pub size_fits : r.file_size < u64_mod
  pub offset_inside : r.next_input_offset ≤ r.file_size
  pub records_before : r.next_packet_index * 16 ≤ r.next_input_offset

-- A record that was read, and the reader after it.
pub record IsRecordRead (r : PcapReader) (packet : PcapPacketRecord) (r' : PcapReader)
    : Type 0 where
  pub length-bytes : length packet.bytes ≡ packet.captured_length
  pub captured_le_original : packet.captured_length ≤ packet.original_length
  pub index_is : packet.packet_index ≡ r.next_packet_index
  pub offset_next : r'.next_input_offset ≡ r.next_input_offset + 16 + packet.captured_length
  pub index_next : r'.next_packet_index ≡ r.next_packet_index + 1
  pub same_size : r'.file_size ≡ r.file_size
  pub same_header : r'.global_header ≡ r.global_header
  pub no_error : r'.error ≡ none
  pub still_open : r'.stream ≢ none
  pub valid : IsReader r'

-- No record: the reader has an error, or its file is at the end, or it has no open stream.
abbrev pub IsStopped : PcapReader → PcapReader → Type 0
IsStopped r r' =
    ((r.stream ≡ none) × (r'.stream ≡ none))
    ⊎ (r'.error ≢ none)
    ⊎ (r'.next_input_offset ≡ r'.file_size)

abbrev pub IsNext : PcapReader → Next → Type 0
IsNext r (none, r') =
    IsStopped r r'
    × IsReader r'
    × (r'.next_input_offset ≡ r.next_input_offset)
    × (r'.next_packet_index ≡ r.next_packet_index)
    × (r'.file_size ≡ r.file_size)
IsNext r (some packet, r') = IsRecordRead r packet r'

read_packet_data-IsNext :
    (r : PcapReader) (stream : Bytes) (packet : PcapPacketRecord)
    → IsReader r
    → r.error ≡ none
    → packet.packet_index ≡ r.next_packet_index
    → packet.captured_length ≤ packet.original_length
    → packet.data_offset ≡ r.next_input_offset + 16
    → packet.data_offset + packet.captured_length ≤ r.file_size
    → IsNext r (read_packet_data r stream packet)
unfolding read_packet_data read_exact
read_packet_data-IsNext r stream packet v e i c o s = ground (
  arith,
  v.size_fits,
  v.offset_inside,
  v.records_before,
  length-take packet.captured_length stream,
)

accept_packet_header-IsNext :
    (r : PcapReader) (header_bytes stream : Bytes)
    → IsReader r
    → r.error ≡ none
    → r.next_input_offset + 16 ≤ r.file_size
    → IsNext r (accept_packet_header r header_bytes stream)
unfolding accept_packet
accept_packet_header-IsNext r header_bytes stream v e fits = ground (
  arith,
  v.size_fits,
  v.offset_inside,
  v.records_before,
  read_packet_data-IsNext r stream (packet_at r header_bytes) v e refl,
)

read_record-IsNext :
    (r : PcapReader) (stream : Bytes)
    → IsReader r
    → r.error ≡ none
    → IsNext r (read_record r stream)
unfolding read_record read_exact
read_record-IsNext r stream v e =
    let rest = drop 16 stream in
    let accepted =
      accept_packet_header-IsNext (record r { stream = some rest }) (take 16 stream) rest
        (record {
          size_fits = v.size_fits;
          offset_inside = v.offset_inside;
          records_before = v.records_before;
        })
        e in
    ground (arith, v.size_fits, v.offset_inside, v.records_before, accepted)

-- From a reader whose offset is in its file, ReadNext either gives a record, whose bytes are as
-- many as its captured length, which is at most its original length, and goes on by 16 bytes and
-- those in the file, with no error set; or it gives none and stays where it was, with no open
-- stream, an error, or the offset at the end of the file. The offset stays in the file.
pub read_next-IsNext : (r : PcapReader) → IsReader r → IsNext r (read_next r)
unfolding read_next
read_next-IsNext r v = from_stream r.stream refl
  where
    from_stream : (st : Option Bytes) → r.stream ≡ st → IsNext r (read_stream r st)
    from_stream none closed = unfold read_stream in (inl (closed, closed), v, refl, refl, refl)
    from_stream (some stream) opened =
        unfold read_stream in
        let go = read_record-IsNext r stream v in
        ground (arith, v.size_fits, v.offset_inside, v.records_before, go)

-- The size that the file system tells is that of the bytes that the stream gives.
abbrev pub IsStable : InputFile → Type 0
IsStable file =
    (n : ℕ) (c : Bytes) → file.file_size ≡ some n → file.contents ≡ some c → n ≡ length c

-- What `Open` promises: with `false` an error is set; with `true` none is, the header is that of
-- an Ethernet capture of version 2.4, and the reader stands behind it.
pub record IsOpened (r : PcapReader) : Type 0 where
  pub no_error : r.error ≡ none
  pub still_open : r.stream ≢ none
  pub at_first : r.next_input_offset ≡ 24
  pub none_read : r.next_packet_index ≡ 0
  pub major_is : r.global_header.version_major ≡ 2
  pub minor_is : r.global_header.version_minor ≡ 4
  pub snaplen_set : r.global_header.snaplen ≢ 0
  pub link_is : r.global_header.link_type ≡ 1
  pub valid : IsReader r

abbrev pub IsOpening : Bool × PcapReader → Type 0
IsOpening (true, r) = IsOpened r
IsOpening (false, r) = r.error ≢ none

accept_global_header-IsOpening :
    (r : PcapReader) (header_bytes : Bytes) (en : PcapEndianness) (pr : PcapTimePrecision)
    → r.error ≡ none
    → r.stream ≢ none
    → r.file_size < u64_mod
    → 24 ≤ r.file_size
    → r.next_packet_index ≡ 0
    → IsOpening (accept_global_header r header_bytes en pr)
unfolding accept_global_header
accept_global_header-IsOpening r header_bytes en pr e o s f i = ground arith

read_global_header-IsOpening :
    (r : PcapReader) (header_bytes : Bytes)
    → r.error ≡ none
    → r.stream ≢ none
    → r.file_size < u64_mod
    → 24 ≤ r.file_size
    → r.next_packet_index ≡ 0
    → IsOpening (read_global_header r header_bytes)
unfolding read_global_header
read_global_header-IsOpening r header_bytes e o s f i =
    elim (Option-cases (detect_magic (take 4 header_bytes))) [
      | inl unknown ↦ simp unknown (ground arith)
      | inr (m, known) ↦
          simp known
            (ground (arith, accept_global_header-IsOpening r header_bytes m.0 m.1 e o s f i))
    ]

open_sized-IsOpening :
    (size : ℕ) (contents : Option Bytes)
    → ((c : Bytes) → contents ≡ some c → size ≡ length c)
    → IsOpening (open_sized size contents)
unfolding open_sized open_stream read_exact
open_sized-IsOpening size none stable = ground arith
open_sized-IsOpening size (some stream) stable =
    let r : PcapReader = record new_reader { file_size = size; stream = some (drop 24 stream) } in
    ground (
      arith,
      stable stream refl,
      read_global_header-IsOpening r (take 24 stream) refl (ground arith),
    )

-- For a file whose size is the one that the file system tells: Open answers false only with an
-- error set, and true only with none, and then the header has version 2.4, a snaplen that is not
-- 0 and the Ethernet link type, and the reader stands behind it, in the file.
pub open_file-IsOpening : (file : InputFile) → IsStable file → IsOpening (open_file file)
unfolding open_file
open_file-IsOpening file stable = from_answer file.file_size refl
  where
    from_answer :
        (answer : Option ℕ)
        → file.file_size ≡ answer
        → IsOpening (open_answered answer file.contents)
    from_answer none e = unfold open_answered in ground arith
    from_answer (some size) e =
        unfold open_answered in
        open_sized-IsOpening size file.contents (λ c opened. stable size c e opened)
