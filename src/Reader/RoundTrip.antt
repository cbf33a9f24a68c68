-- ===== src/Reader/RoundTrip.antt =====
-- What the writer has written, the reader gives back: src/writer/PcapWriter.cpp against
-- src/offline/PcapReader.cpp.
use pcap_constrictor_afpacke.Base.{
  ℕ, ◌+◌, ◌*◌, ◌/◌, ◌%◌, ◌≤◌, ◌<◌, ◌≡◌, ap, ◌∙◌, max, none, some, arith, [], ◌++◌, length,
  length-append, length-take, take, take-append, drop-append,
}
use pcap_constrictor_afpacke.Bytes.{Bytes, u32_mod, u64_mod}
use pcap_constrictor_afpacke.Packet.{CapturedPacket}
use pcap_constrictor_afpacke.Reader.{
  PcapReader, PcapPacketRecord, little, read_exact, read_u32, read_next, read_stream, read_record,
  accept_packet, accept_packet_header, read_packet_data, packet_at,
}
use pcap_constrictor_afpacke.Writer.{timestamp_sec, timestamp_usec}
use pcap_constrictor_afpacke.Writer.Layout.{record_bytes}

pub le32_value :
    (v : ℕ)
    → v < u32_mod
    → v % 256 + v / 256 % 256 * 256 + v / 65536 % 256 * 65536 + v / 16777216 % 256 * 16777216 ≡ v
le32_value v h = omega arith

-- The record that comes back of a packet that was written with this length.
abbrev pub record_of : PcapReader → CapturedPacket → ℕ → PcapPacketRecord
record_of r p incl_len = record {
  packet_index = r.next_packet_index;
  header_offset = r.next_input_offset;
  data_offset = r.next_input_offset + 16;
  ts_sec = timestamp_sec p.timestamp;
  ts_fraction = timestamp_usec p.timestamp;
  captured_length = incl_len;
  original_length = max p.packet.original_len incl_len;
  bytes = take incl_len p.packet.data_span;
}

abbrev pub reader_behind : PcapReader → ℕ → Bytes → PcapReader
reader_behind r incl_len rest = record r {
  stream = some rest;
  next_input_offset = r.next_input_offset + 16 + incl_len;
  next_packet_index = r.next_packet_index + 1;
}

module _ (r : PcapReader) (p : CapturedPacket) (incl_len : ℕ) (rest : Bytes) (fine : r.error ≡ none)
    (order : r.global_header.endianness ≡ little)
    (size : r.file_size ≡ r.next_input_offset + 16 + incl_len + length rest)
    (size_fits : r.file_size < u64_mod) (index_fits : r.next_packet_index + 1 < u64_mod)
    (inside : incl_len ≤ length p.packet.data_span) (incl_fits : incl_len < u32_mod)
    (original_fits : p.packet.original_len < u32_mod) where
  header_fields :
      packet_at r (take 16 (record_bytes p incl_len))
      ≡ record (record_of r p incl_len) { bytes = [] }
  unfolding read_u32
  header_fields = ground (
    arith,
    order,
    size,
    size_fits,
    le32_value incl_len incl_fits,
    le32_value (max p.packet.original_len incl_len) (omega arith),
    le32_value (timestamp_sec p.timestamp) (omega arith),
    le32_value (timestamp_usec p.timestamp) (omega arith),
  )

  -- The reader behind the packet's header.
  abbrev behind_header : PcapReader
  behind_header = record r { stream = some (take incl_len p.packet.data_span ++ rest) }

  data_bytes :
      read_packet_data behind_header
        (take incl_len p.packet.data_span ++ rest)
        (record (record_of r p incl_len) { bytes = [] })
      ≡ (some (record_of r p incl_len), reader_behind r incl_len rest)
  unfolding read_packet_data read_exact
  data_bytes = ground (
    arith,
    size,
    size_fits,
    index_fits,
    length-take incl_len p.packet.data_span,
    length-append (take incl_len p.packet.data_span) rest,
    take-append (take incl_len p.packet.data_span) rest incl_len
        (omega (arith, length-take incl_len p.packet.data_span)),
    drop-append (take incl_len p.packet.data_span) rest incl_len
        (omega (arith, length-take incl_len p.packet.data_span)),
  )

  accepted :
      accept_packet_header behind_header
        (take 16 (record_bytes p incl_len))
        (take incl_len p.packet.data_span ++ rest)
      ≡ (some (record_of r p incl_len), reader_behind r incl_len rest)
  unfolding accept_packet
  accepted =
      ap (accept_packet behind_header (take incl_len p.packet.data_span ++ rest)) header_fields
      ∙ ground (arith, size, size_fits, inside, data_bytes)

  -- The first half of `ReadNext`, on the stream that starts with the record.
  record_read :
      read_record r (record_bytes p incl_len ++ rest)
      ≡ (some (record_of r p incl_len), reader_behind r incl_len rest)
  unfolding read_record read_exact
  record_read = ground (
    arith,
    size,
    length-append (take incl_len p.packet.data_span) rest,
    length-take incl_len p.packet.data_span,
    accepted,
  )

  -- The next record that the reader gives is the one that was written.
  pub read_next-record_bytes :
      r.stream ≡ some (record_bytes p incl_len ++ rest)
      → read_next r ≡ (some (record_of r p incl_len), reader_behind r incl_len rest)
  unfolding read_next read_stream
  read_next-record_bytes opened = ap (read_stream r) opened ∙ ground (arith, fine, record_read)
