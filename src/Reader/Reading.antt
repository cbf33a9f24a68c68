-- ===== src/Reader/Reading.antt =====
-- `ReadNext` in src/offline/PcapReader.cpp.
use pcap_constrictor_afpacke.Base.{
  ℕ, ◌+◌, ◌-◌, ◌%◌, Option, none, some, ltb, ◌==◌, if◌then◌else◌, [],
}
use pcap_constrictor_afpacke.Bytes.{Bytes, u64_mod}
use pcap_constrictor_afpacke.Reader.Types.{
  PcapPacketRecord, PcapIncompleteTailInfo, PcapError, PcapReader, has_error, read_exact,
  classic_packet_header_size, read_u32, packet_header, packet_data, offset_past_end,
  short_packet_header, unread_packet_header, captured_exceeds_original, short_packet_data,
  unread_packet_data,
}

-- What `ReadNext` returns, and the reader after it.
abbrev pub Next : Type 0
Next = Option PcapPacketRecord × PcapReader

abbrev pub stop_with : PcapReader → PcapError → Next
stop_with r e = (none, record r { error = some e })

-- `ReadNext` from the payload on; the offsets are within the file, so none of them wraps.
unfoldable pub read_packet_data : PcapReader → Bytes → PcapPacketRecord → Next
read_packet_data r stream packet = elim (read_exact stream packet.captured_length) [
  | none ↦
      stop_with (record r { stream = some [] })
        (unread_packet_data packet.packet_index packet.data_offset)
  | some (bytes, rest) ↦ (
    some (record packet { bytes = bytes }),
    record r {
      stream = some rest;
      next_input_offset = (packet.data_offset + packet.captured_length) % u64_mod;
      next_packet_index = (r.next_packet_index + 1) % u64_mod;
    },
  )
]

abbrev pub data_tail : ℕ → ℕ → ℕ → PcapIncompleteTailInfo
data_tail data_offset captured_length remaining_data = record {
  kind = packet_data;
  file_offset = data_offset;
  trailing_bytes = 0;
  expected_captured_length = captured_length;
  available_payload_bytes = remaining_data;
  missing_payload_bytes = captured_length - remaining_data;
}

abbrev pub header_tail : ℕ → ℕ → PcapIncompleteTailInfo
header_tail offset remaining = record {
  kind = packet_header;
  file_offset = offset;
  trailing_bytes = remaining;
  expected_captured_length = 0;
  available_payload_bytes = 0;
  missing_payload_bytes = 0;
}

-- The fields of the packet header, with the offsets of the record, before its bytes are read.
abbrev pub packet_at : PcapReader → Bytes → PcapPacketRecord
packet_at r header_bytes = record {
  packet_index = r.next_packet_index;
  header_offset = r.next_input_offset;
  data_offset = (r.next_input_offset + classic_packet_header_size) % u64_mod;
  ts_sec = read_u32 header_bytes 0 r.global_header.endianness;
  ts_fraction = read_u32 header_bytes 4 r.global_header.endianness;
  captured_length = read_u32 header_bytes 8 r.global_header.endianness;
  original_length = read_u32 header_bytes 12 r.global_header.endianness;
  bytes = [];
}

-- `ReadNext` from the fields of the packet header on.
unfoldable pub accept_packet : PcapReader → Bytes → PcapPacketRecord → Next
accept_packet r stream packet =
    let remaining_data = r.file_size - packet.data_offset in
    if ltb packet.original_length packet.captured_length
    then stop_with r (
        captured_exceeds_original packet.packet_index packet.header_offset packet.captured_length
          packet.original_length)
    else if ltb remaining_data packet.captured_length
    then stop_with
        (record r {
          incomplete_tail_info =
              some (data_tail packet.data_offset packet.captured_length remaining_data);
        })
        (short_packet_data packet.packet_index packet.header_offset packet.captured_length
          remaining_data (packet.captured_length - remaining_data))
    else read_packet_data r stream packet

abbrev pub accept_packet_header : PcapReader → Bytes → Bytes → Next
accept_packet_header r header_bytes stream = accept_packet r stream (packet_at r header_bytes)

-- `ReadNext` on an open stream.
unfoldable pub read_record : PcapReader → Bytes → Next
read_record r stream =
    if r.next_input_offset == r.file_size
    then (none, r)
    else if ltb r.file_size r.next_input_offset
    then stop_with r (offset_past_end r.next_input_offset)
    else if ltb (r.file_size - r.next_input_offset) classic_packet_header_size
    then stop_with
        (record r {
          incomplete_tail_info =
              some (header_tail r.next_input_offset (r.file_size - r.next_input_offset));
        })
        (short_packet_header r.next_input_offset (r.file_size - r.next_input_offset))
    else elim (read_exact stream classic_packet_header_size) [
      | none ↦ stop_with (record r { stream = some [] }) (unread_packet_header r.next_input_offset)
      | some (header_bytes, rest) ↦
          accept_packet_header (record r { stream = some rest }) header_bytes rest
    ]

-- `ReadNext` on a stream that is open or not.
unfoldable pub read_stream : PcapReader → Option Bytes → Next
read_stream r none = (none, r)
read_stream r (some stream) = if has_error r then (none, r) else read_record r stream

-- `ReadNext`
unfoldable pub read_next : PcapReader → Next
read_next r = read_stream r r.stream
