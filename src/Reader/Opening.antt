-- ===== src/Reader/Opening.antt =====
-- `Open` in src/offline/PcapReader.cpp.
use pcap_constrictor_afpacke.Base.{
  ℕ, ◌-◌, Bool, true, false, not, ◌||◌, Option, none, some, ltb, ◌==◌, if◌then◌else◌, take,
}
use pcap_constrictor_afpacke.Bytes.{Bytes, u64_mod}
use pcap_constrictor_afpacke.Reader.Types.{
  PcapEndianness, PcapTimePrecision, ClassicPcapGlobalHeader, InputFile, PcapReader, new_reader,
  read_exact, classic_global_header_size, pcap_ng_section_header_block_type, read_u16, read_u32,
  detect_magic, set_error, close_with, big, size_unreadable, input_too_large, input_not_opened,
  short_global_header, is_pcapng, unsupported_magic, zero_snaplen, unsupported_version,
  unsupported_link_type,
}

-- `Open` once the magic number is known: the fields are kept before they are tested.
unfoldable pub accept_global_header :
    PcapReader → Bytes → PcapEndianness → PcapTimePrecision → Bool × PcapReader
accept_global_header r header_bytes endianness precision =
    let header : ClassicPcapGlobalHeader = record {
      magic_bytes = take 4 header_bytes;
      endianness = endianness;
      time_precision = precision;
      version_major = read_u16 header_bytes 4 endianness;
      version_minor = read_u16 header_bytes 6 endianness;
      reserved1 = read_u32 header_bytes 8 endianness;
      reserved2 = read_u32 header_bytes 12 endianness;
      snaplen = read_u32 header_bytes 16 endianness;
      link_type = read_u32 header_bytes 20 endianness;
    } in
    let r = record r { global_header = header } in
    if not (header.version_major == 2) || not (header.version_minor == 4)
    then close_with r (unsupported_version header.version_major header.version_minor)
    else if header.snaplen == 0
    then close_with r zero_snaplen
    else if not (header.link_type == 1)
    then close_with r (unsupported_link_type header.link_type)
    else (true, record r { next_input_offset = classic_global_header_size })

-- `Open` on the bytes of the global header.
unfoldable pub read_global_header : PcapReader → Bytes → Bool × PcapReader
read_global_header r header_bytes =
    if read_u32 header_bytes 0 big == pcap_ng_section_header_block_type
    then close_with r is_pcapng
    else elim (detect_magic (take 4 header_bytes)) [
      | none ↦ close_with r unsupported_magic
      | some (endianness, precision) ↦ accept_global_header r header_bytes endianness precision
    ]

-- `Open` on an opened stream.
unfoldable pub open_stream : ℕ → Bytes → Bool × PcapReader
open_stream size stream =
    let r : PcapReader = record new_reader { file_size = size; stream = some stream } in
    elim (read_exact stream classic_global_header_size) [
      | none ↦ close_with r short_global_header
      | some (header_bytes, rest) ↦
          read_global_header (record r { stream = some rest }) header_bytes
    ]

-- `Open` once the size is known.
unfoldable pub open_sized : ℕ → Option Bytes → Bool × PcapReader
open_sized size none =
    if ltb (u64_mod - 1) size
    then (false, set_error new_reader input_too_large)
    else (false, set_error (record new_reader { file_size = size }) input_not_opened)
open_sized size (some stream) =
    if ltb (u64_mod - 1) size
    then (false, set_error new_reader input_too_large)
    else open_stream size stream

-- `Open` from the answer of `file_size` on.
unfoldable pub open_answered : Option ℕ → Option Bytes → Bool × PcapReader
open_answered none contents = (false, set_error new_reader size_unreadable)
open_answered (some size) contents = open_sized size contents

-- `Open`
unfoldable pub open_file : InputFile → Bool × PcapReader
open_file file = open_answered file.file_size file.contents
