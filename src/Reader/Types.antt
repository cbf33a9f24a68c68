-- ===== src/Reader/Types.antt =====
-- src/offline/PcapReader.hpp, and the reading of numbers in PcapReader.cpp.
use pcap_constrictor_afpacke.Base.{
  ℕ, ◌+◌, ◌*◌, ◌&&◌, Bool, true, false, Option, none, some, leb, ◌==◌, if◌then◌else◌, [], ◌∷◌,
  length, take, drop, get_or,
}
use pcap_constrictor_afpacke.Bytes.{Bytes}

pub data PcapEndianness : Type 0 where
  little big : PcapEndianness

pub data PcapTimePrecision : Type 0 where
  microsecond nanosecond : PcapTimePrecision

pub record ClassicPcapGlobalHeader : Type 0 where
  pub magic_bytes : Bytes
  pub endianness : PcapEndianness
  pub time_precision : PcapTimePrecision
  pub version_major : ℕ
  pub version_minor : ℕ
  pub reserved1 : ℕ
  pub reserved2 : ℕ
  pub snaplen : ℕ
  pub link_type : ℕ

abbrev pub empty_header : ClassicPcapGlobalHeader
empty_header = record {
  magic_bytes = 0 ∷ 0 ∷ 0 ∷ 0 ∷ [];
  endianness = little;
  time_precision = microsecond;
  version_major = 0;
  version_minor = 0;
  reserved1 = 0;
  reserved2 = 0;
  snaplen = 0;
  link_type = 0;
}

pub record PcapPacketRecord : Type 0 where
  pub packet_index : ℕ
  pub header_offset : ℕ
  pub data_offset : ℕ
  pub ts_sec : ℕ
  pub ts_fraction : ℕ
  pub captured_length : ℕ
  pub original_length : ℕ
  pub bytes : Bytes

-- `PcapPacketRecord::timestamp`, in nanoseconds.
abbrev pub timestamp : PcapPacketRecord → PcapTimePrecision → ℕ
timestamp r nanosecond = r.ts_sec * 1000000000 + r.ts_fraction
timestamp r microsecond = r.ts_sec * 1000000000 + r.ts_fraction * 1000

pub data PcapIncompleteTailKind : Type 0 where
  packet_header packet_data : PcapIncompleteTailKind

pub record PcapIncompleteTailInfo : Type 0 where
  pub kind : PcapIncompleteTailKind
  pub file_offset : ℕ
  pub trailing_bytes : ℕ
  pub expected_captured_length : ℕ
  pub available_payload_bytes : ℕ
  pub missing_payload_bytes : ℕ

pub data PcapError : Type 0 where
  size_unreadable input_too_large input_not_opened short_global_header : PcapError
  is_pcapng unsupported_magic zero_snaplen : PcapError
  unsupported_version : (major minor : ℕ) → PcapError
  unsupported_link_type : (link_type : ℕ) → PcapError
  offset_past_end : (offset : ℕ) → PcapError
  short_packet_header : (offset remaining : ℕ) → PcapError
  unread_packet_header : (offset : ℕ) → PcapError
  captured_exceeds_original : (index offset captured original : ℕ) → PcapError
  short_packet_data : (index offset captured available missing : ℕ) → PcapError
  unread_packet_data : (index offset : ℕ) → PcapError

-- What the path leads to: the answer of `file_size`, and the bytes that the stream then gives.
pub record InputFile : Type 0 where
  pub file_size : Option ℕ
  pub contents : Option Bytes

pub record PcapReader : Type 0 where
  pub stream : Option Bytes
  pub global_header : ClassicPcapGlobalHeader
  pub file_size : ℕ
  pub next_input_offset : ℕ
  pub next_packet_index : ℕ
  pub error : Option PcapError
  pub incomplete_tail_info : Option PcapIncompleteTailInfo

-- A new reader, and `Clear`.
abbrev pub new_reader : PcapReader
new_reader = record {
  stream = none;
  global_header = empty_header;
  file_size = 0;
  next_input_offset = 0;
  next_packet_index = 0;
  error = none;
  incomplete_tail_info = none;
}

abbrev pub has_error : PcapReader → Bool
has_error r = elim r.error [ none ↦ false | some e ↦ true ]

-- `ReadExact`: the bytes and the rest of the stream, or nothing where the stream ends before.
unfoldable pub read_exact : Bytes → ℕ → Option (Bytes × Bytes)
read_exact stream size =
    if leb size (length stream) then some (take size stream, drop size stream) else none

abbrev pub classic_global_header_size : ℕ
classic_global_header_size = 24

abbrev pub classic_packet_header_size : ℕ
classic_packet_header_size = 16

abbrev pub pcap_ng_section_header_block_type : ℕ
pcap_ng_section_header_block_type = 0x0A0D0D0A

-- The byte of a buffer of fixed size.
abbrev pub raw : Bytes → ℕ → ℕ
raw bytes i = get_or bytes i 0

unfoldable pub read_u16 : Bytes → ℕ → PcapEndianness → ℕ
read_u16 bytes at little = raw bytes at + raw bytes (at + 1) * 256
read_u16 bytes at big = raw bytes at * 256 + raw bytes (at + 1)

unfoldable pub read_u32 : Bytes → ℕ → PcapEndianness → ℕ
read_u32 bytes at little =
    raw bytes at
    + raw bytes (at + 1) * 256
    + raw bytes (at + 2) * 65536
    + raw bytes (at + 3) * 16777216
read_u32 bytes at big =
    raw bytes at * 16777216
    + raw bytes (at + 1) * 65536
    + raw bytes (at + 2) * 256
    + raw bytes (at + 3)

-- The comparison of two arrays of four bytes.
abbrev pub is_magic : Bytes → ℕ → ℕ → ℕ → ℕ → Bool
is_magic bytes a b c d =
    raw bytes 0 == a && raw bytes 1 == b && raw bytes 2 == c && raw bytes 3 == d

-- `DetectMagic`
unfoldable pub detect_magic : Bytes → Option (PcapEndianness × PcapTimePrecision)
detect_magic bytes =
    if is_magic bytes 0xd4 0xc3 0xb2 0xa1
    then some (little, microsecond)
    else if is_magic bytes 0xa1 0xb2 0xc3 0xd4
    then some (big, microsecond)
    else if is_magic bytes 0x4d 0x3c 0xb2 0xa1
    then some (little, nanosecond)
    else if is_magic bytes 0xa1 0xb2 0x3c 0x4d
    then some (big, nanosecond)
    else none

-- `SetError`, and `stream_.close()` after it.
abbrev pub set_error : PcapReader → PcapError → PcapReader
set_error r e = record r { error = some e }

abbrev pub close_with : PcapReader → PcapError → Bool × PcapReader
close_with r e = (false, record r { error = some e; stream = none })
