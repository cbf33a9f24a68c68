-- ===== src/Writer.antt =====
-- src/writer/PcapWriter.hpp and PcapWriter.cpp. The stream is what has been written and how many
-- bytes its device still takes; `err` is an exception.
pub mod Layout
pub mod Written
use pcap_constrictor_afpacke.Base.{
  ℕ, ◌+◌, ◌-◌, ◌*◌, ◌/◌, ◌%◌, max, Bool, true, false, if◌then◌else◌, ltb, leb, List, [], ◌∷◌, ◌++◌,
  length, take,
}
use pcap_constrictor_afpacke.Base.Result.{Result, ok, err, ◌>>=◌}
use pcap_constrictor_afpacke.Bytes.{Bytes, u32_mod}
use pcap_constrictor_afpacke.Packet.{PacketView, CapturedPacket, safe_captured_len}

pub record OutputStream : Type 0 where
  pub contents : Bytes
  pub room : ℕ

pub data WriteError : Type 0 where
  write_failed incl_len_exceeds_packet : WriteError

pub record PcapWriter : Type 0 where
  pub output : OutputStream
  pub snaplen : ℕ
  pub global_header_written : Bool

abbrev pub ethernet_link_type : ℕ
ethernet_link_type = 1

-- The constructor.
abbrev pub new_writer : OutputStream → ℕ → PcapWriter
new_writer output snaplen = record {
  output = output;
  snaplen = snaplen;
  global_header_written = false;
}

unfoldable pub write_bytes : PcapWriter → Bytes → Result WriteError PcapWriter
write_bytes w data_bytes =
    if leb (length data_bytes) w.output.room
    then ok (record w {
      output = record {
        contents = w.output.contents ++ data_bytes;
        room = w.output.room - length data_bytes;
      };
    })
    else err write_failed

abbrev pub le16 : ℕ → Bytes
le16 value = value % 256 ∷ value / 256 % 256 ∷ []

abbrev pub le32 : ℕ → Bytes
le32 value = value % 256 ∷ value / 256 % 256 ∷ value / 65536 % 256 ∷ value / 16777216 % 256 ∷ []

unfoldable pub write_le16 : PcapWriter → ℕ → Result WriteError PcapWriter
write_le16 w value = write_bytes w (le16 value)

unfoldable pub write_le32 : PcapWriter → ℕ → Result WriteError PcapWriter
write_le32 w value = write_bytes w (le32 value)

unfoldable pub write_global_header : PcapWriter → Result WriteError PcapWriter
write_global_header w = if w.global_header_written then ok w else (do
  w ← write_le32 w 0xA1B2C3D4
  w ← write_le16 w 2
  w ← write_le16 w 4
  w ← write_le32 w 0
  w ← write_le32 w 0
  w ← write_le32 w w.snaplen
  w ← write_le32 w ethernet_link_type
  ok (record w { global_header_written = true }))

-- `duration_cast` to microseconds and to seconds, of a time that is not before the epoch.
abbrev pub timestamp_sec : ℕ → ℕ
timestamp_sec timestamp = timestamp / 1000 / 1000000 % u32_mod

abbrev pub timestamp_usec : ℕ → ℕ
timestamp_usec timestamp = (timestamp / 1000 - timestamp / 1000 / 1000000 * 1000000) % u32_mod

-- `WritePacket(packet, incl_len)`
unfoldable pub write_packet : PcapWriter → CapturedPacket → ℕ → Result WriteError PcapWriter
write_packet w p incl_len =
    if ltb (safe_captured_len p.packet) incl_len then err incl_len_exceeds_packet else (do
      w ← write_global_header w
      w ← write_le32 w (timestamp_sec p.timestamp)
      w ← write_le32 w (timestamp_usec p.timestamp)
      w ← write_le32 w incl_len
      w ← write_le32 w (max p.packet.original_len incl_len)
      write_bytes w (take incl_len p.packet.data_span))

-- `WritePacket(packet)`
unfoldable pub write_whole_packet : PcapWriter → CapturedPacket → Result WriteError PcapWriter
write_whole_packet w p = write_packet w p (safe_captured_len p.packet)
