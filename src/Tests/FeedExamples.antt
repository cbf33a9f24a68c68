-- ===== src/Tests/FeedExamples.antt =====
-- A packet and a file through the decoder, the policy, the reader, the writer and the feed.
use pcap_constrictor_afpacke.Base.{
  ◌≡◌, [], ◌∷◌, ◌++◌, some, length, replicate, true, arith, if◌then◌else◌, ltb, Holds,
}
use pcap_constrictor_afpacke.Base.Checked.{Accepts}
use pcap_constrictor_afpacke.Base.Result.{err, ◌>>=◌}
use pcap_constrictor_afpacke.Bytes.{Bytes}
use pcap_constrictor_afpacke.Config.{default_config}
use pcap_constrictor_afpacke.Decode.{decode_packet}
use pcap_constrictor_afpacke.Decode.Safety.{decode_packet-IsDecoded}
use pcap_constrictor_afpacke.Decode.Shape.{IsDecoded}
use pcap_constrictor_afpacke.Packet.{CapturedPacket, unknown, safe_captured_len}
use pcap_constrictor_afpacke.Policy
use pcap_constrictor_afpacke.Policy.{new_policy}
use pcap_constrictor_afpacke.Policy.Bounds.{IsDecision, evaluate-IsDecision}
use pcap_constrictor_afpacke.Quic.{parse_long_header}
use pcap_constrictor_afpacke.Quic.Bounds.{IsLongHeader, parse_long_header-IsLongHeader}
use pcap_constrictor_afpacke.Reader.{InputFile, PcapReader, new_reader, open_file, read_next}
use pcap_constrictor_afpacke.Reader.Progress.{
  IsNext, IsStable, IsOpening, read_next-IsNext, open_file-IsOpening,
}
use pcap_constrictor_afpacke.Writer.{
  PcapWriter, new_writer, write_packet, write_bytes, le32, incl_len_exceeds_packet,
}
use pcap_constrictor_afpacke.Writer.Layout.{
  record_bytes, missing_header, mark_header, write_packet_lem,
}
use pcap_constrictor_afpacke.Tests.Samples.{ipv4_tcp_packet, tls_record}
use pcap_constrictor_afpacke.Reader.Files.{file_of, ReadsBack, write_all, write_all-ReadsBack}
use pcap_constrictor_afpacke.Writer.Layout.{global_header_bytes}
use pcap_constrictor_afpacke.Writer.{write_global_header, write_le16, write_le32}
use pcap_constrictor_afpacke.Base.{◌-◌, refl}

abbrev sample : Bytes
sample = ipv4_tcp_packet (tls_record 0x16 (replicate 3 7)) 12345 443 1 0x18

abbrev sample_packet : CapturedPacket
sample_packet = record {
  packet = record { data_span = sample; captured_len = length sample; original_len = 1000 };
  timestamp = 1700000000000000000;
  ifindex = 0;
  direction = unknown;
}

decode_packet-IsDecoded_example : Holds (IsDecoded sample) (decode_packet sample)
decode_packet-IsDecoded_example = decode_packet-IsDecoded sample

evaluate-IsDecision_example :
    Holds
      (IsDecision (new_policy default_config) sample_packet)
      (Policy.evaluate (new_policy default_config) sample_packet)
evaluate-IsDecision_example =
    evaluate-IsDecision (new_policy default_config) sample_packet (record {
      directions_ok = λ k s e. absurd (ground (arith, e));
      flows_ok = λ k s e. absurd (ground (arith, e));
    })

-- An Initial packet with ids of 4 and 2 bytes, no token and one byte of payload.
abbrev initial : Bytes
initial = 0xc0 ∷ 0 ∷ 0 ∷ 0 ∷ 1 ∷ 4 ∷ 1 ∷ 2 ∷ 3 ∷ 4 ∷ 2 ∷ 5 ∷ 6 ∷ 0 ∷ 1 ∷ 9 ∷ []

parse_long_header-IsLongHeader_example :
    Accepts (IsLongHeader initial 0) (parse_long_header initial 0)
parse_long_header-IsLongHeader_example = parse_long_header-IsLongHeader initial 0

abbrev pub sample_writer : PcapWriter
sample_writer = new_writer (record { contents = []; room = 4096 }) 65535

write_packet_lem_example : write_packet sample_writer sample_packet 20 ≡ (
    if ltb (safe_captured_len (sample_packet.packet)) 20
    then err incl_len_exceeds_packet
    else (write_bytes sample_writer (missing_header sample_writer ++ record_bytes sample_packet 20)
        >>= mark_header))
write_packet_lem_example = write_packet_lem sample_writer sample_packet 20

-- A file of one record.
abbrev pub sample_bytes : Bytes
sample_bytes =
    missing_header sample_writer ++ le32 7 ++ le32 5 ++ le32 3 ++ le32 60 ++ 1 ∷ 2 ∷ 3 ∷ []

abbrev pub sample_file : InputFile
sample_file = record { file_size = some 43; contents = some sample_bytes }

pub sample_file-IsStable : IsStable sample_file
sample_file-IsStable n c e f = ground (arith, e, f)

open_file-IsOpening_example : IsOpening (open_file sample_file)
open_file-IsOpening_example = open_file-IsOpening sample_file sample_file-IsStable

abbrev sample_reader : PcapReader
sample_reader = record new_reader {
  stream = some (le32 7 ++ le32 5 ++ le32 3 ++ le32 60 ++ 1 ∷ 2 ∷ 3 ∷ []);
  file_size = 43;
  next_input_offset = 24;
}

read_next-IsNext_example : IsNext sample_reader (read_next sample_reader)
read_next-IsNext_example =
    read_next-IsNext sample_reader (record {
      size_fits = omega arith;
      offset_inside = omega arith;
      records_before = omega arith;
    })

abbrev sample_file_written : PcapWriter
sample_file_written = record {
  output = record {
    contents =
        global_header_bytes 65535 ++ record_bytes sample_packet 3 ++ record_bytes sample_packet 0;
    room = 4096 - 59;
  };
  snaplen = 65535;
  global_header_written = true;
}

write_all-ReadsBack_example :
    (r : PcapReader) × (open_file (file_of sample_file_written.output.contents) ≡ (true, r))
    × (r.global_header.snaplen ≡ 65535)
    × ReadsBack r ((sample_packet, 3) ∷ (sample_packet, 0) ∷ [])
unfolding write_all write_packet write_global_header write_le32 write_le16 write_bytes
    safe_captured_len
write_all-ReadsBack_example =
    write_all-ReadsBack sample_packet 3 ((sample_packet, 0) ∷ []) 4096 65535 sample_file_written
      (omega arith) (omega arith)
      ((omega arith, omega arith, omega arith), ((omega arith, omega arith, omega arith), tt)) refl
      (omega arith)
