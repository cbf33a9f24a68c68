-- ===== src/Quic/Parse.antt =====
-- The readers of QuicConstrictor.cpp. A reader returns its value and the offset behind it.
use pcap_constrictor_afpacke.Base.{
  ℕ, ◌+◌, ◌-◌, ◌*◌, ◌/◌, ◌%◌, ◌^◌, Bool, true, not, ◌&&◌, [], ◌∷◌, ◌++◌, leb, ◌==◌, if◌then◌else◌,
  replicate, length,
}
use pcap_constrictor_afpacke.Base.Checked.{Checked, ok, require, access, ◌>>=◌, ◌>>◌}
use pcap_constrictor_afpacke.Bytes.{Bytes, has_bytes, read, read_be32, subspan}
use pcap_constrictor_afpacke.Quic.Types.{ConnectionId, max_connection_id_length}

pub record LongHeaderInfo : Type 0 where
  pub total_size : ℕ
  pub packet_type : ℕ
  pub version : ℕ
  pub dcid : ConnectionId
  pub scid : ConnectionId

-- `first_byte & 0x80`
unfoldable pub is_long_header : ℕ → Bool
is_long_header first_byte = first_byte / 0x80 % 2 == 1

-- `(first_byte & 0x80) == 0 && (first_byte & 0x40) != 0`
unfoldable pub is_short_header_compatible : ℕ → Bool
is_short_header_compatible first_byte = first_byte / 0x80 % 2 == 0 && first_byte / 0x40 % 2 == 1

-- An id that was read: the array holds its bytes, then zeros.
abbrev pub known_id : Bytes → ConnectionId
known_id bytes = record {
  bytes = bytes ++ replicate (max_connection_id_length - length bytes) 0;
  length = length bytes;
  known = true;
}

unfoldable pub read_connection_id : Bytes → ℕ → Checked (ConnectionId × ℕ)
read_connection_id payload offset = do
  require (has_bytes payload offset 1)
  size ← access (read payload offset)
  require (leb size max_connection_id_length && has_bytes payload (offset + 1) size)
  bytes ← access (subspan payload (offset + 1) size)
  ok (known_id bytes, offset + 1 + size)

-- `value = (value << 8) | byte` over the bytes; the value stays below 2 ^ 62.
abbrev pub append_bytes : ℕ → Bytes → ℕ
append_bytes value [] = value
append_bytes value (b ∷ bytes) = append_bytes (value * 256 + b) bytes

unfoldable pub read_varint : Bytes → ℕ → Checked (ℕ × ℕ)
read_varint bytes offset = do
  require (has_bytes bytes offset 1)
  first ← access (read bytes offset)
  let size = 2 ^ (first / 64)
  require (has_bytes bytes offset size)
  rest ← access (subspan bytes (offset + 1) (size - 1))
  ok (append_bytes (first % 64) rest, offset + size)

-- An Initial packet has a token, which is skipped; the offset behind it.
unfoldable pub skip_token : Bytes → ℕ → Checked ℕ
skip_token payload offset = do
  (token_length, behind) ← read_varint payload offset
  require (leb token_length (length payload) && has_bytes payload behind token_length)
  ok (behind + token_length)

-- The end of the packet by its length field.
unfoldable pub read_packet_end : Bytes → ℕ → Checked ℕ
read_packet_end payload offset = do
  (packet_length, behind) ← read_varint payload offset
  require (leb packet_length (length payload) && has_bytes payload behind packet_length)
  ok (behind + packet_length)

-- What follows the connection ids; types 0 and 3 are Initial and Retry.
unfoldable pub find_packet_end : Bytes → ℕ → ℕ → Checked ℕ
find_packet_end payload packet_type offset =
    if packet_type == 0
    then (do behind ← skip_token payload offset; read_packet_end payload behind)
    else if packet_type == 3
    then ok (length payload)
    else read_packet_end payload offset

-- What follows the version.
unfoldable pub parse_ids : Bytes → ℕ → ℕ → ℕ → Checked LongHeaderInfo
parse_ids payload start packet_type version = do
  (dcid, behind_dcid) ← read_connection_id payload (start + 5)
  (scid, behind_scid) ← read_connection_id payload behind_dcid
  end ← find_packet_end payload packet_type behind_scid
  ok (record {
    total_size = end - start;
    packet_type = packet_type;
    version = version;
    dcid = dcid;
    scid = scid;
  })

unfoldable pub parse_long_header : Bytes → ℕ → Checked LongHeaderInfo
parse_long_header payload start = do
  require (has_bytes payload start 7)
  first_byte ← access (read payload start)
  require (is_long_header first_byte)
  version ← access (read_be32 payload (start + 1))
  require (not (version == 0))
  parse_ids payload start (first_byte / 16 % 4) version
