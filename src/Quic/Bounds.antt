-- ===== src/Quic/Bounds.antt =====
-- The readers stay inside of the payload, and a parsed long header takes up at least seven bytes.
use native.Mathlib.Nat.{one-le-pow}
use pcap_constrictor_afpacke.Base.{
  ℕ, ◌+◌, ◌-◌, ◌/◌, ◌%◌, ◌^◌, ◌≤◌, ◌<◌, ◌≡◌, refl, true, arith, length, take, drop, replicate,
  length-append, length-take, length-drop, length-replicate,
}
use pcap_constrictor_afpacke.Base.Checked.{Accepts, Accepts-bind, Accepts-mono, ◌>>=◌}
use pcap_constrictor_afpacke.Bytes.{
  Bytes, has_bytes_iff, byte_at, read_lem, read_be32_lem, be32, subspan_lem,
}
use pcap_constrictor_afpacke.Quic.Types.{ConnectionId}
use pcap_constrictor_afpacke.Quic.Parse.{
  LongHeaderInfo, read_connection_id, read_varint, skip_token, read_packet_end, find_packet_end,
  parse_ids, parse_long_header, known_id,
}

-- A known id of up to 20 bytes in its array.
pub record IsKnownId (i : ConnectionId) : Type 0 where
  pub known : i.known ≡ true
  pub short : i.length ≤ 20
  pub array : length i.bytes ≡ 20

-- A reader's value and the offset behind it.
abbrev IsRead : {A : Type 0} → (A → Type 0) → Bytes → ℕ → A × ℕ → Type 0
IsRead P payload offset (a, behind) = P a × (offset < behind) × (behind ≤ length payload)

known_id-IsKnownId : (bytes : Bytes) → length bytes ≤ 20 → IsKnownId (known_id bytes)
known_id-IsKnownId bytes h = record {
  known = refl;
  short = h;
  array = omega (
    arith,
    length-append bytes (replicate (20 - length bytes) 0),
    length-replicate {A = ℕ} (20 - length bytes) 0,
  );
}

read_connection_id-IsRead :
    (payload : Bytes) (offset : ℕ)
    → Accepts (IsRead IsKnownId payload offset) (read_connection_id payload offset)
unfolding read_connection_id
read_connection_id-IsRead payload offset =
    let size = byte_at payload offset in
    let bytes = take size (drop (offset + 1) payload) in
    ground (
      arith,
      has_bytes_iff payload offset 1,
      read_lem payload offset,
      has_bytes_iff payload (offset + 1) size,
      subspan_lem payload (offset + 1) size,
      length-take size (drop (offset + 1) payload),
      length-drop (offset + 1) payload,
      known_id-IsKnownId bytes,
    )

read_varint-IsRead :
    (payload : Bytes) (offset : ℕ)
    → Accepts (IsRead (λ v. Unit {0}) payload offset) (read_varint payload offset)
unfolding read_varint
read_varint-IsRead payload offset =
    let size : ℕ = 2 ^ (byte_at payload offset / 64) in
    ground (
      arith,
      has_bytes_iff payload offset 1,
      read_lem payload offset,
      has_bytes_iff payload offset size,
      subspan_lem payload (offset + 1) (size - 1),
      one-le-pow (byte_at payload offset / 64) 2 (omega arith),
    )

-- A reader's end.
abbrev IsEnd : Bytes → ℕ → ℕ → Type 0
IsEnd payload offset end = (offset ≤ end) × (end ≤ length payload)

skip_token_inside :
    (payload : Bytes) (offset : ℕ) → Accepts (IsEnd payload offset) (skip_token payload offset)
unfolding skip_token
skip_token_inside payload offset =
    Accepts-bind (IsRead (λ v. Unit {0}) payload offset) (IsEnd payload offset) _ _
      (read_varint-IsRead payload offset)
      (λ (n, behind) h. ground (arith, has_bytes_iff payload behind n))

read_packet_end_inside :
    (payload : Bytes) (offset : ℕ) → Accepts (IsEnd payload offset) (read_packet_end payload offset)
unfolding read_packet_end
read_packet_end_inside payload offset =
    Accepts-bind (IsRead (λ v. Unit {0}) payload offset) (IsEnd payload offset) _ _
      (read_varint-IsRead payload offset)
      (λ (n, behind) h. ground (arith, has_bytes_iff payload behind n))

inside_of_initial :
    (payload : Bytes) (offset : ℕ)
    → Accepts
        (IsEnd payload offset)
        (skip_token payload offset >>= λ behind. read_packet_end payload behind)
inside_of_initial payload offset =
    Accepts-bind (IsEnd payload offset) (IsEnd payload offset) _ (read_packet_end payload)
      (skip_token_inside payload offset)
      (λ behind h.
        Accepts-mono {Q = IsEnd payload offset} (read_packet_end payload behind)
          (read_packet_end_inside payload behind) (λ end k. (omega arith, omega arith)))

find_packet_end_inside :
    (payload : Bytes) (packet_type offset : ℕ)
    → offset ≤ length payload
    → Accepts (IsEnd payload offset) (find_packet_end payload packet_type offset)
unfolding find_packet_end
find_packet_end_inside payload packet_type offset h =
    ground (arith, read_packet_end_inside payload offset, inside_of_initial payload offset)

-- A long header that is parsed lies in the payload, takes up seven bytes or more, and brings
-- two ids of up to 20 bytes.
pub record IsLongHeader (payload : Bytes) (start : ℕ) (h : LongHeaderInfo) : Type 0 where
  pub size : 7 ≤ h.total_size
  pub inside : start + h.total_size ≤ length payload
  pub source : IsKnownId h.scid
  pub destination : IsKnownId h.dcid

parse_ids-IsLongHeader :
    (payload : Bytes) (start packet_type version : ℕ)
    → Accepts (IsLongHeader payload start) (parse_ids payload start packet_type version)
unfolding parse_ids
parse_ids-IsLongHeader payload start packet_type version =
    Accepts-bind (IsRead IsKnownId payload (start + 5)) (IsLongHeader payload start) _ _
      (read_connection_id-IsRead payload (start + 5))
      (λ (dcid, b) h.
        Accepts-bind (IsRead IsKnownId payload b) (IsLongHeader payload start) _ _
          (read_connection_id-IsRead payload b)
          (λ (scid, c) k.
            Accepts-bind (IsEnd payload c) (IsLongHeader payload start) _ _
              (find_packet_end_inside payload packet_type c (omega arith))
              (λ end e. record {
                size = omega arith;
                inside = omega arith;
                source = k.0;
                destination = h.0;
              })))

-- At every offset of every payload, ParseLongHeader reads inside of the payload only. What it
-- accepts has a size of at least 7 bytes that ends inside of the payload, and its ids have at
-- most 20 bytes.
pub parse_long_header-IsLongHeader :
    (payload : Bytes) (start : ℕ)
    → Accepts (IsLongHeader payload start) (parse_long_header payload start)
unfolding parse_long_header
parse_long_header-IsLongHeader payload start = ground (
  arith,
  has_bytes_iff payload start 7,
  read_lem payload start,
  read_be32_lem payload (start + 1),
  parse_ids-IsLongHeader payload start (byte_at payload start / 16 % 4) (be32 payload (start + 1)),
)
