-- ===== src/Bytes.antt =====
-- Spans of bytes, and the big-endian reads that the decoder and the policies share
-- (src/decode/PacketDecode.cpp, src/policy/TlsConstrictor.cpp, src/policy/QuicConstrictor.cpp).
-- A read outside of the span is undefined behaviour in the source; here it is the fault `none`.
use pcap_constrictor_afpacke.Base.{
  ℕ, ◌+◌, ◌-◌, ◌*◌, ◌%◌, ◌^◌, ◌≤◌, ◌<◌, ◌≡◌, Bool, true, ◌&&◌, List, Option, none, some, arith, leb,
  if◌then◌else◌, length, get_elem?, get_or, take, drop, ◌>>=◌, get_elem?-lt,
}

abbrev pub Bytes : Type 0
Bytes = List ℕ

abbrev pub u16_mod : ℕ
u16_mod = 2 ^ 16

abbrev pub u64_mod : ℕ
u64_mod = 18446744073709551616

abbrev pub u32_mod : ℕ
u32_mod = 2 ^ 32

unfoldable pub has_bytes : Bytes → ℕ → ℕ → Bool
has_bytes packet offset count = leb offset (length packet) && leb count (length packet - offset)

-- `packet[offset]`
unfoldable pub read : Bytes → ℕ → Option ℕ
read packet offset = get_elem? packet offset

-- The bytes of `[offset, offset + count)`.
unfoldable pub subspan : Bytes → ℕ → ℕ → Option Bytes
subspan packet offset count =
    if has_bytes packet offset count then some (take count (drop offset packet)) else none

unfoldable pub read_be16 : Bytes → ℕ → Option ℕ
unfolding read
read_be16 packet offset = do
  hi ← read packet offset
  lo ← read packet (offset + 1)
  some ((hi * 256 + lo) % u16_mod)

unfoldable pub read_be32 : Bytes → ℕ → Option ℕ
unfolding read
read_be32 packet offset = do
  a ← read packet offset
  b ← read packet (offset + 1)
  c ← read packet (offset + 2)
  d ← read packet (offset + 3)
  some ((a * 2 ^ 24 + b * 2 ^ 16 + c * 256 + d) % u32_mod)

-- What a read inside of the span finds.
abbrev pub byte_at : Bytes → ℕ → ℕ
byte_at packet offset = get_or packet offset 0

abbrev pub be16 : Bytes → ℕ → ℕ
be16 packet offset = (byte_at packet offset * 256 + byte_at packet (offset + 1)) % u16_mod

abbrev pub be32 : Bytes → ℕ → ℕ
be32 packet offset =
    (byte_at packet offset * 2 ^ 24
      + byte_at packet (offset + 1) * 2 ^ 16
      + byte_at packet (offset + 2) * 256
      + byte_at packet (offset + 3))
    % u32_mod

pub has_bytes_iff :
    (packet : Bytes) (offset count : ℕ)
    → has_bytes packet offset count ≡ true
    → offset + count ≤ length packet
unfolding has_bytes
has_bytes_iff packet offset count h = ground arith

pub has_bytes_of :
    (packet : Bytes) (offset count : ℕ)
    → offset + count ≤ length packet
    → has_bytes packet offset count ≡ true
unfolding has_bytes
has_bytes_of packet offset count h = ground arith

pub read_lem :
    (packet : Bytes) (offset : ℕ)
    → offset < length packet
    → read packet offset ≡ some (byte_at packet offset)
unfolding read
read_lem packet offset h = get_elem?-lt packet offset 0 h

pub read_be16_lem :
    (packet : Bytes) (offset : ℕ)
    → offset + 2 ≤ length packet
    → read_be16 packet offset ≡ some (be16 packet offset)
unfolding read_be16
read_be16_lem packet offset h =
    ground (arith, get_elem?-lt packet offset 0, get_elem?-lt packet (offset + 1) 0)

pub read_be32_lem :
    (packet : Bytes) (offset : ℕ)
    → offset + 4 ≤ length packet
    → read_be32 packet offset ≡ some (be32 packet offset)
unfolding read_be32
read_be32_lem packet offset h = ground (
  arith,
  get_elem?-lt packet offset 0,
  get_elem?-lt packet (offset + 1) 0,
  get_elem?-lt packet (offset + 2) 0,
  get_elem?-lt packet (offset + 3) 0,
)

pub subspan_lem :
    (packet : Bytes) (offset count : ℕ)
    → offset + count ≤ length packet
    → subspan packet offset count ≡ some (take count (drop offset packet))
unfolding subspan has_bytes
subspan_lem packet offset count h = ground arith
