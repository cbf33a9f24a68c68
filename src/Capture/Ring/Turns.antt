-- ===== src/Capture/Ring/Turns.antt =====
-- A round of ReceiveNext's loop, from any state of the ring.

use pcap_constrictor_afpacke.Base.{
  ℕ, ◌+◌, ◌%◌, ◌≤◌, ◌<◌, ◌≡◌, ◌⊎◌, refl, arith, true, false, not, ◌&&◌, ◌||◌, ltb, leb, ◌==◌,
  Option, length, if-elim, drop, length-take, length-drop, subst, sym, get_elem?, take, some,
}
use pcap_constrictor_afpacke.Bytes.{Bytes, u32_mod, subspan, subspan_lem}
use pcap_constrictor_afpacke.Capture.{
  packet, timeout, interrupted, error, stop_requested, access, Returns, Returns-bind, IsCaptured,
}
use pcap_constrictor_afpacke.Packet.{CapturedPacket}
use pcap_constrictor_afpacke.Capture.Ring.{
  Abi, PacketHeader, AfPacketTpacketV3Capture, Ring, Turn, onward, gives, is_bad_packet, read_link,
  read_packet, advance, Block,
}
use pcap_constrictor_afpacke.Capture.Ring.Invariant.{
  IsRing, rounds_left, blocks_left, current_left, IsReleased,
}

-- What is left after a round: fewer blocks, or no more blocks and no more packets in the block.
abbrev pub IsLess : Ring → Ring → Type 0
IsLess ring after =
    ((blocks_left after < blocks_left ring) × (current_left after ≤ ring.capture.block_size))
    ⊎ ((blocks_left after ≤ blocks_left ring) × (current_left after < current_left ring))

abbrev pub IsNotMore : Ring → Ring → Type 0
IsNotMore ring after =
    IsLess ring after
    ⊎ ((blocks_left after ≤ blocks_left ring) × (current_left after ≤ current_left ring))

abbrev pub IsKept : Ring → Ring → Type 0
IsKept ring after = IsRing after × (after.capture.block_size ≡ ring.capture.block_size)

-- The bytes of the packet are a part of these.
abbrev pub IsPart : Bytes → CapturedPacket → Type 0
IsPart contents p =
    (offset : ℕ) × (offset + p.packet.captured_len ≤ length contents)
    × (p.packet.data_span ≡ take p.packet.captured_len (drop offset contents))

-- They are a part of the current block.
abbrev pub IsSeen : Ring → CapturedPacket → Type 0
IsSeen ring p =
    (b : Block) × (get_elem? ring.blocks ring.capture.current_block_index ≡ some b)
    × IsPart b.contents p

-- After a packet the program still owns the block that its bytes lie in.
module _ (signal : Option ℕ) (ring : Ring) where
  abbrev pub IsTurn : Turn → Type 0
  IsTurn (onward test after) =
      IsKept ring after × (rounds_left after < rounds_left ring) × IsNotMore ring after
  IsTurn (gives (packet p) test after) =
      IsKept ring after
      × IsLess ring after
      × IsCaptured p
      × (after.capture.current_block_active ≡ true)
      × (after.blocks ≡ ring.blocks)
      × (after.capture.current_block_index ≡ ring.capture.current_block_index)
      × IsSeen ring p
  IsTurn (gives timeout test after) = IsKept ring after × IsLess ring after
  IsTurn (gives interrupted test after) =
      IsKept ring after × IsNotMore ring after × (stop_requested signal test ≡ true)
  IsTurn (gives error test after) = IsKept ring after × IsNotMore ring after

module _ (abi : Abi) where
  -- A read inside of a block finds as many bytes.
  pub subspan-Returns :
      (contents : Bytes) (offset count : ℕ)
      → offset + count ≤ length contents
      → Returns (λ b. length b ≡ count) (access (subspan contents offset count))
  subspan-Returns contents offset count h =
      subst (λ m. Returns (λ b. length b ≡ count) (access m))
        (sym (subspan_lem contents offset count h))
        (omega (arith, h, length-take count (drop offset contents), length-drop offset contents))

  -- A header that passes the tests has its data inside of the block.
  read_link-Returns :
      (capture : AfPacketTpacketV3Capture) (header : PacketHeader) (contents : Bytes)
      → length contents ≡ capture.block_size
      → is_bad_packet capture header ≡ false
      → Returns (λ link. Unit {0}) (read_link abi capture header contents)
  unfolding read_link is_bad_packet
  read_link-Returns capture header contents size ok =
      let offset = capture.current_packet_offset + abi.aligned_header_size in
      let is_there =
        leb (abi.aligned_header_size + abi.address_size) header.tp_mac
        && leb offset capture.block_size
        && leb (offset + abi.address_size) (capture.current_packet_offset + header.tp_mac) in
      if-elim (Returns (λ link. Unit {0})) is_there _ _
        (λ h.
          Returns-bind (λ b. length b ≡ abi.address_size) (λ link. Unit {0})
            (access (subspan contents offset abi.address_size)) _
            (subspan-Returns contents offset abi.address_size (ground (arith, size, ok, h)))
            (λ b u. tt))
        (λ h. tt)

  pub read_packet-IsCaptured :
      (capture : AfPacketTpacketV3Capture) (header : PacketHeader) (contents : Bytes)
      → length contents ≡ capture.block_size
      → capture.block_size < u32_mod
      → is_bad_packet capture header ≡ false
      → Returns (λ p. IsCaptured p × IsPart contents p) (read_packet abi capture header contents)
  unfolding read_packet is_bad_packet
  read_packet-IsCaptured capture header contents size small ok =
      let offset = capture.current_packet_offset + header.tp_mac in
      let P : CapturedPacket → Type 0 = λ p. IsCaptured p × IsPart contents p in
      let inside : offset + header.tp_snaplen ≤ length contents = ground (arith, size, ok) in
      Returns-bind (λ link. Unit {0}) P _ _ (read_link-Returns capture header contents size ok)
        (λ link u. rw (subspan_lem contents offset header.tp_snaplen inside) (
          record {
            captured_is = omega (
              arith,
              length-take header.tp_snaplen (drop offset contents),
              length-drop offset contents,
              inside,
            );
            original_ge = ground (arith, ok);
            fits = ground (arith, ok, small);
          },
          (offset, inside, refl),
        ))

  -- `advance` only moves on in the block.
  abbrev pub moved : AfPacketTpacketV3Capture → ℕ → ℕ → ℕ → AfPacketTpacketV3Capture
  moved capture index offset errors = record capture {
    current_block_packet_index = index;
    current_packet_offset = offset;
    non_fatal_receive_errors = errors;
  }

  abbrev pub IsMoved : AfPacketTpacketV3Capture → AfPacketTpacketV3Capture → Type 0
  IsMoved capture after =
      (index : ℕ) × (offset : ℕ) × (errors : ℕ) × (after ≡ moved capture index offset errors)
      × (capture.current_block_packet_index < index)
      × (index ≤ capture.current_block_packet_count)

  pub advance-IsMoved :
      (header : PacketHeader) (capture : AfPacketTpacketV3Capture)
      → capture.current_block_packet_index < capture.current_block_packet_count
      → capture.current_block_packet_count < u32_mod
      → IsMoved capture (advance abi header capture)
  unfolding advance
  advance-IsMoved header capture lt small =
      let index = (capture.current_block_packet_index + 1) % u32_mod in
      if-elim (IsMoved capture) (not (ltb index capture.current_block_packet_count)) _ _
        (λ h. (
          index,
          capture.current_packet_offset,
          capture.non_fatal_receive_errors,
          refl,
          omega arith,
          omega arith,
        ))
        (λ h.
          if-elim (IsMoved capture)
            (header.tp_next_offset == 0
              || ltb capture.block_size
                  (capture.current_packet_offset + header.tp_next_offset + abi.header_size))
            _ _
            (λ e. (
              capture.current_block_packet_count,
              capture.current_packet_offset,
              _,
              refl,
              lt,
              omega arith,
            ))
            (λ e. (index, _, capture.non_fatal_receive_errors, refl, omega arith, omega arith)))

  -- A packet is given, and the block stays the program's.
  module _ (signal : Option ℕ) (test : ℕ) (ring : Ring) (v : IsRing ring)
      (active : ring.capture.current_block_active ≡ true) where
    abbrev pub After : CapturedPacket → AfPacketTpacketV3Capture → Type 0
    After p capture = IsTurn signal ring (gives (packet p) test (record ring { capture = capture }))

    pub moved-IsTurn :
        (p : CapturedPacket) (after : AfPacketTpacketV3Capture)
        → IsCaptured p
        → IsSeen ring p
        → IsMoved ring.capture after
        → After p after
    moved-IsTurn p after c seen (index, offset, errors, same, more, le) =
        subst (After p) (sym same) (
          (
            record {
              socket_ok = v.socket_ok;
              mapping_ok = v.mapping_ok;
              count_is = v.count_is;
              index_lt = v.index_lt;
              count_lt = v.count_lt;
              size_lt = v.size_lt;
              sized = v.sized;
              fills = v.fills;
              active_ok = λ e. ((v.active_ok active).0, le, (v.active_ok active).2);
            },
            refl,
          ),
          ground (arith, active),
          c,
          active,
          refl,
          refl,
          seen,
        )

    -- The block goes back to the kernel.
    pub released-onward :
        (after : Ring) → IsReleased ring after → IsTurn signal ring (onward test after)
    released-onward after r = (
      (r.valid, r.same_size),
      ground (arith, active, r.inactive, r.one_less, r.same_events, v.active_ok active),
      ground (arith, active, r.inactive, r.one_less, r.same_events),
    )
