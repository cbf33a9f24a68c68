-- ===== src/Capture/Ring/Draining.antt =====
-- Repeated calls of ReceiveNext give all packets of a block in their order.
use pcap_constrictor_afpacke.Base.{
  ℕ, zero, suc, ◌+◌, ◌*◌, ◌<◌, ◌≡◌, subst, arith, false, not, ◌||◌, none, List, [], ◌∷◌, length,
  if-elim,
}
use pcap_constrictor_afpacke.Bytes.{Bytes}
use pcap_constrictor_afpacke.Capture.{
  AfPacketReceiveStatus, packet, timeout, interrupted, error, Call, fault, returns, ◌>>=◌,
}
use pcap_constrictor_afpacke.Packet.{CapturedPacket}
use pcap_constrictor_afpacke.Capture.Ring.{
  Abi, PacketHeader, Ring, Turn, onward, gives, turn, receive_loop, receive_next, enough_fuel,
}
use pcap_constrictor_afpacke.Capture.Ring.Delivery.{Gives, Gives-bind, IsDelivered}
use pcap_constrictor_afpacke.Capture.Ring.Blockwise.{
  IsReading, IsNextPacket, IsNextTurn, active_turn-Gives,
}

abbrev pub packet_of : AfPacketReceiveStatus → Call CapturedPacket
packet_of (packet p) = returns p
packet_of timeout = fault
packet_of interrupted = fault
packet_of error = fault

-- The packets of this many calls without a stop between them.
unfoldable pub receive_packets : Abi → ℕ → ℕ → Ring → Call (List CapturedPacket)
receive_packets abi zero test ring = returns []
receive_packets abi (suc count) test ring = do
  (status, test, ring) ← receive_next abi none test ring
  p ← packet_of status
  ps ← receive_packets abi count test ring
  returns (p ∷ ps)

abbrev pub cleared : Ring → Ring
cleared ring = record ring { capture = record (ring.capture) { has_error = false } }

module _ (abi : Abi) (contents : Bytes) where
  cleared-IsReading :
      (ring : Ring) (hs : List PacketHeader)
      → IsReading abi contents ring hs
      → IsReading abi contents (cleared ring) hs
  cleared-IsReading ring hs v = record {
    socket_ok = v.socket_ok;
    mapping_ok = v.mapping_ok;
    some_block = v.some_block;
    active = v.active;
    is_user = v.is_user;
    found = v.found;
    inside = v.inside;
    size_lt = v.size_lt;
    count_lt = v.count_lt;
    count_is = v.count_is;
    chain = v.chain;
  }

  module _ (h : PacketHeader) (hs : List PacketHeader) where
    turn-Gives :
        (test : ℕ) (ring : Ring)
        → IsReading abi contents ring (h ∷ hs)
        → Gives (IsNextTurn abi contents h hs ring) (turn abi none test ring)
    unfolding turn
    turn-Gives test ring v =
        if-elim (Gives (IsNextTurn abi contents h hs ring)) (ring.capture.current_block_active) _ _
          (λ e. active_turn-Gives abi contents h hs ring v (test + 1))
          (λ e. absurd (ground (arith, e, v.active)))

    abbrev pub IsNext : ℕ → AfPacketReceiveStatus × ℕ × Ring → Type 0
    IsNext offset (status, test, after) = IsNextPacket abi contents h hs offset status after

    pub receive_loop-Gives :
        (fuel test : ℕ) (ring : Ring)
        → IsReading abi contents ring (h ∷ hs)
        → Gives
            (IsNext ring.capture.current_packet_offset)
            (receive_loop (suc fuel) abi none test ring)
    unfolding receive_loop
    receive_loop-Gives fuel test ring v =
        Gives-bind (IsNextTurn abi contents h hs ring) (IsNext ring.capture.current_packet_offset) _
          _ (turn-Gives test ring v) given
      where
        given :
            (turned : Turn)
            → IsNextTurn abi contents h hs ring turned
            → Gives (IsNext ring.capture.current_packet_offset) (elim turned [
              | onward test ring ↦ receive_loop fuel abi none test ring
              | gives status test ring ↦ returns (status, test, ring)
            ])
        given (onward test after) q = absurd q
        given (gives (packet p) test after) q = q
        given (gives timeout test after) q = absurd q
        given (gives interrupted test after) q = absurd q
        given (gives error test after) q = absurd q

    receive_next-Gives :
        (test : ℕ) (ring : Ring)
        → IsReading abi contents ring (h ∷ hs)
        → Gives (IsNext ring.capture.current_packet_offset) (receive_next abi none test ring)
    unfolding receive_next
    receive_next-Gives test ring v =
        let rounds = 2 * (length ring.blocks + length ring.events) in
        let same : suc (rounds + 1) ≡ enough_fuel ring = omega arith in
        if-elim (Gives (IsNext ring.capture.current_packet_offset))
          (not ring.capture.has_socket || not ring.capture.has_mapping) _ _
          (λ e. absurd (ground (arith, e, v.socket_ok, v.mapping_ok)))
          (λ e.
            subst
              (λ fuel.
                Gives (IsNext ring.capture.current_packet_offset)
                  (receive_loop fuel abi none test (cleared ring)))
              same
              (receive_loop-Gives (rounds + 1) test (cleared ring)
                (cleared-IsReading ring (h ∷ hs) v)))

  IsDelivered-offset :
      (offset start : ℕ) (hs : List PacketHeader) (ps : List CapturedPacket)
      → (0 < length hs → offset ≡ start)
      → IsDelivered contents offset hs ps
      → IsDelivered contents start hs ps
  IsDelivered-offset offset start [] [] same d = tt
  IsDelivered-offset offset start [] (p ∷ ps) same d = absurd d
  IsDelivered-offset offset start (h ∷ hs) ps same d =
      subst (λ o. IsDelivered contents o (h ∷ hs) ps) (same (omega arith)) d

  -- The packets behind a packet of the block.
  pub received-IsDelivered :
      (h : PacketHeader) (hs : List PacketHeader) (offset : ℕ) (status : AfPacketReceiveStatus)
      (test : ℕ) (after : Ring)
      → IsNextPacket abi contents h hs offset status after
      → (IsReading abi contents after hs
          → Gives
              (IsDelivered contents after.capture.current_packet_offset hs)
              (receive_packets abi (length hs) test after))
      → Gives (IsDelivered contents offset (h ∷ hs)) (do
        p ← packet_of status
        ps ← receive_packets abi (length hs) test after
        returns (p ∷ ps))
  received-IsDelivered h hs offset (packet p) test after (q, reading, next) more =
      Gives-bind (IsDelivered contents after.capture.current_packet_offset hs)
        (IsDelivered contents offset (h ∷ hs)) _ _ (more reading)
        (λ ps d. (q, IsDelivered-offset _ _ hs ps next d))
  received-IsDelivered h hs offset timeout test after q more = absurd q
  received-IsDelivered h hs offset interrupted test after q more = absurd q
  received-IsDelivered h hs offset error test after q more = absurd q

  -- From an active block whose bytes hold one readable header for each packet that is left,
  -- linked by tp_next_offset, with the packet's bytes inside of the block and a captured length
  -- up to the original one: as many calls of ReceiveNext as there are such headers, without a
  -- signal, each return a packet, in the order of the headers, with the bytes of the block at
  -- tp_mac, the header's two lengths and its time; no call waits, runs out of rounds or reads
  -- outside of the block.
  pub receive_packets-IsDelivered :
      (hs : List PacketHeader) (test : ℕ) (ring : Ring)
      → IsReading abi contents ring hs
      → Gives
          (IsDelivered contents ring.capture.current_packet_offset hs)
          (receive_packets abi (length hs) test ring)
  unfolding receive_packets
  receive_packets-IsDelivered [] test ring v = tt
  receive_packets-IsDelivered (h ∷ hs) test ring v =
      let offset = ring.capture.current_packet_offset in
      Gives-bind (IsNext h hs offset) (IsDelivered contents offset (h ∷ hs)) _ _
        (receive_next-Gives h hs test ring v)
        (λ (status, test, after) q.
          received-IsDelivered h hs offset status test after q
            (λ v. receive_packets-IsDelivered hs test after v))
