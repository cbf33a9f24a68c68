-- ===== src/Capture/Ring/Filling.antt =====
-- The packets of a block that the kernel fills while ReceiveNext waits for it.
use pcap_constrictor_afpacke.Base.{
  ℕ, suc, ◌+◌, ◌*◌, ◌==◌, ◌≡◌, refl, sym, subst, arith, Bool, true, false, not, ◌&&◌, ◌||◌, Option,
  none, some, List, [], ◌∷◌, length, get_elem?, if◌then◌else◌, if-elim,
}
use pcap_constrictor_afpacke.Bytes.{Bytes}
use pcap_constrictor_afpacke.Capture.{AfPacketReceiveStatus, returns, access, ◌>>=◌, error}
use pcap_constrictor_afpacke.Capture.Ring.{
  Abi, PacketHeader, Block, Ring, RingEvent, filled_in_poll, polled, poll_ready, has_block_base,
  current_block, is_bad_block, activated, activate_owned, activate_current_block, waited_turn, Turn,
  onward, gives, turn, receive_loop, receive_next, enough_fuel,
}
use pcap_constrictor_afpacke.Capture.Ring.Delivery.{Gives, Gives-bind, IsDelivered}
use pcap_constrictor_afpacke.Capture.Ring.Blockwise.{IsReading}
use pcap_constrictor_afpacke.Capture.Ring.Draining.{
  cleared, IsNext, receive_loop-Gives, receive_packets, received-IsDelivered,
  receive_packets-IsDelivered,
}
use pcap_constrictor_afpacke.Capture.Ring.Idle.{
  filled_block, holding, IsFilled, IsIdle, has_base, IsReady, wait-IsReady,
}

module _ (abi : Abi) (contents : Bytes) (h : PacketHeader) (hs : List PacketHeader) where
  abbrev first_offset : ℕ
  first_offset = (abi.read_desc contents).offset_to_first_pkt

  -- The block is active, at its first packet.
  abbrev IsStarted : Ring → Type 0
  IsStarted after =
      IsReading abi contents after (h ∷ hs) × (after.capture.current_packet_offset ≡ first_offset)

  abbrev IsActivated : Bool × Ring → Type 0
  IsActivated (false, after) = ⊥
  IsActivated (true, after) = IsStarted after

  abbrev IsStartedTurn : Turn → Type 0
  IsStartedTurn (onward test after) = IsStarted after
  IsStartedTurn (gives status test after) = ⊥

  module _ (ring : Ring) (v : IsIdle ring)
      (u : IsFilled abi ring.capture.block_size contents (h ∷ hs)) (blocks : List Block)
      (events : List RingEvent)
      (found : get_elem? blocks ring.capture.current_block_index
        ≡ some (filled_block contents)) where
    abbrev ready_ring : Ring
    ready_ring = cleared (holding ring blocks events)

    activated-IsStarted : IsStarted (activated ready_ring (abi.read_desc contents))
    activated-IsStarted = (
      record {
        socket_ok = v.socket_ok;
        mapping_ok = v.mapping_ok;
        some_block = v.some_block;
        active = refl;
        is_user = true;
        found = found;
        inside = u.inside;
        size_lt = u.size_lt;
        count_lt = omega (arith, u.num_pkts, u.count_lt);
        count_is = omega (arith, u.num_pkts);
        chain = u.chain;
      },
      refl,
    )

    activate_owned-Gives :
        Gives IsActivated (activate_owned abi ready_ring (abi.read_desc contents))
    unfolding activate_owned is_bad_block
    activate_owned-Gives =
        let desc = abi.read_desc contents in
        if-elim (Gives IsActivated) (desc.num_pkts == 0) _ _
          (λ e. absurd (ground (arith, e, u.num_pkts)))
          (λ e.
            if-elim (Gives IsActivated) (is_bad_block abi ring.capture desc) _ _
              (λ b. absurd (ground (arith, b, u.num_pkts, u.count_le, u.chain.0)))
              (λ b. activated-IsStarted))

    activate_current_block-Gives :
        Gives IsActivated (activate_current_block abi (holding ring blocks events))
    unfolding activate_current_block current_block
    activate_current_block-Gives =
        if-elim (Gives IsActivated) (not (has_block_base ring.capture)) _ _
          (λ e. absurd (ground (arith, e, has_base ring v)))
          (λ e.
            subst
              (λ m. Gives IsActivated (
                access m >>= (λ b.
                  if not b.is_user
                  then returns (false, ready_ring)
                  else activate_owned abi ready_ring (abi.read_desc b.contents))))
              (sym found) activate_owned-Gives)

    waited_turn-Gives :
        (test : ℕ) → Gives IsStartedTurn (waited_turn abi none test (holding ring blocks events))
    unfolding waited_turn
    waited_turn-Gives test =
        Gives-bind IsActivated IsStartedTurn _ _ activate_current_block-Gives
          (λ (active, after) q. given active after q)
      where
        given :
            (active : Bool) (after : Ring)
            → IsActivated (active, after)
            → Gives IsStartedTurn (
                if not active && after.capture.has_error
                then returns (gives error test after)
                else returns (onward test after))
        given false after q = absurd q
        given true after q = q

  turn-IsStarted :
      (test : ℕ) (ring : Ring) (more : List RingEvent)
      → IsIdle ring
      → IsFilled abi ring.capture.block_size contents (h ∷ hs)
      → ring.events
        ≡ filled_in_poll ring.capture.current_block_index contents ∷ polled poll_ready ∷ more
      → Gives IsStartedTurn (turn abi none test ring)
  unfolding turn
  turn-IsStarted test ring more v u next =
      if-elim (Gives IsStartedTurn) (ring.capture.current_block_active) _ _
        (λ e. absurd (ground (arith, e, v.inactive)))
        (λ e.
          Gives-bind (IsReady ring v contents) IsStartedTurn _ _
            (wait-IsReady ring v contents (test + 1) more next)
            (λ (wait_status, test, after) q. given wait_status test after q))
    where
      given :
          (wait_status : Option AfPacketReceiveStatus) (test : ℕ) (after : Ring)
          → IsReady ring v contents (wait_status, test, after)
          → Gives IsStartedTurn (waited_turn abi wait_status test after)
      given (some status) test after q = absurd q
      given none test after (blocks, events, same, found) =
          subst (λ r. Gives IsStartedTurn (waited_turn abi none test r)) (sym same)
            (waited_turn-Gives ring v u blocks events found test)

  receive_loop-filled :
      (fuel test : ℕ) (ring : Ring) (more : List RingEvent)
      → IsIdle ring
      → IsFilled abi ring.capture.block_size contents (h ∷ hs)
      → ring.events
        ≡ filled_in_poll ring.capture.current_block_index contents ∷ polled poll_ready ∷ more
      → Gives
          (IsNext abi contents h hs first_offset)
          (receive_loop (suc (suc fuel)) abi none test ring)
  unfolding receive_loop
  receive_loop-filled fuel test ring more v u next =
      Gives-bind IsStartedTurn (IsNext abi contents h hs first_offset) _ _
        (turn-IsStarted test ring more v u next) given
    where
      given :
          (turned : Turn)
          → IsStartedTurn turned
          → Gives (IsNext abi contents h hs first_offset) (elim turned [
            | onward test ring ↦ receive_loop (suc fuel) abi none test ring
            | gives status test ring ↦ returns (status, test, ring)
          ])
      given (onward test after) (reading, at) =
          subst
            (λ o. Gives (IsNext abi contents h hs o) (receive_loop (suc fuel) abi none test after))
            at (receive_loop-Gives abi contents h hs fuel test after reading)
      given (gives status test after) q = absurd q

  cleared-IsIdle : (ring : Ring) → IsIdle ring → IsIdle (cleared ring)
  cleared-IsIdle ring v = record {
    socket_ok = v.socket_ok;
    mapping_ok = v.mapping_ok;
    some_block = v.some_block;
    inactive = v.inactive;
    old = v.old;
    kernel_owned = v.kernel_owned;
  }

  receive_next-filled :
      (test : ℕ) (ring : Ring) (more : List RingEvent)
      → IsIdle ring
      → IsFilled abi ring.capture.block_size contents (h ∷ hs)
      → ring.events
        ≡ filled_in_poll ring.capture.current_block_index contents ∷ polled poll_ready ∷ more
      → Gives (IsNext abi contents h hs first_offset) (receive_next abi none test ring)
  unfolding receive_next
  receive_next-filled test ring more v u next =
      let P = Gives (IsNext abi contents h hs first_offset) in
      let rounds = 2 * (length ring.blocks + length ring.events) in
      let same : suc (suc rounds) ≡ enough_fuel ring = omega arith in
      if-elim P (not ring.capture.has_socket || not ring.capture.has_mapping) _ _
        (λ e. absurd (ground (arith, e, v.socket_ok, v.mapping_ok)))
        (λ e.
          subst (λ fuel. P (receive_loop fuel abi none test (cleared ring))) same
            (receive_loop-filled rounds test (cleared ring) more (cleared-IsIdle ring v) u next))

-- From an open ring without an active block, whose current block is the kernel's, and where the
-- next events are that the kernel fills this block while poll waits and that poll then answers
-- with an event: let the block's description name a positive number of packets, at most
-- block_size over the size of a header, and let the headers from offset_to_first_pkt on be
-- readable, linked by tp_next_offset, with their data inside of the block and a captured length
-- up to the original one. Then that many calls of ReceiveNext, without a signal, each return a
-- packet, in the order of the headers, with the bytes, lengths and time that the header gives;
-- no call waits any longer, runs out of rounds or reads outside of the block.
pub receive_packets-filled :
    (abi : Abi) (contents : Bytes) (hs : List PacketHeader) (test : ℕ) (ring : Ring)
    (more : List RingEvent)
    → IsIdle ring
    → IsFilled abi ring.capture.block_size contents hs
    → ring.events
      ≡ filled_in_poll ring.capture.current_block_index contents ∷ polled poll_ready ∷ more
    → Gives
        (IsDelivered contents (abi.read_desc contents).offset_to_first_pkt hs)
        (receive_packets abi (length hs) test ring)
unfolding receive_packets
receive_packets-filled abi contents [] test ring more v u next = tt
receive_packets-filled abi contents (h ∷ hs) test ring more v u next =
    let offset = (abi.read_desc contents).offset_to_first_pkt in
    Gives-bind (IsNext abi contents h hs offset) (IsDelivered contents offset (h ∷ hs)) _ _
      (receive_next-filled abi contents h hs test ring more v u next)
      (λ (status, test, after) q.
        received-IsDelivered abi contents h hs offset status test after q
          (λ reading. receive_packets-IsDelivered abi contents hs test after reading))
