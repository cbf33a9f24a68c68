-- ===== src/Capture/Ring/Views.antt =====
-- A packet of the ring is a view of the ring's memory: who owns it when ReceiveNext returns.
use pcap_constrictor_afpacke.Base.{
  ℕ, zero, suc, ◌<◌, ◌≡◌, ◌||◌, arith, true, not, Option, if-elim, false, get_elem?, some, ◌∙◌,
}
use pcap_constrictor_afpacke.Capture.{
  AfPacketReceiveStatus, packet, timeout, interrupted, error, Call, fault, blocked, returns, ◌>>=◌,
  Returns,
}
use pcap_constrictor_afpacke.Capture.Ring.{
  Abi, Ring, Turn, onward, gives, turn, receive_loop, receive_next, enough_fuel, Block,
}
use pcap_constrictor_afpacke.Capture.Ring.Owned.{user_of_owned, users-le}
use pcap_constrictor_afpacke.Capture.Ring.Invariant.{
  IsRing, rounds_left, with_errors, with_errors-IsRing,
}
use pcap_constrictor_afpacke.Capture.Ring.Turns.{IsPart, IsTurn}
use pcap_constrictor_afpacke.Capture.Ring.Rounds.{turn-IsTurn}

-- With a packet the current block is active and the program's, and the packet's bytes are a part of
-- it.
abbrev pub IsView : AfPacketReceiveStatus × ℕ × Ring → Type 0
IsView (packet p, test, ring) =
    (ring.capture.current_block_active ≡ true)
    × (b : Block) × (get_elem? ring.blocks ring.capture.current_block_index ≡ some b)
    × (b.is_user ≡ true)
    × IsPart b.contents p
IsView (timeout, test, ring) = Unit {0}
IsView (interrupted, test, ring) = Unit {0}
IsView (error, test, ring) = Unit {0}

module _ (abi : Abi) (signal : Option ℕ) where
  receive_loop-IsView :
      (fuel test : ℕ) (ring : Ring)
      → IsRing ring
      → rounds_left ring < fuel
      → Returns IsView (receive_loop fuel abi signal test ring)
  unfolding receive_loop
  receive_loop-IsView zero test ring v h = absurd (omega arith)
  receive_loop-IsView (suc fuel) test ring v h =
      by_turn (turn abi signal test ring) (turn-IsTurn abi signal test ring v)
        (receive_loop-IsView fuel)
    where
      by_turn :
          (m : Call Turn)
          → Returns (IsTurn signal ring) m
          → ((test' : ℕ) (ring' : Ring)
              → IsRing ring'
              → rounds_left ring' < fuel
              → Returns IsView (receive_loop fuel abi signal test' ring'))
          → Returns IsView (do
            turned ← m
            elim turned [
              | onward test' ring' ↦ receive_loop fuel abi signal test' ring'
              | gives status test' ring' ↦ returns (status, test', ring')
            ])
      by_turn fault t go_on = t
      by_turn blocked t go_on = tt
      by_turn (returns (onward test' ring')) t go_on =
          go_on test' ring' t.0.0 (omega (arith, t.1, h))
      by_turn (returns (gives (packet p) test' ring')) t go_on =
          let (b, before, part) = t.6 in
          let found = (λ i. get_elem? (t.4 i) (t.5 i)) ∙ before in
          let owned = (t.0.0.active_ok t.3).0 in
          (
            t.3,
            b,
            found,
            user_of_owned ring'.capture.current_block_index b ring'.blocks found owned,
            part,
          )
      by_turn (returns (gives timeout test' ring')) t go_on = tt
      by_turn (returns (gives interrupted test' ring')) t go_on = tt
      by_turn (returns (gives error test' ring')) t go_on = tt

  -- From an open ring whose blocks and fills have the block size: when ReceiveNext gives a
  -- packet, the current block is active and its status says that the program owns it, and the
  -- bytes of the packet, as many as its captured length, are a part of the bytes of that block.
  pub receive_next-IsView :
      (test : ℕ) (ring : Ring) → IsRing ring → Returns IsView (receive_next abi signal test ring)
  unfolding receive_next
  receive_next-IsView test ring v =
      if-elim (Returns IsView) (not ring.capture.has_socket || not ring.capture.has_mapping) _ _
        (λ h. tt)
        (λ h.
          receive_loop-IsView (enough_fuel ring) test
            (with_errors ring false ring.capture.non_fatal_receive_errors)
            (with_errors-IsRing ring false _ v) (ground (arith, users-le ring.blocks)))
