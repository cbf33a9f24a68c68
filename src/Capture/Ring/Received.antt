-- ===== src/Capture/Ring/Received.antt =====
-- What ReceiveNext gives, for any memory of the ring and any events.
use native.Mathlib.Nat.{mul-le-mul_right, suc-mul}
use pcap_constrictor_afpacke.Base.{
  ℕ, zero, suc, ◌+◌, ◌*◌, ◌≤◌, ◌<◌, ◌≡◌, ◌⊎◌, inl, inr, arith, false, not, ◌||◌, Option, if-elim,
}
use pcap_constrictor_afpacke.Capture.{
  AfPacketReceiveStatus, packet, timeout, interrupted, error, Call, returns, ◌>>=◌, Returns,
  IsReceived, IsCapture, fault, blocked,
}
use pcap_constrictor_afpacke.Capture.Ring.{
  Abi, Ring, Turn, onward, gives, turn, receive_loop, receive_next, enough_fuel, tpacket_v3_capture,
}
use pcap_constrictor_afpacke.Capture.Ring.Owned.{users-le}
use pcap_constrictor_afpacke.Capture.Ring.Invariant.{
  IsRing, rounds_left, blocks_left, current_left, packets_left, with_errors, with_errors-IsRing,
}
use pcap_constrictor_afpacke.Capture.Ring.Turns.{IsTurn, IsLess, IsNotMore}
use pcap_constrictor_afpacke.Capture.Ring.Rounds.{turn-IsTurn}

-- The orders of the parts give that of the sum.
lex_lt : (b' b c' c k : ℕ) → ((b' < b) × (c' < k)) ⊎ ((b' ≤ b) × (c' < c)) → b' * k + c' < b * k + c
lex_lt b' b c' c k (inl h) =
    let step : suc b' * k ≤ b * k = mul-le-mul_right k (omega (arith, h.0)) in
    omega (arith, step, suc-mul b' k, h.1)
lex_lt b' b c' c k (inr h) =
    let step : b' * k ≤ b * k = mul-le-mul_right k h.0 in omega (arith, step, h.1)

lex_le : (b' b c' c k : ℕ) → b' ≤ b → c' ≤ c → b' * k + c' ≤ b * k + c
lex_le b' b c' c k h g = let step : b' * k ≤ b * k = mul-le-mul_right k h in omega (arith, step, g)

less_packets :
    (ring after : Ring)
    → after.capture.block_size ≡ ring.capture.block_size
    → IsLess ring after
    → packets_left after < packets_left ring
less_packets ring after same h =
    let k = ring.capture.block_size + 1 in
    rw same (
      lex_lt (blocks_left after) (blocks_left ring) (current_left after) (current_left ring) k
        (parts h))
  where
    parts :
        IsLess ring after
        → ((blocks_left after < blocks_left ring)
            × (current_left after < ring.capture.block_size + 1))
          ⊎ ((blocks_left after ≤ blocks_left ring) × (current_left after < current_left ring))
    parts (inl g) = inl (g.0, omega (arith, g.1))
    parts (inr g) = inr g

not_more_packets :
    (ring after : Ring)
    → after.capture.block_size ≡ ring.capture.block_size
    → IsNotMore ring after
    → packets_left after ≤ packets_left ring
not_more_packets ring after same (inl h) = omega (arith, less_packets ring after same h)
not_more_packets ring after same (inr h) = rw same (
    lex_le (blocks_left after) (blocks_left ring) (current_left after) (current_left ring)
      (ring.capture.block_size + 1) h.0 h.1)

abbrev IsTaken : Option ℕ → ℕ → Call (AfPacketReceiveStatus × ℕ × Ring) → Type 0
IsTaken signal bound r = IsReceived IsRing packets_left signal bound r

IsTaken-mono :
    (signal : Option ℕ) (n m : ℕ) (r : Call (AfPacketReceiveStatus × ℕ × Ring))
    → n ≤ m
    → IsTaken signal n r
    → IsTaken signal m r
IsTaken-mono signal n m fault le h = h
IsTaken-mono signal n m blocked le h = tt
IsTaken-mono signal n m (returns (packet p, t, s)) le h = (h.0, omega (arith, h.1), h.2)
IsTaken-mono signal n m (returns (timeout, t, s)) le h = (h.0, omega (arith, h.1))
IsTaken-mono signal n m (returns (interrupted, t, s)) le h = (h.0, omega (arith, h.1), h.2)
IsTaken-mono signal n m (returns (error, t, s)) le h = (h.0, omega (arith, h.1))

module _ (abi : Abi) (signal : Option ℕ) where
  receive_loop-IsTaken :
      (fuel test : ℕ) (ring : Ring)
      → IsRing ring
      → rounds_left ring < fuel
      → IsTaken signal (packets_left ring) (receive_loop fuel abi signal test ring)
  unfolding receive_loop
  receive_loop-IsTaken zero test ring v h = absurd (omega arith)
  receive_loop-IsTaken (suc fuel) test ring v h =
      by_turn (turn abi signal test ring) (turn-IsTurn abi signal test ring v)
        (receive_loop-IsTaken fuel)
    where
      by_turn :
          (m : Call Turn)
          → Returns (IsTurn signal ring) m
          → ((test' : ℕ) (ring' : Ring)
              → IsRing ring'
              → rounds_left ring' < fuel
              → IsTaken signal (packets_left ring') (receive_loop fuel abi signal test' ring'))
          → IsTaken signal (packets_left ring) (do
            turned ← m
            elim turned [
              | onward test' ring' ↦ receive_loop fuel abi signal test' ring'
              | gives status test' ring' ↦ returns (status, test', ring')
            ])
      by_turn fault t go_on = t
      by_turn blocked t go_on = tt
      by_turn (returns (onward test' ring')) t go_on =
          IsTaken-mono signal (packets_left ring') (packets_left ring) _
            (not_more_packets ring ring' t.0.1 t.2)
            (go_on test' ring' t.0.0 (omega (arith, t.1, h)))
      by_turn (returns (gives (packet p) test' ring')) t go_on =
          (t.0.0, less_packets ring ring' t.0.1 t.1, t.2)
      by_turn (returns (gives timeout test' ring')) t go_on =
          (t.0.0, less_packets ring ring' t.0.1 t.1)
      by_turn (returns (gives interrupted test' ring')) t go_on =
          (t.0.0, not_more_packets ring ring' t.0.1 t.1, t.2)
      by_turn (returns (gives error test' ring')) t go_on =
          (t.0.0, not_more_packets ring ring' t.0.1 t.1)

  receive_next-IsTaken :
      (test : ℕ) (ring : Ring)
      → IsRing ring
      → IsTaken signal (packets_left ring) (receive_next abi signal test ring)
  unfolding receive_next
  receive_next-IsTaken test ring v =
      if-elim (IsTaken signal (packets_left ring))
        (not ring.capture.has_socket || not ring.capture.has_mapping) _ _
        (λ h. absurd (ground (arith, h, v.socket_ok, v.mapping_ok)))
        (λ h.
          receive_loop-IsTaken (enough_fuel ring) test
            (with_errors ring false ring.capture.non_fatal_receive_errors)
            (with_errors-IsRing ring false _ v) (ground (arith, users-le ring.blocks)))

-- From an open ring whose blocks and fills have the block size, at every answer of the kernel,
-- signal and content of the blocks, and whatever the kernel's structures hold, ReceiveNext
-- returns or waits for the kernel; it reads inside of the blocks only, and the fuel, twice the
-- blocks and events and two more, is enough. The ring is again as it should be, and an active
-- block is one that the program owns. A packet has as many bytes as its captured length, which
-- is at most its original length and under 2 ^ 32. Each packet and each timeout uses up some of
-- what the blocks and events bring, and it is interrupted only once a signal came.
pub tpacket_v3_capture-IsCapture :
    (abi : Abi) → IsCapture IsRing packets_left (tpacket_v3_capture abi)
tpacket_v3_capture-IsCapture abi = record {
  received = λ signal test ring v. receive_next-IsTaken abi signal test ring v;
}
