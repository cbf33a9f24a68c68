-- ===== src/Capture/Ring/Waits.antt =====
-- What WaitForReadyBlock gives, for any events.
use pcap_constrictor_afpacke.Bytes.{Bytes}
use pcap_constrictor_afpacke.Base.{
  ℕ, suc, ◌+◌, ◌≤◌, ◌<◌, ◌≡◌, refl, arith, Bool, true, false, not, if◌then◌else◌, Option, none,
  some, List, [], ◌∷◌, length, if-elim,
}
use pcap_constrictor_afpacke.Capture.{
  packet, timeout, interrupted, error, stop_requested, Call, fault, blocked, returns, ◌>>=◌,
  Returns,
}
use pcap_constrictor_afpacke.Capture.Ring.{
  Block, PollAnswer, poll_interrupted, poll_failed, poll_timeout, poll_ready, poll_error, RingEvent,
  filled, filled_in_poll, polled, Ring, kernel_fill, has_block_base, current_block, Waited, ready,
  gives_up, test_block, poll_answered, wait_loop, wait_for_ready_block,
}
use pcap_constrictor_afpacke.Capture.Ring.Owned.{
  users, IsOwned, AllSized, AllFilled, IsOwned-of, length-kernel_fill, users-kernel_fill,
  AllSized-kernel_fill,
}
use pcap_constrictor_afpacke.Capture.Ring.Invariant.{
  with_errors, with_errors-IsRing, IsRing, IsFound, current_block-IsFound,
}

-- The program's blocks, and those that the events can still bring.
abbrev pub weight : Ring → ℕ
weight ring = users ring.blocks + length ring.events

pub record IsIdle (size : ℕ) (ring : Ring) : Type 0 where
  pub valid : IsRing ring
  pub inactive : ring.capture.current_block_active ≡ false
  pub same_size : ring.capture.block_size ≡ size

module _ (signal : Option ℕ) (size : ℕ) where
  abbrev pub IsWaited : ℕ → Waited → Type 0
  IsWaited bound fault = ⊥
  IsWaited bound blocked = Unit {0}
  IsWaited bound (returns (none, test, ring)) =
      IsIdle size ring
      × (weight ring ≤ bound)
      × IsOwned ring.capture.current_block_index ring.blocks
  IsWaited bound (returns (some (packet p), test, ring)) = ⊥
  IsWaited bound (returns (some timeout, test, ring)) = IsIdle size ring × (weight ring < bound)
  IsWaited bound (returns (some interrupted, test, ring)) =
      IsIdle size ring × (weight ring ≤ bound) × (stop_requested signal test ≡ true)
  IsWaited bound (returns (some error, test, ring)) = IsIdle size ring × (weight ring ≤ bound)

  IsWaited-mono : (n m : ℕ) (r : Waited) → n ≤ m → IsWaited n r → IsWaited m r
  IsWaited-mono n m fault le h = h
  IsWaited-mono n m blocked le h = tt
  IsWaited-mono n m (returns (none, t, s)) le h = (h.0, omega (arith, h.1), h.2)
  IsWaited-mono n m (returns (some (packet p), t, s)) le h = h
  IsWaited-mono n m (returns (some timeout, t, s)) le h = (h.0, omega (arith, h.1))
  IsWaited-mono n m (returns (some interrupted, t, s)) le h = (h.0, omega (arith, h.1), h.2)
  IsWaited-mono n m (returns (some error, t, s)) le h = (h.0, omega (arith, h.1))

  with_errors-IsIdle :
      (ring : Ring) (has_error : Bool) (count : ℕ)
      → IsIdle size ring
      → IsIdle size (with_errors ring has_error count)
  with_errors-IsIdle ring has_error count v = record {
    valid = with_errors-IsRing ring has_error count v.valid;
    inactive = v.inactive;
    same_size = v.same_size;
  }

  -- The blocks and the events of an idle ring may change together.
  abbrev with_blocks : Ring → List Block → List RingEvent → Ring
  with_blocks ring blocks events = record ring { blocks = blocks; events = events }

  record IsSupply (ring : Ring) (blocks : List Block) (events : List RingEvent) : Type 0 where
    same_count : length blocks ≡ ring.capture.block_count
    sized : AllSized ring.capture.block_size blocks
    fills : AllFilled ring.capture.block_size events

  with_blocks-IsIdle :
      (ring : Ring) (blocks : List Block) (events : List RingEvent)
      → IsIdle size ring
      → IsSupply ring blocks events
      → IsIdle size (with_blocks ring blocks events)
  with_blocks-IsIdle ring blocks events v h = record {
    valid = record {
      socket_ok = v.valid.socket_ok;
      mapping_ok = v.valid.mapping_ok;
      count_is = h.same_count;
      index_lt = v.valid.index_lt;
      count_lt = v.valid.count_lt;
      size_lt = v.valid.size_lt;
      sized = h.sized;
      fills = h.fills;
      active_ok = λ e. absurd (ground (arith, e, v.inactive));
    };
    inactive = v.inactive;
    same_size = v.same_size;
  }

  test_block-IsWaited :
      (test : ℕ) (ring : Ring) (polling : Waited)
      → IsIdle size ring
      → IsWaited (weight ring) polling
      → IsWaited (weight ring) (test_block test ring polling)
  unfolding test_block
  test_block-IsWaited test ring polling v h =
      if-elim (IsWaited (weight ring)) (not (has_block_base ring.capture)) _ _
        (λ e. (with_errors-IsIdle ring true _ v, omega arith))
        (λ e. by_block (current_block ring) (current_block-IsFound ring v.valid))
    where
      by_block :
          (m : Call Block)
          → Returns (IsFound ring) m
          → IsWaited
              (weight ring)
              (do block ← m; if block.is_user then ready test ring else polling)
      by_block fault f = f
      by_block blocked f = tt
      by_block (returns b) f =
          if-elim (IsWaited (weight ring)) b.is_user _ _
            (λ u. (v, omega arith, IsOwned-of ring.capture.current_block_index b ring.blocks f.0 u))
            (λ u. h)

  stopped_next :
      (test : ℕ) → stop_requested signal test ≡ true → stop_requested signal (test + 1) ≡ true
  stopped_next test h = ground (arith, h)

  poll_answered-IsWaited :
      (bound test : ℕ) (ring : Ring) (answer : PollAnswer) (rest retried : Waited)
      → IsIdle size ring
      → weight ring < bound
      → IsWaited (weight ring) rest
      → IsWaited (weight ring) retried
      → IsWaited bound (poll_answered signal test ring answer rest retried)
  unfolding poll_answered
  poll_answered-IsWaited bound test ring poll_interrupted rest retried v lt h k =
      if-elim (IsWaited bound) (stop_requested signal test) _ _
        (λ e. (v, omega (arith, lt), stopped_next test e))
        (λ e. IsWaited-mono (weight ring) bound retried (omega (arith, lt)) k)
  poll_answered-IsWaited bound test ring poll_failed rest retried v lt h k =
      (with_errors-IsIdle ring true _ v, omega (arith, lt))
  poll_answered-IsWaited bound test ring poll_error rest retried v lt h k =
      (with_errors-IsIdle ring true _ v, omega (arith, lt))
  poll_answered-IsWaited bound test ring poll_ready rest retried v lt h k =
      IsWaited-mono (weight ring) bound rest (omega (arith, lt)) h
  poll_answered-IsWaited bound test ring poll_timeout rest retried v lt h k =
      by_test (stop_requested signal test) refl
    where
      by_test :
          (b : Bool)
          → stop_requested signal test ≡ b
          → IsWaited bound (gives_up (if b then interrupted else timeout) (test + 1) ring)
      by_test true e = (v, omega (arith, lt), stopped_next test e)
      by_test false e = (v, lt)

  -- A fill brings one block more at most.
  filled-IsSupply :
      (ring : Ring) (index : ℕ) (contents : Bytes) (blocks : List Block) (events : List RingEvent)
      → length blocks ≡ ring.capture.block_count
      → AllSized ring.capture.block_size blocks
      → length contents ≡ ring.capture.block_size
      → AllFilled ring.capture.block_size events
      → IsSupply ring (kernel_fill index contents blocks) events
  filled-IsSupply ring index contents blocks events count sized whole fills = record {
    same_count = omega (arith, count, length-kernel_fill index contents blocks);
    sized = AllSized-kernel_fill ring.capture.block_size index contents blocks sized whole;
    fills = fills;
  }

  filled-IsWaited :
      (index : ℕ) (contents : Bytes) (blocks : List Block) (events : List RingEvent) (r : Waited)
      → IsWaited (users (kernel_fill index contents blocks) + length events) r
      → IsWaited (users blocks + suc (length events)) r
  filled-IsWaited index contents blocks events r h =
      IsWaited-mono (users (kernel_fill index contents blocks) + length events)
        (users blocks + suc (length events)) r
        (omega (arith, users-kernel_fill index contents blocks)) h

  wait_loop-IsWaited :
      (polling : Bool) (test : ℕ) (ring : Ring) (blocks : List Block) (events : List RingEvent)
      → IsIdle size ring
      → IsSupply ring blocks events
      → IsWaited (users blocks + length events) (wait_loop polling signal test ring blocks events)
  unfolding wait_loop
  wait_loop-IsWaited false test ring blocks [] v h =
      test_block-IsWaited test (with_blocks ring blocks []) blocked
        (with_blocks-IsIdle ring blocks [] v h) tt
  wait_loop-IsWaited true test ring blocks [] v h = tt
  wait_loop-IsWaited false test ring blocks (filled index contents ∷ events) v h =
      filled-IsWaited index contents blocks events _ (
        wait_loop-IsWaited false test ring (kernel_fill index contents blocks) events v (
          filled-IsSupply ring index contents blocks events h.same_count h.sized h.fills.0
            h.fills.1))
  wait_loop-IsWaited true test ring blocks (filled index contents ∷ events) v h =
      filled-IsWaited index contents blocks events _ (
        wait_loop-IsWaited true test ring (kernel_fill index contents blocks) events v (
          filled-IsSupply ring index contents blocks events h.same_count h.sized h.fills.0
            h.fills.1))
  wait_loop-IsWaited false test ring blocks (filled_in_poll index contents ∷ events) v h =
      test_block-IsWaited test (with_blocks ring blocks (filled_in_poll index contents ∷ events)) _
        (with_blocks-IsIdle ring blocks (filled_in_poll index contents ∷ events) v h)
        (filled-IsWaited index contents blocks events _ (
          wait_loop-IsWaited true test ring (kernel_fill index contents blocks) events v (
            filled-IsSupply ring index contents blocks events h.same_count h.sized h.fills.0
              h.fills.1)))
  wait_loop-IsWaited true test ring blocks (filled_in_poll index contents ∷ events) v h =
      filled-IsWaited index contents blocks events _ (
        wait_loop-IsWaited true test ring (kernel_fill index contents blocks) events v (
          filled-IsSupply ring index contents blocks events h.same_count h.sized h.fills.0
            h.fills.1))
  wait_loop-IsWaited false test ring blocks (polled answer ∷ events) v h =
      let supply : IsSupply ring blocks events = record {
        same_count = h.same_count;
        sized = h.sized;
        fills = h.fills;
      } in
      test_block-IsWaited test (with_blocks ring blocks (polled answer ∷ events)) _
        (with_blocks-IsIdle ring blocks (polled answer ∷ events) v h)
        (poll_answered-IsWaited (users blocks + suc (length events)) test
          (with_blocks ring blocks events) answer _ _
          (with_blocks-IsIdle ring blocks events v supply) (omega arith)
          (wait_loop-IsWaited false test ring blocks events v supply)
          (wait_loop-IsWaited false (test + 1) ring blocks events v supply))
  wait_loop-IsWaited true test ring blocks (polled answer ∷ events) v h =
      let supply : IsSupply ring blocks events = record {
        same_count = h.same_count;
        sized = h.sized;
        fills = h.fills;
      } in
      poll_answered-IsWaited (users blocks + suc (length events)) test
        (with_blocks ring blocks events) answer _ _ (with_blocks-IsIdle ring blocks events v supply)
        (omega arith) (wait_loop-IsWaited false test ring blocks events v supply)
        (wait_loop-IsWaited false (test + 1) ring blocks events v supply)

  pub wait_for_ready_block-IsWaited :
      (test : ℕ) (ring : Ring)
      → IsIdle size ring
      → IsWaited (weight ring) (wait_for_ready_block signal test ring)
  unfolding wait_for_ready_block
  wait_for_ready_block-IsWaited test ring v =
      wait_loop-IsWaited false test ring ring.blocks ring.events v
        (record { same_count = v.valid.count_is; sized = v.valid.sized; fills = v.valid.fills })
