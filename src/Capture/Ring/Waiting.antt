-- ===== src/Capture/Ring/Waiting.antt =====
-- WaitForReadyBlock: the status of the current block, and `poll` while the kernel owns it.
use pcap_constrictor_afpacke.Base.{
  ℕ, ◌+◌, Bool, true, false, not, if◌then◌else◌, Option, none, some, List, [], ◌∷◌,
}
use pcap_constrictor_afpacke.Capture.{
  AfPacketReceiveStatus, timeout, interrupted, error, stop_requested, Call, blocked, returns, ◌>>=◌,
}
use pcap_constrictor_afpacke.Stats.{add_count}
use pcap_constrictor_afpacke.Capture.Ring.Types.{
  Block, poll_interrupted, poll_failed, poll_timeout, poll_ready, poll_error, PollAnswer, RingEvent,
  filled, filled_in_poll, polled, Ring, kernel_fill, has_block_base, set_error,
}
use pcap_constrictor_afpacke.Capture.Ring.Blocks.{current_block}

-- No status stands for the answer `true`.
abbrev pub Waited : Type 0
Waited = Call (Option AfPacketReceiveStatus × ℕ × Ring)

abbrev pub ready : ℕ → Ring → Waited
ready test ring = returns (none, test, ring)

abbrev pub gives_up : AfPacketReceiveStatus → ℕ → Ring → Waited
gives_up status test ring = returns (some status, test, ring)

-- The status word is tested, and the kernel asked if it still owns the block.
unfoldable pub test_block : ℕ → Ring → Waited → Waited
test_block test ring polling =
    if not (has_block_base ring.capture)
    then gives_up error test (set_error ring)
    else (do block ← current_block ring; if block.is_user then ready test ring else polling)

abbrev pub poll_error_of : Ring → Ring
poll_error_of ring = set_error (record ring {
  capture = record (ring.capture) {
    non_fatal_receive_errors = add_count ring.capture.non_fatal_receive_errors 1;
  };
})

-- Behind a call of `poll`: `rest` is the loop from its next round on, and `retried` the same behind
-- one more test of the signal.
unfoldable pub poll_answered : Option ℕ → ℕ → Ring → PollAnswer → Waited → Waited → Waited
poll_answered signal test ring poll_interrupted rest retried =
    if stop_requested signal test then gives_up interrupted (test + 1) ring else retried
poll_answered signal test ring poll_failed rest retried = gives_up error test (poll_error_of ring)
poll_answered signal test ring poll_timeout rest retried =
    gives_up (if stop_requested signal test then interrupted else timeout) (test + 1) ring
poll_answered signal test ring poll_ready rest retried = rest
poll_answered signal test ring poll_error rest retried = gives_up error test (poll_error_of ring)

-- The loop, before the test of the status or, if `polling`, in a call of `poll`.
unfoldable pub wait_loop : Bool → Option ℕ → ℕ → Ring → List Block → List RingEvent → Waited
wait_loop false signal test ring blocks [] =
    test_block test (record ring { blocks = blocks; events = [] }) blocked
wait_loop false signal test ring blocks (filled index contents ∷ events) =
    wait_loop false signal test ring (kernel_fill index contents blocks) events
wait_loop false signal test ring blocks (filled_in_poll index contents ∷ events) =
    test_block test
      (record ring { blocks = blocks; events = filled_in_poll index contents ∷ events })
      (wait_loop true signal test ring (kernel_fill index contents blocks) events)
wait_loop false signal test ring blocks (polled answer ∷ events) =
    test_block test (record ring { blocks = blocks; events = polled answer ∷ events })
      (poll_answered signal test (record ring { blocks = blocks; events = events }) answer
        (wait_loop false signal test ring blocks events)
        (wait_loop false signal (test + 1) ring blocks events))
wait_loop true signal test ring blocks [] = blocked
wait_loop true signal test ring blocks (filled index contents ∷ events) =
    wait_loop true signal test ring (kernel_fill index contents blocks) events
wait_loop true signal test ring blocks (filled_in_poll index contents ∷ events) =
    wait_loop true signal test ring (kernel_fill index contents blocks) events
wait_loop true signal test ring blocks (polled answer ∷ events) =
    poll_answered signal test (record ring { blocks = blocks; events = events }) answer
      (wait_loop false signal test ring blocks events)
      (wait_loop false signal (test + 1) ring blocks events)

-- `WaitForReadyBlock`
unfoldable pub wait_for_ready_block : Option ℕ → ℕ → Ring → Waited
wait_for_ready_block signal test ring = wait_loop false signal test ring ring.blocks ring.events
