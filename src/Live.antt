-- ===== src/Live.antt =====
-- The live capture in src/main.cpp: `run_capture_loop` of RunLiveCapture and what it calls, for
-- any capture. A capture's packet is used before the next call of the capture, so that it is its
-- bytes here.
pub mod Counted
pub mod Ended
pub mod Writes
pub mod Clock
pub mod Rounds
pub mod Run
pub mod Duration
pub mod Order
use pcap_constrictor_afpacke.Base.{
  ℕ, zero, suc, ◌+◌, ◌-◌, ◌*◌, ◌%◌, min, Bool, true, false, not, ◌&&◌, Option, none, some, ◌>>=◌,
  [], leb, ◌==◌, if◌then◌else◌,
}
use pcap_constrictor_afpacke.Base.Result.{err, ok}
use pcap_constrictor_afpacke.Bytes.{u64_mod}
use pcap_constrictor_afpacke.Capture.{
  AfPacketReceiveStatus, packet, timeout, interrupted, error, stop_requested, Capture, fault,
  blocked, returns,
}
use pcap_constrictor_afpacke.Config.{PolicyConfig}
use pcap_constrictor_afpacke.Packet.{CapturedPacket}
use pcap_constrictor_afpacke.Policy
use pcap_constrictor_afpacke.Policy.{
  DecisionReason, tls_application_data_constricted, tls_malformed_fallback, tls_no_record_fallback,
  quic_long_header, quic_short_header_matched, quic_short_header_constricted,
  quic_short_header_unknown_cid_fallback, quic_short_header_dcid_mismatch_fallback,
  quic_malformed_fallback, LiveCaptureDecision, LiveCapturePolicy, new_policy,
}
use pcap_constrictor_afpacke.Stats.{CaptureStats, empty_stats, add_count}
use pcap_constrictor_afpacke.Writer.{
  OutputStream, PcapWriter, WriteError, new_writer, write_global_header, write_packet,
}

pub data StopReason : Type 0 where
  signal max_packets_limit_reached duration_sec_limit_reached : StopReason
  signal_received call_interrupted stopped : StopReason

-- How `run_capture_loop` returns: with 0 and a printed reason, or with 1 and an error's text.
pub data LiveExit : Type 0 where
  finished : StopReason → LiveExit
  output_not_opened receive_failed : LiveExit
  write_error : WriteError → LiveExit

pub record LiveResult : Type 0 where
  pub exit : LiveExit
  pub stats : CaptureStats
  pub output : Option OutputStream

-- What comes from outside: the test of `g_stop_requested` before which a signal comes, if one
-- comes, and the nanoseconds since the start that each reading of the clock gives.
pub record Surroundings : Type 0 where
  pub signal_before : Option ℕ
  pub elapsed : ℕ → ℕ

-- The variables of the loop, with how many tests of the flag and readings of the clock there were.
pub record Live (S : Type 0) : Type 0 where
  pub capture : S
  pub writer : PcapWriter
  pub policy : LiveCapturePolicy
  pub stats : CaptureStats
  pub tests : ℕ
  pub readings : ℕ

-- A round goes on, waits for the kernel, or returns.
pub data Round (S : Type 0) : Type 0 where
  again : Live S → Round S
  waiting : Live S → Round S
  ended : LiveResult → Round S

-- `AccumulateDecisionStats` of src/main.cpp.
unfoldable pub accumulate_decision_stats : CaptureStats → DecisionReason → CaptureStats
accumulate_decision_stats stats reason = elim reason [
  | tls_application_data_constricted ↦ record stats {
    tls_appdata_constricted = add_count stats.tls_appdata_constricted 1;
  }
  | tls_malformed_fallback ↦ record stats { tls_fallback = add_count stats.tls_fallback 1 }
  | tls_no_record_fallback ↦ record stats { tls_fallback = add_count stats.tls_fallback 1 }
  | quic_long_header ↦ record stats { quic_long_header = add_count stats.quic_long_header 1 }
  | quic_short_header_matched ↦ record stats {
    quic_short_matched = add_count stats.quic_short_matched 1;
  }
  | quic_short_header_constricted ↦ record stats {
    quic_short_constricted = add_count stats.quic_short_constricted 1;
  }
  | quic_short_header_unknown_cid_fallback ↦ record stats {
    quic_fallback = add_count stats.quic_fallback 1;
  }
  | quic_short_header_dcid_mismatch_fallback ↦ record stats {
    quic_fallback = add_count stats.quic_fallback 1;
  }
  | quic_malformed_fallback ↦ record stats { quic_fallback = add_count stats.quic_fallback 1 }
  | _ ↦ stats
]

-- `elapsed >= seconds(duration_sec)`, which compares nanoseconds of 64 bits with a sign; the
-- product wraps the way the compilers have it.
unfoldable pub has_elapsed : ℕ → ℕ → Bool
has_elapsed elapsed duration_sec =
    let limit = duration_sec * 1000000000 % u64_mod in
    if leb 9223372036854775808 limit then true else leb limit elapsed

-- `max_packets != 0 && packets_total >= max_packets`
unfoldable pub max_packets_reached : PolicyConfig → CaptureStats → Bool
max_packets_reached config stats =
    not (config.capture.max_packets == 0) && leb config.capture.max_packets stats.packets_total

-- The counters after a packet.
unfoldable pub count_packet : CaptureStats → CapturedPacket → LiveCaptureDecision → CaptureStats
count_packet stats p decision =
    accumulate_decision_stats
      (record stats {
        packets_total = add_count stats.packets_total 1;
        packets_written = add_count stats.packets_written 1;
        bytes_input = add_count stats.bytes_input p.packet.captured_len;
        bytes_output = add_count stats.bytes_output decision.output_len;
      })
      decision.reason

module _ {S : Type 0} (capture : Capture S) (world : Surroundings) (config : PolicyConfig) where
  abbrev pub is_stopped : Live S → Bool
  is_stopped live = stop_requested world.signal_before live.tests

  abbrev pub next_test : Live S → Live S
  next_test live = record live { tests = live.tests + 1 }

  -- `DurationLimitReached`
  unfoldable pub duration_limit_reached : Live S → Bool × Live S
  duration_limit_reached live = if config.capture.duration_sec == 0 then (false, live) else (
    has_elapsed (world.elapsed live.readings) config.capture.duration_sec,
    record live { readings = live.readings + 1 },
  )

  -- `FinalizeLiveStats`
  unfoldable pub finalize_live_stats : Live S → CaptureStats
  finalize_live_stats live =
      let stats = record (live.stats) {
        bytes_saved = (live.stats.bytes_input + u64_mod - live.stats.bytes_output) % u64_mod;
        receive_errors = capture.non_fatal_receive_errors live.capture;
      } in
      elim (capture.try_read_kernel_stats live.capture) [
        | none ↦ stats
        | some kernel_stats ↦ record stats {
          kernel_stats_available = true;
          kernel_packets = kernel_stats.packets;
          kernel_drops = kernel_stats.drops;
        }
      ]

  abbrev pub result_with : LiveExit → Live S → Round S
  result_with exit live =
      ended
        (record { exit = exit; stats = finalize_live_stats live; output = some live.writer.output })

  -- Behind the loop where `stop_reason` is still "signal": the four tests in turn.
  unfoldable pub finish_signal : Live S → Round S
  finish_signal live =
      let live₂ = next_test live in
      let (reached, live₃) = duration_limit_reached (next_test live₂) in
      let live₄ = if is_stopped live₂ then next_test live₂ else live₃ in
      if is_stopped live
      then result_with (finished signal_received) (next_test live)
      else if not (is_stopped live₂) && reached
      then result_with (finished duration_sec_limit_reached) live₃
      else if not (is_stopped live₄) && max_packets_reached config live.stats
      then result_with (finished max_packets_limit_reached) (next_test live₄)
      else result_with (finished stopped) (next_test live₄)

  -- Behind the loop.
  unfoldable pub finish : StopReason → Live S → Round S
  finish signal live = finish_signal live
  finish reason live = result_with (finished reason) live

  -- Behind the policy. What a failed write has left in the file is not known.
  unfoldable pub write_decided :
      Live S → CapturedPacket → LiveCaptureDecision → LiveCapturePolicy → Round S
  write_decided live p decision policy = elim (write_packet live.writer p decision.output_len) [
    | err e ↦ ended (record { exit = write_error e; stats = live.stats; output = none })
    | ok writer ↦
        let live' : Live S = record live {
          writer = writer;
          policy = policy;
          stats = count_packet live.stats p decision;
        } in
        if max_packets_reached config live'.stats
        then finish max_packets_limit_reached live'
        else again live'
  ]

  -- The loop's body behind `ReceiveNext`; nothing at all is a read outside of a buffer.
  unfoldable pub handle : Live S → AfPacketReceiveStatus → Option (Round S)
  handle live interrupted =
      some (finish (if is_stopped live then signal_received else call_interrupted) (next_test live))
  handle live timeout = some (again live)
  handle live error = some (result_with receive_failed live)
  handle live (packet p) = do
    (decision, policy) ← Policy.evaluate live.policy p
    some (write_decided live p decision policy)

  unfoldable pub receive : Live S → Option (Round S)
  receive live = elim (capture.receive_next world.signal_before live.tests live.capture) [
    | fault ↦ none
    | blocked ↦ some (waiting live)
    | returns (status, tests, state) ↦
        handle (record live { capture = state; tests = tests }) status
  ]

  -- The loop's body, with the test of the loop.
  unfoldable pub live_round : Live S → Option (Round S)
  live_round live =
      let live' = next_test live in
      let (reached, live'') = duration_limit_reached live' in
      if is_stopped live
      then some (finish signal live')
      else if max_packets_reached config live.stats
      then some (finish max_packets_limit_reached live')
      else if reached
      then some (finish duration_sec_limit_reached live'')
      else receive live''

  -- The loop, for as many rounds as the fuel; nothing at all is also a fuel that is too small.
  unfoldable pub live_loop : ℕ → Live S → Option (Round S)
  live_loop zero live = none
  live_loop (suc fuel) live = do
    round ← live_round live
    elim round [
      | again live' ↦ live_loop fuel live'
      | waiting live' ↦ some (waiting live')
      | ended result ↦ some (ended result)
    ]

  -- `run_capture_loop`; without a room the output file cannot be opened.
  unfoldable pub run_capture_loop : Option ℕ → ℕ → S → Option (Round S)
  run_capture_loop none fuel state =
      some (ended (record { exit = output_not_opened; stats = empty_stats; output = none }))
  run_capture_loop (some room) fuel state =
      elim (write_global_header (
        new_writer (record { contents = []; room = room })
          (min config.capture.default_snaplen config.capture.max_capture_len))) [
            | err e ↦
                some (ended (record { exit = write_error e; stats = empty_stats; output = none }))
            | ok writer ↦ live_loop fuel (record {
              capture = state;
              writer = writer;
              policy = new_policy config;
              stats = empty_stats;
              tests = 0;
              readings = 0;
            })
          ]
