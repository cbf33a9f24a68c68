-- ===== src/Live/Order.antt =====
-- Which packets the live loop over the recvmsg capture processes, and in which order.
use pcap_constrictor_afpacke.Base.{
  ℕ, zero, suc, ◌<◌, ◌≡◌, refl, sym, ap, ◌∙◌, true, false, arith, Option, none, some, ◌>>=◌, List,
  [], ◌∷◌, length, if◌then◌else◌,
}
use pcap_constrictor_afpacke.Base.Result.{Result, err, ok}
use pcap_constrictor_afpacke.Capture.{packet, timeout, interrupted, error, fault, blocked, returns}
use pcap_constrictor_afpacke.Capture.Recvmsg.{Socket, Received, receive_next, recvmsg_capture}
use pcap_constrictor_afpacke.Config.{PolicyConfig}
use pcap_constrictor_afpacke.Packet.{CapturedPacket}
use pcap_constrictor_afpacke.Policy
use pcap_constrictor_afpacke.Policy.{LiveCaptureDecision, LiveCapturePolicy}
use pcap_constrictor_afpacke.Stats.{CaptureStats}
use pcap_constrictor_afpacke.Writer.{PcapWriter, WriteError, write_packet}
use pcap_constrictor_afpacke.Live.{
  write_error, Surroundings, Live, Round, again, waiting, ended, max_packets_reached, count_packet,
  duration_limit_reached, write_decided, handle, receive, live_round, live_loop, next_test, finish,
  max_packets_limit_reached,
}
use pcap_constrictor_afpacke.Capture.Recvmsg.Order.{
  packets_of, NoFailure, IsCall, receive_next-IsCall,
}

-- What a packet changes.
pub record Sink : Type 0 where
  pub writer : PcapWriter
  pub policy : LiveCapturePolicy
  pub stats : CaptureStats

-- A list of packets through the policy and the writer, up to a write that fails.
abbrev pub process : Sink → List CapturedPacket → Option (Result WriteError Sink)
process sink [] = some (ok sink)
process sink (p ∷ ps) = do
  (decision, policy) ← Policy.evaluate sink.policy p
  elim (write_packet sink.writer p decision.output_len) [
    | err e ↦ some (err e)
    | ok writer ↦
        process
          (record { writer = writer; policy = policy; stats = count_packet sink.stats p decision })
          ps
  ]

abbrev pub sink_of : {S : Type 0} → Live S → Sink
sink_of live = record { writer = live.writer; policy = live.policy; stats = live.stats }

-- What a loop that waits, or that a failed write has ended, has made of its packets.
abbrev pub outcome : {S : Type 0} → Round S → Option (Result WriteError Sink)
outcome (again live) = none
outcome (waiting live) = some (ok (sink_of live))
outcome (ended result) = elim result.exit [ write_error e ↦ some (err e) | _ ↦ none ]

module _ (config : PolicyConfig) (elapsed : ℕ → ℕ) (no_count : config.capture.max_packets ≡ 0)
    (no_time : config.capture.duration_sec ≡ 0) where
  -- No signal comes.
  abbrev world : Surroundings
  world = record { signal_before = none; elapsed = elapsed }

  max_packets_reached-no_count : (stats : CaptureStats) → max_packets_reached config stats ≡ false
  unfolding max_packets_reached
  max_packets_reached-no_count stats = ground (arith, no_count)

  duration_limit_reached-no_time :
      (live : Live Socket)
      → duration_limit_reached recvmsg_capture world config live ≡ (false, live)
  unfolding duration_limit_reached
  duration_limit_reached-no_time live = ground (arith, no_time)

  -- Without a limit a round only receives.
  live_round-receive :
      (live : Live Socket)
      → live_round recvmsg_capture world config live
        ≡ receive recvmsg_capture world config (next_test recvmsg_capture world config live)
  unfolding live_round
  live_round-receive live =
      simp (max_packets_reached-no_count live.stats)
        (simp (duration_limit_reached-no_time (next_test recvmsg_capture world config live)) refl)

  write_decided-again :
      (live : Live Socket) (p : CapturedPacket) (d : LiveCaptureDecision)
      (policy : LiveCapturePolicy)
      → write_decided recvmsg_capture world config live p d policy
        ≡ (elim (write_packet live.writer p d.output_len) [
          | err e ↦ ended (record { exit = write_error e; stats = live.stats; output = none })
          | ok writer ↦ again (record live {
            writer = writer;
            policy = policy;
            stats = count_packet live.stats p d;
          })
        ])
  unfolding write_decided
  write_decided-again live p d policy = by_result (write_packet live.writer p d.output_len)
    where
      by_result :
          (m : Result WriteError PcapWriter)
          → ◌≡◌ {A = Round Socket}
              (elim m [
                | err e ↦ ended (record { exit = write_error e; stats = live.stats; output = none })
                | ok writer ↦
                    let live' : Live Socket = record live {
                      writer = writer;
                      policy = policy;
                      stats = count_packet live.stats p d;
                    } in
                    if max_packets_reached config live'.stats
                    then finish recvmsg_capture world config max_packets_limit_reached live'
                    else again live'
              ])
              (elim m [
                | err e ↦ ended (record { exit = write_error e; stats = live.stats; output = none })
                | ok writer ↦ again (record live {
                  writer = writer;
                  policy = policy;
                  stats = count_packet live.stats p d;
                })
              ])
      by_result (err e) = refl
      by_result (ok writer) = simp (max_packets_reached-no_count (count_packet live.stats p d)) refl

  abbrev loop : ℕ → Round Socket → Option (Round Socket)
  loop fuel round = elim round [
    | again live' ↦ live_loop recvmsg_capture world config fuel live'
    | waiting live' ↦ some (waiting live')
    | ended result ↦ some (ended result)
  ]

  -- What the rounds after this one do.
  abbrev GoesOn : ℕ → Type 0
  GoesOn fuel =
      (live : Live Socket)
      → live.capture.capture.is_open ≡ true
      → NoFailure live.capture.answers
      → length live.capture.answers < fuel
      → (live_loop recvmsg_capture world config fuel live >>= outcome)
        ≡ process (sink_of live) (packets_of live.capture.capture live.capture.answers)

  -- A packet is decided and written, and the loop goes on.
  handle_packet :
      (fuel : ℕ) (live : Live Socket) (p : CapturedPacket)
      → GoesOn fuel
      → live.capture.capture.is_open ≡ true
      → NoFailure live.capture.answers
      → length live.capture.answers < fuel
      → (handle recvmsg_capture world config live (packet p) >>= loop fuel >>= outcome)
        ≡ process (sink_of live) (p ∷ packets_of live.capture.capture live.capture.answers)
  unfolding handle
  handle_packet fuel live p go_on o n lt = by_decision (Policy.evaluate live.policy p)
    where
      by_write :
          (d : LiveCaptureDecision) (policy : LiveCapturePolicy) (m : Result WriteError PcapWriter)
          → (some (elim m [
            | err e ↦ ended (record { exit = write_error e; stats = live.stats; output = none })
            | ok writer ↦ again (record live {
              writer = writer;
              policy = policy;
              stats = count_packet live.stats p d;
            })
          ])
              >>= loop fuel
              >>= outcome)
            ≡ (elim m [
              | err e ↦ some (err e)
              | ok writer ↦
                  process
                    (record {
                      writer = writer;
                      policy = policy;
                      stats = count_packet live.stats p d;
                    })
                    (packets_of live.capture.capture live.capture.answers)
            ])
      by_write d policy (err e) = refl
      by_write d policy (ok writer) =
          go_on
            (record live { writer = writer; policy = policy; stats = count_packet live.stats p d })
            o n lt

      by_decision :
          (m : Option (LiveCaptureDecision × LiveCapturePolicy))
          → ((m >>= λ r. some (write_decided recvmsg_capture world config live p r.0 r.1))
              >>= loop fuel
              >>= outcome)
            ≡ (m >>= λ r. elim (write_packet live.writer p r.0.output_len) [
              | err e ↦ some (err e)
              | ok writer ↦
                  process
                    (record {
                      writer = writer;
                      policy = r.1;
                      stats = count_packet live.stats p r.0;
                    })
                    (packets_of live.capture.capture live.capture.answers)
            ])
      by_decision none = refl
      by_decision (some (d, policy)) =
          ap (λ round. loop fuel round >>= outcome) (write_decided-again live p d policy)
          ∙ by_write d policy (write_packet live.writer p d.output_len)

  receive-process :
      (fuel : ℕ) (live : Live Socket)
      → GoesOn fuel
      → live.capture.capture.is_open ≡ true
      → NoFailure live.capture.answers
      → length live.capture.answers < suc fuel
      → (receive recvmsg_capture world config live >>= loop fuel >>= outcome)
        ≡ process (sink_of live) (packets_of live.capture.capture live.capture.answers)
  unfolding receive
  receive-process fuel live go_on o n lt =
      by_answer (receive_next none live.tests live.capture)
        (receive_next-IsCall live.tests live.capture o n)
    where
      by_answer :
          (m : Received)
          → IsCall live.capture.capture live.capture.answers m
          → ((elim m [
            | fault ↦ none
            | blocked ↦ some (waiting live)
            | returns (status, tests, state) ↦
                handle recvmsg_capture world config
                  (record live { capture = state; tests = tests })
                  status
          ])
              >>= loop fuel
              >>= outcome)
            ≡ process (sink_of live) (packets_of live.capture.capture live.capture.answers)
      by_answer fault c = absurd c
      by_answer blocked c = sym (ap (process (sink_of live)) c)
      by_answer (returns (interrupted, t, s)) c = absurd c
      by_answer (returns (error, t, s)) c = absurd c
      by_answer (returns (timeout, t, s)) c =
          unfold handle in
          go_on (record live { capture = s; tests = t }) c.opened c.no_failure
            (omega (arith, c.fewer, lt))
          ∙ sym (ap (process (sink_of live)) c.rest)
      by_answer (returns (packet p, t, s)) c =
          handle_packet fuel (record live { capture = s; tests = t }) p go_on c.opened c.no_failure
            (omega (arith, c.fewer, lt))
          ∙ sym (ap (process (sink_of live)) c.rest)

  -- From an open recvmsg capture with a list of answers without a failed one and more fuel than
  -- answers, without max_packets, duration_sec and a signal: the live loop makes of the output,
  -- the policy's tables and the counters what the packets of the frames among the answers, in
  -- their order, make of them, decided and written one after the other up to a write that fails;
  -- timeouts, interrupted calls and full buffers change nothing of that. The loop waits behind
  -- the last packet, or ends with the error of the failed write.
  pub live_loop-process :
      (fuel : ℕ) (live : Live Socket)
      → live.capture.capture.is_open ≡ true
      → NoFailure live.capture.answers
      → length live.capture.answers < fuel
      → (live_loop recvmsg_capture world config fuel live >>= outcome)
        ≡ process (sink_of live) (packets_of live.capture.capture live.capture.answers)
  unfolding live_loop
  live_loop-process zero live o n lt = absurd (omega arith)
  live_loop-process (suc fuel) live o n lt =
      ap (λ m. m >>= loop fuel >>= outcome) (live_round-receive live)
      ∙ receive-process fuel (next_test recvmsg_capture world config live) (live_loop-process fuel)
          o n lt
