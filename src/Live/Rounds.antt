-- ===== src/Live/Rounds.antt =====
-- A round of the live loop, from a state that is as it should be.

use pcap_constrictor_afpacke.Stats.{CaptureStats}
use pcap_constrictor_afpacke.Base.{
  subst, sym, false, ℕ, ◌≤◌, ◌<◌, ◌≡◌, ◌≢◌, arith, none, some, Holds, Holds-bind, if-elim, true,
}
use pcap_constrictor_afpacke.Bytes.{u32_mod}
use pcap_constrictor_afpacke.Capture.{
  Capture, AfPacketReceiveStatus, packet, timeout, interrupted, error, IsReceived, IsCapture, Call,
  fault, blocked, returns,
}
use pcap_constrictor_afpacke.Config.{PolicyConfig}
use pcap_constrictor_afpacke.Policy.Bounds.{IsDecision, evaluate-IsDecision}
use pcap_constrictor_afpacke.Live.Counted.{IsLive}
use pcap_constrictor_afpacke.Live.{
  live_round, duration_limit_reached, is_stopped, signal_received, finished, receive_failed,
  Surroundings, Live, Round, waiting, max_packets_reached, next_test, finish, handle, receive,
}
use pcap_constrictor_afpacke.Live.Ended
use pcap_constrictor_afpacke.Live.Writes
use pcap_constrictor_afpacke.Live.Clock

module _ {S : Type 0} (capture : Capture S) (valid : S → Type 0) (budget : S → ℕ)
    (world : Surroundings) (config : PolicyConfig) (bound : ℕ) (small : bound < u32_mod) where
  abbrev Good : Live S → Type 0
  Good live = IsLive valid budget world config bound live

  abbrev IsRound : ℕ → Round S → Type 0
  IsRound = Ended.IsRound capture valid budget world config bound small

  abbrev Below : ℕ → ℕ → Type 0
  Below = Writes.Below capture valid budget world config bound small

  received-Good :
      (live : Live S) (state : S) (test : ℕ)
      → Good live
      → budget state ≤ budget live.capture
      → valid state
      → Good (record live { capture = state; tests = test })
  received-Good live state test g b v = record {
    state_ok = v;
    policy_ok = g.policy_ok;
    packets = g.packets;
    input = g.input;
    counted = g.counted;
    packets_le = omega (arith, g.packets_le, b);
    input_le = g.input_le;
    header_is = g.header_is;
    file_is = g.file_is;
    max_le = g.max_le;
    snaplen_is = g.snaplen_is;
    records = g.records;
    account = g.account;
    contents_is = g.contents_is;
    in_time = g.in_time;
  }

  handle-IsRound :
      (live : Live S) (o : AfPacketReceiveStatus × ℕ × S)
      → (g : Good live) → Below live.stats.packets_total live.readings
      → IsReceived valid budget world.signal_before (budget live.capture) (returns o)
      → Holds
          (IsRound (budget live.capture))
          (handle capture world config (record live { capture = o.2; tests = o.1 }) o.0)
  unfolding handle finish
  handle-IsRound live (interrupted, t, s) g below r =
      let live' : Live S = record live { capture = s; tests = t } in
      let good = received-Good live s t g r.1 r.0 in
      rw r.2 (
        Ended.result_with-IsRound capture valid budget world config bound small
          (budget live.capture) (finished signal_received) (next_test capture world config live')
          (Ended.next_test-Good capture valid budget world config bound small live' good)
          (Ended.stopped_by_signal capture valid budget world config bound small live' r.2))
  handle-IsRound live (timeout, t, s) g below r =
      (received-Good live s t g (omega (arith, r.1)) r.0, r.1)
  handle-IsRound live (error, t, s) g below r =
      Ended.result_with-IsRound capture valid budget world config bound small (budget live.capture)
        receive_failed (record live { capture = s; tests = t }) (received-Good live s t g r.1 r.0)
        tt
  handle-IsRound live (packet p, t, s) g below r =
      let live' : Live S = record live { capture = s; tests = t } in
      let good = received-Good live s t g (omega (arith, r.1)) r.0 in
      Holds-bind (IsDecision live.policy p) (IsRound (budget live.capture)) _ _
        (evaluate-IsDecision live.policy p g.policy_ok)
        (λ o d.
          Writes.write_decided-IsRound capture valid budget world config bound small
            (budget live.capture) live' p o good r.1
            (omega (arith, g.counted.total_is, g.packets_le)) below r.2 d)

  receive-IsRound :
      (live : Live S) (g : Good live)
      → Below live.stats.packets_total live.readings
      → IsCapture valid budget capture
      → Holds (IsRound (budget live.capture)) (receive capture world config live)
  unfolding receive
  receive-IsRound live g below laws =
      by_answer (capture.receive_next world.signal_before live.tests live.capture)
        (laws.received world.signal_before live.tests live.capture g.state_ok)
    where
      by_answer :
          (m : Call (AfPacketReceiveStatus × ℕ × S))
          → IsReceived valid budget world.signal_before (budget live.capture) m
          → Holds (IsRound (budget live.capture)) (elim m [
            | fault ↦ none
            | blocked ↦ some (waiting live)
            | returns (status, tests, state) ↦
                handle capture world config (record live { capture = state; tests = tests }) status
          ])
      by_answer fault r = absurd r
      by_answer blocked r = g
      by_answer (returns (status, tests, state)) r =
          handle-IsRound live (status, tests, state) g below r

  stopped_later :
      (live : Live S)
      → is_stopped capture world config live ≡ true
      → is_stopped capture world config (next_test capture world config live) ≡ true
  stopped_later live h = ground (arith, h)

  not_reached-Below :
      (stats : CaptureStats)
      → max_packets_reached config stats ≡ false
      → config.capture.max_packets ≢ 0
      → stats.packets_total < config.capture.max_packets
  unfolding max_packets_reached
  not_reached-Below stats h e = ground (arith, h, e)

  pub live_round-IsRound :
      (live : Live S)
      → Good live
      → IsCapture valid budget capture
      → Holds (IsRound (budget live.capture)) (live_round capture world config live)
  unfolding live_round finish
  live_round-IsRound live g laws =
      let left = budget live.capture in
      let live' = next_test capture world config live in
      let g' = Ended.next_test-Good capture valid budget world config bound small live g in
      let at_limit = duration_limit_reached capture world config live' in
      let reading =
        Clock.duration_limit_reached-IsReading capture valid budget world config bound small live'
          g' in
      if-elim (Holds (IsRound left)) (is_stopped capture world config live) _ _
        (λ h.
          Ended.finish_signal-IsRound capture valid budget world config bound small left live' g'
            (stopped_later live h))
        (λ running.
          if-elim (Holds (IsRound left)) (max_packets_reached config live.stats) _ _
            (λ h.
              Ended.finish_max-IsRound capture valid budget world config bound small left live' g'
                h)
            (λ h.
              if-elim (Holds (IsRound left)) at_limit.0 _ _ (λ r. reading.reached left r)
                (λ r.
                  subst (λ n. Holds (IsRound n) (receive capture world config at_limit.1))
                    reading.same_left
                    (receive-IsRound at_limit.1 (reading.good r)
                      (
                        subst
                            (λ stats.
                              config.capture.max_packets ≢ 0
                              → stats.packets_total < config.capture.max_packets)
                            (sym reading.same_stats) (not_reached-Below live.stats h),
                        subst
                            (λ stats.
                              config.capture.duration_sec ≢ 0
                              → stats.packets_total < at_limit.1.readings)
                            (sym reading.same_stats) (reading.read_before r),
                      )
                      laws))))
