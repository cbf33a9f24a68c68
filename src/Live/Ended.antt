-- ===== src/Live/Ended.antt =====
-- How the live loop ends, for any capture that keeps the laws of `IsCapture`.
use pcap_constrictor_afpacke.Live.Duration.{IsBehind}
use pcap_constrictor_afpacke.Writer.Written.{Records}
use pcap_constrictor_afpacke.Base.{
  ℕ, ◌+◌, ◌-◌, ◌*◌, ◌%◌, ◌≤◌, ◌<◌, ◌≡◌, ◌≢◌, true, ◌∙◌, arith, none,
}
use pcap_constrictor_afpacke.Bytes.{u32_mod, u64_mod}
use pcap_constrictor_afpacke.Capture.{Capture}
use pcap_constrictor_afpacke.Config.{PolicyConfig}
use pcap_constrictor_afpacke.Offline.Results.{HasSize, HasContents}
use pcap_constrictor_afpacke.Offline.Totals.{decision_total, IsAccount}
use pcap_constrictor_afpacke.Stats.{CaptureStats}
use pcap_constrictor_afpacke.Writer.{write_failed}
use pcap_constrictor_afpacke.Live.Counted.{IsLive, IsInTime, live_file}
use pcap_constrictor_afpacke.Live.{
  signal, max_packets_limit_reached, duration_sec_limit_reached, signal_received, call_interrupted,
  stopped, LiveExit, finished, output_not_opened, receive_failed, write_error, LiveResult,
  Surroundings, Live, Round, again, waiting, ended, max_packets_reached, is_stopped, next_test,
  finalize_live_stats, result_with, finish_signal, finish,
}

module _ (world : Surroundings) (config : PolicyConfig) where
  -- What an exit tells.
  abbrev pub IsExit : CaptureStats → ℕ → LiveExit → Type 0
  IsExit stats readings (finished max_packets_limit_reached) =
      (config.capture.max_packets ≢ 0) × (stats.packets_total ≡ config.capture.max_packets)
  IsExit stats readings (finished duration_sec_limit_reached) =
      (config.capture.duration_sec ≢ 0)
      × IsBehind config.capture.duration_sec (world.elapsed readings)
  IsExit stats readings (finished signal_received) = world.signal_before ≢ none
  IsExit stats readings (finished signal) = ⊥
  IsExit stats readings (finished call_interrupted) = ⊥
  IsExit stats readings (finished stopped) = ⊥
  IsExit stats readings (write_error e) = e ≡ write_failed
  IsExit stats readings output_not_opened = Unit {0}
  IsExit stats readings receive_failed = Unit {0}

  abbrev pub IsSaved : CaptureStats → LiveExit → Type 0
  IsSaved stats (finished reason) = stats.bytes_saved + stats.bytes_output ≡ stats.bytes_input
  IsSaved stats receive_failed = stats.bytes_saved + stats.bytes_output ≡ stats.bytes_input
  IsSaved stats _ = Unit {0}

  pub record IsEnded (result : LiveResult) : Type 0 where
    pub written_is : result.stats.packets_written ≡ result.stats.packets_total
    pub output_le : result.stats.bytes_output ≤ result.stats.bytes_input
    pub decisions_le : decision_total result.stats ≤ result.stats.packets_total
    pub saved_is : IsSaved result.stats result.exit
    pub max_le :
        config.capture.max_packets ≢ 0 → result.stats.packets_total ≤ config.capture.max_packets
    pub readings : ℕ
    pub in_time : IsInTime world config result.stats.packets_total readings
    pub exit_ok : IsExit result.stats readings result.exit
    pub output_is :
        HasSize (24 + result.stats.packets_total * 16 + result.stats.bytes_output) result.output
    pub records : Records
    pub account : IsAccount records result.stats
    pub contents_is : HasContents (live_file config records) result.output

module _ {S : Type 0} (capture : Capture S) (valid : S → Type 0) (budget : S → ℕ)
    (world : Surroundings) (config : PolicyConfig) (bound : ℕ) (small : bound < u32_mod) where
  abbrev pub Good : Live S → Type 0
  Good live = IsLive valid budget world config bound live

  -- A round from a state with so much budget.
  abbrev pub IsRound : ℕ → Round S → Type 0
  IsRound left (again live) = Good live × (budget live.capture < left)
  IsRound left (waiting live) = Good live
  IsRound left (ended result) = IsEnded world config result

  -- The counters of the result are those of the loop.
  record IsFinal (before after : CaptureStats) : Type 0 where
    total_is : after.packets_total ≡ before.packets_total
    written_is : after.packets_written ≡ before.packets_written
    input_is : after.bytes_input ≡ before.bytes_input
    output_is : after.bytes_output ≡ before.bytes_output
    decisions_are : decision_total after ≡ decision_total before
    saved_is : after.bytes_saved ≡ (before.bytes_input + u64_mod - before.bytes_output) % u64_mod

  finalize_live_stats-IsFinal :
      (live : Live S) → IsFinal live.stats (finalize_live_stats capture world config live)
  unfolding finalize_live_stats
  finalize_live_stats-IsFinal live = ground arith

  pub result_with-IsRound :
      (left : ℕ) (exit : LiveExit) (live : Live S)
      → Good live
      → IsExit world config live.stats live.readings exit
      → IsRound left (result_with capture world config exit live)
  result_with-IsRound left exit live g e =
      let f = finalize_live_stats-IsFinal live in
      record {
        written_is =
            omega (arith, f.written_is, f.total_is, g.counted.written_is, g.counted.total_is);
        output_le = omega (arith, f.input_is, f.output_is, g.counted.output_le);
        decisions_le =
            omega (arith, f.decisions_are, f.total_is, g.counted.decisions_le, g.counted.total_is);
        saved_is = saved exit f;
        max_le = λ h. omega (arith, f.total_is, g.max_le h, g.counted.total_is);
        readings = live.readings;
        in_time =
            λ n. (omega (arith, f.total_is, g.counted.total_is, (g.in_time n).0), (g.in_time n).1);
        exit_ok = exit_kept exit f e;
        records = g.records;
        account = record {
          count_is = f.total_is ∙ g.account.count_is;
          input_is = f.input_is ∙ g.account.input_is;
          output_is = f.output_is ∙ g.account.output_is;
        };
        contents_is = g.contents_is;
        output_is = omega (arith, f.total_is, f.output_is, g.file_is, g.counted.total_is);
      }
    where
      exit_kept :
          {after : CaptureStats} (exit : LiveExit)
          → IsFinal live.stats after
          → IsExit world config live.stats live.readings exit
          → IsExit world config after live.readings exit
      exit_kept (finished max_packets_limit_reached) f e = (e.0, f.total_is ∙ e.1)
      exit_kept (finished duration_sec_limit_reached) f e = e
      exit_kept (finished signal_received) f e = e
      exit_kept (finished signal) f e = e
      exit_kept (finished call_interrupted) f e = e
      exit_kept (finished stopped) f e = e
      exit_kept (write_error w) f e = e
      exit_kept output_not_opened f e = e
      exit_kept receive_failed f e = e

      difference :
          {after : CaptureStats}
          → IsFinal live.stats after
          → after.bytes_saved + after.bytes_output ≡ after.bytes_input
      difference f = omega (
        arith, f.saved_is, f.input_is, f.output_is, g.counted.output_le, g.counted.input_is,
        g.input_le, g.packets_le, small,
      )

      saved :
          {after : CaptureStats} (exit : LiveExit)
          → IsFinal live.stats after
          → IsSaved world config after exit
      saved (finished reason) f = difference f
      saved receive_failed f = difference f
      saved (write_error w) f = tt
      saved output_not_opened f = tt

  pub next_test-Good : (live : Live S) → Good live → Good (next_test capture world config live)
  next_test-Good live g = record {
    state_ok = g.state_ok;
    policy_ok = g.policy_ok;
    packets = g.packets;
    input = g.input;
    counted = g.counted;
    packets_le = g.packets_le;
    input_le = g.input_le;
    header_is = g.header_is;
    file_is = g.file_is;
    max_le = g.max_le;
    snaplen_is = g.snaplen_is;
    records = g.records;
    account = g.account;
    contents_is = g.contents_is;
    in_time = g.in_time;
  }

  pub stopped_by_signal :
      (live : Live S) → is_stopped capture world config live ≡ true → world.signal_before ≢ none
  stopped_by_signal live h e = ground (arith, h, e)

  pub finish_signal-IsRound :
      (left : ℕ) (live : Live S)
      → Good live
      → is_stopped capture world config live ≡ true
      → IsRound left (finish_signal capture world config live)
  unfolding finish_signal
  finish_signal-IsRound left live g h = rw h (
      result_with-IsRound left (finished signal_received) (next_test capture world config live)
        (next_test-Good live g) (stopped_by_signal live h))

  pub finish_max-IsRound :
      (left : ℕ) (live : Live S)
      → Good live
      → max_packets_reached config live.stats ≡ true
      → IsRound left (finish capture world config max_packets_limit_reached live)
  unfolding finish max_packets_reached
  finish_max-IsRound left live g h =
      let le : config.capture.max_packets ≤ live.stats.packets_total = ground (arith, h) in
      let some_limit : config.capture.max_packets ≢ 0 = ground (arith, h) in
      result_with-IsRound left (finished max_packets_limit_reached) live g
        (some_limit, omega (arith, le, g.max_le some_limit, g.counted.total_is))
