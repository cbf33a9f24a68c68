-- ===== src/Live/Run.antt =====
-- The live capture from the opening of its output to its result.
use pcap_constrictor_afpacke.Base.{
  ℕ, zero, suc, ◌≤◌, ◌<◌, ◌≡◌, refl, arith, Option, none, some, Holds, Holds-bind, [], min, length,
  true, if-elim, leb, ◌∙◌, sym, append-nil,
}
use pcap_constrictor_afpacke.Base.Result.{Result, err, ok, ◌>>=◌}
use pcap_constrictor_afpacke.Bytes.{u32_mod}
use pcap_constrictor_afpacke.Capture.{Capture, IsCapture}
use pcap_constrictor_afpacke.Config.{PolicyConfig}
use pcap_constrictor_afpacke.Policy.{new_policy}
use pcap_constrictor_afpacke.Stats.{empty_stats}
use pcap_constrictor_afpacke.Writer.{
  PcapWriter, WriteError, write_failed, new_writer, write_bytes, write_global_header,
}
use pcap_constrictor_afpacke.Writer.Layout.{
  write_global_header_lem, global_header_bytes, mark_header,
}
use pcap_constrictor_afpacke.Live.Ended.{IsEnded}
use pcap_constrictor_afpacke.Live.Ended
use pcap_constrictor_afpacke.Live.Rounds
use pcap_constrictor_afpacke.Live.Counted.{IsLive, output_snaplen}
use pcap_constrictor_afpacke.Live.{
  write_error, Surroundings, Live, Round, again, waiting, ended, live_loop, run_capture_loop,
}

-- The first write of a file.
abbrev IsStarted : ℕ → Result WriteError PcapWriter → Type 0
IsStarted snaplen (err e) = e ≡ write_failed
IsStarted snaplen (ok w) =
    (w.global_header_written ≡ true)
    × (length w.output.contents ≡ 24)
    × (w.snaplen ≡ snaplen)
    × (w.output.contents ≡ global_header_bytes snaplen)

write_global_header-IsStarted :
    (room snaplen : ℕ)
    → IsStarted snaplen
        (write_global_header (new_writer (record { contents = []; room = room }) snaplen))
unfolding write_bytes
write_global_header-IsStarted room snaplen =
    let w = new_writer (record { contents = []; room = room }) snaplen in
    rw (write_global_header_lem w refl) (
      if-elim (λ m. IsStarted snaplen (m >>= mark_header))
        (leb (length (global_header_bytes snaplen)) room) _ _ (λ e. (refl, refl, refl, refl))
        (λ e. refl))

module _ {S : Type 0} (capture : Capture S) (valid : S → Type 0) (budget : S → ℕ)
    (laws : IsCapture valid budget capture) (world : Surroundings) (config : PolicyConfig)
    (bound : ℕ) (small : bound < u32_mod) where
  -- The loop has ended, or it waits for the kernel in a state that is as it should be.
  abbrev pub IsRun : Round S → Type 0
  IsRun (again live) = ⊥
  IsRun (waiting live) = IsLive valid budget world config bound live
  IsRun (ended result) = IsEnded world config result

  live_loop-IsRun :
      (fuel : ℕ) (live : Live S)
      → IsLive valid budget world config bound live
      → budget live.capture < fuel
      → Holds IsRun (live_loop capture world config fuel live)
  unfolding live_loop
  live_loop-IsRun zero live g h = absurd (omega arith)
  live_loop-IsRun (suc fuel) live g h =
      Holds-bind (Ended.IsRound capture valid budget world config bound small (budget live.capture))
        IsRun _ _
        (Rounds.live_round-IsRound capture valid budget world config bound small live g laws)
        (by_round (live_loop-IsRun fuel))
    where
      by_round :
          ((live' : Live S)
            → IsLive valid budget world config bound live'
            → budget live'.capture < fuel
            → Holds IsRun (live_loop capture world config fuel live'))
          → (round : Round S)
          → Ended.IsRound capture valid budget world config bound small (budget live.capture) round
          → Holds IsRun (elim round [
            | again live' ↦ live_loop capture world config fuel live'
            | waiting live' ↦ some (waiting live')
            | ended result ↦ some (ended result)
          ])
      by_round go_on (again live') r = go_on live' r.0 (omega (arith, r.1, h))
      by_round go_on (waiting live') r = r
      by_round go_on (ended result) r = r

  pub run_capture_loop-IsRun :
      (output : Option ℕ) (fuel : ℕ) (state : S)
      → valid state
      → budget state < fuel
      → budget state ≤ bound
      → Holds IsRun (run_capture_loop capture world config output fuel state)
  unfolding run_capture_loop
  run_capture_loop-IsRun none fuel state v h b = record {
    written_is = refl;
    output_le = omega arith;
    decisions_le = omega arith;
    saved_is = tt;
    max_le = λ h. omega arith;
    readings = 0;
    in_time = λ n. (omega arith, λ k lt. absurd (omega (arith, lt)));
    exit_ok = tt;
    output_is = tt;
    records = [];
    account = record { count_is = refl; input_is = refl; output_is = refl };
    contents_is = tt;
  }
  run_capture_loop-IsRun (some room) fuel state v h b = by_header (write_global_header _) (
      write_global_header-IsStarted room
        (min config.capture.default_snaplen config.capture.max_capture_len))
    where
      by_header :
          (m : Result WriteError PcapWriter)
          → IsStarted (output_snaplen config) m
          → Holds IsRun (elim m [
            | err e ↦
                some (ended (record { exit = write_error e; stats = empty_stats; output = none }))
            | ok writer ↦ live_loop capture world config fuel (record {
              capture = state;
              writer = writer;
              policy = new_policy config;
              stats = empty_stats;
              tests = 0;
              readings = 0;
            })
          ])
      by_header (err e) s = record {
        written_is = refl;
        output_le = omega arith;
        decisions_le = omega arith;
        saved_is = tt;
        max_le = λ h. omega arith;
        readings = 0;
        in_time = λ n. (omega arith, λ k lt. absurd (omega (arith, lt)));
        exit_ok = s;
        output_is = tt;
        records = [];
        account = record { count_is = refl; input_is = refl; output_is = refl };
        contents_is = tt;
      }
      by_header (ok writer) s =
          live_loop-IsRun fuel _
            (record {
              state_ok = v;
              policy_ok = record {
                directions_ok = λ k s e. absurd (ground arith);
                flows_ok = λ k s e. absurd (ground arith);
              };
              packets = 0;
              input = 0;
              counted = record {
                total_is = refl;
                written_is = refl;
                input_is = refl;
                output_le = omega arith;
                decisions_le = omega arith;
              };
              packets_le = omega (arith, b);
              input_le = omega arith;
              header_is = s.0;
              file_is = s.1;
              max_le = λ h. omega arith;
              snaplen_is = s.2;
              records = [];
              account = record { count_is = refl; input_is = refl; output_is = refl };
              contents_is = s.3 ∙ sym (append-nil (global_header_bytes (output_snaplen config)));
              in_time = λ n. (omega arith, λ k lt. absurd (omega (arith, lt)));
            })
            h
