-- ===== src/Live/Clock.antt =====
-- A reading of the clock in a round of the live loop.
use pcap_constrictor_afpacke.Live.Duration.{IsBefore, has_elapsed-IsBefore, has_elapsed-IsBehind}
use pcap_constrictor_afpacke.Base.{
  subst, refl, ◌==◌, Bool, false, ℕ, ◌+◌, ◌<◌, ◌≡◌, ◌≢◌, arith, if-elim, true, dec_lt,
}
use pcap_constrictor_afpacke.Bytes.{u32_mod}
use pcap_constrictor_afpacke.Capture.{Capture}
use pcap_constrictor_afpacke.Config.{PolicyConfig}
use pcap_constrictor_afpacke.Live.Counted.{IsLive}
use pcap_constrictor_afpacke.Live.{
  duration_limit_reached, duration_sec_limit_reached, finished, Surroundings, Live, Round,
  finalize_live_stats, result_with,
}
use pcap_constrictor_afpacke.Live.Ended

module _ {S : Type 0} (capture : Capture S) (valid : S → Type 0) (budget : S → ℕ)
    (world : Surroundings) (config : PolicyConfig) (bound : ℕ) (small : bound < u32_mod) where
  abbrev Good : Live S → Type 0
  Good live = IsLive valid budget world config bound live

  abbrev IsRound : ℕ → Round S → Type 0
  IsRound = Ended.IsRound capture valid budget world config bound small

  read_clock : Live S → Live S
  read_clock live = record live { readings = live.readings + 1 }

  -- A reading of the clock before the limit.
  read_clock-Good :
      (live : Live S)
      → Good live
      → IsBefore config.capture.duration_sec (world.elapsed live.readings)
      → Good (read_clock live)
  unfolding read_clock
  read_clock-Good live g before = record {
    state_ok = g.state_ok;
    policy_ok = g.policy_ok;
    packets = g.packets;
    input = g.input;
    counted = g.counted;
    packets_le = g.packets_le;
    input_le = g.input_le;
    header_is = g.header_is;
    file_is = g.file_is;
    max_le = g.max_le;
    snaplen_is = g.snaplen_is;
    records = g.records;
    account = g.account;
    contents_is = g.contents_is;
    in_time = λ n. (omega (arith, (g.in_time n).0), λ k lt. by_last n k lt);
  }
    where
      by_last :
          config.capture.duration_sec ≢ 0
          → (k : ℕ) → k < live.readings + 1
          → IsBefore config.capture.duration_sec (world.elapsed k)
      by_last n k lt = elim (dec_lt k live.readings) [
        | yes earlier ↦ (g.in_time n).1 k earlier
        | no later ↦
            let last : live.readings ≡ k = omega (arith, lt, later) in
            subst (λ r. IsBefore config.capture.duration_sec (world.elapsed r)) last before
      ]

  -- A reading of the clock ends the loop at the limit, and changes nothing that counts before it.
  pub record IsReading (live : Live S) (o : Bool × Live S) : Type 0 where
    pub reached :
        (left : ℕ)
        → o.0 ≡ true
        → IsRound left (result_with capture world config (finished duration_sec_limit_reached) o.1)
    pub good : o.0 ≡ false → Good o.1
    pub read_before :
        o.0 ≡ false → config.capture.duration_sec ≢ 0 → live.stats.packets_total < o.1.readings
    pub same_left : budget o.1.capture ≡ budget live.capture
    pub same_stats : o.1.stats ≡ live.stats

  pub duration_limit_reached-IsReading :
      (live : Live S)
      → Good live
      → IsReading live (duration_limit_reached capture world config live)
  unfolding duration_limit_reached finalize_live_stats read_clock
  duration_limit_reached-IsReading live g =
      let elapsed = world.elapsed live.readings in
      let limit = config.capture.duration_sec in
      if-elim (IsReading live) (limit == 0) _ _
        (λ h. record {
          reached = λ left e. absurd (ground (arith, e));
          good = λ e. g;
          read_before = λ e n. absurd (ground (arith, h, n));
          same_left = refl;
          same_stats = refl;
        })
        (λ h. record {
          reached = λ left e.
              Ended.result_with-IsRound capture valid budget world config bound small left
                (finished duration_sec_limit_reached) live g
                (ground (arith, h), has_elapsed-IsBehind elapsed limit e);
          good = λ e. read_clock-Good live g (has_elapsed-IsBefore elapsed limit e);
          read_before = λ e n. omega (arith, (g.in_time n).0, g.counted.total_is);
          same_left = refl;
          same_stats = refl;
        })
