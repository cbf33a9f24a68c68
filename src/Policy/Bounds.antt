-- ===== src/Policy/Bounds.antt =====
-- The length that the policy gives a packet, on every branch.
use pcap_constrictor_afpacke.Base.{
  ℕ, ◌+◌, ◌%◌, ◌≤◌, ◌<◌, ◌≡◌, refl, ◌⊎◌, inl, inr, min, Bool, some, arith, length, take,
  length-take, Holds, Holds-bind,
}
use pcap_constrictor_afpacke.Bytes.{Bytes, u32_mod}
use pcap_constrictor_afpacke.Config.{PolicyConfig}
use pcap_constrictor_afpacke.Decode.{PacketDecodeResult, decode_packet}
use pcap_constrictor_afpacke.Decode.Safety.{decode_packet-IsDecoded}
use pcap_constrictor_afpacke.Decode.Shape.{IsDecoded}
use pcap_constrictor_afpacke.Packet.{CapturedPacket, safe_captured_len}
use pcap_constrictor_afpacke.Quic
use pcap_constrictor_afpacke.Quic.{QuicConstrictDisposition}
use pcap_constrictor_afpacke.Quic.Outcome as QuicOutcome
use pcap_constrictor_afpacke.Quic.Outcome.{AllFlows}
use pcap_constrictor_afpacke.Tls
use pcap_constrictor_afpacke.Tls.{TlsConstrictDisposition}
use pcap_constrictor_afpacke.Tls.Invariant.{AllStates}
use pcap_constrictor_afpacke.Tls.Outcome as TlsOutcome
use pcap_constrictor_afpacke.Policy.{
  DecisionReason, tls_application_data_constricted, quic_short_header_constricted, tls_candidate,
  quic_candidate, LiveCaptureDecision, LiveCapturePolicy, apply_minimum_savings_threshold, Verdict,
  apply_tls, apply_quic, constrict, baseline_len, classify, is_malformed, evaluate,
}

abbrev pub IsConstricted : DecisionReason → Type 0
IsConstricted tls_application_data_constricted = Unit {0}
IsConstricted quic_short_header_constricted = Unit {0}
IsConstricted _ = ⊥

-- Either nothing is saved, or the configured number of bytes at least, and the reason says which.
abbrev pub Saves : ℕ → ℕ → ℕ → DecisionReason → Type 0
Saves min_saved baseline final reason =
    ((final ≡ baseline) × ¬ IsConstricted reason)
    ⊎ ((final < baseline) × (final + min_saved ≤ baseline) × IsConstricted reason)

apply_tls-Saves :
    (min_saved baseline tls_len : ℕ) (d : TlsConstrictDisposition)
    → let r = apply_tls min_saved baseline d tls_len in Saves min_saved baseline r.0 r.1
unfolding apply_tls apply_minimum_savings_threshold
apply_tls-Saves min_saved baseline tls_len Tls.app_data_prefix = ground arith
apply_tls-Saves min_saved baseline tls_len _ = inl (refl, λ h. h)

apply_quic-Saves :
    (min_saved baseline quic_len : ℕ) (d : QuicConstrictDisposition)
    → let r = apply_quic min_saved baseline d quic_len in Saves min_saved baseline r.0 r.1
unfolding apply_quic apply_minimum_savings_threshold
apply_quic-Saves min_saved baseline quic_len Quic.short_header_matched = ground arith
apply_quic-Saves min_saved baseline quic_len _ = inl (refl, λ h. h)

Saves-le :
    (min_saved baseline final : ℕ) (reason : DecisionReason)
    → Saves min_saved baseline final reason
    → final ≤ baseline
Saves-le min_saved baseline final reason (inl h) = omega arith
Saves-le min_saved baseline final reason (inr h) = omega arith

classify-not-IsConstricted :
    (config : PolicyConfig) (malformed : Bool) (decoded : PacketDecodeResult)
    → ¬ IsConstricted (classify config malformed decoded)
unfolding classify
classify-not-IsConstricted config malformed decoded = ground arith

-- The tables are well formed.
pub record IsPolicy (policy : LiveCapturePolicy) : Type 0 where
  pub directions_ok : AllStates policy.tls_constrictor
  pub flows_ok : AllFlows policy.quic_constrictor

pub record IsVerdict (min_saved baseline : ℕ) (v : Verdict) : Type 0 where
  pub saves : Saves min_saved baseline v.final_output_len v.reason
  pub directions_ok : AllStates v.tls_constrictor
  pub flows_ok : AllFlows v.quic_constrictor

module _ (policy : LiveCapturePolicy) (bytes : Bytes) (decoded : PacketDecodeResult) (baseline : ℕ)
    (small : length bytes < u32_mod) (valid : IsPolicy policy) where
  constrict_tls :
      Holds
        (IsVerdict policy.config.general.min_saved_bytes_per_packet baseline)
        (constrict policy tls_candidate bytes decoded baseline)
  unfolding constrict
  constrict_tls =
      let min_saved = policy.config.general.min_saved_bytes_per_packet in
      let whole : Verdict = record {
        final_output_len = baseline;
        reason = tls_candidate;
        tls_constrictor = policy.tls_constrictor;
        quic_constrictor = policy.quic_constrictor;
      } in
      let asked =
        Holds-bind (TlsOutcome.IsTlsOutcome bytes decoded) (IsVerdict min_saved baseline)
          (Tls.evaluate policy.tls_constrictor bytes decoded policy.config.tls)
          (λ r. some (record whole {
            final_output_len = (apply_tls min_saved baseline r.0.disposition r.0.output_len).0;
            reason = (apply_tls min_saved baseline r.0.disposition r.0.output_len).1;
            tls_constrictor = r.1;
          }))
          (TlsOutcome.evaluate-IsTlsOutcome policy.tls_constrictor bytes decoded policy.config.tls
            small valid.directions_ok)
          (λ r o. record {
            saves = apply_tls-Saves min_saved baseline r.0.output_len r.0.disposition;
            directions_ok = o.states;
            flows_ok = valid.flows_ok;
          }) in
      ground (arith, asked)

  constrict_quic :
      Holds
        (IsVerdict policy.config.general.min_saved_bytes_per_packet baseline)
        (constrict policy quic_candidate bytes decoded baseline)
  unfolding constrict
  constrict_quic =
      let min_saved = policy.config.general.min_saved_bytes_per_packet in
      let whole : Verdict = record {
        final_output_len = baseline;
        reason = quic_candidate;
        tls_constrictor = policy.tls_constrictor;
        quic_constrictor = policy.quic_constrictor;
      } in
      let asked =
        Holds-bind (QuicOutcome.IsQuicOutcome decoded) (IsVerdict min_saved baseline)
          (Quic.evaluate policy.quic_constrictor bytes decoded policy.config.quic)
          (λ r. some (record whole {
            final_output_len = (apply_quic min_saved baseline r.0.disposition r.0.output_len).0;
            reason = (apply_quic min_saved baseline r.0.disposition r.0.output_len).1;
            quic_constrictor = r.1;
          }))
          (QuicOutcome.evaluate-IsQuicOutcome policy.quic_constrictor bytes decoded
            policy.config.quic small valid.flows_ok)
          (λ r o. record {
            saves = apply_quic-Saves min_saved baseline r.0.output_len r.0.disposition;
            directions_ok = valid.directions_ok;
            flows_ok = o.flows;
          }) in
      ground (arith, asked)

  -- The constrictors never see a packet with another reason than their own candidate's.
  constrict-IsVerdict :
      (config : PolicyConfig) (malformed : Bool)
      → Holds
          (IsVerdict policy.config.general.min_saved_bytes_per_packet baseline)
          (constrict policy (classify config malformed decoded) bytes decoded baseline)
  constrict-IsVerdict config malformed =
      by_reason (classify config malformed decoded)
        (classify-not-IsConstricted config malformed decoded)
    where
      by_reason :
          (reason : DecisionReason)
          → ¬ IsConstricted reason
          → Holds
              (IsVerdict policy.config.general.min_saved_bytes_per_packet baseline)
              (constrict policy reason bytes decoded baseline)
      by_reason tls_candidate h = constrict_tls
      by_reason quic_candidate h = constrict_quic
      by_reason _ h =
          unfold constrict in
          record {
            saves = inl (refl, h);
            directions_ok = valid.directions_ok;
            flows_ok = valid.flows_ok;
          }

-- What the policy decides about a packet.
pub record IsDecision (policy : LiveCapturePolicy) (p : CapturedPacket)
    (o : LiveCaptureDecision × LiveCapturePolicy) : Type 0 where
  pub within_safe : o.0.output_len ≤ safe_captured_len p.packet
  pub within_captured : o.0.output_len ≤ p.packet.captured_len
  pub within_data : o.0.output_len ≤ length p.packet.data_span
  pub within_original : o.0.output_len ≤ p.packet.original_len
  pub within_snaplen : o.0.output_len ≤ policy.config.capture.default_snaplen
  pub within_max : o.0.output_len ≤ policy.config.capture.max_capture_len
  pub original_covers : o.0.original_len ≡ p.packet.original_len
  pub saves :
      Saves policy.config.general.min_saved_bytes_per_packet
        (baseline_len policy.config p)
        o.0.output_len
        o.0.reason
  pub decoded : IsDecoded (take (safe_captured_len p.packet) p.packet.data_span) o.0.decode
  pub same_config : o.1.config ≡ policy.config
  pub valid : IsPolicy o.1

baseline_bounds :
    (config : PolicyConfig) (p : CapturedPacket)
    → let n = baseline_len config p in
      (n ≤ safe_captured_len p.packet)
      × (n ≤ p.packet.captured_len)
      × (n ≤ length p.packet.data_span)
      × (n ≤ p.packet.original_len)
      × (n ≤ config.capture.default_snaplen)
      × (n ≤ config.capture.max_capture_len)
unfolding baseline_len safe_captured_len
baseline_bounds config p =
    (omega arith, omega arith, omega arith, omega arith, omega arith, omega arith)

safe_captured_len-lt :
    (p : CapturedPacket) → length (take (safe_captured_len p.packet) p.packet.data_span) < u32_mod
unfolding safe_captured_len
safe_captured_len-lt p = omega (
  arith,
  length-take (min p.packet.captured_len (length p.packet.data_span) % u32_mod) p.packet.data_span,
)

-- From well-formed tables the policy comes to a decision about every packet, also a malformed
-- one. The length is within the captured bytes, the original length, the snaplen and the
-- maximum; it is the length without any policy, or less by the configured saving at least, and
-- then, and only then, the reason says that TLS or QUIC was constricted. The decision has the
-- packet's original length, the decoded packet is one that the decoder's safety covers, the
-- configuration stays and the tables stay well formed.
pub evaluate-IsDecision :
    (policy : LiveCapturePolicy) (p : CapturedPacket)
    → IsPolicy policy
    → Holds (IsDecision policy p) (evaluate policy p)
unfolding evaluate
evaluate-IsDecision policy p valid =
    let bytes = take (safe_captured_len p.packet) p.packet.data_span in
    let baseline = baseline_len policy.config p in
    let bounds = baseline_bounds policy.config p in
    Holds-bind (IsDecoded bytes) (IsDecision policy p) (decode_packet bytes) _
      (decode_packet-IsDecoded bytes)
      (λ decoded d.
        Holds-bind (IsVerdict policy.config.general.min_saved_bytes_per_packet baseline)
          (IsDecision policy p) _ _
          (constrict-IsVerdict policy bytes decoded baseline (safe_captured_len-lt p) valid
            policy.config (is_malformed p))
          (λ v h.
            let small = Saves-le _ _ v.final_output_len v.reason h.saves in
            record {
              within_safe = omega arith;
              within_captured = omega arith;
              within_data = omega arith;
              within_original = omega arith;
              within_snaplen = omega arith;
              within_max = omega arith;
              original_covers = omega arith;
              saves = h.saves;
              decoded = d;
              same_config = refl;
              valid = record { directions_ok = h.directions_ok; flows_ok = h.flows_ok };
            }))
