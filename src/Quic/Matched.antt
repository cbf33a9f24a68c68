-- ===== src/Quic/Matched.antt =====
-- Why `Evaluate` cuts a short header: its connection id is the one that the flow expects, or there is
-- none to expect and the configuration allows that.
use pcap_constrictor_afpacke.Base.{
  ℕ, suc, ◌+◌, ◌-◌, ◌%◌, ◌≤◌, ◌<◌, ◌≡◌, ◌≢◌, refl, ◌⊎◌, inl, inr, true, false, not, ◌||◌, ◌&&◌,
  ◌==◌, min, max, Option, none, some, [], ◌∷◌, arith, length, take, drop, if-elim, Holds,
  Holds-bind,
}
use pcap_constrictor_afpacke.Bytes.{
  Bytes, u32_mod, has_bytes, has_bytes_iff, byte_at, read_lem, subspan_lem,
}
use pcap_constrictor_afpacke.Config.{QuicOptions}
use pcap_constrictor_afpacke.Decode.{PacketDecodeResult, is_udp}
use pcap_constrictor_afpacke.Quic.Parse.{is_short_header_compatible}
use pcap_constrictor_afpacke.Quic.Flow.{
  Learned, stopped, unparsed, bytes_eq, connection_id_matches, match_unknown, match_known,
  match_short, after_long_headers, evaluate_payload, evaluate, make_canonical_flow, expected_dcid,
  port_configured,
}
use pcap_constrictor_afpacke.Quic.Outcome.{
  AllFlows, IsLearned, learn-IsLearned, IsQuicOutcome, evaluate-IsQuicOutcome,
}
use pcap_constrictor_afpacke.Quic.Types.{
  short_header_matched, QuicConstrictResult, ConnectionId, FlowDirection, FlowState, FlowStates,
}

bytes_eq_eq : (a b : Bytes) → bytes_eq a b ≡ true → a ≡ b
unfolding bytes_eq
bytes_eq_eq [] [] h = refl
bytes_eq_eq [] (y ∷ ys) h = absurd (ground (arith, h))
bytes_eq_eq (x ∷ xs) [] h = absurd (ground (arith, h))
bytes_eq_eq (x ∷ xs) (y ∷ ys) h = ground (arith, h, bytes_eq_eq xs ys)

connection_id_matches_lem :
    (dcid : ConnectionId) (payload : Bytes) (offset : ℕ)
    → dcid.known ≡ true
    → offset + dcid.length ≤ length payload
    → connection_id_matches dcid payload offset
      ≡ some (bytes_eq (take dcid.length dcid.bytes) (take dcid.length (drop offset payload)))
unfolding connection_id_matches
connection_id_matches_lem dcid payload offset known inside =
    ground (arith, known, subspan_lem payload offset dcid.length inside)

module _ (decoded : PacketDecodeResult) (config : QuicOptions) (payload : Bytes) where
  -- The bytes up to `keep` bytes of the short header at this place of the payload.
  abbrev kept : ℕ → ℕ → ℕ
  kept offset keep =
      (decoded.transport_payload_offset + offset + min (length payload - offset) keep) % u32_mod

  -- The bytes behind the first one are the id.
  pub record IsKnownMatch (dcid : ConnectionId) (offset : ℕ) (r : QuicConstrictResult)
      : Type 0 where
    pub known : dcid.known ≡ true
    pub inside : offset + 1 + dcid.length ≤ length payload
    pub same_id : take dcid.length dcid.bytes ≡ take dcid.length (drop (offset + 1) payload)
    pub output_is :
        r.output_len ≡ kept offset (max config.short_header_keep_packet_bytes (1 + dcid.length))

  pub record IsUnknownCut (offset : ℕ) (r : QuicConstrictResult) : Type 0 where
    pub not_required : config.require_dcid_match ≡ false
    pub allowed : config.allow_short_header_without_known_dcid ≡ true
    pub output_is : r.output_len ≡ kept offset (max config.short_header_keep_packet_bytes 1)

  -- A cut by what the flow knows.
  abbrev pub IsShortCut : Option FlowState → FlowDirection → ℕ → QuicConstrictResult → Type 0
  IsShortCut none direction offset r = IsUnknownCut offset r
  IsShortCut (some state) direction offset r =
      (((expected_dcid direction state).known ≡ false) × IsUnknownCut offset r)
      ⊎ IsKnownMatch (expected_dcid direction state) offset r

  -- Nothing is cut, or what stands at a place of the payload is.
  abbrev Reason : Option FlowState → FlowDirection → QuicConstrictResult → Type 0
  Reason state direction r =
      ((r.disposition ≢ short_header_matched) × (r.output_len ≡ 0))
      ⊎ ((r.disposition ≡ short_header_matched)
          × (offset : ℕ) × (offset < length payload)
          × IsShortCut state direction offset r)

  abbrev pub IsJustified : QuicConstrictResult × FlowStates → Type 0
  IsJustified (r, flows) =
      let (flow_key, direction) = make_canonical_flow decoded in Reason (flows flow_key) direction r

  UnknownReason : ℕ → QuicConstrictResult → Type 0
  UnknownReason offset r =
      ((r.disposition ≢ short_header_matched) × (r.output_len ≡ 0))
      ⊎ ((r.disposition ≡ short_header_matched) × IsUnknownCut offset r)

  match_unknown-UnknownReason :
      (offset : ℕ) → UnknownReason offset (match_unknown decoded config payload offset)
  unfolding match_unknown UnknownReason
  match_unknown-UnknownReason offset =
      if-elim (UnknownReason offset)
        (config.require_dcid_match || not config.allow_short_header_without_known_dcid) _ _
        (λ e. inl (ground arith, refl))
        (λ e. inr (
          refl,
          record {
            not_required = ground (arith, e);
            allowed = ground (arith, e);
            output_is = refl;
          },
        ))

  match_known-Reason :
      (state : FlowState) (direction : FlowDirection) (offset : ℕ)
      → offset < length payload
      → (expected_dcid direction state).known ≡ true
      → Holds
          (Reason (some state) direction)
          (match_known decoded config payload offset (expected_dcid direction state))
  unfolding match_known
  match_known-Reason state direction offset h known =
      let dcid = expected_dcid direction state in
      let found = take dcid.length (drop (offset + 1) payload) in
      let keep = max config.short_header_keep_packet_bytes (1 + dcid.length) in
      if-elim (Holds (Reason (some state) direction))
        (not (has_bytes payload offset (1 + dcid.length))) _ _ (λ e. inl (ground arith, refl))
        (λ e.
          let inside : offset + 1 + dcid.length ≤ length payload =
            ground (arith, e, has_bytes_iff payload offset (1 + dcid.length)) in
          rw (connection_id_matches_lem dcid payload (offset + 1) known inside) (
            if-elim (Reason (some state) direction)
              (not (bytes_eq (take dcid.length dcid.bytes) found)) _ _
              (λ n. inl (ground arith, refl))
              (λ n. inr (
                refl,
                offset,
                h,
                inr (record {
                  known = known;
                  inside = inside;
                  same_id = bytes_eq_eq (take dcid.length dcid.bytes) found (ground (arith, n));
                  output_is = refl;
                }),
              ))))

  match_short-Reason :
      (state : Option FlowState) (direction : FlowDirection) (offset : ℕ)
      → offset < length payload
      → Holds (Reason state direction) (match_short decoded config payload offset state direction)
  unfolding match_short UnknownReason
  match_short-Reason none direction offset h = elim (match_unknown-UnknownReason offset) [
    | inl n ↦ inl n
    | inr (m, cut) ↦ inr (m, offset, h, cut)
  ]
  match_short-Reason (some state) direction offset h =
      if-elim (Holds (Reason (some state) direction)) (not (expected_dcid direction state).known) _
        _
        (λ e. elim (match_unknown-UnknownReason offset) [
          | inl n ↦ inl n
          | inr (m, cut) ↦ inr (m, offset, h, inl (ground (arith, e), cut))
        ])
        (λ e. match_known-Reason state direction offset h (ground (arith, e)))

  after_long_headers-IsJustified :
      (learned : Learned)
      → IsLearned payload learned
      → Holds IsJustified (after_long_headers decoded config payload learned)
  unfolding after_long_headers
  after_long_headers-IsJustified (unparsed flows) l = inl (ground arith, refl)
  after_long_headers-IsJustified (stopped offset saw flows) l =
      let (flow_key, direction) = make_canonical_flow decoded in
      if-elim (Holds IsJustified) (offset == length payload) _ _ (λ e. inl (ground arith, refl))
        (λ e.
          let lt : offset < length payload = ground (arith, e, l.0) in
          rw (read_lem payload offset lt) (
            if-elim (Holds IsJustified) (not (is_short_header_compatible (byte_at payload offset)))
              _ _ (λ n. inl (ground arith, refl))
              (λ n.
                Holds-bind (Reason (flows flow_key) direction) IsJustified _ _
                  (match_short-Reason (flows flow_key) direction offset lt) (λ r q. q))))

  evaluate_payload-IsJustified :
      (flows : FlowStates)
      → AllFlows flows
      → Holds IsJustified (evaluate_payload flows decoded config payload)
  unfolding evaluate_payload
  evaluate_payload-IsJustified flows all =
      let (flow_key, direction) = make_canonical_flow decoded in
      Holds-bind (IsLearned payload) IsJustified _ _
        (learn-IsLearned (suc (length payload)) payload flow_key direction 0 false flows
          (omega arith) (omega arith) all)
        after_long_headers-IsJustified

-- The UDP payload of a packet.
abbrev pub payload_of : PacketDecodeResult → Bytes → Bytes
payload_of decoded packet =
    take decoded.transport_payload_length (drop decoded.transport_payload_offset packet)

evaluate-IsJustified :
    (flows : FlowStates) (packet : Bytes) (decoded : PacketDecodeResult) (config : QuicOptions)
    → AllFlows flows
    → Holds
        (IsJustified decoded config (payload_of decoded packet))
        (evaluate flows packet decoded config)
unfolding evaluate
evaluate-IsJustified flows packet decoded config all =
    let n = decoded.transport_payload_length in
    let offset = decoded.transport_payload_offset in
    let P = Holds (IsJustified decoded config (payload_of decoded packet)) in
    if-elim P
      (not config.enabled
        || not (is_udp decoded.transport_protocol)
        || decoded.transport_payload_length == 0
        || not (port_configured config.ports decoded.src_port)
          && not (port_configured config.ports decoded.dst_port))
      _ _ (λ e. inl (ground arith, refl))
      (λ e.
        if-elim P (not (has_bytes packet offset n)) _ _ (λ b. inl (ground arith, refl))
          (λ b.
            rw (subspan_lem packet offset n (ground (arith, b, has_bytes_iff packet offset n))) (
              if-elim P (length (payload_of decoded packet) == 0) _ _
                (λ z. inl (ground arith, refl))
                (λ z.
                  evaluate_payload-IsJustified decoded config (payload_of decoded packet) flows
                    all))))

Holds-both :
    {A : Type 0} (P Q : A → Type 0) (m : Option A)
    → Holds P m
    → Holds Q m
    → Holds (λ a. P a × Q a) m
Holds-both P Q none h k = h
Holds-both P Q (some a) h k = (h, k)

-- With a packet of less than 2 ^ 32 bytes and a well-formed table, Evaluate reads inside of the
-- packet only, its loop ends, and every id in its table is unknown or has 1 to 20 bytes. The
-- result has no length, or the disposition says that a short header matched, and then the length
-- ends inside of the UDP payload, behind its first byte, and there is a place in the payload for
-- which one of two holds. Either the flow knows an id for the direction, the bytes behind the
-- first one at this place are that id, and the length keeps up to short_header_keep_packet_bytes
-- bytes from there, or the first byte and the id if that is more. Or the flow knows no id for
-- the direction, require_dcid_match is off and allow_short_header_without_known_dcid on, and the
-- length keeps up to short_header_keep_packet_bytes bytes from there, or one if that is more.
pub evaluate-IsMatched :
    (flows : FlowStates) (packet : Bytes) (decoded : PacketDecodeResult) (config : QuicOptions)
    → length packet < u32_mod
    → AllFlows flows
    → Holds
        (λ o. IsQuicOutcome decoded o × IsJustified decoded config (payload_of decoded packet) o)
        (evaluate flows packet decoded config)
evaluate-IsMatched flows packet decoded config small all =
    Holds-both (IsQuicOutcome decoded) (IsJustified decoded config (payload_of decoded packet))
      (evaluate flows packet decoded config)
      (evaluate-IsQuicOutcome flows packet decoded config small all)
      (evaluate-IsJustified flows packet decoded config all)
