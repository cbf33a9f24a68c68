-- ===== src/Quic/Outcome.antt =====
-- Where `Evaluate` cuts a QUIC packet, and what it keeps true of its table of flows.
use pcap_constrictor_afpacke.Base.{
  ℕ, zero, suc, ◌+◌, ◌≤◌, ◌<◌, ◌≡◌, ◌≢◌, refl, ◌⊎◌, inl, inr, Bool, true, false, ◌&&◌, Option, none,
  some, arith, length, take, drop, length-take, length-drop, ltb, if◌then◌else◌, ◌==◌, Bool-cases,
  find_or, insert, Holds, Holds-bind, ◌>>=◌,
}
use pcap_constrictor_afpacke.Base.Checked.{Checked, fault, refused, ok, Accepts}
use pcap_constrictor_afpacke.Bytes.{Bytes, u32_mod, has_bytes_iff, read_lem, subspan, subspan_lem}
use pcap_constrictor_afpacke.Config.{QuicOptions}
use pcap_constrictor_afpacke.Decode.{PacketDecodeResult}
use pcap_constrictor_afpacke.Quic.Bounds.{IsKnownId, IsLongHeader, parse_long_header-IsLongHeader}
use pcap_constrictor_afpacke.Quic.Flow.{
  learn_scid, Learned, stopped, unparsed, learn, connection_id_matches, match_unknown, match_known,
  match_short, after_long_headers, evaluate_payload, evaluate, make_canonical_flow, store_scid,
  expected_dcid, only,
}
use pcap_constrictor_afpacke.Quic.Parse.{LongHeaderInfo, parse_long_header}
use pcap_constrictor_afpacke.Quic.Types.{
  not_applicable, short_header_matched, QuicConstrictResult, ConnectionId, FlowKey, FlowDirection,
  a_to_b, b_to_a, FlowState, new_flow, FlowStates, put_flow,
}

-- An id that is not known, or one that is, and not empty.
abbrev pub IsId : ConnectionId → Type 0
IsId i = (i.known ≡ false) ⊎ (IsKnownId i × (0 < i.length))

pub record IsFlow (s : FlowState) : Type 0 where
  pub a_ok : IsId s.endpoint_a_scid
  pub b_ok : IsId s.endpoint_b_scid

abbrev pub AllFlows : FlowStates → Type 0
AllFlows flows = (k : FlowKey) (s : FlowState) → flows k ≡ some s → IsFlow s

AllFlows-put :
    (k : FlowKey) (s : FlowState) (flows : FlowStates)
    → IsFlow s
    → AllFlows flows
    → AllFlows (put_flow k s flows)
unfolding insert
AllFlows-put k s flows h all j t e = ground (arith, all j t)

entry-IsFlow :
    (o : Option FlowState) → ((s : FlowState) → o ≡ some s → IsFlow s) → IsFlow (find_or new_flow o)
entry-IsFlow none h = record { a_ok = inl refl; b_ok = inl refl }
entry-IsFlow (some s) h = h s refl

store_scid-IsFlow :
    (direction : FlowDirection) (scid : ConnectionId) (s : FlowState)
    → IsKnownId scid
    → 0 < scid.length
    → IsFlow s
    → IsFlow (store_scid direction scid s)
store_scid-IsFlow a_to_b scid s k p h = record { a_ok = inr (k, p); b_ok = h.b_ok }
store_scid-IsFlow b_to_a scid s k p h = record { a_ok = h.a_ok; b_ok = inr (k, p) }

learn_scid-AllFlows :
    (key : FlowKey) (direction : FlowDirection) (header : LongHeaderInfo) (flows : FlowStates)
    → IsKnownId header.scid
    → AllFlows flows
    → AllFlows (learn_scid key direction header flows)
unfolding learn_scid
learn_scid-AllFlows key direction header flows k all =
    let old = entry-IsFlow (flows key) (all key) in
    elim (Bool-cases (header.scid.known && ltb 0 header.scid.length)) [
      | inl e ↦ rw e (
          AllFlows-put key _ flows (store_scid-IsFlow direction header.scid _ k (ground arith) old)
            all)
      | inr e ↦ rw e (AllFlows-put key _ flows old all)
    ]

abbrev pub IsLearned : Bytes → Learned → Type 0
IsLearned payload (stopped offset saw_long_header flows) =
    (offset ≤ length payload) × AllFlows flows
IsLearned payload (unparsed flows) = AllFlows flows

go_on-IsLearned :
    (payload : Bytes) (offset : ℕ) (flows : FlowStates) (rest : LongHeaderInfo → Option Learned)
    (r : Checked LongHeaderInfo)
    → AllFlows flows
    → Accepts (IsLongHeader payload offset) r
    → ((h : LongHeaderInfo) → IsLongHeader payload offset h → Holds (IsLearned payload) (rest h))
    → Holds
        (IsLearned payload)
        (elim r [ fault ↦ none | refused ↦ some (unparsed flows) | ok header ↦ rest header ])
go_on-IsLearned payload offset flows rest fault all h k = absurd h
go_on-IsLearned payload offset flows rest refused all h k = all
go_on-IsLearned payload offset flows rest (ok header) all h k = k header h

-- The loop ends within its fuel.
pub learn-IsLearned :
    (fuel : ℕ) (payload : Bytes) (key : FlowKey) (direction : FlowDirection) (offset : ℕ)
    (saw : Bool) (flows : FlowStates)
    → offset ≤ length payload
    → length payload < offset + fuel
    → AllFlows flows
    → Holds (IsLearned payload) (learn fuel payload key direction offset saw flows)
unfolding learn
learn-IsLearned zero payload key direction offset saw flows i h all = absurd (omega arith)
learn-IsLearned (suc fuel) payload key direction offset saw flows i h all =
    let next =
      go_on-IsLearned payload offset flows
        (λ header.
          learn fuel payload key direction (offset + header.total_size) true
            (learn_scid key direction header flows))
        (parse_long_header payload offset) all (parse_long_header-IsLongHeader payload offset)
        (λ header l.
          learn-IsLearned fuel payload key direction (offset + header.total_size) true
            (learn_scid key direction header flows) (omega arith) (omega arith)
            (learn_scid-AllFlows key direction header flows l.source all)) in
    ground (arith, read_lem payload offset, next)

abbrev pub IsCut : PacketDecodeResult → QuicConstrictResult → Type 0
IsCut decoded r =
    ((r.disposition ≡ short_header_matched)
      × (decoded.transport_payload_offset < r.output_len)
      × (r.output_len ≤ decoded.transport_payload_offset + decoded.transport_payload_length))
    ⊎ ((r.disposition ≢ short_header_matched) × (r.output_len ≡ 0))

pub record IsQuicOutcome (decoded : PacketDecodeResult) (o : QuicConstrictResult × FlowStates)
    : Type 0 where
  pub cut : IsCut decoded o.0
  pub flows : AllFlows o.1

module _ (decoded : PacketDecodeResult) (config : QuicOptions) (payload : Bytes)
    (size : length payload ≡ decoded.transport_payload_length)
    (small : decoded.transport_payload_offset + decoded.transport_payload_length < u32_mod) where
  match_unknown-IsCut :
      (offset : ℕ)
      → offset < length payload
      → IsCut decoded (match_unknown decoded config payload offset)
  unfolding match_unknown
  match_unknown-IsCut offset h = ground arith

  matches_some :
      (dcid : ConnectionId) (offset : ℕ)
      → offset + dcid.length ≤ length payload
      → Holds (λ b. Unit {0}) (connection_id_matches dcid payload offset)
  unfolding connection_id_matches
  matches_some dcid offset h = ground (arith, subspan_lem payload offset dcid.length)

  match_known-IsCut :
      (offset : ℕ) (dcid : ConnectionId)
      → offset < length payload
      → Holds (IsCut decoded) (match_known decoded config payload offset dcid)
  unfolding match_known
  match_known-IsCut offset dcid h =
      ground (arith, has_bytes_iff payload offset (1 + dcid.length), matches_some dcid (offset + 1))

  match_short-IsCut :
      (offset : ℕ) (o : Option FlowState) (direction : FlowDirection)
      → offset < length payload
      → Holds (IsCut decoded) (match_short decoded config payload offset o direction)
  unfolding match_short
  match_short-IsCut offset none direction h = match_unknown-IsCut offset h
  match_short-IsCut offset (some s) direction h =
      ground (
        arith,
        match_unknown-IsCut offset h,
        match_known-IsCut offset (expected_dcid direction s) h,
      )

  after_long_headers-IsQuicOutcome :
      (learned : Learned)
      → IsLearned payload learned
      → Holds (IsQuicOutcome decoded) (after_long_headers decoded config payload learned)
  unfolding after_long_headers
  after_long_headers-IsQuicOutcome (unparsed flows) h = record {
    cut = inr (ground arith, refl);
    flows = h;
  }
  after_long_headers-IsQuicOutcome (stopped offset saw flows) h =
      let (key, direction) = make_canonical_flow decoded in
      ground (arith, read_lem payload offset, match_short-IsCut offset (flows key) direction)

  evaluate_payload-IsQuicOutcome :
      (flows : FlowStates)
      → AllFlows flows
      → Holds (IsQuicOutcome decoded) (evaluate_payload flows decoded config payload)
  unfolding evaluate_payload
  evaluate_payload-IsQuicOutcome flows all =
      let (key, direction) = make_canonical_flow decoded in
      Holds-bind (IsLearned payload) (IsQuicOutcome decoded) _ _
        (learn-IsLearned (suc (length payload)) payload key direction 0 false flows (omega arith)
          (omega arith) all)
        after_long_headers-IsQuicOutcome

inside-IsQuicOutcome :
    (packet : Bytes) (decoded : PacketDecodeResult) (config : QuicOptions) (flows : FlowStates)
    → length packet < u32_mod
    → AllFlows flows
    → decoded.transport_payload_offset + decoded.transport_payload_length ≤ length packet
    → Holds (IsQuicOutcome decoded) (
        subspan packet decoded.transport_payload_offset decoded.transport_payload_length
        >>= λ payload.
            if length payload == 0
            then some (only not_applicable, flows)
            else evaluate_payload flows decoded config payload)
inside-IsQuicOutcome packet decoded config flows small all inside =
    let n = decoded.transport_payload_length in
    let rest = drop decoded.transport_payload_offset packet in
    let size : length (take n rest) ≡ n =
      omega (arith, length-take n rest, length-drop decoded.transport_payload_offset packet) in
    rw (subspan_lem packet decoded.transport_payload_offset n inside) (
      ground (
        arith,
        evaluate_payload-IsQuicOutcome decoded config (take n rest) size (omega arith) flows all,
      ))

-- With a packet of less than 2 ^ 32 bytes and a well-formed table, Evaluate reads inside of the
-- packet only, its loop ends, and every id in its table is unknown or has 1 to 20 bytes. The
-- result has a length if and only if a short header matched, and that length ends inside of the
-- UDP payload, behind its first byte.
pub evaluate-IsQuicOutcome :
    (flows : FlowStates) (packet : Bytes) (decoded : PacketDecodeResult) (config : QuicOptions)
    → length packet < u32_mod
    → AllFlows flows
    → Holds (IsQuicOutcome decoded) (evaluate flows packet decoded config)
unfolding evaluate
evaluate-IsQuicOutcome flows packet decoded config small all = ground (
  arith,
  has_bytes_iff packet decoded.transport_payload_offset decoded.transport_payload_length,
  inside-IsQuicOutcome packet decoded config flows small all,
)
