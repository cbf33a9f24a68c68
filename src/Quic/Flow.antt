-- ===== src/Quic/Flow.antt =====
-- Flows, the learning of connection ids, and `Evaluate`.
use pcap_constrictor_afpacke.Base.{
  ℕ, zero, suc, ◌+◌, ◌-◌, ◌%◌, min, max, Bool, true, false, not, ◌&&◌, ◌||◌, Option, none, some,
  List, [], ◌∷◌, ltb, ◌==◌, if◌then◌else◌, length, take, find_or, ◌>>=◌,
}
use pcap_constrictor_afpacke.Base.Checked.{fault, refused, ok}
use pcap_constrictor_afpacke.Bytes.{Bytes, u32_mod, has_bytes, read, subspan}
use pcap_constrictor_afpacke.Config.{QuicOptions}
use pcap_constrictor_afpacke.Decode.{PacketDecodeResult, is_udp}
use pcap_constrictor_afpacke.Quic.Parse.{
  LongHeaderInfo, is_long_header, is_short_header_compatible, parse_long_header,
}
use pcap_constrictor_afpacke.Quic.Types.{
  QuicConstrictDisposition, not_applicable, long_header, short_header_matched, unknown_cid_fallback,
  dcid_mismatch_fallback, malformed_fallback, QuicConstrictResult, ConnectionId, Endpoint, FlowKey,
  FlowDirection, a_to_b, b_to_a, FlowState, new_flow, FlowStates, put_flow,
}

-- `std::find(ports.begin(), ports.end(), port) != ports.end()`
pub port_configured : List ℕ → ℕ → Bool
port_configured [] port = false
port_configured (p ∷ ports) port = p == port || port_configured ports port

-- The source's -1, 0 and 1.
pub data Compared : Type 0 where
  less equal greater : Compared

-- The loop over the first `n` bytes of two arrays, and what follows it.
unfoldable pub compare_bytes : ℕ → Bytes → Bytes → Compared → Compared
compare_bytes zero left right after = after
compare_bytes (suc n) (x ∷ left) (y ∷ right) after =
    let rest = compare_bytes n left right after in
    if ltb x y then less else if ltb y x then greater else rest
compare_bytes (suc n) _ _ after = after

abbrev pub compare_numbers : ℕ → ℕ → Compared → Compared
compare_numbers left right after =
    if ltb left right then less else if ltb right left then greater else after

unfoldable pub compare_endpoints : Endpoint → Endpoint → Compared
compare_endpoints left right =
    compare_bytes (min left.address_length right.address_length) left.address right.address (
      compare_numbers left.address_length right.address_length
        (compare_numbers left.port right.port equal))

unfoldable pub make_endpoint : Bytes → ℕ → ℕ → Endpoint
make_endpoint address address_length port = record {
  address = address;
  address_length = address_length;
  port = port;
}

-- The flow of a packet by its two endpoints in order, and the direction of the packet in it.
abbrev pub order_flow :
    Compared → PacketDecodeResult → Endpoint → Endpoint → FlowKey × FlowDirection
order_flow greater decoded source destination = (
  record { ip_version = decoded.ip_version; endpoint_a = destination; endpoint_b = source },
  b_to_a,
)
order_flow _ decoded source destination = (
  record { ip_version = decoded.ip_version; endpoint_a = source; endpoint_b = destination },
  a_to_b,
)

unfoldable pub make_canonical_flow : PacketDecodeResult → FlowKey × FlowDirection
unfolding make_endpoint
make_canonical_flow decoded =
    let source = make_endpoint decoded.src_address decoded.address_length decoded.src_port in
    let destination = make_endpoint decoded.dst_address decoded.address_length decoded.dst_port in
    order_flow (compare_endpoints source destination) decoded source destination

unfoldable pub bytes_eq : Bytes → Bytes → Bool
bytes_eq [] [] = true
bytes_eq (x ∷ xs) (y ∷ ys) = x == y && bytes_eq xs ys
bytes_eq _ _ = false

-- The caller has checked that the payload has the id's length from `offset` on.
unfoldable pub connection_id_matches : ConnectionId → Bytes → ℕ → Option Bool
connection_id_matches connection_id payload offset =
    if not connection_id.known then some false else do
      found ← subspan payload offset connection_id.length
      some (bytes_eq (take connection_id.length connection_id.bytes) found)

-- The source id of a long header is kept for the endpoint that sent it, unless it is empty.
abbrev pub store_scid : FlowDirection → ConnectionId → FlowState → FlowState
store_scid a_to_b scid state = record state { endpoint_a_scid = scid }
store_scid b_to_a scid state = record state { endpoint_b_scid = scid }

unfoldable pub learn_scid : FlowKey → FlowDirection → LongHeaderInfo → FlowStates → FlowStates
learn_scid flow_key direction header flows =
    let state = find_or new_flow (flows flow_key) in
    put_flow flow_key
      (if header.scid.known && ltb 0 header.scid.length
        then store_scid direction header.scid state
        else state)
      flows

-- The loop over long headers ends at an offset, or at a header that it cannot parse.
pub data Learned : Type 0 where
  stopped : ℕ → Bool → FlowStates → Learned
  unparsed : FlowStates → Learned

-- Each round moves the offset on, so that the payload's length and one more is enough fuel.
unfoldable pub learn : ℕ → Bytes → FlowKey → FlowDirection → ℕ → Bool → FlowStates → Option Learned
learn zero payload flow_key direction offset saw_long_header flows = none
learn (suc fuel) payload flow_key direction offset saw_long_header flows =
    let next = do
      first_byte ← read payload offset
      elim (is_long_header first_byte) [
        | false ↦ some (stopped offset saw_long_header flows)
        | true ↦ elim (parse_long_header payload offset) [
          | fault ↦ none
          | refused ↦ some (unparsed flows)
          | ok header ↦
              learn fuel payload flow_key direction (offset + header.total_size) true
                (learn_scid flow_key direction header flows)
        ]
      ]
    in if ltb offset (length payload) then next else some (stopped offset saw_long_header flows)

abbrev pub only : QuicConstrictDisposition → QuicConstrictResult
only disposition = record { disposition = disposition; output_len = 0 }

-- A short header is kept up to `keep` bytes of it.
abbrev pub keep_short : PacketDecodeResult → Bytes → ℕ → ℕ → QuicConstrictResult
keep_short decoded payload offset keep = record {
  disposition = short_header_matched;
  output_len =
      (decoded.transport_payload_offset + offset + min (length payload - offset) keep) % u32_mod;
}

-- The id that the other endpoint has announced, for a packet in this direction.
abbrev pub expected_dcid : FlowDirection → FlowState → ConnectionId
expected_dcid a_to_b state = state.endpoint_b_scid
expected_dcid b_to_a state = state.endpoint_a_scid

-- A flow without an id for the direction; a flow that is not in the table has none either.
unfoldable pub match_unknown : PacketDecodeResult → QuicOptions → Bytes → ℕ → QuicConstrictResult
match_unknown decoded config payload offset =
    if config.require_dcid_match || not config.allow_short_header_without_known_dcid
    then only unknown_cid_fallback
    else keep_short decoded payload offset (max config.short_header_keep_packet_bytes 1)

unfoldable pub match_known :
    PacketDecodeResult → QuicOptions → Bytes → ℕ → ConnectionId → Option QuicConstrictResult
match_known decoded config payload offset dcid =
    if not (has_bytes payload offset (1 + dcid.length)) then some (only malformed_fallback) else do
      matches ← connection_id_matches dcid payload (offset + 1)
      some (
          if not matches
          then only dcid_mismatch_fallback
          else keep_short decoded payload offset
              (max config.short_header_keep_packet_bytes (1 + dcid.length)))

-- The lookup of the flow, and the match of a short header against what it knows.
unfoldable pub match_short :
    PacketDecodeResult
    → QuicOptions
    → Bytes
    → ℕ
    → Option FlowState
    → FlowDirection
    → Option QuicConstrictResult
match_short decoded config payload offset none direction =
    some (match_unknown decoded config payload offset)
match_short decoded config payload offset (some state) direction =
    if not (expected_dcid direction state).known
    then some (match_unknown decoded config payload offset)
    else match_known decoded config payload offset (expected_dcid direction state)

-- What follows the loop.
unfoldable pub after_long_headers :
    PacketDecodeResult → QuicOptions → Bytes → Learned → Option (QuicConstrictResult × FlowStates)
after_long_headers decoded config payload (unparsed flows) = some (only malformed_fallback, flows)
after_long_headers decoded config payload (stopped offset saw_long_header flows) =
    if offset == length payload
    then some (only (if saw_long_header then long_header else not_applicable), flows)
    else do
      first_byte ← read payload offset
      if not (is_short_header_compatible first_byte)
          then some (only (if saw_long_header then malformed_fallback else not_applicable), flows)
          else (do
            let (flow_key, direction) = make_canonical_flow decoded
            result ← match_short decoded config payload offset (flows flow_key) direction
            some (result, flows))

unfoldable pub evaluate_payload :
    FlowStates
    → PacketDecodeResult
    → QuicOptions
    → Bytes
    → Option (QuicConstrictResult × FlowStates)
evaluate_payload flows decoded config payload = do
  let (flow_key, direction) = make_canonical_flow decoded
  learned ← learn (suc (length payload)) payload flow_key direction 0 false flows
  after_long_headers decoded config payload learned

unfoldable pub evaluate :
    FlowStates
    → Bytes
    → PacketDecodeResult
    → QuicOptions
    → Option (QuicConstrictResult × FlowStates)
evaluate flows packet decoded config =
    if not config.enabled
      || not (is_udp decoded.transport_protocol)
      || decoded.transport_payload_length == 0
      || not (port_configured config.ports decoded.src_port)
        && not (port_configured config.ports decoded.dst_port)
    then some (only not_applicable, flows)
    else if not (has_bytes packet decoded.transport_payload_offset decoded.transport_payload_length)
    then some (only malformed_fallback, flows)
    else do
      payload ← subspan packet decoded.transport_payload_offset decoded.transport_payload_length
      if length payload == 0
          then some (only not_applicable, flows)
          else evaluate_payload flows decoded config payload
