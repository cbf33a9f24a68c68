-- ===== src/Tls/Evaluate.antt =====
-- `Evaluate` in src/policy/TlsConstrictor.cpp, around its loop.
use pcap_constrictor_afpacke.Base.{
  suc, ◌+◌, ◌%◌, true, false, not, ◌||◌, Option, some, leb, ◌==◌, if◌then◌else◌, length, ◌>>=◌,
  find_or,
}
use pcap_constrictor_afpacke.Bytes.{Bytes, u32_mod, has_bytes, subspan}
use pcap_constrictor_afpacke.Config.{TlsOptions}
use pcap_constrictor_afpacke.Decode.{PacketDecodeResult, is_tcp}
use pcap_constrictor_afpacke.Tls.Types.{
  TlsConstrictResult, DirectionKey, DirectionState, new_direction, Directions, put, drop_direction,
  advance_tcp_seq, make_direction_key, make_reverse_key, is_syn_or_rst, resynchronize, no_record,
  malformed, no_application_data, app_data_prefix,
}
use pcap_constrictor_afpacke.Tls.Loop.{
  Walk, continue_record, Round, Context, walk_records, next, leave, return_no_record,
}

-- What `Evaluate` starts its walk from, the entry resynchronised.
unfoldable pub start_walk : Directions → PacketDecodeResult → DirectionState → Walk
start_walk directions decoded state = record {
  state = resynchronize state decoded.tcp_seq;
  directions = directions;
  payload_offset = 0;
  candidate_payload_size = decoded.transport_payload_length;
  has_candidate = false;
  uncertain = false;
  reset_direction = false;
  kept_middle_continuation = false;
}

-- The entry that `reset_direction` leaves.
unfoldable pub reset_entry : DirectionKey → DirectionState → Directions → Directions
reset_entry key state directions =
    if state.confirmed_tls
    then put key
        (record new_direction {
          confirmed_tls = true;
          has_seen_application_data = state.has_seen_application_data;
        })
        directions
    else drop_direction key directions

-- What follows the loop.
unfoldable pub conclude :
    PacketDecodeResult → DirectionKey → TlsConstrictResult → Walk → TlsConstrictResult × Directions
unfolding reset_entry advance_tcp_seq
conclude decoded key result w =
    let state = record (w.state) {
      expected_tcp_seq = advance_tcp_seq decoded.tcp_seq decoded.transport_payload_length;
    } in
    let directions = put key state w.directions in
    if w.reset_direction
    then (record result { disposition = no_application_data }, reset_entry key state w.directions)
    else if w.uncertain
    then (record result { disposition = malformed }, directions)
    else if w.kept_middle_continuation
    then (record result { disposition = no_application_data }, directions)
    else if not state.synchronized
        || not w.has_candidate
        || leb decoded.transport_payload_length w.candidate_payload_size
    then (
      record result { disposition = if state.synchronized then no_application_data else no_record },
      directions,
    )
    else (
      record {
        disposition = app_data_prefix;
        output_len = (decoded.transport_payload_offset + w.candidate_payload_size) % u32_mod;
      },
      directions,
    )

unfoldable pub finish :
    PacketDecodeResult → DirectionKey → TlsConstrictResult → Round → TlsConstrictResult × Directions
finish decoded key result (next w) = conclude decoded key result w
finish decoded key result (leave w) = conclude decoded key result w
finish decoded key result (return_no_record directions) =
    (record result { disposition = no_record }, directions)

-- The directions once a SYN or RST has ended what came before.
unfoldable pub open_directions : Directions → PacketDecodeResult → Directions
unfolding make_direction_key make_reverse_key is_syn_or_rst
open_directions directions decoded =
    if is_syn_or_rst decoded.tcp_flags
    then drop_direction (make_reverse_key decoded)
        (drop_direction (make_direction_key decoded) directions)
    else directions

-- From `directions_[key]` on, for a payload that lies in the packet.
unfoldable pub evaluate_payload :
    Directions
    → PacketDecodeResult
    → TlsOptions
    → TlsConstrictResult
    → Bytes
    → Option (TlsConstrictResult × Directions)
evaluate_payload directions decoded config result payload =
    let key = make_direction_key decoded in
    let state = find_or new_direction (directions key) in
    let context : Context = record {
      config = config;
      key = key;
      reverse_key = make_reverse_key decoded;
      confirmed_tls = state.confirmed_tls;
      payload = payload;
    } in
    do
      round ←
          walk_records context (suc (length payload))
            (continue_record config payload (start_walk directions decoded state))
      some (finish decoded key result round)

unfoldable pub evaluate :
    Directions → Bytes → PacketDecodeResult → TlsOptions → Option (TlsConstrictResult × Directions)
evaluate directions packet decoded config =
    let result : TlsConstrictResult = record {
      disposition = no_record;
      output_len = length packet % u32_mod;
    } in
    let opened = open_directions directions decoded in
    if not (is_tcp decoded.transport_protocol)
    then some (record result { disposition = malformed }, directions)
    else if decoded.transport_payload_length == 0
    then some (record result { disposition = no_application_data }, opened)
    else if not (has_bytes packet decoded.transport_payload_offset decoded.transport_payload_length)
    then some (record result { disposition = malformed }, opened)
    else do
      payload ← subspan packet decoded.transport_payload_offset decoded.transport_payload_length
      evaluate_payload opened decoded config result payload
