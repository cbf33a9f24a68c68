-- ===== src/Tls/Outcome.antt =====
-- Where `Evaluate` cuts a packet, and what it keeps of its table.
use pcap_constrictor_afpacke.Base.{
  suc, ◌+◌, ◌%◌, ◌≤◌, ◌<◌, ◌≡◌, ◌≢◌, refl, ◌⊎◌, inl, inr, true, arith, length, take, drop, Holds,
  Holds-bind, length-take, length-drop, ◌>>=◌,
}
use pcap_constrictor_afpacke.Bytes.{Bytes, u32_mod, has_bytes_iff, subspan, subspan_lem}
use pcap_constrictor_afpacke.Config.{TlsOptions}
use pcap_constrictor_afpacke.Decode.{PacketDecodeResult}
use pcap_constrictor_afpacke.Tls.Invariant.{
  IsState, AllStates, AllStates-put, AllStates-drop, find_or-IsState, IsWalk, IsEnd,
  resynchronize-IsState, continue_record-IsWalk, walk_records-IsEnd,
}
use pcap_constrictor_afpacke.Tls.{
  TlsConstrictResult, DirectionKey, DirectionState, new_direction, Directions, app_data_prefix,
  no_record, Walk, Round, next, leave, return_no_record, advance_tcp_seq, start_walk, conclude,
  finish, open_directions, evaluate_payload, evaluate, make_direction_key, make_reverse_key,
  reset_entry,
}

-- A packet is cut inside of its payload, or it is kept whole.
abbrev pub IsCut : Bytes → PacketDecodeResult → TlsConstrictResult → Type 0
IsCut packet decoded r =
    ((r.disposition ≡ app_data_prefix)
      × (decoded.transport_payload_offset ≤ r.output_len)
      × (r.output_len < decoded.transport_payload_offset + decoded.transport_payload_length)
      × (r.output_len < length packet))
    ⊎ ((r.disposition ≢ app_data_prefix) × (r.output_len ≡ length packet))

pub record IsTlsOutcome (packet : Bytes) (decoded : PacketDecodeResult)
    (o : TlsConstrictResult × Directions) : Type 0 where
  pub cut : IsCut packet decoded o.0
  pub states : AllStates o.1

module _ (packet : Bytes) (decoded : PacketDecodeResult) (small : length packet < u32_mod)
    (inside : decoded.transport_payload_offset + decoded.transport_payload_length
      ≤ length packet) where
  reset_entry-AllStates :
      (key : DirectionKey) (s : DirectionState) (m : Directions)
      → AllStates m
      → AllStates (reset_entry key s m)
  unfolding reset_entry
  reset_entry-AllStates key s m h = ground (
    arith,
    AllStates-drop key m h,
    AllStates-put key
        (record new_direction {
          confirmed_tls = true;
          has_seen_application_data = s.has_seen_application_data;
        })
        m (record { active = inl (refl, refl, refl, refl); seq_range = omega arith }) h,
  )

  conclude-IsTlsOutcome :
      (key : DirectionKey) (result : TlsConstrictResult) (payload : Bytes) (w : Walk)
      → result.output_len ≡ length packet
      → IsWalk payload w
      → IsTlsOutcome packet decoded (conclude decoded key result w)
  unfolding conclude advance_tcp_seq
  conclude-IsTlsOutcome key result payload w e h =
      let t : DirectionState = record (w.state) {
        expected_tcp_seq = (decoded.tcp_seq + decoded.transport_payload_length % u32_mod) % u32_mod;
      } in
      ground (
        arith,
        reset_entry-AllStates key w.state w.directions h.directions_ok,
        AllStates-put key t w.directions
            (record { active = h.state_ok.active; seq_range = omega arith }) h.directions_ok,
      )

  finish-IsTlsOutcome :
      (key : DirectionKey) (result : TlsConstrictResult) (payload : Bytes) (round : Round)
      → result.output_len ≡ length packet
      → IsEnd payload round
      → IsTlsOutcome packet decoded (finish decoded key result round)
  unfolding finish
  finish-IsTlsOutcome key result payload (next w) e h = absurd h
  finish-IsTlsOutcome key result payload (leave w) e h =
      conclude-IsTlsOutcome key result payload w e h
  finish-IsTlsOutcome key result payload (return_no_record directions) e h = record {
    cut = inr (ground arith, e);
    states = h;
  }

  start_walk-IsWalk :
      (directions : Directions) (payload : Bytes) (s : DirectionState)
      → length payload ≡ decoded.transport_payload_length
      → AllStates directions
      → IsState s
      → IsWalk payload (start_walk directions decoded s)
  unfolding start_walk
  start_walk-IsWalk directions payload s e all h = record {
    offset_inside = omega arith;
    candidate_inside = omega arith;
    state_ok = resynchronize-IsState s decoded.tcp_seq h;
    directions_ok = all;
  }

  evaluate_payload-IsTlsOutcome :
      (directions : Directions) (config : TlsOptions) (result : TlsConstrictResult)
      (payload : Bytes)
      → result.output_len ≡ length packet
      → length payload ≡ decoded.transport_payload_length
      → 0 < length payload
      → AllStates directions
      → Holds
          (IsTlsOutcome packet decoded)
          (evaluate_payload directions decoded config result payload)
  unfolding evaluate_payload
  evaluate_payload-IsTlsOutcome directions config result payload r e p all =
      let key = make_direction_key decoded in
      let started =
        start_walk-IsWalk directions payload _ e all (find_or-IsState directions key all) in
      Holds-bind _ _ _ _
        (walk_records-IsEnd _ (suc (length payload)) _ (omega arith)
          (continue_record-IsWalk config payload _ p started))
        (λ round h. finish-IsTlsOutcome key result payload round r h)

-- A payload that lies in the packet.
inside-IsTlsOutcome :
    (packet : Bytes) (decoded : PacketDecodeResult) (directions : Directions) (config : TlsOptions)
    (result : TlsConstrictResult)
    → length packet < u32_mod
    → result.output_len ≡ length packet
    → decoded.transport_payload_length ≢ 0
    → AllStates directions
    → decoded.transport_payload_offset + decoded.transport_payload_length ≤ length packet
    → Holds (IsTlsOutcome packet decoded) (
        subspan packet decoded.transport_payload_offset decoded.transport_payload_length
        >>= evaluate_payload directions decoded config result)
inside-IsTlsOutcome packet decoded directions config result small r p all inside =
    let offset = decoded.transport_payload_offset in
    let n = decoded.transport_payload_length in
    let size : length (take n (drop offset packet)) ≡ n =
      omega (arith, length-take n (drop offset packet), length-drop offset packet) in
    rw (subspan_lem packet offset n inside) (
      evaluate_payload-IsTlsOutcome packet decoded small inside directions config result _ r size
        (omega arith) all)

open_directions-AllStates :
    (directions : Directions) (decoded : PacketDecodeResult)
    → AllStates directions
    → AllStates (open_directions directions decoded)
unfolding open_directions
open_directions-AllStates directions decoded all =
    let once = AllStates-drop (make_direction_key decoded) directions all in
    ground (arith, AllStates-drop (make_reverse_key decoded) _ once)

-- With a packet of less than 2 ^ 32 bytes and a well-formed table, Evaluate reads inside of the
-- packet only, its loop ends, and its table stays well formed. Its length is the whole packet,
-- or, if and only if the disposition is AppDataPrefix, a shorter one that ends inside of the TCP
-- payload.
pub evaluate-IsTlsOutcome :
    (directions : Directions) (packet : Bytes) (decoded : PacketDecodeResult) (config : TlsOptions)
    → length packet < u32_mod
    → AllStates directions
    → Holds (IsTlsOutcome packet decoded) (evaluate directions packet decoded config)
unfolding evaluate
evaluate-IsTlsOutcome directions packet decoded config small all = ground (
  arith,
  open_directions-AllStates directions decoded all,
  has_bytes_iff packet decoded.transport_payload_offset decoded.transport_payload_length,
  inside-IsTlsOutcome packet decoded (open_directions directions decoded) config
      (record { disposition = no_record; output_len = length packet % u32_mod }) small,
)
