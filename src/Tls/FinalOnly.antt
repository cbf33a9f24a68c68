-- ===== src/Tls/FinalOnly.antt =====
-- The continuation policy `final_only`: an application data record that is spread over several
-- segments. README.md calls it so; the code is the block on `has_active_record` in
-- src/policy/TlsConstrictor.cpp.
use pcap_constrictor_afpacke.Base.{
  ℕ, ◌+◌, ◌-◌, ◌<◌, ◌≡◌, refl, true, false, Option, some, List, [], ◌∷◌, ◌++◌, arith, length,
  if◌then◌else◌, ltb, ◌>>=◌, ◌∙◌, map, find-insert_self,
}
use pcap_constrictor_afpacke.Bytes.{Bytes}
use pcap_constrictor_afpacke.Config.{TlsOptions}
use pcap_constrictor_afpacke.Decode.{PacketDecodeResult}
use pcap_constrictor_afpacke.Tls.Segment.{IsSegment, evaluate_segment, payload_size}
use pcap_constrictor_afpacke.Tls.{
  TlsConstrictResult, DirectionKey, DirectionState, Directions, put, app_data_prefix, no_record,
  no_application_data, continue_record, advance_tcp_seq, walk_records, resynchronize, start_walk,
  conclude, finish, evaluate_payload, evaluate, make_direction_key, DirectionKey-discrete,
}

-- The direction is in the middle of an application data record, and `decoded` is what follows.
pub record Awaits (s : DirectionState) (decoded : PacketDecodeResult) : Type 0 where
  pub active : s.has_active_record ≡ true
  pub constrictible : s.active_record_constrictible ≡ true
  pub synchronized : s.synchronized ≡ true
  pub in_order : decoded.tcp_seq ≡ s.expected_tcp_seq

-- The entry after `n` more bytes of the record, of which more are to come.
abbrev pub after_middle : DirectionState → PacketDecodeResult → DirectionState
after_middle s decoded = record s {
  active_record_remaining_bytes =
      s.active_record_remaining_bytes - decoded.transport_payload_length;
  expected_tcp_seq = advance_tcp_seq decoded.tcp_seq decoded.transport_payload_length;
}

-- The entry after the record's last byte.
abbrev pub after_final : DirectionState → PacketDecodeResult → DirectionState
after_final s decoded = record s {
  has_active_record = false;
  active_record_constrictible = false;
  active_record_content_type = 0;
  active_record_remaining_bytes = 0;
  expected_tcp_seq = advance_tcp_seq decoded.tcp_seq decoded.transport_payload_length;
}

-- The verdict on the last segment of the record.
abbrev pub final_result : TlsOptions → Bytes → PacketDecodeResult → TlsConstrictResult
final_result config packet decoded =
    if ltb config.app_data_continuation_keep_bytes decoded.transport_payload_length
    then record {
      disposition = app_data_prefix;
      output_len = decoded.transport_payload_offset + config.app_data_continuation_keep_bytes;
    }
    else record { disposition = no_application_data; output_len = length packet }

module _ (config : TlsOptions) (packet : Bytes) (decoded : PacketDecodeResult)
    (directions : Directions) (s : DirectionState) (segment : IsSegment packet decoded)
    (entry : directions (make_direction_key decoded) ≡ some s) (awaits : Awaits s decoded) where
  payload_middle :
      (payload : Bytes)
      → length payload ≡ decoded.transport_payload_length
      → decoded.transport_payload_length < s.active_record_remaining_bytes
      → evaluate_payload directions decoded config
          (record { disposition = no_record; output_len = length packet })
          payload
        ≡ some (
          record { disposition = no_application_data; output_len = length packet },
          put (make_direction_key decoded) (after_middle s decoded) directions,
        )
  unfolding evaluate_payload walk_records start_walk resynchronize continue_record finish conclude
  payload_middle payload e h = ground arith

  payload_final :
      (payload : Bytes)
      → length payload ≡ decoded.transport_payload_length
      → decoded.transport_payload_length ≡ s.active_record_remaining_bytes
      → evaluate_payload directions decoded config
          (record { disposition = no_record; output_len = length packet })
          payload
        ≡ some (
          final_result config packet decoded,
          put (make_direction_key decoded) (after_final s decoded) directions,
        )
  unfolding evaluate_payload walk_records start_walk resynchronize continue_record finish conclude
  payload_final payload e h = ground arith

  -- A segment that does not end the record is kept whole.
  evaluate_middle :
      decoded.transport_payload_length < s.active_record_remaining_bytes
      → evaluate directions packet decoded config
        ≡ some (
          record { disposition = no_application_data; output_len = length packet },
          put (make_direction_key decoded) (after_middle s decoded) directions,
        )
  evaluate_middle h =
      evaluate_segment config packet decoded directions segment
      ∙ payload_middle _ (payload_size packet decoded segment) h

  -- The segment that ends it is cut.
  evaluate_final :
      decoded.transport_payload_length ≡ s.active_record_remaining_bytes
      → evaluate directions packet decoded config
        ≡ some (
          final_result config packet decoded,
          put (make_direction_key decoded) (after_final s decoded) directions,
        )
  evaluate_final h =
      evaluate_segment config packet decoded directions segment
      ∙ payload_final _ (payload_size packet decoded segment) h

-- One `Evaluate` after another, as the policy makes the calls.
pub evaluate_all :
    TlsOptions
    → Directions
    → List (Bytes × PacketDecodeResult)
    → Option (List TlsConstrictResult × Directions)
evaluate_all config directions [] = some ([], directions)
evaluate_all config directions ((packet, decoded) ∷ rest) = do
  (result, directions') ← evaluate directions packet decoded config
  (results, last) ← evaluate_all config directions' rest
  some (result ∷ results, last)

-- Segments of one direction, each with the sequence number that follows the one before.
abbrev pub InOrder : DirectionKey → ℕ → List (Bytes × PacketDecodeResult) → Type 0
InOrder key seq [] = Unit {0}
InOrder key seq ((packet, decoded) ∷ rest) =
    IsSegment packet decoded
    × (make_direction_key decoded ≡ key)
    × (decoded.tcp_seq ≡ seq)
    × InOrder key (advance_tcp_seq seq decoded.transport_payload_length) rest

abbrev pub payload_bytes : List (Bytes × PacketDecodeResult) → ℕ
payload_bytes [] = 0
payload_bytes ((packet, decoded) ∷ rest) = decoded.transport_payload_length + payload_bytes rest

abbrev pub kept_whole : Bytes × PacketDecodeResult → TlsConstrictResult
kept_whole (packet, decoded) = record {
  disposition = no_application_data;
  output_len = length packet;
}

-- The table after the record: its entry is as before, with no record open.
abbrev pub Ended : DirectionKey → Directions → Type 0
Ended key m =
    (t : DirectionState) × (m key ≡ some t)
    × (t.has_active_record ≡ false)
    × (t.synchronized ≡ true)

last_filled :
    (key : DirectionKey) (seq : ℕ) (middles : List (Bytes × PacketDecodeResult)) (packet : Bytes)
    (decoded : PacketDecodeResult)
    → InOrder key seq (middles ++ (packet, decoded) ∷ [])
    → 0 < decoded.transport_payload_length
last_filled key seq [] packet decoded o = o.0.filled
last_filled key seq ((p, d) ∷ rest) packet decoded o =
    last_filled key (advance_tcp_seq seq d.transport_payload_length) rest packet decoded o.3

-- An application data record is open on a synchronised direction, and segments of less than 2 ^
-- 32 bytes without SYN and RST bring the rest of it in order, with the record's end at the end
-- of the last. Evaluate returns for each: every segment but the last is kept whole, the last is
-- cut to the configured number of bytes of its payload, or kept whole if it has no more, and no
-- record is open after it.
pub evaluate_all-final_only :
    (config : TlsOptions) (key : DirectionKey) (middles : List (Bytes × PacketDecodeResult))
    (packet : Bytes) (decoded : PacketDecodeResult) (directions : Directions) (s : DirectionState)
    → directions key ≡ some s
    → s.has_active_record ≡ true
    → s.active_record_constrictible ≡ true
    → s.synchronized ≡ true
    → InOrder key s.expected_tcp_seq (middles ++ (packet, decoded) ∷ [])
    → payload_bytes middles + decoded.transport_payload_length ≡ s.active_record_remaining_bytes
    → (m : Directions) × (evaluate_all config directions (middles ++ (packet, decoded) ∷ [])
        ≡ some (map kept_whole middles ++ final_result config packet decoded ∷ [], m))
      × Ended key m
unfolding evaluate_all
evaluate_all-final_only config key [] packet decoded directions s e a c y o n =
    let k = make_direction_key decoded in
    let awaits : Awaits s decoded = record {
      active = a;
      constrictible = c;
      synchronized = y;
      in_order = o.2;
    } in
    let step =
      evaluate_final config packet decoded directions s o.0 (rw o.1 e) awaits (omega arith) in
    let found = find-insert_self DirectionKey-discrete k (after_final s decoded) directions in
    (
      put k (after_final s decoded) directions,
      rw step,
      (after_final s decoded, rw (← o.1) found, refl, y),
    )
evaluate_all-final_only config key ((p, d) ∷ rest) packet decoded directions s e a c y o n =
    let k = make_direction_key d in
    let t = after_middle s d in
    let awaits : Awaits s d = record {
      active = a;
      constrictible = c;
      synchronized = y;
      in_order = o.2;
    } in
    let step =
      evaluate_middle config p d directions s o.0 (rw o.1 e) awaits
        (omega (arith, last_filled key _ rest packet decoded o.3)) in
    let found = find-insert_self DirectionKey-discrete k t directions in
    let (m, run, ended) =
      evaluate_all-final_only config key rest packet decoded (put k t directions) t
        (rw (← o.1) found) a c y (rw o.2 o.3) (omega arith) in
    (m, rw (step, run), ended)
