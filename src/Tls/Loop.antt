-- ===== src/Tls/Loop.antt =====
-- The loop of `Evaluate` in src/policy/TlsConstrictor.cpp.
use pcap_constrictor_afpacke.Base.{
  ℕ, zero, suc, ◌+◌, ◌-◌, ◌%◌, Bool, true, not, ◌&&◌, ◌||◌, Option, none, some, ltb, ◌==◌,
  if◌then◌else◌, length, ◌>>=◌, find_or,
}
use pcap_constrictor_afpacke.Bytes.{Bytes, u32_mod}
use pcap_constrictor_afpacke.Config.{TlsOptions}
use pcap_constrictor_afpacke.Tls.Types.{
  DirectionKey, DirectionState, new_direction, Directions, put, drop_direction, tls_handshake,
  tls_application_data, RecordHeader, read_tls_record_header, clamped_keep_size,
  clear_active_record,
}

-- The local variables of `Evaluate`, with the entry and the map that they change together.
pub record Walk : Type 0 where
  pub state : DirectionState
  pub directions : Directions
  pub payload_offset : ℕ
  pub candidate_payload_size : ℕ
  pub has_candidate : Bool
  pub uncertain : Bool
  pub reset_direction : Bool
  pub kept_middle_continuation : Bool

-- The block on `state.has_active_record`: the payload goes on with a record that began earlier.
unfoldable pub continue_record : TlsOptions → Bytes → Walk → Walk
unfolding clear_active_record clamped_keep_size
continue_record config payload w =
    if not w.state.has_active_record
    then w
    else if ltb (length payload) w.state.active_record_remaining_bytes
    then record w {
      kept_middle_continuation = w.state.active_record_constrictible;
      state = record (w.state) {
        active_record_remaining_bytes = w.state.active_record_remaining_bytes - length payload;
      };
      payload_offset = length payload;
    }
    else if w.state.active_record_remaining_bytes == length payload
    then record w {
      candidate_payload_size =
          if w.state.active_record_constrictible
          then clamped_keep_size config.app_data_continuation_keep_bytes (length payload)
          else w.candidate_payload_size;
      has_candidate = w.state.active_record_constrictible || w.has_candidate;
      payload_offset = length payload;
      state = clear_active_record w.state;
    }
    else record w {
      payload_offset = w.state.active_record_remaining_bytes;
      reset_direction = w.state.active_record_constrictible;
      state = clear_active_record w.state;
    }

-- What one round of the loop does: go round again, leave the loop, or return `NoRecord`.
pub data Round : Type 0 where
  next : Walk → Round
  leave : Walk → Round
  return_no_record : Directions → Round

-- What stays the same during one call of `Evaluate`.
pub record Context : Type 0 where
  pub config : TlsOptions
  pub key : DirectionKey
  pub reverse_key : DirectionKey
  pub confirmed_tls : Bool
  pub payload : Bytes

-- The record reaches past the payload.
unfoldable pub partial_record : Context → Walk → RecordHeader → Walk
unfolding clamped_keep_size
partial_record c w header =
    let remaining_payload = length c.payload - w.payload_offset in
    let is_app_data = header.content_type == tls_application_data in
    record w {
      state = record (w.state) {
        has_seen_application_data = is_app_data || w.state.has_seen_application_data;
        has_active_record = true;
        active_record_content_type = header.content_type;
        active_record_remaining_bytes = (5 + header.record_length - remaining_payload) % u32_mod;
        active_record_constrictible = is_app_data;
      };
      candidate_payload_size =
          if is_app_data
          then w.payload_offset
            + clamped_keep_size c.config.app_data_keep_record_bytes remaining_payload
          else w.candidate_payload_size;
      has_candidate = is_app_data || w.has_candidate;
      payload_offset = length c.payload;
    }

-- The record lies in the payload.
unfoldable pub whole_record : Context → Walk → RecordHeader → Walk
unfolding clamped_keep_size
whole_record c w header =
    let record_total_size = 5 + header.record_length in
    let is_app_data = header.content_type == tls_application_data in
    record w {
      state = record (w.state) {
        has_seen_application_data = is_app_data || w.state.has_seen_application_data;
      };
      candidate_payload_size =
          if is_app_data
          then w.payload_offset
            + clamped_keep_size c.config.app_data_keep_record_bytes record_total_size
          else w.candidate_payload_size;
      has_candidate = is_app_data || w.has_candidate;
      payload_offset = w.payload_offset + record_total_size;
    }

-- A good header synchronises the direction; a handshake confirms TLS in both directions.
unfoldable pub accept_header : Context → Walk → RecordHeader → Walk
accept_header c w header =
    if header.content_type == tls_handshake
    then record w {
      state = record (w.state) { synchronized = true; confirmed_tls = true };
      directions =
          put c.reverse_key
            (record (find_or new_direction (w.directions c.reverse_key)) { confirmed_tls = true })
            w.directions;
    }
    else record w { state = record (w.state) { synchronized = true } }

unfoldable pub on_record : Context → Walk → RecordHeader → Round
on_record c w header =
    if not w.state.synchronized && not (header.content_type == tls_handshake) && not c.confirmed_tls
    then return_no_record (drop_direction c.key w.directions)
    else let a = accept_header c w header in
      if ltb (length c.payload - w.payload_offset) (5 + header.record_length)
      then leave (partial_record c a header)
      else next (whole_record c a header)

unfoldable pub on_bad_header : Context → Walk → Round
on_bad_header c w =
    if not w.state.synchronized
    then return_no_record (
        if not c.confirmed_tls
        then drop_direction c.key w.directions
        else put c.key w.state w.directions)
    else leave (record w { uncertain = true })

unfoldable pub on_header : Context → Walk → Option RecordHeader → Round
on_header c w none = on_bad_header c w
on_header c w (some header) = on_record c w header

unfoldable pub walk_round : Context → Walk → Option Round
walk_round c w = do
  header ← read_tls_record_header c.payload w.payload_offset
  some (on_header c w header)

-- The loop over the records of the payload, with the directions of an early return or the
-- walk at its end. A round that goes on moves the offset by five at least.
unfoldable pub walk_records : Context → ℕ → Walk → Option Round
walk_records c zero w = none
walk_records c (suc fuel) w =
    let rest = do
      round ← walk_round c w
      elim round [
        | next w' ↦ walk_records c fuel w'
        | leave w' ↦ some (leave w')
        | return_no_record directions ↦ some (return_no_record directions)
      ]
    in if not w.uncertain && not w.reset_direction && ltb w.payload_offset (length c.payload)
      then rest
      else some (leave w)
