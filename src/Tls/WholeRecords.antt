-- ===== src/Tls/WholeRecords.antt =====
-- A segment on a synchronised direction with no open record, seen as a list of TLS records, the last
-- of which may go on in later segments.
use pcap_constrictor_afpacke.Base.{
  ℕ, suc, ◌+◌, ◌-◌, ◌≤◌, ◌<◌, ◌≡◌, refl, sym, ap, Bool, true, false, some, List, [], ◌++◌, arith,
  length, if◌then◌else◌, min, ◌>>=◌, ◌∙◌, ◌==◌, ◌||◌, append-nil, length-append, find-insert_self,
}
use pcap_constrictor_afpacke.Bytes.{Bytes, u16_mod}
use pcap_constrictor_afpacke.Config.{TlsOptions}
use pcap_constrictor_afpacke.Decode.{PacketDecodeResult}
use pcap_constrictor_afpacke.Tls.Records.{
  TlsRecord, encode_records, AllRecords, cut_point, any_app_data, IsGoing, Passed,
  walk_records-append, record_header, read_tls_record_header-record_header,
}
use pcap_constrictor_afpacke.Tls.Segment.{IsSegment, payload_of, evaluate_segment, payload_size}
use pcap_constrictor_afpacke.Tls.{
  TlsConstrictResult, DirectionState, Directions, no_record, RecordHeader, read_tls_record_header,
  Context, Walk, leave, continue_record, advance_tcp_seq, accept_header, partial_record,
  is_tls_content_type, walk_records, resynchronize, start_walk, conclude, finish, evaluate_payload,
  evaluate, make_direction_key, make_reverse_key, DirectionKey-discrete, tls_application_data,
}
use pcap_constrictor_afpacke.Tls.LastRound.{
  IsReady, verdict, length-le-encode_records, cut_point-le, walk_records_end, Opened, last_round,
}

module _ (config : TlsOptions) (packet : Bytes) (decoded : PacketDecodeResult)
    (directions : Directions) (s : DirectionState) (segment : IsSegment packet decoded)
    (ready : IsReady directions decoded s) where
  abbrev context : Context
  context = record {
    config = config;
    key = make_direction_key decoded;
    reverse_key = make_reverse_key decoded;
    confirmed_tls = s.confirmed_tls;
    payload = payload_of packet decoded;
  }

  abbrev start : Walk
  start = record {
    state = s;
    directions = directions;
    payload_offset = 0;
    candidate_payload_size = decoded.transport_payload_length;
    has_candidate = false;
    uncertain = false;
    reset_direction = false;
    kept_middle_continuation = false;
  }

  -- The walk starts from the entry as it is.
  evaluate_ready : evaluate directions packet decoded config ≡ (
      walk_records context (suc (length (payload_of packet decoded))) start >>= λ round. some (
        finish decoded
          (make_direction_key decoded)
          (record { disposition = no_record; output_len = length packet })
          round))
  unfolding evaluate_payload start_walk resynchronize continue_record
  evaluate_ready = evaluate_segment config packet decoded directions segment ∙ ground arith

  conclude-verdict :
      (w : Walk) (app_data : Bool)
      → IsGoing w
      → w.kept_middle_continuation ≡ false
      → w.has_candidate ≡ app_data
      → w.candidate_payload_size ≤ decoded.transport_payload_length
      → (conclude decoded
          (make_direction_key decoded)
          (record { disposition = no_record; output_len = length packet })
          w).0
        ≡ verdict packet decoded app_data w.candidate_payload_size
  unfolding conclude
  conclude-verdict w app_data g k e i =
      let inside = segment.inside in let small = segment.small in ground arith

  conclude_entry :
      (result : TlsConstrictResult) (w : Walk)
      → IsGoing w
      → (conclude decoded (make_direction_key decoded) result w).1 (make_direction_key decoded)
        ≡ some (record (w.state) {
          expected_tcp_seq = advance_tcp_seq decoded.tcp_seq decoded.transport_payload_length;
        })
  unfolding conclude
  conclude_entry result w g = ground (
    arith,
    find-insert_self DirectionKey-discrete (make_direction_key decoded)
        (record (w.state) {
          expected_tcp_seq = advance_tcp_seq decoded.tcp_seq decoded.transport_payload_length;
        })
        w.directions,
  )

  -- The walk over whole records, up to what stands behind them.
  walk_to_rest :
      (rs : List TlsRecord) (rest : Bytes)
      → payload_of packet decoded ≡ encode_records rs ++ rest
      → AllRecords rs
      → (w : Walk) × (fuel : ℕ) × (walk_records context
            (suc (length (payload_of packet decoded)))
            start
          ≡ walk_records context (suc fuel) w)
        × (w.payload_offset ≡ length (encode_records rs))
        × (length rest ≤ fuel)
        × Passed config.app_data_keep_record_bytes rs start w
  walk_to_rest rs rest e h =
      let n = length (payload_of packet decoded) in
      let few = length-le-encode_records rs in
      let size : n ≡ length (encode_records rs) + length rest =
        rw e (length-append (encode_records rs) rest) in
      let fuel : ℕ = n - length rs in
      let split : suc n ≡ length rs + suc fuel = omega arith in
      let (w, run, offset, passed) =
        walk_records-append context [] rest rs (suc fuel) start e refl h
          (record { synchronized = ready.synchronized; certain = refl; kept = refl }) in
      (
        w,
        fuel,
        ap (λ k. walk_records context k start) split ∙ run,
        omega arith,
        omega arith,
        passed,
      )

  -- A segment of less than 2 ^ 32 bytes without SYN and RST, in order on a synchronised
  -- direction with no open record, whose payload is a list of whole TLS records: Evaluate
  -- returns, and cuts behind the configured first bytes of the last application data record,
  -- with what stands behind that record; it keeps the packet whole if there is no such record or
  -- the cut would save nothing.
  pub evaluate_whole_records :
      (rs : List TlsRecord)
      → payload_of packet decoded ≡ encode_records rs
      → AllRecords rs
      → (o : TlsConstrictResult × Directions) × (evaluate directions packet decoded config ≡ some o)
        × (o.0
            ≡ verdict packet decoded
                (any_app_data rs)
                (cut_point config.app_data_keep_record_bytes 0 decoded.transport_payload_length rs))
  unfolding finish
  evaluate_whole_records rs e h =
      let (w, fuel, run, offset, room, passed) =
        walk_to_rest rs [] (e ∙ sym (append-nil (encode_records rs))) h in
      let size = payload_size packet decoded segment in
      let full : length (encode_records rs) ≡ decoded.transport_payload_length = rw (← e) size in
      let at_end : walk_records context (suc fuel) w ≡ some (leave w) =
        walk_records_end context fuel w (omega arith) in
      let bound =
        cut_point-le config.app_data_keep_record_bytes decoded.transport_payload_length 0
          decoded.transport_payload_length rs (omega arith) (omega arith) in
      (
        finish decoded (make_direction_key decoded)
            (record { disposition = no_record; output_len = length packet }) (leave w),
        evaluate_ready ∙ rw (run, at_end),
        conclude-verdict w (any_app_data rs) passed.going passed.middle
              (ground (arith, passed.found)) (rw passed.candidate bound)
            ∙ ap (verdict packet decoded (any_app_data rs)) passed.candidate,
      )

  -- A segment of less than 2 ^ 32 bytes without SYN and RST, in order on a synchronised
  -- direction with no open record, whose payload is a list of whole TLS records followed by the
  -- header of one more and a part of its body that is not all of it, its content type a known
  -- one and its size under 2 ^ 16: Evaluate returns; it cuts in that record if it holds
  -- application data, else in the last whole application data record, if a cut saves anything;
  -- and the direction then has that record open, with the rest of it to come from the next
  -- sequence number on.
  pub evaluate_partial_record :
      (rs : List TlsRecord) (content_type minor size : ℕ) (body : Bytes)
      → payload_of packet decoded
        ≡ encode_records rs ++ (record_header content_type minor size ++ body)
      → AllRecords rs
      → is_tls_content_type content_type ≡ true
      → size < u16_mod
      → length body < size
      → (o : TlsConstrictResult × Directions) × (t : DirectionState) × (evaluate directions packet
            decoded config
          ≡ some o)
        × (o.0
            ≡ verdict packet decoded (content_type == tls_application_data || any_app_data rs) (
                if content_type == tls_application_data
                then length (encode_records rs)
                  + min config.app_data_keep_record_bytes (5 + length body)
                else cut_point config.app_data_keep_record_bytes 0 decoded.transport_payload_length
                    rs))
        × (o.1 (make_direction_key decoded) ≡ some t)
        × Opened t content_type
            (size - length body)
            (advance_tcp_seq decoded.tcp_seq decoded.transport_payload_length)
  unfolding finish
  evaluate_partial_record rs content_type minor size body e h known short more =
      let rest : Bytes = record_header content_type minor size ++ body in
      let (w, fuel, run, offset, room, passed) = walk_to_rest rs rest e h in
      let n = payload_size packet decoded segment in
      let total : length (payload_of packet decoded)
          ≡ length (encode_records rs) + (5 + length body) =
        rw e (omega (arith, length-append (encode_records rs) rest)) in
      let header : RecordHeader = record { content_type = content_type; record_length = size } in
      let last = partial_record context (accept_header context w header) header in
      let read : read_tls_record_header (payload_of packet decoded) w.payload_offset
          ≡ some (some header) =
        rw e (
          read_tls_record_header-record_header (encode_records rs) body w.payload_offset
            content_type minor size offset known short) in
      let (stop, opened, found, candidate, going, middle) =
        last_round context fuel w header passed.going read (omega arith) (omega arith) short in
      let bound =
        cut_point-le config.app_data_keep_record_bytes decoded.transport_payload_length 0
          decoded.transport_payload_length rs (omega arith) (omega arith) in
      let result : TlsConstrictResult = record {
        disposition = no_record;
        output_len = length packet;
      } in
      let cut : last.candidate_payload_size ≡ (
          if content_type == tls_application_data
          then length (encode_records rs) + min config.app_data_keep_record_bytes (5 + length body)
          else cut_point config.app_data_keep_record_bytes 0 decoded.transport_payload_length rs) =
        ground (arith, passed.candidate) in
      (
        finish decoded (make_direction_key decoded) result (leave last),
        record (last.state) {
          expected_tcp_seq = advance_tcp_seq decoded.tcp_seq decoded.transport_payload_length;
        },
        evaluate_ready ∙ rw (run, stop),
        conclude-verdict last (content_type == tls_application_data || any_app_data rs) going
              (middle ∙ passed.middle) (ground (arith, passed.found)) (rw cut (ground arith))
            ∙ ap (verdict packet decoded (content_type == tls_application_data || any_app_data rs))
                cut,
        conclude_entry result last going,
        record {
          active = opened.active;
          synchronized = opened.synchronized;
          constrictible = opened.constrictible;
          remaining = omega (arith, opened.remaining);
          expected = refl;
        },
      )
