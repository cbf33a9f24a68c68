-- ===== src/Tls/LastRound.antt =====
-- The last round of the loop over records, and what a payload of records comes to.
use pcap_constrictor_afpacke.Base.{
  ℕ, suc, ◌+◌, ◌-◌, ◌≤◌, ◌<◌, ◌≡◌, refl, inl, inr, Bool, true, false, some, List, [], ◌∷◌, arith,
  length, if◌then◌else◌, ltb, min, Bool-cases, ◌==◌, ◌&&◌, ◌||◌, length-append,
}
use pcap_constrictor_afpacke.Bytes.{Bytes, u16_mod}
use pcap_constrictor_afpacke.Decode.{PacketDecodeResult}
use pcap_constrictor_afpacke.Tls.Records.{
  TlsRecord, encode_records, record_size, cut_point, IsGoing,
}
use pcap_constrictor_afpacke.Tls.{
  TlsConstrictResult, DirectionState, Directions, app_data_prefix, no_application_data,
  RecordHeader, read_tls_record_header, Context, Walk, leave, walk_round, on_header, on_record,
  accept_header, partial_record, clamped_keep_size, walk_records, make_direction_key,
  tls_application_data,
}

-- The entry of the packet's direction is ready for a record that starts with this segment.
pub record IsReady (directions : Directions) (decoded : PacketDecodeResult) (s : DirectionState)
    : Type 0 where
  pub entry : directions (make_direction_key decoded) ≡ some s
  pub idle : s.has_active_record ≡ false
  pub synchronized : s.synchronized ≡ true
  pub in_order : decoded.tcp_seq ≡ s.expected_tcp_seq

-- The result for a payload with application data that is to be cut at `cut`, if that saves anything.
abbrev pub verdict : Bytes → PacketDecodeResult → Bool → ℕ → TlsConstrictResult
verdict packet decoded app_data cut =
    if app_data && ltb cut decoded.transport_payload_length
    then record {
      disposition = app_data_prefix;
      output_len = decoded.transport_payload_offset + cut;
    }
    else record { disposition = no_application_data; output_len = length packet }

pub length-le-encode_records : (rs : List TlsRecord) → length rs ≤ length (encode_records rs)
length-le-encode_records [] = omega arith
length-le-encode_records (r ∷ rs) =
    omega (arith, length-append r.body (encode_records rs), length-le-encode_records rs)

pub cut_point-le :
    (keep limit offset candidate : ℕ) (rs : List TlsRecord)
    → candidate ≤ limit
    → offset + length (encode_records rs) ≤ limit
    → cut_point keep offset candidate rs ≤ limit
cut_point-le keep limit offset candidate [] h k = h
cut_point-le keep limit offset candidate (r ∷ rs) h k =
    let size = length-append r.body (encode_records rs) in
    elim (Bool-cases (r.content_type == tls_application_data)) [
      | inl e ↦
          rw e (cut_point-le keep limit (offset + record_size r) _ rs (omega arith) (omega arith))
      | inr e ↦ rw e (cut_point-le keep limit (offset + record_size r) candidate rs h (omega arith))
    ]

pub walk_records_end :
    (c : Context) (fuel : ℕ) (w : Walk)
    → length c.payload ≤ w.payload_offset
    → walk_records c (suc fuel) w ≡ some (leave w)
unfolding walk_records
walk_records_end c fuel w h = ground arith

-- A record of this type is open, `n` of its bytes are to come, from the sequence number `seq` on.
pub record Opened (t : DirectionState) (content_type n seq : ℕ) : Type 0 where
  pub active : t.has_active_record ≡ true
  pub synchronized : t.synchronized ≡ true
  pub constrictible : t.active_record_constrictible ≡ (content_type == tls_application_data)
  pub remaining : t.active_record_remaining_bytes ≡ n
  pub expected : t.expected_tcp_seq ≡ seq

-- The last round, at a header whose record reaches past the payload.
pub last_round :
    (c : Context) (fuel : ℕ) (w : Walk) (header : RecordHeader)
    → IsGoing w
    → read_tls_record_header c.payload w.payload_offset ≡ some (some header)
    → w.payload_offset < length c.payload
    → length c.payload - w.payload_offset < 5 + header.record_length
    → header.record_length < u16_mod
    → let last = partial_record c (accept_header c w header) header in
      let app_data = header.content_type == tls_application_data in
      (walk_records c (suc fuel) w ≡ some (leave last))
      × Opened last.state header.content_type
          (5 + header.record_length - (length c.payload - w.payload_offset))
          last.state.expected_tcp_seq
      × (last.has_candidate ≡ (app_data || w.has_candidate))
      × (last.candidate_payload_size ≡ (
          if app_data
          then w.payload_offset
            + min c.config.app_data_keep_record_bytes (length c.payload - w.payload_offset)
          else w.candidate_payload_size))
      × IsGoing last
      × (last.kept_middle_continuation ≡ w.kept_middle_continuation)
unfolding walk_records walk_round on_header on_record accept_header partial_record clamped_keep_size
last_round c fuel w header g e o h k = (
  ground arith,
  record {
    active = ground arith;
    synchronized = ground arith;
    constrictible = ground arith;
    remaining = ground arith;
    expected = refl;
  },
  ground arith,
  ground arith,
  record { synchronized = ground arith; certain = ground arith; kept = ground arith },
  ground arith,
)
