-- ===== src/Tls/Records.antt =====
-- The loop over TLS records against a description of the payload as a list of records.
use pcap_constrictor_afpacke.Base.{
  ℕ, suc, ◌+◌, ◌/◌, ◌%◌, ◌≤◌, ◌<◌, ◌≡◌, refl, Bool, true, false, some, List, [], ◌∷◌, ◌++◌, arith,
  length, get_or-append, length-append, if◌then◌else◌, min, ◌∙◌, ◌==◌, ◌||◌, append_assoc, sym, ap,
}
use pcap_constrictor_afpacke.Bytes.{Bytes, byte_at, u16_mod, has_bytes_of, read_lem, read_be16_lem}
use pcap_constrictor_afpacke.Tls.{
  RecordHeader, Context, Walk, next, read_tls_record_header, is_tls_content_type, accept_header,
  whole_record, on_record, on_header, walk_round, walk_records, clamped_keep_size,
  tls_application_data,
}

-- A record as a sender writes it; `minor` is the second byte of the version.
pub record TlsRecord : Type 0 where
  pub content_type : ℕ
  pub minor : ℕ
  pub body : Bytes

abbrev pub record_header : ℕ → ℕ → ℕ → Bytes
record_header content_type minor n = content_type ∷ 3 ∷ minor ∷ n / 256 ∷ n % 256 ∷ []

abbrev pub encode_record : TlsRecord → Bytes
encode_record r = record_header r.content_type r.minor (length r.body) ++ r.body

abbrev pub encode_records : List TlsRecord → Bytes
encode_records [] = []
encode_records (r ∷ rs) = encode_record r ++ encode_records rs

pub record IsRecord (r : TlsRecord) : Type 0 where
  pub known : is_tls_content_type r.content_type ≡ true
  pub short : length r.body < u16_mod

abbrev pub AllRecords : List TlsRecord → Type 0
AllRecords [] = Unit {0}
AllRecords (r ∷ rs) = IsRecord r × AllRecords rs

-- A header at offset `n`, with anything before and after it.
pub read_tls_record_header-record_header :
    (before after : Bytes) (n content_type minor size : ℕ)
    → n ≡ length before
    → is_tls_content_type content_type ≡ true
    → size < u16_mod
    → read_tls_record_header (before ++ (record_header content_type minor size ++ after)) n
      ≡ some (some (record { content_type = content_type; record_length = size }))
unfolding read_tls_record_header
read_tls_record_header-record_header before after n content_type minor size e known short =
    let bytes : Bytes = before ++ (record_header content_type minor size ++ after) in
    let rest : Bytes = record_header content_type minor size ++ after in
    let at : (i : ℕ) → byte_at bytes (n + i) ≡ byte_at rest i =
      λ i. get_or-append (n + i) before rest i 0 (omega arith) in
    let big : n + 5 ≤ length bytes = omega (arith, length-append before rest) in
    ground (
      arith,
      has_bytes_of bytes n 5,
      get_or-append n before rest 0 0 (omega arith),
      at 1,
      at 3,
      get_or-append (n + 3 + 1) before rest 4 0 (omega arith),
      read_lem bytes n,
      read_lem bytes (n + 1),
      read_be16_lem bytes (n + 3),
    )

abbrev pub record_size : TlsRecord → ℕ
record_size r = 5 + length r.body

-- The loop goes on in such a walk.
pub record IsGoing (w : Walk) : Type 0 where
  pub synchronized : w.state.synchronized ≡ true
  pub certain : w.uncertain ≡ false
  pub kept : w.reset_direction ≡ false

-- Where the payload is to be cut: behind the first bytes of its last application data record.
abbrev pub cut_point : ℕ → ℕ → ℕ → List TlsRecord → ℕ
cut_point keep offset candidate [] = candidate
cut_point keep offset candidate (r ∷ rs) =
    cut_point keep (offset + record_size r)
      (if r.content_type == tls_application_data
        then offset + min keep (record_size r)
        else candidate)
      rs

abbrev pub any_app_data : List TlsRecord → Bool
any_app_data [] = false
any_app_data (r ∷ rs) = r.content_type == tls_application_data || any_app_data rs

-- The walk `w'` has gone on from `w` over the records `rs`.
pub record Passed (keep : ℕ) (rs : List TlsRecord) (w w' : Walk) : Type 0 where
  pub going : IsGoing w'
  pub candidate :
      w'.candidate_payload_size ≡ cut_point keep w.payload_offset w.candidate_payload_size rs
  pub found : w'.has_candidate ≡ (any_app_data rs || w.has_candidate)
  pub active : w'.state.has_active_record ≡ w.state.has_active_record
  pub middle : w'.kept_middle_continuation ≡ w.kept_middle_continuation

Passed-cons :
    (keep : ℕ) (r : TlsRecord) (rs : List TlsRecord) (w w1 w2 : Walk)
    → w1.payload_offset ≡ w.payload_offset + record_size r
    → Passed keep (r ∷ []) w w1
    → Passed keep rs w1 w2
    → Passed keep (r ∷ rs) w w2
Passed-cons keep r rs w w1 w2 moved p q = record {
  going = q.going;
  candidate = q.candidate ∙ rw (moved, p.candidate);
  found = ground arith;
  active = q.active ∙ p.active;
  middle = q.middle ∙ p.middle;
}

module _ (c : Context) where
  one_record :
      (before after : Bytes) (r : TlsRecord) (w : Walk)
      → c.payload ≡ before ++ (encode_record r ++ after)
      → w.payload_offset ≡ length before
      → IsRecord r
      → IsGoing w
      → (w' : Walk) × (walk_round c w ≡ some (next w'))
        × (w'.payload_offset ≡ w.payload_offset + record_size r)
        × Passed c.config.app_data_keep_record_bytes (r ∷ []) w w'
  unfolding walk_round on_header on_record accept_header whole_record clamped_keep_size
  one_record before after r w e o h g =
      let header : RecordHeader = record {
        content_type = r.content_type;
        record_length = length r.body;
      } in
      let bytes : Bytes = r.body ++ after in
      let read =
        read_tls_record_header-record_header before bytes w.payload_offset r.content_type r.minor
          (length r.body) o h.known h.short in
      let size : length c.payload ≡ length before + (5 + (length r.body + length after)) = rw e (
        omega
          (arith, length-append before (encode_record r ++ after), length-append r.body after)) in
      (
        whole_record c (accept_header c w header) header,
        ground (arith, read),
        ground arith,
        record {
          going = record {
            synchronized = ground arith;
            certain = ground arith;
            kept = ground arith;
          };
          candidate = ground arith;
          found = ground arith;
          active = ground arith;
          middle = ground arith;
        },
      )

  walk_records_step :
      (n fuel : ℕ) (w w' : Walk)
      → n ≡ suc fuel
      → IsGoing w
      → w.payload_offset < length c.payload
      → walk_round c w ≡ some (next w')
      → walk_records c n w ≡ walk_records c fuel w'
  unfolding walk_records
  walk_records_step n fuel w w' e g o h = rw e (ground arith)

  -- The rounds over whole records, whatever stands behind them.
  pub walk_records-append :
      (before after : Bytes) (rs : List TlsRecord) (fuel : ℕ) (w : Walk)
      → c.payload ≡ before ++ (encode_records rs ++ after)
      → w.payload_offset ≡ length before
      → AllRecords rs
      → IsGoing w
      → (w' : Walk) × (walk_records c (length rs + fuel) w ≡ walk_records c fuel w')
        × (w'.payload_offset ≡ length before + length (encode_records rs))
        × Passed c.config.app_data_keep_record_bytes rs w w'
  walk_records-append before after [] fuel w e o h g =
      let none_left : 0 + fuel ≡ fuel = omega arith in
      (
        w,
        ap (λ k. walk_records c k w) none_left,
        omega arith,
        record { going = g; candidate = refl; found = refl; active = refl; middle = refl },
      )
  walk_records-append before after (r ∷ rs) fuel w e o h g =
      let rest : Bytes = encode_records rs ++ after in
      let split : c.payload ≡ before ++ (encode_record r ++ rest) =
        e ∙ ap (◌++◌ before) (append_assoc (encode_record r) (encode_records rs) after) in
      let size : length c.payload ≡ length before + (5 + (length r.body + length rest)) = rw split (
        omega (arith, length-append before (encode_record r ++ rest), length-append r.body rest)) in
      let (w1, step, moved, p) = one_record before rest r w split o h.0 g in
      let offset1 : w1.payload_offset ≡ length (before ++ encode_record r) =
        omega (arith, length-append before (encode_record r)) in
      let (w2, run, end, q) =
        walk_records-append (before ++ encode_record r) after rs fuel w1
          (split ∙ sym (append_assoc before (encode_record r) rest)) offset1 h.1 p.going in
      let first : walk_records c (suc (length rs) + fuel) w ≡ walk_records c (length rs + fuel) w1 =
        walk_records_step _ _ w w1 (omega arith) g (omega arith) step in
      (
        w2,
        first ∙ run,
        omega (
          arith,
          length-append before (encode_record r),
          length-append (encode_record r) (encode_records rs),
        ),
        Passed-cons _ r rs w w1 w2 moved p q,
      )
