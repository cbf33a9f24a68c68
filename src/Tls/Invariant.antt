-- ===== src/Tls/Invariant.antt =====
-- What `Evaluate` keeps true of its table of directions, and where it may cut a packet.
use pcap_constrictor_afpacke.Base.{
  ℕ, zero, suc, ◌+◌, ◌-◌, ◌≤◌, ◌<◌, ◌≡◌, refl, ◌⊎◌, inl, inr, true, false, not, ◌&&◌, ltb, Option,
  none, some, arith, length, Holds, Holds-bind, Bool-cases, ◌==◌, find_or, insert, erase,
}
use pcap_constrictor_afpacke.Bytes.{Bytes, u16_mod, u32_mod, has_bytes_iff, read_lem, read_be16_lem}
use pcap_constrictor_afpacke.Config.{TlsOptions}
use pcap_constrictor_afpacke.Tls.{
  DirectionKey, DirectionState, new_direction, Directions, put, drop_direction, RecordHeader,
  Context, read_tls_record_header, Walk, Round, next, leave, return_no_record, continue_record,
  on_record, on_bad_header, on_header, walk_round, walk_records, accept_header, partial_record,
  whole_record, tls_handshake, resynchronize, tls_application_data,
}

-- No record is open, or one is, with some of its bytes to come, and the direction is synchronised;
-- it may be cut exactly if it holds application data.
abbrev pub HasRecord : DirectionState → Type 0
HasRecord s =
    ((s.has_active_record ≡ false)
      × (s.active_record_remaining_bytes ≡ 0)
      × (s.active_record_content_type ≡ 0)
      × (s.active_record_constrictible ≡ false))
    ⊎ ((s.has_active_record ≡ true)
        × (s.synchronized ≡ true)
        × (0 < s.active_record_remaining_bytes)
        × (s.active_record_remaining_bytes < u16_mod + 5)
        × (s.active_record_constrictible ≡ (s.active_record_content_type == tls_application_data)))

pub record IsState (s : DirectionState) : Type 0 where
  pub active : HasRecord s
  pub seq_range : s.expected_tcp_seq < u32_mod

abbrev pub AllStates : Directions → Type 0
AllStates directions = (k : DirectionKey) (s : DirectionState) → directions k ≡ some s → IsState s

pub AllStates-put :
    (k : DirectionKey) (s : DirectionState) (m : Directions)
    → IsState s
    → AllStates m
    → AllStates (put k s m)
unfolding insert
AllStates-put k s m h all j t e = ground (arith, all j t)

pub AllStates-drop :
    (k : DirectionKey) (m : Directions) → AllStates m → AllStates (drop_direction k m)
unfolding erase
AllStates-drop k m all j t e = ground (arith, all j t)

entry-IsState :
    (o : Option DirectionState)
    → ((s : DirectionState) → o ≡ some s → IsState s)
    → IsState (find_or new_direction o)
entry-IsState none h = record { active = inl (refl, refl, refl, refl); seq_range = omega arith }
entry-IsState (some s) h = h s refl

pub find_or-IsState :
    (m : Directions) (k : DirectionKey) → AllStates m → IsState (find_or new_direction (m k))
find_or-IsState m k all = entry-IsState (m k) (all k)

pub record IsWalk (payload : Bytes) (w : Walk) : Type 0 where
  pub offset_inside : w.payload_offset ≤ length payload
  pub candidate_inside : w.candidate_payload_size ≤ length payload
  pub state_ok : IsState w.state
  pub directions_ok : AllStates w.directions

-- A round that goes on has read one record header at least.
abbrev pub IsRound : Bytes → ℕ → Round → Type 0
IsRound payload offset (next w) = IsWalk payload w × (offset + 5 ≤ w.payload_offset)
IsRound payload offset (leave w) = IsWalk payload w
IsRound payload offset (return_no_record directions) = AllStates directions

-- What the loop ends with.
abbrev pub IsEnd : Bytes → Round → Type 0
IsEnd payload (next w) = ⊥
IsEnd payload (leave w) = IsWalk payload w
IsEnd payload (return_no_record directions) = AllStates directions

pub resynchronize-IsState :
    (s : DirectionState) (tcp_seq : ℕ) → IsState s → IsState (resynchronize s tcp_seq)
unfolding resynchronize
resynchronize-IsState s tcp_seq h = ground arith

continue_record_directions :
    (config : TlsOptions) (payload : Bytes) (w : Walk)
    → (continue_record config payload w).directions ≡ w.directions
unfolding continue_record
continue_record_directions config payload w = ground arith

pub continue_record-IsWalk :
    (config : TlsOptions) (payload : Bytes) (w : Walk)
    → 0 < length payload
    → IsWalk payload w
    → IsWalk payload (continue_record config payload w)
unfolding continue_record
continue_record-IsWalk config payload w p h = record {
  offset_inside = ground arith;
  candidate_inside = ground arith;
  state_ok = ground arith;
  directions_ok = rw (continue_record_directions config payload w) h.directions_ok;
}

-- A header that was read lies in the payload.
abbrev pub IsHeader : Bytes → ℕ → Option RecordHeader → Type 0
IsHeader payload offset none = Unit {0}
IsHeader payload offset (some header) =
    (offset + 5 ≤ length payload) × (header.record_length < u16_mod)

pub read_tls_record_header-IsHeader :
    (payload : Bytes) (offset : ℕ)
    → Holds (IsHeader payload offset) (read_tls_record_header payload offset)
unfolding read_tls_record_header
read_tls_record_header-IsHeader payload offset = ground (
  arith,
  has_bytes_iff payload offset 5,
  read_lem payload offset,
  read_lem payload (offset + 1),
  read_be16_lem payload (offset + 3),
)

module _ (c : Context) where
  accept_header-IsWalk :
      (w : Walk) (header : RecordHeader)
      → IsWalk c.payload w
      → IsWalk c.payload (accept_header c w header)
  unfolding accept_header
  accept_header-IsWalk w header h = elim (Bool-cases (header.content_type == tls_handshake)) [
    | inl e ↦ rw e (record {
      offset_inside = h.offset_inside;
      candidate_inside = h.candidate_inside;
      state_ok = ground arith;
      directions_ok =
          AllStates-put c.reverse_key _ _
            (ground (arith, find_or-IsState w.directions c.reverse_key h.directions_ok))
            h.directions_ok;
    })
    | inr e ↦ rw e (record {
      offset_inside = h.offset_inside;
      candidate_inside = h.candidate_inside;
      state_ok = ground arith;
      directions_ok = h.directions_ok;
    })
  ]

  accept_header_synchronized :
      (w : Walk) (header : RecordHeader)
      → ((accept_header c w header).state.synchronized ≡ true)
        × ((accept_header c w header).payload_offset ≡ w.payload_offset)
  unfolding accept_header
  accept_header_synchronized w header = ground arith

  partial_record-IsWalk :
      (w : Walk) (header : RecordHeader)
      → IsWalk c.payload w
      → w.state.synchronized ≡ true
      → header.record_length < u16_mod
      → length c.payload - w.payload_offset < 5 + header.record_length
      → IsWalk c.payload (partial_record c w header)
  unfolding partial_record
  partial_record-IsWalk w header h e r k = record {
    offset_inside = ground arith;
    candidate_inside = ground arith;
    state_ok = ground arith;
    directions_ok = h.directions_ok;
  }

  whole_record-IsWalk :
      (w : Walk) (header : RecordHeader)
      → IsWalk c.payload w
      → w.payload_offset + (5 + header.record_length) ≤ length c.payload
      → IsWalk c.payload (whole_record c w header)
        × (w.payload_offset + 5 ≤ (whole_record c w header).payload_offset)
  unfolding whole_record
  whole_record-IsWalk w header h k = (
    record {
      offset_inside = ground arith;
      candidate_inside = ground arith;
      state_ok = ground arith;
      directions_ok = h.directions_ok;
    },
    ground arith,
  )

  on_record-IsRound :
      (w : Walk) (header : RecordHeader)
      → IsWalk c.payload w
      → header.record_length < u16_mod
      → IsRound c.payload w.payload_offset (on_record c w header)
  unfolding on_record
  on_record-IsRound w header h r =
      let a = accept_header c w header in
      ground (
        arith,
        accept_header_synchronized w header,
        partial_record-IsWalk a header (accept_header-IsWalk w header h),
        whole_record-IsWalk a header (accept_header-IsWalk w header h),
        AllStates-drop c.key w.directions h.directions_ok,
      )

  on_bad_header-IsRound :
      (w : Walk) → IsWalk c.payload w → IsRound c.payload w.payload_offset (on_bad_header c w)
  unfolding on_bad_header
  on_bad_header-IsRound w h = ground (
    arith,
    AllStates-drop c.key w.directions h.directions_ok,
    AllStates-put c.key w.state w.directions h.state_ok h.directions_ok,
  )

  on_header-IsRound :
      (w : Walk) (header : Option RecordHeader)
      → IsWalk c.payload w
      → IsHeader c.payload w.payload_offset header
      → IsRound c.payload w.payload_offset (on_header c w header)
  unfolding on_header
  on_header-IsRound w none h r = on_bad_header-IsRound w h
  on_header-IsRound w (some header) h r = on_record-IsRound w header h r.1

  walk_round-IsRound :
      (w : Walk) → IsWalk c.payload w → Holds (IsRound c.payload w.payload_offset) (walk_round c w)
  unfolding walk_round
  walk_round-IsRound w h =
      Holds-bind _ _ _ _ (read_tls_record_header-IsHeader c.payload w.payload_offset)
        (λ header r. on_header-IsRound w header h r)

  -- One round, and whatever makes the next ones.
  go_on-IsEnd :
      (offset : ℕ) (rest : Walk → Option Round)
      → ((w : Walk)
          → IsWalk c.payload w
          → offset + 5 ≤ w.payload_offset
          → Holds (IsEnd c.payload) (rest w))
      → (round : Round) → IsRound c.payload offset round
      → Holds (IsEnd c.payload) (elim round [
        | next w ↦ rest w
        | leave w ↦ some (leave w)
        | return_no_record directions ↦ some (return_no_record directions)
      ])
  go_on-IsEnd offset rest ih (next w) r = ih w r.0 r.1
  go_on-IsEnd offset rest ih (leave w) r = r
  go_on-IsEnd offset rest ih (return_no_record directions) r = r

  -- The loop ends within its fuel, and keeps the invariant.
  pub walk_records-IsEnd :
      (fuel : ℕ) (w : Walk)
      → length c.payload < w.payload_offset + fuel
      → IsWalk c.payload w
      → Holds (IsEnd c.payload) (walk_records c fuel w)
  unfolding walk_records
  walk_records-IsEnd zero w f h = absurd (omega arith)
  walk_records-IsEnd (suc fuel) w f h =
      elim (Bool-cases
        (not w.uncertain && not w.reset_direction && ltb w.payload_offset (length c.payload))) [
          | inl e ↦ rw e (
              Holds-bind _ _ _ _ (walk_round-IsRound w h) (
                go_on-IsEnd w.payload_offset (walk_records c fuel)
                  (λ w' h' k. walk_records-IsEnd fuel w' (omega arith) h')))
          | inr e ↦ rw e h
        ]
