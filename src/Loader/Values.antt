-- ===== src/Loader/Values.antt =====
-- The parsers of values in src/config/ConfigLoader.cpp: `ParseBool`, `ParseUint32`, `ParsePorts`.
use pcap_constrictor_afpacke.Base.{
  ℕ, zero, suc, length, ◌+◌, ◌-◌, ◌*◌, Bool, true, false, ◌&&◌, ◌||◌, List, [], ◌∷◌, Option, none,
  some, ltb, leb, if◌then◌else◌, ◌>>=◌,
}
use pcap_constrictor_afpacke.Bytes.{Bytes, u32_mod, u64_mod}
use pcap_constrictor_afpacke.Config.{
  CaptureBackend, recvmsg, tpacket_v3, TlsAppDataContinuationPolicy, final_only, stream, bulk,
}
use pcap_constrictor_afpacke.Loader.Text.{codes, to_lower, text_eq, trim, split_at}

unfoldable pub parse_bool : Bytes → Option Bool
parse_bool value =
    let lowered = to_lower (trim value) in
    if text_eq lowered (codes "true") || text_eq lowered (codes "1")
    then some true
    else if text_eq lowered (codes "false") || text_eq lowered (codes "0")
    then some false
    else none

unfoldable pub parse_tls_app_data_continuation_policy : Bytes → Option TlsAppDataContinuationPolicy
parse_tls_app_data_continuation_policy value =
    let lowered = to_lower (trim value) in
    if text_eq lowered (codes "final_only")
    then some final_only
    else if text_eq lowered (codes "stream")
    then some stream
    else if text_eq lowered (codes "bulk")
    then some bulk
    else none

-- The branch of `AssignValue` on capture.backend.
unfoldable pub parse_backend : Bytes → Option CaptureBackend
parse_backend value =
    let lowered = to_lower (trim value) in
    if text_eq lowered (codes "recvmsg")
    then some recvmsg
    else if text_eq lowered (codes "tpacket_v3")
    then some tpacket_v3
    else none

unfoldable pub is_digit : ℕ → Bool
is_digit c = leb b'0' c && leb c b'9'

-- The digits at the front of a text by their value, and what stands behind them.
unfoldable pub read_digits : ℕ → Bytes → ℕ × Bytes
read_digits value [] = (value, [])
read_digits value (c ∷ cs) =
    if is_digit c then read_digits (value * 10 + (c - b'0')) cs else (value, c ∷ cs)

-- `std::from_chars` on an unsigned type with so many values: it wants a digit, takes all that
-- there are, and fails if their value is not one of the type.
unfoldable pub from_chars : ℕ → Bytes → Option (ℕ × Bytes)
from_chars limit [] = none
from_chars limit (c ∷ cs) =
    let (value, rest) = read_digits 0 (c ∷ cs) in
    if is_digit c && ltb value limit then some (value, rest) else none

abbrev pub at_end : Bytes → Bool
at_end [] = true
at_end (c ∷ cs) = false

unfoldable pub parse_uint : ℕ → Bytes → Option ℕ
parse_uint limit value = do
  (parsed_value, rest) ← from_chars limit (trim value)
  if at_end rest then some parsed_value else none

abbrev pub parse_uint32 : Bytes → Option ℕ
parse_uint32 = parse_uint u32_mod

abbrev pub parse_uint64 : Bytes → Option ℕ
parse_uint64 = parse_uint u64_mod

-- One token of a port list.
unfoldable pub parse_port : Bytes → Option ℕ
parse_port token = do
  parsed_port ← parse_uint32 (trim token)
  if ltb 65535 parsed_port then none else some parsed_port

-- The loop of `ParsePorts`: each round goes behind a comma, so the length and one more is fuel.
unfoldable pub parse_ports_from : ℕ → Bytes → Option (List ℕ)
parse_ports_from zero value = none
parse_ports_from (suc fuel) value = elim (split_at b',' value) [
  | none ↦ do port ← parse_port value; some (port ∷ [])
  | some (token, behind) ↦ do
    port ← parse_port token
    ports ← parse_ports_from fuel behind
    some (port ∷ ports)
]

unfoldable pub parse_ports : Bytes → Option (List ℕ)
parse_ports value = parse_ports_from (suc (length value)) value
