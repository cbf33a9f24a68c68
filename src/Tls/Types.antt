-- ===== src/Tls/Types.antt =====
-- src/policy/TlsConstrictor.hpp, and the functions in front of `Evaluate` in TlsConstrictor.cpp.
use pcap_constrictor_afpacke.Base.{
  ℕ, ◌+◌, ◌/◌, ◌%◌, min, Bool, false, not, ◌&&◌, ◌||◌, Option, none, some, ◌==◌, if◌then◌else◌,
  ◌>>=◌, KeyMap, insert, erase, ℕ_discrete,
}
use pcap_constrictor_afpacke.Bytes.{Bytes, u32_mod, has_bytes, read, read_be16}
use pcap_constrictor_afpacke.Decode.{PacketDecodeResult}

pub data TlsConstrictDisposition : Type 0 where
  no_record malformed no_application_data app_data_prefix uncertain_fallback :
      TlsConstrictDisposition

pub record TlsConstrictResult : Type 0 where
  pub disposition : TlsConstrictDisposition
  pub output_len : ℕ

pub record DirectionKey : Type 0 where
  pub src_ip : Bytes
  pub dst_ip : Bytes
  pub address_length : ℕ
  pub src_port : ℕ
  pub dst_port : ℕ

unfoldable pub DirectionKey-discrete : Discrete DirectionKey
unfolding ℕ_discrete
DirectionKey-discrete = hlevel ℕ_discrete

pub record DirectionState : Type 0 where
  pub confirmed_tls : Bool
  pub has_seen_application_data : Bool
  pub synchronized : Bool
  pub expected_tcp_seq : ℕ
  pub has_active_record : Bool
  pub active_record_content_type : ℕ
  pub active_record_remaining_bytes : ℕ
  pub active_record_constrictible : Bool

abbrev pub new_direction : DirectionState
new_direction = record {
  confirmed_tls = false;
  has_seen_application_data = false;
  synchronized = false;
  expected_tcp_seq = 0;
  has_active_record = false;
  active_record_content_type = 0;
  active_record_remaining_bytes = 0;
  active_record_constrictible = false;
}

-- `directions_`
abbrev pub Directions : Type 0
Directions = KeyMap DirectionKey DirectionState

abbrev pub put : DirectionKey → DirectionState → Directions → Directions
put = insert DirectionKey-discrete

abbrev pub drop_direction : DirectionKey → Directions → Directions
drop_direction = erase DirectionKey-discrete

abbrev pub tls_change_cipher_spec : ℕ
tls_change_cipher_spec = 0x14

abbrev pub tls_alert : ℕ
tls_alert = 0x15

abbrev pub tls_handshake : ℕ
tls_handshake = 0x16

abbrev pub tls_application_data : ℕ
tls_application_data = 0x17

unfoldable pub is_tls_content_type : ℕ → Bool
is_tls_content_type content_type =
    content_type == tls_change_cipher_spec
    || content_type == tls_alert
    || content_type == tls_handshake
    || content_type == tls_application_data

pub record RecordHeader : Type 0 where
  pub content_type : ℕ
  pub record_length : ℕ

-- The inner `none` is the source's `false`.
unfoldable pub read_tls_record_header : Bytes → ℕ → Option (Option RecordHeader)
read_tls_record_header payload offset = if not (has_bytes payload offset 5) then some none else do
  content_type ← read payload offset
  major ← read payload (offset + 1)
  if not (is_tls_content_type content_type) || not (major == 0x03) then some none else do
    record_length ← read_be16 payload (offset + 3)
    some (some (record { content_type = content_type; record_length = record_length }))

unfoldable pub advance_tcp_seq : ℕ → ℕ → ℕ
advance_tcp_seq seq payload_size = (seq + payload_size % u32_mod) % u32_mod

unfoldable pub clamped_keep_size : ℕ → ℕ → ℕ
clamped_keep_size configured available = min configured available

unfoldable pub make_direction_key : PacketDecodeResult → DirectionKey
make_direction_key decoded = record {
  src_ip = decoded.src_address;
  dst_ip = decoded.dst_address;
  address_length = decoded.address_length;
  src_port = decoded.src_port;
  dst_port = decoded.dst_port;
}

unfoldable pub make_reverse_key : PacketDecodeResult → DirectionKey
make_reverse_key decoded = record {
  src_ip = decoded.dst_address;
  dst_ip = decoded.src_address;
  address_length = decoded.address_length;
  src_port = decoded.dst_port;
  dst_port = decoded.src_port;
}

-- `tcp_flags & (kTcpFlagSyn | kTcpFlagRst)`, bits 1 and 2.
unfoldable pub is_syn_or_rst : ℕ → Bool
is_syn_or_rst tcp_flags = not (tcp_flags / 2 % 4 == 0)

unfoldable pub clear_active_record : DirectionState → DirectionState
clear_active_record state = record state {
  has_active_record = false;
  active_record_constrictible = false;
  active_record_content_type = 0;
  active_record_remaining_bytes = 0;
}

-- A sequence number that is not the expected one ends the synchronisation.
unfoldable pub resynchronize : DirectionState → ℕ → DirectionState
unfolding clear_active_record
resynchronize state tcp_seq =
    if state.synchronized && not (tcp_seq == state.expected_tcp_seq)
    then record (clear_active_record state) { synchronized = false; expected_tcp_seq = 0 }
    else state
