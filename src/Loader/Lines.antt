-- ===== src/Loader/Lines.antt =====
-- `LoadFromString` and `LoadFromFile` in src/config/ConfigLoader.cpp.
use pcap_constrictor_afpacke.Base.{
  ℕ, ◌+◌, ◌%◌, Bool, true, false, not, Option, none, some, List, [], ◌∷◌, ◌==◌, if◌then◌else◌,
}
use pcap_constrictor_afpacke.Base.Result.{Result, ok, err, ◌>>=◌}
use pcap_constrictor_afpacke.Bytes.{Bytes}
use pcap_constrictor_afpacke.Config.{PolicyConfig, CaptureOptions, default_config}
use pcap_constrictor_afpacke.Loader.Text.{trim, strip_inline_comment, split_at, get_lines}
use pcap_constrictor_afpacke.Loader.Assign.{
  ConfigMessage, unterminated_section, empty_section, expected_key_value, key_before_section,
  empty_key, empty_value, zero_snaplen, zero_max_capture_len, zero_ring_block_size,
  zero_ring_block_count, zero_ring_frame_size, block_size_not_multiple, assign_value, or_message,
}

-- `FormatError` puts the line's number before the message.
pub data LoadError : Type 0 where
  file_not_opened file_not_read : LoadError
  at_line : (line_number : ℕ) (message : ConfigMessage) → LoadError

pub record ConfigLoadResult : Type 0 where
  pub config : PolicyConfig
  pub error : Option LoadError

-- The configuration and the section that the loop has come to.
pub record Loader : Type 0 where
  pub config : PolicyConfig
  pub current_section : Bytes

abbrev pub is_empty : Bytes → Bool
is_empty [] = true
is_empty (c ∷ cs) = false

abbrev pub last_is : ℕ → Bytes → Bool
last_is ch [] = false
last_is ch (c ∷ []) = c == ch
last_is ch (c ∷ d ∷ cs) = last_is ch (d ∷ cs)

abbrev pub drop_last : Bytes → Bytes
drop_last [] = []
drop_last (c ∷ []) = []
drop_last (c ∷ d ∷ cs) = c ∷ drop_last (d ∷ cs)

-- A line that begins with `[`; `rest` is what stands behind that byte.
unfoldable pub enter_section : Loader → Bytes → Result ConfigMessage Loader
enter_section loader rest =
    if not (last_is b']' (b'[' ∷ rest))
    then err unterminated_section
    else (let section = trim (drop_last rest) in
        if is_empty section
        then err empty_section
        else ok (record loader { current_section = section }))

-- A line with a key and a value.
unfoldable pub read_key_value : Loader → Bytes → Result ConfigMessage Loader
read_key_value loader cleaned = do
  (before, after) ← or_message (split_at b'=' cleaned) expected_key_value
  if is_empty loader.current_section
      then err key_before_section
      else if is_empty (trim before)
      then err empty_key
      else if is_empty (trim after)
      then err empty_value
      else (do
        config ← assign_value loader.config loader.current_section (trim before) (trim after)
        ok (record loader { config = config }))

unfoldable pub read_cleaned : Loader → Bytes → Result ConfigMessage Loader
read_cleaned loader [] = ok loader
read_cleaned loader (c ∷ cs) =
    if c == b'[' then enter_section loader cs else read_key_value loader (c ∷ cs)

-- The body of the loop.
unfoldable pub read_line : Loader → Bytes → Result ConfigMessage Loader
read_line loader line = read_cleaned loader (strip_inline_comment line)

-- The loop; `line_number` is that of the line before.
unfoldable pub read_lines : ℕ → Loader → List Bytes → ConfigLoadResult
read_lines line_number loader [] = record { config = loader.config; error = none }
read_lines line_number loader (line ∷ lines) = elim (read_line loader line) [
  | err message ↦ record {
    config = loader.config;
    error = some (at_line (line_number + 1) message);
  }
  | ok loader' ↦ read_lines (line_number + 1) loader' lines
]

-- The tests behind the loop; `ValidateRingLayout` of the ring makes the last four of them too.
unfoldable pub ring_message : CaptureOptions → Option ConfigMessage
ring_message capture =
    if capture.ring_block_size == 0
    then some zero_ring_block_size
    else if capture.ring_block_count == 0
    then some zero_ring_block_count
    else if capture.ring_frame_size == 0
    then some zero_ring_frame_size
    else if not (capture.ring_block_size % capture.ring_frame_size == 0)
    then some block_size_not_multiple
    else none

unfoldable pub capture_message : CaptureOptions → Option ConfigMessage
capture_message capture =
    if capture.default_snaplen == 0
    then some zero_snaplen
    else if capture.max_capture_len == 0
    then some zero_max_capture_len
    else ring_message capture

unfoldable pub validate : ConfigLoadResult → ConfigLoadResult
validate result = elim result.error [
  | some e ↦ result
  | none ↦ elim (capture_message result.config.capture) [
    | none ↦ result
    | some message ↦ record result { error = some (at_line 0 message) }
  ]
]

abbrev pub new_loader : Loader
new_loader = record { config = default_config; current_section = [] }

-- `LoadFromString`
unfoldable pub load_from_string : Bytes → ConfigLoadResult
load_from_string text = validate (read_lines 0 new_loader (get_lines text))

-- What `std::ifstream` makes of the path.
pub data FileText : Type 0 where
  not_opened not_read : FileText
  whole : Bytes → FileText

-- `LoadFromFile`
unfoldable pub load_from_file : FileText → ConfigLoadResult
load_from_file not_opened = record { config = default_config; error = some file_not_opened }
load_from_file not_read = record { config = default_config; error = some file_not_read }
load_from_file (whole text) = load_from_string text
