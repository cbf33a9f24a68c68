-- ===== src/Loader/Result.antt =====
-- What `LoadFromString` gives for any text.
use pcap_constrictor_afpacke.Base.{
  ℕ, suc, ◌+◌, ◌%◌, ◌≤◌, ◌≡◌, ◌≢◌, refl, ◌⊎◌, inl, inr, Option, none, some, arith, List, [], ◌∷◌,
  length, if◌then◌else◌,
}
use pcap_constrictor_afpacke.Base.Result.{Result, ok, err, ◌>>=◌}
use pcap_constrictor_afpacke.Bytes.{Bytes}
use pcap_constrictor_afpacke.Config.{PolicyConfig, CaptureOptions}
use pcap_constrictor_afpacke.Loader.Assign.{
  ConfigMessage, assign_value, or_message, expected_key_value, key_before_section, empty_key,
  empty_value,
}
use pcap_constrictor_afpacke.Loader.Bounds.{
  WhenOk, IsConfig, default_config-IsConfig, assign_capture-IsConfig, assign_general-IsConfig,
  assign_tls-IsConfig, assign_quic-IsConfig, assign_stats-IsConfig,
}
use pcap_constrictor_afpacke.Loader.Lines.{
  is_empty, LoadError, file_not_opened, file_not_read, at_line, ConfigLoadResult, Loader, read_line,
  read_cleaned, enter_section, read_key_value, read_lines, capture_message, ring_message, validate,
  new_loader, load_from_string,
}
use pcap_constrictor_afpacke.Loader.Text.{to_lower, trim, split_at, strip_inline_comment, get_lines}

abbrev HasConfig : Loader → Type 0
HasConfig loader = IsConfig loader.config

assign_value-IsConfig :
    (c : PolicyConfig) (section key value : Bytes)
    → IsConfig c
    → WhenOk IsConfig (assign_value c section key value)
unfolding assign_value
assign_value-IsConfig c section key value h =
    let k = to_lower key in
    ground (
      arith,
      assign_capture-IsConfig c k value h,
      assign_general-IsConfig c k value h,
      assign_tls-IsConfig c k value h,
      assign_quic-IsConfig c k value h,
      assign_stats-IsConfig c k value h,
    )

read_key_value-HasConfig :
    (l : Loader) (cleaned : Bytes) → HasConfig l → WhenOk HasConfig (read_key_value l cleaned)
unfolding read_key_value
read_key_value-HasConfig l cleaned h = by_split (split_at b'=' cleaned)
  where
    by_split :
        (o : Option (Bytes × Bytes))
        → WhenOk HasConfig (do
          (before, after) ← or_message o expected_key_value
          if is_empty l.current_section
              then err key_before_section
              else if is_empty (trim before)
              then err empty_key
              else if is_empty (trim after)
              then err empty_value
              else (do
                config ← assign_value l.config l.current_section (trim before) (trim after)
                ok (record l { config = config })))
    by_split none = tt
    by_split (some (before, after)) =
        ground
          (arith, assign_value-IsConfig l.config l.current_section (trim before) (trim after) h)

read_line-HasConfig :
    (l : Loader) (line : Bytes) → HasConfig l → WhenOk HasConfig (read_line l line)
unfolding read_line
read_line-HasConfig l line h = of_cleaned (strip_inline_comment line)
  where
    of_cleaned : (cleaned : Bytes) → WhenOk HasConfig (read_cleaned l cleaned)
    of_cleaned [] = unfold read_cleaned in h
    of_cleaned (c ∷ cs) =
        unfold read_cleaned in
        unfold enter_section in ground (arith, read_key_value-HasConfig l (c ∷ cs) h)

-- The number of a line that an error names.
abbrev IsLineError : ℕ → ℕ → Option LoadError → Type 0
IsLineError first last none = Unit {0}
IsLineError first last (some file_not_opened) = ⊥
IsLineError first last (some file_not_read) = ⊥
IsLineError first last (some (at_line n message)) = (first ≤ n) × (n ≤ last)

read_lines_lem :
    (n : ℕ) (l : Loader) (lines : List Bytes)
    → HasConfig l
    → IsConfig (read_lines n l lines).config
      × IsLineError (n + 1) (n + length lines) (read_lines n l lines).error
unfolding read_lines
read_lines_lem n l [] h = (h, tt)
read_lines_lem n l (line ∷ lines) h =
    by_result (read_line l line) (read_line-HasConfig l line h)
      (λ l'. read_lines_lem (n + 1) l' lines)
  where
    by_result :
        (m : Result ConfigMessage Loader)
        → WhenOk HasConfig m
        → ((l' : Loader)
            → HasConfig l'
            → IsConfig (read_lines (n + 1) l' lines).config
              × IsLineError (n + 1 + 1) (n + 1 + length lines) (read_lines (n + 1) l' lines).error)
        → (let r : ConfigLoadResult = elim m [
          | err message ↦ record { config = l.config; error = some (at_line (n + 1) message) }
          | ok l' ↦ read_lines (n + 1) l' lines
        ] in
            IsConfig r.config × IsLineError (n + 1) (n + suc (length lines)) r.error)
    by_result (err message) good go_on = (h, (omega arith, omega arith))
    by_result (ok l') good go_on =
        let (config, line) = go_on l' good in
        (config, widen (read_lines (n + 1) l' lines).error line)
      where
        widen :
            (e : Option LoadError)
            → IsLineError (n + 1 + 1) (n + 1 + length lines) e
            → IsLineError (n + 1) (n + suc (length lines)) e
        widen none h = tt
        widen (some file_not_opened) h = elim h [ ]
        widen (some file_not_read) h = elim h [ ]
        widen (some (at_line k message)) h = (omega arith, omega arith)

-- A configuration that the program can run with.
pub record IsRunnable (c : CaptureOptions) : Type 0 where
  pub snaplen : c.default_snaplen ≢ 0
  pub max_len : c.max_capture_len ≢ 0
  pub block_size : c.ring_block_size ≢ 0
  pub block_count : c.ring_block_count ≢ 0
  pub frame_size : c.ring_frame_size ≢ 0
  pub multiple : c.ring_block_size % c.ring_frame_size ≡ 0

-- What `LoadFromString` promises of a text.
pub record IsLoaded (text : Bytes) (r : ConfigLoadResult) : Type 0 where
  pub config : IsConfig r.config
  pub error :
      (r.error ≡ none)
      ⊎ ((n : ℕ) × (message : ConfigMessage) × (r.error ≡ some (at_line n message))
          × (n ≤ length (get_lines text)))
  pub runnable : r.error ≡ none → IsRunnable r.config.capture
  pub tests_last :
      (message : ConfigMessage) → r.error ≡ some (at_line 0 message) → ¬ IsRunnable r.config.capture

capture_message-IsRunnable : (c : CaptureOptions) → capture_message c ≡ none → IsRunnable c
unfolding capture_message ring_message
capture_message-IsRunnable c h = ground arith

capture_message-not-IsRunnable :
    (c : CaptureOptions) (m : ConfigMessage) → capture_message c ≡ some m → ¬ IsRunnable c
unfolding capture_message ring_message
capture_message-not-IsRunnable c m h r =
    ground (arith, r.snaplen, r.max_len, r.block_size, r.block_count, r.frame_size, r.multiple)

validate-IsLoaded :
    (text : Bytes) (c : PolicyConfig) (e : Option LoadError)
    → IsConfig c
    → IsLineError 1 (length (get_lines text)) e
    → IsLoaded text (validate (record { config = c; error = e }))
unfolding validate
validate-IsLoaded text c (some file_not_opened) h line = absurd line
validate-IsLoaded text c (some file_not_read) h line = absurd line
validate-IsLoaded text c (some (at_line n message)) h line = record {
  config = h;
  error = inr (n, message, refl, omega arith);
  runnable = ground arith;
  tests_last = λ m e. absurd (ground (arith, line, e));
}
validate-IsLoaded text c none h line =
    by_message (capture_message c.capture) (capture_message-IsRunnable c.capture)
      (capture_message-not-IsRunnable c.capture)
  where
    by_message :
        (m : Option ConfigMessage)
        → (m ≡ none → IsRunnable c.capture)
        → ((message : ConfigMessage) → m ≡ some message → ¬ IsRunnable c.capture)
        → IsLoaded text (elim m [
          | none ↦ record { config = c; error = none }
          | some message ↦ record { config = c; error = some (at_line 0 message) }
        ])
    by_message none good bad = record {
      config = h;
      error = inl refl;
      runnable = λ e. good refl;
      tests_last = λ m e. absurd (ground (arith, e));
    }
    by_message (some message) good bad = record {
      config = h;
      error = inr (0, message, refl, omega arith);
      runnable = ground arith;
      tests_last = λ m e. bad message refl;
    }

-- For every text LoadFromString gives a configuration whose numbers and ports are in the range
-- of their types, with the continuation policy final_only, and no error or one that names a line
-- of the text or, for the tests behind the last line, line 0. Without an error the snaplen, the
-- maximal length and the sizes of the ring are not 0 and the block size is a multiple of the
-- frame size; with an error on line 0 one of these fails.
pub load_from_string-IsLoaded : (text : Bytes) → IsLoaded text (load_from_string text)
unfolding load_from_string
load_from_string-IsLoaded text =
    let (config, line) = read_lines_lem 0 new_loader (get_lines text) default_config-IsConfig in
    validate-IsLoaded text (read_lines 0 new_loader (get_lines text)).config
      (read_lines 0 new_loader (get_lines text)).error config
      (from_first (read_lines 0 new_loader (get_lines text)).error line)
  where
    from_first :
        (e : Option LoadError)
        → IsLineError (0 + 1) (0 + length (get_lines text)) e
        → IsLineError 1 (length (get_lines text)) e
    from_first none h = tt
    from_first (some file_not_opened) h = elim h [ ]
    from_first (some file_not_read) h = elim h [ ]
    from_first (some (at_line k message)) h = (omega arith, omega arith)
