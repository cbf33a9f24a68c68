-- ===== src/Loader/Bounds.antt =====
-- The ranges of the options that the loader gives.
use pcap_constrictor_afpacke.Base.{
  ℕ, zero, suc, ◌<◌, ◌≡◌, Option, none, some, arith, List, [], ◌∷◌, length, if◌then◌else◌, ◌>>=◌,
}
use pcap_constrictor_afpacke.Base.Result.{Result, ok, err}
use pcap_constrictor_afpacke.Bytes.{Bytes, u16_mod, u32_mod, u64_mod}
use pcap_constrictor_afpacke.Config.{PolicyConfig, default_config, final_only}
use pcap_constrictor_afpacke.Loader.Text.{split_at, trim}
use pcap_constrictor_afpacke.Loader.Values.{
  from_chars, at_end, parse_uint, parse_port, parse_ports_from, parse_ports,
}
use pcap_constrictor_afpacke.Loader.Assign.{
  assign_capture, assign_general, assign_tls, only_final, assign_quic, assign_stats,
}

-- What is there satisfies `P`.
abbrev pub WhenSome {ℓ} : {A : Type ℓ} → (A → Type 0) → Option A → Type 0
WhenSome P none = Unit {0}
WhenSome P (some a) = P a

abbrev pub WhenOk {ℓ κ} : {E : Type ℓ} {A : Type κ} → (A → Type 0) → Result E A → Type 0
WhenOk P (err e) = Unit {0}
WhenOk P (ok a) = P a

abbrev pub AllPorts : List ℕ → Type 0
AllPorts [] = Unit {0}
AllPorts (p ∷ ports) = (p < u16_mod) × AllPorts ports

WhenSome-bind {ℓ κ} :
    {A : Type ℓ} {B : Type κ} (P : A → Type 0) (Q : B → Type 0) (m : Option A) (f : A → Option B)
    → WhenSome P m
    → ((a : A) → P a → WhenSome Q (f a))
    → WhenSome Q (m >>= f)
WhenSome-bind P Q none f h k = tt
WhenSome-bind P Q (some a) f h k = k a h

parse_uint-lt : (limit : ℕ) (value : Bytes) → WhenSome (λ n. n < limit) (parse_uint limit value)
unfolding parse_uint
parse_uint-lt limit value = from_text (trim value)
  where
    from_text :
        (text : Bytes)
        → WhenSome
            (λ n. n < limit)
            (do
              (parsed_value, rest) ← from_chars limit text
              if at_end rest then some parsed_value else none)
    from_text [] = unfold from_chars in tt
    from_text (c ∷ cs) = unfold from_chars in ground arith

parse_port-lt : (token : Bytes) → WhenSome (λ n. n < u16_mod) (parse_port token)
unfolding parse_port
parse_port-lt token = ground arith

parse_ports_from-AllPorts :
    (fuel : ℕ) (value : Bytes) → WhenSome AllPorts (parse_ports_from fuel value)
unfolding parse_ports_from
parse_ports_from-AllPorts zero value = tt
parse_ports_from-AllPorts (suc fuel) value =
    by_split (split_at b',' value) (parse_ports_from-AllPorts fuel)
  where
    by_split :
        (o : Option (Bytes × Bytes))
        → ((behind : Bytes) → WhenSome AllPorts (parse_ports_from fuel behind))
        → WhenSome AllPorts (elim o [
          | none ↦ do port ← parse_port value; some (port ∷ [])
          | some (token, behind) ↦ do
            port ← parse_port token
            ports ← parse_ports_from fuel behind
            some (port ∷ ports)
        ])
    by_split none go_on =
        WhenSome-bind (λ n. n < u16_mod) AllPorts (parse_port value) _ (parse_port-lt value)
          (λ port h. (h, tt))
    by_split (some (token, behind)) go_on =
        WhenSome-bind (λ n. n < u16_mod) AllPorts (parse_port token) _ (parse_port-lt token)
          (λ port h.
            WhenSome-bind AllPorts AllPorts (parse_ports_from fuel behind) _ (go_on behind)
              (λ ports all. (h, all)))

parse_ports-AllPorts : (value : Bytes) → WhenSome AllPorts (parse_ports value)
unfolding parse_ports
parse_ports-AllPorts value = parse_ports_from-AllPorts (suc (length value)) value

-- Every number fits its field, and the continuation policy is the one that is supported.
pub record IsConfig (c : PolicyConfig) : Type 0 where
  pub min_saved : c.general.min_saved_bytes_per_packet < u32_mod
  pub snaplen : c.capture.default_snaplen < u32_mod
  pub max_len : c.capture.max_capture_len < u32_mod
  pub max_packets : c.capture.max_packets < u64_mod
  pub duration : c.capture.duration_sec < u64_mod
  pub block_size : c.capture.ring_block_size < u32_mod
  pub block_count : c.capture.ring_block_count < u32_mod
  pub frame_size : c.capture.ring_frame_size < u32_mod
  pub timeout : c.capture.block_timeout_ms < u32_mod
  pub tls_ports : AllPorts c.tls.ports
  pub keep_record : c.tls.app_data_keep_record_bytes < u32_mod
  pub keep_continuation : c.tls.app_data_continuation_keep_bytes < u32_mod
  pub policy : c.tls.app_data_continuation_policy ≡ final_only
  pub quic_ports : AllPorts c.quic.ports
  pub keep_short : c.quic.short_header_keep_packet_bytes < u32_mod

pub default_config-IsConfig : IsConfig default_config
default_config-IsConfig = ground arith

module _ (c : PolicyConfig) (key value : Bytes) (h : IsConfig c) where
  pub assign_capture-IsConfig : WhenOk IsConfig (assign_capture c key value)
  unfolding assign_capture
  assign_capture-IsConfig = ground (arith, parse_uint-lt u32_mod value, parse_uint-lt u64_mod value)

  pub assign_general-IsConfig : WhenOk IsConfig (assign_general c key value)
  unfolding assign_general
  assign_general-IsConfig = ground (arith, parse_uint-lt u32_mod value)

  pub assign_tls-IsConfig : WhenOk IsConfig (assign_tls c key value)
  unfolding assign_tls only_final
  assign_tls-IsConfig = ground (arith, parse_uint-lt u32_mod value, parse_ports-AllPorts value)

  pub assign_quic-IsConfig : WhenOk IsConfig (assign_quic c key value)
  unfolding assign_quic
  assign_quic-IsConfig = ground (arith, parse_uint-lt u32_mod value, parse_ports-AllPorts value)

  pub assign_stats-IsConfig : WhenOk IsConfig (assign_stats c key value)
  unfolding assign_stats
  assign_stats-IsConfig = ground arith
