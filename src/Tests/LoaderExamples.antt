-- ===== src/Tests/LoaderExamples.antt =====
-- Texts of settings and what the loader makes of them.

use pcap_constrictor_afpacke.Loader.Digits.{decimal, parse_uint-decimal}
use pcap_constrictor_afpacke.Loader.Blank.{SaysTheSame, validate-read_lines-blank}
use pcap_constrictor_afpacke.Base.{◌≡◌, refl, [], ◌∷◌, none, some, ◌≤◌, ◌<◌, inl, ◌++◌}
use pcap_constrictor_afpacke.Bytes.{Bytes}
use pcap_constrictor_afpacke.Loader.{
  codes, load_from_string, validate, read_lines, parse_uint, new_loader,
}
use pcap_constrictor_afpacke.Loader.Result.{IsLoaded, load_from_string-IsLoaded}

abbrev pub settings : Bytes
settings =
    codes
      "[capture]\ninterface = lo ; local\nbackend = TPACKET_V3\nring_block_size = 64\nring_block_count = 1\nring_frame_size=64\nmax_packets = 2\n"

load_from_string-IsLoaded_example : IsLoaded settings (load_from_string settings)
load_from_string-IsLoaded_example = load_from_string-IsLoaded settings

validate-read_lines-blank_example :
    SaysTheSame
      (validate (
        read_lines 0 new_loader
          (codes "[tls]" ∷ (codes "  " ++ codes "; nothing") ∷ codes "enabled = false" ∷ [])))
      (validate (read_lines 0 new_loader (codes "[tls]" ∷ codes "enabled = false" ∷ [])))
validate-read_lines-blank_example =
    validate-read_lines-blank (codes "[tls]" ∷ []) (codes "  ") (codes "; nothing")
      (codes "enabled = false" ∷ []) (inl refl, (inl refl, tt)) (inl refl)

parse_uint-decimal_example :
    (443 < 4294967296 → parse_uint 4294967296 (decimal 443) ≡ some 443)
    × (4294967296 ≤ 443 → parse_uint 4294967296 (decimal 443) ≡ none)
parse_uint-decimal_example = parse_uint-decimal 4294967296 443
