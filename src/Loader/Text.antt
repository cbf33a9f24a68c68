-- ===== src/Loader/Text.antt =====
-- The functions on text at the top of src/config/ConfigLoader.cpp. A text is its bytes; the
-- character classes are those of the C locale.
use Prim.Native.Char.{code}
use Prim.Native.String.{String}
use pcap_constrictor_afpacke.Base.{
  ℕ, ◌+◌, Bool, true, false, ◌&&◌, ◌||◌, List, [], ◌∷◌, Option, none, some, leb, ◌==◌,
  if◌then◌else◌, map,
}
use pcap_constrictor_afpacke.Bytes.{Bytes}

-- The bytes of a literal.
abbrev pub codes : String → Bytes
codes String.[] = []
codes (String.◌∷◌ c s) = code c ∷ codes s

-- `std::isspace`
unfoldable pub is_space : ℕ → Bool
is_space c = c == 32 || leb 9 c && leb c 13

-- `std::tolower`
unfoldable pub lower : ℕ → ℕ
lower c = if leb b'A' c && leb c b'Z' then c + 32 else c

unfoldable pub to_lower : Bytes → Bytes
to_lower text = map lower text

-- The equality of two texts.
unfoldable pub text_eq : Bytes → Bytes → Bool
text_eq [] [] = true
text_eq (x ∷ xs) (y ∷ ys) = x == y && text_eq xs ys
text_eq _ _ = false

-- The first loop of `Trim`, and the second.
unfoldable pub trim_begin : Bytes → Bytes
trim_begin [] = []
trim_begin (c ∷ cs) = let rest = trim_begin cs in if is_space c then rest else c ∷ cs

abbrev pub keep_before : ℕ → Bytes → Bytes
keep_before c [] = if is_space c then [] else c ∷ []
keep_before c (d ∷ ds) = c ∷ d ∷ ds

unfoldable pub trim_end : Bytes → Bytes
trim_end [] = []
trim_end (c ∷ cs) = keep_before c (trim_end cs)

unfoldable pub trim : Bytes → Bytes
trim text = trim_end (trim_begin text)

-- The loop of `StripInlineComment`: `after_space` says that the byte before is a space, or that
-- there is none.
unfoldable pub cut_comment : Bool → Bytes → Bytes
cut_comment after_space [] = []
cut_comment after_space (c ∷ cs) =
    if (c == b';' || c == b'#') && after_space then [] else c ∷ cut_comment (is_space c) cs

unfoldable pub strip_inline_comment : Bytes → Bytes
strip_inline_comment text = trim (cut_comment true text)

-- `text.find(ch)`: what stands before its first place, and behind it.
unfoldable pub split_at : ℕ → Bytes → Option (Bytes × Bytes)
split_at ch [] = none
split_at ch (c ∷ cs) =
    if c == ch
    then some ([], cs)
    else elim (split_at ch cs) [ none ↦ none | some (before, after) ↦ some (c ∷ before, after) ]

abbrev add_first : ℕ → List Bytes → List Bytes
add_first c [] = (c ∷ []) ∷ []
add_first c (piece ∷ pieces) = (c ∷ piece) ∷ pieces

-- `std::getline` up to the end of the text: the last line needs no newline behind it.
unfoldable pub get_lines : Bytes → List Bytes
get_lines [] = []
get_lines (c ∷ cs) = if c == 10 then [] ∷ get_lines cs else add_first c (get_lines cs)
