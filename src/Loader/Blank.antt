-- ===== src/Loader/Blank.antt =====
-- Lines that say nothing: empty ones, spaces and comments.
use pcap_constrictor_afpacke.Base.{
  ℕ, ◌+◌, ◌≡◌, refl, sym, subst, Option, none, some, List, [], ◌∷◌, ◌++◌, arith, ◌⊎◌, ◌≤◌, true,
  false, ◌==◌, ◌||◌, ap, ◌∙◌,
}
use pcap_constrictor_afpacke.Base.Result.{Result, ok, err}
use pcap_constrictor_afpacke.Bytes.{Bytes}
use pcap_constrictor_afpacke.Loader.Assign.{ConfigMessage}
use pcap_constrictor_afpacke.Loader.Lines.{
  LoadError, file_not_opened, file_not_read, at_line, ConfigLoadResult, Loader, read_cleaned,
  read_line, read_lines, validate, new_loader,
}
use pcap_constrictor_afpacke.Loader.Text.{
  is_space, cut_comment, trim_begin, trim_end, trim, strip_inline_comment,
}

-- An error without the number of its line.
abbrev pub unnumbered : Option LoadError → Option LoadError
unnumbered none = none
unnumbered (some file_not_opened) = some file_not_opened
unnumbered (some file_not_read) = some file_not_read
unnumbered (some (at_line n message)) = some (at_line 0 message)

-- The same configuration, and the same error up to the number of its line.
abbrev pub SaysTheSame : ConfigLoadResult → ConfigLoadResult → Type 0
SaysTheSame r s = (r.config ≡ s.config) × (unnumbered r.error ≡ unnumbered s.error)

read_lines-SaysTheSame :
    (n m : ℕ) (l : Loader) (lines : List Bytes)
    → SaysTheSame (read_lines n l lines) (read_lines m l lines)
unfolding read_lines
read_lines-SaysTheSame n m l [] = (refl, refl)
read_lines-SaysTheSame n m l (line ∷ lines) =
    by_result (read_line l line) (λ l'. read_lines-SaysTheSame (n + 1) (m + 1) l' lines)
  where
    by_result :
        (o : Result ConfigMessage Loader)
        → ((l' : Loader) → SaysTheSame (read_lines (n + 1) l' lines) (read_lines (m + 1) l' lines))
        → SaysTheSame
            (elim o [
              | err message ↦ record { config = l.config; error = some (at_line (n + 1) message) }
              | ok l' ↦ read_lines (n + 1) l' lines
            ])
            (elim o [
              | err message ↦ record { config = l.config; error = some (at_line (m + 1) message) }
              | ok l' ↦ read_lines (m + 1) l' lines
            ])
    by_result (err message) go_on = (refl, refl)
    by_result (ok l') go_on = go_on l'

read_line-blank :
    (l : Loader) (line : Bytes) → strip_inline_comment line ≡ [] → read_line l line ≡ ok l
unfolding read_line read_cleaned
read_line-blank l line h = rw h refl

read_lines-blank :
    (n : ℕ) (l : Loader) (before : List Bytes) (line : Bytes) (after : List Bytes)
    → strip_inline_comment line ≡ []
    → SaysTheSame (read_lines n l (before ++ line ∷ after)) (read_lines n l (before ++ after))
unfolding read_lines
read_lines-blank n l [] line after h =
    subst
      (λ o.
        SaysTheSame
          (elim o [
            | err message ↦ record { config = l.config; error = some (at_line (n + 1) message) }
            | ok l' ↦ read_lines (n + 1) l' after
          ])
          (read_lines n l after))
      (sym (read_line-blank l line h)) (read_lines-SaysTheSame (n + 1) n l after)
read_lines-blank n l (first ∷ before) line after h =
    by_result (read_line l first) (λ l'. read_lines-blank (n + 1) l' before line after h)
  where
    by_result :
        (o : Result ConfigMessage Loader)
        → ((l' : Loader)
            → SaysTheSame
                (read_lines (n + 1) l' (before ++ line ∷ after))
                (read_lines (n + 1) l' (before ++ after)))
        → SaysTheSame
            (elim o [
              | err message ↦ record { config = l.config; error = some (at_line (n + 1) message) }
              | ok l' ↦ read_lines (n + 1) l' (before ++ line ∷ after)
            ])
            (elim o [
              | err message ↦ record { config = l.config; error = some (at_line (n + 1) message) }
              | ok l' ↦ read_lines (n + 1) l' (before ++ after)
            ])
    by_result (err message) go_on = (refl, refl)
    by_result (ok l') go_on = go_on l'

-- The tests behind the loop are made in both cases or in none.
validate-SaysTheSame :
    (r s : ConfigLoadResult) → SaysTheSame r s → SaysTheSame (validate r) (validate s)
unfolding validate
validate-SaysTheSame r s h =
    subst (λ c. SaysTheSame (validate r) (validate (record { config = c; error = s.error }))) h.0
      (by_errors r.error s.error h.1)
  where
    by_errors :
        (e f : Option LoadError)
        → unnumbered e ≡ unnumbered f
        → SaysTheSame
            (validate (record { config = r.config; error = e }))
            (validate (record { config = r.config; error = f }))
    by_errors none none g = (refl, refl)
    by_errors none (some file_not_opened) g = absurd (ground (arith, g))
    by_errors none (some file_not_read) g = absurd (ground (arith, g))
    by_errors none (some (at_line n message)) g = absurd (ground (arith, g))
    by_errors (some e) (some f) g = (refl, g)
    by_errors (some file_not_opened) none g = absurd (ground (arith, g))
    by_errors (some file_not_read) none g = absurd (ground (arith, g))
    by_errors (some (at_line n message)) none g = absurd (ground (arith, g))

-- The white space of the C locale: a space, or one of the five control characters.
abbrev IsSpace : ℕ → Type 0
IsSpace c = (c ≡ 32) ⊎ ((9 ≤ c) × (c ≤ 13))

abbrev pub AreSpaces : Bytes → Type 0
AreSpaces [] = Unit {0}
AreSpaces (c ∷ cs) = IsSpace c × AreSpaces cs

-- Nothing at all, or a text that begins with `;` or `#`.
abbrev pub IsComment : Bytes → Type 0
IsComment [] = Unit {0}
IsComment (c ∷ cs) = (c ≡ b';') ⊎ (c ≡ b'#')

is_space-IsSpace : (c : ℕ) → IsSpace c → is_space c ≡ true
unfolding is_space
is_space-IsSpace c h = ground (arith, h)

cut_comment-spaces :
    (spaces comment : Bytes)
    → AreSpaces spaces
    → IsComment comment
    → cut_comment true (spaces ++ comment) ≡ spaces
unfolding cut_comment
cut_comment-spaces [] [] h k = refl
cut_comment-spaces [] (c ∷ cs) h k = ground (arith, k)
cut_comment-spaces (c ∷ spaces) comment h k =
    let space = is_space-IsSpace c h.0 in
    let rest = cut_comment-spaces spaces comment h.1 k in
    let plain : (c == b';' || c == b'#') ≡ false = ground (arith, h.0) in
    simp plain (simp space (simp rest refl))

trim_begin-spaces : (spaces : Bytes) → AreSpaces spaces → trim_begin spaces ≡ []
unfolding trim_begin
trim_begin-spaces [] h = refl
trim_begin-spaces (c ∷ spaces) h = simp (is_space-IsSpace c h.0) (trim_begin-spaces spaces h.1)

strip_inline_comment-blank :
    (spaces comment : Bytes)
    → AreSpaces spaces
    → IsComment comment
    → strip_inline_comment (spaces ++ comment) ≡ []
unfolding strip_inline_comment trim trim_end
strip_inline_comment-blank spaces comment h k =
    ap trim (cut_comment-spaces spaces comment h k) ∙ ap trim_end (trim_begin-spaces spaces h)

-- A line of white space only, or of white space and then a text that begins with a semicolon or
-- a number sign, may stand between any lines: with it and without it the loader gives the same
-- configuration, and the same error but for the number of its line, or none in both cases.
pub validate-read_lines-blank :
    (before : List Bytes) (spaces comment : Bytes) (after : List Bytes)
    → AreSpaces spaces
    → IsComment comment
    → SaysTheSame
        (validate (read_lines 0 new_loader (before ++ (spaces ++ comment) ∷ after)))
        (validate (read_lines 0 new_loader (before ++ after)))
validate-read_lines-blank before spaces comment after h k =
    validate-SaysTheSame (read_lines 0 new_loader (before ++ (spaces ++ comment) ∷ after))
      (read_lines 0 new_loader (before ++ after))
      (read_lines-blank 0 new_loader before (spaces ++ comment) after
        (strip_inline_comment-blank spaces comment h k))
