-- ===== src/Loader/Digits.antt =====
-- Numbers that are written in decimal digits, through ParseUint32 and ParseUint64.
use pcap_constrictor_afpacke.Base.{
  ℕ, zero, suc, ◌+◌, ◌-◌, ◌*◌, ◌/◌, ◌%◌, ◌≤◌, ◌<◌, ◌≡◌, refl, ap, ◌∙◌, arith, Bool, true, false,
  Option, none, some, ◌>>=◌, [], ◌∷◌, ◌++◌, ltb, if◌then◌else◌, if-elim, length, length-append,
}
use pcap_constrictor_afpacke.Bytes.{Bytes}
use pcap_constrictor_afpacke.Loader.Text.{is_space, trim_begin, keep_before, trim_end, trim}
use pcap_constrictor_afpacke.Loader.Values.{is_digit, read_digits, from_chars, at_end, parse_uint}

-- The decimal digits of a number; a number has fewer digits than its value and one more.
abbrev pub decimal_from : ℕ → ℕ → Bytes
decimal_from zero n = []
decimal_from (suc fuel) n =
    let front = decimal_from fuel (n / 10) in (if ltb n 10 then [] else front) ++ (48 + n % 10) ∷ []

abbrev pub decimal : ℕ → Bytes
decimal n = decimal_from (suc n) n

abbrev AllDigits : Bytes → Type 0
AllDigits [] = Unit {0}
AllDigits (c ∷ cs) = (48 ≤ c) × (c ≤ 57) × AllDigits cs

AllDigits-append : (xs ys : Bytes) → AllDigits xs → AllDigits ys → AllDigits (xs ++ ys)
AllDigits-append [] ys h g = g
AllDigits-append (c ∷ xs) ys h g = (h.0, h.1, AllDigits-append xs ys h.2 g)

-- One more digit at the end.
read_digits-append :
    (value w : ℕ) (xs : Bytes) (d : ℕ)
    → d < 10
    → read_digits value xs ≡ (w, [])
    → read_digits value (xs ++ (48 + d) ∷ []) ≡ (w * 10 + d, [])
unfolding read_digits is_digit
read_digits-append value w [] d lt h = ground (arith, lt, h)
read_digits-append value w (c ∷ xs) d lt h =
    by_digit (is_digit c) (λ v g. read_digits-append v w xs d lt g) h
  where
    by_digit :
        (b : Bool)
        → ((v : ℕ)
            → read_digits v xs ≡ (w, [])
            → read_digits v (xs ++ (48 + d) ∷ []) ≡ (w * 10 + d, []))
        → (if b then read_digits (value * 10 + (c - 48)) xs else (value, c ∷ xs)) ≡ (w, [])
        → (if b
            then read_digits (value * 10 + (c - 48)) (xs ++ (48 + d) ∷ [])
            else (value, c ∷ (xs ++ (48 + d) ∷ [])))
          ≡ (w * 10 + d, [])
    by_digit true go_on g = go_on (value * 10 + (c - 48)) g
    by_digit false go_on g = absurd (ground (arith, g))

decimal_from-AllDigits : (fuel n : ℕ) → AllDigits (decimal_from fuel n)
decimal_from-AllDigits zero n = tt
decimal_from-AllDigits (suc fuel) n =
    AllDigits-append (if ltb n 10 then [] else decimal_from fuel (n / 10)) ((48 + n % 10) ∷ [])
      (if-elim AllDigits (ltb n 10) [] (decimal_from fuel (n / 10)) (λ h. tt)
        (λ h. decimal_from-AllDigits fuel (n / 10)))
      (omega arith, omega arith, tt)

read_digits-decimal_from : (fuel n : ℕ) → n < fuel → read_digits 0 (decimal_from fuel n) ≡ (n, [])
read_digits-decimal_from zero n h = absurd (omega arith)
read_digits-decimal_from (suc fuel) n h =
    let front = if ltb n 10 then [] else decimal_from fuel (n / 10) in
    let before : read_digits 0 front ≡ (n / 10, []) =
      if-elim (λ xs. read_digits 0 xs ≡ (n / 10, [])) (ltb n 10) [] (decimal_from fuel (n / 10))
        (λ e. small n e) (λ e. read_digits-decimal_from fuel (n / 10) (ground (arith, e, h))) in
    let value : n / 10 * 10 + n % 10 ≡ n = omega arith in
    read_digits-append 0 (n / 10) front (n % 10) (omega arith) before ∙ ap (λ v. (v, [])) value
  where
    small : (n : ℕ) → ltb n 10 ≡ true → read_digits 0 [] ≡ (n / 10, [])
    small n e = unfold read_digits in ap (λ v. (v, [])) (ground (arith, e))

-- A text of digits has nothing to trim.
trim_begin-digits : (c : ℕ) (cs : Bytes) → AllDigits (c ∷ cs) → trim_begin (c ∷ cs) ≡ c ∷ cs
unfolding trim_begin is_space
trim_begin-digits c cs h = ground (arith, h.0, h.1)

keep_before-digit : (c : ℕ) (cs : Bytes) → 48 ≤ c → keep_before c cs ≡ c ∷ cs
unfolding is_space
keep_before-digit c [] h = ground (arith, h)
keep_before-digit c (d ∷ ds) h = refl

trim_end-digits : (xs : Bytes) → AllDigits xs → trim_end xs ≡ xs
unfolding trim_end
trim_end-digits [] h = refl
trim_end-digits (c ∷ cs) h =
    ap (keep_before c) (trim_end-digits cs h.2) ∙ keep_before-digit c cs h.0

trim-digits : (xs : Bytes) → AllDigits xs → trim xs ≡ xs
unfolding trim
trim-digits [] h = unfold trim_begin in trim_end-digits [] tt
trim-digits (c ∷ cs) h = ap trim_end (trim_begin-digits c cs h) ∙ trim_end-digits (c ∷ cs) h

-- What is accepted of a text that is all number.
from_chars-digits :
    (limit n : ℕ) (xs : Bytes)
    → AllDigits xs
    → n < limit
    → 0 < length xs
    → read_digits 0 xs ≡ (n, [])
    → from_chars limit xs ≡ some (n, [])
unfolding from_chars is_digit
from_chars-digits limit n [] a lt l h = absurd (omega arith)
from_chars-digits limit n (c ∷ cs) a lt l h = ground (arith, a.0, a.1, lt, h)

from_chars-digits_over :
    (limit n : ℕ) (xs : Bytes) → limit ≤ n → read_digits 0 xs ≡ (n, []) → from_chars limit xs ≡ none
unfolding from_chars
from_chars-digits_over limit n [] ge h = refl
from_chars-digits_over limit n (c ∷ cs) ge h = ground (arith, ge, h)

decimal-not-empty : (n : ℕ) → 0 < length (decimal n)
decimal-not-empty n =
    omega
      (arith, length-append (if ltb n 10 then [] else decimal_from n (n / 10)) ((48 + n % 10) ∷ []))

-- For every limit and number, the parser of unsigned numbers reads the decimal digits of the
-- number as that number if it is below the limit of the type, and refuses them if it is not.
pub parse_uint-decimal :
    (limit n : ℕ)
    → (n < limit → parse_uint limit (decimal n) ≡ some n)
      × (limit ≤ n → parse_uint limit (decimal n) ≡ none)
unfolding parse_uint
parse_uint-decimal limit n =
    let digits = decimal_from-AllDigits (suc n) n in
    let value = read_digits-decimal_from (suc n) n (omega arith) in
    let accept : Option (ℕ × Bytes) → Option ℕ =
      λ m. m >>= λ r. if at_end r.1 then some r.0 else none in
    let trimmed = trim-digits (decimal n) digits in
    (
      λ lt.
          ap (λ t. accept (from_chars limit t)) trimmed
          ∙ ap accept (from_chars-digits limit n (decimal n) digits lt (decimal-not-empty n) value),
      λ ge.
          ap (λ t. accept (from_chars limit t)) trimmed
          ∙ ap accept (from_chars-digits_over limit n (decimal n) ge value),
    )
