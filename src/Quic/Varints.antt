-- ===== src/Quic/Varints.antt =====
-- The variable-length integers of RFC 9000, section 16, against `ReadVarint` of
-- src/policy/QuicConstrictor.cpp.
use pcap_constrictor_afpacke.Base.{
  ℕ, ◌+◌, ◌-◌, ◌/◌, ◌%◌, ◌^◌, ◌≤◌, ◌<◌, ◌≡◌, refl, sym, ap, ◌∙◌, some, [], ◌∷◌, ◌++◌, arith,
  append_assoc, length, length-append, get_or-append, take, drop, drop-append, take-append, true,
}
use pcap_constrictor_afpacke.Base.Checked.{ok}
use pcap_constrictor_afpacke.Bytes.{
  Bytes, has_bytes, has_bytes_of, read, read_lem, subspan, subspan_lem,
}
use pcap_constrictor_afpacke.Quic.Parse.{read_varint, append_bytes}

pub data VarintSize : Type 0 where
  one_byte two_bytes four_bytes eight_bytes : VarintSize

abbrev pub size_log : VarintSize → ℕ
size_log one_byte = 0
size_log two_bytes = 1
size_log four_bytes = 2
size_log eight_bytes = 3

abbrev pub size_limit : VarintSize → ℕ
size_limit one_byte = 0x40
size_limit two_bytes = 0x4000
size_limit four_bytes = 0x40000000
size_limit eight_bytes = 0x4000000000000000

-- The first byte and the ones behind it.
abbrev pub first_of : VarintSize → ℕ → ℕ
first_of one_byte v = v
first_of two_bytes v = 0x40 + v / 0x100
first_of four_bytes v = 0x80 + v / 0x1000000
first_of eight_bytes v = 0xc0 + v / 0x100000000000000

abbrev pub rest_of : VarintSize → ℕ → Bytes
rest_of one_byte v = []
rest_of two_bytes v = v % 256 ∷ []
rest_of four_bytes v = v / 0x10000 % 256 ∷ v / 0x100 % 256 ∷ v % 256 ∷ []
rest_of eight_bytes v =
    v / 0x1000000000000 % 256
    ∷ v / 0x10000000000 % 256
    ∷ v / 0x100000000 % 256
    ∷ v / 0x1000000 % 256
    ∷ v / 0x10000 % 256
    ∷ v / 0x100 % 256
    ∷ v % 256
    ∷ []

abbrev pub encode_varint : VarintSize → ℕ → Bytes
encode_varint size v = first_of size v ∷ rest_of size v

first_of-class :
    (size : VarintSize) (v : ℕ) → v < size_limit size → first_of size v / 64 ≡ size_log size
first_of-class one_byte v h = omega arith
first_of-class two_bytes v h = omega arith
first_of-class four_bytes v h = omega arith
first_of-class eight_bytes v h = omega arith

append_bytes-rest_of :
    (size : VarintSize) (v : ℕ)
    → v < size_limit size
    → append_bytes (first_of size v % 64) (rest_of size v) ≡ v
append_bytes-rest_of one_byte v h = omega arith
append_bytes-rest_of two_bytes v h = omega arith
append_bytes-rest_of four_bytes v h = omega arith
append_bytes-rest_of eight_bytes v h = omega arith

length-rest_of : (size : VarintSize) (v : ℕ) → length (rest_of size v) ≡ 2 ^ size_log size - 1
length-rest_of one_byte v = refl
length-rest_of two_bytes v = refl
length-rest_of four_bytes v = refl
length-rest_of eight_bytes v = refl

pow-size_log : (size : VarintSize) → 1 ≤ 2 ^ size_log size
pow-size_log one_byte = omega arith
pow-size_log two_bytes = omega arith
pow-size_log four_bytes = omega arith
pow-size_log eight_bytes = omega arith

module _ (before after : Bytes) (first : ℕ) (rest : Bytes) where
  abbrev framed : Bytes
  framed = before ++ (first ∷ rest ++ after)

  framed-size : length framed ≡ length before + 1 + length rest + length after
  framed-size =
      omega (arith, length-append before (first ∷ rest ++ after), length-append rest after)

  read-framed : read framed (length before) ≡ some first
  read-framed =
      read_lem framed (length before) (omega (arith, framed-size))
      ∙ ap some (get_or-append (length before) before (first ∷ rest ++ after) 0 0 (omega arith))

  subspan-framed : subspan framed (length before + 1) (length rest) ≡ some rest
  subspan-framed =
      subspan_lem framed (length before + 1) (length rest) (omega (arith, framed-size))
      ∙ ap (λ b. some (take (length rest) (drop (length before + 1) b)))
          (sym (append_assoc before (first ∷ []) (rest ++ after)))
      ∙ ap (λ b. some (take (length rest) b))
          (drop-append (before ++ first ∷ []) (rest ++ after) (length before + 1)
            (omega (arith, length-append before (first ∷ []))))
      ∙ ap some (take-append rest after (length rest) refl)

-- A number that is written as an integer of 1, 2, 4 or 8 bytes in the form of RFC 9000, in which
-- it fits, with any bytes before and after it: ReadVarint gives it back, with the offset behind
-- it.
pub read_varint-encode_varint :
    (before after : Bytes) (size : VarintSize) (v : ℕ)
    → v < size_limit size
    → read_varint (before ++ (encode_varint size v ++ after)) (length before)
      ≡ ok (v, length before + 2 ^ size_log size)
unfolding read_varint
read_varint-encode_varint before after size v h =
    let first = first_of size v in
    let rest = rest_of size v in
    let bytes = framed before after first rest in
    let n = length before in
    let total = framed-size before after first rest in
    let width : length rest ≡ 2 ^ size_log size - 1 = length-rest_of size v in
    let there : has_bytes bytes n 1 ≡ true = has_bytes_of bytes n 1 (omega (arith, total)) in
    let all_there : has_bytes bytes n (2 ^ size_log size) ≡ true =
      has_bytes_of bytes n (2 ^ size_log size) (omega (arith, total, width, pow-size_log size)) in
    let behind : subspan bytes (n + 1) (2 ^ size_log size - 1) ≡ some rest =
      ap (subspan bytes (n + 1)) (sym width) ∙ subspan-framed before after first rest in
    simp (there, read-framed before after first rest, first_of-class size v h, all_there, behind)
      (ap (λ x. ok (x, n + 2 ^ size_log size)) (append_bytes-rest_of size v h))
