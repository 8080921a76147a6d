-- ===== src/Kvs/Leb128.antt =====
-- `binary.PutVarint` and `binary.ReadVarint` of Go's library: seven bits to a byte, the lowest first,
-- with the high bit on all bytes but the last, of a number whose lowest bit is the sign.
use goxos.Base.{
  ℕ, zero, suc, ◌+◌, ◌*◌, ◌-◌, ◌/◌, ◌%◌, ◌<◌, ◌≤◌, ◌≡◌, refl, ap, ◌∙◌, true, false, ◌&&◌, ◌||◌, [],
  ◌∷◌, ◌++◌, ◌==◌, ==_iff, ltb, ltb→lt, lt→ltb, if◌then◌else◌, ℤ, pos, negsuc, arith, Bool-cases,
  inl, inr,
}
use goxos.Kvs.Wire.{Bytes, Parsed, ok, fails, ◌>>=◌, IsInt64, Varint}

-- `PutUvarint`, with fuel for the bytes but the last.
unfoldable pub put_uvarint : ℕ → ℕ → Bytes
put_uvarint zero n = n ∷ []
put_uvarint (suc fuel) n =
    let rest = put_uvarint fuel (n / 128) in if ltb n 128 then n ∷ [] else (n % 128 + 128) ∷ rest

-- `ReadUvarint` from the byte `i` on: a number of more than 64 bits is an error.
unfoldable pub read_uvarint : ℕ → Bytes → Parsed ℕ
read_uvarint i [] = fails
read_uvarint i (b ∷ wire) =
    let more = read_uvarint (i + 1) wire in
    if ltb b 128
    then (if ltb 9 i || (i == 9 && ltb 1 b) then fails else ok b wire)
    else more >>= λ x rest. ok (b - 128 + 128 * x) rest

-- The bound of the numbers that fit so many bytes and one more.
bound : ℕ → ℕ
bound zero = 2
bound (suc fuel) = 128 * bound fuel

bound_nine : bound 9 ≡ 18446744073709551616
unfolding bound
bound_nine = refl

read_last :
    (i b : ℕ) (rest : Bytes)
    → i ≤ 9
    → b < 128
    → (i ≡ 9 → b < 2)
    → read_uvarint i (b ∷ rest) ≡ ok b rest
unfolding read_uvarint
read_last i b rest h small last =
    let now : ltb b 128 ≡ true = lt→ltb b 128 small in
    let fits : (ltb 9 i || (i == 9 && ltb 1 b)) ≡ false = elim (Bool-cases (i == 9)) [
      | inl ninth ↦ let low : b < 2 = last ((==_iff i 9).0 ninth) in ground arith
      | inr earlier ↦ ground arith
    ] in
    rw (now, fits) refl

read_next :
    (i b x : ℕ) (wire rest : Bytes)
    → 128 ≤ b
    → read_uvarint (i + 1) wire ≡ ok x rest
    → read_uvarint i (b ∷ wire) ≡ ok (b - 128 + 128 * x) rest
unfolding read_uvarint
read_next i b x wire rest high e = let more : ltb b 128 ≡ false = ground arith in rw (more, e) refl

read_uvarint-put_uvarint :
    (fuel i n : ℕ) (rest : Bytes)
    → i + fuel ≡ 9
    → n < bound fuel
    → read_uvarint i (put_uvarint fuel n ++ rest) ≡ ok n rest
unfolding put_uvarint bound
read_uvarint-put_uvarint zero i n rest e h = read_last i n rest (omega arith) (omega arith) (λ _. h)
read_uvarint-put_uvarint (suc fuel) i n rest e h = elim (Bool-cases (ltb n 128)) [
  | inl small ↦
      rw (small)
        (read_last i n rest (omega arith) (ltb→lt n 128 small) (λ last. absurd (omega arith)))
  | inr large ↦ rw (large) (
      read_next i (n % 128 + 128) (n / 128) (put_uvarint fuel (n / 128) ++ rest) rest (omega arith)
        (read_uvarint-put_uvarint fuel (i + 1) (n / 128) rest (omega arith) (omega arith))
      ∙ ap (λ k. ok k rest) (omega arith))
]

-- The sign in the lowest bit, and back.
abbrev pub to_uint64 : ℤ → ℕ
to_uint64 (pos n) = 2 * n
to_uint64 (negsuc n) = 2 * n + 1

abbrev pub of_uint64 : ℕ → ℤ
of_uint64 ux = if ux % 2 == 0 then pos (ux / 2) else negsuc (ux / 2)

of_uint64-to_uint64 : (n : ℤ) → of_uint64 (to_uint64 n) ≡ n
of_uint64-to_uint64 (pos n) =
    let even : (2 * n) % 2 ≡ 0 = omega arith in
    let half : (2 * n) / 2 ≡ n = omega arith in rw (even, half) refl
of_uint64-to_uint64 (negsuc n) =
    let odd : (2 * n + 1) % 2 ≡ 1 = omega arith in
    let half : (2 * n + 1) / 2 ≡ n = omega arith in rw (odd, half) refl

-- `PutVarint` and `ReadVarint`, of a buffer of ten bytes.
unfoldable pub put_varint : ℤ → Bytes
unfolding put_uvarint
put_varint n = put_uvarint 9 (to_uint64 n)

unfoldable pub read_varint : Bytes → Parsed ℤ
unfolding read_uvarint
read_varint wire = read_uvarint 0 wire >>= λ ux rest. ok (of_uint64 ux) rest

pub read_varint-put_varint :
    (n : ℤ) (rest : Bytes) → IsInt64 n → read_varint (put_varint n ++ rest) ≡ ok n rest
unfolding read_varint put_varint
read_varint-put_varint n rest h =
    ap (λ p. p >>= λ ux rest. ok (of_uint64 ux) rest)
      (read_uvarint-put_uvarint 9 0 (to_uint64 n) rest refl (fits n h))
    ∙ ap (λ k. ok k rest) (of_uint64-to_uint64 n)
  where
    fits : (n : ℤ) → IsInt64 n → to_uint64 n < bound 9
    fits (pos n) h = omega (arith, bound_nine)
    fits (negsuc n) h = omega (arith, bound_nine)

pub put_varint-zero : put_varint (pos 0) ≡ 0 ∷ []
unfolding put_varint
put_varint-zero = refl

-- Go's varint.
abbrev pub go_varint : Varint
go_varint = record {
  put = put_varint;
  read = read_varint;
  read-put = read_varint-put_varint;
  put_zero = put_varint-zero;
}
