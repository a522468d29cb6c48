-- ===== src/Decimal/Signed.antt =====
-- DecodeInt64 against the integers of the number grammar, and against appendInt64.
use go_jsonfast.Base.{
  ℕ, suc, ◌+◌, ◌%◌, ◌^◌, ◌<◌, true, false, Option, some, none, [], ◌∷◌, ◌++◌, ◌≡◌, refl, ap, ◌∙◌,
  arith, ltb, leb, ◌==◌, ==_iff, ◌>>=◌, if◌then◌else◌, Bytes, Bool-cases, inl, inr, ℤ, pos, negsuc,
}
use go_jsonfast.Swar.{word_limit}
use go_jsonfast.Scan.Number.{IsSign, unsigned, minus, IsInteger}
use go_jsonfast.Decimal.{
  digits_value, is_negative, decode_int64, append_int64, negate, signed_value,
}
use go_jsonfast.Decimal.Value.{number_of}
use go_jsonfast.Decimal.Written.{append_uint64-Writes}
use go_jsonfast.Decimal.Exact.{
  digits_value_from_fits, digits_value_from_overflows, IsInteger-AreDigits, IsInteger-no_minus,
  is_integer_iff,
}

-- The integer that a sign and a magnitude give, where it is one of 64 bits.
unfoldable pub bounded : {g : Bytes} → IsSign g → ℕ → Option ℤ
bounded unsigned v = if ltb v (2 ^ 63) then some (pos v) else none
bounded (minus m) v = if leb v (2 ^ 63) then some (negate v) else none

-- digitsValue is the number of the digits, or nothing from 2 ^ 64 on.
digits_value_of_digits :
    (u : Bytes)
    → IsInteger u
    → digits_value u ≡ (if ltb (number_of 0 u) word_limit then some (number_of 0 u) else none)
unfolding digits_value
digits_value_of_digits u n =
    let a = IsInteger-AreDigits u n in
    elim (Bool-cases (ltb (number_of 0 u) word_limit)) [
      | inl fits ↦ rw fits (digits_value_from_fits 0 u a (ground arith))
      | inr over ↦ rw over (digits_value_from_overflows 0 u a (omega arith) (ground arith))
    ]

signed_positive :
    (v : ℕ)
    → ((if ltb v word_limit then some v else none) >>= signed_value false)
      ≡ (if ltb v (2 ^ 63) then some (pos v) else none)
signed_positive v = ground arith

signed_negative :
    (v : ℕ)
    → ((if ltb v word_limit then some v else none) >>= signed_value true)
      ≡ (if leb v (2 ^ 63) then some (negate v) else none)
signed_negative v = elim (Bool-cases (v == 2 ^ 63)) [
  | inl edge ↦ rw ((==_iff v (2 ^ 63)).0 edge)
  | inr off ↦ ground arith
]

-- DecodeInt64 of an integer of the grammar is that integer where it is one of 64 bits, and
-- nothing where it is not.
pub decode_int64-bounded :
    (g u : Bytes) (sign : IsSign g)
    → IsInteger u
    → decode_int64 (g ++ u) ≡ bounded sign (number_of 0 u)
unfolding decode_int64 bounded is_negative
decode_int64-bounded g u unsigned n =
    let whole = (is_integer_iff u).1 (record {
      sign = [];
      integer = u;
      splits = refl;
      is_sign_text = unsigned;
      is_integer_text = n;
    }) in
    rw (whole, IsInteger-no_minus u n, digits_value_of_digits u n) (signed_positive (number_of 0 u))
decode_int64-bounded g u (minus {c} m) n =
    let whole = (is_integer_iff (c ∷ u)).1 (record {
      sign = c ∷ [];
      integer = u;
      splits = refl;
      is_sign_text = minus m;
      is_integer_text = n;
    }) in
    rw (whole, (==_iff c b'-').1 m, digits_value_of_digits u n) (signed_negative (number_of 0 u))

negate-suc : (n : ℕ) → negate (n + 1) ≡ negsuc n
negate-suc n = let e : n + 1 ≡ suc n = omega arith in ap negate e

-- -2 ^ 63 up to 2 ^ 63 - 1.
abbrev pub IsInt64 : ℤ → Type 0
IsInt64 (pos n) = n < 2 ^ 63
IsInt64 (negsuc n) = n < 2 ^ 63

-- DecodeInt64 reads back what appendInt64 writes into an empty buffer for an int64, the least one
-- included.
pub decode_int64-append_int64 : (z : ℤ) → IsInt64 z → decode_int64 (append_int64 [] z) ≡ some z
unfolding append_int64 bounded
decode_int64-append_int64 (pos n) h =
    let (s, e, w) = append_uint64-Writes [] n (omega arith) in
    let fits : ltb n (2 ^ 63) ≡ true = ground arith in
    rw e (decode_int64-bounded [] s unsigned w.integer ∙ rw w.value (rw fits))
decode_int64-append_int64 (negsuc n) h =
    let magnitude : (n % 2 ^ 63 + 1) % word_limit ≡ n + 1 = omega arith in
    let (s, e, w) = append_uint64-Writes (b'-' ∷ []) (n + 1) (omega arith) in
    let fits : leb (n + 1) (2 ^ 63) ≡ true = ground arith in
    rw (magnitude, e)
      (decode_int64-bounded (b'-' ∷ []) s (minus refl) w.integer
        ∙ rw w.value (rw (fits, negate-suc n)))
