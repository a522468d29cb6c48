-- ===== src/Decimal/Exact.antt =====
-- DecodeUint64 and DecodeInt64 against the integers of the number grammar, and against the writers.
use go_jsonfast.Base.{
  ℕ, ◌+◌, ◌-◌, ◌*◌, ◌<◌, ◌≤◌, true, false, some, none, [], ◌∷◌, ◌++◌, ◌≡◌, refl, ap, sym, ◌∙◌,
  arith, ltb, ◌==◌, ==_iff, Bytes, Bool-cases, Option-cases, inl, inr, append_assoc, append-nil,
  ◌↔◌, length, length-append, drop,
}
use go_jsonfast.Swar.{word_limit}
use go_jsonfast.Scan.{is_digit, skip_integer, past}
use go_jsonfast.Scan.Number.{AreDigits, IsSign, unsigned, minus, IsInteger, nought, digits, Took}
use go_jsonfast.Scan.Number.Sound.{integer_part-Took, past-Took}
use go_jsonfast.Scan.Number.Complete.{skip_integer_all}
use go_jsonfast.Scan.Number.Exact.{Took_all}
use go_jsonfast.Decimal.{
  digits_value_from, digits_value, is_integer, is_negative, decode_uint64, append_uint64,
}
use go_jsonfast.Decimal.Value.{number_of, number_of-ge, push_digit_fits, push_digit_overflows}
use go_jsonfast.Decimal.Written.{append_uint64-Writes}

pub digits_value_from_fits :
    (v : ℕ) (d : Bytes)
    → AreDigits d
    → number_of v d < word_limit
    → digits_value_from v d ≡ some (number_of v d)
unfolding digits_value_from number_of
digits_value_from_fits v [] a h = refl
digits_value_from_fits v (c ∷ d) (a, a') h =
    let next = v * 10 + (c - b'0') in
    rw (push_digit_fits v c a (omega (arith, number_of-ge next d)))
      (digits_value_from_fits next d a' h)

pub digits_value_from_overflows :
    (v : ℕ) (d : Bytes)
    → AreDigits d
    → v < word_limit
    → word_limit ≤ number_of v d
    → digits_value_from v d ≡ none
unfolding digits_value_from number_of
digits_value_from_overflows v [] a s h = absurd (omega arith)
digits_value_from_overflows v (c ∷ d) (a, a') s h =
    let next = v * 10 + (c - b'0') in
    elim (Bool-cases (ltb next word_limit)) [
      | inl fits ↦
          let small : next < word_limit = ground arith in
          rw (push_digit_fits v c a small) (digits_value_from_overflows next d a' small h)
      | inr past_it ↦
          let big : word_limit ≤ next = ground arith in rw (push_digit_overflows v c a s big)
    ]

pub IsInteger-AreDigits : (u : Bytes) → IsInteger u → AreDigits u
unfolding is_digit
IsInteger-AreDigits u (nought {c} z) = (rw z, tt)
IsInteger-AreDigits u (digits d z h) = (d, h)

digit-no_minus : (c : ℕ) → is_digit c ≡ true → (c == b'-') ≡ false
unfolding is_digit
digit-no_minus c h = ground arith

pub IsInteger-no_minus : (u : Bytes) → IsInteger u → is_negative u ≡ false
unfolding is_negative
IsInteger-no_minus u (nought z) = rw z
IsInteger-no_minus u (digits {c} d z h) = digit-no_minus c d

-- A sign and an integer of the grammar.
pub record IsSignedInteger (t : Bytes) : Type 0 where
  pub sign : Bytes
  pub integer : Bytes
  pub splits : t ≡ sign ++ integer
  pub is_sign_text : IsSign sign
  pub is_integer_text : IsInteger integer

skip_integer-Took : (d : Bytes) {j : ℕ} → skip_integer d 0 ≡ some j → Took IsSignedInteger d 0 j
unfolding skip_integer
skip_integer-Took d {j} h =
    let start = past (λ c. c == b'-') d 0 in
    let (g, split, at, sign) =
      past-Took d IsSign (λ c. c == b'-') 0 unsigned (λ c t. minus ((==_iff c b'-').0 t)) in
    let (u, split', at', integer) = integer_part-Took d start h in
    (
      g ++ u,
      split ∙ ap (λ r. g ++ r) split' ∙ sym (append_assoc g u (drop j d)),
      omega (arith, length-append g u),
      record {
        sign = g;
        integer = u;
        splits = refl;
        is_sign_text = sign;
        is_integer_text = integer;
      },
    )

signed_integer_end : (d : Bytes) → IsSignedInteger d → skip_integer d 0 ≡ some (length d)
signed_integer_end d n =
    skip_integer_all d 0 n.sign n.integer []
      (n.splits ∙ ap (λ r. n.sign ++ r) (sym (append-nil n.integer))) n.is_sign_text
      n.is_integer_text tt
    ∙ ap some (omega (arith, ap length n.splits, length-append n.sign n.integer))

-- isInteger accepts exactly a sign and an integer of the grammar.
pub is_integer_iff : (d : Bytes) → (is_integer d ≡ true) ↔ IsSignedInteger d
unfolding is_integer
is_integer_iff d = (sound, complete)
  where
    sound : is_integer d ≡ true → IsSignedInteger d
    sound h = elim (Option-cases (skip_integer d 0)) [
      | inl e ↦ cc (rw (e, is_integer) at h)
      | inr (j, e) ↦
          let h' = rw (e, is_integer) at h in
          Took_all IsSignedInteger d (skip_integer-Took d e) ((==_iff j (length d)).0 h')
    ]

    complete : IsSignedInteger d → is_integer d ≡ true
    complete n = rw (signed_integer_end d n, is_integer) ((==_iff (length d) (length d)).1 refl)

unsigned_integer :
    (d g u : Bytes) → d ≡ g ++ u → IsSign g → IsInteger u → is_negative d ≡ false → IsInteger d
unfolding is_negative
unsigned_integer d g u e unsigned integer h = rw e integer
unsigned_integer d g u e (minus {c} m) integer h =
    let first : is_negative d ≡ (c == b'-') = ap is_negative e in
    let whole = (==_iff c b'-').1 m in cc

IsInteger-IsSignedInteger : (d : Bytes) → IsInteger d → IsSignedInteger d
IsInteger-IsSignedInteger d n = record {
  sign = [];
  integer = d;
  splits = refl;
  is_sign_text = unsigned;
  is_integer_text = n;
}

-- digitsValue of digits, by whether their number passes 64 bits.
digits_value-eq-some :
    (d : Bytes) (v : ℕ)
    → AreDigits d
    → digits_value d ≡ some v
    → (number_of 0 d ≡ v) × (v < word_limit)
unfolding digits_value
digits_value-eq-some d v a h = elim (Bool-cases (ltb (number_of 0 d) word_limit)) [
  | inl fits ↦
      let small : number_of 0 d < word_limit = ground arith in
      let same : number_of 0 d ≡ v =
        some-injective (sym (digits_value_from_fits 0 d a small) ∙ h) in
      (same, omega arith)
  | inr over ↦
      let big : word_limit ≤ number_of 0 d = ground arith in
      let none_here = digits_value_from_overflows 0 d a (omega arith) big in cc
]
  where
    some-injective : {x y : ℕ} → some x ≡ some y → x ≡ y
    some-injective h = cc

-- DecodeUint64 gives the value of the integers of the grammar without a sign, below 2 ^ 64, and
-- nothing for any other text.
pub decode_uint64_iff :
    (d : Bytes) (v : ℕ)
    → (decode_uint64 d ≡ some v) ↔ (IsInteger d × (number_of 0 d ≡ v) × (v < word_limit))
unfolding decode_uint64
decode_uint64_iff d v = (sound, complete)
  where
    sound : decode_uint64 d ≡ some v → IsInteger d × (number_of 0 d ≡ v) × (v < word_limit)
    sound h = elim (Bool-cases (is_integer d)) [
      | inr broken ↦ cc (rw (broken, decode_uint64) at h)
      | inl whole ↦ elim (Bool-cases (is_negative d)) [
        | inl below ↦ cc (rw (whole, below, decode_uint64) at h)
        | inr above ↦
            let h' : digits_value d ≡ some v = rw (whole, above, decode_uint64) at h in
            let n = (is_integer_iff d).0 whole in
            let integer =
              unsigned_integer d n.sign n.integer n.splits n.is_sign_text n.is_integer_text above in
            let (same, bound) = digits_value-eq-some d v (IsInteger-AreDigits d integer) h' in
            (integer, same, bound)
      ]
    ]

    complete : IsInteger d × (number_of 0 d ≡ v) × (v < word_limit) → decode_uint64 d ≡ some v
    complete (n, e, h) =
        let whole = (is_integer_iff d).1 (IsInteger-IsSignedInteger d n) in
        let above = IsInteger-no_minus d n in
        rw (whole, above, decode_uint64)
          (digits_value_from_fits 0 d (IsInteger-AreDigits d n) (omega arith) ∙ ap some e)

-- DecodeUint64 reads back what appendUint64 writes into an empty buffer, for a number below 2 ^
-- 64.
pub decode_uint64-append_uint64 :
    (v : ℕ) → v < word_limit → decode_uint64 (append_uint64 [] v) ≡ some v
decode_uint64-append_uint64 v h =
    let (s, e, w) = append_uint64-Writes [] v h in
    rw e ((decode_uint64_iff s v).1 (w.integer, w.value, h))
