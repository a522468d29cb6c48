-- ===== src/Decimal/Written.antt =====
-- What appendUint64 writes: an integer of the number grammar, with the value written.
use go_jsonfast.Base.{
  ℕ, zero, suc, ◌+◌, ◌-◌, ◌*◌, ◌/◌, ◌%◌, ◌<◌, ◌≤◌, Bool, true, false, [], ◌∷◌, ◌++◌, ◌≡◌, refl, ap,
  ◌∙◌, arith, ltb, leb, ◌==◌, ==_iff, get_or, Bytes, Bool-cases, inl, inr,
}
use go_jsonfast.Base.Bits.{below_all, below_all_at}
use go_jsonfast.Swar.{word_limit}
use go_jsonfast.Scan.{is_digit}
use go_jsonfast.Scan.Number.{AreDigits, IsInteger, nought, digits}
use go_jsonfast.Decimal.{pair_rounds, pair_len, digit_pairs, write_pairs, append_uint64}
use go_jsonfast.Decimal.Value.{number_of}

abbrev tens_test : ℕ → Bool
tens_test v = get_or digit_pairs (v * pair_len) 0 == b'0' + v / 10

abbrev units_test : ℕ → Bool
units_test v = get_or digit_pairs (v * pair_len + 1) 0 == b'0' + v % 10

tens_table : below_all tens_test 100 ≡ true
unfolding below_all
tens_table = refl

units_table : below_all units_test 100 ≡ true
unfolding below_all
units_table = refl

pair_tens : (v : ℕ) → v < 100 → get_or digit_pairs (v * pair_len) 0 ≡ b'0' + v / 10
pair_tens v h = (==_iff _ _).0 (below_all_at tens_test 100 h tens_table)

pair_units : (v : ℕ) → v < 100 → get_or digit_pairs (v * pair_len + 1) 0 ≡ b'0' + v % 10
pair_units v h = (==_iff _ _).0 (below_all_at units_test 100 h units_table)

digit_byte : (v : ℕ) → v < 10 → is_digit (b'0' + v) ≡ true
unfolding is_digit
digit_byte v h = ground arith

abbrev hundreds : ℕ → ℕ
hundreds zero = 1
hundreds (suc n) = hundreds n * 100

number_of-pair :
    (v : ℕ) (behind : Bytes)
    → number_of 0 ((b'0' + v / 10) ∷ (b'0' + v % 10) ∷ behind) ≡ number_of v behind
unfolding number_of
number_of-pair v behind =
    let value : (0 * 10 + (b'0' + v / 10 - b'0')) * 10 + (b'0' + v % 10 - b'0') ≡ v = omega arith in
    ap (λ n. number_of n behind) value

number_of-digit : (v : ℕ) (behind : Bytes) → number_of 0 ((b'0' + v) ∷ behind) ≡ number_of v behind
unfolding number_of
number_of-digit v behind =
    let value : 0 * 10 + (b'0' + v - b'0') ≡ v = omega arith in ap (λ n. number_of n behind) value

-- A round moves the two low digits of the number behind the others.
number_of-round :
    (v : ℕ) (behind : Bytes)
    → number_of (v / 100) ((b'0' + v % 100 / 10) ∷ (b'0' + v % 100 % 10) ∷ behind)
      ≡ number_of v behind
unfolding number_of
number_of-round v behind =
    let tens = b'0' + v % 100 / 10 in
    let value : (v / 100 * 10 + (b'0' + v % 100 / 10 - b'0')) * 10 + (b'0' + v % 100 % 10 - b'0')
        ≡ v =
      omega arith in
    ap (λ n. number_of n behind) value

pub number_of-write_pairs :
    (rounds v : ℕ) (behind : Bytes)
    → v < hundreds rounds
    → number_of 0 (write_pairs rounds v behind) ≡ number_of v behind
unfolding write_pairs
number_of-write_pairs zero v behind h = ap (λ n. number_of n behind) (omega arith)
number_of-write_pairs (suc rounds) v behind h =
    let low_tens = pair_tens (v % 100) (omega arith) in
    let low_units = pair_units (v % 100) (omega arith) in
    elim (Bool-cases (leb 100 v)) [
      | inl more ↦
          rw (more, low_tens, low_units)
            (number_of-write_pairs rounds (v / 100) _ (omega arith) ∙ number_of-round v behind)
      | inr few ↦
          let small : v < 100 = ground arith in
          elim (Bool-cases (leb 10 v)) [
            | inl two ↦
                rw (few, two, pair_tens v small, pair_units v small) (number_of-pair v behind)
            | inr one ↦ rw (few, one) (number_of-digit v behind)
          ]
    ]

-- What is written begins with no 0.
IsInteger-write_pairs :
    (rounds v : ℕ) (behind : Bytes)
    → 1 ≤ v
    → v < hundreds rounds
    → AreDigits behind
    → IsInteger (write_pairs rounds v behind)
unfolding write_pairs
IsInteger-write_pairs zero v behind one h d = absurd (omega arith)
IsInteger-write_pairs (suc rounds) v behind one h d =
    let low_tens = pair_tens (v % 100) (omega arith) in
    let low_units = pair_units (v % 100) (omega arith) in
    let units = digit_byte (v % 100 % 10) (omega arith) in
    elim (Bool-cases (leb 100 v)) [
      | inl more ↦
          let left : 1 ≤ v / 100 = ground arith in
          let tens = digit_byte (v % 100 / 10) (omega arith) in
          rw (more, low_tens, low_units)
            (IsInteger-write_pairs rounds (v / 100) _ left (omega arith) (tens, (units, d)))
      | inr few ↦
          let small : v < 100 = ground arith in
          elim (Bool-cases (leb 10 v)) [
            | inl two ↦
                let big : 10 ≤ v = ground arith in
                rw (few, two, pair_tens v small, pair_units v small)
                  (digits (digit_byte (v / 10) (omega arith)) (omega arith)
                    (digit_byte (v % 10) (omega arith), d))
            | inr below ↦
                let less : v < 10 = ground arith in
                rw (few, below) (digits (digit_byte v less) (omega arith) d)
          ]
    ]

one_digit : (v : ℕ) → v < 10 → IsInteger ((b'0' + v) ∷ [])
one_digit zero h = nought refl
one_digit (suc v) h = digits (digit_byte (suc v) h) (omega arith) tt

IsInteger-pair : (v : ℕ) → 10 ≤ v → v < 100 → IsInteger ((b'0' + v / 10) ∷ (b'0' + v % 10) ∷ [])
IsInteger-pair v l h =
    digits (digit_byte (v / 10) (omega arith)) (omega arith) (digit_byte (v % 10) (omega arith), tt)

-- The text behind `buf`, by the size of the number.
pub record Writes (v : ℕ) (s : Bytes) : Type 0 where
  pub value : number_of 0 s ≡ v
  pub integer : IsInteger s

three_digits :
    (v : ℕ)
    → 100 ≤ v
    → v < 1000
    → Writes v ((b'0' + v / 100) ∷ (b'0' + v % 100 / 10) ∷ (b'0' + v % 100 % 10) ∷ [])
unfolding number_of
three_digits v l h = record {
  value =
      ap (λ n. number_of n ((b'0' + v % 100 / 10) ∷ (b'0' + v % 100 % 10) ∷ [])) (omega arith)
      ∙ number_of-round v [];
  integer =
      digits (digit_byte (v / 100) (omega arith)) (omega arith)
        (digit_byte (v % 100 / 10) (omega arith), (digit_byte (v % 100 % 10) (omega arith), tt));
}

short_number :
    (buf : Bytes) (v : ℕ) → v < 1000 → (s : Bytes) × (append_uint64 buf v ≡ buf ++ s) × Writes v s
unfolding append_uint64 number_of
short_number buf v h = elim (Bool-cases (ltb v 10)) [
  | inl one ↦
      let small : v < 10 = ground arith in
      (
        (b'0' + v) ∷ [],
        rw one,
        record { value = number_of-digit v []; integer = one_digit v small },
      )
  | inr more ↦
      let big : 10 ≤ v = ground arith in
      elim (Bool-cases (ltb v 100)) [
        | inl two ↦
            let small : v < 100 = ground arith in
            (
              (b'0' + v / 10) ∷ (b'0' + v % 10) ∷ [],
              rw (more, two, pair_tens v small, pair_units v small),
              record { value = number_of-pair v []; integer = IsInteger-pair v big small },
            )
        | inr more' ↦
            let least : 100 ≤ v = ground arith in
            let three : ltb v 1000 ≡ true = ground arith in
            (
              (b'0' + v / 100) ∷ (b'0' + v % 100 / 10) ∷ (b'0' + v % 100 % 10) ∷ [],
              rw (
                more,
                more',
                three,
                pair_tens (v % 100) (omega arith),
                pair_units (v % 100) (omega arith),
              ),
              three_digits v least h,
            )
      ]
]

long_number :
    (buf : Bytes) (v : ℕ) → 1000 ≤ v → append_uint64 buf v ≡ buf ++ write_pairs pair_rounds v []
unfolding append_uint64
long_number buf v h =
    let one : ltb v 10 ≡ false = ground arith in
    let two : ltb v 100 ≡ false = ground arith in
    let three : ltb v 1000 ≡ false = ground arith in rw (one, two, three)

-- appendUint64 writes behind the buffer an integer of the number grammar whose digits stand for
-- the number written, below 2 ^ 64.
pub append_uint64-Writes :
    (buf : Bytes) (v : ℕ)
    → v < word_limit
    → (s : Bytes) × (append_uint64 buf v ≡ buf ++ s) × Writes v s
unfolding number_of
append_uint64-Writes buf v h = elim (Bool-cases (ltb v 1000)) [
  | inl short ↦ short_number buf v (ground arith)
  | inr long ↦
      let big : 1000 ≤ v = ground arith in
      let bound : v < hundreds pair_rounds = omega arith in
      (
        write_pairs pair_rounds v [],
        long_number buf v big,
        record {
          value = number_of-write_pairs pair_rounds v [] bound;
          integer = IsInteger-write_pairs pair_rounds v [] (omega arith) bound tt;
        },
      )
]
