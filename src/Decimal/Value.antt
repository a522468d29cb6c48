-- ===== src/Decimal/Value.antt =====
-- The number that a text of decimal digits stands for.
use go_jsonfast.Base.{
  ℕ, ◌+◌, ◌-◌, ◌*◌, ◌/◌, ◌%◌, ◌<◌, ◌≤◌, true, some, none, [], ◌∷◌, ◌≡◌, arith, Bytes,
}
use go_jsonfast.Swar.{word_limit}
use go_jsonfast.Scan.{is_digit}
use go_jsonfast.Decimal.{push_digit, decimal_base}

-- The number of digits read behind `v`, without a bound.
unfoldable pub number_of : ℕ → Bytes → ℕ
number_of v [] = v
number_of v (c ∷ d) = number_of (v * decimal_base + (c - b'0')) d

pub number_of-ge : (v : ℕ) (d : Bytes) → v ≤ number_of v d
unfolding number_of
number_of-ge v [] = omega arith
number_of-ge v (c ∷ d) = omega (arith, number_of-ge (v * 10 + (c - b'0')) d)

digit_range : (c : ℕ) → is_digit c ≡ true → (b'0' ≤ c) × (c ≤ b'9')
unfolding is_digit
digit_range c h = ground arith

-- A digit is taken exactly when the number stays below 2 ^ 64.
pub push_digit_fits :
    (v c : ℕ)
    → is_digit c ≡ true
    → v * 10 + (c - b'0') < word_limit
    → push_digit v c ≡ some (v * 10 + (c - b'0'))
unfolding push_digit
push_digit_fits v c d h =
    let (low, high) = digit_range c d in
    let digit : (c + 256 - b'0') % 256 ≡ c - b'0' = omega arith in
    let product : v * 10 / word_limit ≡ 0 = omega arith in
    let low_part : v * 10 % word_limit ≡ v * 10 = omega arith in
    let carry : (v * 10 + (c - b'0')) / word_limit ≡ 0 = omega arith in
    let sum : (v * 10 + (c - b'0')) % word_limit ≡ v * 10 + (c - b'0') = omega arith in
    rw (digit, product, low_part, carry, sum)

pub push_digit_overflows :
    (v c : ℕ)
    → is_digit c ≡ true
    → v < word_limit
    → word_limit ≤ v * 10 + (c - b'0')
    → push_digit v c ≡ none
unfolding push_digit
push_digit_overflows v c d small h =
    let (low, high) = digit_range c d in
    let digit : (c + 256 - b'0') % 256 ≡ c - b'0' = omega arith in ground arith
