-- ===== src/Decimal.antt =====
-- number.go and scalar.go: integers written in decimal two digits at a time, and read back with a
-- check for overflow. Floats are not here.
pub mod Value
pub mod Written
pub mod Exact
pub mod Signed
use go_jsonfast.Base.{
  ℕ, zero, suc, ◌+◌, ◌-◌, ◌*◌, ◌/◌, ◌%◌, ◌^◌, Bool, true, false, ◌&&◌, ◌||◌, not, Option, some,
  none, [], ◌∷◌, ◌++◌, ltb, leb, ◌==◌, if◌then◌else◌, ◌>>=◌, ℤ, pos, negsuc, length, get_or,
  byte_at, drop, Bytes, codes,
}
use go_jsonfast.Swar.{word_limit}
use go_jsonfast.Scan.{skip_integer, bytes_eq, lit_true, lit_false}

abbrev pub decimal_base : ℕ
decimal_base = 10

abbrev pub pair_base : ℕ
pair_base = 100

abbrev pub triple_base : ℕ
triple_base = 1000

abbrev pub pair_len : ℕ
pair_len = 2

abbrev pub digit_pairs : Bytes
digit_pairs =
    codes
      "0001020304050607080910111213141516171819202122232425262728293031323334353637383940414243444546474849"
    ++ codes
        "5051525354555657585960616263646566676869707172737475767778798081828384858687888990919293949596979899"

-- The two digits of a number below 100.
unfoldable pub pair : ℕ → ℕ × ℕ
pair v = (get_or digit_pairs (v * pair_len) 0, get_or digit_pairs (v * pair_len + 1) 0)

-- What stands in the array of digits from `i` on once the loop and the last write are done; the
-- digits behind are given. Each round divides by 100, so 10 are enough below 2 ^ 64.
unfoldable pub write_pairs : ℕ → ℕ → Bytes → Bytes
unfolding pair
write_pairs zero v behind = behind
write_pairs (suc rounds) v behind =
    let (t, u) = pair (v % pair_base) in
    let (tens, units) = pair v in
    let more = write_pairs rounds (v / pair_base) (t ∷ u ∷ behind) in
    if leb pair_base v
    then more
    else if leb decimal_base v
    then tens ∷ units ∷ behind
    else (b'0' + v) ∷ behind

abbrev pub pair_rounds : ℕ
pair_rounds = 10

-- appendUint64
unfoldable pub append_uint64 : Bytes → ℕ → Bytes
unfolding pair write_pairs
append_uint64 buf v =
    if ltb v decimal_base
    then buf ++ (b'0' + v) ∷ []
    else if ltb v pair_base
    then (let (tens, units) = pair v in buf ++ tens ∷ units ∷ [])
    else if ltb v triple_base
    then (let (tens, units) = pair (v % pair_base) in
        buf ++ (b'0' + v / pair_base) ∷ tens ∷ units ∷ [])
    else buf ++ write_pairs pair_rounds v []

abbrev pub max_int64 : ℕ
max_int64 = 2 ^ 63 - 1

-- ^v&math.MaxInt64 of a negative v = -(n + 1), whose complement is n.
unfoldable pub append_int64 : Bytes → ℤ → Bytes
unfolding append_uint64
append_int64 buf (pos v) = append_uint64 buf v
append_int64 buf (negsuc n) = append_uint64 (buf ++ b'-' ∷ []) ((n % 2 ^ 63 + 1) % word_limit)

-- One digit more: hi and the carry are what is past 64 bits.
unfoldable pub push_digit : ℕ → ℕ → Option ℕ
push_digit v c =
    let product = v * decimal_base in
    let hi = product / word_limit in
    let lo = product % word_limit in
    let added = lo + (c + 256 - b'0') % 256 in
    if hi == 0 && added / word_limit == 0 then some (added % word_limit) else none

unfoldable pub digits_value_from : ℕ → Bytes → Option ℕ
unfolding push_digit
digits_value_from v [] = some v
digits_value_from v (c ∷ d) = do w ← push_digit v c; digits_value_from w d

unfoldable pub digits_value : Bytes → Option ℕ
unfolding digits_value_from
digits_value d = digits_value_from 0 d

unfoldable pub is_integer : Bytes → Bool
unfolding skip_integer
is_integer d = elim (skip_integer d 0) [ none ↦ false | some end ↦ end == length d ]

-- d[0] == '-'
unfoldable pub is_negative : Bytes → Bool
is_negative [] = false
is_negative (c ∷ _) = c == b'-'

unfoldable pub decode_uint64 : Bytes → Option ℕ
unfolding is_integer is_negative digits_value
decode_uint64 d = if not (is_integer d) || is_negative d then none else digits_value d

-- -int64(v), of a v below 2 ^ 63
abbrev pub negate : ℕ → ℤ
negate zero = pos 0
negate (suc n) = negsuc n

abbrev pub signed_value : Bool → ℕ → Option ℤ
signed_value negative v =
    if leb v max_int64 && negative
    then some (negate v)
    else if leb v max_int64
    then some (pos v)
    else if negative && v == 2 ^ 63
    then some (negsuc max_int64)
    else none

unfoldable pub decode_int64 : Bytes → Option ℤ
unfolding is_integer is_negative digits_value
decode_int64 d =
    let negative = is_negative d in
    let digits = if negative then drop 1 d else d in
    let value = digits_value digits >>= signed_value negative in
    if not (is_integer d) then none else value

unfoldable pub decode_bool : Bytes → Option Bool
unfolding bytes_eq
decode_bool raw =
    if bytes_eq raw lit_true then some true else if bytes_eq raw lit_false then some false else none
