-- ===== src/Swar.antt =====
-- swar.go and swar_purego.go: eight bytes as one 64-bit word, and the scans that test a word at
-- a time. A word is a number below 2 ^ 64; wrap-around and complement are written out.
pub mod Lanes
pub mod Masks
pub mod Shifted
pub mod Dropped
pub mod Runs
use go_jsonfast.Base.{
  ℕ, zero, suc, ◌+◌, ◌-◌, ◌*◌, ◌/◌, ◌%◌, ◌^◌, bit_and, bit_or, bit_xor, Bool, ◌&&◌, not, [], ◌∷◌,
  ltb, leb, ◌==◌, if◌then◌else◌, length, take, drop, Bytes,
}

abbrev pub word_size : ℕ
word_size = 8

abbrev pub byte_bits : ℕ
byte_bits = 8

-- utf8.RuneSelf of the standard library: the bytes from here up are not ASCII.
abbrev pub rune_self : ℕ
rune_self = 0x80

abbrev pub word_limit : ℕ
word_limit = 2 ^ 64

-- x - y of uint64.
unfoldable pub sub64 : ℕ → ℕ → ℕ
sub64 x y = (x + word_limit - y) % word_limit

-- x &^ y of uint64: y is complemented first.
unfoldable pub and_not64 : ℕ → ℕ → ℕ
and_not64 x y = bit_and x (bit_xor y (word_limit - 1))

-- x << k of uint64 keeps the low 64 bits, x >> k drops the low k.
abbrev pub shift_left64 : ℕ → ℕ → ℕ
shift_left64 x k = (x * 2 ^ k) % word_limit

abbrev pub shift_right : ℕ → ℕ → ℕ
shift_right x k = x / 2 ^ k

abbrev pub swar_lo : ℕ
swar_lo = 0x0101010101010101

abbrev pub swar_hi : ℕ
swar_hi = shift_left64 swar_lo 7

abbrev pub swar_space : ℕ
swar_space = (swar_lo * b' ') % word_limit

abbrev pub swar_quote : ℕ
swar_quote = (swar_lo * b'"') % word_limit

abbrev pub swar_backslash : ℕ
swar_backslash = (swar_lo * b'\\') % word_limit

-- The number whose bytes, the lowest first, are these.
unfoldable pub little_endian : Bytes → ℕ
little_endian [] = 0
little_endian (c ∷ s) = c + little_endian s * 256

-- The eight bytes at `j`, which callers keep in range.
unfoldable pub load64 : Bytes → ℕ → ℕ
unfolding little_endian
load64 text j = little_endian (take word_size (drop j text))

unfoldable pub borrow_lanes : ℕ → ℕ
unfolding sub64 and_not64
borrow_lanes x = and_not64 (sub64 x swar_lo) x

unfoldable pub plain_byte : ℕ → Bool
plain_byte c = leb b' ' c && ltb c rune_self && not (c == b'"') && not (c == b'\\')

unfoldable pub plain_mask : ℕ → ℕ
unfolding borrow_lanes sub64
plain_mask w =
    bit_and
      (bit_or (bit_or (bit_or (sub64 w swar_space) w) (borrow_lanes (bit_xor w swar_quote)))
        (borrow_lanes (bit_xor w swar_backslash)))
      swar_hi

unfoldable pub body_byte : ℕ → Bool
body_byte c = leb b' ' c && not (c == b'"') && not (c == b'\\')

unfoldable pub body_mask : ℕ → ℕ
unfolding borrow_lanes sub64 and_not64
body_mask w =
    bit_and
      (bit_or (bit_or (and_not64 (sub64 w swar_space) w) (borrow_lanes (bit_xor w swar_quote)))
        (borrow_lanes (bit_xor w swar_backslash)))
      swar_hi

-- How often 2 divides a number, counted up to a bound.
unfoldable pub trailing_zeros : ℕ → ℕ → ℕ
trailing_zeros zero m = 0
trailing_zeros (suc f) m =
    let more = suc (trailing_zeros f (m / 2)) in if m % 2 == 0 then more else 0

-- bits.TrailingZeros64 of the standard library is 64 at 0.
unfoldable pub first_lane : ℕ → ℕ
unfolding trailing_zeros
first_lane m = trailing_zeros 64 m / byte_bits

-- `for j < len(data) && keep(data[j]) { j++ }`, on what stands at `j`.
unfoldable pub run_of : (ℕ → Bool) → Bytes → ℕ → ℕ
run_of keep [] j = j
run_of keep (c ∷ s) j = let on = run_of keep s (suc j) in if keep c then on else j

unfoldable pub plain_bytes : Bytes → ℕ → ℕ
unfolding run_of plain_byte
plain_bytes text j = run_of plain_byte (drop j text) j

unfoldable pub body_bytes : Bytes → ℕ → ℕ
unfolding run_of body_byte
body_bytes text j = run_of body_byte (drop j text) j

-- The word at `last`, the last of data, and the end of data when nothing in it stops.
plain_last : Bytes → ℕ → ℕ
unfolding plain_mask load64 first_lane
plain_last text last =
    let m = plain_mask (load64 text last) in if m == 0 then length text else last + first_lane m

-- The loop over the words before the last, on the rounds left.
plain_words : ℕ → Bytes → ℕ → ℕ → ℕ
unfolding plain_last plain_mask load64 first_lane
plain_words zero text last j = plain_last text last
plain_words (suc rounds) text last j =
    let m = plain_mask (load64 text j) in
    let on = plain_words rounds text last (j + word_size) in
    let stop = if m == 0 then on else j + first_lane m in
    if ltb j last then stop else plain_last text last

-- `last < 0` is the test that data holds no word.
unfoldable pub plain_run : Bytes → ℕ → ℕ
unfolding plain_words plain_bytes plain_mask load64 first_lane
plain_run text j =
    let last = length text - word_size in
    let tail = load64 (drop last text) 0 in
    if ltb (length text) word_size
    then plain_bytes text j
    else if ltb (last + 1) j
    then j + first_lane (plain_mask (shift_right tail (byte_bits * (j - last))))
    else plain_words (length text) text last j

-- `last := len(data) - wordSize; j <= last` is the test that a word starts at `j`.
body_words : ℕ → Bytes → ℕ → ℕ
unfolding body_mask load64 first_lane body_bytes
body_words zero text j = body_bytes text j
body_words (suc rounds) text j =
    let m = body_mask (load64 text j) in
    let on = body_words rounds text (j + word_size) in
    let stop = if m == 0 then on else j + first_lane m in
    if leb (j + word_size) (length text) then stop else body_bytes text j

unfoldable pub body_run : Bytes → ℕ → ℕ
unfolding body_words
body_run text j = body_words (length text) text j
