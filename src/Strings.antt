-- ===== src/Strings.antt =====
-- The string tokens of scan.go, swar.go, decode.go and validate.go: runs of clean bytes, escapes,
-- and the end of a string under either reading of its body.
pub mod Grammar
pub mod Units
pub mod Runs
pub mod Pieces
pub mod Reading
pub mod Loop
pub mod Exact
use go_jsonfast.Base.{
  ℕ, zero, suc, ◌+◌, ◌-◌, ◌*◌, ◌/◌, ◌%◌, ◌^◌, Bool, true, false, ◌&&◌, ◌||◌, not, Option, some,
  none, [], ◌∷◌, ◌++◌, ltb, leb, ◌==◌, if◌then◌else◌, ◌>>=◌, ℤ, pos, negsuc, leb_ℤ, length, drop,
  byte_at, slice, Bytes, bit_and, bit_or, bit_xor,
}
use go_jsonfast.Swar.{plain_byte, body_byte, plain_run, body_run, rune_self, shift_right}
use go_jsonfast.Utf8.{rune_error, rune_size, is_surrogate, decode_pair}

-- A plain run, whose first byte is tested by itself.
unfoldable pub plain_step : Bytes → ℕ → ℕ
unfolding plain_byte plain_run
plain_step text j = elim (byte_at text j) [
  | none ↦ j
  | some c ↦ if plain_byte c then plain_run text (suc j) else j
]

-- cleanRun: each round passes a plain run and one rune of several bytes.
clean_rounds : ℕ → Bytes → ℕ → ℕ
unfolding plain_step rune_size
clean_rounds zero text j = j
clean_rounds (suc rounds) text j =
    let k = plain_step text j in
    let size = rune_size (drop k text) in
    let on = clean_rounds rounds text (k + size) in
    elim (byte_at text k) [
      | none ↦ k
      | some c ↦ if ltb c rune_self then k else if size == 1 then k else on
    ]

-- Each round but the last passes a byte, so one round for each byte and one more are enough.
unfoldable pub clean_run : Bytes → ℕ → ℕ
unfolding clean_rounds
clean_run text j = clean_rounds (suc (length text)) text j

abbrev pub short_escape_len : ℕ
short_escape_len = 2

abbrev pub unicode_escape_len : ℕ
unicode_escape_len = 6

abbrev pub pair_escape_len : ℕ
pair_escape_len = 2 * unicode_escape_len

abbrev pub bad_rune : ℤ
bad_rune = negsuc 0

abbrev pub malformed_rune : ℤ
malformed_rune = negsuc 1

-- The lowest rune that each reading of a body keeps.
abbrev pub any_body : ℤ
any_body = bad_rune

abbrev pub utf8_body : ℤ
utf8_body = pos 0

unfoldable pub unescape_byte : ℕ → ℕ
unescape_byte c =
    if c == b'"' || c == b'\\' || c == b'/'
    then c
    else if c == b'b'
    then 8
    else if c == b'f'
    then 12
    else if c == b'n'
    then 10
    else if c == b'r'
    then 13
    else if c == b't'
    then 9
    else 0

-- The functions of decode.go that read an escape take text and an index j, and look at text[j:]
-- alone; here they take that, and give lengths.

-- 0 when no short escape starts here. The text is not empty.
unfoldable pub short_escape : Bytes → ℕ
short_escape (c ∷ d ∷ _) = if not (c == b'\\') then 0 else if d == b'u' then 0 else unescape_byte d
short_escape _ = 0

abbrev u32_limit : ℕ
u32_limit = 2 ^ 32

abbrev hex_lanes : ℕ
hex_lanes = 0x01010101

abbrev hex_tops : ℕ
hex_tops = hex_lanes * rune_self

abbrev hex_case : ℕ
hex_case = hex_lanes * (b'a' - b'A')

abbrev hex_nibble : ℕ
hex_nibble = hex_lanes * 15

abbrev hex_pairs : ℕ
hex_pairs = 0x00ff00ff

abbrev hex_from_0 : ℕ
hex_from_0 = hex_tops - hex_lanes * b'0'

abbrev hex_past_9 : ℕ
hex_past_9 = hex_tops - hex_lanes * (b'9' + 1)

abbrev hex_from_a : ℕ
hex_from_a = hex_tops - hex_lanes * b'a'

abbrev hex_past_f : ℕ
hex_past_f = hex_tops - hex_lanes * (b'f' + 1)

-- a + b and a &^ b of uint32.
add32 : ℕ → ℕ → ℕ
add32 a b = (a + b) % u32_limit

and_not32 : ℕ → ℕ → ℕ
and_not32 a b = bit_and a (bit_xor b (u32_limit - 1))

-- hex4 on the word of its four digits, the first digit highest.
unfoldable pub hex4_word : ℕ → Option ℕ
unfolding add32 and_not32
hex4_word w =
    let digit = and_not32 (add32 w hex_from_0) (add32 w hex_past_9) in
    let lowered = bit_or w hex_case in
    let letter = and_not32 (add32 lowered hex_from_a) (add32 lowered hex_past_f) in
    let v = add32 (bit_and w hex_nibble) ((bit_and (shift_right w 6) hex_lanes * 9) % u32_limit) in
    let pairs = bit_and (bit_or v (shift_right v 4)) hex_pairs in
    if bit_and (bit_or digit letter) hex_tops == hex_tops
    then some (bit_and (bit_or pairs (shift_right pairs 8)) 0xffff)
    else none

unfoldable pub hex4 : ℕ → ℕ → ℕ → ℕ → Option ℕ
unfolding hex4_word
hex4 a b c d = hex4_word (((a * 256 + b) * 256 + c) * 256 + d)

-- A backslash, a u and four hex digits.
unfoldable pub unicode_escape : Bytes → Option ℕ
unicode_escape (s ∷ u ∷ a ∷ b ∷ c ∷ d ∷ _) = if s == b'\\' && u == b'u' then hex4 a b c d else none
unicode_escape _ = none

-- What the escape behind that of the surrogate `hi` makes of it.
unfoldable pub rune_of_pair : ℕ → Option ℕ → ℤ × ℕ
rune_of_pair hi none = (bad_rune, unicode_escape_len)
rune_of_pair hi (some lo) =
    let r = decode_pair hi lo in
    if r == rune_error then (bad_rune, unicode_escape_len) else (pos r, pair_escape_len)

-- The rune of a \u escape, and of the one behind it where the two are a pair.
unfoldable pub rune_of_escape : Option ℕ → Option ℕ → ℤ × ℕ
rune_of_escape none next = (malformed_rune, 1)
rune_of_escape (some hi) next =
    if not (is_surrogate hi) then (pos hi, unicode_escape_len) else rune_of_pair hi next

-- runeAt: a rune and its length. The text is not empty.
unfoldable pub rune_at : Bytes → ℤ × ℕ
rune_at [] = (malformed_rune, 1)
rune_at (c ∷ s) =
    if not (c == b'\\')
    then if body_byte c then (bad_rune, 1) else (malformed_rune, 1)
    else rune_of_escape (unicode_escape (c ∷ s)) (unicode_escape (drop unicode_escape_len (c ∷ s)))

unfoldable pub rune_end : Bytes → ℤ → Option ℕ
rune_end s lowest = let (r, n) = rune_at s in if leb_ℤ lowest r then some n else none

-- One round of the loops of stringEnd and strictEnd, on what stands behind a run: the end of the
-- string, or how far the next run starts.
pub data Piece : Type 0 where
  fault : Piece
  ends : Piece
  on : ℕ → Piece

unfoldable pub piece : Bytes → ℤ → Piece
piece [] lowest = fault
piece (c ∷ s) lowest =
    if c == b'"'
    then ends
    else if not (short_escape (c ∷ s) == 0)
    then on short_escape_len
    else elim (rune_end (c ∷ s) lowest) [ none ↦ fault | some n ↦ on n ]

-- The loop of stringEnd and of strictEnd, which differ in the run and in the lowest rune.
unfoldable pub scan_body : (Bytes → ℕ → ℕ) → ℤ → ℕ → Bytes → ℕ → Option ℕ
unfolding piece
scan_body run lowest zero text j = none
scan_body run lowest (suc rounds) text j =
    let k = run text j in
    elim (piece (drop k text) lowest) [
      | fault ↦ none
      | ends ↦ some (suc k)
      | on n ↦ scan_body run lowest rounds text (k + n)
    ]

-- Each round but the last passes a byte.
unfoldable pub string_end : Bytes → ℕ → Option ℕ
unfolding scan_body body_run
string_end text j = scan_body body_run any_body (suc (length text)) text j

-- text[at] is a quote.
unfoldable pub strict_end : Bytes → ℕ → Option ℕ
unfolding scan_body clean_run
strict_end text at = scan_body clean_run utf8_body (suc (length text)) text (suc at)

unfoldable pub skip_string_at : Bytes → ℕ → Option ℕ
unfolding string_end
skip_string_at text i = elim (byte_at text i) [
  | none ↦ none
  | some c ↦ if not (c == b'"') then none else string_end text (suc i)
]
