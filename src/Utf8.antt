-- ===== src/Utf8.antt =====
-- What the source uses of Go's unicode/utf8 and unicode/utf16, after their documentation: a rune
-- is a signed number, and the scanners add two of their own below 0 (decode.go).
use go_jsonfast.Base.{
  ℕ, ◌+◌, ◌-◌, ◌*◌, ◌/◌, ◌%◌, Bool, ◌&&◌, ◌||◌, [], ◌∷◌, ltb, leb, ◌==◌, if◌then◌else◌, ℤ, pos,
  negsuc, Bytes,
}

-- utf8.RuneError
abbrev pub rune_error : ℕ
rune_error = 0xfffd

abbrev pub within : ℕ → ℕ → ℕ → Bool
within lo hi c = leb lo c && leb c hi

abbrev pub is_continuation : ℕ → Bool
is_continuation = within 0x80 0xbf

-- The second byte that a first byte of three allows: no overlong form, no surrogate.
unfoldable pub second_of_three : ℕ → ℕ → Bool
second_of_three a b =
    if a == 0xe0
    then within 0xa0 0xbf b
    else if a == 0xed
    then within 0x80 0x9f b
    else is_continuation b

-- The second byte that a first byte of four allows: no overlong form, nothing past 0x10ffff.
unfoldable pub second_of_four : ℕ → ℕ → Bool
second_of_four a b =
    if a == 0xf0
    then within 0x90 0xbf b
    else if a == 0xf4
    then within 0x80 0x8f b
    else is_continuation b

-- How many bytes the rune takes that a text begins with; 1 for an ASCII byte and for a byte that
-- begins no valid encoding, and 0 at the end.
unfoldable pub rune_size : Bytes → ℕ
unfolding second_of_three second_of_four
rune_size [] = 0
rune_size (a ∷ []) = 1
rune_size (a ∷ b ∷ []) = if within 0xc2 0xdf a && is_continuation b then 2 else 1
rune_size (a ∷ b ∷ c ∷ []) =
    if within 0xc2 0xdf a && is_continuation b
    then 2
    else if within 0xe0 0xef a && second_of_three a b && is_continuation c
    then 3
    else 1
rune_size (a ∷ b ∷ c ∷ d ∷ _) =
    if within 0xc2 0xdf a && is_continuation b
    then 2
    else if within 0xe0 0xef a && second_of_three a b && is_continuation c
    then 3
    else if within 0xf0 0xf4 a && second_of_four a b && is_continuation c && is_continuation d
    then 4
    else 1

-- utf8.EncodeRune and utf8.AppendRune write U+FFFD for a surrogate, for a number past 0x10ffff
-- and for a negative one.
unfoldable pub encode_point : ℕ → Bytes
encode_point r =
    if ltb r 0x80
    then r ∷ []
    else if ltb r 0x800
    then (0xc0 + r / 64) ∷ (0x80 + r % 64) ∷ []
    else if within 0xd800 0xdfff r || ltb 0x10ffff r
    then 0xef ∷ 0xbf ∷ 0xbd ∷ []
    else if ltb r 0x10000
    then (0xe0 + r / 4096) ∷ (0x80 + r / 64 % 64) ∷ (0x80 + r % 64) ∷ []
    else (0xf0 + r / 262144) ∷ (0x80 + r / 4096 % 64) ∷ (0x80 + r / 64 % 64) ∷ (0x80 + r % 64) ∷ []

unfoldable pub encode_rune : ℤ → Bytes
unfolding encode_point
encode_rune (pos r) = encode_point r
encode_rune (negsuc _) = 0xef ∷ 0xbf ∷ 0xbd ∷ []

-- utf16.IsSurrogate
unfoldable pub is_surrogate : ℕ → Bool
is_surrogate r = within 0xd800 0xdfff r

-- utf16.DecodeRune: U+FFFD when the two are no pair.
unfoldable pub decode_pair : ℕ → ℕ → ℕ
decode_pair hi lo =
    if within 0xd800 0xdbff hi && within 0xdc00 0xdfff lo
    then (hi - 0xd800) * 1024 + (lo - 0xdc00) + 0x10000
    else rune_error
