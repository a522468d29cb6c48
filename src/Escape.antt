-- ===== src/Escape.antt =====
-- escape.go: the bytes of a JSON string body for a text.
pub mod Rules
pub mod Steps
pub mod Exact
use go_jsonfast.Base.{
  ℕ, zero, suc, ◌+◌, ◌-◌, ◌/◌, ◌%◌, Bool, true, false, Option, some, none, [], ◌∷◌, ◌++◌, ltb, ◌==◌,
  ◌||◌, not, if◌then◌else◌, length, get_or, take, drop, byte_at, slice, Bytes, codes,
}
use go_jsonfast.Swar.{plain_byte, body_byte, plain_run}
use go_jsonfast.Utf8.{rune_size, rune_error, encode_point}
use go_jsonfast.Strings.{plain_step, clean_run}

abbrev pub hex_base : ℕ
hex_base = 16

abbrev pub lower_hex : Bytes
lower_hex = codes "0123456789abcdef"

-- What appendEscapedASCII appends.
unfoldable pub escape_of : ℕ → Bytes
escape_of c =
    if c == b'"' || c == b'\\'
    then b'\\' ∷ c ∷ []
    else if c == 8
    then b'\\' ∷ b'b' ∷ []
    else if c == 12
    then b'\\' ∷ b'f' ∷ []
    else if c == 10
    then b'\\' ∷ b'n' ∷ []
    else if c == 13
    then b'\\' ∷ b'r' ∷ []
    else if c == 9
    then b'\\' ∷ b't' ∷ []
    else b'\\'
      ∷ b'u'
      ∷ b'0'
      ∷ b'0'
      ∷ get_or lower_hex (c / hex_base) 0
      ∷ get_or lower_hex (c % hex_base) 0
      ∷ []

-- appendEscapedASCII
unfoldable pub append_escaped_ascii : Bytes → ℕ → Bytes
unfolding escape_of
append_escaped_ascii dst c = dst ++ escape_of c

-- appendUTF8: where n == 1 the rune is utf8.RuneError, as p[i] is not ASCII.
unfoldable pub append_utf8 : Bytes → Bytes → ℕ → Bytes × ℕ
unfolding rune_size encode_point clean_run
append_utf8 dst p i =
    let n = rune_size (drop i p) in
    let j = clean_run p (i + n) in
    if n == 1 then (dst ++ encode_point rune_error, suc i) else (dst ++ slice p i j, j)

-- The loop of appendEscaped. Each round but the last passes a byte.
unfoldable pub escape_rounds : ℕ → Bytes → Bytes → ℕ → Bytes
unfolding plain_step append_escaped_ascii append_utf8 body_byte
escape_rounds zero dst p i = dst
escape_rounds (suc rounds) dst p i =
    let j = plain_step p i in
    let dst' = dst ++ slice p i j in
    elim (byte_at p j) [
      | none ↦ dst'
      | some c ↦ elim (body_byte c) [
        | false ↦ escape_rounds rounds (append_escaped_ascii dst' c) p (suc j)
        | true ↦ (let (out, next) = append_utf8 dst' p j in escape_rounds rounds out p next)
      ]
    ]

unfoldable pub append_escaped : Bytes → Bytes → Bytes
unfolding escape_rounds
append_escaped dst p = escape_rounds (suc (length p)) dst p 0

unfoldable pub escape_string : Bytes → Bytes
unfolding clean_run append_escaped
escape_string p =
    let i = clean_run p 0 in if i == length p then p else append_escaped (take i p) (drop i p)
