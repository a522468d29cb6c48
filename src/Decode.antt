-- ===== src/Decode.antt =====
-- decode.go: the text that a string token stands for, and whether a token stands for a given text.
-- The arena, which only says where the decoded bytes lie, is left out: a decoded text is a value.
pub mod Content
pub mod Pieces
pub mod Forward
pub mod Exact
pub mod Tokens
pub mod Equal
pub mod Bodies
pub mod Total
pub mod Ends
pub mod Resume
pub mod Escaped
use go_jsonfast.Base.{
  ℕ, zero, suc, ◌+◌, ◌-◌, Bool, true, false, ◌&&◌, not, Option, some, none, [], ◌∷◌, ◌++◌, ◌==◌,
  if◌then◌else◌, ℤ, leb_ℤ, length, drop, byte_at, slice, Bytes,
}
use go_jsonfast.Utf8.{encode_rune}
use go_jsonfast.Strings.{clean_run, any_body, utf8_body, short_escape, short_escape_len, rune_at}

-- What the loops of decodeFrom and matchedPrefix meet behind a clean run: no string, the closing
-- quote, or what stands for these bytes and takes this many.
pub data Written : Type 0 where
  fault : Written
  closes : Written
  writes : Bytes → ℕ → Written

unfoldable pub written_rune : ℤ → ℤ × ℕ → Written
unfolding encode_rune
written_rune lowest (r, n) = if leb_ℤ lowest r then writes (encode_rune r) n else fault

unfoldable pub written : Bytes → ℤ → Written
unfolding short_escape rune_at written_rune
written [] lowest = fault
written (c ∷ s) lowest =
    if c == b'"'
    then closes
    else if not (short_escape (c ∷ s) == 0)
    then writes (short_escape (c ∷ s) ∷ []) short_escape_len
    else written_rune lowest (rune_at (c ∷ s))

-- The loop of decodeFrom: `v` is decoded, and from `j` to `k` stands a clean run. Each round but the
-- last passes a byte.
unfoldable pub decode_rounds : ℕ → Bytes → ℕ → ℕ → ℤ → Bytes → Option (Bytes × ℕ)
unfolding written clean_run
decode_rounds zero text j k lowest v = none
decode_rounds (suc rounds) text j k lowest v = elim (written (drop k text) lowest) [
  | fault ↦ none
  | closes ↦ some (v ++ slice text j k, suc k)
  | writes b n ↦
      decode_rounds rounds text (k + n) (clean_run text (k + n)) lowest (v ++ slice text j k ++ b)
]

unfoldable pub decode_from : Bytes → ℕ → ℕ → ℤ → Option (Bytes × ℕ)
unfolding decode_rounds
decode_from text j k lowest = decode_rounds (suc (length text)) text j k lowest []

-- The value of a token and the index past it, with the outcome strStatus.
pub data StringToken : Type 0 where
  str_malformed : StringToken
  str_view : Bytes → ℕ → StringToken
  str_decoded : Bytes → ℕ → StringToken

-- i < len(data) && data[i] == c
abbrev pub stands : Bytes → ℕ → ℕ → Bool
stands text i c = elim (byte_at text i) [ none ↦ false | some d ↦ d == c ]

abbrev pub decoded_token : Option (Bytes × ℕ) → StringToken
decoded_token none = str_malformed
decoded_token (some (v, end)) = str_decoded v end

unfoldable pub token_at : Bytes → ℕ → ℤ → StringToken
unfolding clean_run decode_from
token_at text i lowest =
    let j = clean_run text (suc i) in
    let rest = decoded_token (decode_from text (suc i) j lowest) in
    if not (stands text i b'"')
    then str_malformed
    else if stands text j b'"'
    then str_view (slice text (suc i) j) (suc j)
    else rest

-- `(value, end, st)` of a token, where st is not strMalformed.
abbrev pub token_value : StringToken → Option (Bytes × ℕ)
token_value str_malformed = none
token_value (str_view v end) = some (v, end)
token_value (str_decoded v end) = some (v, end)

unfoldable pub strict_token : Bytes → ℕ → Option (Bytes × ℕ)
unfolding token_at
strict_token text i = token_value (token_at text i utf8_body)

unfoldable pub decode_token : Bytes → StringToken
unfolding token_at
decode_token d =
    let t = token_at d 0 any_body in
    elim (token_value t) [
      | none ↦ str_malformed
      | some (v, end) ↦ if not (end == length d) then str_malformed else t
    ]

-- DecodeString, and DecodeStringView, which differ in what they copy.
unfoldable pub decode_string : Bytes → Option Bytes
unfolding decode_token
decode_string raw = elim (token_value (decode_token raw)) [ none ↦ none | some (v, end) ↦ some v ]

-- bytes.HasPrefix
unfoldable pub has_prefix : Bytes → Bytes → Bool
has_prefix s [] = true
has_prefix [] (x ∷ p) = false
has_prefix (y ∷ s) (x ∷ p) = y == x && has_prefix s p

abbrev pub is_nil : Bytes → Bool
is_nil [] = true
is_nil (_ ∷ _) = false

-- The loop of matchedPrefix, where `s` is what is left to match.
unfoldable pub matched_rounds : ℕ → Bytes → ℕ → Bytes → ℕ × Bool
unfolding clean_run has_prefix written
matched_rounds zero text i s = (i, false)
matched_rounds (suc rounds) text i s =
    let k = clean_run text i in
    let s' = drop (k - i) s in
    elim (has_prefix s (slice text i k)) [
      | false ↦ (k, false)
      | true ↦ elim (written (drop k text) any_body) [
        | fault ↦ (k, false)
        | closes ↦ (k, is_nil s')
        | writes b n ↦ elim (has_prefix s' b) [
          | false ↦ (k + n, false)
          | true ↦ matched_rounds rounds text (k + n) (drop (length b) s')
        ]
      ]
    ]

unfoldable pub matched_prefix : Bytes → ℕ → Bytes → ℕ × Bool
unfolding matched_rounds
matched_prefix text i s = matched_rounds (suc (length text)) text i s

unfoldable pub equal_string : Bytes → Bytes → Bool
unfolding matched_prefix
equal_string raw s =
    let (stop, equal) = matched_prefix raw 1 s in
    if not (stands raw 0 b'"') then false else equal && stop == length raw - 1
