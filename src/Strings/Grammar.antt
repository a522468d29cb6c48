-- ===== src/Strings/Grammar.antt =====
-- The bodies of JSON strings, byte by byte: what may stand between the two quotes. A reading gives
-- the units that stand for themselves, and the lowest rune that it keeps.
use go_jsonfast.Base.{ℕ, true, false, some, [], ◌∷◌, ◌++◌, ◌≡◌, ◌≢◌, ◌⊎◌, ℤ, leb_ℤ, Bytes}
use go_jsonfast.Swar.{plain_byte, body_byte}
use go_jsonfast.Utf8.{
  within, is_continuation, second_of_three, second_of_four, rune_error, is_surrogate, decode_pair,
}
use go_jsonfast.Strings.{any_body, utf8_body, bad_rune, unescape_byte, hex4}

-- A byte that a body holds as it is, UTF-8 unchecked.
abbrev pub AnyUnit : Bytes → Type 0
AnyUnit u = (c : ℕ) × (u ≡ c ∷ []) × (body_byte c ≡ true)

-- The encodings of two bytes and more.
pub data IsRune : Bytes → Type 0 where
  two : {a b : ℕ} → within 0xc2 0xdf a ≡ true → is_continuation b ≡ true → IsRune (a ∷ b ∷ [])
  three :
      {a b c : ℕ}
      → within 0xe0 0xef a ≡ true
      → second_of_three a b ≡ true
      → is_continuation c ≡ true
      → IsRune (a ∷ b ∷ c ∷ [])
  four :
      {a b c d : ℕ}
      → within 0xf0 0xf4 a ≡ true
      → second_of_four a b ≡ true
      → is_continuation c ≡ true
      → is_continuation d ≡ true
      → IsRune (a ∷ b ∷ c ∷ d ∷ [])

-- A plain ASCII byte, or a rune of two bytes or more.
abbrev pub CleanUnit : Bytes → Type 0
CleanUnit u = ((c : ℕ) × (u ≡ c ∷ []) × (plain_byte c ≡ true)) ⊎ IsRune u

module _ (Single : Bytes → Type 0) (lowest : ℤ) where
  pub data IsBody : Bytes → Type 0 where
    done : IsBody []
    unit : {w : Bytes} (u v : Bytes) → w ≡ u ++ v → Single u → IsBody v → IsBody w
    short :
        {c d : ℕ} {v : Bytes}
        → c ≡ b'\\'
        → d ≢ b'u'
        → unescape_byte d ≢ 0
        → IsBody v
        → IsBody (c ∷ d ∷ v)
    -- \uXXXX of a code point
    point :
        {s t a b c d h : ℕ} {v : Bytes}
        → s ≡ b'\\'
        → t ≡ b'u'
        → hex4 a b c d ≡ some h
        → is_surrogate h ≡ false
        → IsBody v
        → IsBody (s ∷ t ∷ a ∷ b ∷ c ∷ d ∷ v)
    -- a surrogate pair of two escapes
    pair :
        {s t a b c d h s' t' a' b' c' d' l : ℕ} {v : Bytes}
        → s ≡ b'\\'
        → t ≡ b'u'
        → hex4 a b c d ≡ some h
        → is_surrogate h ≡ true
        → s' ≡ b'\\'
        → t' ≡ b'u'
        → hex4 a' b' c' d' ≡ some l
        → decode_pair h l ≢ rune_error
        → IsBody v
        → IsBody (s ∷ t ∷ a ∷ b ∷ c ∷ d ∷ s' ∷ t' ∷ a' ∷ b' ∷ c' ∷ d' ∷ v)
    -- a lone half, where the reading keeps bad runes
    lone :
        {s t a b c d h : ℕ} {v : Bytes}
        → s ≡ b'\\'
        → t ≡ b'u'
        → hex4 a b c d ≡ some h
        → is_surrogate h ≡ true
        → leb_ℤ lowest bad_rune ≡ true
        → IsBody v
        → IsBody (s ∷ t ∷ a ∷ b ∷ c ∷ d ∷ v)

-- What json.Valid takes for a string body, and what ValidUTF8 does.
abbrev pub IsAnyBody : Bytes → Type 0
IsAnyBody = IsBody AnyUnit any_body

abbrev pub IsStrictBody : Bytes → Type 0
IsStrictBody = IsBody CleanUnit utf8_body
