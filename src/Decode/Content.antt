-- ===== src/Decode/Content.antt =====
-- The text that the body of a string token stands for, by the grammar and not by the scanners.
use go_jsonfast.Base.{ℕ, true, false, some, [], ◌∷◌, ◌++◌, ◌≡◌, ◌≢◌, ℤ, leb_ℤ, Bytes}
use go_jsonfast.Swar.{body_byte}
use go_jsonfast.Utf8.{rune_error, is_surrogate, decode_pair, encode_point}
use go_jsonfast.Strings.{bad_rune, unescape_byte, hex4, unicode_escape}
use go_jsonfast.Strings.Grammar.{CleanUnit}
use go_jsonfast.Strings.Units.{stops_clean}

-- U+FFFD
abbrev pub replacement : Bytes
replacement = 0xef ∷ 0xbf ∷ 0xbd ∷ []

module _ (lowest : ℤ) where
  -- What is not written as it is: a text begins with it, the bytes that it stands for, and the text
  -- behind it.
  pub data Stands : Bytes → Bytes → Bytes → Type 0 where
    short :
        {c d : ℕ} {v : Bytes}
        → c ≡ b'\\'
        → d ≢ b'u'
        → unescape_byte d ≢ 0
        → Stands (c ∷ d ∷ v) (unescape_byte d ∷ []) v
    point :
        {s t a b c d h : ℕ} {v : Bytes}
        → s ≡ b'\\'
        → t ≡ b'u'
        → hex4 a b c d ≡ some h
        → is_surrogate h ≡ false
        → Stands (s ∷ t ∷ a ∷ b ∷ c ∷ d ∷ v) (encode_point h) v
    pair :
        {s t a b c d h s' t' a' b' c' d' l : ℕ} {v : Bytes}
        → s ≡ b'\\'
        → t ≡ b'u'
        → hex4 a b c d ≡ some h
        → is_surrogate h ≡ true
        → s' ≡ b'\\'
        → t' ≡ b'u'
        → hex4 a' b' c' d' ≡ some l
        → decode_pair h l ≢ rune_error
        → Stands
            (s ∷ t ∷ a ∷ b ∷ c ∷ d ∷ s' ∷ t' ∷ a' ∷ b' ∷ c' ∷ d' ∷ v)
            (encode_point (decode_pair h l))
            v
    -- a half that no escape behind it joins
    lone :
        {s t a b c d h : ℕ} {v : Bytes}
        → s ≡ b'\\'
        → t ≡ b'u'
        → hex4 a b c d ≡ some h
        → is_surrogate h ≡ true
        → ((l : ℕ) → unicode_escape v ≡ some l → decode_pair h l ≡ rune_error)
        → leb_ℤ lowest bad_rune ≡ true
        → Stands (s ∷ t ∷ a ∷ b ∷ c ∷ d ∷ v) replacement v
    -- a byte that begins no valid encoding
    bad :
        {c : ℕ} {v : Bytes}
        → body_byte c ≡ true
        → stops_clean (c ∷ v) ≡ true
        → leb_ℤ lowest bad_rune ≡ true
        → Stands (c ∷ v) replacement v

  -- A text begins with a body and the closing quote: the text that the body stands for, and the
  -- rest behind the quote.
  pub data Reads : Bytes → Bytes → Bytes → Type 0 where
    closed : {s x r : Bytes} → s ≡ b'"' ∷ r → x ≡ [] → Reads s x r
    kept :
        {s x : Bytes} (u v y : Bytes) {r : Bytes}
        → s ≡ u ++ v
        → x ≡ u ++ y
        → CleanUnit u
        → Reads v y r
        → Reads s x r
    stood :
        {s x : Bytes} (b v y : Bytes) {r : Bytes}
        → x ≡ b ++ y
        → Stands s b v
        → Reads v y r
        → Reads s x r
