-- ===== src/Strings/Reading.antt =====
-- What the loop of stringEnd and strictEnd relies on, and the escapes that it passes.
use go_jsonfast.Base.{
  ℕ, Bool, true, false, some, ◌∷◌, ◌++◌, ◌≡◌, ◌≢◌, ◌⊎◌, inl, inr, refl, arith, if◌then◌else◌,
  Bool-cases, ℤ, pos, leb_ℤ, Bytes,
}
use go_jsonfast.Swar.{body_byte}
use go_jsonfast.Utf8.{rune_error, decode_pair}
use go_jsonfast.Strings.{
  bad_rune, malformed_rune, unescape_byte, short_escape, hex4, unicode_escape, rune_of_escape,
  rune_at, rune_end, Piece, fault, ends, on, piece,
}

-- What the loop relies on: how its run stops, and that units are told apart by what they begin with.
pub record IsReading (Single : Bytes → Type 0) (stops : Bytes → Bool) (lowest : ℤ) : Type 0 where
  pub refuses : leb_ℤ lowest malformed_rune ≡ false
  pub stop_byte :
      (c : ℕ) (s : Bytes)
      → stops (c ∷ s) ≡ true
      → leb_ℤ lowest bad_rune ≡ true
      → body_byte c ≡ false
  pub keeps : (h : ℕ) → leb_ℤ lowest (pos h) ≡ true
  pub no_unit : (u s : Bytes) → Single u → stops (u ++ s) ≡ false
  pub unit_start :
      (u s : Bytes) (c : ℕ) (r : Bytes) → Single u → u ++ s ≡ c ∷ r → (c ≢ b'"') × (c ≢ b'\\')
  pub same_unit : (u v s r : Bytes) → Single u → Single v → u ++ s ≡ v ++ r → (u ≡ v) × (s ≡ r)

pub piece_short :
    (c d : ℕ) (s : Bytes) (lowest : ℤ)
    → c ≡ b'\\'
    → d ≢ b'u'
    → unescape_byte d ≢ 0
    → piece (c ∷ d ∷ s) lowest ≡ on 2
unfolding piece short_escape
piece_short c d s lowest back letter value = rw back (ground arith)

abbrev pub turned : ℤ → ℤ × ℕ → Piece
turned lowest (r, n) = if leb_ℤ lowest r then on n else fault

pub piece_unicode :
    (x t a b c d h : ℕ) (v : Bytes) (lowest : ℤ)
    → x ≡ b'\\'
    → t ≡ b'u'
    → hex4 a b c d ≡ some h
    → piece (x ∷ t ∷ a ∷ b ∷ c ∷ d ∷ v) lowest
      ≡ turned lowest (rune_of_escape (some h) (unicode_escape v))
unfolding piece short_escape rune_end rune_at unicode_escape
piece_unicode x t a b c d h v lowest back letter hex =
    let r = rune_of_escape (some h) (unicode_escape v) in
    rw (back, letter)
      (rw hex (elim (Bool-cases (leb_ℤ lowest r.0)) [ inl k ↦ rw k | inr k ↦ rw k ]))

pub unicode_escape_at :
    (x t a b c d : ℕ) (v : Bytes)
    → x ≡ b'\\'
    → t ≡ b'u'
    → unicode_escape (x ∷ t ∷ a ∷ b ∷ c ∷ d ∷ v) ≡ hex4 a b c d
unfolding unicode_escape
unicode_escape_at x t a b c d v back letter = rw (back, letter)

-- The second half of a pair is not the first half of another.
pub halves : (h l m : ℕ) → decode_pair h l ≢ rune_error → decode_pair l m ≢ rune_error → ⊥
unfolding decode_pair
halves h l m first second = ground arith

pub Piece-cases : (p : Piece) → (p ≡ fault) ⊎ ((p ≡ ends) ⊎ ((n : ℕ) × (p ≡ on n)))
Piece-cases fault = inl refl
Piece-cases ends = inr (inl refl)
Piece-cases (on n) = inr (inr (n, refl))
