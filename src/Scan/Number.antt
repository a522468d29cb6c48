-- ===== src/Scan/Number.antt =====
-- The numbers of the JSON grammar, -?(0|[1-9][0-9]*)(\.[0-9]+)?([eE][+-]?[0-9]+)?, and the scanner
-- of scan.go that reads one.
pub mod Sound
pub mod Complete
pub mod Exact
use go_jsonfast.Base.{
  ℕ, Bool, true, false, ◌||◌, ◌&&◌, not, [], ◌∷◌, ◌++◌, ◌≡◌, ◌≢◌, refl, ◌==◌, Bytes, drop, ◌+◌,
  length,
}
use go_jsonfast.Scan.{is_digit}

abbrev pub AreDigits : Bytes → Type 0
AreDigits [] = Unit {0}
AreDigits (c ∷ s) = (is_digit c ≡ true) × AreDigits s

pub data IsSign : Bytes → Type 0 where
  unsigned : IsSign []
  minus : {c : ℕ} → c ≡ b'-' → IsSign (c ∷ [])

pub data IsInteger : Bytes → Type 0 where
  nought : {c : ℕ} → c ≡ b'0' → IsInteger (c ∷ [])
  digits : {c : ℕ} {s : Bytes} → is_digit c ≡ true → c ≢ b'0' → AreDigits s → IsInteger (c ∷ s)

pub data IsFraction : Bytes → Type 0 where
  whole : IsFraction []
  point :
      {c d : ℕ} {s : Bytes} → c ≡ b'.' → is_digit d ≡ true → AreDigits s → IsFraction (c ∷ d ∷ s)

abbrev pub is_exponent_mark : ℕ → Bool
is_exponent_mark c = c == b'e' || c == b'E'

abbrev pub is_sign : ℕ → Bool
is_sign c = c == b'+' || c == b'-'

pub data IsExponent : Bytes → Type 0 where
  absent : IsExponent []
  plain :
      {c d : ℕ} {s : Bytes}
      → is_exponent_mark c ≡ true
      → is_digit d ≡ true
      → AreDigits s
      → IsExponent (c ∷ d ∷ s)
  signed :
      {c g d : ℕ} {s : Bytes}
      → is_exponent_mark c ≡ true
      → is_sign g ≡ true
      → is_digit d ≡ true
      → AreDigits s
      → IsExponent (c ∷ g ∷ d ∷ s)

pub record IsNumberText (t : Bytes) : Type 0 where
  pub sign : Bytes
  pub integer : Bytes
  pub fraction : Bytes
  pub exponent : Bytes
  pub splits : t ≡ sign ++ (integer ++ (fraction ++ exponent))
  pub is_sign_text : IsSign sign
  pub is_integer : IsInteger integer
  pub is_fraction : IsFraction fraction
  pub is_exponent : IsExponent exponent

-- What a scan from `i` to `j` took.
abbrev pub Took : (Bytes → Type 0) → Bytes → ℕ → ℕ → Type 0
Took P text i j = (u : Bytes) × (drop i text ≡ u ++ drop j text) × (j ≡ i + length u) × P u
