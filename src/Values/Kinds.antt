-- ===== src/Values/Kinds.antt =====
-- KindOf on the values that the scanner accepts.
use go_jsonfast.Base.{
  not, ℕ, zero, suc, ◌+◌, ◌-◌, Bool, true, false, ◌&&◌, ◌||◌, some, ◌∷◌, ◌++◌, append_assoc, ◌≡◌,
  ◌≢◌, ◌⊎◌, ◌≤◌, refl, ap, sym, ◌∙◌, ◌↔◌, arith, ltb, leb, ◌==◌, inl, inr, Bool-cases, List-cases,
  length, take, drop, slice, Bytes,
}
use go_jsonfast.Scan.Texts.{bytes_eq_sound}
use go_jsonfast.Scan.{
  skip_ws, skip_scalar, skip_literal, skip_number, is_digit, bytes_eq, lit_true, lit_false,
  lit_null,
}
use go_jsonfast.Scan.Number.{IsSign, unsigned, minus, IsInteger, nought, digits}
use go_jsonfast.Scan.Number.Sound.{skip_number-Took}
use go_jsonfast.Values.{kind_number, skip_value_at, kind_of, kind_of_byte, kind_invalid, kind_null}

both : (x y : Bool) → (x && y) ≡ true → (x ≡ true) × (y ≡ true)
both true true h = (refl, refl)
both true false h = cc
both false y h = cc

skip_literal-eq-some :
    (text : Bytes) (i j : ℕ) (lit : Bytes) → skip_literal text i lit ≡ some j → slice text i j ≡ lit
unfolding skip_literal
skip_literal-eq-some text i j lit h = elim (Bool-cases (ltb (length text - i) (length lit))) [
  | inl short ↦ cc (rw (short, skip_literal) at h)
  | inr fits ↦ elim (Bool-cases (bytes_eq (slice text i (i + length lit)) lit)) [
    | inr other ↦ cc (rw (fits, other, skip_literal) at h)
    | inl same ↦
        let h' : some (i + length lit) ≡ some j = rw (fits, same, skip_literal) at h in
        let end : i + length lit ≡ j = cc in ap (slice text i) (sym end) ∙ bytes_eq_sound _ lit same
  ]
]

unfoldable pub starts_number : ℕ → Bool
starts_number c = c == b'-' || (leb b'0' c && leb c b'9')

pub skip_literal-end :
    (text : Bytes) (i j : ℕ) (lit : Bytes) → skip_literal text i lit ≡ some j → j ≡ i + length lit
unfolding skip_literal
skip_literal-end text i j lit h =
    elim (Bool-cases
      (ltb (length text - i) (length lit) || not (bytes_eq (slice text i (i + length lit)) lit))) [
        | inl bad ↦ cc (rw (bad, skip_literal) at h)
        | inr good ↦ let h' : some (i + length lit) ≡ some j = rw (good, skip_literal) at h in cc
      ]

-- A number begins with a minus or a digit.
first_of_number :
    (g m x s : Bytes) (c : ℕ)
    → IsSign g
    → IsInteger m
    → c ∷ s ≡ g ++ (m ++ x)
    → starts_number c ≡ true
unfolding starts_number is_digit
first_of_number g m x s c (minus {c = d} h) n e = let same : c ≡ d = cc in ground arith
first_of_number g m x s c unsigned (nought {c = d} h) e = let same : c ≡ d = cc in ground arith
first_of_number g m x s c unsigned (digits {c = d} k h t) e =
    let same : c ≡ d = cc in let digit : is_digit c ≡ true = rw same k in ground arith

pub skip_number-first :
    (text s : Bytes) (i c : ℕ) {j : ℕ}
    → drop i text ≡ c ∷ s
    → skip_number text i ≡ some j
    → starts_number c ≡ true
skip_number-first text s i c {j} e h =
    let (u, split, at, n) = skip_number-Took text i h in
    first_of_number n.sign n.integer ((n.fraction ++ n.exponent) ++ drop j text) s c n.is_sign_text
      n.is_integer
      (sym e
        ∙ split
        ∙ ap (λ w. w ++ drop j text) n.splits
        ∙ append_assoc n.sign (n.integer ++ (n.fraction ++ n.exponent)) (drop j text)
        ∙ ap (λ w. n.sign ++ w) (append_assoc n.integer (n.fraction ++ n.exponent) (drop j text)))

number_kind : (c : ℕ) → starts_number c ≡ true → kind_of_byte c ≡ kind_number
unfolding starts_number kind_of_byte
number_kind c h = ground arith

null_byte : (c : ℕ) → kind_of_byte c ≡ kind_null → c ≡ b'n'
unfolding kind_of_byte
null_byte c h = ground arith

null_first :
    (text s : Bytes) (i j c : ℕ) → drop i text ≡ c ∷ s → slice text i j ≡ lit_null → c ≡ b'n'
null_first text s i j c e h = first (j - i) (ap (take (j - i)) (sym e) ∙ h)
  where
    first : (n : ℕ) → take n (c ∷ s) ≡ lit_null → c ≡ b'n'
    first zero t = cc
    first (suc n) t = cc

special : ℕ → Bool
special c = c == b'"' || c == b'{' || c == b'[' || c == b't' || c == b'f' || c == b'n'

special_kind : (c : ℕ) → special c ≡ true → kind_of_byte c ≢ kind_invalid
unfolding special kind_of_byte
special_kind c h = ground arith

-- A literal or a number, by its first byte.
abbrev pub is_letter : ℕ → Bool
is_letter c = c == b't' || c == b'f' || c == b'n'

pub scalar_cases :
    (text s : Bytes) (i c : ℕ) {j : ℕ}
    → drop i text ≡ c ∷ s
    → skip_scalar text i ≡ some j
    → ((is_letter c ≡ true)
        × ((lit : Bytes) × (1 ≤ length lit) × (skip_literal text i lit ≡ some j)))
      ⊎ (skip_number text i ≡ some j)
unfolding skip_scalar
scalar_cases text s i c {j} e h = elim (Bool-cases (c == b't')) [
  | inl t ↦ inl (ground arith, (lit_true, omega arith, rw (e, t, skip_scalar) at h))
  | inr t ↦ elim (Bool-cases (c == b'f')) [
    | inl f ↦ inl (ground arith, (lit_false, omega arith, rw (e, t, f, skip_scalar) at h))
    | inr f ↦ elim (Bool-cases (c == b'n')) [
      | inl n ↦ inl (ground arith, (lit_null, omega arith, rw (e, t, f, n, skip_scalar) at h))
      | inr n ↦ inr (rw (e, t, f, n, skip_scalar) at h)
    ]
  ]
]

letter_special : (c : ℕ) → is_letter c ≡ true → special c ≡ true
unfolding special
letter_special c h = ground arith

value_cases :
    (text s : Bytes) (c : ℕ) {j : ℕ}
    → drop (skip_ws text 0) text ≡ c ∷ s
    → skip_value_at text 0 ≡ some j
    → (special c ≡ true) ⊎ (skip_number text (skip_ws text 0) ≡ some j)
unfolding special skip_value_at
value_cases text s c {j} e h = elim (Bool-cases (c == b'"')) [
  | inl quote ↦ inl (ground arith)
  | inr quote ↦ elim (Bool-cases (c == b'{' || c == b'[')) [
    | inl opener ↦ inl (ground arith)
    | inr opener ↦
        (let h' : skip_scalar text (skip_ws text 0) ≡ some j =
            rw (e, quote, opener, skip_value_at) at h in
          elim (scalar_cases text s (skip_ws text 0) c e h') [
            | inl (letter, _) ↦ inl (letter_special c letter)
            | inr number ↦ inr number
          ])
  ]
]

null_value :
    (text s : Bytes) (j : ℕ)
    → drop (skip_ws text 0) text ≡ b'n' ∷ s
    → skip_value_at text 0 ≡ some j
    → skip_literal text (skip_ws text 0) lit_null ≡ some j
unfolding skip_value_at skip_scalar
null_value text s j e h =
    let scalar : skip_scalar text (skip_ws text 0) ≡ some j = rw (e, skip_value_at) at h in
    rw (e, skip_scalar) at scalar

-- What KindOf tells of a value that the scan past it accepts.
abbrev pub KindFits : Bytes → ℕ → Type 0
KindFits text j =
    (kind_of text ≢ kind_invalid)
    × ((kind_of text ≡ kind_null) ↔ (slice text (skip_ws text 0) j ≡ lit_null))

kind_fits :
    (text s : Bytes) (c j : ℕ)
    → drop (skip_ws text 0) text ≡ c ∷ s
    → kind_of text ≡ kind_of_byte c
    → skip_value_at text 0 ≡ some j
    → KindFits text j
kind_fits text s c j e k h = (
  elim (value_cases text s c e h) [
    | inl t ↦ λ z. special_kind c t (sym k ∙ z)
    | inr n ↦
        let number = number_kind c (skip_number-first text s (skip_ws text 0) c e n) in
        λ z. cc (sym number ∙ sym k ∙ z)
  ],
  (
    λ z.
        let first = null_byte c (sym k ∙ z) in
        let e' : drop (skip_ws text 0) text ≡ b'n' ∷ s = e ∙ ap (λ d. d ∷ s) first in
        skip_literal-eq-some text (skip_ws text 0) j lit_null (null_value text s j e' h),
    λ z. k ∙ ap kind_of_byte (null_first text s (skip_ws text 0) j c e z) ∙ null_kind,
  ),
)
  where
    null_kind : kind_of_byte b'n' ≡ kind_null
    null_kind = unfold kind_of_byte in refl

-- A text that skipValueAt accepts from its start is never of the kind KindInvalid, and is of the
-- kind KindNull exactly when the value is the literal null.
pub skip_value_at-KindFits :
    (text : Bytes) (j : ℕ) → skip_value_at text 0 ≡ some j → KindFits text j
unfolding skip_value_at kind_of
skip_value_at-KindFits text j h = elim (List-cases (drop (skip_ws text 0) text)) [
  | inl e ↦ cc (rw (e, skip_value_at) at h)
  | inr (c, s, e) ↦ kind_fits text s c j e (rw (e, kind_of)) h
]
