-- ===== src/Strings/Units.antt =====
-- What cleanRun and bodyRun of swar.go pass: sequences of units, the runes of several bytes among
-- them.
use go_jsonfast.Base.{
  ℕ, ◌+◌, ◌≤◌, Bool, true, false, not, ◌&&◌, [], ◌∷◌, ◌++◌, ◌≡◌, inl, inr, refl, arith, ltb, ◌==◌,
  if◌then◌else◌, Bool-cases, length, drop, Bytes,
}
use go_jsonfast.Swar.{plain_byte, body_byte, rune_self}
use go_jsonfast.Utf8.{rune_size, within, is_continuation, second_of_three, second_of_four}
use go_jsonfast.Strings.Grammar.{IsRune, two, three, four}

-- A sequence of units.
pub data Units (Single : Bytes → Type 0) : Bytes → Type 0 where
  none_left : Units Single []
  more : {w : Bytes} (u v : Bytes) → w ≡ u ++ v → Single u → Units Single v → Units Single w

-- A run passes units up to `k`, and what stands there begins with no unit.
pub record Passes (Single : Bytes → Type 0) (stops : Bytes → Bool) (text : Bytes) (j k : ℕ)
    : Type 0 where
  pub passed : Bytes
  pub splits : drop j text ≡ passed ++ drop k text
  pub end_is : k ≡ j + length passed
  pub units : Units Single passed
  pub stop : stops (drop k text) ≡ true

-- No byte of a string body stands here.
unfoldable pub stops_any : Bytes → Bool
unfolding body_byte
stops_any [] = true
stops_any (c ∷ s) = not (body_byte c)

-- Neither a plain byte nor a rune of several bytes stands here.
unfoldable pub stops_clean : Bytes → Bool
unfolding plain_byte rune_size
stops_clean [] = true
stops_clean (c ∷ s) =
    if plain_byte c then false else if ltb c rune_self then true else rune_size (c ∷ s) == 1

pub Units-map :
    {P S : Bytes → Type 0} {w : Bytes} → ((u : Bytes) → P u → S u) → Units P w → Units S w
Units-map g none_left = none_left
Units-map g (more u v e h t) = more u v e (g u h) (Units-map g t)

-- What a valid encoding of several bytes begins with is one of the table, and back.
pub IsRune-of_size :
    (s : Bytes)
    → 2 ≤ rune_size s
    → (u : Bytes) × (r : Bytes) × (s ≡ u ++ r) × (length u ≡ rune_size s) × IsRune u
unfolding rune_size
IsRune-of_size [] = λ h. absurd (omega arith)
IsRune-of_size (a ∷ []) = λ h. absurd (omega arith)
IsRune-of_size (a ∷ b ∷ []) = elim (Bool-cases (within 0xc2 0xdf a && is_continuation b)) [
  | inl t ↦ rw t (λ h. (a ∷ b ∷ [], [], refl, refl, two (ground arith) (ground arith)))
  | inr f ↦ rw f (λ h. absurd (omega arith))
]
IsRune-of_size (a ∷ b ∷ c ∷ []) = elim (Bool-cases (within 0xc2 0xdf a && is_continuation b)) [
  | inl t ↦ rw t (λ h. (a ∷ b ∷ [], c ∷ [], refl, refl, two (ground arith) (ground arith)))
  | inr f ↦ elim (Bool-cases (within 0xe0 0xef a && second_of_three a b && is_continuation c)) [
    | inl t ↦
        rw (f, t)
          (λ h.
            (a ∷ b ∷ c ∷ [], [], refl, refl, three (ground arith) (ground arith) (ground arith)))
    | inr f' ↦ rw (f, f') (λ h. absurd (omega arith))
  ]
]
IsRune-of_size (a ∷ b ∷ c ∷ d ∷ s) = elim (Bool-cases (within 0xc2 0xdf a && is_continuation b)) [
  | inl t ↦ rw t (λ h. (a ∷ b ∷ [], c ∷ d ∷ s, refl, refl, two (ground arith) (ground arith)))
  | inr f ↦ elim (Bool-cases (within 0xe0 0xef a && second_of_three a b && is_continuation c)) [
    | inl t ↦
        rw (f, t)
          (λ h.
            (a ∷ b ∷ c ∷ [], d ∷ s, refl, refl, three (ground arith) (ground arith) (ground arith)))
    | inr f' ↦
        elim (Bool-cases
          (within 0xf0 0xf4 a && second_of_four a b && is_continuation c && is_continuation d)) [
            | inl t ↦
                rw (f, f', t)
                  (λ h. (
                    a ∷ b ∷ c ∷ d ∷ [],
                    s,
                    refl,
                    refl,
                    four (ground arith) (ground arith) (ground arith) (ground arith),
                  ))
            | inr f₂ ↦ rw (f, f', f₂) (λ h. absurd (omega arith))
          ]
  ]
]

pub rune_size_pos : (c : ℕ) (s : Bytes) → 1 ≤ rune_size (c ∷ s)
unfolding rune_size
rune_size_pos a [] = omega arith
rune_size_pos a (b ∷ []) = ground arith
rune_size_pos a (b ∷ c ∷ []) = ground arith
rune_size_pos a (b ∷ c ∷ d ∷ s) = ground arith

pub at_least_two : (n : ℕ) → 1 ≤ n → (n == 1) ≡ false → 2 ≤ n
at_least_two n h f = ground arith

pub IsRune-rune_size : (u r : Bytes) → IsRune u → rune_size (u ++ r) ≡ length u
unfolding rune_size
IsRune-rune_size u [] (two p q) = ground arith
IsRune-rune_size u (x ∷ []) (two p q) = ground arith
IsRune-rune_size u (x ∷ y ∷ r) (two p q) = ground arith
IsRune-rune_size u [] (three p q t) = ground arith
IsRune-rune_size u (x ∷ r) (three p q t) = ground arith
IsRune-rune_size u r (four p q t v) = ground arith

abbrev pub stops_plain : Bytes → Bool
stops_plain [] = true
stops_plain (c ∷ s) = not (plain_byte c)

abbrev pub PlainUnit : Bytes → Type 0
PlainUnit u = (c : ℕ) × (u ≡ c ∷ []) × (plain_byte c ≡ true)
