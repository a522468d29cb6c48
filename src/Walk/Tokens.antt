-- ===== src/Walk/Tokens.antt =====
-- The slot of a token and its first byte, and how far each token reaches.
use go_jsonfast.Base.{
  ℕ, ◌<◌, ◌≤◌, Bool, true, false, ◌||◌, some, ◌∷◌, ◌++◌, ◌≡◌, ◌≢◌, refl, ap, sym, subst, ◌∙◌, arith,
  ltb, ◌==◌, ==_iff, if◌then◌else◌, ◌⊎◌, inl, inr, List-cases, length, length-append, drop,
  lt-length-of-drop, byte_at, get_or, Bytes,
}
use go_jsonfast.Base.Bits.{below_all, below_all_at}
use go_jsonfast.Swar.Lanes.{AreBytes, run_of-from}
use go_jsonfast.Swar.Dropped.{AreBytes-drop}
use go_jsonfast.Scan.{skip_ws, skip_scalar}
use go_jsonfast.Scan.Number.{IsInteger, nought, digits, IsNumberText}
use go_jsonfast.Scan.Number.Sound.{skip_number-Took}
use go_jsonfast.Values.Kinds.{
  skip_literal-end, is_letter, scalar_cases, starts_number, skip_number-first,
}
use go_jsonfast.Walk.{slot_of_byte, slot_at, slot_bytes, slot_scalar, slot_end}

byte_below : (text s : Bytes) (i c : ℕ) → AreBytes text → drop i text ≡ c ∷ s → c < 256
byte_below text s i c b e = (subst AreBytes e (AreBytes-drop i text b)).0

slot_bound : below_all (λ c. ltb (slot_of_byte c) 16) 256 ≡ true
unfolding below_all slot_of_byte
slot_bound = refl

ltb_lt : (a b : ℕ) → ltb a b ≡ true → a < b
ltb_lt a b h = ground arith

pub slot_at-lt : (text : Bytes) (i : ℕ) → AreBytes text → slot_at text i < 16
unfolding slot_at
slot_at-lt text i b = elim (List-cases (drop i text)) [
  | inl e ↦ rw (e, slot_at) (omega arith)
  | inr (c, s, e) ↦
      rw (e, slot_at)
        (ltb_lt (slot_of_byte c) 16
          (below_all_at (λ c. ltb (slot_of_byte c) 16) 256 (byte_below text s i c b e) slot_bound))
]

abbrev byte_test : ℕ → Bool
byte_test c = slot_of_byte c == slot_scalar || get_or slot_bytes (slot_of_byte c) 0 == c

byte_table : below_all byte_test 256 ≡ true
unfolding below_all slot_of_byte
byte_table = refl

or_second : (a b c d : ℕ) → (a == b || c == d) ≡ true → a ≢ b → c ≡ d
or_second a b c d h ne = ground arith

slot_of_byte-byte :
    (c : ℕ) → c < 256 → slot_of_byte c ≢ slot_scalar → get_or slot_bytes (slot_of_byte c) 0 ≡ c
slot_of_byte-byte c lt h = or_second _ _ _ _ (below_all_at byte_test 256 lt byte_table) h

-- A slot but those of scalars and of the end has one byte.
pub slot_at-byte :
    (text : Bytes) (i : ℕ)
    → AreBytes text
    → slot_at text i ≢ slot_scalar
    → slot_at text i ≢ slot_end
    → byte_at text i ≡ some (get_or slot_bytes (slot_at text i) 0)
unfolding slot_at
slot_at-byte text i b h h' = elim (List-cases (drop i text)) [
  | inl e ↦ absurd (h' (rw (e, slot_at)))
  | inr (c, s, e) ↦
      let slot : slot_at text i ≡ slot_of_byte c = rw (e, slot_at) in
      let one = sym (slot_of_byte-byte c (byte_below text s i c b e) (λ z. h (slot ∙ z))) in
      let here : byte_at text i ≡ some c = rw (e, byte_at) in
      here ∙ ap some (one ∙ ap (λ k. get_or slot_bytes k 0) (sym slot))
]

abbrev scalar_test : ℕ → Bool
scalar_test c = if is_letter c || starts_number c then slot_of_byte c == slot_scalar else true

scalar_table : below_all scalar_test 256 ≡ true
unfolding below_all slot_of_byte starts_number
scalar_table = refl

scalar_slot :
    (c : ℕ) → c < 256 → (is_letter c || starts_number c) ≡ true → slot_of_byte c ≡ slot_scalar
scalar_slot c lt h =
    let t = below_all_at scalar_test 256 lt scalar_table in
    let t' : (slot_of_byte c == slot_scalar) ≡ true = rw h at t in
    (==_iff (slot_of_byte c) slot_scalar).0 t'

number-nonempty : (u : Bytes) → IsNumberText u → 1 ≤ length u
number-nonempty u n = omega (
  arith,
  ap length n.splits,
  length-append n.sign (n.integer ++ (n.fraction ++ n.exponent)),
  length-append n.integer (n.fraction ++ n.exponent),
  integer-nonempty n.integer n.is_integer,
)
  where
    integer-nonempty : (m : Bytes) → IsInteger m → 1 ≤ length m
    integer-nonempty m (nought z) = omega arith
    integer-nonempty m (digits d z h) = omega arith

either : (x y : Bool) → (x ≡ true) ⊎ (y ≡ true) → (x || y) ≡ true
either true y h = refl
either false y (inl h) = cc
either false y (inr h) = h

-- A scalar that is scanned stands at the slot of scalars, and is not empty.
pub skip_scalar-slot :
    (text : Bytes) (i j : ℕ)
    → AreBytes text
    → skip_scalar text i ≡ some j
    → (slot_at text i ≡ slot_scalar) × (i < j) × (i < length text)
unfolding slot_at skip_scalar
skip_scalar-slot text i j b h = elim (List-cases (drop i text)) [
  | inl e ↦ cc (rw (e, skip_scalar) at h)
  | inr (c, s, e) ↦
      let slot : slot_at text i ≡ slot_of_byte c = rw (e, slot_at) in
      let lt = byte_below text s i c b e in
      elim (scalar_cases text s i c e h) [
        | inl (letter, (lit, some_text, literal)) ↦
            let end = skip_literal-end text i j lit literal in
            (
              slot ∙ scalar_slot c lt (either (is_letter c) (starts_number c) (inl letter)),
              omega arith,
              lt-length-of-drop i text e,
            )
        | inr number ↦
            let first = skip_number-first text s i c e number in
            let (u, split, end, n) = skip_number-Took text i number in
            (
              slot ∙ scalar_slot c lt (either (is_letter c) (starts_number c) (inr first)),
              omega (arith, number-nonempty u n),
              lt-length-of-drop i text e,
            )
      ]
]

pub skip_ws-ge : (text : Bytes) (i : ℕ) → i ≤ skip_ws text i
unfolding skip_ws
skip_ws-ge text i = omega (arith, run_of-from _ (drop i text) i)

pub Token-lt : (text : Bytes) (i c : ℕ) → byte_at text i ≡ some c → i < length text
Token-lt text i c h = elim (List-cases (drop i text)) [
  | inl e ↦ cc (rw (e, byte_at) at h)
  | inr (d, s, e) ↦ lt-length-of-drop i text e
]
