-- ===== src/Escape/Rules.antt =====
-- Escaping as rules, one for each unit of a text, and what they give: one result for each text, and
-- always a string body that ValidUTF8 accepts.
use go_jsonfast.Base.{
  ℕ, ◌/◌, ◌%◌, ◌<◌, Bool, true, false, some, none, [], ◌∷◌, ◌++◌, ◌≡◌, ◌≢◌, refl, ap, ap₂, sym, ◌∙◌,
  arith, inl, inr, ltb, ◌==◌, ==_iff, ◌||◌, if◌then◌else◌, Bool-cases, Option-cases, get_or, Bytes,
  append_assoc,
}
use go_jsonfast.Base.Bits.{below_all, below_all_at}
use go_jsonfast.Swar.{body_byte, plain_byte, rune_self}
use go_jsonfast.Utf8.{second_of_three, is_surrogate}
use go_jsonfast.Strings.{hex4, unescape_byte}
use go_jsonfast.Strings.Grammar.{CleanUnit, two, three, four, IsBody, IsStrictBody}
use go_jsonfast.Strings.Units.{stops_clean, Units, none_left, more}
use go_jsonfast.Strings.Exact.{clean-IsReading}
use go_jsonfast.Escape.{escape_of, lower_hex, hex_base}

-- `Escapes p q`: p is written as q.
pub data Escapes : Bytes → Bytes → Type 0 where
  done : Escapes [] []
  -- a plain byte or a rune of several bytes, as it is
  kept :
      {p q : Bytes} (u v w : Bytes)
      → p ≡ u ++ v
      → q ≡ u ++ w
      → CleanUnit u
      → Escapes v w
      → Escapes p q
  -- a control byte, a quote or a backslash, by its escape
  escaped :
      {c : ℕ} {v w : Bytes} → body_byte c ≡ false → Escapes v w → Escapes (c ∷ v) (escape_of c ++ w)
  -- a byte that begins no valid encoding, by U+FFFD
  replaced :
      {c : ℕ} {v w : Bytes}
      → body_byte c ≡ true
      → stops_clean (c ∷ v) ≡ true
      → Escapes v w
      → Escapes (c ∷ v) (0xef ∷ 0xbf ∷ 0xbd ∷ w)

pub Units-Escapes : {u v w : Bytes} → Units CleanUnit u → Escapes v w → Escapes (u ++ v) (u ++ w)
Units-Escapes none_left e = e
Units-Escapes {v = v} {w = w} (more x y split h t) e =
    kept x (y ++ v) (y ++ w) (ap (λ s. s ++ v) split ∙ append_assoc x y v)
      (ap (λ s. s ++ w) split ∙ append_assoc x y w) h (Units-Escapes t e)

no_body_stops : (c : ℕ) (v : Bytes) → body_byte c ≡ false → stops_clean (c ∷ v) ≡ true
unfolding stops_clean body_byte plain_byte
no_body_stops c v h =
    let not_plain : plain_byte c ≡ false = ground arith in
    let low : ltb c rune_self ≡ true = ground arith in rw (not_plain, low)

no_kept :
    {A : Type 0} (c : ℕ) (s u v : Bytes)
    → stops_clean (c ∷ s) ≡ true
    → c ∷ s ≡ u ++ v
    → CleanUnit u
    → A
no_kept c s u v stop e h = cc (sym stop ∙ ap stops_clean e ∙ clean-IsReading.no_unit u v h)

no_nil : {A : Type 0} (u v : Bytes) → CleanUnit u → [] ≡ u ++ v → A
no_nil u v (inl (c, e, k)) h = let h' : [] ≡ c ∷ v = h ∙ ap (λ s. s ++ v) e in cc
no_nil u v (inr (two p q)) h = cc
no_nil u v (inr (three p q t)) h = cc
no_nil u v (inr (four p q t f)) h = cc

-- A text is written in one way.
pub Escapes-unique : {p q r : Bytes} → Escapes p q → Escapes p r → q ≡ r
Escapes-unique a b = agree a b refl
  where
    agree : {p p' q r : Bytes} → Escapes p q → Escapes p' r → p ≡ p' → q ≡ r
    agree done done e = refl
    agree done (kept u v w split out h t) e = no_nil u v h (e ∙ split)
    agree done (escaped h t) e = cc
    agree done (replaced h s t) e = cc
    agree (kept u v w split out h t) done e = no_nil u v h (sym e ∙ split)
    agree (kept u v w split out h t) (kept u' v' w' split' out' h' t') e =
        let (same, behind) = clean-IsReading.same_unit u u' v v' h h' (sym split ∙ e ∙ split') in
        out ∙ ap₂ ◌++◌ same (agree t t' behind) ∙ sym out'
    agree (kept u v w split out h t) (escaped {c} {v = s} k t') e =
        no_kept c s u v (no_body_stops c s k) (sym e ∙ split) h
    agree (kept u v w split out h t) (replaced {c} {v = s} k stop t') e =
        no_kept c s u v stop (sym e ∙ split) h
    agree (escaped h t) done e = cc
    agree (escaped {c} {v = s} k t) (kept u v w split out h t') e =
        no_kept c s u v (no_body_stops c s k) (e ∙ split) h
    agree (escaped {c} h t) (escaped {c = c'} h' t') e =
        let heads : c ≡ c' = cc in ap₂ ◌++◌ (ap escape_of heads) (agree t t' cc)
    agree (escaped {c} h t) (replaced {c = c'} h' s t') e =
        let heads : c ≡ c' = cc in cc (sym h ∙ ap body_byte heads ∙ h')
    agree (replaced h s t) done e = cc
    agree (replaced {c} {v = v} k stop t) (kept u v' w split out h t') e =
        no_kept c v u v' stop (e ∙ split) h
    agree (replaced {c} h s t) (escaped {c = c'} h' t') e =
        let heads : c ≡ c' = cc in cc (sym h ∙ ap body_byte heads ∙ h')
    agree (replaced h s t) (replaced h' s' t') e = ap (λ w. 0xef ∷ 0xbf ∷ 0xbd ∷ w) (agree t t' cc)

abbrev hex_test : ℕ → Bool
hex_test c =
    elim (hex4 b'0' b'0' (get_or lower_hex (c / hex_base) 0) (get_or lower_hex (c % hex_base) 0)) [
      | none ↦ false
      | some h ↦ h == c
    ]

hex_table : below_all hex_test 0x20 ≡ true
unfolding below_all hex4
hex_table = refl

pub hex_of_control :
    (c : ℕ)
    → c < 0x20
    → hex4 b'0' b'0' (get_or lower_hex (c / hex_base) 0) (get_or lower_hex (c % hex_base) 0)
      ≡ some c
hex_of_control c h =
    let t = below_all_at hex_test 0x20 h hex_table in
    elim (Option-cases
      (hex4 b'0' b'0' (get_or lower_hex (c / hex_base) 0) (get_or lower_hex (c % hex_base) 0))) [
        | inl e ↦ cc (rw (e, hex_test) at t)
        | inr (x, e) ↦
            let t' : (x == c) ≡ true = rw (e, hex_test) at t in e ∙ ap some ((==_iff x c).0 t')
      ]

-- An escape of two bytes where the test holds, and else what the rest of the switch writes.
letter_or :
    (t : Bool) (d : ℕ) (u : Bytes) {v : Bytes}
    → unescape_byte d ≢ 0
    → d ≢ b'u'
    → IsStrictBody v
    → (t ≡ false → IsStrictBody (u ++ v))
    → IsStrictBody ((if t then b'\\' ∷ d ∷ [] else u) ++ v)
letter_or true d u value letter b other = IsBody.short refl letter value b
letter_or false d u value letter b other = other refl

pub control_byte : (c : ℕ) → body_byte c ≡ false → (c == b'"' || c == b'\\') ≡ false → c < 0x20
unfolding body_byte
control_byte c h f = ground arith

pub itself_value : (c : ℕ) → (c == b'"' || c == b'\\') ≡ true → (unescape_byte c ≢ 0) × (c ≢ b'u')
unfolding unescape_byte
itself_value c t = ground arith

pub escape_of-IsBody :
    (c : ℕ) {v : Bytes} → body_byte c ≡ false → IsStrictBody v → IsStrictBody (escape_of c ++ v)
unfolding escape_of unescape_byte is_surrogate
escape_of-IsBody c h b = elim (Bool-cases (c == b'"' || c == b'\\')) [
  | inl itself ↦
      let (value, letter) = itself_value c itself in rw itself (IsBody.short refl letter value b)
  | inr f ↦
      let low = control_byte c h f in
      let outside : is_surrogate c ≡ false = ground arith in
      rw f (
        letter_or (c == 8) b'b' _ (omega arith) (omega arith) b (λ f8.
          letter_or (c == 12) b'f' _ (omega arith) (omega arith) b (λ f12.
            letter_or (c == 10) b'n' _ (omega arith) (omega arith) b (λ f10.
              letter_or (c == 13) b'r' _ (omega arith) (omega arith) b (λ f13.
                letter_or (c == 9) b't' _ (omega arith) (omega arith) b
                  (λ f9. IsBody.point refl refl (hex_of_control c low) outside b))))))
]

-- What is written is the body of a string that ValidUTF8 accepts.
pub Escapes-IsStrictBody : {p q : Bytes} → Escapes p q → IsStrictBody q
unfolding second_of_three
Escapes-IsStrictBody done = IsBody.done
Escapes-IsStrictBody (kept u v w split out h t) = IsBody.unit u w out h (Escapes-IsStrictBody t)
Escapes-IsStrictBody (escaped {c} h t) = escape_of-IsBody c h (Escapes-IsStrictBody t)
Escapes-IsStrictBody (replaced {w = w} h s t) =
    IsBody.unit (0xef ∷ 0xbf ∷ 0xbd ∷ []) w refl (inr (three refl refl refl))
      (Escapes-IsStrictBody t)
