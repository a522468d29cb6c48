-- ===== src/Decode/Escaped.antt =====
-- What appendEscaped of escape.go writes, decoded again.
use go_jsonfast.Base.{
  ℕ, ◌<◌, ◌≤◌, Bool, true, false, ◌||◌, some, [], ◌∷◌, ◌++◌, ◌≡◌, ◌≢◌, inl, inr, refl, sym, ap,
  subst, ◌∙◌, arith, ltb, ◌==◌, ==_iff, if◌then◌else◌, Bool-cases, length-append, drop-length,
  Bytes, append_assoc,
}
use go_jsonfast.Swar.{plain_byte, body_byte}
use go_jsonfast.Swar.Lanes.{AreBytes}
use go_jsonfast.Swar.Dropped.{AreBytes-append}
use go_jsonfast.Utf8.{rune_size, encode_point, is_surrogate, second_of_three}
use go_jsonfast.Strings.{any_body, unescape_byte}
use go_jsonfast.Strings.Grammar.{CleanUnit, IsRune, three}
use go_jsonfast.Strings.Units.{stops_clean}
use go_jsonfast.Escape.{escape_of, append_escaped}
use go_jsonfast.Escape.Rules.{Escapes, hex_of_control, control_byte, itself_value}
use go_jsonfast.Escape.Exact.{Escapes-AreBytes}
use go_jsonfast.Escape.Steps.{append_escaped-Escapes}
use go_jsonfast.Decode.{decode_string}
use go_jsonfast.Decode.Content.{replacement, Stands, Reads, closed, kept, stood}
use go_jsonfast.Decode.Tokens.{decode_string_iff}

-- A text with each byte that begins no valid UTF-8 encoding replaced by U+FFFD.
pub data Mends : Bytes → Bytes → Type 0 where
  ended : Mends [] []
  ascii : {c : ℕ} {s x : Bytes} → c < 0x80 → Mends s x → Mends (c ∷ s) (c ∷ x)
  rune : {p q : Bytes} (u s x : Bytes) → p ≡ u ++ s → q ≡ u ++ x → IsRune u → Mends s x → Mends p q
  bad :
      {c : ℕ} {s x : Bytes}
      → 0x80 ≤ c
      → rune_size (c ∷ s) ≡ 1
      → Mends s x
      → Mends (c ∷ s) (0xef ∷ 0xbf ∷ 0xbd ∷ x)

-- An escape of two bytes where the test holds, and else what the rest of the switch writes.
letter_or :
    (t : Bool) (c d : ℕ) (u : Bytes) {v x r : Bytes}
    → (t ≡ true → unescape_byte d ≡ c)
    → unescape_byte d ≢ 0
    → d ≢ b'u'
    → Reads any_body v x r
    → (t ≡ false → Reads any_body (u ++ v) (c ∷ x) r)
    → Reads any_body ((if t then b'\\' ∷ d ∷ [] else u) ++ v) (c ∷ x) r
letter_or true c d u {v} {x} is value letter b other =
    stood (unescape_byte d ∷ []) v x (ap (λ n. n ∷ x) (sym (is refl)))
      (Stands.short refl letter value) b
letter_or false c d u is value letter b other = other refl

unescaped : (c : ℕ) → (c == b'"' || c == b'\\') ≡ true → unescape_byte c ≡ c
unfolding unescape_byte
unescaped c h = ground arith

point_of : (c : ℕ) → c < 0x20 → encode_point c ≡ c ∷ []
unfolding encode_point
point_of c h = let low : ltb c 0x80 ≡ true = ground arith in rw low

escape_of-Reads :
    (c : ℕ) {v x r : Bytes}
    → body_byte c ≡ false
    → Reads any_body v x r
    → Reads any_body (escape_of c ++ v) (c ∷ x) r
unfolding escape_of unescape_byte is_surrogate
escape_of-Reads c {v} {x} h b = elim (Bool-cases (c == b'"' || c == b'\\')) [
  | inl itself ↦
      let (value, letter) = itself_value c itself in
      rw itself (
        stood (unescape_byte c ∷ []) v x (ap (λ n. n ∷ x) (sym (unescaped c itself)))
          (Stands.short refl letter value) b)
  | inr f ↦
      let low = control_byte c h f in
      let outside : is_surrogate c ≡ false = ground arith in
      rw f (
        letter_or (c == 8) c b'b' _ (λ t. sym ((==_iff c 8).0 t)) (omega arith) (omega arith) b
          (λ f8.
            letter_or (c == 12) c b'f' _ (λ t. sym ((==_iff c 12).0 t)) (omega arith) (omega arith)
              b
              (λ f12.
                letter_or (c == 10) c b'n' _ (λ t. sym ((==_iff c 10).0 t)) (omega arith)
                  (omega arith) b
                  (λ f10.
                    letter_or (c == 13) c b'r' _ (λ t. sym ((==_iff c 13).0 t)) (omega arith)
                      (omega arith) b
                      (λ f13.
                        letter_or (c == 9) c b't' _ (λ t. sym ((==_iff c 9).0 t)) (omega arith)
                          (omega arith) b
                          (λ f9.
                            stood (encode_point c) v x (ap (λ z. z ++ x) (sym (point_of c low)))
                              (Stands.point refl refl (hex_of_control c low) outside) b))))))
]

below_ascii : (c : ℕ) → body_byte c ≡ false → c < 0x80
unfolding body_byte
below_ascii c h = ground arith

plain_ascii : (c : ℕ) → plain_byte c ≡ true → c < 0x80
unfolding plain_byte
plain_ascii c h = ground arith

high_bad :
    (c : ℕ) (v : Bytes)
    → body_byte c ≡ true
    → stops_clean (c ∷ v) ≡ true
    → (0x80 ≤ c) × (rune_size (c ∷ v) ≡ 1)
unfolding body_byte stops_clean plain_byte
high_bad c v h stop = ground arith

keep : {p u v x : Bytes} → p ≡ u ++ v → CleanUnit u → Mends v x → Mends p (u ++ x)
keep {p} {v = v} {x = x} split (inl (c, e, k)) m =
    subst (λ z. Mends p (z ++ x)) (sym e)
      (subst (λ z. Mends z (c ∷ x)) (sym (split ∙ ap (λ z. z ++ v) e)) (ascii (plain_ascii c k) m))
keep {u = u} {v = v} {x = x} split (inr h) m = rune u v x split refl h m

-- What is written for a text decodes to the text, mended.
pub Escapes-Reads :
    {p q : Bytes} (r : Bytes)
    → Escapes p q
    → (x : Bytes) × Mends p x × Reads any_body (q ++ (b'"' ∷ r)) x r
unfolding second_of_three
Escapes-Reads r Escapes.done = ([], ended, closed refl refl)
Escapes-Reads r (Escapes.kept u v w split out h t) =
    let (x, m, d) = Escapes-Reads r t in
    (
      u ++ x,
      keep split h m,
      kept u (w ++ (b'"' ∷ r)) x (ap (λ z. z ++ (b'"' ∷ r)) out ∙ append_assoc u w _) refl h d,
    )
Escapes-Reads r (Escapes.escaped {c} {w = w} h t) =
    let (x, m, d) = Escapes-Reads r t in
    (
      c ∷ x,
      ascii (below_ascii c h) m,
      subst (λ z. Reads any_body z (c ∷ x) r) (sym (append_assoc (escape_of c) w (b'"' ∷ r)))
          (escape_of-Reads c h d),
    )
Escapes-Reads r (Escapes.replaced {c} {v} {w} h stop t) =
    let (x, m, d) = Escapes-Reads r t in
    let (high, size) = high_bad c v h stop in
    (
      0xef ∷ 0xbf ∷ 0xbd ∷ x,
      bad high size m,
      kept replacement (w ++ (b'"' ∷ r)) x refl refl (inr (three refl refl refl)) d,
    )

-- DecodeString of what appendEscaped writes between quotes gives the text back, with each byte
-- that is part of no code point replaced by U+FFFD, for a text of bytes.
pub decode_string-append_escaped :
    (p : Bytes)
    → AreBytes p
    → (x : Bytes) × Mends p x
      × (decode_string (b'"' ∷ (append_escaped [] p ++ (b'"' ∷ []))) ≡ some x)
decode_string-append_escaped p b =
    let (q, out, rules) = append_escaped-Escapes [] p b in
    let raw = b'"' ∷ (q ++ (b'"' ∷ [])) in
    let bytes : AreBytes raw =
      (omega arith, AreBytes-append q (b'"' ∷ []) (Escapes-AreBytes rules b) (omega arith, tt)) in
    let (x, m, d) = Escapes-Reads [] rules in
    let whole : raw ≡ b'"' ∷ (append_escaped [] p ++ (b'"' ∷ [])) =
      ap (λ z. b'"' ∷ (z ++ (b'"' ∷ []))) (sym out) in
    let read : decode_string raw ≡ some x = (decode_string_iff raw x bytes).1 (record {
      opens = refl;
      found = record {
        reads = subst (Reads any_body (q ++ (b'"' ∷ [])) x) (sym (drop-length raw)) d;
        further = omega (arith, length-append q (b'"' ∷ []));
        inside = omega arith;
      };
    }) in
    (x, m, ap decode_string (sym whole) ∙ read)
