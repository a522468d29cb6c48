-- ===== src/Decode/Bodies.antt =====
-- The strings that decodeFrom decodes are those that stringEnd and strictEnd end, by either rule.
use go_jsonfast.Base.{
  ℕ, ◌<◌, ◌≤◌, true, false, [], ◌∷◌, ◌++◌, ◌≡◌, inl, inr, refl, sym, ap, ◌∙◌, arith, ltb, ◌==◌,
  Bool-cases, length, Bytes, append_assoc, append-nil,
}
use go_jsonfast.Swar.{plain_byte, body_byte, rune_self}
use go_jsonfast.Utf8.{rune_size, second_of_three, second_of_four}
use go_jsonfast.Strings.{any_body, utf8_body}
use go_jsonfast.Strings.Grammar.{
  AnyUnit, CleanUnit, two, three, four, IsBody, IsAnyBody, IsStrictBody, done, unit,
}
use go_jsonfast.Strings.Units.{
  stops_clean, Units, none_left, more, IsRune-of_size, rune_size_pos, at_least_two,
}
use go_jsonfast.Strings.Exact.{any-IsReading}
use go_jsonfast.Strings.Loop.{Units-IsBody}
use go_jsonfast.Decode.Content.{Stands, Reads, closed, kept, stood}

plain_is_body : (c : ℕ) → plain_byte c ≡ true → body_byte c ≡ true
unfolding plain_byte body_byte
plain_is_body c h = ground arith

high_is_body : (c : ℕ) → 0x80 ≤ c → c < 256 → body_byte c ≡ true
unfolding body_byte
high_is_body c h h' = ground arith

byte : {v : Bytes} (c : ℕ) → body_byte c ≡ true → Units AnyUnit v → Units AnyUnit (c ∷ v)
byte {v} c k us = more (c ∷ []) v refl (c, refl, k) us

-- A rune of several bytes is some units of the rule that leaves UTF-8 unchecked.
pub CleanUnit-Units : {u : Bytes} → CleanUnit u → Units AnyUnit u
unfolding second_of_three second_of_four
CleanUnit-Units {u} (inl (c, e, k)) =
    more u [] (sym (append-nil u)) (c, e, plain_is_body c k) none_left
CleanUnit-Units (inr (two {a} {b} p q)) =
    byte a (high_is_body a (ground arith) (ground arith))
      (byte b (high_is_body b (ground arith) (ground arith)) none_left)
CleanUnit-Units (inr (three {a} {b} {c} p q t)) =
    byte a (high_is_body a (ground arith) (ground arith)) (
      byte b (high_is_body b (ground arith) (ground arith))
        (byte c (high_is_body c (ground arith) (ground arith)) none_left))
CleanUnit-Units (inr (four {a} {b} {c} {d} p q t f)) =
    byte a (high_is_body a (ground arith) (ground arith)) (
      byte b (high_is_body b (ground arith) (ground arith)) (
        byte c (high_is_body c (ground arith) (ground arith))
          (byte d (high_is_body d (ground arith) (ground arith)) none_left)))

pub clean_front :
    (s : Bytes)
    → stops_clean s ≡ false
    → (u v : Bytes) × (s ≡ u ++ v) × (0 < length u) × CleanUnit u
unfolding stops_clean
clean_front [] h = cc
clean_front (c ∷ s) h = elim (Bool-cases (plain_byte c)) [
  | inl plain ↦ (c ∷ [], s, refl, omega arith, inl (c, refl, plain))
  | inr other ↦
      let h' = rw other at h in
      elim (Bool-cases (ltb c rune_self)) [
        | inl low ↦ cc (rw low at h')
        | inr high ↦
            let size : (rune_size (c ∷ s) == 1) ≡ false = rw high at h' in
            let (u, v, split, n, rune) =
              IsRune-of_size (c ∷ s) (at_least_two (rune_size (c ∷ s)) (rune_size_pos c s) size) in
            (u, v, split, omega (arith, n, rune_size_pos c s), inr rune)
      ]
]

-- What is decoded by the rule of ValidUTF8 is a body of that rule.
pub Reads-IsStrictBody :
    {s x r : Bytes} → Reads utf8_body s x r → (u : Bytes) × (s ≡ u ++ (b'"' ∷ r)) × IsStrictBody u
Reads-IsStrictBody (closed f g) = ([], f, done)
Reads-IsStrictBody (kept u v y f g h d) =
    let (w, split, body) = Reads-IsStrictBody d in
    (u ++ w, f ∙ ap (λ s. u ++ s) split ∙ sym (append_assoc u w _), unit u w refl h body)
Reads-IsStrictBody (stood b v y f (Stands.short {c} {d} back letter value) t) =
    let (w, split, body) = Reads-IsStrictBody t in
    (c ∷ d ∷ w, ap (λ s. c ∷ d ∷ s) split, IsBody.short back letter value body)
Reads-IsStrictBody (stood b' v y f (Stands.point {s} {t} {a} {b} {c} {d} back letter hex low) r) =
    let (w, split, body) = Reads-IsStrictBody r in
    (
      s ∷ t ∷ a ∷ b ∷ c ∷ d ∷ w,
      ap (λ z. s ∷ t ∷ a ∷ b ∷ c ∷ d ∷ z) split,
      IsBody.point back letter hex low body,
    )
Reads-IsStrictBody
      (stood e v y f
        (Stands.pair {s} {t} {a} {b} {c} {d} {h} {s'} {t'} {a'} {b'} {c'} {d'} back letter hex high
          back' letter' hex' valid)
        r) =
    let (w, split, body) = Reads-IsStrictBody r in
    (
      s ∷ t ∷ a ∷ b ∷ c ∷ d ∷ s' ∷ t' ∷ a' ∷ b' ∷ c' ∷ d' ∷ w,
      ap (λ z. s ∷ t ∷ a ∷ b ∷ c ∷ d ∷ s' ∷ t' ∷ a' ∷ b' ∷ c' ∷ d' ∷ z) split,
      IsBody.pair back letter hex high back' letter' hex' valid body,
    )
Reads-IsStrictBody (stood b v y f (Stands.lone back letter hex high single keep) r) = cc
Reads-IsStrictBody (stood b v y f (Stands.bad body stop keep) r) = cc

pub IsStrictBody-Reads :
    {u : Bytes} (r : Bytes) → IsStrictBody u → (x : Bytes) × Reads utf8_body (u ++ (b'"' ∷ r)) x r
IsStrictBody-Reads r done = ([], closed refl refl)
IsStrictBody-Reads r (unit u v f h b) =
    let (x, d) = IsStrictBody-Reads r b in
    (u ++ x, kept u (v ++ (b'"' ∷ r)) x (ap (λ s. s ++ (b'"' ∷ r)) f ∙ append_assoc u v _) refl h d)
IsStrictBody-Reads r (IsBody.short back letter value b) =
    let (x, d) = IsStrictBody-Reads r b in (_, stood _ _ x refl (Stands.short back letter value) d)
IsStrictBody-Reads r (IsBody.point back letter hex low b) =
    let (x, d) = IsStrictBody-Reads r b in
    (_, stood _ _ x refl (Stands.point back letter hex low) d)
IsStrictBody-Reads r (IsBody.pair back letter hex high back' letter' hex' valid b) =
    let (x, d) = IsStrictBody-Reads r b in
    (_, stood _ _ x refl (Stands.pair back letter hex high back' letter' hex' valid) d)
IsStrictBody-Reads r (IsBody.lone back letter hex high keep b) = cc

pub Reads-IsAnyBody :
    {s x r : Bytes} → Reads any_body s x r → (u : Bytes) × (s ≡ u ++ (b'"' ∷ r)) × IsAnyBody u
Reads-IsAnyBody (closed f g) = ([], f, done)
Reads-IsAnyBody (kept u v y f g h d) =
    let (w, split, body) = Reads-IsAnyBody d in
    (
      u ++ w,
      f ∙ ap (λ s. u ++ s) split ∙ sym (append_assoc u w _),
      Units-IsBody any-IsReading w (CleanUnit-Units h) body,
    )
Reads-IsAnyBody (stood b v y f (Stands.short {c} {d} back letter value) t) =
    let (w, split, body) = Reads-IsAnyBody t in
    (c ∷ d ∷ w, ap (λ s. c ∷ d ∷ s) split, IsBody.short back letter value body)
Reads-IsAnyBody (stood b' v y f (Stands.point {s} {t} {a} {b} {c} {d} back letter hex low) r) =
    let (w, split, body) = Reads-IsAnyBody r in
    (
      s ∷ t ∷ a ∷ b ∷ c ∷ d ∷ w,
      ap (λ z. s ∷ t ∷ a ∷ b ∷ c ∷ d ∷ z) split,
      IsBody.point back letter hex low body,
    )
Reads-IsAnyBody
      (stood e v y f
        (Stands.pair {s} {t} {a} {b} {c} {d} {h} {s'} {t'} {a'} {b'} {c'} {d'} back letter hex high
          back' letter' hex' valid)
        r) =
    let (w, split, body) = Reads-IsAnyBody r in
    (
      s ∷ t ∷ a ∷ b ∷ c ∷ d ∷ s' ∷ t' ∷ a' ∷ b' ∷ c' ∷ d' ∷ w,
      ap (λ z. s ∷ t ∷ a ∷ b ∷ c ∷ d ∷ s' ∷ t' ∷ a' ∷ b' ∷ c' ∷ d' ∷ z) split,
      IsBody.pair back letter hex high back' letter' hex' valid body,
    )
Reads-IsAnyBody
      (stood b' v y f (Stands.lone {s} {t} {a} {b} {c} {d} back letter hex high single keep) r) =
    let (w, split, body) = Reads-IsAnyBody r in
    (
      s ∷ t ∷ a ∷ b ∷ c ∷ d ∷ w,
      ap (λ z. s ∷ t ∷ a ∷ b ∷ c ∷ d ∷ z) split,
      IsBody.lone back letter hex high keep body,
    )
Reads-IsAnyBody (stood b v y f (Stands.bad {c} body stop keep) r) =
    let (w, split, rest) = Reads-IsAnyBody r in
    (c ∷ w, ap (λ z. c ∷ z) split, unit (c ∷ []) w refl (c, refl, body) rest)
