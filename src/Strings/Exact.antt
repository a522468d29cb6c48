-- ===== src/Strings/Exact.antt =====
-- stringEnd of scan.go and strictEnd of validate.go end exactly the strings of the grammar: those
-- that json.Valid accepts, and those whose every rune is a code point.
use go_jsonfast.Base.{
  not-true, ℕ, suc, ◌+◌, ◌≤◌, ◌<◌, true, false, some, [], ◌∷◌, ◌++◌, ◌≡◌, ◌≢◌, inl, inr, refl, sym,
  ap, ap₂, ◌∙◌, arith, ltb, leb, ◌==◌, length, length-append, length-drop, drop, Bytes, ◌↔◌,
}
use go_jsonfast.Swar.{body_byte, plain_byte, body_run, rune_self}
use go_jsonfast.Swar.Lanes.{AreBytes}
use go_jsonfast.Utf8.{rune_size}
use go_jsonfast.Strings.{any_body, utf8_body, clean_run, string_end, strict_end}
use go_jsonfast.Strings.Grammar.{
  AnyUnit, CleanUnit, IsRune, two, three, four, IsAnyBody, IsStrictBody,
}
use go_jsonfast.Strings.Runs.{clean_run-Passes, body_run-Passes}
use go_jsonfast.Strings.Units.{stops_any, stops_clean, IsRune-rune_size}
use go_jsonfast.Strings.Loop.{scan_body_sound, scan_body_complete}
use go_jsonfast.Strings.Reading.{IsReading}

any_start : (c : ℕ) → body_byte c ≡ true → (c ≢ b'"') × (c ≢ b'\\')
unfolding body_byte
any_start c h = ground arith

any_one : (u v s r : Bytes) → AnyUnit u → AnyUnit v → u ++ s ≡ v ++ r → (u ≡ v) × (s ≡ r)
any_one u v s r (c, e, k) (d, f, m) h =
    let h' : c ∷ s ≡ d ∷ r = sym (ap (λ w. w ++ s) e) ∙ h ∙ ap (λ w. w ++ r) f in
    let heads : c ≡ d = cc in (e ∙ ap (λ x. x ∷ []) heads ∙ sym f, cc)

pub any-IsReading : IsReading AnyUnit stops_any any_body
any-IsReading = record {
  refuses = refl;
  keeps = λ h. refl;
  stop_byte = λ c s h keep. not-true (body_byte c) (unfold stops_any in h);
  no_unit = λ u s (c, e, k). rw e (unfold stops_any in rw k);
  unit_start = λ u s c r (d, e, k) h.
      let h' : d ∷ s ≡ c ∷ r = sym (ap (λ w. w ++ s) e) ∙ h in
      let same : d ≡ c = cc in rw (← same) (any_start d k);
  same_unit = any_one;
}

pub lead :
    (u : Bytes) → IsRune u → (a : ℕ) × (t : Bytes) × (u ≡ a ∷ t) × (0xc2 ≤ a) × (2 ≤ length u)
lead u (two {a} {b} p q) = (a, b ∷ [], refl, ground arith, omega arith)
lead u (three {a} {b} {c} p q t) = (a, b ∷ c ∷ [], refl, ground arith, omega arith)
lead u (four {a} {b} {c} {d} p q t v) = (a, b ∷ c ∷ d ∷ [], refl, ground arith, omega arith)

high_not_plain : (a : ℕ) → 0xc2 ≤ a → (plain_byte a ≡ false) × (ltb a rune_self ≡ false)
unfolding plain_byte
high_not_plain a h = ground arith

size_not_one : (n : ℕ) → 2 ≤ n → (n == 1) ≡ false
size_not_one n h = ground arith

rune_no_stop : (u s : Bytes) → IsRune u → stops_clean (u ++ s) ≡ false
unfolding stops_clean
rune_no_stop u s h =
    let (a, t, e, high, size) = lead u h in
    let (not_plain, not_low) = high_not_plain a high in
    let whole : rune_size (a ∷ (t ++ s)) ≡ length u =
      ap rune_size (sym (ap (λ w. w ++ s) e)) ∙ IsRune-rune_size u s h in
    rw e (rw (not_plain, not_low) (rw whole (size_not_one (length u) size)))

plain_start : (c : ℕ) → plain_byte c ≡ true → (c ≢ b'"') × (c ≢ b'\\') × (c < 0x80)
unfolding plain_byte
plain_start c h = ground arith

append_inj : (u v s r : Bytes) → length u ≡ length v → u ++ s ≡ v ++ r → (u ≡ v) × (s ≡ r)
append_inj [] [] s r n e = (refl, e)
append_inj [] (y ∷ v) s r n e = absurd (omega arith)
append_inj (x ∷ u) [] s r n e = absurd (omega arith)
append_inj (x ∷ u) (y ∷ v) s r n e =
    let heads : x ≡ y = cc in
    let tails : u ++ s ≡ v ++ r = cc in
    let (same, rest) = append_inj u v s r (omega arith) tails in (ap₂ ◌∷◌ heads same, rest)

plain_rune :
    {A : Type 0} (u v s r : Bytes) (c : ℕ)
    → u ≡ c ∷ []
    → plain_byte c ≡ true
    → IsRune v
    → u ++ s ≡ v ++ r
    → A
plain_rune u v s r c e k h f =
    let (a, t, e', high, size) = lead v h in
    let f' : c ∷ s ≡ a ∷ (t ++ r) = sym (ap (λ w. w ++ s) e) ∙ f ∙ ap (λ w. w ++ r) e' in
    let same : c ≡ a = cc in absurd (omega (arith, (plain_start c k).2))

clean_one : (u v s r : Bytes) → CleanUnit u → CleanUnit v → u ++ s ≡ v ++ r → (u ≡ v) × (s ≡ r)
clean_one u v s r (inl (c, e, k)) (inl (d, f, m)) h =
    append_inj u v s r (ap length e ∙ sym (ap length f)) h
clean_one u v s r (inl (c, e, k)) (inr m) h = plain_rune u v s r c e k m h
clean_one u v s r (inr m) (inl (c, e, k)) h = plain_rune v u r s c e k m (sym h)
clean_one u v s r (inr k) (inr m) h =
    append_inj u v s r (sym (IsRune-rune_size u s k) ∙ ap rune_size h ∙ IsRune-rune_size v r m) h

clean_start :
    (u s : Bytes) (c : ℕ) (r : Bytes) → CleanUnit u → u ++ s ≡ c ∷ r → (c ≢ b'"') × (c ≢ b'\\')
clean_start u s c r (inl (d, e, k)) h =
    let h' : d ∷ s ≡ c ∷ r = sym (ap (λ w. w ++ s) e) ∙ h in
    let same : d ≡ c = cc in let (quote, back, low) = plain_start d k in rw (← same) (quote, back)
clean_start u s c r (inr k) h =
    let (a, t, e, high, size) = lead u k in
    let h' : a ∷ (t ++ s) ≡ c ∷ r = sym (ap (λ w. w ++ s) e) ∙ h in
    let same : a ≡ c = cc in (omega arith, omega arith)

clean_no_stop : (u s : Bytes) → CleanUnit u → stops_clean (u ++ s) ≡ false
clean_no_stop u s (inl (c, e, k)) = rw e (unfold stops_clean in rw k)
clean_no_stop u s (inr k) = rune_no_stop u s k

nought_leb : (h : ℕ) → leb 0 h ≡ true
nought_leb h = ground arith

pub clean-IsReading : IsReading CleanUnit stops_clean utf8_body
clean-IsReading = record {
  refuses = refl;
  keeps = nought_leb;
  stop_byte = λ c s h keep. cc;
  no_unit = clean_no_stop;
  unit_start = clean_start;
  same_unit = clean_one;
}

-- stringEnd at the start of a body returns the index past its closing quote if a body of a JSON
-- string stands there, UTF-8 unchecked, and fails otherwise, on a text of bytes.
pub string_end_iff :
    (text : Bytes)
    → AreBytes text
    → (j k : ℕ)
    → (string_end text j ≡ some k) ↔ (
        (u : Bytes) × (drop j text ≡ u ++ (b'"' ∷ drop k text))
        × (k ≡ j + length u + 1)
        × IsAnyBody u)
unfolding string_end
string_end_iff text b j k = (
  scan_body_sound any-IsReading body_run text (body_run-Passes text b) (suc (length text)) j,
  λ (u, e, at, body).
      scan_body_complete any-IsReading body_run text (body_run-Passes text b) (suc (length text)) j
        u (drop k text) e
        (omega (arith, ap length e, length-append u (b'"' ∷ drop k text), length-drop j text)) body
      ∙ ap some (sym at),
)

-- strictEnd at a quote returns the index past the closing quote if the body of a string stands
-- behind it in which every rune is a code point, and fails otherwise, on a text of bytes.
pub strict_end_iff :
    (text : Bytes)
    → AreBytes text
    → (at k : ℕ)
    → (strict_end text at ≡ some k) ↔ (
        (u : Bytes) × (drop (suc at) text ≡ u ++ (b'"' ∷ drop k text))
        × (k ≡ suc at + length u + 1)
        × IsStrictBody u)
unfolding strict_end
strict_end_iff text b at k = (
  scan_body_sound clean-IsReading clean_run text (clean_run-Passes text b) (suc (length text))
      (suc at),
  λ (u, e, at', body).
      scan_body_complete clean-IsReading clean_run text (clean_run-Passes text b)
        (suc (length text)) (suc at) u (drop k text) e
        (omega
          (arith, ap length e, length-append u (b'"' ∷ drop k text), length-drop (suc at) text))
        body
      ∙ ap some (sym at'),
)
