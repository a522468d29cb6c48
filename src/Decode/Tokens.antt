-- ===== src/Decode/Tokens.antt =====
-- DecodeString and EqualString against the grammar of string tokens.
use go_jsonfast.Base.{
  ℕ, suc, true, false, some, none, Option, ◌∷◌, ◌≡◌, ◌↔◌, inl, inr, refl, sym, ap, ◌∙◌, arith, ◌==◌,
  ==_iff, if◌then◌else◌, ◌>>=◌, Bool-cases, Option-cases, List-cases, ℤ, pos, leb_ℤ, length, drop,
  byte_at, slice, Bytes,
}
use go_jsonfast.Swar.Lanes.{AreBytes}
use go_jsonfast.Strings.{malformed_rune, clean_run, any_body, utf8_body}
use go_jsonfast.Decode.{
  closes, written, decode_rounds, decode_from, stands, token_at, token_value, strict_token,
  decode_token, decode_string, decoded_token,
}
use go_jsonfast.Decode.Exact.{some_pair, written_quote, Found, decode_from_iff}

pub stands-drop :
    (text : Bytes) (i c : ℕ) → stands text i c ≡ true → (s : Bytes) × (drop i text ≡ c ∷ s)
stands-drop text i c h = elim (List-cases (drop i text)) [
  | inl e ↦ cc (rw (e, byte_at, stands) at h)
  | inr (d, s, e) ↦
      let h' : (d == c) ≡ true = rw (e, byte_at, stands) at h in
      (s, e ∙ ap (λ x. x ∷ s) ((==_iff d c).0 h'))
]

pub stands_of_drop :
    (text : Bytes) (i c : ℕ) {s : Bytes} → drop i text ≡ c ∷ s → stands text i c ≡ true
stands_of_drop text i c h = rw (h, byte_at, stands) ((==_iff c c).1 refl)

module _ (text : Bytes) (lowest : ℤ) where
  -- Where a clean run ends at the closing quote, decoding gives the view.
  decode_from_view :
      (j k : ℕ)
      → stands text k b'"' ≡ true
      → decode_from text j k lowest ≡ some (slice text j k, suc k)
  unfolding decode_from decode_rounds
  decode_from_view j k h =
      let (s, e) = stands-drop text k b'"' h in
      let f : written (drop k text) lowest ≡ closes =
        ap (λ s. written s lowest) e ∙ written_quote lowest s in
      rw (f, decode_rounds)

  pub token_value-token_at :
      (i : ℕ)
      → stands text i b'"' ≡ true
      → token_value (token_at text i lowest)
        ≡ decode_from text (suc i) (clean_run text (suc i)) lowest
  unfolding token_at
  token_value-token_at i h =
      let k = clean_run text (suc i) in
      elim (Bool-cases (stands text k b'"')) [
        | inl view ↦ rw (h, view) (sym (decode_from_view (suc i) k view))
        | inr other ↦ rw (h, other) (same (decode_from text (suc i) k lowest))
      ]
    where
      same : (o : Option (Bytes × ℕ)) → token_value (decoded_token o) ≡ o
      same none = refl
      same (some (v, e)) = refl

  pub token_at-no_quote :
      (i : ℕ) → stands text i b'"' ≡ false → token_value (token_at text i lowest) ≡ none
  unfolding token_at
  token_at-no_quote i h = rw h

-- A string token at `i`: its text and the index past it.
pub record IsToken (lowest : ℤ) (text : Bytes) (i : ℕ) (x : Bytes) (e : ℕ) : Type 0 where
  pub opens : stands text i b'"' ≡ true
  pub found : Found lowest text (suc i) x e

pub token_at_iff :
    (text : Bytes) (lowest : ℤ)
    → AreBytes text
    → leb_ℤ lowest malformed_rune ≡ false
    → ((h : ℕ) → leb_ℤ lowest (pos h) ≡ true)
    → (i e : ℕ) (x : Bytes)
    → (token_value (token_at text i lowest) ≡ some (x, e)) ↔ IsToken lowest text i x e
token_at_iff text lowest b refuses keeps i e x =
    let from = decode_from_iff text b lowest refuses keeps (suc i) e x in
    (
      λ h. elim (Bool-cases (stands text i b'"')) [
        | inl quote ↦ record {
          opens = quote;
          found = from.0 (sym (token_value-token_at text lowest i quote) ∙ h);
        }
        | inr other ↦ cc (sym (token_at-no_quote text lowest i other) ∙ h)
      ],
      λ t. token_value-token_at text lowest i t.opens ∙ from.1 t.found,
    )

pub any_keeps : (h : ℕ) → leb_ℤ any_body (pos h) ≡ true
any_keeps h = refl

pub string-IsToken_iff :
    (text : Bytes)
    → AreBytes text
    → (i e : ℕ) (x : Bytes)
    → (token_value (token_at text i any_body) ≡ some (x, e)) ↔ IsToken any_body text i x e
string-IsToken_iff text b = token_at_iff text any_body b refl any_keeps

decode_token_at :
    (raw : Bytes) {v : Bytes} {end : ℕ}
    → token_value (token_at raw 0 any_body) ≡ some (v, end)
    → token_value (decode_token raw) ≡ (if end == length raw then some (v, end) else none)
unfolding decode_token
decode_token_at raw {end = end} e = elim (Bool-cases (end == length raw)) [
  | inl all ↦ rw (e, decode_token) (rw all e)
  | inr part ↦ rw (e, decode_token) (rw part)
]

decode_string_of :
    (raw : Bytes) (o : Option (Bytes × ℕ))
    → token_value (decode_token raw) ≡ o
    → decode_string raw ≡ (do (v, end) ← o; some v)
unfolding decode_string
decode_string_of raw none h = rw (h, decode_string)
decode_string_of raw (some (v, end)) h = rw (h, decode_string)

decode_string_at :
    (raw : Bytes) {v : Bytes} {end : ℕ}
    → token_value (token_at raw 0 any_body) ≡ some (v, end)
    → decode_string raw ≡ (if end == length raw then some v else none)
decode_string_at raw {v} {end} e =
    let h = decode_token_at raw e in
    elim (Bool-cases (end == length raw)) [
      | inl all ↦ rw all (decode_string_of raw (some (v, end)) (rw all at h))
      | inr part ↦ rw part (decode_string_of raw none (rw part at h))
    ]

decode_string-none :
    (raw : Bytes) → token_value (token_at raw 0 any_body) ≡ none → decode_string raw ≡ none
decode_string-none raw e = decode_string_of raw none (unfold decode_token in rw (e, decode_token))

-- DecodeString gives a text exactly where the whole input is one string token, UTF-8 unchecked,
-- that stands for that text: plain bytes and code points for themselves, an escape for its byte
-- or code point, a pair of halves for the code point it joins, and a lone half or a byte of no
-- code point for U+FFFD; on a text of bytes.
pub decode_string_iff :
    (raw x : Bytes)
    → AreBytes raw
    → (decode_string raw ≡ some x) ↔ IsToken any_body raw 0 x (length raw)
decode_string_iff raw x b = (sound, complete)
  where
    sound : decode_string raw ≡ some x → IsToken any_body raw 0 x (length raw)
    sound h = elim (Option-cases (token_value (token_at raw 0 any_body))) [
      | inl e ↦ cc (sym (decode_string-none raw e) ∙ h)
      | inr ((v, end), e) ↦
          let is = decode_string_at raw e in
          elim (Bool-cases (end == length raw)) [
            | inl all ↦
                let h' : some v ≡ some x = sym (rw all at is) ∙ h in
                let value : v ≡ x = cc in
                (string-IsToken_iff raw b 0 (length raw) x).0
                  (e ∙ some_pair value ((==_iff end (length raw)).0 all))
            | inr part ↦ cc (sym (rw part at is) ∙ h)
          ]
    ]

    complete : IsToken any_body raw 0 x (length raw) → decode_string raw ≡ some x
    complete t =
        let e = (string-IsToken_iff raw b 0 (length raw) x).1 t in
        let all : (length raw == length raw) ≡ true = (==_iff (length raw) (length raw)).1 refl in
        decode_string_at raw e ∙ rw all

-- strictToken accepts by the rule of ValidUTF8: every rune is a code point.
pub strict_token_iff :
    (text : Bytes) (i e : ℕ) (x : Bytes)
    → AreBytes text
    → (strict_token text i ≡ some (x, e)) ↔ IsToken utf8_body text i x e
unfolding strict_token
strict_token_iff text i e x b = token_at_iff text utf8_body b refl (λ h. ground arith) i e x
