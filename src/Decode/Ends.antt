-- ===== src/Decode/Ends.antt =====
-- stringEnd, strictEnd and the decoders end strings alike.
use go_jsonfast.Base.{
  ℕ, suc, true, false, some, none, ◌∷◌, ◌≡◌, ◌↔◌, inl, inr, sym, ap, subst, ◌∙◌, arith, ◌==◌,
  Bool-cases, Option-cases, length, length-append, length-drop, drop, Bytes, byte_at,
}
use go_jsonfast.Swar.Lanes.{AreBytes}
use go_jsonfast.Strings.{any_body, utf8_body, strict_end, string_end, skip_string_at}
use go_jsonfast.Strings.Exact.{string_end_iff, strict_end_iff}
use go_jsonfast.Decode.Content.{Reads}
use go_jsonfast.Decode.{stands, strict_token, token_at, token_value}
use go_jsonfast.Decode.Exact.{Found}
use go_jsonfast.Decode.Tokens.{stands-drop, string-IsToken_iff, strict_token_iff}
use go_jsonfast.Decode.Bodies.{Reads-IsStrictBody, IsStrictBody-Reads, Reads-IsAnyBody}
use go_jsonfast.Decode.Total.{IsAnyBody-Reads}

pub skip_string_at_quote :
    (text : Bytes) (i : ℕ)
    → stands text i b'"' ≡ true
    → skip_string_at text i ≡ string_end text (suc i)
unfolding skip_string_at
skip_string_at_quote text i h =
    let (s, e) = stands-drop text i b'"' h in rw (e, byte_at, skip_string_at)

pub skip_string_at_other :
    (text : Bytes) (i : ℕ) → stands text i b'"' ≡ false → skip_string_at text i ≡ none
unfolding skip_string_at
skip_string_at_other text i h = elim (Option-cases (byte_at text i)) [
  | inl e ↦ rw (e, skip_string_at)
  | inr (c, e) ↦
      let h' : (c == b'"') ≡ false = rw (e, stands) at h in rw (e, skip_string_at) (rw h')
]

-- stringEnd ends the string that a text begins with exactly where decoding does.
pub string_end-Found :
    (text : Bytes) (j e : ℕ)
    → AreBytes text
    → (string_end text j ≡ some e) ↔ ((x : Bytes) × Found any_body text j x e)
string_end-Found text j e b = (
  λ h.
      let (u, split, at, body) = (string_end_iff text b j e).0 h in
      let (x, d) = IsAnyBody-Reads (suc (length u)) u (drop e text) (omega arith) body in
      let len = ap length split ∙ length-append u (b'"' ∷ drop e text) in
      (
        x,
        record {
          reads = subst (λ z. Reads any_body z x (drop e text)) (sym split) d;
          further = omega arith;
          inside = omega (arith, len, at, length-drop j text);
        },
      ),
  λ (x, found).
      let (u, split, body) = Reads-IsAnyBody found.reads in
      let len = ap length split ∙ length-append u (b'"' ∷ drop e text) in
      (string_end_iff text b j e).1 (
        u,
        split,
        omega (arith, len, length-drop j text, length-drop e text, found.inside, found.further),
        body,
      ),
)

-- strictEnd at a quote ends the string exactly where strictToken does.
pub strict_end-Found :
    (text : Bytes) (at e : ℕ)
    → AreBytes text
    → (strict_end text at ≡ some e) ↔ ((x : Bytes) × Found utf8_body text (suc at) x e)
strict_end-Found text at e b = (
  λ h.
      let (u, split, is, body) = (strict_end_iff text b at e).0 h in
      let (x, d) = IsStrictBody-Reads (drop e text) body in
      let len = ap length split ∙ length-append u (b'"' ∷ drop e text) in
      (
        x,
        record {
          reads = subst (λ z. Reads utf8_body z x (drop e text)) (sym split) d;
          further = omega arith;
          inside = omega (arith, len, is, length-drop (suc at) text);
        },
      ),
  λ (x, found).
      let (u, split, body) = Reads-IsStrictBody found.reads in
      let len = ap length split ∙ length-append u (b'"' ∷ drop e text) in
      (strict_end_iff text b at e).1 (
        u,
        split,
        omega (
          arith,
          len,
          length-drop (suc at) text,
          length-drop e text,
          found.inside,
          found.further,
        ),
        body,
      ),
)

-- At a quote, strictToken decodes a token to an index exactly where strictEnd, which decodes
-- nothing, returns that index, on a text of bytes.
pub strict_token-strict_end :
    (text : Bytes) (i e : ℕ)
    → AreBytes text
    → stands text i b'"' ≡ true
    → ((x : Bytes) × (strict_token text i ≡ some (x, e))) ↔ (strict_end text i ≡ some e)
strict_token-strict_end text i e b opens = (
  λ (x, h). (strict_end-Found text i e b).1 (x, ((strict_token_iff text i e x b).0 h).found),
  λ h.
      let (x, found) = (strict_end-Found text i e b).0 h in
      (x, (strict_token_iff text i e x b).1 (record { opens = opens; found = found })),
)

-- tokenAt by the rule of the scanners decodes a token to an index exactly where skipStringAt
-- returns that index, on a text of bytes.
pub token_at-skip_string_at :
    (text : Bytes) (i e : ℕ)
    → AreBytes text
    → ((x : Bytes) × (token_value (token_at text i any_body) ≡ some (x, e)))
      ↔ (skip_string_at text i ≡ some e)
token_at-skip_string_at text i e b = (
  λ (x, h).
      let t = (string-IsToken_iff text b i e x).0 h in
      skip_string_at_quote text i t.opens ∙ (string_end-Found text (suc i) e b).1 (x, t.found),
  λ h. elim (Bool-cases (stands text i b'"')) [
    | inl opens ↦
        let (x, found) =
          (string_end-Found text (suc i) e b).0 (sym (skip_string_at_quote text i opens) ∙ h) in
        (x, (string-IsToken_iff text b i e x).1 (record { opens = opens; found = found }))
    | inr other ↦ cc (sym (skip_string_at_other text i other) ∙ h)
  ],
)
