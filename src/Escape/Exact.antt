-- ===== src/Escape/Exact.antt =====
-- EscapeString against appendEscaped, and the strings that the writers write against ValidUTF8.
use go_jsonfast.Base.{
  take-append, ℕ, ◌+◌, ◌<◌, true, some, [], ◌∷◌, ◌++◌, ◌≡◌, refl, ap, sym, ◌∙◌, subst, arith, inl,
  inr, ◌==◌, ==_iff, Bool-cases, length, length-append, drop-length, take, drop, drop_past, Bytes,
  append_assoc,
}
use go_jsonfast.Base.Bits.{below_all, below_all_at}
use go_jsonfast.Swar.Lanes.{AreBytes, are_bytes, are_bytes_sound, AreBytes-append, AreBytes-split}
use go_jsonfast.Strings.{clean_run, strict_end}
use go_jsonfast.Strings.Runs.{clean_run-Passes}
use go_jsonfast.Strings.Exact.{strict_end_iff}
use go_jsonfast.Escape.{escape_of, append_escaped, escape_string}
use go_jsonfast.Escape.Rules.{
  Escapes, done, kept, escaped, replaced, Units-Escapes, Escapes-unique, Escapes-IsStrictBody,
}
use go_jsonfast.Escape.Steps.{append_escaped-Escapes}

-- EscapeString writes what the rules write.
escape_string-Escapes : (p : Bytes) → AreBytes p → Escapes p (escape_string p)
unfolding escape_string
escape_string-Escapes p b =
    let i = clean_run p 0 in
    let run = clean_run-Passes p b 0 in
    let start : 0 + length run.passed ≡ length run.passed = omega arith in
    let head : take i p ≡ run.passed =
      ap (λ n. take n p) (run.end_is ∙ start)
      ∙ ap (take (length run.passed)) run.splits
      ∙ take-append run.passed (drop i p) in
    let bytes = AreBytes-split run.passed (drop i p) (subst AreBytes run.splits b) in
    elim (Bool-cases (clean_run p 0 == length p)) [
      | inl all ↦
          let behind : drop i p ≡ [] =
            ap (λ n. drop n p) ((==_iff i (length p)).0 all) ∙ drop-length p in
          let same : p ≡ run.passed ++ [] = run.splits ∙ ap (λ r. run.passed ++ r) behind in
          let whole : escape_string p ≡ p = rw (all, escape_string) in
          subst (Escapes p) (sym whole)
            (subst (λ s. Escapes s s) (sym same) (Units-Escapes run.units done))
      | inr part ↦
          let (q, out, rules) = append_escaped-Escapes (take i p) (drop i p) bytes.1 in
          let whole : escape_string p ≡ run.passed ++ q =
            rw (part, escape_string) (out ∙ ap (λ u. u ++ q) head) in
          subst (Escapes p) (sym whole) (
            subst (λ s. Escapes s (run.passed ++ q)) (sym run.splits)
              (Units-Escapes run.units rules))
    ]

-- EscapeString returns what appendEscaped writes into an empty buffer, its shortcut for a text
-- that needs no escape included, for a text of bytes.
pub escape_string-append_escaped : (p : Bytes) → AreBytes p → escape_string p ≡ append_escaped [] p
escape_string-append_escaped p b =
    let (q, out, rules) = append_escaped-Escapes [] p b in
    Escapes-unique (escape_string-Escapes p b) rules ∙ sym out

bytes_table : below_all (λ c. are_bytes (escape_of c)) 256 ≡ true
unfolding below_all escape_of
bytes_table = refl

escape_of-AreBytes : (c : ℕ) → c < 256 → AreBytes (escape_of c)
escape_of-AreBytes c h =
    are_bytes_sound (escape_of c) (below_all_at (λ c. are_bytes (escape_of c)) 256 h bytes_table)

pub Escapes-AreBytes : {p q : Bytes} → Escapes p q → AreBytes p → AreBytes q
Escapes-AreBytes done b = tt
Escapes-AreBytes (kept u v w split out h t) b =
    let (x, y) = AreBytes-split u v (subst AreBytes split b) in
    subst AreBytes (sym out) (AreBytes-append u w x (Escapes-AreBytes t y))
Escapes-AreBytes (escaped {c} {w = w} h t) (x, y) =
    AreBytes-append (escape_of c) w (escape_of-AreBytes c x) (Escapes-AreBytes t y)
Escapes-AreBytes (replaced h s t) (x, y) =
    (omega arith, (omega arith, (omega arith, Escapes-AreBytes t y)))

-- A quote, what appendEscaped writes and a quote are a string by the rule of ValidUTF8, whatever
-- bytes the text holds and whatever bytes follow.
pub strict_end-append_escaped :
    (p r : Bytes)
    → AreBytes p
    → AreBytes r
    → strict_end (b'"' ∷ (append_escaped [] p ++ (b'"' ∷ r))) 0
      ≡ some (length (append_escaped [] p) + 2)
strict_end-append_escaped p r b b' =
    let (q, out, rules) = append_escaped-Escapes [] p b in
    let text = b'"' ∷ (q ++ (b'"' ∷ r)) in
    let bytes : AreBytes text =
      (omega arith, AreBytes-append q (b'"' ∷ r) (Escapes-AreBytes rules b) (omega arith, b')) in
    let end : drop (length q + 2) text ≡ r =
      ap (λ n. drop n text) (omega (arith, length-append q (b'"' ∷ [])))
      ∙ drop_past 0 text (b'"' ∷ (q ++ b'"' ∷ []))
          (ap (◌∷◌ b'"') (sym (append_assoc q (b'"' ∷ []) r))) in
    rw out (
      (strict_end_iff text bytes 0 (length q + 2)).1
        (q, ap (λ s. q ++ (b'"' ∷ s)) (sym end), omega arith, Escapes-IsStrictBody rules))
