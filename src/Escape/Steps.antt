-- ===== src/Escape/Steps.antt =====
-- appendEscaped takes the rules unit by unit.
use go_jsonfast.Base.{
  not-true, take-append, ℕ, zero, suc, ◌+◌, ◌-◌, ◌<◌, true, false, [], ◌∷◌, ◌++◌, ◌≡◌, refl, ap,
  sym, ◌∙◌, subst, arith, inl, inr, ltb, ◌==◌, Bool-cases, List-cases, length, length-append,
  length-drop, lt-length-of-drop, take, drop, drop-suc, drop_past, slice, Bytes, append_assoc,
  append-nil,
}
use go_jsonfast.Swar.{body_byte, plain_byte, rune_self}
use go_jsonfast.Swar.Lanes.{AreBytes}
use go_jsonfast.Utf8.{rune_size, encode_point}
use go_jsonfast.Strings.{plain_step, clean_run}
use go_jsonfast.Strings.Runs.{plain_step-Passes, clean_run-Passes}
use go_jsonfast.Strings.Units.{
  stops_clean, stops_plain, Passes, PlainUnit, more, IsRune-of_size, rune_size_pos, at_least_two,
  Units-map,
}
use go_jsonfast.Escape.{escape_of, append_escaped_ascii, append_utf8, escape_rounds, append_escaped}
use go_jsonfast.Escape.Rules.{Escapes, done, escaped, replaced, Units-Escapes}

slice_of_passed :
    (text u : Bytes) (i j : ℕ)
    → drop i text ≡ u ++ drop j text
    → j ≡ i + length u
    → slice text i j ≡ u
slice_of_passed text u i j e at =
    let n : j - i ≡ length u = omega arith in
    ap (λ m. take m (drop i text)) n ∙ ap (take (length u)) e ∙ take-append u (drop j text)

-- What a run of appendEscaped from `i` leaves behind `dst`.
abbrev Written : Bytes → Bytes → Bytes → ℕ → Type 0
Written out dst p i = (q : Bytes) × (out ≡ dst ++ q) × Escapes (drop i p) q

one_stops :
    (c : ℕ) (s : Bytes)
    → plain_byte c ≡ false
    → (rune_size (c ∷ s) == 1) ≡ true
    → stops_clean (c ∷ s) ≡ true
unfolding stops_clean
one_stops c s plain one = elim (Bool-cases (ltb c rune_self)) [
  | inl low ↦ rw (plain, low)
  | inr high ↦ rw (plain, high) one
]

module _ (p : Bytes) (b : AreBytes p) where
  -- A run of plain bytes before what is written next.
  behind_run :
      (i j : ℕ) (dst out : Bytes)
      → Passes PlainUnit stops_plain p i j
      → Written out (dst ++ slice p i j) p j
      → Written out dst p i
  behind_run i j dst out run (q, e, rules) =
      let cut = slice_of_passed p run.passed i j run.splits run.end_is in
      (
        run.passed ++ q,
        e ∙ ap (λ u. (dst ++ u) ++ q) cut ∙ append_assoc dst run.passed q,
        subst (λ s. Escapes s (run.passed ++ q)) (sym run.splits)
            (Units-Escapes (Units-map (λ u x. inl x) run.units) rules),
      )

  utf8_one :
      (j : ℕ) (dst : Bytes)
      → (rune_size (drop j p) == 1) ≡ true
      → append_utf8 dst p j ≡ (dst ++ 0xef ∷ 0xbf ∷ 0xbd ∷ [], suc j)
  unfolding append_utf8 encode_point
  utf8_one j dst one = rw one

  utf8_several :
      (j : ℕ) (dst : Bytes)
      → (rune_size (drop j p) == 1) ≡ false
      → append_utf8 dst p j
        ≡ (let k = clean_run p (j + rune_size (drop j p)) in (dst ++ slice p j k, k))
  unfolding append_utf8
  utf8_several j dst several = rw several

  -- The byte that stops a run, when it is no ASCII: U+FFFD or a run of valid UTF-8.
  behind_rune :
      (rounds j c : ℕ) (s dst : Bytes)
      → drop j p ≡ c ∷ s
      → plain_byte c ≡ false
      → body_byte c ≡ true
      → ((out : Bytes) (k : ℕ) → j < k → Written (escape_rounds rounds out p k) out p k)
      → Written (escape_rounds rounds (append_utf8 dst p j).0 p (append_utf8 dst p j).1) dst p j
  behind_rune rounds j c s dst e not_plain keep go = elim (Bool-cases (rune_size (drop j p) == 1)) [
    | inl one ↦
        let next = dst ++ 0xef ∷ 0xbf ∷ 0xbd ∷ [] in
        let (q, out, rules) = go next (suc j) (omega arith) in
        let rules' : Escapes s q = subst (λ r. Escapes r q) (drop-suc j p e) rules in
        subst (λ r. Written (escape_rounds rounds r.0 p r.1) dst p j) (sym (utf8_one j dst one))
          (
            0xef ∷ 0xbf ∷ 0xbd ∷ q,
            out ∙ append_assoc dst (0xef ∷ 0xbf ∷ 0xbd ∷ []) q,
            subst (λ r. Escapes r (0xef ∷ 0xbf ∷ 0xbd ∷ q)) (sym e)
                (replaced keep (one_stops c s not_plain (rw e at one)) rules'),
          )
    | inr several ↦
        let size = at_least_two (rune_size (c ∷ s)) (rune_size_pos c s) (rw e at several) in
        let (u, r, split, len, rune) = IsRune-of_size (c ∷ s) size in
        let from = j + rune_size (drop j p) in
        let start : from ≡ j + length u = ap (λ t. j + rune_size t) e ∙ ap (λ n. j + n) (sym len) in
        let at : drop from p ≡ r = ap (λ n. drop n p) start ∙ drop_past j p u (e ∙ split) in
        let run = clean_run-Passes p b from in
        let k = clean_run p from in
        let whole : drop j p ≡ (u ++ run.passed) ++ drop k p =
          e
          ∙ split
          ∙ ap (λ t. u ++ t) (sym at ∙ run.splits)
          ∙ sym (append_assoc u run.passed (drop k p)) in
        let end : k ≡ j + length (u ++ run.passed) =
          omega (arith, run.end_is, start, length-append u run.passed) in
        let cut = slice_of_passed p (u ++ run.passed) j k whole end in
        let (q, out, rules) = go (dst ++ slice p j k) k (omega (arith, run.end_is, start, len)) in
        subst (λ r. Written (escape_rounds rounds r.0 p r.1) dst p j)
          (sym (utf8_several j dst several))
          (
            (u ++ run.passed) ++ q,
            out ∙ ap (λ w. (dst ++ w) ++ q) cut ∙ append_assoc dst (u ++ run.passed) q,
            subst (λ r. Escapes r ((u ++ run.passed) ++ q)) (sym whole)
                (Units-Escapes (more u run.passed refl (inr rune) run.units) rules),
          )
  ]

  -- Each round passes a byte, so the rounds are enough.
  escape_rounds-Written :
      (rounds : ℕ) (dst : Bytes) (i : ℕ)
      → length (drop i p) < rounds
      → Written (escape_rounds rounds dst p i) dst p i
  unfolding escape_rounds append_escaped_ascii
  escape_rounds-Written zero dst i h = absurd (omega arith)
  escape_rounds-Written (suc rounds) dst i h =
      let j = plain_step p i in
      let run = plain_step-Passes p b i in
      let dst' = dst ++ slice p i j in
      elim (List-cases (drop j p)) [
        | inl e ↦
            let out : escape_rounds (suc rounds) dst p i ≡ dst' = rw (e, escape_rounds) in
            behind_run i j dst _ run
              ([], out ∙ sym (append-nil dst'), subst (λ s. Escapes s []) (sym e) done)
        | inr (c, s, e) ↦
            let go = λ (out : Bytes) (k : ℕ) (lt : j < k). escape_rounds-Written rounds out k (
              omega
                (arith, length-drop i p, length-drop k p, lt-length-of-drop j p e, run.end_is)) in
            elim (Bool-cases (body_byte c)) [
              | inl keep ↦
                  let not_plain = not-true (plain_byte c) (rw e at run.stop) in
                  let out : escape_rounds (suc rounds) dst p i
                      ≡ escape_rounds rounds (append_utf8 dst' p j).0 p (append_utf8 dst' p j).1 =
                    rw (e, escape_rounds) (rw keep (unfold append_utf8 in rw e)) in
                  behind_run i j dst _ run (
                    subst (λ w. Written w dst' p j) (sym out)
                      (behind_rune rounds j c s dst' e not_plain keep go))
              | inr stop ↦
                  let out : escape_rounds (suc rounds) dst p i
                      ≡ escape_rounds rounds (dst' ++ escape_of c) p (suc j) =
                    rw (e, escape_rounds) (rw stop) in
                  let (q, out', rules) = go (dst' ++ escape_of c) (suc j) (omega arith) in
                  let rules' : Escapes s q = subst (λ r. Escapes r q) (drop-suc j p e) rules in
                  behind_run i j dst _ run (
                    escape_of c ++ q,
                    out ∙ out' ∙ append_assoc dst' (escape_of c) q,
                    subst (λ r. Escapes r (escape_of c ++ q)) (sym e) (escaped stop rules'),
                  )
            ]
      ]

-- appendEscaped appends to its buffer what the rules write for the text.
pub append_escaped-Escapes :
    (dst p : Bytes) → AreBytes p → (q : Bytes) × (append_escaped dst p ≡ dst ++ q) × Escapes p q
unfolding append_escaped
append_escaped-Escapes dst p b = escape_rounds-Written p b (suc (length p)) dst 0 (omega arith)
