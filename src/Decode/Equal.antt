-- ===== src/Decode/Equal.antt =====
-- EqualString compares with the decoded text, without decoding.
use go_jsonfast.Base.{
  ℕ, zero, suc, ◌+◌, ◌-◌, ◌<◌, Bool, true, false, ◌&&◌, not, some, [], ◌∷◌, ◌++◌, ◌≡◌, ◌↔◌, inl,
  inr, refl, sym, ap, ap₂, subst, ◌∙◌, arith, ◌==◌, ==_iff, if◌then◌else◌, Bool-cases, length,
  length-drop, drop, drop-suc, slice, Bytes, lt-length-of-drop, drop-append,
}
use go_jsonfast.Swar.Lanes.{AreBytes}
use go_jsonfast.Swar.Dropped.{drop-drop}
use go_jsonfast.Strings.{clean_run, any_body}
use go_jsonfast.Strings.Runs.{clean_run-Passes}
use go_jsonfast.Decode.{
  closes, written, stands, is_nil, decode_string, has_prefix, matched_rounds, matched_prefix,
  equal_string,
}
use go_jsonfast.Decode.Content.{Stands, Reads, closed, stood}
use go_jsonfast.Decode.Pieces.{Written-cases, written-StandsAt, written-closes}
use go_jsonfast.Decode.Forward.{Stands-Wrote}
use go_jsonfast.Decode.Exact.{Units-Reads, peel, written_quote, at_stop, slice_passed, Found}
use go_jsonfast.Decode.Tokens.{decode_string_iff, any_keeps}

pub has_prefix-split : (s p : Bytes) → has_prefix s p ≡ true → s ≡ p ++ drop (length p) s
unfolding has_prefix
has_prefix-split s [] h = refl
has_prefix-split [] (x ∷ p) h = cc
has_prefix-split (y ∷ s) (x ∷ p) h =
    let same : y ≡ x = ground arith in
    let rest : has_prefix s p ≡ true = ground arith in ap₂ ◌∷◌ same (has_prefix-split s p rest)

pub has_prefix-append : (p s : Bytes) → has_prefix (p ++ s) p ≡ true
unfolding has_prefix
has_prefix-append [] s = refl
has_prefix-append (x ∷ p) s = rw (has_prefix-append p s) (ground arith)

nil_of : (s : Bytes) → is_nil s ≡ true → s ≡ []
nil_of [] h = refl
nil_of (x ∷ s) h = cc

module _ (text : Bytes) (bytes : AreBytes text) where
  pub matched_rounds_sound :
      (rounds i : ℕ) (s : Bytes) {k : ℕ}
      → ◌≡◌ {A = ℕ × Bool} (matched_rounds rounds text i s) (k, true)
      → Found any_body text i s (suc k)
  unfolding matched_rounds
  matched_rounds_sound zero i s h = cc
  matched_rounds_sound (suc rounds) i s {k} h =
      let m = clean_run text i in
      let p = clean_run-Passes text bytes i in
      let cut = slice_passed text p in
      elim (Bool-cases (has_prefix s (slice text i m))) [
        | inr no_match ↦ cc (ap (λ t. t.1) (rw (no_match, matched_rounds) at h))
        | inl match ↦
            let h₁ = rw (match, matched_rounds) at h in
            let pre : s ≡ p.passed ++ drop (length p.passed) s =
              has_prefix-split s p.passed (ap (has_prefix s) (sym cut) ∙ match) in
            let count : m - i ≡ length p.passed = omega (arith, p.end_is) in
            let pre' : s ≡ p.passed ++ drop (m - i) s =
              pre ∙ ap (λ n. p.passed ++ drop n s) (sym count) in
            elim (Written-cases (written (drop m text) any_body)) [
              | inl f ↦ cc (ap (λ t. t.1) (rw f at h₁))
              | inr (inl f) ↦
                  let (r, split) = written-closes any_body (drop m text) f in
                  let h₂ : ◌≡◌ {A = ℕ × Bool} (m, is_nil (drop (m - i) s)) (k, true) = rw f at h₁ in
                  let end : m ≡ k = ap (λ t. t.0) h₂ in
                  let nil : drop (m - i) s ≡ [] = nil_of (drop (m - i) s) (ap (λ t. t.1) h₂) in
                  let rest : r ≡ drop (suc k) text =
                    sym (drop-suc m text split) ∙ ap (λ n. drop (suc n) text) end in
                  record {
                    reads =
                        subst (λ t. Reads any_body t s (drop (suc k) text)) (sym p.splits)
                          (subst
                            (λ x. Reads any_body (p.passed ++ drop m text) x (drop (suc k) text))
                            (sym pre')
                            (Units-Reads any_body p.units
                              (closed (split ∙ ap (◌∷◌ b'"') rest) nil)));
                    further = omega (arith, p.end_is);
                    inside = omega (arith, lt-length-of-drop m text split);
                  }
              | inr (inr (b, n, f)) ↦
                  let h₂ = rw f at h₁ in
                  elim (Bool-cases (has_prefix (drop (m - i) s) b)) [
                    | inr no_match ↦ cc (ap (λ t. t.1) (rw no_match at h₂))
                    | inl match' ↦
                        let at = written-StandsAt any_body (drop m text) refl p.stop f in
                        let found =
                          matched_rounds_sound rounds (m + n) (drop (length b) (drop (m - i) s))
                            (rw match' at h₂) in
                        let pre₂ = has_prefix-split (drop (m - i) s) b match' in
                        record {
                          reads =
                              subst (λ t. Reads any_body t s (drop (suc k) text)) (sym p.splits)
                                (subst
                                  (λ x.
                                    Reads any_body (p.passed ++ drop m text) x (drop (suc k) text))
                                  (sym pre')
                                  (Units-Reads any_body p.units (
                                    stood b (drop (m + n) text) (drop (length b) (drop (m - i) s))
                                      pre₂
                                      (subst (Stands any_body (drop m text) b) (drop-drop m n text)
                                        at.piece)
                                      found.reads)));
                          further = omega (arith, p.end_is, found.further);
                          inside = found.inside;
                        }
                  ]
            ]
      ]

  pub matched_rounds_complete :
      (rounds i : ℕ) {x r : Bytes}
      → Reads any_body (drop i text) x r
      → length text - i < rounds
      → matched_rounds rounds text i x ≡ (length text - length r - 1, true)
  unfolding matched_rounds
  matched_rounds_complete zero i d h = absurd (omega arith)
  matched_rounds_complete (suc rounds) i {x} {r} d h =
      let k = clean_run text i in
      let p = clean_run-Passes text bytes i in
      let cut = slice_passed text p in
      let (y, split, d') = peel any_body p.units p.splits d in
      let count : k - i ≡ length p.passed = omega (arith, p.end_is) in
      let match : has_prefix x (slice text i k) ≡ true =
        ap₂ has_prefix split cut ∙ has_prefix-append p.passed y in
      let left : drop (k - i) x ≡ y =
        ap₂ (λ n (s : Bytes). drop n s) count split ∙ drop-append p.passed y in
      elim (at_stop any_body p.stop d') [
        | inl (here, nil) ↦
            let f : written (drop k text) any_body ≡ closes =
              ap (λ s. written s any_body) here ∙ written_quote any_body r in
            let all : is_nil (drop (k - i) x) ≡ true = ap is_nil (left ∙ nil) in
            rw (match, matched_rounds)
              (rw f (ap₂ (λ n t. (n, t)) (omega (arith, ap length here, length-drop k text)) all))
        | inr (b, u, z, value, st, d″) ↦
            let wrote = Stands-Wrote any_body any_keeps st in
            let n = wrote.size in
            let behind : drop (k + n) text ≡ u = sym (drop-drop k n text) ∙ wrote.behind in
            let match' : has_prefix (drop (k - i) x) b ≡ true =
              ap (λ s. has_prefix s b) (left ∙ value) ∙ has_prefix-append b z in
            let left' : drop (length b) (drop (k - i) x) ≡ z =
              ap (drop (length b)) (left ∙ value) ∙ drop-append b z in
            let f = wrote.is in
            rw (match, matched_rounds)
              (rw f (
                rw match' (
                  ap (matched_rounds rounds text (k + n)) left'
                  ∙ matched_rounds_complete rounds (k + n)
                      (subst (λ s. Reads any_body s z r) (sym behind) d″)
                      (omega (arith, wrote.positive, wrote.fits, length-drop k text, p.end_is)))))
      ]

-- matchedPrefix reports a match, and stops at k, exactly where the body that stands at `i` stands for s, and its
-- quote is at `k`.
pub matched_prefix_iff :
    (text : Bytes) (i k : ℕ) (s : Bytes)
    → AreBytes text
    → (matched_prefix text i s ≡ (k, true)) ↔ Found any_body text i s (suc k)
unfolding matched_prefix
matched_prefix_iff text i k s b = (
  matched_rounds_sound text b (suc (length text)) i s,
  λ f.
      matched_rounds_complete text b (suc (length text)) i f.reads (omega arith)
      ∙ ap (λ n. (n, true)) (omega (arith, length-drop (suc k) text, f.inside)),
)

equal_string_at :
    (raw s : Bytes) (m : ℕ × Bool)
    → matched_prefix raw 1 s ≡ m
    → equal_string raw s ≡ (if not (stands raw 0 b'"') then false else m.1 && m.0 == length raw - 1)
unfolding equal_string
equal_string_at raw s m h = rw h

-- EqualString, which compares without decoding, accepts a text exactly where DecodeString gives
-- it, on a token of bytes.
pub equal_string-decode_string :
    (raw s : Bytes) → AreBytes raw → (equal_string raw s ≡ true) ↔ (decode_string raw ≡ some s)
equal_string-decode_string raw s b = (sound (matched_prefix raw 1 s) refl, complete)
  where
    sound :
        (m : ℕ × Bool)
        → matched_prefix raw 1 s ≡ m
        → equal_string raw s ≡ true
        → decode_string raw ≡ some s
    sound (k, false) e h = let h' = sym (equal_string_at raw s (k, false) e) ∙ h in ground arith
    sound (k, true) e h =
        let h' = sym (equal_string_at raw s (k, true) e) ∙ h in
        let opens : stands raw 0 b'"' ≡ true = ground arith in
        let last : k ≡ length raw - 1 = ground arith in
        let found = (matched_prefix_iff raw 1 k s b).0 e in
        (decode_string_iff raw s b).1 (record {
          opens = opens;
          found =
              subst (Found any_body raw 1 s) (omega (arith, last, found.further, found.inside))
                found;
        })

    complete : decode_string raw ≡ some s → equal_string raw s ≡ true
    complete h =
        let t = (decode_string_iff raw s b).0 h in
        let last : length raw ≡ suc (length raw - 1) = omega (arith, t.found.further) in
        let m =
          (matched_prefix_iff raw 1 (length raw - 1) s b).1
            (subst (Found any_body raw 1 s) last t.found) in
        let same : (length raw - 1 == length raw - 1) ≡ true =
          (==_iff (length raw - 1) (length raw - 1)).1 refl in
        equal_string_at raw s (length raw - 1, true) m ∙ rw t.opens same
