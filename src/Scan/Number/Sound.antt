-- ===== src/Scan/Number/Sound.antt =====
-- What the number scanner of scan.go takes is a number of the grammar.
use go_jsonfast.Base.{
  ℕ, suc, ◌<◌, Bool, true, ◌⊎◌, some, [], ◌∷◌, ◌++◌, ◌≡◌, refl, sym, ap, subst, ◌∙◌, arith, ◌==◌,
  ==_iff, Bool-cases, List-cases, inl, inr, >>=-eq-some, length-append, drop, drop-suc, Bytes,
  append_assoc,
}
use go_jsonfast.Swar.{run_of}
use go_jsonfast.Scan.{
  is_digit, past, skip_digits, skip_digit_run, integer_part, skip_integer, skip_fraction,
  skip_exponent, number_at, NumberSpan, skip_number,
}
use go_jsonfast.Scan.Number.{
  AreDigits, IsSign, unsigned, minus, IsInteger, nought, digits, IsFraction, whole, point,
  is_exponent_mark, is_sign, IsExponent, absent, plain, signed, IsNumberText, Took,
}

module _ (text : Bytes) where
  -- A scan of one byte more.
  Took-cons :
      (P Q : Bytes → Type 0) (i j : ℕ) {c : ℕ} {s : Bytes}
      → drop i text ≡ c ∷ s
      → ((u : Bytes) → P u → Q (c ∷ u))
      → Took P text (suc i) j
      → Took Q text i j
  Took-cons P Q i j {c} {s} e f (u, split, n, p) =
      (c ∷ u, e ∙ ap (◌∷◌ c) (sym (drop-suc i text e) ∙ split), omega arith, f u p)

  Took-nil : (P : Bytes → Type 0) (i : ℕ) → P [] → Took P text i i
  Took-nil P i p = ([], refl, omega arith, p)

  run_of-Took : (s : Bytes) (i : ℕ) → drop i text ≡ s → Took AreDigits text i (run_of is_digit s i)
  unfolding run_of
  run_of-Took [] i e = Took-nil AreDigits i tt
  run_of-Took (c ∷ s) i e = elim (Bool-cases (is_digit c)) [
    | inl d ↦ rw d (
        Took-cons AreDigits AreDigits i _ e (λ u h. (d, h))
          (run_of-Took s (suc i) (drop-suc i text e)))
    | inr n ↦ rw n (Took-nil AreDigits i tt)
  ]

  skip_digits-Took : (i : ℕ) → Took AreDigits text i (skip_digits text i)
  unfolding skip_digits
  skip_digits-Took i = run_of-Took (drop i text) i refl

  -- A digit and more digits.
  abbrev AreSomeDigits : Bytes → Type 0
  AreSomeDigits [] = ⊥
  AreSomeDigits (c ∷ s) = (is_digit c ≡ true) × AreDigits s

  skip_digit_run-Took :
      (i : ℕ) {j : ℕ} → skip_digit_run text i ≡ some j → Took AreSomeDigits text i j
  unfolding skip_digit_run
  skip_digit_run-Took i {j} h =
      let e : skip_digits text i ≡ j = ground arith in
      let lt : i < j = ground arith in some_taken (rw e at (skip_digits-Took i)) lt
    where
      some_taken : Took AreDigits text i j → i < j → Took AreSomeDigits text i j
      some_taken ([], split, n, p) lt = absurd (omega arith)
      some_taken (c ∷ u, split, n, p) lt = (c ∷ u, split, n, p)

  pub integer_part-Took : (i : ℕ) {j : ℕ} → integer_part text i ≡ some j → Took IsInteger text i j
  unfolding integer_part
  integer_part-Took i {j} h = elim (List-cases (drop i text)) [
    | inl e ↦ cc (rw (e, integer_part) at h)
    | inr (c, s, e) ↦
        let h' = rw (e, integer_part) at h in
        elim (Bool-cases (c == b'0')) [
          | inl z ↦
              let k : suc i ≡ j = ground arith in
              rw (← k) (
                Took-cons (λ u. u ≡ []) IsInteger i (suc i) e
                  (λ u p. rw p (nought ((==_iff c b'0').0 z)))
                  (Took-nil (λ u. u ≡ []) (suc i) refl))
          | inr nz ↦ elim (Bool-cases (is_digit c)) [
            | inl d ↦
                let k : skip_digits text (suc i) ≡ j = ground arith in
                rw (← k) (
                  Took-cons AreDigits IsInteger i _ e
                    (λ u p. digits d (λ z. cc ((==_iff c b'0').1 z)) p) (skip_digits-Took (suc i)))
            | inr n ↦ absurd (ground arith)
          ]
        ]
  ]

  pub past-Took :
      (P : Bytes → Type 0) (test : ℕ → Bool) (i : ℕ)
      → P []
      → ((c : ℕ) → test c ≡ true → P (c ∷ []))
      → Took P text i (past test text i)
  past-Took P test i n one = elim (List-cases (drop i text)) [
    | inl e ↦
        let k : i ≡ past test text i = rw (e, past) in subst (Took P text i) k (Took-nil P i n)
    | inr (c, s, e) ↦ elim (Bool-cases (test c)) [
      | inl t ↦
          let k : suc i ≡ past test text i = rw (e, past) (rw t) in
          subst (Took P text i) k (
            Took-cons (λ u. u ≡ []) P i (suc i) e (λ u p. rw p (one c t))
              (Took-nil (λ u. u ≡ []) (suc i) refl))
      | inr f ↦
          let k : i ≡ past test text i = rw (e, past) (rw f) in
          subst (Took P text i) k (Took-nil P i n)
    ]
  ]

  skip_fraction-Took : (i : ℕ) {j : ℕ} → skip_fraction text i ≡ some j → Took IsFraction text i j
  unfolding skip_fraction
  skip_fraction-Took i {j} h = elim (List-cases (drop i text)) [
    | inl e ↦
        let k : i ≡ j = cc (rw (e, skip_fraction) at h) in rw (← k) (Took-nil IsFraction i whole)
    | inr (c, s, e) ↦
        let h' = rw (e, skip_fraction) at h in
        elim (Bool-cases (c == b'.')) [
          | inl p ↦
              let h'' = rw p at h' in
              Took-cons AreSomeDigits IsFraction i j e (fraction c ((==_iff c b'.').0 p))
                (skip_digit_run-Took (suc i) h'')
          | inr n ↦ let k : i ≡ j = cc (rw n at h') in rw (← k) (Took-nil IsFraction i whole)
        ]
  ]
    where
      fraction : (c : ℕ) → c ≡ b'.' → (u : Bytes) → AreSomeDigits u → IsFraction (c ∷ u)
      fraction c p [] h = absurd h
      fraction c p (d ∷ u) h = point p h.0 h.1

  -- A scan behind another.
  Took-append :
      (P Q R : Bytes → Type 0) (i j k : ℕ)
      → ((u v : Bytes) → P u → Q v → R (u ++ v))
      → Took P text i j
      → Took Q text j k
      → Took R text i k
  Took-append P Q R i j k join (u, split, n, p) (v, split', n', q) = (
    u ++ v,
    split ∙ ap (λ r. u ++ r) split' ∙ sym (append_assoc u v (drop k text)),
    omega (arith, length-append u v),
    join u v p q,
  )

  skip_exponent-Took : (i : ℕ) {j : ℕ} → skip_exponent text i ≡ some j → Took IsExponent text i j
  unfolding skip_exponent
  skip_exponent-Took i {j} h = elim (List-cases (drop i text)) [
    | inl e ↦
        let k : i ≡ j = cc (rw (e, skip_exponent) at h) in rw (← k) (Took-nil IsExponent i absent)
    | inr (c, s, e) ↦
        let h' = rw (e, skip_exponent) at h in
        elim (Bool-cases (is_exponent_mark c)) [
          | inl p ↦
              let h'' = rw p at h' in
              let mid = past is_sign text (suc i) in
              Took-cons AfterMark IsExponent i j e (exponent c p) (
                Took-append AreSign AreSomeDigits AfterMark (suc i) mid j after
                  (past-Took AreSign is_sign (suc i) (inl refl) (λ g t. inr (g, refl, t)))
                  (skip_digit_run-Took mid h''))
          | inr n ↦ let k : i ≡ j = cc (rw n at h') in rw (← k) (Took-nil IsExponent i absent)
        ]
  ]
    where
      AreSign : Bytes → Type 0
      AreSign u = (u ≡ []) ⊎ ((g : ℕ) × (u ≡ g ∷ []) × (is_sign g ≡ true))

      AfterMark : Bytes → Type 0
      AfterMark u =
          AreSomeDigits u
          ⊎ ((g : ℕ) × (v : Bytes) × (u ≡ g ∷ v) × (is_sign g ≡ true) × AreSomeDigits v)

      after : (u v : Bytes) → AreSign u → AreSomeDigits v → AfterMark (u ++ v)
      after u v (inl e) d = rw e (inl d)
      after u v (inr (g, e, t)) d = rw e (inr (g, v, refl, t, d))

      exponent :
          (c : ℕ) → is_exponent_mark c ≡ true → (u : Bytes) → AfterMark u → IsExponent (c ∷ u)
      exponent c p [] (inl h) = absurd h
      exponent c p (d ∷ u) (inl h) = plain p h.0 h.1
      exponent c p u (inr (g, [], e, t, d)) = absurd d
      exponent c p u (inr (g, d ∷ v, e, t, h)) = rw e (signed p t h.0 h.1)

  number_at-Took :
      (i : ℕ) {s : NumberSpan} → number_at text i ≡ some s → Took IsNumberText text i s.number_end
  unfolding number_at skip_integer
  number_at-Took i {s} h =
      let (a, integer, rest) = >>=-eq-some (skip_integer text i) _ h in
      let (b, fraction, rest') = >>=-eq-some (skip_fraction text a) _ rest in
      let (c, exponent, last) = >>=-eq-some (skip_exponent text b) _ rest' in
      let start = past (λ c. c == b'-') text i in
      let sign =
        past-Took IsSign (λ c. c == b'-') i unsigned (λ c t. minus ((==_iff c b'-').0 t)) in
      let end : c ≡ s.number_end = cc (last) in
      join s sign (integer_part-Took start integer) (skip_fraction-Took a fraction)
        (subst (Took IsExponent text b) end (skip_exponent-Took b exponent))
    where
      join :
          (s : NumberSpan) {start a b : ℕ}
          → Took IsSign text i start
          → Took IsInteger text start a
          → Took IsFraction text a b
          → Took IsExponent text b s.number_end
          → Took IsNumberText text i s.number_end
      join s {start} {a} {b} (g, e₀, n₀, p₀) (u, e₁, n₁, p₁) (f, e₂, n₂, p₂) (x, e₃, n₃, p₃) = (
        g ++ (u ++ (f ++ x)),
        rw (e₀, e₁, e₂, e₃) (simp append_assoc),
        omega (arith, length-append g (u ++ (f ++ x)), length-append u (f ++ x), length-append f x),
        record {
          sign = g;
          integer = u;
          fraction = f;
          exponent = x;
          splits = refl;
          is_sign_text = p₀;
          is_integer = p₁;
          is_fraction = p₂;
          is_exponent = p₃;
        },
      )

  -- A number that is read is one of the grammar.
  pub skip_number-Took : (i : ℕ) {j : ℕ} → skip_number text i ≡ some j → Took IsNumberText text i j
  unfolding skip_number
  skip_number-Took i {j} h =
      let (s, read, last) = >>=-eq-some (number_at text i) _ h in
      let e : s.number_end ≡ j = cc in rw (← e) (number_at-Took i read)
