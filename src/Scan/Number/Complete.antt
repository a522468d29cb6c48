-- ===== src/Scan/Number/Complete.antt =====
-- Every number of the grammar is read to its end, where no byte follows that could belong to it.
use go_jsonfast.Base.{
  ℕ, suc, ◌+◌, Bool, true, false, ◌||◌, some, [], ◌∷◌, ◌++◌, ◌≡◌, ap, ◌∙◌, arith, ◌==◌, ==_iff,
  Bool-cases, inl, inr, length, length-append, drop, drop-suc, drop_past, Bytes, append_assoc,
}
use go_jsonfast.Swar.{run_of}
use go_jsonfast.Scan.{
  is_digit, past, skip_digits, skip_digit_run, integer_part, skip_integer, skip_fraction,
  skip_exponent, number_at, skip_number,
}
use go_jsonfast.Scan.Number.{
  AreDigits, IsSign, unsigned, minus, IsInteger, nought, digits, IsFraction, whole, point,
  is_exponent_mark, is_sign, IsExponent, absent, plain, signed, IsNumberText,
}

-- What follows does not begin with such a byte.
abbrev pub NotBefore : (ℕ → Bool) → Bytes → Type 0
NotBefore test [] = Unit {0}
NotBefore test (c ∷ s) = test c ≡ false

abbrev is_point : ℕ → Bool
is_point c = c == b'.'

-- A byte that may go on with a number.
abbrev pub is_number_byte : ℕ → Bool
is_number_byte c = is_digit c || is_point c || is_exponent_mark c

run_of_digits :
    (u r : Bytes) (j : ℕ)
    → AreDigits u
    → NotBefore is_digit r
    → run_of is_digit (u ++ r) j ≡ j + length u
unfolding run_of
run_of_digits [] [] j d n = omega arith
run_of_digits [] (c ∷ r) j d n = rw n (omega arith)
run_of_digits (c ∷ u) r j d n = rw d.0 (run_of_digits u r (suc j) d.1 n ∙ omega arith)

digit-is_sign : (c : ℕ) → is_digit c ≡ true → is_sign c ≡ false
unfolding is_digit
digit-is_sign c h = ground arith

integer-NotBefore-minus : (u r : Bytes) → IsInteger u → NotBefore (λ c. c == b'-') (u ++ r)
integer-NotBefore-minus u r (nought z) = rw z
integer-NotBefore-minus u r (digits {c} d z h) = ground (arith, digit-is_sign c d)

NotBefore-weaken :
    (p q : ℕ → Bool) (r : Bytes)
    → ((c : ℕ) → p c ≡ false → q c ≡ false)
    → NotBefore p r
    → NotBefore q r
NotBefore-weaken p q [] f n = tt
NotBefore-weaken p q (c ∷ r) f n = f c n

exponent-NotBefore :
    (test : ℕ → Bool) (u r : Bytes)
    → ((c : ℕ) → is_exponent_mark c ≡ true → test c ≡ false)
    → IsExponent u
    → NotBefore test r
    → NotBefore test (u ++ r)
exponent-NotBefore test u r f absent n = n
exponent-NotBefore test u r f (plain {c} m d h) n = f c m
exponent-NotBefore test u r f (signed {c} m t d h) n = f c m

fraction-NotBefore :
    (u r : Bytes) → IsFraction u → NotBefore is_digit r → NotBefore is_digit (u ++ r)
unfolding is_digit
fraction-NotBefore u r whole n = n
fraction-NotBefore u r (point p d h) n = rw p

mark-is_digit : (c : ℕ) → is_exponent_mark c ≡ true → is_digit c ≡ false
unfolding is_digit
mark-is_digit c h = ground arith

mark-is_point : (c : ℕ) → is_exponent_mark c ≡ true → is_point c ≡ false
mark-is_point c h = ground arith

module _ (text : Bytes) where
  skip_digits_all :
      (i : ℕ) (u r : Bytes)
      → drop i text ≡ u ++ r
      → AreDigits u
      → NotBefore is_digit r
      → skip_digits text i ≡ i + length u
  unfolding skip_digits
  skip_digits_all i u r e d n = rw e (run_of_digits u r i d n)

  skip_digit_run_all :
      (i d : ℕ) (u r : Bytes)
      → drop i text ≡ d ∷ (u ++ r)
      → is_digit d ≡ true
      → AreDigits u
      → NotBefore is_digit r
      → skip_digit_run text i ≡ some (i + suc (length u))
  unfolding skip_digit_run
  skip_digit_run_all i d u r e h hs n = ground (arith, skip_digits_all i (d ∷ u) r e (h, hs) n)

  integer_part_all :
      (i : ℕ) (u r : Bytes)
      → drop i text ≡ u ++ r
      → IsInteger u
      → NotBefore is_digit r
      → integer_part text i ≡ some (i + length u)
  unfolding integer_part
  integer_part_all i u r e (nought {c} z) n =
      rw (e, integer_part) (rw ((==_iff c b'0').1 z) (ap some (omega arith)))
  integer_part_all i u r e (digits {c} {s} d z h) n = elim (Bool-cases (c == b'0')) [
    | inl q ↦ absurd (z ((==_iff c b'0').0 q))
    | inr q ↦
        rw (e, integer_part)
          (rw (q, d) (ap some (skip_digits_all (suc i) s r (drop-suc i text e) h n ∙ omega arith)))
  ]

  past_stay :
      (test : ℕ → Bool) (i : ℕ) (r : Bytes)
      → drop i text ≡ r
      → NotBefore test r
      → past test text i ≡ i
  past_stay test i [] e n = rw (e, past)
  past_stay test i (c ∷ r) e n = rw (e, past) (rw n)

  past_go :
      (test : ℕ → Bool) (i c : ℕ) (r : Bytes)
      → drop i text ≡ c ∷ r
      → test c ≡ true
      → past test text i ≡ suc i
  past_go test i c r e t = rw (e, past) (rw t)

  pub skip_integer_all :
      (i : ℕ) (g u r : Bytes)
      → drop i text ≡ g ++ (u ++ r)
      → IsSign g
      → IsInteger u
      → NotBefore is_digit r
      → skip_integer text i ≡ some (i + length g + length u)
  unfolding skip_integer
  skip_integer_all i g u r e unsigned h n =
      rw (past_stay (λ c. c == b'-') i (u ++ r) e (integer-NotBefore-minus u r h))
        (integer_part_all i u r e h n ∙ ap some (omega arith))
  skip_integer_all i g u r e (minus {c} m) h n =
      rw (past_go (λ c. c == b'-') i c (u ++ r) e ((==_iff c b'-').1 m))
        (integer_part_all (suc i) u r (drop-suc i text e) h n ∙ ap some (omega arith))

  skip_fraction_all :
      (i : ℕ) (u r : Bytes)
      → drop i text ≡ u ++ r
      → IsFraction u
      → NotBefore is_digit r
      → NotBefore is_point r
      → skip_fraction text i ≡ some (i + length u)
  unfolding skip_fraction
  skip_fraction_all i u [] e whole n p = rw (e, skip_fraction) (ap some (omega arith))
  skip_fraction_all i u (c ∷ r) e whole n p = rw (e, skip_fraction) (rw p (ap some (omega arith)))
  skip_fraction_all i u r e (point {c} {d} {s} q h hs) n p =
      rw (e, skip_fraction)
        (rw ((==_iff c b'.').1 q)
          (skip_digit_run_all (suc i) d s r (drop-suc i text e) h hs n ∙ ap some (omega arith)))

  skip_exponent_all :
      (i : ℕ) (u r : Bytes)
      → drop i text ≡ u ++ r
      → IsExponent u
      → NotBefore is_digit r
      → NotBefore is_exponent_mark r
      → skip_exponent text i ≡ some (i + length u)
  unfolding skip_exponent
  skip_exponent_all i u [] e absent n p = rw (e, skip_exponent) (ap some (omega arith))
  skip_exponent_all i u (c ∷ r) e absent n p = rw (e, skip_exponent) (rw p (ap some (omega arith)))
  skip_exponent_all i u r e (plain {c} {d} {s} m h hs) n p =
      let e' = drop-suc i text e in
      rw (e, skip_exponent)
        (rw m (
          rw (past_stay is_sign (suc i) (d ∷ s ++ r) e' (digit-is_sign d h))
            (skip_digit_run_all (suc i) d s r e' h hs n ∙ ap some (omega arith))))
  skip_exponent_all i u r e (signed {c} {g} {d} {s} m t h hs) n p =
      let e' = drop-suc i text e in
      rw (e, skip_exponent)
        (rw m (
          rw (past_go is_sign (suc i) g (d ∷ s ++ r) e' t) (
            skip_digit_run_all (suc (suc i)) d s r (drop-suc (suc i) text e') h hs n
            ∙ ap some (omega arith))))

  -- A number of the grammar is read to its end.
  pub skip_number_all :
      (i : ℕ) (t r : Bytes)
      → drop i text ≡ t ++ r
      → IsNumberText t
      → NotBefore is_number_byte r
      → skip_number text i ≡ some (i + length t)
  unfolding skip_number number_at
  skip_number_all i t r e n stop =
      let no_digit : NotBefore is_digit r =
        NotBefore-weaken is_number_byte is_digit r (λ c h. ground arith) stop in
      let no_mark : NotBefore is_exponent_mark r =
        NotBefore-weaken is_number_byte is_exponent_mark r (λ c h. ground arith) stop in
      let no_point : NotBefore is_point r =
        NotBefore-weaken is_number_byte is_point r (λ c h. ground arith) stop in
      let behind = n.exponent ++ r in
      let behind_digit =
        exponent-NotBefore is_digit n.exponent r mark-is_digit n.is_exponent no_digit in
      let behind_point =
        exponent-NotBefore is_point n.exponent r mark-is_point n.is_exponent no_point in
      let all = e ∙ ap (λ s. s ++ r) n.splits ∙ simp append_assoc in
      let at_sign = drop_past i text n.sign all in
      let at_fraction = drop_past (i + length n.sign) text n.integer at_sign in
      let a = i + length n.sign + length n.integer in
      let at_exponent = drop_past a text n.fraction at_fraction in
      let integer =
        skip_integer_all i n.sign n.integer (n.fraction ++ behind) all n.is_sign_text n.is_integer
          (fraction-NotBefore n.fraction behind n.is_fraction behind_digit) in
      let fraction =
        skip_fraction_all a n.fraction behind at_fraction n.is_fraction behind_digit behind_point in
      let exponent =
        skip_exponent_all (a + length n.fraction) n.exponent r at_exponent n.is_exponent no_digit
          no_mark in
      let total : a + length n.fraction + length n.exponent ≡ i + length t = omega (
        arith,
        ap length n.splits,
        length-append n.sign (n.integer ++ (n.fraction ++ n.exponent)),
        length-append n.integer (n.fraction ++ n.exponent),
        length-append n.fraction n.exponent,
      ) in
      rw integer (rw fraction (rw exponent (ap some total)))
