-- ===== src/Decode/Pieces.antt =====
-- What decodeFrom and matchedPrefix meet behind a clean run is what the grammar says, and back.
use go_jsonfast.Base.{
  ℕ, ◌<◌, ◌≤◌, true, false, some, [], ◌∷◌, ◌≡◌, ◌≢◌, ◌⊎◌, inl, inr, refl, sym, ap, subst, ◌∙◌,
  arith, ◌==◌, ==_iff, if◌then◌else◌, Bool-cases, Option-cases, ℤ, pos, leb_ℤ, length, drop, Bytes,
}
use go_jsonfast.Swar.{body_byte}
use go_jsonfast.Utf8.{rune_error, is_surrogate, decode_pair, encode_point, encode_rune}
use go_jsonfast.Strings.{
  bad_rune, malformed_rune, unescape_byte, short_escape, unicode_escape, rune_of_pair,
  rune_of_escape, rune_at,
}
use go_jsonfast.Strings.Pieces.{unicode_inv}
use go_jsonfast.Strings.Units.{stops_clean}
use go_jsonfast.Decode.{Written, fault, closes, writes, written, written_rune}
use go_jsonfast.Decode.Content.{replacement, Stands, short, point, pair, lone, bad}

pub Written-cases :
    (w : Written) → (w ≡ fault) ⊎ ((w ≡ closes) ⊎ ((b : Bytes) × (n : ℕ) × (w ≡ writes b n)))
Written-cases fault = inl refl
Written-cases closes = inr (inl refl)
Written-cases (writes b n) = inr (inr (b, n, refl))

-- Where neither a plain byte nor a rune of several bytes stands, a byte of a body is no ASCII byte.
module _ (lowest : ℤ) where
  -- At the front of `s` stands what stands for `b`, `n` bytes long.
  pub record StandsAt (s b : Bytes) (n : ℕ) : Type 0 where
    pub piece : Stands lowest s b (drop n s)
    pub positive : 0 < n
    pub fits : n ≤ length s

  lone-StandsAt :
      (s : Bytes) (h : ℕ)
      → unicode_escape s ≡ some h
      → is_surrogate h ≡ true
      → ((l : ℕ) → unicode_escape (drop 6 s) ≡ some l → decode_pair h l ≡ rune_error)
      → leb_ℤ lowest bad_rune ≡ true
      → StandsAt s replacement 6
  lone-StandsAt s h e high single keep =
      let (x, u, a, b, c, d, r, split, back, letter, hex) = unicode_inv s h e in
      let behind : drop 6 s ≡ r = ap (drop 6) split in
      record {
        piece =
            subst (λ t. Stands lowest t replacement (drop 6 t)) (sym split)
              (lone back letter hex high (λ l next. single l (ap unicode_escape behind ∙ next))
                keep);
        positive = omega arith;
        fits = omega (arith, ap length split);
      }

  paired-StandsAt :
      (s : Bytes) (h l : ℕ)
      → unicode_escape s ≡ some h
      → is_surrogate h ≡ true
      → unicode_escape (drop 6 s) ≡ some l
      → decode_pair h l ≢ rune_error
      → StandsAt s (encode_point (decode_pair h l)) 12
  paired-StandsAt s h l e high next valid =
      let (x, u, a, b, c, d, r, split, back, letter, hex) = unicode_inv s h e in
      let next' = rw split at next in
      let (x', u', a', b', c', d', r', split', back', letter', hex') = unicode_inv r l next' in
      let whole = split ∙ ap (λ t. x ∷ u ∷ a ∷ b ∷ c ∷ d ∷ t) split' in
      record {
        piece =
            subst (λ t. Stands lowest t (encode_point (decode_pair h l)) (drop 12 t)) (sym whole)
              (pair back letter hex high back' letter' hex' valid);
        positive = omega arith;
        fits = omega (arith, ap length whole);
      }

  point-StandsAt :
      (s : Bytes) (h : ℕ)
      → unicode_escape s ≡ some h
      → is_surrogate h ≡ false
      → StandsAt s (encode_point h) 6
  point-StandsAt s h e low =
      let (x, u, a, b, c, d, r, split, back, letter, hex) = unicode_inv s h e in
      record {
        piece =
            subst (λ t. Stands lowest t (encode_point h) (drop 6 t)) (sym split)
              (point back letter hex low);
        positive = omega arith;
        fits = omega (arith, ap length split);
      }

  -- The escape of the surrogate `h` at the front of s, and the next one.
  pair-StandsAt :
      (s : Bytes) (h : ℕ) {b : Bytes} {n : ℕ}
      → unicode_escape s ≡ some h
      → is_surrogate h ≡ true
      → written_rune lowest (rune_of_pair h (unicode_escape (drop 6 s))) ≡ writes b n
      → StandsAt s b n
  unfolding rune_of_pair written_rune encode_rune
  pair-StandsAt s h {b} {n} e high p = elim (Option-cases (unicode_escape (drop 6 s))) [
    | inl none' ↦ alone (λ l next. cc) (rw none' at p)
    | inr (l, next) ↦ elim (Bool-cases (decode_pair h l == rune_error)) [
      | inl error ↦
          alone
            (λ m next'.
              let same : l ≡ m = cc in rw (← same) ((==_iff (decode_pair h l) rune_error).0 error))
            (rw error at (rw next at p))
      | inr valid ↦
          joined l next (λ bad. cc ((==_iff (decode_pair h l) rune_error).1 bad))
            (Bool-cases (leb_ℤ lowest (pos (decode_pair h l)))) (rw valid at (rw next at p))
    ]
  ]
    where
      alone :
          ((l : ℕ) → unicode_escape (drop 6 s) ≡ some l → decode_pair h l ≡ rune_error)
          → (if leb_ℤ lowest bad_rune then writes replacement 6 else fault) ≡ writes b n
          → StandsAt s b n
      alone single q = elim (Bool-cases (leb_ℤ lowest bad_rune)) [
        | inl keep ↦
            let q' : writes replacement 6 ≡ writes b n = rw keep at q in
            let bytes : replacement ≡ b = cc in
            let size : 6 ≡ n = cc in
            subst (λ c. StandsAt s c n) bytes
              (subst (StandsAt s _) size (lone-StandsAt s h e high single keep))
        | inr less ↦ cc (rw less at q)
      ]

      joined :
          (l : ℕ)
          → unicode_escape (drop 6 s) ≡ some l
          → decode_pair h l ≢ rune_error
          → (leb_ℤ lowest (pos (decode_pair h l)) ≡ true)
            ⊎ (leb_ℤ lowest (pos (decode_pair h l)) ≡ false)
          → (if leb_ℤ lowest (pos (decode_pair h l))
              then writes (encode_point (decode_pair h l)) 12
              else fault)
            ≡ writes b n
          → StandsAt s b n
      joined l next valid (inl keep) q =
          let q' : writes (encode_point (decode_pair h l)) 12 ≡ writes b n = rw keep at q in
          let bytes : encode_point (decode_pair h l) ≡ b = cc in
          let size : 12 ≡ n = cc in
          subst (λ c. StandsAt s c n) bytes
            (subst (StandsAt s _) size (paired-StandsAt s h l e high next valid))
      joined l next valid (inr less) q = cc (rw less at q)

  rune-StandsAt :
      (c : ℕ) (s : Bytes) {b : Bytes} {n : ℕ}
      → leb_ℤ lowest malformed_rune ≡ false
      → stops_clean (c ∷ s) ≡ true
      → written_rune lowest (rune_at (c ∷ s)) ≡ writes b n
      → StandsAt (c ∷ s) b n
  unfolding rune_at rune_of_escape written_rune encode_rune
  rune-StandsAt c s {b} {n} refuses stop e = elim (Bool-cases (c == b'\\')) [
    | inr plain ↦ elim (Bool-cases (body_byte c)) [
      | inl body ↦ elim (Bool-cases (leb_ℤ lowest bad_rune)) [
        | inl keep ↦
            let q : writes replacement 1 ≡ writes b n = rw keep at (rw body at (rw plain at e)) in
            let bytes : replacement ≡ b = cc in
            let size : 1 ≡ n = cc in
            subst (λ c'. StandsAt (c ∷ s) c' n) bytes
              (subst (StandsAt (c ∷ s) replacement) size
                (record { piece = bad body stop keep; positive = omega arith; fits = omega arith }))
        | inr less ↦ cc (rw less at (rw body at (rw plain at e)))
      ]
      | inr other ↦ cc (rw refuses at (rw other at (rw plain at e)))
    ]
    | inl back ↦ elim (Option-cases (unicode_escape (c ∷ s))) [
      | inl none' ↦ cc (rw refuses at (rw none' at (rw back at e)))
      | inr (h, u) ↦ elim (Bool-cases (is_surrogate h)) [
        | inl high ↦ pair-StandsAt (c ∷ s) h u high (rw high at (rw u at (rw back at e)))
        | inr low ↦ elim (Bool-cases (leb_ℤ lowest (pos h))) [
          | inl keep ↦
              let q : writes (encode_point h) 6 ≡ writes b n =
                rw keep at (rw low at (rw u at (rw back at e))) in
              let bytes : encode_point h ≡ b = cc in
              let size : 6 ≡ n = cc in
              subst (λ c'. StandsAt (c ∷ s) c' n) bytes
                (subst (StandsAt (c ∷ s) (encode_point h)) size (point-StandsAt (c ∷ s) h u low))
          | inr less ↦ cc (rw less at (rw low at (rw u at (rw back at e))))
        ]
      ]
    ]
  ]

  short_value :
      (s : Bytes)
      → (short_escape s == 0) ≡ false
      → (c d : ℕ) × (r : Bytes) × (s ≡ c ∷ d ∷ r)
        × (c ≡ b'\\')
        × (d ≢ b'u')
        × (unescape_byte d ≢ 0)
        × (short_escape s ≡ unescape_byte d)
  unfolding short_escape
  short_value (c ∷ d ∷ r) e =
      (c, d, r, refl, ground arith, ground arith, ground arith, ground arith)
  short_value _ e = cc

  -- What decodeFrom writes and passes behind a clean run.
  pub written-StandsAt :
      (s : Bytes) {b : Bytes} {n : ℕ}
      → leb_ℤ lowest malformed_rune ≡ false
      → stops_clean s ≡ true
      → written s lowest ≡ writes b n
      → StandsAt s b n
  unfolding written
  written-StandsAt [] refuses stop e = cc
  written-StandsAt (c ∷ s) {b} {n} refuses stop e = elim (Bool-cases (c == b'"')) [
    | inl quote ↦ cc (rw quote at e)
    | inr other ↦
        let e' = rw other at e in
        elim (Bool-cases (short_escape (c ∷ s) == 0)) [
          | inr escape ↦
              let (x, d, r, split, back, letter, value, is) = short_value (c ∷ s) escape in
              let q : writes (short_escape (c ∷ s) ∷ []) 2 ≡ writes b n = rw escape at e' in
              let bytes : short_escape (c ∷ s) ∷ [] ≡ b = cc in
              let size : 2 ≡ n = cc in
              subst (λ c'. StandsAt (c ∷ s) c' n) (ap (λ y. y ∷ []) (sym is) ∙ bytes)
                (subst (StandsAt (c ∷ s) (unescape_byte d ∷ [])) size (record {
                  piece =
                      subst (λ t. Stands lowest t (unescape_byte d ∷ []) (drop 2 t)) (sym split)
                        (short back letter value);
                  positive = omega arith;
                  fits = omega (arith, ap length split);
                }))
          | inl no_short ↦ rune-StandsAt c s refuses stop (rw no_short at e')
        ]
  ]

  pub written-closes : (s : Bytes) → written s lowest ≡ closes → (r : Bytes) × (s ≡ b'"' ∷ r)
  unfolding written written_rune
  written-closes [] e = cc
  written-closes (c ∷ s) e = elim (Bool-cases (c == b'"')) [
    | inl quote ↦ (s, ap (λ d. d ∷ s) ((==_iff c b'"').0 quote))
    | inr other ↦ ground arith
  ]
