-- ===== src/Strings/Loop.antt =====
-- The loop of stringEnd and strictEnd, for any reading of a body: it ends exactly behind a body of
-- the grammar and its closing quote.
use go_jsonfast.Strings.Reading.{
  piece_short, turned, piece_unicode, unicode_escape_at, halves, Piece-cases, IsReading,
}
use go_jsonfast.Base.{
  ℕ, zero, suc, ◌+◌, ◌<◌, Bool, true, some, [], ◌∷◌, ◌++◌, ◌≡◌, ◌≢◌, ◌⊎◌, inl, inr, refl, sym, ap,
  ap₂, ◌∙◌, arith, ◌==◌, ==_iff, Bool-cases, Option-cases, ℤ, length, length-append, drop, drop-suc,
  drop_past, Bytes, append_assoc, append-nil,
}
use go_jsonfast.Utf8.{rune_error, is_surrogate, decode_pair}
use go_jsonfast.Strings.{
  bad_rune, unicode_escape, rune_of_pair, rune_of_escape, ends, on, piece, scan_body,
}
use go_jsonfast.Strings.Grammar.{IsBody, done, unit, short, point, pair, lone}
use go_jsonfast.Strings.Units.{Units, none_left, more, Passes}
use go_jsonfast.Strings.Pieces.{piece-IsEscape, piece-ends, piece_quote, unicode_inv}

module _ {Single : Bytes → Type 0} {stops : Bytes → Bool} {lowest : ℤ}
    (reading : IsReading Single stops lowest) where
  pub Units-IsBody :
      {u : Bytes} (v : Bytes)
      → Units Single u
      → IsBody Single lowest v
      → IsBody Single lowest (u ++ v)
  Units-IsBody v none_left b = b
  Units-IsBody v (more x w e h t) b =
      unit x (w ++ v) (ap (λ s. s ++ v) e ∙ append_assoc x w v) h (Units-IsBody v t b)

  abbrev Ended : Bytes → ℕ → ℕ → Type 0
  Ended text j k =
      (u : Bytes) × (drop j text ≡ u ++ (b'"' ∷ drop k text))
      × (k ≡ j + length u + 1)
      × IsBody Single lowest u

  module _ (run : Bytes → ℕ → ℕ) (text : Bytes)
      (runs : (j : ℕ) → Passes Single stops text j (run text j)) where
    -- A string that the loop ends has a body of the grammar.
    pub scan_body_sound :
        (rounds j : ℕ) {k : ℕ} → scan_body run lowest rounds text j ≡ some k → Ended text j k
    unfolding scan_body
    scan_body_sound zero j e = cc
    scan_body_sound (suc rounds) j {k} e =
        let m = run text j in
        let p = runs j in
        elim (Piece-cases (piece (drop m text) lowest)) [
          | inl f ↦ cc (rw (f, scan_body) at e)
          | inr (inl f) ↦
              let (r, split) = piece-ends Single lowest (drop m text) f in
              let at : suc m ≡ k = cc (rw (f, scan_body) at e) in
              let rest : drop k text ≡ r = ap (λ n. drop n text) (sym at) ∙ drop-suc m text split in
              (
                p.passed,
                p.splits ∙ ap (λ s. p.passed ++ s) (split ∙ ap (λ s. b'"' ∷ s) (sym rest)),
                omega (arith, p.end_is),
                rw (← append-nil p.passed) (Units-IsBody [] p.units done),
              )
          | inr (inr (n, f)) ↦
              let x =
                piece-IsEscape Single lowest (drop m text) reading.refuses
                  (λ c r split keep. reading.stop_byte c r (rw split at p.stop) keep) f in
              let (u, split, end, body) = scan_body_sound rounds (m + n) (rw (f, scan_body) at e) in
              let here : drop (m + n) text ≡ x.rest =
                ap (λ n. drop (m + n) text) (sym x.size) ∙ drop_past m text x.taken x.splits in
              (
                p.passed ++ (x.taken ++ u),
                p.splits
                    ∙ ap (λ s. p.passed ++ s) (x.splits ∙ ap (λ s. x.taken ++ s) (sym here ∙ split))
                    ∙ simp append_assoc,
                omega (
                  arith,
                  p.end_is,
                  x.size,
                  length-append p.passed (x.taken ++ u),
                  length-append x.taken u,
                ),
                Units-IsBody (x.taken ++ u) p.units (x.extends u body),
              )
        ]

  -- No unit begins with a quote or a backslash.
  clash {ℓ} :
      {A : Type ℓ} (x w' s t : Bytes) {w : Bytes} {c : ℕ}
      → w ≡ x ++ w'
      → Single x
      → w ++ t ≡ c ∷ s
      → (c ≡ b'"') ⊎ (c ≡ b'\\')
      → A
  clash x w' s t {w} {c} split h e at =
      let whole = sym (ap (λ v. v ++ t) split ∙ append_assoc x w' t) ∙ e in
      let (quote, back) = reading.unit_start x (w' ++ t) c s h whole in
      elim at [ inl q ↦ absurd (quote q) | inr q ↦ absurd (back q) ]

  -- The units that a run passes are the first of the body.
  pub strip :
      {w : Bytes} (t u r : Bytes)
      → Units Single w
      → w ++ t ≡ u ++ (b'"' ∷ r)
      → IsBody Single lowest u
      → (v : Bytes) × (u ≡ w ++ v) × (t ≡ v ++ (b'"' ∷ r)) × IsBody Single lowest v
  strip t u r none_left e b = (u, refl, e, b)
  strip t u r (more x w' e' h rest) e done = clash x w' _ t e' h e (inl refl)
  strip {w} t u r (more x w' e' h rest) e (unit y v f h' b) =
      let left = sym (ap (λ s. s ++ t) e' ∙ append_assoc x w' t) in
      let right = ap (λ s. s ++ (b'"' ∷ r)) f ∙ append_assoc y v (b'"' ∷ r) in
      let (same, after) =
        reading.same_unit x y (w' ++ t) (v ++ (b'"' ∷ r)) h h' (left ∙ e ∙ right) in
      let (v', split, behind, b') = strip t v r rest after b in
      (
        v',
        f ∙ ap₂ ◌++◌ (sym same) split ∙ sym (append_assoc x w' v') ∙ ap (λ s. s ++ v') (sym e'),
        behind,
        b',
      )
  strip t u r (more x w' e' h rest) e (short back letter value b) = clash x w' _ t e' h e (inr back)
  strip t u r (more x w' e' h rest) e (point back letter hex low b) =
      clash x w' _ t e' h e (inr back)
  strip t u r (more x w' e' h rest) e (pair back letter hex high back' letter' hex' valid b) =
      clash x w' _ t e' h e (inr back)
  strip t u r (more x w' e' h rest) e (lone back letter hex high keep b) =
      clash x w' _ t e' h e (inr back)

  -- How the loop goes on at a body that begins with no unit.
  data Turn (u r : Bytes) : Type 0 where
    finish : u ≡ [] → Turn u r
    skip :
        (x v : Bytes)
        → u ≡ x ++ v
        → 0 < length x
        → piece (u ++ (b'"' ∷ r)) lowest ≡ on (length x)
        → IsBody Single lowest v
        → Turn u r

  joined :
      (h l : ℕ)
      → is_surrogate h ≡ true
      → decode_pair h l ≢ rune_error
      → turned lowest (rune_of_escape (some h) (some l)) ≡ on 12
  unfolding rune_of_escape rune_of_pair
  joined h l high valid = elim (Bool-cases (decode_pair h l == rune_error)) [
    | inl error ↦ absurd (valid ((==_iff (decode_pair h l) rune_error).0 error))
    | inr other ↦ rw (high, other) (rw (reading.keeps (decode_pair h l)))
  ]

  -- An escape that completes a pair is one of the body.
  pub second_half :
      (h l : ℕ) (v r : Bytes)
      → unicode_escape (v ++ (b'"' ∷ r)) ≡ some l
      → decode_pair h l ≢ rune_error
      → IsBody Single lowest v
      → (y v' : Bytes) × (v ≡ y ++ v') × (length y ≡ 6) × IsBody Single lowest v'
  second_half h l v r e valid done =
      let (x, u, a, b, c, d, w, split, back, letter, hex) = unicode_inv (b'"' ∷ r) l e in
      absurd (ground arith)
  second_half h l v r e valid (unit x v' f single body) =
      let (s, u, a, b, c, d, w, split, back, letter, hex) = unicode_inv (v ++ (b'"' ∷ r)) l e in
      let whole = sym (ap (λ s. s ++ (b'"' ∷ r)) f ∙ append_assoc x v' (b'"' ∷ r)) ∙ split in
      absurd ((reading.unit_start x (v' ++ (b'"' ∷ r)) s _ single whole).1 back)
  second_half h l v r e valid (short {c} {d} {v = v'} back letter value body) =
      let (s, u, a, b, c', d', w, split, back', letter', hex) =
        unicode_inv (c ∷ d ∷ (v' ++ (b'"' ∷ r))) l e in
      let same : d ≡ u = cc in absurd (letter (same ∙ letter'))
  second_half h l v r e valid (point {s} {t} {a} {b} {c} {d} {v = v'} back letter hex low body) =
      (s ∷ t ∷ a ∷ b ∷ c ∷ d ∷ [], v', refl, refl, body)
  second_half h l v r e valid
        (lone {s} {t} {a} {b} {c} {d} {v = v'} back letter hex high keep body) =
      (s ∷ t ∷ a ∷ b ∷ c ∷ d ∷ [], v', refl, refl, body)
  second_half h l v r e valid
        (pair {s} {t} {a} {b} {c} {d} {h = h'} {l = l'} back letter hex high back' letter' hex'
          valid' body) =
      let same : some l ≡ some h' = sym e ∙ unicode_escape_at s t a b c d _ back letter ∙ hex in
      let lh : l ≡ h' = cc in absurd (halves h l l' valid (rw lh valid'))

  turn : (u r : Bytes) → stops (u ++ (b'"' ∷ r)) ≡ true → IsBody Single lowest u → Turn u r
  turn u r stop done = finish refl
  turn u r stop (unit x v f h b) =
      let whole = ap (λ s. s ++ (b'"' ∷ r)) f ∙ append_assoc x v (b'"' ∷ r) in
      let no = reading.no_unit x (v ++ (b'"' ∷ r)) h in cc (sym stop ∙ ap stops whole ∙ no)
  turn u r stop (short {c} {d} {v} back letter value b) =
      skip (c ∷ d ∷ []) v refl (omega arith)
        (piece_short c d (v ++ (b'"' ∷ r)) lowest back letter value) b
  turn u r stop (point {s} {t} {a} {b} {c} {d} {h} {v} back letter hex low body) =
      skip (s ∷ t ∷ a ∷ b ∷ c ∷ d ∷ []) v refl (omega arith)
        (piece_unicode s t a b c d h (v ++ (b'"' ∷ r)) lowest back letter hex
          ∙ unfold rune_of_escape in rw (low, reading.keeps h))
        body
  turn u r stop
        (pair {s} {t} {a} {b} {c} {d} {h} {s'} {t'} {a'} {b'} {c'} {d'} {l} {v} back letter hex high
          back' letter' hex' valid body) =
      let behind = v ++ (b'"' ∷ r) in
      let next = unicode_escape_at s' t' a' b' c' d' behind back' letter' ∙ hex' in
      skip (s ∷ t ∷ a ∷ b ∷ c ∷ d ∷ s' ∷ t' ∷ a' ∷ b' ∷ c' ∷ d' ∷ []) v refl (omega arith)
        (piece_unicode s t a b c d h (s' ∷ t' ∷ a' ∷ b' ∷ c' ∷ d' ∷ behind) lowest back letter hex
          ∙ ap (λ o. turned lowest (rune_of_escape (some h) o)) next
          ∙ joined h l high valid)
        body
  turn u r stop (lone {s} {t} {a} {b} {c} {d} {h} {v} back letter hex high keep body) =
      let behind = v ++ (b'"' ∷ r) in
      let at = piece_unicode s t a b c d h behind lowest back letter hex in
      let alone : rune_of_escape (some h) (unicode_escape behind) ≡ (bad_rune, 6)
          → Turn (s ∷ t ∷ a ∷ b ∷ c ∷ d ∷ v) r =
        λ e.
          skip (s ∷ t ∷ a ∷ b ∷ c ∷ d ∷ []) v refl (omega arith)
            (at ∙ ap (turned lowest) e ∙ rw keep) body in
      elim (Option-cases (unicode_escape behind)) [
        | inl none' ↦
            alone
              (ap (rune_of_escape (some h)) none' ∙ unfold rune_of_escape rune_of_pair in rw high)
        | inr (l, next) ↦ elim (Bool-cases (decode_pair h l == rune_error)) [
          | inl error ↦ alone (
              ap (rune_of_escape (some h)) next
              ∙ unfold rune_of_escape rune_of_pair in rw (high, error))
          | inr valid ↦
              let ok : decode_pair h l ≢ rune_error =
                λ bad. cc ((==_iff (decode_pair h l) rune_error).1 bad) in
              let (y, v', split, size, body') = second_half h l v r next ok body in
              skip (s ∷ t ∷ a ∷ b ∷ c ∷ d ∷ y) v' (ap (λ w. s ∷ t ∷ a ∷ b ∷ c ∷ d ∷ w) split)
                (omega arith)
                (at
                  ∙ ap (λ o. turned lowest (rune_of_escape (some h) o)) next
                  ∙ joined h l high ok
                  ∙ ap on (omega (arith, size)))
                body'
        ]
      ]

  module _ (run : Bytes → ℕ → ℕ) (text : Bytes)
      (runs : (j : ℕ) → Passes Single stops text j (run text j)) where
    -- The loop ends every string with a body of the grammar, behind its closing quote, in as many
    -- rounds as the body has bytes, and one.
    pub scan_body_complete :
        (rounds j : ℕ) (u r : Bytes)
        → drop j text ≡ u ++ (b'"' ∷ r)
        → length u < rounds
        → IsBody Single lowest u
        → scan_body run lowest rounds text j ≡ some (j + length u + 1)
    unfolding scan_body
    scan_body_complete zero j u r e h body = absurd (omega arith)
    scan_body_complete (suc rounds) j u r e h body =
        let m = run text j in
        let p = runs j in
        let (v, split, behind, rest) = strip (drop m text) u r p.units (sym p.splits ∙ e) body in
        let len = ap length split ∙ length-append p.passed v in
        elim (turn v r (rw (← behind) p.stop) rest) [
          | finish nil ↦
              let quote : piece (drop m text) lowest ≡ ends =
                ap (λ s. piece s lowest) (behind ∙ ap (λ s. s ++ (b'"' ∷ r)) nil)
                ∙ piece_quote Single lowest r in
              rw (quote, scan_body) (ap some (omega (arith, len, p.end_is, ap length nil)))
          | skip x w split' some_byte step body' ↦
              let step' : piece (drop m text) lowest ≡ on (length x) =
                ap (λ s. piece s lowest) behind ∙ step in
              let at =
                drop_past m text x
                  (behind ∙ ap (λ s. s ++ (b'"' ∷ r)) split' ∙ append_assoc x w (b'"' ∷ r)) in
              let len' = ap length split' ∙ length-append x w in
              rw (step', scan_body)
                (scan_body_complete rounds (m + length x) w r at (omega (arith, len, len')) body'
                  ∙ ap some (omega (arith, len, len', p.end_is)))
        ]
