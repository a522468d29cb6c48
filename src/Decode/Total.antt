-- ===== src/Decode/Total.antt =====
-- Every body of a JSON string stands for a text.
use go_jsonfast.Base.{
  ℕ, zero, suc, ◌<◌, ◌≤◌, true, some, [], ◌∷◌, ◌++◌, ◌≡◌, ◌≢◌, ◌⊎◌, inl, inr, refl, sym, ap, subst,
  ◌∙◌, arith, ◌==◌, ==_iff, Bool-cases, Option-cases, length, length-append, drop, drop-append,
  Bytes, append_assoc,
}
use go_jsonfast.Utf8.{rune_error, encode_point, is_surrogate, decode_pair}
use go_jsonfast.Strings.{any_body, unescape_byte, hex4, unicode_escape}
use go_jsonfast.Strings.Grammar.{IsBody, IsAnyBody, done, unit}
use go_jsonfast.Strings.Pieces.{unicode_inv}
use go_jsonfast.Strings.Units.{stops_clean}
use go_jsonfast.Strings.Exact.{any-IsReading}
use go_jsonfast.Strings.Loop.{strip, second_half}
use go_jsonfast.Decode.Content.{replacement, Stands, Reads, closed, kept, stood}
use go_jsonfast.Decode.Bodies.{CleanUnit-Units, clean_front}

-- A half and what stands behind it: nothing that it joins, or the other half.
half_Stands :
    (s t a b c d h : ℕ) (v r : Bytes)
    → s ≡ b'\\'
    → t ≡ b'u'
    → hex4 a b c d ≡ some h
    → is_surrogate h ≡ true
    → IsAnyBody v
    → (e w : Bytes) × Stands any_body
        (s ∷ t ∷ a ∷ b ∷ c ∷ d ∷ (v ++ (b'"' ∷ r)))
        e
        (w ++ (b'"' ∷ r))
      × IsAnyBody w
      × (length w ≤ length v)
half_Stands s t a b c d h v r back letter hex high body =
    let behind = v ++ (b'"' ∷ r) in
    elim (Option-cases (unicode_escape behind)) [
      | inl none' ↦ (_, v, Stands.lone back letter hex high (λ l next. cc) refl, body, omega arith)
      | inr (l, next) ↦ elim (Bool-cases (decode_pair h l == rune_error)) [
        | inl error ↦ (
          _,
          v,
          Stands.lone back letter hex high
              (λ m (next' : unicode_escape behind ≡ some m).
                let both : some l ≡ some m = sym next ∙ next' in
                let same : l ≡ m = cc in
                rw (← same) ((==_iff (decode_pair h l) rune_error).0 error))
              refl,
          body,
          omega arith,
        )
        | inr valid ↦
            let ok : decode_pair h l ≢ rune_error =
              λ wrong. cc ((==_iff (decode_pair h l) rune_error).1 wrong) in
            let (y, v', split, size, body') = second_half any-IsReading h l v r next ok body in
            let (x', u', a', b', c', d', r', split', back', letter', hex') =
              unicode_inv behind l next in
            let rest : r' ≡ v' ++ (b'"' ∷ r) =
              ap (drop 6) (sym split')
              ∙ ap (λ n. drop n behind) (sym size)
              ∙ ap (λ z. drop (length y) (z ++ (b'"' ∷ r))) split
              ∙ ap (drop (length y)) (append_assoc y v' (b'"' ∷ r))
              ∙ drop-append y (v' ++ (b'"' ∷ r)) in
            (
              encode_point (decode_pair h l),
              v',
              subst
                  (λ z.
                    Stands any_body (s ∷ t ∷ a ∷ b ∷ c ∷ d ∷ z) (encode_point (decode_pair h l))
                      (v' ++ (b'"' ∷ r)))
                  (sym split')
                  (subst
                    (λ z.
                      Stands any_body (s ∷ t ∷ a ∷ b ∷ c ∷ d ∷ x' ∷ u' ∷ a' ∷ b' ∷ c' ∷ d' ∷ r')
                        (encode_point (decode_pair h l)) z)
                    rest (Stands.pair back letter hex high back' letter' hex' ok)),
              body',
              omega (arith, ap length split, length-append y v'),
            )
      ]
    ]

-- What is read first where no clean unit stands.
first_Stands :
    {u : Bytes} (r : Bytes)
    → IsAnyBody u
    → stops_clean (u ++ (b'"' ∷ r)) ≡ true
    → (u ≡ [])
      ⊎ ((e w : Bytes) × Stands any_body (u ++ (b'"' ∷ r)) e (w ++ (b'"' ∷ r))
          × IsAnyBody w
          × (length w < length u))
first_Stands r done stop = inl refl
first_Stands r (unit {w} x v f (c, e, k) b) stop =
    let whole : w ≡ c ∷ v = f ∙ ap (λ z. z ++ v) e in
    let start = ap (λ z. z ++ (b'"' ∷ r)) whole in
    inr (
      replacement,
      v,
      subst (λ z. Stands any_body z replacement (v ++ (b'"' ∷ r))) (sym start)
          (Stands.bad k (sym (ap stops_clean start) ∙ stop) refl),
      b,
      omega (arith, ap length whole),
    )
first_Stands r (IsBody.short {d} {v} back letter value b) stop =
    inr (unescape_byte d ∷ [], v, Stands.short back letter value, b, omega arith)
first_Stands r (IsBody.point {h} {v} back letter hex low b) stop =
    inr (encode_point h, v, Stands.point back letter hex low, b, omega arith)
first_Stands r (IsBody.pair {h} {l} {v} back letter hex high back' letter' hex' valid b) stop =
    inr (
      encode_point (decode_pair h l),
      v,
      Stands.pair back letter hex high back' letter' hex' valid,
      b,
      omega arith,
    )
first_Stands r (IsBody.lone {s} {t} {a} {b = b'} {c} {d} {h} {v} back letter hex high keep b) stop =
    let (e, w, st, body, le) = half_Stands s t a b' c d h v r back letter hex high b in
    inr (e, w, st, body, omega arith)

-- Every body of a JSON string stands for a text, UTF-8 unchecked.
pub IsAnyBody-Reads :
    (n : ℕ) (u r : Bytes)
    → length u < n
    → IsAnyBody u
    → (x : Bytes) × Reads any_body (u ++ (b'"' ∷ r)) x r
IsAnyBody-Reads zero u r lt b = absurd (omega arith)
IsAnyBody-Reads (suc n) u r lt b = elim (Bool-cases (stops_clean (u ++ (b'"' ∷ r)))) [
  | inr goes ↦
      let (w, t, split, some_byte, clean) = clean_front (u ++ (b'"' ∷ r)) goes in
      let (v, is, behind, body) = strip any-IsReading t u r (CleanUnit-Units clean) (sym split) b in
      let (x, d) = IsAnyBody-Reads n v r (omega (arith, ap length is, length-append w v)) body in
      (w ++ x, kept w t x split refl clean (subst (λ z. Reads any_body z x r) (sym behind) d))
  | inl stop ↦ elim (first_Stands r b stop) [
    | inl nil ↦ ([], closed (ap (λ z. z ++ (b'"' ∷ r)) nil) refl)
    | inr (e, w, st, body, less) ↦
        let (x, d) = IsAnyBody-Reads n w r (omega arith) body in
        (e ++ x, stood e (w ++ (b'"' ∷ r)) x refl st d)
  ]
]
