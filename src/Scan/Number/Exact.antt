-- ===== src/Scan/Number/Exact.antt =====
-- IsNumber of scalar.go against the number grammar.
use go_jsonfast.Base.{
  ℕ, ◌+◌, true, [], ◌∷◌, ◌++◌, ◌≡◌, refl, sym, ap, ◌∙◌, arith, ==_iff, Option-cases, inl, inr, ◌↔◌,
  length, length-drop, drop, Bytes, append-nil,
}
use go_jsonfast.Scan.{skip_number, is_number}
use go_jsonfast.Scan.Number.{IsNumberText, Took}
use go_jsonfast.Scan.Number.Sound.{skip_number-Took}
use go_jsonfast.Scan.Number.Complete.{skip_number_all}

-- A scan to the end of the text took all of it.
pub Took_all :
    (P : Bytes → Type 0) (text : Bytes) {j : ℕ} → Took P text 0 j → j ≡ length text → P text
Took_all P text {j} (u, split, n, p) e =
    let empty : drop j text ≡ [] =
      nil_of_length (drop j text) (omega (arith, length-drop j text)) in
    let whole : text ≡ u = split ∙ ap (λ r. u ++ r) empty ∙ append-nil u in rw whole p
  where
    nil_of_length : (s : Bytes) → length s ≡ 0 → s ≡ []
    nil_of_length [] h = refl
    nil_of_length (c ∷ s) h = absurd (omega arith)

-- IsNumber accepts exactly the numbers of the JSON grammar.
pub is_number_iff : (raw : Bytes) → (is_number raw ≡ true) ↔ IsNumberText raw
unfolding is_number
is_number_iff raw = (sound, complete)
  where
    sound : is_number raw ≡ true → IsNumberText raw
    sound h = elim (Option-cases (skip_number raw 0)) [
      | inl e ↦ cc (rw (e, is_number) at h)
      | inr (j, e) ↦
          let h' = rw (e, is_number) at h in
          Took_all IsNumberText raw (skip_number-Took raw 0 e) ((==_iff j (length raw)).0 h')
    ]

    complete : IsNumberText raw → is_number raw ≡ true
    complete n =
        let e = skip_number_all raw 0 raw [] (sym (append-nil raw)) n tt in
        let k : 0 + length raw ≡ length raw = omega arith in
        rw (e, is_number) ((==_iff (0 + length raw) (length raw)).1 k)
