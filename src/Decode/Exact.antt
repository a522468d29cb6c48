-- ===== src/Decode/Exact.antt =====
-- decodeFrom decodes exactly the strings of the grammar, to the text that they stand for.
use go_jsonfast.Base.{
  ℕ, zero, suc, ◌+◌, ◌-◌, ◌<◌, ◌≤◌, true, false, some, Option, [], ◌∷◌, ◌++◌, ◌≡◌, ◌↔◌, ◌⊎◌, inl,
  inr, refl, sym, ap, ap₂, subst, ◌∙◌, arith, ℤ, pos, leb_ℤ, length, length-drop, drop, drop-suc,
  take, take-append, slice, Bytes, append_assoc, append-nil, lt-length-of-drop,
}
use go_jsonfast.Swar.Lanes.{AreBytes}
use go_jsonfast.Swar.Dropped.{drop-drop}
use go_jsonfast.Strings.{malformed_rune, clean_run}
use go_jsonfast.Strings.Grammar.{CleanUnit}
use go_jsonfast.Strings.Units.{stops_clean, Units, none_left, more, Passes}
use go_jsonfast.Strings.Runs.{clean_run-Passes}
use go_jsonfast.Strings.Exact.{clean-IsReading}
use go_jsonfast.Decode.{closes, written, decode_rounds, decode_from}
use go_jsonfast.Decode.Content.{Stands, Reads, closed, kept, stood}
use go_jsonfast.Decode.Pieces.{Written-cases, written-StandsAt, written-closes}
use go_jsonfast.Decode.Forward.{Stands-stops, Stands-Wrote}

quote_stops : (r : Bytes) → stops_clean (b'"' ∷ r) ≡ true
unfolding stops_clean
quote_stops r = refl

module _ (lowest : ℤ) where
  pub Units-Reads :
      {w t x r : Bytes} → Units CleanUnit w → Reads lowest t x r → Reads lowest (w ++ t) (w ++ x) r
  Units-Reads none_left d = d
  Units-Reads {t = t} {x = x} (more u v e h us) d =
      kept u (v ++ t) (v ++ x) (ap (λ s. s ++ t) e ∙ append_assoc u v t)
        (ap (λ s. s ++ x) e ∙ append_assoc u v x) h (Units-Reads us d)

  -- The units that a run passes are read as they are.
  pub peel :
      {w s t x r : Bytes}
      → Units CleanUnit w
      → s ≡ w ++ t
      → Reads lowest s x r
      → (y : Bytes) × (x ≡ w ++ y) × Reads lowest t y r
  peel {x = x} {r = r} none_left at d = (x, refl, subst (λ s. Reads lowest s x r) at d)
  peel {t = t} (more u v e h us) at (closed {r = r} f g) =
      let whole = sym f ∙ at ∙ ap (λ s. s ++ t) e ∙ append_assoc u v t in
      cc (sym (quote_stops r) ∙ ap stops_clean whole ∙ clean-IsReading.no_unit u (v ++ t) h)
  peel {t = t} (more u v e h us) at (kept u' v' y' f g h' d) =
      let whole = sym f ∙ at ∙ ap (λ s. s ++ t) e ∙ append_assoc u v t in
      let (same, behind) = clean-IsReading.same_unit u' u v' (v ++ t) h' h whole in
      let (y, split, d') = peel us behind d in
      (y, g ∙ ap₂ ◌++◌ same split ∙ sym (append_assoc u v y) ∙ ap (λ s. s ++ y) (sym e), d')
  peel {t = t} (more u v e h us) at (stood b v' y' f st d) =
      let whole = at ∙ ap (λ s. s ++ t) e ∙ append_assoc u v t in
      cc
        (sym (Stands-stops lowest st) ∙ ap stops_clean whole ∙ clean-IsReading.no_unit u (v ++ t) h)

pub pair_inv {ℓ κ} :
    {A : Type ℓ} {B : Type κ} {a c : A} {b d : B}
    → ◌≡◌ {A = Option (A × B)} (some (a, b)) (some (c, d))
    → (a ≡ c) × (b ≡ d)
pair_inv h = (cc, cc)

pub some_pair {ℓ κ} :
    {A : Type ℓ} {B : Type κ} {a c : A} {b d : B}
    → a ≡ c
    → b ≡ d
    → ◌≡◌ {A = Option (A × B)} (some (a, b)) (some (c, d))
some_pair h h' = ap₂ (λ x y. some (x, y)) h h'

pub written_quote : (lowest : ℤ) (r : Bytes) → written (b'"' ∷ r) lowest ≡ closes
unfolding written
written_quote lowest r = refl

-- What is read where no unit stands.
pub at_stop :
    (lowest : ℤ) {s y r : Bytes}
    → stops_clean s ≡ true
    → Reads lowest s y r
    → ((s ≡ b'"' ∷ r) × (y ≡ []))
      ⊎ ((b v z : Bytes) × (y ≡ b ++ z) × Stands lowest s b v × Reads lowest v z r)
at_stop lowest stop (closed f g) = inl (f, g)
at_stop lowest stop (kept u v y f g h d) =
    cc (sym stop ∙ ap stops_clean f ∙ clean-IsReading.no_unit u v h)
at_stop lowest stop (stood b v z f st d) = inr (b, v, z, f, st, d)

pub slice_passed :
    (text : Bytes) {j k : ℕ} (p : Passes CleanUnit stops_clean text j k) → slice text j k ≡ p.passed
slice_passed text {j} {k} p =
    let count : k - j ≡ length p.passed = omega (arith, p.end_is) in
    ap (λ n. take n (drop j text)) count
    ∙ ap (take (length p.passed)) p.splits
    ∙ take-append p.passed (drop k text)

-- What a scan at `j` found: the text, and the index past the closing quote.
pub record Found (lowest : ℤ) (text : Bytes) (j : ℕ) (x : Bytes) (e : ℕ) : Type 0 where
  pub reads : Reads lowest (drop j text) x (drop e text)
  pub further : j < e
  pub inside : e ≤ length text

module _ (text : Bytes) (bytes : AreBytes text) (lowest : ℤ)
    (refuses : leb_ℤ lowest malformed_rune ≡ false)
    (keeps : (h : ℕ) → leb_ℤ lowest (pos h) ≡ true) where
  pub decode_rounds_sound :
      (rounds j : ℕ) (v : Bytes) {w : Bytes} {e : ℕ}
      → decode_rounds rounds text j (clean_run text j) lowest v ≡ some (w, e)
      → (x : Bytes) × (w ≡ v ++ x) × Found lowest text j x e
  unfolding decode_rounds
  decode_rounds_sound zero j v h = cc
  decode_rounds_sound (suc rounds) j v {w} {e} h =
      let k = clean_run text j in
      let p = clean_run-Passes text bytes j in
      let cut = slice_passed text p in
      elim (Written-cases (written (drop k text) lowest)) [
        | inl f ↦ cc (rw (f, decode_rounds) at h)
        | inr (inl f) ↦
            let (r, split) = written-closes lowest (drop k text) f in
            let h' : ◌≡◌ {A = Option (Bytes × ℕ)} (some (v ++ slice text j k, suc k))
                (some (w, e)) =
              rw (f, decode_rounds) at h in
            let value : v ++ slice text j k ≡ w = (pair_inv h').0 in
            let end : suc k ≡ e = (pair_inv h').1 in
            let rest : r ≡ drop e text = sym (drop-suc k text split) ∙ ap (λ n. drop n text) end in
            (
              p.passed ++ [],
              sym value ∙ ap (λ s. v ++ s) (cut ∙ sym (append-nil p.passed)),
              record {
                reads =
                    subst (λ s. Reads lowest s (p.passed ++ []) (drop e text)) (sym p.splits)
                      (Units-Reads lowest p.units (closed (split ∙ ap (◌∷◌ b'"') rest) refl));
                further = omega (arith, p.end_is);
                inside = omega (arith, lt-length-of-drop k text split);
              },
            )
        | inr (inr (b, n, f)) ↦
            let at = written-StandsAt lowest (drop k text) refuses p.stop f in
            let h' : decode_rounds rounds text (k + n) (clean_run text (k + n)) lowest
                  (v ++ slice text j k ++ b)
                ≡ some (w, e) =
              rw (f, decode_rounds) at h in
            let (x, value, found) =
              decode_rounds_sound rounds (k + n) (v ++ slice text j k ++ b) h' in
            (
              p.passed ++ (b ++ x),
              value ∙ ap (λ s. v ++ s ++ b ++ x) cut ∙ simp append_assoc,
              record {
                reads =
                    subst (λ s. Reads lowest s (p.passed ++ (b ++ x)) (drop e text)) (sym p.splits)
                      (Units-Reads lowest p.units (
                        stood b (drop (k + n) text) x refl
                          (subst (Stands lowest (drop k text) b) (drop-drop k n text) at.piece)
                          found.reads));
                further = omega (arith, p.end_is, found.further);
                inside = found.inside;
              },
            )
      ]

  pub decode_rounds_complete :
      (rounds j : ℕ) (v : Bytes) {x r : Bytes}
      → Reads lowest (drop j text) x r
      → length text - j < rounds
      → decode_rounds rounds text j (clean_run text j) lowest v
        ≡ some (v ++ x, length text - length r)
  unfolding decode_rounds
  decode_rounds_complete zero j v d h = absurd (omega arith)
  decode_rounds_complete (suc rounds) j v {x} {r} d h =
      let k = clean_run text j in
      let p = clean_run-Passes text bytes j in
      let cut = slice_passed text p in
      let (y, split, d') = peel lowest p.units p.splits d in
      elim (at_stop lowest p.stop d') [
        | inl (here, nil) ↦
            let f : written (drop k text) lowest ≡ closes =
              ap (λ s. written s lowest) here ∙ written_quote lowest r in
            rw (f, decode_rounds)
              (some_pair
                (ap (λ s. v ++ s)
                  (cut ∙ sym (append-nil p.passed) ∙ ap (λ s. p.passed ++ s) (sym nil) ∙ sym split))
                (omega (arith, ap length here, length-drop k text)))
        | inr (b, u, z, value, st, d″) ↦
            let wrote = Stands-Wrote lowest keeps st in
            let n = wrote.size in
            let behind : drop (k + n) text ≡ u = sym (drop-drop k n text) ∙ wrote.behind in
            rw (wrote.is, decode_rounds)
              (decode_rounds_complete rounds (k + n) (v ++ slice text j k ++ b)
                  (subst (λ s. Reads lowest s z r) (sym behind) d″)
                  (omega (arith, wrote.positive, wrote.fits, length-drop k text, p.end_is))
                ∙ some_pair
                    (ap (λ s. v ++ s ++ b ++ z) cut
                      ∙ (simp append_assoc)
                      ∙ ap (λ s. v ++ (p.passed ++ s)) (sym value)
                      ∙ ap (λ s. v ++ s) (sym split))
                    refl)
      ]

  pub decode_from_iff :
      (j e : ℕ) (x : Bytes)
      → (decode_from text j (clean_run text j) lowest ≡ some (x, e)) ↔ Found lowest text j x e
  unfolding decode_from
  decode_from_iff j e x = (sound, complete)
    where
      sound :
          decode_rounds (suc (length text)) text j (clean_run text j) lowest [] ≡ some (x, e)
          → Found lowest text j x e
      sound h =
          let (y, value, found) = decode_rounds_sound (suc (length text)) j [] h in
          subst (λ y. Found lowest text j y e) (sym value) found

      complete :
          Found lowest text j x e
          → decode_rounds (suc (length text)) text j (clean_run text j) lowest [] ≡ some (x, e)
      complete found =
          decode_rounds_complete (suc (length text)) j [] found.reads (omega arith)
          ∙ some_pair refl (omega (arith, length-drop e text, found.inside))
