-- ===== src/Decode/Forward.antt =====
-- What the grammar has behind a clean run, decodeFrom and matchedPrefix meet there.
use go_jsonfast.Base.{
  ℕ, ◌<◌, ◌+◌, true, false, some, [], ◌∷◌, ◌≡◌, inl, inr, refl, ap, ◌∙◌, arith, ◌==◌, ==_iff,
  Option-cases, ℤ, pos, leb_ℤ, length, drop, Bytes,
}
use go_jsonfast.Swar.{body_byte, plain_byte}
use go_jsonfast.Utf8.{rune_error, decode_pair, encode_rune}
use go_jsonfast.Strings.{
  bad_rune, short_escape, hex4, unicode_escape, rune_of_pair, rune_of_escape, rune_at,
}
use go_jsonfast.Strings.Reading.{unicode_escape_at}
use go_jsonfast.Strings.Units.{stops_clean}
use go_jsonfast.Decode.{writes, written, written_rune}
use go_jsonfast.Decode.Content.{replacement, Stands, short, point, pair, lone, bad}

no_unit_start : (c : ℕ) (v : Bytes) → c ≡ b'\\' → stops_clean (c ∷ v) ≡ true
unfolding stops_clean plain_byte
no_unit_start c v back = rw back

module _ (lowest : ℤ) where
  -- No clean unit begins what stands for other bytes.
  pub Stands-stops : {s b v : Bytes} → Stands lowest s b v → stops_clean s ≡ true
  Stands-stops (short {c} {d} {v} back letter value) = no_unit_start c (d ∷ v) back
  Stands-stops (point {s} back letter hex low) = no_unit_start s _ back
  Stands-stops (pair {s} back letter hex high back' letter' hex' valid) = no_unit_start s _ back
  Stands-stops (lone {s} back letter hex high single keep) = no_unit_start s _ back
  Stands-stops (bad body stop keep) = stop

  written-rune :
      (x t a b c d h : ℕ) (v : Bytes)
      → x ≡ b'\\'
      → t ≡ b'u'
      → hex4 a b c d ≡ some h
      → written (x ∷ t ∷ a ∷ b ∷ c ∷ d ∷ v) lowest
        ≡ written_rune lowest (rune_of_escape (some h) (unicode_escape v))
  unfolding written short_escape rune_at unicode_escape
  written-rune x t a b c d h v back letter hex = rw (back, letter) (rw hex)

  written-bad :
      (c : ℕ) (v : Bytes)
      → body_byte c ≡ true
      → leb_ℤ lowest bad_rune ≡ true
      → written (c ∷ v) lowest ≡ writes replacement 1
  unfolding written rune_at written_rune encode_rune
  written-bad c v body keep =
      let quote : (c == b'"') ≡ false = unfold body_byte in ground arith in
      let back : (c == b'\\') ≡ false = unfold body_byte in ground arith in
      let none_short : short_escape (c ∷ v) ≡ 0 = no_short v in
      rw (quote, back) (rw none_short (rw body (rw keep)))
    where
      no_short : (v : Bytes) → short_escape (c ∷ v) ≡ 0
      no_short [] = unfold short_escape in refl
      no_short (d ∷ v) =
          let back : (c == b'\\') ≡ false = unfold body_byte in ground arith in
          unfold short_escape in rw back

  module _ (keeps : (h : ℕ) → leb_ℤ lowest (pos h) ≡ true) where
    pub record Wrote (s b v : Bytes) : Type 0 where
      pub size : ℕ
      pub is : written s lowest ≡ writes b size
      pub behind : drop size s ≡ v
      pub positive : 0 < size
      pub fits : size + length v ≡ length s

    pub Stands-Wrote : {s b v : Bytes} → Stands lowest s b v → Wrote s b v
    Stands-Wrote (short {c} {d} {v} back letter value) = record {
      size = 2;
      is = unfold written short_escape in rw back (ground arith);
      behind = refl;
      positive = omega arith;
      fits = omega arith;
    }
    Stands-Wrote (point {s} {t} {a} {b} {c} {d} {h} {v} back letter hex low) = record {
      size = 6;
      is =
          written-rune s t a b c d h v back letter hex
          ∙ unfold rune_of_escape written_rune encode_rune in rw (low, keeps h);
      behind = refl;
      positive = omega arith;
      fits = omega arith;
    }
    Stands-Wrote
          (pair {s} {t} {a} {b} {c} {d} {h} {s'} {t'} {a'} {b'} {c'} {d'} {l} {v} back letter hex
            high back' letter' hex' valid) =
        let other : (decode_pair h l == rune_error) ≡ false =
          ground (arith, ==_iff (decode_pair h l) rune_error) in
        record {
          size = 12;
          is =
              written-rune s t a b c d h (s' ∷ t' ∷ a' ∷ b' ∷ c' ∷ d' ∷ v) back letter hex
              ∙ ap (λ o. written_rune lowest (rune_of_escape (some h) o))
                  (unicode_escape_at s' t' a' b' c' d' v back' letter' ∙ hex')
              ∙ unfold rune_of_escape rune_of_pair written_rune encode_rune in
                rw (high, other) (rw (keeps (decode_pair h l)));
          behind = refl;
          positive = omega arith;
          fits = omega arith;
        }
    Stands-Wrote (lone {s} {t} {a} {b} {c} {d} {h} {v} back letter hex high single keep) = record {
      size = 6;
      is = written-rune s t a b c d h v back letter hex ∙ alone;
      behind = refl;
      positive = omega arith;
      fits = omega arith;
    }
      where
        alone :
            written_rune lowest (rune_of_escape (some h) (unicode_escape v)) ≡ writes replacement 6
        alone = elim (Option-cases (unicode_escape v)) [
          | inl none' ↦
              rw none'
                (unfold rune_of_escape rune_of_pair written_rune encode_rune in rw (high, keep))
          | inr (l, next) ↦
              let error : (decode_pair h l == rune_error) ≡ true =
                (==_iff (decode_pair h l) rune_error).1 (single l next) in
              rw next (
                unfold rune_of_escape rune_of_pair written_rune encode_rune in
                rw (high, error) (rw keep))
        ]
    Stands-Wrote (bad {c} {v} body stop keep) = record {
      size = 1;
      is = written-bad c v body keep;
      behind = refl;
      positive = omega arith;
      fits = omega arith;
    }
