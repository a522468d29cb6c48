-- ===== src/Strings/Runs.antt =====
-- Where cleanRun and bodyRun stop, and what they pass.
use go_jsonfast.Strings.Units.{
  stops_any, stops_clean, Units-map, IsRune-of_size, rune_size_pos, at_least_two, stops_plain,
  PlainUnit, Units, Passes, none_left, more,
}
use go_jsonfast.Base.{
  not-true, ℕ, zero, suc, ◌+◌, ◌<◌, Bool, true, false, some, [], ◌∷◌, ◌++◌, ◌≡◌, inl, inr, refl,
  sym, ap, subst, ◌∙◌, arith, ltb, ◌==◌, Bool-cases, List-cases, length, length-append, length-drop,
  drop, drop-suc, drop_past, drop_of_lt, lt-length-of-drop, get_elem?, Bytes, append_assoc,
}
use go_jsonfast.Swar.{run_of, plain_byte, body_byte, plain_bytes, body_run, body_bytes, rune_self}
use go_jsonfast.Swar.Lanes.{AreBytes}
use go_jsonfast.Swar.Runs.{plain_run-plain_bytes, body_run-body_bytes, FollowsPlain}
use go_jsonfast.Utf8.{rune_size}
use go_jsonfast.Strings.{plain_step, clean_rounds, clean_run}
use go_jsonfast.Strings.Grammar.{AnyUnit, CleanUnit}

module _ (text : Bytes) where
  run_of-Passes :
      (keep : ℕ → Bool) (stops : Bytes → Bool)
      → (stops [] ≡ true)
      → ((c : ℕ) (s : Bytes) → keep c ≡ false → stops (c ∷ s) ≡ true)
      → (s : Bytes) (j : ℕ) → drop j text ≡ s
      → Passes (λ u. (c : ℕ) × (u ≡ c ∷ []) × (keep c ≡ true)) stops text j (run_of keep s j)
  unfolding run_of
  run_of-Passes keep stops nil cons [] j e = record {
    passed = [];
    splits = refl;
    end_is = omega arith;
    units = none_left;
    stop = rw e nil;
  }
  run_of-Passes keep stops nil cons (c ∷ s) j e = elim (Bool-cases (keep c)) [
    | inl k ↦
        let p = run_of-Passes keep stops nil cons s (suc j) (drop-suc j text e) in
        let at : run_of keep s (suc j) ≡ run_of keep (c ∷ s) j = unfold run_of in rw k in
        subst (Passes _ stops text j) at (record {
          passed = c ∷ p.passed;
          splits = e ∙ ap (◌∷◌ c) (sym (drop-suc j text e) ∙ p.splits);
          end_is = omega (arith, p.end_is);
          units = more (c ∷ []) p.passed refl (c, refl, k) p.units;
          stop = p.stop;
        })
    | inr k ↦
        let at : j ≡ run_of keep (c ∷ s) j = unfold run_of in rw k in
        subst (Passes _ stops text j) at (record {
          passed = [];
          splits = refl;
          end_is = omega arith;
          units = none_left;
          stop = rw e (cons c s k);
        })
  ]

  get_elem?-drop : (j : ℕ) {c : ℕ} {s : Bytes} → drop j text ≡ c ∷ s → get_elem? text j ≡ some c
  get_elem?-drop j {c} {s} e =
      let (x, at, e') = drop_of_lt j text (lt-length-of-drop j text e) in cc

  plain_step-run_of :
      AreBytes text → (j : ℕ) → plain_step text j ≡ run_of plain_byte (drop j text) j
  unfolding plain_step
  plain_step-run_of b j = elim (List-cases (drop j text)) [
    | inl e ↦ rw (e, plain_step) (unfold run_of in refl)
    | inr (c, s, e) ↦ elim (Bool-cases (plain_byte c)) [
      | inl k ↦
          let follows : FollowsPlain text (suc j) = λ i d at found.
            let ij : i ≡ j = omega arith in
            let same : some d ≡ some c = sym (rw ij at found) ∙ get_elem?-drop j e in
            let dc : d ≡ c = cc in rw dc k in
          let bytes = plain_run-plain_bytes text (suc j) b (lt-length-of-drop j text e) follows in
          rw (e, plain_step) (rw k (unfold run_of plain_bytes in bytes ∙ rw (drop-suc j text e)))
      | inr k ↦ rw (e, plain_step) (rw k (unfold run_of in refl))
    ]
  ]

  Passes-append :
      (P Q S : Bytes → Type 0) (stops stops' : Bytes → Bool) (i j k : ℕ)
      → ((u : Bytes) → P u → S u)
      → ((u : Bytes) → Q u → S u)
      → Passes P stops' text i j
      → Passes Q stops text j k
      → Passes S stops text i k
  Passes-append P Q S stops stops' i j k f g p q = record {
    passed = p.passed ++ q.passed;
    splits =
        p.splits
        ∙ ap (λ r. p.passed ++ r) q.splits
        ∙ sym (append_assoc p.passed q.passed (drop k text));
    end_is = omega (arith, p.end_is, q.end_is, length-append p.passed q.passed);
    units = Units-append p.units (Units-map g q.units);
    stop = q.stop;
  }
    where
      Units-append : {w v : Bytes} → Units P w → Units S v → Units S (w ++ v)
      Units-append none_left t = t
      Units-append {v = x} (more u v e h r) t =
          more u (v ++ x) (ap (λ s. s ++ x) e ∙ append_assoc u v x) (f u h) (Units-append r t)

  Passes-stop :
      (P S : Bytes → Type 0) (stops stops' : Bytes → Bool) (j k : ℕ)
      → ((u : Bytes) → P u → S u)
      → Passes P stops' text j k
      → stops (drop k text) ≡ true
      → Passes S stops text j k
  Passes-stop P S stops stops' j k f p h =
      Passes-append P S S stops stops' j k k f (λ u x. x) p
        (record { passed = []; splits = refl; end_is = omega arith; units = none_left; stop = h })

  pub plain_step-Passes :
      AreBytes text → (j : ℕ) → Passes PlainUnit stops_plain text j (plain_step text j)
  plain_step-Passes b j =
      rw (plain_step-run_of b j)
        (run_of-Passes plain_byte stops_plain refl (λ c s h. rw h) (drop j text) j refl)

  clean_rounds-Passes :
      AreBytes text
      → (rounds j : ℕ) → length (drop j text) < rounds
      → Passes CleanUnit stops_clean text j (clean_rounds rounds text j)
  unfolding clean_rounds
  clean_rounds-Passes b zero j h = absurd (omega arith)
  clean_rounds-Passes b (suc rounds) j h =
      let k = plain_step text j in
      let p = plain_step-Passes b j in
      let ends =
        λ (e : k ≡ clean_rounds (suc rounds) text j) (stop : stops_clean (drop k text) ≡ true).
          subst (Passes CleanUnit stops_clean text j) e
            (Passes-stop PlainUnit CleanUnit stops_clean stops_plain j k (λ u x. inl x) p stop) in
      elim (List-cases (drop k text)) [
        | inl e ↦ ends (rw (e, clean_rounds)) (rw e (unfold stops_clean in refl))
        | inr (c, s, e) ↦
            let not_plain : plain_byte c ≡ false = not-true (plain_byte c) (rw e at p.stop) in
            elim (Bool-cases (ltb c rune_self)) [
              | inl low ↦
                  ends (rw (e, clean_rounds) (rw low))
                    (rw e (unfold stops_clean in rw (not_plain, low)))
              | inr high ↦ elim (Bool-cases (rune_size (c ∷ s) == 1)) [
                | inl one ↦
                    let one' : (rune_size (drop k text) == 1) ≡ true = rw e one in
                    ends (rw (e, clean_rounds) (rw (high, one')))
                      (rw e (unfold stops_clean in rw (not_plain, high, one)))
                | inr several ↦
                    let size = at_least_two (rune_size (c ∷ s)) (rune_size_pos c s) several in
                    let (u, r, split, len, rune) = IsRune-of_size (c ∷ s) size in
                    let next = k + rune_size (c ∷ s) in
                    let at : drop next text ≡ r =
                      ap (λ n. drop (k + n) text) (sym len) ∙ drop_past k text u (e ∙ split) in
                    let less : length (drop next text) < rounds = omega (
                      arith,
                      length-drop next text,
                      length-drop j text,
                      length-drop k text,
                      p.end_is,
                      ap length e,
                    ) in
                    let q = clean_rounds-Passes b rounds next less in
                    let several' : (rune_size (drop k text) == 1) ≡ false = rw e several in
                    let go : clean_rounds rounds text next ≡ clean_rounds (suc rounds) text j =
                      rw (e, clean_rounds) (rw (high, several') (rw e)) in
                    subst (Passes CleanUnit stops_clean text j) go (
                      Passes-append PlainUnit CleanUnit CleanUnit stops_clean stops_plain j k _
                        (λ u x. inl x) (λ u x. x) p
                        (record {
                          passed = u ++ q.passed;
                          splits =
                              e
                              ∙ split
                              ∙ ap (λ x. u ++ x) (sym at ∙ q.splits)
                              ∙ sym (append_assoc u q.passed _);
                          end_is = omega (arith, q.end_is, len, length-append u q.passed);
                          units = more u q.passed refl (inr rune) q.units;
                          stop = q.stop;
                        }))
              ]
            ]
      ]

  -- cleanRun passes plain bytes and whole runes of several bytes, and stops where neither stands,
  -- on a text of bytes.
  pub clean_run-Passes :
      AreBytes text → (j : ℕ) → Passes CleanUnit stops_clean text j (clean_run text j)
  unfolding clean_run
  clean_run-Passes b j =
      clean_rounds-Passes b (suc (length text)) j (omega (arith, length-drop j text))

  -- bodyRun passes the bytes that a body may hold, as far as there are any.
  pub body_run-Passes : AreBytes text → (j : ℕ) → Passes AnyUnit stops_any text j (body_run text j)
  unfolding body_bytes stops_any
  body_run-Passes b j =
      rw (body_run-body_bytes text j b)
        (run_of-Passes body_byte stops_any refl (λ c s h. rw h) (drop j text) j refl)
