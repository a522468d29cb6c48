-- ===== src/Iterate/Matches.antt =====
-- matchName of iterate.go compares the name of a member with a text as decoding it would.
use go_jsonfast.Base.{
  ℕ, suc, ◌-◌, Bool, true, false, not, some, none, [], ◌∷◌, ◌++◌, ◌≡◌, inl, inr, refl, sym, ap, ap₂,
  subst, ◌∙◌, arith, Bool-cases, Option-cases, length, length-append, length-drop, drop, drop-suc,
  Bytes, if◌then◌else◌, ◌>>=◌, lt-length-of-drop,
}
use go_jsonfast.Swar.Lanes.{AreBytes}
use go_jsonfast.Scan.{bytes_eq}
use go_jsonfast.Scan.Texts.{bytes_eq_iff}
use go_jsonfast.Strings.{any_body, string_end}
use go_jsonfast.Decode.{stands, token_at, token_value, matched_prefix}
use go_jsonfast.Decode.Content.{closed}
use go_jsonfast.Decode.Exact.{Found, pair_inv}
use go_jsonfast.Decode.Tokens.{stands-drop, stands_of_drop, string-IsToken_iff}
use go_jsonfast.Decode.Equal.{matched_prefix_iff}
use go_jsonfast.Decode.Bodies.{Reads-IsAnyBody}
use go_jsonfast.Decode.Ends.{string_end-Found}
use go_jsonfast.Decode.Resume.{matched_prefix-resume}
use go_jsonfast.Iterate.{match_name}

module _ (text : Bytes) (b : AreBytes text) where
  at_quote : (k : ℕ) → stands text k b'"' ≡ true → string_end text k ≡ some (suc k)
  at_quote k h =
      let (s, e) = stands-drop text k b'"' h in
      let rest : drop (suc k) text ≡ s = drop-suc k text e in
      (string_end-Found text k (suc k) b).1 (
        [],
        record {
          reads = closed (e ∙ ap (◌∷◌ b'"') (sym rest)) refl;
          further = omega arith;
          inside = omega (arith, lt-length-of-drop k text e);
        },
      )

  -- A string that ends a byte further on is its quote.
  quote_at : (k : ℕ) → string_end text k ≡ some (suc k) → stands text k b'"' ≡ true
  quote_at k h =
      let (x, f) = (string_end-Found text k (suc k) b).0 h in
      let (u, split, body) = Reads-IsAnyBody f.reads in
      no_body u split (
        omega (
          arith,
          ap length split,
          length-append u (b'"' ∷ drop (suc k) text),
          length-drop k text,
          length-drop (suc k) text,
          f.inside,
        ))
    where
      no_body :
          (u : Bytes)
          → drop k text ≡ u ++ (b'"' ∷ drop (suc k) text)
          → length u ≡ 0
          → stands text k b'"' ≡ true
      no_body [] split n = stands_of_drop text k b'"' split
      no_body (c ∷ u) split n = absurd (omega arith)

  -- The end and the verdict of matchName, by those of matchedPrefix.
  verdict :
      (i k : ℕ) (equal : Bool) (s : Bytes)
      → stands text i b'"' ≡ true
      → matched_prefix text (suc i) s ≡ (k, equal)
      → match_name text i s ≡ (
          if not (stands text k b'"')
          then (string_end text k >>= λ end. some (end, false))
          else some (suc k, equal))
  unfolding match_name
  verdict i k equal s opens m = rw (opens, m)

  true_token :
      (i : ℕ) (s : Bytes) {x : Bytes} {e : ℕ}
      → token_value (token_at text i any_body) ≡ some (x, e)
      → (k : ℕ) → matched_prefix text (suc i) s ≡ (k, true)
      → (x ≡ s) × (e ≡ suc k)
  true_token i s {x} {e} h k m =
      let t = (string-IsToken_iff text b i e x).0 h in
      let found = (matched_prefix_iff text (suc i) k s b).0 m in
      pair_inv (
        sym h
        ∙ (string-IsToken_iff text b i (suc k) s).1 (record { opens = t.opens; found = found }))

  true_end :
      (i : ℕ) (s : Bytes) {x : Bytes} {e : ℕ}
      → token_value (token_at text i any_body) ≡ some (x, e)
      → (k : ℕ) → matched_prefix text (suc i) s ≡ (k, true)
      → suc k ≡ e
  true_end i s h k m = sym (true_token i s h k m).1

  same_verdict :
      (i : ℕ) (s : Bytes) {x : Bytes} {e : ℕ}
      → token_value (token_at text i any_body) ≡ some (x, e)
      → (k : ℕ) (equal : Bool) → matched_prefix text (suc i) s ≡ (k, equal)
      → equal ≡ bytes_eq x s
  same_verdict i s {x} h k true m = sym ((bytes_eq_iff x s).1 (true_token i s h k m).0)
  same_verdict i s {x} {e} h k false m = elim (Bool-cases (bytes_eq x s)) [
    | inr differs ↦ sym differs
    | inl same ↦
        let t = (string-IsToken_iff text b i e x).0 h in
        let found =
          subst (λ y. Found any_body text (suc i) y e) ((bytes_eq_iff x s).0 same) t.found in
        let before : e ≡ suc (e - 1) = omega (arith, found.further) in
        let m' =
          (matched_prefix_iff text (suc i) (e - 1) s b).1
            (subst (Found any_body text (suc i) s) before found) in
        cc (ap (λ r. r.1) (sym m ∙ m'))
  ]

  pub match_name-token :
      (i : ℕ) (s : Bytes) {x : Bytes} {e : ℕ}
      → token_value (token_at text i any_body) ≡ some (x, e)
      → match_name text i s ≡ some (e, bytes_eq x s)
  match_name-token i s {x} {e} h =
      let t = (string-IsToken_iff text b i e x).0 h in
      with_result (matched_prefix text (suc i) s).0 (matched_prefix text (suc i) s).1 refl t.opens
        t.found
    where
      with_result :
          (k : ℕ) (equal : Bool)
          → matched_prefix text (suc i) s ≡ (k, equal)
          → stands text i b'"' ≡ true
          → Found any_body text (suc i) x e
          → match_name text i s ≡ some (e, bytes_eq x s)
      with_result k equal m opens found =
          let end : string_end text k ≡ some e =
            ap (λ r. string_end text r.0) (sym m)
            ∙ sym (matched_prefix-resume text b (suc i) s)
            ∙ (string_end-Found text (suc i) e b).1 (x, found) in
          elim (Bool-cases (stands text k b'"')) [
            | inl quote ↦
                let both : some e ≡ some (suc k) = sym end ∙ at_quote k quote in
                let last : suc k ≡ e = cc in
                verdict i k equal s opens m
                ∙ rw quote (ap₂ (λ n t. some (n, t)) last (same_verdict i s h k equal m))
            | inr other ↦
                let differs : equal ≡ false = not_at_end k equal m end other in
                verdict i k equal s opens m
                ∙ rw other
                    (rw end (ap (λ t. some (e, t)) (sym differs ∙ same_verdict i s h k equal m)))
          ]
        where
          not_at_end :
              (k : ℕ) (equal : Bool)
              → matched_prefix text (suc i) s ≡ (k, equal)
              → string_end text k ≡ some e
              → stands text k b'"' ≡ false
              → equal ≡ false
          not_at_end k false m end other = refl
          not_at_end k true m end other =
              let last = true_end i s h k m in
              cc (sym other ∙ quote_at k (end ∙ ap some (sym last)))

  pub match_name-none :
      (i : ℕ) (s : Bytes)
      → token_value (token_at text i any_body) ≡ none
      → match_name text i s ≡ none
  match_name-none i s h = elim (Bool-cases (stands text i b'"')) [
    | inr other ↦ unfold match_name in rw other
    | inl opens ↦
        no_string (matched_prefix text (suc i) s).0 (matched_prefix text (suc i) s).1 refl opens
  ]
    where
      no_string :
          (k : ℕ) (equal : Bool)
          → matched_prefix text (suc i) s ≡ (k, equal)
          → stands text i b'"' ≡ true
          → match_name text i s ≡ none
      no_string k equal m opens =
          let resume : string_end text (suc i) ≡ string_end text k =
            matched_prefix-resume text b (suc i) s ∙ ap (λ r. string_end text r.0) m in
          elim (Option-cases (string_end text k)) [
            | inr (e, end) ↦
                let (x, found) = (string_end-Found text (suc i) e b).0 (resume ∙ end) in
                cc (
                  sym h
                  ∙ (string-IsToken_iff text b i e x).1 (record { opens = opens; found = found }))
            | inl end ↦ elim (Bool-cases (stands text k b'"')) [
              | inl quote ↦ cc (sym end ∙ at_quote k quote)
              | inr other ↦ verdict i k equal s opens m ∙ rw other (rw end)
            ]
          ]
