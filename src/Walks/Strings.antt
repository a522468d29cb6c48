-- ===== src/Walks/Strings.antt =====
-- WalkStrings refuses as malformed what ValidUTF8 refuses, and nothing else.
use go_jsonfast.Base.{
  ℕ, zero, suc, ◌-◌, ◌≤◌, Option, some, none, List, [], ◌≡◌, refl, ap, sym, subst, ◌∙◌, arith, ◌==◌,
  inl, inr, Bool-cases, Option-cases, ℤ, pos, negsuc, length, Bytes,
}
use go_jsonfast.Swar.Lanes.{AreBytes}
use go_jsonfast.Scan.{skip_ws}
use go_jsonfast.Decode.{strict_token}
use go_jsonfast.Iterate.{malformed, failed}
use go_jsonfast.Walk.{
  Walker, top, new_walker, Advance, refused, value_ended, stopped, next, stop_string, finish,
  valid_utf8,
}
use go_jsonfast.Walk.Moves.{Container, Fits}
use go_jsonfast.Walk.Invariant.{Holds}
use go_jsonfast.Walk.Resume.{AtString, Resumes, fails, ends, string, other, advance-Resumes}
use go_jsonfast.Walk.Valid.{Holds-top, finish-none, next-refused}
use go_jsonfast.Walks.{strings_rounds, walk_strings}
use go_jsonfast.Walks.Onward.{Onward, past_token_string, no_token_string, at_quote}
use go_jsonfast.Walks.Verdict.{whole, Tells, whole-none, whole-some, Onward-Tells}

module _ {ℓ} {S E : Type ℓ} (text : Bytes) (b : AreBytes text) (bound : ℕ)
    (fn : S → Bytes → S × Option E) where
  abbrev Verdict : ℕ → S → Walker → Type 0
  Verdict rounds s w = Tells (whole text w) (strings_rounds rounds text fn s w).1

  refused-Verdict :
      (rounds : ℕ) (s : S) (w : Walker)
      → finish text w ≡ none
      → next text w ≡ refused
      → Verdict (suc rounds) s w
  refused-Verdict rounds s w h out =
      let r : strings_rounds (suc rounds) text fn s w ≡ (s, some malformed) =
        unfold strings_rounds in rw (out, strings_rounds) in
      subst (λ r. Tells (whole text w) r.1) (sym r) (whole-none text w h)

  ended-Verdict :
      (rounds : ℕ) (s : S) (w w' : Walker)
      → finish text w ≡ some w'.i
      → next text w ≡ value_ended w'
      → Verdict (suc rounds) s w
  ended-Verdict rounds s w w' h out = elim (Bool-cases (skip_ws text w'.i == length text)) [
    | inl all ↦
        let r : strings_rounds (suc rounds) text fn s w ≡ (s, none) =
          unfold strings_rounds in rw (out, strings_rounds) (rw all) in
        subst (λ r. Tells (whole text w) r.1) (sym r) (whole-some text w w'.i h ∙ all)
    | inr more ↦
        let r : strings_rounds (suc rounds) text fn s w ≡ (s, some malformed) =
          unfold strings_rounds in rw (out, strings_rounds) (rw more) in
        subst (λ r. Tells (whole text w) r.1) (sym r) (whole-some text w w'.i h ∙ more)
  ]

  string-Verdict :
      (rounds : ℕ) (s : S) (w w' : Walker) (at : ℕ)
      → AtString text bound w w' at
      → next text w ≡ stopped w' at
      → ((s' : S) (w'' : Walker) → Onward text bound w w'' → Verdict rounds s' w'')
      → Verdict (suc rounds) s w
  string-Verdict rounds s w w' at q out again =
      let here = at_quote text b bound q in
      elim (Option-cases (strict_token text at)) [
        | inl e ↦
            let r : strings_rounds (suc rounds) text fn s w ≡ (s, some malformed) =
              unfold strings_rounds in rw (out, strings_rounds) (rw e) in
            subst (λ r. Tells (whole text w) r.1) (sym r)
              (whole-none text w (no_token_string text b bound q (ap (strict_token text) here ∙ e)))
        | inr ((v, j), e) ↦ elim (Option-cases (fn s v).1) [
          | inr (x, e') ↦
              let r : strings_rounds (suc rounds) text fn s w ≡ ((fn s v).0, some (failed x)) =
                unfold strings_rounds in rw (out, strings_rounds) (rw e (rw e')) in
              subst (λ r. Tells (whole text w) r.1) (sym r) tt
          | inl e' ↦
              let w'' = record w' { i = j } in
              let r : strings_rounds (suc rounds) text fn s w
                  ≡ strings_rounds rounds text fn (fn s v).0 w'' =
                unfold strings_rounds in rw (out, strings_rounds) (rw e (rw e')) in
              let m = past_token_string text b bound q v j (ap (strict_token text) here ∙ e) in
              subst (λ r. Tells (whole text w) r.1) (sym r)
                (Onward-Tells text bound w w'' _ m (again (fn s v).0 w'' m))
        ]
      ]

  strings_rounds-Tells :
      (rounds : ℕ) (s : S) (w : Walker) (o : List Container)
      → Holds bound w o
      → Fits o w.state
      → suc (length text - w.i) ≤ rounds
      → Verdict rounds s w
  strings_rounds-Tells zero s w o h f le = absurd (omega arith)
  strings_rounds-Tells (suc rounds) s w o h f le =
      by (next text w) refl (unfold next in advance-Resumes text b bound stop_string refl w o h f)
        (λ s' w' m.
          strings_rounds-Tells rounds s' w' m.around m.holds m.fits
            (omega (arith, m.further, m.inside)))
    where
      by :
          (a : Advance)
          → next text w ≡ a
          → Resumes text bound stop_string w a
          → ((s' : S) (w' : Walker) → Onward text bound w w' → Verdict rounds s' w')
          → Verdict (suc rounds) s w
      by a out (fails e) again = refused-Verdict rounds s w e out
      by a out (ends {w' = w'} e) again = ended-Verdict rounds s w w' e out
      by a out (string {w' = w'} {at = at} q) again = string-Verdict rounds s w w' at q out again
      by a out (other t) again = cc (sym t.halts ∙ t.passes)

-- WalkStrings gives ErrMalformed only for a text of bytes that ValidUTF8 refuses under the same
-- bound, and no error only for one that it accepts; an error of the function tells nothing of the
-- text.
pub walk_strings-Tells {ℓ} :
    {S E : Type ℓ} (text : Bytes) (max_depth : ℤ) (fn : S → Bytes → S × Option E) (s : S)
    → AreBytes text
    → Tells (valid_utf8 text max_depth) (walk_strings text max_depth fn s).1
unfolding valid_utf8 whole walk_strings new_walker top
walk_strings-Tells text (pos bound) fn s b =
    strings_rounds-Tells text b bound fn (suc (suc (length text))) s (new_walker text (pos bound))
      [] (Holds-top text (new_walker text (pos bound)) bound 0 refl refl) tt (omega arith)
walk_strings-Tells text (negsuc n) fn s b =
    refused-Verdict text b 0 fn (suc (length text)) s (new_walker text (negsuc n))
      (finish-none text (new_walker text (negsuc n)) refl refl)
      (next-refused text (new_walker text (negsuc n)) refl refl)
