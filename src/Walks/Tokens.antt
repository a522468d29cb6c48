-- ===== src/Walks/Tokens.antt =====
-- WalkTokens refuses as malformed what ValidUTF8 refuses, and nothing else.
use go_jsonfast.Base.{
  ℕ, zero, suc, ◌-◌, ◌≤◌, Bool, false, not, Option, some, none, List, [], ◌≡◌, refl, ap, sym, subst,
  ◌∙◌, arith, ◌==◌, ==_iff, inl, inr, Bool-cases, Option-cases, ℤ, pos, negsuc, length, byte_at,
  slice, Bytes,
}
use go_jsonfast.Swar.Lanes.{AreBytes}
use go_jsonfast.Strings.{strict_end}
use go_jsonfast.Decode.{strict_token}
use go_jsonfast.Names.{OpenObjects, push, pop}
use go_jsonfast.Iterate.{Failure, malformed, failed}
use go_jsonfast.Walk.{
  Walker, top, new_walker, Advance, refused, stopped, token, stop_token, finish, valid_utf8,
}
use go_jsonfast.Walk.Valid.{Holds-top, finish-none, token-refused}
use go_jsonfast.Walk.Moves.{Container, Fits}
use go_jsonfast.Walk.Invariant.{Holds}
use go_jsonfast.Walk.Resume.{
  AtString, AtToken, Resumes, fails, ends, string, other, advance-Resumes,
}
use go_jsonfast.Walks.{
  walk_fault, rest, is_colon, Filed, add_last, walk_text, take, tokens_rounds, walk_tokens,
}
use go_jsonfast.Walks.Onward.{
  Onward, past_token, no_string, past_string, past_token_string, no_token_string,
}
use go_jsonfast.Walks.Verdict.{whole, Tells, whole-none, Onward-Tells, walk_fault-Tells, rest-Tells}

-- What a walk makes of a token: the walker moves on, or finish fails from where it stood.
abbrev pub Keeps : Bytes → ℕ → Walker → Option Filed → Type 0
Keeps text bound w none = finish text w ≡ none
Keeps text bound w (some f) = Onward text bound w f.walker

take-string :
    (text : Bytes) (w : Walker) (at : ℕ) (around : OpenObjects) (dup : Bool)
    → byte_at text at ≡ some b'"'
    → take text w at around dup ≡ walk_text text w around dup
unfolding take
take-string text w at around dup h = rw (h, take)

module _ (text : Bytes) (b : AreBytes text) (bound : ℕ) {w w' : Walker} {at : ℕ}
    (around : OpenObjects) (dup : Bool) where
  walk_text-Keeps : AtString text bound w w' at → Keeps text bound w (walk_text text w' around dup)
  walk_text-Keeps q = elim (Bool-cases (is_colon w'.state)) [
    | inl name ↦ elim (Option-cases (strict_token text (w'.i - 1))) [
      | inl e ↦
          let out : walk_text text w' around dup ≡ none =
            unfold walk_text in rw (name, walk_text) (rw e) in
          subst (Keeps text bound w) (sym out) (no_token_string text b bound q e)
      | inr ((v, j), e) ↦
          let (around', new) = add_last around v in
          let out : walk_text text w' around dup
              ≡ some (record {
                walker = record w' { i = j };
                around = around';
                dup = not new;
                name = v;
              }) =
            unfold walk_text in rw (name, walk_text) (rw e) in
          subst (Keeps text bound w) (sym out) (past_token_string text b bound q v j e)
    ]
    | inr value ↦ elim (Option-cases (strict_end text (w'.i - 1))) [
      | inl e ↦
          let out : walk_text text w' around dup ≡ none =
            unfold walk_text in rw (value, walk_text) (rw e) in
          subst (Keeps text bound w) (sym out) (no_string text b bound q e)
      | inr (j, e) ↦
          let out : walk_text text w' around dup
              ≡ some
                  (record { walker = record w' { i = j }; around = around; dup = dup; name = [] }) =
            unfold walk_text in rw (value, walk_text) (rw e) in
          subst (Keeps text bound w) (sym out) (past_string text b bound q j e)
    ]
  ]

  pub take_string-Keeps :
      AtString text bound w w' at → Keeps text bound w (take text w' at around dup)
  take_string-Keeps q =
      subst (Keeps text bound w) (sym (take-string text w' at around dup q.quote))
        (walk_text-Keeps q)

  pub take_token-Keeps :
      {stops : ℕ}
      → AtToken text bound stops w w' at
      → Keeps text bound w (take text w' at around dup)
  unfolding take
  take_token-Keeps t = elim (Option-cases (byte_at text at)) [
    | inl e ↦
        let out : take text w' at around dup
            ≡ some (record { walker = w'; around = around; dup = dup; name = [] }) =
          rw (e, take) in
        subst (Keeps text bound w) (sym out) (past_token text b bound t)
    | inr (c, e) ↦ elim (Bool-cases (c == b'{')) [
      | inl opens ↦
          let out : take text w' at around dup
              ≡ some (record { walker = w'; around = push around; dup = dup; name = [] }) =
            rw (e, take) (rw opens) in
          subst (Keeps text bound w) (sym out) (past_token text b bound t)
      | inr no_opener ↦ elim (Bool-cases (c == b'}')) [
        | inl closes ↦
            let out : take text w' at around dup
                ≡ some (record { walker = w'; around = pop around; dup = dup; name = [] }) =
              rw (e, take) (rw (no_opener, closes)) in
            subst (Keeps text bound w) (sym out) (past_token text b bound t)
        | inr no_closer ↦
            let no_quote : (c == b'"') ≡ false = elim (Bool-cases (c == b'"')) [
              | inl q ↦ absurd (t.no_quote (e ∙ ap some ((==_iff c b'"').0 q)))
              | inr q ↦ q
            ] in
            let out : take text w' at around dup
                ≡ some (record { walker = w'; around = around; dup = dup; name = [] }) =
              rw (e, take) (rw (no_opener, no_closer, no_quote)) in
            subst (Keeps text bound w) (sym out) (past_token text b bound t)
      ]
    ]
  ]

module _ {ℓ} {S E : Type ℓ} (text : Bytes) (b : AreBytes text) (bound : ℕ)
    (fn : S → Bytes → Bytes → S × Option E) where
  abbrev Verdict : ℕ → S → Filed → Type 0
  Verdict rounds s f = Tells (whole text f.walker) (tokens_rounds rounds text fn s f).1

  abbrev Becomes : ℕ → S → Filed → S × Option (Failure E) → Type ℓ
  Becomes rounds s f r = tokens_rounds (suc rounds) text fn s f ≡ r

  by_result :
      (rounds : ℕ) (s : S) (f : Filed) (r : S × Option (Failure E))
      → Becomes rounds s f r
      → Tells (whole text f.walker) r.1
      → Verdict (suc rounds) s f
  by_result rounds s f r out h = subst (λ r. Tells (whole text f.walker) r.1) (sym out) h

  -- A token that take files, and the call of the function that follows unless it is a name.
  stopped-Verdict :
      (rounds : ℕ) (s : S) (f : Filed) (w : Walker) (at : ℕ)
      → f.dup ≡ false
      → token text f.walker ≡ stopped w at
      → (r : Option Filed) → take text w at f.around f.dup ≡ r
      → Keeps text bound f.walker r
      → ((s' : S) (f' : Filed) → Onward text bound f.walker f'.walker → Verdict rounds s' f')
      → Verdict (suc rounds) s f
  stopped-Verdict rounds s f w at going out none taken keeps again =
      let r : Becomes rounds s f (s, some malformed) =
        unfold tokens_rounds in rw (going, tokens_rounds) (rw out (rw taken)) in
      by_result rounds s f _ r (whole-none text f.walker keeps)
  stopped-Verdict rounds s f w at going out (some f') taken keeps again =
      elim (Bool-cases (is_colon f'.walker.state)) [
        | inl name ↦
            let r : Becomes rounds s f (tokens_rounds rounds text fn s f') =
              unfold tokens_rounds in rw (going, tokens_rounds) (rw out (rw taken (rw name))) in
            by_result rounds s f _ r
              (Onward-Tells text bound f.walker f'.walker _ keeps (again s f' keeps))
        | inr value ↦
            let called = fn s f.name (slice text at f'.walker.i) in
            elim (Option-cases called.1) [
              | inr (e, failing) ↦
                  let r : Becomes rounds s f (called.0, some (failed e)) =
                    unfold tokens_rounds in
                    rw (going, tokens_rounds) (rw out (rw taken (rw value (rw failing)))) in
                  by_result rounds s f _ r tt
              | inl on ↦
                  let f'' = record f' { name = [] } in
                  let r : Becomes rounds s f (tokens_rounds rounds text fn called.0 f'') =
                    unfold tokens_rounds in
                    rw (going, tokens_rounds) (rw out (rw taken (rw value (rw on)))) in
                  by_result rounds s f _ r
                    (Onward-Tells text bound f.walker f'.walker _ keeps (again called.0 f'' keeps))
            ]
      ]

  tokens_rounds-Tells :
      (rounds : ℕ) (s : S) (f : Filed) (o : List Container)
      → Holds bound f.walker o
      → Fits o f.walker.state
      → suc (length text - f.walker.i) ≤ rounds
      → Verdict rounds s f
  tokens_rounds-Tells zero s f o h fits le = absurd (omega arith)
  tokens_rounds-Tells (suc rounds) s f o h fits le = elim (Bool-cases f.dup) [
    | inl repeated ↦
        let r : Becomes rounds s f (s, some (rest text f.walker)) =
          unfold tokens_rounds in rw (repeated, tokens_rounds) in
        by_result rounds s f _ r (rest-Tells E text f.walker)
    | inr going ↦
        by going (token text f.walker) refl
          (unfold token in advance-Resumes text b bound stop_token refl f.walker o h fits)
          (λ s' f' m.
            tokens_rounds-Tells rounds s' f' m.around m.holds m.fits
              (omega (arith, m.further, m.inside)))
  ]
    where
      by :
          f.dup ≡ false
          → (a : Advance) → token text f.walker ≡ a
          → Resumes text bound stop_token f.walker a
          → ((s' : S) (f' : Filed) → Onward text bound f.walker f'.walker → Verdict rounds s' f')
          → Verdict (suc rounds) s f
      by going a out (fails e) again =
          let r : Becomes rounds s f (s, some malformed) =
            unfold tokens_rounds in rw (going, tokens_rounds) (rw out) in
          by_result rounds s f _ r (whole-none text f.walker e)
      by going a out (ends {w' = w'} e) again =
          let r : Becomes rounds s f (s, walk_fault text w'.i) =
            unfold tokens_rounds in rw (going, tokens_rounds) (rw out) in
          by_result rounds s f _ r (walk_fault-Tells E text f.walker w'.i e)
      by going a out (string {w' = w'} {at = at} q) again =
          stopped-Verdict rounds s f w' at going out (take text w' at f.around f.dup) refl
            (take_string-Keeps text b bound f.around f.dup q) again
      by going a out (other {w' = w'} {at = at} t) again =
          stopped-Verdict rounds s f w' at going out (take text w' at f.around f.dup) refl
            (take_token-Keeps text b bound f.around f.dup t) again

-- WalkTokens gives ErrMalformed only for a text of bytes that ValidUTF8 refuses under the same
-- bound, and no error or ErrDuplicateName only for one that it accepts, whatever the function
-- does; an error of the function tells nothing of the text.
pub walk_tokens-Tells {ℓ} :
    {S E : Type ℓ} (text : Bytes) (max_depth : ℤ) (fn : S → Bytes → Bytes → S × Option E) (s : S)
    → AreBytes text
    → Tells (valid_utf8 text max_depth) (walk_tokens text max_depth fn s).1
unfolding valid_utf8 whole walk_tokens new_walker top
walk_tokens-Tells {S = S} {E = E} text (pos bound) fn s b =
    tokens_rounds-Tells text b bound fn (suc (suc (length text))) s
      (record { walker = new_walker text (pos bound); around = some []; dup = false; name = [] }) []
      (Holds-top text (new_walker text (pos bound)) bound 0 refl refl) tt (omega arith)
walk_tokens-Tells {S = S} {E = E} text (negsuc n) fn s b =
    let w = new_walker text (negsuc n) in
    let f : Filed = record { walker = w; around = some []; dup = false; name = [] } in
    let out : token text w ≡ refused = token-refused text w refl refl in
    by_result text b 0 fn (suc (length text)) s f (s, some malformed)
      (unfold tokens_rounds in rw (out, tokens_rounds))
      (whole-none text w (finish-none text w refl refl))
