-- ===== src/Walks/Onward.antt =====
-- What a walk that passes a token keeps: the result of finish from where it stands.
use go_jsonfast.Base.{
  ℕ, ◌-◌, ◌<◌, true, some, none, List, ◌≡◌, ap, sym, subst, ◌∙◌, arith, inl, inr, Option-cases,
  length, Bytes,
}
use go_jsonfast.Swar.Lanes.{AreBytes}
use go_jsonfast.Strings.{strict_end}
use go_jsonfast.Strings.Exact.{strict_end_iff}
use go_jsonfast.Decode.{strict_token, stands}
use go_jsonfast.Decode.Ends.{strict_token-strict_end}
use go_jsonfast.Walk.{Walker, finish}
use go_jsonfast.Walk.Tokens.{Token-lt}
use go_jsonfast.Walk.Moves.{Container, Fits}
use go_jsonfast.Walk.Invariant.{Holds}
use go_jsonfast.Walk.Exact.{resumed}
use go_jsonfast.Walk.Resume.{AtString, AtToken}

-- A walker within its invariant that stands further, from where finish returns the same.
pub record Onward (text : Bytes) (bound : ℕ) (w w' : Walker) : Type 0 where
  pub around : List Container
  pub holds : Holds bound w' around
  pub fits : Fits around w'.state
  pub further : w.i < w'.i
  pub inside : w.i < length text
  pub same : finish text w ≡ finish text w'

pub strict_end-gt : (text : Bytes) (i j : ℕ) → AreBytes text → strict_end text i ≡ some j → i < j
strict_end-gt text i j b h =
    let (u, split, end, body) = (strict_end_iff text b i j).0 h in omega (arith, end)

module _ (text : Bytes) (b : AreBytes text) (bound : ℕ) {w w' : Walker} {at : ℕ} where
  pub past_token : {stops : ℕ} → AtToken text bound stops w w' at → Onward text bound w w'
  past_token t = record {
    around = t.around;
    holds = t.holds;
    fits = t.fits;
    further = t.further;
    inside = t.inside;
    same = t.on;
  }

  module _ (s : AtString text bound w w' at) where
    pub at_quote : w'.i - 1 ≡ at
    at_quote = omega (arith, s.behind)

    pub no_string : strict_end text (w'.i - 1) ≡ none → finish text w ≡ none
    no_string h = s.none_left (sym (ap (strict_end text) at_quote) ∙ h)

    pub past_string :
        (j : ℕ) → strict_end text (w'.i - 1) ≡ some j → Onward text bound w (record w' { i = j })
    past_string j h =
        let h' = sym (ap (strict_end text) at_quote) ∙ h in
        let gt = strict_end-gt text at j b h' in
        let inside = Token-lt text at b'"' s.quote in
        record {
          around = s.around;
          holds = resumed text b bound w' s.around j s.holds;
          fits = s.fits j h';
          further = omega (arith, s.from);
          inside = omega (arith, s.from);
          same = s.on j h';
        }

    stands_quote : stands text (w'.i - 1) b'"' ≡ true
    stands_quote = subst (λ n. stands text n b'"' ≡ true) (sym at_quote) (rw (s.quote, stands))

    pub past_token_string :
        (v : Bytes) (j : ℕ)
        → strict_token text (w'.i - 1) ≡ some (v, j)
        → Onward text bound w (record w' { i = j })
    past_token_string v j h =
        past_string j ((strict_token-strict_end text (w'.i - 1) j b stands_quote).0 (v, h))

    pub no_token_string : strict_token text (w'.i - 1) ≡ none → finish text w ≡ none
    no_token_string h = elim (Option-cases (strict_end text (w'.i - 1))) [
      | inl e ↦ no_string e
      | inr (j, e) ↦
          let (v, e') = (strict_token-strict_end text (w'.i - 1) j b stands_quote).1 e in cc
    ]
