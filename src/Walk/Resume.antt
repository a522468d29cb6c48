-- ===== src/Walk/Resume.antt =====
-- finish goes on from each token that advance stops at, as the walks do that file what they pass.
use go_jsonfast.Base.{
  ℕ, zero, suc, ◌-◌, ◌<◌, ◌≤◌, true, false, some, none, List, ◌≡◌, ◌≢◌, refl, ap, sym, subst, ◌∙◌,
  arith, inl, inr, Bool-cases, length, byte_at, Bytes,
}
use go_jsonfast.Swar.Lanes.{AreBytes}
use go_jsonfast.Scan.{skip_ws}
use go_jsonfast.Strings.{strict_end}
use go_jsonfast.Walk.{
  Walker, step, Advance, refused, value_ended, stopped, is_done, stops_at, stop_string,
  advance_rounds, advance, finish, slot_at, slot_of_byte, slot_quote,
}
use go_jsonfast.Walk.Tokens.{skip_ws-ge}
use go_jsonfast.Walk.Moves.{Container, Move, Fits}
use go_jsonfast.Walk.Moves.Kept.{Move-Fits}
use go_jsonfast.Walk.Invariant.{Holds}
use go_jsonfast.Walk.Outcome.{Outcome, at_string, moved, step-Round}
use go_jsonfast.Walk.Forward.{by_step, by_string, Move-Goes}
use go_jsonfast.Walk.Exact.{resumed}
use go_jsonfast.Walk.Rounds.{
  step-slot, finish-done, finish-fault, finish-moved, finish-string, rounds_enough,
}

-- A stop at a string of a walker before it, and what finish does from there.
pub record AtString (text : Bytes) (bound : ℕ) (w w' : Walker) (at : ℕ) : Type 0 where
  pub around : List Container
  pub holds : Holds bound w' around
  pub quote : byte_at text at ≡ some b'"'
  pub behind : w'.i ≡ suc at
  pub from : w.i ≤ at
  pub fits : (j : ℕ) → strict_end text at ≡ some j → Fits around w'.state
  pub none_left : strict_end text at ≡ none → finish text w ≡ none
  pub on : (j : ℕ) → strict_end text at ≡ some j → finish text w ≡ finish text (record w' { i = j })

-- A stop at any other token.
pub record AtToken (text : Bytes) (bound stops : ℕ) (w w' : Walker) (at : ℕ) : Type 0 where
  pub around : List Container
  pub holds : Holds bound w' around
  pub fits : Fits around w'.state
  pub slot : ℕ
  pub halts : stops_at stops slot ≡ true
  pub passes : stops_at stop_string slot ≡ false
  pub no_quote : byte_at text at ≢ some b'"'
  pub further : w.i < w'.i
  pub inside : w.i < length text
  pub on : finish text w ≡ finish text w'

-- What finish returns from a walker, by where it advances.
pub data Resumes (text : Bytes) (bound stops : ℕ) (w : Walker) : Advance → Type 0 where
  fails : finish text w ≡ none → Resumes text bound stops w refused
  ends : {w' : Walker} → finish text w ≡ some w'.i → Resumes text bound stops w (value_ended w')
  string :
      {w' : Walker} {at : ℕ}
      → AtString text bound w w' at
      → Resumes text bound stops w (stopped w' at)
  other :
      {w' : Walker} {at : ℕ}
      → AtToken text bound stops w w' at
      → Resumes text bound stops w (stopped w' at)

-- From a walker that a round moved.
earlier :
    (text : Bytes) (bound stops : ℕ) (w w' : Walker) {a : Advance}
    → w.i < w'.i
    → finish text w ≡ finish text w'
    → Resumes text bound stops w' a
    → Resumes text bound stops w a
earlier text bound stops w w' lt on (fails e) = fails (on ∙ e)
earlier text bound stops w w' lt on (ends e) = ends (on ∙ e)
earlier text bound stops w w' lt on (string s) = string (record {
  around = s.around;
  holds = s.holds;
  quote = s.quote;
  behind = s.behind;
  from = omega (arith, s.from);
  fits = s.fits;
  none_left = λ e. on ∙ s.none_left e;
  on = λ j e. on ∙ s.on j e;
})
earlier text bound stops w w' lt on (other t) = other (record {
  around = t.around;
  holds = t.holds;
  fits = t.fits;
  slot = t.slot;
  halts = t.halts;
  passes = t.passes;
  no_quote = t.no_quote;
  further = omega (arith, t.further);
  inside = omega (arith, t.inside);
  on = on ∙ t.on;
})

quote_slot : (text : Bytes) (i : ℕ) → byte_at text i ≡ some b'"' → slot_at text i ≡ slot_quote
unfolding slot_at slot_of_byte
quote_slot text i h = rw (h, slot_at)

module _ (text : Bytes) (b : AreBytes text) (bound stops : ℕ)
    (halts : stops_at stops slot_quote ≡ true) where
  -- The rounds of advance, with any stops that hold the string's, do not change what finish returns.
  pub advance_rounds-Resumes :
      (rounds : ℕ) (w : Walker) (o : List Container)
      → Holds bound w o
      → Fits o w.state
      → suc (length text - w.i) ≤ rounds
      → Resumes text bound stops w (advance_rounds rounds text stops w)
  unfolding advance_rounds
  advance_rounds-Resumes zero w o h f le = absurd (omega arith)
  advance_rounds-Resumes (suc rounds) w o h f le = elim (Bool-cases (is_done w.state)) [
    | inl over ↦
        let out : advance_rounds (suc rounds) text stops w ≡ value_ended w = rw over in
        subst (Resumes text bound stops w) (sym out) (ends (finish-done text b bound w o h f over))
    | inr going ↦ elim (step-Round text bound w o b h f) [
      | inl fault ↦
          let out : advance_rounds (suc rounds) text stops w ≡ refused = rw (going, fault) in
          subst (Resumes text bound stops w) (sym out)
            (fails (finish-fault text b bound w o h f going fault))
      | inr (w', k, taken, outcome) ↦
          by_outcome w' k going taken outcome
            (λ o' h' f' le'. advance_rounds-Resumes rounds w' o' h' f' le')
    ]
  ]
    where
      by_outcome :
          (w' : Walker) (k : ℕ)
          → is_done w.state ≡ false
          → step text w ≡ some (w', skip_ws text w.i, k)
          → Outcome text bound w o w' k
          → ((o' : List Container)
              → Holds bound w' o'
              → Fits o' w'.state
              → suc (length text - w'.i) ≤ rounds
              → Resumes text bound stops w' (advance_rounds rounds text stops w'))
          → Resumes text bound stops w (advance_rounds (suc rounds) text stops w)
      by_outcome w' k going taken (at_string h' token index one) again =
          let out : advance_rounds (suc rounds) text stops w ≡ stopped w' (skip_ws text w.i) =
            rw (going, taken) (rw halts) in
          let here = finish-string text b bound w o h f going taken refl in
          subst (Resumes text bound stops w) (sym out) (
            string (record {
              around = o;
              holds = h';
              quote = token;
              behind = index;
              from = skip_ws-ge text w.i;
              fits = λ j e. Move-Fits text bound (one j (token, e)) f;
              none_left = λ e. here ∙ rw e;
              on = λ j e.
                  here
                  ∙ rw e (
                      rounds_enough text b bound (record w' { i = j }) o
                        (resumed text b bound w' o j h')
                        (Move-Fits text bound (one j (token, e)) f));
            }))
      by_outcome w' k going taken (moved o' go h' m lt) again =
          let on = finish-moved text b bound w o h f going taken o' go h' m in
          let fits = Move-Fits text bound m f in
          elim (Bool-cases (stops_at stops k)) [
            | inl halt ↦
                let out : advance_rounds (suc rounds) text stops w ≡ stopped w' (skip_ws text w.i) =
                  rw (going, taken) (rw halt) in
                subst (Resumes text bound stops w) (sym out) (
                  other (record {
                    around = o';
                    holds = h';
                    fits = fits;
                    slot = k;
                    halts = halt;
                    passes = go;
                    no_quote = λ q. cc (
                        sym go
                        ∙ ap (stops_at stop_string)
                            (sym (step-slot text w taken) ∙ quote_slot text (skip_ws text w.i) q));
                    further = lt;
                    inside = moved_inside w' o' m;
                    on = on;
                  }))
            | inr run ↦
                let out : advance_rounds (suc rounds) text stops w
                    ≡ advance_rounds rounds text stops w' =
                  rw (going, taken) (rw run) in
                let inside = moved_inside w' o' m in
                subst (Resumes text bound stops w) (sym out)
                  (earlier text bound stops w w' lt on (again o' h' fits (omega arith)))
          ]
        where
          moved_inside :
              (w' : Walker) (o' : List Container)
              → Move text bound o w.state w.i o' w'.state w'.i
              → w.i < length text
          moved_inside w' o' m =
              elim (Move-Goes text b bound w.max_depth w.kinds w.i w.depth o o' w.state w'.state
                w'.i h m) [
                  | by_step k t stops further inside ↦ inside
                  | by_string t e further inside ↦ inside
                ]

  pub advance-Resumes :
      (w : Walker) (o : List Container)
      → Holds bound w o
      → Fits o w.state
      → Resumes text bound stops w (advance text stops w)
  unfolding advance
  advance-Resumes w o h f = advance_rounds-Resumes (suc (suc (length text))) w o h f (omega arith)
