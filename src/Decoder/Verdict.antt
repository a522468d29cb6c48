-- ===== src/Decoder/Verdict.antt =====
-- DecodeValue refuses as malformed what ValidUTF8 refuses, and nothing else.
use go_jsonfast.Base.{
  ℕ, zero, suc, ◌-◌, ◌≤◌, false, ◌||◌, Option, some, none, List, [], ◌∷◌, ◌≡◌, refl, ap, sym, subst,
  ◌∙◌, arith, ◌==◌, ==_iff, if◌then◌else◌, ◌⊎◌, inl, inr, Bool-cases, Option-cases, ℤ, pos, negsuc,
  length, byte_at, Bytes,
}
use go_jsonfast.Swar.Lanes.{AreBytes}
use go_jsonfast.Decode.{strict_token}
use go_jsonfast.Iterate.{Failure, malformed}
use go_jsonfast.Walk.{
  Walker, top, new_walker, Advance, refused, value_ended, stopped, token, stop_token, valid_utf8,
}
use go_jsonfast.Walk.Valid.{Holds-top, finish-none, token-refused}
use go_jsonfast.Walk.Moves.{Container, Fits}
use go_jsonfast.Walk.Invariant.{Holds}
use go_jsonfast.Walk.Resume.{
  AtString, AtToken, Resumes, fails, ends, string, other, advance-Resumes,
}
use go_jsonfast.Walks.{walk_fault, rest, is_colon}
use go_jsonfast.Walks.Onward.{Onward, past_token, past_token_string, no_token_string}
use go_jsonfast.Walks.Verdict.{whole, Tells, whole-none, Onward-Tells, walk_fault-Tells, rest-Tells}
use go_jsonfast.Flatten.Moves.{Keeps}
use go_jsonfast.Decoder.{
  GoValue, null, Decoding, name_next, place_value, close_value, scalar, place_text, place_token,
  place_at, end_value, decode_loop, decode_value,
}
use go_jsonfast.Decoder

abbrev pub error_of {ℓ ℓ'} : {E : Type ℓ} {V : Type ℓ'} → Failure E ⊎ V → Option (Failure E)
error_of (inl e) = some e
error_of (inr v) = none

module _ {ℓ} {N : Type ℓ} (num : Bytes → N) (doc : Bytes) where
  -- A token that is no string leaves the walker where it is.
  place_token-stays :
      (w : Walker) (at c : ℕ) (s : Decoding N)
      → (c == b'"') ≡ false
      → (s' : Decoding N) × (place_token num doc w at c s ≡ some (w, s'))
  unfolding place_token
  place_token-stays w at c s no_quote = elim (Bool-cases (c == b'{' || c == b'[')) [
    | inl opens ↦ (record s { around = Decoder.open_value_of c ∷ s.around }, rw opens)
    | inr no_opener ↦ elim (Bool-cases (c == b'}' || c == b']')) [
      | inl closes ↦ (close_value s, rw (no_opener, closes))
      | inr no_closer ↦
          (place_value (scalar num doc c at w.i) s, rw (no_opener, no_closer, no_quote))
    ]
  ]

  module _ (b : AreBytes doc) (bound : ℕ) {w w' : Walker} {at : ℕ} (s : Decoding N) where
    place_text-Keeps : AtString doc bound w w' at → Keeps doc bound w (place_text doc w' s)
    unfolding place_text
    place_text-Keeps q = elim (Option-cases (strict_token doc (w'.i - 1))) [
      | inl e ↦
          let out : place_text doc w' s ≡ none = rw (e, place_text) in
          subst (Keeps doc bound w) (sym out) (no_token_string doc b bound q e)
      | inr ((v, j), e) ↦
          let out : place_text doc w' s
              ≡ some (
                record w' { i = j },
                if is_colon w'.state then name_next v s else place_value (GoValue.text v) s,
              ) =
            rw (e, place_text) in
          subst (Keeps doc bound w) (sym out) (past_token_string doc b bound q v j e)
    ]

    take_string-Keeps : AtString doc bound w w' at → Keeps doc bound w (place_at num doc w' at s)
    unfolding place_at place_token
    take_string-Keeps q =
        let out : place_at num doc w' at s ≡ place_text doc w' s = rw (q.quote, place_at) in
        subst (Keeps doc bound w) (sym out) (place_text-Keeps q)

    take_other-Keeps :
        {stops : ℕ} → AtToken doc bound stops w w' at → Keeps doc bound w (place_at num doc w' at s)
    unfolding place_at
    take_other-Keeps t = elim (Option-cases (byte_at doc at)) [
      | inl e ↦
          let out : place_at num doc w' at s ≡ some (w', s) = rw (e, place_at) in
          subst (Keeps doc bound w) (sym out) (past_token doc b bound t)
      | inr (c, e) ↦
          let no_quote : (c == b'"') ≡ false = elim (Bool-cases (c == b'"')) [
            | inl q ↦ absurd (t.no_quote (e ∙ ap some ((==_iff c b'"').0 q)))
            | inr q ↦ q
          ] in
          let (s', out) = place_token-stays w' at c s no_quote in
          let out' : place_at num doc w' at s ≡ place_token num doc w' at c s = rw (e, place_at) in
          subst (Keeps doc bound w) (sym (out' ∙ out)) (past_token doc b bound t)
    ]

module _ {ℓ κ} {N : Type ℓ} (E : Type κ) (num : Bytes → N) (doc : Bytes) (b : AreBytes doc)
    (bound : ℕ) where
  abbrev Verdict : ℕ → Walker → Decoding N → Type 0
  Verdict rounds w s = Tells (whole doc w) (error_of (decode_loop {E = E} rounds num doc w s))

  by_result :
      (rounds : ℕ) (w : Walker) (s : Decoding N) (r : Option (Failure E))
      → error_of (decode_loop rounds num doc w s) ≡ r
      → Tells (whole doc w) r
      → Verdict rounds w s
  by_result rounds w s r out h = subst (Tells (whole doc w)) (sym out) h

  taken-Verdict :
      (rounds : ℕ) (w w' : Walker) (at : ℕ) (s : Decoding N)
      → s.repeated ≡ false
      → token doc w ≡ stopped w' at
      → (r : Option (Walker × Decoding N)) → place_at num doc w' at s ≡ r
      → Keeps doc bound w r
      → ((w'' : Walker) (s' : Decoding N) → Onward doc bound w w'' → Verdict rounds w'' s')
      → Verdict (suc rounds) w s
  taken-Verdict rounds w w' at s going out none taken keeps again =
      by_result (suc rounds) w s (some malformed)
        (unfold decode_loop in rw (going, decode_loop) (rw out (rw taken))) (whole-none doc w keeps)
  taken-Verdict rounds w w' at s going out (some (w'', s')) taken keeps again =
      by_result (suc rounds) w s (error_of (decode_loop rounds num doc w'' s'))
        (unfold decode_loop in rw (going, decode_loop) (rw out (rw taken)))
        (Onward-Tells doc bound w w'' _ keeps (again w'' s' keeps))

  ended :
      (rounds : ℕ) (w w' : Walker) (s : Decoding N)
      → s.repeated ≡ false
      → token doc w ≡ value_ended w'
      → error_of (decode_loop {E = E} (suc rounds) num doc w s) ≡ walk_fault doc w'.i
  unfolding decode_loop end_value
  ended rounds w w' s going out = elim (Option-cases (walk_fault {E = E} doc w'.i)) [
    | inl e ↦
        let r : error_of (decode_loop {E = E} (suc rounds) num doc w s) ≡ none =
          rw (going, decode_loop) (rw out (rw (e, end_value))) in
        r ∙ sym e
    | inr (x, e) ↦
        let r : error_of (decode_loop {E = E} (suc rounds) num doc w s) ≡ some x =
          rw (going, decode_loop) (rw out (rw (e, end_value))) in
        r ∙ sym e
  ]

  decode_loop-Tells :
      (rounds : ℕ) (w : Walker) (s : Decoding N) (o : List Container)
      → Holds bound w o
      → Fits o w.state
      → suc (length doc - w.i) ≤ rounds
      → Verdict rounds w s
  decode_loop-Tells zero w s o h fits le = absurd (omega arith)
  decode_loop-Tells (suc rounds) w s o h fits le = elim (Bool-cases s.repeated) [
    | inl repeated ↦
        by_result (suc rounds) w s (some (rest doc w))
          (unfold decode_loop in rw (repeated, decode_loop)) (rest-Tells E doc w)
    | inr going ↦
        by going (token doc w) refl
          (unfold token in advance-Resumes doc b bound stop_token refl w o h fits)
          (λ w' s' m.
            decode_loop-Tells rounds w' s' m.around m.holds m.fits
              (omega (arith, m.further, m.inside)))
  ]
    where
      by :
          s.repeated ≡ false
          → (a : Advance) → token doc w ≡ a
          → Resumes doc bound stop_token w a
          → ((w' : Walker) (s' : Decoding N) → Onward doc bound w w' → Verdict rounds w' s')
          → Verdict (suc rounds) w s
      by going a out (fails e) again =
          by_result (suc rounds) w s (some malformed)
            (unfold decode_loop in rw (going, decode_loop) (rw out)) (whole-none doc w e)
      by going a out (ends {w' = w'} e) again =
          by_result (suc rounds) w s (walk_fault doc w'.i) (ended rounds w w' s going out)
            (walk_fault-Tells E doc w w'.i e)
      by going a out (string {w' = w'} {at = at} q) again =
          taken-Verdict rounds w w' at s going out (place_at num doc w' at s) refl
            (take_string-Keeps num doc b bound s q) again
      by going a out (other {w' = w'} {at = at} t) again =
          taken-Verdict rounds w w' at s going out (place_at num doc w' at s) refl
            (take_other-Keeps num doc b bound s t) again

-- DecodeValue gives ErrMalformed only for a text of bytes that ValidUTF8 refuses under the same
-- bound, and a value or ErrDuplicateName only for one that it accepts, whatever is made of the
-- numbers.
pub decode_value-Tells {ℓ κ} :
    {N : Type ℓ} (E : Type κ) (doc : Bytes) (max_depth : ℤ) (num : Bytes → N)
    → AreBytes doc
    → Tells (valid_utf8 doc max_depth) (error_of (decode_value {E = E} doc max_depth num))
unfolding valid_utf8 whole decode_value new_walker top
decode_value-Tells E doc (pos bound) num b =
    decode_loop-Tells E num doc b bound (suc (suc (length doc))) (new_walker doc (pos bound))
      (record { around = []; top = null; repeated = false }) []
      (Holds-top doc (new_walker doc (pos bound)) bound 0 refl refl) tt (omega arith)
decode_value-Tells E doc (negsuc n) num b =
    let w = new_walker doc (negsuc n) in
    let out : token doc w ≡ refused = token-refused doc w refl refl in
    by_result E num doc b 0 (suc (suc (length doc))) w
      (record { around = []; top = null; repeated = false }) (some malformed)
      (unfold decode_loop in rw (out, decode_loop)) (whole-none doc w (finish-none doc w refl refl))
