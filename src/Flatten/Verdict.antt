-- ===== src/Flatten/Verdict.antt =====
-- FlattenObject refuses as malformed what ValidUTF8 refuses under its bound, and nothing else.
use go_jsonfast.Base.{
  ℕ, zero, suc, ◌-◌, ◌≤◌, Bool, true, false, not, Option, some, none, List, [], ◌≡◌, refl, sym,
  subst, arith, if◌then◌else◌, inl, inr, Bool-cases, Option-cases, pos, length, Bytes,
}
use go_jsonfast.Swar.Lanes.{AreBytes}
use go_jsonfast.Scan.{skip_ws}
use go_jsonfast.Decode.{stands}
use go_jsonfast.Builder.{Builder}
use go_jsonfast.Iterate.{Failure, malformed}
use go_jsonfast.Walk.{Walker, top, new_walker, Advance, stopped, token, stop_token, valid_utf8}
use go_jsonfast.Walk.Valid.{Holds-top}
use go_jsonfast.Walk.Moves.{Container, Fits}
use go_jsonfast.Walk.Invariant.{Holds}
use go_jsonfast.Walk.Resume.{Resumes, fails, ends, string, other, advance-Resumes}
use go_jsonfast.Walks.{walk_fault, rest}
use go_jsonfast.Walks.Onward.{Onward}
use go_jsonfast.Walks.Verdict.{whole, Tells, whole-none, Onward-Tells, walk_fault-Tells, rest-Tells}
use go_jsonfast.Flatten.{
  State, take_at, run_rounds, new_flattener, max_flatten_depth, flatten_object,
}
use go_jsonfast.Flatten.Moves.{Keeps, take_string-Keeps, take_other-Keeps}

module _ {ℓ} (E : Type ℓ) (text : Bytes) (b : AreBytes text) (bound : ℕ) where
  abbrev Verdict : ℕ → Walker → State → Type 0
  Verdict rounds w s = Tells (whole text w) (run_rounds {E = E} rounds text w s).1

  by_result :
      (rounds : ℕ) (w : Walker) (s : State) (r : Option (Failure E))
      → (run_rounds rounds text w s).1 ≡ r
      → Tells (whole text w) r
      → Verdict rounds w s
  by_result rounds w s r out h = subst (Tells (whole text w)) (sym out) h

  taken-Verdict :
      (rounds : ℕ) (w w' : Walker) (at : ℕ) (s : State)
      → s.1.repeated ≡ false
      → token text w ≡ stopped w' at
      → (r : Option (Walker × State)) → take_at text w' at s ≡ r
      → Keeps text bound w r
      → ((w'' : Walker) (s' : State) → Onward text bound w w'' → Verdict rounds w'' s')
      → Verdict (suc rounds) w s
  taken-Verdict rounds w w' at s going out none taken keeps again =
      by_result (suc rounds) w s (some malformed)
        (unfold run_rounds in rw (going, run_rounds) (rw out (rw taken))) (whole-none text w keeps)
  taken-Verdict rounds w w' at s going out (some (w'', s')) taken keeps again =
      by_result (suc rounds) w s (run_rounds rounds text w'' s').1
        (unfold run_rounds in rw (going, run_rounds) (rw out (rw taken)))
        (Onward-Tells text bound w w'' _ keeps (again w'' s' keeps))

  run_rounds-Tells :
      (rounds : ℕ) (w : Walker) (s : State) (o : List Container)
      → Holds bound w o
      → Fits o w.state
      → suc (length text - w.i) ≤ rounds
      → Verdict rounds w s
  run_rounds-Tells zero w s o h fits le = absurd (omega arith)
  run_rounds-Tells (suc rounds) w s o h fits le = elim (Bool-cases s.1.repeated) [
    | inl repeated ↦
        by_result (suc rounds) w s (some (rest text w))
          (unfold run_rounds in rw (repeated, run_rounds)) (rest-Tells E text w)
    | inr going ↦
        by going (token text w) refl
          (unfold token in advance-Resumes text b bound stop_token refl w o h fits)
          (λ w' s' m.
            run_rounds-Tells rounds w' s' m.around m.holds m.fits
              (omega (arith, m.further, m.inside)))
  ]
    where
      by :
          s.1.repeated ≡ false
          → (a : Advance) → token text w ≡ a
          → Resumes text bound stop_token w a
          → ((w' : Walker) (s' : State) → Onward text bound w w' → Verdict rounds w' s')
          → Verdict (suc rounds) w s
      by going a out (fails e) again =
          by_result (suc rounds) w s (some malformed)
            (unfold run_rounds in rw (going, run_rounds) (rw out)) (whole-none text w e)
      by going a out (ends {w' = w'} e) again =
          by_result (suc rounds) w s (walk_fault text w'.i)
            (unfold run_rounds in rw (going, run_rounds) (rw out))
            (walk_fault-Tells E text w w'.i e)
      by going a out (string {w' = w'} {at = at} q) again =
          taken-Verdict rounds w w' at s going out (take_at text w' at s) refl
            (take_string-Keeps text b bound s q) again
      by going a out (other {w' = w'} {at = at} t) again =
          taken-Verdict rounds w w' at s going out (take_at text w' at s) refl
            (take_other-Keeps text b bound s t) again

  Tells-not : (valid : Bool) → Tells {E = E} valid (if not valid then some malformed else none)
  Tells-not true = refl
  Tells-not false = refl

flatten_err {ℓ} :
    (E : Type ℓ) (builder : Builder) (text : Bytes)
    → stands text (skip_ws text 0) b'{' ≡ true
    → (flatten_object {E = E} builder text).1
      ≡ (run_rounds {E = E}
          (suc (suc (length text)))
          text
          (new_walker text (pos max_flatten_depth))
          (some [], new_flattener builder)).1
unfolding flatten_object
flatten_err E builder text object =
    let r =
      run_rounds {E = E} (suc (suc (length text))) text (new_walker text (pos max_flatten_depth))
        (some [], new_flattener builder) in
    elim (Option-cases r.1) [
      | inl e ↦ rw (object, flatten_object) (rw e)
      | inr (x, e) ↦ rw (object, flatten_object) (rw e)
    ]

-- FlattenObject gives ErrMalformed only for a text of bytes that ValidUTF8 refuses under a bound
-- of 64, and no error or ErrDuplicateName only for one that it accepts: a repeated name never
-- hides a fault behind it.
pub flatten_object-Tells {ℓ} :
    (E : Type ℓ) (builder : Builder) (text : Bytes)
    → AreBytes text
    → Tells (valid_utf8 text (pos max_flatten_depth)) (flatten_object {E = E} builder text).1
unfolding flatten_object valid_utf8 whole new_walker top
flatten_object-Tells E builder text b = elim (Bool-cases (stands text (skip_ws text 0) b'{')) [
  | inr no_object ↦
      rw (no_object, flatten_object)
        (Tells-not E text b 0 (valid_utf8 text (pos max_flatten_depth)))
  | inl object ↦
      let w = new_walker text (pos max_flatten_depth) in
      subst (Tells (whole text w)) (sym (flatten_err E builder text object)) (
        run_rounds-Tells E text b max_flatten_depth (suc (suc (length text))) w
          (some [], new_flattener builder) [] (Holds-top text w max_flatten_depth 0 refl refl) tt
          (omega arith))
]
