-- ===== src/Walks/Objects/Ends.antt =====
-- The end of a member's value, with or without stacks of names.
use go_jsonfast.Base.{
  ℕ, zero, suc, ◌-◌, ◌≤◌, Bool, true, false, Option, some, none, List, [], ◌≡◌, refl, sym, subst,
  ◌∙◌, arith, ◌>>=◌, inl, inr, Bool-cases, pos, length, Bytes,
}
use go_jsonfast.Swar.Lanes.{AreBytes}
use go_jsonfast.Names.{OpenObjects}
use go_jsonfast.Walk.{Walker, top, Advance, stopped, token, stop_token, finish, value_end}
use go_jsonfast.Walk.Valid.{Holds-top}
use go_jsonfast.Walk.Moves.{Container, Fits}
use go_jsonfast.Walk.Invariant.{Holds}
use go_jsonfast.Walk.Resume.{Resumes, fails, ends, string, other, advance-Resumes}
use go_jsonfast.Walks.{Filed, take}
use go_jsonfast.Walks.Onward.{Onward}
use go_jsonfast.Walks.Tokens.{Keeps, take_string-Keeps, take_token-Keeps}
use go_jsonfast.Walks.Objects.{value_rounds, object_value_end}

-- A result that ends where finish does.
abbrev pub Stops : Option ℕ → Option (ℕ × OpenObjects × Bool) → Type 0
Stops end none = end ≡ none
Stops end (some (e, _, _)) = end ≡ some e

module _ (text : Bytes) (b : AreBytes text) (bound : ℕ) where
  from :
      (f : Filed) (w : Walker) (r : Option (ℕ × OpenObjects × Bool))
      → Onward text bound f.walker w
      → Stops (finish text w) r
      → Stops (finish text f.walker) r
  from f w none m h = m.same ∙ h
  from f w (some (e, _, _)) m h = m.same ∙ h

  finish-Stops :
      (w : Walker) → Stops (finish text w) (finish text w >>= λ end. some (end, none, true))
  finish-Stops w = by (finish text w)
    where
      by : (o : Option ℕ) → Stops o (o >>= λ end. some (end, none, true))
      by none = refl
      by (some e) = refl

  taken-Stops :
      (rounds : ℕ) (f : Filed) (w : Walker) (at : ℕ)
      → f.dup ≡ false
      → token text f.walker ≡ stopped w at
      → (r : Option Filed) → take text w at f.around f.dup ≡ r
      → Keeps text bound f.walker r
      → ((f' : Filed)
          → Onward text bound f.walker f'.walker
          → Stops (finish text f'.walker) (value_rounds rounds text f'))
      → Stops (finish text f.walker) (value_rounds (suc rounds) text f)
  taken-Stops rounds f w at going out none taken keeps again =
      let r : value_rounds (suc rounds) text f ≡ none =
        unfold value_rounds in rw (going, value_rounds) (rw out (rw taken)) in
      subst (Stops (finish text f.walker)) (sym r) keeps
  taken-Stops rounds f w at going out (some f') taken keeps again =
      let r : value_rounds (suc rounds) text f ≡ value_rounds rounds text f' =
        unfold value_rounds in rw (going, value_rounds) (rw out (rw taken)) in
      subst (Stops (finish text f.walker)) (sym r) (from f f'.walker _ keeps (again f' keeps))

  value_rounds-Stops :
      (rounds : ℕ) (f : Filed) (o : List Container)
      → Holds bound f.walker o
      → Fits o f.walker.state
      → suc (length text - f.walker.i) ≤ rounds
      → Stops (finish text f.walker) (value_rounds rounds text f)
  value_rounds-Stops zero f o h fits le = absurd (omega arith)
  value_rounds-Stops (suc rounds) f o h fits le = elim (Bool-cases f.dup) [
    | inl repeated ↦
        let r : value_rounds (suc rounds) text f
            ≡ (finish text f.walker >>= λ end. some (end, none, true)) =
          unfold value_rounds in rw (repeated, value_rounds) in
        subst (Stops (finish text f.walker)) (sym r) (finish-Stops f.walker)
    | inr going ↦
        by going (token text f.walker) refl
          (unfold token in advance-Resumes text b bound stop_token refl f.walker o h fits)
          (λ f' m.
            value_rounds-Stops rounds f' m.around m.holds m.fits
              (omega (arith, m.further, m.inside)))
  ]
    where
      by :
          f.dup ≡ false
          → (a : Advance) → token text f.walker ≡ a
          → Resumes text bound stop_token f.walker a
          → ((f' : Filed)
              → Onward text bound f.walker f'.walker
              → Stops (finish text f'.walker) (value_rounds rounds text f'))
          → Stops (finish text f.walker) (value_rounds (suc rounds) text f)
      by going a out (fails e) again =
          let r : value_rounds (suc rounds) text f ≡ none =
            unfold value_rounds in rw (going, value_rounds) (rw out) in
          subst (Stops (finish text f.walker)) (sym r) e
      by going a out (ends {w' = w'} e) again =
          let r : value_rounds (suc rounds) text f ≡ some (w'.i, f.around, false) =
            unfold value_rounds in rw (going, value_rounds) (rw out) in
          subst (Stops (finish text f.walker)) (sym r) e
      by going a out (string {w' = w'} {at = at} q) again =
          taken-Stops rounds f w' at going out (take text w' at f.around f.dup) refl
            (take_string-Keeps text b bound f.around f.dup q) again
      by going a out (other {w' = w'} {at = at} t) again =
          taken-Stops rounds f w' at going out (take text w' at f.around f.dup) refl
            (take_token-Keeps text b bound f.around f.dup t) again

  -- objectWalk.valueEnd ends where valueEnd does.
  pub object_value_end-Stops :
      (w : Walker) (i : ℕ) (around : OpenObjects)
      → w.max_depth ≡ pos bound
      → length w.kinds.shallow ≡ 4
      → Stops (value_end text w i) (object_value_end text w i around)
  unfolding value_end object_value_end
  object_value_end-Stops w i none m four = by (value_end text w i)
    where
      by : (o : Option ℕ) → Stops o (o >>= λ end. some (end, none, false))
      by none = refl
      by (some e) = refl
  object_value_end-Stops w i (some sets) m four =
      value_rounds-Stops (suc (suc (length text)))
        (record { walker = top text w i; around = some sets; dup = false; name = [] }) []
        (Holds-top text w bound i m four) (unfold top in tt) (omega arith)
