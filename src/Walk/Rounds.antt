-- ===== src/Walk/Rounds.antt =====
-- finish a round at a time: what it returns from a walker, by the round that follows.
use go_jsonfast.Base.{
  ℕ, suc, ◌-◌, true, false, some, none, List, ◌≡◌, refl, ap, sym, ◌∙◌, arith, inl, inr, ◌==◌,
  Bool-cases, Option-cases, same_option, length, Bytes, bit_and,
}
use go_jsonfast.Swar.Lanes.{AreBytes}
use go_jsonfast.Scan.{skip_ws, skip_scalar}
use go_jsonfast.Strings.{strict_end}
use go_jsonfast.Walk.{
  Walker, step, is_done, stops_at, stop_string, advance_rounds, finish_rounds, finish, slot_at,
  entry_at, state_mask, take_scalar, take_open, take_close, at_bound,
}
use go_jsonfast.Walk.Moves.{Container, Move, move, Fits}
use go_jsonfast.Walk.Moves.Kept.{Move-Fits}
use go_jsonfast.Walk.Invariant.{Holds}
use go_jsonfast.Walk.Exact.{continue, finish_rounds-suc, finish_sound, finish_complete}

-- The slot that a round gives is that of the token it passes.
pub step-slot :
    (text : Bytes) (w : Walker) {w' : Walker} {at k : ℕ}
    → step text w ≡ some (w', at, k)
    → slot_at text (skip_ws text w.i) ≡ k
unfolding step
step-slot text w h =
    let k = slot_at text (skip_ws text w.i) in
    let entry = entry_at w.state k in
    let work = entry - bit_and entry state_mask in
    elim (Bool-cases (work == 0)) [
      | inl goto ↦ cc (rw goto at h)
      | inr some_work ↦ elim (Bool-cases (work == take_scalar)) [
        | inl scalar ↦ elim (Option-cases (skip_scalar text (skip_ws text w.i))) [
          | inl fault ↦ cc (rw (some_work, scalar, fault) at h)
          | inr (j, scan) ↦ cc (rw (some_work, scalar, scan) at h)
        ]
        | inr no_scalar ↦ elim (Bool-cases (work == take_open)) [
          | inl opens ↦ elim (Bool-cases (at_bound w.depth w.max_depth)) [
            | inl full ↦ cc (rw (some_work, no_scalar, opens, full) at h)
            | inr free ↦ cc (rw (some_work, no_scalar, opens, free) at h)
          ]
          | inr no_open ↦ elim (Bool-cases (work == take_close)) [
            | inl closes ↦ cc (rw (some_work, no_scalar, no_open, closes) at h)
            | inr refuses ↦ cc (rw (some_work, no_scalar, no_open, refuses) at h)
          ]
        ]
      ]
    ]

module _ (text : Bytes) (b : AreBytes text) (bound : ℕ) (w : Walker) (o : List Container)
    (h : Holds bound w o) (f : Fits o w.state) where
  abbrev size : ℕ
  size = length text

  finish-rounds :
      finish text w
      ≡ continue text b bound (suc size) (advance_rounds (suc (suc size)) text stop_string w)
  unfolding finish
  finish-rounds = finish_rounds-suc text b bound (suc size) w

  -- Rounds enough find the same end.
  pub rounds_enough : finish_rounds (suc size) text w ≡ finish text w
  unfolding finish
  rounds_enough =
      same_option _ _
        (λ e t.
          finish-rounds
          ∙ finish_complete text b bound o w.state w.i e
              (finish_sound text b bound (suc size) w o e h f t) w (suc (suc size)) (suc size) refl
              refl h (omega arith) (omega arith))
        (λ e t.
          finish_rounds-suc text b bound size w
          ∙ finish_complete text b bound o w.state w.i e
              (finish_sound text b bound (suc (suc size)) w o e h f t) w (suc (suc size)) size refl
              refl h (omega arith) (omega arith))

  pub finish-done : is_done w.state ≡ true → finish text w ≡ some w.i
  finish-done over = finish-rounds ∙ (unfold advance_rounds in rw over)

  pub finish-fault : is_done w.state ≡ false → step text w ≡ none → finish text w ≡ none
  finish-fault going fault = finish-rounds ∙ (unfold advance_rounds in rw (going, fault))

  module _ {w' : Walker} {k : ℕ} (going : is_done w.state ≡ false)
      (taken : step text w ≡ some (w', skip_ws text w.i, k)) where
    -- A round that stops at no string leaves the rest of finish as it is.
    pub finish-moved :
        (o' : List Container)
        → stops_at stop_string k ≡ false
        → Holds bound w' o'
        → Move text bound o w.state w.i o' w'.state w'.i
        → finish text w ≡ finish text w'
    unfolding finish
    finish-moved o' go h' m =
        let out : advance_rounds (suc (suc (suc size))) text stop_string w
            ≡ advance_rounds (suc (suc size)) text stop_string w' =
          unfold advance_rounds in rw (going, taken) (rw go) in
        let after = finish_rounds-suc text b bound (suc size) w' in
        same_option _ _
          (λ e t.
            after
            ∙ ap (continue text b bound (suc size)) (sym out)
            ∙ finish_complete text b bound o w.state w.i e
                (finish_sound text b bound (suc (suc size)) w o e h f t) w (suc (suc (suc size)))
                (suc size) refl refl h (omega arith) (omega arith))
          (λ e t.
            finish-rounds
            ∙ finish_complete text b bound o w.state w.i e
                (move m (
                  finish_sound text b bound (suc (suc size)) w' o' e h' (Move-Fits text bound m f)
                    t))
                w (suc (suc size)) (suc size) refl refl h (omega arith) (omega arith))

    -- At a string, finish goes on past it, or fails where it is none.
    pub finish-string :
        stops_at stop_string k ≡ true
        → finish text w ≡ elim (strict_end text (skip_ws text w.i)) [
          | none ↦ none
          | some j ↦ finish_rounds (suc size) text (record w' { i = j })
        ]
    finish-string halts = finish-rounds ∙ (unfold advance_rounds in rw (going, taken) (rw halts))
