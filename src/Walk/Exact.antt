-- ===== src/Walk/Exact.antt =====
-- The loops of the walker against the grammar: finish finds the ends of exactly its values.
use go_jsonfast.Base.{
  ℕ, zero, suc, ◌-◌, ◌≤◌, true, false, Option, some, none, List, [], ◌∷◌, ◌≡◌, ◌↔◌, refl, ap, sym,
  subst, ◌∙◌, arith, inl, inr, Bool-cases, Option-cases, length, Bytes,
}
use go_jsonfast.Swar.Lanes.{AreBytes}
use go_jsonfast.Scan.{skip_ws}
use go_jsonfast.Strings.{strict_end}
use go_jsonfast.Walk.{
  WalkState, walk_value, walk_array_first, walk_array_value, walk_array_after, walk_object_first,
  walk_name, walk_colon, walk_member_value, walk_object_after, walk_done, Walker, step, Advance,
  refused, value_ended, stopped, is_done, stop_string, advance_rounds, advance, next, finish_rounds,
  finish,
}
use go_jsonfast.Walk.Grammar.{Value}
use go_jsonfast.Walk.Moves.{
  Container, in_array, in_object, Move, Walks, walked, move, Fits, AllowsValue, on_top,
  first_element, later_element, member_value, first_name, later_name, no_element, behind_element,
  no_member, behind_member, take_scalar, take_string, take_name, take_colon, next_element,
  next_member, open_array, open_object, close_array, close_object,
}
use go_jsonfast.Walk.Moves.Kept.{Move-Fits}
use go_jsonfast.Walk.Moves.Complete.{Walks-iff}
use go_jsonfast.Walk.Invariant.{Holds}
use go_jsonfast.Walk.Outcome.{Outcome, at_string, moved, step-Round}
use go_jsonfast.Walk.Forward.{by_step, by_string, Move-Goes}

-- Past the top value the walk is over.
done_walk :
    (text : Bytes) (bound : ℕ) (o : List Container) (s : WalkState) (i : ℕ)
    → Fits o s
    → is_done s ≡ true
    → Walks text bound o s i i
done_walk text bound [] walk_done i f h = walked
done_walk text bound (in_array ∷ o) walk_done i f h = absurd f
done_walk text bound (in_object ∷ o) walk_done i f h = absurd f
done_walk text bound o walk_value i f h = cc
done_walk text bound o walk_array_first i f h = cc
done_walk text bound o walk_array_value i f h = cc
done_walk text bound o walk_array_after i f h = cc
done_walk text bound o walk_object_first i f h = cc
done_walk text bound o walk_name i f h = cc
done_walk text bound o walk_colon i f h = cc
done_walk text bound o walk_member_value i f h = cc
done_walk text bound o walk_object_after i f h = cc

value_not_done : {s : WalkState} → AllowsValue s → is_done s ≡ false
value_not_done on_top = refl
value_not_done first_element = refl
value_not_done later_element = refl
value_not_done member_value = refl

Move-not_done :
    {text : Bytes} {bound : ℕ} {o o' : List Container} {s s' : WalkState} {i i' : ℕ}
    → Move text bound o s i o' s' i'
    → is_done s ≡ false
Move-not_done (take_scalar a e) = value_not_done a
Move-not_done (take_string a t) = value_not_done a
Move-not_done (take_name first_name t) = refl
Move-not_done (take_name later_name t) = refl
Move-not_done (take_colon t) = refl
Move-not_done (next_element t) = refl
Move-not_done (next_member t) = refl
Move-not_done (open_array a lt t) = value_not_done a
Move-not_done (open_object a lt t) = value_not_done a
Move-not_done (close_array no_element t) = refl
Move-not_done (close_array behind_element t) = refl
Move-not_done (close_object no_member t) = refl
Move-not_done (close_object behind_member t) = refl

module _ (text : Bytes) (b : AreBytes text) (bound : ℕ) where
  -- What an advance up to the next string tells of the steps to the end.
  data Advances (w : Walker) (o : List Container) : Advance → Type 0 where
    fault : Advances w o refused
    ended : {w' : Walker} → Walks text bound o w.state w.i w'.i → Advances w o (value_ended w')
    halted :
        {w' : Walker} {at : ℕ} (o' : List Container)
        → Holds bound w' o'
        → ((j : ℕ) → strict_end text at ≡ some j → Fits o' w'.state)
        → ((j e : ℕ)
            → strict_end text at ≡ some j
            → Walks text bound o' w'.state j e
            → Walks text bound o w.state w.i e)
        → Advances w o (stopped w' at)

  behind :
      (w w' : Walker) (o o' : List Container) (a : Advance)
      → Move text bound o w.state w.i o' w'.state w'.i
      → Advances w' o' a
      → Advances w o a
  behind w w' o o' a m fault = fault
  behind w w' o o' a m (ended s) = ended (move m s)
  behind w w' o o' a m (halted o'' h f s) = halted o'' h f (λ j e t r. move m (s j e t r))

  advance_rounds-Advances :
      (rounds : ℕ) (w : Walker) (o : List Container)
      → Holds bound w o
      → Fits o w.state
      → Advances w o (advance_rounds rounds text stop_string w)
  unfolding advance_rounds
  advance_rounds-Advances zero w o h f = fault
  advance_rounds-Advances (suc rounds) w o h f = elim (Bool-cases (is_done w.state)) [
    | inl over ↦
        let out : advance_rounds (suc rounds) text stop_string w ≡ value_ended w = rw over in
        subst (Advances w o) (sym out) (ended (done_walk text bound o w.state w.i f over))
    | inr going ↦ elim (step-Round text bound w o b h f) [
      | inl none_left ↦
          let out : advance_rounds (suc rounds) text stop_string w ≡ refused =
            rw (going, none_left) in
          subst (Advances w o) (sym out) fault
      | inr (w', k, taken, outcome) ↦
          by_outcome w' k going taken outcome
            (λ o' h' f'. advance_rounds-Advances rounds w' o' h' f')
    ]
  ]
    where
      by_outcome :
          (w' : Walker) (k : ℕ)
          → is_done w.state ≡ false
          → step text w ≡ some (w', skip_ws text w.i, k)
          → Outcome text bound w o w' k
          → ((o' : List Container)
              → Holds bound w' o'
              → Fits o' w'.state
              → Advances w' o' (advance_rounds rounds text stop_string w'))
          → Advances w o (advance_rounds (suc rounds) text stop_string w)
      by_outcome w' k going taken (at_string h' token _ one) again =
          let out : advance_rounds (suc rounds) text stop_string w ≡ stopped w' (skip_ws text w.i) =
            rw (going, taken) in
          subst (Advances w o) (sym out) (
            halted o h' (λ j t. Move-Fits text bound (one j (token, t)) f)
              (λ j e t r. move (one j (token, t)) r))
      by_outcome w' k going taken (moved o' go h' one lt) again =
          let out : advance_rounds (suc rounds) text stop_string w
              ≡ advance_rounds rounds text stop_string w' =
            rw (going, taken) (rw go) in
          subst (Advances w o) (sym out)
            (behind w w' o o' _ one (again o' h' (Move-Fits text bound one f)))

  -- The rest of finish behind an advance.
  abbrev pub continue : ℕ → Advance → Option ℕ
  continue rounds refused = none
  continue rounds (value_ended w') = some w'.i
  continue rounds (stopped w' at) = elim (strict_end text at) [
    | none ↦ none
    | some end ↦ finish_rounds rounds text (record w' { i = end })
  ]

  finish_rounds-zero : (w : Walker) → finish_rounds zero text w ≡ none
  unfolding finish_rounds
  finish_rounds-zero w = refl

  pub finish_rounds-suc :
      (rounds : ℕ) (w : Walker)
      → finish_rounds (suc rounds) text w
        ≡ continue rounds (advance_rounds (suc (suc (length text))) text stop_string w)
  unfolding finish_rounds next advance
  finish_rounds-suc rounds w = from (next text w)
    where
      from :
          (a : Advance)
          → (elim a [
            | refused ↦ none
            | value_ended w' ↦ some w'.i
            | stopped w' at ↦ elim (strict_end text at) [
              | none ↦ none
              | some end ↦ finish_rounds rounds text (record w' { i = end })
            ]
          ])
            ≡ continue rounds a
      from refused = refl
      from (value_ended w') = refl
      from (stopped w' at) = refl

  pub resumed :
      (w : Walker) (o : List Container) (j : ℕ)
      → Holds bound w o
      → Holds bound (record w { i = j }) o
  resumed w o j h = record {
    bound_is = h.bound_is;
    depth_is = h.depth_is;
    inline = h.inline;
    room = h.room;
    kinds_are = h.kinds_are;
  }

  pub finish_sound :
      (rounds : ℕ) (w : Walker) (o : List Container) (e : ℕ)
      → Holds bound w o
      → Fits o w.state
      → finish_rounds rounds text w ≡ some e
      → Walks text bound o w.state w.i e
  finish_sound zero w o e h f t = cc (sym (finish_rounds-zero w) ∙ t)
  finish_sound (suc rounds) w o e h f t =
      from (advance_rounds (suc (suc (length text))) text stop_string w)
        (advance_rounds-Advances (suc (suc (length text))) w o h f)
        (sym (finish_rounds-suc rounds w) ∙ t)
        (λ w' o' h' f' t'. finish_sound rounds w' o' e h' f' t')
    where
      from :
          (a : Advance)
          → Advances w o a
          → continue rounds a ≡ some e
          → ((w' : Walker) (o' : List Container)
              → Holds bound w' o'
              → Fits o' w'.state
              → finish_rounds rounds text w' ≡ some e
              → Walks text bound o' w'.state w'.i e)
          → Walks text bound o w.state w.i e
      from a fault t again = cc
      from a (ended {w' = w'} s) t again =
          let same : w'.i ≡ e = cc in subst (Walks text bound o w.state w.i) same s
      from a (halted {w' = w'} {at = at} o' h' f' s) t again =
          elim (Option-cases (strict_end text at)) [
            | inl stop ↦ cc (rw (stop, continue) at t)
            | inr (j, string) ↦
                let t' : finish_rounds rounds text (record w' { i = j }) ≡ some e =
                  rw (string, continue) at t in
                s j e string (again (record w' { i = j }) o' (resumed w' o' j h') (f' j string) t')
          ]

  -- A walk to the end is what finish finds, in rounds enough for the bytes left.
  pub finish_complete :
      (o : List Container) (s : WalkState) (i e : ℕ)
      → Walks text bound o s i e
      → (w : Walker) (f rounds : ℕ) → w.state ≡ s
      → w.i ≡ i
      → Holds bound w o
      → suc (length text - i) ≤ f
      → length text - i ≤ rounds
      → continue rounds (advance_rounds f text stop_string w) ≡ some e
  unfolding advance_rounds
  finish_complete o s i e walked w zero rounds st at h lt lt' = absurd (omega arith)
  finish_complete o s i e walked w (suc f) rounds st at h lt lt' = rw (ap is_done st) (ap some at)
  finish_complete o s i e (move m r) w zero rounds st at h lt lt' = absurd (omega arith)
  finish_complete o s i e (move {o' = o'} {s' = s'} {i' = i'} m r) w (suc f) rounds st at h lt lt' =
      let going : is_done w.state ≡ false = ap is_done st ∙ Move-not_done m in
      let m' =
        subst (λ n. Move text bound o w.state n o' s' i') (sym at)
          (subst (λ t. Move text bound o t i o' s' i') (sym st) m) in
      elim (Move-Goes text b bound w.max_depth w.kinds w.i w.depth o o' w.state s' i' h m') [
        | by_step k t stops further within ↦
            let out : advance_rounds (suc f) text stop_string w
                ≡ advance_rounds f text stop_string t.walker' =
              rw (going, t.step_is) (rw stops) in
            ap (continue rounds) out
            ∙ finish_complete o' s' i' e r t.walker' f rounds t.state_is t.index_is t.holds
                (omega arith) (omega arith)
        | by_string t string further within ↦
            let out : advance_rounds (suc f) text stop_string w
                ≡ stopped t.walker' (skip_ws text w.i) =
              rw (going, t.step_is) in
            let before : suc (rounds - 1) ≡ rounds = omega arith in
            let w' = record t.walker' { i = i' } in
            let onward : continue rounds (stopped t.walker' (skip_ws text w.i))
                ≡ finish_rounds rounds text w' =
              rw (string, continue) in
            ap (continue rounds) out
            ∙ onward
            ∙ ap (λ n. finish_rounds n text w') (sym before)
            ∙ finish_rounds-suc (rounds - 1) w'
            ∙ finish_complete o' s' i' e r w' (suc (suc (length text))) (rounds - 1) t.state_is refl
                (resumed t.walker' o' i' t.holds) (omega arith) (omega arith)
      ]

  -- finish from the top finds the end of exactly the values of the grammar.
  pub finish_iff :
      (w : Walker) (e : ℕ)
      → Holds bound w []
      → w.state ≡ walk_value
      → (finish text w ≡ some e) ↔ Value text bound w.i e
  unfolding finish
  finish_iff w e h st = (sound, complete)
    where
      sound : finish text w ≡ some e → Value text bound w.i e
      sound t =
          let f : Fits [] w.state = subst (Fits []) (sym st) tt in
          let walks = finish_sound (suc (suc (length text))) w [] e h f t in
          (Walks-iff text bound w.i e).0 (subst (λ s. Walks text bound [] s w.i e) st walks)

      complete : Value text bound w.i e → finish text w ≡ some e
      complete v =
          finish_rounds-suc (suc (length text)) w
          ∙ finish_complete [] walk_value w.i e ((Walks-iff text bound w.i e).1 v) w
              (suc (suc (length text))) (suc (length text)) st refl h (omega arith) (omega arith)
