-- ===== src/Flatten/Moves.antt =====
-- What FlattenObject makes of a token moves the walker on, or finds no string.
use go_jsonfast.Base.{
  ℕ, ◌-◌, false, ◌||◌, Option, some, none, ◌≡◌, ap, sym, subst, ◌∙◌, ◌==◌, ==_iff, inl, inr,
  Bool-cases, Option-cases, byte_at, Bytes,
}
use go_jsonfast.Swar.Lanes.{AreBytes}
use go_jsonfast.Strings.{strict_end}
use go_jsonfast.Decode.{strict_token}
use go_jsonfast.Names.{OpenObjects}
use go_jsonfast.Walk.{Walker, finish}
use go_jsonfast.Walk.Resume.{AtString, AtToken}
use go_jsonfast.Walks.{is_colon}
use go_jsonfast.Walks.Onward.{
  Onward, past_token, no_string, past_string, past_token_string, no_token_string,
}
use go_jsonfast.Flatten.{
  Flattener, State, file_name, member, text_value, leaf_token, file_leaf, object, take_token,
  take_at, beside, value, open_leaf, close_leaf,
}

abbrev pub Keeps {ℓ} : {X : Type ℓ} → Bytes → ℕ → Walker → Option (Walker × X) → Type 0
Keeps text bound w none = finish text w ≡ none
Keeps text bound w (some (w', x)) = Onward text bound w w'

-- Every other token leaves the walker where it is.
take_token-stays :
    (text : Bytes) (w' : Walker) (at c : ℕ) (s : State)
    → (c == b'"') ≡ false
    → (s' : State) × (take_token text w' at c s ≡ some (w', s'))
unfolding take_token leaf_token
take_token-stays text w' at c s no_quote =
    let (around, f) = file_leaf s in
    elim (Bool-cases (c == b'{' || c == b'}')) [
      | inl brace ↦ (object w' c s, rw no_quote (rw brace))
      | inr no_brace ↦ elim (Bool-cases (c == b'[')) [
        | inl opens ↦ ((around, open_leaf c f), rw no_quote (rw (no_brace, opens)))
        | inr no_opener ↦ elim (Bool-cases (c == b']')) [
          | inl closes ↦ ((around, close_leaf c f), rw no_quote (rw (no_brace, no_opener, closes)))
          | inr scalar ↦
              ((around, value text at w'.i f), rw no_quote (rw (no_brace, no_opener, scalar)))
        ]
      ]
    ]

beside-Keeps :
    (text : Bytes) (bound : ℕ) (w : Walker) (around : OpenObjects) (r : Option (Walker × Flattener))
    → Keeps text bound w r
    → Keeps text bound w (beside around r)
beside-Keeps text bound w around none h = h
beside-Keeps text bound w around (some (w', f)) h = h

module _ (text : Bytes) (b : AreBytes text) (bound : ℕ) {w w' : Walker} {at : ℕ} where
  member-Keeps : (s : State) → AtString text bound w w' at → Keeps text bound w (member text w' s)
  unfolding member
  member-Keeps s q = elim (Option-cases (strict_token text (w'.i - 1))) [
    | inl e ↦
        let out : member text w' s ≡ none = rw (e, member) in
        subst (Keeps text bound w) (sym out) (no_token_string text b bound q e)
    | inr ((v, j), e) ↦
        let out : member text w' s ≡ some (record w' { i = j }, file_name text (w'.i - 1) j v s) =
          rw (e, member) in
        subst (Keeps text bound w) (sym out) (past_token_string text b bound q v j e)
  ]

  text_value-Keeps :
      (f : Flattener) → AtString text bound w w' at → Keeps text bound w (text_value text w' f)
  unfolding text_value
  text_value-Keeps f q = elim (Option-cases (strict_end text (w'.i - 1))) [
    | inl e ↦
        let out : text_value text w' f ≡ none = rw (e, text_value) in
        subst (Keeps text bound w) (sym out) (no_string text b bound q e)
    | inr (j, e) ↦
        let out : text_value text w' f ≡ some (record w' { i = j }, value text (w'.i - 1) j f) =
          rw (e, text_value) in
        subst (Keeps text bound w) (sym out) (past_string text b bound q j e)
  ]

  pub take_string-Keeps :
      (s : State) → AtString text bound w w' at → Keeps text bound w (take_at text w' at s)
  unfolding take_at take_token leaf_token
  take_string-Keeps s q =
      let (around, f) = file_leaf s in
      elim (Bool-cases (is_colon w'.state)) [
        | inl name ↦
            let out : take_at text w' at s ≡ member text w' s = rw (q.quote, take_at) (rw name) in
            subst (Keeps text bound w) (sym out) (member-Keeps s q)
        | inr no_name ↦
            let r = text_value text w' f in
            let out : take_at text w' at s ≡ beside around r = rw (q.quote, take_at) (rw no_name) in
            subst (Keeps text bound w) (sym out)
              (beside-Keeps text bound w around r (text_value-Keeps f q))
      ]

  pub take_other-Keeps :
      {stops : ℕ} (s : State)
      → AtToken text bound stops w w' at
      → Keeps text bound w (take_at text w' at s)
  unfolding take_at
  take_other-Keeps s t = elim (Option-cases (byte_at text at)) [
    | inl e ↦
        let out : take_at text w' at s ≡ some (w', s) = rw (e, take_at) in
        subst (Keeps text bound w) (sym out) (past_token text b bound t)
    | inr (c, e) ↦
        let no_quote : (c == b'"') ≡ false = elim (Bool-cases (c == b'"')) [
          | inl q ↦ absurd (t.no_quote (e ∙ ap some ((==_iff c b'"').0 q)))
          | inr q ↦ q
        ] in
        let (s', out) = take_token-stays text w' at c s no_quote in
        let out' : take_at text w' at s ≡ take_token text w' at c s = rw (e, take_at) in
        subst (Keeps text bound w) (sym (out' ∙ out)) (past_token text b bound t)
  ]
