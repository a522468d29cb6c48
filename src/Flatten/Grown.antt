-- ===== src/Flatten/Grown.antt =====
-- FlattenObject only appends to the buffer, so it can take back what it wrote.
use go_jsonfast.Base.{
  ℕ, zero, suc, ◌-◌, Bool, true, false, ◌&&◌, ◌||◌, Option, some, none, [], ◌≡◌, refl, ap, sym,
  subst, ◌∙◌, append-nil, ◌==◌, if◌then◌else◌, inl, inr, Bool-cases, Option-cases, pos, length,
  take, take-append, byte_at, Bytes,
}
use go_jsonfast.Scan.{skip_ws}
use go_jsonfast.Strings.{strict_end}
use go_jsonfast.Decode.{stands, strict_token}
use go_jsonfast.Builder.{Builder}
use go_jsonfast.Iterate.{Failure}
use go_jsonfast.Walk.{Walker, Advance, new_walker, refused, value_ended, stopped, token}
use go_jsonfast.Walks.{is_colon}
use go_jsonfast.Names.{OpenObjects}
use go_jsonfast.Flatten.{
  Flattener, State, value, file_name, member, text_value, leaf_token, object, file_leaf, beside,
  take_token, take_at, run_rounds, new_flattener, max_flatten_depth, flatten_object,
}
use go_jsonfast.Flatten.Written.{
  Extends, Grown, Kept, file_name-Kept, value-Grown, open_leaf-Grown, close_leaf-Grown, object-Kept,
  file_leaf-Kept,
}

module _ (base : Bytes) where
  -- A result that holds a flattener, and is one that has grown.
  abbrev Leaves : Option (Walker × Flattener) → Type 0
  Leaves none = Unit {0}
  Leaves (some (w, f)) = Grown base f

  abbrev Takes : Option (Walker × State) → Type 0
  Takes none = Unit {0}
  Takes (some (w, s)) = Kept base s

  member-Takes : (text : Bytes) (w : Walker) (s : State) → Kept base s → Takes (member text w s)
  unfolding member
  member-Takes text w s h = elim (Option-cases (strict_token text (w.i - 1))) [
    | inl e ↦ let out : member text w s ≡ none = rw (e, member) in subst Takes (sym out) tt
    | inr ((v, j), e) ↦
        let out : member text w s ≡ some (record w { i = j }, file_name text (w.i - 1) j v s) =
          rw (e, member) in
        subst Takes (sym out) (file_name-Kept base text (w.i - 1) j v s h)
  ]

  text_value-Leaves :
      (text : Bytes) (w : Walker) (f : Flattener) → Grown base f → Leaves (text_value text w f)
  unfolding text_value
  text_value-Leaves text w f h = elim (Option-cases (strict_end text (w.i - 1))) [
    | inl e ↦ let out : text_value text w f ≡ none = rw (e, text_value) in subst Leaves (sym out) tt
    | inr (j, e) ↦
        let out : text_value text w f ≡ some (record w { i = j }, value text (w.i - 1) j f) =
          rw (e, text_value) in
        subst Leaves (sym out) (value-Grown base text (w.i - 1) j f h)
  ]

  if-Leaves :
      (c : Bool) (r r' : Option (Walker × Flattener))
      → Leaves r
      → Leaves r'
      → Leaves (if c then r else r')
  if-Leaves true r r' h h' = h
  if-Leaves false r r' h h' = h'

  if-Takes :
      (c : Bool) (r r' : Option (Walker × State)) → Takes r → Takes r' → Takes (if c then r else r')
  if-Takes true r r' h h' = h
  if-Takes false r r' h h' = h'

  leaf_token-Leaves :
      (text : Bytes) (w : Walker) (at c : ℕ) (f : Flattener)
      → Grown base f
      → Leaves (leaf_token text w at c f)
  unfolding leaf_token
  leaf_token-Leaves text w at c f h = if-Leaves (c == b'"') _ _ (text_value-Leaves text w f h) (
      if-Leaves (c == b'[') _ _ (open_leaf-Grown base c f h) (
        if-Leaves (c == b']') _ _ (close_leaf-Grown base c f h) (value-Grown base text at w.i f h)))

  beside-Takes :
      (around : OpenObjects) (r : Option (Walker × Flattener)) → Leaves r → Takes (beside around r)
  beside-Takes around none h = tt
  beside-Takes around (some (w, f)) h = h

  take_token-Takes :
      (text : Bytes) (w : Walker) (at c : ℕ) (s : State)
      → Kept base s
      → Takes (take_token text w at c s)
  unfolding take_token
  take_token-Takes text w at c s h =
      if-Takes (c == b'"' && is_colon w.state) _ _ (member-Takes text w s h) (
        if-Takes (c == b'{' || c == b'}') _ _ (object-Kept base w c s h) (
          beside-Takes (file_leaf s).0 _
            (leaf_token-Leaves text w at c (file_leaf s).1 (file_leaf-Kept base s h))))

  take_at-Takes :
      (text : Bytes) (w : Walker) (at : ℕ) (s : State) → Kept base s → Takes (take_at text w at s)
  unfolding take_at
  take_at-Takes text w at s h = elim (Option-cases (byte_at text at)) [
    | inl e ↦
        let out : take_at text w at s ≡ some (w, s) = rw (e, take_at) in subst Takes (sym out) h
    | inr (c, e) ↦
        let out : take_at text w at s ≡ take_token text w at c s = rw (e, take_at) in
        subst Takes (sym out) (take_token-Takes text w at c s h)
  ]

  module _ {ℓ} (E : Type ℓ) (text : Bytes) where
    run_rounds-Grown :
        (rounds : ℕ) (w : Walker) (s : State)
        → Kept base s
        → Grown base (run_rounds {E = E} rounds text w s).0
    unfolding run_rounds
    run_rounds-Grown zero w s h = h
    run_rounds-Grown (suc rounds) w s h = elim (Bool-cases s.1.repeated) [
      | inl repeated ↦
          let out : (run_rounds {E = E} (suc rounds) text w s).0.b ≡ s.1.b =
            rw (repeated, run_rounds) in
          subst (λ b. Extends base b.buf) (sym out) h
      | inr going ↦ by going (token text w) refl (λ w' s' k. run_rounds-Grown rounds w' s' k)
    ]
      where
        by :
            s.1.repeated ≡ false
            → (a : Advance) → token text w ≡ a
            → ((w' : Walker) (s' : State)
                → Kept base s'
                → Grown base (run_rounds {E = E} rounds text w' s').0)
            → Grown base (run_rounds {E = E} (suc rounds) text w s).0
        by going refused out again =
            let r : (run_rounds {E = E} (suc rounds) text w s).0.b ≡ s.1.b =
              rw (going, run_rounds) (rw out) in
            subst (λ b. Extends base b.buf) (sym r) h
        by going (value_ended w') out again =
            let r : (run_rounds {E = E} (suc rounds) text w s).0.b ≡ s.1.b =
              rw (going, run_rounds) (rw out) in
            subst (λ b. Extends base b.buf) (sym r) h
        by going (stopped w' at) out again =
            taken (take_at text w' at s) refl (take_at-Takes text w' at s h)
          where
            taken :
                (r : Option (Walker × State))
                → take_at text w' at s ≡ r
                → Takes r
                → Grown base (run_rounds {E = E} (suc rounds) text w s).0
            taken none e h' =
                let r : (run_rounds {E = E} (suc rounds) text w s).0.b ≡ s.1.b =
                  rw (going, run_rounds) (rw out (rw e)) in
                subst (λ b. Extends base b.buf) (sym r) h
            taken (some (w'', s')) e h' =
                let r : (run_rounds {E = E} (suc rounds) text w s).0.b
                    ≡ (run_rounds {E = E} rounds text w'' s').0.b =
                  rw (going, run_rounds) (rw out (rw e)) in
                subst (λ b. Extends base b.buf) (sym r) (again w'' s' h')

-- Where FlattenObject fails, the Builder is as it was; where it does not, what the Builder held
-- stands in front of what was written.
pub flatten_object-Extends {ℓ} :
    (E : Type ℓ) (builder : Builder) (text : Bytes)
    → ((e : Failure E)
        → (flatten_object builder text).1 ≡ some e
        → (flatten_object {E = E} builder text).0 ≡ builder)
      × ((flatten_object {E = E} builder text).1 ≡ none
          → Extends builder.buf (flatten_object {E = E} builder text).0.buf)
unfolding flatten_object
flatten_object-Extends E builder text =
    let r =
      run_rounds {E = E} (suc (suc (length text))) text (new_walker text (pos max_flatten_depth))
        (some [], new_flattener builder) in
    let grown : Extends builder.buf r.0.b.buf =
      run_rounds-Grown builder.buf E text (suc (suc (length text)))
        (new_walker text (pos max_flatten_depth)) (some [], new_flattener builder)
        ([], sym (append-nil builder.buf)) in
    elim (Bool-cases (stands text (skip_ws text 0) b'{')) [
      | inr no_object ↦
          let same : (flatten_object {E = E} builder text).0 ≡ builder =
            rw (no_object, flatten_object) in
          (λ e h. same, λ h. ([], ap (λ b. b.buf) same ∙ sym (append-nil builder.buf)))
      | inl object ↦ elim (Option-cases r.1) [
        | inl fine ↦
            let out : flatten_object {E = E} builder text ≡ (r.0.b, none) =
              rw (object, flatten_object) (rw fine) in
            (λ e h. cc, λ h. subst (λ z. Extends builder.buf z.0.buf) (sym out) grown)
        | inr (x, failing) ↦
            let out : flatten_object {E = E} builder text ≡ (
              record { buf = take (length builder.buf) r.0.b.buf; need_sep = builder.need_sep },
              some x,
            ) =
              rw (object, flatten_object) (rw failing) in
            let back : take (length builder.buf) r.0.b.buf ≡ builder.buf =
              ap (take (length builder.buf)) grown.1 ∙ take-append builder.buf grown.0 in
            (
              λ e h.
                  ap (λ z. z.0) out
                  ∙ ap (λ z. record { buf = z; need_sep = builder.need_sep }) back,
              λ h. cc,
            )
      ]
    ]
