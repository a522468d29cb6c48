-- ===== src/Walks/Objects/Loops.antt =====
-- The loops over the members of an object against the members of the grammar.
use go_jsonfast.Base.{
  ℕ, zero, suc, ◌-◌, ◌≤◌, Option, some, none, ◌≡◌, ◌≢◌, ◌⊎◌, refl, ap, sym, subst, ◌∙◌, arith, ◌==◌,
  ==_iff, inl, inr, Bool-cases, Option-cases, length, byte_at, Bytes,
}
use go_jsonfast.Swar.Lanes.{AreBytes}
use go_jsonfast.Scan.{skip_ws}
use go_jsonfast.Cursor.Lookups.{skip_ws-twice}
use go_jsonfast.Walk.Tokens.{skip_ws-ge}
use go_jsonfast.Walk.Grammar.{Token, after}
use go_jsonfast.Iterate.{
  ScanStep, step_item, step_end, step_malformed, Failure, malformed, duplicate_name, failed,
  close_err, next_item,
}
use go_jsonfast.Walks.Objects.Members.{
  MemberAt, Ends, Rest, Ends-past, MemberAt-forward, MemberAt-inside, Ends-of_member, Ends-member,
  MemberAt-same,
}

-- What a walk tells of whether its input is what it expects.
abbrev pub Says {ℓ} : {E : Type ℓ} → Type 0 → Option (Failure E) → Type 0
Says P none = P
Says P (some malformed) = P → ⊥
Says P (some duplicate_name) = P
Says P (some (failed e)) = Unit {0}

pub Says-iff {ℓ} :
    {E : Type ℓ} {P Q : Type 0} (r : Option (Failure E)) → (P → Q) → (Q → P) → Says P r → Says Q r
Says-iff none f g h = f h
Says-iff (some malformed) f g h = λ q. h (g q)
Says-iff (some duplicate_name) f g h = f h
Says-iff (some (failed e)) f g h = tt

module _ (text : Bytes) where
  -- What next_item finds behind an item of an object.
  pub data Follows (e : ℕ) : ScanStep → Type 0 where
    brace : Token text e b'}' → Follows e (step_end (skip_ws text e))
    comma : Token text e b',' → Follows e (step_item (skip_ws text (after text e)))
    neither : (Token text e b'}' → ⊥) → (Token text e b',' → ⊥) → Follows e step_malformed

  pub next_item-Follows : (e : ℕ) → Follows e (next_item text e b'}')
  unfolding next_item
  next_item-Follows e = elim (Option-cases (byte_at text (skip_ws text e))) [
    | inl none' ↦
        let out : next_item text e b'}' ≡ step_malformed = rw (none', next_item) in
        subst (Follows e) (sym out) (neither (λ t. cc) (λ t. cc))
    | inr (c, at) ↦ elim (Bool-cases (c == b'}')) [
      | inl closes ↦
          let out : next_item text e b'}' ≡ step_end (skip_ws text e) =
            rw (at, next_item) (rw closes) in
          subst (Follows e) (sym out) (brace (at ∙ ap some ((==_iff c b'}').0 closes)))
      | inr goes ↦ elim (Bool-cases (c == b',')) [
        | inl more ↦
            let out : next_item text e b'}' ≡ step_item (skip_ws text (after text e)) =
              rw (at, next_item) (rw (goes, more)) in
            subst (Follows e) (sym out) (comma (at ∙ ap some ((==_iff c b',').0 more)))
        | inr stops ↦
            let out : next_item text e b'}' ≡ step_malformed =
              rw (at, next_item) (rw (goes, stops)) in
            let no_brace : c ≢ b'}' = λ z. cc ((==_iff c b'}').1 z) in
            let no_comma : c ≢ b',' = λ z. cc ((==_iff c b',').1 z) in
            subst (Follows e) (sym out) (neither (λ t. no_brace cc) (λ t. no_comma cc))
      ]
    ]
  ]

  -- The end of the object, and of the document.
  pub close_err-Says {ℓ} :
      (E : Type ℓ) (e : ℕ)
      → Says {E = E}
          (skip_ws text (after text e) ≡ length text)
          (close_err text (step_end (skip_ws text e)))
  unfolding close_err
  close_err-Says E e = elim (Bool-cases (skip_ws text (after text e) == length text)) [
    | inl all ↦
        let out : close_err {E = E} text (step_end (skip_ws text e)) ≡ none = rw all in
        subst (Says (skip_ws text (after text e) ≡ length text)) (sym out) ((==_iff _ _).0 all)
    | inr more ↦
        let out : close_err {E = E} text (step_end (skip_ws text e)) ≡ some malformed = rw more in
        subst (Says (skip_ws text (after text e) ≡ length text)) (sym out)
          (λ z. cc ((==_iff _ _).1 z))
  ]

brace_no_comma : {o : Option ℕ} → o ≡ some b'}' → o ≡ some b',' → ⊥
brace_no_comma h h' = cc

module _ (text : Bytes) (b : AreBytes text) (n e : ℕ) where
  all_after : Token text e b'}' → Rest text b n e → skip_ws text (after text e) ≡ length text
  all_after t (inl r) = r.1
  all_after t (inr r) = absurd (brace_no_comma t r.0)

  Ends-after : Token text e b',' → Rest text b n e → Ends text b n (skip_ws text (after text e))
  Ends-after t (inl r) = absurd (brace_no_comma r.0 t)
  Ends-after t (inr r) =
      Ends-past text b n (after text e) (skip_ws text (after text e))
        (sym (skip_ws-twice text (after text e))) r.1

  neither-Rest : (Token text e b'}' → ⊥) → (Token text e b',' → ⊥) → Rest text b n e → ⊥
  neither-Rest not_brace not_comma (inl r) = not_brace r.0
  neither-Rest not_brace not_comma (inr r) = not_comma r.0

  brace-Says {ℓ} :
      {E : Type ℓ}
      → Token text e b'}'
      → (r : Option (Failure E)) → Says (skip_ws text (after text e) ≡ length text) r
      → Says (Rest text b n e) r
  brace-Says t r h = Says-iff r (λ all. inl (t, all)) (all_after t) h

  comma-Says {ℓ} :
      {E : Type ℓ}
      → Token text e b','
      → (r : Option (Failure E)) → Says (Ends text b n (skip_ws text (after text e))) r
      → Says (Rest text b n e) r
  comma-Says t r h =
      Says-iff r
        (λ ends. inr (
          t,
          Ends-past text b n (skip_ws text (after text e)) (after text e)
              (skip_ws-twice text (after text e)) ends,
        ))
        (Ends-after t) h

-- A loop over members, as a function of the rounds left, a state and the next step.
module _ {ℓ κ} {S : Type ℓ} {E : Type κ} (text : Bytes) (b : AreBytes text) (n : ℕ)
    (run : ℕ → S → ScanStep → Option (Failure E))
    (item : (r : ℕ) (s : S) (i : ℕ)
      → skip_ws text i ≡ i
      → Says (Ends text b n i) (run (suc r) s (step_item i))
        ⊎ ((e : ℕ) × (s' : S) × MemberAt text b n i e
            × (run (suc r) s (step_item i) ≡ run r s' (next_item text e b'}'))))
    (close : (r : ℕ) (s : S) (e : ℕ)
      → Says
          (skip_ws text (after text e) ≡ length text)
          (run (suc r) s (step_end (skip_ws text e))))
    (bad : (r : ℕ) (s : S) → run (suc r) s step_malformed ≡ some malformed) where
  -- Behind a member, by the step that follows; where an item does, by what the loop says of it.
  behind-Says :
      (r : ℕ) (s : S) (e : ℕ) (step : ScanStep)
      → Follows text e step
      → ((i : ℕ)
          → skip_ws text i ≡ i
          → i ≡ skip_ws text (after text e)
          → Says (Ends text b n i) (run (suc r) s (step_item i)))
      → Says (Rest text b n e) (run (suc r) s step)
  behind-Says r s e step (brace t) again = brace-Says text b n e t _ (close r s e)
  behind-Says r s e step (comma t) again =
      comma-Says text b n e t _
        (again (skip_ws text (after text e)) (skip_ws-twice text (after text e)) refl)
  behind-Says r s e step (neither not_brace not_comma) again =
      subst (Says (Rest text b n e)) (sym (bad r s)) (neither-Rest text b n e not_brace not_comma)

  -- Rounds enough for the bytes left take the loop to the end.
  pub run-Says :
      (r : ℕ) (s : S) (i : ℕ)
      → skip_ws text i ≡ i
      → suc (length text - i) ≤ r
      → Says (Ends text b n i) (run r s (step_item i))
  run-Says zero s i fixed le = absurd (omega arith)
  run-Says (suc r) s i fixed le = elim (item r s i fixed) [
    | inl said ↦ said
    | inr (e, s', m, on) ↦
        let further = MemberAt-forward text b n i e m in
        let inside = MemberAt-inside text b n i e m in
        let before : suc (r - 1) ≡ r = omega (arith, le, inside) in
        let rest : Says (Rest text b n e) (run r s' (next_item text e b'}')) =
          subst (λ z. Says (Rest text b n e) (run z s' (next_item text e b'}'))) before
            (behind-Says (r - 1) s' e (next_item text e b'}') (next_item-Follows text e)
              (λ k kept at.
                subst (λ z. Says (Ends text b n k) (run z s' (step_item k))) (sym before)
                  (run-Says r s' k kept (
                    omega (
                      arith,
                      at,
                      skip_ws-ge text (after text e),
                      skip_ws-ge text e,
                      further,
                      inside,
                      le,
                    ))))) in
        subst (Says (Ends text b n i)) (sym on)
          (Says-iff _ (Ends-of_member text b n i e m) (λ ends. by_member i e m ends) rest)
  ]
    where
      by_member : (i e : ℕ) → MemberAt text b n i e → Ends text b n i → Rest text b n e
      by_member i e m ends =
          let (e', m', rest) = Ends-member text b n i ends in
          subst (Rest text b n) (MemberAt-same text b n i e' e m' m) rest

  -- Behind a member, with rounds enough.
  pub run_behind-Says :
      (r : ℕ) (s : S) (e : ℕ)
      → suc (length text - e) ≤ r
      → Says (Rest text b n e) (run (suc r) s (next_item text e b'}'))
  run_behind-Says r s e le =
      behind-Says r s e (next_item text e b'}') (next_item-Follows text e) (λ k kept at.
        run-Says (suc r) s k kept
          (omega (arith, at, skip_ws-ge text (after text e), skip_ws-ge text e, le)))
