-- ===== src/Walks/Verdict.antt =====
-- WalkStrings and WalkTokens refuse as malformed what ValidUTF8 refuses, and nothing else.
use go_jsonfast.Base.{
  ℕ, Bool, true, false, Option, some, none, ◌≡◌, refl, sym, subst, ◌∙◌, ◌==◌, inl, inr, Bool-cases,
  Option-cases, length, Bytes,
}
use go_jsonfast.Scan.{skip_ws}
use go_jsonfast.Iterate.{Failure, malformed, duplicate_name, failed}
use go_jsonfast.Walk.{Walker, finish}
use go_jsonfast.Walks.{walk_fault, rest}
use go_jsonfast.Walks.Onward.{Onward}

-- Whether finish from a walker, and whitespace, take the rest of the text.
unfoldable pub whole : Bytes → Walker → Bool
whole text w = elim (finish text w) [ none ↦ false | some end ↦ skip_ws text end == length text ]

-- What a walk tells of a text that is valid or not: a repeated name only in a valid one, and a failure
-- of the caller's function in either.
abbrev pub Tells {ℓ} : {E : Type ℓ} → Bool → Option (Failure E) → Type 0
Tells valid none = valid ≡ true
Tells valid (some malformed) = valid ≡ false
Tells valid (some duplicate_name) = valid ≡ true
Tells valid (some (failed e)) = Unit {0}

pub whole-none : (text : Bytes) (w : Walker) → finish text w ≡ none → whole text w ≡ false
unfolding whole
whole-none text w h = rw (h, whole)

pub whole-some :
    (text : Bytes) (w : Walker) (end : ℕ)
    → finish text w ≡ some end
    → whole text w ≡ (skip_ws text end == length text)
unfolding whole
whole-some text w end h = rw (h, whole)

pub whole-same :
    (text : Bytes) (w w' : Walker) → finish text w ≡ finish text w' → whole text w ≡ whole text w'
unfolding whole
whole-same text w w' h = rw (h, whole) refl

module _ {ℓ} (E : Type ℓ) (text : Bytes) (w : Walker) where
  pub walk_fault-Tells :
      (end : ℕ) → finish text w ≡ some end → Tells {E = E} (whole text w) (walk_fault text end)
  walk_fault-Tells end h = elim (Bool-cases (skip_ws text end == length text)) [
    | inl all ↦
        let out : walk_fault {E = E} text end ≡ none = unfold walk_fault in rw all in
        subst (Tells (whole text w)) (sym out) (whole-some text w end h ∙ all)
    | inr more ↦
        let out : walk_fault {E = E} text end ≡ some malformed = unfold walk_fault in rw more in
        subst (Tells (whole text w)) (sym out) (whole-some text w end h ∙ more)
  ]

  pub rest-Tells : Tells {E = E} (whole text w) (some (rest text w))
  rest-Tells = elim (Option-cases (finish text w)) [
    | inl e ↦
        let out : rest {E = E} text w ≡ malformed = unfold rest in rw (e, rest) in
        subst (λ r. Tells (whole text w) (some r)) (sym out) (whole-none text w e)
    | inr (end, e) ↦ elim (Bool-cases (skip_ws text end == length text)) [
      | inl all ↦
          let out : rest {E = E} text w ≡ duplicate_name =
            unfold rest walk_fault in rw (e, rest) (rw all) in
          subst (λ r. Tells (whole text w) (some r)) (sym out) (whole-some text w end e ∙ all)
      | inr more ↦
          let out : rest {E = E} text w ≡ malformed =
            unfold rest walk_fault in rw (e, rest) (rw more) in
          subst (λ r. Tells (whole text w) (some r)) (sym out) (whole-some text w end e ∙ more)
    ]
  ]

-- From a walker that a walk moved.
pub Onward-Tells {ℓ} :
    {E : Type ℓ} (text : Bytes) (bound : ℕ) (w w' : Walker) (r : Option (Failure E))
    → Onward text bound w w'
    → Tells (whole text w') r
    → Tells (whole text w) r
Onward-Tells text bound w w' r m h = subst (λ v. Tells v r) (sym (whole-same text w w' m.same)) h
