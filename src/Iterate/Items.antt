-- ===== src/Iterate/Items.antt =====
-- The walks of iterate.go as a run of the caller's function over the items of the container.
use go_jsonfast.Base.{
  ℕ, zero, suc, Option, some, none, List, [], ◌∷◌, ◌++◌, ◌≡◌, refl, sym, ap, ◌∙◌, Bytes, inl, inr,
  Option-cases, append_assoc, append-nil,
}
use go_jsonfast.Iterate.{
  ScanStep, step_item, step_end, step_malformed, Failure, malformed, failed, Visit, stopped, called,
  next_item, walk_items,
}

-- A caller's function run over items, up to its first error, and then the end of the walk.
abbrev pub feed {ℓ} :
    {S E A : Type ℓ}
    → (S → A → S × Option E)
    → S
    → List A
    → Option (Failure E)
    → S × Option (Failure E)
feed fn s [] end = (s, end)
feed fn s (x ∷ xs) end =
    let (s', r) = fn s x in elim r [ none ↦ feed fn s' xs end | some e ↦ (s', some (failed e)) ]

pub feed-on {ℓ} :
    {S E A : Type ℓ} (fn : S → A → S × Option E) (s : S) (x : A) (xs : List A)
    (end : Option (Failure E))
    → (fn s x).1 ≡ none
    → feed fn s (x ∷ xs) end ≡ feed fn (fn s x).0 xs end
feed-on fn s x xs end h = rw (h, feed)

pub feed-stop {ℓ} :
    {S E A : Type ℓ} (fn : S → A → S × Option E) (s : S) (x : A) (xs : List A)
    (end : Option (Failure E)) {e : E}
    → (fn s x).1 ≡ some e
    → feed fn s (x ∷ xs) end ≡ ((fn s x).0, some (failed e))
feed-stop fn s x xs end h = rw (h, feed)

-- The visit of a walk that reads an item and hands it out.
abbrev pub visit_of {ℓ} :
    {S E A : Type ℓ} → (ℕ → Option (A × ℕ)) → (S → A → S × Option E) → S → ℕ → Visit S E
visit_of item fn s i = elim (item i) [
  | none ↦ stopped s malformed
  | some (a, end) ↦ called (fn s a) end
]

module _ {ℓ} {A : Type ℓ} (text : Bytes) (closer : ℕ) (item : ℕ → Option (A × ℕ)) where
  -- The items from a step on, and the step that ends the walk.
  unfoldable pub items : ℕ → ScanStep → List A × ScanStep
  items zero step = ([], step_malformed)
  items (suc rounds) (step_item i) = elim (item i) [
    | none ↦ ([], step_malformed)
    | some (a, end) ↦ (let (xs, last) = items rounds (next_item text end closer) in (a ∷ xs, last))
  ]
  items (suc rounds) step = ([], step)

  pub items-none :
      (rounds i : ℕ) → item i ≡ none → items (suc rounds) (step_item i) ≡ ([], step_malformed)
  unfolding items
  items-none rounds i h = rw (h, items)

  pub items-some :
      (rounds i : ℕ) {a : A} {end : ℕ}
      → item i ≡ some (a, end)
      → items (suc rounds) (step_item i) ≡ (
        a ∷ (items rounds (next_item text end closer)).0,
        (items rounds (next_item text end closer)).1,
      )
  unfolding items
  items-some rounds i h = rw (h, items)

  pub items-end : (rounds i : ℕ) → items (suc rounds) (step_end i) ≡ ([], step_end i)
  unfolding items
  items-end rounds i = refl

  pub items-malformed : (rounds : ℕ) → items rounds step_malformed ≡ ([], step_malformed)
  unfolding items
  items-malformed zero = refl
  items-malformed (suc rounds) = refl

  module _ {S E : Type ℓ} (fn : S → A → S × Option E) (visit : S → ℕ → Visit S E)
      (visits : (s : S) (i : ℕ) → visit s i ≡ visit_of item fn s i)
      (finish : ScanStep → Option (Failure E))
      (fails : finish step_malformed ≡ some malformed) where
    -- A walk hands the items out in order.
    pub walk_items-feed :
        (rounds : ℕ) (s : S) (step : ScanStep)
        → walk_items rounds text closer visit finish s step
          ≡ feed fn s (items rounds step).0 (finish (items rounds step).1)
    unfolding walk_items items
    walk_items-feed zero s step = ap (λ f. (s, f)) (sym fails)
    walk_items-feed (suc rounds) s (step_end i) = refl
    walk_items-feed (suc rounds) s step_malformed = refl
    walk_items-feed (suc rounds) s (step_item i) = elim (Option-cases (item i)) [
      | inl h ↦ rw (visits s i, walk_items) (rw (h, items) (ap (λ f. (s, f)) (sym fails)))
      | inr ((a, end), h) ↦
          rw (visits s i, walk_items)
            (rw (h, items)
              (elim (Option-cases (fn s a).1) [
                | inl goes ↦
                    rw goes (walk_items-feed rounds (fn s a).0 (next_item text end closer))
                    ∙ sym (
                        feed-on fn s a (items rounds (next_item text end closer)).0
                          (finish (items rounds (next_item text end closer)).1) goes)
                | inr (e, stops) ↦
                    rw stops refl
                    ∙ sym (
                        feed-stop fn s a (items rounds (next_item text end closer)).0
                          (finish (items rounds (next_item text end closer)).1) stops)
              ]))
    ]

-- The function that collects what it sees.
abbrev pub collect {ℓ} : {E A : Type ℓ} → List A → A → List A × Option E
collect xs x = (xs ++ x ∷ [], none)

pub feed-collect {ℓ} :
    {E A : Type ℓ} (xs ys : List A) (end : Option (Failure E))
    → feed collect xs ys end ≡ (xs ++ ys, end)
feed-collect xs [] end = ap (λ l. (l, end)) (sym (append-nil xs))
feed-collect xs (y ∷ ys) end =
    feed-collect (xs ++ y ∷ []) ys end ∙ ap (λ l. (l, end)) (append_assoc xs (y ∷ []) ys)
