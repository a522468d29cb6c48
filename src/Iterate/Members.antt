-- ===== src/Iterate/Members.antt =====
-- IterateMembers hands out each member once.
use go_jsonfast.Base.{
  ℕ, zero, suc, true, false, ◌||◌, not, Option, some, none, List, [], ◌∷◌, ◌++◌, ◌≡◌, refl, sym, ap,
  ◌∙◌, Bytes, inl, inr, Option-cases, Bool-cases, if◌then◌else◌, length, slice, append-nil,
  append_assoc,
}
use go_jsonfast.Scan.{bytes_eq}
use go_jsonfast.Strings.{any_body}
use go_jsonfast.Names.{NameSet, no_names, add, has_name}
use go_jsonfast.Names.Sets.{IsNameSet, has_name_cons, names_of, no_names-IsNameSet, add-Added}
use go_jsonfast.Values.{skip_value_at}
use go_jsonfast.Iterate.{
  Member, ScanStep, step_item, step_end, step_malformed, Failure, malformed, duplicate_name, failed,
  stopped, passed, walk_items, open_container, next_item, member_name, members_visit, close_err,
  iterate_members,
}
use go_jsonfast.Iterate.Items.{items, items-some}

-- A member's decoded name and its value, and the end of the value.
abbrev pub named_value_at : Bytes → ℕ → Option ((Bytes × Bytes) × ℕ)
named_value_at text i = elim (member_name text i any_body) [
  | none ↦ none
  | some (name, m) ↦ elim (skip_value_at text m.value_start) [
    | none ↦ none
    | some end ↦ some ((name, slice text m.value_start end), end)
  ]
]

abbrev pub members : Bytes → List (Bytes × Bytes) × ScanStep
members text =
    items text b'}' (named_value_at text) (suc (suc (length text))) (open_container text 0 b'{')

-- A caller's function run over members, up to its first error or the first name seen before.
abbrev pub feed_new {ℓ} :
    {S E : Type ℓ}
    → (S → Bytes → Bytes → S × Option E)
    → S
    → List Bytes
    → List (Bytes × Bytes)
    → Option (Failure E)
    → S × Option (Failure E)
feed_new fn s seen [] end = (s, end)
feed_new fn s seen ((name, value) ∷ ms) end =
    if has_name name seen
    then (s, some duplicate_name)
    else (let (s', r) = fn s name value in
        elim r [ none ↦ feed_new fn s' (name ∷ seen) ms end | some e ↦ (s', some (failed e)) ])

module _ {ℓ} {S E : Type ℓ} (fn : S → Bytes → Bytes → S × Option E) (s : S) (seen : List Bytes)
    (name value : Bytes) (ms : List (Bytes × Bytes)) (end : Option (Failure E)) where
  feed_old :
      has_name name seen ≡ true
      → feed_new fn s seen ((name, value) ∷ ms) end ≡ (s, some duplicate_name)
  feed_old h = rw (h, feed_new)

  feed_failed :
      {e : E}
      → has_name name seen ≡ false
      → (fn s name value).1 ≡ some e
      → feed_new fn s seen ((name, value) ∷ ms) end ≡ ((fn s name value).0, some (failed e))
  feed_failed h h' = rw (h, feed_new) (rw h')

  feed_new_on :
      has_name name seen ≡ false
      → (fn s name value).1 ≡ none
      → feed_new fn s seen ((name, value) ∷ ms) end
        ≡ feed_new fn (fn s name value).0 (name ∷ seen) ms end
  feed_new_on h h' = rw (h, feed_new) (rw h')

-- The set of names holds the names seen.
abbrev Sees : NameSet → List Bytes → Type 0
Sees names seen = (y : Bytes) → has_name y (names_of names) ≡ has_name y seen

abbrev outcome : {S E : Type 0} → (S × NameSet) × Option (Failure E) → S × Option (Failure E)
outcome ((s, names), f) = (s, f)

module _ {S E : Type 0} (text : Bytes) (fn : S → Bytes → Bytes → S × Option E)
    (finish : ScanStep → Option (Failure E)) (fails : finish step_malformed ≡ some malformed) where
  walk : ℕ → S → NameSet → ScanStep → S × Option (Failure E)
  walk rounds s names step =
      outcome (walk_items rounds text b'}' (members_visit text fn) finish (s, names) step)

  walk_stopped :
      (rounds i : ℕ) (s : S) (names : NameSet) {s' : S × NameSet} {f : Failure E}
      → members_visit text fn (s, names) i ≡ stopped s' f
      → walk (suc rounds) s names (step_item i) ≡ (s'.0, some f)
  unfolding walk walk_items
  walk_stopped rounds i s names h = rw (h, walk, walk_items)

  walk_passed :
      (rounds i : ℕ) (s : S) (names : NameSet) {s' : S} {names' : NameSet} {end : ℕ}
      → members_visit text fn (s, names) i ≡ passed (s', names') end
      → walk (suc rounds) s names (step_item i) ≡ walk rounds s' names' (next_item text end b'}')
  unfolding walk walk_items
  walk_passed rounds i s names h = rw (h, walk, walk_items)

  module _ (s : S) (names : NameSet) (i : ℕ) {name : Bytes} {m : Member} {end : ℕ}
      (h : member_name text i any_body ≡ some (name, m))
      (h' : skip_value_at text m.value_start ≡ some end) where
    abbrev pub value : Bytes
    value = slice text m.value_start end

    visit_old :
        (add names name).1 ≡ false
        → members_visit text fn (s, names) i ≡ stopped (s, (add names name).0) duplicate_name
    visit_old old = rw (h, members_visit) (rw h' (rw old))

    visit_new :
        (add names name).1 ≡ true
        → (fn s name value).1 ≡ none
        → members_visit text fn (s, names) i ≡ passed ((fn s name value).0, (add names name).0) end
    visit_new new goes = rw (h, members_visit) (rw h' (rw new (rw goes)))

    visit_failed :
        {e : E}
        → (add names name).1 ≡ true
        → (fn s name value).1 ≡ some e
        → members_visit text fn (s, names) i
          ≡ stopped ((fn s name value).0, (add names name).0) (failed e)
    visit_failed new stops = rw (h, members_visit) (rw h' (rw new (rw stops)))

  walk-feed_new :
      (rounds : ℕ) (s : S) (names : NameSet) (seen : List Bytes) (step : ScanStep)
      → IsNameSet names
      → Sees names seen
      → walk rounds s names step
        ≡ feed_new fn s seen
            (items text b'}' (named_value_at text) rounds step).0
            (finish (items text b'}' (named_value_at text) rounds step).1)
  unfolding walk walk_items items
  walk-feed_new zero s names seen step set sees = ap (λ f. (s, f)) (sym fails)
  walk-feed_new (suc rounds) s names seen (step_end i) set sees = refl
  walk-feed_new (suc rounds) s names seen step_malformed set sees = refl
  walk-feed_new (suc rounds) s names seen (step_item i) set sees =
      elim (Option-cases (member_name text i any_body)) [
        | inl h ↦ rw (h, walk, walk_items) (rw (h, items) (ap (λ f. (s, f)) (sym fails)))
        | inr ((name, m), h) ↦ elim (Option-cases (skip_value_at text m.value_start)) [
          | inl h' ↦
              rw (h, walk, walk_items)
                (rw h' (rw (h, items) (rw h' (ap (λ f. (s, f)) (sym fails)))))
          | inr (end, h') ↦
              let value = slice text m.value_start end in
              let added = add-Added names name set in
              let item : named_value_at text i ≡ some ((name, value), end) =
                rw (h, named_value_at) (rw h') in
              let rest = items text b'}' (named_value_at text) rounds (next_item text end b'}') in
              let unfolded =
                ap (λ p. feed_new fn s seen p.0 (finish p.1))
                  (items-some text b'}' (named_value_at text) rounds i item) in
              elim (Bool-cases (has_name name seen)) [
                | inl old ↦
                    let known : (add names name).1 ≡ false =
                      added.reports ∙ ap not (sees name ∙ old) in
                    walk_stopped rounds i s names (visit_old s names i h h' known)
                    ∙ sym (unfolded ∙ feed_old fn s seen name value rest.0 (finish rest.1) old)
                | inr new ↦
                    let unknown : (add names name).1 ≡ true =
                      added.reports ∙ ap not (sees name ∙ new) in
                    elim (Option-cases (fn s name value).1) [
                      | inr (e, stops) ↦
                          walk_stopped rounds i s names (visit_failed s names i h h' unknown stops)
                          ∙ sym (
                              unfolded
                              ∙ feed_failed fn s seen name value rest.0 (finish rest.1) new stops)
                      | inl goes ↦
                          walk_passed rounds i s names (visit_new s names i h h' unknown goes)
                          ∙ walk-feed_new rounds (fn s name value).0 (add names name).0
                              (name ∷ seen) (next_item text end b'}') added.kept
                              (λ y.
                                added.holds y
                                ∙ ap (λ t. bytes_eq name y || t) (sees y)
                                ∙ sym (has_name_cons y name seen))
                          ∙ sym (
                              unfolded
                              ∙ feed_new_on fn s seen name value rest.0 (finish rest.1) new goes)
                    ]
              ]
        ]
      ]

-- IterateMembers hands out the decoded names and the values of the members of the object in
-- order, and stops at the first error of the function, at the first name equal to an earlier one,
-- or where the text is no longer an object; its table of names is a list of them in this.
pub iterate_members-members :
    {S E : Type 0} (text : Bytes) (fn : S → Bytes → Bytes → S × Option E) (s : S)
    → iterate_members text fn s
      ≡ feed_new fn s [] (members text).0 (close_err text (members text).1)
unfolding iterate_members walk close_err
iterate_members-members text fn s =
    walk-feed_new text fn (close_err text) refl (suc (suc (length text))) s no_names []
      (open_container text 0 b'{') no_names-IsNameSet (λ y. refl)

-- The function that collects members.
abbrev pub collect_members :
    {E : Type 0} → List (Bytes × Bytes) → Bytes → Bytes → List (Bytes × Bytes) × Option E
collect_members ms name value = (ms ++ (name, value) ∷ [], none)

pub all_new :
    {E : Type 0} (seen : List Bytes) (xs ms : List (Bytes × Bytes)) (end : Option (Failure E))
    → (feed_new collect_members xs seen ms end).1 ≡ none
    → (feed_new collect_members xs seen ms end).0 ≡ xs ++ ms
all_new seen xs [] end h = sym (append-nil xs)
all_new seen xs ((name, value) ∷ ms) end h = elim (Bool-cases (has_name name seen)) [
  | inl old ↦ cc (ap (λ r. r.1) (sym (feed_old collect_members xs seen name value ms end old)) ∙ h)
  | inr new ↦
      let on = feed_new_on collect_members xs seen name value ms end new refl in
      ap (λ r. r.0) on
      ∙ all_new (name ∷ seen) (xs ++ (name, value) ∷ []) ms end (sym (ap (λ r. r.1) on) ∙ h)
      ∙ append_assoc xs ((name, value) ∷ []) ms
]
