-- ===== src/Walks/Objects/Verdict.antt =====
-- IterateObject and IterateDocument refuse as malformed what is no object that ValidUTF8 accepts, and
-- nothing else.
use go_jsonfast.Base.{
  ℕ, suc, ◌-◌, ◌≤◌, Bool, true, ◌||◌, not, Option, some, none, ◌≡◌, ◌⊎◌, refl, ap, sym, subst, ◌∙◌,
  arith, inl, inr, Bool-cases, Option-cases, pos, length, slice, Bytes,
}
use go_jsonfast.Swar.Lanes.{AreBytes}
use go_jsonfast.Scan.{skip_ws}
use go_jsonfast.Strings.{utf8_body}
use go_jsonfast.Cursor.Lookups.{skip_ws-twice}
use go_jsonfast.Names.{NameSet, add, OpenObjects}
use go_jsonfast.Walk.{Walker, value_end}
use go_jsonfast.Walk.Valid.{value_end_iff}
use go_jsonfast.Walk.Grammar.{Token, after, IsString, Value}
use go_jsonfast.Iterate.{
  ScanStep, step_item, step_end, step_malformed, Failure, malformed, duplicate_name, failed, Visit,
  stopped, passed, walk_items, close_err, next_item, member_name, Member,
}
use go_jsonfast.Walks.Objects.{rest_rounds, rest_members, object_value_end, object_visit}
use go_jsonfast.Walks.Objects.Members.{
  MemberAt, Ends, Rest, Ends-of_member, Ends-member, MemberAt-same, Value-past,
}
use go_jsonfast.Walks.Objects.Loops.{Says, Says-iff, close_err-Says, run-Says, run_behind-Says}
use go_jsonfast.Walks.Objects.Heads.{Head, no_head, head, member-Head}
use go_jsonfast.Walks.Objects.Ends.{Stops, object_value_end-Stops}

module _ (text : Bytes) (b : AreBytes text) (n : ℕ) (w : Walker) (bound : w.max_depth ≡ pos n)
    (four : length w.kinds.shallow ≡ 4) where
  -- The value behind a head.
  member_of :
      (i a e start : ℕ)
      → start ≡ skip_ws text (after text a)
      → IsString text i a
      → Token text a b':'
      → value_end text w start ≡ some e
      → MemberAt text b n i e
  member_of i a e start at s t h =
      let v = (value_end_iff text w n start e b bound four).0 h in
      let past = ap (skip_ws text) at ∙ skip_ws-twice text (after text a) in
      (a, s, t, Value-past text b (after text a) past v)

  -- No value behind a head, and no member.
  no_member_of :
      (i a start : ℕ)
      → start ≡ skip_ws text (after text a)
      → IsString text i a
      → value_end text w start ≡ none
      → (e : ℕ) → MemberAt text b n i e
      → ⊥
  no_member_of i a start at s h e (a', s', t', v) =
      let same : a' ≡ a = same_end i a a' s s' in
      let past = sym (ap (skip_ws text) at ∙ skip_ws-twice text (after text a)) in
      let v' = Value-past text b start past (subst (λ z. Value text n (after text z) e) same v) in
      let found = (value_end_iff text w n start e b bound four).1 v' in cc
    where
      same_end : (i a a' : ℕ) → IsString text i a → IsString text i a' → a' ≡ a
      same_end i a a' s s' = let e = s.1 in let e' = s'.1 in cc

  no_end : (i : ℕ) → ((e : ℕ) → MemberAt text b n i e → ⊥) → Ends text b n i → ⊥
  no_end i absent ends = let (e, m, r) = Ends-member text b n i ends in absent e m

  module _ {ℓ} (E : Type ℓ) where
    abbrev rest_run : ℕ → Bool → ScanStep → Option (Failure E)
    rest_run r s step = some (rest_rounds r text w step)

    rest_item :
        (r : ℕ) (s : Bool) (i : ℕ)
        → skip_ws text i ≡ i
        → Says (Ends text b n i) (rest_run (suc r) s (step_item i))
          ⊎ ((e : ℕ) × (s' : Bool) × MemberAt text b n i e
              × (rest_run (suc r) s (step_item i) ≡ rest_run r s' (next_item text e b'}')))
    unfolding rest_rounds
    rest_item r s i fixed = by (member-Head text b n i fixed)
      where
        by :
            Head text b n i fixed
            → Says (Ends text b n i) (rest_run (suc r) s (step_item i))
              ⊎ ((e : ℕ) × (s' : Bool) × MemberAt text b n i e
                  × (rest_run (suc r) s (step_item i) ≡ rest_run r s' (next_item text e b'}')))
        by (no_head named skipped absent) =
            let out : rest_run (suc r) s (step_item i) ≡ some malformed =
              rw (skipped, rest_rounds) in
            inl (subst (Says (Ends text b n i)) (sym out) (no_end i absent))
        by (head a name m named skipped start str t) =
            elim (Option-cases (value_end text w m.value_start)) [
              | inl e ↦
                  let out : rest_run (suc r) s (step_item i) ≡ some malformed =
                    rw (skipped, rest_rounds) (rw e) in
                  inl (
                    subst (Says (Ends text b n i)) (sym out)
                      (no_end i (no_member_of i a m.value_start start str e)))
              | inr (end, e) ↦
                  let out : rest_run (suc r) s (step_item i)
                      ≡ rest_run r s (next_item text end b'}') =
                    rw (skipped, rest_rounds) (rw e) in
                  inr (end, s, member_of i a end m.value_start start str t e, out)
            ]

    rest_close :
        (r : ℕ) (s : Bool) (e : ℕ)
        → Says
            (skip_ws text (after text e) ≡ length text)
            (rest_run (suc r) s (step_end (skip_ws text e)))
    unfolding rest_rounds
    rest_close r s e =
        by (close_err {E = E} text (step_end (skip_ws text e))) refl (close_err-Says text E e)
      where
        by :
            (o : Option (Failure E))
            → close_err {E = E} text (step_end (skip_ws text e)) ≡ o
            → Says (skip_ws text (after text e) ≡ length text) o
            → Says
                (skip_ws text (after text e) ≡ length text)
                (rest_run (suc r) s (step_end (skip_ws text e)))
        by none out h =
            let r' : rest_run (suc r) s (step_end (skip_ws text e)) ≡ some duplicate_name =
              rw (out, rest_rounds) in
            subst (Says (skip_ws text (after text e) ≡ length text)) (sym r') h
        by (some x) out h =
            let r' : rest_run (suc r) s (step_end (skip_ws text e)) ≡ some x =
              rw (out, rest_rounds) in
            subst (Says (skip_ws text (after text e) ≡ length text)) (sym r') h

    rest_bad : (r : ℕ) (s : Bool) → rest_run (suc r) s step_malformed ≡ some malformed
    unfolding rest_rounds
    rest_bad r s = refl

  -- restMembers tells whether the rest of the object is one.
  rest_members-Says {ℓ} :
      (E : Type ℓ) → Says {E = E} (Rest text b n w.i) (some (rest_members text w))
  unfolding rest_members
  rest_members-Says E =
      run_behind-Says text b n (rest_run E) (rest_item E) (rest_close E) (rest_bad E)
        (suc (length text)) true w.i (omega arith)

module _ (text : Bytes) (b : AreBytes text) (n : ℕ) (w : Walker) (bound : w.max_depth ≡ pos n)
    (four : length w.kinds.shallow ≡ 4) where
  module _ {ℓ} {S E : Type ℓ} (fn : S → Bytes → Bytes → S × Option E) where
    abbrev State : Type ℓ
    State = S × NameSet × OpenObjects

    abbrev visit : State → ℕ → Visit State E
    visit = object_visit text w fn

    abbrev run : ℕ → State → ScanStep → Option (Failure E)
    run r s step = (walk_items r text b'}' visit (close_err text) s step).1

    abbrev Item : ℕ → State → ℕ → Type ℓ
    Item r s i =
        Says (Ends text b n i) (run (suc r) s (step_item i))
        ⊎ ((e : ℕ) × (s' : State) × MemberAt text b n i e
            × (run (suc r) s (step_item i) ≡ run r s' (next_item text e b'}')))

    stopped-Item :
        (r : ℕ) (s s' : State) (i : ℕ) (f : Failure E)
        → visit s i ≡ stopped s' f
        → Says (Ends text b n i) (some f)
        → Item r s i
    unfolding walk_items
    stopped-Item r s s' i f out h =
        let r' : (walk_items (suc r) text b'}' visit (close_err text) s (step_item i)).1 ≡ some f =
          rw (out, visit, walk_items) in
        inl (subst (Says (Ends text b n i)) (sym r') h)

    passed-Item :
        (r : ℕ) (s s' : State) (i e : ℕ)
        → visit s i ≡ passed s' e
        → MemberAt text b n i e
        → Item r s i
    unfolding walk_items
    passed-Item r s s' i e out m =
        let r' : (walk_items (suc r) text b'}' visit (close_err text) s (step_item i)).1
            ≡ (walk_items r text b'}' visit (close_err text) s' (next_item text e b'}')).1 =
          rw (out, visit, walk_items) in
        inr (e, s', m, r')

    rest-Says :
        (i e : ℕ)
        → MemberAt text b n i e
        → Says {E = E} (Ends text b n i) (some (rest_members text (record w { i = e })))
    rest-Says i e m =
        Says-iff (some (rest_members text (record w { i = e }))) (Ends-of_member text b n i e m)
          (λ ends.
            let (e', m', rest) = Ends-member text b n i ends in
            subst (Rest text b n) (MemberAt-same text b n i e' e m' m) rest)
          (rest_members-Says text b n (record w { i = e }) bound four E)

    valued-Item :
        (r : ℕ) (s : S) (names : NameSet) (around : OpenObjects) (i a : ℕ) (name : Bytes)
        (m : Member)
        → member_name text i utf8_body ≡ some (name, m)
        → m.value_start ≡ skip_ws text (after text a)
        → IsString text i a
        → Token text a b':'
        → (o : Option (ℕ × OpenObjects × Bool)) → object_value_end text w m.value_start around ≡ o
        → Stops (value_end text w m.value_start) o
        → Item r (s, names, around) i
    valued-Item r s names around i a name m named start str t none out h =
        stopped-Item r (s, names, around) (s, names, around) i malformed
          (unfold object_visit in rw (named, object_visit) (rw out))
          (no_end text b n w bound four i
            (no_member_of text b n w bound four i a m.value_start start str h))
    valued-Item r s names around i a name m named start str t (some (end, around', dup)) out h =
        let at = member_of text b n w bound four i a end m.value_start start str t h in
        let names' = (add names name).0 in
        let called' = fn s name (slice text m.value_start end) in
        elim (Bool-cases (dup || not (add names name).1)) [
          | inl repeated ↦
              stopped-Item r (s, names, around) (s, names', around') i
                (rest_members text (record w { i = end }))
                (unfold object_visit in rw (named, object_visit) (rw out (rw repeated)))
                (rest-Says i end at)
          | inr new ↦ elim (Option-cases called'.1) [
            | inr (e, failing) ↦
                stopped-Item r (s, names, around) (called'.0, names', around') i (failed e)
                  (unfold object_visit in rw (named, object_visit) (rw out (rw new (rw failing))))
                  tt
            | inl fine ↦
                passed-Item r (s, names, around) (called'.0, names', around') i end
                  (unfold object_visit in rw (named, object_visit) (rw out (rw new (rw fine)))) at
          ]
        ]

    walk-Item : (r : ℕ) (s : State) (i : ℕ) → skip_ws text i ≡ i → Item r s i
    walk-Item r (s, names, around) i fixed = by (member-Head text b n i fixed)
      where
        by : Head text b n i fixed → Item r (s, names, around) i
        by (no_head named skipped absent) =
            stopped-Item r (s, names, around) (s, names, around) i malformed
              (unfold object_visit in rw (named, object_visit))
              (no_end text b n w bound four i absent)
        by (head a name m named skipped start str t) =
            valued-Item r s names around i a name m named start str t
              (object_value_end text w m.value_start around) refl
              (object_value_end-Stops text b n w m.value_start around bound four)

    walk_close :
        (r : ℕ) (s : State) (e : ℕ)
        → Says
            (skip_ws text (after text e) ≡ length text)
            (run (suc r) s (step_end (skip_ws text e)))
    unfolding walk_items
    walk_close r s e = close_err-Says text E e

    walk_bad : (r : ℕ) (s : State) → run (suc r) s step_malformed ≡ some malformed
    unfolding walk_items close_err
    walk_bad r s = refl

    -- The loop of walkObject from its first member.
    pub walk_items-Says :
        (r : ℕ) (s : State) (i : ℕ)
        → skip_ws text i ≡ i
        → suc (length text - i) ≤ r
        → Says
            (Ends text b n i)
            (walk_items r text b'}' (object_visit text w fn) (close_err text) s (step_item i)).1
    walk_items-Says = run-Says text b n run walk-Item walk_close walk_bad
