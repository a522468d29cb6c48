-- ===== src/Iterate/Lookups.antt =====
-- FindMember finds the members that IterateMembers hands out.
use go_jsonfast.Base.{
  ℕ, zero, suc, Bool, true, false, Option, some, none, List, [], ◌∷◌, ◌≡◌, refl, sym, ap, ◌∙◌,
  Bytes, inl, inr, Option-cases, Bool-cases, ltb, if◌then◌else◌, ◌>>=◌, length, slice,
}
use go_jsonfast.Swar.Lanes.{AreBytes}
use go_jsonfast.Scan.{bytes_eq}
use go_jsonfast.Strings.{any_body}
use go_jsonfast.Decode.{token_at, token_value}
use go_jsonfast.Values.{skip_value_at}
use go_jsonfast.Iterate.{
  Member, ScanStep, step_item, step_end, step_malformed, open_container, next_item, colon_after,
  member_name, match_name, close_err, iterate_members, find_member_from, member_start, find_member,
}
use go_jsonfast.Iterate.Items.{items, items-none, items-some}
use go_jsonfast.Iterate.Elements.{skip_value_at-lt, lt-ltb}
use go_jsonfast.Iterate.Matches.{match_name-token, match_name-none}
use go_jsonfast.Iterate.Members.{
  named_value_at, members, iterate_members-members, collect_members, all_new,
}

-- The value of the first member of a name.
abbrev pub lookup : Bytes → List (Bytes × Bytes) → Option Bytes
lookup name [] = none
lookup name ((x, value) ∷ ms) = if bytes_eq x name then some value else lookup name ms

value_of : Bytes → Option ℕ → Option Bytes
value_of text o = do at ← o; end ← skip_value_at text at; some (slice text at end)

module _ (text : Bytes) (b : AreBytes text) (name : Bytes) where
  abbrev listed : ℕ → ScanStep → Option Bytes
  listed rounds step = lookup name (items text b'}' (named_value_at text) rounds step).0

  nothing :
      (rounds i : ℕ) → member_name text i any_body ≡ none → listed (suc rounds) (step_item i) ≡ none
  nothing rounds i h =
      ap (λ p. lookup name p.0)
        (items-none text b'}' (named_value_at text) rounds i (rw (h, named_value_at) refl))

  no_value :
      (rounds i : ℕ) {x : Bytes} {m : Member}
      → member_name text i any_body ≡ some (x, m)
      → skip_value_at text m.value_start ≡ none
      → listed (suc rounds) (step_item i) ≡ none
  no_value rounds i h h' =
      ap (λ p. lookup name p.0)
        (items-none text b'}' (named_value_at text) rounds i (rw (h, named_value_at) (rw h' refl)))

  one_more :
      (rounds i : ℕ) {x : Bytes} {m : Member} {end : ℕ}
      → member_name text i any_body ≡ some (x, m)
      → skip_value_at text m.value_start ≡ some end
      → listed (suc rounds) (step_item i) ≡ (
          if bytes_eq x name
          then some (slice text m.value_start end)
          else listed rounds (next_item text end b'}'))
  one_more rounds i h h' =
      ap (λ p. lookup name p.0)
        (items-some text b'}' (named_value_at text) rounds i (rw (h, named_value_at) (rw h' refl)))

  -- The value behind a name that matches, where it begins within the text.
  abbrev at_value : ℕ → Option ℕ
  at_value i = if ltb i (length text) then some i else none

  started : (i : ℕ) → skip_value_at text i ≡ none → value_of text (at_value i) ≡ none
  unfolding value_of
  started i h = elim (Bool-cases (ltb i (length text))) [
    | inl low ↦ rw low (rw h)
    | inr high ↦ rw high
  ]

  found :
      (i : ℕ) {end : ℕ}
      → skip_value_at text i ≡ some end
      → value_of text (at_value i) ≡ some (slice text i end)
  unfolding value_of
  found i h = rw (lt-ltb i (length text) (skip_value_at-lt text i h)) (rw h)

  module _ (rounds i : ℕ) where
    abbrev seek : Option ℕ
    seek = find_member_from (suc rounds) text name (step_item i)

    seek-none : match_name text i name ≡ none → seek ≡ none
    unfolding find_member_from
    seek-none h = rw (h, find_member_from)

    module _ {end : ℕ} {equal : Bool} (h : match_name text i name ≡ some (end, equal)) where
      seek_no_colon : colon_after text end ≡ none → seek ≡ none
      unfolding find_member_from
      seek_no_colon h' = rw (h, find_member_from) (rw h')

      module _ {m : Member} (h' : colon_after text end ≡ some m) where
        seek_match : equal ≡ true → seek ≡ at_value m.value_start
        unfolding find_member_from
        seek_match e = rw (h, find_member_from) (rw h' (rw e))

        seek_no_value : equal ≡ false → skip_value_at text m.value_start ≡ none → seek ≡ none
        unfolding find_member_from
        seek_no_value e v = rw (h, find_member_from) (rw h' (rw e (rw v)))

        seek_on :
            {e : ℕ}
            → equal ≡ false
            → skip_value_at text m.value_start ≡ some e
            → seek ≡ find_member_from rounds text name (next_item text e b'}')
        unfolding find_member_from
        seek_on e v = rw (h, find_member_from) (rw h' (rw e (rw v)))

  find_member_from-items :
      (rounds : ℕ) (step : ScanStep)
      → value_of text (find_member_from rounds text name step)
        ≡ lookup name (items text b'}' (named_value_at text) rounds step).0
  unfolding value_of find_member_from items
  find_member_from-items zero step = refl
  find_member_from-items (suc rounds) (step_end i) = refl
  find_member_from-items (suc rounds) step_malformed = refl
  find_member_from-items (suc rounds) (step_item i) =
      elim (Option-cases (token_value (token_at text i any_body))) [
        | inl h ↦
            ap (value_of text) (seek-none rounds i (match_name-none text b i name h))
            ∙ sym (nothing rounds i (unfold member_name in rw (h, member_name) refl))
        | inr ((x, e), h) ↦ elim (Option-cases (colon_after text e)) [
          | inl h' ↦
              ap (value_of text) (seek_no_colon rounds i (match_name-token text b i name h) h')
              ∙ sym (nothing rounds i (unfold member_name in rw (h, member_name) (rw h' refl)))
          | inr (m, h') ↦
              let named : member_name text i any_body ≡ some (x, m) =
                unfold member_name in rw (h, member_name) (rw h' refl) in
              let matched = match_name-token text b i name h in
              elim (Option-cases (skip_value_at text m.value_start)) [
                | inl h″ ↦
                    let empty = no_value rounds i named h″ in
                    elim (Bool-cases (bytes_eq x name)) [
                      | inl same ↦
                          ap (value_of text) (seek_match rounds i matched h' same)
                          ∙ started m.value_start h″
                          ∙ sym empty
                      | inr other ↦
                          ap (value_of text) (seek_no_value rounds i matched h' other h″)
                          ∙ sym empty
                    ]
                | inr (end, h″) ↦
                    let full = one_more rounds i named h″ in
                    elim (Bool-cases (bytes_eq x name)) [
                      | inl same ↦
                          ap (value_of text) (seek_match rounds i matched h' same)
                          ∙ found m.value_start h″
                          ∙ sym (full ∙ rw same refl)
                      | inr other ↦
                          ap (value_of text) (seek_on rounds i matched h' other h″)
                          ∙ find_member_from-items rounds (next_item text end b'}')
                          ∙ sym (full ∙ rw other refl)
                    ]
              ]
        ]
      ]

  find_member-members : find_member text name ≡ lookup name (members text).0
  unfolding find_member member_start value_of
  find_member-members =
      find_member_from-items (suc (suc (length text))) (open_container text 0 b'{')

-- Where IterateMembers hands out every member without an error, FindMember finds the value of the
-- member of a name among those handed out, and nothing where no member has the name, on a text of
-- bytes.
pub find_member-iterate_members :
    {E : Type 0} (text name : Bytes)
    → AreBytes text
    → (iterate_members {E = E} text collect_members []).1 ≡ none
    → find_member text name ≡ lookup name (iterate_members {E = E} text collect_members []).0
find_member-iterate_members {E} text name b h =
    let run = iterate_members-members {E = E} text collect_members [] in
    let all =
      all_new {E = E} [] [] (members text).0 (close_err text (members text).1)
        (sym (ap (λ r. r.1) run) ∙ h) in
    find_member-members text b name ∙ sym (ap (lookup name) (ap (λ r. r.0) run ∙ all))
