-- ===== src/Walks/Objects.antt =====
-- iterate.go and validate.go: IterateObject and IterateDocument, which check an object in one pass by the
-- rule of ValidUTF8. valueEnd walks each value anew from `top`, so a walker stands here for what is left
-- of it there: its bound, and the index where the rest of the members starts.
pub mod Members
pub mod Loops
pub mod Heads
pub mod Ends
pub mod Verdict
pub mod Exact
use go_jsonfast.Base.{
  ℕ, zero, suc, ◌-◌, Bool, true, false, ◌||◌, not, Option, some, none, List, [], ◌∷◌, if◌then◌else◌,
  ◌>>=◌, ℤ, pos, negsuc, length, slice, Bytes,
}
use go_jsonfast.Strings.{utf8_body}
use go_jsonfast.Names.{NameSet, no_names, add, OpenObjects}
use go_jsonfast.Walk.{Walker, new_walker, top, refused, value_ended, token, finish, value_end}
use go_jsonfast.Walk
use go_jsonfast.Walks.{take, Filed}
use go_jsonfast.Iterate.{
  ScanStep, step_item, step_end, step_malformed, Failure, malformed, duplicate_name, Visit, stopped,
  passed, called, walk_items, walk_container, close_err, next_item, member_name, skip_name,
}

-- The loop of restMembers. Each round but the last passes a member.
unfoldable pub rest_rounds {ℓ} : {E : Type ℓ} → ℕ → Bytes → Walker → ScanStep → Failure E
rest_rounds zero text w step = malformed
rest_rounds {E = E} (suc rounds) text w step = elim step [
  | step_item i ↦ elim (skip_name text i >>= λ m. value_end text w m.value_start) [
    | none ↦ malformed
    | some end ↦ rest_rounds rounds text w (next_item text end b'}')
  ]
  | step_end i ↦ elim (close_err {E = E} text (step_end i)) [ some e ↦ e | none ↦ duplicate_name ]
  | step_malformed ↦ malformed
]

-- walker.restMembers
unfoldable pub rest_members {ℓ} : {E : Type ℓ} → Bytes → Walker → Failure E
rest_members text w = rest_rounds (suc (suc (length text))) text w (next_item text w.i b'}')

-- The loop of objectWalk.valueEnd with stacks: the end of the value, what is left of the stacks, and
-- whether an object in it repeats a name. Each round but the last passes a token.
unfoldable pub value_rounds : ℕ → Bytes → Filed → Option (ℕ × OpenObjects × Bool)
value_rounds zero text f = none
value_rounds (suc rounds) text f = elim f.dup [
  | true ↦ (finish text f.walker >>= λ end. some (end, none, true))
  | false ↦ elim (token text f.walker) [
    | refused ↦ none
    | value_ended w ↦ some (w.i, f.around, false)
    | Walk.stopped w at ↦ (take text w at f.around f.dup >>= value_rounds rounds text)
  ]
]

-- objectWalk.valueEnd, whose walk starts with no repeated name.
unfoldable pub object_value_end : Bytes → Walker → ℕ → OpenObjects → Option (ℕ × OpenObjects × Bool)
object_value_end text w i none = (value_end text w i >>= λ end. some (end, none, false))
object_value_end text w i (some sets) =
    value_rounds (suc (suc (length text))) text
      (record { walker = top text w i; around = some sets; dup = false; name = [] })

module _ {ℓ} {S E : Type ℓ} where
  -- The body of walkObject's loop, on the caller's state, the names and the stacks.
  unfoldable pub object_visit :
      Bytes
      → Walker
      → (S → Bytes → Bytes → S × Option E)
      → S × NameSet × OpenObjects
      → ℕ
      → Visit (S × NameSet × OpenObjects) E
  object_visit text values fn (s, names, around) i = elim (member_name text i utf8_body) [
    | none ↦ stopped (s, names, around) malformed
    | some (name, m) ↦ elim (object_value_end text values m.value_start around) [
      | none ↦ stopped (s, names, around) malformed
      | some (end, around', dup) ↦
          let (names', new) = add names name in
          elim (dup || not new) [
            | true ↦ stopped (s, names', around') (rest_members text (record values { i = end }))
            | false ↦
                let (s', err) = fn s name (slice text m.value_start end) in
                called ((s', names', around'), err) end
          ]
    ]
  ]

  -- walkObject
  unfoldable pub walk_object :
      Bytes → ℤ → OpenObjects → (S → Bytes → Bytes → S × Option E) → S → S × Option (Failure E)
  walk_object text (pos (suc bound)) around fn s =
      let ((s', _, _), err) =
        walk_container text 0 b'{' (object_visit text (new_walker text (pos bound)) fn)
          (close_err text) (s, no_names, around) in
      (s', err)
  walk_object text (pos zero) around fn s = (s, some malformed)
  walk_object text (negsuc n) around fn s = (s, some malformed)

  -- IterateObject
  unfoldable pub iterate_object :
      Bytes → ℤ → (S → Bytes → Bytes → S × Option E) → S → S × Option (Failure E)
  iterate_object text max_depth fn s = walk_object text max_depth none fn s

  -- IterateDocument
  unfoldable pub iterate_document :
      Bytes → ℤ → (S → Bytes → Bytes → S × Option E) → S → S × Option (Failure E)
  iterate_document text max_depth fn s = walk_object text max_depth (some []) fn s
