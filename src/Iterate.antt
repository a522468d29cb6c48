-- ===== src/Iterate.antt =====
-- iterate.go and cursor.go: the members and elements of a container, one after the other. A caller's
-- function is a parameter, as a step on the caller's own state that may fail with an error of its own.
pub mod Items
pub mod Elements
pub mod Matches
pub mod Members
pub mod Lookups
use go_jsonfast.Base.{
  ℕ, zero, suc, ◌+◌, ◌-◌, Bool, true, false, ◌&&◌, ◌||◌, not, Option, some, none, List, [], ◌∷◌,
  ◌++◌, ltb, ◌==◌, if◌then◌else◌, ◌>>=◌, ℤ, pos, negsuc, length, byte_at, slice, Bytes,
}
use go_jsonfast.Scan.{skip_ws}
use go_jsonfast.Strings.{any_body, string_end, skip_string_at, strict_end}
use go_jsonfast.Decode.{stands, token_at, token_value, matched_prefix}
use go_jsonfast.Names.{NameSet, no_names, add}
use go_jsonfast.Values.{skip_value_at, closer_of, Kind, kind_invalid, kind_of_byte}

-- A member: its name token ends at name_end, its value spans value_start to value_end.
pub record Member : Type 0 where
  pub name_end : ℕ
  pub value_start : ℕ
  pub value_end : ℕ

-- What a container walk meets, with the index where the source gives one.
pub data ScanStep : Type 0 where
  step_item : ℕ → ScanStep
  step_end : ℕ → ScanStep
  step_malformed : ScanStep

-- The errors of a walk: the package's two, and the caller's.
pub data Failure {ℓ} (E : Type ℓ) : Type ℓ where
  malformed : Failure E
  duplicate_name : Failure E
  failed : E → Failure E

-- scanStep.err: what the step that ends the walk of a value gives.
unfoldable pub step_err {ℓ} : {E : Type ℓ} → ScanStep → Option (Failure E)
step_err (step_end i) = none
step_err _ = some malformed

-- scanStep.closeErr, of a document.
unfoldable pub close_err {ℓ} : {E : Type ℓ} → Bytes → ScanStep → Option (Failure E)
unfolding skip_ws
close_err text (step_end i) = if skip_ws text (suc i) == length text then none else some malformed
close_err text _ = some malformed

unfoldable pub open_container : Bytes → ℕ → ℕ → ScanStep
unfolding skip_ws
open_container text i opener =
    let at = skip_ws text i in
    let first = skip_ws text (suc at) in
    if not (stands text at opener)
    then step_malformed
    else if stands text first (closer_of opener)
    then step_end first
    else step_item first

unfoldable pub next_item : Bytes → ℕ → ℕ → ScanStep
unfolding skip_ws
next_item text i closer =
    let at = skip_ws text i in
    elim (byte_at text at) [
      | none ↦ step_malformed
      | some c ↦
          if c == closer
          then step_end at
          else if not (c == b',')
          then step_malformed
          else step_item (skip_ws text (suc at))
    ]

-- colonAfter: the member's value is yet to be found.
unfoldable pub colon_after : Bytes → ℕ → Option Member
unfolding skip_ws
colon_after text name_end =
    let j = skip_ws text name_end in
    if not (stands text j b':')
    then none
    else some (record { name_end = name_end; value_start = skip_ws text (suc j); value_end = 0 })

unfoldable pub member_value : Bytes → ℕ → Option Member
unfolding colon_after skip_value_at
member_value text name_end = do
  m ← colon_after text name_end
  e ← skip_value_at text m.value_start
  some (record m { value_end = e })

unfoldable pub member_at : Bytes → ℕ → Option Member
unfolding skip_string_at member_value
member_at text i = do end ← skip_string_at text i; member_value text end

-- memberName: the name decoded by a rule, and the member but for its value.
unfoldable pub member_name : Bytes → ℕ → ℤ → Option (Bytes × Member)
unfolding token_at colon_after
member_name text i lowest = do
  (name, end) ← token_value (token_at text i lowest)
  m ← colon_after text end
  some (name, m)

-- skipName
unfoldable pub skip_name : Bytes → ℕ → Option Member
unfolding strict_end colon_after
skip_name text i =
    if not (stands text i b'"') then none else do end ← strict_end text i; colon_after text end

-- One round of a walk: it fails, or it handed out an item that ends at an index.
pub data Visit {ℓ} (S E : Type ℓ) : Type ℓ where
  stopped : S → Failure E → Visit S E
  passed : S → ℕ → Visit S E

-- What the caller's function makes of an item that ends at `end`.
abbrev pub called {ℓ} : {S E : Type ℓ} → S × Option E → ℕ → Visit S E
called (s, none) end = passed s end
called (s, some e) end = stopped s (failed e)

-- The loop that the walks share: `visit` is its body. Each item takes a byte, so one round for each
-- byte and one more are enough.
unfoldable pub walk_items {ℓ} :
    {S E : Type ℓ}
    → ℕ
    → Bytes
    → ℕ
    → (S → ℕ → Visit S E)
    → (ScanStep → Option (Failure E))
    → S
    → ScanStep
    → S × Option (Failure E)
unfolding next_item
walk_items zero text closer visit finish s step = (s, some malformed)
walk_items (suc rounds) text closer visit finish s step = elim step [
  | step_item i ↦ elim (visit s i) [
    | stopped s' f ↦ (s', some f)
    | passed s' end ↦ walk_items rounds text closer visit finish s' (next_item text end closer)
  ]
  | step_end i ↦ (s, finish (step_end i))
  | step_malformed ↦ (s, finish step_malformed)
]

abbrev pub walk_container {ℓ} :
    {S E : Type ℓ}
    → Bytes
    → ℕ
    → ℕ
    → (S → ℕ → Visit S E)
    → (ScanStep → Option (Failure E))
    → S
    → S × Option (Failure E)
walk_container text i opener visit finish s =
    walk_items (suc (suc (length text))) text (closer_of opener) visit finish s
      (open_container text i opener)

module _ {ℓ} {S E : Type ℓ} where
  abbrev pub fields_visit : Bytes → (S → Bytes → Bytes → S × Option E) → S → ℕ → Visit S E
  fields_visit text fn s i = elim (member_at text i) [
    | none ↦ stopped s malformed
    | some m ↦
        called (fn s (slice text i m.name_end) (slice text m.value_start m.value_end)) m.value_end
  ]

  unfoldable pub iterate_fields :
      Bytes → (S → Bytes → Bytes → S × Option E) → S → S × Option (Failure E)
  unfolding member_at open_container walk_items close_err
  iterate_fields text fn s = walk_container text 0 b'{' (fields_visit text fn) (close_err text) s

  -- The names seen go along with the caller's state.
  abbrev pub members_visit :
      Bytes → (S → Bytes → Bytes → S × Option E) → S × NameSet → ℕ → Visit (S × NameSet) E
  members_visit text fn (s, names) i = elim (member_name text i any_body) [
    | none ↦ stopped (s, names) malformed
    | some (name, m) ↦ elim (skip_value_at text m.value_start) [
      | none ↦ stopped (s, names) malformed
      | some end ↦
          let (names', new) = add names name in
          elim new [
            | false ↦ stopped (s, names') duplicate_name
            | true ↦
                let (s', err) = fn s name (slice text m.value_start end) in
                called ((s', names'), err) end
          ]
    ]
  ]

  unfoldable pub iterate_members :
      Bytes → (S → Bytes → Bytes → S × Option E) → S → S × Option (Failure E)
  unfolding member_name skip_value_at add open_container walk_items close_err
  iterate_members text fn s =
      let ((s', names), f) =
        walk_container text 0 b'{' (members_visit text fn) (close_err text) (s, no_names) in
      (s', f)

  abbrev pub array_visit : Bytes → (S → Bytes → S × Option E) → S → ℕ → Visit S E
  array_visit text fn s i = elim (skip_value_at text i) [
    | none ↦ stopped s malformed
    | some end ↦ called (fn s (slice text i end)) end
  ]

  unfoldable pub iterate_array : Bytes → (S → Bytes → S × Option E) → S → S × Option (Failure E)
  unfolding skip_value_at open_container walk_items close_err
  iterate_array text fn s = walk_container text 0 b'[' (array_visit text fn) (close_err text) s

  abbrev pub strings_visit : Bytes → (S → Bytes → S × Option E) → S → ℕ → Visit S E
  strings_visit text fn s i = elim (token_value (token_at text i any_body)) [
    | none ↦ stopped s malformed
    | some (v, end) ↦ called (fn s v) end
  ]

  unfoldable pub iterate_string_array :
      Bytes → (S → Bytes → S × Option E) → S → S × Option (Failure E)
  unfolding token_at open_container walk_items close_err
  iterate_string_array text fn s =
      walk_container text 0 b'[' (strings_visit text fn) (close_err text) s

-- matchName: the index past the token, and whether it decodes to s.
unfoldable pub match_name : Bytes → ℕ → Bytes → Option (ℕ × Bool)
unfolding matched_prefix string_end
match_name text i s =
    let (k, equal) = matched_prefix text (suc i) s in
    if not (stands text i b'"')
    then none
    else if not (stands text k b'"')
    then (string_end text k >>= λ end. some (end, false))
    else some (suc k, equal)

-- The loop of memberStart. Each round passes a member.
unfoldable pub find_member_from : ℕ → Bytes → Bytes → ScanStep → Option ℕ
unfolding match_name colon_after skip_value_at next_item
find_member_from zero text name step = none
find_member_from (suc rounds) text name (step_item i) = elim (match_name text i name) [
  | none ↦ none
  | some (end, equal) ↦ elim (colon_after text end) [
    | none ↦ none
    | some m ↦ elim equal [
      | true ↦ if ltb m.value_start (length text) then some m.value_start else none
      | false ↦ elim (skip_value_at text m.value_start) [
        | none ↦ none
        | some e ↦ find_member_from rounds text name (next_item text e b'}')
      ]
    ]
  ]
]
find_member_from (suc rounds) text name step = none

unfoldable pub member_start : Bytes → ℕ → Bytes → Option ℕ
unfolding find_member_from open_container
member_start text i name =
    find_member_from (suc (suc (length text))) text name (open_container text i b'{')

unfoldable pub find_member : Bytes → Bytes → Option Bytes
unfolding member_start skip_value_at
find_member text name = do
  at ← member_start text 0 name
  end ← skip_value_at text at
  some (slice text at end)

-- The loop of elementStart, with `left` elements before the one sought.
unfoldable pub find_element_from : ℕ → Bytes → ℕ → ScanStep → Option ℕ
unfolding skip_value_at next_item
find_element_from zero text left step = none
find_element_from (suc rounds) text zero (step_item i) =
    if ltb i (length text) then some i else none
find_element_from (suc rounds) text (suc left) (step_item i) = elim (skip_value_at text i) [
  | none ↦ none
  | some e ↦ find_element_from rounds text left (next_item text e b']')
]
find_element_from (suc rounds) text left step = none

unfoldable pub element_start : Bytes → ℕ → ℤ → Option ℕ
unfolding find_element_from open_container
element_start text i (negsuc _) = none
element_start text i (pos index) =
    find_element_from (suc (suc (length text))) text index (open_container text i b'[')

unfoldable pub find_element : Bytes → ℤ → Option Bytes
unfolding element_start skip_value_at
find_element text index = do
  at ← element_start text 0 index
  end ← skip_value_at text at
  some (slice text at end)
