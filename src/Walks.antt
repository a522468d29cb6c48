-- ===== src/Walks.antt =====
-- validate.go and iterate.go: the walks over a whole document. A caller's function is a step on the
-- caller's own state, which may fail. An index of the walker's text past the top value is `value_ended`.
pub mod Onward
pub mod Verdict
pub mod Strings
pub mod Tokens
pub mod Objects
use go_jsonfast.Base.{
  ℕ, zero, suc, ◌-◌, Bool, true, false, ◌||◌, not, Option, some, none, List, [], ◌∷◌, ◌==◌,
  if◌then◌else◌, ◌>>=◌, ℤ, pos, negsuc, length, byte_at, slice, Bytes,
}
use go_jsonfast.Scan.{skip_ws}
use go_jsonfast.Strings.{utf8_body, strict_end}
use go_jsonfast.Decode.{strict_token}
use go_jsonfast.Names.{NameSet, no_names, add, OpenObjects, push, pop}
use go_jsonfast.Walk.{
  WalkState, walk_colon, Walker, new_walker, top, refused, value_ended, stopped, next, token,
  finish, value_end,
}
use go_jsonfast.Iterate.{Failure, malformed, duplicate_name, failed}

-- walkFault
unfoldable pub walk_fault {ℓ} : {E : Type ℓ} → Bytes → ℕ → Option (Failure E)
walk_fault text i = if skip_ws text i == length text then none else some malformed

-- walker.rest
unfoldable pub rest {ℓ} : {E : Type ℓ} → Bytes → Walker → Failure E
rest {E = E} text w = elim (finish text w) [
  | none ↦ malformed
  | some end ↦ elim (walk_fault {E = E} text end) [ none ↦ duplicate_name | some _ ↦ malformed ]
]

-- The loop of walkBytes. Each round but the last passes a string.
unfoldable pub strings_rounds {ℓ} :
    {S E : Type ℓ} → ℕ → Bytes → (S → Bytes → S × Option E) → S → Walker → S × Option (Failure E)
strings_rounds zero text fn s w = (s, some malformed)
strings_rounds (suc rounds) text fn s w = elim (next text w) [
  | refused ↦ (s, some malformed)
  | value_ended w' ↦ (s, if not (skip_ws text w'.i == length text) then some malformed else none)
  | stopped w' at ↦ elim (strict_token text at) [
    | none ↦ (s, some malformed)
    | some (v, end) ↦
        let (s', err) = fn s v in
        elim err [
          | some e ↦ (s', some (failed e))
          | none ↦ strings_rounds rounds text fn s' (record w' { i = end })
        ]
  ]
]

-- WalkStrings
unfoldable pub walk_strings {ℓ} :
    {S E : Type ℓ} → Bytes → ℤ → (S → Bytes → S × Option E) → S → S × Option (Failure E)
walk_strings text max_depth fn s =
    strings_rounds (suc (suc (length text))) text fn s (new_walker text max_depth)

abbrev pub is_colon : WalkState → Bool
is_colon walk_colon = true
is_colon _ = false

-- What objectWalk notes of a token: the walker past it, the open objects, whether an object repeats
-- a name, and the name decoded, empty where there is none.
pub record Filed : Type 0 where
  pub walker : Walker
  pub around : OpenObjects
  pub dup : Bool
  pub name : Bytes

-- add of the last set, of a walk whose object has one.
abbrev pub add_last : OpenObjects → Bytes → OpenObjects × Bool
add_last none name = (none, true)
add_last (some []) name = (some [], true)
add_last (some (names ∷ sets)) name =
    let (names', new) = add names name in (some (names' ∷ sets), new)

-- objectWalk.text
unfoldable pub walk_text : Bytes → Walker → OpenObjects → Bool → Option Filed
walk_text text w around dup = elim (is_colon w.state) [
  | false ↦
      (strict_end text (w.i - 1) >>= λ end.
      some (record { walker = record w { i = end }; around = around; dup = dup; name = [] }))
  | true ↦ elim (strict_token text (w.i - 1)) [
    | none ↦ none
    | some (name, end) ↦
        let (around', new) = add_last around name in
        some
          (record { walker = record w { i = end }; around = around'; dup = not new; name = name })
  ]
]

-- objectWalk.take
unfoldable pub take : Bytes → Walker → ℕ → OpenObjects → Bool → Option Filed
take text w at around dup =
    let kept : Filed = record { walker = w; around = around; dup = dup; name = [] } in
    elim (byte_at text at) [
      | none ↦ some kept
      | some c ↦
          if c == b'{'
          then some (record { walker = w; around = push around; dup = dup; name = [] })
          else if c == b'}'
          then some (record { walker = w; around = pop around; dup = dup; name = [] })
          else if c == b'"'
          then walk_text text w around dup
          else some kept
    ]

-- The loop of WalkTokens, with the name of the member that the next token starts. Each round but the
-- last passes a token.
unfoldable pub tokens_rounds {ℓ} :
    {S E : Type ℓ}
    → ℕ
    → Bytes
    → (S → Bytes → Bytes → S × Option E)
    → S
    → Filed
    → S × Option (Failure E)
tokens_rounds zero text fn s f = (s, some malformed)
tokens_rounds (suc rounds) text fn s f = elim f.dup [
  | true ↦ (s, some (rest text f.walker))
  | false ↦ elim (token text f.walker) [
    | refused ↦ (s, some malformed)
    | value_ended w ↦ (s, walk_fault text w.i)
    | stopped w at ↦ elim (take text w at f.around f.dup) [
      | none ↦ (s, some malformed)
      | some f' ↦ elim (is_colon f'.walker.state) [
        | true ↦ tokens_rounds rounds text fn s f'
        | false ↦
            let (s', err) = fn s f.name (slice text at f'.walker.i) in
            elim err [
              | some e ↦ (s', some (failed e))
              | none ↦ tokens_rounds rounds text fn s' (record f' { name = [] })
            ]
      ]
    ]
  ]
]

-- WalkTokens
unfoldable pub walk_tokens {ℓ} :
    {S E : Type ℓ} → Bytes → ℤ → (S → Bytes → Bytes → S × Option E) → S → S × Option (Failure E)
walk_tokens text max_depth fn s =
    tokens_rounds (suc (suc (length text))) text fn s
      (record { walker = new_walker text max_depth; around = some []; dup = false; name = [] })
