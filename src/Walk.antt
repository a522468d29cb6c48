-- ===== src/Walk.antt =====
-- validate.go: the walker that checks the grammar of a JSON value by a table, with a stack of one
-- bit for each open container.
pub mod Kinds
pub mod Grammar
pub mod Moves
pub mod Table
pub mod Tokens
pub mod Steps
pub mod Invariant
pub mod Taken
pub mod Outcome
pub mod Forward
pub mod Exact
pub mod Rounds
pub mod Resume
pub mod Valid
use go_jsonfast.Base.{
  ℕ, zero, suc, ◌+◌, ◌-◌, ◌*◌, ◌/◌, ◌%◌, ◌^◌, Bool, true, false, ◌&&◌, ◌||◌, not, Option, some,
  none, [], ◌∷◌, ◌++◌, List, ltb, leb, ◌==◌, if◌then◌else◌, ◌>>=◌, ℤ, pos, negsuc, length, drop,
  byte_at, get_or, Bytes, bit_and, bit_or, bit_xor, codes,
}
use go_jsonfast.Swar.{shift_right}
use go_jsonfast.Scan.{skip_ws, skip_scalar}
use go_jsonfast.Strings.{strict_end}
use Kinds.{KindStack, no_kinds, set_kind, get_kind}

pub data WalkState : Type 0 where
  walk_value walk_array_first walk_array_value walk_array_after walk_object_first : WalkState
  walk_name walk_colon walk_member_value walk_object_after walk_done : WalkState

-- The number that `iota` gives a state, and back.
unfoldable pub state_code : WalkState → ℕ
state_code walk_value = 0
state_code walk_array_first = 1
state_code walk_array_value = 2
state_code walk_array_after = 3
state_code walk_object_first = 4
state_code walk_name = 5
state_code walk_colon = 6
state_code walk_member_value = 7
state_code walk_object_after = 8
state_code walk_done = 9

unfoldable pub state_of : ℕ → WalkState
state_of n =
    get_or
      (walk_value ∷ walk_array_first ∷ walk_array_value ∷ walk_array_after ∷ walk_object_first
        ∷ walk_name ∷ walk_colon ∷ walk_member_value ∷ walk_object_after ∷ [])
      n walk_done

abbrev pub slot_mask : ℕ
slot_mask = 0xf

abbrev pub slot_scalar : ℕ
slot_scalar = 0

-- (c ^ c>>5) & slotMask
abbrev pub fold_slot : ℕ → ℕ
fold_slot c = bit_and (bit_xor c (shift_right c 5)) slot_mask

abbrev pub slot_quote : ℕ
slot_quote = fold_slot b'"'

abbrev pub slot_open_object : ℕ
slot_open_object = fold_slot b'{'

abbrev pub slot_colon : ℕ
slot_colon = fold_slot b':'

abbrev pub slot_comma : ℕ
slot_comma = fold_slot b','

abbrev pub slot_end : ℕ
slot_end = 12

abbrev pub slot_bits : ℕ
slot_bits = 4

abbrev pub slot_bytes : Bytes
slot_bytes = codes "\"\"\"\"\"\"\"\"{[\":\",}]"

abbrev pub state_mask : ℕ
state_mask = 0x0f

abbrev pub take_scalar : ℕ
take_scalar = 0x10

abbrev pub take_open : ℕ
take_open = 0x20

abbrev pub take_close : ℕ
take_close = 0x30

-- The entries of the states in order, sixteen slots each.
abbrev walk_table : List ℕ
walk_table =
    0x19 ∷ 0xf0 ∷ 0xf0 ∷ 0x09 ∷ 0xf0 ∷ 0xf0 ∷ 0xf0 ∷ 0xf0 ∷ 0x24 ∷ 0x21 ∷ 0xf0 ∷ 0xf0 ∷ 0xf0 ∷ 0xf0
    ∷ 0xf0 ∷ 0xf0 ∷ 0x13 ∷ 0xf0 ∷ 0xf0 ∷ 0x03 ∷ 0xf0 ∷ 0xf0 ∷ 0xf0 ∷ 0xf0 ∷ 0x24 ∷ 0x21 ∷ 0xf0
    ∷ 0xf0 ∷ 0xf0 ∷ 0xf0 ∷ 0xf0 ∷ 0x30 ∷ 0x13 ∷ 0xf0 ∷ 0xf0 ∷ 0x03 ∷ 0xf0 ∷ 0xf0 ∷ 0xf0 ∷ 0xf0
    ∷ 0x24 ∷ 0x21 ∷ 0xf0 ∷ 0xf0 ∷ 0xf0 ∷ 0xf0 ∷ 0xf0 ∷ 0xf0 ∷ 0xf0 ∷ 0xf0 ∷ 0xf0 ∷ 0xf0 ∷ 0xf0
    ∷ 0xf0 ∷ 0xf0 ∷ 0xf0 ∷ 0xf0 ∷ 0xf0 ∷ 0xf0 ∷ 0xf0 ∷ 0xf0 ∷ 0x02 ∷ 0xf0 ∷ 0x30 ∷ 0xf0 ∷ 0xf0
    ∷ 0xf0 ∷ 0x06 ∷ 0xf0 ∷ 0xf0 ∷ 0xf0 ∷ 0xf0 ∷ 0xf0 ∷ 0xf0 ∷ 0xf0 ∷ 0xf0 ∷ 0xf0 ∷ 0xf0 ∷ 0x30
    ∷ 0xf0 ∷ 0xf0 ∷ 0xf0 ∷ 0xf0 ∷ 0x06 ∷ 0xf0 ∷ 0xf0 ∷ 0xf0 ∷ 0xf0 ∷ 0xf0 ∷ 0xf0 ∷ 0xf0 ∷ 0xf0
    ∷ 0xf0 ∷ 0xf0 ∷ 0xf0 ∷ 0xf0 ∷ 0xf0 ∷ 0xf0 ∷ 0xf0 ∷ 0xf0 ∷ 0xf0 ∷ 0xf0 ∷ 0xf0 ∷ 0xf0 ∷ 0xf0
    ∷ 0xf0 ∷ 0xf0 ∷ 0x07 ∷ 0xf0 ∷ 0xf0 ∷ 0xf0 ∷ 0xf0 ∷ 0x18 ∷ 0xf0 ∷ 0xf0 ∷ 0x08 ∷ 0xf0 ∷ 0xf0
    ∷ 0xf0 ∷ 0xf0 ∷ 0x24 ∷ 0x21 ∷ 0xf0 ∷ 0xf0 ∷ 0xf0 ∷ 0xf0 ∷ 0xf0 ∷ 0xf0 ∷ 0xf0 ∷ 0xf0 ∷ 0xf0
    ∷ 0xf0 ∷ 0xf0 ∷ 0xf0 ∷ 0xf0 ∷ 0xf0 ∷ 0xf0 ∷ 0xf0 ∷ 0xf0 ∷ 0xf0 ∷ 0xf0 ∷ 0x05 ∷ 0x30 ∷ 0xf0 ∷ []

unfoldable pub entry_at : WalkState → ℕ → ℕ
unfolding state_code
entry_at state k = get_or walk_table (state_code state * 2 ^ slot_bits + k) 0xf0

unfoldable pub slot_of_byte : ℕ → ℕ
slot_of_byte c = let k = fold_slot c in if get_or slot_bytes k 0 == c then k else slot_scalar

unfoldable pub slot_at : Bytes → ℕ → ℕ
slot_at text i = elim (byte_at text i) [ none ↦ slot_end | some c ↦ slot_of_byte c ]

-- 1 << slotQuote, and the complement of the colon and the comma in 16 bits.
abbrev pub stop_string : ℕ
stop_string = 2 ^ slot_quote

abbrev pub stop_token : ℕ
stop_token = 2 ^ 16 - 1 - (2 ^ slot_colon + 2 ^ slot_comma)

abbrev pub open_object : ℕ
open_object = bit_and slot_open_object 1

unfoldable pub closed : KindStack → ℕ → WalkState
closed s zero = walk_done
closed s (suc depth) =
    if get_kind s depth == open_object then walk_object_after else walk_array_after

-- The walker; its data is the text that each function takes.
pub record Walker : Type 0 where
  pub max_depth : ℤ
  pub kinds : KindStack
  pub i : ℕ
  pub depth : ℕ
  pub state : WalkState

abbrev pub is_negative : ℤ → Bool
is_negative (pos _) = false
is_negative (negsuc _) = true

-- A walker before a top value at `i`, or at the end of text under a negative bound.
unfoldable pub top : Bytes → Walker → ℕ → Walker
top text w i = record w {
  i = if is_negative w.max_depth then length text else i;
  depth = 0;
  state = walk_value;
}

unfoldable pub new_walker : Bytes → ℤ → Walker
new_walker text max_depth =
    top text
      (record { max_depth = max_depth; kinds = no_kinds; i = 0; depth = 0; state = walk_value }) 0

-- depth >= maxDepth
abbrev pub at_bound : ℕ → ℤ → Bool
at_bound depth (pos n) = leb n depth
at_bound depth (negsuc n) = true

-- One round of advance: the token at the walker and its work. `none` is a fault; else the walker
-- behind the token, the index of its first byte and its slot.
unfoldable pub step : Bytes → Walker → Option (Walker × ℕ × ℕ)
step text w =
    let at = skip_ws text w.i in
    let k = slot_at text at in
    let entry = entry_at w.state k in
    let state = state_of (bit_and entry state_mask) in
    let work = entry - bit_and entry state_mask in
    if work == 0
    then some (record w { i = suc at; state = state }, at, k)
    else if work == take_scalar
    then elim (skip_scalar text at) [
      | none ↦ none
      | some end ↦ some (record w { i = end; state = state }, at, k)
    ]
    else if work == take_open
    then (if at_bound w.depth w.max_depth
        then none
        else some (
          record w {
            kinds = set_kind w.kinds w.depth (bit_and k 1);
            i = suc at;
            depth = suc w.depth;
            state = state;
          },
          at,
          k,
        ))
    else if work == take_close
    then some
        (record w { i = suc at; depth = w.depth - 1; state = closed w.kinds (w.depth - 1) }, at, k)
    else none

-- The results of advance: a fault, the end of the top value (the index is -1 in the source), or
-- the index of the first byte of a token.
pub data Advance : Type 0 where
  refused : Advance
  value_ended : Walker → Advance
  stopped : Walker → ℕ → Advance

abbrev pub is_done : WalkState → Bool
is_done walk_done = true
is_done _ = false

-- stops>>k&1 == 1
abbrev pub stops_at : ℕ → ℕ → Bool
stops_at stops k = bit_and (shift_right stops k) 1 == 1

-- Each round passes a byte, so one round for each byte and one more are enough.
unfoldable pub advance_rounds : ℕ → Bytes → ℕ → Walker → Advance
advance_rounds zero text stops w = refused
advance_rounds (suc rounds) text stops w =
    if is_done w.state then value_ended w else elim (step text w) [
      | none ↦ refused
      | some (w', at, k) ↦ elim (stops_at stops k) [
        | true ↦ stopped w' at
        | false ↦ advance_rounds rounds text stops w'
      ]
    ]

unfoldable pub advance : Bytes → ℕ → Walker → Advance
advance text stops w = advance_rounds (suc (suc (length text))) text stops w

unfoldable pub next : Bytes → Walker → Advance
next text w = advance text stop_string w

unfoldable pub token : Bytes → Walker → Advance
token text w = advance text stop_token w

-- Each round but the last passes a string.
unfoldable pub finish_rounds : ℕ → Bytes → Walker → Option ℕ
finish_rounds zero text w = none
finish_rounds (suc rounds) text w = elim (next text w) [
  | refused ↦ none
  | value_ended w' ↦ some w'.i
  | stopped w' at ↦ elim (strict_end text at) [
    | none ↦ none
    | some end ↦ finish_rounds rounds text (record w' { i = end })
  ]
]

unfoldable pub finish : Bytes → Walker → Option ℕ
finish text w = finish_rounds (suc (suc (length text))) text w

unfoldable pub value_end : Bytes → Walker → ℕ → Option ℕ
value_end text w i = finish text (top text w i)

unfoldable pub valid_utf8 : Bytes → ℤ → Bool
valid_utf8 text max_depth = elim (finish text (new_walker text max_depth)) [
  | none ↦ false
  | some end ↦ skip_ws text end == length text
]
