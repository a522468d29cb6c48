-- ===== src/Flatten.antt =====
-- flatten.go: FlattenObject, which writes the leaves of an object into a Builder in the one walk that
-- checks it. The arenas of the names are left out: a decoded name is a value.
pub mod Moves
pub mod Verdict
pub mod Written
pub mod Grown
use go_jsonfast.Base.{
  ℕ, zero, suc, ◌+◌, ◌-◌, Bool, true, false, ◌&&◌, ◌||◌, not, Option, some, none, List, [], ◌∷◌,
  ◌++◌, ltb, ◌==◌, if◌then◌else◌, pos, length, take, byte_at, slice, Bytes,
}
use go_jsonfast.Scan.{skip_ws}
use go_jsonfast.Strings.{strict_end}
use go_jsonfast.Decode.{stands, strict_token}
use go_jsonfast.Builder.{Builder, write, add_raw_bytes_field}
use go_jsonfast.Names.{NameSet, no_names, add, inline_names, OpenObjects, push, pop}
use go_jsonfast.Walk.{Walker, new_walker, refused, value_ended, stopped, token, valid_utf8}
use go_jsonfast.Iterate.{Failure, malformed}
use go_jsonfast.Walks.{walk_fault, rest, is_colon, add_last}

abbrev pub max_flatten_depth : ℕ
max_flatten_depth = 64

-- `pending` is the part of the array that holds names, waiting long.
pub record Flattener : Type 0 where
  pub b : Builder
  pub leaves : NameSet
  pub pending : List Bytes
  pub key : Bytes
  pub name : Bytes
  pub leaf : ℕ
  pub repeated : Bool
  pub comma : Bool
  pub named : Bool

-- What a method does to the flattener and to the sets of the open objects.
abbrev pub State : Type 0
State = OpenObjects × Flattener

abbrev pub put : Bytes → Flattener → Flattener
put p f = record f { b = write p f.b }

unfoldable pub item : Flattener → Flattener
item f =
    if f.leaf == 0
    then record f { b = add_raw_bytes_field f.key [] f.b }
    else if f.comma
    then put (b',' ∷ []) f
    else f

unfoldable pub value : Bytes → ℕ → ℕ → Flattener → Flattener
value text at end f = record (put (slice text at end) (item f)) { comma = true }

unfoldable pub open_leaf : ℕ → Flattener → Flattener
open_leaf c f = record (put (c ∷ []) (item f)) { leaf = suc f.leaf; comma = false }

-- The closer of a container that open_leaf opened.
unfoldable pub close_leaf : ℕ → Flattener → Flattener
close_leaf c f = record (put (c ∷ []) f) { leaf = f.leaf - 1; comma = true }

-- add of the last of the sets.
unfoldable pub add_open : Bytes → State → State
add_open name (around, f) =
    let (around', new) = add_last around name in
    (around', record f { repeated = f.repeated || not new })

-- What member makes of the name that stands from `at` to `end`.
unfoldable pub file_name : Bytes → ℕ → ℕ → Bytes → State → State
file_name text at end name (around, f) =
    if f.leaf == 0
    then (around, record f { key = slice text (suc at) (end - 1); name = name })
    else (let (around', f') = add_open name (around, f) in
        (around', record (put (slice text at end ++ b':' ∷ []) (item f')) { comma = false }))

-- member: the walker past the name.
unfoldable pub member : Bytes → Walker → State → Option (Walker × State)
member text w s = elim (strict_token text (w.i - 1)) [
  | none ↦ none
  | some (name, end) ↦ some (record w { i = end }, file_name text (w.i - 1) end name s)
]

-- text: the walker past a string that is a value.
unfoldable pub text_value : Bytes → Walker → Flattener → Option (Walker × Flattener)
text_value text w f = elim (strict_end text (w.i - 1)) [
  | none ↦ none
  | some end ↦ some (record w { i = end }, value text (w.i - 1) end f)
]

unfoldable pub leaf_token : Bytes → Walker → ℕ → ℕ → Flattener → Option (Walker × Flattener)
leaf_token text w at c f =
    if c == b'"'
    then text_value text w f
    else if c == b'['
    then some (w, open_leaf c f)
    else if c == b']'
    then some (w, close_leaf c f)
    else some (w, value text at w.i f)

-- The pending names join the set that ensure has pushed.
unfoldable pub add_pending : List Bytes → OpenObjects → OpenObjects
add_pending [] around = around
add_pending (name ∷ names) around = add_pending names (add_last around name).0

unfoldable pub ensure : State → State
ensure (around, f) =
    if f.named
    then (around, f)
    else (add_pending f.pending (push around), record f { named = true })

unfoldable pub enter : Walker → State → State
enter w (around, f) =
    let (around', f') =
      if not (ltb 1 w.depth) then (around, f) else add_open f.name (ensure (around, f)) in
    (around', record f' { pending = []; named = false })

unfoldable pub leave : State → State
leave (around, f) = (if f.named then pop around else around, record f { named = true })

-- Whether the name of the leaf that starts waits with those of its object.
unfoldable pub leaf_name : Flattener → Flattener × Bool
leaf_name f =
    let (leaves, new) = add f.leaves f.name in
    let f' : Flattener = record f { leaves = leaves; repeated = f.repeated || not new } in
    if not f.named && ltb (length f.pending) inline_names
    then (record f' { pending = f.pending ++ f.name ∷ [] }, true)
    else (f', false)

unfoldable pub set_name : State → State
set_name (around, f) = add_open f.name (ensure (around, f))

-- object, of the byte before w.i.
unfoldable pub object : Walker → ℕ → State → State
object w c (around, f) =
    if f.leaf == 0
    then (if c == b'{' then enter w (around, f) else leave (around, f))
    else if c == b'{'
    then (push around, open_leaf c f)
    else (pop around, close_leaf c f)

-- The third case of take's switch: the name of a leaf that starts is filed.
unfoldable pub file_leaf : State → State
file_leaf (around, f) =
    if not (f.leaf == 0)
    then (around, f)
    else (let (f', waits) = leaf_name f in if waits then (around, f') else set_name (around, f'))

-- With the sets that stay as they are.
abbrev pub beside : OpenObjects → Option (Walker × Flattener) → Option (Walker × State)
beside around none = none
beside around (some (w, f)) = some (w, (around, f))

-- take of the token that starts with the byte c.
unfoldable pub take_token : Bytes → Walker → ℕ → ℕ → State → Option (Walker × State)
take_token text w at c s =
    if c == b'"' && is_colon w.state
    then member text w s
    else if c == b'{' || c == b'}'
    then some (w, object w c s)
    else (let (around, f) = file_leaf s in beside around (leaf_token text w at c f))

-- flattener.take
unfoldable pub take_at : Bytes → Walker → ℕ → State → Option (Walker × State)
take_at text w at s = elim (byte_at text at) [
  | none ↦ some (w, s)
  | some c ↦ take_token text w at c s
]

-- flattener.run. Each round but the last passes a token.
unfoldable pub run_rounds {ℓ} :
    {E : Type ℓ} → ℕ → Bytes → Walker → State → Flattener × Option (Failure E)
run_rounds zero text w s = (s.1, some malformed)
run_rounds (suc rounds) text w (around, f) = elim f.repeated [
  | true ↦ (f, some (rest text w))
  | false ↦ elim (token text w) [
    | refused ↦ (f, some malformed)
    | value_ended w' ↦ (f, walk_fault text w'.i)
    | stopped w' at ↦ elim (take_at text w' at (around, f)) [
      | none ↦ (f, some malformed)
      | some (w'', s) ↦ run_rounds rounds text w'' s
    ]
  ]
]

abbrev pub new_flattener : Builder → Flattener
new_flattener b = record {
  b = b;
  leaves = no_names;
  pending = [];
  key = [];
  name = [];
  leaf = 0;
  repeated = false;
  comma = false;
  named = false;
}

-- FlattenObject
unfoldable pub flatten_object {ℓ} : {E : Type ℓ} → Builder → Bytes → Builder × Option (Failure E)
flatten_object {E = E} b text =
    if not (stands text (skip_ws text 0) b'{')
    then (b, if not (valid_utf8 text (pos max_flatten_depth)) then some malformed else none)
    else (let (f, err) =
          run_rounds {E = E} (suc (suc (length text))) text
            (new_walker text (pos max_flatten_depth)) (some [], new_flattener b) in
        elim err [
          | none ↦ (f.b, none)
          | some e ↦ (record { buf = take (length b.buf) f.b.buf; need_sep = b.need_sep }, some e)
        ])
