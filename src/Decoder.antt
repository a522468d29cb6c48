-- ===== src/Decoder.antt =====
-- value.go: DecodeValue, which builds the values of a document in the one walk that checks it. What the
-- caller makes of a number is a parameter. Whether a string is a view of the text is left out.
pub mod Verdict
use go_jsonfast.Base.{
  ℕ, zero, suc, ◌-◌, Bool, true, false, ◌||◌, Option, some, none, List, [], ◌∷◌, ◌==◌,
  if◌then◌else◌, ◌⊎◌, inl, inr, ℤ, length, byte_at, slice, Bytes,
}
use go_jsonfast.Scan.{bytes_eq}
use go_jsonfast.Decode.{strict_token}
use go_jsonfast.Walk.{Walker, new_walker, refused, value_ended, stopped, token}
use go_jsonfast.Iterate.{Failure, malformed}
use go_jsonfast.Walks.{walk_fault, rest, is_colon}

-- The Go values that DecodeValue builds, with numbers of the caller's.
mutual
  pub data GoValue {ℓ} (N : Type ℓ) : Type ℓ where
    null : GoValue N
    bool : Bool → GoValue N
    number : N → GoValue N
    text : Bytes → GoValue N
    array : GoValues N → GoValue N
    object : GoFields N → GoValue N

  pub data GoValues {ℓ} (N : Type ℓ) : Type ℓ where
    no_values : GoValues N
    value_before : GoValue N → GoValues N → GoValues N

  -- A map by its entries.
  pub data GoFields {ℓ} (N : Type ℓ) : Type ℓ where
    no_fields : GoFields N
    field_before : Bytes → GoValue N → GoFields N → GoFields N

-- openValue: an object with the name of the member whose value comes next, or an array.
pub data OpenValue {ℓ} (N : Type ℓ) : Type ℓ where
  open_object : GoFields N → Bytes → OpenValue N
  open_array : GoValues N → OpenValue N

module _ {ℓ} {N : Type ℓ} where
  -- append(array, v)
  pub append_value : GoValues N → GoValue N → GoValues N
  append_value no_values v = value_before v no_values
  append_value (value_before x xs) v = value_before x (append_value xs v)

  -- object[name] = v
  pub put_field : GoFields N → Bytes → GoValue N → GoFields N
  put_field no_fields name v = field_before name v no_fields
  put_field (field_before x w fs) name v =
      let fs' = put_field fs name v in
      if bytes_eq x name then field_before x v fs else field_before x w fs'

  pub has_field : GoFields N → Bytes → Bool
  has_field no_fields name = false
  has_field (field_before x w fs) name = bytes_eq x name || has_field fs name

  abbrev pub open_value_of : ℕ → OpenValue N
  open_value_of c = if c == b'{' then open_object no_fields [] else open_array no_values

  -- openValue.value
  abbrev pub closed_value : OpenValue N → GoValue N
  closed_value (open_object fs name) = object fs
  closed_value (open_array vs) = array vs

  -- openValue.add
  unfoldable pub add_value : OpenValue N → GoValue N → OpenValue N
  unfolding put_field append_value
  add_value (open_object fs name) v = open_object (put_field fs name v) name
  add_value (open_array vs) v = open_array (append_value vs v)

-- The containers that are open, the innermost first, the value of the document, and whether an object
-- repeats a name.
pub record Decoding {ℓ} (N : Type ℓ) : Type ℓ where
  pub around : List (OpenValue N)
  pub top : GoValue N
  pub repeated : Bool

module _ {ℓ} {N : Type ℓ} where
  -- The end of place: the value joins the innermost container, or is the document.
  unfoldable pub place_value : GoValue N → Decoding N → Decoding N
  place_value v s = elim s.around [
    | [] ↦ record s { top = v }
    | o ∷ os ↦ record s { around = add_value o v ∷ os }
  ]

  -- name, of the innermost container, an object.
  unfoldable pub name_next : Bytes → Decoding N → Decoding N
  name_next name s = elim s.around [
    | [] ↦ s
    | o ∷ os ↦ elim o [
      | open_object fs _ ↦ record s {
        around = open_object fs name ∷ os;
        repeated = s.repeated || has_field fs name;
      }
      | open_array vs ↦ s
    ]
  ]

  -- The closer of the innermost container.
  unfoldable pub close_value : Decoding N → Decoding N
  close_value s = elim s.around [
    | [] ↦ s
    | o ∷ os ↦ place_value (closed_value o) (record s { around = os })
  ]

  -- valueDecoder.scalar, of the scalar that starts with the byte c.
  unfoldable pub scalar : (Bytes → N) → Bytes → ℕ → ℕ → ℕ → GoValue N
  scalar num doc c i end =
      if c == b't'
      then bool true
      else if c == b'f'
      then bool false
      else if c == b'n'
      then null
      else number (num (slice doc i end))

  -- valueDecoder.text and what place makes of it: a name of the object, or a value.
  unfoldable pub place_text : Bytes → Walker → Decoding N → Option (Walker × Decoding N)
  place_text doc w s = elim (strict_token doc (w.i - 1)) [
    | none ↦ none
    | some (v, end) ↦
        some
          (record w { i = end }, if is_colon w.state then name_next v s else place_value (text v) s)
  ]

  -- A round of decode, of the token that starts with the byte c at `at`: an opener, or place.
  unfoldable pub place_token :
      (Bytes → N) → Bytes → Walker → ℕ → ℕ → Decoding N → Option (Walker × Decoding N)
  place_token num doc w at c s =
      if c == b'{' || c == b'['
      then some (w, record s { around = open_value_of c ∷ s.around })
      else if c == b'}' || c == b']'
      then some (w, close_value s)
      else if c == b'"'
      then place_text doc w s
      else some (w, place_value (scalar num doc c at w.i) s)

  unfoldable pub place_at :
      (Bytes → N) → Bytes → Walker → ℕ → Decoding N → Option (Walker × Decoding N)
  place_at num doc w at s = elim (byte_at doc at) [
    | none ↦ some (w, s)
    | some c ↦ place_token num doc w at c s
  ]

  -- valueDecoder.end
  unfoldable pub end_value {ℓ'} : {E : Type ℓ'} → Bytes → ℕ → Decoding N → Failure E ⊎ GoValue N
  end_value {E = E} doc i s = elim (walk_fault {E = E} doc i) [ some e ↦ inl e | none ↦ inr s.top ]

  -- valueDecoder.decode. Each round but the last passes a token.
  unfoldable pub decode_loop {ℓ'} :
      {E : Type ℓ'} → ℕ → (Bytes → N) → Bytes → Walker → Decoding N → Failure E ⊎ GoValue N
  decode_loop zero num doc w s = inl malformed
  decode_loop (suc rounds) num doc w s = elim s.repeated [
    | true ↦ inl (rest doc w)
    | false ↦ elim (token doc w) [
      | refused ↦ inl malformed
      | value_ended w' ↦ end_value doc w'.i s
      | stopped w' at ↦ elim (place_at num doc w' at s) [
        | none ↦ inl malformed
        | some (w'', s') ↦ decode_loop rounds num doc w'' s'
      ]
    ]
  ]

  -- DecodeValue
  unfoldable pub decode_value {ℓ'} : {E : Type ℓ'} → Bytes → ℤ → (Bytes → N) → Failure E ⊎ GoValue N
  decode_value doc max_depth num =
      decode_loop (suc (suc (length doc))) num doc (new_walker doc max_depth)
        (record { around = []; top = null; repeated = false })
