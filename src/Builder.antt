-- ===== src/Builder.antt =====
-- builder.go: the writers of JSON text, which put a comma where a value needs one. The capacity of
-- a buffer is not in the model, and neither are the writers of floats, times and Go values.
pub mod Keys
pub mod Twins
pub mod Arrays
use go_jsonfast.Base.{
  ℕ, zero, suc, ◌+◌, ◌-◌, Bool, true, false, Option, some, none, List, [], ◌∷◌, ◌++◌, ◌==◌, ltb,
  if◌then◌else◌, ℤ, length, drop, slice, Bytes,
}
use go_jsonfast.Scan.{lit_true, lit_false, lit_null, trim_ws}
use go_jsonfast.Escape.{append_escaped}
use go_jsonfast.Decimal.{append_int64, append_uint64}

pub record Builder : Type 0 where
  pub buf : Bytes
  pub need_sep : Bool

-- New, and the zero value.
abbrev pub new_builder : Builder
new_builder = record { buf = []; need_sep = false }

-- b.buf = append(b.buf, p...)
abbrev pub write : Bytes → Builder → Builder
write p b = record b { buf = b.buf ++ p }

abbrev pub reset : Builder → Builder
reset b = record { buf = []; need_sep = false }

unfoldable pub sep : Builder → Builder
sep b = record { buf = if b.need_sep then b.buf ++ b',' ∷ [] else b.buf; need_sep = true }

unfoldable pub append_quoted : Bytes → Builder → Builder
append_quoted p b =
    let opened = b.buf ++ b'"' ∷ [] in record b { buf = append_escaped opened p ++ b'"' ∷ [] }

unfoldable pub field_key : Bytes → Builder → Builder
field_key name b = write (b':' ∷ []) (append_quoted name (sep b))

unfoldable pub begin_object : Builder → Builder
begin_object b = record { buf = b.buf ++ b'{' ∷ []; need_sep = false }

unfoldable pub begin_object_field : Bytes → Builder → Builder
begin_object_field name b = begin_object (field_key name b)

unfoldable pub begin_object_element : Builder → Builder
begin_object_element b = begin_object (sep b)

unfoldable pub end_object : Builder → Builder
end_object b = record { buf = b.buf ++ b'}' ∷ []; need_sep = true }

unfoldable pub begin_array : Builder → Builder
begin_array b = record { buf = b.buf ++ b'[' ∷ []; need_sep = false }

unfoldable pub begin_array_field : Bytes → Builder → Builder
begin_array_field name b = begin_array (field_key name b)

unfoldable pub begin_array_element : Builder → Builder
begin_array_element b = begin_array (sep b)

unfoldable pub end_array : Builder → Builder
end_array b = record { buf = b.buf ++ b']' ∷ []; need_sep = true }

unfoldable pub add_string_element : Bytes → Builder → Builder
add_string_element v b = append_quoted v (sep b)

unfoldable pub add_string_elements : List Bytes → Builder → Builder
add_string_elements [] b = b
add_string_elements (v ∷ values) b = add_string_elements values (add_string_element v b)

unfoldable pub append_string_array : List Bytes → Builder → Builder
append_string_array values b = end_array (add_string_elements values (begin_array b))

abbrev pub write_int64 : ℤ → Builder → Builder
write_int64 v b = record b { buf = append_int64 b.buf v }

abbrev pub write_uint64 : ℕ → Builder → Builder
write_uint64 v b = record b { buf = append_uint64 b.buf v }

-- strconv.AppendBool
abbrev pub write_bool : Bool → Builder → Builder
write_bool v b = write (if v then lit_true else lit_false) b

unfoldable pub add_string_field : Bytes → Bytes → Builder → Builder
add_string_field name v b = append_quoted v (field_key name b)

unfoldable pub add_string_bytes_field : Bytes → Bytes → Builder → Builder
add_string_bytes_field name v b = append_quoted v (field_key name b)

unfoldable pub add_string_array_field : Bytes → List Bytes → Builder → Builder
add_string_array_field name values b = append_string_array values (field_key name b)

unfoldable pub add_int_field : Bytes → ℤ → Builder → Builder
add_int_field name v b = write_int64 v (field_key name b)

unfoldable pub add_int64_field : Bytes → ℤ → Builder → Builder
add_int64_field name v b = write_int64 v (field_key name b)

unfoldable pub add_uint64_field : Bytes → ℕ → Builder → Builder
add_uint64_field name v b = write_uint64 v (field_key name b)

unfoldable pub add_bool_field : Bytes → Bool → Builder → Builder
add_bool_field name v b = write_bool v (field_key name b)

unfoldable pub add_null_field : Bytes → Builder → Builder
add_null_field name b = write lit_null (field_key name b)

unfoldable pub add_raw_json_field : Bytes → Bytes → Builder → Builder
add_raw_json_field name raw b = write raw (field_key name b)

unfoldable pub add_raw_bytes_field : Bytes → Bytes → Builder → Builder
add_raw_bytes_field name raw b =
    write raw (write (b'"' ∷ b':' ∷ []) (write name (write (b'"' ∷ []) (sep b))))

unfoldable pub add_string_bytes_element : Bytes → Builder → Builder
add_string_bytes_element v b = append_quoted v (sep b)

unfoldable pub add_string_array_element : List Bytes → Builder → Builder
add_string_array_element values b = append_string_array values (sep b)

unfoldable pub add_int_element : ℤ → Builder → Builder
add_int_element v b = write_int64 v (sep b)

unfoldable pub add_int64_element : ℤ → Builder → Builder
add_int64_element v b = write_int64 v (sep b)

unfoldable pub add_uint64_element : ℕ → Builder → Builder
add_uint64_element v b = write_uint64 v (sep b)

unfoldable pub add_bool_element : Bool → Builder → Builder
add_bool_element v b = write_bool v (sep b)

unfoldable pub add_null_element : Builder → Builder
add_null_element b = write lit_null (sep b)

unfoldable pub add_raw_json_element : Bytes → Builder → Builder
add_raw_json_element raw b = write raw (sep b)

-- bytes.IndexByte + 1, which is 0 where the byte is missing, and bytes.LastIndexByte, `none` there.
abbrev past_first : ℕ → Bytes → ℕ
past_first c [] = 0
past_first c (d ∷ s) =
    let behind = past_first c s in if d == c then 1 else if behind == 0 then 0 else suc behind

abbrev last_at : ℕ → Bytes → Option ℕ
last_at c [] = none
last_at c (d ∷ s) = elim (last_at c s) [
  | some i ↦ some (suc i)
  | none ↦ if d == c then some 0 else none
]

-- raw[opener+1 : max(closer, opener+1)]; slice gives nothing where the end is not past the start.
abbrev members_of : Bytes → Bytes
members_of raw =
    let start = past_first b'{' raw in
    elim (last_at b'}' raw) [ none ↦ [] | some closer ↦ slice raw start closer ]

unfoldable pub add_raw_members : Bytes → Builder → Builder
add_raw_members raw b =
    let members = trim_ws (members_of raw) in
    if length members == 0 then b else write members (sep b)
