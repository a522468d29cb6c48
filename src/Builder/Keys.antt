-- ===== src/Builder/Keys.antt =====
-- fieldkey.go: the keys of fields, escaped once.
use go_jsonfast.Base.{ℕ, Bool, true, List, [], ◌∷◌, ◌++◌, if◌then◌else◌, ℤ, drop, Bytes}
use go_jsonfast.Scan.{lit_null}
use go_jsonfast.Escape.{escape_string}
use go_jsonfast.Builder.{
  Builder, write, begin_object, begin_array, append_quoted, append_string_array, write_int64,
  write_uint64, write_bool,
}

pub record FieldKey : Type 0 where
  pub prefix : Bytes

unfoldable pub new_field_key : Bytes → FieldKey
new_field_key name = record { prefix = b',' ∷ b'"' ∷ (escape_string name ++ b'"' ∷ b':' ∷ []) }

-- k.prefix[1:], on a key that NewFieldKey built.
unfoldable pub precomputed_key : FieldKey → Builder → Builder
precomputed_key k b = record {
  buf = b.buf ++ (if b.need_sep then k.prefix else drop 1 k.prefix);
  need_sep = true;
}

unfoldable pub begin_object_field_key : FieldKey → Builder → Builder
begin_object_field_key k b = begin_object (precomputed_key k b)

unfoldable pub begin_array_field_key : FieldKey → Builder → Builder
begin_array_field_key k b = begin_array (precomputed_key k b)

unfoldable pub add_string_field_key : FieldKey → Bytes → Builder → Builder
add_string_field_key k v b = append_quoted v (precomputed_key k b)

unfoldable pub add_string_bytes_field_key : FieldKey → Bytes → Builder → Builder
add_string_bytes_field_key k v b = append_quoted v (precomputed_key k b)

unfoldable pub add_string_array_field_key : FieldKey → List Bytes → Builder → Builder
add_string_array_field_key k values b = append_string_array values (precomputed_key k b)

unfoldable pub add_int_field_key : FieldKey → ℤ → Builder → Builder
add_int_field_key k v b = write_int64 v (precomputed_key k b)

unfoldable pub add_int64_field_key : FieldKey → ℤ → Builder → Builder
add_int64_field_key k v b = write_int64 v (precomputed_key k b)

unfoldable pub add_uint64_field_key : FieldKey → ℕ → Builder → Builder
add_uint64_field_key k v b = write_uint64 v (precomputed_key k b)

unfoldable pub add_bool_field_key : FieldKey → Bool → Builder → Builder
add_bool_field_key k v b = write_bool v (precomputed_key k b)

unfoldable pub add_null_field_key : FieldKey → Builder → Builder
add_null_field_key k b = write lit_null (precomputed_key k b)

unfoldable pub add_raw_json_field_key : FieldKey → Bytes → Builder → Builder
add_raw_json_field_key k raw b = write raw (precomputed_key k b)
