-- ===== src/Builder/Twins.antt =====
-- Every FieldKey writer writes what its Field twin writes.
use go_jsonfast.Base.{
  ℕ, Bool, true, false, List, [], ◌∷◌, ◌++◌, ◌≡◌, ap, sym, ◌∙◌, if◌then◌else◌, ℤ, Bytes,
  append_assoc,
}
use go_jsonfast.Swar.Lanes.{AreBytes}
use go_jsonfast.Escape.{append_escaped, escape_string}
use go_jsonfast.Escape.Rules.{Escapes-unique}
use go_jsonfast.Escape.Steps.{append_escaped-Escapes}
use go_jsonfast.Escape.Exact.{escape_string-append_escaped}
use go_jsonfast.Builder.{
  Builder, sep, append_quoted, field_key, begin_object_field, begin_array_field, add_string_field,
  add_string_bytes_field, add_string_array_field, add_int_field, add_int64_field, add_uint64_field,
  add_bool_field, add_null_field, add_raw_json_field, begin_object, begin_array,
  append_string_array, write_int64, write_uint64, write_bool, write,
}
use go_jsonfast.Scan.{lit_null}
use go_jsonfast.Builder.Keys.{
  new_field_key, precomputed_key, begin_object_field_key, begin_array_field_key,
  add_string_field_key, add_string_bytes_field_key, add_string_array_field_key, add_int_field_key,
  add_int64_field_key, add_uint64_field_key, add_bool_field_key, add_null_field_key,
  add_raw_json_field_key,
}

-- appendEscaped appends what EscapeString returns.
pub append_escaped-escape_string :
    (dst p : Bytes) → AreBytes p → append_escaped dst p ≡ dst ++ escape_string p
append_escaped-escape_string dst p b =
    let (q, out, rules) = append_escaped-Escapes dst p b in
    let (q', out', rules') = append_escaped-Escapes [] p b in
    out
    ∙ ap (λ s. dst ++ s)
        (Escapes-unique rules rules' ∙ sym out' ∙ sym (escape_string-append_escaped p b))

-- The bytes of a key, between the separator and the value.
abbrev key_text : Bytes → Bytes
key_text name = b'"' ∷ (escape_string name ++ b'"' ∷ b':' ∷ [])

quoted_key :
    (start name : Bytes)
    → AreBytes name
    → (append_escaped (start ++ b'"' ∷ []) name ++ b'"' ∷ []) ++ b':' ∷ [] ≡ start ++ key_text name
quoted_key start name bytes =
    let e = escape_string name in
    ap (λ w. (w ++ b'"' ∷ []) ++ b':' ∷ [])
      (append_escaped-escape_string (start ++ b'"' ∷ []) name bytes)
    ∙ append_assoc ((start ++ b'"' ∷ []) ++ e) (b'"' ∷ []) (b':' ∷ [])
    ∙ append_assoc (start ++ b'"' ∷ []) e (b'"' ∷ b':' ∷ [])
    ∙ append_assoc start (b'"' ∷ []) (e ++ b'"' ∷ b':' ∷ [])

pub precomputed_key-field_key :
    (name : Bytes)
    → AreBytes name
    → (b : Builder) → precomputed_key (new_field_key name) b ≡ field_key name b
unfolding precomputed_key new_field_key field_key append_quoted sep
precomputed_key-field_key name bytes b =
    ap (λ w. record { buf = w; need_sep = true }) (same (b.need_sep))
  where
    same :
        (needs : Bool)
        → b.buf ++ (if needs then b',' ∷ key_text name else key_text name)
          ≡ (append_escaped ((if needs then b.buf ++ b',' ∷ [] else b.buf) ++ b'"' ∷ []) name
              ++ b'"' ∷ [])
            ++ b':' ∷ []
    same true =
        sym (append_assoc b.buf (b',' ∷ []) (key_text name))
        ∙ sym (quoted_key (b.buf ++ b',' ∷ []) name bytes)
    same false = sym (quoted_key b.buf name bytes)

-- The writers with a key that NewFieldKey built do to a Builder what the writers with the name
-- do, for a name of bytes.
pub field_key-twins :
    (name v raw : Bytes) (values : List Bytes) (z : ℤ) (n : ℕ) (t : Bool) (b : Builder)
    → AreBytes name
    → (begin_object_field_key (new_field_key name) b ≡ begin_object_field name b)
      × (begin_array_field_key (new_field_key name) b ≡ begin_array_field name b)
      × (add_string_field_key (new_field_key name) v b ≡ add_string_field name v b)
      × (add_string_bytes_field_key (new_field_key name) v b ≡ add_string_bytes_field name v b)
      × (add_string_array_field_key (new_field_key name) values b
          ≡ add_string_array_field name values b)
      × (add_int_field_key (new_field_key name) z b ≡ add_int_field name z b)
      × (add_int64_field_key (new_field_key name) z b ≡ add_int64_field name z b)
      × (add_uint64_field_key (new_field_key name) n b ≡ add_uint64_field name n b)
      × (add_bool_field_key (new_field_key name) t b ≡ add_bool_field name t b)
      × (add_null_field_key (new_field_key name) b ≡ add_null_field name b)
      × (add_raw_json_field_key (new_field_key name) raw b ≡ add_raw_json_field name raw b)
unfolding begin_object_field_key begin_object_field begin_array_field_key begin_array_field
    add_string_field_key add_string_field add_string_bytes_field_key add_string_bytes_field
    add_string_array_field_key add_string_array_field add_int_field_key add_int_field
    add_int64_field_key add_int64_field add_uint64_field_key add_uint64_field add_bool_field_key
    add_bool_field add_null_field_key add_null_field add_raw_json_field_key add_raw_json_field
field_key-twins name v raw values z n t b bytes =
    let same = precomputed_key-field_key name bytes b in
    (
      ap begin_object same,
      ap begin_array same,
      ap (append_quoted v) same,
      ap (append_quoted v) same,
      ap (append_string_array values) same,
      ap (write_int64 z) same,
      ap (write_int64 z) same,
      ap (write_uint64 n) same,
      ap (write_bool t) same,
      ap (write lit_null) same,
      ap (write raw) same,
    )
