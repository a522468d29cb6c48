-- ===== src/Tests.antt =====
-- The theorems at concrete texts, and runs of the definitions on inputs of the repository's tests.
pub mod Documents
pub mod Verdicts
use go_jsonfast.Base.{
  if◌then◌else◌, ◌==◌, negsuc, Option, ℕ, ◌<◌, true, false, some, [], ◌∷◌, ◌++◌, ◌≡◌, refl, ap, sym,
  ◌∙◌, arith, ◌↔◌, ◌+◌, pos, Bytes, codes, suc, length, drop, get_elem?,
}
use go_jsonfast.Swar.{run_of, plain_run, plain_bytes, body_run, body_bytes, plain_byte}
use go_jsonfast.Swar.Lanes.{AreBytes, are_bytes_sound}
use go_jsonfast.Swar.Runs.{body_run-body_bytes, plain_run-plain_bytes, FollowsPlain}
use go_jsonfast.Scan.{is_number, skip_ws}
use go_jsonfast.Scan.Number.{IsNumberText}
use go_jsonfast.Scan.Number.Exact.{is_number_iff}
use go_jsonfast.Strings.{
  string_end, strict_end, short_escape, unescape_byte, rune_end, rune_at, rune_of_escape,
  unicode_escape, hex4,
}
use go_jsonfast.Utf8.{is_surrogate}
use go_jsonfast.Strings.Grammar.{IsAnyBody, IsStrictBody}
use go_jsonfast.Strings.Exact.{string_end_iff, strict_end_iff}
use go_jsonfast.Swar.{word_limit}
use go_jsonfast.Scan.{is_digit}
use go_jsonfast.Scan.Number.{IsInteger, digits, minus}
use go_jsonfast.Strings.{clean_run}
use go_jsonfast.Strings.Grammar.{CleanUnit}
use go_jsonfast.Strings.Runs.{clean_run-Passes}
use go_jsonfast.Strings.Units.{Passes, stops_clean}
use go_jsonfast.Escape.{append_escaped, escape_string}
use go_jsonfast.Escape.Exact.{strict_end-append_escaped, escape_string-append_escaped}
use go_jsonfast.Decimal.{append_uint64, append_int64, decode_uint64, decode_int64}
use go_jsonfast.Decimal.Value.{number_of}
use go_jsonfast.Decimal.Exact.{decode_uint64_iff, decode_uint64-append_uint64}
use go_jsonfast.Decimal.Signed.{bounded, decode_int64-bounded, decode_int64-append_int64}
use go_jsonfast.Builder.{
  Builder, append_string_array, begin_object_field, begin_array_field, add_string_field,
  add_string_bytes_field, add_string_array_field, add_int_field, add_int64_field, add_uint64_field,
  add_bool_field, add_null_field, add_raw_json_field,
}
use go_jsonfast.Builder.Keys.{
  new_field_key, begin_object_field_key, begin_array_field_key, add_string_field_key,
  add_string_bytes_field_key, add_string_array_field_key, add_int_field_key, add_int64_field_key,
  add_uint64_field_key, add_bool_field_key, add_null_field_key, add_raw_json_field_key,
}
use go_jsonfast.Builder.Twins.{field_key-twins}
use go_jsonfast.Builder.Arrays.{joined, append_string_array-joined}
use go_jsonfast.Ndjson.{
  BatchWriter, records_from, append_all, acquire_batch_writer, records_from-append_all,
}
use go_jsonfast.Values.{skip_value_at}
use go_jsonfast.Values.Kinds.{KindFits, skip_value_at-KindFits}
use go_jsonfast.Walk.{
  valid_utf8, value_end, new_walker, step, finish, finish_rounds, next, advance, advance_rounds,
  top, entry_at, slot_at, slot_of_byte, state_of, closed,
}
use go_jsonfast.Walk.Kinds.{no_kinds, set_kind, get_kind, put_bit}
use go_jsonfast.Walk.Kinds.Stack.{get_kind-set_kind}
use go_jsonfast.Walk.Grammar.{Value}
use go_jsonfast.Walk.Outcome.{Round, step-Round}
use go_jsonfast.Walk.Valid.{value_end_iff, valid_utf8_iff, valid_utf8-negative}

follows_of :
    (text : Bytes) (k c : ℕ)
    → get_elem? text k ≡ some c
    → plain_byte c ≡ true
    → FollowsPlain text (suc k)
follows_of text k c at plain i d e h =
    let same : i ≡ k = omega arith in
    let h' : get_elem? text k ≡ some d = ap (get_elem? text) (sym same) ∙ h in
    let same' : c ≡ d = cc in rw (← same') plain

abbrev ascii_text : Bytes
ascii_text = codes "abcdefgh ij\"k"

ascii_text-AreBytes : AreBytes ascii_text
ascii_text-AreBytes = are_bytes_sound ascii_text refl

body_run-body_bytes_example : body_run ascii_text 1 ≡ body_bytes ascii_text 1
body_run-body_bytes_example = body_run-body_bytes ascii_text 1 ascii_text-AreBytes

ascii_text_follows : FollowsPlain ascii_text 8
unfolding plain_byte
ascii_text_follows = follows_of ascii_text 7 b'h' refl refl

plain_run-plain_bytes_example : plain_run ascii_text 8 ≡ plain_bytes ascii_text 8
plain_run-plain_bytes_example =
    plain_run-plain_bytes ascii_text 8 ascii_text-AreBytes (omega arith) ascii_text_follows

is_number_iff_example : (is_number (codes "-1.5e+3") ≡ true) ↔ IsNumberText (codes "-1.5e+3")
is_number_iff_example = is_number_iff (codes "-1.5e+3")

abbrev string_text : Bytes
string_text = codes "\"a\\n\\u00e9b\" "

string_text-AreBytes : AreBytes string_text
string_text-AreBytes = are_bytes_sound string_text refl

string_end_iff_example : (string_end string_text 1 ≡ some 12) ↔ (
    (u : Bytes) × (drop 1 string_text ≡ u ++ (b'"' ∷ drop 12 string_text))
    × (12 ≡ 1 + length u + 1)
    × IsAnyBody u)
string_end_iff_example = string_end_iff string_text string_text-AreBytes 1 12

strict_end_iff_example : (strict_end string_text 0 ≡ some 12) ↔ (
    (u : Bytes) × (drop 1 string_text ≡ u ++ (b'"' ∷ drop 12 string_text))
    × (12 ≡ 1 + length u + 1)
    × IsStrictBody u)
strict_end_iff_example = strict_end_iff string_text string_text-AreBytes 0 12

string_text_end : strict_end string_text 0 ≡ some 12
unfolding strict_end short_escape unescape_byte rune_end rune_at rune_of_escape unicode_escape hex4
    is_surrogate
string_text_end = refl

abbrev name_text : Bytes
name_text = codes "a\"b"

name_text-AreBytes : AreBytes name_text
name_text-AreBytes = are_bytes_sound name_text refl

-- A quote, a newline, a control byte, a rune of two bytes and a byte that begins none.
abbrev mixed_text : Bytes
mixed_text = b'a' ∷ b'"' ∷ 10 ∷ 1 ∷ 0xc3 ∷ 0xa9 ∷ 0xff ∷ b'z' ∷ []

mixed_text-AreBytes : AreBytes mixed_text
mixed_text-AreBytes = are_bytes_sound mixed_text refl

strict_end-append_escaped_example :
    strict_end (b'"' ∷ (append_escaped [] mixed_text ++ (b'"' ∷ name_text))) 0
    ≡ some (length (append_escaped [] mixed_text) + 2)
strict_end-append_escaped_example =
    strict_end-append_escaped mixed_text name_text mixed_text-AreBytes name_text-AreBytes

escape_string-append_escaped_example : escape_string mixed_text ≡ append_escaped [] mixed_text
escape_string-append_escaped_example = escape_string-append_escaped mixed_text mixed_text-AreBytes

clean_run-Passes_example : Passes CleanUnit stops_clean mixed_text 4 (clean_run mixed_text 4)
clean_run-Passes_example = clean_run-Passes mixed_text mixed_text-AreBytes 4

decode_uint64_iff_example :
    (decode_uint64 (codes "1024") ≡ some 1024)
    ↔ (IsInteger (codes "1024") × (number_of 0 (codes "1024") ≡ 1024) × (1024 < word_limit))
decode_uint64_iff_example = decode_uint64_iff (codes "1024") 1024

decode_uint64-append_uint64_example :
    decode_uint64 (append_uint64 [] 18446744073709551615) ≡ some 18446744073709551615
decode_uint64-append_uint64_example = decode_uint64-append_uint64 18446744073709551615 (omega arith)

one_thousand : IsInteger (codes "1000")
unfolding is_digit
one_thousand = digits refl (omega arith) (refl, (refl, (refl, tt)))

decode_int64-bounded_example :
    decode_int64 (codes "-" ++ codes "1000") ≡ bounded (minus refl) (number_of 0 (codes "1000"))
decode_int64-bounded_example =
    decode_int64-bounded (codes "-") (codes "1000") (minus refl) one_thousand

decode_int64-append_int64_example :
    decode_int64 (append_int64 [] (negsuc 9223372036854775807)) ≡ some (negsuc 9223372036854775807)
decode_int64-append_int64_example =
    decode_int64-append_int64 (negsuc 9223372036854775807) (omega arith)

abbrev open_fields : Builder
open_fields = record { buf = codes "{\"x\":1"; need_sep = true }

append_string_array-joined_example :
    append_string_array (name_text ∷ mixed_text ∷ []) open_fields ≡ record {
      buf = codes "{\"x\":1" ++ b'[' ∷ (joined false (name_text ∷ mixed_text ∷ []) ++ b']' ∷ []);
      need_sep = true;
    }
append_string_array-joined_example =
    append_string_array-joined (name_text ∷ mixed_text ∷ []) open_fields
      (name_text-AreBytes, (mixed_text-AreBytes, tt))

field_key-twins_example :
    (begin_object_field_key (new_field_key name_text) open_fields
      ≡ begin_object_field name_text open_fields)
    × (begin_array_field_key (new_field_key name_text) open_fields
        ≡ begin_array_field name_text open_fields)
    × (add_string_field_key (new_field_key name_text) mixed_text open_fields
        ≡ add_string_field name_text mixed_text open_fields)
    × (add_string_bytes_field_key (new_field_key name_text) mixed_text open_fields
        ≡ add_string_bytes_field name_text mixed_text open_fields)
    × (add_string_array_field_key (new_field_key name_text) (mixed_text ∷ []) open_fields
        ≡ add_string_array_field name_text (mixed_text ∷ []) open_fields)
    × (add_int_field_key (new_field_key name_text) (pos 7) open_fields
        ≡ add_int_field name_text (pos 7) open_fields)
    × (add_int64_field_key (new_field_key name_text) (pos 7) open_fields
        ≡ add_int64_field name_text (pos 7) open_fields)
    × (add_uint64_field_key (new_field_key name_text) 7 open_fields
        ≡ add_uint64_field name_text 7 open_fields)
    × (add_bool_field_key (new_field_key name_text) true open_fields
        ≡ add_bool_field name_text true open_fields)
    × (add_null_field_key (new_field_key name_text) open_fields
        ≡ add_null_field name_text open_fields)
    × (add_raw_json_field_key (new_field_key name_text) (codes "[]") open_fields
        ≡ add_raw_json_field name_text (codes "[]") open_fields)
field_key-twins_example =
    field_key-twins name_text mixed_text (codes "[]") (mixed_text ∷ []) (pos 7) 7 true open_fields
      name_text-AreBytes

null_end : skip_value_at (codes " null ") 0 ≡ some 5
unfolding skip_value_at
null_end = refl

abbrev used_writer : Option BatchWriter
used_writer = some (record { buf = codes "old"; count = 3 })

records_from-append_all_example :
    (records_from []
        (append_all (codes "{}" ∷ [] ∷ codes "1" ∷ []) (acquire_batch_writer used_writer)).buf
      ≡ codes "{}" ∷ [] ∷ codes "1" ∷ [])
    × ((append_all (codes "{}" ∷ [] ∷ codes "1" ∷ []) (acquire_batch_writer used_writer)).count
        ≡ length (codes "{}" ∷ [] ∷ codes "1" ∷ []))
records_from-append_all_example =
    records_from-append_all used_writer (codes "{}" ∷ [] ∷ codes "1" ∷ [])
      ((refl, (refl, tt)), (tt, ((refl, tt), tt)))

skip_value_at-KindFits_example : KindFits (codes " null ") 5
skip_value_at-KindFits_example = skip_value_at-KindFits (codes " null ") 5 null_end

valid_nested : valid_utf8 (codes " [{} , [[]]] ") (pos 3) ≡ true
unfolding valid_utf8 finish finish_rounds next advance advance_rounds new_walker top step entry_at
    slot_at skip_ws run_of slot_of_byte state_of closed get_kind set_kind put_bit
valid_nested = refl

valid_too_deep : valid_utf8 (codes "[[[]]]") (pos 2) ≡ false
unfolding valid_utf8 finish finish_rounds next advance advance_rounds new_walker top step entry_at
    slot_at skip_ws run_of slot_of_byte state_of closed get_kind set_kind put_bit
valid_too_deep = refl

valid_mismatched : valid_utf8 (codes "[{]}") (pos 9) ≡ false
unfolding valid_utf8 finish finish_rounds next advance advance_rounds new_walker top step entry_at
    slot_at skip_ws run_of slot_of_byte state_of closed get_kind set_kind put_bit
valid_mismatched = refl

valid_trailing : valid_utf8 (codes "[],") (pos 9) ≡ false
unfolding valid_utf8 finish finish_rounds next advance advance_rounds new_walker top step entry_at
    slot_at skip_ws run_of slot_of_byte state_of closed get_kind set_kind put_bit
valid_trailing = refl

abbrev nested : Bytes
nested = codes " [1,{\"a\":[]}] "

valid_utf8_iff_example :
    (valid_utf8 nested (pos 3) ≡ true)
    ↔ ((e : ℕ) × Value nested 3 0 e × (skip_ws nested e ≡ length nested))
valid_utf8_iff_example = valid_utf8_iff nested 3 (are_bytes_sound nested refl)

value_end_iff_example :
    (value_end nested (new_walker nested (pos 3)) 5 ≡ some 13) ↔ Value nested 3 5 13
unfolding new_walker top
value_end_iff_example =
    value_end_iff nested (new_walker nested (pos 3)) 3 5 13 (are_bytes_sound nested refl) refl refl

step-Round_example : Round nested 3 (new_walker nested (pos 3)) []
unfolding new_walker top
step-Round_example =
    step-Round nested 3 (new_walker nested (pos 3)) [] (are_bytes_sound nested refl)
      (record {
        bound_is = refl;
        depth_is = refl;
        inline = refl;
        room = omega arith;
        kinds_are = tt;
      })
      tt

get_kind-set_kind_example :
    get_kind (set_kind no_kinds 256 1) 3 ≡ (if 256 == 3 then 1 else get_kind no_kinds 3)
get_kind-set_kind_example = get_kind-set_kind no_kinds 256 1 3 refl (omega arith) (omega arith)

valid_utf8-negative_example : valid_utf8 nested (negsuc 0) ≡ false
valid_utf8-negative_example = valid_utf8-negative nested 0
