-- ===== src/Tests/Documents.antt =====
-- The theorems on decoded strings, name sets and iterators at concrete texts, and runs of their definitions.
use go_jsonfast.Base.{
  Option, ℕ, true, some, none, List, [], ◌∷◌, ◌++◌, ◌≡◌, ◌↔◌, refl, pos, ◌>>=◌, Bytes, codes,
  length,
}
use go_jsonfast.Swar.Lanes.{are_bytes_sound}
use go_jsonfast.Strings.{
  any_body, strict_end, skip_string_at, rune_of_escape, unicode_escape, hex4, rune_of_pair,
  unescape_byte,
}
use go_jsonfast.Utf8.{is_surrogate, decode_pair}
use go_jsonfast.Escape.{append_escaped}
use go_jsonfast.Decode.{decode_string, equal_string, token_at, token_value, strict_token}
use go_jsonfast.Decode.Tokens.{IsToken, decode_string_iff}
use go_jsonfast.Decode.Equal.{equal_string-decode_string}
use go_jsonfast.Decode.Escaped.{Mends, decode_string-append_escaped}
use go_jsonfast.Decode.Ends.{token_at-skip_string_at, strict_token-strict_end}
use go_jsonfast.Names.{no_names, add, name_slots, slot_of}
use go_jsonfast.Names.Probes.{Probing}
use go_jsonfast.Names.Sets.{Added, add-Added, add-Probing, no_names-IsNameSet, no_names-IsTable}
use go_jsonfast.Iterate.{
  iterate_array, iterate_members, close_err, find_element, find_member, Failure,
}
use go_jsonfast.Iterate.Members.{members, feed_new, collect_members, iterate_members-members}
use go_jsonfast.Iterate.Lookups.{lookup, find_member-iterate_members}
use go_jsonfast.Cursor
use go_jsonfast.Cursor.{cursor_of, raw}

abbrev quoted : Bytes
quoted = codes "\"a\\u0042\\ud83d\\ude00\\n\""

abbrev content : Bytes
content = codes "aB" ++ 0xF0 ∷ 0x9F ∷ 0x98 ∷ 0x80 ∷ b'\n' ∷ []

abbrev document : Bytes
document = codes " {\"a\\u0062\":[1,[2]],\"b\":{}} "

abbrev numbers : Bytes
numbers = codes " [1,[2], \"x\"] "

decode_string_iff_example :
    (decode_string quoted ≡ some content) ↔ IsToken any_body quoted 0 content (length quoted)
decode_string_iff_example = decode_string_iff quoted content (are_bytes_sound quoted refl)

equal_string-decode_string_example :
    (equal_string quoted (codes "aB") ≡ true) ↔ (decode_string quoted ≡ some (codes "aB"))
equal_string-decode_string_example =
    equal_string-decode_string quoted (codes "aB") (are_bytes_sound quoted refl)

decode_string-append_escaped_example :
    (x : Bytes) × Mends (0xFF ∷ codes "<\"") x
    × (decode_string (b'"' ∷ (append_escaped [] (0xFF ∷ codes "<\"") ++ (b'"' ∷ []))) ≡ some x)
decode_string-append_escaped_example =
    decode_string-append_escaped (0xFF ∷ codes "<\"") (are_bytes_sound (0xFF ∷ codes "<\"") refl)

token_at-skip_string_at_example :
    ((x : Bytes) × (token_value (token_at document 2 any_body) ≡ some (x, 11)))
    ↔ (skip_string_at document 2 ≡ some 11)
token_at-skip_string_at_example =
    token_at-skip_string_at document 2 11 (are_bytes_sound document refl)

strict_token-strict_end_example :
    ((x : Bytes) × (strict_token document 2 ≡ some (x, 11))) ↔ (strict_end document 2 ≡ some 11)
strict_token-strict_end_example =
    strict_token-strict_end document 2 11 (are_bytes_sound document refl) refl

add-Added_example : Added no_names (codes "id") (add no_names (codes "id"))
add-Added_example = add-Added no_names (codes "id") no_names-IsNameSet

abbrev gather : List Bytes → Bytes → List Bytes × Option ℕ
gather seen value = (seen ++ value ∷ [], none)

iterate_members-members_example :
    iterate_members document (collect_members {E = ℕ}) []
    ≡ feed_new collect_members [] [] (members document).0 (close_err document (members document).1)
iterate_members-members_example = iterate_members-members document collect_members []

abbrev flat : Bytes
flat = codes "{\"a\":[],\"b\":{}}"

flat_accepted : (iterate_members {E = ℕ} flat collect_members []).1 ≡ none
unfolding iterate_members
flat_accepted = refl

find_member-iterate_members_example :
    find_member flat (codes "b")
    ≡ lookup (codes "b") (iterate_members {E = ℕ} flat collect_members []).0
find_member-iterate_members_example =
    find_member-iterate_members flat (codes "b") (are_bytes_sound flat refl) flat_accepted

decoded : decode_string quoted ≡ some content
unfolding decode_string rune_of_escape unicode_escape hex4 is_surrogate rune_of_pair decode_pair
    unescape_byte
decoded = refl

equal_to_decoded : equal_string quoted content ≡ true
unfolding equal_string rune_of_escape unicode_escape hex4 is_surrogate rune_of_pair decode_pair
    unescape_byte
equal_to_decoded = refl

repeated :
    iterate_members {E = ℕ} (codes "{\"a\":[],\"\\u0061\":[]}") collect_members []
    ≡ ((codes "a", codes "[]") ∷ [], some Failure.duplicate_name)
unfolding iterate_members rune_of_escape unicode_escape hex4 is_surrogate
repeated = refl

second : find_element numbers (pos 1) ≡ some (codes "[2]")
unfolding find_element
second = refl

no_third_comma :
    iterate_array (codes "[[] {}]") gather [] ≡ (codes "[]" ∷ [], some Failure.malformed)
unfolding iterate_array
no_third_comma = refl

pointed : (Cursor.find_member (cursor_of flat) (codes "b") >>= raw) ≡ some (codes "{}")
unfolding Cursor.find_member raw cursor_of
pointed = refl

add-Probing_example :
    Probing no_names no_names-IsTable (codes "id") name_slots (slot_of (codes "id"))
add-Probing_example = add-Probing no_names (codes "id") no_names-IsTable
