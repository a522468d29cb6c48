-- ===== src/Tests/Verdicts.antt =====
-- The theorems on the walks over a whole document at concrete texts, and runs of their definitions.
use go_jsonfast.Base.{
  ℕ, true, Option, some, none, List, [], ◌∷◌, ◌++◌, ◌≡◌, refl, pos, Bytes, codes,
}
use go_jsonfast.Swar.Lanes.{are_bytes_sound}
use go_jsonfast.Scan.{skip_ws}
use go_jsonfast.Strings.{strict_end}
use go_jsonfast.Decode.{strict_token}
use go_jsonfast.Names.{push, pop, add}
use go_jsonfast.Walk.Kinds.{get_kind, set_kind, put_bit}
use go_jsonfast.Walk.{
  valid_utf8, token, next, advance, advance_rounds, new_walker, top, step, entry_at, slot_at,
  slot_of_byte, state_of, closed, finish, finish_rounds,
}
use go_jsonfast.Iterate.{Failure, duplicate_name}
use go_jsonfast.Builder.{Builder, new_builder, add_bool_field, add_raw_bytes_field, sep}
use go_jsonfast.Walks.{
  walk_strings, walk_tokens, strings_rounds, tokens_rounds, take, walk_text, rest, walk_fault,
}
use go_jsonfast.Walks.Verdict.{Tells}
use go_jsonfast.Walks.Strings.{walk_strings-Tells}
use go_jsonfast.Walks.Tokens.{walk_tokens-Tells}
use go_jsonfast.Walks.Objects.{iterate_object, iterate_document}
use go_jsonfast.Walks.Objects.Exact.{valid_object, iterate_object-Tells}
use go_jsonfast.Decoder.{decode_value}
use go_jsonfast.Decoder.Verdict.{error_of, decode_value-Tells}
use go_jsonfast.Flatten.{
  flatten_object, max_flatten_depth, run_rounds, take_at, take_token, member, file_name, object,
  enter, leave, file_leaf, leaf_name, set_name, ensure, add_open, add_pending, open_leaf,
  close_leaf, leaf_token, text_value, value, item,
}
use go_jsonfast.Flatten.Verdict.{flatten_object-Tells}
use go_jsonfast.Flatten.Grown.{flatten_object-Extends}
use go_jsonfast.Flatten.Written.{Extends}

abbrev nested : Bytes
nested = codes "{\"a\":{\"b\":[{}]},\"c\":\"x\"}"

abbrev twice : Bytes
twice = codes "{\"a\":[],\"a\":{}}"

abbrev collect : List Bytes → Bytes → List Bytes × Option ℕ
collect seen s = (seen ++ s ∷ [], none)

abbrev collect_tokens : List (Bytes × Bytes) → Bytes → Bytes → List (Bytes × Bytes) × Option ℕ
collect_tokens seen name token = (seen ++ (name, token) ∷ [], none)

abbrev started : Builder
started = add_bool_field (codes "k") true new_builder

walk_strings-Tells_example :
    Tells (valid_utf8 nested (pos 4)) (walk_strings nested (pos 4) collect []).1
walk_strings-Tells_example =
    walk_strings-Tells nested (pos 4) collect [] (are_bytes_sound nested refl)

walk_tokens-Tells_example :
    Tells (valid_utf8 twice (pos 3)) (walk_tokens twice (pos 3) collect_tokens []).1
walk_tokens-Tells_example =
    walk_tokens-Tells twice (pos 3) collect_tokens [] (are_bytes_sound twice refl)

flatten_object-Tells_example :
    Tells (valid_utf8 nested (pos max_flatten_depth)) (flatten_object {E = ℕ} started nested).1
flatten_object-Tells_example = flatten_object-Tells ℕ started nested (are_bytes_sound nested refl)

flatten_object-Extends_example :
    ((e : Failure ℕ)
      → (flatten_object started twice).1 ≡ some e
      → (flatten_object {E = ℕ} started twice).0 ≡ started)
    × ((flatten_object {E = ℕ} started twice).1 ≡ none
        → Extends started.buf (flatten_object {E = ℕ} started twice).0.buf)
flatten_object-Extends_example = flatten_object-Extends ℕ started twice

flattened : (flatten_object {E = ℕ} new_builder nested).0.buf ≡ codes "\"b\":[{}],\"c\":\"x\""
unfolding flatten_object run_rounds take_at take_token member file_name object enter leave file_leaf
    leaf_name set_name ensure add_open add_pending open_leaf close_leaf leaf_token text_value value
    item push pop add walk_fault add_raw_bytes_field sep strict_token strict_end token next advance
    advance_rounds new_walker top step entry_at slot_at skip_ws slot_of_byte state_of closed
    get_kind set_kind put_bit finish finish_rounds
flattened = refl

strings_seen :
    (walk_strings nested (pos 4) collect []).0 ≡ codes "a" ∷ codes "b" ∷ codes "c" ∷ codes "x" ∷ []
unfolding walk_strings strings_rounds strict_token token next advance advance_rounds new_walker top
    step entry_at slot_at skip_ws slot_of_byte state_of closed get_kind set_kind put_bit finish
    finish_rounds
strings_seen = refl

repeated_token :
    walk_tokens twice (pos 3) collect_tokens []
    ≡ (([], codes "{") ∷ (codes "a", codes "[") ∷ ([], codes "]") ∷ [], some duplicate_name)
unfolding walk_tokens tokens_rounds take walk_text push pop add rest walk_fault strict_token
    strict_end token next advance advance_rounds new_walker top step entry_at slot_at skip_ws
    slot_of_byte state_of closed get_kind set_kind put_bit finish finish_rounds
repeated_token = refl

decode_value-Tells_example :
    Tells (valid_utf8 nested (pos 4)) (error_of (decode_value {E = ℕ} nested (pos 4) (λ raw. raw)))
decode_value-Tells_example =
    decode_value-Tells ℕ nested (pos 4) (λ raw. raw) (are_bytes_sound nested refl)

iterate_object-Tells_example :
    Tells (valid_object nested (pos 4)) (iterate_object nested (pos 4) collect_tokens []).1
    × Tells (valid_object nested (pos 4)) (iterate_document nested (pos 4) collect_tokens []).1
iterate_object-Tells_example =
    iterate_object-Tells nested (pos 4) collect_tokens [] (are_bytes_sound nested refl)
