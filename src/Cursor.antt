-- ===== src/Cursor.antt =====
-- cursor.go: a position at a value of a document.
pub mod Lookups
use go_jsonfast.Base.{
  ℕ, true, false, Option, some, none, [], ◌∷◌, if◌then◌else◌, ◌>>=◌, ℤ, length, byte_at, slice,
  Bytes,
}
use go_jsonfast.Scan.{skip_ws}
use go_jsonfast.Strings.{any_body}
use go_jsonfast.Names.{NameSet, no_names, add}
use go_jsonfast.Values.{skip_value_at, Kind, kind_invalid, kind_of_byte}
use go_jsonfast.Iterate.{
  Failure, malformed, duplicate_name, failed, Visit, stopped, passed, called, walk_items,
  walk_container, step_err, open_container, member_name, member_start, element_start,
}

pub record Cursor : Type 0 where
  pub text : Bytes
  pub at : ℕ

-- The zero Cursor, which holds no value.
abbrev pub no_cursor : Cursor
no_cursor = record { text = []; at = 0 }

unfoldable pub cursor_of : Bytes → Cursor
unfolding skip_ws
cursor_of text = record { text = text; at = skip_ws text 0 }

unfoldable pub kind : Cursor → Kind
unfolding kind_of_byte
kind c = elim (byte_at c.text c.at) [ none ↦ kind_invalid | some b ↦ kind_of_byte b ]

unfoldable pub find_member : Cursor → Bytes → Option Cursor
unfolding member_start
find_member c name = do at ← member_start c.text c.at name; some (record c { at = at })

unfoldable pub find_element : Cursor → ℤ → Option Cursor
unfolding element_start
find_element c index = do at ← element_start c.text c.at index; some (record c { at = at })

unfoldable pub raw : Cursor → Option Bytes
unfolding skip_value_at
raw c = do end ← skip_value_at c.text c.at; some (slice c.text c.at end)

-- A visit that skips the value after the caller's function saw it.
abbrev pub skip_value {ℓ} : {S E : Type ℓ} → Bytes → ℕ → S × Option E → Visit S E
skip_value text i (s, some e) = stopped s (failed e)
skip_value text i (s, none) = elim (skip_value_at text i) [
  | none ↦ stopped s malformed
  | some end ↦ passed s end
]

module _ {ℓ} {S E : Type ℓ} where
  abbrev pub elements_visit : Bytes → (S → Cursor → S × Option E) → S → ℕ → Visit S E
  elements_visit text fn s i = skip_value text i (fn s (record { text = text; at = i }))

  unfoldable pub iterate_array : Cursor → (S → Cursor → S × Option E) → S → S × Option (Failure E)
  unfolding skip_value_at open_container walk_items step_err
  iterate_array c fn s = walk_container c.text c.at b'[' (elements_visit c.text fn) step_err s

  abbrev pub values_visit :
      Bytes → (S → Bytes → Cursor → S × Option E) → S × NameSet → ℕ → Visit (S × NameSet) E
  values_visit text fn (s, names) i = elim (member_name text i any_body) [
    | none ↦ stopped (s, names) malformed
    | some (name, m) ↦
        let (names', new) = add names name in
        elim new [
          | false ↦ stopped (s, names') duplicate_name
          | true ↦
              (let (s', err) = fn s name (record { text = text; at = m.value_start }) in
                skip_value text m.value_start ((s', names'), err))
        ]
  ]

  unfoldable pub iterate_members :
      Cursor → (S → Bytes → Cursor → S × Option E) → S → S × Option (Failure E)
  unfolding member_name skip_value_at add open_container walk_items step_err
  iterate_members c fn s =
      let ((s', names), f) =
        walk_container c.text c.at b'{' (values_visit c.text fn) step_err (s, no_names) in
      (s', f)
