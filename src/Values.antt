-- ===== src/Values.antt =====
-- scan.go and kind.go: whole values. A scan past a value checks strings, numbers and literals in
-- full and of a container only that its own opener and closer balance; KindOf looks at one byte.
pub mod Kinds
use go_jsonfast.Base.{
  ℕ, zero, suc, ◌+◌, ◌-◌, ◌*◌, ◌%◌, Bool, true, false, ◌&&◌, ◌||◌, not, Option, some, none, [], ◌∷◌,
  ltb, leb, ◌==◌, if◌then◌else◌, length, drop, byte_at, Bytes, bit_and, bit_or, bit_xor,
}
use go_jsonfast.Swar.{
  word_size, word_limit, swar_lo, swar_hi, swar_quote, borrow_lanes, load64, first_lane, run_of,
}
use go_jsonfast.Scan.{skip_ws, skip_scalar}
use go_jsonfast.Strings.{skip_string_at}

abbrev pub closer_offset : ℕ
closer_offset = b'}' - b'{'

abbrev pub closer_of : ℕ → ℕ
closer_of c = (c + closer_offset) % 256

-- A byte that the scan past a container passes.
abbrev pub braced_byte : ℕ → ℕ → Bool
braced_byte opener c = not (c == b'"') && not (c == opener) && not (c == closer_of opener)

unfoldable pub braced_bytes : Bytes → ℕ → ℕ → ℕ
unfolding run_of
braced_bytes text j opener = run_of (braced_byte opener) (drop j text) j

unfoldable pub braced_mask : ℕ → ℕ → ℕ
unfolding borrow_lanes
braced_mask opener w =
    bit_and
      (bit_or
        (bit_or (borrow_lanes (bit_xor w swar_quote))
          (borrow_lanes (bit_xor w ((swar_lo * opener) % word_limit))))
        (borrow_lanes (bit_xor w ((swar_lo * closer_of opener) % word_limit))))
      swar_hi

-- The loop of bracedRun over words.
unfoldable pub braced_words : ℕ → Bytes → ℕ → ℕ → ℕ
unfolding braced_bytes braced_mask load64 first_lane
braced_words zero text j opener = braced_bytes text j opener
braced_words (suc rounds) text j opener =
    let m = braced_mask opener (load64 text j) in
    let on = braced_words rounds text (j + word_size) opener in
    let stop = if m == 0 then on else j + first_lane m in
    if leb (j + word_size) (length text) then stop else braced_bytes text j opener

unfoldable pub braced_run : Bytes → ℕ → ℕ → ℕ
unfolding braced_words
braced_run text j opener =
    let words = braced_words (length text) text j opener in
    elim (byte_at text j) [
      | none ↦ words
      | some c ↦ if c == b'"' || c == opener || c == closer_of opener then j else words
    ]

-- The loop of skipBraced at `j`, inside `depth` pairs. Each round passes a byte.
unfoldable pub braced_rounds : ℕ → Bytes → ℕ → ℕ → ℕ → Option ℕ
unfolding braced_run skip_string_at
braced_rounds zero text opener depth j = none
braced_rounds (suc rounds) text opener depth j =
    let k = braced_run text j opener in
    elim (byte_at text k) [
      | none ↦ none
      | some c ↦ elim (c == b'"') [
        | true ↦ elim (skip_string_at text k) [
          | none ↦ none
          | some end ↦ braced_rounds rounds text opener depth end
        ]
        | false ↦
            let depth' =
              if c == opener
              then suc depth
              else if c == closer_of opener
              then depth - 1
              else depth in
            elim (depth' == 0) [
              | true ↦ some (suc k)
              | false ↦ braced_rounds rounds text opener depth' (suc k)
            ]
      ]
    ]

-- text[i] is the opener.
unfoldable pub skip_braced : Bytes → ℕ → ℕ → Option ℕ
unfolding braced_rounds
skip_braced text i opener = braced_rounds (suc (length text)) text opener 1 (suc i)

unfoldable pub skip_value_at : Bytes → ℕ → Option ℕ
unfolding skip_ws skip_string_at skip_braced skip_scalar
skip_value_at text i =
    let at = skip_ws text i in
    elim (byte_at text at) [
      | none ↦ none
      | some c ↦
          if c == b'"'
          then skip_string_at text at
          else if c == b'{' || c == b'['
          then skip_braced text at c
          else skip_scalar text at
    ]

pub data Kind : Type 0 where
  kind_invalid kind_null kind_bool kind_number kind_string kind_array kind_object : Kind

unfoldable pub kind_of_byte : ℕ → Kind
kind_of_byte c =
    if c == b'n'
    then kind_null
    else if c == b't' || c == b'f'
    then kind_bool
    else if c == b'"'
    then kind_string
    else if c == b'['
    then kind_array
    else if c == b'{'
    then kind_object
    else if c == b'-' || (leb b'0' c && leb c b'9')
    then kind_number
    else kind_invalid

unfoldable pub kind_of : Bytes → Kind
unfolding skip_ws kind_of_byte
kind_of raw = elim (byte_at raw (skip_ws raw 0)) [ none ↦ kind_invalid | some c ↦ kind_of_byte c ]
