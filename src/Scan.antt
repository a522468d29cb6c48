-- ===== src/Scan.antt =====
-- scan.go: whitespace, numbers and literals. Text is scanned at an index; a Go result
-- `(end, ok)` is an `Option`, where `0, false` is `none`. text[i] is read only below len(text).
pub mod Number
pub mod Texts
use go_jsonfast.Base.{
  ℕ, zero, suc, ◌+◌, ◌-◌, ◌^◌, Bool, true, false, ◌&&◌, ◌||◌, not, Option, some, none, [], ◌∷◌, ltb,
  leb, ◌==◌, if◌then◌else◌, ◌>>=◌, length, drop, byte_at, slice, Bytes, codes, bit_and, bit_or,
}
use go_jsonfast.Swar.{shift_right, shift_left64, run_of}

abbrev pub lit_true : Bytes
lit_true = codes "true"

abbrev pub lit_false : Bytes
lit_false = codes "false"

abbrev pub lit_null : Bytes
lit_null = codes "null"

-- `==` of two Go strings.
unfoldable pub bytes_eq : Bytes → Bytes → Bool
bytes_eq [] [] = true
bytes_eq (x ∷ xs) (y ∷ ys) = x == y && bytes_eq xs ys
bytes_eq _ _ = false

abbrev pub ws_bits : ℕ
ws_bits =
    bit_or (bit_or (bit_or (shift_left64 1 b' ') (shift_left64 1 b'\t')) (shift_left64 1 b'\n'))
      (shift_left64 1 b'\r')

unfoldable pub is_space : ℕ → Bool
is_space c = leb c b' ' && bit_and (shift_right ws_bits c) 1 == 1

unfoldable pub is_digit : ℕ → Bool
is_digit c = leb b'0' c && leb c b'9'

unfoldable pub skip_ws : Bytes → ℕ → ℕ
unfolding run_of is_space
skip_ws text i = run_of is_space (drop i text) i

-- `for isSpace(d[j-1]) { j-- }`
unfoldable pub trim_back : Bytes → ℕ → ℕ
unfolding is_space
trim_back text zero = zero
trim_back text (suc j) =
    let on = trim_back text j in
    elim (byte_at text j) [ none ↦ suc j | some c ↦ if is_space c then on else suc j ]

unfoldable pub trim_ws : Bytes → Bytes
unfolding skip_ws trim_back
trim_ws text =
    let i = skip_ws text 0 in
    if i == length text then [] else slice text i (trim_back text (length text))

unfoldable pub skip_literal : Bytes → ℕ → Bytes → Option ℕ
unfolding bytes_eq
skip_literal text i lit =
    if ltb (length text - i) (length lit) || not (bytes_eq (slice text i (i + length lit)) lit)
    then none
    else some (i + length lit)

unfoldable pub skip_digits : Bytes → ℕ → ℕ
unfolding run_of is_digit
skip_digits text i = run_of is_digit (drop i text) i

unfoldable pub skip_digit_run : Bytes → ℕ → Option ℕ
unfolding skip_digits
skip_digit_run text i = let j = skip_digits text i in if ltb i j then some j else none

-- Past the byte at `i`, if there is one and the test takes it.
abbrev pub past : (ℕ → Bool) → Bytes → ℕ → ℕ
past test text i = elim (byte_at text i) [ none ↦ i | some c ↦ if test c then suc i else i ]

unfoldable pub integer_part : Bytes → ℕ → Option ℕ
unfolding skip_digits is_digit
integer_part text j = elim (byte_at text j) [
  | none ↦ none
  | some c ↦
      if c == b'0'
      then some (suc j)
      else if is_digit c
      then some (skip_digits text (suc j))
      else none
]

unfoldable pub skip_integer : Bytes → ℕ → Option ℕ
unfolding integer_part
skip_integer text i = integer_part text (past (λ c. c == b'-') text i)

unfoldable pub skip_fraction : Bytes → ℕ → Option ℕ
unfolding skip_digit_run
skip_fraction text i = elim (byte_at text i) [
  | none ↦ some i
  | some c ↦ if c == b'.' then skip_digit_run text (suc i) else some i
]

unfoldable pub skip_exponent : Bytes → ℕ → Option ℕ
unfolding skip_digit_run
skip_exponent text i = elim (byte_at text i) [
  | none ↦ some i
  | some c ↦
      if c == b'e' || c == b'E'
      then skip_digit_run text (past (λ s. s == b'+' || s == b'-') text (suc i))
      else some i
]

-- Where the parts of a number end.
pub record NumberSpan : Type 0 where
  pub int_end : ℕ
  pub frac_end : ℕ
  pub number_end : ℕ

unfoldable pub number_at : Bytes → ℕ → Option NumberSpan
unfolding skip_integer skip_fraction skip_exponent
number_at text i = do
  a ← skip_integer text i
  b ← skip_fraction text a
  c ← skip_exponent text b
  some (record { int_end = a; frac_end = b; number_end = c })

unfoldable pub skip_number : Bytes → ℕ → Option ℕ
unfolding number_at
skip_number text i = do s ← number_at text i; some s.number_end

-- scalar.go
unfoldable pub is_number : Bytes → Bool
unfolding skip_number
is_number raw = elim (skip_number raw 0) [ none ↦ false | some end ↦ end == length raw ]

unfoldable pub skip_scalar : Bytes → ℕ → Option ℕ
unfolding skip_literal skip_number
skip_scalar text i = elim (byte_at text i) [
  | none ↦ none
  | some c ↦
      if c == b't'
      then skip_literal text i lit_true
      else if c == b'f'
      then skip_literal text i lit_false
      else if c == b'n'
      then skip_literal text i lit_null
      else skip_number text i
]
