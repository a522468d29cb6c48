-- ===== src/Walk/Kinds.antt =====
-- kindStack of validate.go: the kind of each open container, one bit for a level, in four words
-- and a spill that grows.
pub mod Digits
pub mod Stack
use go_jsonfast.Base.{
  ℕ, ◌-◌, ◌/◌, ◌%◌, List, [], ◌∷◌, ◌++◌, ltb, leb, ◌==◌, if◌then◌else◌, length, get_or, set,
  replicate, bit_and, bit_or,
}
use go_jsonfast.Swar.{shift_right, shift_left64, and_not64}

abbrev pub kind_word_bits : ℕ
kind_word_bits = 64

abbrev pub inline_kind_words : ℕ
inline_kind_words = 4

pub record KindStack : Type 0 where
  pub shallow : List ℕ
  pub deep : List ℕ

abbrev pub no_kinds : KindStack
no_kinds = record { shallow = replicate inline_kind_words 0; deep = [] }

-- words[k]&^(1<<bit) | kind<<bit
unfoldable pub put_bit : ℕ → ℕ → ℕ → ℕ
unfolding and_not64
put_bit word bit kind = bit_or (and_not64 word (shift_left64 1 bit)) (shift_left64 kind bit)

abbrev pub get_bit : ℕ → ℕ → ℕ
get_bit word bit = bit_and (shift_right word bit) 1

-- spill: the deeper words, grown to hold word `k`, at most one past their end.
unfoldable pub spill : List ℕ → ℕ → List ℕ
spill deep k = if k == length deep then deep ++ 0 ∷ [] else deep

unfoldable pub set_kind : KindStack → ℕ → ℕ → KindStack
unfolding put_bit spill
set_kind s depth kind =
    let k = depth / kind_word_bits in
    let bit = depth % kind_word_bits in
    if leb inline_kind_words k
    then (let words = spill s.deep (k - inline_kind_words) in
        let at = k - inline_kind_words in
        record s { deep = set words at (put_bit (get_or words at 0) bit kind) })
    else record s { shallow = set s.shallow k (put_bit (get_or s.shallow k 0) bit kind) }

unfoldable pub get_kind : KindStack → ℕ → ℕ
get_kind s depth =
    let k = depth / kind_word_bits in
    let bit = depth % kind_word_bits in
    if ltb k inline_kind_words
    then get_bit (get_or s.shallow k 0) bit
    else get_bit (get_or s.deep (k - inline_kind_words) 0) bit
